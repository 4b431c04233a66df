-- ===== src/Ir/AssignTokens/Metadata.antt =====
-- What the last loop of assign_tokens.rs keeps of the metadata.
use slug_arch.Base.{ℕ, ◌≡◌, refl, sym, subst, ◌∙◌}
use slug_arch.Base.{true, Bool-cases, inl, inr, some, List, [], ◌∷◌}
use slug_arch.Base.{
  Map, insert, lookup, lookup_or, lookup-insert, lookup-insert_other, contains, ◌==◌, ==_iff,
}
use slug_arch.Ir.Ops.{OpMeta, default_meta}
use slug_arch.Ir.Graph.{Edge, predecessors}
use slug_arch.Ir.AssignTokens.{token_at, assign, max_token}
use slug_arch.Ir.AssignTokens.Walk.{differ}

-- A map with metadata of a property at an id.
abbrev pub HasAt : (OpMeta → Type 0) → Map OpMeta → ℕ → Type 0
HasAt P meta id = (m : OpMeta) × (lookup meta id ≡ some m) × P m

-- The entry that the loop writes for an id.
abbrev pub with_tokens : ℕ → ℕ → OpMeta → OpMeta
with_tokens i o m = record m { token_in = some i; token_out = some o }

-- Metadata with a property `P` gets a property `Q` when the tokens are written, and `Q` is kept.
module _ (edges : List Edge) (P Q : OpMeta → Type 0)
    (writes : (m : OpMeta) (tok : Map ℕ) (id o : ℕ)
      → P m
      → Q (with_tokens (max_token tok 0 (predecessors edges id)) o m))
    (weaker : (m : OpMeta) → Q m → P m) where
  written :
      (tok : Map ℕ) (o : ℕ) (meta : Map OpMeta) (k id : ℕ)
      → (k == id) ≡ true
      → HasAt P meta id
      → HasAt Q
          (insert meta k (
            with_tokens (max_token tok 0 (predecessors edges k)) o (lookup_or meta k default_meta)))
          id
  written tok o meta k id same (m, e, p) =
      let q : k ≡ id = (==_iff k id).0 same in
      let here : lookup_or meta k default_meta ≡ m = rw q (rw (lookup_or, e) refl) in
      let entry =
        with_tokens (max_token tok 0 (predecessors edges k)) o (lookup_or meta k default_meta) in
      (
        entry,
        subst (λ j. lookup (insert meta k entry) j ≡ some entry) q (lookup-insert meta k entry),
        writes (lookup_or meta k default_meta) tok k o (subst P (sym here) p),
      )

  stays :
      (ids : List ℕ) (i : ℕ) (tok : Map ℕ) (meta : Map OpMeta) (id : ℕ)
      → HasAt Q meta id
      → HasAt Q (assign edges i tok meta ids) id
  unfolding assign
  stays [] i tok meta id h = h
  stays (k ∷ ids) i tok meta id (m, e, q) = elim (Bool-cases (k == id)) [
    | inl same ↦ stays ids _ _ _ id (written tok (token_at i) meta k id same (m, e, weaker m q))
    | inr other ↦ stays ids _ _ _ id (m, lookup-insert_other meta k id _ (differ k id other) ∙ e, q)
  ]

  pub assign-HasAt :
      (ids : List ℕ) (i : ℕ) (tok : Map ℕ) (meta : Map OpMeta) (id : ℕ)
      → contains ids id ≡ true
      → HasAt P meta id
      → HasAt Q (assign edges i tok meta ids) id
  unfolding assign
  assign-HasAt [] i tok meta id c h = cc (c)
  assign-HasAt (k ∷ ids) i tok meta id c (m, e, p) = elim (Bool-cases (k == id)) [
    | inl same ↦ stays ids _ _ _ id (written tok (token_at i) meta k id same (m, e, p))
    | inr other ↦
        let rest : contains ids id ≡ true = rw other at c in
        assign-HasAt ids _ _ _ id rest
          (m, lookup-insert_other meta k id _ (differ k id other) ∙ e, p)
  ]
