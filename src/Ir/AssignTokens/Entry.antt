-- ===== src/Ir/AssignTokens/Entry.antt =====
-- The loop of assign_tokens.rs over the order: what each round adds to the tokens and the metadata.
use slug_arch.Base.{ℕ, ◌+◌, ◌^◌, ◌≤◌, ◌<◌, ◌≡◌, ◌≢◌, refl, sym, ap, subst, ◌∙◌, arith, inl, inr}
use slug_arch.Base.{true, false, none, some, List, [], ◌∷◌, ◌++◌, append_assoc, append-nil}
use slug_arch.Base.{
  Map, insert, lookup, lookup_or, contains, ◌==◌, ==_iff, length, All, Bool-cases, lookup-insert,
  lookup-insert_other,
}
use slug_arch.Ir.Ops.{OpMeta, default_meta}
use slug_arch.Ir.Graph.{Edge, src, dst, predecessors}
use slug_arch.Ir.AssignTokens.{token_at, assign, max_token}
use slug_arch.Ir.AssignTokens.Walk.{pending, Ordered, differ, contains-snoc, or-false}
use slug_arch.Ir.AssignTokens.Tokens.{
  token_in_of, token_out_of, Follows, pending-none, Below, max_token-Below, Covers,
  max_token-Covers,
}

-- What holds before each round, with the ids done so far.
pub record IsAssigned (edges : List Edge) (i : ℕ) (tok : Map ℕ) (meta : Map OpMeta)
    (before : List ℕ) : Type 0 where
  pub below : Below tok i
  pub given :
      (x : ℕ)
      → contains before x ≡ true
      → (t : ℕ) × (lookup tok x ≡ some t) × (token_out_of meta x ≡ some t)
  pub follows :
      All
        (λ e. contains before (dst e) ≡ true → (contains before (src e) ≡ true) × Follows meta e)
        edges

-- The metadata after a round.
abbrev entry : List Edge → ℕ → Map ℕ → Map OpMeta → ℕ → Map OpMeta
entry edges i tok meta id = insert meta id (record (lookup_or meta id default_meta) {
  token_in = some (max_token tok 0 (predecessors edges id));
  token_out = some (token_at i);
})

module _ (edges : List Edge) (i : ℕ) (tok : Map ℕ) (meta : Map OpMeta) (before : List ℕ) (id : ℕ)
    (small : i + 1 < 2 ^ 32) (new : contains before id ≡ false)
    (inv : IsAssigned edges i tok meta before) where
  entry-Below : Below (insert tok id (token_at i)) (i + 1)
  entry-Below x t h = elim (Bool-cases (id == x)) [
    | inl e ↦
        let v : ℕ = token_at i in
        let found : some v ≡ some t =
          sym (lookup-insert tok id v) ∙ (ap (lookup (insert tok id v)) ((==_iff id x).0 e) ∙ h) in
        let value : v ≡ t = cc (found) in omega (arith, value)
    | inr e ↦
        let found : t ≤ i =
          inv.below x t (sym (lookup-insert_other tok id x (token_at i) (differ id x e)) ∙ h) in
        omega (arith, found)
  ]

  -- An id that is done is another one.
  done-differs : (x : ℕ) → contains before x ≡ true → id ≢ x
  done-differs x h p = let b : contains before id ≡ contains before x = ap (contains before) p in cc

  entry-kept :
      (x : ℕ) → contains before x ≡ true → lookup (entry edges i tok meta id) x ≡ lookup meta x
  entry-kept x h = lookup-insert_other meta id x _ (done-differs x h)

  entry-token_out :
      (x : ℕ) → id ≡ x → token_out_of (entry edges i tok meta id) x ≡ some (token_at i)
  entry-token_out x p =
      ap (token_out_of (entry edges i tok meta id)) (sym p)
      ∙ ap (λ o. elim o [ none ↦ none | some m ↦ m.token_out ]) (lookup-insert meta id _)

  entry-token_in :
      (x : ℕ)
      → id ≡ x
      → token_in_of (entry edges i tok meta id) x ≡ some (max_token tok 0 (predecessors edges id))
  entry-token_in x p =
      ap (token_in_of (entry edges i tok meta id)) (sym p)
      ∙ ap (λ o. elim o [ none ↦ none | some m ↦ m.token_in ]) (lookup-insert meta id _)

  entry-given :
      (x : ℕ)
      → contains (before ++ (id ∷ [])) x ≡ true
      → (t : ℕ) × (lookup (insert tok id (token_at i)) x ≡ some t)
        × (token_out_of (entry edges i tok meta id) x ≡ some t)
  entry-given x h = elim (Bool-cases (id == x)) [
    | inl e ↦
        let same : id ≡ x = (==_iff id x).0 e in
        (
          token_at i,
          ap (lookup (insert tok id (token_at i))) (sym same) ∙ lookup-insert tok id _,
          entry-token_out x same,
        )
    | inr e ↦
        let old : contains before x ≡ true =
          sym (or-false (contains before x))
          ∙ (rw⁻¹ e refl ∙ (sym (contains-snoc before id x) ∙ h)) in
        let (t, a, b) = inv.given x old in
        (
          t,
          lookup-insert_other tok id x _ (differ id x e) ∙ a,
          ap (λ o. elim o [ none ↦ none | some m ↦ m.token_out ]) (entry-kept x old) ∙ b,
        )
  ]

  abbrev Later : Edge → Type 0
  Later e =
      contains (before ++ (id ∷ [])) (dst e) ≡ true
      → (contains (before ++ (id ∷ [])) (src e) ≡ true) × Follows (entry edges i tok meta id) e

  done-kept : (x : ℕ) → contains before x ≡ true → contains (before ++ (id ∷ [])) x ≡ true
  done-kept x h = contains-snoc before id x ∙ rw h refl

  -- An edge into the id of the round: its source is done, and its token is covered.
  entry-into :
      (e : Edge)
      → id ≡ dst e
      → contains before (src e) ≡ true
      → Covers tok id (max_token tok 0 (predecessors edges id)) e
      → Follows (entry edges i tok meta id) e
  entry-into e p seen covered =
      let (t, a, b) = inv.given (src e) seen in
      let bound = max_token-Below tok 0 i (predecessors edges id) inv.below (omega arith) in
      record {
        source_out = t;
        target_in = max_token tok 0 (predecessors edges id);
        target_out = token_at i;
        source_is =
            ap (λ o. elim o [ none ↦ none | some m ↦ m.token_out ]) (entry-kept (src e) seen) ∙ b;
        waits_is = entry-token_in (dst e) p;
        target_is = entry-token_out (dst e) p;
        waits = covered (sym p) t a;
        later = omega (arith, bound, small);
      }

  -- An edge between ids that are done keeps its tokens.
  entry-old :
      (e : Edge)
      → contains before (src e) ≡ true
      → contains before (dst e) ≡ true
      → Follows meta e
      → Follows (entry edges i tok meta id) e
  entry-old e s d f = record {
    source_out = f.source_out;
    target_in = f.target_in;
    target_out = f.target_out;
    source_is =
        ap (λ o. elim o [ none ↦ none | some m ↦ m.token_out ]) (entry-kept (src e) s)
        ∙ f.source_is;
    waits_is =
        ap (λ o. elim o [ none ↦ none | some m ↦ m.token_in ]) (entry-kept (dst e) d) ∙ f.waits_is;
    target_is =
        ap (λ o. elim o [ none ↦ none | some m ↦ m.token_out ]) (entry-kept (dst e) d)
        ∙ f.target_is;
    waits = f.waits;
    later = f.later;
  }

  entry-Later :
      (es : List Edge)
      → All
          (λ e. contains before (dst e) ≡ true → (contains before (src e) ≡ true) × Follows meta e)
          es
      → All (λ e. dst e ≡ id → contains before (src e) ≡ true) es
      → All (Covers tok id (max_token tok 0 (predecessors edges id))) es
      → All Later es
  entry-Later [] o p c = tt
  entry-Later (e ∷ es) (o, os) (p, ps) (c, cs) = (
    λ h. elim (Bool-cases (id == dst e)) [
      | inl q ↦
          let same : id ≡ dst e = (==_iff id (dst e)).0 q in
          let seen : contains before (src e) ≡ true = p (sym same) in
          (done-kept (src e) seen, entry-into e same seen c)
      | inr q ↦
          let old : contains before (dst e) ≡ true =
            sym (or-false (contains before (dst e)))
            ∙ (rw⁻¹ q refl ∙ (sym (contains-snoc before id (dst e)) ∙ h)) in
          let (seen, f) = o old in (done-kept (src e) seen, entry-old e seen old f)
    ],
    entry-Later es os ps cs,
  )

  entry-IsAssigned :
      pending edges before id ≡ 0
      → IsAssigned edges
          (i + 1)
          (insert tok id (token_at i))
          (entry edges i tok meta id)
          (before ++ (id ∷ []))
  entry-IsAssigned h = record {
    below = entry-Below;
    given = entry-given;
    follows =
        entry-Later edges inv.follows (pending-none edges before id h)
          (max_token-Covers tok edges id 0);
  }

pub assign-IsAssigned :
    (edges : List Edge) (i : ℕ) (tok : Map ℕ) (meta : Map OpMeta) (before ids : List ℕ)
    → Ordered edges before ids
    → i + length ids < 2 ^ 32
    → IsAssigned edges i tok meta before
    → (last : ℕ) × (tok' : Map ℕ) × IsAssigned edges last tok'
        (assign edges i tok meta ids)
        (before ++ ids)
unfolding assign
assign-IsAssigned edges i tok meta before [] o h inv =
    (i, tok, subst (IsAssigned edges i tok meta) (sym (append-nil before)) inv)
assign-IsAssigned edges i tok meta before (id ∷ ids) (new, free, o) h inv =
    let (last, tok', done) =
      assign-IsAssigned edges (i + 1) (insert tok id (token_at i)) (entry edges i tok meta id)
        (before ++ (id ∷ [])) ids o (omega arith)
        (entry-IsAssigned edges i tok meta before id (omega arith) new inv free) in
    (
      last,
      tok',
      subst (IsAssigned edges last tok' (assign edges i tok meta (id ∷ ids)))
          (append_assoc before (id ∷ []) ids) done,
    )

nothing_pending :
    (es : List Edge) (P : Edge → Type 0) → All (λ e. contains [] (dst e) ≡ true → P e) es
nothing_pending [] P = tt
nothing_pending (e ∷ es) P = (λ h. cc (h), nothing_pending es P)

pub start-IsAssigned : (edges : List Edge) (meta : Map OpMeta) → IsAssigned edges 0 [] meta []
start-IsAssigned edges meta = record {
  below = λ x t h. cc (h);
  given = λ x h. cc (h);
  follows = nothing_pending edges (λ e. (contains [] (src e) ≡ true) × Follows meta e);
}
