-- ===== src/Ir/ValidateAgainstRtlmap/Nodes.antt =====
-- The maps between ops and nodes that validate_against_rtlmap.rs builds.
use Prim.Native.String.{String}
use slug_arch.Base.{
  ℕ, ◌≡◌, inl, inr, refl, sym, ap, subst, ◌∙◌, true, false, Bool-cases, Option, none, some, List,
  [], ◌∷◌,
}
use slug_arch.Base.{
  Map, IsMap, lookup, keys, contains, ◌==◌, ==_iff, lookup-insert, lookup-insert_other,
  IsMap-insert,
}
use slug_arch.Ir.Ops.{OpMeta}
use slug_arch.Ir.AssignTokens.Walk.{differ}
use slug_arch.Ir.ValidateAgainstRtlmap.{node_of_hint, put_node, op_to_node}

-- The node of an op's metadata.
abbrev pub node_at : List (String × String) → Option OpMeta → Option String
node_at hints none = none
node_at hints (some m) = node_of_hint hints m.source_hint

-- An op stands for a node, by the hint of its metadata.
abbrev pub StandsFor : List (String × String) → Map OpMeta → ℕ → String → Type 0
StandsFor hints meta id node = node_at hints (lookup meta id) ≡ some node

abbrev over : Option String → Option String → Option String
over none x = x
over (some n) x = some n

lookup-none : {V : Type 0} (m : Map V) (k : ℕ) → contains (keys m) k ≡ false → lookup m k ≡ none
lookup-none [] k h = refl
lookup-none ((j, v) ∷ m) k h = elim (Bool-cases (j == k)) [
  | inl e ↦ let bad : true ≡ false = rw e at h in cc (bad)
  | inr e ↦ let rest : contains (keys m) k ≡ false = rw e at h in rw e (lookup-none m k rest)
]

lookup-put_node :
    (acc : Map String) (id : ℕ) (o : Option String)
    → lookup (put_node acc id o) id ≡ over o (lookup acc id)
lookup-put_node acc id none = refl
lookup-put_node acc id (some n) = lookup-insert acc id n

lookup-put_node_other :
    (acc : Map String) (j id : ℕ) (o : Option String)
    → (j == id) ≡ false
    → lookup (put_node acc j o) id ≡ lookup acc id
lookup-put_node_other acc j id none e = refl
lookup-put_node_other acc j id (some n) e = lookup-insert_other acc j id n (differ j id e)

module _ (hints : List (String × String)) where
  lookup-op_to_node :
      (meta : Map OpMeta) (acc : Map String) (id : ℕ)
      → IsMap meta
      → lookup (op_to_node hints meta acc) id
        ≡ over (node_at hints (lookup meta id)) (lookup acc id)
  unfolding op_to_node
  lookup-op_to_node [] acc id h = refl
  lookup-op_to_node ((j, m) ∷ meta) acc id (new, h) = elim (Bool-cases (j == id)) [
    | inl e ↦
        let same : j ≡ id = (==_iff j id).0 e in
        let new' : contains (keys meta) id ≡ false =
          subst (λ k. contains (keys meta) k ≡ false) same new in
        let node = node_of_hint hints m.source_hint in
        let here : lookup (put_node acc j node) id ≡ over node (lookup acc id) =
          subst (λ k. lookup (put_node acc k node) id ≡ over node (lookup acc id)) (sym same)
            (lookup-put_node acc id node) in
        lookup-op_to_node meta (put_node acc j node) id h ∙ rw (lookup-none meta id new', e) here
    | inr e ↦
        lookup-op_to_node meta (put_node acc j (node_of_hint hints m.source_hint)) id h
        ∙ rw e (
            ap (over (node_at hints (lookup meta id)))
              (lookup-put_node_other acc j id (node_of_hint hints m.source_hint) e))
  ]

  over-none : (o : Option String) → over o none ≡ o
  over-none none = refl
  over-none (some n) = refl

  -- The map `op_to_node` has the node of each op.
  pub lookup-op_to_node_nil :
      (meta : Map OpMeta) (id : ℕ)
      → IsMap meta
      → lookup (op_to_node hints meta []) id ≡ node_at hints (lookup meta id)
  lookup-op_to_node_nil meta id h = lookup-op_to_node meta [] id h ∙ over-none _

  IsMap-op_to_node :
      (meta : Map OpMeta) (acc : Map String) → IsMap acc → IsMap (op_to_node hints meta acc)
  unfolding op_to_node
  IsMap-op_to_node [] acc h = h
  IsMap-op_to_node ((j, m) ∷ meta) acc h =
      IsMap-op_to_node meta _ (put (node_of_hint hints m.source_hint))
    where
      put : (o : Option String) → IsMap (put_node acc j o)
      put none = h
      put (some n) = IsMap-insert acc j n h

  pub op_to_node-IsMap : (meta : Map OpMeta) → IsMap (op_to_node hints meta [])
  op_to_node-IsMap meta = IsMap-op_to_node meta [] tt
