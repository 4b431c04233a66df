-- ===== src/Ir/SelectBackend.antt =====
-- crates/slugarch-ir/src/passes/select_backend.rs. A policy is its function `pick`; its name is text for
-- the artifacts. The pass visits the entries of the map of ops, each key once.
use slug_arch.Base.{
  IsMap, ℕ, ◌≡◌, ◌≢◌, refl, ap, subst, ◌∙◌, arith, true, false, Bool-cases, inl, inr, none, some,
  List, [], ◌∷◌,
}
use slug_arch.Base.{
  Map, insert, lookup, lookup_or, keys, contains, ◌==◌, ==_iff, leb, if◌then◌else◌, lookup-insert,
  lookup-insert_other,
}
use slug_arch.Ir.Types.{
  IpId, systolic_array4x4, systolic_array16x16, systolic_array32x32, npu_array_v4_seed_g, noc_mesh,
  ptx_emulation_core,
}
use slug_arch.Ir.Ops.{Op, OpMeta, TileKind, default_meta}
use slug_arch.Ir.Graph.{Function}

-- `shape.0.iter().copied().max().unwrap_or(0)`
abbrev pub max_dim : List ℕ → ℕ
max_dim [] = 0
max_dim (d ∷ ds) = let rest = max_dim ds in if leb rest d then d else rest

unfoldable pub gemm_tile_ip : List ℕ → IpId
gemm_tile_ip shape =
    if leb 128 (max_dim shape)
    then systolic_array32x32
    else if leb 32 (max_dim shape)
    then systolic_array16x16
    else systolic_array4x4

-- `DefaultPolicy::pick`
unfoldable pub default_pick : Op → IpId
default_pick (Op.tensor_tile TileKind.gemm shape _ _) = gemm_tile_ip shape
default_pick (Op.tensor_tile TileKind.elementwise _ _ _) = npu_array_v4_seed_g
default_pick (Op.state_step _ _) = npu_array_v4_seed_g
default_pick (Op.dma _ _ _) = noc_mesh
default_pick (Op.emu _ _) = ptx_emulation_core
default_pick (Op.arith_op _ _ _) = ptx_emulation_core

-- `ForceIp::pick`
abbrev pub force_pick : IpId → Op → IpId
force_pick ip op = ip

-- The loop over the ops of a function.
unfoldable pub select_ops : (Op → IpId) → Map Op → Map OpMeta → Map OpMeta
select_ops pick [] meta = meta
select_ops pick ((id, op) ∷ ops) meta =
    select_ops pick ops
      (insert meta id (record (lookup_or meta id default_meta) { backend = some (pick op) }))

unfoldable pub select_function : (Op → IpId) → Function → Function
select_function pick f = record f { meta = select_ops pick f.ops f.meta }

unfoldable pub select_backend : (Op → IpId) → List Function → List Function
select_backend pick [] = []
select_backend pick (f ∷ fs) = select_function pick f ∷ select_backend pick fs

contains-lookup : {V : Type 0} (m : Map V) (k : ℕ) → contains (keys m) k ≡ false → lookup m k ≡ none
contains-lookup [] k h = refl
contains-lookup ((j, v) ∷ m) k h = elim (Bool-cases (j == k)) [
  | inl e ↦ let bad : true ≡ false = rw e at h in cc (bad)
  | inr e ↦ let rest : contains (keys m) k ≡ false = rw e at h in rw e (contains-lookup m k rest)
]

differs : (j k : ℕ) → (j == k) ≡ false → j ≢ k
differs j k e p = ground (arith, e, p)

-- The pass leaves an id without an op alone.
select_ops-other :
    (pick : Op → IpId) (ops : Map Op) (meta : Map OpMeta) (id : ℕ)
    → lookup ops id ≡ none
    → lookup (select_ops pick ops meta) id ≡ lookup meta id
unfolding select_ops
select_ops-other pick [] meta id h = refl
select_ops-other pick ((j, op) ∷ ops) meta id h = elim (Bool-cases (j == id)) [
  | inl e ↦ let bad : some op ≡ none = rw e at h in cc (bad)
  | inr e ↦
      let rest : lookup ops id ≡ none = rw e at h in
      select_ops-other pick ops _ id rest ∙ lookup-insert_other meta j id _ (differs j id e)
]

abbrev pub selected : (Op → IpId) → Op → OpMeta → OpMeta
selected pick op m = record m { backend = some (pick op) }

select_ops-selected :
    (pick : Op → IpId) (ops : Map Op) (meta : Map OpMeta) (id : ℕ) (op : Op)
    → IsMap ops
    → lookup ops id ≡ some op
    → lookup (select_ops pick ops meta) id
      ≡ some (selected pick op (lookup_or meta id default_meta))
unfolding select_ops
select_ops-selected pick [] meta id op m h = cc (h)
select_ops-selected pick ((j, op') ∷ ops) meta id op (new, m) h = elim (Bool-cases (j == id)) [
  | inl e ↦
      let written : Map OpMeta =
        insert meta j (selected pick op' (lookup_or meta j default_meta)) in
      let found : some op' ≡ some op = rw e at h in
      let same : op' ≡ op = cc (found) in
      let here : lookup (select_ops pick ops written) j
          ≡ some (selected pick op' (lookup_or meta j default_meta)) =
        select_ops-other pick ops written j (contains-lookup ops j new) ∙ lookup-insert meta j _ in
      subst
        (λ k.
          lookup (select_ops pick ops written) k
          ≡ some (selected pick op' (lookup_or meta k default_meta)))
        ((==_iff j id).0 e) here
      ∙ ap (λ o. some (selected pick o (lookup_or meta id default_meta))) same
  | inr e ↦
      let written : Map OpMeta =
        insert meta j (selected pick op' (lookup_or meta j default_meta)) in
      let found : lookup ops id ≡ some op = rw e at h in
      select_ops-selected pick ops written id op m found
      ∙ ap (λ o. some (selected pick op (elim o [ none ↦ default_meta | some v ↦ v ])))
          (lookup-insert_other meta j id _ (differs j id e))
]

-- The pass gives every op of a function the backend that the policy picks for it, keeps the rest of its
-- metadata, and leaves the metadata of every other id as it is.
pub select_function-selected :
    (pick : Op → IpId) (f : Function) (id : ℕ)
    → IsMap f.ops
    → ((op : Op)
        → lookup f.ops id ≡ some op
        → lookup (select_function pick f).meta id
          ≡ some (selected pick op (lookup_or f.meta id default_meta)))
      × (lookup f.ops id ≡ none → lookup (select_function pick f).meta id ≡ lookup f.meta id)
unfolding select_function
select_function-selected pick f id m =
    (λ op h. select_ops-selected pick f.ops f.meta id op m h, select_ops-other pick f.ops f.meta id)
