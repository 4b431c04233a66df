-- ===== src/Ir/FuseDecodeOps/NoEdges.antt =====
-- fuse_decode_ops.rs leaves a function without edges as it is.
use slug_arch.Base.{
  ℕ, zero, suc, ◌+◌, ◌≡◌, refl, ap, sym, subst, if◌then◌else◌, Bool, true, false, ◌&&◌, List, [],
  ◌∷◌, length, lookup,
}
use slug_arch.Ir.Graph.{Function}
use slug_arch.Ir.FuseDecodeOps.{
  Fusing, fuse_loop, merge, merges, is_mlp, retain_ids, fuse_mlp_chain,
}

never : (a b : Bool) → (a && b && false) ≡ false
never true true = refl
never true false = refl
never false b = refl

fuse_loop-nil : (n : ℕ) (ids : List ℕ) (s : Fusing) → (fuse_loop n [] ids s).1 ≡ s
unfolding fuse_loop
fuse_loop-nil zero ids s = refl
fuse_loop-nil (suc n) [] s = refl
fuse_loop-nil (suc n) (a ∷ []) s = refl
fuse_loop-nil (suc n) (a ∷ b ∷ rest) s =
    let apart : merges [] a b s ≡ false =
      never (is_mlp (lookup s.ops a)) (is_mlp (lookup s.ops b)) in
    subst
      (λ j.
        (fuse_loop n [] (if j then a ∷ b ∷ rest else b ∷ rest) (if j then merge a b s else s)).1
        ≡ s)
      (sym apart) (fuse_loop-nil n (b ∷ rest) s)

retain_ids-nil : (ids : List ℕ) → retain_ids [] ids ≡ ids
retain_ids-nil [] = refl
retain_ids-nil (k ∷ ks) = ap (λ l. k ∷ l) (retain_ids-nil ks)

pub fuse_mlp_chain-no_edges : (f : Function) → f.edges ≡ [] → fuse_mlp_chain f ≡ f
unfolding fuse_mlp_chain
fuse_mlp_chain-no_edges f e =
    rw
      (
        e,
        fuse_loop-nil (length f.order + length f.ops) f.order
            (record { ops = f.ops; meta = f.meta; to_remove = [] }),
        retain_ids-nil f.order,
      )
      refl
