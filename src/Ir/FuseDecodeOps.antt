-- ===== src/Ir/FuseDecodeOps.antt =====
-- crates/slugarch-ir/src/passes/fuse_decode_ops.rs. The index is the rest of the order from it on. A round
-- advances or takes an op away, so the ids of the order and the ops together are fuel enough.
use slug_arch.Base.{ℕ, zero, suc, ◌+◌, ◌*◌, ◌≡◌, ◌≢◌, refl, sym, ap, subst, ◌∙◌, arith, inl, inr}
use slug_arch.Base.{
  Bool, true, false, ◌&&◌, ◌||◌, not, Bool-cases, Option, none, some, List, [], ◌∷◌, ◌++◌,
}
use slug_arch.Base.{
  Map, insert, lookup, remove, contains, ◌==◌, ==_iff, if◌then◌else◌, length, length-append,
  lookup-remove_other,
}
use slug_arch.Ir.Ops.{Op, OpMeta, OperandRef, StateKind}
use slug_arch.Ir.Graph.{Edge, src, dst, Function}
pub mod Operands
pub mod Fuel
pub mod NoEdges

-- `matches!(.., Some(Op::StateStep { kind: StateKind::MlpStep, .. }))`
abbrev pub is_mlp : Option Op → Bool
is_mlp (some (Op.state_step StateKind.mlp_step _)) = true
is_mlp _ = false

-- `edges.iter().any(|e| e.src() == a && e.dst() == b)`
abbrev pub depends : List Edge → ℕ → ℕ → Bool
depends [] a b = false
depends (e ∷ es) a b = (src e == a && dst e == b) || depends es a b

-- The operands of an op that is a state step.
abbrev pub step_operands : Option Op → List OperandRef
step_operands (some (Op.state_step _ os)) = os
step_operands _ = []

-- `operands.extend(b_ops)`, where the op is a state step.
abbrev pub extended : Option Op → List OperandRef → Map Op → ℕ → Map Op
extended (some (Op.state_step kind os)) more ops a = insert ops a (Op.state_step kind (os ++ more))
extended other more ops a = ops

-- The variables of the loop.
pub record Fusing : Type 0 where
  pub ops : Map Op
  pub meta : Map OpMeta
  pub to_remove : List ℕ

abbrev pub merge : ℕ → ℕ → Fusing → Fusing
merge a b s = record {
  ops = extended (lookup (remove s.ops b) a) (step_operands (lookup s.ops b)) (remove s.ops b) a;
  meta = remove s.meta b;
  to_remove = s.to_remove ++ (b ∷ []);
}

abbrev pub merges : List Edge → ℕ → ℕ → Fusing → Bool
merges edges a b s = is_mlp (lookup s.ops a) && is_mlp (lookup s.ops b) && depends edges a b

-- The loop on the rest of the order: the rest where it stops, and the variables.
unfoldable pub fuse_loop : ℕ → List Edge → List ℕ → Fusing → List ℕ × Fusing
fuse_loop zero edges ids s = (ids, s)
fuse_loop (suc n) edges [] s = ([], s)
fuse_loop (suc n) edges (a ∷ []) s = (a ∷ [], s)
fuse_loop (suc n) edges (a ∷ b ∷ rest) s =
    let joins = merges edges a b s in
    fuse_loop n edges (if joins then a ∷ b ∷ rest else b ∷ rest) (if joins then merge a b s else s)

-- `retain`
abbrev pub retain_ids : List ℕ → List ℕ → List ℕ
retain_ids gone [] = []
retain_ids gone (k ∷ ks) =
    let rest = retain_ids gone ks in if contains gone k then rest else k ∷ rest

abbrev pub retain_edges : List ℕ → List Edge → List Edge
retain_edges gone [] = []
retain_edges gone (e ∷ es) =
    let rest = retain_edges gone es in
    if not (contains gone (src e)) && not (contains gone (dst e)) then e ∷ rest else rest

-- The rounds that are enough, and the variables before the loop.
abbrev pub fuse_fuel : Function → ℕ
fuse_fuel f = length f.order + length f.ops

abbrev pub unfused : Function → Fusing
unfused f = record { ops = f.ops; meta = f.meta; to_remove = [] }

-- Retaining on an empty list of removals changes nothing, which is what the source's test skips.
unfoldable pub fuse_mlp_chain : Function → Function
fuse_mlp_chain f =
    let (_, s) = fuse_loop (fuse_fuel f) f.edges f.order (unfused f) in
    record {
      name = f.name;
      ops = s.ops;
      meta = s.meta;
      edges = retain_edges s.to_remove f.edges;
      order = retain_ids s.to_remove f.order;
    }

unfoldable pub fuse_decode_ops : List Function → List Function
fuse_decode_ops [] = []
fuse_decode_ops (f ∷ fs) = fuse_mlp_chain f ∷ fuse_decode_ops fs
