-- ===== src/Ir/FuseDecodeOps/Fuel.antt =====
-- The loop of fuse_decode_ops.rs ends within the fuel that the model gives it.
use slug_arch.Base.{ℕ, zero, suc, ◌+◌, ◌≤◌, ◌≡◌, ◌≢◌, refl, ap, ◌∙◌, arith, inl, inr}
use slug_arch.Base.{Bool, true, false, Bool-cases, Option, none, some, List, [], ◌∷◌}
use slug_arch.Base.{Map, insert, lookup, remove, ◌==◌, if◌then◌else◌, length}
use slug_arch.Ir.Ops.{Op, OperandRef}
use slug_arch.Ir.Graph.{Edge, Function}
use slug_arch.Ir.FuseDecodeOps.{
  is_mlp, depends, step_operands, extended, Fusing, merge, merges, fuse_loop, fuse_fuel, unfused,
}
use slug_arch.Ir.FuseDecodeOps.Operands.{is_mlp-true, both_true}

length-insert :
    (m : Map Op) (k : ℕ) (op : Op) → lookup m k ≢ none → length (insert m k op) ≡ length m
length-insert [] k op h = absurd (h refl)
length-insert ((j, o) ∷ m) k op h = elim (Bool-cases (j == k)) [
  | inl e ↦ rw e refl
  | inr e ↦ let rest : lookup m k ≢ none = rw e at h in rw e (ap suc (length-insert m k op rest))
]

length-remove : (m : Map Op) (k : ℕ) → lookup m k ≢ none → suc (length (remove m k)) ≡ length m
length-remove [] k h = absurd (h refl)
length-remove ((j, o) ∷ m) k h = elim (Bool-cases (j == k)) [
  | inl e ↦ rw e refl
  | inr e ↦ let rest : lookup m k ≢ none = rw e at h in rw e (ap suc (length-remove m k rest))
]

length-extended :
    (o : Option Op) (more : List OperandRef) (m : Map Op) (a : ℕ)
    → lookup m a ≡ o
    → length (extended o more m a) ≡ length m
length-extended none more m a e = refl
length-extended (some (Op.arith_op k os d)) more m a e = refl
length-extended (some (Op.tensor_tile k sh d os)) more m a e = refl
length-extended (some (Op.state_step k os)) more m a e = length-insert m a _ (λ n. cc (e, n))
length-extended (some (Op.dma s d n)) more m a e = refl
length-extended (some (Op.emu o os)) more m a e = refl

length-merge :
    (edges : List Edge) (a b : ℕ) (s : Fusing)
    → merges edges a b s ≡ true
    → suc (length ((merge a b s).ops)) ≡ length s.ops
length-merge edges a b s h =
    let (p, q) =
      both_true (is_mlp (lookup s.ops a)) (is_mlp (lookup s.ops b)) (depends edges a b) h in
    let (ys, eb) = is_mlp-true (lookup s.ops b) q in
    ap suc (
      length-extended (lookup (remove s.ops b) a) (step_operands (lookup s.ops b)) (remove s.ops b)
        a refl)
    ∙ length-remove s.ops b (λ n. cc (eb, n))

fuse_step :
    (n : ℕ) (edges : List Edge) (a b : ℕ) (rest : List ℕ) (s : Fusing)
    → ((ids : List ℕ) (t : Fusing)
        → length ids + length t.ops ≤ n
        → length ((fuse_loop n edges ids t).0) ≤ 1)
    → length (a ∷ b ∷ rest) + length s.ops ≤ suc n
    → (joins : Bool) → merges edges a b s ≡ joins
    → length (
        (fuse_loop n edges
          (if joins then a ∷ b ∷ rest else b ∷ rest)
          (if joins then merge a b s else s)).0)
      ≤ 1
fuse_step n edges a b rest s later h true e =
    later (a ∷ b ∷ rest) (merge a b s) (omega (arith, h, length-merge edges a b s e))
fuse_step n edges a b rest s later h false e = later (b ∷ rest) s (omega (arith, h))

fuse_loop-stops :
    (n : ℕ) (edges : List Edge) (ids : List ℕ) (s : Fusing)
    → length ids + length s.ops ≤ n
    → length ((fuse_loop n edges ids s).0) ≤ 1
unfolding fuse_loop
fuse_loop-stops zero edges [] s h = omega arith
fuse_loop-stops zero edges (a ∷ ids) s h = absurd (omega arith)
fuse_loop-stops (suc n) edges [] s h = omega arith
fuse_loop-stops (suc n) edges (a ∷ []) s h = omega arith
fuse_loop-stops (suc n) edges (a ∷ b ∷ rest) s h =
    fuse_step n edges a b rest s (fuse_loop-stops n edges) h (merges edges a b s) refl

-- The ids of the order that are left when the rounds of fuse_mlp_chain are over.
abbrev pub left_over : Function → List ℕ
left_over f = (fuse_loop (fuse_fuel f) f.edges f.order (unfused f)).0

-- The loop ends: in the rounds that fuse_mlp_chain gives it, it reaches the point at which at most
-- one id of the order is left, where the condition of the source's `while` fails.
pub fuse_loop-ends : (f : Function) → length (left_over f) ≤ 1
fuse_loop-ends f = fuse_loop-stops (fuse_fuel f) f.edges f.order (unfused f) (omega arith)
