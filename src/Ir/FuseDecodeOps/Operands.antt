-- ===== src/Ir/FuseDecodeOps/Operands.antt =====
-- The merges of fuse_decode_ops.rs lose no operand.
use slug_arch.Base.{ℕ, zero, suc, ◌+◌, ◌≡◌, ◌≢◌, refl, sym, ap, subst, ◌∙◌, arith, inl, inr}
use slug_arch.Base.{Bool, true, false, ◌&&◌, Bool-cases, Option, none, some, List, [], ◌∷◌, ◌++◌}
use slug_arch.Base.{
  Map, insert, lookup, remove, ◌==◌, if◌then◌else◌, length, length-append, lookup-remove_other,
}
use slug_arch.Ir.Ops.{Op, OperandRef, StateKind}
use slug_arch.Ir.Graph.{Edge, Function}
use slug_arch.Ir.FuseDecodeOps.{
  is_mlp, depends, step_operands, extended, Fusing, merge, merges, fuse_loop, fuse_mlp_chain,
}

-- The operands of the state steps, counted.
abbrev pub total_operands : Map Op → ℕ
total_operands [] = 0
total_operands ((k, op) ∷ m) = length (step_operands (some op)) + total_operands m

removed :
    (b : Bool) (j : ℕ) (op : Op) (m : Map Op) (k : ℕ)
    → total_operands (remove m k) + length (step_operands (lookup m k)) ≡ total_operands m
    → total_operands (if b then m else (j, op) ∷ remove m k)
        + length (step_operands (if b then some op else lookup m k))
      ≡ length (step_operands (some op)) + total_operands m
removed true j op m k h = omega arith
removed false j op m k h = omega (arith, h)

total_operands-remove :
    (m : Map Op) (k : ℕ)
    → total_operands (remove m k) + length (step_operands (lookup m k)) ≡ total_operands m
total_operands-remove [] k = refl
total_operands-remove ((j, op) ∷ m) k = removed (j == k) j op m k (total_operands-remove m k)

inserted :
    (b : Bool) (j : ℕ) (o op : Op) (m : Map Op) (k : ℕ)
    → (lookup m k ≢ none
        → total_operands (insert m k op) + length (step_operands (lookup m k))
          ≡ total_operands m + length (step_operands (some op)))
    → (if b then some o else lookup m k) ≢ none
    → total_operands (if b then (j, op) ∷ m else (j, o) ∷ insert m k op)
        + length (step_operands (if b then some o else lookup m k))
      ≡ length (step_operands (some o)) + total_operands m + length (step_operands (some op))
inserted true j o op m k later h = omega arith
inserted false j o op m k later h = omega (arith, later h)

total_operands-insert :
    (m : Map Op) (k : ℕ) (op : Op)
    → lookup m k ≢ none
    → total_operands (insert m k op) + length (step_operands (lookup m k))
      ≡ total_operands m + length (step_operands (some op))
total_operands-insert [] k op h = absurd (h refl)
total_operands-insert ((j, o) ∷ m) k op h =
    inserted (j == k) j o op m k (total_operands-insert m k op) h

pub is_mlp-true :
    (o : Option Op)
    → is_mlp o ≡ true
    → (os : List OperandRef) × (o ≡ some (Op.state_step StateKind.mlp_step os))
is_mlp-true (some (Op.state_step StateKind.mlp_step os)) h = (os, refl)
is_mlp-true none h = cc (h)
is_mlp-true (some (Op.arith_op k os d)) h = cc (h)
is_mlp-true (some (Op.tensor_tile k sh d os)) h = cc (h)
is_mlp-true (some (Op.state_step StateKind.rms_norm os)) h = cc (h)
is_mlp-true (some (Op.state_step StateKind.attn_decode os)) h = cc (h)
is_mlp-true (some (Op.state_step StateKind.decode_generic os)) h = cc (h)
is_mlp-true (some (Op.dma s d n)) h = cc (h)
is_mlp-true (some (Op.emu o os)) h = cc (h)

pub both_true : (a b c : Bool) → (a && b && c) ≡ true → (a ≡ true) × (b ≡ true)
both_true true true c h = (refl, refl)
both_true true false c h = cc (h)
both_true false b c h = cc (h)

total_operands-merge :
    (edges : List Edge) (a b : ℕ) (s : Fusing)
    → b ≢ a
    → merges edges a b s ≡ true
    → total_operands ((merge a b s).ops) ≡ total_operands s.ops
total_operands-merge edges a b s n h =
    let (p, q) =
      both_true (is_mlp (lookup s.ops a)) (is_mlp (lookup s.ops b)) (depends edges a b) h in
    let (xs, ea) = is_mlp-true (lookup s.ops a) p in
    let (ys, eb) = is_mlp-true (lookup s.ops b) q in
    let less : Map Op = remove s.ops b in
    let there : lookup less a ≡ some (Op.state_step StateKind.mlp_step xs) =
      lookup-remove_other s.ops b a n ∙ ea in
    let merged : (merge a b s).ops ≡ insert less a (Op.state_step StateKind.mlp_step (xs ++ ys)) =
      ap (λ o. extended o (step_operands (lookup s.ops b)) less a) there
      ∙ ap (λ o. insert less a (Op.state_step StateKind.mlp_step (xs ++ step_operands o))) eb in
    let some_there : lookup less a ≢ none = λ e. cc (there, e) in
    omega (
      arith,
      ap total_operands merged,
      total_operands-insert less a (Op.state_step StateKind.mlp_step (xs ++ ys)) some_there,
      ap (λ o. length (step_operands o)) there,
      total_operands-remove s.ops b,
      ap (λ o. length (step_operands o)) eb,
      length-append xs ys,
    )

-- No id stands twice in a row.
abbrev pub NoStutter : List ℕ → Type 0
NoStutter [] = Unit
NoStutter (a ∷ ids) = elim ids [ [] ↦ Unit | b ∷ rest ↦ b ≢ a ] × NoStutter ids

total_operands-fuse_loop :
    (n : ℕ) (edges : List Edge) (ids : List ℕ) (s : Fusing)
    → NoStutter ids
    → total_operands ((fuse_loop n edges ids s).1.ops) ≡ total_operands s.ops
unfolding fuse_loop
total_operands-fuse_loop zero edges ids s d = refl
total_operands-fuse_loop (suc n) edges [] s d = refl
total_operands-fuse_loop (suc n) edges (a ∷ []) s d = refl
total_operands-fuse_loop (suc n) edges (a ∷ b ∷ rest) s (d, ds) =
    elim (Bool-cases (merges edges a b s)) [
      | inl e ↦
          subst
            (λ j.
              total_operands (
                (fuse_loop n edges (if j then a ∷ b ∷ rest else b ∷ rest)
                  (if j then merge a b s else s)).1.ops)
              ≡ total_operands s.ops)
            (sym e)
            (total_operands-fuse_loop n edges (a ∷ b ∷ rest) (merge a b s) (d, ds)
              ∙ total_operands-merge edges a b s d e)
      | inr e ↦
          subst
            (λ j.
              total_operands (
                (fuse_loop n edges (if j then a ∷ b ∷ rest else b ∷ rest)
                  (if j then merge a b s else s)).1.ops)
              ≡ total_operands s.ops)
            (sym e) (total_operands-fuse_loop n edges (b ∷ rest) s ds)
    ]

-- Fusing loses no operand: on a function in whose order no id stands twice in a row, the state steps
-- have as many operands in all after the pass as before.
pub fuse_mlp_chain-total_operands :
    (f : Function)
    → NoStutter f.order
    → total_operands ((fuse_mlp_chain f).ops) ≡ total_operands f.ops
unfolding fuse_mlp_chain
fuse_mlp_chain-total_operands f d =
    total_operands-fuse_loop (length f.order + length f.ops) f.edges f.order
      (record { ops = f.ops; meta = f.meta; to_remove = [] }) d
