-- ===== src/Frontend/Kernel/Entries.antt =====
-- The entries that lib.rs of crates/slugarch-ptx-frontend adds to a function for its instructions.
use Prim.Native.String.{String}
use slug_arch.Base.{ℕ, ◌+◌, ◌%◌, ◌^◌, ◌<◌, ◌≡◌, refl, ap, arith}
use slug_arch.Base.{Option, none, some, [], ◌∷◌, ◌++◌, ok, ◌>>=◌}
use slug_arch.Base.{Map, insert, keys, ==_iff, ==-differ, All}
use slug_arch.Ir.Ops.{Op, OpMeta, default_meta}
use slug_arch.Ir.Graph.{FunctionBuilder, add_op, finish_meta}
use slug_arch.Frontend.Ast.{Instruction}
use slug_arch.Frontend.Lower.{lowerers, claim, emulated, hinted, unless_handled, lower_instruction}
use slug_arch.Frontend.Lower.Order.{first_op, dispatch-first_op}

-- All keys are below a number.
abbrev pub Below {ℓ} : {V : Type ℓ} → ℕ → Map V → Type 0
Below n m = All (λ k. k < n) (keys m)

module _ {ℓ} {V : Type ℓ} where
  -- A new key comes last, and its value can be replaced there.
  insert-snoc : (m : Map V) (k : ℕ) (v : V) → Below k m → insert m k v ≡ m ++ ((k, v) ∷ [])
  insert-snoc [] k v h = refl
  insert-snoc ((j, w) ∷ m) k v (p, h) =
      rw (==-differ j k (λ e. absurd (omega (arith, p, e))))
        (ap (λ l. (j, w) ∷ l) (insert-snoc m k v h))

  insert-last :
      (m : Map V) (k : ℕ) (v u : V)
      → Below k m
      → insert (m ++ ((k, v) ∷ [])) k u ≡ m ++ ((k, u) ∷ [])
  insert-last [] k v u h = rw ((==_iff k k).1 refl) refl
  insert-last ((j, w) ∷ m) k v u (p, h) =
      rw (==-differ j k (λ e. absurd (omega (arith, p, e))))
        (ap (λ l. (j, w) ∷ l) (insert-last m k v u h))

  pub Below-snoc : (m : Map V) (k : ℕ) (v : V) → Below k m → Below (k + 1) (m ++ ((k, v) ∷ []))
  Below-snoc [] k v h = (omega arith, tt)
  Below-snoc ((j, w) ∷ m) k v (p, h) = (omega (arith, p), Below-snoc m k v h)

-- A builder with one op more, under the next id.
abbrev pub appended : FunctionBuilder → Op → OpMeta → FunctionBuilder
appended b op m = record {
  next_op = b.next_op + 1;
  f = record b.f {
    ops = b.f.ops ++ ((b.next_op, op) ∷ []);
    meta = b.f.meta ++ ((b.next_op, m) ∷ []);
    order = b.f.order ++ (b.next_op ∷ []);
  };
}

-- The op and the metadata of an instruction: those of the lowerer that knows it, or the unknown op.
abbrev pub op_or_unknown : Option Op → Op
op_or_unknown none = emulated 255
op_or_unknown (some op) = op

abbrev pub hint_if_known : Option Op → String → OpMeta
hint_if_known none hint = default_meta
hint_if_known (some op) hint = record default_meta { source_hint = some hint }

abbrev pub BelowNext : FunctionBuilder → Type 0
BelowNext b = Below b.next_op b.f.ops × Below b.next_op b.f.meta

module _ {Data : Type 0} (debug : Data → String) where
  claimed :
      (o : Option Op) (b : FunctionBuilder) (hint : String)
      → BelowNext b
      → b.next_op + 1 < 2 ^ 32
      → (claim debug o b hint >>= λ r. ok (unless_handled debug r))
        ≡ ok (appended b (op_or_unknown o) (hint_if_known o hint))
  unfolding add_op finish_meta
  claimed none b hint (p, q) small =
      let no_wrap : (b.next_op + 1) % 2 ^ 32 ≡ b.next_op + 1 = omega (arith, small) in
      rw
        (
          no_wrap,
          insert-snoc b.f.ops b.next_op (emulated 255) p,
          insert-snoc b.f.meta b.next_op default_meta q,
        )
        refl
  claimed (some op) b hint (p, q) small =
      let no_wrap : (b.next_op + 1) % 2 ^ 32 ≡ b.next_op + 1 = omega (arith, small) in
      rw
        (
          no_wrap,
          insert-snoc b.f.ops b.next_op op p,
          insert-snoc b.f.meta b.next_op default_meta q,
          insert-last b.f.meta b.next_op default_meta (hinted debug hint) q,
        )
        refl

  pub lower_instruction-appended :
      (inst : Instruction Data) (b : FunctionBuilder) (hint : String)
      → BelowNext b
      → b.next_op + 1 < 2 ^ 32
      → lower_instruction debug lowerers inst b hint
        ≡ ok (
            appended b
              (op_or_unknown (first_op debug lowerers inst))
              (hint_if_known (first_op debug lowerers inst) hint))
  unfolding lower_instruction
  lower_instruction-appended inst b hint h small =
      rw (dispatch-first_op debug lowerers inst b hint)
        (claimed (first_op debug lowerers inst) b hint h small)
