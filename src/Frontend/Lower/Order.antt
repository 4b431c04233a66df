-- ===== src/Frontend/Lower/Order.antt =====
-- crates/slugarch-ptx-frontend/src/lib.rs, lower_instruction: the order in which the lowerers are tried.
use Prim.Native.String.{String}
use slug_arch.Base.{
  ◌≡◌, refl, sym, ap, ◌∙◌, inl, inr, Option, none, some, List, [], ◌∷◌, Bool, Result, ◌>>=◌,
}
use slug_arch.Ir.Ops.{Op}
use slug_arch.Ir.Graph.{FunctionBuilder}
use slug_arch.Frontend.Ast.{Instruction}
use slug_arch.Frontend.Lower.{
  Lowerer, lowerers, lower_op, FrontendError, claim, try_lower, dispatch, or_else,
  lower_instruction,
}
use slug_arch.Frontend.Lower.Owner.{Listed, Covers, lowerers-Covers, IsOwned, IsUnknown, one_owner}

module _ {Data : Type 0} (debug : Data → String) where
  -- The op of the first lowerer that has one.
  abbrev pub or_first : Option Op → Option Op → Option Op
  or_first none next = next
  or_first (some op) next = some op

  abbrev pub first_op : List Lowerer → Instruction Data → Option Op
  first_op [] inst = none
  first_op (l ∷ ls) inst = or_first (lower_op debug l inst) (first_op ls inst)

  first_op-unknown :
      (ls : List Lowerer) (inst : Instruction Data) → IsUnknown debug inst → first_op ls inst ≡ none
  first_op-unknown [] inst u = refl
  first_op-unknown (l ∷ ls) inst u = rw (u l) (first_op-unknown ls inst u)

  first_op-owned :
      (ls : List Lowerer) (inst : Instruction Data) (o : IsOwned debug inst)
      → Listed (o.0) ls
      → first_op ls inst ≡ some (o.1)
  first_op-owned [] inst (k, op, is, one) h = absurd h
  first_op-owned (l ∷ ls) inst (k, op, is, one) h = elim (one l) [
    | inr same ↦ ap (λ j. or_first (lower_op debug j inst) (first_op ls inst)) same ∙ (rw is refl)
    | inl e ↦ elim h [
      | inl same ↦
          let bad : some op ≡ none = sym is ∙ ap (λ j. lower_op debug j inst) (sym same) ∙ e in
          cc (bad)
      | inr rest ↦ rw e (first_op-owned ls inst (k, op, is, one) rest)
    ]
  ]

  pub first_op-Covers :
      (ls ms : List Lowerer) (inst : Instruction Data)
      → Covers ls
      → Covers ms
      → first_op ls inst ≡ first_op ms inst
  first_op-Covers ls ms inst c d = elim (one_owner debug inst) [
    | inl u ↦ first_op-unknown ls inst u ∙ sym (first_op-unknown ms inst u)
    | inr o ↦ first_op-owned ls inst o (c o.0) ∙ sym (first_op-owned ms inst o (d o.0))
  ]

  claim-or_first :
      (next : FunctionBuilder → Result FrontendError (Bool × FunctionBuilder)) (later : Option Op)
      (b : FunctionBuilder) (hint : String)
      → next b ≡ claim debug later b hint
      → (o : Option Op)
      → (claim debug o b hint >>= λ r. or_else debug r next) ≡ claim debug (or_first o later) b hint
  claim-or_first next later b hint h none = h
  claim-or_first next later b hint h (some op) = refl

  pub dispatch-first_op :
      (ls : List Lowerer) (inst : Instruction Data) (b : FunctionBuilder) (hint : String)
      → dispatch debug ls inst b hint ≡ claim debug (first_op ls inst) b hint
  unfolding dispatch try_lower
  dispatch-first_op [] inst b hint = refl
  dispatch-first_op (l ∷ ls) inst b hint =
      claim-or_first (λ b'. dispatch debug ls inst b' hint) (first_op ls inst) b hint
        (dispatch-first_op ls inst b hint) (lower_op debug l inst)

  -- The order of the lowerers does not matter, nor does trying one twice: every list of all of them
  -- lowers an instruction as the list of the source does.
  pub lower_instruction-order :
      (ls : List Lowerer) (inst : Instruction Data) (b : FunctionBuilder) (hint : String)
      → Covers ls
      → lower_instruction debug ls inst b hint ≡ lower_instruction debug lowerers inst b hint
  unfolding lower_instruction
  lower_instruction-order ls inst b hint c =
      rw
        (
          dispatch-first_op ls inst b hint,
          dispatch-first_op lowerers inst b hint,
          first_op-Covers ls lowerers inst c lowerers-Covers,
        )
        refl
