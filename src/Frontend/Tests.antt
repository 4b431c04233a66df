-- ===== src/Frontend/Tests.antt =====
-- Runs of the lowering, and its theorems at concrete inputs. The data of an instruction is its text.
use Prim.Native.String.{String}
use slug_arch.Base.{◌+◌, ◌^◌, ◌<◌, ◌≡◌, ◌≢◌, arith, refl, inl, inr, true, some, List, [], ◌∷◌, ok}
use slug_arch.Ir.Ops.{Op, OpMeta, Dtype, ArithKind, default_meta}
use slug_arch.Ir.Graph.{Function, new_builder, add_op, finish_meta}
use slug_arch.Frontend.Texts.{text_contains, decimal}
use slug_arch.Frontend.Ast.{
  Instruction, Statement, Statements, Directive, MethodName, collect_instructions, extract_entry,
}
use slug_arch.Frontend.Lower.{
  Lowerer, arith_lowerer, bit_ops_lowerer, transcendental_lowerer, ld_st_lowerer, mma_lowerer,
  control_lowerer, lowerers, lower_instruction, dispatch, try_lower, lower_op, dtype_via_debug,
  bytes_via_debug, emulated, arith_lower, bit_ops_lower, transcendental_lower, ld_st_lower,
  mma_lower, control_lower,
}
use slug_arch.Frontend.Lower.Owner.{Listed}
use slug_arch.Frontend.Lower.Order.{lower_instruction-order}
use slug_arch.Frontend.Lower.Width.{dtype_via_debug-not_bf16}
use slug_arch.Frontend.Kernel.{lower_to_slugir, lower_directives, lower_entry, lower_body}
use slug_arch.Frontend.Kernel.Lowered.{
  entries_count, kernels, entries_of, next_free, lower_to_slugir-kernels,
}

abbrev text : String → String
text s = s

contains_middle : text_contains "ArithInteger { type_: U32 }" "U32" ≡ true
contains_middle = refl

decimal_digits_in_order : decimal 407 ≡ "407"
unfolding decimal
decimal_digits_in_order = refl

-- A signed 64-bit type prints as S64, which no test names.
signed_is_i32 : dtype_via_debug "ArithInteger { type_: S64, saturate: false }" ≡ Dtype.i32
unfolding dtype_via_debug
signed_is_i32 = refl

-- Sixteen bytes print as B128, which has an 8.
wide_load_is_one_byte : bytes_via_debug "LdDetails { typ: Scalar(B128) }" ≡ 1
unfolding bytes_via_debug
wide_load_is_one_byte = refl

dtype_via_debug-not_bf16_example : dtype_via_debug "ArithFloat { type_: BF16 }" ≢ Dtype.bf16
dtype_via_debug-not_bf16_example = dtype_via_debug-not_bf16 "ArithFloat { type_: BF16 }"

abbrev reversed : List Lowerer
reversed =
    control_lowerer ∷ mma_lowerer ∷ ld_st_lowerer ∷ transcendental_lowerer ∷ bit_ops_lowerer
    ∷ arith_lowerer ∷ []

reversed_has : (l : Lowerer) → Listed l reversed
reversed_has control_lowerer = inl refl
reversed_has mma_lowerer = inr (inl refl)
reversed_has ld_st_lowerer = inr (inr (inl refl))
reversed_has transcendental_lowerer = inr (inr (inr (inl refl)))
reversed_has bit_ops_lowerer = inr (inr (inr (inr (inl refl))))
reversed_has arith_lowerer = inr (inr (inr (inr (inr (inl refl)))))

lower_instruction-order_example :
    lower_instruction text reversed (Instruction.add "type_: U32") (new_builder 3 "k") "k[0]"
    ≡ lower_instruction text lowerers (Instruction.add "type_: U32") (new_builder 3 "k") "k[0]"
lower_instruction-order_example =
    lower_instruction-order text reversed (Instruction.add "type_: U32") (new_builder 3 "k") "k[0]"
      reversed_has

-- A variable, a helper function, and a kernel with a block, a label and an unknown instruction.
abbrev parsed : List (Directive String)
parsed =
    Directive.variable_directive
    ∷ Directive.method (MethodName.func "helper") (some Statements.nil)
    ∷ Directive.method (MethodName.kernel "k") (
        some (
          Statements.cons (Statement.instruction (Instruction.add "type_: U32")) (
            Statements.cons
              (Statement.block (
                Statements.cons Statement.label
                  (Statements.cons (Statement.instruction Instruction.sqrt) Statements.nil)))
              (Statements.cons (Statement.instruction (Instruction.other_inst "vote"))
                Statements.nil))))
    ∷ []

abbrev hinted_at : String → OpMeta
hinted_at hint = record default_meta { source_hint = some hint }

abbrev lowered : Function
lowered = record {
  name = "k";
  ops = (5, Op.arith_op ArithKind.add [] Dtype.u32) ∷ (6, emulated 17) ∷ (7, emulated 255) ∷ [];
  meta = (5, hinted_at "k[0]") ∷ (6, hinted_at "k[1]") ∷ (7, default_meta) ∷ [];
  edges = [];
  order = 5 ∷ 6 ∷ 7 ∷ [];
}

parsed_lowers :
    lower_to_slugir text parsed 5 ≡ ok (record { functions = lowered ∷ []; symbols = [] }, 8)
unfolding lower_to_slugir lower_directives lower_entry lower_body lower_instruction dispatch
    try_lower lower_op arith_lower bit_ops_lower transcendental_lower ld_st_lower mma_lower
    control_lower add_op finish_meta decimal dtype_via_debug collect_instructions extract_entry
parsed_lowers = refl

few_instructions : 5 + entries_count (entries_of parsed) < 2 ^ 32
unfolding extract_entry
few_instructions = omega arith

lower_to_slugir-kernels_example :
    lower_to_slugir text parsed 5
    ≡ ok (
      record { functions = kernels text (entries_of parsed) 5; symbols = [] },
      next_free text (entries_of parsed) 5,
    )
lower_to_slugir-kernels_example = lower_to_slugir-kernels text parsed 5 few_instructions
