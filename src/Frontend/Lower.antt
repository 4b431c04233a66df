-- ===== src/Frontend/Lower.antt =====
-- crates/slugarch-ptx-frontend/src/lower: one module of the source for each class of instructions. Every
-- `try_lower` ends alike, so that a lowerer is the op that it makes of an instruction, if any. The text of
-- an instruction's data is a parameter.
use Prim.Native.String.{String}
use slug_arch.Base.{
  ℕ, Bool, true, false, ◌||◌, Option, none, some, List, [], ◌∷◌, if◌then◌else◌, Result, ok, err,
  ◌>>=◌,
}
use slug_arch.Ir.Ops.{Op, OpMeta, ArithKind, Dtype, TileKind, default_meta}
use slug_arch.Ir.Graph.{FunctionBuilder, add_op, finish_meta}
use slug_arch.Ir.AssignTokens.{IrError}
use slug_arch.Frontend.Texts.{text_contains}
use slug_arch.Frontend.Ast.{Instruction, ScalarType}
pub mod Owner
pub mod Order
pub mod Width

pub data FrontendError : Type 0 where
  parse : ℕ → String → FrontendError
  unsupported_op symbol_resolution : String → String → FrontendError
  ir : IrError → FrontendError

-- The tests of `dtype_via_debug`, in order.
unfoldable pub dtype_via_debug : String → Dtype
dtype_via_debug s =
    if text_contains s "F16" || text_contains s "f16"
    then Dtype.f16
    else if text_contains s "BF16" || text_contains s "bf16"
    then Dtype.bf16
    else if text_contains s "F32" || text_contains s "f32"
    then Dtype.f32
    else if text_contains s "F64" || text_contains s "f64"
    then Dtype.f64
    else if text_contains s "U8" || text_contains s "u8"
    then Dtype.u8
    else if text_contains s "I8" || text_contains s "i8"
    then Dtype.i8
    else if text_contains s "U16" || text_contains s "u16"
    then Dtype.u16
    else if text_contains s "I16" || text_contains s "i16"
    then Dtype.i16
    else if text_contains s "U32" || text_contains s "u32"
    then Dtype.u32
    else if text_contains s "I32" || text_contains s "i32"
    then Dtype.i32
    else if text_contains s "U64" || text_contains s "u64"
    then Dtype.u64
    else if text_contains s "I64" || text_contains s "i64"
    then Dtype.i64
    else Dtype.i32

-- The tests of `bytes_via_debug`, in order.
unfoldable pub bytes_via_debug : String → ℕ
bytes_via_debug s =
    if text_contains s "B64" || text_contains s "64"
    then 8
    else if text_contains s "B32" || text_contains s "32"
    then 4
    else if text_contains s "B16" || text_contains s "16"
    then 2
    else if text_contains s "B8" || text_contains s "8"
    then 1
    else 4

abbrev pub mma_shape : List ℕ
mma_shape = 16 ∷ 8 ∷ 16 ∷ []

abbrev pub mma_dtype : ScalarType → Dtype
mma_dtype ScalarType.f16 = Dtype.f16
mma_dtype ScalarType.bf16 = Dtype.bf16
mma_dtype ScalarType.f32 = Dtype.f32
mma_dtype ScalarType.other_scalar = Dtype.f16

pub data Lowerer : Type 0 where
  arith_lowerer bit_ops_lowerer transcendental_lowerer ld_st_lowerer mma_lowerer control_lowerer :
      Lowerer

-- The order of `lower_to_slugir`.
abbrev pub lowerers : List Lowerer
lowerers =
    arith_lowerer ∷ bit_ops_lowerer ∷ transcendental_lowerer ∷ ld_st_lowerer ∷ mma_lowerer
    ∷ control_lowerer ∷ []

abbrev pub emulated : ℕ → Op
emulated opcode = Op.emu opcode []

module _ {Data : Type 0} (debug : Data → String) where
  abbrev pub arith_as : ArithKind → Data → Option Op
  arith_as kind d = some (Op.arith_op kind [] (dtype_via_debug (debug d)))

  unfoldable pub arith_lower : Instruction Data → Option Op
  arith_lower (Instruction.add d) = arith_as ArithKind.add d
  arith_lower (Instruction.sub d) = arith_as ArithKind.sub d
  arith_lower (Instruction.mul d) = arith_as ArithKind.mul d
  arith_lower (Instruction.mad d) = arith_as ArithKind.mad d
  arith_lower (Instruction.div d) = arith_as ArithKind.div d
  arith_lower (Instruction.rem d) = arith_as ArithKind.rem d
  arith_lower (Instruction.fma d) = arith_as ArithKind.fma d
  arith_lower (Instruction.min d) = arith_as ArithKind.min d
  arith_lower (Instruction.max d) = arith_as ArithKind.max d
  arith_lower (Instruction.abs d) = arith_as ArithKind.abs d
  arith_lower (Instruction.cvt d) = arith_as ArithKind.cvt d
  arith_lower (Instruction.mov d) = arith_as ArithKind.mov d
  arith_lower _ = none

  unfoldable pub bit_ops_lower : Instruction Data → Option Op
  bit_ops_lower Instruction.not = some (emulated 1)
  bit_ops_lower Instruction.and = some (emulated 2)
  bit_ops_lower Instruction.or = some (emulated 3)
  bit_ops_lower Instruction.xor = some (emulated 4)
  bit_ops_lower Instruction.shl = some (emulated 5)
  bit_ops_lower Instruction.shr = some (emulated 6)
  bit_ops_lower Instruction.popc = some (emulated 7)
  bit_ops_lower Instruction.clz = some (emulated 8)
  bit_ops_lower Instruction.brev = some (emulated 9)
  bit_ops_lower Instruction.bfe = some (emulated 10)
  bit_ops_lower Instruction.bfi = some (emulated 11)
  bit_ops_lower Instruction.prmt = some (emulated 12)
  bit_ops_lower Instruction.shf = some (emulated 13)
  bit_ops_lower _ = none

  unfoldable pub transcendental_lower : Instruction Data → Option Op
  transcendental_lower Instruction.sqrt = some (emulated 17)
  transcendental_lower Instruction.rsqrt = some (emulated 18)
  transcendental_lower Instruction.sin = some (emulated 19)
  transcendental_lower Instruction.cos = some (emulated 20)
  transcendental_lower Instruction.tanh = some (emulated 21)
  transcendental_lower Instruction.lg2 = some (emulated 22)
  transcendental_lower Instruction.ex2 = some (emulated 23)
  transcendental_lower _ = none

  unfoldable pub ld_st_lower : Instruction Data → Option Op
  ld_st_lower (Instruction.ld d) = some (Op.dma 0 0 (bytes_via_debug (debug d)))
  ld_st_lower (Instruction.st d) = some (Op.dma 0 0 (bytes_via_debug (debug d)))
  ld_st_lower _ = none

  unfoldable pub mma_lower : Instruction Data → Option Op
  mma_lower (Instruction.mma t) = some (Op.tensor_tile TileKind.gemm mma_shape (mma_dtype t) [])
  mma_lower _ = none

  unfoldable pub control_lower : Instruction Data → Option Op
  control_lower Instruction.bra = some (emulated 254)
  control_lower Instruction.call = some (emulated 254)
  control_lower Instruction.ret = some (emulated 254)
  control_lower Instruction.bar = some (emulated 254)
  control_lower Instruction.bar_warp = some (emulated 254)
  control_lower Instruction.bar_red = some (emulated 254)
  control_lower _ = none

  unfoldable pub lower_op : Lowerer → Instruction Data → Option Op
  unfolding arith_lower bit_ops_lower transcendental_lower ld_st_lower mma_lower control_lower
  lower_op arith_lowerer = arith_lower
  lower_op bit_ops_lowerer = bit_ops_lower
  lower_op transcendental_lowerer = transcendental_lower
  lower_op ld_st_lowerer = ld_st_lower
  lower_op mma_lowerer = mma_lower
  lower_op control_lowerer = control_lower

  abbrev pub hinted : String → OpMeta
  hinted hint = record default_meta { source_hint = some hint }

  -- The end of each `try_lower`: `Ok(false)`, or the op with its hint and `Ok(true)`.
  abbrev pub claim :
      Option Op → FunctionBuilder → String → Result FrontendError (Bool × FunctionBuilder)
  claim none b hint = ok (false, b)
  claim (some op) b hint = let (id, b') = add_op b op in ok (true, finish_meta b' id (hinted hint))

  unfoldable pub try_lower :
      Lowerer
      → Instruction Data
      → FunctionBuilder
      → String
      → Result FrontendError (Bool × FunctionBuilder)
  try_lower l inst b hint = claim (lower_op l inst) b hint

  abbrev pub or_else :
      Bool × FunctionBuilder
      → (FunctionBuilder → Result FrontendError (Bool × FunctionBuilder))
      → Result FrontendError (Bool × FunctionBuilder)
  or_else (true, b) next = ok (true, b)
  or_else (false, b) next = next b

  -- The loop over the lowerers: `handled` and the builder.
  unfoldable pub dispatch :
      List Lowerer
      → Instruction Data
      → FunctionBuilder
      → String
      → Result FrontendError (Bool × FunctionBuilder)
  dispatch [] inst b hint = ok (false, b)
  dispatch (l ∷ ls) inst b hint =
      try_lower l inst b hint >>= λ r. or_else r (λ b'. dispatch ls inst b' hint)

  -- An instruction that no lowerer handles.
  abbrev pub unless_handled : Bool × FunctionBuilder → FunctionBuilder
  unless_handled (true, b) = b
  unless_handled (false, b) = (add_op b (emulated 255)).1

  -- The body of the loop over the instructions.
  unfoldable pub lower_instruction :
      List Lowerer
      → Instruction Data
      → FunctionBuilder
      → String
      → Result FrontendError FunctionBuilder
  lower_instruction ls inst b hint = dispatch ls inst b hint >>= λ r. ok (unless_handled r)
