-- ===== src/Ir/Ops.antt =====
-- crates/slugarch-ir/src/op.rs and the types of types.rs that it uses. An `f32` immediate is its bits.
use Prim.Native.String.{String}
use slug_arch.Base.{ℕ, Option, none, List}
use slug_arch.Ir.Types.{IpId}

pub data Dtype : Type 0 where
  u8 i8 u16 i16 u32 i32 u64 i64 f16 bf16 f32 f64 : Dtype

pub data OperandRef : Type 0 where
  op_ref : ℕ → OperandRef
  addr_ref : ℕ → OperandRef
  imm_u64 : ℕ → OperandRef
  imm_f32 : ℕ → OperandRef

pub data ArithKind : Type 0 where
  add sub mul mad div rem fma min max abs cvt mov : ArithKind

pub data TileKind : Type 0 where
  gemm elementwise : TileKind

pub data StateKind : Type 0 where
  rms_norm attn_decode mlp_step decode_generic : StateKind

-- The payload of each variant in the order of its fields.
pub data Op : Type 0 where
  arith_op : ArithKind → List OperandRef → Dtype → Op
  tensor_tile : TileKind → List ℕ → Dtype → List OperandRef → Op
  state_step : StateKind → List OperandRef → Op
  dma : ℕ → ℕ → ℕ → Op
  emu : ℕ → List OperandRef → Op

pub record OpMeta : Type 0 where
  pub backend : Option IpId
  pub token_in : Option ℕ
  pub token_out : Option ℕ
  pub source_hint : Option String

-- `OpMeta::default`
abbrev pub default_meta : OpMeta
default_meta = record { backend = none; token_in = none; token_out = none; source_hint = none }
