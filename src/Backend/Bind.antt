-- ===== src/Backend/Bind.antt =====
-- crates/slugarch-backend/src/lib.rs and bindings/: from an op to the command for its IP. The description
-- of an op in an error is the op itself. Where the product of a shape overflows a `u32` it wraps.
use Prim.Native.String.{String}
use slug_arch.Base.{ℕ, ◌*◌, ◌%◌, ◌^◌, Option, List, [], ◌∷◌, Result, ok, err, ◌>>=◌, map}
use slug_arch.Base.{length, replicate, copy_at, to_le_bytes}
use slug_arch.Ir.Types.{
  IpId, systolic_array4x4, systolic_array16x16, systolic_array32x32, npu_array_v4_seed_g,
  npu_cluster_v4, noc_mesh, gemm_ip, ptx_emulation_core, slug_cxl4x4,
}
use slug_arch.Ir.Ops.{Op, StateKind, TileKind}

pub record DispatchMeta : Type 0 where
  pub source_hint : Option String
  pub policy : Option String

pub record DispatchCmd : Type 0 where
  pub ip : IpId
  pub opcode : ℕ
  pub token : List ℕ
  pub token_in : ℕ
  pub token_out : ℕ
  pub meta : DispatchMeta

pub record BindCtx : Type 0 where
  pub token_in : ℕ
  pub token_out : ℕ
  pub source_hint : Option String
  pub policy : Option String

pub data BindError : Type 0 where
  no_binding_for_choice : IpId → Op → BindError
  shape_unsupported : IpId → List ℕ → BindError
  operand_out_of_range : ℕ → BindError

-- The command that every binding builds.
abbrev pub command : IpId → ℕ → List ℕ → BindCtx → DispatchCmd
command ip opcode token ctx = record {
  ip = ip;
  opcode = opcode;
  token = token;
  token_in = ctx.token_in;
  token_out = ctx.token_out;
  meta = record { source_hint = ctx.source_hint; policy = ctx.policy };
}

-- `[0u8; 32]` with a `u32` at its start.
abbrev pub u32_token : ℕ → List ℕ
u32_token n = copy_at (replicate 32 0) 0 (to_le_bytes 4 n)

-- `product::<u32>()`
abbrev pub shape_product : List ℕ → ℕ
shape_product [] = 1
shape_product (d ∷ ds) = d * shape_product ds % 2 ^ 32

unfoldable pub bind_systolic : IpId → Op → BindCtx → Result BindError (List DispatchCmd)
bind_systolic ip (Op.tensor_tile TileKind.gemm shape _ _) ctx =
    ok (command ip 1 (u32_token (shape_product shape)) ctx ∷ [])
bind_systolic ip op ctx = err (no_binding_for_choice ip op)

-- `GemmIpBinding`
unfoldable pub bind_gemm_ip : Op → BindCtx → Result BindError (List DispatchCmd)
bind_gemm_ip = bind_systolic gemm_ip

unfoldable pub bind_noc : Op → BindCtx → Result BindError (List DispatchCmd)
bind_noc (Op.dma src dst bytes) ctx =
    let token = copy_at (replicate 32 0) 0 (to_le_bytes 8 src) in
    let token1 = copy_at token 8 (to_le_bytes 8 dst) in
    let token2 = copy_at token1 16 (to_le_bytes 8 bytes) in ok (command noc_mesh 0 token2 ctx ∷ [])
bind_noc op ctx = err (no_binding_for_choice noc_mesh op)

unfoldable pub state_opcode : StateKind → ℕ
state_opcode StateKind.rms_norm = 1
state_opcode StateKind.attn_decode = 2
state_opcode StateKind.mlp_step = 3
state_opcode StateKind.decode_generic = 4

unfoldable pub bind_npu : Op → BindCtx → Result BindError (List DispatchCmd)
bind_npu (Op.state_step kind operands) ctx = ok (
    command npu_array_v4_seed_g (state_opcode kind) (u32_token (length operands % 2 ^ 32)) ctx ∷ [])
bind_npu op ctx = err (no_binding_for_choice npu_array_v4_seed_g op)

abbrev to_cluster : DispatchCmd → DispatchCmd
to_cluster cmd = record cmd { ip = npu_cluster_v4 }

unfoldable pub bind_cluster : Op → BindCtx → Result BindError (List DispatchCmd)
unfolding bind_npu
bind_cluster op ctx = do inner ← bind_npu op ctx; ok (map to_cluster inner)

unfoldable pub bind_ptx : Op → BindCtx → Result BindError (List DispatchCmd)
bind_ptx (Op.emu opcode operands) ctx =
    ok (command ptx_emulation_core opcode (u32_token (length operands % 2 ^ 32)) ctx ∷ [])
bind_ptx op ctx = err (no_binding_for_choice ptx_emulation_core op)

-- `_ => 253` of emit.rs
abbrev pub emu_opcode : Op → ℕ
emu_opcode (Op.emu opcode _) = opcode
emu_opcode op = 253

-- The match on the IP in emit.rs.
unfoldable pub bind_choice : IpId → Op → BindCtx → Result BindError (List DispatchCmd)
bind_choice ptx_emulation_core op ctx = bind_ptx (Op.emu (emu_opcode op) []) ctx
bind_choice noc_mesh op ctx = bind_noc op ctx
bind_choice systolic_array4x4 op ctx = bind_systolic systolic_array4x4 op ctx
bind_choice systolic_array16x16 op ctx = bind_systolic systolic_array16x16 op ctx
bind_choice systolic_array32x32 op ctx = bind_systolic systolic_array32x32 op ctx
bind_choice npu_array_v4_seed_g op ctx = bind_npu op ctx
bind_choice npu_cluster_v4 op ctx = bind_cluster op ctx
bind_choice gemm_ip op ctx = bind_gemm_ip op ctx
bind_choice slug_cxl4x4 op ctx = err (no_binding_for_choice slug_cxl4x4 op)
