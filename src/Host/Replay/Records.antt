-- ===== src/Host/Replay/Records.antt =====
-- The records of replay.rs, and what is read off a message for one.
use Prim.Native.String.{String}
use slug_arch.Base.{ℕ, Bool, Option, none, some, List}
use text.Mathlib.Text.{◌==◌ as str_eq}
use text.Mathlib.TextEquality.{eq_iff}
use native.Mathlib.Decide.{ℕ_discrete}
use slug_arch.Base.{Bool-cases, inl, inr, leb, ◌==◌, if◌then◌else◌}
use slug_arch.Wire.Msg.{
  MsgClass, CxlMsg, M2sReqOp, M2sRwdOp, S2mDrsOp, S2mNdrOp, D2hReqOp, D2hRespOp, H2dReqOp,
  H2dRespOp,
}
use slug_arch.Ir.Types.{IpId, slug_cxl4x4}
use slug_arch.Host.Replay.Capture.{CxlRecordMode, PayloadCapture}

pub data CxlDirection : Type 0 where
  host_to_device device_to_host : CxlDirection

pub data CxlEndpoint : Type 0 where
  host : CxlEndpoint
  device : IpId → CxlEndpoint

pub data CxlTransactionClass : Type 0 where
  cxl_mem_read cxl_mem_write cxl_mem_write_partial cxl_mem_eviction : CxlTransactionClass
  cxl_mem_data cxl_completion cxl_cache_request cxl_cache_response : CxlTransactionClass
  cxl_snoop_request cxl_snoop_response : CxlTransactionClass

pub record CxlRecordPolicy : Type 0 where
  pub mode : CxlRecordMode
  pub endpoint : IpId

-- `CxlRecordPolicy::gemm`
unfoldable pub gemm_policy : CxlRecordMode → CxlRecordPolicy
gemm_policy m = record { mode = m; endpoint = slug_cxl4x4 }

pub record CxlReplayRecord : Type 0 where
  pub sequence : ℕ
  pub source : CxlEndpoint
  pub destination : CxlEndpoint
  pub epoch : ℕ
  pub direction : CxlDirection
  pub transaction_class : CxlTransactionClass
  pub msg_class : MsgClass
  pub opcode : String
  pub tag : ℕ
  pub address : Option ℕ
  pub dependencies : List ℕ
  pub fence : Bool
  pub payload : PayloadCapture
  pub provenance : Option String

text_discrete : Discrete String
text_discrete s t = elim (Bool-cases (str_eq s t)) [
  | inl e ↦ yes ((eq_iff s t).0 e)
  | inr n ↦ no (λ p. cc (n, (eq_iff s t).1 p))
]

-- The derived equality of the records is decidable.
pub CxlReplayRecord-discrete : Discrete CxlReplayRecord
CxlReplayRecord-discrete = hlevel (ℕ_discrete, text_discrete)

unfoldable pub classify : CxlMsg → CxlTransactionClass
classify (CxlMsg.m2s_req _ M2sReqOp.mem_rd _) = cxl_mem_read
classify (CxlMsg.m2s_req _ M2sReqOp.mem_rd_data _) = cxl_mem_read
classify (CxlMsg.m2s_req _ M2sReqOp.mem_inv _) = cxl_cache_request
classify (CxlMsg.m2s_rwd _ M2sRwdOp.mem_wr _ _) = cxl_mem_write
classify (CxlMsg.m2s_rwd _ M2sRwdOp.mem_wr_ptl _ _) = cxl_mem_write_partial
classify (CxlMsg.m2s_rwd _ M2sRwdOp.mem_cln_evct _ _) = cxl_mem_eviction
classify (CxlMsg.s2m_drs _ _ _) = cxl_mem_data
classify (CxlMsg.s2m_ndr _ _) = cxl_completion
classify (CxlMsg.d2h_req _ _ _) = cxl_cache_request
classify (CxlMsg.d2h_resp _ _ _) = cxl_cache_response
classify (CxlMsg.h2d_req _ _ _) = cxl_snoop_request
classify (CxlMsg.h2d_resp _ _) = cxl_snoop_response

unfoldable pub opcode_name : CxlMsg → String
opcode_name (CxlMsg.m2s_req _ M2sReqOp.mem_rd _) = "MemRd"
opcode_name (CxlMsg.m2s_req _ M2sReqOp.mem_rd_data _) = "MemRdData"
opcode_name (CxlMsg.m2s_req _ M2sReqOp.mem_inv _) = "MemInv"
opcode_name (CxlMsg.m2s_rwd _ M2sRwdOp.mem_wr _ _) = "MemWr"
opcode_name (CxlMsg.m2s_rwd _ M2sRwdOp.mem_wr_ptl _ _) = "MemWrPtl"
opcode_name (CxlMsg.m2s_rwd _ M2sRwdOp.mem_cln_evct _ _) = "MemClnEvct"
opcode_name (CxlMsg.s2m_drs _ S2mDrsOp.mem_data _) = "MemData"
opcode_name (CxlMsg.s2m_drs _ S2mDrsOp.mem_data_nxm _) = "MemDataNxm"
opcode_name (CxlMsg.s2m_ndr _ S2mNdrOp.cmp) = "Cmp"
opcode_name (CxlMsg.s2m_ndr _ S2mNdrOp.cmp_s) = "CmpS"
opcode_name (CxlMsg.s2m_ndr _ S2mNdrOp.cmp_e) = "CmpE"
opcode_name (CxlMsg.s2m_ndr _ S2mNdrOp.cmp_i) = "CmpI"
opcode_name (CxlMsg.s2m_ndr _ S2mNdrOp.mem_pass_dirty) = "MemPassDirty"
opcode_name (CxlMsg.s2m_ndr _ S2mNdrOp.dispatch_failed) = "DispatchFailed"
opcode_name (CxlMsg.d2h_req _ D2hReqOp.rd_shared _) = "RdShared"
opcode_name (CxlMsg.d2h_req _ D2hReqOp.rd_own _) = "RdOwn"
opcode_name (CxlMsg.d2h_req _ D2hReqOp.inval _) = "Inval"
opcode_name (CxlMsg.d2h_resp _ D2hRespOp.rsp_i_fwd_m _) = "RspIFwdM"
opcode_name (CxlMsg.d2h_resp _ D2hRespOp.rsp_s_fwd_m _) = "RspSFwdM"
opcode_name (CxlMsg.d2h_resp _ D2hRespOp.rsp_v _) = "RspV"
opcode_name (CxlMsg.h2d_req _ H2dReqOp.snp_data _) = "SnpData"
opcode_name (CxlMsg.h2d_req _ H2dReqOp.snp_inv _) = "SnpInv"
opcode_name (CxlMsg.h2d_req _ H2dReqOp.snp_cur _) = "SnpCur"
opcode_name (CxlMsg.h2d_resp _ H2dRespOp.go_write_pull) = "GoWritePull"
opcode_name (CxlMsg.h2d_resp _ H2dRespOp.go_err) = "GoErr"
opcode_name (CxlMsg.h2d_resp _ H2dRespOp.go) = "Go"

unfoldable pub payload_bytes : CxlMsg → Option (List ℕ)
payload_bytes (CxlMsg.m2s_rwd _ _ _ d) = some d
payload_bytes (CxlMsg.s2m_drs _ _ d) = some d
payload_bytes (CxlMsg.d2h_resp _ _ d) = d
payload_bytes (CxlMsg.m2s_req _ _ _) = none
payload_bytes (CxlMsg.s2m_ndr _ _) = none
payload_bytes (CxlMsg.d2h_req _ _ _) = none
payload_bytes (CxlMsg.h2d_req _ _ _) = none
payload_bytes (CxlMsg.h2d_resp _ _) = none

unfoldable pub address_of : CxlMsg → Option ℕ
address_of (CxlMsg.m2s_req _ _ addr) = some addr
address_of (CxlMsg.m2s_rwd _ _ addr _) = some addr
address_of (CxlMsg.d2h_req _ _ addr) = some addr
address_of (CxlMsg.h2d_req _ _ addr) = some addr
address_of (CxlMsg.s2m_drs _ _ _) = none
address_of (CxlMsg.s2m_ndr _ _) = none
address_of (CxlMsg.d2h_resp _ _ _) = none
address_of (CxlMsg.h2d_resp _ _) = none

unfoldable pub gemm_epoch : ℕ → ℕ
gemm_epoch i = if leb i 15 then 0 else if leb i 31 then 1 else if i == 32 then 2 else 3

unfoldable pub provenance_label : ℕ → Option String
provenance_label i = some (
    if leb i 15
    then "gemm.load_a"
    else if leb i 31
    then "gemm.load_b"
    else if i == 32
    then "gemm.compute"
    else "gemm.readback")
