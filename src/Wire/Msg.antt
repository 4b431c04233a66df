-- ===== src/Wire/Msg.antt =====
-- crates/slugarch-cxl-wire/src/msg.rs: message classes, opcodes and messages. `code` of a type is
-- its discriminant, the `as u8` of the source. A `[u8; 32]` is a list of 32 bytes.
use slug_arch.Base.{ℕ, ◌<◌, ◌^◌, ◌≡◌, Option, none, some, List, length, All, IsByte}
use slug_arch.Base.{◌==◌, if◌then◌else◌}

pub data MsgClass : Type 0 where
  m2s_req m2s_rwd s2m_drs s2m_ndr d2h_req d2h_resp h2d_req h2d_resp : MsgClass

pub data M2sReqOp : Type 0 where
  mem_rd mem_rd_data mem_inv : M2sReqOp

pub data M2sRwdOp : Type 0 where
  mem_wr mem_wr_ptl mem_cln_evct : M2sRwdOp

pub data S2mDrsOp : Type 0 where
  mem_data mem_data_nxm : S2mDrsOp

pub data S2mNdrOp : Type 0 where
  cmp cmp_s cmp_e cmp_i mem_pass_dirty dispatch_failed : S2mNdrOp

pub data D2hReqOp : Type 0 where
  rd_shared rd_own inval : D2hReqOp

pub data D2hRespOp : Type 0 where
  rsp_i_fwd_m rsp_s_fwd_m rsp_v : D2hRespOp

pub data H2dReqOp : Type 0 where
  snp_data snp_inv snp_cur : H2dReqOp

pub data H2dRespOp : Type 0 where
  go_write_pull go_err go : H2dRespOp

-- The fields of each variant in the order of the source: tag, opcode, address, data.
pub data CxlMsg : Type 0 where
  m2s_req : ℕ → M2sReqOp → ℕ → CxlMsg
  m2s_rwd : ℕ → M2sRwdOp → ℕ → List ℕ → CxlMsg
  s2m_drs : ℕ → S2mDrsOp → List ℕ → CxlMsg
  s2m_ndr : ℕ → S2mNdrOp → CxlMsg
  d2h_req : ℕ → D2hReqOp → ℕ → CxlMsg
  d2h_resp : ℕ → D2hRespOp → Option (List ℕ) → CxlMsg
  h2d_req : ℕ → H2dReqOp → ℕ → CxlMsg
  h2d_resp : ℕ → H2dRespOp → CxlMsg

abbrev pub class_code : MsgClass → ℕ
class_code MsgClass.m2s_req = 0x1
class_code MsgClass.m2s_rwd = 0x2
class_code MsgClass.s2m_drs = 0x3
class_code MsgClass.s2m_ndr = 0x4
class_code MsgClass.d2h_req = 0x5
class_code MsgClass.d2h_resp = 0x6
class_code MsgClass.h2d_req = 0x7
class_code MsgClass.h2d_resp = 0x8

abbrev pub m2s_req_code : M2sReqOp → ℕ
m2s_req_code mem_rd = 0x0
m2s_req_code mem_rd_data = 0x1
m2s_req_code mem_inv = 0x2

abbrev pub m2s_rwd_code : M2sRwdOp → ℕ
m2s_rwd_code mem_wr = 0x0
m2s_rwd_code mem_wr_ptl = 0x1
m2s_rwd_code mem_cln_evct = 0x2

abbrev pub s2m_drs_code : S2mDrsOp → ℕ
s2m_drs_code mem_data = 0x0
s2m_drs_code mem_data_nxm = 0x1

abbrev pub s2m_ndr_code : S2mNdrOp → ℕ
s2m_ndr_code cmp = 0x0
s2m_ndr_code cmp_s = 0x1
s2m_ndr_code cmp_e = 0x2
s2m_ndr_code cmp_i = 0x3
s2m_ndr_code mem_pass_dirty = 0x4
s2m_ndr_code dispatch_failed = 0xf

abbrev pub d2h_req_code : D2hReqOp → ℕ
d2h_req_code rd_shared = 0x0
d2h_req_code rd_own = 0x1
d2h_req_code inval = 0x2

abbrev pub d2h_resp_code : D2hRespOp → ℕ
d2h_resp_code rsp_i_fwd_m = 0x0
d2h_resp_code rsp_s_fwd_m = 0x1
d2h_resp_code rsp_v = 0x2

abbrev pub h2d_req_code : H2dReqOp → ℕ
h2d_req_code snp_data = 0x0
h2d_req_code snp_inv = 0x1
h2d_req_code snp_cur = 0x2

abbrev pub h2d_resp_code : H2dRespOp → ℕ
h2d_resp_code go_write_pull = 0x0
h2d_resp_code go_err = 0x1
h2d_resp_code go = 0x2

-- `CxlMsg::class`
unfoldable pub class : CxlMsg → MsgClass
class (CxlMsg.m2s_req tag opcode addr) = MsgClass.m2s_req
class (CxlMsg.m2s_rwd tag opcode addr d) = MsgClass.m2s_rwd
class (CxlMsg.s2m_drs tag opcode d) = MsgClass.s2m_drs
class (CxlMsg.s2m_ndr tag opcode) = MsgClass.s2m_ndr
class (CxlMsg.d2h_req tag opcode addr) = MsgClass.d2h_req
class (CxlMsg.d2h_resp tag opcode d) = MsgClass.d2h_resp
class (CxlMsg.h2d_req tag opcode addr) = MsgClass.h2d_req
class (CxlMsg.h2d_resp tag opcode) = MsgClass.h2d_resp

-- `CxlMsg::tag`
unfoldable pub tag : CxlMsg → ℕ
tag (CxlMsg.m2s_req t opcode addr) = t
tag (CxlMsg.m2s_rwd t opcode addr d) = t
tag (CxlMsg.s2m_drs t opcode d) = t
tag (CxlMsg.s2m_ndr t opcode) = t
tag (CxlMsg.d2h_req t opcode addr) = t
tag (CxlMsg.d2h_resp t opcode d) = t
tag (CxlMsg.h2d_req t opcode addr) = t
tag (CxlMsg.h2d_resp t opcode) = t

-- `MsgClass::from_nibble`
unfoldable pub from_nibble : ℕ → Option MsgClass
from_nibble n =
    if n == 0x1
    then some MsgClass.m2s_req
    else if n == 0x2
    then some MsgClass.m2s_rwd
    else if n == 0x3
    then some MsgClass.s2m_drs
    else if n == 0x4
    then some MsgClass.s2m_ndr
    else if n == 0x5
    then some MsgClass.d2h_req
    else if n == 0x6
    then some MsgClass.d2h_resp
    else if n == 0x7
    then some MsgClass.h2d_req
    else if n == 0x8
    then some MsgClass.h2d_resp
    else none

-- The ranges of the machine types: `u16`, `u64`, `[u8; 32]`, `Option<[u8; 32]>`.
abbrev pub IsU16 : ℕ → Type 0
IsU16 n = n < 2 ^ 16

abbrev pub IsU64 : ℕ → Type 0
IsU64 n = n < 2 ^ 64

abbrev pub IsData : List ℕ → Type 0
IsData d = (length d ≡ 32) × All IsByte d

abbrev pub IsOptData : Option (List ℕ) → Type 0
IsOptData none = Unit {0}
IsOptData (some d) = IsData d

-- Every field of the message is in the range of its type.
abbrev pub IsMsg : CxlMsg → Type 0
IsMsg (CxlMsg.m2s_req t opcode addr) = IsU16 t × IsU64 addr
IsMsg (CxlMsg.m2s_rwd t opcode addr d) = IsU16 t × IsU64 addr × IsData d
IsMsg (CxlMsg.s2m_drs t opcode d) = IsU16 t × IsData d
IsMsg (CxlMsg.s2m_ndr t opcode) = IsU16 t × Unit {0}
IsMsg (CxlMsg.d2h_req t opcode addr) = IsU16 t × IsU64 addr
IsMsg (CxlMsg.d2h_resp t opcode d) = IsU16 t × IsOptData d
IsMsg (CxlMsg.h2d_req t opcode addr) = IsU16 t × IsU64 addr
IsMsg (CxlMsg.h2d_resp t opcode) = IsU16 t × Unit {0}
