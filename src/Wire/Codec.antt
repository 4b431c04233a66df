-- ===== src/Wire/Codec.antt =====
-- crates/slugarch-cxl-wire/src/{flit,error,encode,decode}.rs: a flit is a list of 64 bytes, and
-- `copy_from_slice` on a range is `copy_at`.
use slug_arch.Base.{ℕ, ◌*◌, ◌/◌, ◌%◌, ◌^◌, bit_and, bit_or, Bool, false, ◌||◌, not}
use slug_arch.Base.{Option, none, some, List, [], ◌∷◌, ◌==◌, if◌then◌else◌}
use slug_arch.Base.{Result, ok, err, ◌>>=◌, ok_or}
use slug_arch.Base.{replicate, drop, slice, set, get_or, copy_at, to_le_bytes, from_le_bytes}
use slug_arch.Wire.Msg.{
  MsgClass, CxlMsg, M2sReqOp, M2sRwdOp, S2mDrsOp, S2mNdrOp, D2hReqOp, D2hRespOp, H2dReqOp,
  H2dRespOp, class, from_nibble, class_code, m2s_req_code, m2s_rwd_code, s2m_drs_code, s2m_ndr_code,
  d2h_req_code, d2h_resp_code, h2d_req_code, h2d_resp_code,
}

abbrev pub flit_bytes : ℕ
flit_bytes = 64

abbrev pub offset_tag : ℕ
offset_tag = 1

abbrev pub offset_addr : ℕ
offset_addr = 3

abbrev pub offset_data : ℕ
offset_data = 11

abbrev pub offset_reserved : ℕ
offset_reserved = 43

abbrev pub data_bytes : ℕ
data_bytes = 32

-- `tag_mismatch` carries the expected and the received tag; the codec never makes it.
pub data WireError : Type 0 where
  unknown_class : ℕ → WireError
  unknown_opcode : ℕ → MsgClass → WireError
  reserved_bits_set : WireError
  tag_mismatch : ℕ → ℕ → WireError

-- The tuple (opcode, tag, addr, data) that `encode` reads off a message.
unfoldable pub fields : CxlMsg → ℕ × ℕ × ℕ × Option (List ℕ)
fields (CxlMsg.m2s_req tag opcode addr) = (m2s_req_code opcode, tag, addr, none)
fields (CxlMsg.m2s_rwd tag opcode addr d) = (m2s_rwd_code opcode, tag, addr, some d)
fields (CxlMsg.s2m_drs tag opcode d) = (s2m_drs_code opcode, tag, 0, some d)
fields (CxlMsg.s2m_ndr tag opcode) = (s2m_ndr_code opcode, tag, 0, none)
fields (CxlMsg.d2h_req tag opcode addr) = (d2h_req_code opcode, tag, addr, none)
fields (CxlMsg.d2h_resp tag opcode d) = (d2h_resp_code opcode, tag, 0, d)
fields (CxlMsg.h2d_req tag opcode addr) = (h2d_req_code opcode, tag, addr, none)
fields (CxlMsg.h2d_resp tag opcode) = (h2d_resp_code opcode, tag, 0, none)

-- `if let Some(d) = data { flit[11..43].copy_from_slice(&d) }`
unfoldable pub copy_data : List ℕ → Option (List ℕ) → List ℕ
copy_data flit none = flit
copy_data flit (some d) = copy_at flit offset_data d

-- `(class << 4) | (opcode & 0x0F)`, on a `u8`.
abbrev pub header_byte : ℕ → ℕ → ℕ
header_byte c opcode = bit_or (c * 2 ^ 4 % 2 ^ 8) (bit_and opcode 0x0f)

unfoldable pub encode : CxlMsg → List ℕ
unfolding fields copy_data class
encode msg =
    let (opcode, tag, addr, d) = fields msg in
    let flit = set (replicate flit_bytes 0) 0 (header_byte (class_code (class msg)) opcode) in
    let tagged = copy_at flit offset_tag (to_le_bytes 2 tag) in
    copy_data (copy_at tagged offset_addr (to_le_bytes 8 addr)) d

-- The loop over the reserved bytes: is one of them nonzero?
unfoldable pub any_nonzero : List ℕ → Bool
any_nonzero [] = false
any_nonzero (b ∷ bs) = not (b == 0) || any_nonzero bs

-- The opcode matches of `decode`, one for each class; `none` is the arm that returns the error.
unfoldable pub m2s_req_op : ℕ → Option M2sReqOp
m2s_req_op n =
    if n == 0x0
    then some M2sReqOp.mem_rd
    else if n == 0x1
    then some M2sReqOp.mem_rd_data
    else if n == 0x2
    then some M2sReqOp.mem_inv
    else none

unfoldable pub m2s_rwd_op : ℕ → Option M2sRwdOp
m2s_rwd_op n =
    if n == 0x0
    then some M2sRwdOp.mem_wr
    else if n == 0x1
    then some M2sRwdOp.mem_wr_ptl
    else if n == 0x2
    then some M2sRwdOp.mem_cln_evct
    else none

unfoldable pub s2m_drs_op : ℕ → Option S2mDrsOp
s2m_drs_op n =
    if n == 0x0
    then some S2mDrsOp.mem_data
    else if n == 0x1
    then some S2mDrsOp.mem_data_nxm
    else none

unfoldable pub s2m_ndr_op : ℕ → Option S2mNdrOp
s2m_ndr_op n =
    if n == 0x0
    then some S2mNdrOp.cmp
    else if n == 0x1
    then some S2mNdrOp.cmp_s
    else if n == 0x2
    then some S2mNdrOp.cmp_e
    else if n == 0x3
    then some S2mNdrOp.cmp_i
    else if n == 0x4
    then some S2mNdrOp.mem_pass_dirty
    else if n == 0xf
    then some S2mNdrOp.dispatch_failed
    else none

unfoldable pub d2h_req_op : ℕ → Option D2hReqOp
d2h_req_op n =
    if n == 0x0
    then some D2hReqOp.rd_shared
    else if n == 0x1
    then some D2hReqOp.rd_own
    else if n == 0x2
    then some D2hReqOp.inval
    else none

unfoldable pub d2h_resp_op : ℕ → Option D2hRespOp
d2h_resp_op n =
    if n == 0x0
    then some D2hRespOp.rsp_i_fwd_m
    else if n == 0x1
    then some D2hRespOp.rsp_s_fwd_m
    else if n == 0x2
    then some D2hRespOp.rsp_v
    else none

unfoldable pub h2d_req_op : ℕ → Option H2dReqOp
h2d_req_op n =
    if n == 0x0
    then some H2dReqOp.snp_data
    else if n == 0x1
    then some H2dReqOp.snp_inv
    else if n == 0x2
    then some H2dReqOp.snp_cur
    else none

unfoldable pub h2d_resp_op : ℕ → Option H2dRespOp
h2d_resp_op n =
    if n == 0x0
    then some H2dRespOp.go_write_pull
    else if n == 0x1
    then some H2dRespOp.go_err
    else if n == 0x2
    then some H2dRespOp.go
    else none

-- The `match class` of `decode`, on the opcode nibble, the tag, the address and the data.
unfoldable pub decode_class : MsgClass → ℕ → ℕ → ℕ → List ℕ → Result WireError CxlMsg
unfolding m2s_req_op m2s_rwd_op s2m_drs_op s2m_ndr_op d2h_req_op d2h_resp_op h2d_req_op h2d_resp_op
decode_class MsgClass.m2s_req op tag addr d = do
  opcode ← ok_or (m2s_req_op op) (unknown_opcode op MsgClass.m2s_req)
  ok (CxlMsg.m2s_req tag opcode addr)
decode_class MsgClass.m2s_rwd op tag addr d = do
  opcode ← ok_or (m2s_rwd_op op) (unknown_opcode op MsgClass.m2s_rwd)
  ok (CxlMsg.m2s_rwd tag opcode addr d)
decode_class MsgClass.s2m_drs op tag addr d = do
  opcode ← ok_or (s2m_drs_op op) (unknown_opcode op MsgClass.s2m_drs)
  ok (CxlMsg.s2m_drs tag opcode d)
decode_class MsgClass.s2m_ndr op tag addr d = do
  opcode ← ok_or (s2m_ndr_op op) (unknown_opcode op MsgClass.s2m_ndr)
  ok (CxlMsg.s2m_ndr tag opcode)
decode_class MsgClass.d2h_req op tag addr d = do
  opcode ← ok_or (d2h_req_op op) (unknown_opcode op MsgClass.d2h_req)
  ok (CxlMsg.d2h_req tag opcode addr)
decode_class MsgClass.d2h_resp op tag addr d = do
  opcode ← ok_or (d2h_resp_op op) (unknown_opcode op MsgClass.d2h_resp)
  ok (CxlMsg.d2h_resp tag opcode (some d))
decode_class MsgClass.h2d_req op tag addr d = do
  opcode ← ok_or (h2d_req_op op) (unknown_opcode op MsgClass.h2d_req)
  ok (CxlMsg.h2d_req tag opcode addr)
decode_class MsgClass.h2d_resp op tag addr d = do
  opcode ← ok_or (h2d_resp_op op) (unknown_opcode op MsgClass.h2d_resp)
  ok (CxlMsg.h2d_resp tag opcode)

-- `flit[0] >> 4` and `flit[0] & 0x0F`
abbrev pub class_nibble : List ℕ → ℕ
class_nibble flit = get_or flit 0 0 / 2 ^ 4

abbrev pub opcode_nibble : List ℕ → ℕ
opcode_nibble flit = bit_and (get_or flit 0 0) 0x0f

unfoldable pub decode : List ℕ → Result WireError CxlMsg
decode flit = if any_nonzero (drop offset_reserved flit) then err reserved_bits_set else do
  c ← ok_or (from_nibble (class_nibble flit)) (unknown_class (class_nibble flit))
  let tag = from_le_bytes (slice flit offset_tag 2)
  let addr = from_le_bytes (slice flit offset_addr 8)
  decode_class c (opcode_nibble flit) tag addr (slice flit offset_data data_bytes)
