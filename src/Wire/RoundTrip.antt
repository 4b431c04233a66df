-- ===== src/Wire/RoundTrip.antt =====
-- `decode` after `encode`.
use slug_arch.Base.{◌/◌, ◌≡◌, refl, ap, ◌∙◌, arith, bit_and}
use slug_arch.Base.{none, some, ok, ◌>>=◌, ok_or}
use slug_arch.Base.{replicate}
use slug_arch.Wire.Msg.{CxlMsg, IsMsg, IsU16, IsU64, class, class_code, from_nibble}
use slug_arch.Wire.Msg.{
  M2sReqOp, M2sRwdOp, S2mDrsOp, S2mNdrOp, D2hReqOp, D2hRespOp, H2dReqOp, H2dRespOp,
}
use slug_arch.Wire.Codec.{unknown_class, fields, header_byte, encode, decode_class, decode}
use slug_arch.Wire.Layout.{payload, encode-layout, decode-layout, IsOptData-fields, length-payload}

-- A message as the receiver sees it: a D2H response without data arrives with 32 zero bytes.
unfoldable pub as_received : CxlMsg → CxlMsg
as_received (CxlMsg.d2h_resp tag opcode none) = CxlMsg.d2h_resp tag opcode (some (replicate 32 0))
as_received m = m

-- The class of every message is read back from its header byte, and so is its opcode.
decode_class-fields :
    (m : CxlMsg)
    → (ok_or
          (from_nibble (header_byte (class_code (class m)) ((fields m).0) / 16))
          (unknown_class (header_byte (class_code (class m)) ((fields m).0) / 16))
        >>= λ c.
            decode_class c
              (bit_and (header_byte (class_code (class m)) ((fields m).0)) 0x0f)
              ((fields m).1)
              ((fields m).2)
              (payload ((fields m).3)))
      ≡ ok (as_received m)
unfolding class fields from_nibble decode_class payload as_received
decode_class-fields (CxlMsg.m2s_req t M2sReqOp.mem_rd a) = refl
decode_class-fields (CxlMsg.m2s_req t M2sReqOp.mem_rd_data a) = refl
decode_class-fields (CxlMsg.m2s_req t M2sReqOp.mem_inv a) = refl
decode_class-fields (CxlMsg.m2s_rwd t M2sRwdOp.mem_wr a d) = refl
decode_class-fields (CxlMsg.m2s_rwd t M2sRwdOp.mem_wr_ptl a d) = refl
decode_class-fields (CxlMsg.m2s_rwd t M2sRwdOp.mem_cln_evct a d) = refl
decode_class-fields (CxlMsg.s2m_drs t S2mDrsOp.mem_data d) = refl
decode_class-fields (CxlMsg.s2m_drs t S2mDrsOp.mem_data_nxm d) = refl
decode_class-fields (CxlMsg.s2m_ndr t S2mNdrOp.cmp) = refl
decode_class-fields (CxlMsg.s2m_ndr t S2mNdrOp.cmp_s) = refl
decode_class-fields (CxlMsg.s2m_ndr t S2mNdrOp.cmp_e) = refl
decode_class-fields (CxlMsg.s2m_ndr t S2mNdrOp.cmp_i) = refl
decode_class-fields (CxlMsg.s2m_ndr t S2mNdrOp.mem_pass_dirty) = refl
decode_class-fields (CxlMsg.s2m_ndr t S2mNdrOp.dispatch_failed) = refl
decode_class-fields (CxlMsg.d2h_req t D2hReqOp.rd_shared a) = refl
decode_class-fields (CxlMsg.d2h_req t D2hReqOp.rd_own a) = refl
decode_class-fields (CxlMsg.d2h_req t D2hReqOp.inval a) = refl
decode_class-fields (CxlMsg.d2h_resp t D2hRespOp.rsp_i_fwd_m none) = refl
decode_class-fields (CxlMsg.d2h_resp t D2hRespOp.rsp_s_fwd_m none) = refl
decode_class-fields (CxlMsg.d2h_resp t D2hRespOp.rsp_v none) = refl
decode_class-fields (CxlMsg.d2h_resp t D2hRespOp.rsp_i_fwd_m (some d)) = refl
decode_class-fields (CxlMsg.d2h_resp t D2hRespOp.rsp_s_fwd_m (some d)) = refl
decode_class-fields (CxlMsg.d2h_resp t D2hRespOp.rsp_v (some d)) = refl
decode_class-fields (CxlMsg.h2d_req t H2dReqOp.snp_data a) = refl
decode_class-fields (CxlMsg.h2d_req t H2dReqOp.snp_inv a) = refl
decode_class-fields (CxlMsg.h2d_req t H2dReqOp.snp_cur a) = refl
decode_class-fields (CxlMsg.h2d_resp t H2dRespOp.go_write_pull) = refl
decode_class-fields (CxlMsg.h2d_resp t H2dRespOp.go_err) = refl
decode_class-fields (CxlMsg.h2d_resp t H2dRespOp.go) = refl

-- The tag and the address that `encode` writes are in range.
fields_in_range : (m : CxlMsg) → IsMsg m → IsU16 ((fields m).1) × IsU64 ((fields m).2)
unfolding fields
fields_in_range (CxlMsg.m2s_req t o a) v = (v.0, v.1)
fields_in_range (CxlMsg.m2s_rwd t o a d) v = (v.0, v.1)
fields_in_range (CxlMsg.s2m_drs t o d) v = (v.0, omega arith)
fields_in_range (CxlMsg.s2m_ndr t o) v = (v.0, omega arith)
fields_in_range (CxlMsg.d2h_req t o a) v = (v.0, v.1)
fields_in_range (CxlMsg.d2h_resp t o d) v = (v.0, omega arith)
fields_in_range (CxlMsg.h2d_req t o a) v = (v.0, v.1)
fields_in_range (CxlMsg.h2d_resp t o) v = (v.0, omega arith)

-- For every message whose fields are in the range of their types, decoding the encoded flit
-- returns the message; of a D2H response without data it returns that response with 32 zero bytes.
pub decode-encode : (m : CxlMsg) → IsMsg m → decode (encode m) ≡ ok (as_received m)
decode-encode m v =
    let (ht, ha) = fields_in_range m v in
    ap decode (encode-layout m v)
    ∙ decode-layout _ ((fields m).1) ((fields m).2) (payload ((fields m).3)) ht ha
        (length-payload ((fields m).3) (IsOptData-fields m v))
    ∙ decode_class-fields m
