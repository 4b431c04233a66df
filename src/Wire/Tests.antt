-- ===== src/Wire/Tests.antt =====
-- Runs of the codec, and its theorems at concrete inputs.
use slug_arch.Base.{ℕ, ◌+◌, ◌*◌, ◌/◌, ◌%◌, ◌≡◌, refl, arith, List, [], ◌∷◌, ◌++◌, ok, err}
use slug_arch.Base.{replicate, set, drop, get_or}
use slug_arch.Wire.Msg.{MsgClass, CxlMsg, M2sReqOp, M2sRwdOp, IsMsg, class, class_code, from_nibble}
use slug_arch.Wire.Codec.{
  encode, decode, fields, any_nonzero, decode_class, reserved_bits_set, unknown_class,
  unknown_opcode,
}
use slug_arch.Wire.Layout.{IsFlit, encode_shape}
use slug_arch.Wire.RoundTrip.{as_received, decode-encode}
use slug_arch.Wire.Reencode.{used_bytes, encode-decode}
use slug_arch.Wire.Reject.{verdict, expected, verdict-decode}

-- The write of the tests of encode.rs, with its data.
abbrev write : CxlMsg
write =
    CxlMsg.m2s_rwd 0xabcd M2sRwdOp.mem_wr_ptl 0x1122_3344_5566_7788
      (0xde ∷ (replicate 30 0 ++ (0xad ∷ [])))

abbrev read_flit : List ℕ
read_flit = 0x10 ∷ 0x34 ∷ 0x12 ∷ 0x00 ∷ 0x20 ∷ (replicate 38 7 ++ replicate 21 0)

write_flit :
    encode write
    ≡ 0x21
      ∷ 0xcd
      ∷ 0xab
      ∷ 0x88
      ∷ 0x77
      ∷ 0x66
      ∷ 0x55
      ∷ 0x44
      ∷ 0x33
      ∷ 0x22
      ∷ 0x11
      ∷ 0xde
      ∷ (replicate 30 0 ++ (0xad ∷ replicate 21 0))
unfolding encode
write_flit = refl

reserved_rejected : decode (set (encode write) 50 0xff) ≡ err reserved_bits_set
unfolding encode decode any_nonzero
reserved_rejected = refl

class_rejected : decode (0xf0 ∷ replicate 63 0) ≡ err (unknown_class 0xf)
unfolding decode any_nonzero from_nibble
class_rejected = refl

opcode_rejected : decode (0x1e ∷ replicate 63 0) ≡ err (unknown_opcode 0xe MsgClass.m2s_req)
unfolding decode any_nonzero from_nibble decode_class
opcode_rejected = refl

read_decodes : decode read_flit ≡ ok (CxlMsg.m2s_req 0x1234 M2sReqOp.mem_rd 0x0707_0707_0707_2000)
unfolding decode any_nonzero from_nibble decode_class
read_decodes = refl

decode-encode_example : decode (encode write) ≡ ok (as_received write)
decode-encode_example = decode-encode write (omega arith)

encode_shape_example :
    IsFlit (encode write)
    × (drop 43 (encode write) ≡ replicate 21 0)
    × (get_or (encode write) 0 0 ≡ class_code (class write) * 16 + (fields write).0)
encode_shape_example = encode_shape write (omega arith)

encode-decode_example :
    IsMsg (CxlMsg.m2s_req 0x1234 M2sReqOp.mem_rd 0x0707_0707_0707_2000)
    × (encode (CxlMsg.m2s_req 0x1234 M2sReqOp.mem_rd 0x0707_0707_0707_2000)
        ≡ used_bytes
            (class (CxlMsg.m2s_req 0x1234 M2sReqOp.mem_rd 0x0707_0707_0707_2000))
            read_flit)
encode-decode_example =
    encode-decode read_flit (CxlMsg.m2s_req 0x1234 M2sReqOp.mem_rd 0x0707_0707_0707_2000)
      (omega arith) read_decodes

verdict-decode_example :
    verdict (decode read_flit)
    ≡ expected (get_or read_flit 0 0 / 16) (get_or read_flit 0 0 % 16) (drop 43 read_flit)
verdict-decode_example = verdict-decode read_flit (omega arith)
