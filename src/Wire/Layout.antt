-- ===== src/Wire/Layout.antt =====
-- The byte layout that flit.rs documents, and that `encode` writes and `decode` reads.
use slug_arch.Base.{ℕ, ◌+◌, ◌*◌, ◌/◌, ◌%◌, ◌<◌, ◌≡◌, refl, sym, ap, ◌∙◌, arith, bit_and}
use slug_arch.Base.{Option, none, some, List, ◌∷◌, ◌++◌, ◌>>=◌, ok_or, false}
use slug_arch.Base.{length, length-append, All, All-append}
use slug_arch.Base.{replicate, drop, slice, set, get_or, copy_at, take-append, drop-append}
use slug_arch.Base.{
  to_le_bytes, from_le_bytes, IsByte, to_le_bytes-IsByte, from-to_le_bytes, agree_below,
  agree_below→eq, ap₂,
}
use slug_arch.Wire.Msg.{
  MsgClass, CxlMsg, IsMsg, IsOptData, IsU16, IsU64, class, class_code, from_nibble,
}
use slug_arch.Wire.Codec.{
  unknown_class, fields, copy_data, header_byte, encode, any_nonzero, decode_class, decode,
}

-- The 32 data bytes of the flit: zeros where the message has no data.
unfoldable pub payload : Option (List ℕ) → List ℕ
payload none = replicate 32 0
payload (some d) = d

-- The documented layout: byte 0, tag, address, data, reserved zeros.
abbrev pub layout : ℕ → ℕ → ℕ → List ℕ → List ℕ
layout h tag addr d = h ∷ (to_le_bytes 2 tag ++ (to_le_bytes 8 addr ++ (d ++ replicate 21 0)))

copy_data-layout :
    (h tag addr : ℕ) (d : Option (List ℕ))
    → IsOptData d
    → copy_data
        (copy_at (copy_at (set (replicate 64 0) 0 h) 1 (to_le_bytes 2 tag)) 3 (to_le_bytes 8 addr))
        d
      ≡ layout h tag addr (payload d)
unfolding copy_data payload
copy_data-layout h tag addr none v = refl
copy_data-layout h tag addr (some d) v = rw v.0

abbrev pub layout_of : ℕ → ℕ × ℕ × ℕ × Option (List ℕ) → List ℕ
layout_of c (opcode, tag, addr, d) = layout (header_byte c opcode) tag addr (payload d)

pub IsOptData-fields : (m : CxlMsg) → IsMsg m → IsOptData ((fields m).3)
unfolding fields
IsOptData-fields (CxlMsg.m2s_req t o a) v = tt
IsOptData-fields (CxlMsg.m2s_rwd t o a d) v = v.2
IsOptData-fields (CxlMsg.s2m_drs t o d) v = v.1
IsOptData-fields (CxlMsg.s2m_ndr t o) v = tt
IsOptData-fields (CxlMsg.d2h_req t o a) v = tt
IsOptData-fields (CxlMsg.d2h_resp t o d) v = v.1
IsOptData-fields (CxlMsg.h2d_req t o a) v = tt
IsOptData-fields (CxlMsg.h2d_resp t o) v = tt

-- `encode` writes the documented layout.
pub encode-layout : (m : CxlMsg) → IsMsg m → encode m ≡ layout_of (class_code (class m)) (fields m)
unfolding encode
encode-layout m v = copy_data-layout _ _ _ _ (IsOptData-fields m v)

pub length-payload : (d : Option (List ℕ)) → IsOptData d → length (payload d) ≡ 32
unfolding payload
length-payload none v = refl
length-payload (some d) v = v.0

-- What `decode` reads from a flit of known parts.
decode_parts :
    (flit : List ℕ) (h tag addr : ℕ) (d : List ℕ)
    → get_or flit 0 0 ≡ h
    → any_nonzero (drop 43 flit) ≡ false
    → from_le_bytes (slice flit 1 2) ≡ tag
    → from_le_bytes (slice flit 3 8) ≡ addr
    → slice flit 11 32 ≡ d
    → decode flit ≡ (
        ok_or (from_nibble (h / 16)) (unknown_class (h / 16)) >>= λ c.
        decode_class c (bit_and h 0x0f) tag addr d)
unfolding decode
decode_parts flit h tag addr d e0 e1 e2 e3 e4 = rw e1 (simp (e0, e2, e3, e4))

-- `decode` reads the documented layout.
pub decode-layout :
    (h tag addr : ℕ) (d : List ℕ)
    → IsU16 tag
    → IsU64 addr
    → length d ≡ 32
    → decode (layout h tag addr d) ≡ (
        ok_or (from_nibble (h / 16)) (unknown_class (h / 16)) >>= λ c.
        decode_class c (bit_and h 0x0f) tag addr d)
unfolding any_nonzero
decode-layout h tag addr d ht ha hd =
    decode_parts (layout h tag addr d) h tag addr d refl (ap any_nonzero (drop-append 32 d _ hd))
      (from-to_le_bytes 2 tag ht) (from-to_le_bytes 8 addr ha) (take-append 32 d _ hd)

abbrev pub IsFlit : List ℕ → Type 0
IsFlit f = (length f ≡ 64) × All IsByte f

header_table : (i : ℕ) → i < 256 → header_byte (i / 16) (i % 16) ≡ i
header_table =
    agree_below→eq (λ i. header_byte (i / 16) (i % 16)) (λ i. i) 256 (unfold agree_below in refl)

-- The header byte has the class in the high nibble and the opcode in the low one.
pub header_byte-pack : (c o : ℕ) → c < 16 → o < 16 → header_byte c o ≡ c * 16 + o
header_byte-pack c o hc ho =
    let high : (c * 16 + o) / 16 ≡ c = omega arith in
    let low : (c * 16 + o) % 16 ≡ o = omega arith in
    ap₂ header_byte (sym high) (sym low) ∙ header_table (c * 16 + o) (omega arith)

pub class_code-lt : (c : MsgClass) → class_code c < 16
class_code-lt c = ground arith

opcode-lt : (m : CxlMsg) → (fields m).0 < 16
unfolding fields
opcode-lt m = ground arith

payload-IsByte : (d : Option (List ℕ)) → IsOptData d → All IsByte (payload d)
unfolding payload
payload-IsByte none v = omega arith
payload-IsByte (some d) v = v.1

layout-IsFlit :
    (h tag addr : ℕ) (d : List ℕ)
    → IsByte h
    → length d ≡ 32
    → All IsByte d
    → IsFlit (layout h tag addr d)
layout-IsFlit h tag addr d hh hd bd =
    let zeros : List ℕ = replicate 21 0 in
    let low : List ℕ = to_le_bytes 8 addr in
    let tail : All IsByte (d ++ zeros) = All-append IsByte d zeros bd (omega arith) in
    let rest : All IsByte (low ++ (d ++ zeros)) =
      All-append IsByte low (d ++ zeros) (to_le_bytes-IsByte 8 addr) tail in
    (
      omega (arith, length-append d zeros),
      (
        hh,
        All-append IsByte (to_le_bytes 2 tag) (low ++ (d ++ zeros)) (to_le_bytes-IsByte 2 tag) rest,
      ),
    )

-- Every encoded message is a flit of 64 bytes whose reserved bytes, 43 to 63, are zero, and whose
-- header byte packs the class and the opcode.
pub encode_shape :
    (m : CxlMsg)
    → IsMsg m
    → IsFlit (encode m)
      × (drop 43 (encode m) ≡ replicate 21 0)
      × (get_or (encode m) 0 0 ≡ class_code (class m) * 16 + (fields m).0)
encode_shape m v =
    let c : ℕ = class_code (class m) in
    let o : ℕ = (fields m).0 in
    let packed = header_byte-pack c o (class_code-lt (class m)) (opcode-lt m) in
    let d = payload ((fields m).3) in
    let opt = IsOptData-fields m v in
    rw (encode-layout m v) (
      layout-IsFlit _ ((fields m).1) ((fields m).2) d
          (rw packed (omega (arith, class_code-lt (class m), opcode-lt m))) (length-payload _ opt)
          (payload-IsByte _ opt),
      drop-append 32 d _ (length-payload _ opt),
      packed,
    )
