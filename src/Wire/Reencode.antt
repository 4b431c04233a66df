-- ===== src/Wire/Reencode.antt =====
-- `encode` after `decode`.
use slug_arch.Base.{ℕ, ◌+◌, ◌/◌, ◌%◌, ◌^◌, ◌<◌, ◌≡◌, refl, sym, ap, ◌∙◌, arith, bit_and}
use slug_arch.Base.{Option, none, some, List, [], ◌∷◌, ◌++◌, ok, ok_or}
use slug_arch.Base.{
  length, All, replicate, IsByte, ◌≤◌, ap₂, length-take, length-drop, All-take, All-drop,
}
use slug_arch.Base.{
  subst, take-append, low_nibble, from_le_bytes-lt, to-from_le_bytes, take-append-drop, drop-drop,
}
use slug_arch.Base.{
  Bool, true, false, if◌then◌else◌, Bool-cases, inl, inr, >>=-eq-ok, take, drop, slice, get_or,
  from_le_bytes, to_le_bytes,
}
use slug_arch.Wire.Msg.{
  MsgClass, CxlMsg, IsMsg, IsU16, IsU64, IsData, class, class_code, from_nibble,
}
use slug_arch.Wire.Codec.{
  any_nonzero, WireError, unknown_class, fields, header_byte, encode, decode_class, decode,
}
use slug_arch.Wire.Reject.{IsByte-header, from_nibble-some}
use slug_arch.Wire.Layout.{IsFlit, header_byte-pack, class_code-lt, payload, layout, encode-layout}

-- The message classes that carry an address, and those that carry data.
unfoldable pub has_addr : MsgClass → Bool
has_addr MsgClass.m2s_req = true
has_addr MsgClass.m2s_rwd = true
has_addr MsgClass.d2h_req = true
has_addr MsgClass.h2d_req = true
has_addr _ = false

unfoldable pub has_data : MsgClass → Bool
has_data MsgClass.m2s_rwd = true
has_data MsgClass.s2m_drs = true
has_data MsgClass.d2h_resp = true
has_data _ = false

-- The flit with the bytes that its class does not use set to zero.
unfoldable pub used_bytes : MsgClass → List ℕ → List ℕ
unfolding has_addr has_data
used_bytes c f =
    take 3 f
    ++ ((if has_addr c then slice f 3 8 else replicate 8 0)
        ++ ((if has_data c then slice f 11 32 else replicate 32 0) ++ replicate 21 0))

any_nonzero-replicate : (bs : List ℕ) → any_nonzero bs ≡ false → bs ≡ replicate (length bs) 0
unfolding any_nonzero
any_nonzero-replicate [] h = refl
any_nonzero-replicate (b ∷ bs) h =
    let (hb, hs) : (b ≡ 0) × (any_nonzero bs ≡ false) = ground arith in
    ap₂ (λ x xs. x ∷ xs) hb (any_nonzero-replicate bs hs)

length-slice : (f : List ℕ) (n k : ℕ) → n + k ≤ length f → length (slice f n k) ≡ k
length-slice f n k h = omega (arith, length-take k (drop n f), length-drop n f)

-- A word read from `k` bytes and written again is those bytes.
to_le_bytes-slice :
    (f : List ℕ) (n k : ℕ)
    → All IsByte f
    → n + k ≤ length f
    → to_le_bytes k (from_le_bytes (slice f n k)) ≡ slice f n k
to_le_bytes-slice f n k v h =
    ap (λ j. to_le_bytes j (from_le_bytes (slice f n k))) (sym (length-slice f n k h))
    ∙ to-from_le_bytes (slice f n k) (All-take IsByte k (drop n f) (All-drop IsByte n f v))

slice_split : (f : List ℕ) (n k j : ℕ) → n + k ≡ j → drop n f ≡ slice f n k ++ drop j f
slice_split f n k j e =
    sym (take-append-drop k (drop n f)) ∙ ap (λ t. slice f n k ++ t) (drop-drop n k j f e)

head_split : (f : List ℕ) → 0 < length f → f ≡ get_or f 0 0 ∷ drop 1 f
head_split [] h = absurd (omega arith)
head_split (b ∷ bs) h = refl

-- A flit with zero reserved bytes has the documented layout of its parts.
flit-layout :
    (f : List ℕ)
    → IsFlit f
    → any_nonzero (drop 43 f) ≡ false
    → f
      ≡ layout
          (get_or f 0 0)
          (from_le_bytes (slice f 1 2))
          (from_le_bytes (slice f 3 8))
          (slice f 11 32)
flit-layout f v z =
    let n = v.0 in
    let b = v.1 in
    let reserved : length (drop 43 f) ≡ 21 = omega (arith, length-drop 43 f) in
    let tail : drop 43 f ≡ replicate 21 0 =
      any_nonzero-replicate (drop 43 f) z ∙ ap (λ k. replicate k 0) reserved in
    head_split f (omega arith)
    ∙ ap (λ t. get_or f 0 0 ∷ t)
        (slice_split f 1 2 3 refl
          ∙ ap₂ ◌++◌ (sym (to_le_bytes-slice f 1 2 b (omega arith))) (
              slice_split f 3 8 11 refl
              ∙ ap₂ ◌++◌ (sym (to_le_bytes-slice f 3 8 b (omega arith)))
                  (slice_split f 11 32 43 refl ∙ ap (λ t. slice f 11 32 ++ t) tail)))

-- What a class's decoder returns, part by part.
record Parts (c : MsgClass) (op tag addr : ℕ) (d : List ℕ) (m : CxlMsg) : Type 0 where
  valid : IsMsg m
  same_class : class m ≡ c
  same_opcode : (fields m).0 ≡ op
  same_tag : (fields m).1 ≡ tag
  same_addr : (fields m).2 ≡ (if has_addr c then addr else 0)
  same_data : payload ((fields m).3) ≡ (if has_data c then d else replicate 32 0)

decode_class-Parts :
    (c : MsgClass) (op tag addr : ℕ) (d : List ℕ) (m : CxlMsg)
    → IsU16 tag
    → IsU64 addr
    → IsData d
    → decode_class c op tag addr d ≡ ok m
    → Parts c op tag addr d m
unfolding decode_class class fields payload has_addr has_data
decode_class-Parts MsgClass.m2s_req op tag addr d m ht ha hd e = ground arith
decode_class-Parts c op tag addr d m ht ha hd e = ground arith

ok_or-eq-ok : (o : Option MsgClass) (w : WireError) (c : MsgClass) → ok_or o w ≡ ok c → o ≡ some c
ok_or-eq-ok none w c e = cc
ok_or-eq-ok (some k) w c e = cc

-- The steps of a successful `decode`.
decode_steps :
    (f : List ℕ) (m : CxlMsg)
    → decode f ≡ ok m
    → (c : MsgClass) × (any_nonzero (drop 43 f) ≡ false)
      × (from_nibble (get_or f 0 0 / 16) ≡ some c)
      × (decode_class c
            (bit_and (get_or f 0 0) 0x0f)
            (from_le_bytes (slice f 1 2))
            (from_le_bytes (slice f 3 8))
            (slice f 11 32)
          ≡ ok m)
unfolding decode
decode_steps f m e = elim (Bool-cases (any_nonzero (drop 43 f))) [
  | inl b ↦ cc (rw b at e)
  | inr b ↦
      let n : ℕ = get_or f 0 0 / 16 in
      let (c, k, r) = >>=-eq-ok (ok_or (from_nibble n) (unknown_class n)) _ (rw b at e) in
      (c, b, ok_or-eq-ok _ _ c k, r)
]

word_fits :
    (f : List ℕ) (n k : ℕ) → All IsByte f → n + k ≤ length f → from_le_bytes (slice f n k) < 256 ^ k
word_fits f n k v h =
    let s : List ℕ = slice f n k in
    subst (λ i. from_le_bytes s < 256 ^ i) (length-slice f n k h)
      (from_le_bytes-lt s (All-take IsByte k (drop n f) (All-drop IsByte n f v)))

-- The header byte of an accepted flit packs the class and the opcode nibble.
header_of :
    (f : List ℕ) (c : MsgClass)
    → IsFlit f
    → from_nibble (get_or f 0 0 / 16) ≡ some c
    → header_byte (class_code c) (bit_and (get_or f 0 0) 0x0f) ≡ get_or f 0 0
header_of f c v k =
    let h : ℕ = get_or f 0 0 in
    let b : IsByte h = IsByte-header f v.1 in
    rw (low_nibble h b) (
      header_byte-pack (class_code c) (h % 16) (class_code-lt c) (omega arith)
      ∙ omega (arith, from_nibble-some (h / 16) c k))

used_parts :
    (x y : Bool) (h t a : ℕ) (d : List ℕ)
    → length d ≡ 32
    → let f : List ℕ = layout h t a d in
      take 3 f
        ++ ((if x then slice f 3 8 else replicate 8 0)
            ++ ((if y then slice f 11 32 else replicate 32 0) ++ replicate 21 0))
      ≡ layout h t (if x then a else 0) (if y then d else replicate 32 0)
used_parts true true h t a d n =
    ap
      (λ s.
        h
        ∷ (to_le_bytes 2 t
            ++ (to_le_bytes 8 (if true then a else 0)
                ++ ((if true then s else replicate 32 0) ++ replicate 21 0))))
      (take-append 32 d (replicate 21 0) n)
used_parts true false h t a d n =
    ap
      (λ s.
        h
        ∷ (to_le_bytes 2 t
            ++ (to_le_bytes 8 (if true then a else 0)
                ++ ((if false then s else replicate 32 0) ++ replicate 21 0))))
      (take-append 32 d (replicate 21 0) n)
used_parts false true h t a d n =
    ap
      (λ s.
        h
        ∷ (to_le_bytes 2 t
            ++ (to_le_bytes 8 (if false then a else 0)
                ++ ((if true then s else replicate 32 0) ++ replicate 21 0))))
      (take-append 32 d (replicate 21 0) n)
used_parts false false h t a d n =
    ap
      (λ s.
        h
        ∷ (to_le_bytes 2 t
            ++ (to_le_bytes 8 (if false then a else 0)
                ++ ((if false then s else replicate 32 0) ++ replicate 21 0))))
      (take-append 32 d (replicate 21 0) n)

-- When `decode` accepts a flit, the message has all fields in the range of their types, and
-- encoding it gives the flit back with the bytes that its class does not use set to zero.
pub encode-decode :
    (f : List ℕ) (m : CxlMsg)
    → IsFlit f
    → decode f ≡ ok m
    → IsMsg m × (encode m ≡ used_bytes (class m) f)
unfolding used_bytes
encode-decode f m v e =
    let (c, z, k, r) = decode_steps f m e in
    let h : ℕ = get_or f 0 0 in
    let n = v.0 in
    let d : List ℕ = slice f 11 32 in
    let data_ok : IsData d = (
      length-slice f 11 32 (omega arith),
      All-take IsByte 32 (drop 11 f) (All-drop IsByte 11 f v.1),
    ) in
    let p =
      decode_class-Parts c (bit_and h 0x0f) (from_le_bytes (slice f 1 2))
        (from_le_bytes (slice f 3 8)) d m (word_fits f 1 2 v.1 (omega arith))
        (word_fits f 3 8 v.1 (omega arith)) data_ok r in
    (
      p.valid,
      encode-layout m p.valid
          ∙ cc
              (p.same_class, p.same_opcode, p.same_tag, p.same_addr, p.same_data, header_of f c v k)
          ∙ sym (used_parts (has_addr c) (has_data c) h _ _ d data_ok.0)
          ∙ ap (used_bytes c) (sym (flit-layout f v z))
          ∙ ap (λ i. used_bytes i f) (sym p.same_class),
    )
