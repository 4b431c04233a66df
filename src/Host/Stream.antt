-- ===== src/Host/Stream.antt =====
-- The messages of dispatch.rs one by one: each is claimed by the endpoint, and does to the array
-- what its token says.
use slug_arch.Base.{ℕ, zero, suc, ◌+◌, ◌*◌, ◌/◌, ◌%◌, ◌^◌, ◌<◌, ◌≡◌, refl, ap, ◌∙◌, arith}
use slug_arch.Base.{List, [], ◌∷◌, ◌++◌, ◌==◌, if◌then◌else◌, get_or, length, All}
use slug_arch.Base.{replicate, to_le_bytes, from-to_le_bytes, IsByte}
use slug_arch.Base.Bits.{bit_or_field}
use slug_arch.Wire.Msg.{CxlMsg, M2sReqOp, M2sRwdOp, S2mDrsOp, IsMsg, IsU16}
use slug_arch.Host.Types.{IsMatrix, cell}
use slug_arch.Host.Dispatch.{
  make_load_token, make_compute_token, pack_token_into_data, load_msg, compute_msg, read_msg,
  dispatch_addr,
}
use slug_arch.Host.Tokens.{make_load_token-sum, make_read_token-sum}
use slug_arch.Host.Endpoint.{
  Array, update, multiply, token_of, claims, apply_token, next, answer_claimed, result_data,
}
use slug_arch.Host.Exchange.{IsClaimed, reads_of}

get_or-IsByte : (r : List ℕ) (i : ℕ) → All IsByte r → get_or r i 0 < 256
get_or-IsByte [] i v = omega arith
get_or-IsByte (x ∷ r) zero v = v.0
get_or-IsByte (x ∷ r) (suc i) v = get_or-IsByte r i v.1

row-IsByte :
    (m : List (List ℕ)) (i : ℕ)
    → All (λ r. (length r ≡ 4) × All IsByte r) m
    → All IsByte (get_or m i [])
row-IsByte [] i v = tt
row-IsByte (r ∷ m) zero v = v.0.1
row-IsByte (r ∷ m) (suc i) v = row-IsByte m i v.1

pub cell-lt : (m : List (List ℕ)) (row col : ℕ) → IsMatrix m → cell m row col < 256
cell-lt m row col v = get_or-IsByte (get_or m row []) col (row-IsByte m row v.1)

pack_token : (t : ℕ) → pack_token_into_data t ≡ to_le_bytes 4 t ++ replicate 28 0
unfolding pack_token_into_data
pack_token t = refl

-- The data of a dispatch write is 32 bytes, and the endpoint reads the token back from them.
pub pack_token-IsMsg :
    (tag t : ℕ)
    → IsU16 tag
    → IsMsg (CxlMsg.m2s_rwd tag M2sRwdOp.mem_wr dispatch_addr (pack_token_into_data t))
pack_token-IsMsg tag t h = rw pack_token (h, omega arith, (refl, omega arith))

token_of-pack :
    (tag t : ℕ)
    → t < 2 ^ 32
    → token_of (CxlMsg.m2s_rwd tag M2sRwdOp.mem_wr dispatch_addr (pack_token_into_data t)) ≡ t
unfolding token_of
token_of-pack tag t h = rw pack_token (from-to_le_bytes 4 t h)

-- A value written to matrix A (0) or B (1).
abbrev pub store : ℕ → Array → ℕ → ℕ → Array
store sel arr k v =
    if sel == 0 then record arr { a = update arr.a k v } else record arr { b = update arr.b k v }

-- The token of a load, as a sum of its fields.
abbrev load_sum : ℕ → ℕ → ℕ → ℕ
load_sum sel addr byte = 4 + sel * 8 + addr * 16 + byte * 4096

apply_token-load :
    (arr : Array) (sel addr byte : ℕ)
    → sel < 2
    → addr < 256
    → byte < 256
    → apply_token arr (load_sum sel addr byte) ≡ store sel arr addr byte
unfolding apply_token
apply_token-load arr sel addr byte hs ha hb =
    let t : ℕ = load_sum sel addr byte in
    let valid : t / 2 ^ 2 % 2 ≡ 1 = omega arith in
    let which : t / 2 ^ 3 % 2 ≡ sel = omega arith in
    let where_ : t / 2 ^ 4 % 2 ^ 8 ≡ addr = omega arith in
    let what : t / 2 ^ 12 % 2 ^ 8 ≡ byte = omega arith in rw (valid, which, where_, what)

module _ (sel : ℕ) (m : List (List ℕ)) (tag row col : ℕ) (hs : sel < 2) (hr : row < 4)
    (hc : col < 4) (v : IsMatrix m) where
  pub load_msg-IsClaimed : IsU16 tag → IsClaimed (load_msg sel m tag row col)
  unfolding load_msg claims
  load_msg-IsClaimed h = (pack_token-IsMsg tag _ h, refl)

  pub next-load_msg :
      (arr : Array)
      → next arr (load_msg sel m tag row col) ≡ store sel arr (row * 16 + col) (cell m row col)
  unfolding load_msg claims next
  next-load_msg arr =
      let addr : ℕ = (row * 16 + col) % 2 ^ 8 in
      let small : addr ≡ row * 16 + col = omega arith in
      let byte : ℕ = cell m row col in
      let hb = cell-lt m row col v in
      let sum = make_load_token-sum sel addr byte hs (omega arith) hb in
      let fits : make_load_token sel addr byte < 2 ^ 32 = omega (arith, sum) in
      ap (apply_token arr) (token_of-pack tag (make_load_token sel addr byte) fits ∙ sum)
      ∙ apply_token-load arr sel addr byte hs (omega arith) hb
      ∙ ap (λ i. store sel arr i byte) small

pub next-compute_msg :
    (arr : Array) (tag : ℕ) → next arr (compute_msg tag) ≡ record arr { c = multiply arr.a arr.b }
unfolding compute_msg claims next apply_token make_compute_token
next-compute_msg arr tag = rw (token_of-pack tag 1048576 (omega arith))

read_msg-addr :
    (tag row col : ℕ)
    → row < 4
    → col < 4
    → read_msg tag row col
      ≡ CxlMsg.m2s_req tag M2sReqOp.mem_rd
          (0x2000 + (2097152 + (row * 16 + col) * 4194304) * 2 ^ 32)
unfolding read_msg
read_msg-addr tag row col hr hc =
    let token : ℕ = 2097152 + (row * 16 + col) * 4194304 in
    rw (make_read_token-sum (row * 16 + col) (omega arith)) (
      ap (CxlMsg.m2s_req tag M2sReqOp.mem_rd)
        (bit_or_field 64 32 0x2000 token (omega arith) (omega arith)))

pub read_msg-IsClaimed :
    (tag row col : ℕ) → IsU16 tag → row < 4 → col < 4 → IsClaimed (read_msg tag row col)
read_msg-IsClaimed tag row col h hr hc =
    rw (read_msg-addr tag row col hr hc) ((h, omega arith), unfold claims in ground arith)

pub next-read_msg :
    (arr : Array) (tag row col : ℕ) → row < 4 → col < 4 → next arr (read_msg tag row col) ≡ arr
unfolding next claims token_of apply_token
next-read_msg arr tag row col hr hc =
    let word : ℕ = 0x2000 + (2097152 + (row * 16 + col) * 4194304) * 2 ^ 32 in
    let port : word % 2 ^ 16 ≡ 0x2000 = omega arith in
    let no_load : word / 2 ^ 32 / 2 ^ 2 % 2 ≡ 0 = omega arith in
    let no_compute : word / 2 ^ 32 / 2 ^ 20 % 2 ≡ 0 = omega arith in
    rw (read_msg-addr tag row col hr hc) (rw (port, no_load, no_compute))

-- The answer to a read carries the accumulator at its address.
pub answer-read_msg :
    (arr : Array) (tag row col : ℕ)
    → row < 4
    → col < 4
    → answer_claimed arr (read_msg tag row col)
      ≡ CxlMsg.s2m_drs tag S2mDrsOp.mem_data (result_data (arr.c (row * 16 + col)))
unfolding answer_claimed
answer-read_msg arr tag row col hr hc =
    let addr : ℕ = row * 16 + col in
    let field : (0x2000 + (2097152 + addr * 4194304) * 2 ^ 32) / 2 ^ 32 / 2 ^ 22 % 2 ^ 8 ≡ addr =
      omega arith in
    rw (read_msg-addr tag row col hr hc) (rw field)

-- Writes are answered by a completion, which is no read response.
pub load_msg-no_read :
    (arr : Array) (sel : ℕ) (m : List (List ℕ)) (tag row col : ℕ)
    → reads_of (answer_claimed arr (load_msg sel m tag row col)) ≡ []
unfolding answer_claimed load_msg
load_msg-no_read arr sel m tag row col = refl

pub compute_msg-no_read :
    (arr : Array) (tag : ℕ) → reads_of (answer_claimed arr (compute_msg tag)) ≡ []
unfolding answer_claimed compute_msg
compute_msg-no_read arr tag = refl

pub compute_msg-IsClaimed : (tag : ℕ) → IsU16 tag → IsClaimed (compute_msg tag)
unfolding compute_msg claims
compute_msg-IsClaimed tag h = (pack_token-IsMsg tag _ h, refl)
