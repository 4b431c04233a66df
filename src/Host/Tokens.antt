-- ===== src/Host/Tokens.antt =====
-- The bit fields of the tokens, as the endpoint slices them.
use slug_arch.Base.{ℕ, ◌+◌, ◌*◌, ◌/◌, ◌%◌, ◌^◌, ◌<◌, ◌≡◌, ap, ◌∙◌, arith, bit_or}
use slug_arch.Base.Bits.{bit_or_field, low_byte, low_bit}
use slug_arch.Host.Dispatch.{make_load_token, make_read_token, shl32}

-- The fields that the header of dispatch.rs lists for a token.
abbrev pub load_valid : ℕ → ℕ
load_valid t = t / 2 ^ 2 % 2

abbrev pub load_matrix_sel : ℕ → ℕ
load_matrix_sel t = t / 2 ^ 3 % 2

abbrev pub load_addr : ℕ → ℕ
load_addr t = t / 2 ^ 4 % 2 ^ 8

abbrev pub load_data : ℕ → ℕ
load_data t = t / 2 ^ 12 % 2 ^ 8

abbrev pub compute_valid : ℕ → ℕ
compute_valid t = t / 2 ^ 20 % 2

abbrev pub read_valid : ℕ → ℕ
read_valid t = t / 2 ^ 21 % 2

abbrev pub read_addr : ℕ → ℕ
read_addr t = t / 2 ^ 22 % 2 ^ 8

pub make_load_token-sum :
    (sel addr byte : ℕ)
    → sel < 2
    → addr < 256
    → byte < 256
    → make_load_token sel addr byte ≡ 4 + sel * 8 + addr * 16 + byte * 4096
unfolding make_load_token
make_load_token-sum sel addr byte hs ha hb =
    rw (low_bit sel hs, low_byte addr ha, low_byte byte hb)
      (ap (λ t. bit_or (bit_or t (shl32 addr 4)) (shl32 byte 12))
          (bit_or_field 32 3 4 sel (omega arith) (omega arith))
        ∙ ap (λ t. bit_or t (shl32 byte 12))
            (bit_or_field 32 4 (4 + sel * 8) addr (omega arith) (omega arith))
        ∙ bit_or_field 32 12 (4 + sel * 8 + addr * 16) byte (omega arith) (omega arith))

pub make_read_token-sum : (addr : ℕ) → addr < 256 → make_read_token addr ≡ 2097152 + addr * 4194304
unfolding make_read_token
make_read_token-sum addr h =
    rw (low_byte addr h) (bit_or_field 32 22 2097152 addr (omega arith) (omega arith))
