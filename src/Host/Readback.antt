-- ===== src/Host/Readback.antt =====
-- crates/slugarch-host/src/result.rs: sixteen read responses to the 4 by 4 result matrix.
use slug_arch.Base.{ℕ, ◌+◌, ◌*◌, ◌/◌, ◌%◌, ◌^◌, bit_or, Result, ok, err, ◌>>=◌}
use slug_arch.Base.{List, [], ◌∷◌, ◌==◌, if◌then◌else◌, length, get_or, set, replicate}
use slug_arch.Wire.Msg.{CxlMsg, S2mDrsOp, tag, class}
use slug_arch.Host.Types.{
  HostError, dispatch_failed, unexpected_class, expected_reads, expected_drs,
}

-- `b0 | (b1 << 8) | (b2 << 16)` on a `u32`
unfoldable pub accumulator : List ℕ → ℕ
accumulator d =
    bit_or (bit_or (get_or d 0 0) (get_or d 1 0 * 2 ^ 8 % 2 ^ 32)) (get_or d 2 0 * 2 ^ 16 % 2 ^ 32)

-- The accumulator of one response, or the error of its arm.
unfoldable pub read_value : CxlMsg → Result HostError ℕ
read_value (CxlMsg.s2m_drs t S2mDrsOp.mem_data d) = ok (accumulator d)
read_value (CxlMsg.s2m_ndr t opcode) = err (dispatch_failed t (expected_drs opcode))
read_value other = err (dispatch_failed (tag other) (unexpected_class (class other)))

-- `c[i / 4][i % 4] = v`
abbrev pub set_cell : List (List ℕ) → ℕ → ℕ → List (List ℕ)
set_cell c i v = set c (i / 4) (set (get_or c (i / 4) []) (i % 4) v)

-- The loop over the responses, from index `i` on.
unfoldable pub fill : List CxlMsg → ℕ → List (List ℕ) → Result HostError (List (List ℕ))
fill [] i c = ok c
fill (r ∷ rs) i c = read_value r >>= λ v. fill rs (i + 1) (set_cell c i v)

unfoldable pub decode_results : List CxlMsg → Result HostError (List (List ℕ))
unfolding fill
decode_results responses =
    if length responses == 16
    then fill responses 0 (replicate 4 (replicate 4 0))
    else err (dispatch_failed 0 (expected_reads (length responses)))
