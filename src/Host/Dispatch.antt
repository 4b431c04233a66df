-- ===== src/Host/Dispatch.antt =====
-- crates/slugarch-host/src/dispatch.rs: the 49 messages of a 4 by 4 GEMM. The loops over `row` and
-- `col` go through `grid`, and each round pushes one message and adds one to the tag.
use slug_arch.Base.{ℕ, ◌+◌, ◌*◌, ◌%◌, ◌^◌, bit_or, bit_and, List, [], ◌∷◌, ◌++◌}
use slug_arch.Base.{replicate, copy_at, to_le_bytes}
use slug_arch.Wire.Msg.{CxlMsg, M2sReqOp, M2sRwdOp}
use slug_arch.Host.Types.{GemmJob, cell}

abbrev pub dispatch_addr : ℕ
dispatch_addr = 0x2000

-- `x << k` on a `u32`
abbrev pub shl32 : ℕ → ℕ → ℕ
shl32 x k = x * 2 ^ k % 2 ^ 32

unfoldable pub make_load_token : ℕ → ℕ → ℕ → ℕ
make_load_token sel addr byte =
    bit_or
      (bit_or (bit_or (bit_or 0 (shl32 1 2)) (shl32 (bit_and sel 1) 3))
        (shl32 (bit_and addr 0xff) 4))
      (shl32 (bit_and byte 0xff) 12)

unfoldable pub make_compute_token : ℕ
make_compute_token = shl32 1 20

unfoldable pub make_read_token : ℕ → ℕ
make_read_token addr = bit_or (bit_or 0 (shl32 1 21)) (shl32 (bit_and addr 0xff) 22)

unfoldable pub pack_token_into_data : ℕ → List ℕ
pack_token_into_data token = copy_at (replicate 32 0) 0 (to_le_bytes 4 token)

-- `tag.wrapping_add(1)`
abbrev pub next_tag : ℕ → ℕ
next_tag tag = (tag + 1) % 2 ^ 16

abbrev pub grid : List (ℕ × ℕ)
grid =
    (0, 0)
    ∷ (0, 1)
    ∷ (0, 2)
    ∷ (0, 3)
    ∷ (1, 0)
    ∷ (1, 1)
    ∷ (1, 2)
    ∷ (1, 3)
    ∷ (2, 0)
    ∷ (2, 1)
    ∷ (2, 2)
    ∷ (2, 3)
    ∷ (3, 0)
    ∷ (3, 1)
    ∷ (3, 2)
    ∷ (3, 3)
    ∷ []

-- One message for each position, and the tag after the last.
abbrev pub emit_each : (ℕ → ℕ → ℕ → CxlMsg) → List (ℕ × ℕ) → ℕ → List CxlMsg × ℕ
emit_each make [] tag = ([], tag)
emit_each make ((row, col) ∷ ps) tag =
    let (rest, last) = emit_each make ps (next_tag tag) in (make tag row col ∷ rest, last)

unfoldable pub load_msg : ℕ → List (List ℕ) → ℕ → ℕ → ℕ → CxlMsg
load_msg sel m tag row col =
    let addr = (row * 16 + col) % 2 ^ 8 in
    CxlMsg.m2s_rwd tag M2sRwdOp.mem_wr dispatch_addr
      (pack_token_into_data (make_load_token sel addr (cell m row col)))

unfoldable pub compute_msg : ℕ → CxlMsg
compute_msg tag =
    CxlMsg.m2s_rwd tag M2sRwdOp.mem_wr dispatch_addr (pack_token_into_data make_compute_token)

unfoldable pub read_msg : ℕ → ℕ → ℕ → CxlMsg
read_msg tag row col =
    let token = make_read_token (row * 16 + col) in
    CxlMsg.m2s_req tag M2sReqOp.mem_rd (bit_or dispatch_addr (token * 2 ^ 32 % 2 ^ 64))

unfoldable pub build_gemm_dispatch_stream : GemmJob → ℕ → List CxlMsg
build_gemm_dispatch_stream job first_tag =
    let (load_a, tag_b) = emit_each (load_msg 0 job.a) grid first_tag in
    let (load_b, tag_c) = emit_each (load_msg 1 job.b) grid tag_b in
    let (reads, _) = emit_each read_msg grid (next_tag tag_c) in
    load_a ++ (load_b ++ (compute_msg tag_c ∷ reads))
