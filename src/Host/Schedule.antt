-- ===== src/Host/Schedule.antt =====
-- The whole stream of dispatch.rs: every message is claimed, and the array's accumulators at the end
-- are the products of the matrices that the stream loaded.
use slug_arch.Base.{ℕ, zero, suc, ◌+◌, ◌*◌, ◌<◌, ◌≡◌, refl, ap, ap₂, ◌∙◌, arith}
use slug_arch.Base.{List, [], ◌∷◌, ◌++◌, length, All}
use slug_arch.Wire.Msg.{CxlMsg, S2mDrsOp, IsU16}
use slug_arch.Host.Types.{GemmJob, IsMatrix, cell}
use slug_arch.Host.Dispatch.{
  next_tag, grid, emit_each, load_msg, compute_msg, read_msg, build_gemm_dispatch_stream,
}
use slug_arch.Host.Endpoint.{Array, result_data}
use slug_arch.Host.Exchange.{IsClaimed, reads_of, serve, serve_reads}
use slug_arch.Host.Stream.{
  store, load_msg-IsClaimed, next-load_msg, read_msg-IsClaimed, next-read_msg, answer-read_msg,
  load_msg-no_read,
}

-- The positions of the loops lie in the 4 by 4 corner.
abbrev pub InCorner : ℕ × ℕ → Type 0
InCorner (row, col) = (row < 4) × (col < 4)

-- The array after the loads of a matrix at some positions.
unfoldable pub load_all : ℕ → Array → List (List ℕ) → List (ℕ × ℕ) → Array
load_all sel arr m [] = arr
load_all sel arr m ((row, col) ∷ ps) =
    load_all sel (store sel arr (row * 16 + col) (cell m row col)) m ps

-- The accumulators at some positions.
unfoldable pub values_at : (ℕ → ℕ) → List (ℕ × ℕ) → List ℕ
values_at c [] = []
values_at c ((row, col) ∷ ps) = c (row * 16 + col) ∷ values_at c ps

-- Read responses with given values, on consecutive tags.
unfoldable pub drs_list : List ℕ → ℕ → List CxlMsg
drs_list [] tag = []
drs_list (v ∷ vs) tag =
    CxlMsg.s2m_drs tag S2mDrsOp.mem_data (result_data v) ∷ drs_list vs (next_tag tag)

next_tag-IsU16 : (tag : ℕ) → IsU16 (next_tag tag)
next_tag-IsU16 tag = omega arith

-- The messages that load a matrix.
pub loads : ℕ → List (List ℕ) → List (ℕ × ℕ) → ℕ → List CxlMsg
loads sel m ps tag = (emit_each (load_msg sel m) ps tag).0

module _ (sel : ℕ) (m : List (List ℕ)) (hs : sel < 2) (v : IsMatrix m) where
  pub loads-IsClaimed :
      (ps : List (ℕ × ℕ)) (tag : ℕ)
      → All InCorner ps
      → IsU16 tag
      → All IsClaimed (loads sel m ps tag)
  unfolding loads
  loads-IsClaimed [] tag c h = tt
  loads-IsClaimed ((row, col) ∷ ps) tag (p, c) h = (
    load_msg-IsClaimed sel m tag row col hs p.0 p.1 v h,
    loads-IsClaimed ps (next_tag tag) c (omega arith),
  )

  pub serve-loads :
      (arr : Array) (ps : List (ℕ × ℕ)) (tag : ℕ) (rest : List CxlMsg)
      → All InCorner ps
      → (serve arr (loads sel m ps tag ++ rest) ≡ serve (load_all sel arr m ps) rest)
        × (serve_reads arr (loads sel m ps tag ++ rest) ≡ serve_reads (load_all sel arr m ps) rest)
  unfolding loads serve serve_reads load_all
  serve-loads arr [] tag rest c = (refl, refl)
  serve-loads arr ((row, col) ∷ ps) tag rest (p, c) =
      let arr' : Array = store sel arr (row * 16 + col) (cell m row col) in
      let step = next-load_msg sel m tag row col hs p.0 p.1 v arr in
      let (same, reads) = serve-loads arr' ps (next_tag tag) rest c in
      let later : List CxlMsg = loads sel m ps (next_tag tag) ++ rest in
      (
        ap (λ z. serve z later) step ∙ same,
        ap₂ ◌++◌ (load_msg-no_read arr sel m tag row col)
            (ap (λ z. serve_reads z later) step ∙ reads),
      )

pub reads : List (ℕ × ℕ) → ℕ → List CxlMsg
reads ps tag = (emit_each read_msg ps tag).0

pub reads-IsClaimed :
    (ps : List (ℕ × ℕ)) (tag : ℕ) → All InCorner ps → IsU16 tag → All IsClaimed (reads ps tag)
unfolding reads
reads-IsClaimed [] tag c h = tt
reads-IsClaimed ((row, col) ∷ ps) tag (p, c) h =
    (read_msg-IsClaimed tag row col h p.0 p.1, reads-IsClaimed ps (next_tag tag) c (omega arith))

pub serve-reads :
    (arr : Array) (ps : List (ℕ × ℕ)) (tag : ℕ)
    → All InCorner ps
    → (serve arr (reads ps tag) ≡ arr)
      × (serve_reads arr (reads ps tag) ≡ drs_list (values_at arr.c ps) tag)
unfolding reads serve serve_reads values_at drs_list
serve-reads arr [] tag c = (refl, refl)
serve-reads arr ((row, col) ∷ ps) tag (p, c) =
    let step = next-read_msg arr tag row col p.0 p.1 in
    let (same, rest) = serve-reads arr ps (next_tag tag) c in
    let later : List CxlMsg = reads ps (next_tag tag) in
    (
      ap (λ z. serve z later) step ∙ same,
      ap₂ ◌++◌ (ap reads_of (answer-read_msg arr tag row col p.0 p.1))
          (ap (λ z. serve_reads z later) step ∙ rest),
    )

-- The tag after a run of messages.
unfoldable pub tag_after : ℕ → ℕ → ℕ
tag_after zero tag = tag
tag_after (suc n) tag = tag_after n (next_tag tag)

emit_each-tag :
    (make : ℕ → ℕ → ℕ → CxlMsg) (ps : List (ℕ × ℕ)) (tag : ℕ)
    → (emit_each make ps tag).1 ≡ tag_after (length ps) tag
unfolding tag_after
emit_each-tag make [] tag = refl
emit_each-tag make ((row, col) ∷ ps) tag = emit_each-tag make ps (next_tag tag)

pub tag_after-IsU16 : (n tag : ℕ) → IsU16 tag → IsU16 (tag_after n tag)
unfolding tag_after
tag_after-IsU16 zero tag h = h
tag_after-IsU16 (suc n) tag h = tag_after-IsU16 n (next_tag tag) (omega arith)

-- The stream in its four phases.
pub build_phases :
    (job : GemmJob) (tag : ℕ)
    → build_gemm_dispatch_stream job tag
      ≡ loads 0 job.a grid tag
        ++ (loads 1 job.b grid (tag_after 16 tag)
            ++ (compute_msg (tag_after 32 tag) ∷ reads grid (tag_after 33 tag)))
unfolding build_gemm_dispatch_stream loads reads tag_after
build_phases job tag = refl
