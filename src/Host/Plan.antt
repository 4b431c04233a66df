-- ===== src/Host/Plan.antt =====
-- The stream of a job against the array: every message is claimed, and the read responses decode to
-- the matrix product.
use slug_arch.Base.{ℕ, ◌+◌, ◌*◌, ◌/◌, ◌%◌, ◌^◌, ◌<◌, ◌≡◌, refl, ap, ap₂, ◌∙◌, arith}
use slug_arch.Base.{bit_or, List, [], ◌∷◌, ◌++◌, All, All-append, length, replicate}
use slug_arch.Base.{ok}
use slug_arch.Base.Bits.{bit_or_field}
use slug_arch.Wire.Msg.{CxlMsg, IsU16}
use slug_arch.Host.Types.{GemmJob, IsJob, IsMatrix}
use slug_arch.Host.Dispatch.{grid, next_tag, build_gemm_dispatch_stream, compute_msg}
use slug_arch.Host.Readback.{accumulator, read_value, set_cell, fill, decode_results}
use slug_arch.Host.Endpoint.{Array, result_data, multiply}
use slug_arch.Host.Exchange.{IsClaimed, serve, serve_reads}
use slug_arch.Host.Stream.{next-compute_msg, compute_msg-no_read, compute_msg-IsClaimed}
use slug_arch.Host.Schedule.{
  InCorner, load_all, values_at, drs_list, tag_after, loads, reads, loads-IsClaimed,
  reads-IsClaimed, serve-loads, serve-reads, build_phases, tag_after-IsU16,
}
use slug_arch.Host.Product.{
  product, product_row, entry, entry-lt, IsClean, load_all-IsClean, loaded_a, loaded_b, a-load_all,
  multiply-entry,
}

accumulator-result_data : (v : ℕ) → v < 2 ^ 24 → accumulator (result_data v) ≡ v
unfolding accumulator
accumulator-result_data v h =
    ap (λ t. bit_or t (v / 65536 % 256 * 2 ^ 16 % 2 ^ 32))
      (bit_or_field 32 8 (v % 256) (v / 256 % 256) (omega arith) (omega arith))
    ∙ bit_or_field 32 16 (v % 256 + v / 256 % 256 * 256) (v / 65536 % 256) (omega arith)
        (omega arith)
    ∙ omega arith

-- The matrix with the values written from index `i` on.
set_all : List ℕ → ℕ → List (List ℕ) → List (List ℕ)
set_all [] i c = c
set_all (v ∷ vs) i c = set_all vs (i + 1) (set_cell c i v)

fill-drs_list :
    (vs : List ℕ) (tag i : ℕ) (c : List (List ℕ))
    → All (λ v. v < 2 ^ 24) vs
    → fill (drs_list vs tag) i c ≡ ok (set_all vs i c)
unfolding fill drs_list read_value set_all
fill-drs_list [] tag i c h = refl
fill-drs_list (v ∷ vs) tag i c (hv, hs) =
    rw (accumulator-result_data v hv) (fill-drs_list vs (next_tag tag) (i + 1) (set_cell c i v) hs)

-- The entries of a 4 by 4 matrix in reading order.
abbrev pub product_list : List (List ℕ) → List (List ℕ) → List ℕ
product_list a b =
    product_row a b 0 ++ (product_row a b 1 ++ (product_row a b 2 ++ product_row a b 3))

product_row-lt :
    (a b : List (List ℕ)) (row : ℕ)
    → IsMatrix a
    → IsMatrix b
    → All (λ v. v < 2 ^ 24) (product_row a b row)
product_row-lt a b row va vb =
    let e = λ (col : ℕ). entry-lt a b row col va vb in (e 0, (e 1, (e 2, (e 3, tt))))

product_list-lt :
    (a b : List (List ℕ)) → IsMatrix a → IsMatrix b → All (λ v. v < 2 ^ 24) (product_list a b)
product_list-lt a b va vb =
    let small : ℕ → Type 0 = λ v. v < 2 ^ 24 in
    let row = λ (r : ℕ). product_row-lt a b r va vb in
    let last_two : List ℕ = product_row a b 2 ++ product_row a b 3 in
    All-append small (product_row a b 0) (product_row a b 1 ++ last_two) (row 0) (
      All-append small (product_row a b 1) last_two (row 1)
        (All-append small (product_row a b 2) (product_row a b 3) (row 2) (row 3)))

pub decode_results-product :
    (a b : List (List ℕ)) (tag : ℕ)
    → IsMatrix a
    → IsMatrix b
    → decode_results (drs_list (product_list a b) tag) ≡ ok (product a b)
unfolding decode_results drs_list
decode_results-product a b tag va vb =
    fill-drs_list (product_list a b) tag 0 (replicate 4 (replicate 4 0)) (product_list-lt a b va vb)
    ∙ (unfold set_all in refl)

entries : (ℕ → ℕ → ℕ) → List (ℕ × ℕ) → List ℕ
entries e [] = []
entries e ((row, col) ∷ ps) = e row col ∷ entries e ps

values_at-entries :
    (c : ℕ → ℕ) (e : ℕ → ℕ → ℕ) (ps : List (ℕ × ℕ))
    → ((row col : ℕ) → row < 4 → col < 4 → c (row * 16 + col) ≡ e row col)
    → All InCorner ps
    → values_at c ps ≡ entries e ps
unfolding values_at entries
values_at-entries c e [] h v = refl
values_at-entries c e ((row, col) ∷ ps) h (p, v) =
    ap₂ (λ x xs. x ∷ xs) (h row col p.0 p.1) (values_at-entries c e ps h v)

-- What the stream of a job asks of the endpoint, and what it reads back.
pub record Planned (arr : Array) (job : GemmJob) (tag : ℕ) : Type 0 where
  pub claimed : All IsClaimed (build_gemm_dispatch_stream job tag)
  pub count : length (build_gemm_dispatch_stream job tag) ≡ 49
  pub reads_back :
      serve_reads arr (build_gemm_dispatch_stream job tag)
      ≡ drs_list (product_list job.a job.b) (tag_after 33 tag)
  pub clean : IsClean (serve arr (build_gemm_dispatch_stream job tag))

module _ (arr : Array) (job : GemmJob) (tag : ℕ) (clean : IsClean arr) (v : IsJob job)
    (h : IsU16 tag) where
  with_a : Array
  with_a = load_all 0 arr job.a grid

  with_b : Array
  with_b = load_all 1 with_a job.b grid

  with_c : Array
  with_c = record with_b { c = multiply with_b.a with_b.b }

  with_c-entry :
      (row col : ℕ) → row < 4 → col < 4 → with_c.c (row * 16 + col) ≡ entry job.a job.b row col
  unfolding with_a with_b with_c
  with_c-entry row col hr hc =
      let same = λ (i : ℕ). ap (λ (f : ℕ → ℕ). f i) (a-load_all with_a job.b grid) in
      multiply-entry with_b.a with_b.b job.a job.b row col v.0 v.1 hr hc
        (λ k hk. same (row * 16 + k) ∙ loaded_a arr job.a row k hr hk)
        (λ k hk. ap with_b.b (omega arith) ∙ loaded_b with_a job.b k col hk hc)
        (λ k lo hi. same (row * 16 + k) ∙ load_all-IsClean arr job.a clean row k hr lo hi)

  IsClean-after : IsClean with_c
  unfolding with_a with_b with_c
  IsClean-after row k hr lo hi =
      ap (λ (f : ℕ → ℕ). f (row * 16 + k)) (a-load_all with_a job.b grid)
      ∙ load_all-IsClean arr job.a clean row k hr lo hi

  last : List CxlMsg
  last = compute_msg (tag_after 32 tag) ∷ reads grid (tag_after 33 tag)

  -- The four phases of the stream, on the array.
  serve_stream :
      (serve arr (build_gemm_dispatch_stream job tag) ≡ with_c)
      × (serve_reads arr (build_gemm_dispatch_stream job tag)
          ≡ drs_list (values_at with_c.c grid) (tag_after 33 tag))
  unfolding with_a with_b with_c last serve serve_reads
  serve_stream =
      let compute = compute_msg (tag_after 32 tag) in
      let corner : All InCorner grid = omega arith in
      let (s1, r1) =
        serve-loads 0 job.a (omega arith) v.0 arr grid tag
          (loads 1 job.b grid (tag_after 16 tag) ++ last) corner in
      let (s2, r2) =
        serve-loads 1 job.b (omega arith) v.1 with_a grid (tag_after 16 tag) last corner in
      let (s3, r3) = serve-reads with_c grid (tag_after 33 tag) corner in
      let step = next-compute_msg with_b (tag_after 32 tag) in
      let later : List CxlMsg = reads grid (tag_after 33 tag) in
      (
        ap (serve arr) (build_phases job tag) ∙ s1 ∙ s2 ∙ ap (λ z. serve z later) step ∙ s3,
        ap (serve_reads arr) (build_phases job tag)
            ∙ r1
            ∙ r2
            ∙ ap₂ ◌++◌ (compute_msg-no_read with_b (tag_after 32 tag))
                (ap (λ z. serve_reads z later) step ∙ r3),
      )

  stream-IsClaimed : All IsClaimed (build_gemm_dispatch_stream job tag)
  unfolding last
  stream-IsClaimed =
      let corner : All InCorner grid = omega arith in
      let second : List CxlMsg = loads 1 job.b grid (tag_after 16 tag) in
      rw build_phases (
        All-append IsClaimed (loads 0 job.a grid tag) (second ++ last)
          (loads-IsClaimed 0 job.a (omega arith) v.0 grid tag corner h)
          (All-append IsClaimed second last
            (loads-IsClaimed 1 job.b (omega arith) v.1 grid (tag_after 16 tag) corner
              (tag_after-IsU16 16 tag h))
            (
              compute_msg-IsClaimed (tag_after 32 tag) (tag_after-IsU16 32 tag h),
              reads-IsClaimed grid (tag_after 33 tag) corner (tag_after-IsU16 33 tag h),
            )))

  pub planned : Planned arr job tag
  planned = record {
    claimed = stream-IsClaimed;
    count = unfold build_gemm_dispatch_stream in refl;
    reads_back =
        serve_stream.1
        ∙ ap (λ vs. drs_list vs (tag_after 33 tag))
            (values_at-entries with_c.c (entry job.a job.b) grid with_c-entry (omega arith)
              ∙ (unfold entries in refl));
    clean = rw (serve_stream.0) IsClean-after;
  }
