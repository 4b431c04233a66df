-- ===== src/Host/QemuType2.antt =====
-- crates/slugarch-host/src/qemu_type2.rs: the requests of a job for an endpoint that QEMU emulates, and
-- the check of the responses that come back. The files are lists of bytes; reading and writing them is
-- not part of the model.
use Prim.Native.String.{String}
use slug_arch.Base.{
  ℕ, zero, suc, ◌+◌, ◌*◌, ◌/◌, ◌%◌, ◌^◌, ◌==◌, ltb, Bool, true, false, ◌&&◌, not, Option, none,
  some, List, [], ◌∷◌, ◌++◌, map, length, take, drop, replicate, if◌then◌else◌, Result, ok, err,
  ◌>>=◌,
}
use slug_arch.Wire.Msg.{CxlMsg, S2mDrsOp, S2mNdrOp, tag}
use slug_arch.Wire.Codec.{WireError, flit_bytes, encode, decode}
use slug_arch.Host.Types.{GemmJob, HostError, dispatch_failed, wire_decode, responses_length, cell}
use slug_arch.Host.Dispatch.{build_gemm_dispatch_stream}
use slug_arch.Host.Readback.{decode_results}
pub mod Matrix
pub mod Counts
pub mod Passes
pub mod Served
mod Tests

pub record QemuType2Expected : Type 0 where
  pub workload : String
  pub request_count : ℕ
  pub flit_bytes : ℕ
  pub request_tags : List ℕ
  pub expected_c : List (List ℕ)

pub record QemuType2Summary : Type 0 where
  pub status : String
  pub request_count : ℕ
  pub response_count : ℕ
  pub tag_mismatches : ℕ
  pub dispatch_failures : ℕ
  pub result_c : List (List ℕ)
  pub expected_c : List (List ℕ)
  pub requests_path : String
  pub responses_path : String

-- The loop over k: `sum += job.a[r][k] as u32 * job.b[k][c] as u32`, on a `u32`.
unfoldable pub sum_over : GemmJob → ℕ → ℕ → List ℕ → ℕ → ℕ
sum_over job r c [] sum = sum
sum_over job r c (k ∷ ks) sum =
    sum_over job r c ks ((sum + cell job.a r k * cell job.b k c) % 2 ^ 32)

abbrev pub four : List ℕ
four = 0 ∷ 1 ∷ 2 ∷ 3 ∷ []

unfoldable pub matmul : GemmJob → List (List ℕ)
unfolding sum_over
matmul job = map (λ r. map (λ c. sum_over job r c four 0) four) four

unfoldable pub expected_for_job : GemmJob → QemuType2Expected
unfolding matmul build_gemm_dispatch_stream
expected_for_job job =
    let stream = build_gemm_dispatch_stream job 0 in
    record {
      workload = "slugcxl_gemm_4x4";
      request_count = length stream;
      flit_bytes = flit_bytes;
      request_tags = map tag stream;
      expected_c = matmul job;
    }

-- The loop that appends the flit of each message.
unfoldable pub flits : List CxlMsg → List ℕ
flits [] = []
flits (m ∷ ms) = encode m ++ flits ms

-- requests.bin and expected.json of `export_requests`, before the latter is printed.
unfoldable pub export_requests : GemmJob → List ℕ × QemuType2Expected
export_requests job = (flits (build_gemm_dispatch_stream job 0), expected_for_job job)

-- The `?` that turns a `WireError` into a `HostError`.
abbrev pub of_wire : {A : Type 0} → Result WireError A → Result HostError A
of_wire (err e) = err (wire_decode e)
of_wire (ok a) = ok a

-- The loop over the chunks of 64 bytes, of which there are as many as the first argument says.
unfoldable pub decode_chunks : ℕ → List ℕ → Result HostError (List CxlMsg)
decode_chunks zero bytes = ok []
decode_chunks (suc n) bytes = do
  m ← of_wire (decode (take flit_bytes bytes))
  ms ← decode_chunks n (drop flit_bytes bytes)
  ok (m ∷ ms)

-- The variables of the loop over the responses.
pub record Tally : Type 0 where
  pub mismatches : ℕ
  pub failures : ℕ
  pub read_responses : List CxlMsg

-- `requests.get(idx)`, of the requests from `idx` on.
abbrev pub first_request : List CxlMsg → Option CxlMsg
first_request [] = none
first_request (m ∷ ms) = some m

abbrev pub later_requests : List CxlMsg → List CxlMsg
later_requests [] = []
later_requests (m ∷ ms) = ms

abbrev pub tally_tag : Option CxlMsg → CxlMsg → Tally → Tally
tally_tag none response t = t
tally_tag (some request) response t =
    if tag response == tag request then t else record t { mismatches = t.mismatches + 1 }

abbrev pub failed : Tally → Tally
failed t = record t { failures = t.failures + 1 }

-- The arms of the match on a response at an index.
unfoldable pub tally_kind : ℕ → CxlMsg → Tally → Tally
tally_kind idx (CxlMsg.s2m_ndr tg S2mNdrOp.cmp) t = if ltb idx 33 then t else failed t
tally_kind idx (CxlMsg.s2m_drs tg S2mDrsOp.mem_data d) t =
    if not (ltb idx 33)
    then record t {
      read_responses = t.read_responses ++ CxlMsg.s2m_drs tg S2mDrsOp.mem_data d ∷ [];
    }
    else failed t
tally_kind idx response t = failed t

unfoldable pub tally : ℕ → List CxlMsg → List CxlMsg → Tally → Tally
tally idx requests [] t = t
tally idx requests (response ∷ responses) t =
    tally (idx + 1) (later_requests requests) responses
      (tally_kind idx response (tally_tag (first_request requests) response t))

abbrev pub same_row : List ℕ → List ℕ → Bool
same_row [] [] = true
same_row (x ∷ xs) (y ∷ ys) = (x == y) && same_row xs ys
same_row _ _ = false

-- `==` on `[[u32; 4]; 4]`
abbrev pub same_matrix : List (List ℕ) → List (List ℕ) → Bool
same_matrix [] [] = true
same_matrix (x ∷ xs) (y ∷ ys) = same_row x y && same_matrix xs ys
same_matrix _ _ = false

-- `validate_responses` from the decoded responses on: the counts, the result and the status.
unfoldable pub summarize_responses :
    GemmJob → ℕ → List CxlMsg → String → String → Result HostError QemuType2Summary
summarize_responses job response_count decoded requests_path responses_path = do
  let requests = build_gemm_dispatch_stream job 0
  let start : Tally = record { mismatches = 0; failures = 0; read_responses = [] }
  let t = tally 0 requests decoded start
  result_c ←
      if length t.read_responses == 16
      then decode_results t.read_responses
      else ok (replicate 4 (replicate 4 0))
  let passed =
      (response_count == length requests)
      && (t.mismatches == 0)
      && (t.failures == 0)
      && same_matrix result_c (matmul job)
  ok (record {
    status = if passed then "pass" else "fail";
    request_count = length requests;
    response_count = response_count;
    tag_mismatches = t.mismatches;
    dispatch_failures = t.failures;
    result_c = result_c;
    expected_c = matmul job;
    requests_path = requests_path;
    responses_path = responses_path;
  })

-- `validate_responses` on the bytes of the file of responses, up to the summary.
unfoldable pub validate_responses :
    GemmJob → List ℕ → String → String → Result HostError QemuType2Summary
validate_responses job bytes requests_path responses_path =
    if length bytes % flit_bytes == 0
    then (do
      let response_count = length bytes / flit_bytes
      decoded ← decode_chunks response_count bytes
      summarize_responses job response_count decoded requests_path responses_path)
    else err (dispatch_failed 0 (responses_length (length bytes)))
