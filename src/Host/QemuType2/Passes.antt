-- ===== src/Host/QemuType2/Passes.antt =====
-- What the status of qemu_type2.rs means.
use Prim.Native.String.{String}
use text.Mathlib.TextEquality.{eq_iff}
use slug_arch.Base.{
  ℕ, ◌*◌, ◌/◌, ◌%◌, ◌≡◌, ◌↔◌, refl, ap, sym, ◌∙◌, arith, ◌==◌, ==_iff, Bool, true, ◌&&◌, Bool-cases,
  all_four, inl, inr, err, List, [], ◌∷◌, length, take, drop, zero, suc, replicate, if◌then◌else◌,
  Result, ok, >>=-eq-ok,
}
use slug_arch.Wire.Msg.{CxlMsg}
use slug_arch.Wire.Codec.{flit_bytes, decode}
use slug_arch.Host.Types.{GemmJob, HostError, IsJob}
use slug_arch.Host.Dispatch.{build_gemm_dispatch_stream}
use slug_arch.Host.Readback.{decode_results}
use slug_arch.Host.Product.{product}
use slug_arch.Host.QemuType2.{
  QemuType2Summary, matmul, tally, same_matrix, summarize_responses, Tally, decode_chunks,
  validate_responses, of_wire,
}
use slug_arch.Host.QemuType2.Matrix.{matmul-product, same_matrix_eq, same_matrix_refl}
use slug_arch.Host.QemuType2.Counts.{
  Replies, all_reads, tally-Replies, Replies-tally, Replies-length, Replies-reads,
}

-- The responses answer the requests, with the product in their data.
abbrev pub Passes : GemmJob → List CxlMsg → Type 0
Passes job decoded =
    Replies 0 (build_gemm_dispatch_stream job 0) decoded
    × (decode_results (all_reads decoded) ≡ ok (product job.a job.b))

pub stream_length : (job : GemmJob) → length (build_gemm_dispatch_stream job 0) ≡ 49
unfolding build_gemm_dispatch_stream
stream_length job = refl

abbrev start : Tally
start = record { mismatches = 0; failures = 0; read_responses = [] }

-- The result that is computed of the collected reads.
abbrev result_of : List CxlMsg → Result HostError (List (List ℕ))
result_of reads =
    if length reads == 16 then decode_results reads else ok (replicate 4 (replicate 4 0))

abbrev status_of : Bool → String
status_of passed = if passed then "pass" else "fail"

status_of-pass : (b : Bool) → ◌≡◌ {A = String} (status_of b) "pass" → b ≡ true
status_of-pass b h = elim (Bool-cases b) [
  | inl e ↦ e
  | inr e ↦
      let bad : ◌≡◌ {A = String} "fail" "pass" = rw e at h in
      let same = (eq_iff "fail" "pass").1 bad in cc (same)
]

abbrev status_in : Result HostError QemuType2Summary → String
status_in (err e) = ""
status_in (ok s) = s.status

abbrev count_in : Result HostError QemuType2Summary → ℕ
count_in (err e) = 0
count_in (ok s) = s.response_count

module _ (job : GemmJob) (v : IsJob job) (decoded : List CxlMsg) (p q : String) where
  abbrev requests : List CxlMsg
  requests = build_gemm_dispatch_stream job 0

  abbrev counted : Tally
  counted = tally 0 requests decoded start

  abbrev passed : List (List ℕ) → Bool
  passed result_c =
      (length decoded == length requests)
      && (counted.mismatches == 0)
      && (counted.failures == 0)
      && same_matrix result_c (matmul job)

  -- Of responses that answer the requests, sixteen have data.
  result_of-Replies :
      Replies 0 requests decoded
      → result_of counted.read_responses ≡ decode_results (all_reads decoded)
  result_of-Replies r =
      let n = Replies-length 0 requests decoded r in
      let k = Replies-reads 0 requests decoded r (omega (arith, n, stream_length job)) in
      let sixteen : length (all_reads decoded) ≡ 16 = omega (arith, n, k, stream_length job) in
      let c : counted.read_responses ≡ all_reads decoded =
        ap (λ (t : Tally). t.read_responses) (Replies-tally 0 requests decoded start r) in
      ap result_of c ∙ rw sixteen refl

  passed-Passes :
      (result_c : List (List ℕ))
      → result_of counted.read_responses ≡ ok result_c
      → passed result_c ≡ true
      → Passes job decoded
  passed-Passes result_c e h =
      let (a, b, c, d) = all_four _ _ _ _ h in
      let r =
        tally-Replies 0 requests decoded start ((==_iff _ _).0 a) ((==_iff _ _).0 b)
          ((==_iff _ _).0 c) in
      (
        r,
        sym (result_of-Replies r)
            ∙ e
            ∙ ap ok (same_matrix_eq result_c (matmul job) d ∙ matmul-product job v),
      )

  Passes-passed :
      (result_c : List (List ℕ))
      → result_of counted.read_responses ≡ ok result_c
      → Passes job decoded
      → passed result_c ≡ true
  Passes-passed result_c e (r, d) =
      let t : counted ≡ record start { read_responses = all_reads decoded } =
        Replies-tally 0 requests decoded start r in
      let same : ok result_c ≡ ok (product job.a job.b) = sym e ∙ result_of-Replies r ∙ d in
      let eq : result_c ≡ matmul job = (cc (same)) ∙ sym (matmul-product job v) in
      rw
        ((==_iff _ _).1 (Replies-length 0 requests decoded r), t, eq, same_matrix_refl (matmul job))
        refl

  summarize_responses-pass_iff :
      (s : QemuType2Summary)
      → summarize_responses job (length decoded) decoded p q ≡ ok s
      → (s.status ≡ "pass") ↔ Passes job decoded
  unfolding summarize_responses
  summarize_responses-pass_iff s h =
      let (result_c, e, last) = >>=-eq-ok (result_of counted.read_responses) _ h in
      let status : status_of (passed result_c) ≡ s.status = ap status_in last in
      (
        λ t. passed-Passes result_c e (status_of-pass (passed result_c) (status ∙ t)),
        λ t. sym status ∙ ap status_of (Passes-passed result_c e t),
      )

  summarize_responses-response_count :
      (s : QemuType2Summary)
      → summarize_responses job (length decoded) decoded p q ≡ ok s
      → s.response_count ≡ length decoded
  unfolding summarize_responses
  summarize_responses-response_count s h =
      let (_, _, last) = >>=-eq-ok (result_of counted.read_responses) _ h in sym (ap count_in last)

-- The summary of responses that pass.
abbrev pub pass_summary : GemmJob → String → String → QemuType2Summary
pass_summary job p q = record {
  status = "pass";
  request_count = 49;
  response_count = 49;
  tag_mismatches = 0;
  dispatch_failures = 0;
  result_c = product job.a job.b;
  expected_c = product job.a job.b;
  requests_path = p;
  responses_path = q;
}

pub Passes-summarize_responses :
    (job : GemmJob) (v : IsJob job) (decoded : List CxlMsg) (p q : String)
    → Passes job decoded
    → summarize_responses job (length decoded) decoded p q ≡ ok (pass_summary job p q)
unfolding summarize_responses
Passes-summarize_responses job v decoded p q (r, d) =
    let n : length decoded ≡ length (build_gemm_dispatch_stream job 0) =
      Replies-length 0 (build_gemm_dispatch_stream job 0) decoded r in
    let c = result_of-Replies job v decoded p q r ∙ d in
    let t = Replies-tally 0 (build_gemm_dispatch_stream job 0) decoded start r in
    let passes = Passes-passed job v decoded p q (product job.a job.b) c (r, d) in
    rw (c, passes, t, n, stream_length job, matmul-product job v) refl

decode_chunks-length :
    (n : ℕ) (bytes : List ℕ) {decoded : List CxlMsg}
    → decode_chunks n bytes ≡ ok decoded
    → length decoded ≡ n
unfolding decode_chunks
decode_chunks-length zero bytes {decoded} h = let e : [] ≡ decoded = cc (h) in ap length (sym e)
decode_chunks-length (suc n) bytes {decoded} h =
    let (m, _, h1) = >>=-eq-ok (of_wire (decode (take flit_bytes bytes))) _ h in
    let (ms, e, h2) = >>=-eq-ok (decode_chunks n (drop flit_bytes bytes)) _ h1 in
    let c : m ∷ ms ≡ decoded = cc (h2) in
    ap length (sym c) ∙ ap suc (decode_chunks-length n (drop flit_bytes bytes) e)

-- What a summary of the bytes of responses says.
pub record Validated (job : GemmJob) (bytes : List ℕ) (s : QemuType2Summary) : Type 0 where
  pub decoded : List CxlMsg
  pub whole : length bytes ≡ length decoded * 64
  pub decodes : decode_chunks (length bytes / 64) bytes ≡ ok decoded
  pub counts : s.response_count ≡ length decoded
  pub pass_iff : (s.status ≡ "pass") ↔ Passes job decoded

-- The summary of the bytes of responses to a byte job, when there is one, counts whole flits, which
-- decode; its status is "pass" exactly when each request has its response, in order, with its tag,
-- completions for the writes and then data, and the data decode to the product.
pub validate_responses-Validated :
    (job : GemmJob) (bytes : List ℕ) (p q : String) (s : QemuType2Summary)
    → IsJob job
    → validate_responses job bytes p q ≡ ok s
    → Validated job bytes s
unfolding validate_responses
validate_responses-Validated job bytes p q s v h =
    elim (Bool-cases (length bytes % flit_bytes == 0)) [
      | inr e ↦ let bad = rw e at h in cc (bad)
      | inl e ↦
          let h' = rw e at h in
          let (decoded, d, last) =
            >>=-eq-ok (decode_chunks (length bytes / flit_bytes) bytes) _ h' in
          let n = decode_chunks-length (length bytes / flit_bytes) bytes d in
          let m : length bytes % 64 ≡ 0 = (==_iff _ _).0 e in
          let summary : summarize_responses job (length decoded) decoded p q ≡ ok s =
            ap (λ k. summarize_responses job k decoded p q) n ∙ last in
          record {
            decoded = decoded;
            whole = omega (arith, n, m);
            decodes = d;
            counts = summarize_responses-response_count job v decoded p q s summary;
            pass_iff = summarize_responses-pass_iff job v decoded p q s summary;
          }
    ]
