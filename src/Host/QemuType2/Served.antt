-- ===== src/Host/QemuType2/Served.antt =====
-- The files of qemu_type2.rs with an endpoint that serves the array: the requests that are exported can be
-- read back, and the endpoint's responses to them pass.
use Prim.Native.String.{String}
use slug_arch.Base.{
  ℕ, ◌+◌, ◌*◌, ◌/◌, ◌%◌, ◌≤◌, ◌<◌, ◌≡◌, refl, ap, sym, ◌∙◌, arith, ◌==◌, ==_iff, true, List, [],
  ◌∷◌, ◌++◌, All, length, length-append, take-append, drop-append, ok,
}
use slug_arch.Wire.Msg.{CxlMsg, IsMsg}
use slug_arch.Wire.Codec.{encode}
use slug_arch.Wire.Layout.{encode_shape}
use slug_arch.Wire.RoundTrip.{as_received, decode-encode}
use slug_arch.Host.Types.{GemmJob, IsJob}
use slug_arch.Host.Dispatch.{build_gemm_dispatch_stream, load_msg, compute_msg, read_msg}
use slug_arch.Host.Readback.{decode_results}
use slug_arch.Host.Endpoint.{Array, next, answer_claimed, claims}
use slug_arch.Host.Exchange.{IsClaimed, answer_claimed-Answered, reads_of, serve_reads}
use slug_arch.Host.Schedule.{tag_after}
use slug_arch.Host.Product.{IsClean}
use slug_arch.Host.Plan.{decode_results-product, planned}
use slug_arch.Host.QemuType2.{export_requests, flits, decode_chunks, validate_responses}
use slug_arch.Host.QemuType2.Counts.{IsKind, Replies, all_reads}
use slug_arch.Host.QemuType2.Passes.{
  Passes, stream_length, pass_summary, Passes-summarize_responses,
}

-- A message that the wire carries unchanged.
abbrev Carried : CxlMsg → Type 0
Carried m = IsMsg m × (as_received m ≡ m)

flits_length : (ms : List CxlMsg) → All Carried ms → length (flits ms) ≡ length ms * 64
unfolding flits
flits_length [] h = refl
flits_length (m ∷ ms) (c, cs) =
    omega
      (arith, length-append (encode m) (flits ms), ((encode_shape m c.0).0).0, flits_length ms cs)

decode_chunks-flits :
    (ms : List CxlMsg) → All Carried ms → decode_chunks (length ms) (flits ms) ≡ ok ms
unfolding flits decode_chunks
decode_chunks-flits [] h = refl
decode_chunks-flits (m ∷ ms) (c, cs) =
    let long : length (encode m) ≡ 64 = ((encode_shape m c.0).0).0 in
    rw
      (
        take-append 64 (encode m) (flits ms) long,
        drop-append 64 (encode m) (flits ms) long,
        decode-encode m c.0,
        c.1,
        decode_chunks-flits ms cs,
      )
      refl

IsClaimed-Carried : (m : CxlMsg) → IsClaimed m → Carried m
unfolding as_received claims
IsClaimed-Carried (CxlMsg.m2s_req t o a) (v, c) = (v, refl)
IsClaimed-Carried (CxlMsg.m2s_rwd t o a d) (v, c) = (v, refl)
IsClaimed-Carried m (v, c) = absurd (let bad = c in cc (bad))

all_Carried : (ms : List CxlMsg) → All IsClaimed ms → All Carried ms
all_Carried [] h = tt
all_Carried (m ∷ ms) (c, cs) = (IsClaimed-Carried m c, all_Carried ms cs)

-- The endpoint's responses to claimed requests.
abbrev pub responses_of : Array → List CxlMsg → List CxlMsg
responses_of arr [] = []
responses_of arr (m ∷ ms) = answer_claimed arr m ∷ responses_of (next arr m) ms

responses_of-Carried :
    (arr : Array) (ms : List CxlMsg) → All IsClaimed ms → All Carried (responses_of arr ms)
responses_of-Carried arr [] h = tt
responses_of-Carried arr (m ∷ ms) (c, cs) =
    let a = answer_claimed-Answered arr m c.0 in
    ((a.valid, a.unchanged), responses_of-Carried (next arr m) ms cs)

all_reads-responses_of :
    (arr : Array) (ms : List CxlMsg) → all_reads (responses_of arr ms) ≡ serve_reads arr ms
unfolding serve_reads
all_reads-responses_of arr [] = refl
all_reads-responses_of arr (m ∷ ms) =
    ap (λ rs. reads_of (answer_claimed arr m) ++ rs) (all_reads-responses_of (next arr m) ms)

-- Writes up to index 32, and reads from there on.
abbrev IsCall : ℕ → CxlMsg → Type 0
IsCall idx (CxlMsg.m2s_rwd t o a d) = idx < 33
IsCall idx (CxlMsg.m2s_req t o a) = 33 ≤ idx
IsCall idx _ = ⊥

abbrev Calls : ℕ → List CxlMsg → Type 0
Calls idx [] = Unit {0}
Calls idx (m ∷ ms) = IsCall idx m × Calls (idx + 1) ms

stream-Calls : (job : GemmJob) → Calls 0 (build_gemm_dispatch_stream job 0)
unfolding build_gemm_dispatch_stream load_msg compute_msg read_msg
stream-Calls job = omega arith

IsCall-IsKind :
    (idx : ℕ) (arr : Array) (m : CxlMsg) → IsCall idx m → IsKind idx (answer_claimed arr m)
unfolding answer_claimed
IsCall-IsKind idx arr (CxlMsg.m2s_rwd t o a d) h = h
IsCall-IsKind idx arr (CxlMsg.m2s_req t o a) h = h
IsCall-IsKind idx arr _ h = absurd h

responses_of-Replies :
    (idx : ℕ) (arr : Array) (ms : List CxlMsg)
    → All IsClaimed ms
    → Calls idx ms
    → Replies idx ms (responses_of arr ms)
responses_of-Replies idx arr [] c k = tt
responses_of-Replies idx arr (m ∷ ms) (c, cs) (k, ks) = (
  (answer_claimed-Answered arr m c.0).same_tag,
  IsCall-IsKind idx arr m k,
  responses_of-Replies (idx + 1) (next arr m) ms cs ks,
)

blank : Array
blank = record { a = λ i. 0; b = λ i. 0; c = λ i. 0 }

-- The requests of a byte job that `export_requests` writes, in flits of 64 bytes, decode to the stream of the job.
pub decode_chunks-export_requests :
    (job : GemmJob)
    → IsJob job
    → (length ((export_requests job).0) ≡ 49 * 64)
      × (decode_chunks 49 ((export_requests job).0) ≡ ok (build_gemm_dispatch_stream job 0))
unfolding export_requests blank
decode_chunks-export_requests job v =
    let plan = planned blank job 0 (λ row k hr lo hi. refl) v (omega arith) in
    let carried = all_Carried (build_gemm_dispatch_stream job 0) plan.claimed in
    (
      flits_length (build_gemm_dispatch_stream job 0) carried
          ∙ ap (λ n. n * 64) (stream_length job),
      ap (λ n. decode_chunks n (flits (build_gemm_dispatch_stream job 0))) (sym (stream_length job))
          ∙ decode_chunks-flits (build_gemm_dispatch_stream job 0) carried,
    )

module _ (arr : Array) (clean : IsClean arr) (job : GemmJob) (v : IsJob job) where
  abbrev stream : List CxlMsg
  stream = build_gemm_dispatch_stream job 0

  responses_of-Passes : Passes job (responses_of arr stream)
  responses_of-Passes =
      let plan = planned arr job 0 clean v (omega arith) in
      (
        responses_of-Replies 0 arr stream plan.claimed (stream-Calls job),
        ap decode_results (all_reads-responses_of arr stream ∙ plan.reads_back)
            ∙ decode_results-product job.a job.b (tag_after 33 0) v.0 v.1,
      )

  -- On the flits of the responses of a clean array to the requests of a byte job, the check succeeds
  -- with status "pass": 49 requests and responses, no mismatch and no failure, and the result is the
  -- matrix product.
  pub validate_responses-pass :
      (p q : String)
      → validate_responses job (flits (responses_of arr stream)) p q ≡ ok (pass_summary job p q)
  unfolding validate_responses
  validate_responses-pass p q =
      let plan = planned arr job 0 clean v (omega arith) in
      let carried = responses_of-Carried arr stream plan.claimed in
      let n = length (responses_of arr stream) in
      let long : length (flits (responses_of arr stream)) ≡ n * 64 =
        flits_length (responses_of arr stream) carried in
      let whole : (n * 64 % 64 == 0) ≡ true = (==_iff _ _).1 (omega arith) in
      let count : n * 64 / 64 ≡ n = omega arith in
      rw (long, whole, count, decode_chunks-flits (responses_of arr stream) carried)
        (Passes-summarize_responses job v (responses_of arr stream) p q responses_of-Passes)
