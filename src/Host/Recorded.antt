-- ===== src/Host/Recorded.antt =====
-- `run_gemm_recorded` of host.rs over an endpoint that serves the array.
use slug_arch.Base.{ℕ, ◌+◌, ◌*◌, ◌≡◌, refl, ap, ◌∙◌, arith}
use slug_arch.Base.{Option, some, List, [], ◌∷◌, length, ok}
use slug_arch.Base.{length-append}
use slug_arch.Wire.Msg.{CxlMsg}
use slug_arch.Host.Types.{GemmJob, GemmResult, IsJob}
use slug_arch.Host.Dispatch.{build_gemm_dispatch_stream}
use slug_arch.Host.Endpoint.{Array, Serves, next, answer_claimed}
use slug_arch.Host.Exchange.{record_all}
use slug_arch.Host.Product.{product}
use slug_arch.Host.Plan.{planned}
use slug_arch.Host.Gemm.{IsReady, run_gemm_inner-Ran}
use slug_arch.Host.Replay.Hash.{result_commitment}
use slug_arch.Host.Replay.Records.{
  CxlReplayRecord, CxlRecordPolicy, CxlDirection, host_to_device, device_to_host,
}
use slug_arch.Host.Replay.Recorder.{
  CxlTraceRecorder, CxlReplayArtifact, new_recorder, record_gemm_msg, record_of, finish,
  CxlReplaySummary, count_record, count_records, summarize, epochs_of, max_epoch, count_capture,
}
use slug_arch.Host.Replay.Capture.{PayloadCapture, nothing, hash64, changes, whole, captured_bytes}
use slug_arch.Host.Replay.Trace.{IsTrace, new_recorder-IsTrace, record_gemm_msg-IsTrace}
use slug_arch.Host.Run.{Device, CxlHost, run_gemm_recorded}

-- The recorder after it was given the requests and the answers of the array.
unfoldable pub traced : Array → CxlTraceRecorder → ℕ → List CxlMsg → CxlTraceRecorder
traced arr r i [] = r
traced arr r i (m ∷ ms) =
    traced (next arr m)
      (record_gemm_msg (record_gemm_msg r i host_to_device m) i device_to_host
        (answer_claimed arr m))
      (i + 1) ms

record_all-traced :
    (arr : Array) (r : CxlTraceRecorder) (i : ℕ) (ms : List CxlMsg)
    → record_all arr (some r) i ms ≡ some (traced arr r i ms)
unfolding record_all traced
record_all-traced arr r i [] = refl
record_all-traced arr r i (m ∷ ms) =
    record_all-traced (next arr m)
      (record_gemm_msg (record_gemm_msg r i host_to_device m) i device_to_host
        (answer_claimed arr m))
      (i + 1) ms

traced-IsTrace :
    (arr : Array) (r : CxlTraceRecorder) (i : ℕ) (ms : List CxlMsg)
    → IsTrace r
    → IsTrace (traced arr r i ms)
unfolding traced
traced-IsTrace arr r i [] t = t
traced-IsTrace arr r i (m ∷ ms) t = traced-IsTrace (next arr m) _ (i + 1) ms (
    record_gemm_msg-IsTrace _ i device_to_host (answer_claimed arr m)
      (record_gemm_msg-IsTrace r i host_to_device m t))

length-record_gemm_msg :
    (r : CxlTraceRecorder) (i : ℕ) (dir : CxlDirection) (m : CxlMsg)
    → length (record_gemm_msg r i dir m).records ≡ length r.records + 1
unfolding record_gemm_msg
length-record_gemm_msg r i dir m = length-append r.records (record_of r i dir m ∷ [])

length-traced :
    (arr : Array) (r : CxlTraceRecorder) (i : ℕ) (ms : List CxlMsg)
    → length (traced arr r i ms).records ≡ length r.records + 2 * length ms
unfolding traced
length-traced arr r i [] = omega arith
length-traced arr r i (m ∷ ms) =
    let sent : CxlTraceRecorder = record_gemm_msg r i host_to_device m in
    let both : CxlTraceRecorder = record_gemm_msg sent i device_to_host (answer_claimed arr m) in
    omega (
      arith,
      length-traced (next arr m) both (i + 1) ms,
      length-record_gemm_msg sent i device_to_host (answer_claimed arr m),
      length-record_gemm_msg r i host_to_device m,
    )

-- The records of a job, from an array and a tag.
unfoldable pub gemm_trace : Array → CxlRecordPolicy → GemmJob → ℕ → CxlTraceRecorder
gemm_trace arr policy job tag =
    traced arr (new_recorder policy) 0 (build_gemm_dispatch_stream job tag)

-- The fields that the loop of `summarize` leaves alone.
abbrev SameTotals : CxlReplaySummary → CxlReplaySummary → Type 0
SameTotals s t =
    (t.record_count ≡ s.record_count)
    × (t.application_flit_bytes ≡ s.application_flit_bytes)
    × (t.epoch_count ≡ s.epoch_count)

count_capture-SameTotals :
    (p : PayloadCapture) (s : CxlReplaySummary) → SameTotals s (count_capture p s)
count_capture-SameTotals nothing s = (refl, refl, refl)
count_capture-SameTotals (hash64 h) s = (refl, refl, refl)
count_capture-SameTotals (changes h c) s = (refl, refl, refl)
count_capture-SameTotals (whole b) s = (refl, refl, refl)

count_record-SameTotals :
    (size : CxlReplayRecord → Option ℕ) (s : CxlReplaySummary) (r : CxlReplayRecord)
    → SameTotals s (count_record size s r)
unfolding count_record
count_record-SameTotals size s r =
    count_capture-SameTotals r.payload
      (record s { payload_capture_bytes = s.payload_capture_bytes + captured_bytes r.payload })

count_records-SameTotals :
    (size : CxlReplayRecord → Option ℕ) (s : CxlReplaySummary) (rs : List CxlReplayRecord)
    → SameTotals s (count_records size s rs)
unfolding count_records
count_records-SameTotals size s [] = (refl, refl, refl)
count_records-SameTotals size s (r ∷ rs) =
    let (a, b, c) = count_record-SameTotals size s r in
    let (a', b', c') = count_records-SameTotals size (count_record size s r) rs in
    (a' ∙ a, b' ∙ b, c' ∙ c)

length-gemm_trace :
    (arr : Array) (policy : CxlRecordPolicy) (job : GemmJob) (tag : ℕ)
    → length (build_gemm_dispatch_stream job tag) ≡ 49
    → length (gemm_trace arr policy job tag).records ≡ 98
unfolding gemm_trace new_recorder
length-gemm_trace arr policy job tag e =
    omega (arith, length-traced arr (new_recorder policy) 0 (build_gemm_dispatch_stream job tag))

summarize-totals :
    (size : CxlReplayRecord → Option ℕ) (rs : List CxlReplayRecord)
    → ((summarize size rs).record_count ≡ length rs)
      × ((summarize size rs).application_flit_bytes ≡ length rs * 64)
      × ((summarize size rs).epoch_count ≡ epochs_of (max_epoch rs))
unfolding summarize
summarize-totals size rs = count_records-SameTotals size _ rs

module _ (dev : Device) (serves : Serves dev) (size : CxlReplayRecord → Option ℕ) where
  -- A recorded job.
  pub record Replayable (arr : Array) (host : CxlHost dev.State) (job : GemmJob)
      (policy : CxlRecordPolicy) (result : GemmResult) (artifact : CxlReplayArtifact)
      (host' : CxlHost dev.State) : Type 0 where
    pub ran : run_gemm_recorded dev size host job policy ≡ (ok (result, artifact), host')
    pub c_is_product : result.c ≡ product job.a job.b
    pub commitment : artifact.final_result_commitment ≡ result_commitment result
    pub records_are : artifact.records ≡ (gemm_trace arr policy job host.next_tag).records
    pub trace : IsTrace (gemm_trace arr policy job host.next_tag)
    pub count : length artifact.records ≡ 98
    pub summary_count : artifact.summary.record_count ≡ 98
    pub summary_bytes : artifact.summary.application_flit_bytes ≡ 98 * 64

  pub run_gemm_recorded-Replayable :
      (host : CxlHost dev.State) (job : GemmJob) (policy : CxlRecordPolicy)
      (ready : IsReady dev serves host)
      → IsJob job
      → (result : GemmResult) × (artifact : CxlReplayArtifact) × (host' : CxlHost dev.State)
        × Replayable ready.arr host job policy result artifact host'
        × IsReady dev serves host'
  unfolding run_gemm_recorded finish gemm_trace
  run_gemm_recorded-Replayable host job policy ready v =
      let (result, host', x, ready') =
        run_gemm_inner-Ran dev serves host job (some (new_recorder policy)) ready v in
      let r : CxlTraceRecorder = gemm_trace ready.arr policy job host.next_tag in
      let plan = planned ready.arr job host.next_tag ready.clean v ready.in_range in
      let kept =
        record_all-traced ready.arr (new_recorder policy) 0
          (build_gemm_dispatch_stream job host.next_tag) in
      let count : length r.records ≡ 98 =
        length-gemm_trace ready.arr policy job host.next_tag plan.count in
      let totals = summarize-totals size r.records in
      (
        result,
        finish size r result,
        host',
        record {
          ran = rw (x.ran, kept) refl;
          c_is_product = x.c_is_product;
          commitment = refl;
          records_are = refl;
          trace =
              traced-IsTrace ready.arr (new_recorder policy) 0
                (build_gemm_dispatch_stream job host.next_tag) (new_recorder-IsTrace policy);
          count = count;
          summary_count = totals.0 ∙ count;
          summary_bytes = totals.1 ∙ ap (λ n. n * 64) count;
        },
        ready',
      )
