-- ===== src/Host/Tests.antt =====
-- Runs of the host, and its theorems at concrete inputs.
use slug_arch.Base.{◌+◌, ◌*◌, ◌<◌, ◌↔◌, true, some, none, All, length, [], ◌∷◌}
use slug_arch.Host.SimFeasible.{ReplayModeMeasurement, measure_mode}
use slug_arch.Host.SimFeasible.Measured.{label_total, measure_mode-Measured}
use slug_arch.Host.SimFeasible.Claims.{
  measured, RunFiles, Bar2EvidenceSummary, DaxProbe, summarize_bar2_repeatability, claim_ledger,
}
use slug_arch.Host.SimFeasible.Ledger.{
  Passed, IsSafe, summarize_bar2_repeatability_iff, claim_ledger-IsSafe,
}
use slug_arch.Base.{◌≡◌, refl, arith, [], ◌∷◌, ok}
use slug_arch.Host.Types.{GemmJob, GemmResult}
use slug_arch.Host.Dispatch.{make_load_token}
use slug_arch.Host.Run.{CxlHost, new_host, run_gemm}
use slug_arch.Host.Product.{product}
use slug_arch.Host.Gemm.{IsReady, run_gemm-product, new_host-IsReady, tag_after_job}
use slug_arch.Base.{Option, none, true, ◌↔◌, ℕ, err, ◌+◌, ◌%◌, ◌^◌}
use slug_arch.Host.Types.{flit_timeout}
use slug_arch.Host.Run.{Device, run_gemm_recorded}
use slug_arch.Host.Recorded.{Replayable, run_gemm_recorded-Replayable}
use slug_arch.Host.Replayed.{run_gemm_recorded-equivalent}
use slug_arch.Host.Failures.{run_gemm-ok}
use slug_arch.Host.Silent.{run_gemm-IsSilent}
use slug_arch.Host.Replay.Hash.{result_commitment}
use slug_arch.Host.Replay.Capture.{delta}
use slug_arch.Host.Replay.Records.{CxlReplayRecord, gemm_policy}
use slug_arch.Host.Replay.Recorder.{CxlReplayArtifact, is_equivalent, validate_equivalent}
use slug_arch.Host.Ideal.{ideal, IdealState, ideal-serves}

-- The job of the tests of replay.rs: the identity times a matrix.
abbrev sample_job : GemmJob
sample_job = record {
  a =
      (1 ∷ 0 ∷ 0 ∷ 0 ∷ [])
      ∷ (0 ∷ 1 ∷ 0 ∷ 0 ∷ [])
      ∷ (0 ∷ 0 ∷ 1 ∷ 0 ∷ [])
      ∷ (0 ∷ 0 ∷ 0 ∷ 1 ∷ [])
      ∷ [];
  b =
      (2 ∷ 3 ∷ 4 ∷ 5 ∷ [])
      ∷ (6 ∷ 7 ∷ 8 ∷ 9 ∷ [])
      ∷ (10 ∷ 11 ∷ 12 ∷ 13 ∷ [])
      ∷ (14 ∷ 15 ∷ 16 ∷ 17 ∷ [])
      ∷ [];
}

product_of_identity : product sample_job.a sample_job.b ≡ sample_job.b
product_of_identity = refl

load_token : make_load_token 1 51 255 ≡ 0xff33c
unfolding make_load_token
load_token = refl

run_gemm-product_example :
    (result : GemmResult) × (host' : CxlHost IdealState) × (run_gemm ideal
        (new_host ideal)
        sample_job
      ≡ (ok result, host'))
    × (result.c ≡ product sample_job.a sample_job.b)
    × (result.flits_sent ≡ 49)
    × (result.flits_received ≡ 49)
    × (host'.next_tag ≡ tag_after_job ((new_host ideal).next_tag))
    × IsReady ideal ideal-serves host'
run_gemm-product_example =
    run_gemm-product ideal ideal-serves (new_host ideal) sample_job
      (new_host-IsReady ideal ideal-serves) (omega arith)

-- The encoded size of a record is not known to the model: here it is always an error.
abbrev no_size : CxlReplayRecord → Option ℕ
no_size r = none

run_gemm_recorded-Replayable_example :
    (result : GemmResult) × (artifact : CxlReplayArtifact) × (host' : CxlHost IdealState)
    × Replayable ideal ideal-serves no_size
        (new_host-IsReady ideal ideal-serves).arr
        (new_host ideal)
        sample_job
        (gemm_policy delta)
        result
        artifact
        host'
    × IsReady ideal ideal-serves host'
run_gemm_recorded-Replayable_example =
    run_gemm_recorded-Replayable ideal ideal-serves no_size (new_host ideal) sample_job
      (gemm_policy delta) (new_host-IsReady ideal ideal-serves) (omega arith)

run_gemm_recorded-equivalent_example :
    (result result' : GemmResult) × (artifact artifact' : CxlReplayArtifact) × ((run_gemm_recorded
        ideal no_size
        (new_host ideal)
        sample_job
        (gemm_policy delta)).0
      ≡ ok (result, artifact))
    × ((run_gemm_recorded ideal no_size (new_host ideal) sample_job (gemm_policy delta)).0
        ≡ ok (result', artifact'))
    × ((is_equivalent (validate_equivalent artifact artifact') ≡ true)
        ↔ (result_commitment result ≡ result_commitment result'))
run_gemm_recorded-equivalent_example =
    run_gemm_recorded-equivalent no_size ideal ideal ideal-serves ideal-serves (new_host ideal)
      (new_host ideal) sample_job (gemm_policy delta) (new_host-IsReady ideal ideal-serves)
      (new_host-IsReady ideal ideal-serves) refl refl (omega arith)

-- A device that never has a flit.
abbrev dead : Device
dead = record {
  State = ℕ;
  fresh = 0;
  tick = λ n. (n, n + 1);
  send_flit = λ f n. n;
  try_recv_flit = λ n. (none, n);
}

run_gemm-IsSilent_example :
    ((run_gemm dead (new_host dead) sample_job).0 ≡ err (flit_timeout 65))
    × ((run_gemm dead (new_host dead) sample_job).1.next_tag
        ≡ ((new_host dead).next_tag + 49) % 2 ^ 16)
run_gemm-IsSilent_example = run_gemm-IsSilent dead (λ s. refl) (new_host dead) sample_job

abbrev sample_run :
    (result : GemmResult) × (host' : CxlHost IdealState) × (run_gemm ideal
        (new_host ideal)
        sample_job
      ≡ (ok result, host'))
sample_run =
    let r =
      run_gemm-product ideal ideal-serves (new_host ideal) sample_job
        (new_host-IsReady ideal ideal-serves) (omega arith) in
    (r.0, r.1, r.2)

run_gemm-ok_example :
    (sample_run.0.flits_sent ≡ 49)
    × (sample_run.0.flits_received ≡ 49)
    × (sample_run.1.next_tag ≡ ((new_host ideal).next_tag + 49) % 2 ^ 16)
run_gemm-ok_example =
    run_gemm-ok ideal (new_host ideal) (sample_run.1) sample_job (sample_run.0) (sample_run.2)

measure_mode-Measured_example :
    (m : ReplayModeMeasurement) × (measure_mode ideal no_size sample_job 2 "delta" delta
      ≡ ok (some m))
    × (m.equivalent ≡ true)
    × (m.mismatch_detected ≡ true)
    × (m.record_count ≡ 98)
    × (m.application_flit_bytes ≡ 98 * 64)
    × (label_total m.provenance_labels + m.uncovered_records ≡ 98)
measure_mode-Measured_example =
    measure_mode-Measured ideal no_size ideal-serves sample_job 1 "delta" delta (omega arith)

abbrev passed_run : RunFiles
passed_run = record {
  status = some "pass";
  request_count = some 49;
  response_count = some 49;
  tag_mismatches = some 0;
  dispatch_failures = none;
  elapsed_ms = some 12;
}

summarize_bar2_repeatability_iff_example :
    ((summarize_bar2_repeatability (some ("runs", passed_run ∷ []))).status ≡ measured)
    ↔ ((0 < length (passed_run ∷ [])) × All Passed (passed_run ∷ []))
summarize_bar2_repeatability_iff_example = summarize_bar2_repeatability_iff "runs" (passed_run ∷ [])

abbrev no_dax : DaxProbe
no_dax = record { dev_root = "/dev"; checked = []; limitation = "none" }

abbrev evidence : Bar2EvidenceSummary
evidence = summarize_bar2_repeatability (some ("runs", passed_run ∷ []))

claim_ledger-IsSafe_example :
    (length (claim_ledger evidence no_dax) ≡ 12)
    × All (IsSafe evidence) (claim_ledger evidence no_dax)
claim_ledger-IsSafe_example = claim_ledger-IsSafe evidence no_dax
