-- ===== src/Gen/Recorded.antt =====
-- The estimate of hj_overhead.rs and the recorder of crates/slugarch-host/src/replay.rs: with a stride of
-- one they count alike.
use slug_arch.Base.{ℕ, ◌*◌, ◌^◌, ◌<◌, ◌≡◌, Option, some, ok, sym, ap, ◌∙◌, arith}
use slug_arch.Host.Types.{GemmJob, GemmResult, IsJob}
use slug_arch.Host.Endpoint.{Serves}
use slug_arch.Host.Gemm.{IsReady}
use slug_arch.Host.Recorded.{run_gemm_recorded-Replayable}
use slug_arch.Host.Replay.Records.{CxlReplayRecord, CxlRecordPolicy}
use slug_arch.Host.Replay.Recorder.{CxlReplayArtifact}
use slug_arch.Host.Run.{Device, CxlHost, run_gemm_recorded}
use slug_arch.Gen.{HardwareJitConfig}
use slug_arch.Gen.Overhead.{HardwareJitOverhead, estimate_gemm_4x4, estimate_gemm_4x4-Estimated}

-- A run with its estimate.
pub record CountsAlike (dev : Device) (size : CxlReplayRecord → Option ℕ) (host : CxlHost dev.State)
    (job : GemmJob) (policy : CxlRecordPolicy) (hj : HardwareJitConfig) : Type 0 where
  pub result : GemmResult
  pub artifact : CxlReplayArtifact
  pub host' : CxlHost dev.State
  pub estimate : HardwareJitOverhead
  pub ran : run_gemm_recorded dev size host job policy ≡ (ok (result, artifact), host')
  pub estimated : estimate_gemm_4x4 hj ≡ some estimate
  pub records : artifact.summary.record_count ≡ estimate.record_count
  pub bytes : artifact.summary.application_flit_bytes ≡ estimate.app_flit_bytes

-- Over an endpoint that serves the array, a recorded run of a byte job makes as many records as the
-- generator estimates for a stride of one, and as many bytes of application flits.
pub estimate-run_gemm_recorded :
    (dev : Device) (serves : Serves dev) (size : CxlReplayRecord → Option ℕ)
    (host : CxlHost dev.State) (job : GemmJob) (policy : CxlRecordPolicy) (hj : HardwareJitConfig)
    → IsReady dev serves host
    → IsJob job
    → hj.sample_stride ≡ 1
    → hj.metadata_record_bytes < 2 ^ 32
    → CountsAlike dev size host job policy hj
estimate-run_gemm_recorded dev serves size host job policy hj ready v one small =
    let (result, artifact, host', x, _) =
      run_gemm_recorded-Replayable dev serves size host job policy ready v in
    let (estimate, e) = estimate_gemm_4x4-Estimated hj (omega (arith, one)) small in
    let count = e.count in
    let same : estimate.record_count * hj.sample_stride ≡ estimate.record_count * 1 =
      ap (λ d. estimate.record_count * d) one in
    record {
      result = result;
      artifact = artifact;
      host' = host';
      estimate = estimate;
      ran = x.ran;
      estimated = e.estimated;
      records = omega (arith, x.summary_count, count.reach, count.bounded, same);
      bytes = x.summary_bytes ∙ sym e.app_bytes;
    }
