-- ===== src/Cli/Cxl.antt =====
-- `run-cxl` and `eval-cxl` of crates/slugarch-cli/src/main.rs, on the job of the file.
use Prim.Native.String.{String}
use text.Mathlib.Text.{◌==◌}
use slug_arch.Base.{ℕ, ◌*◌, ◌≡◌, refl, ap, true, Option, Result, ok, err, ◌>>=◌, if◌then◌else◌}
use slug_arch.Host.Types.{GemmJob, GemmResult, IsJob}
use slug_arch.Host.Endpoint.{Serves}
use slug_arch.Host.Gemm.{new_host-IsReady}
use slug_arch.Host.Product.{product}
use slug_arch.Host.Recorded.{run_gemm_recorded-Replayable}
use slug_arch.Host.Replay.Capture.{CxlRecordMode, validation, delta, full}
use slug_arch.Host.Replay.Records.{CxlReplayRecord, gemm_policy}
use slug_arch.Host.Replay.Recorder.{
  CxlReplayArtifact, CxlReplaySummary, CxlReplayValidation, validate_equivalent, is_equivalent,
}
use slug_arch.Host.Replay.Validate.{is_equivalent_iff}
use slug_arch.Host.Run.{Device, new_host, run_gemm, run_gemm_recorded}
use slug_arch.Cli.{CliError, map_err, host_failed, unknown_mode}

unfoldable pub parse_cxl_record_mode : String → Result CliError CxlRecordMode
parse_cxl_record_mode mode =
    if mode == "validation"
    then ok validation
    else if mode == "delta"
    then ok delta
    else if mode == "full"
    then ok full
    else err (unknown_mode mode)

-- What `eval-cxl` prints.
pub record Evaluation : Type 0 where
  pub result : GemmResult
  pub summary : CxlReplaySummary
  pub compared : CxlReplayValidation

module _ (dev : Device) (size : CxlReplayRecord → Option ℕ) where
  -- `CxlHost::new().run_gemm(..)`
  unfoldable pub run_cxl : GemmJob → Result CliError GemmResult
  run_cxl job = map_err host_failed ((run_gemm dev (new_host dev) job).0)

  -- One of the two runs, each on a new host.
  abbrev pub recorded_run :
      GemmJob → CxlRecordMode → Result CliError (GemmResult × CxlReplayArtifact)
  recorded_run job mode =
      map_err host_failed ((run_gemm_recorded dev size (new_host dev) job (gemm_policy mode)).0)

  unfoldable pub eval_cxl : GemmJob → String → Result CliError Evaluation
  eval_cxl job name = do
    mode ← parse_cxl_record_mode name
    (result, run_a) ← recorded_run job mode
    (_, run_b) ← recorded_run job mode
    ok (record {
      result = result;
      summary = run_a.summary;
      compared = validate_equivalent run_a run_b;
    })

  -- Over an endpoint that serves the array, eval-cxl succeeds on every byte job in each known mode: it
  -- reports the matrix product, 98 records of 64 bytes each, and that the two runs are equivalent.
  pub eval_cxl-equivalent :
      (serves : Serves dev) (job : GemmJob) (name : String) (mode : CxlRecordMode)
      → parse_cxl_record_mode name ≡ ok mode
      → IsJob job
      → (e : Evaluation) × (eval_cxl job name ≡ ok e)
        × (e.result.c ≡ product job.a job.b)
        × (e.summary.record_count ≡ 98)
        × (e.summary.application_flit_bytes ≡ 98 * 64)
        × (is_equivalent e.compared ≡ true)
  unfolding eval_cxl
  eval_cxl-equivalent serves job name mode known v =
      let (result, artifact, after, x, _) =
        run_gemm_recorded-Replayable dev serves size (new_host dev) job (gemm_policy mode)
          (new_host-IsReady dev serves) v in
      let ran : (run_gemm_recorded dev size (new_host dev) job (gemm_policy mode)).0
          ≡ ok (result, artifact) =
        ap (λ p. p.0) x.ran in
      (
        record {
          result = result;
          summary = artifact.summary;
          compared = validate_equivalent artifact artifact;
        },
        rw (known, ran) refl,
        x.c_is_product,
        x.summary_count,
        x.summary_bytes,
        (is_equivalent_iff artifact artifact).1 (refl, refl),
      )
