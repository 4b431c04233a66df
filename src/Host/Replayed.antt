-- ===== src/Host/Replayed.antt =====
-- Two recorded runs of the same job: `validate_equivalent` of replay.rs over the artifacts of host.rs.
use slug_arch.Base.{ℕ, ◌≡◌, ◌↔◌, sym, ap, ap₂, ◌∙◌, true, Option, ok}
use slug_arch.Host.Types.{GemmJob, GemmResult, IsJob}
use slug_arch.Host.Endpoint.{Serves}
use slug_arch.Host.Gemm.{IsReady}
use slug_arch.Host.Recorded.{gemm_trace, run_gemm_recorded-Replayable}
use slug_arch.Host.Replay.Hash.{result_commitment}
use slug_arch.Host.Replay.Records.{CxlReplayRecord, CxlRecordPolicy}
use slug_arch.Host.Replay.Recorder.{CxlReplayArtifact, validate_equivalent, is_equivalent}
use slug_arch.Host.Replay.Validate.{is_equivalent_iff}
use slug_arch.Host.Run.{Device, CxlHost, run_gemm_recorded}

module _ (size : CxlReplayRecord → Option ℕ) where
  -- Two devices that serve the array, however long they take to answer, are told apart by the
  -- validation of a replayed job only through the commitment of the result: from ready hosts on
  -- the same array and tag, both recorded runs succeed, and their artifacts are equivalent exactly
  -- when the results hash to the same commitment.
  pub run_gemm_recorded-equivalent :
      (dev dev' : Device) (serves : Serves dev) (serves' : Serves dev') (host : CxlHost dev.State)
      (host' : CxlHost dev'.State) (job : GemmJob) (policy : CxlRecordPolicy)
      (ready : IsReady dev serves host) (ready' : IsReady dev' serves' host')
      → ready'.arr ≡ ready.arr
      → host'.next_tag ≡ host.next_tag
      → IsJob job
      → (result result' : GemmResult) × (artifact artifact' : CxlReplayArtifact)
        × ((run_gemm_recorded dev size host job policy).0 ≡ ok (result, artifact))
        × ((run_gemm_recorded dev' size host' job policy).0 ≡ ok (result', artifact'))
        × ((is_equivalent (validate_equivalent artifact artifact') ≡ true)
            ↔ (result_commitment result ≡ result_commitment result'))
  run_gemm_recorded-equivalent dev dev' serves serves' host host' job policy ready ready' same_arr
        same_tag v =
      let (result, artifact, after, x, _) =
        run_gemm_recorded-Replayable dev serves size host job policy ready v in
      let (result', artifact', after', y, _) =
        run_gemm_recorded-Replayable dev' serves' size host' job policy ready' v in
      let same_records : artifact.records ≡ artifact'.records =
        x.records_are
        ∙ sym (
            y.records_are
            ∙ ap₂ (λ arr tag. (gemm_trace arr policy job tag).records) same_arr same_tag) in
      let (to, from) = is_equivalent_iff artifact artifact' in
      (
        result,
        result',
        artifact,
        artifact',
        ap (λ p. p.0) x.ran,
        ap (λ p. p.0) y.ran,
        (
          λ e. sym x.commitment ∙ ((to e).1 ∙ y.commitment),
          λ e. from (same_records, x.commitment ∙ (e ∙ sym y.commitment)),
        ),
      )
