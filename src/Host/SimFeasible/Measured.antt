-- ===== src/Host/SimFeasible/Measured.antt =====
-- What sim_feasible.rs measures over an endpoint that serves the array.
use Prim.Native.String.{String}
use text.Mathlib.Text.{◌==◌}
use slug_arch.Base.{
  ℕ, zero, suc, ◌+◌, ◌*◌, ◌%◌, ◌^◌, ◌≡◌, ◌≢◌, refl, ap, arith, true, false, Bool-cases, inl, inr,
  Option, none, some, List, [], ◌∷◌, ok, length,
}
use slug_arch.Host.Types.{GemmJob, GemmResult, IsJob}
use slug_arch.Host.Endpoint.{Serves}
use slug_arch.Host.Gemm.{new_host-IsReady}
use slug_arch.Host.Recorded.{run_gemm_recorded-Replayable}
use slug_arch.Host.Replay.Capture.{CxlRecordMode}
use slug_arch.Host.Replay.Records.{CxlReplayRecord, gemm_policy}
use slug_arch.Host.Replay.Recorder.{CxlReplayArtifact, validate_equivalent, is_equivalent}
use slug_arch.Host.Replay.Validate.{is_equivalent_iff}
use slug_arch.Host.Run.{Device, new_host}
use slug_arch.Host.SimFeasible.{
  ReplayModeMeasurement, add_label, count_label, count_labels, tamper_first, tampered, Repeats,
  or_this, compare_runs, recorded_run, repeat_runs, measurement, measure_mode,
}

-- The records that the labels count.
abbrev pub label_total : List (String × ℕ) → ℕ
label_total [] = 0
label_total ((l, n) ∷ rest) = n + label_total rest

label_total-add_label :
    (label : String) (ls : List (String × ℕ))
    → label_total (add_label label ls) ≡ label_total ls + 1
label_total-add_label label [] = refl
label_total-add_label label ((l, n) ∷ rest) = elim (Bool-cases (l == label)) [
  | inl e ↦ rw (add_label, e) (omega arith)
  | inr e ↦ rw (add_label, e) (omega (arith, label_total-add_label label rest))
]

count_label-total :
    (o : Option String) (acc : List (String × ℕ) × ℕ)
    → label_total ((count_label o acc).0) + (count_label o acc).1 ≡ label_total (acc.0) + acc.1 + 1
count_label-total none acc = omega arith
count_label-total (some label) acc = omega (arith, label_total-add_label label (acc.0))

count_labels-total :
    (rs : List CxlReplayRecord) (acc : List (String × ℕ) × ℕ)
    → label_total ((count_labels rs acc).0) + (count_labels rs acc).1
      ≡ label_total (acc.0) + acc.1 + length rs
unfolding count_labels
count_labels-total [] acc = omega arith
count_labels-total (r ∷ rs) acc = omega (
  arith,
  count_labels-total rs (count_label r.provenance acc),
  count_label-total r.provenance acc,
)

tag_or_zero : List CxlReplayRecord → ℕ
tag_or_zero [] = 0
tag_or_zero (r ∷ rs) = r.tag

-- A changed tag is noticed, whatever the tag.
tamper-differs : (rs : List CxlReplayRecord) → length rs ≢ 0 → rs ≢ tamper_first rs
unfolding tag_or_zero
tamper-differs [] n e = n refl
tamper-differs (r ∷ rs) n e =
    let same : r.tag ≡ (r.tag + 1) % 2 ^ 16 = ap tag_or_zero e in absurd (omega (arith, same))

tampered-noticed :
    (a : CxlReplayArtifact)
    → length a.records ≢ 0
    → is_equivalent (validate_equivalent a (tampered a)) ≡ false
tampered-noticed a n = elim (Bool-cases (is_equivalent (validate_equivalent a (tampered a)))) [
  | inl e ↦ absurd (tamper-differs a.records n ((is_equivalent_iff a (tampered a)).0 e).0)
  | inr e ↦ e
]

module _ (dev : Device) (size : CxlReplayRecord → Option ℕ) (serves : Serves dev) where
  abbrev clean : Option CxlReplayArtifact → Repeats
  clean o = record { equivalent = true; mismatch_detected = true; first = o }

  compare_runs-clean :
      (a : CxlReplayArtifact) (o : Option CxlReplayArtifact)
      → length a.records ≢ 0
      → compare_runs a a (clean o) ≡ clean (or_this o a)
  unfolding compare_runs
  compare_runs-clean a o n = rw ((is_equivalent_iff a a).1 (refl, refl), tampered-noticed a n) refl

  repeat_runs-clean :
      (n : ℕ) (job : GemmJob) (mode : CxlRecordMode) (result : GemmResult) (a : CxlReplayArtifact)
      → recorded_run dev size job mode ≡ ok (result, a)
      → length a.records ≢ 0
      → repeat_runs dev size n job mode (clean (some a)) ≡ ok (clean (some a))
  unfolding repeat_runs
  repeat_runs-clean zero job mode result a ran l = refl
  repeat_runs-clean (suc n) job mode result a ran l =
      rw (ran, compare_runs-clean a (some a) l) (repeat_runs-clean n job mode result a ran l)

  -- Over an endpoint that serves the array, a mode is measured on every byte job, from one repeat on: the
  -- replays are equivalent, a changed tag is detected, 98 records of 64 bytes are counted, and each record
  -- is counted by its label or as uncovered.
  pub measure_mode-Measured :
      (job : GemmJob) (n : ℕ) (name : String) (mode : CxlRecordMode)
      → IsJob job
      → (m : ReplayModeMeasurement) × (measure_mode dev size job (suc n) name mode ≡ ok (some m))
        × (m.equivalent ≡ true)
        × (m.mismatch_detected ≡ true)
        × (m.record_count ≡ 98)
        × (m.application_flit_bytes ≡ 98 * 64)
        × (label_total m.provenance_labels + m.uncovered_records ≡ 98)
  unfolding measure_mode repeat_runs
  measure_mode-Measured job n name mode v =
      let (result, a, after, x, _) =
        run_gemm_recorded-Replayable dev serves size (new_host dev) job (gemm_policy mode)
          (new_host-IsReady dev serves) v in
      let ran : recorded_run dev size job mode ≡ ok (result, a) = ap (λ p. p.0) x.ran in
      let some_records : length a.records ≢ 0 = λ e. absurd (omega (arith, x.count, e)) in
      (
        measurement dev size name (clean (some a)) a,
        rw
            (
              ran,
              compare_runs-clean a none some_records,
              repeat_runs-clean n job mode result a ran some_records,
            )
            refl,
        refl,
        refl,
        x.summary_count,
        x.summary_bytes,
        omega (arith, count_labels-total a.records ([], 0), x.count),
      )
