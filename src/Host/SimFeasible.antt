-- ===== src/Host/SimFeasible.antt =====
-- crates/slugarch-host/src/sim_feasible.rs: the measurement of the record modes, the summary of the
-- repeated runs of QEMU, and the ledger of claims. Clocks, ratios in f64, and the reading of files and
-- JSON are left out.
use Prim.Native.String.{String}
use text.Mathlib.Text.{◌==◌}
use slug_arch.Base.{
  ℕ, zero, suc, ◌+◌, ◌%◌, ◌^◌, Bool, true, false, ◌&&◌, not, Option, none, some, List, [], ◌∷◌,
  Result, ok, err, ◌>>=◌, if◌then◌else◌, ltb, length,
}
use slug_arch.Base.{◌==◌ as eqb}
use slug_arch.Host.Types.{GemmJob, GemmResult, HostError}
use slug_arch.Host.Replay.Capture.{CxlRecordMode, validation, delta, full}
use slug_arch.Host.Replay.Records.{CxlReplayRecord, gemm_policy}
use slug_arch.Host.Replay.Recorder.{
  CxlReplayArtifact, CxlReplaySummary, validate_equivalent, is_equivalent,
}
use slug_arch.Host.Run.{Device, new_host, run_gemm_recorded}
pub mod Measured
pub mod Claims
pub mod Ledger

pub record PayloadRecordCounts : Type 0 where
  pub hash : ℕ
  pub delta : ℕ
  pub full : ℕ

-- `ReplayModeMeasurement`, without the times and the ratios.
pub record ReplayModeMeasurement : Type 0 where
  pub mode : String
  pub record_count : ℕ
  pub epoch_count : ℕ
  pub application_flit_bytes : ℕ
  pub replay_record_bytes : ℕ
  pub payload_capture_bytes : ℕ
  pub payload_record_counts : PayloadRecordCounts
  pub equivalent : Bool
  pub mismatch_detected : Bool
  pub provenance_labels : List (String × ℕ)
  pub uncovered_records : ℕ

-- `*provenance_labels.entry(label).or_insert(0) += 1`
abbrev pub add_label : String → List (String × ℕ) → List (String × ℕ)
add_label label [] = (label, 1) ∷ []
add_label label ((l, n) ∷ rest) =
    if l == label then (l, n + 1) ∷ rest else (l, n) ∷ add_label label rest

abbrev pub count_label : Option String → List (String × ℕ) × ℕ → List (String × ℕ) × ℕ
count_label none (labels, uncovered) = (labels, uncovered + 1)
count_label (some label) (labels, uncovered) = (add_label label labels, uncovered)

-- The loop over the records: the labels and the records without one.
unfoldable pub count_labels : List CxlReplayRecord → List (String × ℕ) × ℕ → List (String × ℕ) × ℕ
count_labels [] acc = acc
count_labels (r ∷ rs) acc = count_labels rs (count_label r.provenance acc)

-- `record.tag = record.tag.wrapping_add(1)` on the first record.
abbrev pub tamper_first : List CxlReplayRecord → List CxlReplayRecord
tamper_first [] = []
tamper_first (r ∷ rs) = record r { tag = (r.tag + 1) % 2 ^ 16 } ∷ rs

abbrev pub tampered : CxlReplayArtifact → CxlReplayArtifact
tampered a = record a { records = tamper_first a.records }

-- The variables of the loop over the repeats.
pub record Repeats : Type 0 where
  pub equivalent : Bool
  pub mismatch_detected : Bool
  pub first : Option CxlReplayArtifact

abbrev pub or_this : Option CxlReplayArtifact → CxlReplayArtifact → Option CxlReplayArtifact
or_this none a = some a
or_this (some b) a = some b

-- What a repeat finds.
unfoldable pub compare_runs : CxlReplayArtifact → CxlReplayArtifact → Repeats → Repeats
compare_runs left right s = record {
  equivalent = s.equivalent && is_equivalent (validate_equivalent left right);
  mismatch_detected =
      s.mismatch_detected && not (is_equivalent (validate_equivalent left (tampered right)));
  first = or_this s.first left;
}

module _ (dev : Device) (size : CxlReplayRecord → Option ℕ) where
  abbrev pub recorded_run :
      GemmJob → CxlRecordMode → Result HostError (GemmResult × CxlReplayArtifact)
  recorded_run job mode = (run_gemm_recorded dev size (new_host dev) job (gemm_policy mode)).0

  unfoldable pub repeat_runs : ℕ → GemmJob → CxlRecordMode → Repeats → Result HostError Repeats
  repeat_runs zero job mode s = ok s
  repeat_runs (suc n) job mode s = do
    (_, left) ← recorded_run job mode
    (_, right) ← recorded_run job mode
    repeat_runs n job mode (compare_runs left right s)

  -- The end of `measure_mode`; its two `expect`s hold, as there is a repeat at least.
  abbrev pub measurement : String → Repeats → CxlReplayArtifact → ReplayModeMeasurement
  measurement name s a =
      let (labels, uncovered) = count_labels a.records ([], 0) in
      record {
        mode = name;
        record_count = a.summary.record_count;
        epoch_count = a.summary.epoch_count;
        application_flit_bytes = a.summary.application_flit_bytes;
        replay_record_bytes = a.summary.replay_record_bytes;
        payload_capture_bytes = a.summary.payload_capture_bytes;
        payload_record_counts = record {
          hash = a.summary.hash_payload_records;
          delta = a.summary.delta_payload_records;
          full = a.summary.full_payload_records;
        };
        equivalent = s.equivalent;
        mismatch_detected = s.mismatch_detected;
        provenance_labels = labels;
        uncovered_records = uncovered;
      }

  -- `none` is the panic of an `expect`.
  unfoldable pub measure_mode :
      GemmJob → ℕ → String → CxlRecordMode → Result HostError (Option ReplayModeMeasurement)
  measure_mode job repeats name mode = do
    s ←
        repeat_runs repeats job mode
          (record { equivalent = true; mismatch_detected = true; first = none })
    ok (elim s.first [ none ↦ none | some a ↦ some (measurement name s a) ])

  -- `repeats.max(1)`
  abbrev pub at_least_one : ℕ → ℕ
  at_least_one n = if ltb n 1 then 1 else n

  -- `measure_replay_metadata`: the three modes, in order.
  unfoldable pub measure_replay_metadata :
      GemmJob → ℕ → Result HostError (List (Option ReplayModeMeasurement))
  measure_replay_metadata job repeats = do
    v ← measure_mode job (at_least_one repeats) "validation" validation
    d ← measure_mode job (at_least_one repeats) "delta" delta
    f ← measure_mode job (at_least_one repeats) "full" full
    ok (v ∷ d ∷ f ∷ [])
