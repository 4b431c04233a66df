-- ===== src/Host/Replay/Recorder.antt =====
-- `CxlTraceRecorder`, `summarize` and `validate_equivalent` of replay.rs.
use slug_arch.Base.{
  ℕ, ◌+◌, ◌*◌, ◌-◌, Bool, true, false, ◌&&◌, Option, none, some, List, [], ◌∷◌, ◌++◌,
}
use slug_arch.Base.{◌==◌, ltb, if◌then◌else◌, length}
use slug_arch.Wire.Msg.{CxlMsg, tag, class}
use slug_arch.Wire.Codec.{flit_bytes}
use slug_arch.Host.Types.{GemmResult}
use slug_arch.Host.Replay.Hash.{result_commitment}
use slug_arch.Host.Replay.Capture.{
  PayloadCapture, nothing, hash64, changes, whole, from_payload, captured_bytes,
}
use slug_arch.Host.Replay.Records.{
  CxlDirection, host_to_device, device_to_host, CxlEndpoint, host, device, CxlRecordPolicy,
  CxlReplayRecord, CxlReplayRecord-discrete, classify, opcode_name, payload_bytes, address_of,
  gemm_epoch, provenance_label,
}

pub record CxlTraceRecorder : Type 0 where
  pub policy : CxlRecordPolicy
  pub records : List CxlReplayRecord
  pub last_response_tag : Option ℕ

-- `CxlTraceRecorder::new`
unfoldable pub new_recorder : CxlRecordPolicy → CxlTraceRecorder
new_recorder p = record { policy = p; records = []; last_response_tag = none }

-- `self.last_response_tag.into_iter().collect()`
abbrev pub option_list : Option ℕ → List ℕ
option_list none = []
option_list (some t) = t ∷ []

abbrev pub dependencies_of : CxlDirection → CxlTraceRecorder → CxlMsg → List ℕ
dependencies_of host_to_device r msg = option_list r.last_response_tag
dependencies_of device_to_host r msg = tag msg ∷ []

abbrev pub ends_of : CxlDirection → CxlRecordPolicy → CxlEndpoint × CxlEndpoint
ends_of host_to_device p = (host, device p.endpoint)
ends_of device_to_host p = (device p.endpoint, host)

abbrev pub response_tag : CxlDirection → Option ℕ → CxlMsg → Option ℕ
response_tag host_to_device last msg = last
response_tag device_to_host last msg = some (tag msg)

-- The record that the message gets.
unfoldable pub record_of : CxlTraceRecorder → ℕ → CxlDirection → CxlMsg → CxlReplayRecord
record_of r request_index dir msg = record {
  sequence = length r.records;
  source = (ends_of dir r.policy).0;
  destination = (ends_of dir r.policy).1;
  epoch = gemm_epoch request_index;
  direction = dir;
  transaction_class = classify msg;
  msg_class = class msg;
  opcode = opcode_name msg;
  tag = tag msg;
  address = address_of msg;
  dependencies = dependencies_of dir r msg;
  fence = request_index == 32;
  payload = from_payload r.policy.mode (payload_bytes msg);
  provenance = provenance_label request_index;
}

unfoldable pub record_gemm_msg : CxlTraceRecorder → ℕ → CxlDirection → CxlMsg → CxlTraceRecorder
record_gemm_msg r request_index dir msg = record {
  policy = r.policy;
  records = r.records ++ (record_of r request_index dir msg ∷ []);
  last_response_tag = response_tag dir r.last_response_tag msg;
}

pub record CxlReplaySummary : Type 0 where
  pub record_count : ℕ
  pub epoch_count : ℕ
  pub application_flit_bytes : ℕ
  pub replay_record_bytes : ℕ
  pub payload_capture_bytes : ℕ
  pub hash_payload_records : ℕ
  pub delta_payload_records : ℕ
  pub full_payload_records : ℕ

-- `records.iter().map(epoch).max()`
abbrev pub max_epoch : List CxlReplayRecord → Option ℕ
max_epoch [] = none
max_epoch (r ∷ rs) = elim (max_epoch rs) [
  | none ↦ some r.epoch
  | some m ↦ some (if ltb m r.epoch then r.epoch else m)
]

-- `map_or(0, |epoch| epoch + 1)`
abbrev pub epochs_of : Option ℕ → ℕ
epochs_of none = 0
epochs_of (some epoch) = epoch + 1

abbrev pub count_capture : PayloadCapture → CxlReplaySummary → CxlReplaySummary
count_capture nothing s = s
count_capture (hash64 _) s = record s { hash_payload_records = s.hash_payload_records + 1 }
count_capture (changes _ _) s = record s { delta_payload_records = s.delta_payload_records + 1 }
count_capture (whole _) s = record s { full_payload_records = s.full_payload_records + 1 }

-- The bincode crate's size of a record; `none` is its error, where the source takes 64.
module _ (serialized_size : CxlReplayRecord → Option ℕ) where
  abbrev pub size_or_flit : CxlReplayRecord → ℕ
  size_or_flit r = elim (serialized_size r) [ none ↦ flit_bytes | some n ↦ n ]

  -- One round of the loop of `summarize`.
  unfoldable pub count_record : CxlReplaySummary → CxlReplayRecord → CxlReplaySummary
  count_record s r =
      let s1 = record s {
        payload_capture_bytes = s.payload_capture_bytes + captured_bytes r.payload;
      } in
      let s2 = count_capture r.payload s1 in
      record s2 { replay_record_bytes = s2.replay_record_bytes + size_or_flit r }

  unfoldable pub count_records : CxlReplaySummary → List CxlReplayRecord → CxlReplaySummary
  unfolding count_record
  count_records s [] = s
  count_records s (r ∷ rs) = count_records (count_record s r) rs

  unfoldable pub summarize : List CxlReplayRecord → CxlReplaySummary
  unfolding count_records
  summarize records =
      count_records
        (record {
          record_count = length records;
          epoch_count = epochs_of (max_epoch records);
          application_flit_bytes = length records * flit_bytes;
          replay_record_bytes = 0;
          payload_capture_bytes = 0;
          hash_payload_records = 0;
          delta_payload_records = 0;
          full_payload_records = 0;
        })
        records

pub record CxlReplayArtifact : Type 0 where
  pub policy : CxlRecordPolicy
  pub records : List CxlReplayRecord
  pub final_result_commitment : ℕ
  pub summary : CxlReplaySummary

unfoldable pub finish :
    (CxlReplayRecord → Option ℕ) → CxlTraceRecorder → GemmResult → CxlReplayArtifact
finish serialized_size r result = record {
  policy = r.policy;
  records = r.records;
  final_result_commitment = result_commitment result;
  summary = summarize serialized_size r.records;
}

pub record CxlReplayValidation : Type 0 where
  pub records_compared : ℕ
  pub record_count_matches : Bool
  pub record_mismatches : ℕ
  pub final_commitment_matches : Bool

-- The `filter(left != right).count()` of the zipped records, over a test of equality.
abbrev pub mismatches {ℓ} : {A : Type ℓ} → (A → A → Bool) → List A → List A → ℕ
mismatches same [] ys = 0
mismatches same (x ∷ xs) [] = 0
mismatches same (x ∷ xs) (y ∷ ys) =
    let rest = mismatches same xs ys in if same x y then rest else rest + 1

-- `abs_diff`
abbrev pub abs_diff : ℕ → ℕ → ℕ
abs_diff a b = if ltb a b then b - a else a - b

-- The derived `==` of `CxlReplayRecord`.
unfoldable pub same_record : CxlReplayRecord → CxlReplayRecord → Bool
same_record a b = elim (CxlReplayRecord-discrete a b) [ yes _ ↦ true | no _ ↦ false ]

unfoldable pub validate_equivalent : CxlReplayArtifact → CxlReplayArtifact → CxlReplayValidation
validate_equivalent a b = record {
  records_compared =
      if ltb (length a.records) (length b.records) then length a.records else length b.records;
  record_count_matches = length a.records == length b.records;
  record_mismatches =
      mismatches same_record a.records b.records + abs_diff (length a.records) (length b.records);
  final_commitment_matches = a.final_result_commitment == b.final_result_commitment;
}

unfoldable pub is_equivalent : CxlReplayValidation → Bool
is_equivalent v = v.record_count_matches && v.record_mismatches == 0 && v.final_commitment_matches
