-- ===== src/Host/Replay/Tests.antt =====
-- Runs of the recorder, and its theorems at concrete inputs.
use slug_arch.Base.{ℕ, ◌≡◌, ◌↔◌, refl, arith, true, some, List, [], ◌∷◌, length, replicate}
use slug_arch.Wire.Msg.{CxlMsg, S2mDrsOp, M2sReqOp}
use slug_arch.Host.Replay.Capture.{delta, from_payload, changed_from, changes}
use slug_arch.Host.Replay.Hash.{stable_hash64}
use slug_arch.Host.Replay.Records.{host_to_device, device_to_host, gemm_policy}
use slug_arch.Host.Replay.Recorder.{
  CxlTraceRecorder, CxlReplayArtifact, new_recorder, record_gemm_msg, validate_equivalent,
  is_equivalent,
}
use slug_arch.Host.Replay.Restore.{restored, from_payload-restored}
use slug_arch.Host.Replay.Validate.{is_equivalent_iff}
use slug_arch.Host.Replay.Trace.{IsTrace, new_recorder-IsTrace, record_gemm_msg-IsTrace}

abbrev payload : List ℕ
payload = 0 ∷ 7 ∷ 0 ∷ 0 ∷ 255 ∷ replicate 27 0

delta_of_payload :
    from_payload delta (some payload)
    ≡ changes (stable_hash64 (replicate 32 0)) ((1, 7) ∷ (4, 255) ∷ [])
unfolding from_payload changed_from
delta_of_payload = refl

from_payload-restored_example :
    restored (length payload) (from_payload delta (some payload)) ≡ payload
from_payload-restored_example = from_payload-restored delta payload (λ e. cc (e)) (omega arith)

abbrev response : CxlMsg
response = CxlMsg.s2m_drs 33 S2mDrsOp.mem_data payload

abbrev request : CxlMsg
request = CxlMsg.m2s_req 33 M2sReqOp.mem_rd 0x2000

abbrev asked : CxlTraceRecorder
asked = record_gemm_msg (new_recorder (gemm_policy delta)) 33 host_to_device request

record_gemm_msg-IsTrace_example : IsTrace (record_gemm_msg asked 33 device_to_host response)
record_gemm_msg-IsTrace_example = record_gemm_msg-IsTrace asked 33 device_to_host response (
    record_gemm_msg-IsTrace (new_recorder (gemm_policy delta)) 33 host_to_device request
      (new_recorder-IsTrace (gemm_policy delta)))

abbrev artifact : ℕ → CxlReplayArtifact
artifact commitment = record {
  policy = gemm_policy delta;
  records = asked.records;
  final_result_commitment = commitment;
  summary = record {
    record_count = 1;
    epoch_count = 4;
    application_flit_bytes = 64;
    replay_record_bytes = 64;
    payload_capture_bytes = 0;
    hash_payload_records = 0;
    delta_payload_records = 0;
    full_payload_records = 0;
  };
}

is_equivalent_iff_example :
    (is_equivalent (validate_equivalent (artifact 5) (artifact 6)) ≡ true) ↔ (
      ((artifact 5).records ≡ (artifact 6).records)
      × ((artifact 5).final_result_commitment ≡ (artifact 6).final_result_commitment))
is_equivalent_iff_example = is_equivalent_iff (artifact 5) (artifact 6)
