-- ===== src/Host/Replay/Trace.antt =====
-- The records that the recorder of replay.rs makes are numbered, and depend on each other in order.
use slug_arch.Base.{ℕ, ◌+◌, ◌≡◌, refl, sym, ap, ◌∙◌, arith}
use slug_arch.Base.{Option, none, some, List, [], ◌∷◌, ◌++◌}
use slug_arch.Base.{length}
use slug_arch.Wire.Msg.{CxlMsg}
use slug_arch.Host.Replay.Records.{
  CxlDirection, host_to_device, device_to_host, CxlReplayRecord, CxlRecordPolicy,
}
use slug_arch.Host.Replay.Recorder.{
  CxlTraceRecorder, new_recorder, record_gemm_msg, record_of, option_list, dependencies_of,
  response_tag,
}

-- The records carry consecutive numbers.
abbrev pub Numbered : ℕ → List CxlReplayRecord → Type 0
Numbered n [] = Unit
Numbered n (r ∷ rs) = (r.sequence ≡ n) × Numbered (n + 1) rs

-- The tag of the last response, after a record.
abbrev pub last_after : Option ℕ → CxlReplayRecord → Option ℕ
last_after last r = elim r.direction [ host_to_device ↦ last | device_to_host ↦ some r.tag ]

abbrev pub last_response : Option ℕ → List CxlReplayRecord → Option ℕ
last_response last [] = last
last_response last (r ∷ rs) = last_response (last_after last r) rs

-- A request waits on the response before it, if there is one; a response waits on its own request.
abbrev pub waits_on : Option ℕ → CxlReplayRecord → List ℕ
waits_on last r = elim r.direction [
  | host_to_device ↦ option_list last
  | device_to_host ↦ r.tag ∷ []
]

abbrev pub Chained : Option ℕ → List CxlReplayRecord → Type 0
Chained last [] = Unit
Chained last (r ∷ rs) = (r.dependencies ≡ waits_on last r) × Chained (last_after last r) rs

pub record IsTrace (r : CxlTraceRecorder) : Type 0 where
  pub numbered : Numbered 0 r.records
  pub chained : Chained none r.records
  pub last : r.last_response_tag ≡ last_response none r.records

pub new_recorder-IsTrace : (p : CxlRecordPolicy) → IsTrace (new_recorder p)
unfolding new_recorder
new_recorder-IsTrace p = record { numbered = tt; chained = tt; last = refl }

Numbered-append :
    (n : ℕ) (rs : List CxlReplayRecord) (r : CxlReplayRecord)
    → Numbered n rs
    → r.sequence ≡ n + length rs
    → Numbered n (rs ++ (r ∷ []))
Numbered-append n [] r h e = (omega arith, tt)
Numbered-append n (x ∷ rs) r (hx, h) e = (hx, Numbered-append (n + 1) rs r h (omega arith))

last_response-append :
    (last : Option ℕ) (rs : List CxlReplayRecord) (r : CxlReplayRecord)
    → last_response last (rs ++ (r ∷ [])) ≡ last_after (last_response last rs) r
last_response-append last [] r = refl
last_response-append last (x ∷ rs) r = last_response-append (last_after last x) rs r

Chained-append :
    (last : Option ℕ) (rs : List CxlReplayRecord) (r : CxlReplayRecord)
    → Chained last rs
    → r.dependencies ≡ waits_on (last_response last rs) r
    → Chained last (rs ++ (r ∷ []))
Chained-append last [] r h e = (e, tt)
Chained-append last (x ∷ rs) r (hx, h) e = (hx, Chained-append (last_after last x) rs r h e)

dependencies_of-waits_on :
    (r : CxlTraceRecorder) (i : ℕ) (dir : CxlDirection) (msg : CxlMsg)
    → dependencies_of dir r msg ≡ waits_on r.last_response_tag (record_of r i dir msg)
unfolding record_of
dependencies_of-waits_on r i host_to_device msg = refl
dependencies_of-waits_on r i device_to_host msg = refl

response_tag-last_after :
    (r : CxlTraceRecorder) (i : ℕ) (dir : CxlDirection) (msg : CxlMsg)
    → response_tag dir r.last_response_tag msg
      ≡ last_after r.last_response_tag (record_of r i dir msg)
unfolding record_of
response_tag-last_after r i host_to_device msg = refl
response_tag-last_after r i device_to_host msg = refl

-- Recording a message keeps the records a trace: their numbers are consecutive from 0, a request
-- depends on the tag of the response before it if there is one, a response on the tag of its own
-- message, and the recorder knows the tag of the last response.
pub record_gemm_msg-IsTrace :
    (r : CxlTraceRecorder) (i : ℕ) (dir : CxlDirection) (msg : CxlMsg)
    → IsTrace r
    → IsTrace (record_gemm_msg r i dir msg)
unfolding record_gemm_msg record_of
record_gemm_msg-IsTrace r i dir msg t =
    let new : CxlReplayRecord = record_of r i dir msg in
    record {
      numbered = Numbered-append 0 r.records new t.numbered (omega arith);
      chained =
          Chained-append none r.records new t.chained
            (dependencies_of-waits_on r i dir msg ∙ ap (λ l. waits_on l new) t.last);
      last =
          response_tag-last_after r i dir msg
          ∙ (ap (λ l. last_after l new) t.last ∙ sym (last_response-append none r.records new));
    }
