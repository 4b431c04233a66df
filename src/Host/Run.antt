-- ===== src/Host/Run.antt =====
-- crates/slugarch-host/src/host.rs: `CxlHost` over the endpoint that `VerilatedIp` drives
-- (crates/slugarch-verilator/src/impls.rs). The endpoint's RTL is compiled by Verilator, and is the
-- parameter `Device`.
use slug_arch.Base.{ℕ, zero, suc, ◌+◌, ◌-◌, ◌%◌, ◌^◌, Option, none, some, List, [], ◌∷◌, ◌++◌}
use slug_arch.Base.{Result, ok, err, ◌==◌, if◌then◌else◌, length}
use slug_arch.Wire.Msg.{CxlMsg, S2mNdrOp, tag, class}
use slug_arch.Wire.Codec.{WireError, encode, decode}
use slug_arch.Host.Types.{
  GemmJob, GemmResult, HostError, dispatch_failed, unexpected_tag, wire_decode, flit_timeout,
  endpoint_rejected, unexpected_ndr, unexpected_class, expected_reads,
}
use slug_arch.Host.Dispatch.{build_gemm_dispatch_stream}
use slug_arch.Host.Readback.{decode_results}
use slug_arch.Host.Replay.Records.{
  CxlDirection, host_to_device, device_to_host, CxlRecordPolicy, CxlReplayRecord,
}
use slug_arch.Host.Replay.Recorder.{
  CxlTraceRecorder, new_recorder, record_gemm_msg, CxlReplayArtifact, finish,
}

-- The calls of `VerilatedIp` that the host makes: `tick` returns the cycle counter, and
-- `try_recv_flit` a flit if there is one. `fresh` is the endpoint after `new` and `reset`.
pub record Device : Type 1 where
  pub State : Type 0
  pub fresh : State
  pub tick : State → ℕ × State
  pub send_flit : List ℕ → State → State
  pub try_recv_flit : State → Option (List ℕ) × State

abbrev pub flit_timeout_ticks : ℕ
flit_timeout_ticks = 64

pub record CxlHost (S : Type 0) : Type 0 where
  pub ip : S
  pub next_tag : ℕ

-- The variables of `run_gemm_inner` that the loop over the stream changes.
pub record Loop (S : Type 0) : Type 0 where
  pub ip : S
  pub recorder : Option CxlTraceRecorder
  pub last_cycles : ℕ
  pub flits_sent : ℕ
  pub flits_received : ℕ
  pub read_responses : List CxlMsg

-- `if let Some(recorder) = recorder { recorder.record_gemm_msg(..) }`
abbrev pub record_opt :
    Option CxlTraceRecorder → ℕ → CxlDirection → CxlMsg → Option CxlTraceRecorder
record_opt none i dir msg = none
record_opt (some r) i dir msg = some (record_gemm_msg r i dir msg)

-- An action may fail, and what it changed before stays changed.
abbrev pub Exec : Type 0 → Type 0 → Type 0
Exec S A = S → Result HostError A × S

abbrev pub continue : {S A B : Type 0} → Result HostError A → (A → Exec S B) → Exec S B
continue (ok a) f s = f a s
continue (err e) f s = (err e, s)

infixl 5 ◌>>=◌ ◌>>◌
abbrev pub ◌>>=◌ : {S A B : Type 0} → Exec S A → (A → Exec S B) → Exec S B
◌>>=◌ m f s = let (r, s') = m s in continue r f s'

abbrev pub ◌>>◌ : {S B : Type 0} → Exec S (Unit {0}) → Exec S B → Exec S B
m >> k = m >>= λ _. k

abbrev pub raise : {S A : Type 0} → HostError → Exec S A
raise e s = (err e, s)

abbrev pub modify : {S : Type 0} → (S → S) → Exec S (Unit {0})
modify f s = (ok tt, f s)

-- `decode(&resp)?`
abbrev pub lift_wire : {S A : Type 0} → Result WireError A → Exec S A
lift_wire (ok a) s = (ok a, s)
lift_wire (err e) s = (err (wire_decode e), s)

-- The match on a response, by request `i`.
unfoldable pub accept_response : {S : Type 0} → ℕ → CxlMsg → Exec (Loop S) (Unit {0})
accept_response i (CxlMsg.s2m_ndr t S2mNdrOp.cmp) s = (ok tt, s)
accept_response i (CxlMsg.s2m_ndr t S2mNdrOp.dispatch_failed) s =
    (err (dispatch_failed t (endpoint_rejected i)), s)
accept_response i (CxlMsg.s2m_ndr t opcode) s = (err (dispatch_failed t (unexpected_ndr opcode)), s)
accept_response i (CxlMsg.s2m_drs t opcode d) s =
    (ok tt, record s { read_responses = s.read_responses ++ (CxlMsg.s2m_drs t opcode d ∷ []) })
accept_response i other s = (err (dispatch_failed (tag other) (unexpected_class (class other))), s)

-- `if resp_msg.tag() != expected_tag { return Err(..) }`
unfoldable pub check_tag : {S : Type 0} → CxlMsg → CxlMsg → Exec (Loop S) (Unit {0})
check_tag msg resp s =
    if tag resp == tag msg then (ok tt, s) else (err (unexpected_tag (tag resp) (tag msg ∷ [])), s)

module _ (dev : Device) where
  open dev use {State, fresh, tick, send_flit, try_recv_flit}

  -- One round of the receive loop: tick, then look for a flit.
  unfoldable pub poll : Exec (Loop State) (Option (List ℕ))
  poll s =
      let (cycles, ticked) = tick s.ip in
      let (flit, rest) = try_recv_flit ticked in
      (ok flit, record s { ip = rest; last_cycles = cycles })

  -- The receive loop, on the rounds left before `waited` passes the limit.
  unfoldable pub await_flit : ℕ → ℕ → Exec (Loop State) (List ℕ)
  unfolding poll
  await_flit zero waited s =
      let (r, s') = poll s in
      continue r (elim [ some f ↦ λ t. (ok f, t) | none ↦ raise (flit_timeout (waited + 1)) ]) s'
  await_flit (suc left) waited s =
      let (r, s') = poll s in
      let more = await_flit left (waited + 1) in
      continue r (elim [ some f ↦ λ t. (ok f, t) | none ↦ more ]) s'

  -- One message of the stream.
  unfoldable pub exchange : ℕ → CxlMsg → Exec (Loop State) (Unit {0})
  exchange i msg = do
    modify (λ s. record s { recorder = record_opt s.recorder i host_to_device msg })
    modify (λ s. record s { ip = send_flit (encode msg) s.ip; flits_sent = s.flits_sent + 1 })
    resp ← await_flit flit_timeout_ticks 0
    resp_msg ← lift_wire (decode resp)
    modify (λ s. record s { recorder = record_opt s.recorder i device_to_host resp_msg })
    modify (λ s. record s { flits_received = s.flits_received + 1 })
    check_tag msg resp_msg
    accept_response i resp_msg

  -- The loop over `stream.iter().enumerate()`.
  unfoldable pub exchange_all : ℕ → List CxlMsg → Exec (Loop State) (Unit {0})
  exchange_all i [] = λ s. (ok tt, s)
  exchange_all i (msg ∷ msgs) = let rest = exchange_all (i + 1) msgs in exchange i msg >> rest

  -- What follows the loop.
  unfoldable pub conclude : ℕ → Exec (Loop State) GemmResult
  conclude start_cycles s =
      if length s.read_responses == 16
      then elim (decode_results s.read_responses) [
        | ok c ↦ (
          ok (record {
            c = c;
            cycles = s.last_cycles - start_cycles;
            flits_sent = s.flits_sent;
            flits_received = s.flits_received;
          }),
          s,
        )
        | err e ↦ (err e, s)
      ]
      else (err (dispatch_failed 0 (expected_reads (length s.read_responses))), s)

  -- The start of the loop, after the first tick.
  unfoldable pub start_loop : CxlHost State → Option CxlTraceRecorder → ℕ × Loop State
  start_loop host recorder =
      let (start_cycles, ip) = tick host.ip in
      (
        start_cycles,
        record {
          ip = ip;
          recorder = recorder;
          last_cycles = start_cycles;
          flits_sent = 0;
          flits_received = 0;
          read_responses = [];
        },
      )

  unfoldable pub run_gemm_inner :
      CxlHost State
      → GemmJob
      → Option CxlTraceRecorder
      → Result HostError GemmResult × CxlHost State × Option CxlTraceRecorder
  unfolding start_loop
  run_gemm_inner host job recorder =
      let stream = build_gemm_dispatch_stream job host.next_tag in
      let (start_cycles, s0) = start_loop host recorder in
      let (r, s) = (exchange_all 0 stream >> conclude start_cycles) s0 in
      (r, record { ip = s.ip; next_tag = (host.next_tag + 49) % 2 ^ 16 }, s.recorder)

  -- `CxlHost::new`
  unfoldable pub new_host : CxlHost State
  new_host = record { ip = fresh; next_tag = 0 }

  unfoldable pub run_gemm : CxlHost State → GemmJob → Result HostError GemmResult × CxlHost State
  run_gemm host job = let (r, host', _) = run_gemm_inner host job none in (r, host')

  -- The local `recorder` after the call that borrowed it.
  abbrev pub recorder_or : CxlTraceRecorder → Option CxlTraceRecorder → CxlTraceRecorder
  recorder_or r none = r
  recorder_or r (some r') = r'

  abbrev pub recorded :
      (CxlReplayRecord → Option ℕ)
      → Result HostError GemmResult
      → CxlTraceRecorder
      → Result HostError (GemmResult × CxlReplayArtifact)
  recorded size (ok result) r = ok (result, finish size r result)
  recorded size (err e) r = err e

  unfoldable pub run_gemm_recorded :
      (CxlReplayRecord → Option ℕ)
      → CxlHost State
      → GemmJob
      → CxlRecordPolicy
      → Result HostError (GemmResult × CxlReplayArtifact) × CxlHost State
  run_gemm_recorded size host job policy =
      let (r, host', recorder) = run_gemm_inner host job (some (new_recorder policy)) in
      (recorded size r (recorder_or (new_recorder policy) recorder), host')
