-- ===== src/Host/Failures.antt =====
-- `run_gemm` of host.rs over any device at all: when it succeeds, and over a device that is silent.
use slug_arch.Base.{ℕ, ◌%◌, ◌^◌, ◌-◌, ==_iff, ◌⊎◌, zero, suc, ◌+◌, ◌≡◌, refl, sym, ap, ◌∙◌, arith}
use slug_arch.Base.{
  Bool-cases, Option-cases, inl, inr, ◌==◌, none, List, [], ◌∷◌, length, Result, ok, err,
}
use slug_arch.Wire.Msg.{CxlMsg, S2mNdrOp, tag}
use slug_arch.Host.Types.{GemmJob, GemmResult, HostError}
use slug_arch.Wire.Codec.{WireError, encode, decode}
use slug_arch.Host.Replay.Records.{host_to_device, device_to_host}
use slug_arch.Host.Readback.{decode_results}
use slug_arch.Host.Dispatch.{build_gemm_dispatch_stream}
use slug_arch.Host.Run.{
  Device, Exec, Loop, CxlHost, await_flit, exchange, exchange_all, run_gemm, run_gemm_inner,
  check_tag, accept_response, conclude, continue, start_loop, lift_wire, ◌>>◌, record_opt,
  flit_timeout_ticks,
}

Result-cases : {E A : Type 0} (r : Result E A) → ((a : A) × (r ≡ ok a)) ⊎ ((e : E) × (r ≡ err e))
Result-cases (ok a) = inl (a, refl)
Result-cases (err e) = inr (e, refl)

-- A step that succeeds after a computed result.
continue-eq-ok :
    {S A B : Type 0} (r : Result HostError A) (f : A → Exec S B) (s : S) {b : B} {s' : S}
    → continue r f s ≡ (ok b, s')
    → (a : A) × (r ≡ ok a) × (f a s ≡ (ok b, s'))
continue-eq-ok (ok a) f s h = (a, refl, h)
continue-eq-ok (err e) f s h = cc (h)

lift_wire-eq-ok :
    {S A B : Type 0} (r : Result WireError A) (f : A → Exec S B) (s : S) {b : B} {s' : S}
    → continue ((lift_wire r s).0) f ((lift_wire r s).1) ≡ (ok b, s')
    → (a : A) × (r ≡ ok a) × (f a s ≡ (ok b, s'))
lift_wire-eq-ok (ok a) f s h = (a, refl, h)
lift_wire-eq-ok (err e) f s h = cc (h)

-- The counters of the loop.
abbrev SameCounts : {S : Type 0} → Loop S → Loop S → Type 0
SameCounts s t = (t.flits_sent ≡ s.flits_sent) × (t.flits_received ≡ s.flits_received)

check_tag-SameCounts :
    {S : Type 0} (m resp : CxlMsg) (s : Loop S) → SameCounts s ((check_tag m resp s).1)
unfolding check_tag
check_tag-SameCounts m resp s = elim (Bool-cases (tag resp == tag m)) [
  | inl e ↦ rw e (refl, refl)
  | inr e ↦ rw e (refl, refl)
]

accept_response-SameCounts :
    {S : Type 0} (i : ℕ) (m : CxlMsg) (s : Loop S) → SameCounts s ((accept_response i m s).1)
unfolding accept_response
accept_response-SameCounts i (CxlMsg.m2s_req t o a) s = (refl, refl)
accept_response-SameCounts i (CxlMsg.m2s_rwd t o a d) s = (refl, refl)
accept_response-SameCounts i (CxlMsg.s2m_drs t o d) s = (refl, refl)
accept_response-SameCounts i (CxlMsg.s2m_ndr t S2mNdrOp.cmp) s = (refl, refl)
accept_response-SameCounts i (CxlMsg.s2m_ndr t S2mNdrOp.cmp_s) s = (refl, refl)
accept_response-SameCounts i (CxlMsg.s2m_ndr t S2mNdrOp.cmp_e) s = (refl, refl)
accept_response-SameCounts i (CxlMsg.s2m_ndr t S2mNdrOp.cmp_i) s = (refl, refl)
accept_response-SameCounts i (CxlMsg.s2m_ndr t S2mNdrOp.mem_pass_dirty) s = (refl, refl)
accept_response-SameCounts i (CxlMsg.s2m_ndr t S2mNdrOp.dispatch_failed) s = (refl, refl)
accept_response-SameCounts i (CxlMsg.d2h_req t o a) s = (refl, refl)
accept_response-SameCounts i (CxlMsg.d2h_resp t o d) s = (refl, refl)
accept_response-SameCounts i (CxlMsg.h2d_req t o a) s = (refl, refl)
accept_response-SameCounts i (CxlMsg.h2d_resp t o) s = (refl, refl)

module _ (dev : Device) where
  await_flit-SameCounts :
      (left waited : ℕ) (s : Loop dev.State) → SameCounts s ((await_flit dev left waited s).1)
  unfolding await_flit
  await_flit-SameCounts zero waited s =
      elim (Option-cases ((dev.try_recv_flit ((dev.tick s.ip).1)).0)) [
        | inl e ↦ rw e (refl, refl)
        | inr (f, e) ↦ rw e (refl, refl)
      ]
  await_flit-SameCounts (suc left) waited s =
      elim (Option-cases ((dev.try_recv_flit ((dev.tick s.ip).1)).0)) [
        | inl e ↦ rw e (
            await_flit-SameCounts left (waited + 1) (record s {
              ip = (dev.try_recv_flit ((dev.tick s.ip).1)).1;
              last_cycles = (dev.tick s.ip).0;
            }))
        | inr (f, e) ↦ rw e (refl, refl)
      ]

  -- What a message that goes well adds to the counters.
  exchange-ok :
      (i : ℕ) (m : CxlMsg) (s s' : Loop dev.State)
      → exchange dev i m s ≡ (ok tt, s')
      → (s'.flits_sent ≡ s.flits_sent + 1) × (s'.flits_received ≡ s.flits_received + 1)
  unfolding exchange
  exchange-ok i m s s' h =
      let State' : Type 0 = Loop dev.State in
      let sent : State' = record s {
        recorder = record_opt s.recorder i host_to_device m;
        ip = dev.send_flit (encode m) s.ip;
        flits_sent = s.flits_sent + 1;
      } in
      let got : Result HostError (List ℕ) × State' = await_flit dev flit_timeout_ticks 0 sent in
      let counted : CxlMsg → State' = λ msg. record got.1 {
        recorder = record_opt got.1.recorder i device_to_host msg;
        flits_received = got.1.flits_received + 1;
      } in
      let finishing : CxlMsg → Exec State' (Unit {0}) =
        λ msg. (check_tag m msg >> accept_response i msg) in
      let (flit, e1, h1) =
        continue-eq-ok got.0
          (λ resp t.
            continue ((lift_wire (decode resp) t).0)
              (λ msg u. finishing msg (record u {
                recorder = record_opt u.recorder i device_to_host msg;
                flits_received = u.flits_received + 1;
              }))
              ((lift_wire (decode resp) t).1))
          got.1 h in
      let (msg, e2, h2) =
        lift_wire-eq-ok (decode flit)
          (λ msg u. finishing msg (record u {
            recorder = record_opt u.recorder i device_to_host msg;
            flits_received = u.flits_received + 1;
          }))
          got.1 h1 in
      let checked : Result HostError (Unit {0}) × State' = check_tag m msg (counted msg) in
      let (u, e3, h3) = continue-eq-ok checked.0 (λ _. accept_response i msg) checked.1 h2 in
      let awaited = await_flit-SameCounts flit_timeout_ticks 0 sent in
      let same = check_tag-SameCounts m msg (counted msg) in
      let accepted = accept_response-SameCounts i msg checked.1 in
      let end : (accept_response i msg checked.1).1 ≡ s' = ap (λ p. p.1) h3 in
      (
        sym (ap (λ t. t.flits_sent) end) ∙ (accepted.0 ∙ (same.0 ∙ awaited.0)),
        sym (ap (λ t. t.flits_received) end) ∙ (accepted.1 ∙ (same.1 ∙ ap (λ n. n + 1) awaited.1)),
      )

  exchange_all-ok :
      (i : ℕ) (ms : List CxlMsg) (s s' : Loop dev.State)
      → exchange_all dev i ms s ≡ (ok tt, s')
      → (s'.flits_sent ≡ s.flits_sent + length ms)
        × (s'.flits_received ≡ s.flits_received + length ms)
  unfolding exchange_all
  exchange_all-ok i [] s s' h =
      let e : s ≡ s' = ap (λ p. p.1) h in
      (
        sym (ap (λ t. t.flits_sent) e) ∙ omega arith,
        sym (ap (λ t. t.flits_received) e) ∙ omega arith,
      )
  exchange_all-ok i (m ∷ ms) s s' h =
      let first : Result HostError (Unit {0}) × Loop dev.State = exchange dev i m s in
      let (u, e, rest) = continue-eq-ok first.0 (λ _. exchange_all dev (i + 1) ms) first.1 h in
      let a = exchange-ok i m s first.1 (λ j. (e j, first.1)) in
      let b = exchange_all-ok (i + 1) ms first.1 s' rest in
      (omega (arith, a, b), omega (arith, a, b))

  conclude-ok :
      (start : ℕ) (s s' : Loop dev.State) (result : GemmResult)
      → conclude dev start s ≡ (ok result, s')
      → (result.flits_sent ≡ s.flits_sent)
        × (result.flits_received ≡ s.flits_received)
        × (length s.read_responses ≡ 16)
  unfolding conclude
  conclude-ok start s s' result h =
      let outcome : List (List ℕ) → GemmResult = λ c. record {
        c = c;
        cycles = s.last_cycles - start;
        flits_sent = s.flits_sent;
        flits_received = s.flits_received;
      } in
      elim (Bool-cases (length s.read_responses == 16)) [
        | inl e ↦ elim (Result-cases (decode_results s.read_responses)) [
          | inl (c, d) ↦
              let h' : (ok (outcome c), s) ≡ (ok result, s') = rw (e, d) at h in
              let same : outcome c ≡ result = cc (h') in
              (
                sym (ap (λ r. r.flits_sent) same),
                sym (ap (λ r. r.flits_received) same),
                (==_iff (length s.read_responses) 16).0 e,
              )
          | inr (w, d) ↦ let h' = rw (e, d) at h in cc (h')
        ]
        | inr e ↦ let h' = rw e at h in cc (h')
      ]

  -- Over any device: a job that succeeds has sent 49 flits and received 49.
  pub run_gemm-ok :
      (host host' : CxlHost dev.State) (job : GemmJob) (result : GemmResult)
      → run_gemm dev host job ≡ (ok result, host')
      → (result.flits_sent ≡ 49)
        × (result.flits_received ≡ 49)
        × (host'.next_tag ≡ (host.next_tag + 49) % 2 ^ 16)
  unfolding run_gemm run_gemm_inner start_loop
  run_gemm-ok host host' job result h =
      let stream : List CxlMsg = build_gemm_dispatch_stream job host.next_tag in
      let start : ℕ = (start_loop dev host none).0 in
      let s0 : Loop dev.State = (start_loop dev host none).1 in
      let looped : Result HostError (Unit {0}) × Loop dev.State = exchange_all dev 0 stream s0 in
      let ran = (exchange_all dev 0 stream >> conclude dev start) s0 in
      let ended : ran ≡ (ok result, ran.1) = λ j. (ap (λ p. p.0) h j, ran.1) in
      let (u, e, last) = continue-eq-ok looped.0 (λ _. conclude dev start) looped.1 ended in
      let counts = exchange_all-ok 0 stream s0 looped.1 (λ j. (e j, looped.1)) in
      let counted : length stream ≡ 49 = unfold build_gemm_dispatch_stream in refl in
      let from_zero : 0 + length stream ≡ 49 = omega (arith, counted) in
      let read = conclude-ok start looped.1 ran.1 result last in
      (
        read.0 ∙ (counts.0 ∙ from_zero),
        read.1 ∙ (counts.1 ∙ from_zero),
        sym (ap (λ p. p.1.next_tag) h),
      )
