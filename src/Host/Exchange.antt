-- ===== src/Host/Exchange.antt =====
-- The host's loop over an endpoint that serves the array.
use slug_arch.Base.{ℕ, zero, suc, ◌+◌, ◌≤◌, ◌≡◌, refl, sym, arith}
use slug_arch.Base.{true, Option, List, [], ◌∷◌, ◌++◌, append-nil, append_assoc}
use slug_arch.Base.{ok, length, All}
use slug_arch.Wire.Msg.{CxlMsg, tag, IsMsg, IsU16}
use slug_arch.Wire.Codec.{encode}
use slug_arch.Wire.RoundTrip.{as_received, decode-encode}
use slug_arch.Host.Replay.Records.{host_to_device, device_to_host}
use slug_arch.Host.Replay.Recorder.{CxlTraceRecorder}
use slug_arch.Host.Run.{
  Device, Loop, record_opt, await_flit, exchange, exchange_all, check_tag, accept_response,
  flit_timeout_ticks,
}
use slug_arch.Host.Endpoint.{Array, Delivers, Serves, next, answer, answer_claimed, claims}

-- The tag of every message is a `u16`.
tag-IsU16 : (m : CxlMsg) → IsMsg m → IsU16 (tag m)
unfolding tag
tag-IsU16 (CxlMsg.m2s_req t o a) v = v.0
tag-IsU16 (CxlMsg.m2s_rwd t o a d) v = v.0
tag-IsU16 (CxlMsg.s2m_drs t o d) v = v.0
tag-IsU16 (CxlMsg.s2m_ndr t o) v = v.0
tag-IsU16 (CxlMsg.d2h_req t o a) v = v.0
tag-IsU16 (CxlMsg.d2h_resp t o d) v = v.0
tag-IsU16 (CxlMsg.h2d_req t o a) v = v.0
tag-IsU16 (CxlMsg.h2d_resp t o) v = v.0

-- The answer to a claimed request, and what the host reads of it.
pub record Answered (m resp : CxlMsg) : Type 0 where
  pub valid : IsMsg resp
  pub same_tag : tag resp ≡ tag m
  pub unchanged : as_received resp ≡ resp

pub answer_claimed-Answered :
    (arr : Array) (m : CxlMsg) → IsMsg m → Answered m (answer_claimed arr m)
unfolding answer_claimed tag as_received
answer_claimed-Answered arr (CxlMsg.m2s_req t o a) v = record {
  valid = (v.0, (refl, omega arith));
  same_tag = refl;
  unchanged = refl;
}
answer_claimed-Answered arr m v = record {
  valid = (tag-IsU16 m v, tt);
  same_tag = refl;
  unchanged = refl;
}

-- The requests of the GEMM stream: claimed by the endpoint, with every field in range.
abbrev pub IsClaimed : CxlMsg → Type 0
IsClaimed m = IsMsg m × (claims m ≡ true)

-- The read responses among the answers, in order.
abbrev pub reads_of : CxlMsg → List CxlMsg
reads_of (CxlMsg.s2m_drs t o d) = CxlMsg.s2m_drs t o d ∷ []
reads_of _ = []

unfoldable pub serve : Array → List CxlMsg → Array
serve arr [] = arr
serve arr (m ∷ ms) = serve (next arr m) ms

unfoldable pub serve_reads : Array → List CxlMsg → List CxlMsg
serve_reads arr [] = []
serve_reads arr (m ∷ ms) = reads_of (answer_claimed arr m) ++ serve_reads (next arr m) ms

-- What the recorder is given: each request and its answer.
unfoldable pub record_all :
    Array → Option CxlTraceRecorder → ℕ → List CxlMsg → Option CxlTraceRecorder
record_all arr r i [] = r
record_all arr r i (m ∷ ms) =
    let r' = record_opt (record_opt r i host_to_device m) i device_to_host (answer_claimed arr m) in
    record_all (next arr m) r' (i + 1) ms

accept_claimed :
    {S : Type 0} (arr : Array) (i : ℕ) (m : CxlMsg) (s : Loop S)
    → accept_response i (answer_claimed arr m) s
      ≡ (ok tt, record s { read_responses = s.read_responses ++ reads_of (answer_claimed arr m) })
unfolding accept_response answer_claimed
accept_claimed arr i (CxlMsg.m2s_req t o a) s = refl
accept_claimed arr i m s = rw append-nil

check_tag_same :
    {S : Type 0} (m resp : CxlMsg) (s : Loop S) → tag resp ≡ tag m → check_tag m resp s ≡ (ok tt, s)
unfolding check_tag
check_tag_same m resp s e = ground (arith, e)

answer-claimed : (arr : Array) (m : CxlMsg) → claims m ≡ true → answer arr m ≡ answer_claimed arr m
unfolding answer
answer-claimed arr m h = rw h

module _ (dev : Device) where
  await_flit-Delivers :
      (k left waited : ℕ) (s : Loop dev.State) (f : List ℕ) (s' : dev.State)
      → k ≤ left
      → Delivers dev k s.ip f s'
      → (c : ℕ) × (await_flit dev left waited s ≡ (ok f, record s { ip = s'; last_cycles = c }))
  unfolding await_flit
  await_flit-Delivers zero zero waited s f s' h d = ((dev.tick s.ip).0, rw d)
  await_flit-Delivers zero (suc left) waited s f s' h d = ((dev.tick s.ip).0, rw d)
  await_flit-Delivers (suc k) zero waited s f s' h d = absurd (omega arith)
  await_flit-Delivers (suc k) (suc left) waited s f s' h (s1, e, d) =
      let polled : Loop dev.State = record s { ip = s1; last_cycles = (dev.tick s.ip).0 } in
      let (c, q) = await_flit-Delivers k left (waited + 1) polled f s' (omega arith) d in
      (c, rw e q)

  -- What one exchange does to the loop's variables.
  record Exchanged (arr : Array) (i : ℕ) (m : CxlMsg) (s s' : Loop dev.State) : Type 0 where
    pub sent : s'.flits_sent ≡ s.flits_sent + 1
    pub received : s'.flits_received ≡ s.flits_received + 1
    pub reads : s'.read_responses ≡ s.read_responses ++ reads_of (answer_claimed arr m)
    pub recorded :
        s'.recorder
        ≡ record_opt
            (record_opt s.recorder i host_to_device m)
            i
            device_to_host
            (answer_claimed arr m)

  module _ (serves : Serves dev) where
    exchange-Exchanged :
        (arr : Array) (i : ℕ) (m : CxlMsg) (s : Loop dev.State)
        → serves.Holds arr s.ip
        → IsClaimed m
        → (s' : Loop dev.State) × (exchange dev i m s ≡ (ok tt, s'))
          × serves.Holds (next arr m) s'.ip
          × Exchanged arr i m s s'
    unfolding exchange
    exchange-Exchanged arr i m s holds (v, claimed) =
        let resp = answer_claimed arr m in
        let ok_resp = answer_claimed-Answered arr m v in
        let s1 : Loop dev.State = record s {
          ip = dev.send_flit (encode m) s.ip;
          recorder = record_opt s.recorder i host_to_device m;
          flits_sent = s.flits_sent + 1;
        } in
        let (k, hk, ip', holds', delivered) = serves.answers arr s.ip m holds v in
        let (c, awaited) =
          await_flit-Delivers k flit_timeout_ticks 0 s1 (encode (answer arr m)) ip' hk delivered in
        let s2 : Loop dev.State = record s1 {
          ip = ip';
          last_cycles = c;
          recorder = record_opt s1.recorder i device_to_host resp;
          flits_received = s.flits_received + 1;
        } in
        (
          record s2 { read_responses = s.read_responses ++ reads_of resp },
          rw awaited (
              rw (answer-claimed arr m claimed) (
                rw (decode-encode resp ok_resp.valid, ok_resp.unchanged)
                  (rw (check_tag_same m resp s2 ok_resp.same_tag) (accept_claimed arr i m s2)))),
          holds',
          record { sent = refl; received = refl; reads = refl; recorded = refl },
        )

  -- What the whole loop does to its variables.
  pub record Served (arr : Array) (i : ℕ) (ms : List CxlMsg) (s s' : Loop dev.State) : Type 0 where
    pub sent : s'.flits_sent ≡ s.flits_sent + length ms
    pub received : s'.flits_received ≡ s.flits_received + length ms
    pub reads : s'.read_responses ≡ s.read_responses ++ serve_reads arr ms
    pub recorded : s'.recorder ≡ record_all arr s.recorder i ms

  module _ (serves : Serves dev) where
    -- Over an endpoint that serves the array, the loop over claimed requests never fails: it sends
    -- and receives one flit for each, collects the read responses of the array in order, records
    -- each request and its answer, and leaves the endpoint idle on the array after the requests.
    pub exchange_all-Served :
        (arr : Array) (i : ℕ) (ms : List CxlMsg) (s : Loop dev.State)
        → serves.Holds arr s.ip
        → All IsClaimed ms
        → (s' : Loop dev.State) × (exchange_all dev i ms s ≡ (ok tt, s'))
          × serves.Holds (serve arr ms) s'.ip
          × Served arr i ms s s'
    unfolding exchange_all serve serve_reads record_all
    exchange_all-Served arr i [] s holds v = (
      s,
      refl,
      holds,
      record {
        sent = omega arith;
        received = omega arith;
        reads = sym (append-nil s.read_responses);
        recorded = refl;
      },
    )
    exchange_all-Served arr i (m ∷ ms) s holds (v, vs) =
        let (s1, e1, h1, x) = exchange-Exchanged serves arr i m s holds v in
        let (s2, e2, h2, y) = exchange_all-Served (next arr m) (i + 1) ms s1 h1 vs in
        (
          s2,
          rw (e1, e2),
          h2,
          record {
            sent = omega (arith, x.sent, y.sent);
            received = omega (arith, x.received, y.received);
            reads =
                rw (y.reads, x.reads)
                  (append_assoc s.read_responses (reads_of (answer_claimed arr m))
                    (serve_reads (next arr m) ms));
            recorded = rw (y.recorded, x.recorded);
          },
        )
