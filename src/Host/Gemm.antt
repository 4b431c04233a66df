-- ===== src/Host/Gemm.antt =====
-- `run_gemm` of host.rs over an endpoint that serves the array.
use slug_arch.Base.{ℕ, ◌+◌, ◌-◌, ◌%◌, ◌^◌, ◌≡◌, refl, ap, ◌∙◌, arith}
use slug_arch.Base.{Option, none, List, length, ok}
use slug_arch.Wire.Msg.{CxlMsg, IsU16}
use slug_arch.Host.Types.{GemmJob, GemmResult, IsJob}
use slug_arch.Host.Dispatch.{build_gemm_dispatch_stream}
use slug_arch.Host.Readback.{decode_results}
use slug_arch.Host.Endpoint.{Array, Serves}
use slug_arch.Host.Exchange.{serve, record_all, exchange_all-Served}
use slug_arch.Host.Schedule.{drs_list, tag_after}
use slug_arch.Host.Product.{product, IsClean}
use slug_arch.Host.Plan.{product_list, decode_results-product, planned}
use slug_arch.Host.Replay.Recorder.{CxlTraceRecorder}
use slug_arch.Host.Run.{
  Device, CxlHost, Loop, conclude, start_loop, run_gemm_inner, run_gemm, new_host,
}

-- The tag after a job of 49 messages.
abbrev pub tag_after_job : ℕ → ℕ
tag_after_job tag = (tag + 49) % 2 ^ 16

module _ (dev : Device) (serves : Serves dev) where
  -- The endpoint is idle on an array whose A is clear beyond the corner, and the tag is a `u16`.
  pub record IsReady (host : CxlHost dev.State) : Type 0 where
    pub arr : Array
    pub holds : serves.Holds arr host.ip
    pub clean : IsClean arr
    pub in_range : IsU16 host.next_tag

  conclude-product :
      (start tag : ℕ) (job : GemmJob) (s : Loop dev.State)
      → IsJob job
      → s.read_responses ≡ drs_list (product_list job.a job.b) tag
      → conclude dev start s ≡ (
        ok (record {
          c = product job.a job.b;
          cycles = s.last_cycles - start;
          flits_sent = s.flits_sent;
          flits_received = s.flits_received;
        }),
        s,
      )
  unfolding conclude
  conclude-product start tag job s v e =
      let sixteen : length s.read_responses ≡ 16 = ap length e ∙ (unfold drs_list in refl) in
      let decoded : decode_results s.read_responses ≡ ok (product job.a job.b) =
        ap decode_results e ∙ decode_results-product job.a job.b tag v.0 v.1 in
      rw (sixteen, decoded)

  -- A job, with or without a recorder.
  pub record Ran (arr : Array) (host : CxlHost dev.State) (job : GemmJob)
      (recorder : Option CxlTraceRecorder) (result : GemmResult) (host' : CxlHost dev.State)
      : Type 0 where
    pub ran : run_gemm_inner dev host job recorder ≡ (
      ok result,
      host',
      record_all arr recorder 0 (build_gemm_dispatch_stream job host.next_tag),
    )
    pub c_is_product : result.c ≡ product job.a job.b
    pub sent : result.flits_sent ≡ 49
    pub received : result.flits_received ≡ 49
    pub tag_moves : host'.next_tag ≡ tag_after_job host.next_tag

  pub run_gemm_inner-Ran :
      (host : CxlHost dev.State) (job : GemmJob) (recorder : Option CxlTraceRecorder)
      (ready : IsReady host)
      → IsJob job
      → (result : GemmResult) × (host' : CxlHost dev.State) × Ran ready.arr host job recorder result
          host'
        × IsReady host'
  unfolding run_gemm_inner
  run_gemm_inner-Ran host job recorder ready v =
      let s0 : Loop dev.State = (start_loop dev host recorder).1 in
      let start : ℕ = (start_loop dev host recorder).0 in
      let stream : List CxlMsg = build_gemm_dispatch_stream job host.next_tag in
      let plan = planned ready.arr job host.next_tag ready.clean v ready.in_range in
      let (s, looped, holds, served) =
        exchange_all-Served dev serves ready.arr 0 stream s0
          (serves.idles ready.arr host.ip ready.holds) plan.claimed in
      let done =
        conclude-product start (tag_after 33 host.next_tag) job s v
          (served.reads ∙ plan.reads_back) in
      let result : GemmResult = record {
        c = product job.a job.b;
        cycles = s.last_cycles - start;
        flits_sent = s.flits_sent;
        flits_received = s.flits_received;
      } in
      let host' : CxlHost dev.State = record {
        ip = s.ip;
        next_tag = tag_after_job host.next_tag;
      } in
      (
        result,
        host',
        record {
          ran = rw looped (rw done (λ i. (ok result, host', served.recorded i)));
          c_is_product = refl;
          sent = omega (arith, served.sent, plan.count);
          received = omega (arith, served.received, plan.count);
          tag_moves = refl;
        },
        record {
          arr = serve ready.arr stream;
          holds = holds;
          clean = plan.clean;
          in_range = omega arith;
        },
      )

  -- From a ready host over an endpoint that serves the array, `run_gemm` succeeds on every job of
  -- two 4 by 4 byte matrices: the result is their product, with 49 flits sent and 49 received, the
  -- tag moves on by 49 modulo 2^16, and the host is ready for the next job.
  pub run_gemm-product :
      (host : CxlHost dev.State) (job : GemmJob)
      → IsReady host
      → IsJob job
      → (result : GemmResult) × (host' : CxlHost dev.State) × (run_gemm dev host job
          ≡ (ok result, host'))
        × (result.c ≡ product job.a job.b)
        × (result.flits_sent ≡ 49)
        × (result.flits_received ≡ 49)
        × (host'.next_tag ≡ tag_after_job host.next_tag)
        × IsReady host'
  unfolding run_gemm
  run_gemm-product host job ready v =
      let (result, host', x, ready') = run_gemm_inner-Ran host job none ready v in
      (result, host', rw x.ran, x.c_is_product, x.sent, x.received, x.tag_moves, ready')

  -- A host that is fresh from `CxlHost::new` is ready.
  pub new_host-IsReady : IsReady (new_host dev)
  unfolding new_host
  new_host-IsReady = record {
    arr = record { a = λ i. 0; b = λ i. 0; c = λ i. 0 };
    holds = serves.starts;
    clean = λ row k hr lo hi. refl;
    in_range = omega arith;
  }
