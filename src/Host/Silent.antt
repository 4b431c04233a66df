-- ===== src/Host/Silent.antt =====
-- `run_gemm` of host.rs over a device that never answers.
use slug_arch.Base.{ℕ, zero, suc, ◌+◌, ◌%◌, ◌^◌, ◌≡◌, refl, ap, ◌∙◌, arith}
use slug_arch.Base.{none, err}
use slug_arch.Wire.Msg.{CxlMsg}
use slug_arch.Wire.Codec.{encode}
use slug_arch.Host.Types.{GemmJob, flit_timeout}
use slug_arch.Host.Dispatch.{build_gemm_dispatch_stream}
use slug_arch.Host.Replay.Records.{host_to_device}
use slug_arch.Host.Run.{
  Device, Loop, CxlHost, await_flit, exchange, exchange_all, run_gemm, run_gemm_inner, start_loop,
  record_opt, flit_timeout_ticks,
}

-- The device has no flit, whatever it is sent.
abbrev pub IsSilent : Device → Type 0
IsSilent dev = (s : dev.State) → (dev.try_recv_flit s).0 ≡ none

module _ (dev : Device) (silent : IsSilent dev) where
  await_flit-IsSilent :
      (left waited : ℕ) (s : Loop dev.State)
      → (await_flit dev left waited s).0 ≡ err (flit_timeout (waited + left + 1))
  unfolding await_flit
  await_flit-IsSilent zero waited s =
      rw (silent ((dev.tick s.ip).1)) (ap (λ n. err (flit_timeout (n + 1))) (omega arith))
  await_flit-IsSilent (suc left) waited s =
      rw (silent ((dev.tick s.ip).1)) (
        await_flit-IsSilent left (waited + 1) _
        ∙ ap (λ n. err (flit_timeout (n + 1))) (omega arith))

  exchange-IsSilent :
      (i : ℕ) (m : CxlMsg) (s : Loop dev.State) → (exchange dev i m s).0 ≡ err (flit_timeout 65)
  unfolding exchange
  exchange-IsSilent i m s =
      let sent : Loop dev.State = record s {
        recorder = record_opt s.recorder i host_to_device m;
        ip = dev.send_flit (encode m) s.ip;
        flits_sent = s.flits_sent + 1;
      } in
      rw (await_flit-IsSilent flit_timeout_ticks 0 sent) refl

  -- Over a device that never has a flit, a job ends: it fails with the timeout of 65 ticks, and the
  -- host's tag moves on all the same.
  pub run_gemm-IsSilent :
      (host : CxlHost dev.State) (job : GemmJob)
      → ((run_gemm dev host job).0 ≡ err (flit_timeout 65))
        × ((run_gemm dev host job).1.next_tag ≡ (host.next_tag + 49) % 2 ^ 16)
  unfolding run_gemm run_gemm_inner start_loop exchange_all build_gemm_dispatch_stream
  run_gemm-IsSilent host job = (rw (exchange-IsSilent 0 _ _) refl, refl)
