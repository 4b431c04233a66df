-- ===== src/Verilator/Calls.antt =====
-- The callers of the binding in crates/slugarch-host/src/host.rs and crates/slugarch-fabric/src/engine.rs do
-- not make it panic.
use slug_arch.Base.{
  ℕ, ◌≡◌, ◌↔◌, ◌≢◌, refl, true, Option, none, some, List, [], ◌∷◌, Result, ok, err, ◌>>=◌,
}
use slug_arch.Ir.Types.{IpId, is_cpu_backed, slug_cxl4x4}
use slug_arch.Verilator.{
  Sys, VerilatedIp, Panic, is_on_cpu, WireCmd, unless_null, new_ip, reset_ip, tick_ip, poke_ip,
  take_done, send_to_ip, recv_from_ip,
}

pub data Call : Type 0 where
  reset tick take recv : Call
  poke : WireCmd → Call
  send : List ℕ → Call

module _ (sys : Sys) where
  unless_null-not_cpu :
      (id : IpId) (o : Option sys.SlugarchIp) → unless_null sys id o ≢ err is_on_cpu
  unless_null-not_cpu id none h = cc (h)
  unless_null-not_cpu id (some raw) h = cc (h)

  -- Only the IP that the fabric runs on the CPU has no constructor.
  pub new_ip-is_on_cpu_iff :
      (id : IpId) → (new_ip sys id ≡ err is_on_cpu) ↔ (is_cpu_backed id ≡ true)
  unfolding new_ip is_cpu_backed
  new_ip-is_on_cpu_iff IpId.ptx_emulation_core = (λ h. refl, λ h. refl)
  new_ip-is_on_cpu_iff id = (λ h. absurd (unless_null-not_cpu _ _ h), λ h. (cc (h)))

  -- A call, without what it returns.
  abbrev pub perform : Call → VerilatedIp sys → Result Panic (VerilatedIp sys)
  perform reset ip = ok (reset_ip sys ip)
  perform tick ip = ok ((tick_ip sys ip).1)
  perform take ip = ok ((take_done sys ip).1)
  perform recv ip = ok ((recv_from_ip sys ip).1)
  perform (poke cmd) ip = ok (poke_ip sys ip cmd)
  perform (send flit) ip = send_to_ip sys ip flit

  abbrev pub perform_all : List Call → VerilatedIp sys → Result Panic (VerilatedIp sys)
  perform_all [] ip = ok ip
  perform_all (c ∷ cs) ip = perform c ip >>= λ ip'. perform_all cs ip'

  perform-ok :
      (c : Call) (ip : VerilatedIp sys)
      → ip.ip_id ≡ slug_cxl4x4
      → (ip' : VerilatedIp sys) × (perform c ip ≡ ok ip') × (ip'.ip_id ≡ slug_cxl4x4)
  unfolding reset_ip tick_ip take_done recv_from_ip poke_ip send_to_ip
  perform-ok reset ip h = (_, refl, h)
  perform-ok tick ip h = (_, refl, h)
  perform-ok take ip h = (_, refl, h)
  perform-ok recv ip h = (_, refl, rw h refl)
  perform-ok (poke cmd) ip h = (_, refl, h)
  perform-ok (send flit) ip h = (record ip { raw = sys.cxl_send_flit ip.raw flit }, rw h refl, h)

  -- On the CXL endpoint no sequence of calls panics.
  pub perform_all-ok :
      (cs : List Call) (ip : VerilatedIp sys)
      → ip.ip_id ≡ slug_cxl4x4
      → (ip' : VerilatedIp sys) × (perform_all cs ip ≡ ok ip') × (ip'.ip_id ≡ slug_cxl4x4)
  perform_all-ok [] ip h = (ip, refl, h)
  perform_all-ok (c ∷ cs) ip h =
      let (ip1, e, h1) = perform-ok c ip h in
      let (ip2, e2, h2) = perform_all-ok cs ip1 h1 in (ip2, rw e e2, h2)
