-- ===== src/Verilator.antt =====
-- crates/slugarch-verilator/src/impls.rs and wire.rs: the binding of one compiled IP. The C functions of
-- slugarch-verilator-sys are a parameter, and a panic is an error.
use slug_arch.Base.{
  ℕ, Bool, true, false, Option, none, some, List, [], ◌∷◌, ◌==◌, if◌then◌else◌, replicate, Result,
  ok, err, ◌>>=◌,
}
use slug_arch.Ir.Types.{
  IpId, systolic_array4x4, systolic_array16x16, systolic_array32x32, npu_array_v4_seed_g,
  npu_cluster_v4, noc_mesh, gemm_ip, ptx_emulation_core, slug_cxl4x4,
}
pub mod Calls
mod Tests

-- The C functions. A constructor may give null, and a call that writes to a buffer returns it.
pub record Sys : Type 1 where
  pub SlugarchIp : Type 0
  pub new_systolic_4x4 : Option SlugarchIp
  pub new_systolic_16x16 : Option SlugarchIp
  pub new_systolic_32x32 : Option SlugarchIp
  pub new_npu_seed_g : Option SlugarchIp
  pub new_npu_cluster : Option SlugarchIp
  pub new_noc_mesh : Option SlugarchIp
  pub new_gemm_ip : Option SlugarchIp
  pub new_slugcxl_4x4 : Option SlugarchIp
  pub ip_reset : SlugarchIp → SlugarchIp
  pub ip_tick : SlugarchIp → ℕ × SlugarchIp
  pub ip_poke_cmd : SlugarchIp → ℕ → List ℕ → SlugarchIp
  pub ip_peek_done : SlugarchIp → List ℕ → ℕ × List ℕ × SlugarchIp
  pub ip_peek_cmd_ready : SlugarchIp → ℕ
  pub cxl_send_flit : SlugarchIp → List ℕ → SlugarchIp
  pub cxl_recv_flit : SlugarchIp → List ℕ → ℕ × List ℕ × SlugarchIp

pub record WireCmd : Type 0 where
  pub valid : Bool
  pub token_in : List ℕ

pub record WireDone : Type 0 where
  pub valid : Bool
  pub token_out : List ℕ

abbrev pub token_bytes : ℕ
token_bytes = 32

-- `WireCmd::invalid` and `WireCmd::new`
abbrev pub invalid_cmd : WireCmd
invalid_cmd = record { valid = false; token_in = replicate token_bytes 0 }

abbrev pub new_cmd : List ℕ → WireCmd
new_cmd token_in = record { valid = true; token_in = token_in }

pub data Panic : Type 0 where
  is_on_cpu : Panic
  null_constructor : IpId → Panic
  not_the_endpoint : IpId → Panic

-- `matches!(self.ip_id, IpId::SlugCxl4x4)`
abbrev pub is_endpoint : IpId → Bool
is_endpoint slug_cxl4x4 = true
is_endpoint _ = false

module _ (sys : Sys) where
  pub record VerilatedIp : Type 0 where
    pub raw : sys.SlugarchIp
    pub ip_id : IpId

  abbrev pub unless_null : IpId → Option sys.SlugarchIp → Result Panic VerilatedIp
  unless_null ip_id none = err (null_constructor ip_id)
  unless_null ip_id (some raw) = ok (record { raw = raw; ip_id = ip_id })

  -- `VerilatedIp::new`
  unfoldable pub new_ip : IpId → Result Panic VerilatedIp
  new_ip systolic_array4x4 = unless_null systolic_array4x4 sys.new_systolic_4x4
  new_ip systolic_array16x16 = unless_null systolic_array16x16 sys.new_systolic_16x16
  new_ip systolic_array32x32 = unless_null systolic_array32x32 sys.new_systolic_32x32
  new_ip npu_array_v4_seed_g = unless_null npu_array_v4_seed_g sys.new_npu_seed_g
  new_ip npu_cluster_v4 = unless_null npu_cluster_v4 sys.new_npu_cluster
  new_ip noc_mesh = unless_null noc_mesh sys.new_noc_mesh
  new_ip gemm_ip = unless_null gemm_ip sys.new_gemm_ip
  new_ip ptx_emulation_core = err is_on_cpu
  new_ip slug_cxl4x4 = unless_null slug_cxl4x4 sys.new_slugcxl_4x4

  unfoldable pub reset_ip : VerilatedIp → VerilatedIp
  reset_ip ip = record ip { raw = sys.ip_reset ip.raw }

  unfoldable pub tick_ip : VerilatedIp → ℕ × VerilatedIp
  tick_ip ip = let (cycles, raw) = sys.ip_tick ip.raw in (cycles, record ip { raw = raw })

  unfoldable pub poke_ip : VerilatedIp → WireCmd → VerilatedIp
  poke_ip ip cmd = record ip {
    raw = sys.ip_poke_cmd ip.raw (if cmd.valid then 1 else 0) cmd.token_in;
  }

  unfoldable pub take_done : VerilatedIp → Option WireDone × VerilatedIp
  take_done ip =
      let (done, token_out, raw) = sys.ip_peek_done ip.raw (replicate token_bytes 0) in
      (
        if done == 0 then none else some (record { valid = true; token_out = token_out }),
        record ip { raw = raw },
      )

  unfoldable pub cmd_ready : VerilatedIp → Bool
  cmd_ready ip = if sys.ip_peek_cmd_ready ip.raw == 0 then false else true

  unfoldable pub send_to_ip : VerilatedIp → List ℕ → Result Panic VerilatedIp
  send_to_ip ip flit =
      if is_endpoint ip.ip_id
      then ok (record ip { raw = sys.cxl_send_flit ip.raw flit })
      else err (not_the_endpoint ip.ip_id)

  unfoldable pub recv_from_ip : VerilatedIp → Option (List ℕ) × VerilatedIp
  recv_from_ip ip =
      let (got, out, raw) = sys.cxl_recv_flit ip.raw (replicate 64 0) in
      let taken = if got == 0 then none else some out in
      if is_endpoint ip.ip_id then (taken, record ip { raw = raw }) else (none, ip)
