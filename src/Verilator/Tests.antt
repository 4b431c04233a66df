-- ===== src/Verilator/Tests.antt =====
-- Runs of the binding.
use slug_arch.Base.{ℕ, ◌+◌, ◌≡◌, refl, true, some, none, [], ◌∷◌, err}
use slug_arch.Ir.Types.{noc_mesh, gemm_ip, ptx_emulation_core}
use slug_arch.Verilator.{
  Sys, VerilatedIp, new_cmd, is_on_cpu, null_constructor, not_the_endpoint, new_ip, poke_ip,
  take_done, send_to_ip, recv_from_ip,
}

-- An IP that counts its calls and is always done; one constructor gives null.
abbrev counting : Sys
counting = record {
  SlugarchIp = ℕ;
  new_systolic_4x4 = some 0;
  new_systolic_16x16 = some 0;
  new_systolic_32x32 = some 0;
  new_npu_seed_g = some 0;
  new_npu_cluster = some 0;
  new_noc_mesh = some 0;
  new_gemm_ip = none;
  new_slugcxl_4x4 = some 0;
  ip_reset = λ n. 0;
  ip_tick = λ n. (n, n + 1);
  ip_poke_cmd = λ n valid token. n + valid;
  ip_peek_done = λ n out. (1, n ∷ [], n);
  ip_peek_cmd_ready = λ n. 1;
  cxl_send_flit = λ n flit. n + 1;
  cxl_recv_flit = λ n out. (0, out, n);
}

abbrev mesh : VerilatedIp counting
mesh = record { raw = 7; ip_id = noc_mesh }

constructors :
    (new_ip counting ptx_emulation_core ≡ err is_on_cpu)
    × (new_ip counting gemm_ip ≡ err (null_constructor gemm_ip))
unfolding new_ip
constructors = (refl, refl)

flits_of_the_mesh :
    (send_to_ip counting mesh [] ≡ err (not_the_endpoint noc_mesh))
    × (recv_from_ip counting mesh ≡ (none, mesh))
unfolding send_to_ip recv_from_ip
flits_of_the_mesh = (refl, refl)

poked_and_done :
    take_done counting (poke_ip counting mesh (new_cmd []))
    ≡ (some (record { valid = true; token_out = 8 ∷ [] }), record { raw = 8; ip_id = noc_mesh })
unfolding take_done poke_ip
poked_and_done = refl
