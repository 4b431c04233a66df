-- ===== src/Fabric/Tests.antt =====
-- Runs of the fabric, and its theorem at a concrete input.
use slug_arch.Base.{
  ℕ, ◌+◌, ◌≡◌, refl, Option, none, some, List, [], ◌∷◌, replicate, ◌==◌, if◌then◌else◌,
}
use slug_arch.Ir.Types.{IpId, ptx_emulation_core, noc_mesh, is_cpu_backed}
use slug_arch.Backend.Bind.{DispatchCmd}
use slug_arch.Fabric.Engine.{
  IpDevice, Outcome, run, run_rounds, scan, launch, advance, collect, tick_ips, cycle_cost, failed,
  finished, out_of_fuel, token_resolution_stuck,
}
use slug_arch.Fabric.Completes.{Completes, run-Completes}

-- An IP that is done two ticks after a command.
abbrev two_ticks : IpDevice
two_ticks = record {
  State = ℕ;
  fresh = λ id. 0;
  poke_cmd = λ token n. 1;
  tick = λ n. n + 1;
  try_take_done = λ n. if n == 3 then (some [], 0) else (none, n);
}

abbrev cmd : IpId → ℕ → ℕ → ℕ → DispatchCmd
cmd ip opcode i o = record {
  ip = ip;
  opcode = opcode;
  token = replicate 32 0;
  token_in = i;
  token_out = o;
  meta = record { source_hint = none; policy = none };
}

-- The chain of the tests of engine.rs.
abbrev chain : List DispatchCmd
chain =
    cmd ptx_emulation_core 2 0 1 ∷ cmd ptx_emulation_core 17 1 2 ∷ cmd ptx_emulation_core 4 2 3 ∷ []

abbrev cycles : Outcome two_ticks → Option (ℕ × ℕ)
cycles (finished e) = some (e.report.total_cycles, e.report.completions)
cycles (failed w) = none
cycles out_of_fuel = none

stuck_is_detected :
    run two_ticks (λ id. none) (cmd ptx_emulation_core 1 42 43 ∷ [])
    ≡ failed (token_resolution_stuck 1)
unfolding run run_rounds scan launch advance collect tick_ips is_cpu_backed cycle_cost
stuck_is_detected = refl

chain_counts : cycles (run two_ticks (λ id. none) chain) ≡ some (6, 3)
unfolding run run_rounds scan launch advance collect tick_ips is_cpu_backed cycle_cost
chain_counts = refl

mesh_counts : cycles (run two_ticks (λ id. none) (cmd noc_mesh 0 0 1 ∷ [])) ≡ some (2, 1)
unfolding run run_rounds scan launch advance collect tick_ips is_cpu_backed cycle_cost
mesh_counts = refl

run-Completes_example : Completes two_ticks chain (run two_ticks (λ id. none) chain)
run-Completes_example = run-Completes two_ticks (λ id. none) chain
