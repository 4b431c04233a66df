-- ===== src/Fabric/CpuOnly.antt =====
-- Runs of engine.rs on commands for the CPU that wait for nothing.
use slug_arch.Base.{ℕ, zero, suc, ◌+◌, ◌≤◌, ◌≡◌, refl, sym, ap, subst, ◌∙◌, arith}
use slug_arch.Base.{
  Bool, true, false, List, [], ◌∷◌, Option, All, length, contains, ==-differ, or-right, ok,
}
use slug_arch.Ir.Types.{IpId, is_cpu_backed}
use slug_arch.Backend.Bind.{DispatchCmd}
use slug_arch.Fabric.Engine.{
  IpDevice, Engine, scan, launch, advance, cycle_cost, last_first, last_of, init_of, set_ip,
  initial, round, run, run_rounds, idle, global_budget, finished,
}

-- A command for the CPU that waits for no other.
abbrev pub IsFree : DispatchCmd → Type 0
IsFree cmd = (is_cpu_backed cmd.ip ≡ true) × (cmd.token_in ≡ 0)

-- The cycles that commands cost in all.
abbrev pub costs : List DispatchCmd → ℕ
costs [] = 0
costs (c ∷ cs) = cycle_cost c.opcode + costs cs

length-init_of : {A : Type 0} (x : A) (xs : List A) → length (init_of x xs) ≡ length xs
length-init_of x [] = refl
length-init_of x (y ∷ ys) = ap suc (length-init_of y ys)

length-last_first : {A : Type 0} (xs : List A) → length (last_first xs) ≡ length xs
length-last_first [] = refl
length-last_first (x ∷ xs) = ap suc (length-init_of x xs)

costs-init_of :
    (x : DispatchCmd) (xs : List DispatchCmd) → costs (last_of x xs ∷ init_of x xs) ≡ costs (x ∷ xs)
costs-init_of x [] = refl
costs-init_of x (y ∷ ys) = omega (arith, costs-init_of y ys)

costs-last_first : (xs : List DispatchCmd) → costs (last_first xs) ≡ costs xs
costs-last_first [] = refl
costs-last_first (x ∷ xs) = costs-init_of x xs

All-init_of :
    {A : Type 0} (P : A → Type 0) (x : A) (xs : List A)
    → P x
    → All P xs
    → All P (last_of x xs ∷ init_of x xs)
All-init_of P x [] p h = (p, tt)
All-init_of P x (y ∷ ys) p (q, h) = let (last, rest) = All-init_of P y ys q h in (last, (p, rest))

All-last_first : {A : Type 0} (P : A → Type 0) (xs : List A) → All P xs → All P (last_first xs)
All-last_first P [] h = tt
All-last_first P (x ∷ xs) (p, h) = All-init_of P x xs p h

module _ (dev : IpDevice) where
  -- What commands on the CPU leave of a run.
  record Ran (e : Engine dev.State) (cmds : List DispatchCmd) (e' : Engine dev.State) : Type 0 where
    none_pending : e'.pending ≡ []
    none_in_flight : e'.in_flight ≡ e.in_flight
    cycles : e'.report.total_cycles ≡ e.report.total_cycles + costs cmds
    count : e'.report.completions ≡ e.report.completions + length cmds

  abbrev on_cpu : DispatchCmd → Engine dev.State → Engine dev.State
  on_cpu cmd e = record e {
    report = record e.report {
      total_cycles = e.report.total_cycles + cycle_cost cmd.opcode;
      per_ip_cycles =
          set_ip e.report.per_ip_cycles cmd.ip
            (e.report.per_ip_cycles cmd.ip + cycle_cost cmd.opcode);
      completions = e.report.completions + 1;
    };
    retired = cmd.token_out ∷ e.retired;
  }

  launch-on_cpu :
      (cmd : DispatchCmd) (e : Engine dev.State)
      → is_cpu_backed cmd.ip ≡ true
      → launch dev cmd e ≡ on_cpu cmd e
  unfolding launch
  launch-on_cpu cmd e h = rw h refl

  scan-fires :
      (n : ℕ) (launched : Bool) (cmd : DispatchCmd) (rest : List DispatchCmd) (e : Engine dev.State)
      → IsFree cmd
      → contains e.retired 0 ≡ true
      → scan dev (suc n) launched [] (cmd ∷ rest) e
        ≡ scan dev n true [] (last_first rest) (on_cpu cmd e)
  unfolding scan
  scan-fires n launched cmd rest e (cpu, free) h =
      let fires : contains e.retired cmd.token_in ≡ true = ap (contains e.retired) free ∙ h in
      rw (fires, launch-on_cpu cmd e cpu) refl

  scan-Ran :
      (n : ℕ) (launched : Bool) (cmds : List DispatchCmd) (e : Engine dev.State)
      → length cmds ≤ n
      → All IsFree cmds
      → contains e.retired 0 ≡ true
      → Ran e cmds ((scan dev n launched [] cmds e).1)
  unfolding scan
  scan-Ran zero launched [] e l f h = record {
    none_pending = refl;
    none_in_flight = refl;
    cycles = omega arith;
    count = omega arith;
  }
  scan-Ran zero launched (c ∷ cs) e l f h = absurd (omega (arith, l))
  scan-Ran (suc n) launched [] e l f h = record {
    none_pending = refl;
    none_in_flight = refl;
    cycles = omega arith;
    count = omega arith;
  }
  scan-Ran (suc n) launched (c ∷ cs) e l (p, f) h =
      let r =
        scan-Ran n true (last_first cs) (on_cpu c e) (omega (arith, l, length-last_first cs))
          (All-last_first IsFree cs f) (or-right _ _ h) in
      subst (λ x. Ran e (c ∷ cs) (x.1)) (sym (scan-fires n launched c cs e p h))
        (record {
          none_pending = r.none_pending;
          none_in_flight = r.none_in_flight;
          cycles = omega (arith, r.cycles, costs-last_first cs);
          count = omega (arith, r.count, length-last_first cs);
        })

  advance-idle :
      (budget : ℕ) (launched : Bool) (e : Engine dev.State)
      → e.pending ≡ []
      → e.in_flight ≡ []
      → (advance dev budget launched e.in_flight e.pending e ≡ ok e) × (idle dev e ≡ true)
  unfolding advance
  advance-idle budget launched e p q = rw (p, q) (refl, refl)

  one_round :
      (n budget : ℕ) (e e' : Engine dev.State)
      → idle dev e ≡ false
      → round dev budget e ≡ ok e'
      → idle dev e' ≡ true
      → run_rounds dev (suc (suc n)) budget e ≡ finished e'
  unfolding run_rounds
  one_round n budget e e' i r j = rw (i, r, j) refl

  -- On commands for the CPU that wait for nothing, in any number, Fabric::run finishes, with a completion
  -- for each and with the cycles that they cost.
  pub run-free :
      (ips : IpId → Option dev.State) (cmds : List DispatchCmd)
      → All IsFree cmds
      → (e : Engine dev.State) × (run dev ips cmds ≡ finished e)
        × (e.report.total_cycles ≡ costs cmds)
        × (e.report.completions ≡ length cmds)
  unfolding run run_rounds
  run-free ips [] f = (initial dev ips [], refl, refl, refl)
  run-free ips (c ∷ cs) f =
      let cmds = c ∷ cs in
      let e = initial dev ips cmds in
      let r = scan-Ran (length cmds) false cmds e (omega arith) f refl in
      let scanned = scan dev (length cmds) false [] cmds e in
      let enough : global_budget dev cmds + length cmds + 2
          ≡ suc (suc (global_budget dev cmds + length cmds)) =
        omega arith in
      let (ends, is_idle) =
        advance-idle (global_budget dev cmds) (scanned.0) (scanned.1) r.none_pending
          r.none_in_flight in
      (
        scanned.1,
        ap (λ k. run_rounds dev k (global_budget dev cmds) e) enough
            ∙ one_round (global_budget dev cmds + length cmds) (global_budget dev cmds) e
                (scanned.1) (rw (==-differ (length cmds) 0 (λ q. absurd (omega (arith, q)))) refl)
                ends is_idle,
        omega (arith, r.cycles),
        omega (arith, r.count),
      )
