-- ===== src/Fabric/Completes.antt =====
-- A run of engine.rs completes every command of its stream, each after the token that it waits for.
use mathlib.Core.List.{Perm}
use slug_arch.Base.{
  ℕ, zero, suc, ◌+◌, ◌≡◌, refl, sym, subst, arith, Bool, true, false, Option, List, [], ◌∷◌,
  if◌then◌else◌, length, Result, ok, err,
}
use slug_arch.Ir.Types.{IpId}
use slug_arch.Backend.Bind.{DispatchCmd}
use slug_arch.Fabric.Engine.{
  IpDevice, Engine, InFlight, FabricError, scan, collect, advance, tick_ips, round, idle, Outcome,
  finished, failed, out_of_fuel, run_rounds, run, initial, global_budget,
}
use slug_arch.Fabric.Rounds.{collect-Collected}
use slug_arch.Fabric.Finish.{then_check-ok, unstuck, idle-empty, EndsWell, run-EndsWell}
use slug_arch.Fabric.Net.{Net, tokens, IsOrdered, Reach, here, Reach-all_done}
use slug_arch.Fabric.Refines.{Reached, Shows, net, commands, scan-Shows, collect-Shows}

length-zero : {A : Type 0} (xs : List A) → length xs ≡ 0 → xs ≡ []
length-zero [] h = refl
length-zero (x ∷ xs) h = absurd (omega (arith, h))

-- How a stream is completed: by steps of the net, each command once, in an order in which each command
-- comes after the token that it waits for.
pub record Completed (stream : List DispatchCmd) (retired : List ℕ) : Type 0 where
  pub done : List DispatchCmd
  pub steps : Reach (net stream [] []) (net [] [] done)
  pub each_once : Perm done stream
  pub ordered : IsOrdered done
  pub gave : tokens done ≡ retired

module _ (dev : IpDevice) where
  module _ (from : Net) where
    abbrev IsShown : Engine dev.State → Type 0
    IsShown e = Shows dev from e.pending e

    advance-IsShown :
        (budget : ℕ) (launched : Bool) (fls : List InFlight) (ps : List DispatchCmd)
        (e e' : Engine dev.State)
        → e.in_flight ≡ fls
        → advance dev budget launched fls ps e ≡ ok e'
        → IsShown e
        → IsShown e'
    unfolding advance
    advance-IsShown budget launched [] [] e e' f h s =
        let same : e ≡ e' = cc (h) in subst IsShown same s
    advance-IsShown budget launched [] (c ∷ cs) e e' f h s =
        subst IsShown ((unstuck dev launched _ e e' h).1) s
    advance-IsShown budget launched (fl ∷ fls) ps e e' f h s =
        let ticked : Engine dev.State = record e {
          ips = tick_ips dev [] (fl ∷ fls) e.ips;
          report = record e.report { total_cycles = e.report.total_cycles + 1 };
        } in
        let (done, _) = then_check-ok dev budget (collect dev (fl ∷ fls) [] ticked) e' h in
        let c = collect-Collected dev (fl ∷ fls) [] ticked e' done in
        let before : Reached dev from e.pending (commands (fl ∷ fls)) e.retired =
          subst (λ l. Reached dev from e.pending (commands l) e.retired) f s in
        subst (λ l. Shows dev from l e') (sym c.same_pending)
          (collect-Shows dev from e.pending (fl ∷ fls) [] ticked e' done before)

    round-IsShown :
        (budget : ℕ) (e e' : Engine dev.State) → round dev budget e ≡ ok e' → IsShown e → IsShown e'
    round-IsShown budget e e' h s =
        let out = scan dev (length e.pending) false [] e.pending e in
        advance-IsShown budget out.0 out.1.in_flight out.1.pending out.1 e' refl h
          (scan-Shows dev from (length e.pending) false [] e.pending e s)

    abbrev Ended : Outcome dev → Type 0
    Ended (finished e) = Reached dev from [] [] e.retired
    Ended _ = Unit {0}

    idle-Ended : (e : Engine dev.State) → idle dev e ≡ true → IsShown e → Ended (finished e)
    idle-Ended e h s =
        let (all, p) = idle-empty dev e h in
        let no_pending : e.pending ≡ [] = length-zero e.pending p in
        let no_flight : e.in_flight ≡ [] = length-zero e.in_flight (omega (arith, all)) in
        subst (λ l. Reached dev from l [] e.retired) no_pending
          (subst (λ l. Reached dev from e.pending (commands l) e.retired) no_flight s)

    Ended-step :
        (n budget : ℕ) (e : Engine dev.State)
        → ((e' : Engine dev.State) → IsShown e' → Ended (run_rounds dev n budget e'))
        → IsShown e
        → (at_end : Bool) (r : Result FabricError (Engine dev.State)) → idle dev e ≡ at_end
        → round dev budget e ≡ r
        → Ended (
            if at_end
            then finished e
            else elim r [ ok e' ↦ run_rounds dev n budget e' | err w ↦ failed w ])
    Ended-step n budget e later s true r i q = idle-Ended e i s
    Ended-step n budget e later s false (err w) i q = tt
    Ended-step n budget e later s false (ok e') i q = later e' (round-IsShown budget e e' q s)

    Ended-zero :
        (e : Engine dev.State) (at_end : Bool)
        → idle dev e ≡ at_end
        → IsShown e
        → Ended (if at_end then finished e else out_of_fuel)
    Ended-zero e true i s = idle-Ended e i s
    Ended-zero e false i s = tt

    run_rounds-Ended :
        (n budget : ℕ) (e : Engine dev.State) → IsShown e → Ended (run_rounds dev n budget e)
    unfolding run_rounds
    run_rounds-Ended zero budget e s = Ended-zero e (idle dev e) refl s
    run_rounds-Ended (suc n) budget e s =
        Ended-step n budget e (run_rounds-Ended n budget) s (idle dev e) (round dev budget e) refl
          refl

  abbrev pub Completes : List DispatchCmd → Outcome dev → Type 0
  Completes stream (finished e) =
      (e.report.completions ≡ length stream) × Completed stream e.retired
  Completes stream (failed w) = Unit {0}
  Completes stream out_of_fuel = ⊥

  ends-Completes :
      (stream : List DispatchCmd) (o : Outcome dev)
      → EndsWell dev (length stream) o
      → Ended (net stream [] []) o
      → Completes stream o
  ends-Completes stream (finished e) c r =
      let (perm, ordered) = Reach-all_done stream r.done r.steps in
      (
        c,
        record {
          done = r.done;
          steps = r.steps;
          each_once = perm;
          ordered = ordered;
          gave = r.same;
        },
      )
  ends-Completes stream (failed w) c r = tt
  ends-Completes stream out_of_fuel c r = c

  -- Over any IPs and any stream, `run` ends with a timeout or stuck tokens, or it refines the token
  -- net: it reports a completion for each command, and by steps of the net it completes every command of the stream exactly once, in an order in
  -- which each command waits for token 0 or for a token that a command before it gave.
  pub run-Completes :
      (ips : IpId → Option dev.State) (stream : List DispatchCmd)
      → Completes stream (run dev ips stream)
  unfolding run
  run-Completes ips stream = ends-Completes stream _ (run-EndsWell dev ips stream) (
      run_rounds-Ended (net stream [] []) _ (global_budget dev stream) (initial dev ips stream)
        (record { done = []; steps = here; same = refl }))
