-- ===== src/Fabric/Finish.antt =====
-- The loop of engine.rs ends, and when it reports success every command has completed once.
use slug_arch.Base.{
  ℕ, zero, suc, ◌+◌, ◌-◌, ◌≤◌, ◌<◌, ◌≡◌, ◌≢◌, ◌⊎◌, inl, inr, refl, sym, ap, subst, ◌∙◌, arith,
}
use slug_arch.Base.{Bool, true, false, ◌&&◌, Bool-cases, Option, List, [], ◌∷◌}
use slug_arch.Base.{ltb, ◌==◌, ==_iff, if◌then◌else◌, length, Result, ok, err}
use slug_arch.Ir.Types.{IpId}
use slug_arch.Backend.Bind.{DispatchCmd}
use slug_arch.Fabric.Engine.{
  IpDevice, Engine, InFlight, FabricError, scan, collect, advance, then_check, tick_ips, round,
  idle, Outcome, finished, failed, out_of_fuel, run_rounds, run, global_budget, initial,
  dispatch_timeout, first_ip,
}
use slug_arch.Fabric.Rounds.{started, scan-Scanned, collect-Collected}

-- Every command of a run: pending, in flight or done.
abbrev pub all_commands : {S : Type 0} → Engine S → ℕ
all_commands e = length e.pending + started e

-- What a round uses up: the cycles left and the commands pending.
abbrev left : {S : Type 0} → ℕ → Engine S → ℕ
left budget e = (budget + 1 - e.report.total_cycles) + length e.pending

both_true : (a b : Bool) → (a && b) ≡ true → (a ≡ true) × (b ≡ true)
both_true true b h = (refl, h)
both_true false b h = cc (h)

module _ (dev : IpDevice) where
  check_budget-ok :
      (budget : ℕ) (over : Bool) (w : FabricError) (e e' : Engine dev.State)
      → ◌≡◌ {A = Result FabricError (Engine dev.State)} (if over then err w else ok e) (ok e')
      → (over ≡ false) × (e ≡ e')
  check_budget-ok budget true w e e' h = cc (h)
  check_budget-ok budget false w e e' h = (refl, cc (h))

  pub then_check-ok :
      (budget : ℕ) (r : Result FabricError (Engine dev.State)) (e' : Engine dev.State)
      → then_check dev budget r ≡ ok e'
      → (r ≡ ok e') × (e'.report.total_cycles ≤ budget)
  then_check-ok budget (err w) e' h = cc (h)
  then_check-ok budget (ok e) e' h =
      let (over, same) =
        check_budget-ok budget (ltb budget e.report.total_cycles)
          (dispatch_timeout (first_ip dev e.in_flight) e.report.total_cycles) e e' h in
      let within : e.report.total_cycles ≤ budget = ground (arith, over) in
      (ap ok same, omega (arith, within, ap (λ x. x.report.total_cycles) same))

  -- After the scan: either nothing is in flight and something was launched or nothing is pending, or a
  -- cycle has passed within the budget.
  record Advanced (budget : ℕ) (launched : Bool) (e e' : Engine dev.State) : Type 0 where
    kept : all_commands e' ≡ all_commands e
    pending_same : length e'.pending ≡ length e.pending
    progress :
        ((launched ≡ true) × (e'.report.total_cycles ≡ e.report.total_cycles))
        ⊎ ((length e.pending ≡ 0)
            × (length e.in_flight ≡ 0)
            × (e'.report.total_cycles ≡ e.report.total_cycles))
        ⊎ ((e'.report.total_cycles ≡ e.report.total_cycles + 1) × (e'.report.total_cycles ≤ budget))

  pub unstuck :
      (launched : Bool) (w : FabricError) (e e' : Engine dev.State)
      → ◌≡◌ {A = Result FabricError (Engine dev.State)} (if launched then ok e else err w) (ok e')
      → (launched ≡ true) × (e ≡ e')
  unstuck true w e e' h = (refl, cc (h))
  unstuck false w e e' h = cc (h)

  advance-Advanced :
      (budget : ℕ) (launched : Bool) (fls : List InFlight) (ps : List DispatchCmd)
      (e e' : Engine dev.State)
      → e.in_flight ≡ fls
      → e.pending ≡ ps
      → advance dev budget launched fls ps e ≡ ok e'
      → Advanced budget launched e e'
  unfolding advance
  advance-Advanced budget launched [] [] e e' f p h =
      let same : e ≡ e' = cc (h) in
      record {
        kept = sym (ap all_commands same);
        pending_same = sym (ap (λ x. length x.pending) same);
        progress = inr (inl (ap length p, ap length f, sym (ap (λ x. x.report.total_cycles) same)));
      }
  advance-Advanced budget launched [] (c ∷ cs) e e' f p h =
      let (l, same) = unstuck launched _ e e' h in
      record {
        kept = sym (ap all_commands same);
        pending_same = sym (ap (λ x. length x.pending) same);
        progress = inl (l, sym (ap (λ x. x.report.total_cycles) same));
      }
  advance-Advanced budget launched (fl ∷ fls) ps e e' f p h =
      let ticked : Engine dev.State = record e {
        ips = tick_ips dev [] (fl ∷ fls) e.ips;
        report = record e.report { total_cycles = e.report.total_cycles + 1 };
      } in
      let (done, within) = then_check-ok budget (collect dev (fl ∷ fls) [] ticked) e' h in
      let c = collect-Collected dev (fl ∷ fls) [] ticked e' done in
      let same_pending : length e'.pending ≡ length e.pending = ap length c.same_pending in
      record {
        kept = omega (arith, c.all_there, same_pending, ap length f);
        pending_same = same_pending;
        progress = inr (inr (c.same_cycles, within));
      }

  busy : (e : Engine dev.State) → idle dev e ≡ false → length e.pending ≡ 0 → length e.in_flight ≢ 0
  busy e i p f =
      let yes_idle : idle dev e ≡ true =
        rw ((==_iff (length e.pending) 0).1 p, (==_iff (length e.in_flight) 0).1 f) refl in
      let bad : true ≡ false = sym yes_idle ∙ i in cc (bad)

  -- A round that succeeds on a loop that is not at its end keeps the commands and uses something up.
  round-progress :
      (budget : ℕ) (e e' : Engine dev.State)
      → idle dev e ≡ false
      → round dev budget e ≡ ok e'
      → (all_commands e' ≡ all_commands e) × (left budget e' < left budget e)
  round-progress budget e e' i h =
      let out = scan dev (length e.pending) false [] e.pending e in
      let s = scan-Scanned dev (length e.pending) false [] e.pending e (omega arith) in
      let a = advance-Advanced budget out.0 out.1.in_flight out.1.pending out.1 e' refl refl h in
      let all : all_commands e' ≡ all_commands e = omega (arith, a.kept, s.kept) in
      elim a.progress [
        | inl (l, c) ↦ elim (s.moved l) [
          | inl b ↦ cc (b)
          | inr fewer ↦ (all, omega (arith, fewer, c, s.forward, a.pending_same))
        ]
        | inr (inl (p, f, c)) ↦ elim (Bool-cases out.0) [
          | inl l ↦ elim (s.moved l) [
            | inl b ↦ cc (b)
            | inr fewer ↦ (all, omega (arith, fewer, c, s.forward, a.pending_same))
          ]
          | inr l ↦ absurd (busy e i (omega (arith, s.still l, p)) (omega (arith, s.no_less, f)))
        ]
        | inr (inr (c, within)) ↦
            (all, omega (arith, c, within, s.forward, s.fewer, a.pending_same))
      ]

  pub idle-empty :
      (e : Engine dev.State)
      → idle dev e ≡ true
      → started e ≡ e.report.completions × (length e.pending ≡ 0)
  idle-empty e h =
      let (p, f) = both_true (length e.pending == 0) (length e.in_flight == 0) h in
      let none : length e.in_flight ≡ 0 = (==_iff (length e.in_flight) 0).0 f in
      (omega (arith, none), (==_iff (length e.pending) 0).0 p)

  -- How a run with enough fuel ends: with every command completed, or with an error of the source.
  abbrev pub EndsWell : ℕ → Outcome dev → Type 0
  EndsWell commands (finished e) = e.report.completions ≡ commands
  EndsWell commands (failed w) = Unit
  EndsWell commands out_of_fuel = ⊥

  -- A round with fuel after it, on whether the loop is at its end and what the round gives.
  ends-step :
      (n budget : ℕ) (e : Engine dev.State)
      → ((e' : Engine dev.State)
          → left budget e' < n
          → EndsWell (all_commands e') (run_rounds dev n budget e'))
      → left budget e < suc n
      → (at_end : Bool) (r : Result FabricError (Engine dev.State)) → idle dev e ≡ at_end
      → round dev budget e ≡ r
      → EndsWell (all_commands e) (
          if at_end
          then finished e
          else elim r [ ok e' ↦ run_rounds dev n budget e' | err w ↦ failed w ])
  ends-step n budget e later h true r i q =
      let (all, none) = idle-empty e i in omega (arith, all, none)
  ends-step n budget e later h false (err w) i q = tt
  ends-step n budget e later h false (ok e') i q =
      let (same, less) = round-progress budget e e' i q in
      subst (λ k. EndsWell k (run_rounds dev n budget e')) same (later e' (omega (arith, less, h)))

  run_rounds-EndsWell :
      (n budget : ℕ) (e : Engine dev.State)
      → left budget e < n
      → EndsWell (all_commands e) (run_rounds dev n budget e)
  unfolding run_rounds
  run_rounds-EndsWell zero budget e h = absurd (omega arith)
  run_rounds-EndsWell (suc n) budget e h =
      ends-step n budget e (run_rounds-EndsWell n budget) h (idle dev e) (round dev budget e) refl
        refl

  -- Over any IPs and any stream, `run` ends: with a report of as many completions as the stream has
  -- commands, with a timeout, or with stuck tokens.
  pub run-EndsWell :
      (ips : IpId → Option dev.State) (stream : List DispatchCmd)
      → EndsWell (length stream) (run dev ips stream)
  unfolding run
  run-EndsWell ips stream =
      subst
        (λ k. EndsWell k (
          run_rounds dev (global_budget dev stream + length stream + 2) (global_budget dev stream)
            (initial dev ips stream)))
        (omega arith)
        (run_rounds-EndsWell (global_budget dev stream + length stream + 2)
          (global_budget dev stream) (initial dev ips stream) (omega arith))
