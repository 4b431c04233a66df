-- ===== src/Fabric/Refines.antt =====
-- The loop of engine.rs takes steps of the net.
use mathlib.Core.List.{Perm, perm_middle}
use mathlib.Core.List.Perm
use slug_arch.Base.{
  ℕ, zero, suc, ◌+◌, ◌≡◌, inl, inr, refl, sym, ap, subst, ◌∙◌, Bool, true, false, ◌||◌, Bool-cases,
  Option, none, some, List, [], ◌∷◌, ◌++◌, append-nil, append_assoc, contains, ltb, if◌then◌else◌,
  ok,
}
use slug_arch.Ir.Types.{is_cpu_backed}
use slug_arch.Backend.Bind.{DispatchCmd}
use slug_arch.Fabric.Engine.{
  IpDevice, Engine, InFlight, launch, scan, collect, unless_late, keep, retire, polled, last_of,
  init_of, last_first, ip_state, default_ip_cycle_budget,
}
use slug_arch.Fabric.Net.{Net, tokens, start, finish, Reach, next}

last_of-Perm : {A : Type 0} (x : A) (xs : List A) → Perm (x ∷ xs) (last_of x xs ∷ init_of x xs)
last_of-Perm x [] = Perm.refl (x ∷ [])
last_of-Perm x (y ∷ ys) =
    Perm.trans (Perm.cons x (last_of-Perm y ys)) (Perm.swap (last_of y ys) x (init_of y ys))

last_first-Perm : {A : Type 0} (xs : List A) → Perm xs (last_first xs)
last_first-Perm [] = Perm.refl []
last_first-Perm (x ∷ xs) = last_of-Perm x xs

abbrev pub commands : List InFlight → List DispatchCmd
commands [] = []
commands (fl ∷ fls) = fl.cmd ∷ commands fls

commands-append : (xs ys : List InFlight) → commands (xs ++ ys) ≡ commands xs ++ commands ys
commands-append [] ys = refl
commands-append (x ∷ xs) ys = ap (λ l. x.cmd ∷ l) (commands-append xs ys)

abbrev pub net : List DispatchCmd → List DispatchCmd → List DispatchCmd → Net
net ws rs ds = record { waiting = ws; running = rs; done = ds }

module _ (dev : IpDevice) where
  -- The engine after steps from a net, with what it has in flight and retired.
  pub record Reached (from : Net) (waiting running : List DispatchCmd) (retired : List ℕ)
      : Type 0 where
    pub done : List DispatchCmd
    pub steps : Reach from (net waiting running done)
    pub same : tokens done ≡ retired

  abbrev pub Shows : Net → List DispatchCmd → Engine dev.State → Type 0
  Shows from waiting e = Reached from waiting (commands e.in_flight) e.retired

  -- A launch of a command that can fire.
  launch-Shows :
      (from : Net) (waiting later : List DispatchCmd) (cmd : DispatchCmd) (e : Engine dev.State)
      → Perm waiting (cmd ∷ later)
      → contains e.retired cmd.token_in ≡ true
      → Shows from waiting e
      → Shows from later (launch dev cmd e)
  unfolding launch
  launch-Shows from waiting later cmd e p fires s =
      let released : contains (tokens s.done) cmd.token_in ≡ true =
        ap (λ ts. contains ts cmd.token_in) s.same ∙ fires in
      let rs = commands e.in_flight in
      let started = next s.steps (start waiting later rs s.done cmd p released) in
      elim (Bool-cases (is_cpu_backed cmd.ip)) [
        | inl c ↦ rw c (record {
          done = cmd ∷ s.done;
          steps =
              subst (λ l. Reach from (net later l (cmd ∷ s.done))) (append-nil rs)
                (next started (finish later rs [] s.done cmd));
          same = ap (λ ts. cmd.token_out ∷ ts) s.same;
        })
        | inr c ↦ rw c (record {
          done = s.done;
          steps =
              subst (λ l. Reach from (net later l s.done)) (sym (commands-append e.in_flight _))
                started;
          same = s.same;
        })
      ]

  -- A round of the scan, on whether the command can fire.
  scan-step :
      (from : Net) (n : ℕ)
      → ((before : Bool) (skipped rest : List DispatchCmd) (e : Engine dev.State)
          → Shows from (skipped ++ rest) e
          → Shows from
              ((scan dev n before skipped rest e).1.pending)
              ((scan dev n before skipped rest e).1))
      → (fires before : Bool) (skipped : List DispatchCmd) (cmd : DispatchCmd)
        (rest : List DispatchCmd) (e : Engine dev.State)
      → contains e.retired cmd.token_in ≡ fires
      → Shows from (skipped ++ (cmd ∷ rest)) e
      → (let out =
            scan dev n
              (fires || before)
              (if fires then skipped else skipped ++ (cmd ∷ []))
              (if fires then last_first rest else rest)
              (if fires then launch dev cmd e else e) in
          Shows from (out.1.pending) (out.1))
  scan-step from n later true before skipped cmd rest e f s =
      later true skipped (last_first rest) (launch dev cmd e) (
        launch-Shows from (skipped ++ (cmd ∷ rest)) (skipped ++ last_first rest) cmd e
          (Perm.trans (perm_middle skipped rest)
            (Perm.cons cmd (Perm.append_left skipped (last_first-Perm rest))))
          f s)
  scan-step from n later false before skipped cmd rest e f s =
      later before (skipped ++ (cmd ∷ [])) rest e
        (subst (λ l. Shows from l e) (sym (append_assoc skipped (cmd ∷ []) rest)) s)

  pub scan-Shows :
      (from : Net) (n : ℕ) (before : Bool) (skipped rest : List DispatchCmd) (e : Engine dev.State)
      → Shows from (skipped ++ rest) e
      → Shows from
          ((scan dev n before skipped rest e).1.pending)
          ((scan dev n before skipped rest e).1)
  unfolding scan
  scan-Shows from zero before skipped rest e s = record {
    done = s.done;
    steps = s.steps;
    same = s.same;
  }
  scan-Shows from (suc n) before skipped [] e s =
      let t : Shows from skipped e = subst (λ l. Shows from l e) (append-nil skipped) s in
      record { done = t.done; steps = t.steps; same = t.same }
  scan-Shows from (suc n) before skipped (cmd ∷ rest) e s =
      scan-step from n (scan-Shows from n) (contains e.retired cmd.token_in) before skipped cmd rest
        e refl s

  -- While commands in flight are collected: those that stay, and those not looked at yet.
  abbrev pub Collects : Net → List DispatchCmd → List InFlight → List InFlight → List ℕ → Type 0
  Collects from waiting still fls retired =
      Reached from waiting (commands still ++ commands fls) retired

  collect-step :
      (from : Net) (waiting : List DispatchCmd) (fl : InFlight) (fls : List InFlight)
      → ((still : List InFlight) (e e' : Engine dev.State)
          → collect dev fls still e ≡ ok e'
          → Collects from waiting still fls e.retired
          → Shows from waiting e')
      → (done : Option (List ℕ)) (late : Bool) (still : List InFlight) (e e' : Engine dev.State)
      → (let older : InFlight = record fl { cycles_elapsed = fl.cycles_elapsed + 1 } in
          unless_late dev done late older
            (collect dev fls (keep dev done still older) (retire dev done older (polled dev fl e)))
          ≡ ok e')
      → Collects from waiting still (fl ∷ fls) e.retired
      → Shows from waiting e'
  collect-step from waiting fl fls later none true still e e' h s = cc (h)
  collect-step from waiting fl fls later none false still e e' h s =
      let older : InFlight = record fl { cycles_elapsed = fl.cycles_elapsed + 1 } in
      let same : commands still ++ (fl.cmd ∷ commands fls)
          ≡ commands (still ++ (older ∷ [])) ++ commands fls =
        sym (append_assoc (commands still) (fl.cmd ∷ []) (commands fls))
        ∙ ap (λ l. l ++ commands fls) (sym (commands-append still (older ∷ []))) in
      later (still ++ (older ∷ [])) (polled dev fl e) e' h
        (subst (λ l. Reached from waiting l e.retired) same s)
  collect-step from waiting fl fls later (some d) late still e e' h s =
      let older : InFlight = record fl { cycles_elapsed = fl.cycles_elapsed + 1 } in
      later still (retire dev (some d) older (polled dev fl e)) e' h (record {
        done = fl.cmd ∷ s.done;
        steps = next s.steps (finish waiting (commands still) (commands fls) s.done fl.cmd);
        same = ap (λ ts. fl.cmd.token_out ∷ ts) s.same;
      })

  pub collect-Shows :
      (from : Net) (waiting : List DispatchCmd) (fls still : List InFlight)
      (e e' : Engine dev.State)
      → collect dev fls still e ≡ ok e'
      → Collects from waiting still fls e.retired
      → Shows from waiting e'
  unfolding collect
  collect-Shows from waiting [] still e e' h s =
      let same : record e { in_flight = still } ≡ e' = cc (h) in
      let t : Reached from waiting (commands still) e.retired =
        subst (λ l. Reached from waiting l e.retired) (append-nil (commands still)) s in
      subst (Shows from waiting) same (record { done = t.done; steps = t.steps; same = t.same })
  collect-Shows from waiting (fl ∷ fls) still e e' h s =
      collect-step from waiting fl fls (collect-Shows from waiting fls)
        ((dev.try_take_done (ip_state dev e.ips fl.ip)).0)
        (ltb default_ip_cycle_budget (fl.cycles_elapsed + 1)) still e e' h s
