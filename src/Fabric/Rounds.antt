-- ===== src/Fabric/Rounds.antt =====
-- What a round of the loop of engine.rs keeps and what it uses up.
use slug_arch.Base.{ℕ, zero, suc, ◌+◌, ◌≤◌, ◌<◌, ◌≡◌, ◌⊎◌, inl, inr, refl, sym, ap, ◌∙◌, arith}
use slug_arch.Base.{Bool, true, false, ◌||◌, Bool-cases, Option, none, some, List, [], ◌∷◌, ◌++◌}
use slug_arch.Base.{ltb, contains, if◌then◌else◌, length, length-append, ok}
use slug_arch.Ir.Types.{is_cpu_backed}
use slug_arch.Backend.Bind.{DispatchCmd}
use slug_arch.Fabric.Engine.{
  IpDevice, Engine, InFlight, launch, unless_late, keep, retire, polled, scan, collect, last_first,
  init_of, ip_state, default_ip_cycle_budget,
}

-- The commands that are in flight or done.
abbrev pub started : {S : Type 0} → Engine S → ℕ
started e = length e.in_flight + e.report.completions

length-init_of : {A : Type 0} (x : A) (xs : List A) → length (init_of x xs) ≡ length xs
length-init_of x [] = refl
length-init_of x (y ∷ ys) = ap suc (length-init_of y ys)

length-last_first : {A : Type 0} (xs : List A) → length (last_first xs) ≡ length xs
length-last_first [] = refl
length-last_first (x ∷ xs) = ap suc (length-init_of x xs)

module _ (dev : IpDevice) where
  -- A launch starts one command, and takes no cycles back.
  record Launched (e e' : Engine dev.State) : Type 0 where
    one_more : started e' ≡ started e + 1
    no_less : length e.in_flight ≤ length e'.in_flight
    forward : e.report.total_cycles ≤ e'.report.total_cycles

  launch-Launched : (cmd : DispatchCmd) (e : Engine dev.State) → Launched e (launch dev cmd e)
  unfolding launch
  launch-Launched cmd e = elim (Bool-cases (is_cpu_backed cmd.ip)) [
    | inl c ↦ rw c (record { one_more = omega arith; no_less = omega arith; forward = omega arith })
    | inr c ↦
        let more =
          length-append e.in_flight (record { ip = cmd.ip; cmd = cmd; cycles_elapsed = 0 } ∷ []) in
        rw c (record {
          one_more = omega (arith, more);
          no_less = omega (arith, more);
          forward = omega arith;
        })
  ]

  -- A scan over `size` commands.
  pub record Scanned (size : ℕ) (before : Bool) (e : Engine dev.State) (launched : Bool)
      (e' : Engine dev.State) : Type 0 where
    pub kept : length e'.pending + started e' ≡ size + started e
    pub no_less : length e.in_flight ≤ length e'.in_flight
    pub fewer : length e'.pending ≤ size
    pub forward : e.report.total_cycles ≤ e'.report.total_cycles
    pub stays : before ≡ true → launched ≡ true
    pub moved : launched ≡ true → (before ≡ true) ⊎ (length e'.pending < size)
    pub still : launched ≡ false → length e'.pending ≡ size

  -- A round of the scan, on whether the command can fire.
  scan-step :
      (n : ℕ)
      → ((before : Bool) (skipped rest : List DispatchCmd) (e : Engine dev.State)
          → length rest ≤ n
          → Scanned
              (length skipped + length rest)
              before
              e
              ((scan dev n before skipped rest e).0)
              ((scan dev n before skipped rest e).1))
      → (fires before : Bool) (skipped : List DispatchCmd) (cmd : DispatchCmd)
        (rest : List DispatchCmd) (e : Engine dev.State)
      → length (cmd ∷ rest) ≤ suc n
      → (let out =
            scan dev n
              (fires || before)
              (if fires then skipped else skipped ++ (cmd ∷ []))
              (if fires then last_first rest else rest)
              (if fires then launch dev cmd e else e) in
          Scanned (length skipped + length (cmd ∷ rest)) before e (out.0) (out.1))
  scan-step n later true before skipped cmd rest e h =
      let size = length-last_first rest in
      let l = launch-Launched cmd e in
      let s = later true skipped (last_first rest) (launch dev cmd e) (omega (arith, size, h)) in
      record {
        kept = omega (arith, s.kept, l.one_more, size);
        no_less = omega (arith, s.no_less, l.no_less);
        fewer = omega (arith, s.fewer, size);
        forward = omega (arith, s.forward, l.forward);
        stays = λ b. s.stays refl;
        moved = λ b. inr (omega (arith, s.fewer, size));
        still = λ b. let t : true ≡ false = sym (s.stays refl) ∙ b in cc (t);
      }
  scan-step n later false before skipped cmd rest e h =
      let size = length-append skipped (cmd ∷ []) in
      let s = later before (skipped ++ (cmd ∷ [])) rest e (omega (arith, h)) in
      record {
        kept = omega (arith, s.kept, size);
        no_less = s.no_less;
        fewer = omega (arith, s.fewer, size);
        forward = s.forward;
        stays = s.stays;
        moved = λ b. elim (s.moved b) [ inl t ↦ inl t | inr l ↦ inr (omega (arith, l, size)) ];
        still = λ b. omega (arith, s.still b, size);
      }

  pub scan-Scanned :
      (n : ℕ) (before : Bool) (skipped rest : List DispatchCmd) (e : Engine dev.State)
      → length rest ≤ n
      → Scanned
          (length skipped + length rest)
          before
          e
          ((scan dev n before skipped rest e).0)
          ((scan dev n before skipped rest e).1)
  unfolding scan
  scan-Scanned zero before skipped rest e h = record {
    kept = omega (arith, length-append skipped rest);
    no_less = omega arith;
    fewer = omega (arith, length-append skipped rest);
    forward = omega arith;
    stays = λ b. b;
    moved = λ b. inl b;
    still = λ b. length-append skipped rest;
  }
  scan-Scanned (suc n) before skipped [] e h = record {
    kept = omega arith;
    no_less = omega arith;
    fewer = omega arith;
    forward = omega arith;
    stays = λ b. b;
    moved = λ b. inl b;
    still = λ b. omega arith;
  }
  scan-Scanned (suc n) before skipped (cmd ∷ rest) e h =
      scan-step n (scan-Scanned n) (contains e.retired cmd.token_in) before skipped cmd rest e h

  -- What collecting keeps.
  pub record Collected (fls still : List InFlight) (e e' : Engine dev.State) : Type 0 where
    pub all_there : started e' ≡ length fls + length still + e.report.completions
    pub same_cycles : e'.report.total_cycles ≡ e.report.total_cycles
    pub same_pending : e'.pending ≡ e.pending

  -- A round of the collection, on what the poll found.
  collect-step :
      (fl : InFlight) (fls : List InFlight)
      → ((still : List InFlight) (e e' : Engine dev.State)
          → collect dev fls still e ≡ ok e'
          → Collected fls still e e')
      → (done : Option (List ℕ)) (late : Bool) (still : List InFlight) (e e' : Engine dev.State)
      → (let older : InFlight = record fl { cycles_elapsed = fl.cycles_elapsed + 1 } in
          unless_late dev done late older
            (collect dev fls (keep dev done still older) (retire dev done older (polled dev fl e)))
          ≡ ok e')
      → Collected (fl ∷ fls) still e e'
  collect-step fl fls later none true still e e' h = cc (h)
  collect-step fl fls later none false still e e' h =
      let older : InFlight = record fl { cycles_elapsed = fl.cycles_elapsed + 1 } in
      let c = later (still ++ (older ∷ [])) (polled dev fl e) e' h in
      record {
        all_there = omega (arith, c.all_there, length-append still (older ∷ []));
        same_cycles = c.same_cycles;
        same_pending = c.same_pending;
      }
  collect-step fl fls later (some d) late still e e' h =
      let older : InFlight = record fl { cycles_elapsed = fl.cycles_elapsed + 1 } in
      let c = later still (retire dev (some d) older (polled dev fl e)) e' h in
      record {
        all_there = omega (arith, c.all_there);
        same_cycles = c.same_cycles;
        same_pending = c.same_pending;
      }

  pub collect-Collected :
      (fls still : List InFlight) (e e' : Engine dev.State)
      → collect dev fls still e ≡ ok e'
      → Collected fls still e e'
  unfolding collect
  collect-Collected [] still e e' h =
      let same : record e { in_flight = still } ≡ e' = cc (h) in
      record {
        all_there = sym (ap started same) ∙ omega arith;
        same_cycles = sym (ap (λ x. x.report.total_cycles) same);
        same_pending = sym (ap (λ x. x.pending) same);
      }
  collect-Collected (fl ∷ fls) still e e' h =
      collect-step fl fls (collect-Collected fls) ((dev.try_take_done (ip_state dev e.ips fl.ip)).0)
        (ltb default_ip_cycle_budget (fl.cycles_elapsed + 1)) still e e' h
