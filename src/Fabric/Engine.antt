-- ===== src/Fabric/Engine.antt =====
-- crates/slugarch-fabric/src/engine.rs and cpu_emu.rs. The IPs are compiled RTL behind `VerilatedIp`
-- (crates/slugarch-verilator/src/impls.rs), and a parameter. The loop runs on fuel; Fabric/Finish shows
-- how much is enough. The iteration over the set of IPs to tick is in the order of the commands in
-- flight; each IP is ticked once and the order does not matter to it.
use slug_arch.Base.{
  ℕ, zero, suc, ◌+◌, ◌*◌, Bool, true, false, ◌&&◌, ◌||◌, Option, none, some, List, [], ◌∷◌, ◌++◌,
}
use slug_arch.Base.{◌==◌, ltb, leb, contains, if◌then◌else◌, length, Result, ok, err}
use slug_arch.Ir.Types.{IpId, discriminant, is_cpu_backed, noc_mesh}
use slug_arch.Backend.Bind.{DispatchCmd}

-- The calls of `VerilatedIp` that the fabric makes; `fresh` is an IP after `new` and `reset`.
pub record IpDevice : Type 1 where
  pub State : Type 0
  pub fresh : IpId → State
  pub poke_cmd : List ℕ → State → State
  pub tick : State → State
  pub try_take_done : State → Option (List ℕ) × State

-- The errors of error.rs that the loop raises.
pub data FabricError : Type 0 where
  dispatch_timeout : IpId → ℕ → FabricError
  token_resolution_stuck : ℕ → FabricError

abbrev pub default_ip_cycle_budget : ℕ
default_ip_cycle_budget = 4096

-- `cpu_emu::cycle_cost`
unfoldable pub cycle_cost : ℕ → ℕ
cycle_cost opcode = if leb 17 opcode && leb opcode 23 then 4 else if opcode == 254 then 0 else 1

abbrev pub same_ip : IpId → IpId → Bool
same_ip a b = discriminant a == discriminant b

abbrev pub set_ip {ℓ} : {A : Type ℓ} → (IpId → A) → IpId → A → IpId → A
set_ip f k v i = if same_ip i k then v else f i

pub record RunReport : Type 0 where
  pub total_cycles : ℕ
  pub per_ip_cycles : IpId → ℕ
  pub completions : ℕ

abbrev pub empty_report : RunReport
empty_report = record { total_cycles = 0; per_ip_cycles = λ i. 0; completions = 0 }

pub record InFlight : Type 0 where
  pub ip : IpId
  pub cmd : DispatchCmd
  pub cycles_elapsed : ℕ

-- `last_of` and `init_of` of a list with a first element.
abbrev pub last_of {ℓ} : {A : Type ℓ} → A → List A → A
last_of x [] = x
last_of x (y ∷ ys) = last_of y ys

abbrev pub init_of {ℓ} : {A : Type ℓ} → A → List A → List A
init_of x [] = []
init_of x (y ∷ ys) = x ∷ init_of y ys

-- What `swap_remove` leaves from its index on: the last element comes first.
abbrev pub last_first {ℓ} : {A : Type ℓ} → List A → List A
last_first [] = []
last_first (x ∷ xs) = last_of x xs ∷ init_of x xs

-- The variables of `run`, with the IPs of the fabric.
pub record Engine (S : Type 0) : Type 0 where
  pub ips : IpId → Option S
  pub report : RunReport
  pub retired : List ℕ
  pub pending : List DispatchCmd
  pub in_flight : List InFlight

module _ (dev : IpDevice) where
  open dev use {State, fresh, poke_cmd, tick, try_take_done}

  -- `ensure_ip`; once it has run, the `unwrap` of a lookup cannot fail.
  abbrev pub ip_state : (IpId → Option State) → IpId → State
  ip_state ips id = elim (ips id) [ none ↦ fresh id | some s ↦ s ]

  -- A command that can fire, on the CPU or an IP.
  unfoldable pub launch : DispatchCmd → Engine State → Engine State
  launch cmd e =
      if is_cpu_backed cmd.ip
      then record e {
        report = record e.report {
          total_cycles = e.report.total_cycles + cycle_cost cmd.opcode;
          per_ip_cycles =
              set_ip e.report.per_ip_cycles cmd.ip
                (e.report.per_ip_cycles cmd.ip + cycle_cost cmd.opcode);
          completions = e.report.completions + 1;
        };
        retired = cmd.token_out ∷ e.retired;
      }
      else record e {
        ips = set_ip e.ips cmd.ip (some (poke_cmd cmd.token (ip_state e.ips cmd.ip)));
        in_flight = e.in_flight ++ (record { ip = cmd.ip; cmd = cmd; cycles_elapsed = 0 } ∷ []);
      }

  -- The inner loop over `pending`: those before the index, and those from it on. Each round takes a
  -- command from the second list, so that its length is fuel enough.
  unfoldable pub scan :
      ℕ → Bool → List DispatchCmd → List DispatchCmd → Engine State → Bool × Engine State
  scan zero launched skipped rest e = (launched, record e { pending = skipped ++ rest })
  scan (suc n) launched skipped [] e = (launched, record e { pending = skipped })
  scan (suc n) launched skipped (cmd ∷ rest) e =
      let can_fire = contains e.retired cmd.token_in in
      scan n (can_fire || launched) (if can_fire then skipped else skipped ++ (cmd ∷ []))
        (if can_fire then last_first rest else rest) (if can_fire then launch cmd e else e)

  -- `unique_ips`, of the commands in flight that are not in a list.
  abbrev pub in_list : List IpId → IpId → Bool
  in_list [] ip = false
  in_list (i ∷ is) ip = same_ip i ip || in_list is ip

  unfoldable pub tick_ips : List IpId → List InFlight → (IpId → Option State) → IpId → Option State
  tick_ips seen [] ips = ips
  tick_ips seen (fl ∷ fls) ips =
      let old = in_list seen fl.ip in
      tick_ips (if old then seen else fl.ip ∷ seen) fls
        (if old then ips else set_ip ips fl.ip (some (tick (ip_state ips fl.ip))))

  -- The look at a command in flight: its IP is polled, and a cycle counted.
  abbrev pub polled : InFlight → Engine State → Engine State
  polled fl e = record e {
    ips = set_ip e.ips fl.ip (some ((try_take_done (ip_state e.ips fl.ip)).1));
    report = record e.report {
      per_ip_cycles = set_ip e.report.per_ip_cycles fl.ip (e.report.per_ip_cycles fl.ip + 1);
    };
  }

  -- A command that is done is retired.
  abbrev pub retire : Option (List ℕ) → InFlight → Engine State → Engine State
  retire none fl e = e
  retire (some _) fl e = record e {
    report = record e.report { completions = e.report.completions + 1 };
    retired = fl.cmd.token_out ∷ e.retired;
  }

  -- A command that is not done stays in flight.
  abbrev pub keep : Option (List ℕ) → List InFlight → InFlight → List InFlight
  keep none still fl = still ++ (fl ∷ [])
  keep (some _) still fl = still

  -- A command that is not done after its budget is an error.
  abbrev pub unless_late :
      Option (List ℕ)
      → Bool
      → InFlight
      → Result FabricError (Engine State)
      → Result FabricError (Engine State)
  unless_late none true fl rest = err (dispatch_timeout fl.ip fl.cycles_elapsed)
  unless_late none false fl rest = rest
  unless_late (some _) late fl rest = rest

  -- The loop over the drained commands in flight; `still` are those that stay.
  unfoldable pub collect :
      List InFlight → List InFlight → Engine State → Result FabricError (Engine State)
  collect [] still e = ok (record e { in_flight = still })
  collect (fl ∷ fls) still e =
      let older = record fl { cycles_elapsed = fl.cycles_elapsed + 1 } in
      let done = (try_take_done (ip_state e.ips fl.ip)).0 in
      unless_late done (ltb default_ip_cycle_budget older.cycles_elapsed) older
        (collect fls (keep done still older) (retire done older (polled fl e)))

  -- `in_flight.first().map(|f| f.ip).unwrap_or(IpId::NoCMesh)`
  abbrev pub first_ip : List InFlight → IpId
  first_ip [] = noc_mesh
  first_ip (fl ∷ fls) = fl.ip

  abbrev pub check_budget : ℕ → Engine State → Result FabricError (Engine State)
  check_budget budget e =
      if ltb budget e.report.total_cycles
      then err (dispatch_timeout (first_ip e.in_flight) e.report.total_cycles)
      else ok e

  abbrev pub then_check : ℕ → Result FabricError (Engine State) → Result FabricError (Engine State)
  then_check budget (ok e) = check_budget budget e
  then_check budget (err w) = err w

  -- The body of the loop after the scan, by the commands in flight and those pending.
  unfoldable pub advance :
      ℕ → Bool → List InFlight → List DispatchCmd → Engine State → Result FabricError (Engine State)
  unfolding collect
  advance budget launched [] [] e = ok e
  advance budget launched [] (c ∷ cs) e =
      if launched then ok e else err (token_resolution_stuck (length (c ∷ cs)))
  advance budget launched (fl ∷ fls) pending e = then_check budget (
      collect (fl ∷ fls) [] (record e {
        ips = tick_ips [] (fl ∷ fls) e.ips;
        report = record e.report { total_cycles = e.report.total_cycles + 1 };
      }))

  -- One round of the loop.
  abbrev pub round : ℕ → Engine State → Result FabricError (Engine State)
  round budget e =
      let (launched, e1) = scan (length e.pending) false [] e.pending e in
      advance budget launched e1.in_flight e1.pending e1

  -- `pending.is_empty() && in_flight.is_empty()`
  abbrev pub idle : Engine State → Bool
  idle e = length e.pending == 0 && length e.in_flight == 0

  pub data Outcome : Type 0 where
    finished : Engine State → Outcome
    failed : FabricError → Outcome
    out_of_fuel : Outcome

  unfoldable pub run_rounds : ℕ → ℕ → Engine State → Outcome
  run_rounds zero budget e = if idle e then finished e else out_of_fuel
  run_rounds (suc n) budget e =
      let more = run_rounds n budget in
      if idle e then finished e else elim (round budget e) [ ok e' ↦ more e' | err w ↦ failed w ]

  abbrev pub global_budget : List DispatchCmd → ℕ
  global_budget stream = 4 * default_ip_cycle_budget * (1 + length stream)

  abbrev pub initial : (IpId → Option State) → List DispatchCmd → Engine State
  initial ips stream = record {
    ips = ips;
    report = empty_report;
    retired = 0 ∷ [];
    pending = stream;
    in_flight = [];
  }

  -- `Fabric::run`, with the fuel that Fabric/Finish justifies.
  unfoldable pub run : (IpId → Option State) → List DispatchCmd → Outcome
  run ips stream =
      run_rounds (global_budget stream + length stream + 2) (global_budget stream)
        (initial ips stream)
