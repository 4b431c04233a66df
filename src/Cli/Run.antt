-- ===== src/Cli/Run.antt =====
-- What `run` and `replay` of crates/slugarch-cli/src/main.rs report.
use Prim.Native.String.{String}
use slug_arch.Base.{
  ℕ, suc, ◌+◌, ◌^◌, ◌<◌, ◌≡◌, refl, sym, ap, ◌∙◌, arith, none, List, [], ◌∷◌, map, Result, ok,
  >>=-eq-ok,
}
use slug_arch.Base.{keys, length, All, replicate}
use slug_arch.Ir.AssignTokens.NoEdges.{Ascending}
use slug_arch.Backend.Bind.{emu_opcode}
use slug_arch.Fabric.Engine.{IpDevice, RunReport, cycle_cost}
use slug_arch.Fabric.CpuOnly.{run-free}
use slug_arch.Fabric.Artifact.{ReplayArtifact, from_module, Bincode}
use slug_arch.Frontend.Ast.{Instruction, Directive, EntryView}
use slug_arch.Frontend.Kernel.Lowered.{
  entries_of, entries_count, op_of, op_entries, kernels, lower_to_slugir-kernels,
}
use slug_arch.Cli.{CliError, lower, simulate, run_kernel, replay, all_emu_name}
use slug_arch.Cli.Functions.{IsPlain, ready, passes-ready}
use slug_arch.Cli.Commands.{ops_cost, all_ops_cost, all_ops_count, emit_dispatches-free}

module _ {Data : Type 0} (debug : Data → String) where
  -- The cycles of an instruction on the CPU.
  abbrev pub inst_cost : Instruction Data → ℕ
  inst_cost inst = cycle_cost (emu_opcode (op_of debug inst))

  abbrev pub insts_cost : List (Instruction Data) → ℕ
  insts_cost [] = 0
  insts_cost (i ∷ is) = inst_cost i + insts_cost is

  -- The cost of the instructions of all entry kernels.
  abbrev pub entries_cost : List (EntryView Data) → ℕ
  entries_cost [] = 0
  entries_cost (e ∷ es) = insts_cost e.instructions + entries_cost es

  above :
      (k n : ℕ) (insts : List (Instruction Data))
      → k < n
      → All (λ j. k < j) (keys (op_entries debug n insts))
  above k n [] h = tt
  above k n (i ∷ insts) h = (h, above k (n + 1) insts (omega (arith, h)))

  op_entries-Ascending :
      (n : ℕ) (insts : List (Instruction Data)) → Ascending (keys (op_entries debug n insts))
  op_entries-Ascending n [] = tt
  op_entries-Ascending n (i ∷ insts) =
      (above n (n + 1) insts (omega arith), op_entries-Ascending (n + 1) insts)

  kernels-IsPlain : (es : List (EntryView Data)) (n : ℕ) → All IsPlain (kernels debug es n)
  kernels-IsPlain [] n = tt
  kernels-IsPlain (e ∷ es) n = (
    record { no_edges = refl; ascending = op_entries-Ascending n e.instructions },
    kernels-IsPlain es (n + length e.instructions),
  )

  ops_cost-op_entries :
      (n : ℕ) (insts : List (Instruction Data))
      → ops_cost (op_entries debug n insts) ≡ insts_cost insts
  ops_cost-op_entries n [] = refl
  ops_cost-op_entries n (i ∷ insts) = omega (arith, ops_cost-op_entries (n + 1) insts)

  length-op_entries :
      (n : ℕ) (insts : List (Instruction Data)) → length (op_entries debug n insts) ≡ length insts
  length-op_entries n [] = refl
  length-op_entries n (i ∷ insts) = ap suc (length-op_entries (n + 1) insts)

  all_ops-kernels :
      (es : List (EntryView Data)) (n : ℕ)
      → (all_ops_cost (kernels debug es n) ≡ entries_cost es)
        × (all_ops_count (kernels debug es n) ≡ entries_count es)
  all_ops-kernels [] n = (refl, refl)
  all_ops-kernels (e ∷ es) n =
      let (c, l) = all_ops-kernels es (n + length e.instructions) in
      (
        omega (arith, c, ops_cost-op_entries n e.instructions),
        omega (arith, l, length-op_entries n e.instructions),
      )

  module _ (dev : IpDevice) where
    pub lower-ready :
        (parsed : List (Directive Data))
        → entries_count (entries_of parsed) < 2 ^ 32
        → lower debug dev parsed
          ≡ ok
              (record { functions = map ready (kernels debug (entries_of parsed) 0); symbols = [] })
    unfolding lower
    lower-ready parsed small =
        rw
          (
            lower_to_slugir-kernels debug parsed 0 (omega (arith, small)),
            passes-ready (kernels debug (entries_of parsed) 0)
                (kernels-IsPlain (entries_of parsed) 0),
          )
          refl

    -- Running a parsed PTX module with fewer than 2^32 instructions in its entry kernels succeeds,
    -- whatever it holds: the report counts a completion for each of these instructions, and in all
    -- the cycles that the CPU takes for their opcodes.
    pub run_kernel-reports :
        (parsed : List (Directive Data)) (mem_size : ℕ)
        → entries_count (entries_of parsed) < 2 ^ 32
        → (report : RunReport) × (art : ReplayArtifact) × (run_kernel debug dev parsed mem_size
            ≡ ok (report, art))
          × (report.completions ≡ entries_count (entries_of parsed))
          × (report.total_cycles ≡ entries_cost (entries_of parsed))
    unfolding run_kernel simulate
    run_kernel-reports parsed mem_size small =
        let es = entries_of parsed in
        let fs = kernels debug es 0 in
        let (cmds, emitted, free) = emit_dispatches-free all_emu_name fs (kernels-IsPlain es 0) in
        let (e, ran, cycles, count) = run-free dev (λ id. none) cmds free.free in
        let (cost_is, count_is) = all_ops-kernels es 0 in
        (
          e.report,
          from_module (record { functions = map ready fs; symbols = [] }) (replicate mem_size 0)
              all_emu_name,
          rw (lower-ready parsed small, emitted, ran) refl,
          omega (arith, count, free.counted, count_is),
          omega (arith, cycles, free.cost_is, cost_is),
        )

    -- Replaying the artifact that a run records gives the report of the run, when its bytes are read back.
    pub replay-run_kernel :
        (code : Bincode) (parsed : List (Directive Data)) (mem_size : ℕ) (report : RunReport)
        (art : ReplayArtifact)
        → run_kernel debug dev parsed mem_size ≡ ok (report, art)
        → replay debug dev code (code.serialize art) ≡ ok report
    unfolding run_kernel replay from_module
    replay-run_kernel code parsed mem_size report art h =
        let (m, lowered, h1) = >>=-eq-ok (lower debug dev parsed) _ h in
        let (r, simulated, h2) = >>=-eq-ok (simulate debug dev m all_emu_name) _ h1 in
        let ran = from_module m (replicate mem_size 0) all_emu_name in
        let same : ◌≡◌ {A = Result CliError (RunReport × ReplayArtifact)} (ok (r, ran))
            (ok (report, art)) =
          h2 in
        let same_report : r ≡ report = cc (same) in
        let same_art : ran ≡ art = cc (same) in
        rw (code.reads_back art) (
          ap (λ a. simulate debug dev a.slugir a.policy_name) (sym same_art)
          ∙ simulated
          ∙ ap ok same_report)
