-- ===== src/Cli.antt =====
-- The commands of crates/slugarch-cli/src/main.rs: `lower`, `run`, `replay`, `validate` and `eval-cxl`. The PTX
-- parser is vendored, and the arguments and the files are left out: a command takes what they hold.
use Prim.Native.String.{String}
use slug_arch.Base.{ℕ, Option, none, some, List, [], ◌∷◌, Result, ok, err, ◌>>=◌, replicate, ok_or}
use slug_arch.Ir.Types.{IpId, ptx_emulation_core}
use slug_arch.Ir.Ops.{Op}
use slug_arch.Ir.Graph.{Function, Module}
use slug_arch.Ir.FuseDecodeOps.{fuse_decode_ops}
use slug_arch.Ir.SelectBackend.{select_backend}
use slug_arch.Ir.AssignTokens.{IrError, assign_tokens}
use slug_arch.Ir.ValidateAgainstRtlmap.{PipelineRtlmap, RtlmapDiff, run_validate}
use slug_arch.Backend.Emit.{EmitError, emit_dispatches}
use slug_arch.Fabric.Engine.{
  IpDevice, FabricError, RunReport, Outcome, finished, failed, out_of_fuel,
}
use slug_arch.Fabric.Engine.{run}
use slug_arch.Fabric.Artifact.{ReplayArtifact, from_module, Bincode}
use slug_arch.Host.Types.{HostError}
use slug_arch.Frontend.Ast.{Directive}
use slug_arch.Frontend.Lower.{FrontendError}
use slug_arch.Frontend.Kernel.{lower_to_slugir}
pub mod Functions
pub mod Commands
pub mod Run
pub mod Validate
pub mod Cxl
mod Tests

-- The errors of the steps, by the step that fails; `no_end` is none of the source's.
pub data CliError : Type 0 where
  lower_failed : FrontendError → CliError
  tokens_failed : IrError → CliError
  bind_failed : EmitError → CliError
  fabric_failed : FabricError → CliError
  validate_failed : IrError → CliError
  host_failed : HostError → CliError
  unknown_mode : String → CliError
  read_failed no_functions no_end : CliError

-- `AllEmuPolicy::pick`
unfoldable pub all_emu_pick : Op → IpId
all_emu_pick op = ptx_emulation_core

abbrev pub all_emu_name : String
all_emu_name = "all_emu_v1"

-- `map_err`
abbrev pub map_err {ℓ} :
    {Err : Type 0} {Out : Type ℓ} → (Err → CliError) → Result Err Out → Result CliError Out
map_err f (err e) = err (f e)
map_err f (ok x) = ok x

-- `AssignTokens.run(&mut m)`: the functions after the pass, if it succeeds.
abbrev pub tokens_assigned :
    Result IrError (Unit {0}) × List Function → Result CliError (List Function)
tokens_assigned (err e, fs) = err (tokens_failed e)
tokens_assigned (ok _, fs) = ok fs

abbrev pub report_of : (dev : IpDevice) → Outcome dev → Result CliError RunReport
report_of dev (finished e) = ok e.report
report_of dev (failed w) = err (fabric_failed w)
report_of dev out_of_fuel = err no_end

module _ {Data : Type 0} (debug : Data → String) (dev : IpDevice) where
  -- `lower`, after the parser.
  unfoldable pub lower : List (Directive Data) → Result CliError Module
  lower parsed = do
    (m, _) ← map_err lower_failed (lower_to_slugir debug parsed 0)
    fs ← tokens_assigned (assign_tokens (select_backend all_emu_pick (fuse_decode_ops m.functions)))
    ok (record m { functions = fs })

  -- The report of a stream on a fabric without IPs, as `Fabric::new` makes it.
  unfoldable pub simulate : Module → String → Result CliError RunReport
  simulate m policy = do
    stream ← map_err bind_failed (emit_dispatches policy m.functions)
    report_of dev (run dev (λ id. none) stream)

  -- `run`: the report, and the artifact that `--record` writes.
  unfoldable pub run_kernel :
      List (Directive Data) → ℕ → Result CliError (RunReport × ReplayArtifact)
  run_kernel parsed mem_size = do
    m ← lower parsed
    report ← simulate m all_emu_name
    ok (report, from_module m (replicate mem_size 0) all_emu_name)

  -- `replay`, on the bytes of the artifact.
  unfoldable pub replay : (code : Bincode) → code.Bytes → Result CliError RunReport
  replay code bytes = do
    art ← ok_or (code.deserialize bytes) read_failed
    simulate art.slugir art.policy_name

  -- `m.functions.first()`
  abbrev pub first_name : List Function → Result CliError String
  first_name [] = err no_functions
  first_name (f ∷ fs) = ok f.name

  -- `validate`, on the pipeline of the oracle and the map of the hints.
  unfoldable pub validate :
      (RtlmapDiff → String)
      → List (Directive Data)
      → PipelineRtlmap
      → List (String × String)
      → Result CliError (Unit {0})
  validate render parsed oracle hints = do
    m ← lower parsed
    name ← first_name m.functions
    map_err validate_failed (
        run_validate render
          (record { oracle = oracle; function_name = name; node_id_of_hint = hints }) m)
