-- ===== src/Cli/Tests.antt =====
-- The theorems on `run` and `replay` at a concrete module.
use Prim.Native.String.{String}
use slug_arch.Base.{◌*◌, ◌^◌, ◌<◌, arith, true, inl, replicate}
use slug_arch.Ir.Types.{ptx_emulation_core}
use slug_arch.Ir.ValidateAgainstRtlmap.{PipelineRtlmap}
use slug_arch.Backend.Bind.{DispatchCmd}
use slug_arch.Host.Types.{GemmJob}
use slug_arch.Host.Ideal.{ideal, ideal-serves}
use slug_arch.Host.Product.{product}
use slug_arch.Host.Replay.Capture.{delta}
use slug_arch.Host.Replay.Recorder.{is_equivalent}
use slug_arch.Cli.{validate}
use slug_arch.Cli.Validate.{Refuses, validate-TokenEdge}
use slug_arch.Cli.Cxl.{Evaluation, eval_cxl, parse_cxl_record_mode, eval_cxl-equivalent}
use slug_arch.Base.{◌≡◌, refl, none, some, List, [], ◌∷◌, ok, err}
use slug_arch.Fabric.Engine.{IpDevice, RunReport, cycle_cost}
use slug_arch.Fabric.Artifact.{ReplayArtifact, Bincode}
use slug_arch.Frontend.Ast.{
  Instruction, Statement, Statements, Directive, MethodName, extract_entry,
}
use slug_arch.Frontend.Kernel.Lowered.{entries_of, entries_count}
use slug_arch.Frontend.Lower.{lower_op}
use slug_arch.Cli.{run_kernel, replay}
use slug_arch.Cli.Run.{entries_cost, run_kernel-reports, replay-run_kernel}

-- No IP is used on the CPU.
abbrev no_ip : IpDevice
no_ip = record {
  State = Unit;
  fresh = λ id. tt;
  poke_cmd = λ token s. s;
  tick = λ s. s;
  try_take_done = λ s. (none, s);
}

abbrev text : String → String
text s = s

abbrev body : Statements String
body = Statements.cons (Statement.instruction (Instruction.add "type_: U32")) (
    Statements.cons (Statement.instruction Instruction.sqrt)
      (Statements.cons (Statement.instruction Instruction.ret) Statements.nil))

abbrev parsed : List (Directive String)
parsed = Directive.method (MethodName.kernel "k") (some body) ∷ []

few_instructions : entries_count (entries_of parsed) < 2 ^ 32
unfolding extract_entry
few_instructions = omega arith

run_kernel-reports_example :
    (report : RunReport) × (art : ReplayArtifact) × (run_kernel text no_ip parsed 16
      ≡ ok (report, art))
    × (report.completions ≡ entries_count (entries_of parsed))
    × (report.total_cycles ≡ entries_cost text (entries_of parsed))
run_kernel-reports_example = run_kernel-reports text no_ip parsed 16 few_instructions

-- The artifact itself stands for its bytes.
abbrev plain_code : Bincode
plain_code = record {
  Bytes = ReplayArtifact;
  serialize = λ a. a;
  deserialize = λ a. some a;
  reads_back = λ a. refl;
}

abbrev recorded_kernel :
    (report : RunReport) × (art : ReplayArtifact) × (run_kernel text no_ip parsed 16
      ≡ ok (report, art))
    × (report.completions ≡ entries_count (entries_of parsed))
    × (report.total_cycles ≡ entries_cost text (entries_of parsed))
recorded_kernel = run_kernel-reports text no_ip parsed 16 few_instructions

replay-run_kernel_example :
    replay text no_ip plain_code (recorded_kernel.1) ≡ ok (recorded_kernel.0)
replay-run_kernel_example =
    replay-run_kernel text no_ip plain_code parsed 16 (recorded_kernel.0) (recorded_kernel.1)
      (recorded_kernel.2)

module_costs_five : entries_cost text (entries_of parsed) ≡ 5
unfolding extract_entry cycle_cost lower_op
module_costs_five = refl

-- A square root on the CPU.
abbrev free_cmd : DispatchCmd
free_cmd = record {
  ip = ptx_emulation_core;
  opcode = 17;
  token = replicate 32 0;
  token_in = 0;
  token_out = 1;
  meta = record { source_hint = none; policy = none };
}

-- A pipeline of two nodes with a token edge.
abbrev one_edge : PipelineRtlmap
one_edge = record {
  name = "p";
  nodes = [];
  edges = record { from = "n0"; to = "n1"; channel = "token" } ∷ [];
}

validate-TokenEdge_example :
    validate text no_ip (λ d. "diff") parsed one_edge []
    ≡ err (Refuses text no_ip (λ d. "diff") (entries_of parsed) one_edge [])
validate-TokenEdge_example =
    validate-TokenEdge text no_ip (λ d. "diff") parsed one_edge [] "n0" "n1"
      (inl (refl, refl, refl)) few_instructions

abbrev identity_job : GemmJob
identity_job = record {
  a =
      (1 ∷ 0 ∷ 0 ∷ 0 ∷ [])
      ∷ (0 ∷ 1 ∷ 0 ∷ 0 ∷ [])
      ∷ (0 ∷ 0 ∷ 1 ∷ 0 ∷ [])
      ∷ (0 ∷ 0 ∷ 0 ∷ 1 ∷ [])
      ∷ [];
  b =
      (2 ∷ 3 ∷ 4 ∷ 5 ∷ [])
      ∷ (6 ∷ 7 ∷ 8 ∷ 9 ∷ [])
      ∷ (10 ∷ 11 ∷ 12 ∷ 13 ∷ [])
      ∷ (14 ∷ 15 ∷ 16 ∷ 17 ∷ [])
      ∷ [];
}

delta_is_known : parse_cxl_record_mode "delta" ≡ ok delta
unfolding parse_cxl_record_mode
delta_is_known = refl

eval_cxl-equivalent_example :
    (e : Evaluation) × (eval_cxl ideal (λ r. none) identity_job "delta" ≡ ok e)
    × (e.result.c ≡ product identity_job.a identity_job.b)
    × (e.summary.record_count ≡ 98)
    × (e.summary.application_flit_bytes ≡ 98 * 64)
    × (is_equivalent e.compared ≡ true)
eval_cxl-equivalent_example =
    eval_cxl-equivalent ideal (λ r. none) ideal-serves identity_job "delta" delta delta_is_known
      (omega arith)
