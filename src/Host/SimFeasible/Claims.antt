-- ===== src/Host/SimFeasible/Claims.antt =====
-- The summary of the QEMU runs and the ledger of claims of sim_feasible.rs. A run is what its JSON files
-- hold; the runs come in the order of their directories.
use Prim.Native.String.{String}
use text.Mathlib.Text.{◌==◌}
use slug_arch.Base.{
  ℕ, ◌+◌, ◌%◌, ◌^◌, Bool, false, ◌&&◌, Option, none, some, List, [], ◌∷◌, if◌then◌else◌, ltb,
}
use slug_arch.Base.{◌==◌ as eqb}

pub data ClaimStatus : Type 0 where
  measured partially_measured blocked : ClaimStatus

-- `summary.json` and `guest-summary.json` of a run, by the fields that are read.
pub record RunFiles : Type 0 where
  pub status : Option String
  pub request_count : Option ℕ
  pub response_count : Option ℕ
  pub tag_mismatches : Option ℕ
  pub dispatch_failures : Option ℕ
  pub elapsed_ms : Option ℕ

pub record Bar2EvidenceSummary : Type 0 where
  pub status : ClaimStatus
  pub runs : ℕ
  pub pass_runs : ℕ
  pub request_count : ℕ
  pub response_count : ℕ
  pub tag_mismatches : ℕ
  pub dispatch_failures : ℕ
  pub guest_elapsed_ms : List ℕ
  pub source_dir : Option String
  pub limitation : String

-- `== Some("pass")`
abbrev pub is_pass : Option String → Bool
is_pass none = false
is_pass (some s) = s == "pass"

-- `unwrap_or(0)`
abbrev pub or_zero : Option ℕ → ℕ
or_zero none = 0
or_zero (some n) = n

abbrev pub push_opt : Option ℕ → List ℕ → List ℕ
push_opt none rest = rest
push_opt (some ms) rest = ms ∷ rest

-- The loop over the runs, its counters summed from the end; the four sums are u64.
unfoldable pub totals : List RunFiles → Bar2EvidenceSummary
totals [] = record {
  status = blocked;
  runs = 0;
  pass_runs = 0;
  request_count = 0;
  response_count = 0;
  tag_mismatches = 0;
  dispatch_failures = 0;
  guest_elapsed_ms = [];
  source_dir = none;
  limitation = "No QEMU Type-2 repeatability artifact directory was supplied";
}
totals (r ∷ rs) =
    let rest = totals rs in
    record rest {
      runs = rest.runs + 1;
      pass_runs = if is_pass r.status then rest.pass_runs + 1 else rest.pass_runs;
      request_count = (or_zero r.request_count + rest.request_count) % 2 ^ 64;
      response_count = (or_zero r.response_count + rest.response_count) % 2 ^ 64;
      tag_mismatches = (or_zero r.tag_mismatches + rest.tag_mismatches) % 2 ^ 64;
      dispatch_failures = (or_zero r.dispatch_failures + rest.dispatch_failures) % 2 ^ 64;
      guest_elapsed_ms = push_opt r.elapsed_ms rest.guest_elapsed_ms;
    }

-- `summarize_bar2_repeatability`, on the name of the directory and its runs.
unfoldable pub summarize_bar2_repeatability : Option (String × List RunFiles) → Bar2EvidenceSummary
summarize_bar2_repeatability none = totals []
summarize_bar2_repeatability (some (dir, runs)) =
    let t = totals runs in
    record t {
      status = if ltb 0 t.runs && eqb t.runs t.pass_runs then measured else blocked;
      source_dir = some dir;
      limitation =
          "This is Type-2 BAR2 command-path evidence, not CXL link latency or hardware endpoint latency";
    }

-- The parts of `DaxProbe` that the ledger reads.
pub record DaxProbe : Type 0 where
  pub dev_root : String
  pub checked : List String
  pub limitation : String

pub record ClaimLedgerEntry : Type 0 where
  pub claim_text : String
  pub status : ClaimStatus
  pub evidence_artifact : String
  pub measured_substrate : String
  pub paper_safe_wording : String
  pub limitation : String
  pub checked : List String
  pub missing_substrate : Option String

abbrev pub claim :
    String → ClaimStatus → String → String → String → List String → Option String → ClaimLedgerEntry
claim name status evidence wording limit checks missing = record {
  claim_text = name;
  status = status;
  evidence_artifact = evidence;
  measured_substrate = "SlugArch/CXLMemSim simulator-feasible pass";
  paper_safe_wording = wording;
  limitation = limit;
  checked = checks;
  missing_substrate = missing;
}

abbrev pub source_or_none : Option String → String
source_or_none none = "none"
source_or_none (some dir) = dir

abbrev pub runtime_status : ClaimStatus → ClaimStatus
runtime_status measured = partially_measured
runtime_status _ = blocked

abbrev pub runtime_wording : ClaimStatus → String
runtime_wording measured =
    "Runtime overhead is partially measured for the QEMU Type-2 BAR2 command path only."
runtime_wording _ =
    "Runtime overhead remains blocked until BAR2 repeatability evidence is measured."

abbrev pub runtime_limitation : ClaimStatus → String
runtime_limitation measured =
    "This is not a CXL link, hardware endpoint, or production continuous-overhead measurement."
runtime_limitation _ =
    "No measured BAR2 repeatability artifact is available, so runtime overhead cannot be cited."

unfoldable pub claim_ledger : Bar2EvidenceSummary → DaxProbe → List ClaimLedgerEntry
claim_ledger bar2 dax =
    claim "QEMU Type-2 BAR2 command/replay boundary" bar2.status (source_or_none bar2.source_dir)
      "CXLMemSim QEMU Type-2 BAR2 carried the SlugArch command stream when the supplied artifact has all runs passing."
      bar2.limitation (source_or_none bar2.source_dir ∷ []) none
    ∷ claim "CXL.mem/DAX simulator traffic" blocked dax.dev_root
        "CXL.mem/DAX simulator traffic remains blocked unless a real streaming workload artifact is present."
        dax.limitation dax.checked (some "DAX streaming workload artifact")
    ∷ claim "CXL.cache coherence" blocked "none"
        "CXL.cache coherence is not measured by BAR2 command traffic or software replay metadata."
        "No live CXLMemSim GPU coherency statistic or CXL.cache transaction artifact is produced by this pass."
        ("/home/victoryang00/CXLMemSim/qemu_integration/guest_libcuda/cpu_gpu_hitm_benchmark.c"
          ∷ [])
        (some "live CXL.cache or coherency-stat workload")
    ∷ claim "DMA" blocked "none" "DMA replay remains a benchmark slot."
        "No real DMA path is exercised or logged by this pass."
        ("QEMU Type-2 BAR2 SlugArch command path" ∷ []) (some "live DMA transaction source")
    ∷ claim "ATS" blocked "none" "ATS replay remains a benchmark slot."
        "No simulator or kernel ATS event path is exposed by this pass."
        ("CXLMemSim Type-2 and Type-3 helper inventory" ∷ [])
        (some "ATS event source and translation log")
    ∷ claim "Page migration" blocked "none" "Page migration replay remains a benchmark slot."
        "No migration event source is exercised or logged by this pass."
        ("/home/victoryang00/CXLMemSim/include/cxlcounter.h" ∷ [])
        (some "live migrate_in/migrate_out counter source")
    ∷ claim "Switch ordering" blocked "none" "Switch ordering replay remains a benchmark slot."
        "No two-host or switch-lock workload is run by this pass."
        ("/home/victoryang00/CXLMemSim/microbench/cxl_switch_lock_bench.c" ∷ [])
        (some "two-host switch-ordering workload")
    ∷ claim "Runtime overhead" (runtime_status bar2.status) (source_or_none bar2.source_dir)
        (runtime_wording bar2.status) (runtime_limitation bar2.status)
        (source_or_none bar2.source_dir ∷ [])
        (some "hardware endpoint timing and continuous workload timing")
    ∷ claim "Compression" partially_measured "software replay metadata report"
        "Compression is measured for software replay artifact modes only."
        "Validation, delta, and full payload accounting do not prove a hardware compression engine."
        ("crates/slugarch-host/src/replay.rs" ∷ []) (some "hardware compression datapath")
    ∷ claim "Replay latency" partially_measured "software replay metadata report"
        "Replay latency is measured as software replay validation only."
        "The pass times validation of replay artifacts, not hardware replay execution."
        ("CxlReplayArtifact::validate_equivalent" ∷ []) (some "hardware replay executor")
    ∷ claim "Provenance" partially_measured "software replay metadata report"
        "Provenance is measured for software labels on the GEMM trace only."
        "The pass does not prove fabric-wide endpoint or protection-domain provenance."
        ("gemm.load_a, gemm.load_b, gemm.compute, gemm.readback" ∷ [])
        (some "fabric-wide provenance labels")
    ∷ claim "FPGA resource cost" blocked "targets/agilex-vr2/generated/slugcxl_hj_overhead.json"
        "FPGA resource cost is blocked for post-fit resources; model-side metadata estimates may be cited separately."
        "No Quartus synthesis, fit, timing, or resource report is produced by this simulator pass."
        ("targets/agilex-vr2/generated/slugcxl_hj_overhead.json" ∷ [])
        (some "post-fit Quartus resource report")
    ∷ []
