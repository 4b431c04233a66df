-- ===== src/Gen/Tests.antt =====
-- Runs of slugcxl-gen, and its theorems at concrete inputs.
use slug_arch.Base.{ℕ, ◌≡◌, ◌↔◌, refl, arith, Option, none, true, List, [], ◌∷◌, ok, err}
use slug_arch.Host.Types.{GemmJob}
use slug_arch.Host.Gemm.{new_host-IsReady}
use slug_arch.Host.Ideal.{ideal, ideal-serves}
use slug_arch.Host.Replay.Capture.{delta}
use slug_arch.Host.Replay.Records.{CxlReplayRecord, gemm_policy}
use slug_arch.Host.Run.{new_host}
use slug_arch.Gen.{
  AddressSpace, HardwareJitConfig, EpochPolicy, slugcxl_4x4, validation_gemm, unknown_wrapper,
  overlapping_address_space, invalid_hardware_jit, validate_jit, check_against, check_spaces,
  validate_config,
}
use slug_arch.Gen.Valid.{IsValid, validate_config_iff}
use slug_arch.Gen.Overhead.{HardwareJitOverhead, Estimated, estimate_gemm_4x4-Estimated}
use slug_arch.Gen.Recorded.{CountsAlike, estimate-run_gemm_recorded}

abbrev space : ℕ → ℕ → AddressSpace
space base length = record {
  name = "bogus";
  base = base;
  length = length;
  readable = true;
  writable = true;
}

default_config_validates : validate_config slugcxl_4x4 ≡ ok tt
unfolding validate_config validate_jit check_spaces check_against
default_config_validates = refl

overlapping_address_spaces_rejected :
    check_spaces (space 0x2000 0x1000 ∷ space 0x2500 0x100 ∷ [])
    ≡ err (overlapping_address_space (space 0x2000 0x1000) (space 0x2500 0x100))
unfolding check_spaces check_against
overlapping_address_spaces_rejected = refl

-- The last address of 64 bits may be in two spaces.
last_address_accepted :
    check_spaces (space 0xFFFFFFFFFFFFFFFF 1 ∷ space 0xFFFFFFFFFFFFFFFF 1 ∷ []) ≡ ok tt
unfolding check_spaces check_against
last_address_accepted = refl

-- An empty space within another is refused.
empty_space_rejected :
    check_spaces (space 0x2000 0x1000 ∷ space 0x2500 0 ∷ [])
    ≡ err (overlapping_address_space (space 0x2000 0x1000) (space 0x2500 0))
unfolding check_spaces check_against
empty_space_rejected = refl

unknown_wrapper_rejected :
    validate_config (record slugcxl_4x4 {
      attached_wrapper = record slugcxl_4x4.attached_wrapper { wrapper_module = "other" };
    })
    ≡ err (unknown_wrapper "other")
unfolding validate_config
unknown_wrapper_rejected = refl

fixed_epoch_rejected :
    validate_jit (record validation_gemm { epoch_policy = EpochPolicy.fixed_flits 0 })
    ≡ err (invalid_hardware_jit "fixed epoch length must be nonzero")
unfolding validate_jit
fixed_epoch_rejected = refl

validate_config_iff_example : (validate_config slugcxl_4x4 ≡ ok tt) ↔ IsValid slugcxl_4x4
validate_config_iff_example = validate_config_iff slugcxl_4x4 (omega arith)

-- A record for every third flit.
abbrev every_third : HardwareJitConfig
every_third = record validation_gemm { sample_stride = 3 }

estimate_gemm_4x4-Estimated_example : (o : HardwareJitOverhead) × Estimated every_third o
estimate_gemm_4x4-Estimated_example =
    estimate_gemm_4x4-Estimated every_third (omega arith) (omega arith)

abbrev no_size : CxlReplayRecord → Option ℕ
no_size r = none

abbrev row : List ℕ
row = 1 ∷ 2 ∷ 3 ∷ 255 ∷ []

abbrev byte_job : GemmJob
byte_job = record { a = row ∷ row ∷ row ∷ row ∷ []; b = row ∷ row ∷ row ∷ row ∷ [] }

estimate-run_gemm_recorded_example :
    CountsAlike ideal no_size (new_host ideal) byte_job (gemm_policy delta) validation_gemm
estimate-run_gemm_recorded_example =
    estimate-run_gemm_recorded ideal ideal-serves no_size (new_host ideal) byte_job
      (gemm_policy delta) validation_gemm (new_host-IsReady ideal ideal-serves) (omega arith) refl
      (omega arith)
