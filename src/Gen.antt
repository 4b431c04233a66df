-- ===== src/Gen.antt =====
-- The crate slugcxl-gen: crates/slugcxl-gen/src/config.rs, the configuration of an endpoint and its checks,
-- and hj_overhead.rs, the estimate of what recording costs. The emitters print SystemVerilog and C from a
-- configuration and are not modelled.
use Prim.Native.Nat.{min}
use Prim.Native.String.{String}
use text.Mathlib.Text.{◌==◌}
use slug_arch.Base.{
  ℕ, zero, suc, ◌+◌, ◌-◌, ◌^◌, ltb, Bool, true, false, ◌&&◌, ◌||◌, List, [], ◌∷◌, if◌then◌else◌,
  Result, ok, err, ◌>>=◌,
}
pub mod Spaces
pub mod Valid
pub mod Overhead
pub mod Recorded
mod Tests

pub record CxlProtocol : Type 0 where
  pub mem : Bool
  pub cache : Bool

pub record AddressSpace : Type 0 where
  pub name : String
  pub base : ℕ
  pub length : ℕ
  pub readable : Bool
  pub writable : Bool

pub record AttachedWrapper : Type 0 where
  pub wrapper_module : String
  pub token_width : ℕ
  pub dispatch_base : ℕ
  pub result_base : ℕ

pub data RouteTarget : Type 0 where
  attached_ip dram drop : RouteTarget

pub record DispatchRoute : Type 0 where
  pub match_mask : ℕ
  pub match_value : ℕ
  pub target : RouteTarget

pub data HardwareJitRecordMode : Type 0 where
  validation delta full : HardwareJitRecordMode

pub data EpochPolicy : Type 0 where
  gemm_phase : EpochPolicy
  fixed_flits : ℕ → EpochPolicy

pub record HardwareJitConfig : Type 0 where
  pub enabled : Bool
  pub record_mode : HardwareJitRecordMode
  pub epoch_policy : EpochPolicy
  pub sample_stride : ℕ
  pub metadata_fifo_depth : ℕ
  pub metadata_record_bytes : ℕ

pub record CxlEndpointConfig : Type 0 where
  pub name : String
  pub protocol : CxlProtocol
  pub address_spaces : List AddressSpace
  pub attached_wrapper : AttachedWrapper
  pub outstanding_reqs : ℕ
  pub dispatch_table : List DispatchRoute
  pub hardware_jit : HardwareJitConfig

pub data GenError : Type 0 where
  unknown_wrapper : String → GenError
  overlapping_address_space : AddressSpace → AddressSpace → GenError
  invalid_hardware_jit : String → GenError

abbrev pub validation_gemm : HardwareJitConfig
validation_gemm = record {
  enabled = true;
  record_mode = HardwareJitRecordMode.validation;
  epoch_policy = EpochPolicy.gemm_phase;
  sample_stride = 1;
  metadata_fifo_depth = 512;
  metadata_record_bytes = 32;
}

abbrev pub slugcxl_4x4 : CxlEndpointConfig
slugcxl_4x4 = record {
  name = "slugcxl_4x4";
  protocol = record { mem = true; cache = true };
  address_spaces =
      record { name = "dispatch"; base = 0x2000; length = 0x1000; readable = true; writable = true }
      ∷ record {
        name = "result";
        base = 0x3000;
        length = 0x1000;
        readable = true;
        writable = false;
      }
      ∷ [];
  attached_wrapper = record {
    wrapper_module = "gemma_codegen_systolic_array_16x16_df";
    token_width = 256;
    dispatch_base = 0x2000;
    result_base = 0x3000;
  };
  outstanding_reqs = 1;
  dispatch_table =
      record { match_mask = 0xFFFFF000; match_value = 0x00002000; target = RouteTarget.attached_ip }
      ∷ [];
  hardware_jit = validation_gemm;
}

abbrev pub known_wrappers : List String
known_wrappers =
    "gemma_codegen_systolic_array_4x4_df" ∷ "gemma_codegen_systolic_array_16x16_df"
    ∷ "gemma_codegen_systolic_array_32x32_df" ∷ []

-- `KNOWN_WRAPPERS.contains(..)`
abbrev pub is_known : List String → String → Bool
is_known [] w = false
is_known (k ∷ ks) w = (k == w) || is_known ks w

-- `n == 0`
abbrev pub is_zero : ℕ → Bool
is_zero zero = true
is_zero (suc n) = false

-- An early return of an error, when a test succeeds.
abbrev pub refuse_if : Bool → String → Result GenError (Unit {0})
refuse_if true why = err (invalid_hardware_jit why)
refuse_if false why = ok tt

-- The `if let` on the epoch policy.
abbrev pub fixed_length_zero : EpochPolicy → Bool
fixed_length_zero EpochPolicy.gemm_phase = false
fixed_length_zero (EpochPolicy.fixed_flits n) = is_zero n

-- `HardwareJitConfig::validate`
unfoldable pub validate_jit : HardwareJitConfig → Result GenError (Unit {0})
validate_jit hj = do
  _ ← refuse_if (is_zero hj.sample_stride) "sample_stride must be nonzero"
  _ ← refuse_if (is_zero hj.metadata_fifo_depth) "metadata_fifo_depth must be nonzero"
  _ ← refuse_if (ltb hj.metadata_record_bytes 16) "metadata_record_bytes must be at least 16"
  refuse_if (fixed_length_zero hj.epoch_policy) "fixed epoch length must be nonzero"

unfoldable pub record_mode_code : HardwareJitConfig → ℕ
record_mode_code hj = elim hj.record_mode [ validation ↦ 0 | delta ↦ 1 | full ↦ 2 ]

-- `base.saturating_add(length)` on a `u64`
abbrev pub end : AddressSpace → ℕ
end s = min (s.base + s.length) (2 ^ 64 - 1)

abbrev pub overlaps : AddressSpace → AddressSpace → Bool
overlaps a b = ltb a.base (end b) && ltb b.base (end a)

-- The inner loop: one space against those after it.
unfoldable pub check_against : AddressSpace → List AddressSpace → Result GenError (Unit {0})
check_against a [] = ok tt
check_against a (b ∷ bs) =
    let rest = check_against a bs in
    if overlaps a b then err (overlapping_address_space a b) else rest

unfoldable pub check_spaces : List AddressSpace → Result GenError (Unit {0})
check_spaces [] = ok tt
check_spaces (a ∷ later) = check_against a later >>= λ _. check_spaces later

-- `CxlEndpointConfig::validate`
unfoldable pub validate_config : CxlEndpointConfig → Result GenError (Unit {0})
validate_config cfg =
    if is_known known_wrappers cfg.attached_wrapper.wrapper_module
    then (do _ ← validate_jit cfg.hardware_jit; check_spaces cfg.address_spaces)
    else err (unknown_wrapper cfg.attached_wrapper.wrapper_module)
