-- ===== src/Gen/Overhead.antt =====
-- hj_overhead.rs: the estimate of what recording the GEMM costs. The two f64 fields are left out, and
-- so is the printing.
use Prim.Native.String.{String}
use native.Mathlib.Omega.{div_fact, mod_fact}
use native.Mathlib.Nat.{mul-le-mul}
use slug_arch.Base.{
  ℕ, zero, suc, ◌+◌, ◌*◌, ◌/◌, ◌%◌, ◌^◌, ◌≤◌, ◌<◌, ◌≡◌, refl, arith, ltb, ltb→lt, Bool-cases, inl,
  inr, Option, none, some, if◌then◌else◌,
}
use slug_arch.Gen.{HardwareJitConfig, HardwareJitRecordMode}

abbrev pub gemm_request_flits : ℕ
gemm_request_flits = 49

abbrev pub gemm_response_flits : ℕ
gemm_response_flits = 49

abbrev pub gemm_payload_flits : ℕ
gemm_payload_flits = 49

pub record HardwareJitOverhead : Type 0 where
  pub workload : String
  pub record_mode : HardwareJitRecordMode
  pub request_flits : ℕ
  pub response_flits : ℕ
  pub record_count : ℕ
  pub app_flit_bytes : ℕ
  pub metadata_record_bytes : ℕ
  pub payload_capture_bytes : ℕ
  pub metadata_bytes : ℕ
  pub inserted_data_path_cycles : ℕ

-- `u64::div_ceil`, which panics on a zero divisor.
unfoldable pub div_ceil : ℕ → ℕ → Option ℕ
div_ceil n zero = none
div_ceil n (suc d) = some (if ltb 0 (n % suc d) then n / suc d + 1 else n / suc d)

abbrev pub payload_bytes_per_payload_flit : HardwareJitRecordMode → ℕ
payload_bytes_per_payload_flit HardwareJitRecordMode.validation = 8
payload_bytes_per_payload_flit HardwareJitRecordMode.delta = 8 + 32 * 2
payload_bytes_per_payload_flit HardwareJitRecordMode.full = 32

-- The fields that are computed from the two counts, on `u64`.
unfoldable pub overhead : HardwareJitConfig → ℕ → ℕ → HardwareJitOverhead
overhead hj record_count sampled_payload_flits =
    let payload = sampled_payload_flits * payload_bytes_per_payload_flit hj.record_mode % 2 ^ 64 in
    let records = record_count * hj.metadata_record_bytes % 2 ^ 64 in
    record {
      workload = "slugcxl_gemm_4x4";
      record_mode = hj.record_mode;
      request_flits = gemm_request_flits;
      response_flits = gemm_response_flits;
      record_count = record_count;
      app_flit_bytes = (gemm_request_flits + gemm_response_flits) * 64;
      metadata_record_bytes = records;
      payload_capture_bytes = payload;
      metadata_bytes = (records + payload) % 2 ^ 64;
      inserted_data_path_cycles = 0;
    }

abbrev pub sampled : HardwareJitConfig → Option ℕ → Option ℕ → Option HardwareJitOverhead
sampled hj (some n) (some p) = some (overhead hj n p)
sampled hj _ _ = none

unfoldable pub estimate_gemm_4x4 : HardwareJitConfig → Option HardwareJitOverhead
estimate_gemm_4x4 hj =
    sampled hj (div_ceil (gemm_request_flits + gemm_response_flits) hj.sample_stride)
      (div_ceil gemm_payload_flits hj.sample_stride)

-- The least number of strides that reach `n`.
pub record Strides (n d q : ℕ) : Type 0 where
  pub reach : n ≤ q * d
  pub least : q * d < n + d
  pub bounded : q ≤ n

Strides-up : (n k q r : ℕ) → suc k * q + r ≡ n → r < suc k → 0 < r → Strides n (suc k) (q + 1)
Strides-up n k q r h lo hi = record {
  reach = grind (arith, h, lo);
  least = grind (arith, h, hi);
  bounded = grind (arith, h, hi);
}

Strides-even : (n k q : ℕ) → suc k * q ≡ n → Strides n (suc k) q
Strides-even n k q h = record {
  reach = grind (arith, h);
  least = grind (arith, h);
  bounded = grind (arith, h);
}

div_ceil-Strides : (n d : ℕ) → 0 < d → (q : ℕ) × (div_ceil n d ≡ some q) × Strides n d q
unfolding div_ceil
div_ceil-Strides n zero h = absurd (omega (arith, h))
div_ceil-Strides n (suc k) h =
    let q : ℕ = n / suc k in
    let r : ℕ = n % suc k in
    let whole : suc k * q + r ≡ n = div_fact n k in
    elim (Bool-cases (ltb 0 r)) [
      | inl e ↦ (q + 1, rw e refl, Strides-up n k q r whole (mod_fact n k) (ltb→lt 0 r e))
      | inr e ↦
          let even : r ≡ 0 = ground (arith, e) in
          (q, rw e refl, Strides-even n k q (omega (arith, whole, even)))
    ]

-- The bytes that a mode keeps of a payload: a hash, a hash and two bytes for each of the 32 in delta
-- mode, or the 32 bytes.
abbrev pub BytesEach : HardwareJitRecordMode → ℕ → Type 0
BytesEach HardwareJitRecordMode.validation n = n ≡ 8
BytesEach HardwareJitRecordMode.delta n = n ≡ 72
BytesEach HardwareJitRecordMode.full n = n ≡ 32

payload_bytes_per_payload_flit-BytesEach :
    (mode : HardwareJitRecordMode) → BytesEach mode (payload_bytes_per_payload_flit mode)
payload_bytes_per_payload_flit-BytesEach HardwareJitRecordMode.validation = refl
payload_bytes_per_payload_flit-BytesEach HardwareJitRecordMode.delta = refl
payload_bytes_per_payload_flit-BytesEach HardwareJitRecordMode.full = refl

pub record Estimated (hj : HardwareJitConfig) (o : HardwareJitOverhead) : Type 0 where
  pub estimated : estimate_gemm_4x4 hj ≡ some o
  pub count : Strides 98 hj.sample_stride o.record_count
  pub app_bytes : o.app_flit_bytes ≡ 98 * 64
  pub payloads : ℕ
  pub payload_count : Strides 49 hj.sample_stride payloads
  pub bytes_each : ℕ
  pub by_mode : BytesEach hj.record_mode bytes_each
  pub payload_bytes : o.payload_capture_bytes ≡ payloads * bytes_each
  pub total : o.metadata_bytes ≡ o.record_count * hj.metadata_record_bytes + payloads * bytes_each

payload_bytes_lem :
    (mode : HardwareJitRecordMode) (p : ℕ) → p ≤ 49 → p * payload_bytes_per_payload_flit mode ≤ 3528
payload_bytes_lem HardwareJitRecordMode.validation p h = omega (arith, h)
payload_bytes_lem HardwareJitRecordMode.delta p h = omega (arith, h)
payload_bytes_lem HardwareJitRecordMode.full p h = omega (arith, h)

-- With a stride and with records of a u32 length, the estimate exists: it counts one record for each
-- stride of the 98 flits, rounded up, and one payload for each stride of the 49 with data, and its
-- bytes are the records' and, by the mode, 8, 72 or 32 for each payload, without a wrap of the u64.
pub estimate_gemm_4x4-Estimated :
    (hj : HardwareJitConfig)
    → 0 < hj.sample_stride
    → hj.metadata_record_bytes < 2 ^ 32
    → (o : HardwareJitOverhead) × Estimated hj o
unfolding estimate_gemm_4x4 overhead
estimate_gemm_4x4-Estimated hj pos small =
    let (n, en, sn) = div_ceil-Strides 98 hj.sample_stride pos in
    let (p, ep, sp) = div_ceil-Strides 49 hj.sample_stride pos in
    let records : n * hj.metadata_record_bytes ≤ 98 * 2 ^ 32 =
      mul-le-mul {m₂ = 2 ^ 32} sn.bounded (omega (arith, small)) in
    let payloads = payload_bytes_lem hj.record_mode p sp.bounded in
    (
      overhead hj n p,
      record {
        estimated = rw (en, ep) refl;
        count = sn;
        app_bytes = refl;
        payloads = p;
        payload_count = sp;
        bytes_each = payload_bytes_per_payload_flit hj.record_mode;
        by_mode = payload_bytes_per_payload_flit-BytesEach hj.record_mode;
        payload_bytes = omega (arith, payloads);
        total = omega (arith, records, payloads);
      },
    )
