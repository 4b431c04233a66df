-- ===== src/Gen/Valid.antt =====
-- The configurations that config.rs accepts.
use Prim.Native.String.{String}
use text.Mathlib.TextEquality.{eq_iff}
use slug_arch.Base.{
  ℕ, zero, suc, ◌≤◌, ◌<◌, ◌≡◌, ◌↔◌, ◌⊎◌, inl, inr, refl, arith, ltb, Bool, true, false, Bool-cases,
  or-cases, or-right, List, [], ◌∷◌, All, ok, >>=-eq-ok,
}
use slug_arch.Gen.{
  CxlEndpointConfig, HardwareJitConfig, EpochPolicy, known_wrappers, is_known, is_zero, refuse_if,
  fixed_length_zero, validate_jit, validate_config,
}
use slug_arch.Gen.Spaces.{Pairwise, IsNonempty, check_spaces_iff}

abbrev Among : List String → String → Type 0
Among [] w = ⊥
Among (k ∷ ks) w = (k ≡ w) ⊎ Among ks w

is_known_iff : (ks : List String) (w : String) → (is_known ks w ≡ true) ↔ Among ks w
is_known_iff [] w = (λ h. (cc (h)), λ h. absurd h)
is_known_iff (k ∷ ks) w =
    let (there, back) = is_known_iff ks w in
    (
      λ h. elim (or-cases _ _ h) [ inl e ↦ inl ((eq_iff k w).0 e) | inr e ↦ inr (there e) ],
      λ m. elim m [ inl e ↦ rw ((eq_iff k w).1 e) refl | inr r ↦ or-right _ _ (back r) ],
    )

-- An epoch of a fixed length has one.
abbrev HasLength : EpochPolicy → Type 0
HasLength EpochPolicy.gemm_phase = Unit {0}
HasLength (EpochPolicy.fixed_flits n) = 0 < n

pub record IsJit (hj : HardwareJitConfig) : Type 0 where
  pub stride : 0 < hj.sample_stride
  pub depth : 0 < hj.metadata_fifo_depth
  pub bytes : 16 ≤ hj.metadata_record_bytes
  pub epochs : HasLength hj.epoch_policy

refuse_if-ok : (b : Bool) (why : String) → refuse_if b why ≡ ok tt → b ≡ false
refuse_if-ok true why h = cc (h)
refuse_if-ok false why h = refl

is_zero_iff : (n : ℕ) → (is_zero n ≡ false) ↔ (0 < n)
is_zero_iff zero = (λ h. (cc (h)), λ h. absurd (omega (arith, h)))
is_zero_iff (suc n) = (λ h. omega arith, λ h. refl)

fixed_length_iff : (e : EpochPolicy) → (fixed_length_zero e ≡ false) ↔ HasLength e
fixed_length_iff EpochPolicy.gemm_phase = (λ h. tt, λ h. refl)
fixed_length_iff (EpochPolicy.fixed_flits n) = is_zero_iff n

ltb-false_iff : (a b : ℕ) → (ltb a b ≡ false) ↔ (b ≤ a)
ltb-false_iff a b = (λ h. ground (arith, h), λ h. ground (arith, h))

pub validate_jit_iff : (hj : HardwareJitConfig) → (validate_jit hj ≡ ok tt) ↔ IsJit hj
unfolding validate_jit
validate_jit_iff hj = (
  λ h.
      let (_, a, h1) = >>=-eq-ok (refuse_if (is_zero hj.sample_stride) _) _ h in
      let (_, b, h2) = >>=-eq-ok (refuse_if (is_zero hj.metadata_fifo_depth) _) _ h1 in
      let (_, c, d) = >>=-eq-ok (refuse_if (ltb hj.metadata_record_bytes 16) _) _ h2 in
      record {
        stride = (is_zero_iff _).0 (refuse_if-ok _ _ a);
        depth = (is_zero_iff _).0 (refuse_if-ok _ _ b);
        bytes = (ltb-false_iff _ _).0 (refuse_if-ok _ _ c);
        epochs = (fixed_length_iff _).0 (refuse_if-ok _ _ d);
      },
  λ v.
      rw
        (
          (is_zero_iff _).1 v.stride,
          (is_zero_iff _).1 v.depth,
          (ltb-false_iff _ _).1 v.bytes,
          (fixed_length_iff _).1 v.epochs,
        )
        refl,
)

-- What a configuration promises.
pub record IsValid (cfg : CxlEndpointConfig) : Type 0 where
  pub wrapper : Among known_wrappers cfg.attached_wrapper.wrapper_module
  pub jit : IsJit cfg.hardware_jit
  pub apart : Pairwise cfg.address_spaces

-- A configuration without empty address spaces is accepted exactly when its wrapper is one of the
-- three known, its recording has a stride, a FIFO, records of at least 16 bytes and epochs of some
-- length, and no two of its spaces share an address below 2^64 - 1.
pub validate_config_iff :
    (cfg : CxlEndpointConfig)
    → All IsNonempty cfg.address_spaces
    → (validate_config cfg ≡ ok tt) ↔ IsValid cfg
unfolding validate_config
validate_config_iff cfg ns =
    let name = cfg.attached_wrapper.wrapper_module in
    let (listed, known) = is_known_iff known_wrappers name in
    let (checked, check) = check_spaces_iff cfg.address_spaces ns in
    (
      λ h. elim (Bool-cases (is_known known_wrappers name)) [
        | inr e ↦ let bad = rw e at h in cc (bad)
        | inl e ↦
            let h' = rw e at h in
            let (_, j, s) = >>=-eq-ok (validate_jit cfg.hardware_jit) _ h' in
            record {
              wrapper = listed e;
              jit = (validate_jit_iff cfg.hardware_jit).0 j;
              apart = checked s;
            }
      ],
      λ v. rw (known v.wrapper, (validate_jit_iff cfg.hardware_jit).1 v.jit) (check v.apart),
    )
