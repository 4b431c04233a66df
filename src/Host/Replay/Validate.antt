-- ===== src/Host/Replay/Validate.antt =====
-- `validate_equivalent` of replay.rs decides that two artifacts have the same records and commitment.
use slug_arch.Base.{ℕ, ◌+◌, ◌≡◌, ◌↔◌, refl, ap₂, subst, arith, Bool, true, false, ◌&&◌}
use slug_arch.Base.{List, [], ◌∷◌}
use slug_arch.Base.{◌==◌, if◌then◌else◌, length, ==_iff}
use slug_arch.Host.Replay.Records.{CxlReplayRecord, CxlReplayRecord-discrete}
use slug_arch.Host.Replay.Recorder.{
  CxlReplayArtifact, mismatches, abs_diff, same_record, validate_equivalent, is_equivalent,
}

same_record_iff : (a b : CxlReplayRecord) → (same_record a b ≡ true) ↔ (a ≡ b)
unfolding same_record
same_record_iff a b =
    elim (CxlReplayRecord-discrete a b)
      as (λ d. (elim d [ yes _ ↦ true | no _ ↦ false ] ≡ true) ↔ (a ≡ b)) [
        | yes e ↦ (λ _. e, λ _. refl)
        | no n ↦ (λ h. cc (h), λ e. absurd (n e))
      ]

same_record_refl : (a : CxlReplayRecord) → same_record a a ≡ true
same_record_refl a = (same_record_iff a a).1 refl

mismatches_refl : (xs : List CxlReplayRecord) → mismatches same_record xs xs ≡ 0
mismatches_refl [] = refl
mismatches_refl (x ∷ xs) = rw (same_record_refl x) (mismatches_refl xs)

-- The loop's step counts nothing only on equal records.
count_step :
    (same : Bool) (rest : ℕ) → (if same then rest else rest + 1) ≡ 0 → (same ≡ true) × (rest ≡ 0)
count_step true rest h = (refl, h)
count_step false rest h = absurd (omega arith)

mismatches-zero :
    (xs ys : List CxlReplayRecord)
    → length xs ≡ length ys
    → mismatches same_record xs ys ≡ 0
    → xs ≡ ys
mismatches-zero [] [] e h = refl
mismatches-zero [] (y ∷ ys) e h = absurd (omega arith)
mismatches-zero (x ∷ xs) [] e h = absurd (omega arith)
mismatches-zero (x ∷ xs) (y ∷ ys) e h =
    let (same, rest) = count_step (same_record x y) (mismatches same_record xs ys) h in
    ap₂ ◌∷◌ ((same_record_iff x y).0 same) (mismatches-zero xs ys (omega arith) rest)

all_three : (p q r : Bool) → ((p && q && r) ≡ true) → (p ≡ true) × (q ≡ true) × (r ≡ true)
all_three true true true h = (refl, refl, refl)
all_three true true false h = cc
all_three true false r h = cc
all_three false q r h = cc

abs_diff-same : (n : ℕ) → abs_diff n n ≡ 0
abs_diff-same n = ground arith

sum_zero : (m n : ℕ) → m + n ≡ 0 → m ≡ 0
sum_zero m n h = omega arith

-- `validate_equivalent` followed by `is_equivalent` says yes exactly when the two artifacts hold the
-- same records in the same order and the same commitment of the final result.
pub is_equivalent_iff :
    (a b : CxlReplayArtifact)
    → (is_equivalent (validate_equivalent a b) ≡ true)
      ↔ ((a.records ≡ b.records) × (a.final_result_commitment ≡ b.final_result_commitment))
unfolding is_equivalent validate_equivalent
is_equivalent_iff a b =
    let found : ℕ =
      mismatches same_record a.records b.records + abs_diff (length a.records) (length b.records) in
    let lengths : Bool = length a.records == length b.records in
    let commitments : Bool = a.final_result_commitment == b.final_result_commitment in
    (
      λ h.
          let (p, q, r) = all_three lengths (found == 0) commitments h in
          let none_found : found ≡ 0 = (==_iff found 0).0 q in
          (
            mismatches-zero a.records b.records ((==_iff _ _).0 p) (sum_zero _ _ none_found),
            (==_iff _ _).0 r,
          ),
      λ (e, c).
          subst
            (λ rs.
              (length a.records == length rs
                && mismatches same_record a.records rs + abs_diff (length a.records) (length rs)
                  == 0
                && commitments)
              ≡ true)
            e
            (rw
              (
                mismatches_refl a.records,
                abs_diff-same (length a.records),
                (==_iff (length a.records) (length a.records)).1 refl,
              )
              ((==_iff _ _).1 c)),
    )
