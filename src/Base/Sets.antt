-- ===== src/Base/Sets.antt =====
-- `HashSet` and `HashMap` of the standard library on keys with a test of equality, as lists.
use mathlib.Core.Path.{◌≡◌, refl, ap, subst, ◌∙◌}
use mathlib.Core.Logic.{◌↔◌, inl, inr}
use mathlib.Core.Bool.{Bool, true, false, ◌||◌}
use mathlib.Core.Option.{Option, none, some}
use mathlib.Core.List.{List, [], ◌∷◌}
use slug_arch.Base.Tests.{Bool-cases, or-cases, or-right, if◌then◌else◌}

-- A type with a test of equality.
pub record Keyed (A : Type 0) : Type 0 where
  pub same : A → A → Bool
  pub same_iff : (a b : A) → (same a b ≡ true) ↔ (a ≡ b)

module _ {A : Type 0} (K : Keyed A) where
  open K use {same, same_iff}

  abbrev pub has : List A → A → Bool
  has [] x = false
  has (y ∷ ys) x = same y x || has ys x

  -- `insert` of a set.
  abbrev pub add_key : A → List A → List A
  add_key x xs = if has xs x then xs else x ∷ xs

  -- `collect` to a set.
  abbrev pub as_set : List A → List A
  as_set [] = []
  as_set (x ∷ xs) = add_key x (as_set xs)

  -- `difference`
  abbrev pub difference : List A → List A → List A
  difference [] ys = []
  difference (x ∷ xs) ys = let rest = difference xs ys in if has ys x then rest else x ∷ rest

  abbrev pub find_key : {V : Type 0} → List (A × V) → A → Option V
  find_key [] k = none
  find_key ((j, v) ∷ m) k = if same j k then some v else find_key m k

  abbrev pub put_key : {V : Type 0} → List (A × V) → A → V → List (A × V)
  put_key [] k v = (k, v) ∷ []
  put_key ((j, w) ∷ m) k v = if same j k then (j, v) ∷ m else (j, w) ∷ put_key m k v

  abbrev pub keys_of : {V : Type 0} → List (A × V) → List A
  keys_of [] = []
  keys_of ((j, v) ∷ m) = j ∷ keys_of m

  abbrev pub Sub : List A → List A → Type 0
  Sub xs ys = (x : A) → has xs x ≡ true → has ys x ≡ true

  pub same_refl : (a : A) → same a a ≡ true
  same_refl a = (same_iff a a).1 refl

  pub has-add_key : (x : A) (xs : List A) (y : A) → has (add_key x xs) y ≡ (same x y || has xs y)
  has-add_key x xs y = elim (Bool-cases (has xs x)) [
    | inr e ↦ rw e refl
    | inl e ↦ elim (Bool-cases (same x y)) [
      | inr other ↦ rw (e, other) refl
      | inl eq ↦
          let here : has xs y ≡ true = subst (λ z. has xs z ≡ true) ((same_iff x y).0 eq) e in
          rw (e, eq) here
    ]
  ]

  pub has-as_set : (xs : List A) (y : A) → has (as_set xs) y ≡ has xs y
  has-as_set [] y = refl
  has-as_set (x ∷ xs) y = has-add_key x (as_set xs) y ∙ ap (λ b. same x y || b) (has-as_set xs y)

  difference-Sub : (xs ys : List A) → difference xs ys ≡ [] → Sub xs ys
  difference-Sub [] ys h x m = cc (m)
  difference-Sub (z ∷ xs) ys h x m = elim (Bool-cases (has ys z)) [
    | inr e ↦ let bad : ◌≡◌ {A = List A} (z ∷ difference xs ys) [] = rw e at h in cc (bad)
    | inl e ↦
        let rest : difference xs ys ≡ [] = rw e at h in
        elim (or-cases (same z x) (has xs x) m) [
          | inl eq ↦ subst (λ w. has ys w ≡ true) ((same_iff z x).0 eq) e
          | inr later ↦ difference-Sub xs ys rest x later
        ]
  ]

  Sub-difference : (xs ys : List A) → Sub xs ys → difference xs ys ≡ []
  Sub-difference [] ys s = refl
  Sub-difference (z ∷ xs) ys s =
      let here : has ys z ≡ true = s z (rw (same_refl z) refl) in
      rw here (Sub-difference xs ys (λ x m. s x (or-right (same z x) (has xs x) m)))

  -- There is no difference exactly when each element of the one is in the other.
  pub difference-nil_iff : (xs ys : List A) → (difference xs ys ≡ []) ↔ Sub xs ys
  difference-nil_iff xs ys = (difference-Sub xs ys, Sub-difference xs ys)
