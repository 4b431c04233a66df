-- ===== src/Base/Maps.antt =====
-- `HashMap<u32, V>` of the standard library, as an association list on native numbers.
use Prim.Native.Nat.{ℕ}
use mathlib.Core.Path.{◌≡◌, refl, sym, ap, subst, ◌∙◌}
use mathlib.Core.Logic.{◌≢◌, inl, inr}
use mathlib.Core.Bool.{Bool, true, false, ◌||◌}
use mathlib.Core.Option.{Option, none, some}
use mathlib.Core.List.{List, [], ◌∷◌, ◌++◌}
use native.Mathlib.Omega.{arith}
use slug_arch.Base.Tests.{◌==◌, ==_iff, Bool-cases, if◌then◌else◌}

abbrev pub Map {ℓ} : Type ℓ → Type ℓ
Map V = List (ℕ × V)

-- `HashSet::contains` on the list of the set's elements.
abbrev pub contains : List ℕ → ℕ → Bool
contains [] x = false
contains (y ∷ ys) x = (y == x) || contains ys x

module _ {ℓ} {V : Type ℓ} where
  abbrev pub lookup : Map V → ℕ → Option V
  lookup [] k = none
  lookup ((j, v) ∷ m) k = if j == k then some v else lookup m k

  abbrev pub lookup_or : Map V → ℕ → V → V
  lookup_or m k d = elim (lookup m k) [ none ↦ d | some v ↦ v ]

  -- `insert`: the value of a key that is there is replaced.
  abbrev pub insert : Map V → ℕ → V → Map V
  insert [] k v = (k, v) ∷ []
  insert ((j, w) ∷ m) k v = if j == k then (j, v) ∷ m else (j, w) ∷ insert m k v

  abbrev pub remove : Map V → ℕ → Map V
  remove [] k = []
  remove ((j, w) ∷ m) k = if j == k then m else (j, w) ∷ remove m k

  abbrev pub keys : Map V → List ℕ
  keys [] = []
  keys ((j, w) ∷ m) = j ∷ keys m

-- No key comes twice.
abbrev pub IsMap {ℓ} : {V : Type ℓ} → Map V → Type 0
IsMap [] = Unit
IsMap ((k, v) ∷ m) = (contains (keys m) k ≡ false) × IsMap m

==-refl : (k : ℕ) → (k == k) ≡ true
==-refl k = ground arith

pub ==-differ : (j k : ℕ) → j ≢ k → (j == k) ≡ false
==-differ j k n = ground (arith, n)

module _ {ℓ} {V : Type ℓ} where
  pub lookup-insert : (m : Map V) (k : ℕ) (v : V) → lookup (insert m k v) k ≡ some v
  lookup-insert [] k v = rw (==-refl k) refl
  lookup-insert ((j, w) ∷ m) k v = elim (Bool-cases (j == k)) [
    | inl e ↦ rw e (rw e refl)
    | inr e ↦ rw e (rw e (lookup-insert m k v))
  ]

  pub lookup-insert_other :
      (m : Map V) (k i : ℕ) (v : V) → k ≢ i → lookup (insert m k v) i ≡ lookup m i
  lookup-insert_other [] k i v n = rw (==-differ k i n) refl
  lookup-insert_other ((j, w) ∷ m) k i v n = elim (Bool-cases (j == k)) [
    | inl e ↦
        let same : j ≡ k = (==_iff j k).0 e in
        let other : (j == i) ≡ false = ==-differ j i (λ p. n (sym same ∙ p)) in rw e (rw other refl)
    | inr e ↦ rw e (ap (λ t. if j == i then some w else t) (lookup-insert_other m k i v n))
  ]

  pub lookup-remove_other : (m : Map V) (k i : ℕ) → k ≢ i → lookup (remove m k) i ≡ lookup m i
  lookup-remove_other [] k i n = refl
  lookup-remove_other ((j, w) ∷ m) k i n = elim (Bool-cases (j == k)) [
    | inl e ↦
        let same : j ≡ k = (==_iff j k).0 e in
        let other : (j == i) ≡ false = ==-differ j i (λ p. n (sym same ∙ p)) in rw e (rw other refl)
    | inr e ↦ rw e (ap (λ t. if j == i then some w else t) (lookup-remove_other m k i n))
  ]

pub contains-append :
    (xs ys : List ℕ) (x : ℕ) → contains (xs ++ ys) x ≡ (contains xs x || contains ys x)
contains-append [] ys x = refl
contains-append (y ∷ xs) ys x = elim (Bool-cases (y == x)) [
  | inl e ↦ rw e refl
  | inr e ↦ rw e (contains-append xs ys x)
]

module _ {ℓ} {V : Type ℓ} where
  -- The keys after an insertion.
  contains-keys-insert :
      (m : Map V) (k j : ℕ) (v : V)
      → contains (keys (insert m k v)) j ≡ ((k == j) || contains (keys m) j)
  contains-keys-insert [] k j v = refl
  contains-keys-insert ((i, w) ∷ m) k j v = elim (Bool-cases (i == k)) [
    | inl e ↦
        let same : i ≡ k = (==_iff i k).0 e in
        elim (Bool-cases (k == j)) [
          | inl t ↦ let t' : (i == j) ≡ true = rw same t in rw (e, t, t') refl
          | inr t ↦ let t' : (i == j) ≡ false = rw same t in rw (e, t, t') refl
        ]
    | inr e ↦ elim (Bool-cases (i == j)) [
      | inl t ↦ elim (Bool-cases (k == j)) [ inl u ↦ rw (e, t, u) refl | inr u ↦ rw (e, t, u) refl ]
      | inr t ↦ rw (e, t) (contains-keys-insert m k j v)
    ]
  ]

  pub IsMap-insert : (m : Map V) (k : ℕ) (v : V) → IsMap m → IsMap (insert m k v)
  IsMap-insert [] k v h = (refl, tt)
  IsMap-insert ((i, w) ∷ m) k v (new, h) =
      let P : Bool → Type 0 = λ t. IsMap (if t then (i, v) ∷ m else (i, w) ∷ insert m k v) in
      elim (Bool-cases (i == k)) [
        | inl e ↦ subst P (sym e) (new, h)
        | inr e ↦
            let flipped : (k == i) ≡ false = ground (arith, e) in
            let absent : ((k == i) || contains (keys m) i) ≡ false = rw flipped new in
            subst P (sym e) (contains-keys-insert m k i v ∙ absent, IsMap-insert m k v h)
      ]
