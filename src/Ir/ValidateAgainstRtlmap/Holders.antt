-- ===== src/Ir/ValidateAgainstRtlmap/Holders.antt =====
-- The map from nodes back to ops that validate_against_rtlmap.rs builds.
use Prim.Native.String.{String}
use slug_arch.Base.{
  ℕ, ◌≡◌, ◌⊎◌, inl, inr, refl, sym, ap, subst, ◌∙◌, true, false, Bool-cases, some, List, [], ◌∷◌,
}
use slug_arch.Base.{Map, IsMap, lookup, keys, contains, ◌==◌, ==_iff, ==-differ, if◌then◌else◌}
use slug_arch.Base.Sets.{Keyed, has, find_key, put_key, keys_of, same_refl}
use slug_arch.Ir.ValidateAgainstRtlmap.{texts, node_to_op}

module _ {A V : Type 0} (K : Keyed A) where
  open K use {same, same_iff}

  find-put : (m : List (A × V)) (k : A) (v : V) → find_key K (put_key K m k v) k ≡ some v
  find-put [] k v = rw (same_refl K k) refl
  find-put ((j, w) ∷ m) k v = elim (Bool-cases (same j k)) [
    | inl e ↦ rw e (rw e refl)
    | inr e ↦ rw e (rw e (find-put m k v))
  ]

  find-put_other :
      (m : List (A × V)) (k i : A) (v : V)
      → same k i ≡ false
      → find_key K (put_key K m k v) i ≡ find_key K m i
  find-put_other [] k i v n = rw n refl
  find-put_other ((j, w) ∷ m) k i v n = elim (Bool-cases (same j k)) [
    | inl e ↦
        let other : same j i ≡ false = subst (λ x. same x i ≡ false) (sym ((same_iff j k).0 e)) n in
        rw e (rw other refl)
    | inr e ↦ rw e (ap (λ t. if same j i then some w else t) (find-put_other m k i v n))
  ]

  -- A key is there exactly when something is found.
  pub has-found :
      (m : List (A × V)) (k : A)
      → has K (keys_of K m) k ≡ true
      → (v : V) × (find_key K m k ≡ some v)
  has-found [] k h = cc (h)
  has-found ((j, w) ∷ m) k h = elim (Bool-cases (same j k)) [
    | inl e ↦ (w, rw e refl)
    | inr e ↦
        let rest : has K (keys_of K m) k ≡ true = rw e at h in
        let (v, f) = has-found m k rest in (v, rw e f)
  ]

  pub found-has :
      (m : List (A × V)) (k : A) (v : V) → find_key K m k ≡ some v → has K (keys_of K m) k ≡ true
  found-has [] k v h = cc (h)
  found-has ((j, w) ∷ m) k v h = elim (Bool-cases (same j k)) [
    | inl e ↦ rw e refl
    | inr e ↦ let rest : find_key K m k ≡ some v = rw e at h in rw e (found-has m k v rest)
  ]

-- An entry of a map.
abbrev Entry : Map String → ℕ → String → Type 0
Entry [] id y = ⊥
Entry ((j, n) ∷ m) id y = ((j ≡ id) × (n ≡ y)) ⊎ Entry m id y

lookup-Entry : (m : Map String) (id : ℕ) (y : String) → lookup m id ≡ some y → Entry m id y
lookup-Entry [] id y h = cc (h)
lookup-Entry ((j, n) ∷ m) id y h = elim (Bool-cases (j == id)) [
  | inl e ↦ let found : some n ≡ some y = rw e at h in inl ((==_iff j id).0 e, cc (found))
  | inr e ↦ let rest : lookup m id ≡ some y = rw e at h in inr (lookup-Entry m id y rest)
]

Entry-contains : (m : Map String) (id : ℕ) (y : String) → Entry m id y → contains (keys m) id ≡ true
Entry-contains [] id y h = absurd h
Entry-contains ((j, n) ∷ m) id y (inl (p, q)) = rw ((==_iff j id).1 p) refl
Entry-contains ((j, n) ∷ m) id y (inr h) =
    rw (Entry-contains m id y h)
      (elim (Bool-cases (j == id)) [ inl e ↦ rw e refl | inr e ↦ rw e refl ])

Entry-lookup :
    (m : Map String) (id : ℕ) (y : String) → IsMap m → Entry m id y → lookup m id ≡ some y
Entry-lookup [] id y m h = absurd h
Entry-lookup ((j, n) ∷ m) id y (new, u) (inl (p, q)) = rw ((==_iff j id).1 p) (ap some q)
Entry-lookup ((j, n) ∷ m) id y (new, u) (inr h) =
    let other : (j == id) ≡ false = ==-differ j id (λ p.
      let bad : true ≡ false =
        sym (Entry-contains m id y h) ∙ subst (λ k. contains (keys m) k ≡ false) p new in
      cc (bad)) in
    rw other (Entry-lookup m id y u h)

found-Entry :
    (m : Map String) (acc : List (String × ℕ)) (y : String) (id : ℕ)
    → find_key texts (node_to_op m acc) y ≡ some id
    → Entry m id y ⊎ (find_key texts acc y ≡ some id)
unfolding node_to_op
found-Entry [] acc y id h = inr h
found-Entry ((j, n) ∷ m) acc y id h = elim (found-Entry m (put_key texts acc n j) y id h) [
  | inl e ↦ inl (inr e)
  | inr f ↦ elim (Bool-cases (texts.same n y)) [
    | inl e ↦
        let same : n ≡ y = (texts.same_iff n y).0 e in
        let written : some j ≡ some id =
          sym (find-put texts acc n j) ∙ (ap (find_key texts (put_key texts acc n j)) same ∙ f) in
        inl (inl (cc (written), same))
    | inr e ↦ inr (sym (find-put_other texts acc n y j e) ∙ f)
  ]
]

Entry-found :
    (m : Map String) (acc : List (String × ℕ)) (y : String) (id : ℕ)
    → Entry m id y ⊎ (find_key texts acc y ≡ some id)
    → (k : ℕ) × (find_key texts (node_to_op m acc) y ≡ some k)
unfolding node_to_op
Entry-found [] acc y id (inl h) = absurd h
Entry-found [] acc y id (inr h) = (id, h)
Entry-found ((j, n) ∷ m) acc y id (inl (inl (p, q))) = Entry-found m (put_key texts acc n j) y j (
    inr (subst (λ x. find_key texts (put_key texts acc n j) x ≡ some j) q (find-put texts acc n j)))
Entry-found ((j, n) ∷ m) acc y id (inl (inr h)) = Entry-found m (put_key texts acc n j) y id (inl h)
Entry-found ((j, n) ∷ m) acc y id (inr h) = elim (Bool-cases (texts.same n y)) [
  | inl e ↦ Entry-found m (put_key texts acc n j) y j (
      inr (
        subst (λ x. find_key texts (put_key texts acc n j) x ≡ some j) ((texts.same_iff n y).0 e)
          (find-put texts acc n j)))
  | inr e ↦ Entry-found m (put_key texts acc n j) y id (inr (find-put_other texts acc n y j e ∙ h))
]

-- The op that is found for a node has that node.
pub node_to_op_sound :
    (m : Map String) (y : String) (id : ℕ)
    → IsMap m
    → find_key texts (node_to_op m []) y ≡ some id
    → lookup m id ≡ some y
node_to_op_sound m y id u h = elim (found-Entry m [] y id h) [
  | inl e ↦ Entry-lookup m id y u e
  | inr f ↦ cc (f)
]

-- A node that some op has is found.
pub node_to_op_complete :
    (m : Map String) (y : String) (id : ℕ)
    → lookup m id ≡ some y
    → (k : ℕ) × (find_key texts (node_to_op m []) y ≡ some k)
node_to_op_complete m y id h = Entry-found m [] y id (inl (lookup-Entry m id y h))
