-- ===== src/Gen/Spaces.antt =====
-- The overlap test of config.rs, and the addresses of the spaces.
use Prim.Native.Nat.{max}
use slug_arch.Base.{
  ℕ, ◌+◌, ◌-◌, ◌^◌, ◌≤◌, ◌<◌, ◌≡◌, ◌↔◌, inl, inr, refl, sym, ◌∙◌, arith, ltb, ltb→lt, lt→ltb, true,
  false, Bool-cases, both, List, [], ◌∷◌, All, ok, >>=-eq-ok,
}
use slug_arch.Gen.{AddressSpace, end, overlaps, check_against, check_spaces}

-- An address of a space, below the last one of 64 bits.
pub record Contains (s : AddressSpace) (x : ℕ) : Type 0 where
  pub from_base : s.base ≤ x
  pub before_end : x < s.base + s.length
  pub below_last : x < 2 ^ 64 - 1

abbrev pub IsNonempty : AddressSpace → Type 0
IsNonempty s = 0 < s.length

-- No address of one is an address of the other.
abbrev pub AreApart : AddressSpace → AddressSpace → Type 0
AreApart a b = (x : ℕ) → Contains a x → Contains b x → ⊥

-- Each space is apart from those after it.
abbrev pub Pairwise : List AddressSpace → Type 0
Pairwise [] = Unit {0}
Pairwise (a ∷ later) = All (AreApart a) later × Pairwise later

overlaps-Contains :
    (a b : AddressSpace)
    → IsNonempty a
    → IsNonempty b
    → overlaps a b ≡ true
    → (x : ℕ) × Contains a x × Contains b x
overlaps-Contains a b na nb h =
    let (p, q) = both (ltb a.base (end b)) (ltb b.base (end a)) h in
    let lo : a.base < end b = ltb→lt _ _ p in
    let hi : b.base < end a = ltb→lt _ _ q in
    (
      max a.base b.base,
      record {
        from_base = omega arith;
        before_end = omega (arith, na, hi);
        below_last = omega (arith, lo, hi);
      },
      record {
        from_base = omega arith;
        before_end = omega (arith, nb, lo);
        below_last = omega (arith, lo, hi);
      },
    )

Contains-overlaps : (a b : AddressSpace) (x : ℕ) → Contains a x → Contains b x → overlaps a b ≡ true
Contains-overlaps a b x p q =
    let lo : a.base < end b = omega (arith, p.from_base, q.before_end, q.below_last) in
    let hi : b.base < end a = omega (arith, q.from_base, p.before_end, p.below_last) in
    rw (lt→ltb _ _ lo, lt→ltb _ _ hi) refl

check_against_iff :
    (a : AddressSpace) (later : List AddressSpace)
    → IsNonempty a
    → All IsNonempty later
    → (check_against a later ≡ ok tt) ↔ All (AreApart a) later
unfolding check_against
check_against_iff a [] na ns = (λ h. tt, λ h. refl)
check_against_iff a (b ∷ later) na (nb, ns) = elim (Bool-cases (overlaps a b)) [
  | inl e ↦ (
    λ h. (let bad = rw e at h in cc (bad)),
    λ (apart, _). let (x, p, q) = overlaps-Contains a b na nb e in absurd (apart x p q),
  )
  | inr e ↦
      let (there, back) = check_against_iff a later na ns in
      (
        λ h.
            let rest : check_against a later ≡ ok tt = rw e at h in
            (
              λ x p q. (let bad : true ≡ false = sym (Contains-overlaps a b x p q) ∙ e in cc (bad)),
              there rest,
            ),
        λ (_, apart). rw e (back apart),
      )
]

pub check_spaces_iff :
    (spaces : List AddressSpace)
    → All IsNonempty spaces
    → (check_spaces spaces ≡ ok tt) ↔ Pairwise spaces
unfolding check_spaces
check_spaces_iff [] ns = (λ h. tt, λ h. refl)
check_spaces_iff (a ∷ later) (na, ns) =
    let (there, back) = check_against_iff a later na ns in
    let (there', back') = check_spaces_iff later ns in
    (
      λ h.
          let (_, first, rest) = >>=-eq-ok (check_against a later) _ h in
          (there first, there' rest),
      λ (first, rest). rw (back first) (back' rest),
    )
