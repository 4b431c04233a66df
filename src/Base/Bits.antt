-- ===== src/Base/Bits.antt =====
-- `|` of fields that do not overlap is addition: `a | (b << k)` for `a` below `2 ^ k`.
use Prim.Native.Nat.{ℕ, zero, suc, ◌+◌, ◌*◌, ◌/◌, ◌%◌, ◌^◌, ◌≤◌, ◌<◌, max, digits, bit_or}
use Prim.Native.Nat.{bit_or-bitwise, bit_and}
use mathlib.Core.Path.{◌≡◌, refl, ap, ◌∙◌}
use native.Mathlib.Nat.{pow-suc, le_refl, mod-eq_of_lt}
use native.Mathlib.Omega.{arith}
use slug_arch.Base.Bytes.{agree_below, agree_below→eq}

or_digits : (n k a b : ℕ) → a ≤ n → a < 2 ^ k → digits (λ y. y) max n a (b * 2 ^ k) ≡ a + b * 2 ^ k
or_digits zero k zero b p h = omega arith
or_digits zero k (suc a) b p h = absurd (omega arith)
or_digits (suc n) k zero b p h = omega arith
or_digits (suc n) zero (suc a) b p h = absurd (omega arith)
or_digits (suc n) (suc k) (suc a) b p h =
    let double : b * 2 ^ suc k ≡ b * 2 ^ k * 2 =
      omega (arith, ap (λ (t : ℕ). b * t) (pow-suc 2 k)) in
    let half : b * 2 ^ suc k / 2 ≡ b * 2 ^ k = omega (arith, double) in
    let even : b * 2 ^ suc k % 2 ≡ 0 = omega (arith, double) in
    let small : suc a / 2 < 2 ^ k = omega (arith, pow-suc 2 k) in
    let rest = or_digits n k (suc a / 2) b (omega arith) small in
    rw (half, even) (omega (arith, rest, double))

-- The high field is shifted past every bit of the low one.
pub bit_or-shifted : (k a b : ℕ) → a < 2 ^ k → bit_or a (b * 2 ^ k) ≡ a + b * 2 ^ k
bit_or-shifted k a b h = bit_or-bitwise a (b * 2 ^ k) ∙ or_digits a k a b (le_refl a) h

-- The same on a word of `w` bits that has room for the high field.
pub bit_or_field :
    (w k a b : ℕ) → a < 2 ^ k → b * 2 ^ k < 2 ^ w → bit_or a (b * 2 ^ k % 2 ^ w) ≡ a + b * 2 ^ k
bit_or_field w k a b h fits = rw (mod-eq_of_lt fits) (bit_or-shifted k a b h)

-- The mask `0xFF` keeps a byte.
pub low_byte : (b : ℕ) → b < 256 → bit_and b 0xff ≡ b
unfolding agree_below
low_byte = agree_below→eq (λ b. bit_and b 0xff) (λ b. b) 256 refl

-- The mask `1` keeps a bit.
pub low_bit : (b : ℕ) → b < 2 → bit_and b 1 ≡ b
unfolding agree_below
low_bit = agree_below→eq (λ b. bit_and b 1) (λ b. b) 2 refl
