-- ===== src/Wire/Reject.antt =====
-- Which flits `decode` accepts, and the error of every other one.
use slug_arch.Base.{ℕ, ◌+◌, ◌/◌, ◌%◌, ◌≡◌, refl, arith, low_nibble}
use slug_arch.Base.{
  Bool, true, false, ◌||◌, not, ◌==◌, ltb, if◌then◌else◌, Bool-cases, Option-cases,
}
use slug_arch.Base.{none, some, List, [], ◌∷◌, Result, ok, err, ◌>>=◌, ok_or, inl, inr}
use slug_arch.Base.{drop, get_or, All, IsByte}
use slug_arch.Wire.Msg.{MsgClass, CxlMsg, class, class_code, from_nibble}
use slug_arch.Wire.Codec.{
  WireError, unknown_class, unknown_opcode, reserved_bits_set, tag_mismatch, any_nonzero,
  decode_class, decode,
}
use slug_arch.Wire.Layout.{IsFlit}

-- What the receiver is told of a flit, by numbers: the class of an accepted message, the class
-- nibble, the opcode nibble with its class, or nonzero reserved bytes.
pub data Verdict : Type 0 where
  accepted : ℕ → Verdict
  bad_class : ℕ → Verdict
  bad_opcode : ℕ → ℕ → Verdict
  bad_reserved : Verdict
  bad_tag : Verdict

unfoldable pub verdict : Result WireError CxlMsg → Verdict
unfolding class
verdict (ok m) = accepted (class_code (class m))
verdict (err (unknown_class n)) = bad_class n
verdict (err (unknown_opcode n c)) = bad_opcode n (class_code c)
verdict (err reserved_bits_set) = bad_reserved
verdict (err (tag_mismatch expected got)) = bad_tag

-- The assigned opcodes of each class: 0 and 1 for S2MDRS (3), 0 to 4 and 15 for S2MNDR (4), and
-- 0 to 2 for the others.
unfoldable pub assigned : ℕ → ℕ → Bool
assigned c o = if c == 3 then ltb o 2 else if c == 4 then ltb o 5 || o == 15 else ltb o 3

abbrev pub sum : List ℕ → ℕ
sum [] = 0
sum (b ∷ bs) = b + sum bs

-- The verdict on a flit with header nibbles `c` and `o` and reserved bytes `rs`.
unfoldable pub expected : ℕ → ℕ → List ℕ → Verdict
unfolding assigned
expected c o rs =
    if not (sum rs == 0)
    then bad_reserved
    else if c == 0 || ltb 8 c
    then bad_class c
    else if assigned c o
    then accepted c
    else bad_opcode o c

any_nonzero-sum : (bs : List ℕ) → any_nonzero bs ≡ not (sum bs == 0)
unfolding any_nonzero
any_nonzero-sum [] = refl
any_nonzero-sum (b ∷ bs) = ground (arith, any_nonzero-sum bs)

verdict-decode_class :
    (k : MsgClass) (o t a : ℕ) (d : List ℕ)
    → verdict (decode_class k o t a d)
      ≡ (if assigned (class_code k) o then accepted (class_code k) else bad_opcode o (class_code k))
unfolding verdict decode_class assigned
verdict-decode_class MsgClass.m2s_req o t a d = ground arith
verdict-decode_class MsgClass.m2s_rwd o t a d = ground arith
verdict-decode_class MsgClass.s2m_drs o t a d = ground arith
verdict-decode_class MsgClass.s2m_ndr o t a d = ground arith
verdict-decode_class MsgClass.d2h_req o t a d = ground arith
verdict-decode_class MsgClass.d2h_resp o t a d = ground arith
verdict-decode_class MsgClass.h2d_req o t a d = ground arith
verdict-decode_class MsgClass.h2d_resp o t a d = ground arith

from_nibble-none : (n : ℕ) → from_nibble n ≡ none → (n == 0 || ltb 8 n) ≡ true
unfolding from_nibble
from_nibble-none n h = ground arith

pub from_nibble-some : (n : ℕ) (k : MsgClass) → from_nibble n ≡ some k → n ≡ class_code k
unfolding from_nibble
from_nibble-some n k h = ground arith

class_code_in_range : (k : MsgClass) → (class_code k == 0 || ltb 8 (class_code k)) ≡ false
class_code_in_range k = ground arith

verdict_class :
    (c o t a : ℕ) (d : List ℕ)
    → verdict (ok_or (from_nibble c) (unknown_class c) >>= λ k. decode_class k o t a d) ≡ (
        if c == 0 || ltb 8 c
        then bad_class c
        else if assigned c o
        then accepted c
        else bad_opcode o c)
verdict_class c o t a d = elim (Option-cases (from_nibble c)) [
  | inl e ↦ rw (e, from_nibble-none c e) (unfold verdict in refl)
  | inr (k, e) ↦
      let n : c ≡ class_code k = from_nibble-some c k e in
      rw e (rw n (rw (class_code_in_range k) (verdict-decode_class k o t a d)))
]

pub IsByte-header : (f : List ℕ) → All IsByte f → IsByte (get_or f 0 0)
IsByte-header [] h = omega arith
IsByte-header (b ∷ bs) h = h.0

-- `decode` accepts a flit exactly when its reserved bytes are zero, its class nibble is 1 to 8 and
-- its opcode nibble is assigned in that class, and the message then has that class. On any other
-- flit it reports, in this order, the reserved bytes, the unknown class, or the unknown opcode.
pub verdict-decode :
    (f : List ℕ)
    → IsFlit f
    → verdict (decode f) ≡ expected (get_or f 0 0 / 16) (get_or f 0 0 % 16) (drop 43 f)
unfolding decode expected
verdict-decode f v = elim (Bool-cases (any_nonzero (drop 43 f))) [
  | inl e ↦ rw e (rw (← any_nonzero-sum) (rw e (unfold verdict in refl)))
  | inr e ↦ rw e (
      rw (← any_nonzero-sum) (rw (e, low_nibble _ (IsByte-header f v.1)) (verdict_class _ _ _ _ _)))
]
