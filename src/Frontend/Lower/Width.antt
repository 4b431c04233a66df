-- ===== src/Frontend/Lower/Width.antt =====
-- What the texts in crates/slugarch-ptx-frontend/src/lower/arith.rs tell apart.
use Prim.Native.Char.{Char}
use Prim.Native.String.{String, ◌++◌}
use text.Mathlib.Text.{starts_with}
use text.Mathlib.TextEquality.{starts_with_iff}
use text.Mathlib.TextLemmas.{tail-eq_of_cons-eq, cons-append, cons-ne-nil}
use slug_arch.Base.{
  ◌≡◌, ◌≢◌, refl, sym, ap, arith, ◌∙◌, inl, inr, true, false, Bool, ◌||◌, Bool-cases, or-cases,
  or-right, or-neither,
}
use slug_arch.Ir.Ops.{Dtype}
use slug_arch.Frontend.Texts.{text_contains}
use slug_arch.Frontend.Lower.{dtype_via_debug}

starts→contains : (s pat : String) → starts_with s pat ≡ true → text_contains s pat ≡ true
starts→contains String.[] pat h = h
starts→contains (String.◌∷◌ c s) pat h = rw h refl

-- A text that has another has the other without its first character.
tail-contains :
    (c : Char) (pat s : String)
    → text_contains s (String.◌∷◌ c pat) ≡ true
    → text_contains s pat ≡ true
tail-contains c pat String.[] h =
    let (u, e) = (starts_with_iff String.[] (String.◌∷◌ c pat)).0 h in
    absurd (cons-ne-nil c (pat ++ u) (sym (cons-append c pat u) ∙ e))
tail-contains c pat (String.◌∷◌ d s) h =
    or-right _ _ (elim (or-cases (starts_with (String.◌∷◌ d s) (String.◌∷◌ c pat)) _ h) [
      | inl here ↦
          let (u, e) = (starts_with_iff (String.◌∷◌ d s) (String.◌∷◌ c pat)).0 here in
          starts→contains s pat
            ((starts_with_iff s pat).1 (u, tail-eq_of_cons-eq (sym (cons-append c pat u) ∙ e)))
      | inr later ↦ tail-contains c pat s later
    ])

-- A text without the one does not have the other.
lacks :
    (pat longer s : String)
    → (text_contains s longer ≡ true → text_contains s pat ≡ true)
    → text_contains s pat ≡ false
    → text_contains s longer ≡ false
lacks pat longer s f h = elim (Bool-cases (text_contains s longer)) [
  | inl e ↦ let bad : true ≡ false = sym (f e) ∙ h in cc (bad)
  | inr e ↦ e
]

abbrev is_bf16 : Dtype → Bool
is_bf16 Dtype.bf16 = true
is_bf16 _ = false

is_bf16-dtype_via_debug : (s : String) → is_bf16 (dtype_via_debug s) ≡ false
unfolding dtype_via_debug
is_bf16-dtype_via_debug s = elim (Bool-cases (text_contains s "F16" || text_contains s "f16")) [
  | inl e ↦ rw e refl
  | inr e ↦
      let (big, small) = or-neither (text_contains s "F16") (text_contains s "f16") e in
      let no_big = lacks "F16" "BF16" s (tail-contains "B" "F16" s) big in
      let no_small = lacks "f16" "bf16" s (tail-contains "b" "f16" s) small in
      rw (e, no_big, no_small) (ground arith)
]

-- No text has the dtype bf16: one with BF16 or bf16 has F16 or f16, which is tested first.
pub dtype_via_debug-not_bf16 : (s : String) → dtype_via_debug s ≢ Dtype.bf16
dtype_via_debug-not_bf16 s p =
    let bad : true ≡ false = sym (ap is_bf16 p) ∙ is_bf16-dtype_via_debug s in cc (bad)
