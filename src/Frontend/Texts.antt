-- ===== src/Frontend/Texts.antt =====
-- What crates/slugarch-ptx-frontend uses of texts: `contains`, and `format!` of a number.
use Prim.Native.String.{String, ◌++◌}
use text.Mathlib.Text.{starts_with}
use slug_arch.Base.{ℕ, zero, suc, ◌/◌, ◌%◌, Bool, ◌||◌, List, [], ◌∷◌, ltb, if◌then◌else◌, get_or}

-- `s.contains(pat)`
abbrev pub text_contains : String → String → Bool
text_contains String.[] pat = starts_with String.[] pat
text_contains (String.◌∷◌ c s) pat = starts_with (String.◌∷◌ c s) pat || text_contains s pat

abbrev digits : List String
digits = "0" ∷ "1" ∷ "2" ∷ "3" ∷ "4" ∷ "5" ∷ "6" ∷ "7" ∷ "8" ∷ "9" ∷ []

-- At most `fuel` digits of a number.
abbrev decimal_digits : ℕ → ℕ → String
decimal_digits zero n = ""
decimal_digits (suc fuel) n =
    let more = decimal_digits fuel (n / 10) in
    if ltb n 10 then get_or digits n "" else more ++ get_or digits (n % 10) ""

-- `format!("{}", n)`
unfoldable pub decimal : ℕ → String
decimal n = decimal_digits (suc n) n
