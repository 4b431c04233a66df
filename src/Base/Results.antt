-- ===== src/Base/Results.antt =====
-- `Result<A, E>` of the standard library, with `?` as the bind of a do block.
use mathlib.Core.Path.{◌≡◌, refl}
use mathlib.Core.Option.{Option, none, some}

-- The source's two outcomes, the error type first.
pub data Result {ℓ κ} (Err : Type ℓ) (Out : Type κ) : Type (ℓ ⊔ κ) where
  err : Err → Result Err Out
  ok : Out → Result Err Out

-- An error passes the rest of the block by.
infixl 5 ◌>>=◌
abbrev pub ◌>>=◌ {ℓ κ μ} :
    {Err : Type ℓ} {Out : Type κ} {Next : Type μ}
    → Result Err Out
    → (Out → Result Err Next)
    → Result Err Next
err why >>= then = err why
ok out >>= then = then out

-- `Option::ok_or`
abbrev pub ok_or {ℓ κ} : {Err : Type ℓ} {Out : Type κ} → Option Out → Err → Result Err Out
ok_or none why = err why
ok_or (some out) why = ok out

-- A block that succeeds has a first step that succeeds.
pub >>=-eq-ok {ℓ κ μ} :
    {Err : Type ℓ} {Out : Type κ} {Next : Type μ} (first : Result Err Out)
    (then : Out → Result Err Next) {last : Next}
    → (first >>= then) ≡ ok last
    → (out : Out) × (first ≡ ok out) × (then out ≡ ok last)
>>=-eq-ok (err why) then h = cc
>>=-eq-ok (ok out) then h = (out, refl, h)
