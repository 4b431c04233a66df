-- ===== src/Host/Replay/Restore.antt =====
-- What the delta capture of replay.rs keeps: writing the changed bytes over a zero payload.
use slug_arch.Base.{ℕ, ◌+◌, ◌%◌, ◌^◌, ◌≤◌, ◌≡◌, refl, sym, ap, ◌∙◌, inl, inr, arith, ◌≢◌}
use slug_arch.Base.{Bool-cases, true, append_assoc, some, List, [], ◌∷◌, ◌++◌}
use slug_arch.Base.{◌==◌, length, length-append, replicate, set}
use slug_arch.Host.Replay.Capture.{
  PayloadCapture, nothing, hash64, changes, whole, CxlRecordMode, validation, delta, full,
  changed_from, from_payload,
}

-- Write each byte at its index.
abbrev pub write_all : List ℕ → List (ℕ × ℕ) → List ℕ
write_all base [] = base
write_all base ((i, b) ∷ es) = write_all (set base i b) es

-- The payload that a capture stands for, where it keeps one: `n` is the payload's length.
abbrev pub restored : ℕ → PayloadCapture → List ℕ
restored n (changes base changed) = write_all (replicate n 0) changed
restored n (whole bytes) = bytes
restored n nothing = []
restored n (hash64 h) = []

set-append :
    (pre : List ℕ) (b c : ℕ) (post : List ℕ)
    → set (pre ++ (b ∷ post)) (length pre) c ≡ pre ++ (c ∷ post)
set-append [] b c post = refl
set-append (x ∷ pre) b c post = ap (λ t. x ∷ t) (set-append pre b c post)

-- The bytes before the index are in place already.
write_all-changed_from :
    (pre bytes : List ℕ) (i : ℕ)
    → length pre ≡ i
    → i + length bytes ≤ 2 ^ 8
    → write_all (pre ++ replicate (length bytes) 0) (changed_from i bytes) ≡ pre ++ bytes
unfolding changed_from
write_all-changed_from pre [] i e h = refl
write_all-changed_from pre (b ∷ bytes) i e h =
    let zeros : List ℕ = replicate (length bytes) 0 in
    let entries : List (ℕ × ℕ) = changed_from (i + 1) bytes in
    let later : write_all ((pre ++ (b ∷ [])) ++ zeros) entries ≡ (pre ++ (b ∷ [])) ++ bytes =
      write_all-changed_from (pre ++ (b ∷ [])) bytes (i + 1)
        (omega (arith, length-append pre (b ∷ []))) (omega arith) in
    let moved : write_all (pre ++ (b ∷ zeros)) entries ≡ pre ++ (b ∷ bytes) =
      ap (λ t. write_all t entries) (sym (append_assoc pre (b ∷ []) zeros))
      ∙ (later ∙ append_assoc pre (b ∷ []) bytes) in
    let index : i % 2 ^ 8 ≡ length pre = omega arith in
    let zero_of : (b == 0) ≡ true → b ≡ 0 = λ z. ground (arith, z) in
    elim (Bool-cases (b == 0)) [
      | inl z ↦ rw z (ap (λ c. write_all (pre ++ (c ∷ zeros)) entries) (sym (zero_of z)) ∙ moved)
      | inr z ↦ rw (z, index) (ap (λ t. write_all t entries) (set-append pre 0 b zeros) ∙ moved)
    ]

-- A payload of at most 256 bytes can be rebuilt from what delta and full mode capture: written over a
-- zero payload, the captured bytes give the payload back.
pub from_payload-restored :
    (mode : CxlRecordMode) (bytes : List ℕ)
    → mode ≢ validation
    → length bytes ≤ 2 ^ 8
    → restored (length bytes) (from_payload mode (some bytes)) ≡ bytes
unfolding from_payload
from_payload-restored validation bytes m h = absurd (m refl)
from_payload-restored delta bytes m h = write_all-changed_from [] bytes 0 refl (omega arith)
from_payload-restored full bytes m h = refl
