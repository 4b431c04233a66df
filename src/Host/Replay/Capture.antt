-- ===== src/Host/Replay/Capture.antt =====
-- `CxlRecordMode` and `PayloadCapture` of replay.rs. The index of a changed byte is a `u8`.
use slug_arch.Base.{ℕ, ◌+◌, ◌*◌, ◌%◌, ◌^◌, Option, none, some, List, [], ◌∷◌}
use slug_arch.Base.{◌==◌, if◌then◌else◌, length, replicate}
use slug_arch.Host.Replay.Hash.{stable_hash64}

pub data CxlRecordMode : Type 0 where
  validation delta full : CxlRecordMode

pub data PayloadCapture : Type 0 where
  nothing : PayloadCapture
  hash64 : ℕ → PayloadCapture
  changes : ℕ → List (ℕ × ℕ) → PayloadCapture
  whole : List ℕ → PayloadCapture

-- The filter over `enumerate()`, from index `i` on.
unfoldable pub changed_from : ℕ → List ℕ → List (ℕ × ℕ)
changed_from i [] = []
changed_from i (b ∷ bs) =
    let rest = changed_from (i + 1) bs in if b == 0 then rest else (i % 2 ^ 8, b) ∷ rest

unfoldable pub from_payload : CxlRecordMode → Option (List ℕ) → PayloadCapture
unfolding changed_from
from_payload mode none = nothing
from_payload validation (some bytes) = hash64 (stable_hash64 bytes)
from_payload delta (some bytes) = changes (stable_hash64 (replicate 32 0)) (changed_from 0 bytes)
from_payload full (some bytes) = whole bytes

unfoldable pub captured_bytes : PayloadCapture → ℕ
captured_bytes nothing = 0
captured_bytes (hash64 _) = 8
captured_bytes (changes _ changed) = 8 + length changed * 2
captured_bytes (whole bytes) = length bytes
