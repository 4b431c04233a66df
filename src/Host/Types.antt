-- ===== src/Host/Types.antt =====
-- crates/slugarch-host/src/job.rs and error.rs. A matrix `[[u8; 4]; 4]` is a list of rows. The
-- formatted reason of a failed dispatch is a constructor for each `format!` of the source.
use slug_arch.Base.{ℕ, List, [], length, All, get_or, IsByte, ◌≡◌}
use slug_arch.Wire.Msg.{MsgClass, S2mNdrOp}
use slug_arch.Wire.Codec.{WireError}

pub record GemmJob : Type 0 where
  pub a : List (List ℕ)
  pub b : List (List ℕ)

pub record GemmResult : Type 0 where
  pub c : List (List ℕ)
  pub cycles : ℕ
  pub flits_sent : ℕ
  pub flits_received : ℕ

pub data Reason : Type 0 where
  endpoint_rejected : ℕ → Reason
  unexpected_ndr : S2mNdrOp → Reason
  unexpected_class : MsgClass → Reason
  expected_reads : ℕ → Reason
  expected_drs : S2mNdrOp → Reason
  responses_length : ℕ → Reason

pub data HostError : Type 0 where
  dispatch_failed : ℕ → Reason → HostError
  unexpected_tag : ℕ → List ℕ → HostError
  wire_decode : WireError → HostError
  flit_timeout : ℕ → HostError
  cycles_exceeded : ℕ → ℕ → HostError

-- `m[row][col]`
abbrev pub cell : List (List ℕ) → ℕ → ℕ → ℕ
cell m row col = get_or (get_or m row []) col 0

-- A 4 by 4 matrix of bytes.
abbrev pub IsMatrix : List (List ℕ) → Type 0
IsMatrix m = (length m ≡ 4) × All (λ r. (length r ≡ 4) × All IsByte r) m

abbrev pub IsJob : GemmJob → Type 0
IsJob j = IsMatrix j.a × IsMatrix j.b
