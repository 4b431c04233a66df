-- ===== src/Host/Replay/Hash.antt =====
-- `stable_hash64`, `result_commitment` and `flit_commitment` of replay.rs: FNV-1a over bytes.
use Prim.Native.Nat.{bit_xor}
use slug_arch.Base.{ℕ, ◌*◌, ◌%◌, ◌^◌, List, [], ◌∷◌, ◌++◌, to_le_bytes}
use slug_arch.Wire.Msg.{CxlMsg}
use slug_arch.Wire.Codec.{encode}
use slug_arch.Host.Types.{GemmResult}

unfoldable pub hash_from : ℕ → List ℕ → ℕ
hash_from hash [] = hash
hash_from hash (b ∷ bs) = hash_from (bit_xor hash b * 0x0000_0100_0000_01b3 % 2 ^ 64) bs

unfoldable pub stable_hash64 : List ℕ → ℕ
unfolding hash_from
stable_hash64 bytes = hash_from 0xcbf2_9ce4_8422_2325 bytes

abbrev row_bytes : List ℕ → List ℕ
row_bytes [] = []
row_bytes (cell ∷ row) = to_le_bytes 4 cell ++ row_bytes row

abbrev matrix_bytes : List (List ℕ) → List ℕ
matrix_bytes [] = []
matrix_bytes (row ∷ rows) = row_bytes row ++ matrix_bytes rows

-- The bytes that the commitment hashes: the matrix, then the three counters.
unfoldable pub commitment_bytes : GemmResult → List ℕ
commitment_bytes r =
    matrix_bytes r.c
    ++ (to_le_bytes 8 r.cycles ++ (to_le_bytes 8 r.flits_sent ++ to_le_bytes 8 r.flits_received))

unfoldable pub result_commitment : GemmResult → ℕ
unfolding commitment_bytes
result_commitment r = stable_hash64 (commitment_bytes r)

unfoldable pub flit_commitment : CxlMsg → ℕ
flit_commitment msg = stable_hash64 (encode msg)
