-- ===== src/Host/Endpoint.antt =====
-- What the host relies on in the endpoint: a 16 by 16 systolic array behind a CXL port that answers
-- one request at a time (docs of dispatch.rs; targets/agilex-vr2 and vendor hold generated RTL). The
-- endpoint is compiled from RTL and is a parameter; `Serves` states this behaviour of it.
use slug_arch.Base.{ℕ, zero, suc, ◌+◌, ◌*◌, ◌/◌, ◌%◌, ◌^◌, ◌≤◌, ◌≡◌, Bool, false}
use slug_arch.Base.{none, some, List, ◌∷◌, ◌==◌, if◌then◌else◌}
use slug_arch.Base.{take, replicate, from_le_bytes}
use slug_arch.Wire.Msg.{CxlMsg, S2mDrsOp, S2mNdrOp, tag, IsMsg}
use slug_arch.Wire.Codec.{encode}
use slug_arch.Host.Tokens.{
  load_valid, load_matrix_sel, load_addr, load_data, compute_valid, read_addr,
}
use slug_arch.Host.Run.{Device, flit_timeout_ticks}

-- The contents of the array: the operands and the accumulators, by address row * 16 + col.
pub record Array : Type 0 where
  pub a : ℕ → ℕ
  pub b : ℕ → ℕ
  pub c : ℕ → ℕ

abbrev pub update : (ℕ → ℕ) → ℕ → ℕ → ℕ → ℕ
update f k v i = if i == k then v else f i

-- The sum of a(i + k) * b(16 * k + j) for k below n.
abbrev pub dot : ℕ → (ℕ → ℕ) → (ℕ → ℕ) → ℕ → ℕ → ℕ
dot zero a b i j = 0
dot (suc n) a b i j = dot n a b i j + a (i + n) * b (16 * n + j)

-- The 24-bit accumulator of the product at an address.
unfoldable pub multiply : (ℕ → ℕ) → (ℕ → ℕ) → ℕ → ℕ
multiply a b i = dot 16 a b (i / 16 * 16) (i % 16) % 2 ^ 24

-- The token of a request: the first four data bytes of a write, the high half of a read's address.
unfoldable pub token_of : CxlMsg → ℕ
token_of (CxlMsg.m2s_rwd _ _ _ d) = from_le_bytes (take 4 d)
token_of (CxlMsg.m2s_req _ _ addr) = addr / 2 ^ 32
token_of _ = 0

-- The requests that the endpoint claims, by the low 16 bits of the address.
unfoldable pub claims : CxlMsg → Bool
claims (CxlMsg.m2s_rwd _ _ addr _) = addr % 2 ^ 16 == 0x2000
claims (CxlMsg.m2s_req _ _ addr) = addr % 2 ^ 16 == 0x2000
claims _ = false

unfoldable pub apply_token : Array → ℕ → Array
apply_token s t =
    if load_valid t == 1
    then (if load_matrix_sel t == 0
        then record s { a = update s.a (load_addr t) (load_data t) }
        else record s { b = update s.b (load_addr t) (load_data t) })
    else if compute_valid t == 1
    then record s { c = multiply s.a s.b }
    else s

-- The array after a request.
unfoldable pub next : Array → CxlMsg → Array
next s m = if claims m then apply_token s (token_of m) else s

-- The 32 data bytes of a read response.
abbrev pub result_data : ℕ → List ℕ
result_data v = (v % 256) ∷ (v / 256 % 256) ∷ (v / 65536 % 256) ∷ replicate 29 0

unfoldable pub answer_claimed : Array → CxlMsg → CxlMsg
answer_claimed s (CxlMsg.m2s_req t _ addr) =
    CxlMsg.s2m_drs t S2mDrsOp.mem_data (result_data (s.c (read_addr (addr / 2 ^ 32))))
answer_claimed s m = CxlMsg.s2m_ndr (tag m) S2mNdrOp.cmp

-- The response to a request.
unfoldable pub answer : Array → CxlMsg → CxlMsg
answer s m =
    if claims m then answer_claimed s m else CxlMsg.s2m_ndr (tag m) S2mNdrOp.dispatch_failed

module _ (dev : Device) where
  open dev use {State, fresh, tick, send_flit, try_recv_flit}

  -- The flit comes at the poll after `k` empty ones, and leaves the state `s'`.
  abbrev pub Delivers : ℕ → State → List ℕ → State → Type 0
  Delivers zero s f s' = try_recv_flit ((tick s).1) ≡ (some f, s')
  Delivers (suc k) s f s' =
      (s1 : State) × (try_recv_flit ((tick s).1) ≡ (none, s1)) × Delivers k s1 f s'

-- `Holds a s`: the endpoint is idle in state `s`, and its array holds `a`. It starts blank, a tick
-- changes nothing while idle, and a request is answered within the host's timeout.
pub record Serves (dev : Device) : Type 1 where
  pub Holds : Array → dev.State → Type 0
  pub starts : Holds (record { a = λ i. 0; b = λ i. 0; c = λ i. 0 }) dev.fresh
  pub idles : (arr : Array) (s : dev.State) → Holds arr s → Holds arr ((dev.tick s).1)
  pub answers :
      (arr : Array) (s : dev.State) (m : CxlMsg)
      → Holds arr s
      → IsMsg m
      → (k : ℕ) × (k ≤ flit_timeout_ticks)
        × (s' : dev.State) × Holds (next arr m) s'
        × Delivers dev k (dev.send_flit (encode m) s) (encode (answer arr m)) s'
