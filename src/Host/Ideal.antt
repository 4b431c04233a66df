-- ===== src/Host/Ideal.antt =====
-- A device that serves the array at once, as a witness that `Serves` can be met.
use slug_arch.Base.{ℕ, ◌≡◌, refl, arith, Option, none, some, List, Result, ok, err}
use slug_arch.Wire.Msg.{CxlMsg, tag}
use slug_arch.Wire.Codec.{WireError, encode, decode}
use slug_arch.Wire.RoundTrip.{as_received, decode-encode}
use slug_arch.Host.Run.{Device}
use slug_arch.Host.Endpoint.{Array, Serves, next, answer, claims}

-- The array, and the flit that waits to be received.
pub record IdealState : Type 0 where
  pub arr : Array
  pub out : Option (List ℕ)

abbrev pub serve_msg : IdealState → Result WireError CxlMsg → IdealState
serve_msg s (ok m) = record { arr = next s.arr m; out = some (encode (answer s.arr m)) }
serve_msg s (err e) = s

abbrev pub ideal : Device
ideal = record {
  State = IdealState;
  fresh = record { arr = record { a = λ i. 0; b = λ i. 0; c = λ i. 0 }; out = none };
  tick = λ s. (0, s);
  send_flit = λ f s. serve_msg s (decode f);
  try_recv_flit = λ s. (s.out, record s { out = none });
}

-- The receiver's view of a message asks the same of the array.
next-as_received : (arr : Array) (m : CxlMsg) → next arr (as_received m) ≡ next arr m
unfolding as_received next claims
next-as_received arr (CxlMsg.d2h_resp t o none) = refl
next-as_received arr m = refl

answer-as_received : (arr : Array) (m : CxlMsg) → answer arr (as_received m) ≡ answer arr m
unfolding as_received answer claims tag
answer-as_received arr (CxlMsg.d2h_resp t o none) = refl
answer-as_received arr m = refl

pub ideal-serves : Serves ideal
ideal-serves = record {
  Holds = λ arr s. s ≡ record { arr = arr; out = none };
  starts = refl;
  idles = λ arr s h. h;
  answers = λ arr s m h v. (
    0,
    omega arith,
    record { arr = next arr m; out = none },
    refl,
    rw (h, decode-encode m v, next-as_received, answer-as_received),
  );
}
