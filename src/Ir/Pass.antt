-- ===== src/Ir/Pass.antt =====
-- crates/slugarch-ir/src/pass.rs: passes change a module in place, and the first that fails ends the run with
-- the module as it left it. What a pass keeps for itself between runs is not part of the model.
use Prim.Native.String.{String}
use slug_arch.Base.{◌≡◌, refl, sym, ap, ◌∙◌, List, [], ◌∷◌, ◌++◌, Result, ok, err}
use slug_arch.Ir.Graph.{Module}
use slug_arch.Ir.AssignTokens.{IrError}

pub record Pass : Type 0 where
  pub name : String
  pub run : Module → Result IrError (Unit {0}) × Module

-- The `?` of the loop.
abbrev pub and_then :
    Result IrError (Unit {0}) × Module
    → (Module → Result IrError (Unit {0}) × Module)
    → Result IrError (Unit {0}) × Module
and_then (err why, m) rest = (err why, m)
and_then (ok _, m) rest = rest m

unfoldable pub run_passes : List Pass → Module → Result IrError (Unit {0}) × Module
run_passes [] m = (ok tt, m)
run_passes (p ∷ ps) m = and_then (p.run m) (run_passes ps)

and_then_assoc :
    (r : Result IrError (Unit {0}) × Module) (f g : Module → Result IrError (Unit {0}) × Module)
    → and_then (and_then r f) g ≡ and_then r (λ m. and_then (f m) g)
and_then_assoc (err why, m) f g = refl
and_then_assoc (ok _, m) f g = refl

-- A run of passes may be cut anywhere: the second part runs when the first succeeds.
pub run_passes-append :
    (ps qs : List Pass) (m : Module)
    → run_passes (ps ++ qs) m ≡ and_then (run_passes ps m) (run_passes qs)
unfolding run_passes
run_passes-append [] qs m = refl
run_passes-append (p ∷ ps) qs m =
    ap (and_then (p.run m)) (λ i. λ k. run_passes-append ps qs k i)
    ∙ sym (and_then_assoc (p.run m) (run_passes ps) (run_passes qs))
