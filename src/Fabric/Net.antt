-- ===== src/Fabric/Net.antt =====
-- What Fabric::run promises, without its IPs, cycles and orders of polling: commands wait, run and are done;
-- a command starts when the token that it waits for is there, and gives its token when it is done.
use mathlib.Core.List.{Perm, perm_middle}
use mathlib.Core.List.Perm
use slug_arch.Base.{
  ℕ, ◌≡◌, sym, subst, true, List, [], ◌∷◌, ◌++◌, append-nil, append_assoc, All, All-append,
  contains, or-right,
}
use slug_arch.Backend.Bind.{DispatchCmd}

-- The commands done come last first.
pub record Net : Type 0 where
  pub waiting : List DispatchCmd
  pub running : List DispatchCmd
  pub done : List DispatchCmd

-- The tokens that are there: 0 from the start, and those of the commands done.
abbrev pub tokens : List DispatchCmd → List ℕ
tokens [] = 0 ∷ []
tokens (c ∷ cs) = c.token_out ∷ tokens cs

abbrev pub IsReleased : List DispatchCmd → DispatchCmd → Type 0
IsReleased done cmd = contains (tokens done) cmd.token_in ≡ true

pub data Step : Net → Net → Type 0 where
  start :
      (waiting later running done : List DispatchCmd) (cmd : DispatchCmd)
      → Perm waiting (cmd ∷ later)
      → IsReleased done cmd
      → Step
          (record { waiting = waiting; running = running; done = done })
          (record { waiting = later; running = running ++ (cmd ∷ []); done = done })
  finish :
      (waiting before after done : List DispatchCmd) (cmd : DispatchCmd)
      → Step
          (record { waiting = waiting; running = before ++ (cmd ∷ after); done = done })
          (record { waiting = waiting; running = before ++ after; done = cmd ∷ done })

pub data Reach (n : Net) : Net → Type 0 where
  here : Reach n n
  next : {m k : Net} → Reach n m → Step m k → Reach n k

pub Reach-trans : {n m k : Net} → Reach n m → Reach m k → Reach n k
Reach-trans r here = r
Reach-trans r (next s t) = next (Reach-trans r s) t

-- Each command done waited for the start or for the token of one that was done before it.
abbrev pub IsOrdered : List DispatchCmd → Type 0
IsOrdered [] = Unit {0}
IsOrdered (c ∷ cs) = IsReleased cs c × IsOrdered cs

-- The invariant: the commands are those of the stream, the running ones are released, and those done
-- are in order.
pub record IsSound (stream : List DispatchCmd) (n : Net) : Type 0 where
  pub all_there : Perm (n.waiting ++ (n.running ++ n.done)) stream
  pub released : All (IsReleased n.done) n.running
  pub ordered : IsOrdered n.done

contains-later : (x k : ℕ) (xs : List ℕ) → contains xs k ≡ true → contains (x ∷ xs) k ≡ true
contains-later x k xs h = or-right _ _ h

All-IsReleased :
    (done : List DispatchCmd) (c : DispatchCmd) (rs : List DispatchCmd)
    → All (IsReleased done) rs
    → All (IsReleased (c ∷ done)) rs
All-IsReleased done c [] h = tt
All-IsReleased done c (r ∷ rs) (h, hs) =
    (contains-later c.token_out r.token_in (tokens done) h, All-IsReleased done c rs hs)

All-split :
    (P : DispatchCmd → Type 0) (xs ys : List DispatchCmd) → All P (xs ++ ys) → All P xs × All P ys
All-split P [] ys h = (tt, h)
All-split P (x ∷ xs) ys (h, hs) = let (a, b) = All-split P xs ys hs in ((h, a), b)

module _ (stream : List DispatchCmd) where
  start-perm :
      (waiting later running done : List DispatchCmd) (cmd : DispatchCmd)
      → Perm waiting (cmd ∷ later)
      → Perm (waiting ++ (running ++ done)) stream
      → Perm (later ++ ((running ++ (cmd ∷ [])) ++ done)) stream
  start-perm waiting later running done cmd p s =
      subst (λ l. Perm (later ++ l) stream) (sym (append_assoc running (cmd ∷ []) done))
        (Perm.trans (Perm.append_left later (perm_middle running done)) (
          Perm.trans (perm_middle later (running ++ done))
            (Perm.trans (Perm.append_right (running ++ done) (Perm.symm p)) s)))

  finish-perm :
      (waiting before after done : List DispatchCmd) (cmd : DispatchCmd)
      → Perm (waiting ++ ((before ++ (cmd ∷ after)) ++ done)) stream
      → Perm (waiting ++ ((before ++ after) ++ (cmd ∷ done))) stream
  finish-perm waiting before after done cmd s =
      Perm.trans
        (Perm.append_left waiting (
          Perm.trans (perm_middle (before ++ after) done)
            (Perm.append_right done (Perm.symm (perm_middle before after)))))
        s

  Step-IsSound : {n m : Net} → Step n m → IsSound stream n → IsSound stream m
  Step-IsSound (start waiting later running done cmd p r) s = record {
    all_there = start-perm waiting later running done cmd p s.all_there;
    released = All-append (IsReleased done) running (cmd ∷ []) s.released (r, tt);
    ordered = s.ordered;
  }
  Step-IsSound (finish waiting before after done cmd) s =
      let (a, (c, b)) = All-split (IsReleased done) before (cmd ∷ after) s.released in
      record {
        all_there = finish-perm waiting before after done cmd s.all_there;
        released =
            All-append (IsReleased (cmd ∷ done)) before after (All-IsReleased done cmd before a)
              (All-IsReleased done cmd after b);
        ordered = (c, s.ordered);
      }

  pub Reach-IsSound : {n m : Net} → Reach n m → IsSound stream n → IsSound stream m
  Reach-IsSound here s = s
  Reach-IsSound (next r t) s = Step-IsSound t (Reach-IsSound r s)

  -- With nothing waiting or running, the commands done are those of the stream.
  pub Reach-all_done :
      (done : List DispatchCmd)
      → Reach
          (record { waiting = stream; running = []; done = [] })
          (record { waiting = []; running = []; done = done })
      → Perm done stream × IsOrdered done
  Reach-all_done done r =
      let s : IsSound stream (record { waiting = []; running = []; done = done }) =
        Reach-IsSound r (record {
          all_there = subst (λ l. Perm l stream) (sym (append-nil stream)) (Perm.refl stream);
          released = tt;
          ordered = tt;
        }) in
      (s.all_there, s.ordered)
