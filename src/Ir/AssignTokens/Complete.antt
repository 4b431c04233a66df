-- ===== src/Ir/AssignTokens/Complete.antt =====
-- assign_tokens.rs succeeds on every function whose edges have no cycle.
use slug_arch.Base.{ℕ, zero, suc, ◌≤◌, ◌<◌, ◌≡◌, ◌≢◌, refl, sym, ap, subst, ◌∙◌, arith, inl, inr}
use slug_arch.Base.{Bool, true, false, ◌&&◌, not, Bool-cases, List, [], ◌∷◌, ◌++◌, ok}
use slug_arch.Base.{Map, IsMap, keys, contains, ◌==◌, ==_iff, ==-differ, if◌then◌else◌, length, All}
use slug_arch.Ir.Ops.{Op}
use slug_arch.Ir.Graph.{Edge, src, dst, Function}
use slug_arch.Ir.AssignTokens.{assign_function, walk_fuel, start}
use slug_arch.Ir.AssignTokens.Walk.{
  pending, Ordered, IsWalk, walk-IsWalk, contains-snoc, differ, or-false-both,
}
use slug_arch.Ir.AssignTokens.Start.{start-IsWalk}
use slug_arch.Ir.AssignTokens.Fuel.{walk-ends, length-keys}
use slug_arch.Ir.AssignTokens.Reach.{
  Reaches, walk-Reaches, start-Reaches, or-true, or-left, or-right,
}
use slug_arch.Ir.AssignTokens.Inside.{IsInside, walk-IsInside, start-IsInside}
use slug_arch.Ir.AssignTokens.Correct.{walked, result_of}

abbrev NoRepeat : List ℕ → Type 0
NoRepeat [] = Unit
NoRepeat (x ∷ xs) = (contains xs x ≡ false) × NoRepeat xs

abbrev delete : List ℕ → ℕ → List ℕ
delete [] x = []
delete (y ∷ ys) x = if y == x then ys else y ∷ delete ys x

length-delete :
    (ys : List ℕ) (x : ℕ) → contains ys x ≡ true → suc (length (delete ys x)) ≡ length ys
length-delete [] x h = cc (h)
length-delete (y ∷ ys) x h = elim (Bool-cases (y == x)) [
  | inl e ↦ rw e refl
  | inr e ↦ let rest : contains ys x ≡ true = rw e at h in rw e (ap suc (length-delete ys x rest))
]

contains-delete :
    (ys : List ℕ) (x z : ℕ) → x ≢ z → contains ys z ≡ true → contains (delete ys x) z ≡ true
contains-delete [] x z n h = h
contains-delete (y ∷ ys) x z n h = elim (Bool-cases (y == x)) [
  | inl e ↦
      let other : (y == z) ≡ false = ==-differ y z (λ p. n (sym ((==_iff y x).0 e) ∙ p)) in
      let rest : contains ys z ≡ true = rw other at h in rw (delete, e) rest
  | inr e ↦
      rw (delete, e)
        (elim (or-true (y == z) (contains ys z) h) [
          | inl a ↦ or-left (y == z) _ a
          | inr b ↦ or-right (y == z) _ (contains-delete ys x z n b)
        ])
]

All-delete :
    (xs ys : List ℕ) (x : ℕ)
    → contains xs x ≡ false
    → All (λ z. contains ys z ≡ true) xs
    → All (λ z. contains (delete ys x) z ≡ true) xs
All-delete [] ys x n h = tt
All-delete (z ∷ xs) ys x n (hz, h) =
    let (other, rest) = or-false-both (z == x) (contains xs x) n in
    (contains-delete ys x z (λ p. differ z x other (sym p)) hz, All-delete xs ys x rest h)

-- A list without repetition inside another is no longer than it.
pigeonhole :
    (xs ys : List ℕ) → NoRepeat xs → All (λ z. contains ys z ≡ true) xs → length xs ≤ length ys
pigeonhole [] ys n h = omega arith
pigeonhole (x ∷ xs) ys (new, n) (hx, h) =
    omega (arith, pigeonhole xs (delete ys x) n (All-delete xs ys x new h), length-delete ys x hx)

absent :
    (before xs : List ℕ) (x : ℕ)
    → All (λ y. contains (before ++ (x ∷ [])) y ≡ false) xs
    → (contains xs x ≡ false) × All (λ y. contains before y ≡ false) xs
absent before [] x h = (refl, tt)
absent before (y ∷ xs) x (hy, h) =
    let (old, other) =
      or-false-both (contains before y) (x == y) (sym (contains-snoc before x y) ∙ hy) in
    let (rest, all) = absent before xs x h in
    let flipped : (y == x) ≡ false = ==-differ y x (λ p. differ x y other (sym p)) in
    (rw flipped rest, (old, all))

Ordered-NoRepeat :
    (edges : List Edge) (before xs : List ℕ)
    → Ordered edges before xs
    → NoRepeat xs × All (λ x. contains before x ≡ false) xs
Ordered-NoRepeat edges before [] h = (tt, tt)
Ordered-NoRepeat edges before (x ∷ xs) (new, free, h) =
    let (n, all) = Ordered-NoRepeat edges (before ++ (x ∷ [])) xs h in
    let (out, rest) = absent before xs x all in ((out, n), (new, rest))

IsMap-NoRepeat : (m : Map Op) → IsMap m → NoRepeat (keys m)
IsMap-NoRepeat [] h = tt
IsMap-NoRepeat ((k, v) ∷ m) (new, h) = (new, IsMap-NoRepeat m h)

members :
    (xs ys : List ℕ)
    → ((z : ℕ) → contains xs z ≡ true → contains ys z ≡ true)
    → All (λ z. contains ys z ≡ true) xs
members [] ys f = tt
members (x ∷ xs) ys f = (
  f x (or-left (x == x) (contains xs x) ((==_iff x x).1 refl)),
  members xs ys (λ z h. f z (or-right (x == z) (contains xs z) h)),
)

nothing_counted :
    (target visited : Bool)
    → (target ≡ true → visited ≡ true)
    → ◌≡◌ {A = ℕ} (if target && not visited then 1 else 0) 0
nothing_counted true true f = refl
nothing_counted true false f = let bad : false ≡ true = f refl in cc (bad)
nothing_counted false visited f = refl

pending-All :
    (es : List Edge) (visited : List ℕ) (x : ℕ)
    → All (λ e. dst e ≡ x → contains visited (src e) ≡ true) es
    → pending es visited x ≡ 0
pending-All [] visited x h = refl
pending-All (e ∷ es) visited x (f, h) =
    let here =
      nothing_counted (dst e == x) (contains visited (src e)) (λ t. f ((==_iff (dst e) x).0 t)) in
    omega (arith, here, pending-All es visited x h)

-- The edges are between ops, and each goes up in rank: so they have no cycle.
abbrev pub Ranked : (ℕ → ℕ) → List ℕ → Edge → Type 0
Ranked rank ids e =
    (contains ids (src e) ≡ true) × (contains ids (dst e) ≡ true) × (rank (src e) < rank (dst e))

module _ (rank : ℕ → ℕ) (ids : List ℕ) (edges : List Edge) (topo : List ℕ) where
  sources_visited :
      (n k : ℕ)
      → ((j : ℕ) → rank j < n → contains ids j ≡ true → contains topo j ≡ true)
      → rank k < suc n
      → (es : List Edge) → All (Ranked rank ids) es
      → All (λ e. dst e ≡ k → contains topo (src e) ≡ true) es
  sources_visited n k f h [] r = tt
  sources_visited n k f h (e ∷ es) ((s, d, up), r) =
      (λ p. f (src e) (omega (arith, up, h, ap rank p)) s, sources_visited n k f h es r)

  every_visited :
      All (Ranked rank ids) edges
      → Reaches ids edges topo []
      → (n k : ℕ) → rank k < n
      → contains ids k ≡ true
      → contains topo k ≡ true
  every_visited r reach zero k h c = absurd (omega arith)
  every_visited r reach (suc n) k h c =
      elim (reach k c
        (pending-All edges topo k (sources_visited n k (every_visited r reach n) h edges r))) [
          | inl t ↦ t
          | inr b ↦ cc (b)
        ]

targets :
    (rank : ℕ → ℕ) (ids : List ℕ) (es : List Edge)
    → All (Ranked rank ids) es
    → All (λ e. contains ids (dst e) ≡ true) es
targets rank ids [] r = tt
targets rank ids (e ∷ es) ((s, d, up), r) = (d, targets rank ids es r)

-- The pass succeeds on every function with edges between its ops and no cycle: when some rank rises
-- along every edge, no error is returned.
pub assign_function-Ranked :
    (f : Function) (rank : ℕ → ℕ)
    → IsMap f.ops
    → All (Ranked rank (keys f.ops)) f.edges
    → assign_function f ≡ ok (result_of f)
unfolding assign_function
assign_function-Ranked f rank m r =
    let ids : List ℕ = keys f.ops in
    let topo : List ℕ = (walked f).topo in
    let s = start-IsWalk f in
    let w : IsWalk f.edges (walked f) = walk-IsWalk f.edges (walk_fuel f) (start f) s in
    let reach : Reaches ids f.edges topo [] =
      subst (Reaches ids f.edges topo) (walk-ends f)
        (walk-Reaches ids f.edges (walk_fuel f) (start f) s (start-Reaches f s)) in
    let inside : IsInside (λ k. contains ids k ≡ true) (walked f) =
      walk-IsInside (λ k. contains ids k ≡ true) f.edges (walk_fuel f) (start f)
        (targets rank ids f.edges r) s
        (start-IsInside (λ k. contains ids k ≡ true) f (members ids ids (λ z h. h))
          (targets rank ids f.edges r)) in
    let below =
      pigeonhole topo ids (Ordered-NoRepeat f.edges [] topo w.ordered).0 inside.visited_in in
    let above = pigeonhole ids topo (IsMap-NoRepeat f.ops m) (
      members ids topo
        (λ k c. every_visited rank ids f.edges topo r reach (suc (rank k)) k (omega arith) c)) in
    let equal : (length topo == length f.ops) ≡ true =
      (==_iff (length topo) (length f.ops)).1 (omega (arith, below, above, length-keys f.ops)) in
    rw equal refl
