-- ===== src/Ir/AssignTokens/Walk.antt =====
-- The walk of assign_tokens.rs visits an id only after all its predecessors.
use slug_arch.Base.{ℕ, zero, suc, ◌+◌, ◌-◌, ◌≡◌, ◌≢◌, subst, refl, sym, ap, ◌∙◌, arith, inl, inr}
use slug_arch.Base.{
  Bool, true, false, ◌&&◌, ◌||◌, not, none, some, List, [], ◌∷◌, ◌++◌, append_assoc, append-nil,
}
use slug_arch.Base.{
  Map, insert, lookup_or, contains, ◌==◌, ==_iff, leb, if◌then◌else◌, All, All-append, Bool-cases,
  lookup-insert, lookup-insert_other, lookup-remove_other, ==-differ,
}
use slug_arch.Ir.Graph.{Edge, src, dst, successors}
use slug_arch.Ir.AssignTokens.{
  sort, insert_sorted, count, relax, visit, round_on, round, walk, Walking,
}

-- The edges into `d` whose source is not visited.
abbrev pub pending : List Edge → List ℕ → ℕ → ℕ
pending [] visited d = 0
pending (e ∷ es) visited d =
    pending es visited d + (if dst e == d && not (contains visited (src e)) then 1 else 0)

abbrev pub occurs : List ℕ → ℕ → ℕ
occurs [] d = 0
occurs (x ∷ xs) d = occurs xs d + (if x == d then 1 else 0)

pub differ : (k d : ℕ) → (k == d) ≡ false → k ≢ d
differ k d e p = ground (arith, e, p)

pub or-false : (b : Bool) → (b || false) ≡ b
or-false true = refl
or-false false = refl

pub or-false-both : (b c : Bool) → (b || c) ≡ false → (b ≡ false) × (c ≡ false)
or-false-both false c h = (refl, h)
or-false-both true c h = cc (h)

pub count-insert :
    (m : Map ℕ) (k v d : ℕ) → count (insert m k v) d ≡ (if k == d then v else count m d)
count-insert m k v d = elim (Bool-cases (k == d)) [
  | inl e ↦
      let same : k ≡ d = (==_iff k d).0 e in
      rw e (
        ap (λ j. count (insert m k v) j) (sym same)
        ∙ ap (λ o. elim o [ none ↦ 0 | some n ↦ n ]) (lookup-insert m k v))
  | inr e ↦
      rw e (ap (λ o. elim o [ none ↦ 0 | some n ↦ n ]) (lookup-insert_other m k d v (differ k d e)))
]

occurs-insert_sorted :
    (x : ℕ) (ys : List ℕ) (d : ℕ) → occurs (insert_sorted x ys) d ≡ occurs (x ∷ ys) d
occurs-insert_sorted x [] d = refl
occurs-insert_sorted x (y ∷ ys) d = elim (Bool-cases (leb x y)) [
  | inl e ↦ rw e refl
  | inr e ↦ rw e (omega (arith, occurs-insert_sorted x ys d))
]

occurs-sort : (xs : List ℕ) (d : ℕ) → occurs (sort xs) d ≡ occurs xs d
occurs-sort [] d = refl
occurs-sort (x ∷ xs) d =
    occurs-insert_sorted x (sort xs) d ∙ ap (λ n. n + (if x == d then 1 else 0)) (occurs-sort xs d)

count-relax :
    (indeg : Map ℕ) (queue ss : List ℕ) (d : ℕ)
    → count ((relax indeg queue ss).0) d ≡ count indeg d - occurs ss d
count-relax indeg queue [] d = omega arith
count-relax indeg queue (s ∷ ss) d =
    let now : ℕ = count indeg s - 1 in
    let rest =
      count-relax (insert indeg s now) (if now == 0 then queue ++ (s ∷ []) else queue) ss d in
    elim (Bool-cases (s == d)) [
      | inl e ↦
          let at : count (insert indeg s now) d ≡ now = count-insert indeg s now d ∙ rw e refl in
          let same : count indeg s ≡ count indeg d = ap (count indeg) ((==_iff s d).0 e) in
          rw e (rest ∙ omega (arith, at, same))
      | inr e ↦
          let at : count (insert indeg s now) d ≡ count indeg d =
            count-insert indeg s now d ∙ rw e refl in
          rw e (rest ∙ omega (arith, at))
    ]

abbrev pub Zero : Map ℕ → ℕ → Type 0
Zero indeg x = count indeg x ≡ 0

pub contains-snoc :
    (xs : List ℕ) (id x : ℕ) → contains (xs ++ (id ∷ [])) x ≡ (contains xs x || (id == x))
contains-snoc [] id x = elim (Bool-cases (id == x)) [ inl e ↦ rw e refl | inr e ↦ rw e refl ]
contains-snoc (y ∷ xs) id x = elim (Bool-cases (y == x)) [
  | inl e ↦ rw e refl
  | inr e ↦ rw e (contains-snoc xs id x)
]

pending-visit :
    (es : List Edge) (visited : List ℕ) (id d : ℕ)
    → contains visited id ≡ false
    → pending es (visited ++ (id ∷ [])) d + occurs (successors es id) d ≡ pending es visited d
pending-visit [] visited id d h = refl
pending-visit (e ∷ es) visited id d h =
    let later = pending-visit es visited id d h in
    let snoc = contains-snoc visited id (src e) in
    elim (Bool-cases (src e == id)) [
      | inl s ↦
          let same : src e ≡ id = (==_iff (src e) id).0 s in
          let before : contains visited (src e) ≡ false = ap (contains visited) same ∙ h in
          let here : (id == src e) ≡ true = (==_iff id (src e)).1 (sym same) in
          let after : contains (visited ++ (id ∷ [])) (src e) ≡ true =
            snoc ∙ rw (before, here) refl in
          elim (Bool-cases (dst e == d)) [
            | inl t ↦ rw (s, t, before, after) (omega (arith, later))
            | inr t ↦ rw (s, t) (omega (arith, later))
          ]
      | inr s ↦
          let here : (id == src e) ≡ false =
            ==-differ id (src e) (λ p. differ (src e) id s (sym p)) in
          let after : contains (visited ++ (id ∷ [])) (src e) ≡ contains visited (src e) =
            snoc ∙ rw here (or-false (contains visited (src e))) in
          rw (s, after) (omega (arith, later))
    ]

-- An id at zero stays at zero when a count goes down.
Zero-insert : (indeg : Map ℕ) (s x : ℕ) → Zero indeg x → Zero (insert indeg s (count indeg s - 1)) x
Zero-insert indeg s x h =
    let at = count-insert indeg s (count indeg s - 1) x in
    elim (Bool-cases (s == x)) [
      | inl e ↦
          let same : count indeg s ≡ count indeg x = ap (count indeg) ((==_iff s x).0 e) in
          at ∙ rw e (omega (arith, same, h))
      | inr e ↦ at ∙ rw e h
    ]

All-Zero-insert :
    (indeg : Map ℕ) (s : ℕ) (q : List ℕ)
    → All (Zero indeg) q
    → All (Zero (insert indeg s (count indeg s - 1))) q
All-Zero-insert indeg s [] h = tt
All-Zero-insert indeg s (x ∷ q) (hx, h) = (Zero-insert indeg s x hx, All-Zero-insert indeg s q h)

queued-Zero :
    (indeg : Map ℕ) (s : ℕ) (q : List ℕ) (b : Bool)
    → (b ≡ true → Zero indeg s)
    → All (Zero indeg) q
    → All (Zero indeg) (if b then q ++ (s ∷ []) else q)
queued-Zero indeg s q true z h = All-append (Zero indeg) q (s ∷ []) h (z refl, tt)
queued-Zero indeg s q false z h = h

relax-Zero :
    (indeg : Map ℕ) (q ss : List ℕ)
    → All (Zero indeg) q
    → All (Zero ((relax indeg q ss).0)) ((relax indeg q ss).1)
relax-Zero indeg q [] h = h
relax-Zero indeg q (s ∷ ss) h =
    let now : ℕ = count indeg s - 1 in
    let down : Map ℕ = insert indeg s now in
    let kept : All (Zero down) q = All-Zero-insert indeg s q h in
    relax-Zero down (if now == 0 then q ++ (s ∷ []) else q) ss (
      queued-Zero down s q (now == 0)
        (λ e. count-insert indeg s now s ∙ rw ((==_iff s s).1 refl) ((==_iff now 0).0 e)) kept)

-- Each id comes once, after the sources of all edges into it.
abbrev pub Ordered : List Edge → List ℕ → List ℕ → Type 0
Ordered edges before [] = Unit
Ordered edges before (x ∷ xs) =
    (contains before x ≡ false)
    × (pending edges before x ≡ 0)
    × Ordered edges (before ++ (x ∷ [])) xs

Ordered-append :
    (edges : List Edge) (before xs : List ℕ) (x : ℕ)
    → Ordered edges before xs
    → contains (before ++ xs) x ≡ false
    → pending edges (before ++ xs) x ≡ 0
    → Ordered edges before (xs ++ (x ∷ []))
Ordered-append edges before [] x h c p =
    let e : before ++ [] ≡ before = append-nil before in
    (ap (λ l. contains l x) (sym e) ∙ c, ap (λ l. pending edges l x) (sym e) ∙ p, tt)
Ordered-append edges before (y ∷ xs) x (c0, p0, h) c p =
    let e : (before ++ (y ∷ [])) ++ xs ≡ before ++ (y ∷ xs) = append_assoc before (y ∷ []) xs in
    (
      c0,
      p0,
      Ordered-append edges (before ++ (y ∷ [])) xs x h (ap (λ l. contains l x) e ∙ c)
          (ap (λ l. pending edges l x) e ∙ p),
    )

-- What holds before every round.
pub record IsWalk (edges : List Edge) (w : Walking) : Type 0 where
  pub counted : (d : ℕ) → count w.indeg d ≡ pending edges w.topo d
  pub adjacent : (s : ℕ) → contains w.topo s ≡ false → lookup_or w.adj s [] ≡ successors edges s
  pub ready : All (Zero w.indeg) w.queue
  pub ordered : Ordered edges [] w.topo
  pub same : w.visited ≡ w.topo

pub visit-IsWalk :
    (edges : List Edge) (w : Walking) (id : ℕ) (rest : List ℕ)
    → IsWalk edges w
    → contains w.topo id ≡ false
    → Zero w.indeg id
    → All (Zero w.indeg) rest
    → IsWalk edges (visit w id rest)
visit-IsWalk edges w id rest i new z r = record {
  counted = λ d. omega (
    arith,
    count-relax w.indeg rest (sort (lookup_or w.adj id [])) d,
    occurs-sort (lookup_or w.adj id []) d,
    ap (λ l. occurs l d) (i.adjacent id new),
    pending-visit edges w.topo id d new,
    i.counted d,
  );
  adjacent = λ s h.
      let both =
        or-false-both (contains w.topo s) (id == s) (sym (contains-snoc w.topo id s) ∙ h) in
      ap (λ o. elim o [ none ↦ [] | some v ↦ v ])
        (lookup-remove_other w.adj id s (differ id s both.1))
      ∙ i.adjacent s both.0;
  ready = relax-Zero w.indeg rest (sort (lookup_or w.adj id [])) r;
  ordered = Ordered-append edges [] w.topo id i.ordered new (sym (i.counted id) ∙ z);
  same = ap (λ l. l ++ (id ∷ [])) i.same;
}

pub round_on-IsWalk :
    (edges : List Edge) (w : Walking) (q : List ℕ)
    → IsWalk edges w
    → All (Zero w.indeg) q
    → IsWalk edges (round_on w q)
round_on-IsWalk edges w [] i r = i
round_on-IsWalk edges w (id ∷ rest) i r =
    let seen : contains w.visited id ≡ contains w.topo id = ap (λ l. contains l id) i.same in
    elim (Bool-cases (contains w.topo id)) [
      | inl old ↦
          subst (λ b. IsWalk edges (if b then record w { queue = rest } else visit w id rest))
            (sym (seen ∙ old))
            (record {
              counted = i.counted;
              adjacent = i.adjacent;
              ready = r.1;
              ordered = i.ordered;
              same = i.same;
            })
      | inr new ↦
          subst (λ b. IsWalk edges (if b then record w { queue = rest } else visit w id rest))
            (sym (seen ∙ new)) (visit-IsWalk edges w id rest i new r.0 r.1)
    ]

pub walk-IsWalk :
    (edges : List Edge) (n : ℕ) (w : Walking) → IsWalk edges w → IsWalk edges (walk n w)
unfolding walk
walk-IsWalk edges zero w i = i
walk-IsWalk edges (suc n) w i =
    walk-IsWalk edges n (round w) (round_on-IsWalk edges w w.queue i i.ready)
