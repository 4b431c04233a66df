-- ===== src/Ir/AssignTokens/NoEdges.antt =====
-- assign_tokens.rs on a function without edges and with ascending ids.
use slug_arch.Base.{ℕ, zero, suc, ◌≤◌, ◌<◌, ◌≡◌, refl, sym, ap, ◌∙◌, arith}
use slug_arch.Base.{
  Bool, true, false, Option, none, some, List, [], ◌∷◌, ◌++◌, append_assoc, append-nil, ok,
}
use slug_arch.Base.{
  Map, lookup, keys, contains, ◌==◌, ==_iff, ==-differ, leb, if◌then◌else◌, All, All-append, length,
}
use slug_arch.Ir.Graph.{Function}
use slug_arch.Ir.AssignTokens.{
  assign_function, assign, walk, walk_fuel, start, Walking, sort, insert_sorted, sources,
  zero_counts, count, round,
}
use slug_arch.Ir.AssignTokens.Reach.{keys-zero_counts}
use slug_arch.Ir.AssignTokens.Fuel.{length-keys}

abbrev pub Ascending : List ℕ → Type 0
Ascending [] = Unit
Ascending (x ∷ xs) = All (λ y. x < y) xs × Ascending xs

insert_sorted-least : (x : ℕ) (ys : List ℕ) → All (λ y. x < y) ys → insert_sorted x ys ≡ x ∷ ys
insert_sorted-least x [] h = refl
insert_sorted-least x (y ∷ ys) (p, h) =
    let first : leb x y ≡ true = ground (arith, p) in rw first refl

sort-Ascending : (xs : List ℕ) → Ascending xs → sort xs ≡ xs
sort-Ascending [] h = refl
sort-Ascending (x ∷ xs) (p, h) =
    ap (insert_sorted x) (sort-Ascending xs h) ∙ insert_sorted-least x xs p

zero_or :
    (b : Bool) (o : Option ℕ)
    → ◌≡◌ {A = ℕ} (elim o [ none ↦ 0 | some v ↦ v ]) 0
    → ◌≡◌ {A = ℕ} (elim (if b then some 0 else o) [ none ↦ 0 | some v ↦ v ]) 0
zero_or true o h = refl
zero_or false o h = h

count-zero_counts : (ks : List ℕ) (k : ℕ) → count (zero_counts ks) k ≡ 0
count-zero_counts [] k = refl
count-zero_counts (j ∷ ks) k = zero_or (j == k) (lookup (zero_counts ks) k) (count-zero_counts ks k)

sources_all : (indeg : Map ℕ) (ks : List ℕ) → ((k : ℕ) → count indeg k ≡ 0) → sources indeg ks ≡ ks
sources_all indeg [] h = refl
sources_all indeg (k ∷ ks) h =
    let zero_here : (count indeg k == 0) ≡ true = (==_iff _ _).1 (h k) in
    rw zero_here (ap (λ l. k ∷ l) (sources_all indeg ks h))

-- The walk after some ids, with the others in the queue.
abbrev between : Map ℕ → List ℕ → List ℕ → Walking
between indeg done rest = record {
  indeg = indeg;
  adj = [];
  queue = rest;
  visited = done;
  topo = done;
}

start-between :
    (f : Function)
    → f.edges ≡ []
    → Ascending (keys f.ops)
    → start f ≡ between (zero_counts (keys f.ops)) [] (keys f.ops)
start-between f e a =
    let ks = keys f.ops in
    let sorted : sort (sources (zero_counts ks) (keys (zero_counts ks))) ≡ ks =
      ap sort (
        sources_all (zero_counts ks) (keys (zero_counts ks)) (count-zero_counts ks)
        ∙ keys-zero_counts ks)
      ∙ sort-Ascending ks a in
    rw e (ap (between (zero_counts ks) []) sorted)

absent_below : (x : ℕ) (done : List ℕ) → All (λ d. d < x) done → contains done x ≡ false
absent_below x [] h = refl
absent_below x (d ∷ done) (p, h) =
    rw (==-differ d x (λ e. absurd (omega (arith, p, e)))) (absent_below x done h)

abbrev Apart : List ℕ → List ℕ → Type 0
Apart done rest = All (λ y. All (λ d. d < y) done) rest

Apart-snoc :
    (done : List ℕ) (x : ℕ) (rest : List ℕ)
    → Apart done rest
    → All (λ y. x < y) rest
    → Apart (done ++ (x ∷ [])) rest
Apart-snoc done x [] a h = tt
Apart-snoc done x (y ∷ rest) (p, a) (q, h) =
    (All-append (λ d. d < y) done (x ∷ []) p (q, tt), Apart-snoc done x rest a h)

walk-between :
    (n : ℕ) (indeg : Map ℕ) (done rest : List ℕ)
    → length rest ≤ n
    → Apart done rest
    → Ascending rest
    → walk n (between indeg done rest) ≡ between indeg (done ++ rest) []
unfolding walk
walk-between zero indeg done [] l a h = ap (λ d. between indeg d []) (sym (append-nil done))
walk-between zero indeg done (x ∷ rest) l a h = absurd (omega (arith, l))
walk-between (suc n) indeg done [] l a h = walk-between n indeg done [] (omega arith) a h
walk-between (suc n) indeg done (x ∷ rest) l (p, a) (q, h) =
    let stepped : round (between indeg done (x ∷ rest)) ≡ between indeg (done ++ (x ∷ [])) rest =
      rw (absent_below x done p) refl in
    ap (walk n) stepped
    ∙ walk-between n indeg (done ++ (x ∷ [])) rest (omega (arith, l)) (Apart-snoc done x rest a q) h
    ∙ ap (λ d. between indeg d []) (append_assoc done (x ∷ []) rest)

Apart-nil : (ks : List ℕ) → Apart [] ks
Apart-nil [] = tt
Apart-nil (k ∷ ks) = (tt, Apart-nil ks)

-- Without edges the order is that of the ids, and the pass succeeds.
pub assign_function-no_edges :
    (f : Function)
    → f.edges ≡ []
    → Ascending (keys f.ops)
    → assign_function f
      ≡ ok (record f { order = keys f.ops; meta = assign [] 0 [] f.meta (keys f.ops) })
unfolding assign_function
assign_function-no_edges f e a =
    let ks = keys f.ops in
    let done : walk (walk_fuel f) (start f) ≡ between (zero_counts ks) ks [] =
      ap (walk (walk_fuel f)) (start-between f e a)
      ∙ walk-between (walk_fuel f) (zero_counts ks) [] ks (omega (arith, length-keys f.ops))
          (Apart-nil ks) a in
    let equal : (length ks == length f.ops) ≡ true = (==_iff _ _).1 (length-keys f.ops) in
    rw (done, equal, e) refl
