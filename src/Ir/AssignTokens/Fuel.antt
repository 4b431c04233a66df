-- ===== src/Ir/AssignTokens/Fuel.antt =====
-- The fuel of the walk of assign_tokens.rs is enough: the queue is empty at its end.
use slug_arch.Base.{ℕ, zero, suc, ◌+◌, ◌-◌, ◌≤◌, ◌≡◌, refl, ap, ◌∙◌, arith, inl, inr}
use slug_arch.Base.{Bool, true, false, none, some, List, [], ◌∷◌, ◌++◌}
use slug_arch.Base.{
  Map, insert, lookup, lookup_or, remove, keys, contains, ◌==◌, leb, if◌then◌else◌, length,
  length-append, Bool-cases,
}
use slug_arch.Ir.Graph.{Edge, src, dst, Function}
use slug_arch.Ir.AssignTokens.{
  sort, insert_sorted, count, add_edges, relax, round_on, round, walk, start, sources, zero_counts,
  Walking, walk_fuel,
}

abbrev adj_size : Map (List ℕ) → ℕ
adj_size [] = 0
adj_size ((k, l) ∷ m) = length l + adj_size m

-- What the rounds use up: the ids in the queue and the successors not yet taken.
abbrev left : Walking → ℕ
left w = length w.queue + adj_size w.adj

taken :
    (b : Bool) (j : ℕ) (l : List ℕ) (m : Map (List ℕ)) (k : ℕ)
    → adj_size (remove m k) + length (lookup_or m k []) ≡ adj_size m
    → adj_size (if b then m else (j, l) ∷ remove m k)
        + length {A = ℕ} (elim (if b then some l else lookup m k) [ none ↦ [] | some v ↦ v ])
      ≡ length l + adj_size m
taken true j l m k h = omega arith
taken false j l m k h = omega (arith, h)

adj_size-remove :
    (m : Map (List ℕ)) (k : ℕ) → adj_size (remove m k) + length (lookup_or m k []) ≡ adj_size m
adj_size-remove [] k = refl
adj_size-remove ((j, l) ∷ m) k = taken (j == k) j l m k (adj_size-remove m k)

length-insert_sorted : (x : ℕ) (ys : List ℕ) → length (insert_sorted x ys) ≡ suc (length ys)
length-insert_sorted x [] = refl
length-insert_sorted x (y ∷ ys) = elim (Bool-cases (leb x y)) [
  | inl e ↦ rw e refl
  | inr e ↦ rw e (ap suc (length-insert_sorted x ys))
]

length-sort : (xs : List ℕ) → length (sort xs) ≡ length xs
length-sort [] = refl
length-sort (x ∷ xs) = length-insert_sorted x (sort xs) ∙ ap suc (length-sort xs)

length-queued :
    (q : List ℕ) (s : ℕ) (b : Bool) → length (if b then q ++ (s ∷ []) else q) ≤ length q + 1
length-queued q s true = omega (arith, length-append q (s ∷ []))
length-queued q s false = omega arith

length-relax :
    (indeg : Map ℕ) (q ss : List ℕ) → length ((relax indeg q ss).1) ≤ length q + length ss
length-relax indeg q [] = omega arith
length-relax indeg q (s ∷ ss) =
    let now : ℕ = count indeg s - 1 in
    let q' : List ℕ = if now == 0 then q ++ (s ∷ []) else q in
    omega (arith, length-relax (insert indeg s now) q' ss, length-queued q s (now == 0))

round_on-left :
    (w : Walking) (id : ℕ) (rest : List ℕ)
    → left (round_on w (id ∷ rest)) ≤ length rest + adj_size w.adj
round_on-left w id rest = elim (Bool-cases (contains w.visited id)) [
  | inl e ↦ rw e (omega arith)
  | inr e ↦
      let succ : List ℕ = lookup_or w.adj id [] in
      rw e (
        omega (
          arith,
          length-relax w.indeg rest (sort succ),
          length-sort succ,
          adj_size-remove w.adj id,
        ))
]

-- An empty queue ends the walk.
walk-empty : (n : ℕ) (w : Walking) → w.queue ≡ [] → (walk n w).queue ≡ []
unfolding walk
walk-empty zero w e = e
walk-empty (suc n) w e = walk-empty n (round w) (ap (λ q. (round_on w q).queue) e ∙ e)

walk-queue : (n : ℕ) (w : Walking) (q : List ℕ) → w.queue ≡ q → left w ≤ n → (walk n w).queue ≡ []
unfolding walk
walk-queue n w [] e h = walk-empty n w e
walk-queue zero w (id ∷ rest) e h = absurd (omega (arith, ap length e, h))
walk-queue (suc n) w (id ∷ rest) e h =
    let used : left (round w) ≡ left (round_on w (id ∷ rest)) = ap (λ q. left (round_on w q)) e in
    walk-queue n (round w) (round w).queue refl
      (omega (arith, used, round_on-left w id rest, ap length e, h))

length-sources : (indeg : Map ℕ) (ks : List ℕ) → length (sources indeg ks) ≤ length ks
length-sources indeg [] = omega arith
length-sources indeg (k ∷ ks) = elim (Bool-cases (count indeg k == 0)) [
  | inl e ↦ rw e (omega (arith, length-sources indeg ks))
  | inr e ↦ rw e (omega (arith, length-sources indeg ks))
]

length-keys-insert : (m : Map ℕ) (k v : ℕ) → length (keys (insert m k v)) ≤ length (keys m) + 1
length-keys-insert [] k v = omega arith
length-keys-insert ((j, w) ∷ m) k v = elim (Bool-cases (j == k)) [
  | inl e ↦ rw e (omega arith)
  | inr e ↦ rw e (omega (arith, length-keys-insert m k v))
]

pub length-keys : {V : Type 0} (m : Map V) → length (keys m) ≡ length m
length-keys [] = refl
length-keys ((j, w) ∷ m) = ap suc (length-keys m)

length-zero_counts : (ks : List ℕ) → length (keys (zero_counts ks)) ≡ length ks
length-zero_counts [] = refl
length-zero_counts (k ∷ ks) = ap suc (length-zero_counts ks)

pushed :
    (b : Bool) (j : ℕ) (l : List ℕ) (m : Map (List ℕ)) (k d : ℕ)
    → adj_size (insert m k (lookup_or m k [] ++ (d ∷ []))) ≡ adj_size m + 1
    → adj_size (
        let v : List ℕ =
          elim (if b then some l else lookup m k) [ none ↦ [] | some v ↦ v ] ++ (d ∷ []) in
        if b then (j, v) ∷ m else (j, l) ∷ insert m k v)
      ≡ length l + adj_size m + 1
pushed true j l m k d h = omega (arith, length-append l (d ∷ []))
pushed false j l m k d h = omega (arith, h)

adj_size-push :
    (m : Map (List ℕ)) (k d : ℕ)
    → adj_size (insert m k (lookup_or m k [] ++ (d ∷ []))) ≡ adj_size m + 1
adj_size-push [] k d = refl
adj_size-push ((j, l) ∷ m) k d = pushed (j == k) j l m k d (adj_size-push m k d)

add_edges-sizes :
    (indeg : Map ℕ) (adj : Map (List ℕ)) (es : List Edge)
    → (length (keys ((add_edges indeg adj es).0)) ≤ length (keys indeg) + length es)
      × (adj_size ((add_edges indeg adj es).1) ≡ adj_size adj + length es)
add_edges-sizes indeg adj [] = (omega arith, omega arith)
add_edges-sizes indeg adj (e ∷ es) =
    let (a, b) =
      add_edges-sizes (insert indeg (dst e) (count indeg (dst e) + 1))
        (insert adj (src e) (lookup_or adj (src e) [] ++ (dst e ∷ []))) es in
    (
      omega (arith, a, length-keys-insert indeg (dst e) (count indeg (dst e) + 1)),
      omega (arith, b, adj_size-push adj (src e) (dst e)),
    )

-- The loop over the queue ends: after as many rounds as there are ops and twice as many as there are
-- edges, the queue is empty.
pub walk-ends : (f : Function) → (walk (walk_fuel f) (start f)).queue ≡ []
walk-ends f =
    let built = add_edges (zero_counts (keys f.ops)) [] f.edges in
    let (a, b) = add_edges-sizes (zero_counts (keys f.ops)) [] f.edges in
    walk-queue (walk_fuel f) (start f) (start f).queue refl (
      omega (
        arith,
        a,
        b,
        length-sort (sources built.0 (keys built.0)),
        length-sources built.0 (keys built.0),
        length-zero_counts (keys f.ops),
        length-keys f.ops,
      ))
