-- ===== src/Ir/AssignTokens/Start.antt =====
-- The walk of assign_tokens.rs starts with the edges counted, and the ids of in-degree 0 in the queue.
use slug_arch.Base.{ℕ, ◌+◌, ◌≡◌, refl, sym, ap, ◌∙◌, arith, inl, inr}
use slug_arch.Base.{
  Bool, true, false, Option, none, some, List, [], ◌∷◌, ◌++◌, append_assoc, append-nil,
}
use slug_arch.Base.{
  Map, insert, lookup, lookup_or, keys, ◌==◌, ==_iff, leb, if◌then◌else◌, All, Bool-cases,
  lookup-insert, lookup-insert_other,
}
use slug_arch.Ir.Graph.{Edge, src, dst, Function, successors}
use slug_arch.Ir.AssignTokens.{sort, insert_sorted, count, add_edges, start, sources, zero_counts}
use slug_arch.Ir.AssignTokens.Walk.{pending, count-insert, differ, Zero, IsWalk}

first_or_later :
    (b : Bool) (o : Option ℕ)
    → ◌≡◌ {A = ℕ} (elim o [ none ↦ 0 | some n ↦ n ]) 0
    → ◌≡◌ {A = ℕ} (elim (if b then some 0 else o) [ none ↦ 0 | some n ↦ n ]) 0
first_or_later true o h = refl
first_or_later false o h = h

count-zero_counts : (ks : List ℕ) (d : ℕ) → count (zero_counts ks) d ≡ 0
count-zero_counts [] d = refl
count-zero_counts (k ∷ ks) d =
    first_or_later (k == d) (lookup (zero_counts ks) d) (count-zero_counts ks d)

count-add_edges :
    (indeg : Map ℕ) (adj : Map (List ℕ)) (es : List Edge) (d : ℕ)
    → count ((add_edges indeg adj es).0) d ≡ count indeg d + pending es [] d
count-add_edges indeg adj [] d = omega arith
count-add_edges indeg adj (e ∷ es) d =
    let here = count-insert indeg (dst e) (count indeg (dst e) + 1) d in
    let later =
      count-add_edges (insert indeg (dst e) (count indeg (dst e) + 1))
        (insert adj (src e) (lookup_or adj (src e) [] ++ (dst e ∷ []))) es d in
    elim (Bool-cases (dst e == d)) [
      | inl t ↦
          let same : count indeg (dst e) ≡ count indeg d =
            ap (count indeg) ((==_iff (dst e) d).0 t) in
          let at : count (insert indeg (dst e) (count indeg (dst e) + 1)) d
              ≡ count indeg (dst e) + 1 =
            here ∙ rw t refl in
          rw t (later ∙ omega (arith, at, same))
      | inr t ↦
          let at : count (insert indeg (dst e) (count indeg (dst e) + 1)) d ≡ count indeg d =
            here ∙ rw t refl in
          rw t (later ∙ omega (arith, at))
    ]

lookup_or-insert :
    (m : Map (List ℕ)) (k s : ℕ) (v : List ℕ)
    → lookup_or (insert m k v) s [] ≡ (if k == s then v else lookup_or m s [])
lookup_or-insert m k s v = elim (Bool-cases (k == s)) [
  | inl e ↦
      let same : k ≡ s = (==_iff k s).0 e in
      rw e (
        ap (λ j. lookup_or (insert m k v) j []) (sym same)
        ∙ ap (λ o. elim o [ none ↦ [] | some n ↦ n ]) (lookup-insert m k v))
  | inr e ↦
      rw e
        (ap (λ o. elim o [ none ↦ [] | some n ↦ n ]) (lookup-insert_other m k s v (differ k s e)))
]

adjacent-add_edges :
    (indeg : Map ℕ) (adj : Map (List ℕ)) (es : List Edge) (s : ℕ)
    → lookup_or ((add_edges indeg adj es).1) s [] ≡ lookup_or adj s [] ++ successors es s
adjacent-add_edges indeg adj [] s = sym (append-nil (lookup_or adj s []))
adjacent-add_edges indeg adj (e ∷ es) s =
    let pushed : List ℕ = lookup_or adj (src e) [] ++ (dst e ∷ []) in
    let here = lookup_or-insert adj (src e) s pushed in
    let later =
      adjacent-add_edges (insert indeg (dst e) (count indeg (dst e) + 1))
        (insert adj (src e) pushed) es s in
    elim (Bool-cases (src e == s)) [
      | inl t ↦
          let same : lookup_or adj (src e) [] ≡ lookup_or adj s [] =
            ap (λ k. lookup_or adj k []) ((==_iff (src e) s).0 t) in
          rw t (
            later
            ∙ (ap (λ l. l ++ successors es s)
                  (here ∙ (rw t refl ∙ ap (λ l. l ++ (dst e ∷ [])) same))
                ∙ append_assoc (lookup_or adj s []) (dst e ∷ []) (successors es s)))
      | inr t ↦ rw t (later ∙ ap (λ l. l ++ successors es s) (here ∙ rw t refl))
    ]

pub All-if :
    (P : ℕ → Type 0) (b : Bool) (x : ℕ) (xs : List ℕ)
    → (b ≡ true → P x)
    → All P xs
    → All P (if b then x ∷ xs else xs)
All-if P true x xs hx h = (hx refl, h)
All-if P false x xs hx h = h

sources-Zero : (indeg : Map ℕ) (ks : List ℕ) → All (Zero indeg) (sources indeg ks)
sources-Zero indeg [] = tt
sources-Zero indeg (k ∷ ks) =
    All-if (Zero indeg) (count indeg k == 0) k (sources indeg ks) ((==_iff (count indeg k) 0).0)
      (sources-Zero indeg ks)

All-insert_sorted :
    (P : ℕ → Type 0) (x : ℕ) (ys : List ℕ) → P x → All P ys → All P (insert_sorted x ys)
All-insert_sorted P x [] hx h = (hx, tt)
All-insert_sorted P x (y ∷ ys) hx (hy, h) = elim (Bool-cases (leb x y)) [
  | inl e ↦ rw (All, e) (hx, (hy, h))
  | inr e ↦ rw (All, e) (hy, All-insert_sorted P x ys hx h)
]

pub All-sort : (P : ℕ → Type 0) (xs : List ℕ) → All P xs → All P (sort xs)
All-sort P [] h = tt
All-sort P (x ∷ xs) (hx, h) = All-insert_sorted P x (sort xs) hx (All-sort P xs h)

pub start-IsWalk : (f : Function) → IsWalk f.edges (start f)
start-IsWalk f = record {
  counted = λ d.
      count-add_edges (zero_counts (keys f.ops)) [] f.edges d
      ∙ omega (arith, count-zero_counts (keys f.ops) d);
  adjacent = λ s h. adjacent-add_edges (zero_counts (keys f.ops)) [] f.edges s;
  ready =
      let indeg : Map ℕ = (add_edges (zero_counts (keys f.ops)) [] f.edges).0 in
      All-sort (Zero indeg) (sources indeg (keys indeg)) (sources-Zero indeg (keys indeg));
  ordered = tt;
  same = refl;
}
