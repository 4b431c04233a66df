-- ===== src/Ir/AssignTokens/Reach.antt =====
-- The walk of assign_tokens.rs loses no id: one with no pending edge is in the queue or visited.
use slug_arch.Base.{
  ℕ, zero, suc, ◌+◌, ◌-◌, ◌<◌, ◌≡◌, ◌≢◌, ◌⊎◌, refl, sym, ap, subst, ◌∙◌, arith, inl, inr,
}
use slug_arch.Base.{Bool, true, false, ◌||◌, List, [], ◌∷◌, ◌++◌}
use slug_arch.Base.{
  Map, insert, lookup_or, keys, contains, ◌==◌, ==_iff, leb, if◌then◌else◌, All, Bool-cases,
  contains-append,
}
use slug_arch.Ir.Graph.{Edge, src, dst, Function}
use slug_arch.Ir.AssignTokens.{
  sort, insert_sorted, count, add_edges, relax, visit, round_on, round, walk, start, sources,
  zero_counts, Walking,
}
use slug_arch.Ir.AssignTokens.Walk.{
  pending, count-insert, differ, Zero, IsWalk, contains-snoc, round_on-IsWalk, visit-IsWalk,
}

-- A test that holds of one part of a disjunction.
pub or-true : (b c : Bool) → (b || c) ≡ true → (b ≡ true) ⊎ (c ≡ true)
or-true true c h = inl refl
or-true false c h = inr h

pub or-left : (b c : Bool) → b ≡ true → (b || c) ≡ true
or-left true c h = refl
or-left false c h = cc (h)

pub or-right : (b c : Bool) → c ≡ true → (b || c) ≡ true
or-right true c h = refl
or-right false c h = h

contains-left : (xs ys : List ℕ) (k : ℕ) → contains xs k ≡ true → contains (xs ++ ys) k ≡ true
contains-left xs ys k h = contains-append xs ys k ∙ or-left (contains xs k) (contains ys k) h

contains-last : (xs : List ℕ) (k : ℕ) → contains (xs ++ (k ∷ [])) k ≡ true
contains-last xs k = contains-snoc xs k k ∙ or-right (contains xs k) (k == k) ((==_iff k k).1 refl)

contains-insert_sorted :
    (x : ℕ) (ys : List ℕ) (k : ℕ)
    → contains (x ∷ ys) k ≡ true
    → contains (insert_sorted x ys) k ≡ true
contains-insert_sorted x [] k h = h
contains-insert_sorted x (y ∷ ys) k h = elim (Bool-cases (leb x y)) [
  | inl e ↦ rw (contains, e) h
  | inr e ↦
      rw (contains, e)
        (elim (or-true (x == k) (contains (y ∷ ys) k) h) [
          | inl a ↦
              or-right (y == k) _
                (contains-insert_sorted x ys k (or-left (x == k) (contains ys k) a))
          | inr b ↦ elim (or-true (y == k) (contains ys k) b) [
            | inl c ↦ or-left (y == k) _ c
            | inr c ↦
                or-right (y == k) _
                  (contains-insert_sorted x ys k (or-right (x == k) (contains ys k) c))
          ]
        ])
]

contains-sort : (xs : List ℕ) (k : ℕ) → contains xs k ≡ true → contains (sort xs) k ≡ true
contains-sort [] k h = h
contains-sort (x ∷ xs) k h =
    contains-insert_sorted x (sort xs) k (elim (or-true (x == k) (contains xs k) h) [
      | inl a ↦ or-left (x == k) (contains (sort xs) k) a
      | inr b ↦ or-right (x == k) (contains (sort xs) k) (contains-sort xs k b)
    ])

queued-keeps :
    (b : Bool) (q : List ℕ) (s k : ℕ)
    → contains q k ≡ true
    → contains (if b then q ++ (s ∷ []) else q) k ≡ true
queued-keeps true q s k h = contains-left q (s ∷ []) k h
queued-keeps false q s k h = h

relax-keeps :
    (indeg : Map ℕ) (q ss : List ℕ) (k : ℕ)
    → contains q k ≡ true
    → contains ((relax indeg q ss).1) k ≡ true
relax-keeps indeg q [] k h = h
relax-keeps indeg q (s ∷ ss) k h =
    let now : ℕ = count indeg s - 1 in
    relax-keeps (insert indeg s now) (if now == 0 then q ++ (s ∷ []) else q) ss k
      (queued-keeps (now == 0) q s k h)

queued-pushes :
    (b : Bool) (q : List ℕ) (s : ℕ) → b ≡ true → contains (if b then q ++ (s ∷ []) else q) s ≡ true
queued-pushes true q s h = contains-last q s
queued-pushes false q s h = cc (h)

-- An id whose count comes down to 0 is put in the queue.
relax-pushes :
    (indeg : Map ℕ) (q ss : List ℕ) (k : ℕ)
    → 0 < count indeg k
    → count ((relax indeg q ss).0) k ≡ 0
    → contains ((relax indeg q ss).1) k ≡ true
relax-pushes indeg q [] k p z = absurd (omega arith)
relax-pushes indeg q (s ∷ ss) k p z =
    let now : ℕ = count indeg s - 1 in
    let down : Map ℕ = insert indeg s now in
    let q' : List ℕ = if now == 0 then q ++ (s ∷ []) else q in
    let at = count-insert indeg s now k in
    elim (Bool-cases (s == k)) [
      | inl e ↦ elim (Bool-cases (now == 0)) [
        | inl t ↦
            relax-keeps down q' ss k (
              subst (λ j. contains q' j ≡ true) ((==_iff s k).0 e) (queued-pushes (now == 0) q s t))
        | inr t ↦
            let here : count down k ≡ now = at ∙ rw e refl in
            let some_left : now ≢ 0 = differ now 0 t in
            relax-pushes down q' ss k (omega (arith, here, some_left)) z
      ]
      | inr e ↦
          let here : count down k ≡ count indeg k = at ∙ rw e refl in
          relax-pushes down q' ss k (omega (arith, here)) z
    ]

-- Every id of a list with no pending edge is visited or in a queue.
abbrev pub Reaches : List ℕ → List Edge → List ℕ → List ℕ → Type 0
Reaches ids edges topo queue =
    (k : ℕ)
    → contains ids k ≡ true
    → pending edges topo k ≡ 0
    → (contains topo k ≡ true) ⊎ (contains queue k ≡ true)

module _ (ids : List ℕ) (edges : List Edge) where
  visit-Reaches :
      (w : Walking) (id : ℕ) (rest : List ℕ)
      → IsWalk edges w
      → IsWalk edges (visit w id rest)
      → Reaches ids edges w.topo (id ∷ rest)
      → Reaches ids edges ((visit w id rest).topo) ((visit w id rest).queue)
  visit-Reaches w id rest i i' r k h z =
      let succ : List ℕ = sort (lookup_or w.adj id []) in
      let now : count ((visit w id rest).indeg) k ≡ 0 = i'.counted k ∙ z in
      elim (Bool-cases (count w.indeg k == 0)) [
        | inl e ↦ elim (r k h (sym (i.counted k) ∙ (==_iff (count w.indeg k) 0).0 e)) [
          | inl t ↦ inl (contains-left w.topo (id ∷ []) k t)
          | inr t ↦ elim (or-true (id == k) (contains rest k) t) [
            | inl same ↦ inl (
                subst (λ j. contains (w.topo ++ (id ∷ [])) j ≡ true) ((==_iff id k).0 same)
                  (contains-last w.topo id))
            | inr later ↦ inr (relax-keeps w.indeg rest succ k later)
          ]
        ]
        | inr e ↦
            let more : count w.indeg k ≢ 0 = differ (count w.indeg k) 0 e in
            inr (relax-pushes w.indeg rest succ k (omega (arith, more)) now)
      ]

  round_on-Reaches :
      (w : Walking) (q : List ℕ)
      → IsWalk edges w
      → All (Zero w.indeg) q
      → w.queue ≡ q
      → Reaches ids edges w.topo q
      → Reaches ids edges ((round_on w q).topo) ((round_on w q).queue)
  round_on-Reaches w [] i z e r = subst (Reaches ids edges w.topo) (sym e) r
  round_on-Reaches w (id ∷ rest) i z e r =
      let seen : contains w.visited id ≡ contains w.topo id = ap (λ l. contains l id) i.same in
      let after : Bool → Walking =
        λ b. (if b then record w { queue = rest } else visit w id rest) in
      elim (Bool-cases (contains w.topo id)) [
        | inl old ↦
            subst (λ b. Reaches ids edges ((after b).topo) ((after b).queue)) (sym (seen ∙ old))
              (λ k h p. elim (r k h p) [
                | inl t ↦ inl t
                | inr t ↦ elim (or-true (id == k) (contains rest k) t) [
                  | inl same ↦
                      inl (subst (λ j. contains w.topo j ≡ true) ((==_iff id k).0 same) old)
                  | inr later ↦ inr later
                ]
              ])
        | inr new ↦
            subst (λ b. Reaches ids edges ((after b).topo) ((after b).queue)) (sym (seen ∙ new))
              (visit-Reaches w id rest i (visit-IsWalk edges w id rest i new z.0 z.1) r)
      ]

  pub walk-Reaches :
      (n : ℕ) (w : Walking)
      → IsWalk edges w
      → Reaches ids edges w.topo w.queue
      → Reaches ids edges ((walk n w).topo) ((walk n w).queue)
  unfolding walk
  walk-Reaches zero w i r = r
  walk-Reaches (suc n) w i r =
      walk-Reaches n (round w) (round_on-IsWalk edges w w.queue i i.ready)
        (round_on-Reaches w w.queue i i.ready refl r)

-- Every key is still there after an insertion.
keys-insert :
    (m : Map ℕ) (j v k : ℕ) → contains (keys m) k ≡ true → contains (keys (insert m j v)) k ≡ true
keys-insert [] j v k h = cc (h)
keys-insert ((i, w) ∷ m) j v k h = elim (Bool-cases (i == j)) [
  | inl e ↦ rw (keys, contains, e) h
  | inr e ↦
      rw (keys, contains, e)
        (elim (or-true (i == k) (contains (keys m) k) h) [
          | inl a ↦ or-left (i == k) _ a
          | inr b ↦ or-right (i == k) _ (keys-insert m j v k b)
        ])
]

keys-add_edges :
    (indeg : Map ℕ) (adj : Map (List ℕ)) (es : List Edge) (k : ℕ)
    → contains (keys indeg) k ≡ true
    → contains (keys ((add_edges indeg adj es).0)) k ≡ true
keys-add_edges indeg adj [] k h = h
keys-add_edges indeg adj (e ∷ es) k h =
    keys-add_edges (insert indeg (dst e) (count indeg (dst e) + 1))
      (insert adj (src e) (lookup_or adj (src e) [] ++ (dst e ∷ []))) es k
      (keys-insert indeg (dst e) (count indeg (dst e) + 1) k h)

pub keys-zero_counts : (ks : List ℕ) → keys (zero_counts ks) ≡ ks
keys-zero_counts [] = refl
keys-zero_counts (k ∷ ks) = ap (λ l. k ∷ l) (keys-zero_counts ks)

contains-sources :
    (indeg : Map ℕ) (ks : List ℕ) (x : ℕ)
    → contains ks x ≡ true
    → count indeg x ≡ 0
    → contains (sources indeg ks) x ≡ true
contains-sources indeg [] x h z = h
contains-sources indeg (k ∷ ks) x h z = elim (Bool-cases (count indeg k == 0)) [
  | inl e ↦
      rw (sources, contains, e)
        (elim (or-true (k == x) (contains ks x) h) [
          | inl a ↦ or-left (k == x) _ a
          | inr b ↦ or-right (k == x) _ (contains-sources indeg ks x b z)
        ])
  | inr e ↦ elim (or-true (k == x) (contains ks x) h) [
    | inl a ↦
        let same : count indeg k ≡ 0 = ap (count indeg) ((==_iff k x).0 a) ∙ z in
        absurd (differ (count indeg k) 0 e same)
    | inr b ↦ rw (sources, contains, e) (contains-sources indeg ks x b z)
  ]
]

pub start-Reaches :
    (f : Function)
    → IsWalk f.edges (start f)
    → Reaches (keys f.ops) f.edges ((start f).topo) ((start f).queue)
start-Reaches f i k h z =
    let indeg : Map ℕ = (start f).indeg in
    inr (
      contains-sort (sources indeg (keys indeg)) k (
        contains-sources indeg (keys indeg) k
          (keys-add_edges (zero_counts (keys f.ops)) [] f.edges k
            (subst (λ l. contains l k ≡ true) (sym (keys-zero_counts (keys f.ops))) h))
          (i.counted k ∙ z)))
