-- ===== src/Ir/AssignTokens/Inside.antt =====
-- The walk of assign_tokens.rs visits ops only, when the edges are between ops.
use slug_arch.Base.{ℕ, zero, suc, ◌+◌, ◌-◌, ◌≡◌, sym, ap, subst, ◌∙◌, inl, inr}
use slug_arch.Base.{Bool, true, false, List, [], ◌∷◌, ◌++◌}
use slug_arch.Base.{
  Map, insert, lookup_or, keys, contains, ◌==◌, if◌then◌else◌, All, All-append, Bool-cases,
}
use slug_arch.Ir.Graph.{Edge, src, dst, Function, successors}
use slug_arch.Ir.AssignTokens.{
  sort, count, add_edges, relax, visit, round_on, round, walk, start, sources, zero_counts, Walking,
}
use slug_arch.Ir.AssignTokens.Walk.{IsWalk, round_on-IsWalk}
use slug_arch.Ir.AssignTokens.Start.{All-sort}
use slug_arch.Ir.AssignTokens.Reach.{keys-zero_counts}

module _ (P : ℕ → Type 0) where
  queued-All :
      (b : Bool) (q : List ℕ) (s : ℕ) → All P q → P s → All P (if b then q ++ (s ∷ []) else q)
  queued-All true q s h p = All-append P q (s ∷ []) h (p, tt)
  queued-All false q s h p = h

  relax-All : (indeg : Map ℕ) (q ss : List ℕ) → All P q → All P ss → All P ((relax indeg q ss).1)
  relax-All indeg q [] h p = h
  relax-All indeg q (s ∷ ss) h (p, ps) =
      let now : ℕ = count indeg s - 1 in
      relax-All (insert indeg s now) (if now == 0 then q ++ (s ∷ []) else q) ss
        (queued-All (now == 0) q s h p) ps

  successor : (b : Bool) (d : ℕ) (ss : List ℕ) → P d → All P ss → All P (if b then d ∷ ss else ss)
  successor true d ss p ps = (p, ps)
  successor false d ss p ps = ps

  successors-All : (es : List Edge) (id : ℕ) → All (λ e. P (dst e)) es → All P (successors es id)
  successors-All [] id h = tt
  successors-All (e ∷ es) id (p, h) =
      successor (src e == id) (dst e) (successors es id) p (successors-All es id h)

  sources-All : (indeg : Map ℕ) (ks : List ℕ) → All P ks → All P (sources indeg ks)
  sources-All indeg [] h = tt
  sources-All indeg (k ∷ ks) (p, h) =
      successor (count indeg k == 0) k (sources indeg ks) p (sources-All indeg ks h)

  keys-All : (m : Map ℕ) (j v : ℕ) → All P (keys m) → P j → All P (keys (insert m j v))
  keys-All [] j v h p = (p, tt)
  keys-All ((i, w) ∷ m) j v (q, h) p = elim (Bool-cases (i == j)) [
    | inl e ↦ rw (keys, All, e) (q, h)
    | inr e ↦ rw (keys, All, e) (q, keys-All m j v h p)
  ]

  add_edges-All :
      (indeg : Map ℕ) (adj : Map (List ℕ)) (es : List Edge)
      → All P (keys indeg)
      → All (λ e. P (dst e)) es
      → All P (keys ((add_edges indeg adj es).0))
  add_edges-All indeg adj [] h p = h
  add_edges-All indeg adj (e ∷ es) h (p, ps) =
      add_edges-All (insert indeg (dst e) (count indeg (dst e) + 1))
        (insert adj (src e) (lookup_or adj (src e) [] ++ (dst e ∷ []))) es
        (keys-All indeg (dst e) (count indeg (dst e) + 1) h p) ps

  -- The ids that are visited or queued.
  pub record IsInside (w : Walking) : Type 0 where
    pub visited_in : All P w.topo
    pub queue_in : All P w.queue

  round_on-IsInside :
      (edges : List Edge) (w : Walking) (q : List ℕ)
      → All (λ e. P (dst e)) edges
      → IsWalk edges w
      → IsInside w
      → All P q
      → IsInside (round_on w q)
  round_on-IsInside edges w [] h i n p = n
  round_on-IsInside edges w (id ∷ rest) h i n (p, ps) =
      let seen : contains w.visited id ≡ contains w.topo id = ap (λ l. contains l id) i.same in
      let after : Bool → Walking =
        λ b. (if b then record w { queue = rest } else visit w id rest) in
      elim (Bool-cases (contains w.topo id)) [
        | inl old ↦
            subst (λ b. IsInside (after b)) (sym (seen ∙ old))
              (record { visited_in = n.visited_in; queue_in = ps })
        | inr new ↦
            let succ : All P (lookup_or w.adj id []) =
              subst (All P) (sym (i.adjacent id new)) (successors-All edges id h) in
            subst (λ b. IsInside (after b)) (sym (seen ∙ new))
              (record {
                visited_in = All-append P w.topo (id ∷ []) n.visited_in (p, tt);
                queue_in =
                    relax-All w.indeg rest (sort (lookup_or w.adj id [])) ps
                      (All-sort P (lookup_or w.adj id []) succ);
              })
      ]

  pub walk-IsInside :
      (edges : List Edge) (n : ℕ) (w : Walking)
      → All (λ e. P (dst e)) edges
      → IsWalk edges w
      → IsInside w
      → IsInside (walk n w)
  unfolding walk
  walk-IsInside edges zero w h i s = s
  walk-IsInside edges (suc n) w h i s =
      walk-IsInside edges n (round w) h (round_on-IsWalk edges w w.queue i i.ready)
        (round_on-IsInside edges w w.queue h i s s.queue_in)

  pub start-IsInside :
      (f : Function) → All P (keys f.ops) → All (λ e. P (dst e)) f.edges → IsInside (start f)
  start-IsInside f h p =
      let indeg : Map ℕ = (start f).indeg in
      record {
        visited_in = tt;
        queue_in = All-sort P (sources indeg (keys indeg)) (
            sources-All indeg (keys indeg) (
              add_edges-All (zero_counts (keys f.ops)) [] f.edges
                (subst (All P) (sym (keys-zero_counts (keys f.ops))) h) p));
      }
