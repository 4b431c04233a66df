-- ===== src/Ir/AssignTokens/Correct.antt =====
-- What a successful run of assign_tokens.rs on a function gives.
use slug_arch.Base.{
  ◌^◌, ◌<◌, ◌≡◌, sym, ap, subst, ◌∙◌, arith, true, Bool-cases, inl, inr, [], ok, err,
}
use slug_arch.Base.{keys, contains, ==_iff, ◌==◌, length, All}
use slug_arch.Ir.Graph.{src, dst, Function}
use slug_arch.Ir.AssignTokens.{
  assign_function, assign, walk, walk_fuel, start, Walking, token_graph_cycle, unvisited,
}
use slug_arch.Ir.AssignTokens.Walk.{Ordered, IsWalk, walk-IsWalk}
use slug_arch.Ir.AssignTokens.Start.{start-IsWalk}
use slug_arch.Ir.AssignTokens.Tokens.{Follows}
use slug_arch.Ir.AssignTokens.Entry.{assign-IsAssigned, start-IsAssigned}

-- The walk of a function.
abbrev pub walked : Function → Walking
walked f = walk (walk_fuel f) (start f)

-- The function that a walk of enough ids gives.
abbrev pub result_of : Function → Function
result_of f = record f {
  order = (walked f).topo;
  meta = assign f.edges 0 [] f.meta (walked f).topo;
}

assign_function-ok :
    (f f' : Function)
    → assign_function f ≡ ok f'
    → (length (walked f).topo ≡ length f.ops) × (result_of f ≡ f')
unfolding assign_function
assign_function-ok f f' h = elim (Bool-cases (length (walked f).topo == length f.ops)) [
  | inl e ↦ let found : ok (result_of f) ≡ ok f' = rw e at h in ((==_iff _ _).0 e, cc (found))
  | inr e ↦
      let found : err (token_graph_cycle (unvisited (walked f).visited (keys f.ops))) ≡ ok f' =
        rw e at h in
      cc (found)
]

-- What the pass promises of a function's order and tokens.
pub record IsScheduled (f : Function) : Type 0 where
  pub ordered : Ordered f.edges [] f.order
  pub follows :
      All
        (λ e.
          contains f.order (dst e) ≡ true → (contains f.order (src e) ≡ true) × Follows f.meta e)
        f.edges

-- When the pass succeeds on a function of fewer than 2^32 ops, its new order has as many ids as it has
-- ops, none twice, each after the sources of all its edges; and over each edge into an id of the
-- order the source's token_out is at most the target's token_in, which is below its token_out. The
-- ops and the edges stay.
pub assign_function-IsScheduled :
    (f f' : Function)
    → length f.ops < 2 ^ 32
    → assign_function f ≡ ok f'
    → IsScheduled f' × (length f'.order ≡ length f.ops) × (f'.ops ≡ f.ops) × (f'.edges ≡ f.edges)
assign_function-IsScheduled f f' small h =
    let (count, same) = assign_function-ok f f' h in
    let w : IsWalk f.edges (walked f) =
      walk-IsWalk f.edges (walk_fuel f) (start f) (start-IsWalk f) in
    let (last, tok, done) =
      assign-IsAssigned f.edges 0 [] f.meta [] (walked f).topo w.ordered (omega (arith, count))
        (start-IsAssigned f.edges f.meta) in
    (
      subst IsScheduled same (record { ordered = w.ordered; follows = done.follows }),
      sym (ap (λ g. length g.order) same) ∙ count,
      sym (ap (λ g. g.ops) same),
      sym (ap (λ g. g.edges) same),
    )
