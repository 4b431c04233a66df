-- ===== src/Ir/AssignTokens.antt =====
-- crates/slugarch-ir/src/passes/assign_tokens.rs. The loop over the queue runs on fuel: the keys of
-- the in-degrees and the edges bound the rounds, and Ir/AssignTokens/Fuel shows that the queue is empty
-- at the end. The `unwrap` of the in-degree cannot fail, since each target of an edge has an entry.
use Prim.Native.String.{String}
use slug_arch.Base.{
  ℕ, zero, suc, ◌+◌, ◌*◌, ◌-◌, ◌%◌, ◌^◌, Bool, not, Option, none, some, List, [], ◌∷◌, ◌++◌,
}
use slug_arch.Base.{
  Map, insert, lookup, lookup_or, remove, keys, contains, ◌==◌, leb, ltb, if◌then◌else◌, length,
  Result, ok, err,
}
use slug_arch.Ir.Ops.{OpMeta, default_meta}
use slug_arch.Ir.Graph.{Edge, src, dst, Function, predecessors}
pub mod Walk
pub mod Start
pub mod Fuel
pub mod Tokens
pub mod Entry
pub mod Correct
pub mod Reach
pub mod Inside
pub mod Complete
pub mod NoEdges
pub mod Metadata

-- `IrError` of error.rs; a failed pass keeps its name, its node and its message.
pub data IrError : Type 0 where
  serialize deserialize : String → IrError
  pass_failed : String → Option ℕ → String → IrError
  token_graph_cycle : List ℕ → IrError
  oracle_mismatch : String → IrError

abbrev pub insert_sorted : ℕ → List ℕ → List ℕ
insert_sorted x [] = x ∷ []
insert_sorted x (y ∷ ys) = let rest = insert_sorted x ys in if leb x y then x ∷ y ∷ ys else y ∷ rest

-- `sort()` of a vector of ids.
abbrev pub sort : List ℕ → List ℕ
sort [] = []
sort (x ∷ xs) = insert_sorted x (sort xs)

-- `indeg` at an id.
abbrev pub count : Map ℕ → ℕ → ℕ
count indeg id = lookup_or indeg id 0

abbrev pub zero_counts : List ℕ → Map ℕ
zero_counts [] = []
zero_counts (k ∷ ks) = (k, 0) ∷ zero_counts ks

-- The loop over the edges: `adj` and `indeg`.
abbrev pub add_edges : Map ℕ → Map (List ℕ) → List Edge → Map ℕ × Map (List ℕ)
add_edges indeg adj [] = (indeg, adj)
add_edges indeg adj (e ∷ es) =
    add_edges (insert indeg (dst e) (count indeg (dst e) + 1))
      (insert adj (src e) (lookup_or adj (src e) [] ++ (dst e ∷ []))) es

-- The keys of in-degree 0.
abbrev pub sources : Map ℕ → List ℕ → List ℕ
sources indeg [] = []
sources indeg (k ∷ ks) =
    let rest = sources indeg ks in if count indeg k == 0 then k ∷ rest else rest

-- The variables of the loop over the queue.
pub record Walking : Type 0 where
  pub indeg : Map ℕ
  pub adj : Map (List ℕ)
  pub queue : List ℕ
  pub visited : List ℕ
  pub topo : List ℕ

abbrev pub start : Function → Walking
start f =
    let (indeg, adj) = add_edges (zero_counts (keys f.ops)) [] f.edges in
    record {
      indeg = indeg;
      adj = adj;
      queue = sort (sources indeg (keys indeg));
      visited = [];
      topo = [];
    }

-- The loop over the successors: the in-degrees and the queue.
abbrev pub relax : Map ℕ → List ℕ → List ℕ → Map ℕ × List ℕ
relax indeg queue [] = (indeg, queue)
relax indeg queue (s ∷ ss) =
    let d = count indeg s - 1 in
    relax (insert indeg s d) (if d == 0 then queue ++ (s ∷ []) else queue) ss

-- The rest of the loop's body for an id that is new.
abbrev pub visit : Walking → ℕ → List ℕ → Walking
visit w id rest =
    let (indeg, queue) = relax w.indeg rest (sort (lookup_or w.adj id [])) in
    record {
      indeg = indeg;
      adj = remove w.adj id;
      queue = queue;
      visited = w.visited ++ (id ∷ []);
      topo = w.topo ++ (id ∷ []);
    }

-- `while let Some(id) = queue.pop_front()`, one round on a queue; an empty queue leaves all as it is.
abbrev pub round_on : Walking → List ℕ → Walking
round_on w [] = w
round_on w (id ∷ rest) =
    if contains w.visited id then record w { queue = rest } else visit w id rest

abbrev pub round : Walking → Walking
round w = round_on w w.queue

unfoldable pub walk : ℕ → Walking → Walking
walk zero w = w
walk (suc n) w = walk n (round w)

abbrev pub walk_fuel : Function → ℕ
walk_fuel f = length f.ops + 2 * length f.edges

-- The test on the token of one predecessor.
abbrev pub larger : ℕ → Option ℕ → ℕ
larger acc none = acc
larger acc (some t) = if ltb acc t then t else acc

-- The largest token of the predecessors that have one.
abbrev pub max_token : Map ℕ → ℕ → List ℕ → ℕ
max_token tok acc [] = acc
max_token tok acc (p ∷ ps) = max_token tok (larger acc (lookup tok p)) ps

-- `(i as u32) + 1`
abbrev pub token_at : ℕ → ℕ
token_at i = (i % 2 ^ 32 + 1) % 2 ^ 32

-- The loop over `topo.iter().enumerate()`, from index `i` on.
unfoldable pub assign : List Edge → ℕ → Map ℕ → Map OpMeta → List ℕ → Map OpMeta
assign edges i tok meta [] = meta
assign edges i tok meta (id ∷ ids) =
    let t = token_at i in
    assign edges (i + 1) (insert tok id t)
      (insert meta id (record (lookup_or meta id default_meta) {
        token_in = some (max_token tok 0 (predecessors edges id));
        token_out = some t;
      }))
      ids

-- The ids that the walk did not visit.
abbrev pub unvisited : List ℕ → List ℕ → List ℕ
unvisited visited [] = []
unvisited visited (k ∷ ks) =
    let rest = unvisited visited ks in if contains visited k then rest else k ∷ rest

-- The body of the loop over the functions.
unfoldable pub assign_function : Function → Result IrError Function
assign_function f =
    let w = walk (walk_fuel f) (start f) in
    if length w.topo == length f.ops
    then ok (record f { order = w.topo; meta = assign f.edges 0 [] f.meta w.topo })
    else err (token_graph_cycle (unvisited w.visited (keys f.ops)))

-- The pass: the functions before one that fails are changed already.
unfoldable pub assign_tokens : List Function → Result IrError (Unit {0}) × List Function
assign_tokens [] = (ok tt, [])
assign_tokens (f ∷ fs) =
    let (r, fs') = assign_tokens fs in
    elim (assign_function f) [ ok f' ↦ (r, f' ∷ fs') | err e ↦ (err e, f ∷ fs) ]
