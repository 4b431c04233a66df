-- ===== src/Ir/ValidateAgainstRtlmap/Matching.antt =====
-- What it means for a function to match a pipeline, and that validate_against_rtlmap.rs decides it.
use Prim.Native.String.{String}
use text.Mathlib.Text.{◌==◌}
use text.Mathlib.TextEquality.{eq_iff}
use slug_arch.Base.{
  ℕ, ◌≡◌, ◌⊎◌, inl, inr, refl, sym, ap, ◌∙◌, true, Bool-cases, Option, none, some, List, [], ◌∷◌,
}
use slug_arch.Base.{Map, IsMap, lookup, All, or-cases, or-right}
use slug_arch.Base.Sets.{has, has-add_key, add_key}
use slug_arch.Ir.Ops.{OpMeta}
use slug_arch.Ir.Graph.{Edge, src, dst, Function}
use slug_arch.Ir.ValidateAgainstRtlmap.{
  PipelineEdge, PipelineRtlmap, texts, text_pairs, same_pair_iff, op_to_node, node_ids, actual_ip,
  oracle_edges, add_edge_of, actual_edges,
}
use slug_arch.Ir.ValidateAgainstRtlmap.Nodes.{StandsFor, lookup-op_to_node_nil}

-- A token edge of the pipeline.
abbrev pub TokenEdge : List PipelineEdge → String → String → Type 0
TokenEdge [] a b = ⊥
TokenEdge (e ∷ es) a b = ((e.channel ≡ "token") × (e.from ≡ a) × (e.to ≡ b)) ⊎ TokenEdge es a b

module _ (hints : List (String × String)) (meta : Map OpMeta) where
  -- An edge between ops that stand for two nodes.
  abbrev pub EdgeBetween : List Edge → String → String → Type 0
  EdgeBetween [] a b = ⊥
  EdgeBetween (e ∷ es) a b =
      (StandsFor hints meta (src e) a × StandsFor hints meta (dst e) b) ⊎ EdgeBetween es a b

-- Every node of the pipeline has an op on its IP, every op that stands for a node stands for one of the
-- pipeline, and the edges between such ops are the token edges of the pipeline.
pub record Matches (f : Function) (oracle : PipelineRtlmap) (hints : List (String × String))
    : Type 0 where
  pub nodes_there :
      All
        (λ n.
          (id : ℕ) × StandsFor hints f.meta id n.node_id × (actual_ip f.meta id ≡ n.selected_ip))
        oracle.nodes
  pub no_other :
      (id : ℕ) (node : String)
      → StandsFor hints f.meta id node
      → has texts (node_ids oracle.nodes) node ≡ true
  pub edges_there :
      (a b : String) → TokenEdge oracle.edges a b → EdgeBetween hints f.meta f.edges a b
  pub no_other_edge :
      (a b : String) → EdgeBetween hints f.meta f.edges a b → TokenEdge oracle.edges a b

-- No two ops stand for the same node.
abbrev pub OneEach : List (String × String) → Map OpMeta → Type 0
OneEach hints meta =
    (id k : ℕ) (node : String) → StandsFor hints meta id node → StandsFor hints meta k node → id ≡ k

-- The token edges are those in the set of the oracle.
pub oracle-edge :
    (es : List PipelineEdge) (a b : String)
    → has text_pairs (oracle_edges es) (a, b) ≡ true
    → TokenEdge es a b
unfolding oracle_edges
oracle-edge [] a b h = cc (h)
oracle-edge (e ∷ es) a b h = elim (Bool-cases (e.channel == "token")) [
  | inr other ↦
      let rest : has text_pairs (oracle_edges es) (a, b) ≡ true = rw other at h in
      inr (oracle-edge es a b rest)
  | inl tok ↦
      let here : has text_pairs (add_key text_pairs (e.from, e.to) (oracle_edges es)) (a, b)
          ≡ true =
        rw tok at h in
      elim (or-cases _ _
        (sym (has-add_key text_pairs (e.from, e.to) (oracle_edges es) (a, b)) ∙ here)) [
          | inl same ↦
              let p = (same_pair_iff (e.from, e.to) (a, b)).0 same in
              inl ((eq_iff e.channel "token").0 tok, ap (λ x. x.0) p, ap (λ x. x.1) p)
          | inr later ↦ inr (oracle-edge es a b later)
        ]
]

pub edge-oracle :
    (es : List PipelineEdge) (a b : String)
    → TokenEdge es a b
    → has text_pairs (oracle_edges es) (a, b) ≡ true
unfolding oracle_edges
edge-oracle [] a b h = absurd h
edge-oracle (e ∷ es) a b (inl (t, p, q)) =
    let ends : ◌≡◌ {A = String × String} (e.from, e.to) (a, b) = cc (p, q) in
    rw ((eq_iff e.channel "token").1 t) (
      has-add_key text_pairs (e.from, e.to) (oracle_edges es) (a, b)
      ∙ rw ((same_pair_iff (e.from, e.to) (a, b)).1 ends) refl)
edge-oracle (e ∷ es) a b (inr h) = elim (Bool-cases (e.channel == "token")) [
  | inr other ↦ rw other (edge-oracle es a b h)
  | inl tok ↦ rw tok (
      has-add_key text_pairs (e.from, e.to) (oracle_edges es) (a, b)
      ∙ or-right _ _ (edge-oracle es a b h))
]

module _ (hints : List (String × String)) (meta : Map OpMeta) (u : IsMap meta) where
  abbrev pub nodes : Map String
  nodes = op_to_node hints meta []

  pub stands : (id : ℕ) (node : String) → lookup nodes id ≡ some node → StandsFor hints meta id node
  stands id node h = sym (lookup-op_to_node_nil hints meta id u) ∙ h

  pub found : (id : ℕ) (node : String) → StandsFor hints meta id node → lookup nodes id ≡ some node
  found id node h = lookup-op_to_node_nil hints meta id u ∙ h

  added :
      (s d : Option String) (rest : List (String × String)) (a b : String)
      → has text_pairs (add_edge_of s d rest) (a, b) ≡ true
      → ((s ≡ some a) × (d ≡ some b)) ⊎ (has text_pairs rest (a, b) ≡ true)
  added none d rest a b h = inr h
  added (some s) none rest a b h = inr h
  added (some s) (some d) rest a b h =
      elim (or-cases _ _ (sym (has-add_key text_pairs (s, d) rest (a, b)) ∙ h)) [
        | inl same ↦
            let p = (same_pair_iff (s, d) (a, b)).0 same in
            inl (ap (λ x. some (x.0)) p, ap (λ x. some (x.1)) p)
        | inr later ↦ inr later
      ]

  kept :
      (s d : Option String) (rest : List (String × String)) (a b : String)
      → has text_pairs rest (a, b) ≡ true
      → has text_pairs (add_edge_of s d rest) (a, b) ≡ true
  kept none d rest a b h = h
  kept (some s) none rest a b h = h
  kept (some s) (some d) rest a b h = has-add_key text_pairs (s, d) rest (a, b) ∙ or-right _ _ h

  pub actual-edge :
      (es : List Edge) (a b : String)
      → has text_pairs (actual_edges nodes es) (a, b) ≡ true
      → EdgeBetween hints meta es a b
  unfolding actual_edges
  actual-edge [] a b h = cc (h)
  actual-edge (e ∷ es) a b h =
      elim (added (lookup nodes (src e)) (lookup nodes (dst e)) (actual_edges nodes es) a b h) [
        | inl (p, q) ↦ inl (stands (src e) a p, stands (dst e) b q)
        | inr later ↦ inr (actual-edge es a b later)
      ]

  pub edge-actual :
      (es : List Edge) (a b : String)
      → EdgeBetween hints meta es a b
      → has text_pairs (actual_edges nodes es) (a, b) ≡ true
  unfolding actual_edges
  edge-actual [] a b h = absurd h
  edge-actual (e ∷ es) a b (inl (p, q)) =
      rw (found (src e) a p, found (dst e) b q)
        (has-add_key text_pairs (a, b) (actual_edges nodes es) (a, b)
          ∙ rw ((same_pair_iff (a, b) (a, b)).1 refl) refl)
  edge-actual (e ∷ es) a b (inr h) =
      kept (lookup nodes (src e)) (lookup nodes (dst e)) _ a b (edge-actual es a b h)
