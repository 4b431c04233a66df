-- ===== src/Ir/ValidateAgainstRtlmap/Decides.antt =====
-- validate_against_rtlmap.rs accepts exactly the functions that match the pipeline.
use Prim.Native.String.{String}
use slug_arch.Base.{◌≡◌, ◌↔◌, inl, inr, refl, sym, ◌∙◌, true, false, Bool-cases, List, [], ◌∷◌}
use slug_arch.Base.{IsMap, all_four}
use slug_arch.Base.Sets.{has, as_set, has-as_set, difference, difference-nil_iff, keys_of}
use slug_arch.Ir.Graph.{Function}
use slug_arch.Ir.ValidateAgainstRtlmap.{
  PipelineRtlmap, RtlmapDiff, texts, text_pairs, op_to_node, node_ids, wrong_ips, oracle_edges,
  actual_edges, edge_lines, join, diff_function, is_nil, is_empty,
}
use slug_arch.Ir.ValidateAgainstRtlmap.Matching.{
  Matches, TokenEdge, OneEach, nodes, oracle-edge, edge-oracle, actual-edge, edge-actual,
}
use slug_arch.Ir.ValidateAgainstRtlmap.Ips.{
  wrong_ips-OnIp, OnIp-wrong_ips, ops, hold, nodes_known, on_ip, key-stands, stands-key,
}

is_nil-nil : {A : Type 0} (xs : List A) → is_nil xs ≡ true → xs ≡ []
is_nil-nil [] h = refl
is_nil-nil (x ∷ xs) h = cc (h)

join-nil : (xs ys : List String) → join xs ys ≡ [] → (xs ≡ []) × (ys ≡ [])
join-nil [] ys h = (refl, h)
join-nil (x ∷ xs) ys h = cc (h)

edge_lines-nil : (what : String) (es : List (String × String)) → edge_lines what es ≡ [] → es ≡ []
edge_lines-nil what [] h = refl
edge_lines-nil what ((a, b) ∷ es) h = cc (h)

module _ (f : Function) (oracle : PipelineRtlmap) (hints : List (String × String))
    (u : IsMap f.meta) where
  abbrev diff : RtlmapDiff
  diff = diff_function f oracle hints

  Matches-empty : OneEach hints f.meta → Matches f oracle hints → is_empty diff ≡ true
  unfolding is_empty diff_function
  Matches-empty one m =
      let ids = as_set texts (node_ids oracle.nodes) in
      let keys = keys_of texts (ops hints f.meta u) in
      let expected = oracle_edges oracle.edges in
      let actual = actual_edges (nodes hints f.meta u) f.edges in
      let missing : difference texts ids keys ≡ [] = (difference-nil_iff texts ids keys).1 (λ y h.
        let (id, st) =
          nodes_known hints f.meta u oracle.nodes m.nodes_there y
            (sym (has-as_set texts (node_ids oracle.nodes) y) ∙ h) in
        stands-key hints f.meta u y id st) in
      let extra : difference texts keys ids ≡ [] = (difference-nil_iff texts keys ids).1 (λ y h.
        let (id, st) = key-stands hints f.meta u y h in
        has-as_set texts (node_ids oracle.nodes) y ∙ m.no_other id y st) in
      let wrong : wrong_ips f.meta (ops hints f.meta u) oracle.nodes ≡ [] =
        OnIp-wrong_ips f.meta (ops hints f.meta u) oracle.nodes
          (on_ip hints f.meta u one oracle.nodes m.nodes_there) in
      let lost : difference text_pairs expected actual ≡ [] =
        (difference-nil_iff text_pairs expected actual).1 (λ (a, b) h.
          edge-actual hints f.meta u f.edges a b
            (m.edges_there a b (oracle-edge oracle.edges a b h))) in
      let new : difference text_pairs actual expected ≡ [] =
        (difference-nil_iff text_pairs actual expected).1 (λ (a, b) h.
          edge-oracle oracle.edges a b
            (m.no_other_edge a b (actual-edge hints f.meta u f.edges a b h))) in
      rw (missing, extra, wrong, lost, new) refl

  empty-Matches : is_empty diff ≡ true → Matches f oracle hints
  unfolding is_empty diff_function
  empty-Matches h =
      let (m, x, w, e) = all_four _ _ _ _ h in
      let ids = as_set texts (node_ids oracle.nodes) in
      let keys = keys_of texts (ops hints f.meta u) in
      let expected = oracle_edges oracle.edges in
      let actual = actual_edges (nodes hints f.meta u) f.edges in
      let missing = (difference-nil_iff texts ids keys).0 (is_nil-nil _ m) in
      let extra = (difference-nil_iff texts keys ids).0 (is_nil-nil _ x) in
      let (p, q) = join-nil _ _ (is_nil-nil _ e) in
      let lost = (difference-nil_iff text_pairs expected actual).0 (edge_lines-nil _ _ p) in
      let new = (difference-nil_iff text_pairs actual expected).0 (edge_lines-nil _ _ q) in
      record {
        nodes_there =
            hold hints f.meta u oracle.nodes oracle.nodes missing (λ n k. k)
              (wrong_ips-OnIp f.meta (ops hints f.meta u) oracle.nodes (is_nil-nil _ w));
        no_other = λ id y st.
            sym (has-as_set texts (node_ids oracle.nodes) y)
            ∙ extra y (stands-key hints f.meta u y id st);
        edges_there = λ a b t.
            actual-edge hints f.meta u f.edges a b (lost (a, b) (edge-oracle oracle.edges a b t));
        no_other_edge = λ a b t.
            oracle-edge oracle.edges a b (new (a, b) (edge-actual hints f.meta u f.edges a b t));
      }

  -- When no two ops stand for the same node, the diff is empty exactly when the function matches the
  -- pipeline: every node has an op on its IP, no op stands for another node, and the edges between such
  -- ops are the token edges of the pipeline.
  pub is_empty-diff_iff :
      OneEach hints f.meta
      → (is_empty (diff_function f oracle hints) ≡ true) ↔ Matches f oracle hints
  is_empty-diff_iff one = (empty-Matches, Matches-empty one)

-- A function without edges does not match a pipeline with a token edge.
pub is_empty-no_edges :
    (f : Function) (oracle : PipelineRtlmap) (hints : List (String × String)) (a b : String)
    → f.edges ≡ []
    → TokenEdge oracle.edges a b
    → is_empty (diff_function f oracle hints) ≡ false
unfolding is_empty diff_function actual_edges
is_empty-no_edges f oracle hints a b e t =
    elim (Bool-cases (is_empty (diff_function f oracle hints))) [
      | inr h ↦ h
      | inl h ↦
          let d = diff_function f oracle hints in
          let expected = oracle_edges oracle.edges in
          let actual = actual_edges (op_to_node hints f.meta []) f.edges in
          let lost = difference text_pairs expected actual in
          let none_lost : lost ≡ [] =
            edge_lines-nil "missing token edge: " lost
              (join-nil (edge_lines "missing token edge: " lost)
                (edge_lines "extra token edge: " (difference text_pairs actual expected))
                (is_nil-nil d.edge_diff
                  (all_four (is_nil d.missing_nodes) (is_nil d.extra_nodes) (is_nil d.wrong_ip)
                    (is_nil d.edge_diff) h).3)).0 in
          let there : has text_pairs actual (a, b) ≡ true =
            (difference-nil_iff text_pairs expected actual).0 none_lost (a, b)
              (edge-oracle oracle.edges a b t) in
          let bad : false ≡ true = rw e at there in cc (bad)
    ]
