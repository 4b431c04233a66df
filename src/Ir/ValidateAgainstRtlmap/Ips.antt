-- ===== src/Ir/ValidateAgainstRtlmap/Ips.antt =====
-- validate_against_rtlmap.rs: the nodes of the pipeline against the ops that stand for them, and their IPs.
use Prim.Native.String.{String}
use text.Mathlib.Text.{◌==◌}
use text.Mathlib.TextEquality.{eq_iff}
use slug_arch.Base.{
  ℕ, ◌≡◌, inl, inr, refl, sym, ap, subst, ◌∙◌, true, Bool-cases, Option-cases, none, some, List, [],
  ◌∷◌,
}
use slug_arch.Base.{Map, IsMap, All, or-cases, or-right}
use slug_arch.Base.Sets.{has, as_set, has-as_set, Sub, find_key, keys_of, same_refl}
use slug_arch.Ir.Ops.{OpMeta}
use slug_arch.Ir.ValidateAgainstRtlmap.{
  PipelineNode, texts, node_to_op, node_ids, actual_ip, wrong_ips,
}
use slug_arch.Ir.ValidateAgainstRtlmap.Nodes.{StandsFor, op_to_node-IsMap}
use slug_arch.Ir.ValidateAgainstRtlmap.Holders.{
  has-found, found-has, node_to_op_sound, node_to_op_complete,
}
use slug_arch.Ir.ValidateAgainstRtlmap.Matching.{OneEach, nodes, stands, found}

-- Each node with an op has it on the IP that it names.
module _ (meta : Map OpMeta) (ops : List (String × ℕ)) where
  abbrev pub OnIp : PipelineNode → Type 0
  OnIp n = (id : ℕ) → find_key texts ops n.node_id ≡ some id → actual_ip meta id ≡ n.selected_ip

  pub wrong_ips-OnIp : (ns : List PipelineNode) → wrong_ips meta ops ns ≡ [] → All OnIp ns
  unfolding wrong_ips
  wrong_ips-OnIp [] h = tt
  wrong_ips-OnIp (n ∷ ns) h = elim (Option-cases (find_key texts ops n.node_id)) [
    | inl e ↦
        let rest : wrong_ips meta ops ns ≡ [] = rw e at h in
        (λ id f. (let bad : none ≡ some id = sym e ∙ f in cc (bad)), wrong_ips-OnIp ns rest)
    | inr (k, e) ↦ elim (Bool-cases (actual_ip meta k == n.selected_ip)) [
      | inl same ↦
          let rest : wrong_ips meta ops ns ≡ [] = rw (e, same) at h in
          (
            λ id f.
                let found_k : some k ≡ some id = sym e ∙ f in
                let eq : k ≡ id = cc (found_k) in
                ap (actual_ip meta) (sym eq) ∙ (eq_iff _ _).0 same,
            wrong_ips-OnIp ns rest,
          )
      | inr other ↦
          let bad : ◌≡◌ {A = List (String × String × String)}
              ((n.node_id, n.selected_ip, actual_ip meta k) ∷ wrong_ips meta ops ns) [] =
            rw (e, other) at h in
          cc (bad)
    ]
  ]

  pub OnIp-wrong_ips : (ns : List PipelineNode) → All OnIp ns → wrong_ips meta ops ns ≡ []
  unfolding wrong_ips
  OnIp-wrong_ips [] h = refl
  OnIp-wrong_ips (n ∷ ns) (p, h) = elim (Option-cases (find_key texts ops n.node_id)) [
    | inl e ↦ rw e (OnIp-wrong_ips ns h)
    | inr (k, e) ↦ rw (e, (eq_iff (actual_ip meta k) n.selected_ip).1 (p k e)) (OnIp-wrong_ips ns h)
  ]

module _ (hints : List (String × String)) (meta : Map OpMeta) (u : IsMap meta) where
  abbrev pub ops : List (String × ℕ)
  ops = node_to_op (nodes hints meta u) []

  abbrev pub Held : PipelineNode → Type 0
  Held n = (id : ℕ) × StandsFor hints meta id n.node_id × (actual_ip meta id ≡ n.selected_ip)

  -- The nodes of a list within the nodes that are there.
  pub hold :
      (all ns : List PipelineNode)
      → Sub texts (as_set texts (node_ids all)) (keys_of texts ops)
      → ((n : PipelineNode)
          → has texts (node_ids ns) n.node_id ≡ true
          → has texts (node_ids all) n.node_id ≡ true)
      → All (OnIp meta ops) ns
      → All Held ns
  hold all [] s i h = tt
  hold all (n ∷ ns) s i (p, h) =
      let here : has texts (node_ids all) n.node_id ≡ true =
        i n (rw (same_refl texts n.node_id) refl) in
      let (id, f) =
        has-found texts ops n.node_id
          (s n.node_id (has-as_set texts (node_ids all) n.node_id ∙ here)) in
      (
        (
          id,
          stands hints meta u id n.node_id
              (node_to_op_sound (nodes hints meta u) n.node_id id (op_to_node-IsMap hints meta) f),
          p id f,
        ),
        hold all ns s (λ k m. i k (or-right _ _ m)) h,
      )

  pub nodes_known :
      (ns : List PipelineNode)
      → All Held ns
      → (y : String) → has texts (node_ids ns) y ≡ true
      → (id : ℕ) × StandsFor hints meta id y
  nodes_known [] h y m = cc (m)
  nodes_known (n ∷ ns) ((id, st, ip), h) y m = elim (or-cases _ _ m) [
    | inl same ↦ (id, subst (StandsFor hints meta id) ((eq_iff n.node_id y).0 same) st)
    | inr later ↦ nodes_known ns h y later
  ]

  pub on_ip : OneEach hints meta → (ns : List PipelineNode) → All Held ns → All (OnIp meta ops) ns
  on_ip one [] h = tt
  on_ip one (n ∷ ns) ((id, st, ip), h) = (
    λ k f.
        let other =
          stands hints meta u k n.node_id
            (node_to_op_sound (nodes hints meta u) n.node_id k (op_to_node-IsMap hints meta) f) in
        ap (actual_ip meta) (one k id n.node_id other st) ∙ ip,
    on_ip one ns h,
  )

  -- A node is a key of the map from nodes to ops exactly when an op stands for it.
  pub key-stands :
      (y : String) → has texts (keys_of texts ops) y ≡ true → (id : ℕ) × StandsFor hints meta id y
  key-stands y h =
      let (id, f) = has-found texts ops y h in
      (
        id,
        stands hints meta u id y
            (node_to_op_sound (nodes hints meta u) y id (op_to_node-IsMap hints meta) f),
      )

  pub stands-key :
      (y : String) (id : ℕ) → StandsFor hints meta id y → has texts (keys_of texts ops) y ≡ true
  stands-key y id st =
      let (k, f) = node_to_op_complete (nodes hints meta u) y id (found hints meta u id y st) in
      found-has texts ops y k f
