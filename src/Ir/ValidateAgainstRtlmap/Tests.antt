-- ===== src/Ir/ValidateAgainstRtlmap/Tests.antt =====
-- Runs of the validation, and its theorems at concrete inputs.
use Prim.Native.String.{String}
use slug_arch.Ir.Types.{
  IpId, npu_array_v4_seed_g, systolic_array16x16, noc_mesh, slug_cxl4x4, catalog_name,
}
use slug_arch.Ir.ValidateAgainstRtlmap.{
  PipelineRtlmap, diff_function, is_empty, op_to_node, node_to_op, wrong_ips, oracle_edges,
  actual_edges, parse_ip_id,
}
use slug_arch.Ir.ValidateAgainstRtlmap.Nodes.{StandsFor}
use slug_arch.Ir.ValidateAgainstRtlmap.Matching.{Matches, OneEach}
use slug_arch.Ir.ValidateAgainstRtlmap.Decides.{is_empty-diff_iff}
use slug_arch.Ir.ValidateAgainstRtlmap.Names.{parse_ip_id_iff}
use slug_arch.Base.{◌≢◌, ◌↔◌, true, List}
use text.Mathlib.TextEquality.{eq_iff}
use slug_arch.Base.{
  ℕ, ◌≡◌, refl, sym, ◌∙◌, arith, ◌⊎◌, inl, inr, some, none, [], ◌∷◌, Bool-cases, ◌==◌, ==_iff,
}
use slug_arch.Ir.Ops.{Op, OpMeta, StateKind, default_meta}
use slug_arch.Ir.Graph.{Function, new_function, data_edge}

abbrev step : Op
step = Op.state_step StateKind.rms_norm []

-- The pipeline of the tests of validate_against_rtlmap.rs.
abbrev two_nodes : PipelineRtlmap
two_nodes = record {
  name = "test";
  nodes =
      record { node_id = "n0"; op = "rms_norm"; selected_ip = "npu_array_v4_seed_g" }
      ∷ record { node_id = "n1"; op = "gemm_qkv"; selected_ip = "systolic_array_16x16" }
      ∷ [];
  edges = record { from = "n0"; to = "n1"; channel = "token" } ∷ [];
}

abbrev on_ip : IpId → String → OpMeta
on_ip ip hint = record default_meta { backend = some ip; source_hint = some hint }

abbrev two_ops : IpId → Function
two_ops ip = record (new_function "test") {
  ops = (0, step) ∷ (1, step) ∷ [];
  meta = (0, on_ip npu_array_v4_seed_g "h0") ∷ (1, on_ip ip "h1") ∷ [];
  edges = data_edge 0 1 ∷ [];
  order = 0 ∷ 1 ∷ [];
}

abbrev two_hints : List (String × String)
two_hints = ("h0", "n0") ∷ ("h1", "n1") ∷ []

matching_is_accepted :
    is_empty (diff_function (two_ops systolic_array16x16) two_nodes two_hints) ≡ true
unfolding is_empty diff_function op_to_node node_to_op wrong_ips oracle_edges actual_edges
    catalog_name
matching_is_accepted = refl

wrong_ip_is_named :
    (diff_function (two_ops noc_mesh) two_nodes two_hints).wrong_ip
    ≡ ("n1", "systolic_array_16x16", "noc_mesh") ∷ []
unfolding diff_function op_to_node node_to_op wrong_ips oracle_edges actual_edges catalog_name
wrong_ip_is_named = refl

n0_not_n1 : ◌≢◌ {A = String} "n0" "n1"
n0_not_n1 = ground (arith, eq_iff "n0" "n1")

which :
    (id : ℕ) (node : String)
    → StandsFor two_hints (two_ops systolic_array16x16).meta id node
    → ((id ≡ 0) × ("n0" ≡ node)) ⊎ ((id ≡ 1) × ("n1" ≡ node))
which id node h = elim (Bool-cases (0 == id)) [
  | inl e ↦
      let found : some "n0" ≡ some node = rw e at h in inl (sym ((==_iff 0 id).0 e), cc (found))
  | inr e ↦ elim (Bool-cases (1 == id)) [
    | inl t ↦
        let found : some "n1" ≡ some node = rw (e, t) at h in
        inr (sym ((==_iff 1 id).0 t), cc (found))
    | inr t ↦ let found : none ≡ some node = rw (e, t) at h in cc (found)
  ]
]

two_ops_apart : OneEach two_hints (two_ops systolic_array16x16).meta
two_ops_apart id k node h g = elim (which id node h) [
  | inl (p, q) ↦ elim (which k node g) [
    | inl (r, s) ↦ p ∙ sym r
    | inr (r, s) ↦ absurd (n0_not_n1 (q ∙ sym s))
  ]
  | inr (p, q) ↦ elim (which k node g) [
    | inl (r, s) ↦ absurd (n0_not_n1 (s ∙ sym q))
    | inr (r, s) ↦ p ∙ sym r
  ]
]

is_empty-diff_iff_example :
    (is_empty (diff_function (two_ops systolic_array16x16) two_nodes two_hints) ≡ true)
    ↔ Matches (two_ops systolic_array16x16) two_nodes two_hints
is_empty-diff_iff_example =
    is_empty-diff_iff (two_ops systolic_array16x16) two_nodes two_hints (refl, (refl, tt))
      two_ops_apart

parse_ip_id_iff_example :
    (parse_ip_id "noc_mesh" ≡ some noc_mesh)
    ↔ ((catalog_name noc_mesh ≡ "noc_mesh") × (noc_mesh ≢ slug_cxl4x4))
parse_ip_id_iff_example = parse_ip_id_iff "noc_mesh" noc_mesh
