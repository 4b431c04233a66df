-- ===== src/Ir/ValidateAgainstRtlmap.antt =====
-- crates/slugarch-ir/src/passes/validate_against_rtlmap.rs, and `RtlmapDiff` of error.rs. The JSON of the
-- pipeline and that of a diff are parameters. A hash set or map is a list; where the source iterates over
-- one, the order is that of the list.
use Prim.Native.String.{String, ◌++◌}
use text.Mathlib.Text.{◌==◌}
use text.Mathlib.TextEquality.{eq_iff}
use slug_arch.Base.{
  ℕ, Bool, true, false, ◌&&◌, Option, none, some, List, [], ◌∷◌, if◌then◌else◌, Result, ok, err,
  Map, insert, lookup,
}
use slug_arch.Base.Sets.{Keyed, has, add_key, as_set, difference, find_key, put_key, keys_of}
use slug_arch.Base.{◌≡◌, ◌↔◌, refl, ap}
use slug_arch.Ir.Types.{IpId, catalog_name, all}
use slug_arch.Ir.Ops.{OpMeta}
use slug_arch.Ir.Graph.{Edge, src, dst, Function, Module}
use slug_arch.Ir.AssignTokens.{IrError, pass_failed, oracle_mismatch}
pub mod Names
pub mod Nodes
pub mod Holders
pub mod Matching
pub mod Ips
pub mod Decides
mod Tests

pub record PipelineNode : Type 0 where
  pub node_id : String
  pub op : String
  pub selected_ip : String

pub record PipelineEdge : Type 0 where
  pub from : String
  pub to : String
  pub channel : String

pub record PipelineRtlmap : Type 0 where
  pub name : String
  pub nodes : List PipelineNode
  pub edges : List PipelineEdge

pub record RtlmapDiff : Type 0 where
  pub missing_nodes : List String
  pub extra_nodes : List String
  pub wrong_ip : List (String × String × String)
  pub edge_diff : List String

-- Texts, and pairs of texts, as keys.
abbrev pub texts : Keyed String
texts = record { same = ◌==◌; same_iff = eq_iff }

abbrev pub same_pair : String × String → String × String → Bool
same_pair (a, b) (c, d) = (a == c) && (b == d)

both : (a b : Bool) → (a && b) ≡ true → (a ≡ true) × (b ≡ true)
both true b h = (refl, h)
both false b h = cc (h)

pub same_pair_iff : (p q : String × String) → (same_pair p q ≡ true) ↔ (p ≡ q)
same_pair_iff (a, b) (c, d) = (
  λ h.
      let (x, y) = both (a == c) (b == d) h in
      let p : a ≡ c = (eq_iff a c).0 x in let q : b ≡ d = (eq_iff b d).0 y in cc (p, q),
  λ e.
      let x : (a == c) ≡ true = (eq_iff a c).1 (ap (λ p. p.0) e) in
      let y : (b == d) ≡ true = (eq_iff b d).1 (ap (λ p. p.1) e) in rw (x, y) refl,
)

abbrev pub text_pairs : Keyed (String × String)
text_pairs = record { same = same_pair; same_iff = same_pair_iff }

-- `IpId::all().iter().copied().find(..)`
abbrev pub find_ip : List IpId → String → Option IpId
find_ip [] name = none
find_ip (ip ∷ ips) name = if catalog_name ip == name then some ip else find_ip ips name

unfoldable pub parse_ip_id : String → Option IpId
parse_ip_id name = find_ip all name

-- The node of an op, by its hint.
abbrev pub node_of_hint : List (String × String) → Option String → Option String
node_of_hint hints none = none
node_of_hint hints (some hint) = find_key texts hints hint

abbrev pub put_node : Map String → ℕ → Option String → Map String
put_node acc id none = acc
put_node acc id (some node) = insert acc id node

-- The loop over `f.meta`: `op_to_node`.
unfoldable pub op_to_node : List (String × String) → Map OpMeta → Map String → Map String
op_to_node hints [] acc = acc
op_to_node hints ((id, m) ∷ meta) acc =
    op_to_node hints meta (put_node acc id (node_of_hint hints m.source_hint))

-- `op_to_node.iter().map(|(k, v)| (v.clone(), *k)).collect()`
unfoldable pub node_to_op : Map String → List (String × ℕ) → List (String × ℕ)
node_to_op [] acc = acc
node_to_op ((id, node) ∷ m) acc = node_to_op m (put_key texts acc node id)

abbrev pub node_ids : List PipelineNode → List String
node_ids [] = []
node_ids (n ∷ ns) = n.node_id ∷ node_ids ns

abbrev pub name_or_unassigned : Option IpId → String
name_or_unassigned none = "<unassigned>"
name_or_unassigned (some ip) = catalog_name ip

abbrev pub actual_ip : Map OpMeta → ℕ → String
actual_ip meta id = elim (lookup meta id) [
  | none ↦ "<unassigned>"
  | some m ↦ name_or_unassigned m.backend
]

-- The check of a node that has an op, before the rest.
abbrev pub check_node :
    Map OpMeta
    → PipelineNode
    → Option ℕ
    → List (String × String × String)
    → List (String × String × String)
check_node meta node none rest = rest
check_node meta node (some id) rest =
    if actual_ip meta id == node.selected_ip
    then rest
    else (node.node_id, node.selected_ip, actual_ip meta id) ∷ rest

unfoldable pub wrong_ips :
    Map OpMeta → List (String × ℕ) → List PipelineNode → List (String × String × String)
wrong_ips meta ops [] = []
wrong_ips meta ops (n ∷ ns) =
    check_node meta n (find_key texts ops n.node_id) (wrong_ips meta ops ns)

unfoldable pub oracle_edges : List PipelineEdge → List (String × String)
oracle_edges [] = []
oracle_edges (e ∷ es) =
    let rest = oracle_edges es in
    if e.channel == "token" then add_key text_pairs (e.from, e.to) rest else rest

-- `(Some(s), Some(d))`, or `continue`.
abbrev pub add_edge_of :
    Option String → Option String → List (String × String) → List (String × String)
add_edge_of (some s) (some d) rest = add_key text_pairs (s, d) rest
add_edge_of _ _ rest = rest

unfoldable pub actual_edges : Map String → List Edge → List (String × String)
actual_edges nodes [] = []
actual_edges nodes (e ∷ es) =
    add_edge_of (lookup nodes (src e)) (lookup nodes (dst e)) (actual_edges nodes es)

abbrev pub edge_lines : String → List (String × String) → List String
edge_lines what [] = []
edge_lines what ((a, b) ∷ es) = (what ++ a ++ " -> " ++ b) ∷ edge_lines what es

abbrev pub join : List String → List String → List String
join [] ys = ys
join (x ∷ xs) ys = x ∷ join xs ys

unfoldable pub diff_function : Function → PipelineRtlmap → List (String × String) → RtlmapDiff
diff_function f oracle hints =
    let nodes = op_to_node hints f.meta [] in
    let ops = node_to_op nodes [] in
    let oracle_ids = as_set texts (node_ids oracle.nodes) in
    let actual_ids = keys_of texts ops in
    let expected = oracle_edges oracle.edges in
    let actual = actual_edges nodes f.edges in
    record {
      missing_nodes = difference texts oracle_ids actual_ids;
      extra_nodes = difference texts actual_ids oracle_ids;
      wrong_ip = wrong_ips f.meta ops oracle.nodes;
      edge_diff =
          join (edge_lines "missing token edge: " (difference text_pairs expected actual))
            (edge_lines "extra token edge: " (difference text_pairs actual expected));
    }

abbrev pub is_nil {ℓ} : {A : Type ℓ} → List A → Bool
is_nil [] = true
is_nil (x ∷ xs) = false

-- `RtlmapDiff::is_empty`
unfoldable pub is_empty : RtlmapDiff → Bool
is_empty d =
    is_nil d.missing_nodes && is_nil d.extra_nodes && is_nil d.wrong_ip && is_nil d.edge_diff

abbrev pub find_function : List Function → String → Option Function
find_function [] name = none
find_function (f ∷ fs) name = if f.name == name then some f else find_function fs name

-- `ValidateAgainstRtlmap`
pub record ValidateAgainstRtlmap : Type 0 where
  pub oracle : PipelineRtlmap
  pub function_name : String
  pub node_id_of_hint : List (String × String)

-- `run`, with the text of a diff.
abbrev pub verdict_of_diff : (RtlmapDiff → String) → RtlmapDiff → Result IrError (Unit {0})
verdict_of_diff render diff = if is_empty diff then ok tt else err (oracle_mismatch (render diff))

unfoldable pub run_validate :
    (RtlmapDiff → String) → ValidateAgainstRtlmap → Module → Result IrError (Unit {0})
run_validate render v m = elim (find_function m.functions v.function_name) [
  | none ↦
      err (
        pass_failed "validate_against_rtlmap" none ("function " ++ v.function_name ++ " not found"))
  | some f ↦ verdict_of_diff render (diff_function f v.oracle v.node_id_of_hint)
]
