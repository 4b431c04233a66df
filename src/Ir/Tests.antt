-- ===== src/Ir/Tests.antt =====
-- Runs of the passes, and their theorems at concrete inputs.
use slug_arch.Base.{ℕ, ◌≡◌, ◌≤◌, refl, arith, none, some, [], ◌∷◌, length, ok, err}
use slug_arch.Ir.Ops.{OpMeta, StateKind, Op, default_meta}
use slug_arch.Ir.Graph.{Function, data_edge, token_edge}
use slug_arch.Ir.AssignTokens.{assign_function, assign, walk, walk_fuel, start, token_graph_cycle}
use slug_arch.Base.{◌==◌, if◌then◌else◌}
use slug_arch.Ir.AssignTokens.Complete.{assign_function-Ranked}
use slug_arch.Ir.AssignTokens.Correct.{result_of}
use slug_arch.Ir.FuseDecodeOps.{fuse_mlp_chain, fuse_loop}
use slug_arch.Ir.FuseDecodeOps.Operands.{total_operands, fuse_mlp_chain-total_operands}
use slug_arch.Ir.FuseDecodeOps.Fuel.{left_over, fuse_loop-ends}
use slug_arch.Ir.Ops.{OperandRef}
use slug_arch.Base.{false, contains, keys}
use slug_arch.Ir.Graph.{FunctionBuilder, new_function, add_op}
use slug_arch.Ir.Graph.Builder.{IsBuilt, add_op-IsBuilt}
use slug_arch.Ir.AssignTokens.Fuel.{walk-ends}
use slug_arch.Ir.AssignTokens.Correct.{IsScheduled, assign_function-IsScheduled}

abbrev step : Op
step = Op.state_step StateKind.mlp_step []

-- A diamond: 2 comes first, then 0 and 3, then 1.
abbrev diamond : Function
diamond = record {
  name = "diamond";
  ops = (0, step) ∷ (1, step) ∷ (2, step) ∷ (3, step) ∷ [];
  meta = (0, default_meta) ∷ (1, default_meta) ∷ (2, default_meta) ∷ (3, default_meta) ∷ [];
  edges = data_edge 2 3 ∷ data_edge 2 0 ∷ token_edge 3 1 ∷ data_edge 0 1 ∷ [];
  order = 0 ∷ 1 ∷ 2 ∷ 3 ∷ [];
}

abbrev tokens : ℕ → ℕ → OpMeta
tokens i o = record { backend = none; token_in = some i; token_out = some o; source_hint = none }

abbrev scheduled : Function
scheduled = record diamond {
  meta = (0, tokens 1 2) ∷ (1, tokens 3 4) ∷ (2, tokens 0 1) ∷ (3, tokens 1 3) ∷ [];
  order = 2 ∷ 0 ∷ 3 ∷ 1 ∷ [];
}

diamond_runs : assign_function diamond ≡ ok scheduled
unfolding assign_function assign walk
diamond_runs = refl

cycle_fails :
    assign_function (record diamond { edges = data_edge 0 1 ∷ data_edge 1 0 ∷ [] })
    ≡ err (token_graph_cycle (0 ∷ 1 ∷ []))
unfolding assign_function assign walk
cycle_fails = refl

walk-ends_example : (walk (walk_fuel diamond) (start diamond)).queue ≡ []
walk-ends_example = walk-ends diamond

assign_function-IsScheduled_example :
    IsScheduled scheduled
    × (length scheduled.order ≡ length diamond.ops)
    × (scheduled.ops ≡ diamond.ops)
    × (scheduled.edges ≡ diamond.edges)
assign_function-IsScheduled_example =
    assign_function-IsScheduled diamond scheduled (omega arith) diamond_runs

-- The order of the diamond as a rank.
abbrev rank : ℕ → ℕ
rank id = if id == 2 then 0 else if id == 1 then 2 else 1

assign_function-Ranked_example : assign_function diamond ≡ ok (result_of diamond)
assign_function-Ranked_example =
    assign_function-Ranked diamond rank (refl, (refl, (refl, (refl, tt))))
      (
        (refl, refl, omega arith),
        ((refl, refl, omega arith), ((refl, refl, omega arith), ((refl, refl, omega arith), tt))),
      )

-- An edge to an id that is no op takes the place of an op on a cycle.
abbrev dangling : Function
dangling = record {
  name = "dangling";
  ops = (0, step) ∷ (1, step) ∷ [];
  meta = (0, default_meta) ∷ (1, default_meta) ∷ [];
  edges = data_edge 1 1 ∷ data_edge 0 7 ∷ [];
  order = 0 ∷ 1 ∷ [];
}

dangling_hides_cycle :
    assign_function dangling
    ≡ ok (record dangling {
      meta = (0, tokens 0 1) ∷ (1, default_meta) ∷ (7, tokens 1 2) ∷ [];
      order = 0 ∷ 7 ∷ [];
    })
unfolding assign_function assign walk
dangling_hides_cycle = refl

abbrev mlp : ℕ → Op
mlp v = Op.state_step StateKind.mlp_step (OperandRef.imm_u64 v ∷ [])

-- Three MLP steps, each on the one before.
abbrev three_steps : Function
three_steps = record {
  name = "three_steps";
  ops = (0, mlp 1) ∷ (1, mlp 2) ∷ (2, mlp 3) ∷ [];
  meta = (0, default_meta) ∷ (1, default_meta) ∷ (2, default_meta) ∷ [];
  edges = data_edge 0 1 ∷ data_edge 1 2 ∷ [];
  order = 0 ∷ 1 ∷ 2 ∷ [];
}

-- The first two fuse, and the third is left without the edge that it had.
third_step_loses_edge : fuse_mlp_chain three_steps ≡ record {
  name = "three_steps";
  ops =
      (0, Op.state_step StateKind.mlp_step (OperandRef.imm_u64 1 ∷ OperandRef.imm_u64 2 ∷ []))
      ∷ (2, mlp 3)
      ∷ [];
  meta = (0, default_meta) ∷ (2, default_meta) ∷ [];
  edges = [];
  order = 0 ∷ 2 ∷ [];
}
unfolding fuse_mlp_chain fuse_loop
third_step_loses_edge = refl

fuse_mlp_chain-total_operands_example :
    total_operands ((fuse_mlp_chain three_steps).ops) ≡ total_operands three_steps.ops
fuse_mlp_chain-total_operands_example =
    fuse_mlp_chain-total_operands three_steps ((omega arith), ((omega arith), (tt, tt)))

fuse_loop-ends_example : length (left_over three_steps) ≤ 1
fuse_loop-ends_example = fuse_loop-ends three_steps

abbrev built_one : FunctionBuilder
built_one = record {
  next_op = 1;
  f = record (new_function "f") {
    ops = (0, mlp 1) ∷ [];
    meta = (0, default_meta) ∷ [];
    order = 0 ∷ [];
  };
}

add_op-IsBuilt_example :
    IsBuilt ((add_op built_one (mlp 2)).1)
    × (contains (keys built_one.f.ops) ((add_op built_one (mlp 2)).0) ≡ false)
add_op-IsBuilt_example =
    add_op-IsBuilt built_one (mlp 2) (omega arith)
      (record { in_order = refl; below = (omega arith, tt); one_each = (refl, tt) })
