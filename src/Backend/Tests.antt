-- ===== src/Backend/Tests.antt =====
-- A run of the default policy and the emitter, and the theorems at concrete inputs.
use slug_arch.Base.{◌≡◌, ◌⊎◌, All, refl, some, none, List, [], ◌∷◌, ok, err, lookup, lookup_or}
use slug_arch.Ir.Ops.{TileKind, Dtype, Op, default_meta}
use slug_arch.Ir.Graph.{Function, data_edge}
use slug_arch.Ir.SelectBackend.{
  default_pick, gemm_tile_ip, select_ops, select_backend, select_function, select_function-selected,
  selected,
}
use slug_arch.Ir.AssignTokens.{assign_function, assign, walk}
use slug_arch.Backend.Bind.{DispatchCmd, bind_choice, bind_npu, bind_systolic, bind_noc}
use slug_arch.Backend.Emit.{emit_id, emit_ids, emit_dispatches}
use slug_arch.Backend.Commands.{IsSelected, Emitted, emit_ids-Emitted}
use slug_arch.Backend.Selected.{
  IsWhole, AllEmitted, IsBound, SomeTile, no_binding, emit_dispatches-select_backend,
}

abbrev two : Function
two = record {
  name = "two";
  ops = (0, Op.tensor_tile TileKind.gemm (64 ∷ 64 ∷ []) Dtype.f16 []) ∷ (1, Op.dma 0 64 32) ∷ [];
  meta = (0, default_meta) ∷ [];
  edges = data_edge 0 1 ∷ [];
  order = 0 ∷ 1 ∷ [];
}

select_function-selected_example :
    ((op : Op)
      → lookup two.ops 1 ≡ some op
      → lookup (select_function default_pick two).meta 1
        ≡ some (selected default_pick op (lookup_or two.meta 1 default_meta)))
    × (lookup two.ops 1 ≡ none
        → lookup (select_function default_pick two).meta 1 ≡ lookup two.meta 1)
select_function-selected_example = select_function-selected default_pick two 1 (refl, (refl, tt))

-- Both passes on it.
abbrev after_passes : Function
after_passes = record two {
  meta =
      (
        0,
        record {
          backend = some (default_pick (Op.tensor_tile TileKind.gemm (64 ∷ 64 ∷ []) Dtype.f16 []));
          token_in = some 0;
          token_out = some 1;
          source_hint = none;
        },
      )
      ∷ (
        1,
        record {
          backend = some (default_pick (Op.dma 0 64 32));
          token_in = some 1;
          token_out = some 2;
          source_hint = none;
        },
      )
      ∷ [];
}

passes_run : assign_function (select_function default_pick two) ≡ ok after_passes
unfolding assign_function assign walk select_function select_ops
passes_run = refl

IsSelected-zero : IsSelected after_passes 0
IsSelected-zero = record {
  op = _;
  meta = _;
  has_op = refl;
  has_meta = refl;
  chosen = refl;
  bindable = tt;
}

IsSelected-one : IsSelected after_passes 1
IsSelected-one = record {
  op = _;
  meta = _;
  has_op = refl;
  has_meta = refl;
  chosen = refl;
  bindable = tt;
}

emit_ids-Emitted_example :
    (cmds : List DispatchCmd) × (emit_ids "default_v1" after_passes (0 ∷ 1 ∷ []) ≡ ok cmds)
    × Emitted "default_v1" after_passes (0 ∷ 1 ∷ []) cmds
emit_ids-Emitted_example =
    emit_ids-Emitted "default_v1" after_passes (0 ∷ 1 ∷ []) (IsSelected-zero, (IsSelected-one, tt))

-- An elementwise tile that went through the default policy.
abbrev elementwise_op : Op
elementwise_op = Op.tensor_tile TileKind.elementwise (8 ∷ 8 ∷ []) Dtype.f16 []

abbrev one : Function
one = record {
  name = "one";
  ops = (0, elementwise_op) ∷ [];
  meta = (0, record default_meta { backend = some (default_pick elementwise_op) }) ∷ [];
  edges = [];
  order = 0 ∷ [];
}

one-IsWhole : IsWhole one
one-IsWhole = record { one_each = (refl, tt); ops_there = ((elementwise_op, refl), tt) }

two-IsWhole : IsWhole two
two-IsWhole = record { one_each = (refl, (refl, tt)); ops_there = ((_, refl), ((_, refl), tt)) }

emit_dispatches-select_backend_example :
    ((cmds : List DispatchCmd) × (emit_dispatches "default_v1"
          (select_backend default_pick (two ∷ one ∷ []))
        ≡ ok cmds)
      × AllEmitted "default_v1" (select_backend default_pick (two ∷ one ∷ [])) cmds
      × All (λ f. All (IsBound f) f.order) (two ∷ one ∷ []))
    ⊎ ((op : Op) × (emit_dispatches "default_v1" (select_backend default_pick (two ∷ one ∷ []))
          ≡ err (no_binding op))
        × SomeTile (two ∷ one ∷ []) op)
emit_dispatches-select_backend_example =
    emit_dispatches-select_backend "default_v1" (two ∷ one ∷ []) (two-IsWhole, (one-IsWhole, tt))

-- What the run gives there.
elementwise_fails :
    emit_dispatches "default_v1" (select_backend default_pick (two ∷ one ∷ []))
    ≡ err (no_binding elementwise_op)
unfolding emit_dispatches emit_ids emit_id bind_choice bind_npu bind_systolic bind_noc
    select_backend select_function select_ops default_pick gemm_tile_ip
elementwise_fails = refl
