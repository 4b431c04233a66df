-- ===== src/Backend/Selected.antt =====
-- emit.rs after select_backend.rs under its default policy: which modules have commands.
use Prim.Native.String.{String}
use slug_arch.Base.{
  ℕ, ◌≡◌, ◌⊎◌, inl, inr, refl, sym, subst, ◌∙◌, true, or-right, some, List, [], ◌∷◌, ◌++◌, ok, err,
  ==_iff, All, IsMap, lookup, lookup_or, contains,
}
use slug_arch.Ir.Types.{npu_array_v4_seed_g}
use slug_arch.Ir.Ops.{Op, TileKind, default_meta}
use slug_arch.Ir.Graph.{Function}
use slug_arch.Ir.SelectBackend.{
  default_pick, select_function, select_backend, selected, select_function-selected,
}
use slug_arch.Backend.Bind.{DispatchCmd, no_binding_for_choice, bind_choice, bind_npu}
use slug_arch.Backend.Emit.{EmitError, bind_failed, emit_id, emit_ids, emit_dispatches}
use slug_arch.Backend.Commands.{IsBindable, IsSelected, Emitted, emit_id-IsFor}

abbrev pub IsElementwise : Op → Type 0
IsElementwise (Op.tensor_tile TileKind.elementwise _ _ _) = Unit
IsElementwise _ = ⊥

IsBindable-IsElementwise : (op : Op) → IsBindable op ⊎ IsElementwise op
IsBindable-IsElementwise (Op.tensor_tile TileKind.elementwise _ _ _) = inr tt
IsBindable-IsElementwise _ = inl tt

-- Every id of the order has an op, as the builder makes it.
abbrev pub HasOp : Function → ℕ → Type 0
HasOp f id = (op : Op) × (lookup f.ops id ≡ some op)

pub record IsWhole (f : Function) : Type 0 where
  pub one_each : IsMap f.ops
  pub ops_there : All (HasOp f) f.order

-- An id without an elementwise tile.
abbrev pub IsBound : Function → ℕ → Type 0
IsBound f id = (op : Op) → lookup f.ops id ≡ some op → IsBindable op

-- An elementwise tile at one of some ids.
pub record TileAmong (f : Function) (ids : List ℕ) (op : Op) : Type 0 where
  pub id : ℕ
  pub is_among : contains ids id ≡ true
  pub has_op : lookup f.ops id ≡ some op
  pub is_tile : IsElementwise op

abbrev pub SomeTile : List Function → Op → Type 0
SomeTile [] op = ⊥
SomeTile (f ∷ fs) op = TileAmong f f.order op ⊎ SomeTile fs op

-- The error of a tile: the array that the policy picks has no binding for it.
abbrev pub no_binding : Op → EmitError
no_binding op = bind_failed (no_binding_for_choice npu_array_v4_seed_g op)

module _ (policy : String) (f : Function) (one_each : IsMap f.ops) where
  abbrev f' : Function
  f' = select_function default_pick f

  meta_at :
      (id : ℕ) (op : Op)
      → lookup f.ops id ≡ some op
      → lookup f'.meta id ≡ some (selected default_pick op (lookup_or f.meta id default_meta))
  meta_at id op h = (select_function-selected default_pick f id one_each).0 op h

  lookup-IsSelected :
      (id : ℕ) (op : Op) → lookup f.ops id ≡ some op → IsBindable op → IsSelected f' id
  unfolding select_function
  lookup-IsSelected id op h b = record {
    op = op;
    meta = selected default_pick op (lookup_or f.meta id default_meta);
    has_op = h;
    has_meta = meta_at id op h;
    chosen = refl;
    bindable = b;
  }

  emit_id-tile :
      (id : ℕ) (op : Op)
      → lookup f.ops id ≡ some op
      → IsElementwise op
      → emit_id policy f' id ≡ err (no_binding op)
  unfolding emit_id select_function bind_choice bind_npu default_pick
  emit_id-tile id (Op.tensor_tile TileKind.elementwise shape d os) h t =
      rw (h, meta_at id (Op.tensor_tile TileKind.elementwise shape d os) h) refl
  emit_id-tile id _ h t = absurd t

  abbrev IdsEmitted : List ℕ → Type 0
  IdsEmitted ids =
      ((cmds : List DispatchCmd) × (emit_ids policy f' ids ≡ ok cmds)
        × Emitted policy f' ids cmds
        × All (IsBound f) ids)
      ⊎ ((op : Op) × (emit_ids policy f' ids ≡ err (no_binding op)) × TileAmong f ids op)

  emit_ids-first :
      (id : ℕ) (ids : List ℕ) (op : Op)
      → lookup f.ops id ≡ some op
      → IsBindable op ⊎ IsElementwise op
      → IdsEmitted ids
      → IdsEmitted (id ∷ ids)
  unfolding emit_ids
  emit_ids-first id ids op h (inr t) later = inr (
    op,
    rw (emit_id-tile id op h t) refl,
    record { id = id; is_among = rw ((==_iff id id).1 refl) refl; has_op = h; is_tile = t },
  )
  emit_ids-first id ids op h (inl b) later =
      let chosen = lookup-IsSelected id op h b in
      let (cmd, e, c) = emit_id-IsFor policy f' id chosen in
      elim later [
        | inl (cmds, es, cs, bs) ↦ inl (
          cmd ∷ cmds,
          rw (e, es) refl,
          ((chosen.op, chosen.meta, chosen.has_op, chosen.has_meta, c), cs),
          (
            λ o g.
                (let same : some op ≡ some o = sym h ∙ g in
                  let eq : op ≡ o = cc (same) in subst IsBindable eq b),
            bs,
          ),
        )
        | inr (o, es, t) ↦ inr (
          o,
          rw (e, es) refl,
          record {
            id = t.id;
            is_among = or-right _ _ t.is_among;
            has_op = t.has_op;
            is_tile = t.is_tile;
          },
        )
      ]

  emit_ids-cases : (ids : List ℕ) → All (HasOp f) ids → IdsEmitted ids
  unfolding emit_ids
  emit_ids-cases [] h = inl ([], refl, tt, tt)
  emit_ids-cases (id ∷ ids) ((op, has), h) =
      emit_ids-first id ids op has (IsBindable-IsElementwise op) (emit_ids-cases ids h)

-- The commands of some functions: those of each function, one for each id of its order, in turn.
abbrev pub AllEmitted : String → List Function → List DispatchCmd → Type 0
AllEmitted policy [] cmds = cmds ≡ []
AllEmitted policy (f ∷ fs) cmds =
    (xs : List DispatchCmd) × (ys : List DispatchCmd) × (cmds ≡ xs ++ ys)
    × Emitted policy f f.order xs
    × AllEmitted policy fs ys

-- After select_backend under the default policy, on functions whose orders have ops, either no order
-- has an elementwise tile and emit_dispatches gives one command for each id of each order, in turn,
-- with the IP, the tokens, the hint and the policy, or it fails for want of a binding of an
-- elementwise tile in one of the orders.
pub emit_dispatches-select_backend :
    (policy : String) (fs : List Function)
    → All IsWhole fs
    → ((cmds : List DispatchCmd) × (emit_dispatches policy (select_backend default_pick fs)
          ≡ ok cmds)
        × AllEmitted policy (select_backend default_pick fs) cmds
        × All (λ f. All (IsBound f) f.order) fs)
      ⊎ ((op : Op) × (emit_dispatches policy (select_backend default_pick fs) ≡ err (no_binding op))
          × SomeTile fs op)
unfolding emit_dispatches select_backend select_function
emit_dispatches-select_backend policy [] h = inl ([], refl, refl, tt)
emit_dispatches-select_backend policy (f ∷ fs) (w, h) =
    elim (emit_ids-cases policy f w.one_each f.order w.ops_there) [
      | inr (op, e, t) ↦ inr (op, rw e refl, inl t)
      | inl (xs, e, cs, bs) ↦ elim (emit_dispatches-select_backend policy fs h) [
        | inl (ys, es, more, rest) ↦
            inl (xs ++ ys, rw (e, es) refl, (xs, ys, refl, cs, more), (bs, rest))
        | inr (op, es, t) ↦ inr (op, rw (e, es) refl, inr t)
      ]
    ]
