-- ===== src/Backend/Commands.antt =====
-- The commands that emit.rs makes of ops under the default policy of select_backend.rs.
use Prim.Native.String.{String}
use slug_arch.Base.{ℕ, ◌≡◌, refl, ap, ◌∙◌, some, List, [], ◌∷◌, ok, ◌>>=◌, ok_or}
use slug_arch.Base.{Bool-cases, inl, inr, leb, lookup, length, All}
use slug_arch.Ir.Ops.{Op, OpMeta, TileKind}
use slug_arch.Ir.Graph.{Function}
use slug_arch.Ir.SelectBackend.{default_pick, gemm_tile_ip, max_dim}
use slug_arch.Backend.Bind.{
  DispatchCmd, BindCtx, bind_choice, command, u32_token, shape_product, bind_npu, bind_noc,
  bind_ptx, bind_systolic,
}
use slug_arch.Backend.Emit.{no_backend, token_or_zero, context_of, lift_bind, emit_id, emit_ids}

-- The ops for which the default policy's IP has a binding.
abbrev pub IsBindable : Op → Type 0
IsBindable (Op.tensor_tile TileKind.elementwise _ _ _) = ⊥
IsBindable _ = Unit

-- A command for an op, with the op's IP and tokens.
pub record IsFor (policy : String) (op : Op) (meta : OpMeta) (cmd : DispatchCmd) : Type 0 where
  pub ip_is : cmd.ip ≡ default_pick op
  pub in_is : cmd.token_in ≡ token_or_zero meta.token_in
  pub out_is : cmd.token_out ≡ token_or_zero meta.token_out
  pub token_size : length cmd.token ≡ 32
  pub policy_is : cmd.meta.policy ≡ some policy
  pub hint_is : cmd.meta.source_hint ≡ meta.source_hint

-- The three sizes share a binding.
bind_choice-gemm :
    (shape : List ℕ) (op : Op) (ctx : BindCtx)
    → bind_choice (gemm_tile_ip shape) op ctx ≡ bind_systolic (gemm_tile_ip shape) op ctx
unfolding bind_choice gemm_tile_ip
bind_choice-gemm shape op ctx = elim (Bool-cases (leb 128 (max_dim shape))) [
  | inl e ↦ rw e refl
  | inr e ↦ elim (Bool-cases (leb 32 (max_dim shape))) [
    | inl t ↦ rw (e, t) refl
    | inr t ↦ rw (e, t) refl
  ]
]

-- The default policy's choice binds each op but an elementwise tile to one command for it.
bind_choice-IsFor :
    (policy : String) (op : Op) (meta : OpMeta)
    → IsBindable op
    → (cmd : DispatchCmd) × (bind_choice (default_pick op) op (context_of policy meta)
        ≡ ok (cmd ∷ []))
      × IsFor policy op meta cmd
unfolding bind_choice default_pick bind_npu bind_noc bind_ptx bind_systolic
bind_choice-IsFor policy (Op.arith_op k os d) meta b = (
  _,
  refl,
  record {
    ip_is = refl;
    in_is = refl;
    out_is = refl;
    token_size = refl;
    policy_is = refl;
    hint_is = refl;
  },
)
bind_choice-IsFor policy (Op.tensor_tile TileKind.gemm shape d os) meta b = (
  command (gemm_tile_ip shape) 1 (u32_token (shape_product shape)) (context_of policy meta),
  bind_choice-gemm shape (Op.tensor_tile TileKind.gemm shape d os) (context_of policy meta),
  record {
    ip_is = refl;
    in_is = refl;
    out_is = refl;
    token_size = refl;
    policy_is = refl;
    hint_is = refl;
  },
)
bind_choice-IsFor policy (Op.tensor_tile TileKind.elementwise shape d os) meta b = absurd b
bind_choice-IsFor policy (Op.state_step k os) meta b = (
  _,
  refl,
  record {
    ip_is = refl;
    in_is = refl;
    out_is = refl;
    token_size = refl;
    policy_is = refl;
    hint_is = refl;
  },
)
bind_choice-IsFor policy (Op.dma s d n) meta b = (
  _,
  refl,
  record {
    ip_is = refl;
    in_is = refl;
    out_is = refl;
    token_size = refl;
    policy_is = refl;
    hint_is = refl;
  },
)
bind_choice-IsFor policy (Op.emu o os) meta b = (
  _,
  refl,
  record {
    ip_is = refl;
    in_is = refl;
    out_is = refl;
    token_size = refl;
    policy_is = refl;
    hint_is = refl;
  },
)

-- An id of the order with an op, and with metadata that select_backend wrote under the default policy.
pub record IsSelected (f : Function) (id : ℕ) : Type 0 where
  pub op : Op
  pub meta : OpMeta
  pub has_op : lookup f.ops id ≡ some op
  pub has_meta : lookup f.meta id ≡ some meta
  pub chosen : meta.backend ≡ some (default_pick op)
  pub bindable : IsBindable op

-- One command for each id, in order.
abbrev pub Emitted : String → Function → List ℕ → List DispatchCmd → Type 0
Emitted policy f [] [] = Unit
Emitted policy f [] (c ∷ cs) = ⊥
Emitted policy f (id ∷ ids) [] = ⊥
Emitted policy f (id ∷ ids) (c ∷ cs) =
    ((op : Op) × (meta : OpMeta) × (lookup f.ops id ≡ some op)
      × (lookup f.meta id ≡ some meta)
      × IsFor policy op meta c)
    × Emitted policy f ids cs

pub emit_id-IsFor :
    (policy : String) (f : Function) (id : ℕ) (s : IsSelected f id)
    → (cmd : DispatchCmd) × (emit_id policy f id ≡ ok (cmd ∷ [])) × IsFor policy s.op s.meta cmd
unfolding emit_id
emit_id-IsFor policy f id s =
    let (cmd, e, c) = bind_choice-IsFor policy s.op s.meta s.bindable in
    (
      cmd,
      rw (s.has_op, s.has_meta)
          (ap
              (λ o. ok_or o no_backend >>= λ ip.
                lift_bind (bind_choice ip s.op (context_of policy s.meta)))
              s.chosen
            ∙ ap lift_bind e),
      c,
    )

-- When every id of the order is selected, emit_dispatches makes one command for each, in order, with the
-- op's IP and tokens and a token of 32 bytes.
pub emit_ids-Emitted :
    (policy : String) (f : Function) (ids : List ℕ)
    → All (IsSelected f) ids
    → (cmds : List DispatchCmd) × (emit_ids policy f ids ≡ ok cmds) × Emitted policy f ids cmds
unfolding emit_ids
emit_ids-Emitted policy f [] h = ([], refl, tt)
emit_ids-Emitted policy f (id ∷ ids) (s, h) =
    let (cmd, e, c) = emit_id-IsFor policy f id s in
    let (cmds, es, cs) = emit_ids-Emitted policy f ids h in
    (cmd ∷ cmds, rw (e, es) refl, ((s.op, s.meta, s.has_op, s.has_meta, c), cs))
