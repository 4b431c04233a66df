-- ===== src/Backend/Emit.antt =====
-- crates/slugarch-backend/src/emit.rs: the stream of commands of a module. A panic of an `expect` is an
-- error of its own.
use Prim.Native.String.{String}
use slug_arch.Base.{ℕ, Option, none, some, List, [], ◌∷◌, ◌++◌, Result, ok, err, ◌>>=◌, ok_or}
use slug_arch.Base.{lookup}
use slug_arch.Ir.Ops.{OpMeta}
use slug_arch.Ir.Graph.{Function}
use slug_arch.Backend.Bind.{DispatchCmd, BindCtx, BindError, bind_choice}

pub data EmitError : Type 0 where
  missing_op missing_meta no_backend : EmitError
  bind_failed : BindError → EmitError

-- `unwrap_or(TokenId(0))`
abbrev pub token_or_zero : Option ℕ → ℕ
token_or_zero none = 0
token_or_zero (some t) = t

abbrev pub context_of : String → OpMeta → BindCtx
context_of policy meta = record {
  token_in = token_or_zero meta.token_in;
  token_out = token_or_zero meta.token_out;
  source_hint = meta.source_hint;
  policy = some policy;
}

abbrev pub lift_bind : Result BindError (List DispatchCmd) → Result EmitError (List DispatchCmd)
lift_bind (ok cmds) = ok cmds
lift_bind (err e) = err (bind_failed e)

-- The commands of one id of the order.
unfoldable pub emit_id : String → Function → ℕ → Result EmitError (List DispatchCmd)
emit_id policy f id = do
  op ← ok_or (lookup f.ops id) missing_op
  meta ← ok_or (lookup f.meta id) missing_meta
  ip ← ok_or (meta.backend) no_backend
  lift_bind (bind_choice ip op (context_of policy meta))

-- The loop over the order.
unfoldable pub emit_ids : String → Function → List ℕ → Result EmitError (List DispatchCmd)
emit_ids policy f [] = ok []
emit_ids policy f (id ∷ ids) = do
  cmds ← emit_id policy f id
  rest ← emit_ids policy f ids
  ok (cmds ++ rest)

unfoldable pub emit_dispatches : String → List Function → Result EmitError (List DispatchCmd)
emit_dispatches policy [] = ok []
emit_dispatches policy (f ∷ fs) = do
  cmds ← emit_ids policy f f.order
  rest ← emit_dispatches policy fs
  ok (cmds ++ rest)
