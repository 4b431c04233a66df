-- ===== src/Cli/Commands.antt =====
-- The commands that emit.rs makes of functions that the passes of main.rs have prepared.
use Prim.Native.String.{String}
use slug_arch.Base.{ℕ, suc, ◌+◌, ◌≡◌, refl, ap, arith, List, [], ◌∷◌, ◌++◌, map, ok, ◌>>=◌, ok_or}
use slug_arch.Base.{Map, keys, length, All, All-append, length-append}
use slug_arch.Ir.Types.{ptx_emulation_core, is_cpu_backed}
use slug_arch.Ir.Ops.{Op}
use slug_arch.Ir.Graph.{Function}
use slug_arch.Backend.Bind.{DispatchCmd, bind_choice, bind_ptx, emu_opcode, command, u32_token}
use slug_arch.Backend.Emit.{emit_id, emit_ids, emit_dispatches, context_of, lift_bind, no_backend}
use slug_arch.Fabric.Engine.{cycle_cost}
use slug_arch.Fabric.CpuOnly.{IsFree, costs}
use slug_arch.Cli.Functions.{IsPlain, ready, IsReady, ready-IsReady}

-- The cycles of ops on the CPU.
abbrev pub ops_cost : Map Op → ℕ
ops_cost [] = 0
ops_cost ((id, op) ∷ m) = cycle_cost (emu_opcode op) + ops_cost m

abbrev pub all_ops_cost : List Function → ℕ
all_ops_cost [] = 0
all_ops_cost (f ∷ fs) = ops_cost f.ops + all_ops_cost fs

abbrev pub all_ops_count : List Function → ℕ
all_ops_count [] = 0
all_ops_count (f ∷ fs) = length f.ops + all_ops_count fs

-- Commands that wait for nothing, with a count and a cost.
pub record AreFree (n cost : ℕ) (cmds : List DispatchCmd) : Type 0 where
  pub free : All IsFree cmds
  pub counted : length cmds ≡ n
  pub cost_is : costs cmds ≡ cost

costs-append : (xs ys : List DispatchCmd) → costs (xs ++ ys) ≡ costs xs + costs ys
costs-append [] ys = omega arith
costs-append (x ∷ xs) ys = omega (arith, costs-append xs ys)

AreFree-append :
    (n m c d : ℕ) (xs ys : List DispatchCmd)
    → AreFree n c xs
    → AreFree m d ys
    → AreFree (n + m) (c + d) (xs ++ ys)
AreFree-append n m c d xs ys x y = record {
  free = All-append IsFree xs ys x.free y.free;
  counted = omega (arith, length-append xs ys, x.counted, y.counted);
  cost_is = omega (arith, costs-append xs ys, x.cost_is, y.cost_is);
}

module _ (policy : String) where
  emit_id-IsFree :
      (f : Function) (id : ℕ) (op : Op)
      → IsReady f (id, op)
      → (cmd : DispatchCmd) × (emit_id policy f id ≡ ok (cmd ∷ []))
        × IsFree cmd
        × (cmd.opcode ≡ emu_opcode op)
  unfolding emit_id bind_choice bind_ptx is_cpu_backed
  emit_id-IsFree f id op (has_op, (m, has_meta, (backend, token))) = (
    command ptx_emulation_core (emu_opcode op) (u32_token 0) (context_of policy m),
    rw (has_op, has_meta)
        (ap (λ o. ok_or o no_backend >>= λ ip. lift_bind (bind_choice ip op (context_of policy m)))
          backend),
    (refl, rw token refl),
    refl,
  )

  emit_ids-free :
      (f : Function) (ents : Map Op)
      → All (IsReady f) ents
      → (cmds : List DispatchCmd) × (emit_ids policy f (keys ents) ≡ ok cmds)
        × AreFree (length ents) (ops_cost ents) cmds
  unfolding emit_ids
  emit_ids-free f [] h = ([], refl, record { free = tt; counted = refl; cost_is = refl })
  emit_ids-free f ((id, op) ∷ ents) (r, h) =
      let (cmd, e, free, opcode) = emit_id-IsFree f id op r in
      let (cmds, es, rest) = emit_ids-free f ents h in
      (
        cmd ∷ cmds,
        rw (e, es) refl,
        record {
          free = (free, rest.free);
          counted = ap suc rest.counted;
          cost_is = omega (arith, ap cycle_cost opcode, rest.cost_is);
        },
      )

  -- The functions that the passes prepare give one command for each op, for the CPU and waiting for nothing.
  pub emit_dispatches-free :
      (fs : List Function)
      → All IsPlain fs
      → (cmds : List DispatchCmd) × (emit_dispatches policy (map ready fs) ≡ ok cmds)
        × AreFree (all_ops_count fs) (all_ops_cost fs) cmds
  unfolding emit_dispatches
  emit_dispatches-free [] h = ([], refl, record { free = tt; counted = refl; cost_is = refl })
  emit_dispatches-free (f ∷ fs) (p, h) =
      let (xs, e, x) = emit_ids-free (ready f) f.ops (ready-IsReady f p) in
      let (ys, es, y) = emit_dispatches-free fs h in
      (xs ++ ys, rw (e, es) refl, AreFree-append _ _ _ _ xs ys x y)
