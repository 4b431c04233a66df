-- ===== src/Cli/Functions.antt =====
-- What the passes of `lower` in crates/slugarch-cli/src/main.rs make of a function without edges.
use slug_arch.Base.{ℕ, ◌<◌, ◌≡◌, refl, ap, ap₂, ◌∙◌, arith}
use slug_arch.Base.{true, false, some, List, [], ◌∷◌, map, ok}
use slug_arch.Base.{Map, IsMap, lookup, keys, contains, ◌==◌, ==_iff, ==-differ, All}
use slug_arch.Ir.Types.{ptx_emulation_core}
use slug_arch.Ir.Ops.{Op, OpMeta}
use slug_arch.Ir.Graph.{Function}
use slug_arch.Ir.FuseDecodeOps.{fuse_decode_ops}
use slug_arch.Ir.FuseDecodeOps.NoEdges.{fuse_mlp_chain-no_edges}
use slug_arch.Ir.SelectBackend.{
  select_ops, select_backend, select_function, select_function-selected,
}
use slug_arch.Ir.AssignTokens.{assign, assign_function, assign_tokens}
use slug_arch.Ir.AssignTokens.NoEdges.{Ascending, assign_function-no_edges}
use slug_arch.Ir.AssignTokens.Metadata.{HasAt, assign-HasAt}
use slug_arch.Cli.{all_emu_pick}

-- A function as the frontend makes it.
pub record IsPlain (f : Function) : Type 0 where
  pub no_edges : f.edges ≡ []
  pub ascending : Ascending (keys f.ops)

-- The function that the passes give.
abbrev pub ready : Function → Function
ready f = record f {
  meta = assign [] 0 [] (select_ops all_emu_pick f.ops f.meta) (keys f.ops);
  order = keys f.ops;
}

fuse_decode_ops-IsPlain : (fs : List Function) → All IsPlain fs → fuse_decode_ops fs ≡ fs
unfolding fuse_decode_ops
fuse_decode_ops-IsPlain [] h = refl
fuse_decode_ops-IsPlain (f ∷ fs) (p, h) =
    ap₂ (λ x y. x ∷ y) (fuse_mlp_chain-no_edges f p.no_edges) (fuse_decode_ops-IsPlain fs h)

assign_tokens-cons :
    (f f' : Function) (fs fs' : List Function)
    → assign_function f ≡ ok f'
    → assign_tokens fs ≡ (ok tt, fs')
    → assign_tokens (f ∷ fs) ≡ (ok tt, f' ∷ fs')
unfolding assign_tokens
assign_tokens-cons f f' fs fs' h t = rw (assign_tokens, h) (ap (λ x. (x.0, f' ∷ x.1)) t)

assign_tokens-ready :
    (fs : List Function)
    → All IsPlain fs
    → assign_tokens (select_backend all_emu_pick fs) ≡ (ok tt, map ready fs)
unfolding assign_tokens select_backend select_function
assign_tokens-ready [] h = refl
assign_tokens-ready (f ∷ fs) (p, h) =
    assign_tokens-cons _ _ _ _
      (assign_function-no_edges (select_function all_emu_pick f) p.no_edges p.ascending)
      (assign_tokens-ready fs h)

pub passes-ready :
    (fs : List Function)
    → All IsPlain fs
    → assign_tokens (select_backend all_emu_pick (fuse_decode_ops fs)) ≡ (ok tt, map ready fs)
passes-ready fs h =
    ap (λ l. assign_tokens (select_backend all_emu_pick l)) (fuse_decode_ops-IsPlain fs h)
    ∙ assign_tokens-ready fs h

absent_above : (k : ℕ) (m : Map Op) → All (λ j. k < j) (keys m) → contains (keys m) k ≡ false
absent_above k [] h = refl
absent_above k ((j, o) ∷ m) (p, h) =
    rw (==-differ j k (λ e. absurd (omega (arith, p, e)))) (absent_above k m h)

Ascending-IsMap : (m : Map Op) → Ascending (keys m) → IsMap m
Ascending-IsMap [] h = tt
Ascending-IsMap ((k, o) ∷ m) (p, h) = (absent_above k m p, Ascending-IsMap m h)

-- Metadata for the CPU that waits for nothing.
abbrev pub IsUnwaiting : OpMeta → Type 0
IsUnwaiting m = (m.backend ≡ some ptx_emulation_core) × (m.token_in ≡ some 0)

-- An entry of a function's ops that the passes have prepared.
abbrev pub IsReady : Function → ℕ × Op → Type 0
IsReady f (id, op) = (lookup f.ops id ≡ some op) × HasAt IsUnwaiting f.meta id

prepared :
    (f : Function) (id : ℕ) (op : Op)
    → IsPlain f
    → contains (keys f.ops) id ≡ true
    → lookup f.ops id ≡ some op
    → HasAt IsUnwaiting (ready f).meta id
unfolding select_function all_emu_pick
prepared f id op p c e =
    assign-HasAt [] (λ m. m.backend ≡ some ptx_emulation_core) IsUnwaiting
      (λ m tok k o h. (h, refl)) (λ m h. h.0) (keys f.ops) 0 [] _ id c
      (
        _,
        (select_function-selected all_emu_pick f id (Ascending-IsMap f.ops p.ascending)).0 op e,
        refl,
      )

there :
    (m : Map Op) (j : ℕ) (o : Op) (ents : List (ℕ × Op))
    → All (λ k. j < k) (keys ents)
    → All (λ x. (contains (keys m) (x.0) ≡ true) × (lookup m (x.0) ≡ some (x.1))) ents
    → All
        (λ x. (contains (j ∷ keys m) (x.0) ≡ true) × (lookup ((j, o) ∷ m) (x.0) ≡ some (x.1)))
        ents
there m j o [] a h = tt
there m j o ((k, v) ∷ ents) (p, a) ((c, e), h) =
    let other : (j == k) ≡ false = ==-differ j k (λ q. absurd (omega (arith, p, q))) in
    ((rw other c, rw other e), there m j o ents a h)

all_there :
    (m : Map Op)
    → Ascending (keys m)
    → All (λ x. (contains (keys m) (x.0) ≡ true) × (lookup m (x.0) ≡ some (x.1))) m
all_there [] h = tt
all_there ((j, o) ∷ m) (p, h) =
    let same : (j == j) ≡ true = (==_iff j j).1 refl in
    ((rw same refl, rw same refl), there m j o m p (all_there m h))

-- Every op of a plain function is prepared by the passes.
pub ready-IsReady : (f : Function) → IsPlain f → All (IsReady (ready f)) f.ops
ready-IsReady f p = each f.ops (all_there f.ops p.ascending)
  where
    each :
        (ents : List (ℕ × Op))
        → All (λ x. (contains (keys f.ops) (x.0) ≡ true) × (lookup f.ops (x.0) ≡ some (x.1))) ents
        → All (IsReady (ready f)) ents
    each [] h = tt
    each ((id, op) ∷ ents) ((c, e), h) = ((e, prepared f id op p c e), each ents h)
