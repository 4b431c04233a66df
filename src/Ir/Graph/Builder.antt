-- ===== src/Ir/Graph/Builder.antt =====
-- What `FunctionBuilder` of module.rs keeps: fresh ids, in the order of insertion.
use slug_arch.Base.{ℕ, ◌+◌, ◌^◌, ◌<◌, ◌≡◌, refl, sym, ap, subst, ◌∙◌, arith}
use slug_arch.Base.{Bool, true, false, ◌||◌, List, [], ◌∷◌, ◌++◌}
use slug_arch.Base.{
  Map, IsMap, insert, keys, contains, ◌==◌, ==-differ, if◌then◌else◌, All, All-append,
}
use slug_arch.Ir.Ops.{Op}
use slug_arch.Ir.Graph.{FunctionBuilder, next_id, add_op}

-- All ids are below the next one.
abbrev pub AllBelow : ℕ → List ℕ → Type 0
AllBelow n = All (λ k. k < n)

pub record IsBuilt (b : FunctionBuilder) : Type 0 where
  pub in_order : keys b.f.ops ≡ b.f.order
  pub below : AllBelow b.next_op b.f.order
  pub one_each : IsMap b.f.ops

below-absent : (n : ℕ) (ks : List ℕ) → AllBelow n ks → contains ks n ≡ false
below-absent n [] h = refl
below-absent n (k ∷ ks) (p, h) =
    rw (==-differ k n (λ e. absurd (omega (arith, p, e)))) (below-absent n ks h)

AllBelow-suc : (n : ℕ) (ks : List ℕ) → AllBelow n ks → AllBelow (n + 1) ks
AllBelow-suc n [] h = tt
AllBelow-suc n (k ∷ ks) (p, h) = (omega (arith, p), AllBelow-suc n ks h)

no_left : (a b : Bool) → (a || b) ≡ false → (a ≡ false) × (b ≡ false)
no_left false b h = (refl, h)
no_left true b h = cc (h)

-- A new key comes last.
keys-insert_new :
    (m : Map Op) (k : ℕ) (op : Op)
    → contains (keys m) k ≡ false
    → keys (insert m k op) ≡ keys m ++ (k ∷ [])
keys-insert_new [] k op h = refl
keys-insert_new ((j, o) ∷ m) k op h =
    let (other, rest) = no_left (j == k) (contains (keys m) k) h in
    rw other (ap (λ l. j ∷ l) (keys-insert_new m k op rest))

contains-snoc_other :
    (ks : List ℕ) (k x : ℕ)
    → contains ks x ≡ false
    → (k == x) ≡ false
    → contains (ks ++ (k ∷ [])) x ≡ false
contains-snoc_other [] k x h e = rw e refl
contains-snoc_other (j ∷ ks) k x h e =
    let (other, rest) = no_left (j == x) (contains ks x) h in
    rw other (contains-snoc_other ks k x rest e)

IsMap-insert_new :
    (m : Map Op) (k : ℕ) (op : Op) → AllBelow k (keys m) → IsMap m → IsMap (insert m k op)
IsMap-insert_new [] k op b h = (refl, tt)
IsMap-insert_new ((j, o) ∷ m) k op (p, b) (new, h) =
    let other : (j == k) ≡ false = ==-differ j k (λ e. absurd (omega (arith, p, e))) in
    let flipped : (k == j) ≡ false = ==-differ k j (λ e. absurd (omega (arith, p, e))) in
    let grown = keys-insert_new m k op (below-absent k (keys m) b) in
    subst (λ t. IsMap (if t then (j, op) ∷ m else (j, o) ∷ insert m k op)) (sym other)
      (
        ap (λ l. contains l j) grown ∙ contains-snoc_other (keys m) k j new flipped,
        IsMap-insert_new m k op b h,
      )

-- While the u32 counter does not wrap, adding an op keeps a builder well formed and gives an id that no
-- op of it has: the keys of its ops are the ids of its order, each once and below the next id.
pub add_op-IsBuilt :
    (b : FunctionBuilder) (op : Op)
    → b.next_op + 1 < 2 ^ 32
    → IsBuilt b
    → IsBuilt ((add_op b op).1) × (contains (keys b.f.ops) ((add_op b op).0) ≡ false)
unfolding add_op
add_op-IsBuilt b op small i =
    let keys_below : AllBelow b.next_op (keys b.f.ops) =
      subst (AllBelow b.next_op) (sym i.in_order) i.below in
    let no_wrap : next_id b.next_op ≡ b.next_op + 1 = omega (arith, small) in
    let new = below-absent b.next_op (keys b.f.ops) keys_below in
    (
      record {
        in_order =
            keys-insert_new b.f.ops b.next_op op new ∙ ap (λ l. l ++ (b.next_op ∷ [])) i.in_order;
        below =
            subst (λ n. AllBelow n (b.f.order ++ (b.next_op ∷ []))) (sym no_wrap)
              (All-append (λ k. k < b.next_op + 1) b.f.order (b.next_op ∷ [])
                (AllBelow-suc b.next_op b.f.order i.below) (omega arith, tt));
        one_each = IsMap-insert_new b.f.ops b.next_op op keys_below i.one_each;
      },
      new,
    )
