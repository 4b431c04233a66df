-- ===== src/Frontend/Lower/Owner.antt =====
-- The lowerers of crates/slugarch-ptx-frontend/src/lower do not overlap, so that at most one of them makes an op
-- of an instruction.
use Prim.Native.String.{String}
use slug_arch.Base.{◌≡◌, refl, ◌⊎◌, inl, inr, none, some, List, [], ◌∷◌}
use slug_arch.Ir.Ops.{Op}
use slug_arch.Frontend.Ast.{Instruction}
use slug_arch.Frontend.Lower.{
  Lowerer, arith_lowerer, bit_ops_lowerer, transcendental_lowerer, ld_st_lowerer, mma_lowerer,
  control_lowerer, lowerers, lower_op, arith_lower, bit_ops_lower, transcendental_lower,
  ld_st_lower, mma_lower, control_lower,
}

abbrev pub Listed : Lowerer → List Lowerer → Type 0
Listed l [] = ⊥
Listed l (k ∷ ks) = (k ≡ l) ⊎ Listed l ks

-- Every lowerer is tried.
abbrev pub Covers : List Lowerer → Type 0
Covers ls = (l : Lowerer) → Listed l ls

-- A proof for each of the lowerers.
each :
    (P : Lowerer → Type 0)
    → P arith_lowerer
    → P bit_ops_lowerer
    → P transcendental_lowerer
    → P ld_st_lowerer
    → P mma_lowerer
    → P control_lowerer
    → (l : Lowerer) → P l
each P a b c d e f arith_lowerer = a
each P a b c d e f bit_ops_lowerer = b
each P a b c d e f transcendental_lowerer = c
each P a b c d e f ld_st_lowerer = d
each P a b c d e f mma_lowerer = e
each P a b c d e f control_lowerer = f

pub lowerers-Covers : Covers lowerers
lowerers-Covers =
    each (λ l. Listed l lowerers) (inl refl) (inr (inl refl)) (inr (inr (inl refl)))
      (inr (inr (inr (inl refl)))) (inr (inr (inr (inr (inl refl)))))
      (inr (inr (inr (inr (inr (inl refl))))))

module _ {Data : Type 0} (debug : Data → String) where
  -- A lowerer leaves an instruction alone, or is the one that makes an op of it.
  abbrev pub Alone : Instruction Data → Lowerer → Lowerer → Type 0
  Alone inst k l = (lower_op debug l inst ≡ none) ⊎ (l ≡ k)

  -- One lowerer makes an op of an instruction.
  abbrev pub IsOwned : Instruction Data → Type 0
  IsOwned inst =
      (k : Lowerer) × (op : Op) × (lower_op debug k inst ≡ some op)
      × ((l : Lowerer) → Alone inst k l)

  abbrev pub IsUnknown : Instruction Data → Type 0
  IsUnknown inst = (l : Lowerer) → lower_op debug l inst ≡ none

  abbrev Leaves : Lowerer → Instruction Data → Type 0
  Leaves l inst = lower_op debug l inst ≡ none

  arith-IsOwned :
      (inst : Instruction Data) (op : Op)
      → lower_op debug arith_lowerer inst ≡ some op
      → Leaves bit_ops_lowerer inst
      → Leaves transcendental_lowerer inst
      → Leaves ld_st_lowerer inst
      → Leaves mma_lowerer inst
      → Leaves control_lowerer inst
      → IsOwned inst
  arith-IsOwned inst op is n0 n1 n2 n3 n4 = (
    arith_lowerer,
    op,
    is,
    each (Alone inst arith_lowerer) (inr refl) (inl n0) (inl n1) (inl n2) (inl n3) (inl n4),
  )

  bit_ops-IsOwned :
      (inst : Instruction Data) (op : Op)
      → lower_op debug bit_ops_lowerer inst ≡ some op
      → Leaves arith_lowerer inst
      → Leaves transcendental_lowerer inst
      → Leaves ld_st_lowerer inst
      → Leaves mma_lowerer inst
      → Leaves control_lowerer inst
      → IsOwned inst
  bit_ops-IsOwned inst op is n0 n1 n2 n3 n4 = (
    bit_ops_lowerer,
    op,
    is,
    each (Alone inst bit_ops_lowerer) (inl n0) (inr refl) (inl n1) (inl n2) (inl n3) (inl n4),
  )

  transcendental-IsOwned :
      (inst : Instruction Data) (op : Op)
      → lower_op debug transcendental_lowerer inst ≡ some op
      → Leaves arith_lowerer inst
      → Leaves bit_ops_lowerer inst
      → Leaves ld_st_lowerer inst
      → Leaves mma_lowerer inst
      → Leaves control_lowerer inst
      → IsOwned inst
  transcendental-IsOwned inst op is n0 n1 n2 n3 n4 = (
    transcendental_lowerer,
    op,
    is,
    each (Alone inst transcendental_lowerer) (inl n0) (inl n1) (inr refl) (inl n2) (inl n3)
        (inl n4),
  )

  ld_st-IsOwned :
      (inst : Instruction Data) (op : Op)
      → lower_op debug ld_st_lowerer inst ≡ some op
      → Leaves arith_lowerer inst
      → Leaves bit_ops_lowerer inst
      → Leaves transcendental_lowerer inst
      → Leaves mma_lowerer inst
      → Leaves control_lowerer inst
      → IsOwned inst
  ld_st-IsOwned inst op is n0 n1 n2 n3 n4 = (
    ld_st_lowerer,
    op,
    is,
    each (Alone inst ld_st_lowerer) (inl n0) (inl n1) (inl n2) (inr refl) (inl n3) (inl n4),
  )

  mma-IsOwned :
      (inst : Instruction Data) (op : Op)
      → lower_op debug mma_lowerer inst ≡ some op
      → Leaves arith_lowerer inst
      → Leaves bit_ops_lowerer inst
      → Leaves transcendental_lowerer inst
      → Leaves ld_st_lowerer inst
      → Leaves control_lowerer inst
      → IsOwned inst
  mma-IsOwned inst op is n0 n1 n2 n3 n4 = (
    mma_lowerer,
    op,
    is,
    each (Alone inst mma_lowerer) (inl n0) (inl n1) (inl n2) (inl n3) (inr refl) (inl n4),
  )

  control-IsOwned :
      (inst : Instruction Data) (op : Op)
      → lower_op debug control_lowerer inst ≡ some op
      → Leaves arith_lowerer inst
      → Leaves bit_ops_lowerer inst
      → Leaves transcendental_lowerer inst
      → Leaves ld_st_lowerer inst
      → Leaves mma_lowerer inst
      → IsOwned inst
  control-IsOwned inst op is n0 n1 n2 n3 n4 = (
    control_lowerer,
    op,
    is,
    each (Alone inst control_lowerer) (inl n0) (inl n1) (inl n2) (inl n3) (inl n4) (inr refl),
  )

  pub one_owner : (inst : Instruction Data) → IsUnknown inst ⊎ IsOwned inst
  unfolding lower_op arith_lower bit_ops_lower transcendental_lower ld_st_lower mma_lower
      control_lower
  one_owner (Instruction.add d) = inr (arith-IsOwned _ _ refl refl refl refl refl refl)
  one_owner (Instruction.sub d) = inr (arith-IsOwned _ _ refl refl refl refl refl refl)
  one_owner (Instruction.mul d) = inr (arith-IsOwned _ _ refl refl refl refl refl refl)
  one_owner (Instruction.mad d) = inr (arith-IsOwned _ _ refl refl refl refl refl refl)
  one_owner (Instruction.div d) = inr (arith-IsOwned _ _ refl refl refl refl refl refl)
  one_owner (Instruction.rem d) = inr (arith-IsOwned _ _ refl refl refl refl refl refl)
  one_owner (Instruction.fma d) = inr (arith-IsOwned _ _ refl refl refl refl refl refl)
  one_owner (Instruction.min d) = inr (arith-IsOwned _ _ refl refl refl refl refl refl)
  one_owner (Instruction.max d) = inr (arith-IsOwned _ _ refl refl refl refl refl refl)
  one_owner (Instruction.abs d) = inr (arith-IsOwned _ _ refl refl refl refl refl refl)
  one_owner (Instruction.cvt d) = inr (arith-IsOwned _ _ refl refl refl refl refl refl)
  one_owner (Instruction.mov d) = inr (arith-IsOwned _ _ refl refl refl refl refl refl)
  one_owner Instruction.not = inr (bit_ops-IsOwned _ _ refl refl refl refl refl refl)
  one_owner Instruction.and = inr (bit_ops-IsOwned _ _ refl refl refl refl refl refl)
  one_owner Instruction.or = inr (bit_ops-IsOwned _ _ refl refl refl refl refl refl)
  one_owner Instruction.xor = inr (bit_ops-IsOwned _ _ refl refl refl refl refl refl)
  one_owner Instruction.shl = inr (bit_ops-IsOwned _ _ refl refl refl refl refl refl)
  one_owner Instruction.shr = inr (bit_ops-IsOwned _ _ refl refl refl refl refl refl)
  one_owner Instruction.popc = inr (bit_ops-IsOwned _ _ refl refl refl refl refl refl)
  one_owner Instruction.clz = inr (bit_ops-IsOwned _ _ refl refl refl refl refl refl)
  one_owner Instruction.brev = inr (bit_ops-IsOwned _ _ refl refl refl refl refl refl)
  one_owner Instruction.bfe = inr (bit_ops-IsOwned _ _ refl refl refl refl refl refl)
  one_owner Instruction.bfi = inr (bit_ops-IsOwned _ _ refl refl refl refl refl refl)
  one_owner Instruction.prmt = inr (bit_ops-IsOwned _ _ refl refl refl refl refl refl)
  one_owner Instruction.shf = inr (bit_ops-IsOwned _ _ refl refl refl refl refl refl)
  one_owner Instruction.sqrt = inr (transcendental-IsOwned _ _ refl refl refl refl refl refl)
  one_owner Instruction.rsqrt = inr (transcendental-IsOwned _ _ refl refl refl refl refl refl)
  one_owner Instruction.sin = inr (transcendental-IsOwned _ _ refl refl refl refl refl refl)
  one_owner Instruction.cos = inr (transcendental-IsOwned _ _ refl refl refl refl refl refl)
  one_owner Instruction.tanh = inr (transcendental-IsOwned _ _ refl refl refl refl refl refl)
  one_owner Instruction.lg2 = inr (transcendental-IsOwned _ _ refl refl refl refl refl refl)
  one_owner Instruction.ex2 = inr (transcendental-IsOwned _ _ refl refl refl refl refl refl)
  one_owner (Instruction.ld d) = inr (ld_st-IsOwned _ _ refl refl refl refl refl refl)
  one_owner (Instruction.st d) = inr (ld_st-IsOwned _ _ refl refl refl refl refl refl)
  one_owner (Instruction.mma t) = inr (mma-IsOwned _ _ refl refl refl refl refl refl)
  one_owner Instruction.bra = inr (control-IsOwned _ _ refl refl refl refl refl refl)
  one_owner Instruction.call = inr (control-IsOwned _ _ refl refl refl refl refl refl)
  one_owner Instruction.ret = inr (control-IsOwned _ _ refl refl refl refl refl refl)
  one_owner Instruction.bar = inr (control-IsOwned _ _ refl refl refl refl refl refl)
  one_owner Instruction.bar_warp = inr (control-IsOwned _ _ refl refl refl refl refl refl)
  one_owner Instruction.bar_red = inr (control-IsOwned _ _ refl refl refl refl refl refl)
  one_owner (Instruction.other_inst n) =
      inl (each (λ l. Leaves l (Instruction.other_inst n)) refl refl refl refl refl refl)
