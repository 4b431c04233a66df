-- ===== src/Frontend/Ast.antt =====
-- The part of the AST of ptx_parser that crates/slugarch-ptx-frontend/src/lib.rs and lower/ match on. The
-- parser is vendored: the data of an instruction is a parameter, of which the code only reads the text
-- that `{:?}` prints, and the type of an mma result.
use Prim.Native.String.{String}
use slug_arch.Base.{List, [], ◌∷◌, ◌++◌, Option, none, some}

-- The element types that mma.rs tells apart.
pub data ScalarType : Type 0 where
  f16 bf16 f32 other_scalar : ScalarType

-- The variants that some lowerer matches on, and the others.
pub data Instruction (Data : Type 0) : Type 0 where
  add sub mul mad div rem fma min max abs cvt mov ld st : Data → Instruction Data
  not and or xor shl shr popc clz brev bfe bfi prmt shf : Instruction Data
  sqrt rsqrt sin cos tanh lg2 ex2 : Instruction Data
  mma : ScalarType → Instruction Data
  bra call ret bar bar_warp bar_red : Instruction Data
  other_inst : String → Instruction Data

-- `Statement` and `Vec<Statement>`; predicates, labels and variables are not read.
mutual
  pub data Statement (Data : Type 0) : Type 0 where
    label variable : Statement Data
    instruction : Instruction Data → Statement Data
    block : Statements Data → Statement Data

  pub data Statements (Data : Type 0) : Type 0 where
    nil : Statements Data
    cons : Statement Data → Statements Data → Statements Data

pub data MethodName : Type 0 where
  kernel func : String → MethodName

pub data Directive (Data : Type 0) : Type 0 where
  variable_directive : Directive Data
  method : MethodName → Option (Statements Data) → Directive Data

pub record EntryView (Data : Type 0) : Type 0 where
  pub name : String
  pub instructions : List (Instruction Data)

module _ {Data : Type 0} where
  -- The loop of `collect_instructions` pushes to `out`.
  unfoldable mutual
    pub collect_instructions : Statements Data → List (Instruction Data) → List (Instruction Data)
    collect_instructions Statements.nil out = out
    collect_instructions (Statements.cons stmt stmts) out =
        collect_instructions stmts (collect_statement stmt out)

    pub collect_statement : Statement Data → List (Instruction Data) → List (Instruction Data)
    collect_statement (Statement.instruction inst) out = out ++ (inst ∷ [])
    collect_statement (Statement.block inner) out = collect_instructions inner out
    collect_statement Statement.label out = out
    collect_statement Statement.variable out = out

  unfoldable pub extract_entry : Directive Data → Option (EntryView Data)
  unfolding collect_instructions
  extract_entry Directive.variable_directive = none
  extract_entry (Directive.method (MethodName.func _) body) = none
  extract_entry (Directive.method (MethodName.kernel n) none) = none
  extract_entry (Directive.method (MethodName.kernel n) (some body)) =
      some (record { name = n; instructions = collect_instructions body [] })
