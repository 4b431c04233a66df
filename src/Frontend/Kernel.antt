-- ===== src/Frontend/Kernel.antt =====
-- `lower_to_slugir` of crates/slugarch-ptx-frontend/src/lib.rs: a function for each `.entry` kernel. The
-- `Context` is its next id, which the builders of the functions move on.
use Prim.Native.String.{String, ◌++◌}
use slug_arch.Base.{ℕ, suc, Option, none, some, List, [], ◌∷◌, Result, ok, ◌>>=◌}
use slug_arch.Ir.Graph.{Function, FunctionBuilder, new_builder, Module}
use slug_arch.Frontend.Texts.{decimal}
use slug_arch.Frontend.Ast.{Instruction, Directive, EntryView, extract_entry}
use slug_arch.Frontend.Lower.{FrontendError, lowerers, lower_instruction}
pub mod Entries
pub mod Lowered

-- `format!("{}[{}]", entry.name, idx)`
abbrev pub hint_of : String → ℕ → String
hint_of name idx = name ++ "[" ++ decimal idx ++ "]"

module _ {Data : Type 0} (debug : Data → String) where
  -- The loop over the instructions, from index `idx` on.
  unfoldable pub lower_body :
      String → ℕ → List (Instruction Data) → FunctionBuilder → Result FrontendError FunctionBuilder
  lower_body name idx [] b = ok b
  lower_body name idx (inst ∷ insts) b = do
    b' ← lower_instruction debug lowerers inst b (hint_of name idx)
    lower_body name (suc idx) insts b'

  -- The body of the loop over the directives: the function of an entry, and the next id.
  unfoldable pub lower_entry : EntryView Data → ℕ → Result FrontendError FunctionBuilder
  lower_entry entry next = lower_body entry.name 0 entry.instructions (new_builder next entry.name)

  -- `if let Some(entry)`, before the rest of the loop.
  abbrev pub lower_found :
      Option (EntryView Data)
      → ℕ
      → (ℕ → Result FrontendError (List Function × ℕ))
      → Result FrontendError (List Function × ℕ)
  lower_found none next rest = rest next
  lower_found (some entry) next rest = do
    b ← lower_entry entry next
    (fs, last) ← rest b.next_op
    ok (b.f ∷ fs, last)

  unfoldable pub lower_directives :
      List (Directive Data) → ℕ → Result FrontendError (List Function × ℕ)
  lower_directives [] next = ok ([], next)
  lower_directives (d ∷ ds) next = lower_found (extract_entry d) next (lower_directives ds)

  unfoldable pub lower_to_slugir : List (Directive Data) → ℕ → Result FrontendError (Module × ℕ)
  lower_to_slugir ds next = do
    (fs, last) ← lower_directives ds next
    ok (record { functions = fs; symbols = [] }, last)
