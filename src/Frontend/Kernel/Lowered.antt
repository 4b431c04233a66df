-- ===== src/Frontend/Kernel/Lowered.antt =====
-- What lib.rs of crates/slugarch-ptx-frontend makes of a PTX module, in closed form.
use Prim.Native.String.{String}
use slug_arch.Base.{ℕ, suc, ◌+◌, ◌^◌, ◌<◌, ◌≡◌, refl, sym, ap, ◌∙◌, arith}
use slug_arch.Base.{
  Option, none, some, List, [], ◌∷◌, ◌++◌, append_assoc, append-nil, length, Map, Result, ok,
}
use slug_arch.Ir.Ops.{Op, OpMeta}
use slug_arch.Ir.Graph.{Function, FunctionBuilder, new_builder}
use slug_arch.Frontend.Ast.{Instruction, Directive, EntryView, extract_entry}
use slug_arch.Frontend.Lower.{FrontendError, lowerers}
use slug_arch.Frontend.Lower.Order.{first_op}
use slug_arch.Frontend.Kernel.{
  hint_of, lower_body, lower_entry, lower_found, lower_directives, lower_to_slugir,
}
use slug_arch.Frontend.Kernel.Entries.{
  BelowNext, Below-snoc, appended, op_or_unknown, hint_if_known, lower_instruction-appended,
}

-- The ids from one on, a number for each instruction.
abbrev pub ids_from : {Data : Type 0} → ℕ → List (Instruction Data) → List ℕ
ids_from n [] = []
ids_from n (inst ∷ insts) = n ∷ ids_from (n + 1) insts

abbrev pub entries_of : {Data : Type 0} → List (Directive Data) → List (EntryView Data)
entries_of [] = []
entries_of (d ∷ ds) = elim (extract_entry d) [ none ↦ entries_of ds | some e ↦ e ∷ entries_of ds ]

-- The number of the instructions of some entries.
abbrev pub entries_count : {Data : Type 0} → List (EntryView Data) → ℕ
entries_count [] = 0
entries_count (e ∷ es) = length e.instructions + entries_count es

module _ {Data : Type 0} (debug : Data → String) where
  -- The op of an instruction: that of the lowerer that knows it, or 255.
  abbrev pub op_of : Instruction Data → Op
  op_of inst = op_or_unknown (first_op debug lowerers inst)

  abbrev pub meta_of : Instruction Data → String → OpMeta
  meta_of inst = hint_if_known (first_op debug lowerers inst)

  abbrev pub op_entries : ℕ → List (Instruction Data) → Map Op
  op_entries n [] = []
  op_entries n (inst ∷ insts) = (n, op_of inst) ∷ op_entries (n + 1) insts

  abbrev pub meta_entries : String → ℕ → ℕ → List (Instruction Data) → Map OpMeta
  meta_entries name idx n [] = []
  meta_entries name idx n (inst ∷ insts) =
      (n, meta_of inst (hint_of name idx)) ∷ meta_entries name (suc idx) (n + 1) insts

  abbrev filled : String → ℕ → List (Instruction Data) → FunctionBuilder → FunctionBuilder
  filled name idx insts b = record {
    next_op = b.next_op + length insts;
    f = record b.f {
      ops = b.f.ops ++ op_entries b.next_op insts;
      meta = b.f.meta ++ meta_entries name idx b.next_op insts;
      order = b.f.order ++ ids_from b.next_op insts;
    };
  }

  -- Two builders alike in their parts.
  same_builder :
      (next : ℕ) (f : Function) {n m : ℕ} {ops ops' : Map Op} {meta meta' : Map OpMeta}
      {order order' : List ℕ}
      → n ≡ m
      → ops ≡ ops'
      → meta ≡ meta'
      → order ≡ order'
      → ◌≡◌ {A = FunctionBuilder}
          (record { next_op = n; f = record f { ops = ops; meta = meta; order = order } })
          (record { next_op = m; f = record f { ops = ops'; meta = meta'; order = order' } })
  same_builder next f p q r s = cc (p, q, r, s)

  lower_body-filled :
      (name : String) (idx : ℕ) (insts : List (Instruction Data)) (b : FunctionBuilder)
      → BelowNext b
      → b.next_op + length insts < 2 ^ 32
      → lower_body debug name idx insts b ≡ ok (filled name idx insts b)
  unfolding lower_body
  lower_body-filled name idx [] b h small = ap ok (
      same_builder b.next_op b.f (omega arith) (sym (append-nil b.f.ops))
        (sym (append-nil b.f.meta)) (sym (append-nil b.f.order)))
  lower_body-filled name idx (inst ∷ insts) b (p, q) small =
      let hint = hint_of name idx in
      let n = b.next_op in
      let next = appended b (op_of inst) (meta_of inst hint) in
      rw (lower_instruction-appended debug inst b hint (p, q) (omega (arith, small))) (
        lower_body-filled name (suc idx) insts next
          (Below-snoc b.f.ops n (op_of inst) p, Below-snoc b.f.meta n (meta_of inst hint) q)
          (omega (arith, small))
        ∙ ap ok (
            same_builder n b.f (omega arith)
              (append_assoc b.f.ops ((n, op_of inst) ∷ []) (op_entries (n + 1) insts))
              (append_assoc b.f.meta ((n, meta_of inst hint) ∷ [])
                (meta_entries name (suc idx) (n + 1) insts))
              (append_assoc b.f.order (n ∷ []) (ids_from (n + 1) insts))))

  -- The function of an entry, from an id on.
  abbrev pub kernel_function : EntryView Data → ℕ → Function
  kernel_function entry n = record {
    name = entry.name;
    ops = op_entries n entry.instructions;
    meta = meta_entries entry.name 0 n entry.instructions;
    edges = [];
    order = ids_from n entry.instructions;
  }

  abbrev pub kernels : List (EntryView Data) → ℕ → List Function
  kernels [] n = []
  kernels (e ∷ es) n = kernel_function e n ∷ kernels es (n + length e.instructions)

  -- The first id that the entries leave.
  abbrev pub next_free : List (EntryView Data) → ℕ → ℕ
  next_free [] n = n
  next_free (e ∷ es) n = next_free es (n + length e.instructions)

  lower_entry-kernel :
      (e : EntryView Data) (n : ℕ)
      → n + length e.instructions < 2 ^ 32
      → lower_entry debug e n
        ≡ ok (record { next_op = n + length e.instructions; f = kernel_function e n })
  unfolding lower_entry
  lower_entry-kernel e n small =
      lower_body-filled e.name 0 e.instructions (new_builder n e.name) (tt, tt) small

  found :
      (o : Option (EntryView Data)) (es : List (EntryView Data))
      (rest : ℕ → Result FrontendError (List Function × ℕ))
      → ((n : ℕ) → n + entries_count es < 2 ^ 32 → rest n ≡ ok (kernels es n, next_free es n))
      → (n : ℕ) → n + entries_count (elim o [ none ↦ es | some e ↦ e ∷ es ]) < 2 ^ 32
      → lower_found debug o n rest
        ≡ ok (
          kernels (elim o [ none ↦ es | some e ↦ e ∷ es ]) n,
          next_free (elim o [ none ↦ es | some e ↦ e ∷ es ]) n,
        )
  found none es rest h n small = h n small
  found (some e) es rest h n small =
      rw
        (
          lower_entry-kernel e n (omega (arith, small)),
          h (n + length e.instructions) (omega (arith, small)),
        )
        refl

  lower_directives-kernels :
      (ds : List (Directive Data)) (n : ℕ)
      → n + entries_count (entries_of ds) < 2 ^ 32
      → lower_directives debug ds n ≡ ok (kernels (entries_of ds) n, next_free (entries_of ds) n)
  unfolding lower_directives
  lower_directives-kernels [] n small = refl
  lower_directives-kernels (d ∷ ds) n small =
      found (extract_entry d) (entries_of ds) (lower_directives debug ds)
        (lower_directives-kernels ds) n small

  -- From a next id with which the instructions of the entries stay below 2^32 ids, lowering a PTX module
  -- succeeds, with one function for each entry kernel, in order: it has an op and a
  -- hint for each instruction of the entry, under ids in a row that go on from one function to the next,
  -- and no edges. The op is that of the lowerer that knows the instruction, or 255, without a hint.
  pub lower_to_slugir-kernels :
      (ds : List (Directive Data)) (n : ℕ)
      → n + entries_count (entries_of ds) < 2 ^ 32
      → lower_to_slugir debug ds n
        ≡ ok (
          record { functions = kernels (entries_of ds) n; symbols = [] },
          next_free (entries_of ds) n,
        )
  unfolding lower_to_slugir
  lower_to_slugir-kernels ds n small = rw (lower_directives-kernels ds n small) refl
