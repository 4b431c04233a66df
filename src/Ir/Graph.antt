-- ===== src/Ir/Graph.antt =====
-- crates/slugarch-ir/src/graph.rs and module.rs: edges, functions and their builder. The maps of a
-- function are association lists, and `OpId`, `TokenId` are ℕ.
use Prim.Native.String.{String}
use slug_arch.Base.{ℕ, ◌+◌, ◌%◌, ◌^◌, List, [], ◌∷◌, ◌++◌, Map, insert, ◌==◌, if◌then◌else◌}
use slug_arch.Ir.Ops.{Op, OpMeta, default_meta}
pub mod Builder

pub data Edge : Type 0 where
  data_edge token_edge : ℕ → ℕ → Edge

abbrev pub src : Edge → ℕ
src (data_edge s _) = s
src (token_edge s _) = s

abbrev pub dst : Edge → ℕ
dst (data_edge _ d) = d
dst (token_edge _ d) = d

pub record Function : Type 0 where
  pub name : String
  pub ops : Map Op
  pub meta : Map OpMeta
  pub edges : List Edge
  pub order : List ℕ

-- `Function::new`
abbrev pub new_function : String → Function
new_function n = record { name = n; ops = []; meta = []; edges = []; order = [] }

-- `Function::successors`, over the edges.
abbrev pub successors : List Edge → ℕ → List ℕ
successors [] id = []
successors (e ∷ es) id = let rest = successors es id in if src e == id then dst e ∷ rest else rest

-- `Function::predecessors`, over the edges.
abbrev pub predecessors : List Edge → ℕ → List ℕ
predecessors [] id = []
predecessors (e ∷ es) id =
    let rest = predecessors es id in if dst e == id then src e ∷ rest else rest

-- `FunctionBuilder` with the `next_op` of its `Context`.
pub record FunctionBuilder : Type 0 where
  pub next_op : ℕ
  pub f : Function

abbrev pub new_builder : ℕ → String → FunctionBuilder
new_builder next n = record { next_op = next; f = new_function n }

-- `Context::fresh_op` counts on a `u32`; the id is the count before.
abbrev pub next_id : ℕ → ℕ
next_id id = (id + 1) % 2 ^ 32

unfoldable pub add_op : FunctionBuilder → Op → ℕ × FunctionBuilder
add_op b op = (
  b.next_op,
  record {
    next_op = next_id b.next_op;
    f = record b.f {
      ops = insert b.f.ops b.next_op op;
      meta = insert b.f.meta b.next_op default_meta;
      order = b.f.order ++ (b.next_op ∷ []);
    };
  },
)

unfoldable pub add_edge : FunctionBuilder → Edge → FunctionBuilder
add_edge b e = record b { f = record b.f { edges = b.f.edges ++ (e ∷ []) } }

unfoldable pub finish_meta : FunctionBuilder → ℕ → OpMeta → FunctionBuilder
finish_meta b id m = record b { f = record b.f { meta = insert b.f.meta id m } }

-- `Module`; the symbols are texts.
pub record Module : Type 0 where
  pub functions : List Function
  pub symbols : List (String × String)

-- `Module::default`
abbrev pub default_module : Module
default_module = record { functions = []; symbols = [] }
