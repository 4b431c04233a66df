-- ===== src/Fabric/Artifact.antt =====
-- `ReplayArtifact` of crates/slugarch-fabric/src/record.rs. The bytes of an artifact (bincode) are a
-- parameter, and so are the files.
use Prim.Native.String.{String}
use slug_arch.Base.{ℕ, ◌≡◌, Option, none, some, List, [], ◌∷◌, Map, insert}
use slug_arch.Ir.Types.{IpId}
use slug_arch.Ir.Ops.{OpMeta}
use slug_arch.Ir.Graph.{Function, Module}

pub record ReplayArtifact : Type 0 where
  pub slugir : Module
  pub backend_choices : Map IpId
  pub host_mem : List ℕ
  pub policy_name : String

-- The loop over the metadata of a function.
abbrev pub choices_of : Map OpMeta → Map IpId → Map IpId
choices_of [] acc = acc
choices_of ((id, m) ∷ meta) acc =
    choices_of meta (elim m.backend [ none ↦ acc | some bc ↦ insert acc id bc ])

abbrev pub all_choices : List Function → Map IpId → Map IpId
all_choices [] acc = acc
all_choices (f ∷ fs) acc = all_choices fs (choices_of f.meta acc)

-- `ReplayArtifact::from_module`
unfoldable pub from_module : Module → List ℕ → String → ReplayArtifact
from_module m mem policy = record {
  slugir = m;
  backend_choices = all_choices m.functions [];
  host_mem = mem;
  policy_name = policy;
}

-- The serialisation of artifacts to bytes, `to_bincode` and `from_bincode`: what is written can be read
-- back.
pub record Bincode : Type 1 where
  pub Bytes : Type 0
  pub serialize : ReplayArtifact → Bytes
  pub deserialize : Bytes → Option ReplayArtifact
  pub reads_back : (a : ReplayArtifact) → deserialize (serialize a) ≡ some a
