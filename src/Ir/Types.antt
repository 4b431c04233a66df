-- ===== src/Ir/Types.antt =====
-- crates/slugarch-ir/src/types.rs: the identifiers of the backends.
use Prim.Native.String.{String}
use slug_arch.Base.{ℕ, Bool, true, false, List, [], ◌∷◌}

pub data IpId : Type 0 where
  systolic_array4x4 systolic_array16x16 systolic_array32x32 : IpId
  npu_array_v4_seed_g npu_cluster_v4 noc_mesh gemm_ip ptx_emulation_core slug_cxl4x4 : IpId

pub IpId-discrete : Discrete IpId
IpId-discrete = hlevel

-- The number of a variant, which the derived `==` compares.
abbrev pub discriminant : IpId → ℕ
discriminant systolic_array4x4 = 0
discriminant systolic_array16x16 = 1
discriminant systolic_array32x32 = 2
discriminant npu_array_v4_seed_g = 3
discriminant npu_cluster_v4 = 4
discriminant noc_mesh = 5
discriminant gemm_ip = 6
discriminant ptx_emulation_core = 7
discriminant slug_cxl4x4 = 8

-- `IpId::catalog_name`
unfoldable pub catalog_name : IpId → String
catalog_name systolic_array4x4 = "systolic_array_4x4"
catalog_name systolic_array16x16 = "systolic_array_16x16"
catalog_name systolic_array32x32 = "systolic_array_32x32"
catalog_name npu_array_v4_seed_g = "npu_array_v4_seed_g"
catalog_name npu_cluster_v4 = "npu_cluster_v4"
catalog_name noc_mesh = "noc_mesh"
catalog_name gemm_ip = "gemm_ip"
catalog_name ptx_emulation_core = "ptx_emulation_core"
catalog_name slug_cxl4x4 = "slugcxl_4x4"

-- `IpId::all`: the CXL wrapper is left out on purpose.
abbrev pub all : List IpId
all =
    systolic_array4x4 ∷ systolic_array16x16 ∷ systolic_array32x32 ∷ npu_array_v4_seed_g
    ∷ npu_cluster_v4 ∷ noc_mesh ∷ gemm_ip ∷ ptx_emulation_core ∷ []

unfoldable pub is_cpu_backed : IpId → Bool
is_cpu_backed ptx_emulation_core = true
is_cpu_backed _ = false
