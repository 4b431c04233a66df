-- ===== src/Ir/ValidateAgainstRtlmap/Names.antt =====
-- `parse_ip_id` of validate_against_rtlmap.rs against `catalog_name` of types.rs.
use Prim.Native.String.{String}
use text.Mathlib.Text.{◌==◌}
use text.Mathlib.TextEquality.{eq_iff}
use slug_arch.Base.{
  ◌≡◌, ◌≢◌, ◌↔◌, refl, sym, ap, ◌∙◌, Bool-cases, inl, inr, Option, none, some, List, [], ◌∷◌,
}
use slug_arch.Ir.Types.{
  IpId, catalog_name, all, systolic_array4x4, systolic_array16x16, systolic_array32x32,
  npu_array_v4_seed_g, npu_cluster_v4, noc_mesh, gemm_ip, ptx_emulation_core, slug_cxl4x4,
}
use slug_arch.Ir.ValidateAgainstRtlmap.{find_ip, parse_ip_id}

find_ip-name :
    (ips : List IpId) (name : String) (ip : IpId)
    → find_ip ips name ≡ some ip
    → catalog_name ip ≡ name
find_ip-name [] name ip h = cc (h)
find_ip-name (i ∷ ips) name ip h = elim (Bool-cases (catalog_name i == name)) [
  | inl e ↦
      let found : some i ≡ some ip = rw e at h in
      let same : i ≡ ip = cc (found) in ap catalog_name (sym same) ∙ (eq_iff _ _).0 e
  | inr e ↦ let rest : find_ip ips name ≡ some ip = rw e at h in find_ip-name ips name ip rest
]

parse-catalog_name : (ip : IpId) → ip ≢ slug_cxl4x4 → parse_ip_id (catalog_name ip) ≡ some ip
unfolding parse_ip_id catalog_name
parse-catalog_name systolic_array4x4 n = refl
parse-catalog_name systolic_array16x16 n = refl
parse-catalog_name systolic_array32x32 n = refl
parse-catalog_name npu_array_v4_seed_g n = refl
parse-catalog_name npu_cluster_v4 n = refl
parse-catalog_name noc_mesh n = refl
parse-catalog_name gemm_ip n = refl
parse-catalog_name ptx_emulation_core n = refl
parse-catalog_name slug_cxl4x4 n = absurd (n refl)

-- A name is read as an IP exactly when it is the catalog name of that IP and the IP is not the CXL wrapper.
pub parse_ip_id_iff :
    (name : String) (ip : IpId)
    → (parse_ip_id name ≡ some ip) ↔ ((catalog_name ip ≡ name) × (ip ≢ slug_cxl4x4))
unfolding parse_ip_id catalog_name
parse_ip_id_iff name ip = (
  λ h.
      let named : catalog_name ip ≡ name = find_ip-name all name ip h in
      (
        named,
        λ c.
            let found : parse_ip_id (catalog_name slug_cxl4x4) ≡ some ip =
              ap (λ i. parse_ip_id (catalog_name i)) (sym c) ∙ ap parse_ip_id named ∙ h in
            let bad : ◌≡◌ {A = Option IpId} none (some ip) = found in cc (bad),
      ),
  λ (named, other). ap parse_ip_id (sym named) ∙ parse-catalog_name ip other,
)
