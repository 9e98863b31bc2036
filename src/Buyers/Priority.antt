-- ===== src/Buyers/Priority.antt =====
-- Which document a buyer of src/buyers/ecf-type.resolver.ts gets.
use ecf_api.Prelude.{◌||◌, ◌≡◌, refl, inl, inr, Bool-cases, if◌then◌else◌}
use ecf_api.Prelude.Text.{Text}
use ecf_api.Types.{e31, e44, e45}
use ecf_api.Buyers.{
  TaxpayerInfo, gobierno_by_rnc, gobierno_by_name, regimen_especial_test, detection_rules,
  resolve_ecf_type,
}

-- A government body, by its number or its name, gets E45, whatever its category is; another buyer of a
-- special category gets E44, and the rest get E31.
pub resolve_ecf_type_lem :
    (normalize : Text → Text) (rnc : Text) (dgii : TaxpayerInfo)
    → (resolve_ecf_type normalize rnc dgii).ecf_type ≡ (
        if gobierno_by_rnc rnc dgii || gobierno_by_name normalize rnc dgii
        then e45
        else if regimen_especial_test normalize rnc dgii
        then e44
        else e31)
unfolding resolve_ecf_type detection_rules
resolve_ecf_type_lem normalize rnc dgii = elim (Bool-cases (gobierno_by_rnc rnc dgii)) [
  | inl a ↦ rw (a, resolve_ecf_type) refl
  | inr a ↦ elim (Bool-cases (gobierno_by_name normalize rnc dgii)) [
    | inl b ↦ rw (a, b, resolve_ecf_type) refl
    | inr b ↦ elim (Bool-cases (regimen_especial_test normalize rnc dgii)) [
      | inl c ↦ rw (a, b, c, resolve_ecf_type) refl
      | inr c ↦ rw (a, b, c, resolve_ecf_type) refl
    ]
  ]
]
