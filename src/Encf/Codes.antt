-- ===== src/Encf/Codes.antt =====
-- The intervals of additional-tax codes, which src/xml-builder/ecf-types.ts tests one by one.
use ecf_api.Prelude.{ℕ, ◌+◌, ◌≡◌, Bool, true, false, ◌&&◌, some, arith, leb, if◌then◌else◌}
use ecf_api.Prelude.Int.{pos}
use ecf_api.Prelude.Text.{Text, parse_int}
use ecf_api.Encf.{
  is_isc_especifico_alcohol, is_isc_especifico_cigarrillo, is_isc_advalorem_alcohol,
  is_isc_advalorem_cigarrillo, is_otros_impuestos,
}

abbrev one_if : Bool → ℕ
one_if true = 1
one_if false = 0

-- How many of the five tests a code passes.
abbrev pub classes : Text → ℕ
classes code =
    one_if (is_otros_impuestos code)
    + one_if (is_isc_especifico_alcohol code)
    + one_if (is_isc_especifico_cigarrillo code)
    + one_if (is_isc_advalorem_alcohol code)
    + one_if (is_isc_advalorem_cigarrillo code)

-- A code that is read as a number passes exactly one of the five tests if the number is 1 to 39, and
-- none otherwise.
pub classes_exact :
    (code : Text) (n : ℕ)
    → parse_int code ≡ some (pos n)
    → classes code ≡ (if leb 1 n && leb n 39 then 1 else 0)
unfolding is_isc_especifico_alcohol is_isc_especifico_cigarrillo is_isc_advalorem_alcohol
    is_isc_advalorem_cigarrillo is_otros_impuestos
classes_exact code n e = ground arith
