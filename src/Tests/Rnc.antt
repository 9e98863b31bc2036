-- ===== src/Tests/Rnc.antt =====
-- Check digits of src/common/services/rnc-validation.service.ts at work.
use ecf_api.Prelude.{◌≡◌, refl, true, false, arith, some, set}
use ecf_api.Prelude.Text.{codes}
use ecf_api.Rnc.{
  valid, validate_format, validate_cleaned, clean, validate_rnc_check_digit, weighted_sum,
  rnc_expected, validate_cedula_check_digit, luhn_sum, luhn_value,
}
use ecf_api.Rnc.Detection.{validate_cedula-one_error}

cedula : validate_cedula_check_digit (codes "40212345678") ≡ true
unfolding validate_cedula_check_digit luhn_sum luhn_value
cedula = refl

dashed_cedula : validate_format (codes "402-1234567-8") ≡ some valid
unfolding validate_format validate_cleaned clean validate_cedula_check_digit luhn_sum luhn_value
dashed_cedula = refl

rnc : validate_rnc_check_digit (codes "101010632") ≡ true
unfolding validate_rnc_check_digit weighted_sum rnc_expected
rnc = refl

validate_cedula-one_error_example :
    validate_cedula_check_digit (set (codes "40212345678") 2 55) ≡ false
validate_cedula-one_error_example =
    validate_cedula-one_error (codes "40212345678") 2 50 55 cedula refl refl (λ e. omega (arith, e))
