-- ===== src/Rnc.antt =====
-- The identification numbers of src/common/services/rnc-validation.service.ts: the format of an RNC (9
-- digits) or a cédula (11 digits), and their check digits.
pub mod Detection
use ecf_api.Prelude.{
  ℕ, zero, suc, ◌+◌, ◌-◌, ◌*◌, ◌%◌, Bool, true, false, ◌&&◌, ◌||◌, not, List, [], ◌∷◌, Option, none,
  some, ltb, ◌==◌, if◌then◌else◌, length, get_elem?,
}
use ecf_api.Prelude.Text.{Text, is_digit, all_digits}

-- `digits[i]`, the value of a digit.
abbrev pub digit : ℕ → ℕ
digit c = c - 48

-- `replace(/[^0-9]/g, '')`
abbrev pub only_digits : Text → Text
only_digits [] = []
only_digits (c ∷ s) = let rest = only_digits s in if is_digit c then c ∷ rest else rest

-- `clean`; `none` is its exception.
unfoldable pub clean : Text → Option Text
clean rnc =
    let cleaned = only_digits rnc in
    if not (length cleaned == 9) && not (length cleaned == 11) then none else some cleaned

-- The loop of `validateRncCheckDigit`, over the weights.
unfoldable pub weighted_sum : List ℕ → Text → ℕ
weighted_sum [] s = 0
weighted_sum (w ∷ ws) [] = 0
weighted_sum (w ∷ ws) (c ∷ s) = digit c * w + weighted_sum ws s

unfoldable pub rnc_expected : ℕ → ℕ
rnc_expected r = if r == 0 then 2 else if r == 1 then 1 else 11 - r

-- Whether the character at `i` is the digit `n`.
abbrev pub digit_is : Text → ℕ → ℕ → Bool
digit_is s i n = elim (get_elem? s i) [ none ↦ false | some c ↦ digit c == n ]

unfoldable pub validate_rnc_check_digit : Text → Bool
validate_rnc_check_digit rnc =
    length rnc == 9
    && all_digits rnc
    && digit_is rnc 8 (rnc_expected (weighted_sum (7 ∷ 9 ∷ 8 ∷ 6 ∷ 5 ∷ 4 ∷ 3 ∷ 2 ∷ []) rnc % 11))

-- One step of the loop of `validateCedulaCheckDigit`: every second digit counts double.
unfoldable pub luhn_value : Bool → ℕ → ℕ
luhn_value doubled d =
    let val = d * (if doubled then 2 else 1) in if ltb 9 val then val - 9 else val

unfoldable pub luhn_sum : ℕ → Bool → Text → ℕ
luhn_sum zero doubled s = 0
luhn_sum (suc n) doubled [] = 0
luhn_sum (suc n) doubled (c ∷ s) = luhn_value doubled (digit c) + luhn_sum n (not doubled) s

unfoldable pub validate_cedula_check_digit : Text → Bool
validate_cedula_check_digit cedula =
    length cedula == 11
    && all_digits cedula
    && digit_is cedula 10 ((10 - luhn_sum 10 false cedula % 10) % 10)

-- What `validateFormat` returns: valid, without and with a warning. A text of another length has
-- already been refused by `clean`, which is `none`.
pub data FormatAnswer : Type 0 where
  valid rnc_warning cedula_warning wrong_length : FormatAnswer

unfoldable pub validate_cleaned : Text → FormatAnswer
validate_cleaned cleaned =
    if length cleaned == 9
    then (if validate_rnc_check_digit cleaned then valid else rnc_warning)
    else if length cleaned == 11
    then (if validate_cedula_check_digit cleaned then valid else cedula_warning)
    else wrong_length

unfoldable pub validate_format : Text → Option FormatAnswer
validate_format rnc = elim (clean rnc) [
  | none ↦ none
  | some cleaned ↦ some (validate_cleaned cleaned)
]
