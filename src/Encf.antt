-- ===== src/Encf.antt =====
-- The electronic tax numbers (eNCF) and code tables of src/xml-builder/ecf-types.ts.
-- An eNCF is `E`, two digits of the type and ten digits of the sequence.
pub mod Format
pub mod Codes
use ecf_api.Prelude.{
  ℕ, ◌-◌, Bool, true, false, ◌&&◌, ◌||◌, not, List, [], ◌∷◌, ◌++◌, map, Option, none, some, ◌==◌,
  ltb, leb, if◌then◌else◌, length, take, drop, includes,
}
use ecf_api.Prelude.Int.{ℤ, pos, negsuc}
use ecf_api.Prelude.Text.{Text, codes, starts_with, all_digits, to_string, pad_start, parse_int}
use ecf_api.Types.{
  EcfType, e31, e32, e33, e34, e41, e43, e44, e45, e46, e47, DgiiEnv, dev, cert, prod, Time,
}

-- `ECF_TYPE_CODES`
abbrev pub type_code : EcfType → ℕ
type_code e31 = 31
type_code e32 = 32
type_code e33 = 33
type_code e34 = 34
type_code e41 = 41
type_code e43 = 43
type_code e44 = 44
type_code e45 = 45
type_code e46 = 46
type_code e47 = 47

-- `validTypes` in `isValidEncf`
abbrev pub valid_types : List ℕ
valid_types = 31 ∷ 32 ∷ 33 ∷ 34 ∷ 41 ∷ 43 ∷ 44 ∷ 45 ∷ 46 ∷ 47 ∷ []

-- `substring(from, to)`; past the end of the text it stops there.
abbrev pub substring : Text → ℕ → ℕ → Text
substring s from to = take (to - from) (drop from s)

-- A test on a `parseInt` that is false at NaN and below zero.
abbrev pub number_test : Option ℤ → (ℕ → Bool) → Bool
number_test (some (pos n)) test = test n
number_test (some (negsuc _)) _ = false
number_test none _ = false

-- `formatEncf`
unfoldable pub format_encf : ℕ → ℕ → Text
format_encf type_code sequence_number =
    codes "E" ++ (to_string type_code ++ pad_start 10 b'0' (to_string sequence_number))

-- `getTypeFromEncf`; `none` is NaN.
unfoldable pub get_type_from_encf : Text → Option ℤ
get_type_from_encf encf = parse_int (substring encf 1 3)

-- `isValidEncf`
unfoldable pub is_valid_encf : Text → Bool
is_valid_encf encf =
    let seq = drop 3 encf in
    if not (length encf == 13)
    then false
    else if not (starts_with (codes "E") encf)
    then false
    else if not (number_test (parse_int (substring encf 1 3)) (λ code. includes code valid_types))
    then false
    else (length seq == 10 && all_digits seq) && number_test (parse_int seq) (λ n. ltb 0 n)

-- `isSequenceExpired` at the time `now`
unfoldable pub is_sequence_expired : Time → Time → Bool
is_sequence_expired now expiration_date = ltb expiration_date now

-- `isValidNcfModificado`
unfoldable pub is_valid_ncf_modificado : Text → Bool
is_valid_ncf_modificado [] = false
is_valid_ncf_modificado (c ∷ s) =
    let ncf = c ∷ s in
    if starts_with (codes "E") ncf && length ncf == 13
    then true
    else if starts_with (codes "B") ncf && length ncf == 11
    then true
    else if (starts_with (codes "A") ncf || starts_with (codes "P") ncf) && length ncf == 19
    then true
    else false

-- A tax code in an interval: what each `isIsc…` function tests.
abbrev pub code_between : ℕ → ℕ → Text → Bool
code_between low high code = number_test (parse_int code) (λ num. leb low num && leb num high)

unfoldable pub is_isc_especifico_alcohol : Text → Bool
is_isc_especifico_alcohol = code_between 6 18

unfoldable pub is_isc_advalorem_alcohol : Text → Bool
is_isc_advalorem_alcohol = code_between 23 35

unfoldable pub is_isc_especifico_cigarrillo : Text → Bool
is_isc_especifico_cigarrillo = code_between 19 22

unfoldable pub is_isc_advalorem_cigarrillo : Text → Bool
is_isc_advalorem_cigarrillo = code_between 36 39

unfoldable pub is_otros_impuestos : Text → Bool
is_otros_impuestos = code_between 1 5

-- `REQUIRES_BUYER_RNC`
abbrev pub requires_buyer_rnc : List ℕ
requires_buyer_rnc = 31 ∷ 41 ∷ 45 ∷ []

-- `REQUIRES_REFERENCE`
abbrev pub requires_reference : List ℕ
requires_reference = 33 ∷ 34 ∷ []

-- `DGII_ENDPOINTS[env].ambiente`
unfoldable pub get_ambiente : DgiiEnv → Text
get_ambiente dev = codes "testecf"
get_ambiente cert = codes "certecf"
get_ambiente prod = codes "ecf"
