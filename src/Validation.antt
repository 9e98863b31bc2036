-- ===== src/Validation.antt =====
-- The checks of a document: src/validation/validation.service.ts.
pub mod Isc
pub mod Lines
use ecf_api.Prelude.{
  ℕ, ◌+◌, ◌-◌, ◌*◌, Bool, true, false, ◌&&◌, ◌||◌, not, List, [], ◌∷◌, Option, none, some, ltb, leb,
  ◌==◌, length, includes, if◌then◌else◌,
}
use ecf_api.Prelude.Text.{Text, codes, text_eq, is_digit, all_digits}
use ecf_api.Prelude.Numbers.{Numbers}
use ecf_api.Prelude.Results.{Result, ok, err, and_then}
use ecf_api.Prelude.Rows.{find_first}
use ecf_api.Types.{Time, EcfType, e31, e32, e33, e34, e41, e43, e44, e45, e46, e47}
use ecf_api.Encf.{
  type_code, requires_buyer_rnc, requires_reference, is_valid_ncf_modificado, is_valid_encf,
  is_sequence_expired, is_isc_especifico_alcohol, is_isc_advalorem_alcohol,
  is_isc_especifico_cigarrillo, is_isc_advalorem_cigarrillo,
}
use ecf_api.Sequences.{ecf_type_prefix}
use ecf_api.Amounts.{ItemInput, or_else, or_default, round2}

-- The fields of an item that the checks read, beside those of its amounts.
pub record TaxedItem (D : Type 0) : Type 0 where
  pub description : Text
  pub amounts : ItemInput D
  pub additional_tax_code : Option Text
  pub additional_tax_rate : Option D
  pub alcohol_degrees : Option D
  pub reference_quantity : Option D
  pub sub_quantity : Option D
  pub reference_unit_price : Option D
  pub unit_measure_code : Option ℕ

pub record ReferenceInput : Type 0 where
  pub encf : Text
  pub modification_code : ℕ
  pub date : Text

-- `InvoiceInput`, as far as the checks read it. A buyer and a payment are there, as their types say.
pub record InvoiceInput (D : Type 0) : Type 0 where
  pub ecf_type : Text
  pub company_id : Text
  pub buyer_rnc : Option Text
  pub items : List (TaxedItem D)
  pub payment_type : D
  pub reference : Option ReferenceInput
  pub fecha_emision : Option Text

-- The exceptions; those of an item name its line.
pub data LineError : Type 0 where
  without_description quantity_not_positive price_negative itbis_rate_unknown : LineError
  without_degrees without_reference_quantity without_sub_quantity without_reference_price :
      LineError

pub data ValidationError : Type 0 where
  unknown_type without_company without_buyer_rnc rnc_malformed without_items too_many_items :
      ValidationError
  bad_line : ℕ → LineError → ValidationError
  without_payment unknown_payment without_reference ncf_malformed unknown_modification :
      ValidationError
  without_reference_date date_malformed sequence_expired encf_malformed totals_differ :
      ValidationError

abbrev pub check : {E : Type 0} → Bool → E → Result E (Unit {0})
check true e = ok tt
check false e = err e

-- A text that is given and not empty.
abbrev pub is_given : Option Text → Bool
is_given (some (_ ∷ _)) = true
is_given _ = false

-- `ECF_TYPE_CODES[ecfType]`
abbrev pub ecf_types : List EcfType
ecf_types = e31 ∷ e32 ∷ e33 ∷ e34 ∷ e41 ∷ e43 ∷ e44 ∷ e45 ∷ e46 ∷ e47 ∷ []

unfoldable pub get_type_code : Text → Result ValidationError ℕ
get_type_code name = elim (find_first (λ t. text_eq (ecf_type_prefix t) name) ecf_types) [
  | none ↦ err unknown_type
  | some t ↦ ok (type_code t)
]

-- The pattern of `validateFechaEmision`: `/^(3[01]|[12][0-9]|0?[1-9])-(1[0-2]|0?[1-9])-((19|20)\d{2})$/`.
abbrev pub is_nonzero_digit : ℕ → Bool
is_nonzero_digit c = is_digit c && not (c == b'0')

abbrev pub is_day : Text → Bool
is_day (c ∷ []) = is_nonzero_digit c
is_day (a ∷ b ∷ []) =
    (a == b'3' && (b == b'0' || b == b'1'))
    || ((a == b'1' || a == b'2') && is_digit b)
    || (a == b'0' && is_nonzero_digit b)
is_day _ = false

abbrev pub is_month : Text → Bool
is_month (c ∷ []) = is_nonzero_digit c
is_month (a ∷ b ∷ []) = (a == b'1' && leb b'0' b && leb b b'2') || (a == b'0' && is_nonzero_digit b)
is_month _ = false

abbrev pub is_year : Text → Bool
is_year (a ∷ b ∷ c ∷ d ∷ []) =
    ((a == b'1' && b == b'9') || (a == b'2' && b == b'0')) && is_digit c && is_digit d
is_year _ = false

-- The text before the first `-`, and the text after it.
unfoldable pub split_dash : Text → Text × Option Text
split_dash [] = ([], none)
split_dash (c ∷ s) =
    let (before, after) = split_dash s in if c == b'-' then ([], some s) else (c ∷ before, after)

unfoldable pub is_month_and_year : Text → Bool
is_month_and_year s =
    let (month, rest) = split_dash s in
    is_month month && elim rest [ none ↦ false | some year ↦ is_year year ]

unfoldable pub is_dgii_date : Text → Bool
is_dgii_date s =
    let (day, rest) = split_dash s in
    is_day day && elim rest [ none ↦ false | some t ↦ is_month_and_year t ]

unfoldable pub validate_fecha_emision : Option Text → Result ValidationError (Unit {0})
validate_fecha_emision (some (c ∷ s)) = check (is_dgii_date (c ∷ s)) date_malformed
validate_fecha_emision _ = ok tt

-- The white space of the language.
abbrev pub is_white_space : ℕ → Bool
is_white_space c =
    (leb 9 c && leb c 13)
    || includes c (32 ∷ 160 ∷ 5760 ∷ 8232 ∷ 8233 ∷ 8239 ∷ 8287 ∷ 12288 ∷ 65279 ∷ [])
    || (leb 8192 c && leb c 8202)

-- `replace(/[-\s]/g, '')`
abbrev pub strip : Text → Text
strip [] = []
strip (c ∷ s) = let rest = strip s in if c == b'-' || is_white_space c then rest else c ∷ rest

unfoldable pub validate_rnc_format : Text → Result ValidationError (Unit {0})
validate_rnc_format rnc =
    let clean = strip rnc in
    check (all_digits clean && (length clean == 9 || length clean == 11)) rnc_malformed

unfoldable pub validate_given_rnc : Option Text → Result ValidationError (Unit {0})
validate_given_rnc (some (c ∷ s)) = validate_rnc_format (c ∷ s)
validate_given_rnc _ = ok tt

unfoldable pub validate_buyer_rnc : Option Text → ℕ → Result ValidationError (Unit {0})
validate_buyer_rnc rnc code =
    and_then (check (not (includes code requires_buyer_rnc) || is_given rnc) without_buyer_rnc)
      (λ _. validate_given_rnc rnc)

-- `description.trim() === ''`, and also `!description`.
abbrev pub is_blank : Text → Bool
is_blank [] = true
is_blank (c ∷ s) = is_white_space c && is_blank s

unfoldable pub validate_given_reference : ReferenceInput → Result ValidationError (Unit {0})
validate_given_reference ref =
    and_then (check (is_valid_ncf_modificado ref.encf) ncf_malformed) (λ _.
      and_then
        (check (includes ref.modification_code (1 ∷ 2 ∷ 3 ∷ 4 ∷ 5 ∷ [])) unknown_modification)
        (λ _. check (not (text_eq ref.date [])) without_reference_date))

unfoldable pub validate_reference : Option ReferenceInput → ℕ → Result ValidationError (Unit {0})
validate_reference none code = check (not (includes code requires_reference)) without_reference
validate_reference (some ref) code = validate_given_reference ref

unfoldable pub validate_sequence_expiration : Time → Option Time → Result ValidationError (Unit {0})
validate_sequence_expiration now none = ok tt
validate_sequence_expiration now (some t) = check (not (is_sequence_expired now t)) sequence_expired

unfoldable pub validate_encf_format : Text → Result ValidationError (Unit {0})
validate_encf_format encf = check (is_valid_encf encf) encf_malformed

-- `canReturnItbisInNc`: at most 30 days of 24 hours.
unfoldable pub can_return_itbis_in_nc : Time → Time → Bool
can_return_itbis_in_nc now original = leb now (original + 30 * (1000 * 60 * 60 * 24))

module _ (n : Numbers) where
  open n use {Double, of_nat, add, sub, mul, magnitude, eq, lt, le, truthy}

  -- `!x || x <= 0`
  abbrev pub is_missing : Option Double → Bool
  is_missing none = true
  is_missing (some x) = not (truthy x) || le x (of_nat 0)

  unfoldable pub validate_isc_fields : TaxedItem Double → Text → Result LineError (Unit {0})
  validate_isc_fields item code =
      let alcohol = is_isc_especifico_alcohol code in
      let advalorem = is_isc_advalorem_alcohol code || is_isc_advalorem_cigarrillo code in
      and_then (check (not (alcohol && is_missing item.alcohol_degrees)) without_degrees) (λ _.
        and_then
          (check (not (alcohol && is_missing item.reference_quantity)) without_reference_quantity)
          (λ _.
            and_then (check (not (alcohol && is_missing item.sub_quantity)) without_sub_quantity)
              (λ _.
                and_then
                  (check (not (advalorem && is_missing item.reference_unit_price))
                    without_reference_price)
                  (λ _.
                    check
                      (not
                        (is_isc_especifico_cigarrillo code && is_missing item.reference_quantity))
                      without_reference_quantity))))

  unfoldable pub validate_additional_tax :
      TaxedItem Double → Option Text → Result LineError (Unit {0})
  validate_additional_tax item (some (c ∷ s)) = validate_isc_fields item (c ∷ s)
  validate_additional_tax item _ = ok tt

  -- `[18, 16, 0].includes(rate)`
  abbrev pub is_itbis_rate : Double → Bool
  is_itbis_rate rate = eq rate (of_nat 18) || eq rate (of_nat 16) || eq rate (of_nat 0)

  unfoldable pub validate_item : TaxedItem Double → Result LineError (Unit {0})
  validate_item item = and_then (check (not (is_blank item.description)) without_description) (λ _.
      and_then (check (not (le item.amounts.quantity (of_nat 0))) quantity_not_positive) (λ _.
        and_then (check (not (lt item.amounts.unit_price (of_nat 0))) price_negative) (λ _.
          and_then
            (check (is_itbis_rate (or_default n item.amounts.itbis_rate (of_nat 18)))
              itbis_rate_unknown)
            (λ _. validate_additional_tax item item.additional_tax_code))))

  -- The loop over the items; `line` is the number of the first.
  unfoldable pub validate_lines : ℕ → List (TaxedItem Double) → Result ValidationError (Unit {0})
  validate_lines line [] = ok tt
  validate_lines line (item ∷ items) =
      let rest = validate_lines (line + 1) items in
      elim (validate_item item) [ ok _ ↦ rest | err e ↦ err (bad_line line e) ]

  -- `quantity * unitPrice - (discount || 0) + (surcharge || 0)`
  abbrev pub net_amount : ItemInput Double → Double
  net_amount item =
      add (sub (mul item.quantity item.unit_price) (or_else n item.discount (of_nat 0)))
        (or_else n item.surcharge (of_nat 0))

  unfoldable pub estimate_from : Double → List (TaxedItem Double) → Double
  estimate_from sum [] = sum
  estimate_from sum (item ∷ items) = estimate_from (add sum (net_amount item.amounts)) items

  -- `estimateTotal`
  unfoldable pub estimate_total : List (TaxedItem Double) → Double
  estimate_total items = estimate_from (of_nat 0) items

  unfoldable pub max_items : List (TaxedItem Double) → ℕ → ℕ
  max_items items code =
      if (code == 32 && lt (estimate_total items) (of_nat 250000)) || code == 33 || code == 34
      then 10000
      else 1000

  unfoldable pub validate_items : List (TaxedItem Double) → ℕ → Result ValidationError (Unit {0})
  validate_items [] code = err without_items
  validate_items (item ∷ items) code =
      and_then (check (leb (length (item ∷ items)) (max_items (item ∷ items) code)) too_many_items)
        (λ _. validate_lines 1 (item ∷ items))

  unfoldable pub validate_payment : Double → Result ValidationError (Unit {0})
  validate_payment type =
      and_then (check (truthy type) without_payment)
        (λ _. check (not (lt type (of_nat 1) || lt (of_nat 3) type)) unknown_payment)

  -- `validateInvoiceInput`
  unfoldable pub validate_invoice_input :
      Time → InvoiceInput Double → Option Time → Result ValidationError (Unit {0})
  validate_invoice_input now input sequence_expiration =
      and_then (get_type_code input.ecf_type) (λ code.
        and_then (check (not (text_eq input.company_id [])) without_company) (λ _.
          and_then (validate_buyer_rnc input.buyer_rnc code) (λ _.
            and_then (validate_items input.items code) (λ _.
              and_then (validate_payment input.payment_type) (λ _.
                and_then (validate_reference input.reference code) (λ _.
                  and_then (validate_fecha_emision input.fecha_emision)
                    (λ _. validate_sequence_expiration now sequence_expiration)))))))

  -- The sum of `validateCuadratura`, before it is rounded.
  unfoldable pub sum_lines : Double → List (TaxedItem Double) → Double
  sum_lines sum [] = sum
  sum_lines sum (item ∷ items) = sum_lines (add sum (round2 n (net_amount item.amounts))) items

  -- `validateCuadratura`: whether it warns.
  unfoldable pub validate_cuadratura :
      List (TaxedItem Double) → Double → Result ValidationError Bool
  validate_cuadratura items subtotal_before_tax =
      let diff = magnitude (sub (round2 n (sum_lines (of_nat 0) items)) subtotal_before_tax) in
      if lt (of_nat (length items)) diff then err totals_differ else ok (lt (of_nat 0) diff)
