-- ===== src/Validation/Lines.antt =====
-- What the checks of the lines promise.
use ecf_api.Prelude.{
  ℕ, ◌+◌, ◌≡◌, ◌≤◌, refl, inl, inr, Bool, true, false, not, List, [], ◌∷◌, Option, none, arith,
  length, leb,
}
use ecf_api.Prelude.Numbers.{Numbers}
use ecf_api.Prelude.Results.{ok, err, and_then-ok, Result-cases}
use ecf_api.Prelude.Rows.{All}
use ecf_api.Prelude.Rows.Laws.{All-map}
use ecf_api.Prelude.Text.{text_eq}
use ecf_api.Types.{Time}
use ecf_api.Amounts.{or_default, resolve_indicador, effective_rate}
use ecf_api.Amounts.Itbis.{effective_rate_given}
use ecf_api.Validation.{
  TaxedItem, InvoiceInput, bad_line, check, get_type_code, validate_item, validate_lines,
  validate_items, validate_invoice_input, validate_buyer_rnc, without_company, without_description,
  quantity_not_positive, price_negative, itbis_rate_unknown, too_many_items, max_items,
  is_itbis_rate, is_blank,
}

check-ok : {E : Type 0} (b : Bool) (e : E) → check b e ≡ ok tt → b ≡ true
check-ok true e h = refl
check-ok false e h = cc

module _ (n : Numbers) where
  open n use {Double, of_nat, eq, lt, le}

  validate_lines-All :
      (line : ℕ) (items : List (TaxedItem Double))
      → validate_lines n line items ≡ ok tt
      → All (λ i. validate_item n i ≡ ok tt) items
  unfolding validate_lines
  validate_lines-All line [] h = tt
  validate_lines-All line (item ∷ items) h = elim (Result-cases (validate_item n item)) [
    | inr (why, bad) ↦
        let said : err (bad_line line why) ≡ ok tt = rw (bad, validate_lines) at h in cc said
    | inl (_, good) ↦
        let rest : validate_lines n (line + 1) items ≡ ok tt = rw (good, validate_lines) at h in
        (good, validate_lines-All (line + 1) items rest)
  ]

  -- The rate that a line declares, and a line that can be invoiced: some quantity at a price that is not
  -- negative, with a rate that the emitted document keeps.
  abbrev pub declared_rate : TaxedItem Double → Double
  declared_rate item = or_default n item.amounts.itbis_rate (of_nat 18)

  abbrev pub IsLine : TaxedItem Double → Type 0
  IsLine item =
      (is_blank item.description ≡ false)
      × (le item.amounts.quantity (of_nat 0) ≡ false)
      × (lt item.amounts.unit_price (of_nat 0) ≡ false)
      × (eq (declared_rate item)
            (effective_rate n (resolve_indicador n none (declared_rate item)) (declared_rate item))
          ≡ true)

  not-true : (b : Bool) → not b ≡ true → b ≡ false
  not-true b h = ground arith

  validate_item-IsLine : (item : TaxedItem Double) → validate_item n item ≡ ok tt → IsLine item
  unfolding validate_item
  validate_item-IsLine item h =
      let (_, described, h1) =
        and_then-ok (check (not (is_blank item.description)) without_description) _ tt h in
      let (_, some_units, h2) =
        and_then-ok (check (not (le item.amounts.quantity (of_nat 0))) quantity_not_positive) _ tt
          h1 in
      let (_, priced, h3) =
        and_then-ok (check (not (lt item.amounts.unit_price (of_nat 0))) price_negative) _ tt h2 in
      let (_, rated, _) =
        and_then-ok (check (is_itbis_rate n (declared_rate item)) itbis_rate_unknown) _ tt h3 in
      let legal = check-ok (is_itbis_rate n (declared_rate item)) itbis_rate_unknown rated in
      (
        not-true _ (check-ok _ without_description described),
        not-true _ (check-ok _ quantity_not_positive some_units),
        not-true _ (check-ok _ price_negative priced),
        effective_rate_given n (declared_rate item) (ground (arith, legal)),
      )

  validate_items-Lines :
      (items : List (TaxedItem Double)) (code : ℕ)
      → validate_items n items code ≡ ok tt
      → (1 ≤ length items) × (length items ≤ 10000) × All IsLine items
  unfolding validate_items max_items
  validate_items-Lines [] code h = cc
  validate_items-Lines (item ∷ items) code h =
      let xs = item ∷ items in
      let (_, short, checked) =
        and_then-ok (check (leb (length xs) (max_items n xs code)) too_many_items) _ tt h in
      let few = check-ok (leb (length xs) (max_items n xs code)) too_many_items short in
      (
        omega arith,
        ground (arith, few),
        All-map _ _ xs validate_item-IsLine (validate_lines-All 1 xs checked),
      )

  -- An accepted document has between 1 and 10000 lines, each with a description, a quantity above zero, a
  -- price that is not negative, and a declared rate that is the rate it carries when it names no indicator.
  pub validate_invoice_input-Lines :
      (now : Time) (input : InvoiceInput Double) (expiration : Option Time)
      → validate_invoice_input n now input expiration ≡ ok tt
      → (1 ≤ length input.items) × (length input.items ≤ 10000) × All IsLine input.items
  unfolding validate_invoice_input
  validate_invoice_input-Lines now input expiration h =
      let (code, _, h1) = and_then-ok (get_type_code input.ecf_type) _ tt h in
      let (_, _, h2) =
        and_then-ok (check (not (text_eq input.company_id [])) without_company) _ tt h1 in
      let (_, _, h3) = and_then-ok (validate_buyer_rnc input.buyer_rnc code) _ tt h2 in
      let (_, lines, _) = and_then-ok (validate_items n input.items code) _ tt h3 in
      validate_items-Lines input.items code lines
