-- ===== src/Xml/Totals/Lines.antt =====
-- The totals of `calculateTotals` of src/xml-builder/xml-builder.service.ts and the lines
-- that src/invoices/invoices.service.ts stores.
use ecf_api.Prelude.{
  ℕ, ◌+◌, true, ◌≡◌, refl, ap, ◌∙◌, inl, inr, List, [], ◌∷◌, ◌==◌, leb, if◌then◌else◌, arith,
  Option-cases, if_rule,
}
use ecf_api.Prelude.Text.{Text}
use ecf_api.Prelude.Numbers.{Numbers}
use ecf_api.Prelude.Rows.{All}
use ecf_api.Invoices.{given, InvoiceLine}
use ecf_api.Invoices.Create.{line_of}
use ecf_api.Encf.{
  is_isc_especifico_alcohol, is_isc_especifico_cigarrillo, is_isc_advalorem_alcohol,
  is_isc_advalorem_cigarrillo, is_otros_impuestos,
}
use ecf_api.Amounts.{ItemInput, or_else, round2}
use ecf_api.Xml.Input.{DocumentItem}
use ecf_api.Xml.Totals.{
  Sums, indicator_of, add_amounts, add_especifico, add_advalorem, add_otros, add_tax, add_item,
  add_items, no_sums, totals_of, calculate_totals,
}

module _ (n : Numbers) where
  open n use {Double, of_nat, add}

  -- The sum of an amount over the stored lines of the items with an indicator.
  abbrev pub sum_by :
      ℕ → (InvoiceLine Double → Double) → ℕ → List (DocumentItem Double) → Double → Double
  sum_by k amount index [] sum = sum
  sum_by k amount index (item ∷ items) sum = sum_by k amount (index + 1) items (
      if indicator_of n item.taxed.amounts == k
      then add sum (amount (line_of n index item.taxed.amounts))
      else sum)

  -- What an item does to the sums that the lines decide.
  abbrev Step : ItemInput Double → Sums Double → Sums Double → Type 0
  Step item s t =
      (t.taxable18 ≡ (
        if indicator_of n item == 1
        then add s.taxable18 (line_of n 0 item).subtotal
        else s.taxable18))
      × (t.taxable16 ≡ (
          if indicator_of n item == 2
          then add s.taxable16 (line_of n 0 item).subtotal
          else s.taxable16))
      × (t.taxable0 ≡ (
          if indicator_of n item == 3
          then add s.taxable0 (line_of n 0 item).subtotal
          else s.taxable0))
      × (t.exempt ≡ (
          if indicator_of n item == 4 then add s.exempt (line_of n 0 item).subtotal else s.exempt))
      × (t.no_facturable ≡ (
          if indicator_of n item == 0
          then add s.no_facturable (line_of n 0 item).subtotal
          else s.no_facturable))
      × (t.itbis18 ≡ (
          if indicator_of n item == 1
          then add s.itbis18 (line_of n 0 item).itbis_amount
          else s.itbis18))
      × (t.itbis16 ≡ (
          if indicator_of n item == 2
          then add s.itbis16 (line_of n 0 item).itbis_amount
          else s.itbis16))

  abbrev Kept : Sums Double → Sums Double → Type 0
  Kept s t =
      (t.taxable18 ≡ s.taxable18)
      × (t.taxable16 ≡ s.taxable16)
      × (t.taxable0 ≡ s.taxable0)
      × (t.exempt ≡ s.exempt)
      × (t.no_facturable ≡ s.no_facturable)
      × (t.itbis18 ≡ s.itbis18)
      × (t.itbis16 ≡ s.itbis16)

  Step-Kept :
      (item : ItemInput Double) (s t u : Sums Double) → Step item s t → Kept t u → Step item s u
  Step-Kept item s t u h k =
      (k.0 ∙ h.0, k.1 ∙ h.1, k.2 ∙ h.2, k.3 ∙ h.3, k.4 ∙ h.4, k.5 ∙ h.5, k.6 ∙ h.6)

  add_amounts-Step :
      (item : ItemInput Double) (s : Sums Double)
      → leb (indicator_of n item) 4 ≡ true
      → Step item s (add_amounts n item s)
  unfolding add_amounts
  add_amounts-Step item s h = (
    ground arith,
    ground arith,
    ground arith,
    ground arith,
    ground arith,
    ground arith,
    ground arith,
  )

  add_tax-Kept :
      (gravado : ℕ) (code : Text) (item : DocumentItem Double) (s : Sums Double)
      → Kept s (add_tax n gravado code item s)
  unfolding add_tax add_especifico add_advalorem add_otros
  add_tax-Kept gravado code item s =
      if_rule (Kept s) (is_isc_especifico_alcohol code) (λ _. refls)
        (λ _.
          if_rule (Kept s) (is_isc_especifico_cigarrillo code) (λ _. refls)
            (λ _.
              if_rule (Kept s) (is_isc_advalorem_alcohol code) (λ _. refls)
                (λ _.
                  if_rule (Kept s) (is_isc_advalorem_cigarrillo code) (λ _. refls)
                    (λ _. if_rule (Kept s) (is_otros_impuestos code) (λ _. refls) (λ _. refls)))))
    where
      refls : Kept s s
      refls = (refl, refl, refl, refl, refl, refl, refl)

  add_item-Step :
      (gravado : ℕ) (item : DocumentItem Double) (s : Sums Double)
      → leb (indicator_of n item.taxed.amounts) 4 ≡ true
      → Step item.taxed.amounts s (add_item n gravado item s)
  unfolding add_item
  add_item-Step gravado item s h =
      let amounts = item.taxed.amounts in
      let s0 : Sums Double = record s {
        discount = add s.discount (or_else n amounts.discount (of_nat 0));
      } in
      let one = add_amounts-Step amounts s0 h in
      elim (Option-cases (given item.taxed.additional_tax_code)) [
        | inl absent ↦ rw (absent, add_item) one
        | inr (code, there) ↦
            rw (there, add_item)
              (Step-Kept amounts s0 (add_amounts n amounts s0)
                (add_tax n gravado code item (add_amounts n amounts s0)) one
                (add_tax-Kept gravado code item (add_amounts n amounts s0)))
      ]

  -- A sum of the loop that grows with the items of an indicator.
  grows :
      (gravado k : ℕ) (amount : InvoiceLine Double → Double) (get : Sums Double → Double)
      (index : ℕ) (items : List (DocumentItem Double)) (s : Sums Double)
      → ((item : DocumentItem Double) (s : Sums Double) (i : ℕ)
          → leb (indicator_of n item.taxed.amounts) 4 ≡ true
          → get (add_item n gravado item s) ≡ (
              if indicator_of n item.taxed.amounts == k
              then add (get s) (amount (line_of n i item.taxed.amounts))
              else get s))
      → All (λ item. leb (indicator_of n item.taxed.amounts) 4 ≡ true) items
      → get (add_items n gravado items s) ≡ sum_by k amount index items (get s)
  unfolding add_items
  grows gravado k amount get index [] s step legal = refl
  grows gravado k amount get index (item ∷ items) s step legal =
      grows gravado k amount get (index + 1) items (add_item n gravado item s) step legal.1
      ∙ ap (λ x. sum_by k amount (index + 1) items x) (step item s index legal.0)

  -- In every document whose items have an indicator of 0 to 4, the five bases and the two ITBIS amounts of
  -- the totals are the rounded sums, over the items of that indicator, of the subtotals and of the ITBIS
  -- amounts of the lines that the invoice stores.
  pub calculate_totals-lines :
      (items : List (DocumentItem Double)) (gravado : ℕ)
      → All (λ item. leb (indicator_of n item.taxed.amounts) 4 ≡ true) items
      → let totals = calculate_totals n items gravado in
        (totals.taxable_amount18 ≡ round2 n (sum_by 1 (λ l. l.subtotal) 1 items (of_nat 0)))
        × (totals.taxable_amount16 ≡ round2 n (sum_by 2 (λ l. l.subtotal) 1 items (of_nat 0)))
        × (totals.taxable_amount0 ≡ round2 n (sum_by 3 (λ l. l.subtotal) 1 items (of_nat 0)))
        × (totals.exempt_amount ≡ round2 n (sum_by 4 (λ l. l.subtotal) 1 items (of_nat 0)))
        × (totals.monto_no_facturable ≡ round2 n (sum_by 0 (λ l. l.subtotal) 1 items (of_nat 0)))
        × (totals.itbis18 ≡ round2 n (sum_by 1 (λ l. l.itbis_amount) 1 items (of_nat 0)))
        × (totals.itbis16 ≡ round2 n (sum_by 2 (λ l. l.itbis_amount) 1 items (of_nat 0)))
  unfolding calculate_totals totals_of no_sums
  calculate_totals-lines items gravado legal = (
    ap (round2 n) (
        grows gravado 1 (λ l. l.subtotal) (λ s. s.taxable18) 1 items (no_sums n)
          (λ item s i h. (add_item-Step gravado item s h).0) legal),
    ap (round2 n) (
        grows gravado 2 (λ l. l.subtotal) (λ s. s.taxable16) 1 items (no_sums n)
          (λ item s i h. (add_item-Step gravado item s h).1) legal),
    ap (round2 n) (
        grows gravado 3 (λ l. l.subtotal) (λ s. s.taxable0) 1 items (no_sums n)
          (λ item s i h. (add_item-Step gravado item s h).2) legal),
    ap (round2 n) (
        grows gravado 4 (λ l. l.subtotal) (λ s. s.exempt) 1 items (no_sums n)
          (λ item s i h. (add_item-Step gravado item s h).3) legal),
    ap (round2 n) (
        grows gravado 0 (λ l. l.subtotal) (λ s. s.no_facturable) 1 items (no_sums n)
          (λ item s i h. (add_item-Step gravado item s h).4) legal),
    ap (round2 n) (
        grows gravado 1 (λ l. l.itbis_amount) (λ s. s.itbis18) 1 items (no_sums n)
          (λ item s i h. (add_item-Step gravado item s h).5) legal),
    ap (round2 n) (
        grows gravado 2 (λ l. l.itbis_amount) (λ s. s.itbis16) 1 items (no_sums n)
          (λ item s i h. (add_item-Step gravado item s h).6) legal),
  )
