-- ===== src/Validation/Isc.antt =====
-- The selective tax of a line: `calculateIsc…` and `calculateOtrosImpuestos` of
-- src/validation/validation.service.ts. A rate of 1.30 is 130 / 100.
use ecf_api.Prelude.{ℕ, Bool, Option, none, some, ◌==◌, if◌then◌else◌}
use ecf_api.Prelude.Numbers.{Numbers}
use ecf_api.Amounts.{or_else, round2}
use ecf_api.Validation.{TaxedItem}

module _ (n : Numbers) where
  open n use {Double, of_nat, add, sub, mul, div}

  unfoldable pub isc_especifico_alcohol : TaxedItem Double → Double
  isc_especifico_alcohol item =
      let tasa = or_else n item.additional_tax_rate (of_nat 0) in
      let grados = div (or_else n item.alcohol_degrees (of_nat 0)) (of_nat 100) in
      let cant_ref = or_else n item.reference_quantity (of_nat 1) in
      let sub_cant = or_else n item.sub_quantity (of_nat 1) in
      round2 n (mul (mul (mul (mul tasa grados) cant_ref) sub_cant) item.amounts.quantity)

  unfoldable pub isc_especifico_cigarrillo : TaxedItem Double → Double
  isc_especifico_cigarrillo item =
      let cant_ref = or_else n item.reference_quantity (of_nat 1) in
      let tasa = or_else n item.additional_tax_rate (of_nat 0) in
      round2 n (mul (mul item.amounts.quantity cant_ref) tasa)

  abbrev pub is_granel : Option ℕ → Bool
  is_granel none = Bool.false
  is_granel (some code) = code == 18

  -- `x / (1 + rate / 100)`, rounded.
  abbrev pub without_itbis : Double → Double → Double
  without_itbis x rate = round2 n (div x (add (of_nat 1) (div rate (of_nat 100))))

  -- From the price without the specific tax to the tax of all units.
  unfoldable pub advalorem_of : Double → Double → Double → Double → Double
  advalorem_of price advalorem_rate cant_ref quantity =
      let precio_base = round2 n (div price (add (of_nat 1) advalorem_rate)) in
      let unitario = round2 n (mul precio_base advalorem_rate) in
      round2 n (mul (mul unitario cant_ref) quantity)

  unfoldable pub isc_advalorem_alcohol : TaxedItem Double → Double → Double → Double → Double
  isc_advalorem_alcohol item isc_especifico itbis_rate advalorem_rate =
      let cant_ref = or_else n item.reference_quantity (of_nat 1) in
      let quantity = item.amounts.quantity in
      let unitario = round2 n (div isc_especifico (mul cant_ref quantity)) in
      let pvp = without_itbis (or_else n item.reference_unit_price (of_nat 0)) itbis_rate in
      if is_granel item.unit_measure_code
      then round2 n (
          mul (mul (mul item.amounts.unit_price (div (of_nat 130) (of_nat 100))) advalorem_rate)
            quantity)
      else advalorem_of (round2 n (sub pvp unitario)) advalorem_rate cant_ref quantity

  unfoldable pub isc_advalorem_cigarrillo : TaxedItem Double → Double → Double → Double
  isc_advalorem_cigarrillo item itbis_rate advalorem_rate =
      let pvp = without_itbis (or_else n item.reference_unit_price (of_nat 0)) itbis_rate in
      let tasa = or_else n item.additional_tax_rate (of_nat 0) in
      advalorem_of (round2 n (sub pvp tasa)) advalorem_rate
        (or_else n item.reference_quantity (of_nat 1)) item.amounts.quantity

  unfoldable pub otros_impuestos : Double → Double → ℕ → Double → Double
  otros_impuestos monto tasa indicador itbis_rate =
      if indicador == 0
      then round2 n (mul monto tasa)
      else round2 n (mul (div monto (add (of_nat 1) (div itbis_rate (of_nat 100)))) tasa)
