-- ===== src/Xml/Totals.antt =====
-- `calculateTotals` of src/xml-builder/xml-builder.service.ts.
pub mod Lines
use ecf_api.Prelude.{
  ℕ, Bool, true, false, ◌||◌, List, [], ◌∷◌, Option, none, some, ◌==◌, if◌then◌else◌, length,
}
use ecf_api.Prelude.Text.{Text, text_eq}
use ecf_api.Prelude.Numbers.{Numbers}
use ecf_api.Invoices.{given}
use ecf_api.Encf.{
  is_isc_especifico_alcohol, is_isc_especifico_cigarrillo, is_isc_advalorem_alcohol,
  is_isc_advalorem_cigarrillo, is_otros_impuestos,
}
use ecf_api.Amounts.{
  ItemInput, or_else, or_default, round2, resolve_indicador, line_itbis_amount, line_subtotal,
}
use ecf_api.Validation.{TaxedItem}
use ecf_api.Validation.Isc.{
  isc_especifico_alcohol, isc_especifico_cigarrillo, isc_advalorem_alcohol,
  isc_advalorem_cigarrillo, otros_impuestos,
}
use ecf_api.Xml.Input.{DocumentItem}

pub record AdditionalTaxEntry (D : Type 0) : Type 0 where
  pub tipo_impuesto : Text
  pub tasa : D
  pub isc_especifico : D
  pub isc_advalorem : D
  pub otros : D

-- The sums of the loop.
pub record Sums (D : Type 0) : Type 0 where
  pub taxable18 : D
  pub taxable16 : D
  pub taxable0 : D
  pub exempt : D
  pub no_facturable : D
  pub itbis18 : D
  pub itbis16 : D
  pub discount : D
  pub isc_especifico : D
  pub isc_advalorem : D
  pub otros : D
  pub entries : List (AdditionalTaxEntry D)

-- `InvoiceTotals`
pub record InvoiceTotals (D : Type 0) : Type 0 where
  pub subtotal_before_tax : D
  pub total_discount : D
  pub taxable_amount18 : D
  pub taxable_amount16 : D
  pub taxable_amount0 : D
  pub exempt_amount : D
  pub itbis18 : D
  pub itbis16 : D
  pub itbis0 : D
  pub total_itbis : D
  pub total_isc_especifico : D
  pub total_isc_advalorem : D
  pub total_isc : D
  pub total_otros_impuestos : D
  pub monto_no_facturable : D
  pub total_amount : D
  pub tolerancia_global : ℕ
  pub additional_tax_entries : List (AdditionalTaxEntry D)

-- `item.indicadorMontoGravado || indicadorMontoGravado`
abbrev pub gravado_of : Option ℕ → ℕ → ℕ
gravado_of none k = k
gravado_of (some i) k = if i == 0 then k else i

module _ (n : Numbers) where
  open n use {Double, of_nat, add, sub, mul, div, eq}

  abbrev pub rate_of : ItemInput Double → Double
  rate_of item = or_default n item.itbis_rate (of_nat 18)

  abbrev pub indicator_of : ItemInput Double → ℕ
  indicator_of item = resolve_indicador n item.indicador_facturacion (rate_of item)

  -- The sums to which an item of each indicator adds.
  unfoldable pub add_amounts : ItemInput Double → Sums Double → Sums Double
  add_amounts item s =
      let subtotal = line_subtotal n item in
      let rate = rate_of item in
      let k = indicator_of item in
      let itbis = line_itbis_amount n subtotal k rate in
      if k == 0
      then record s { no_facturable = add s.no_facturable subtotal }
      else if k == 4
      then record s { exempt = add s.exempt subtotal }
      else if k == 3
      then record s { taxable0 = add s.taxable0 subtotal }
      else if k == 1
      then record s { taxable18 = add s.taxable18 subtotal; itbis18 = add s.itbis18 itbis }
      else if k == 2
      then record s { taxable16 = add s.taxable16 subtotal; itbis16 = add s.itbis16 itbis }
      else if eq rate (of_nat 18)
      then record s {
        taxable18 = add s.taxable18 subtotal;
        itbis18 = add s.itbis18 (round2 n (mul subtotal (div (of_nat 18) (of_nat 100))));
      }
      else if eq rate (of_nat 16)
      then record s {
        taxable16 = add s.taxable16 subtotal;
        itbis16 = add s.itbis16 (round2 n (mul subtotal (div (of_nat 16) (of_nat 100))));
      }
      else s

  -- `taxEntriesMap`: the entry of a code, made when there is none, and changed.
  unfoldable pub change_entry :
      Text
      → Double
      → (AdditionalTaxEntry Double → AdditionalTaxEntry Double)
      → List (AdditionalTaxEntry Double)
      → List (AdditionalTaxEntry Double)
  change_entry code tasa g [] =
      g (record {
        tipo_impuesto = code;
        tasa = tasa;
        isc_especifico = of_nat 0;
        isc_advalorem = of_nat 0;
        otros = of_nat 0;
      })
      ∷ []
  change_entry code tasa g (e ∷ entries) =
      let rest = change_entry code tasa g entries in
      if text_eq e.tipo_impuesto code then g e ∷ entries else e ∷ rest

  -- `r2((x || 0) + amt)`
  abbrev pub add_to : Double → Double → Double
  add_to x amt = round2 n (add (or_else n (some x) (of_nat 0)) amt)

  unfoldable pub add_especifico : Text → Double → Double → Sums Double → Sums Double
  add_especifico code tasa amt s = record s {
    isc_especifico = add s.isc_especifico amt;
    entries =
        change_entry code tasa (λ e. record e { isc_especifico = add_to e.isc_especifico amt })
          s.entries;
  }

  unfoldable pub add_advalorem : Text → Double → Double → Sums Double → Sums Double
  add_advalorem code tasa amt s = record s {
    isc_advalorem = add s.isc_advalorem amt;
    entries =
        change_entry code tasa (λ e. record e { isc_advalorem = add_to e.isc_advalorem amt })
          s.entries;
  }

  unfoldable pub add_otros : Text → Double → Double → Sums Double → Sums Double
  add_otros code tasa amt s = record s {
    otros = add s.otros amt;
    entries = change_entry code tasa (λ e. record e { otros = add_to e.otros amt }) s.entries;
  }

  -- The additional tax of an item by its code.
  unfoldable pub add_tax : ℕ → Text → DocumentItem Double → Sums Double → Sums Double
  add_tax gravado code item s =
      let taxed = item.taxed in
      let tasa = or_else n taxed.additional_tax_rate (of_nat 0) in
      let rate = rate_of taxed.amounts in
      if is_isc_especifico_alcohol code
      then add_especifico code tasa (isc_especifico_alcohol n taxed) s
      else if is_isc_especifico_cigarrillo code
      then add_especifico code tasa (isc_especifico_cigarrillo n taxed) s
      else if is_isc_advalorem_alcohol code
      then add_advalorem code tasa
          (isc_advalorem_alcohol n taxed (isc_especifico_alcohol n taxed) rate tasa) s
      else if is_isc_advalorem_cigarrillo code
      then add_advalorem code tasa (isc_advalorem_cigarrillo n taxed rate tasa) s
      else if is_otros_impuestos code
      then add_otros code tasa
          (otros_impuestos n (line_subtotal n taxed.amounts) tasa
            (gravado_of item.indicador_monto_gravado gravado) rate)
          s
      else record s { entries = change_entry code tasa (λ e. e) s.entries }

  unfoldable pub add_item : ℕ → DocumentItem Double → Sums Double → Sums Double
  add_item gravado item s =
      let amounts = item.taxed.amounts in
      let s1 =
        add_amounts amounts
          (record s { discount = add s.discount (or_else n amounts.discount (of_nat 0)) }) in
      elim (given item.taxed.additional_tax_code) [
        | none ↦ s1
        | some code ↦ add_tax gravado code item s1
      ]

  unfoldable pub add_items : ℕ → List (DocumentItem Double) → Sums Double → Sums Double
  add_items gravado [] s = s
  add_items gravado (item ∷ items) s = add_items gravado items (add_item gravado item s)

  unfoldable pub no_sums : Sums Double
  no_sums = record {
    taxable18 = of_nat 0;
    taxable16 = of_nat 0;
    taxable0 = of_nat 0;
    exempt = of_nat 0;
    no_facturable = of_nat 0;
    itbis18 = of_nat 0;
    itbis16 = of_nat 0;
    discount = of_nat 0;
    isc_especifico = of_nat 0;
    isc_advalorem = of_nat 0;
    otros = of_nat 0;
    entries = [];
  }

  -- What is returned for the sums.
  unfoldable pub totals_of : ℕ → Sums Double → InvoiceTotals Double
  totals_of lines s =
      let subtotal = round2 n (add (add (add s.taxable18 s.taxable16) s.taxable0) s.exempt) in
      let itbis = round2 n (add (add s.itbis18 s.itbis16) (of_nat 0)) in
      let isc = round2 n (add s.isc_especifico s.isc_advalorem) in
      let total = round2 n (add (add (add (add subtotal itbis) isc) s.otros) s.no_facturable) in
      record {
        subtotal_before_tax = round2 n subtotal;
        total_discount = round2 n s.discount;
        taxable_amount18 = round2 n s.taxable18;
        taxable_amount16 = round2 n s.taxable16;
        taxable_amount0 = round2 n s.taxable0;
        exempt_amount = round2 n s.exempt;
        itbis18 = round2 n s.itbis18;
        itbis16 = round2 n s.itbis16;
        itbis0 = round2 n (of_nat 0);
        total_itbis = round2 n itbis;
        total_isc_especifico = round2 n s.isc_especifico;
        total_isc_advalorem = round2 n s.isc_advalorem;
        total_isc = round2 n isc;
        total_otros_impuestos = round2 n s.otros;
        monto_no_facturable = round2 n s.no_facturable;
        total_amount = round2 n total;
        tolerancia_global = lines;
        additional_tax_entries = s.entries;
      }

  -- `calculateTotals`
  unfoldable pub calculate_totals : List (DocumentItem Double) → ℕ → InvoiceTotals Double
  calculate_totals items gravado = totals_of (length items) (add_items gravado items no_sums)
