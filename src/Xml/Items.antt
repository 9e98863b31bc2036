-- ===== src/Xml/Items.antt =====
-- `buildDetallesItem` of src/xml-builder/xml-builder.service.ts.
pub mod Written
use ecf_api.Prelude.{
  ℕ, ◌+◌, Bool, true, false, ◌&&◌, not, List, [], ◌∷◌, ◌++◌, Option, none, some, ◌==◌,
  if◌then◌else◌, includes,
}
use ecf_api.Prelude.Text.{Text, codes, to_string}
use ecf_api.Prelude.Numbers.{Numbers}
use ecf_api.Amounts.{or_else, or_default, round2, line_subtotal}
use ecf_api.Validation.{is_given}
use ecf_api.Xml.{
  Line, text_line, raw_line, text_field, raw_field, only_if, open_tag, close_tag, text_or, raw_or,
  for_each, Format, truthy_field, number_field,
}
use ecf_api.Xml.Input.{SubAdjustment, DocumentItem, CurrencyInput}
use ecf_api.Xml.Totals.{indicator_of}
use ecf_api.Xml.Totales.{entries_of}

-- `if (v !== undefined) …`
unfoldable pub given_line : Text → Option Text → List Line
given_line name none = []
given_line name (some s) = raw_line name s

unfoldable pub sub_descuento_lines : SubAdjustment → List Line
sub_descuento_lines s =
    open_tag (codes "SubDescuento")
    ∷ ((text_line (codes "TipoSubDescuento") s.tipo
          ++ given_line (codes "SubDescuentoPorcentaje") s.porcentaje
          ++ given_line (codes "MontoSubDescuento") s.monto)
        ++ close_tag (codes "SubDescuento") ∷ [])

unfoldable pub sub_recargo_lines : SubAdjustment → List Line
sub_recargo_lines s =
    open_tag (codes "SubRecargo")
    ∷ ((text_line (codes "TipoSubRecargo") s.tipo
          ++ given_line (codes "SubRecargoPorcentaje") s.porcentaje
          ++ given_line (codes "MontoSubRecargo") s.monto)
        ++ close_tag (codes "SubRecargo") ∷ [])

-- `if (k) …`
abbrev pub nonzero : Option ℕ → Bool
nonzero none = false
nonzero (some k) = not (k == 0)

abbrev pub number_or : Option ℕ → ℕ → ℕ
number_or none d = d
number_or (some k) d = k

-- 1 or 2 as given, and else 1.
abbrev pub agent_of : Option ℕ → ℕ
agent_of v = if number_or v 0 == 2 then 2 else 1

module _ {D : Type 0} where
  unfoldable pub code_lines : DocumentItem D → List Line
  code_lines i = only_if (is_given i.code) (
      (open_tag (codes "TablaCodigosItem")
        ∷ (((open_tag (codes "CodigosItem")
              ∷ ((text_line (codes "TipoCodigo") (text_or i.code_type (codes "INT"))
                    ++ text_field (codes "CodigoItem") i.code)
                  ++ close_tag (codes "CodigosItem") ∷ [])))
            ++ close_tag (codes "TablaCodigosItem") ∷ [])))

  unfoldable pub unit_lines : DocumentItem D → List Line
  unit_lines i =
      if nonzero i.taxed.unit_measure_code
      then raw_line (codes "UnidadMedida") (to_string (number_or i.taxed.unit_measure_code 0))
      else text_field (codes "UnidadMedida") i.unit

  unfoldable pub tax_table_lines : DocumentItem D → List Line
  tax_table_lines i = only_if (is_given i.taxed.additional_tax_code) (
      (open_tag (codes "TablaImpuestoAdicional")
        ∷ (((open_tag (codes "ImpuestoAdicional")
              ∷ ((raw_field (codes "TipoImpuesto") i.taxed.additional_tax_code)
                  ++ close_tag (codes "ImpuestoAdicional") ∷ [])))
            ++ close_tag (codes "TablaImpuestoAdicional") ∷ [])))

module _ (n : Numbers) (f : Format n.Double) where
  open n use {Double, of_nat, epsilon, add, mul, div, round, lt, truthy}

  -- `round4`
  unfoldable pub round4 : Double → Double
  round4 x = div (round (mul (add x epsilon) (of_nat 10000))) (of_nat 10000)

  -- `if (x) …`, with a text that replaces the amount
  unfoldable pub raw_amount_field : Text → Option Text → Option Double → List Line
  raw_amount_field name raw none = []
  raw_amount_field name raw (some x) = only_if (truthy x) (raw_line name (raw_or raw (f.amount x)))

  unfoldable pub required_retention : ℕ → DocumentItem Double → List Line
  required_retention type i =
      open_tag (codes "Retencion")
      ∷ ((raw_line (codes "IndicadorAgenteRetencionoPercepcion")
              (to_string (agent_of i.retencion_indicador))
            ++ only_if (not (type == 47))
                (truthy_field n f (codes "MontoITBISRetenido") i.monto_itbis_retenido)
            ++ (if type == 47
                then raw_line (codes "MontoISRRetenido")
                    (f.amount (or_default n i.monto_isr_retenido (of_nat 0)))
                else truthy_field n f (codes "MontoISRRetenido") i.monto_isr_retenido))
          ++ close_tag (codes "Retencion") ∷ [])

  unfoldable pub optional_retention : DocumentItem Double → List Line
  optional_retention i =
      open_tag (codes "Retencion")
      ∷ ((raw_line (codes "IndicadorAgenteRetencionoPercepcion")
              (to_string (number_or i.retencion_indicador 0))
            ++ truthy_field n f (codes "MontoITBISRetenido") i.monto_itbis_retenido
            ++ truthy_field n f (codes "MontoISRRetenido") i.monto_isr_retenido)
          ++ close_tag (codes "Retencion") ∷ [])

  unfoldable pub retencion : ℕ → DocumentItem Double → List Line
  retencion type i =
      if includes type (41 ∷ 47 ∷ [])
      then required_retention type i
      else only_if (includes type (31 ∷ 33 ∷ 34 ∷ []) && nonzero i.retencion_indicador)
          (optional_retention i)

  unfoldable pub sub_quantity_lines : DocumentItem Double → Option Double → List Line
  sub_quantity_lines i none = []
  sub_quantity_lines i (some x) = only_if (truthy x) (
      (open_tag (codes "TablaSubcantidad")
        ∷ (((open_tag (codes "SubcantidadItem")
              ∷ ((raw_line (codes "Subcantidad") (f.sub_quantity x)
                    ++ number_field n f (codes "CodigoSubcantidad") i.sub_quantity_code)
                  ++ close_tag (codes "SubcantidadItem") ∷ [])))
            ++ close_tag (codes "TablaSubcantidad") ∷ [])))

  -- The fields of the selective taxes.
  unfoldable pub isc_lines : DocumentItem Double → List Line
  isc_lines i =
      raw_amount_field (codes "CantidadReferencia") i.raw_text.cantidad_referencia
        i.taxed.reference_quantity
      ++ sub_quantity_lines i i.taxed.sub_quantity
      ++ number_field n f (codes "GradosAlcohol") i.taxed.alcohol_degrees
      ++ raw_amount_field (codes "PrecioUnitarioReferencia") i.raw_text.precio_unitario_referencia
          i.taxed.reference_unit_price

  unfoldable pub discount_lines : ℕ → DocumentItem Double → List Line
  discount_lines type i =
      let discount = or_else n i.taxed.amounts.discount (of_nat 0) in
      let surcharge = or_else n i.taxed.amounts.surcharge (of_nat 0) in
      only_if (lt (of_nat 0) discount && not (type == 47))
        (raw_line (codes "DescuentoMonto") (raw_or i.raw_text.descuento_monto (f.amount discount)))
      ++ only_if (not (type == 47)) (
          entries_of (open_tag (codes "TablaSubDescuento")) (close_tag (codes "TablaSubDescuento"))
            sub_descuento_lines i.sub_descuentos)
      ++ only_if (lt (of_nat 0) surcharge && not (type == 47))
          (raw_line (codes "RecargoMonto") (raw_or i.raw_text.recargo_monto (f.amount surcharge)))
      ++ only_if (not (type == 47)) (
          entries_of (open_tag (codes "TablaSubRecargo")) (close_tag (codes "TablaSubRecargo"))
            sub_recargo_lines i.sub_recargos)

  -- `OtraMonedaDetalle`
  unfoldable pub currency_lines : DocumentItem Double → Option (CurrencyInput Double) → List Line
  currency_lines i none = []
  currency_lines i (some c) =
      let discount = or_else n i.taxed.amounts.discount (of_nat 0) in
      let surcharge = or_else n i.taxed.amounts.surcharge (of_nat 0) in
      let rate = c.exchange_rate in
      (open_tag (codes "OtraMonedaDetalle")
        ∷ ((raw_line (codes "PrecioOtraMoneda") (
                raw_or i.raw_text.precio_otra_moneda
                  (f.price (round4 (div i.taxed.amounts.unit_price rate))))
              ++ only_if (lt (of_nat 0) discount)
                  (raw_line (codes "DescuentoOtraMoneda") (f.amount (round2 n (div discount rate))))
              ++ only_if (lt (of_nat 0) surcharge)
                  (raw_line (codes "RecargoOtraMoneda") (f.amount (round2 n (div surcharge rate))))
              ++ raw_line (codes "MontoItemOtraMoneda")
                  (f.amount (round2 n (div (line_subtotal n i.taxed.amounts) rate))))
            ++ close_tag (codes "OtraMonedaDetalle") ∷ []))

  unfoldable pub name_lines : ℕ → ℕ → DocumentItem Double → List Line
  name_lines type k i =
      raw_line (codes "NumeroLinea") (f.number (or_else n i.line_number (of_nat k)))
      ++ code_lines i
      ++ raw_line (codes "IndicadorFacturacion") (to_string (indicator_of n i.taxed.amounts))
      ++ retencion type i
      ++ text_line (codes "NombreItem") i.taxed.description
      ++ raw_line (codes "IndicadorBienoServicio") (f.number (or_else n i.good_service (of_nat 1)))
      ++ text_field (codes "DescripcionItem") i.long_description

  unfoldable pub quantity_lines : ℕ → DocumentItem Double → List Line
  quantity_lines type i =
      raw_line (codes "CantidadItem")
        (raw_or i.raw_text.cantidad_item (f.amount i.taxed.amounts.quantity))
      ++ unit_lines i
      ++ only_if
          (includes type (31 ∷ 32 ∷ 33 ∷ 34 ∷ 45 ∷ []) && is_given i.taxed.additional_tax_code)
          (isc_lines i)
      ++ raw_field (codes "FechaElaboracion") i.manufacturing_date
      ++ raw_field (codes "FechaVencimientoItem") i.expiration_date

  unfoldable pub price_lines : ℕ → DocumentItem Double → Option (CurrencyInput Double) → List Line
  price_lines type i currency =
      raw_line (codes "PrecioUnitarioItem")
        (raw_or i.raw_text.precio_unitario_item (f.price i.taxed.amounts.unit_price))
      ++ discount_lines type i
      ++ only_if (includes type (31 ∷ 32 ∷ 33 ∷ 34 ∷ 44 ∷ 45 ∷ [])) (tax_table_lines i)
      ++ currency_lines i currency
      ++ raw_line (codes "MontoItem")
          (raw_or i.raw_text.monto_item (f.amount (line_subtotal n i.taxed.amounts)))

  -- One item of the document; `k` is its place.
  unfoldable pub item_lines :
      ℕ → Option (CurrencyInput Double) → ℕ → DocumentItem Double → List Line
  item_lines type currency k i =
      open_tag (codes "Item")
      ∷ ((name_lines type k i ++ quantity_lines type i ++ price_lines type i currency)
          ++ close_tag (codes "Item") ∷ [])

  unfoldable pub items_from :
      ℕ → Option (CurrencyInput Double) → ℕ → List (DocumentItem Double) → List Line
  items_from type currency k [] = []
  items_from type currency k (i ∷ items) =
      item_lines type currency k i ++ items_from type currency (k + 1) items

  -- `buildDetallesItem`
  unfoldable pub build_detalles_item :
      ℕ → Option (CurrencyInput Double) → List (DocumentItem Double) → List Line
  build_detalles_item type currency items =
      open_tag (codes "DetallesItems")
      ∷ ((items_from type currency 1 items) ++ close_tag (codes "DetallesItems") ∷ [])
