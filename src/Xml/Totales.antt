-- ===== src/Xml/Totales.antt =====
-- `buildTotales` and `buildOtraMoneda` of src/xml-builder/xml-builder.service.ts.
pub mod Written
use ecf_api.Prelude.{
  ℕ, Bool, true, false, ◌&&◌, not, List, [], ◌∷◌, ◌++◌, Option, none, some, ◌==◌, if◌then◌else◌,
  includes,
}
use ecf_api.Prelude.Text.{Text, codes}
use ecf_api.Prelude.Numbers.{Numbers}
use ecf_api.Amounts.{round2}
use ecf_api.Xml.{
  Line, text_line, raw_line, only_if, open_tag, close_tag, for_each, Format, positive_field,
  amount_field,
}
use ecf_api.Xml.Input.{CurrencyInput, TotalsRawText, DocumentInput}
use ecf_api.Xml.Totals.{AdditionalTaxEntry, InvoiceTotals}

-- `if (raw !== undefined) … else …`
unfoldable pub raw_total : Text → Option Text → List Line → List Line
raw_total name none lines = lines
raw_total name (some s) lines = raw_line name s

-- Between two tags a section for each entry, unless there is none.
unfoldable pub entries_of : {A : Type 0} → Line → Line → (A → List Line) → List A → List Line
entries_of opening closing g [] = []
entries_of opening closing g (e ∷ entries) = opening ∷ (for_each g (e ∷ entries) ++ closing ∷ [])

module _ (n : Numbers) (f : Format n.Double) where
  open n use {Double, of_nat, add, div, lt}

  abbrev pub gravado_total : InvoiceTotals Double → Double
  gravado_total t = round2 n (add (add t.taxable_amount18 t.taxable_amount16) t.taxable_amount0)

  unfoldable pub entry_lines : ℕ → AdditionalTaxEntry Double → List Line
  entry_lines type e =
      open_tag (codes "ImpuestoAdicional")
      ∷ ((raw_line (codes "TipoImpuesto") e.tipo_impuesto
            ++ raw_line (codes "TasaImpuestoAdicional") (f.number e.tasa)
            ++ only_if (not (type == 44)) (
                positive_field n f (codes "MontoImpuestoSelectivoConsumoEspecifico")
                  (some e.isc_especifico))
            ++ only_if (not (type == 44)) (
                positive_field n f (codes "MontoImpuestoSelectivoConsumoAdvalorem")
                  (some e.isc_advalorem))
            ++ positive_field n f (codes "OtrosImpuestosAdicionales") (some e.otros))
          ++ close_tag (codes "ImpuestoAdicional") ∷ [])

  unfoldable pub base_lines : ℕ → InvoiceTotals Double → TotalsRawText → List Line
  base_lines type t r =
      raw_total (codes "MontoGravadoTotal") r.monto_gravado_total (
        only_if (not (includes type (43 ∷ 44 ∷ 47 ∷ [])))
          (positive_field n f (codes "MontoGravadoTotal") (some (gravado_total t))))
      ++ raw_total (codes "MontoGravadoI1") r.monto_gravado_i1 (
          only_if (not (includes type (43 ∷ 44 ∷ 46 ∷ 47 ∷ [])))
            (positive_field n f (codes "MontoGravadoI1") (some t.taxable_amount18)))
      ++ raw_total (codes "MontoGravadoI2") r.monto_gravado_i2 (
          only_if (not (includes type (43 ∷ 44 ∷ 46 ∷ 47 ∷ [])))
            (positive_field n f (codes "MontoGravadoI2") (some t.taxable_amount16)))
      ++ raw_total (codes "MontoGravadoI3") r.monto_gravado_i3 (
          only_if (not (includes type (43 ∷ 44 ∷ 46 ∷ 47 ∷ [])))
            (positive_field n f (codes "MontoGravadoI3") (some t.taxable_amount0)))
      ++ raw_total (codes "MontoExento") r.monto_exento (
          only_if (not (type == 46))
            (positive_field n f (codes "MontoExento") (some t.exempt_amount)))

  unfoldable pub itbis_lines : ℕ → InvoiceTotals Double → TotalsRawText → List Line
  itbis_lines type t r =
      raw_total (codes "ITBIS1") r.itbis1 (
        only_if (not (includes type (43 ∷ 44 ∷ 46 ∷ 47 ∷ [])) && lt (of_nat 0) t.itbis18)
          (raw_line (codes "ITBIS1") (codes "18")))
      ++ raw_total (codes "ITBIS2") r.itbis2 (
          only_if (not (includes type (43 ∷ 44 ∷ 46 ∷ 47 ∷ [])) && lt (of_nat 0) t.itbis16)
            (raw_line (codes "ITBIS2") (codes "16")))
      ++ raw_total (codes "ITBIS3") r.itbis3 (
          only_if (not (includes type (43 ∷ 44 ∷ 46 ∷ 47 ∷ [])) && lt (of_nat 0) t.itbis0)
            (raw_line (codes "ITBIS3") (codes "0")))
      ++ raw_total (codes "TotalITBIS") r.total_itbis (
          only_if (not (includes type (43 ∷ 44 ∷ 47 ∷ [])))
            (positive_field n f (codes "TotalITBIS") (some t.total_itbis)))
      ++ raw_total (codes "TotalITBIS1") r.total_itbis1 (
          only_if (not (includes type (43 ∷ 44 ∷ 46 ∷ 47 ∷ [])))
            (positive_field n f (codes "TotalITBIS1") (some t.itbis18)))
      ++ raw_total (codes "TotalITBIS2") r.total_itbis2 (
          only_if (not (includes type (43 ∷ 44 ∷ 46 ∷ 47 ∷ [])))
            (positive_field n f (codes "TotalITBIS2") (some t.itbis16)))
      ++ raw_total (codes "TotalITBIS3") r.total_itbis3 (
          only_if (not (includes type (43 ∷ 44 ∷ 46 ∷ 47 ∷ [])))
            (positive_field n f (codes "TotalITBIS3") (some t.itbis0)))

  unfoldable pub total_lines :
      ℕ → InvoiceTotals Double → DocumentInput Double → TotalsRawText → List Line
  total_lines type t d r =
      raw_total (codes "MontoImpuestoAdicional") r.monto_impuesto_adicional (
        only_if (not (includes type (41 ∷ 43 ∷ 46 ∷ 47 ∷ []))) (
          positive_field n f (codes "MontoImpuestoAdicional")
            (some (round2 n (add t.total_isc t.total_otros_impuestos)))))
      ++ only_if (not (includes type (41 ∷ 43 ∷ 46 ∷ 47 ∷ []))) (
          entries_of (open_tag (codes "ImpuestosAdicionales"))
            (close_tag (codes "ImpuestosAdicionales")) (entry_lines type) t.additional_tax_entries)
      ++ raw_total (codes "MontoTotal") r.monto_total
          (raw_line (codes "MontoTotal") (f.amount t.total_amount))
      ++ raw_total (codes "MontoNoFacturable") r.monto_no_facturable (
          only_if (not (includes type (41 ∷ 43 ∷ 47 ∷ [])))
            (positive_field n f (codes "MontoNoFacturable") (some t.monto_no_facturable)))
      ++ amount_field n f (codes "MontoPeriodo") d.monto_periodo
      ++ amount_field n f (codes "ValorPagar") d.valor_pagar

  unfoldable pub retention_lines : ℕ → DocumentInput Double → TotalsRawText → List Line
  retention_lines type d r =
      raw_total (codes "TotalITBISRetenido") r.total_itbis_retenido (
        only_if (includes type (31 ∷ 33 ∷ 34 ∷ 41 ∷ []))
          (positive_field n f (codes "TotalITBISRetenido") d.retention.itbis_retenido))
      ++ raw_total (codes "TotalISRRetencion") r.total_isr_retencion (
          only_if (includes type (31 ∷ 33 ∷ 34 ∷ 41 ∷ 47 ∷ []))
            (positive_field n f (codes "TotalISRRetencion") d.retention.isr_retencion))
      ++ raw_total (codes "TotalITBISPercepcion") r.total_itbis_percepcion (
          only_if (includes type (31 ∷ 33 ∷ 34 ∷ 41 ∷ []))
            (positive_field n f (codes "TotalITBISPercepcion") d.retention.itbis_percepcion))
      ++ raw_total (codes "TotalISRPercepcion") r.total_isr_percepcion (
          only_if (includes type (31 ∷ 33 ∷ 34 ∷ 41 ∷ []))
            (positive_field n f (codes "TotalISRPercepcion") d.retention.isr_percepcion))

  -- `buildTotales`
  unfoldable pub build_totales : ℕ → InvoiceTotals Double → DocumentInput Double → List Line
  build_totales type t d =
      open_tag (codes "Totales")
      ∷ ((base_lines type t d.totals_raw_text
            ++ itbis_lines type t d.totals_raw_text
            ++ total_lines type t d d.totals_raw_text
            ++ retention_lines type d d.totals_raw_text)
          ++ close_tag (codes "Totales") ∷ [])

  -- `r2(x / rate)`
  abbrev pub converted : CurrencyInput Double → Double → Double
  converted c x = round2 n (div x c.exchange_rate)

  unfoldable pub converted_entry_lines :
      CurrencyInput Double → AdditionalTaxEntry Double → List Line
  converted_entry_lines c e =
      open_tag (codes "ImpuestoAdicionalOtraMoneda")
      ∷ ((raw_line (codes "TipoImpuestoOtraMoneda") e.tipo_impuesto
            ++ raw_line (codes "TasaImpuestoAdicionalOtraMoneda") (f.number e.tasa)
            ++ only_if (lt (of_nat 0) e.isc_especifico) (
                raw_line (codes "MontoImpuestoSelectivoConsumoEspecificoOtraMoneda")
                  (f.amount (converted c e.isc_especifico)))
            ++ only_if (lt (of_nat 0) e.isc_advalorem) (
                raw_line (codes "MontoImpuestoSelectivoConsumoAdvaloremOtraMoneda")
                  (f.amount (converted c e.isc_advalorem)))
            ++ only_if (lt (of_nat 0) e.otros) (
                raw_line (codes "OtrosImpuestosAdicionalesOtraMoneda")
                  (f.amount (converted c e.otros))))
          ++ close_tag (codes "ImpuestoAdicionalOtraMoneda") ∷ [])

  unfoldable pub converted_lines : CurrencyInput Double → InvoiceTotals Double → List Line
  converted_lines c t =
      only_if (lt (of_nat 0) t.taxable_amount18)
        (raw_line (codes "MontoGravado1OtraMoneda") (f.amount (converted c t.taxable_amount18)))
      ++ only_if (lt (of_nat 0) t.taxable_amount16)
          (raw_line (codes "MontoGravado2OtraMoneda") (f.amount (converted c t.taxable_amount16)))
      ++ only_if (lt (of_nat 0) t.taxable_amount0)
          (raw_line (codes "MontoGravado3OtraMoneda") (f.amount (converted c t.taxable_amount0)))
      ++ only_if (lt (of_nat 0) t.exempt_amount)
          (raw_line (codes "MontoExentoOtraMoneda") (f.amount (converted c t.exempt_amount)))
      ++ only_if (lt (of_nat 0) t.total_itbis)
          (raw_line (codes "TotalITBISOtraMoneda") (f.amount (converted c t.total_itbis)))
      ++ only_if (lt (of_nat 0) t.itbis18)
          (raw_line (codes "TotalITBIS1OtraMoneda") (f.amount (converted c t.itbis18)))
      ++ only_if (lt (of_nat 0) t.itbis16)
          (raw_line (codes "TotalITBIS2OtraMoneda") (f.amount (converted c t.itbis16)))
      ++ only_if (lt (of_nat 0) t.itbis0)
          (raw_line (codes "TotalITBIS3OtraMoneda") (f.amount (converted c t.itbis0)))

  -- The lines of a document for a payment abroad, and those of the others.
  unfoldable pub payment_abroad_lines : CurrencyInput Double → InvoiceTotals Double → List Line
  payment_abroad_lines c t =
      only_if (lt (of_nat 0) t.exempt_amount)
        (raw_line (codes "MontoExentoOtraMoneda") (f.amount (converted c t.exempt_amount)))
      ++ raw_line (codes "MontoTotalOtraMoneda") (f.amount (converted c t.total_amount))

  unfoldable pub other_currency_lines : CurrencyInput Double → InvoiceTotals Double → List Line
  other_currency_lines c t =
      raw_line (codes "MontoGravadoTotalOtraMoneda") (f.amount (converted c (gravado_total t)))
      ++ converted_lines c t
      ++ positive_field n f (codes "MontoImpuestoAdicionalOtraMoneda")
          (some (converted c (add t.total_isc t.total_otros_impuestos)))
      ++ entries_of (open_tag (codes "ImpuestosAdicionalesOtraMoneda"))
          (close_tag (codes "ImpuestosAdicionalesOtraMoneda")) (converted_entry_lines c)
          t.additional_tax_entries
      ++ raw_line (codes "MontoTotalOtraMoneda") (f.amount (converted c t.total_amount))

  -- `buildOtraMoneda`
  unfoldable pub build_otra_moneda : CurrencyInput Double → InvoiceTotals Double → ℕ → List Line
  build_otra_moneda c t type =
      open_tag (codes "OtraMoneda")
      ∷ ((text_line (codes "TipoMoneda") c.code
            ++ raw_line (codes "TipoCambio") (f.price c.exchange_rate)
            ++ (if type == 47 then payment_abroad_lines c t else other_currency_lines c t))
          ++ close_tag (codes "OtraMoneda") ∷ [])
