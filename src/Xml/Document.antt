-- ===== src/Xml/Document.antt =====
-- `buildEcfXml` of src/xml-builder/xml-builder.service.ts: the lines of a document, in the order of the
-- sections, with its totals.
pub mod Entries
pub mod Built
use ecf_api.Prelude.{
  ℕ, Bool, true, false, not, List, [], ◌∷◌, ◌++◌, Option, none, some, if◌then◌else◌, map,
}
use ecf_api.Prelude.Text.{Text, codes, text_eq}
use ecf_api.Prelude.Numbers.{Numbers}
use ecf_api.Prelude.Results.{Result, ok, err, and_then}
use ecf_api.Validation.{ValidationError, get_type_code, validate_invoice_input, validate_cuadratura}
use ecf_api.Xml.{Line, element, raw_line, open_tag, close_tag, Format}
use ecf_api.Xml.Parties.{EmitterData, XmlError, build_emisor, build_comprador}
use ecf_api.Xml.Input.{
  CurrencyInput, DocumentInput, DocumentReference, AdditionalInfo, TransportInput, input_of,
}
use ecf_api.Xml.IdDoc.{Clock, build_id_doc}
use ecf_api.Xml.Annexes.{
  build_informacion_referencia, build_informaciones_adicionales, build_transporte, build_subtotales,
  build_descuentos, build_paginacion,
}
use ecf_api.Xml.Totals.{InvoiceTotals, calculate_totals}
use ecf_api.Xml.Totales.{build_totales, build_otra_moneda}
use ecf_api.Xml.Items.{build_detalles_item}

pub data BuildError : Type 0 where
  invalid_input : ValidationError → BuildError
  invalid_place : XmlError → BuildError

abbrev pub or_throw : {E F A : Type 0} → (E → F) → Result E A → Result F A
or_throw on_error (ok a) = ok a
or_throw on_error (err e) = err (on_error e)

-- `input.currency && input.currency.code !== 'DOP'`
unfoldable pub foreign_currency : {D : Type 0} → Option (CurrencyInput D) → Option (CurrencyInput D)
foreign_currency none = none
foreign_currency (some c) = if text_eq c.code (codes "DOP") then none else some c

abbrev pub or_zero : Option ℕ → ℕ
or_zero none = 0
or_zero (some k) = k

-- A section for a part of the input, if it is there.
unfoldable pub section_of : {A : Type 0} → (A → List Line) → Option A → List Line
section_of f none = []
section_of f (some a) = f a

module _ (n : Numbers) (f : Format n.Double) where
  open n use {Double}

  -- The document around its sections.
  unfoldable pub assemble :
      ℕ
      → Text
      → Clock
      → DocumentInput Double
      → InvoiceTotals Double
      → List Line
      → List Line
      → List Line
  assemble type encf c d totals emisor comprador =
      let currency = foreign_currency d.currency in
      (open_tag (codes "ECF")
        ∷ (((open_tag (codes "Encabezado")
                ∷ ((raw_line (codes "Version") (codes "1.0")
                      ++ build_id_doc n f type encf c d totals.total_amount
                      ++ emisor
                      ++ comprador
                      ++ section_of (build_informaciones_adicionales n f type) d.additional_info
                      ++ section_of (build_transporte n f type) d.transport
                      ++ build_totales n f type totals d
                      ++ section_of (λ x. build_otra_moneda n f x totals type) currency)
                    ++ close_tag (codes "Encabezado") ∷ []))
              ++ build_detalles_item n f type currency d.items
              ++ build_subtotales n f d.subtotales_informativos
              ++ build_descuentos n f d.discounts_or_surcharges
              ++ build_paginacion n f d.paginacion
              ++ section_of (build_informacion_referencia type) d.reference)
            ++ close_tag (codes "ECF") ∷ []))

  -- The sections that may throw, and the rest.
  unfoldable pub build_sections :
      ℕ
      → Text
      → Clock
      → EmitterData
      → DocumentInput Double
      → InvoiceTotals Double
      → Result BuildError (List Line)
  build_sections type encf c emitter d totals =
      and_then (or_throw invalid_place (build_emisor (f.date c.now) emitter d.fecha_emision))
        (λ emisor.
          and_then (or_throw invalid_place (build_comprador type d.buyer))
            (λ comprador. ok (assemble type encf c d totals emisor comprador)))

  -- `buildEcfXml`
  unfoldable pub build_ecf_xml :
      Clock
      → DocumentInput Double
      → EmitterData
      → Text
      → Result BuildError (List Line × InvoiceTotals Double)
  build_ecf_xml c d emitter encf =
      let totals = calculate_totals n d.items (or_zero d.indicador_monto_gravado) in
      and_then (or_throw invalid_input (validate_invoice_input n c.now (input_of d) none)) (λ _.
        and_then
          (or_throw invalid_input
            (validate_cuadratura n (map (λ i. i.taxed) d.items) totals.subtotal_before_tax))
          (λ _. and_then (or_throw invalid_input (get_type_code d.ecf_type)) (λ type.
            and_then (build_sections type encf c emitter d totals) (λ lines. ok (lines, totals)))))
