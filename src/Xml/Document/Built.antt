-- ===== src/Xml/Document/Built.antt =====
-- The document of `buildEcfXml` of src/xml-builder/xml-builder.service.ts.
use ecf_api.Prelude.{ℕ, ◌≡◌, List, Option, none, some, map}
use mathlib.Core.Path.{subst}
use ecf_api.Prelude.Text.{Text}
use ecf_api.Prelude.Numbers.{Numbers}
use ecf_api.Prelude.Rows.{All}
use ecf_api.Prelude.Results.{Result, ok, err, and_then-ok}
use ecf_api.Validation.{get_type_code, validate_invoice_input, validate_cuadratura}
use ecf_api.Xml.{Line, Format}
use ecf_api.Xml.Escape.{IsPlain}
use ecf_api.Xml.Safe.{
  IsSafe, IsWellFormed, IsSafe-WellFormed, printed, IsSafe-nil, IsPlainOption, IsPlainFormat,
  text_or-IsPlain, date-IsPlain,
}
use ecf_api.Xml.Parties.{EmitterData, XmlError, build_emisor, build_comprador}
use ecf_api.Xml.Parties.Written.{SafeResult, build_emisor-Safe, build_comprador-Safe}
use ecf_api.Xml.Input.{
  CurrencyInput, DocumentInput, DocumentReference, AdditionalInfo, TransportInput, input_of,
}
use ecf_api.Xml.IdDoc.{Clock}
use ecf_api.Xml.IdDoc.Written.{build_id_doc-IsSafe}
use ecf_api.Xml.Annexes.{
  build_informacion_referencia, build_informaciones_adicionales, build_transporte,
}
use ecf_api.Xml.Annexes.Written.{
  build_informacion_referencia-IsSafe, build_informaciones_adicionales-IsSafe,
  build_transporte-IsSafe, build_subtotales-IsSafe, build_descuentos-IsSafe,
  build_paginacion-IsSafe,
}
use ecf_api.Xml.Totals.{InvoiceTotals, calculate_totals}
use ecf_api.Xml.Totales.{build_otra_moneda}
use ecf_api.Xml.Totales.Written.{HasPlainTotals, build_totales-IsSafe, build_otra_moneda-IsSafe}
use ecf_api.Xml.Items.Written.{HasPlainItem, build_detalles_item-IsSafe}
use ecf_api.Xml.Document.{
  invalid_input, invalid_place, or_throw, foreign_currency, or_zero, section_of, assemble,
  build_sections, build_ecf_xml,
}
use ecf_api.Xml.Document.Entries.{calculate_totals-plain}

abbrev pub IsPlainReference : Option DocumentReference → Type 0
IsPlainReference none = Unit
IsPlainReference (some r) = IsPlain r.checked.date

abbrev pub IsPlainInfo : {D : Type 0} → Option (AdditionalInfo D) → Type 0
IsPlainInfo none = Unit
IsPlainInfo (some i) = IsPlainOption i.shipment_date

-- The texts of the input that the document shows without escaping them are plain.
pub record HasPlainInput {D : Type 0} (d : DocumentInput D) : Type 0 where
  pub fecha : IsPlainOption d.fecha_emision
  pub payment_date : IsPlainOption d.payment.date
  pub forms : All (λ form. IsPlainOption form.raw_amount) d.payment.forms
  pub reference_date : IsPlainReference d.reference
  pub info_date : IsPlainInfo d.additional_info
  pub items : All HasPlainItem d.items
  pub totals : HasPlainTotals d.totals_raw_text

or_throw-ok : {E F A : Type 0} (g : E → F) (r : Result E A) (a : A) → or_throw g r ≡ ok a → r ≡ ok a
or_throw-ok g (ok b) a h = cc
or_throw-ok g (err e) a h = cc

SafeResult-ok :
    (r : Result XmlError (List Line)) (lines : List Line)
    → r ≡ ok lines
    → SafeResult r
    → IsSafe lines
SafeResult-ok (ok l) lines e h = let same : l ≡ lines = cc in subst IsSafe same h
SafeResult-ok (err x) lines e h = cc

reference-IsSafe :
    (type : ℕ) (v : Option DocumentReference)
    → IsPlainReference v
    → IsSafe (section_of (build_informacion_referencia type) v)
unfolding section_of
reference-IsSafe type none h = IsSafe-nil
reference-IsSafe type (some r) h = build_informacion_referencia-IsSafe type r h

module _ (n : Numbers) (f : Format n.Double) where
  open n use {Double}

  info-IsSafe :
      (type : ℕ) (v : Option (AdditionalInfo Double))
      → IsPlainFormat f
      → IsPlainInfo v
      → IsSafe (section_of (build_informaciones_adicionales n f type) v)
  unfolding section_of
  info-IsSafe type none h k = IsSafe-nil
  info-IsSafe type (some i) h k = build_informaciones_adicionales-IsSafe n f type i h k

  transport-IsSafe :
      (type : ℕ) (v : Option (TransportInput Double))
      → IsPlainFormat f
      → IsSafe (section_of (build_transporte n f type) v)
  unfolding section_of
  transport-IsSafe type none h = IsSafe-nil
  transport-IsSafe type (some t) h = build_transporte-IsSafe n f type t h

  currency-IsSafe :
      (type : ℕ) (t : InvoiceTotals Double) (v : Option (CurrencyInput Double))
      → IsPlainFormat f
      → All (λ e. IsPlain e.tipo_impuesto) t.additional_tax_entries
      → IsSafe (section_of (λ x. build_otra_moneda n f x t type) v)
  unfolding section_of
  currency-IsSafe type t none h k = IsSafe-nil
  currency-IsSafe type t (some c) h k = build_otra_moneda-IsSafe n f c t type h k

  assemble-IsSafe :
      (type : ℕ) (encf : Text) (c : Clock) (d : DocumentInput Double) (t : InvoiceTotals Double)
      (emisor comprador : List Line)
      → IsPlainFormat f
      → HasPlainInput d
      → All (λ e. IsPlain e.tipo_impuesto) t.additional_tax_entries
      → IsSafe emisor
      → IsSafe comprador
      → IsSafe (assemble n f type encf c d t emisor comprador)
  unfolding assemble
  assemble-IsSafe type encf c d t emisor comprador h plain entries one two =
      let id_doc =
        build_id_doc-IsSafe n f type encf c d t.total_amount h plain.payment_date plain.forms in
      let totales = build_totales-IsSafe n f type t d h plain.totals entries in
      let info = info-IsSafe type d.additional_info h plain.info_date in
      let reference = reference-IsSafe type d.reference plain.reference_date in
      let otra = currency-IsSafe type t (foreign_currency d.currency) h entries in
      let detalles =
        build_detalles_item-IsSafe n f type (foreign_currency d.currency) d.items h plain.items in
      search
        (
          printed, transport-IsSafe, build_subtotales-IsSafe, build_descuentos-IsSafe,
          build_paginacion-IsSafe,
        )
        depth 40 fits 6000

  build_sections-IsSafe :
      (type : ℕ) (encf : Text) (c : Clock) (emitter : EmitterData) (d : DocumentInput Double)
      (t : InvoiceTotals Double) (lines : List Line)
      → IsPlainFormat f
      → HasPlainInput d
      → All (λ e. IsPlain e.tipo_impuesto) t.additional_tax_entries
      → build_sections n f type encf c emitter d t ≡ ok lines
      → IsSafe lines
  unfolding build_sections
  build_sections-IsSafe type encf c emitter d t lines h plain entries built =
      let (emisor, made_emisor, rest) = and_then-ok _ _ lines built in
      let (comprador, made_comprador, last) = and_then-ok _ _ lines rest in
      let today =
        text_or-IsPlain d.fecha_emision (f.date c.now) plain.fecha (date-IsPlain f c.now h) in
      let one =
        SafeResult-ok (build_emisor (f.date c.now) emitter d.fecha_emision) emisor
          (or_throw-ok invalid_place _ emisor made_emisor)
          (build_emisor-Safe (f.date c.now) emitter d.fecha_emision today) in
      let two =
        SafeResult-ok (build_comprador type d.buyer) comprador
          (or_throw-ok invalid_place _ comprador made_comprador)
          (build_comprador-Safe type d.buyer) in
      let same : assemble n f type encf c d t emisor comprador ≡ lines = cc last in
      subst IsSafe same (assemble-IsSafe type encf c d t emisor comprador h plain entries one two)

  -- A document that is built, from an input whose unescaped texts are plain and with numbers and dates that
  -- are printed plainly, is well formed, whatever stands in the texts of the two parties, the items and the
  -- other sections: every tag that closes a group names the one that was opened last, all are closed at the
  -- end, and the text of each element, which is one line with its name, is plain: it holds no `<`, `>`, `"`,
  -- `'` or control character, and every `&` in it begins one of the references that the escaping writes,
  -- closed by `;`.
  pub build_ecf_xml-IsWellFormed :
      (c : Clock) (d : DocumentInput Double) (emitter : EmitterData) (encf : Text)
      (lines : List Line) (totals : InvoiceTotals Double)
      → IsPlainFormat f
      → HasPlainInput d
      → build_ecf_xml n f c d emitter encf ≡ ok (lines, totals)
      → IsWellFormed lines
  unfolding build_ecf_xml
  build_ecf_xml-IsWellFormed c d emitter encf lines totals h plain built =
      let totals_made = calculate_totals n d.items (or_zero d.indicador_monto_gravado) in
      let (_, _, rest1) =
        and_then-ok (or_throw invalid_input (validate_invoice_input n c.now (input_of d) none)) _
          (lines, totals) built in
      let (_, _, rest2) =
        and_then-ok
          (or_throw invalid_input
            (validate_cuadratura n (map (λ i. i.taxed) d.items) totals_made.subtotal_before_tax))
          _ (lines, totals) rest1 in
      let (type, _, rest3) =
        and_then-ok (or_throw invalid_input (get_type_code d.ecf_type)) _ (lines, totals) rest2 in
      let (made, sections, last) =
        and_then-ok (build_sections n f type encf c emitter d totals_made)
          (λ made. ok (made, totals_made)) (lines, totals) rest3 in
      let entries =
        calculate_totals-plain n d.items (or_zero d.indicador_monto_gravado) plain.items in
      let safe_made =
        build_sections-IsSafe type encf c emitter d
          (calculate_totals n d.items (or_zero d.indicador_monto_gravado)) made h plain entries
          sections in
      let same : made ≡ lines = cc last in IsSafe-WellFormed lines (subst IsSafe same safe_made)
