-- ===== src/Xml/Annexes/Written.antt =====
-- Lemmas on the safety of the optional sections of src/xml-builder/xml-builder.service.ts.
use ecf_api.Prelude.{
  ℕ, ◌+◌, Bool, true, false, inl, inr, List, [], ◌∷◌, Option, none, some, ◌==◌, if◌then◌else◌,
  if_rule, refl, Option-cases,
}
use ecf_api.Prelude.Text.{Text, codes}
use ecf_api.Prelude.Numbers.{Numbers}
use ecf_api.Invoices.{given}
use ecf_api.Xml.{open_tag, close_tag, Line, Format}
use ecf_api.Xml.Escape.{IsPlain}
use ecf_api.Xml.Safe.{
  IsSafe, printed, IsSafe-nil, IsSafe-open_tag, IsSafe-append, IsPlainOption, IsPlainFormat,
}
use ecf_api.Xml.Input.{
  DocumentReference, DiscountSurcharge, SubtotalInformativo, Pagina, AdditionalInfo, TransportInput,
}
use ecf_api.Xml.Annexes.{
  via_transporte_lines, reason_lines, build_informacion_referencia, unless_empty, info_lines,
  export_lines, build_informaciones_adicionales, carriage_lines, voyage_lines, build_transporte,
  gravado_lines, subtotal_lines, build_subtotales, percentage_lines, plain_number_field,
  adjustment_lines, adjustments_from, build_descuentos, page_amounts, page_tax_lines, page_lines,
  build_paginacion,
}

via_transporte_lines-IsSafe : (v : Option ℕ) → IsSafe (via_transporte_lines v)
unfolding via_transporte_lines
via_transporte_lines-IsSafe none = IsSafe-nil
via_transporte_lines-IsSafe (some k) =
    if_rule IsSafe (k == 0) (λ _. IsSafe-nil) (λ _. search printed depth 20)

reason_lines-IsSafe : (type : ℕ) (v : Option Text) → IsSafe (reason_lines type v)
unfolding reason_lines
reason_lines-IsSafe type v = elim (Option-cases (given v)) [
  | inl absent ↦ rw (absent, reason_lines) IsSafe-nil
  | inr (s, there) ↦ rw (there, reason_lines) (search printed depth 20)
]

pub build_informacion_referencia-IsSafe :
    (type : ℕ) (r : DocumentReference)
    → IsPlain r.checked.date
    → IsSafe (build_informacion_referencia type r)
unfolding build_informacion_referencia
build_informacion_referencia-IsSafe type r date =
    search (printed, reason_lines-IsSafe) depth 40 fits 6000

unless_empty-IsSafe :
    (name : Text) (lines : List Line)
    → IsSafe lines
    → IsSafe (unless_empty (open_tag name) (close_tag name) lines)
unfolding unless_empty
unless_empty-IsSafe name [] h = IsSafe-nil
unless_empty-IsSafe name (line ∷ lines) h = IsSafe-open_tag name (line ∷ lines) h

module _ (n : Numbers) (f : Format n.Double) where
  info_lines-IsSafe :
      (i : AdditionalInfo n.Double)
      → IsPlainFormat f
      → IsPlainOption i.shipment_date
      → IsSafe (info_lines n f i)
  unfolding info_lines
  info_lines-IsSafe i h date = search (printed) depth 40 fits 6000

  export_lines-IsSafe :
      (i : AdditionalInfo n.Double) → IsPlainFormat f → IsSafe (export_lines n f i)
  unfolding export_lines
  export_lines-IsSafe i h = search (printed) depth 40 fits 6000

  pub build_informaciones_adicionales-IsSafe :
      (type : ℕ) (i : AdditionalInfo n.Double)
      → IsPlainFormat f
      → IsPlainOption i.shipment_date
      → IsSafe (build_informaciones_adicionales n f type i)
  unfolding build_informaciones_adicionales
  build_informaciones_adicionales-IsSafe type i h date =
      search (printed, unless_empty-IsSafe, info_lines-IsSafe, export_lines-IsSafe) depth 40 fits
        6000

  carriage_lines-IsSafe :
      (t : TransportInput n.Double) → IsPlainFormat f → IsSafe (carriage_lines n f t)
  unfolding carriage_lines
  carriage_lines-IsSafe t h = search (printed) depth 40 fits 6000

  voyage_lines-IsSafe :
      (t : TransportInput n.Double) → IsPlainFormat f → IsSafe (voyage_lines n f t)
  unfolding voyage_lines
  voyage_lines-IsSafe t h = search (printed, via_transporte_lines-IsSafe) depth 40 fits 6000

  pub build_transporte-IsSafe :
      (type : ℕ) (t : TransportInput n.Double)
      → IsPlainFormat f
      → IsSafe (build_transporte n f type t)
  unfolding build_transporte
  build_transporte-IsSafe type t h =
      if_rule IsSafe (type == 47) (λ _. search (printed, unless_empty-IsSafe) depth 20)
        (λ _. search (printed, carriage_lines-IsSafe, voyage_lines-IsSafe) depth 20)

  gravado_lines-IsSafe :
      (s : SubtotalInformativo n.Double) → IsPlainFormat f → IsSafe (gravado_lines n f s)
  unfolding gravado_lines
  gravado_lines-IsSafe s h = search (printed) depth 40 fits 6000

  subtotal_lines-IsSafe :
      (s : SubtotalInformativo n.Double) → IsPlainFormat f → IsSafe (subtotal_lines n f s)
  unfolding subtotal_lines
  subtotal_lines-IsSafe s h = search (printed, gravado_lines-IsSafe) depth 40 fits 6000

  pub build_subtotales-IsSafe :
      (rows : List (SubtotalInformativo n.Double))
      → IsPlainFormat f
      → IsSafe (build_subtotales n f rows)
  unfolding build_subtotales
  build_subtotales-IsSafe [] h = IsSafe-nil
  build_subtotales-IsSafe (s ∷ rest) h = search (printed, subtotal_lines-IsSafe) depth 20

  percentage_lines-IsSafe :
      (v : Option n.Double) → IsPlainFormat f → IsSafe (percentage_lines n f v)
  unfolding percentage_lines
  percentage_lines-IsSafe none h = IsSafe-nil
  percentage_lines-IsSafe (some x) h = search printed depth 10

  plain_number_field-IsSafe :
      (name : Text) (v : Option n.Double) → IsPlainFormat f → IsSafe (plain_number_field n f name v)
  unfolding plain_number_field
  plain_number_field-IsSafe name none h = IsSafe-nil
  plain_number_field-IsSafe name (some x) h = search printed depth 20

  adjustment_type-IsPlain : (b : Bool) → IsPlain (if b then codes "D" else codes "R")
  adjustment_type-IsPlain true = ((refl, tt), refl)
  adjustment_type-IsPlain false = ((refl, tt), refl)

  adjustment_lines-IsSafe :
      (k : ℕ) (i : DiscountSurcharge n.Double) → IsPlainFormat f → IsSafe (adjustment_lines n f k i)
  unfolding adjustment_lines
  adjustment_lines-IsSafe k i h =
      search (printed, percentage_lines-IsSafe, plain_number_field-IsSafe, adjustment_type-IsPlain)
        depth 40 fits 6000

  adjustments_from-IsSafe :
      (k : ℕ) (rows : List (DiscountSurcharge n.Double))
      → IsPlainFormat f
      → IsSafe (adjustments_from n f k rows)
  unfolding adjustments_from
  adjustments_from-IsSafe k [] h = IsSafe-nil
  adjustments_from-IsSafe k (i ∷ rest) h =
      IsSafe-append (adjustment_lines n f k i) (adjustments_from n f (k + 1) rest)
        (adjustment_lines-IsSafe k i h) (adjustments_from-IsSafe (k + 1) rest h)

  pub build_descuentos-IsSafe :
      (rows : List (DiscountSurcharge n.Double))
      → IsPlainFormat f
      → IsSafe (build_descuentos n f rows)
  unfolding build_descuentos
  build_descuentos-IsSafe [] h = IsSafe-nil
  build_descuentos-IsSafe (i ∷ rest) h = search (printed, adjustments_from-IsSafe) depth 20

  page_amounts-IsSafe : (p : Pagina n.Double) → IsPlainFormat f → IsSafe (page_amounts n f p)
  unfolding page_amounts
  page_amounts-IsSafe p h = search (printed) depth 40 fits 6000

  page_tax_lines-IsSafe : (p : Pagina n.Double) → IsPlainFormat f → IsSafe (page_tax_lines n f p)
  unfolding page_tax_lines
  page_tax_lines-IsSafe p h = search (printed, unless_empty-IsSafe) depth 40 fits 6000

  page_lines-IsSafe : (p : Pagina n.Double) → IsPlainFormat f → IsSafe (page_lines n f p)
  unfolding page_lines
  page_lines-IsSafe p h =
      search (printed, page_amounts-IsSafe, page_tax_lines-IsSafe) depth 40 fits 6000

  pub build_paginacion-IsSafe :
      (rows : List (Pagina n.Double)) → IsPlainFormat f → IsSafe (build_paginacion n f rows)
  unfolding build_paginacion
  build_paginacion-IsSafe [] h = IsSafe-nil
  build_paginacion-IsSafe (p ∷ rest) h = search (printed, page_lines-IsSafe) depth 20
