-- ===== src/Xml/Totales/Written.antt =====
-- Lemmas on the safety of `buildTotales` and `buildOtraMoneda` of
-- src/xml-builder/xml-builder.service.ts.
use ecf_api.Prelude.{ℕ, List, [], ◌∷◌, Option, none, some, ◌==◌, if◌then◌else◌, if_rule}
use ecf_api.Prelude.Text.{Text, codes}
use ecf_api.Prelude.Numbers.{Numbers}
use ecf_api.Prelude.Rows.{All}
use ecf_api.Xml.{open_tag, close_tag, Line, for_each, Format}
use ecf_api.Xml.Escape.{IsPlain}
use ecf_api.Xml.Safe.{
  IsSafe, printed, IsSafe-nil, IsSafe-raw_line, IsSafe-open_tag, IsSafe-for-All, IsPlainOption,
  IsPlainFormat,
}
use ecf_api.Xml.Input.{CurrencyInput, TotalsRawText, DocumentInput}
use ecf_api.Xml.Totals.{AdditionalTaxEntry, InvoiceTotals}
use ecf_api.Xml.Totales.{
  raw_total, entries_of, entry_lines, base_lines, itbis_lines, total_lines, retention_lines,
  build_totales, converted_entry_lines, converted_lines, payment_abroad_lines, other_currency_lines,
  build_otra_moneda,
}

-- The texts that replace computed totals are plain.
pub record HasPlainTotals (r : TotalsRawText) : Type 0 where
  pub monto_gravado_total : IsPlainOption r.monto_gravado_total
  pub monto_gravado_i1 : IsPlainOption r.monto_gravado_i1
  pub monto_gravado_i2 : IsPlainOption r.monto_gravado_i2
  pub monto_gravado_i3 : IsPlainOption r.monto_gravado_i3
  pub monto_exento : IsPlainOption r.monto_exento
  pub itbis1 : IsPlainOption r.itbis1
  pub itbis2 : IsPlainOption r.itbis2
  pub itbis3 : IsPlainOption r.itbis3
  pub total_itbis : IsPlainOption r.total_itbis
  pub total_itbis1 : IsPlainOption r.total_itbis1
  pub total_itbis2 : IsPlainOption r.total_itbis2
  pub total_itbis3 : IsPlainOption r.total_itbis3
  pub monto_impuesto_adicional : IsPlainOption r.monto_impuesto_adicional
  pub monto_total : IsPlainOption r.monto_total
  pub monto_no_facturable : IsPlainOption r.monto_no_facturable
  pub total_itbis_retenido : IsPlainOption r.total_itbis_retenido
  pub total_isr_retencion : IsPlainOption r.total_isr_retencion
  pub total_itbis_percepcion : IsPlainOption r.total_itbis_percepcion
  pub total_isr_percepcion : IsPlainOption r.total_isr_percepcion

raw_total-IsSafe :
    (name : Text) (v : Option Text) (lines : List Line)
    → IsPlainOption v
    → IsSafe lines
    → IsSafe (raw_total name v lines)
unfolding raw_total
raw_total-IsSafe name none lines h k = k
raw_total-IsSafe name (some s) lines h k = IsSafe-raw_line name s h

pub entries_of-IsSafe :
    {A : Type 0} (name : Text) (g : A → List Line) (P : A → Type 0) (rows : List A)
    → ((x : A) → P x → IsSafe (g x))
    → All P rows
    → IsSafe (entries_of (open_tag name) (close_tag name) g rows)
unfolding entries_of
entries_of-IsSafe name g P [] h k = IsSafe-nil
entries_of-IsSafe name g P (x ∷ rows) h k =
    IsSafe-open_tag name (for_each g (x ∷ rows)) (IsSafe-for-All g P (x ∷ rows) h k)

module _ (n : Numbers) (f : Format n.Double) where
  entry_lines-IsSafe :
      (type : ℕ) (e : AdditionalTaxEntry n.Double)
      → IsPlainFormat f
      → IsPlain e.tipo_impuesto
      → IsSafe (entry_lines n f type e)
  unfolding entry_lines
  entry_lines-IsSafe type e h tipo = search (printed) depth 60 fits 9000

  base_lines-IsSafe :
      (type : ℕ) (t : InvoiceTotals n.Double) (r : TotalsRawText)
      → IsPlainFormat f
      → HasPlainTotals r
      → IsSafe (base_lines n f type t r)
  unfolding base_lines
  base_lines-IsSafe type t r h raw = search (printed, raw_total-IsSafe) depth 60 fits 9000

  itbis_lines-IsSafe :
      (type : ℕ) (t : InvoiceTotals n.Double) (r : TotalsRawText)
      → IsPlainFormat f
      → HasPlainTotals r
      → IsSafe (itbis_lines n f type t r)
  unfolding itbis_lines
  itbis_lines-IsSafe type t r h raw = search (printed, raw_total-IsSafe) depth 60 fits 9000

  entries-IsSafe :
      (type : ℕ) (t : InvoiceTotals n.Double)
      → IsPlainFormat f
      → All (λ e. IsPlain e.tipo_impuesto) t.additional_tax_entries
      → IsSafe (
          entries_of
            (open_tag (codes "ImpuestosAdicionales"))
            (close_tag (codes "ImpuestosAdicionales"))
            (entry_lines n f type)
            t.additional_tax_entries)
  entries-IsSafe type t h plain =
      entries_of-IsSafe (codes "ImpuestosAdicionales") (entry_lines n f type)
        (λ e. IsPlain e.tipo_impuesto) t.additional_tax_entries
        (λ e p. entry_lines-IsSafe type e h p) plain

  total_lines-IsSafe :
      (type : ℕ) (t : InvoiceTotals n.Double) (d : DocumentInput n.Double) (r : TotalsRawText)
      → IsPlainFormat f
      → HasPlainTotals r
      → All (λ e. IsPlain e.tipo_impuesto) t.additional_tax_entries
      → IsSafe (total_lines n f type t d r)
  unfolding total_lines
  total_lines-IsSafe type t d r h raw plain =
      search (printed, raw_total-IsSafe, entries-IsSafe) depth 60 fits 9000

  retention_lines-IsSafe :
      (type : ℕ) (d : DocumentInput n.Double) (r : TotalsRawText)
      → IsPlainFormat f
      → HasPlainTotals r
      → IsSafe (retention_lines n f type d r)
  unfolding retention_lines
  retention_lines-IsSafe type d r h raw = search (printed, raw_total-IsSafe) depth 60 fits 9000

  pub build_totales-IsSafe :
      (type : ℕ) (t : InvoiceTotals n.Double) (d : DocumentInput n.Double)
      → IsPlainFormat f
      → HasPlainTotals d.totals_raw_text
      → All (λ e. IsPlain e.tipo_impuesto) t.additional_tax_entries
      → IsSafe (build_totales n f type t d)
  unfolding build_totales
  build_totales-IsSafe type t d h raw plain =
      search
        (printed, base_lines-IsSafe, itbis_lines-IsSafe, total_lines-IsSafe, retention_lines-IsSafe)
        depth 60 fits 9000

  converted_entry_lines-IsSafe :
      (c : CurrencyInput n.Double) (e : AdditionalTaxEntry n.Double)
      → IsPlainFormat f
      → IsPlain e.tipo_impuesto
      → IsSafe (converted_entry_lines n f c e)
  unfolding converted_entry_lines
  converted_entry_lines-IsSafe c e h tipo = search (printed) depth 60 fits 9000

  converted_lines-IsSafe :
      (c : CurrencyInput n.Double) (t : InvoiceTotals n.Double)
      → IsPlainFormat f
      → IsSafe (converted_lines n f c t)
  unfolding converted_lines
  converted_lines-IsSafe c t h = search (printed) depth 60 fits 9000

  payment_abroad_lines-IsSafe :
      (c : CurrencyInput n.Double) (t : InvoiceTotals n.Double)
      → IsPlainFormat f
      → IsSafe (payment_abroad_lines n f c t)
  unfolding payment_abroad_lines
  payment_abroad_lines-IsSafe c t h = search (printed) depth 60 fits 9000

  converted_entries-IsSafe :
      (c : CurrencyInput n.Double) (t : InvoiceTotals n.Double)
      → IsPlainFormat f
      → All (λ e. IsPlain e.tipo_impuesto) t.additional_tax_entries
      → IsSafe (
          entries_of
            (open_tag (codes "ImpuestosAdicionalesOtraMoneda"))
            (close_tag (codes "ImpuestosAdicionalesOtraMoneda"))
            (converted_entry_lines n f c)
            t.additional_tax_entries)
  converted_entries-IsSafe c t h plain =
      entries_of-IsSafe (codes "ImpuestosAdicionalesOtraMoneda") (converted_entry_lines n f c)
        (λ e. IsPlain e.tipo_impuesto) t.additional_tax_entries
        (λ e p. converted_entry_lines-IsSafe c e h p) plain

  other_currency_lines-IsSafe :
      (c : CurrencyInput n.Double) (t : InvoiceTotals n.Double)
      → IsPlainFormat f
      → All (λ e. IsPlain e.tipo_impuesto) t.additional_tax_entries
      → IsSafe (other_currency_lines n f c t)
  unfolding other_currency_lines
  other_currency_lines-IsSafe c t h plain =
      search (printed, converted_lines-IsSafe, converted_entries-IsSafe) depth 60 fits 9000

  pub build_otra_moneda-IsSafe :
      (c : CurrencyInput n.Double) (t : InvoiceTotals n.Double) (type : ℕ)
      → IsPlainFormat f
      → All (λ e. IsPlain e.tipo_impuesto) t.additional_tax_entries
      → IsSafe (build_otra_moneda n f c t type)
  unfolding build_otra_moneda
  build_otra_moneda-IsSafe c t type h plain =
      let amounts : IsSafe
          (if type == 47 then payment_abroad_lines n f c t else other_currency_lines n f c t) =
        if_rule IsSafe (type == 47) (λ _. payment_abroad_lines-IsSafe c t h)
          (λ _. other_currency_lines-IsSafe c t h plain) in
      search printed depth 20
