-- ===== src/Xml/IdDoc/Written.antt =====
-- Lemmas on the safety of `buildIdDoc` of src/xml-builder/xml-builder.service.ts.
use ecf_api.Prelude.{refl, Bool, List, [], ◌∷◌, ◌++◌, Option, ℕ, some, none, includes, if_rule}
use ecf_api.Prelude.Text.{Text, codes}
use ecf_api.Prelude.Numbers.{Numbers}
use ecf_api.Amounts.{or_else}
use ecf_api.Xml.{raw_line, only_if, open_tag, close_tag, for_each, Format}
use ecf_api.Xml.Escape.{IsPlain}
use ecf_api.Xml.Safe.{
  IsSafe, printed, IsSafe-nil, IsSafe-raw_line, IsSafe-for-All, IsPlainOption, IsPlainFormat,
  number-IsPlain,
}
use ecf_api.Prelude.Rows.{All}
use ecf_api.Xml.Input.{PaymentForm, PaymentInput, DocumentInput}
use ecf_api.Xml.IdDoc.{
  Clock, count_field, tipo_ingresos, tipo_pago, termino_pago, form_lines, payment_forms,
  account_lines, indicator_lines, payment_lines, build_id_doc,
}

count_field-IsSafe : (name : Text) (v : Option ℕ) → IsSafe (count_field name v)
unfolding count_field
count_field-IsSafe name none = IsSafe-nil
count_field-IsSafe name (some k) = search printed depth 20

tipo_ingresos-IsSafe : (type : ℕ) (v : Option ℕ) → IsSafe (tipo_ingresos type v)
unfolding tipo_ingresos
tipo_ingresos-IsSafe type none = search printed depth 20
tipo_ingresos-IsSafe type (some k) = search printed depth 20

module _ (n : Numbers) (f : Format n.Double) where
  tipo_pago-IsSafe :
      (type : ℕ) (d : DocumentInput n.Double) → IsPlainFormat f → IsSafe (tipo_pago n f type d)
  unfolding tipo_pago
  tipo_pago-IsSafe type d h =
      if_rule IsSafe (includes type (43 ∷ 47 ∷ [])) (λ _. optional d.emit_tipo_pago)
        (λ _.
          IsSafe-raw_line (codes "TipoPago") (f.number d.payment.payment_type)
            (number-IsPlain f _ h))
    where
      optional :
          (emit : Option Bool)
          → IsSafe (elim emit [
            | none ↦
                only_if
                  (n.truthy d.payment.payment_type)
                  (raw_line (codes "TipoPago") (f.number d.payment.payment_type))
            | some e ↦ only_if e (raw_line (codes "TipoPago") (f.number d.payment.payment_type))
          ])
      optional none = search printed depth 20
      optional (some e) = search printed depth 20

  termino_pago-IsSafe : (v : Option n.Double) → IsPlainFormat f → IsSafe (termino_pago n f v)
  unfolding termino_pago
  termino_pago-IsSafe none h = IsSafe-nil
  termino_pago-IsSafe (some k) h =
      let dias : IsPlain (codes " dias") = ((refl, (refl, (refl, (refl, (refl, tt))))), refl) in
      search printed depth 20

  form_lines-IsSafe :
      (form : PaymentForm n.Double)
      → IsPlainFormat f
      → IsPlainOption form.raw_amount
      → IsSafe (form_lines n f form)
  unfolding form_lines
  form_lines-IsSafe form h raw = search printed depth 20

  payment_forms-IsSafe :
      (total : n.Double) (p : PaymentInput n.Double)
      → IsPlainFormat f
      → All (λ form. IsPlainOption form.raw_amount) p.forms
      → IsSafe (payment_forms n f total p)
  unfolding payment_forms
  payment_forms-IsSafe total p h raw = go p.forms raw
    where
      go :
          (forms : List (PaymentForm n.Double))
          → All (λ form. IsPlainOption form.raw_amount) forms
          → IsSafe (elim forms [
            | [] ↦
                (open_tag (codes "FormaDePago")
                  ∷ ((raw_line (codes "FormaPago") (f.number (or_else n p.method (n.of_nat 1)))
                        ++ raw_line (codes "MontoPago") (f.amount total))
                      ++ close_tag (codes "FormaDePago") ∷ []))
            | form ∷ rest ↦ for_each (form_lines n f) (form ∷ rest)
          ])
      go [] all = search printed depth 20
      go (form ∷ rest) all =
          IsSafe-for-All (form_lines n f) (λ x. IsPlainOption x.raw_amount) (form ∷ rest)
            (λ x plain. form_lines-IsSafe x h plain) all

  account_lines-IsSafe : (p : PaymentInput n.Double) → IsSafe (account_lines n f p)
  unfolding account_lines
  account_lines-IsSafe p = search printed depth 20

  indicator_lines-IsSafe :
      (type : ℕ) (c : Clock) (d : DocumentInput n.Double)
      → IsPlainFormat f
      → IsSafe (indicator_lines n f type c d)
  unfolding indicator_lines
  indicator_lines-IsSafe type c d h =
      search (printed, count_field-IsSafe, tipo_ingresos-IsSafe) depth 30 fits 3000

  payment_lines-IsSafe :
      (type : ℕ) (c : Clock) (d : DocumentInput n.Double) (total : n.Double)
      → IsPlainFormat f
      → IsPlainOption d.payment.date
      → All (λ form. IsPlainOption form.raw_amount) d.payment.forms
      → IsSafe (payment_lines n f type c d total)
  unfolding payment_lines
  payment_lines-IsSafe type c d total h date raw =
      search
        (printed, tipo_pago-IsSafe, termino_pago-IsSafe, payment_forms-IsSafe, account_lines-IsSafe)
        depth 30 fits 3000

  pub build_id_doc-IsSafe :
      (type : ℕ) (encf : Text) (c : Clock) (d : DocumentInput n.Double) (total : n.Double)
      → IsPlainFormat f
      → IsPlainOption d.payment.date
      → All (λ form. IsPlainOption form.raw_amount) d.payment.forms
      → IsSafe (build_id_doc n f type encf c d total)
  unfolding build_id_doc
  build_id_doc-IsSafe type encf c d total h date raw =
      search (printed, indicator_lines-IsSafe, payment_lines-IsSafe) depth 30 fits 3000
