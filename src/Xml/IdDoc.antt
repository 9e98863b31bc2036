-- ===== src/Xml/IdDoc.antt =====
-- `buildIdDoc` of src/xml-builder/xml-builder.service.ts.
pub mod Written
use ecf_api.Prelude.{
  ℕ, ◌-◌, ◌*◌, ◌/◌, Bool, true, false, ◌&&◌, ◌||◌, not, List, [], ◌∷◌, ◌++◌, Option, none, some,
  ltb, ◌==◌, if◌then◌else◌, includes,
}
use ecf_api.Prelude.Text.{Text, codes, to_string, pad_start}
use ecf_api.Prelude.Numbers.{Numbers}
use ecf_api.Types.{Time}
use ecf_api.Invoices.{given}
use ecf_api.Amounts.{or_else}
use ecf_api.Xml.{
  Line, element, text_line, raw_line, text_field, only_if, open_tag, close_tag, text_or, raw_or,
  for_each, Format,
}
use ecf_api.Xml.Input.{PaymentForm, PaymentInput, DocumentItem, DocumentReference, DocumentInput}

-- The clock of a call: now, the end of the next year, and the day that a text in a reference names, if any.
pub record Clock : Type 0 where
  pub now : Time
  pub end_of_next_year : Time
  pub parse_dgii_date : Text → Option Time

abbrev pub or_time : Option Time → Time → Time
or_time none t = t
or_time (some s) t = s

abbrev pub day : ℕ
day = 1000 * 60 * 60 * 24

-- 1 for a credit note on a document older than 30 days.
unfoldable pub age_indicator : Clock → Option DocumentReference → ℕ
age_indicator c none = 0
age_indicator c (some r) = elim (c.parse_dgii_date r.checked.date) [
  | none ↦ 0
  | some t ↦ if ltb 30 ((c.now - t) / day) then 1 else 0
]

unfoldable pub nota_credito : {D : Type 0} → Clock → DocumentInput D → ℕ
nota_credito c d = elim d.indicador_nota_credito [ some i ↦ i | none ↦ age_indicator c d.reference ]

abbrev pub is_some_number : ℕ → Option ℕ → Bool
is_some_number k none = false
is_some_number k (some i) = i == k

unfoldable pub count_field : Text → Option ℕ → List Line
count_field name none = []
count_field name (some k) = raw_line name (to_string k)

-- `items[0]?.incomeType`
abbrev pub income_type_of : {D : Type 0} → List (DocumentItem D) → Option ℕ
income_type_of [] = none
income_type_of (i ∷ items) = i.income_type

unfoldable pub tipo_ingresos : ℕ → Option ℕ → List Line
tipo_ingresos type (some k) = raw_line (codes "TipoIngresos") (pad_start 2 b'0' (to_string k))
tipo_ingresos type none =
    only_if (not (includes type (33 ∷ 34 ∷ []))) (raw_line (codes "TipoIngresos") (codes "01"))

module _ (n : Numbers) (f : Format n.Double) where
  open n use {Double, of_nat, eq, truthy}

  unfoldable pub tipo_pago : ℕ → DocumentInput Double → List Line
  tipo_pago type d =
      let line = raw_line (codes "TipoPago") (f.number d.payment.payment_type) in
      if includes type (43 ∷ 47 ∷ [])
      then elim d.emit_tipo_pago [
        | none ↦ only_if (truthy d.payment.payment_type) line
        | some emit ↦ only_if emit line
      ]
      else line

  unfoldable pub termino_pago : Option Double → List Line
  termino_pago none = []
  termino_pago (some k) =
      only_if (truthy k) (raw_line (codes "TerminoPago") (f.number k ++ codes " dias"))

  unfoldable pub form_lines : PaymentForm Double → List Line
  form_lines form =
      open_tag (codes "FormaDePago")
      ∷ ((raw_line (codes "FormaPago") (f.number form.method)
            ++ raw_line (codes "MontoPago") (raw_or form.raw_amount (f.amount form.amount)))
          ++ close_tag (codes "FormaDePago") ∷ [])

  unfoldable pub payment_forms : Double → PaymentInput Double → List Line
  payment_forms total p = elim p.forms [
    | [] ↦
        (open_tag (codes "FormaDePago")
          ∷ ((raw_line (codes "FormaPago") (f.number (or_else n p.method (of_nat 1)))
                ++ raw_line (codes "MontoPago") (f.amount total))
              ++ close_tag (codes "FormaDePago") ∷ []))
    | form ∷ forms ↦ for_each form_lines (form ∷ forms)
  ]

  unfoldable pub account_lines : PaymentInput Double → List Line
  account_lines p =
      text_field (codes "TipoCuentaPago") p.account_type
      ++ text_field (codes "NumeroCuentaPago") p.account_number
      ++ text_field (codes "BancoPago") p.bank

  unfoldable pub indicator_lines : ℕ → Clock → DocumentInput Double → List Line
  indicator_lines type c d =
      only_if (not (type == 32) && not (type == 34)) (
        raw_line (codes "FechaVencimientoSecuencia")
          (f.date (or_time d.sequence_expires_at c.end_of_next_year)))
      ++ only_if (type == 34)
          (raw_line (codes "IndicadorNotaCredito") (to_string (nota_credito c d)))
      ++ only_if
          (not (includes type (41 ∷ 43 ∷ 47 ∷ [])) && is_some_number 1 d.indicador_envio_diferido)
          (raw_line (codes "IndicadorEnvioDiferido") (codes "1"))
      ++ only_if (not (includes type (43 ∷ 44 ∷ 46 ∷ 47 ∷ [])))
          (count_field (codes "IndicadorMontoGravado") d.indicador_monto_gravado)
      ++ only_if (not (includes type (41 ∷ 43 ∷ 47 ∷ [])))
          (tipo_ingresos type (income_type_of d.items))

  unfoldable pub payment_lines : ℕ → Clock → DocumentInput Double → Double → List Line
  payment_lines type c d total =
      tipo_pago type d
      ++ only_if (not (type == 43) && eq d.payment.payment_type (of_nat 2))
          (raw_line (codes "FechaLimitePago") (text_or d.payment.date (f.date c.now)))
      ++ only_if (not (includes type (34 ∷ 43 ∷ []))) (termino_pago d.payment.term_days)
      ++ only_if (not (includes type (34 ∷ 43 ∷ []))) (
          (open_tag (codes "TablaFormasPago")
            ∷ ((payment_forms total d.payment) ++ close_tag (codes "TablaFormasPago") ∷ [])))
      ++ only_if (not (includes type (34 ∷ 43 ∷ []))) (account_lines d.payment)

  -- `buildIdDoc`
  unfoldable pub build_id_doc : ℕ → Text → Clock → DocumentInput Double → Double → List Line
  build_id_doc type encf c d total =
      open_tag (codes "IdDoc")
      ∷ ((raw_line (codes "TipoeCF") (to_string type)
            ++ text_line (codes "eNCF") encf
            ++ indicator_lines type c d
            ++ payment_lines type c d total)
          ++ close_tag (codes "IdDoc") ∷ [])
