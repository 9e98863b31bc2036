-- ===== src/Tests/Validation.antt =====
-- The checks of src/validation/validation.service.ts at work, on natural numbers.
use ecf_api.Prelude.{◌≡◌, ◌≤◌, refl, [], ◌∷◌, none, some, length}
use ecf_api.Prelude.Text.{codes}
use ecf_api.Prelude.Results.{ok, err}
use ecf_api.Prelude.Rows.{All}
use ecf_api.Sequences.{ecf_type_prefix}
use ecf_api.Validation.{
  TaxedItem, InvoiceInput, quantity_not_positive, bad_line, validate_invoice_input, get_type_code,
  validate_buyer_rnc, validate_given_rnc, validate_items, max_items, validate_lines, validate_item,
  validate_additional_tax, validate_payment, validate_reference, validate_fecha_emision,
  validate_sequence_expiration, is_dgii_date, is_month_and_year, split_dash, estimate_total,
  estimate_from,
}
use ecf_api.Validation.Lines.{IsLine, validate_invoice_input-Lines}
use ecf_api.Tests.Amounts.{whole}
use ecf_api.Tests.Invoices.{item}

abbrev service : TaxedItem whole.Double
service = record {
  description = codes "Consulta";
  amounts = item;
  additional_tax_code = none;
  additional_tax_rate = none;
  alcohol_degrees = none;
  reference_quantity = none;
  sub_quantity = none;
  reference_unit_price = none;
  unit_measure_code = none;
}

-- The second line has no units.
abbrev empty : TaxedItem whole.Double
empty = record service { amounts = record item { quantity = 0 } }

refused : validate_lines whole 1 (service ∷ empty ∷ []) ≡ err (bad_line 2 quantity_not_positive)
unfolding validate_lines validate_item validate_additional_tax
refused = refl

abbrev input : InvoiceInput whole.Double
input = record {
  ecf_type = codes "E32";
  company_id = codes "c";
  buyer_rnc = none;
  items = service ∷ [];
  payment_type = 1;
  reference = none;
  fecha_emision = some (codes "25-01-2024");
}

passes : validate_invoice_input whole 5 input none ≡ ok tt
unfolding validate_invoice_input get_type_code validate_buyer_rnc validate_given_rnc validate_items
    max_items validate_lines validate_item validate_additional_tax validate_payment
    validate_reference validate_fecha_emision validate_sequence_expiration is_dgii_date
    is_month_and_year split_dash ecf_type_prefix estimate_total estimate_from
passes = refl

validate_invoice_input-Lines_example :
    (1 ≤ length input.items) × (length input.items ≤ 10000) × All (IsLine whole) input.items
validate_invoice_input-Lines_example = validate_invoice_input-Lines whole 5 input none passes
