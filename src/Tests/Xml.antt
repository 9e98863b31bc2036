-- ===== src/Tests/Xml.antt =====
-- `buildEcfXml` and `escapeXml` of src/xml-builder/xml-builder.service.ts at work, on natural numbers.
use ecf_api.Prelude.{ℕ, ◌≡◌, refl, List, [], ◌∷◌, none, some}
use ecf_api.Prelude.Text.{codes, to_string}
use ecf_api.Prelude.Results.{Result, ok, err}
use ecf_api.Sequences.{ecf_type_prefix}
use ecf_api.Validation.{
  TaxedItem, totals_differ, validate_cuadratura, sum_lines, validate_invoice_input, get_type_code,
  validate_buyer_rnc, validate_given_rnc, validate_items, max_items, estimate_total, estimate_from,
  validate_lines, validate_item, validate_additional_tax, validate_payment, validate_reference,
  validate_fecha_emision, validate_sequence_expiration,
}
use ecf_api.Xml.{Line, Format, escape_xml, strip_invalid}
use ecf_api.Xml.Escape.{IsPlain, unescape, unescape-escape_xml}
use ecf_api.Xml.Safe.{IsPlainFormat, IsWellFormed, to_string-IsPlain}
use ecf_api.Xml.Totales.Written.{HasPlainTotals}
use ecf_api.Xml.Items.Written.{HasPlainItem}
use ecf_api.Xml.Document.Built.{HasPlainInput, build_ecf_xml-IsWellFormed}
use ecf_api.Xml.Parties.{EmitterData, BuyerInput, build_emisor, check_place, build_comprador}
use ecf_api.Xml.Input.{ItemRawText, DocumentItem, DocumentInput, input_of}
use ecf_api.Xml.Anecf.{AnecfRange}
use ecf_api.Xml.IdDoc.{Clock}
use ecf_api.Xml.Totals.{
  InvoiceTotals, calculate_totals, totals_of, add_items, add_item, add_amounts, no_sums,
}
use ecf_api.Xml.Totals.Lines.{sum_by, calculate_totals-lines}
use ecf_api.Xml.Document.{BuildError, build_ecf_xml, build_sections}
use ecf_api.Amounts.{round2, resolve_indicador, line_subtotal}
use ecf_api.Tests.Amounts.{whole}
use ecf_api.Tests.Invoices.{item}

unescape-escape_xml_example :
    IsPlain (escape_xml (codes "<&amp;>"))
    × (unescape none (escape_xml (codes "<&amp;>")) ≡ strip_invalid (codes "<&amp;>"))
unescape-escape_xml_example = unescape-escape_xml (codes "<&amp;>")

escaped : escape_xml (codes "<&amp;>") ≡ codes "&lt;&amp;amp;&gt;"
unfolding escape_xml
escaped = refl

abbrev printed_numbers : Format ℕ
printed_numbers = record {
  amount = to_string;
  price = to_string;
  sub_quantity = to_string;
  number = to_string;
  date = to_string;
}

abbrev emitter : EmitterData
emitter = record {
  rnc = codes "101";
  business_name = codes "A & B";
  trade_name = none;
  branch_code = none;
  address = none;
  municipality = none;
  province = none;
  phones = [];
  email = none;
  website = none;
  economic_activity = none;
  vendor_code = none;
  internal_invoice_number = none;
  internal_order_number = none;
  sales_zone = none;
  sales_route = none;
  additional_info = none;
}

abbrev buyer : BuyerInput
buyer = record {
  rnc = none;
  name = codes "C";
  contact_name = none;
  email = none;
  address = none;
  municipality = none;
  province = none;
  foreign_id = none;
  country = none;
  delivery_date = none;
  delivery_contact = none;
  delivery_address = none;
  additional_phone = none;
  order_date = none;
  order_number = none;
  internal_code = none;
  payment_responsible = none;
  additional_info = none;
}

abbrev no_text : ItemRawText
no_text = record {
  cantidad_item = none;
  precio_unitario_item = none;
  precio_unitario_referencia = none;
  precio_otra_moneda = none;
  monto_item = none;
  descuento_monto = none;
  recargo_monto = none;
  cantidad_referencia = none;
}

abbrev taxed : TaxedItem ℕ
taxed = record {
  description = codes "d";
  amounts = record item { indicador_facturacion = some 1 };
  additional_tax_code = none;
  additional_tax_rate = none;
  alcohol_degrees = none;
  reference_quantity = none;
  sub_quantity = none;
  reference_unit_price = none;
  unit_measure_code = none;
}

abbrev line : DocumentItem ℕ
line = record {
  taxed = taxed;
  line_number = none;
  long_description = none;
  good_service = none;
  code = none;
  code_type = none;
  unit = none;
  income_type = none;
  retencion_indicador = none;
  monto_itbis_retenido = none;
  monto_isr_retenido = none;
  sub_quantity_code = none;
  manufacturing_date = none;
  expiration_date = none;
  indicador_monto_gravado = none;
  raw_text = no_text;
  sub_descuentos = [];
  sub_recargos = [];
}

-- A line that is not billable.
abbrev free_line : DocumentItem ℕ
free_line = record line {
  taxed = record taxed { amounts = record item { indicador_facturacion = some 0 } };
}

calculate_totals-lines_example :
    let totals = calculate_totals whole (line ∷ free_line ∷ []) 0 in
    (totals.taxable_amount18
      ≡ round2 whole (sum_by whole 1 (λ l. l.subtotal) 1 (line ∷ free_line ∷ []) 0))
    × (totals.taxable_amount16
        ≡ round2 whole (sum_by whole 2 (λ l. l.subtotal) 1 (line ∷ free_line ∷ []) 0))
    × (totals.taxable_amount0
        ≡ round2 whole (sum_by whole 3 (λ l. l.subtotal) 1 (line ∷ free_line ∷ []) 0))
    × (totals.exempt_amount
        ≡ round2 whole (sum_by whole 4 (λ l. l.subtotal) 1 (line ∷ free_line ∷ []) 0))
    × (totals.monto_no_facturable
        ≡ round2 whole (sum_by whole 0 (λ l. l.subtotal) 1 (line ∷ free_line ∷ []) 0))
    × (totals.itbis18
        ≡ round2 whole (sum_by whole 1 (λ l. l.itbis_amount) 1 (line ∷ free_line ∷ []) 0))
    × (totals.itbis16
        ≡ round2 whole (sum_by whole 2 (λ l. l.itbis_amount) 1 (line ∷ free_line ∷ []) 0))
unfolding resolve_indicador
calculate_totals-lines_example =
    calculate_totals-lines whole (line ∷ free_line ∷ []) 0 (refl, (refl, tt))

-- The check of the totals counts a line that is not billable, which the totals leave out of the subtotal.
refused :
    validate_cuadratura whole
      (taxed ∷ free_line.taxed ∷ [])
      (calculate_totals whole (line ∷ free_line ∷ []) 0).subtotal_before_tax
    ≡ err totals_differ
unfolding validate_cuadratura round2 sum_lines calculate_totals totals_of add_items add_item
    add_amounts resolve_indicador no_sums line_subtotal
refused = refl

abbrev input : DocumentInput ℕ
input = record {
  ecf_type = codes "E32";
  company_id = codes "7";
  buyer = buyer;
  items = line ∷ [];
  payment = record {
    payment_type = 1;
    method = none;
    date = none;
    term_days = none;
    account_type = none;
    account_number = none;
    bank = some (codes "<b>");
    forms = [];
  };
  reference = none;
  currency = none;
  discounts_or_surcharges = [];
  indicador_monto_gravado = none;
  indicador_envio_diferido = none;
  indicador_nota_credito = none;
  monto_periodo = none;
  valor_pagar = none;
  emit_tipo_pago = none;
  totals_raw_text = record {
    monto_gravado_total = none;
    monto_gravado_i1 = none;
    monto_gravado_i2 = none;
    monto_gravado_i3 = none;
    monto_exento = none;
    itbis1 = none;
    itbis2 = none;
    itbis3 = none;
    total_itbis = none;
    total_itbis1 = none;
    total_itbis2 = none;
    total_itbis3 = none;
    monto_impuesto_adicional = none;
    monto_total = none;
    monto_no_facturable = none;
    total_itbis_retenido = none;
    total_isr_retencion = none;
    total_itbis_percepcion = none;
    total_isr_percepcion = none;
  };
  fecha_emision = none;
  sequence_expires_at = none;
  retention = record {
    itbis_retenido = none;
    isr_retencion = none;
    itbis_percepcion = none;
    isr_percepcion = none;
  };
  subtotales_informativos = [];
  paginacion = [];
  additional_info = none;
  transport = none;
}

abbrev clock : Clock
clock = record { now = 0; end_of_next_year = 0; parse_dgii_date = λ _. none }

abbrev made : Result BuildError (List Line × InvoiceTotals ℕ) → List Line × InvoiceTotals ℕ
made (ok p) = p
made (err _) = ([], calculate_totals whole [] 0)

abbrev document : List Line × InvoiceTotals ℕ
document = made (build_ecf_xml whole printed_numbers clock input emitter (codes "E320000000001"))

document_made :
    build_ecf_xml whole printed_numbers clock input emitter (codes "E320000000001") ≡ ok document
unfolding build_ecf_xml validate_invoice_input get_type_code ecf_type_prefix input_of
    validate_buyer_rnc validate_given_rnc validate_items max_items estimate_total estimate_from
    validate_lines validate_item validate_additional_tax validate_payment validate_reference
    validate_fecha_emision validate_sequence_expiration validate_cuadratura sum_lines round2
    calculate_totals totals_of add_items add_item add_amounts resolve_indicador no_sums
    line_subtotal build_sections build_emisor check_place build_comprador
document_made = refl

whole_numbers_IsPlain : IsPlainFormat printed_numbers
whole_numbers_IsPlain = record {
  plain_amount = to_string-IsPlain;
  plain_price = to_string-IsPlain;
  plain_sub_quantity = to_string-IsPlain;
  plain_number = to_string-IsPlain;
  plain_date = to_string-IsPlain;
}

no_raw_text : HasPlainItem line
no_raw_text = record {
  tax_code = tt;
  manufacturing_date = tt;
  expiration_date = tt;
  cantidad_item = tt;
  precio_unitario_item = tt;
  precio_unitario_referencia = tt;
  precio_otra_moneda = tt;
  monto_item = tt;
  descuento_monto = tt;
  recargo_monto = tt;
  cantidad_referencia = tt;
  sub_descuentos = tt;
  sub_recargos = tt;
}

no_raw_totals : HasPlainTotals input.totals_raw_text
no_raw_totals = record {
  monto_gravado_total = tt;
  monto_gravado_i1 = tt;
  monto_gravado_i2 = tt;
  monto_gravado_i3 = tt;
  monto_exento = tt;
  itbis1 = tt;
  itbis2 = tt;
  itbis3 = tt;
  total_itbis = tt;
  total_itbis1 = tt;
  total_itbis2 = tt;
  total_itbis3 = tt;
  monto_impuesto_adicional = tt;
  monto_total = tt;
  monto_no_facturable = tt;
  total_itbis_retenido = tt;
  total_isr_retencion = tt;
  total_itbis_percepcion = tt;
  total_isr_percepcion = tt;
}

input_IsPlain : HasPlainInput input
input_IsPlain = record {
  fecha = tt;
  payment_date = tt;
  forms = tt;
  reference_date = tt;
  info_date = tt;
  items = (no_raw_text, tt);
  totals = no_raw_totals;
}

build_ecf_xml-IsWellFormed_example : IsWellFormed document.0
build_ecf_xml-IsWellFormed_example =
    build_ecf_xml-IsWellFormed whole printed_numbers clock input emitter (codes "E320000000001")
      document.0 document.1 whole_numbers_IsPlain input_IsPlain document_made

abbrev annulled : List AnecfRange
annulled =
    record {
      encf_desde = codes "E310000000001";
      encf_hasta = codes "E310000000005";
      type_code = 31;
      from_num = 1;
      to_num = 5;
    }
    ∷ record {
      encf_desde = codes "E330000000001";
      encf_hasta = codes "E330000000003";
      type_code = 33;
      from_num = 1;
      to_num = 3;
    }
    ∷ []
