-- ===== src/Xml/Input.antt =====
-- `InvoiceInput` of src/xml-builder/invoice-input.interface.ts, the fields that the document shows, and
-- the view of it that the checks of src/validation/validation.service.ts have.
use ecf_api.Prelude.{ℕ, Bool, List, Option, none, some, map}
use ecf_api.Prelude.Text.{Text}
use ecf_api.Types.{Time}
use ecf_api.Validation.{TaxedItem, InvoiceInput, ReferenceInput}
use ecf_api.Xml.Parties.{BuyerInput}

pub record PaymentForm (D : Type 0) : Type 0 where
  pub method : D
  pub amount : D
  -- `rawText.MontoPago`
  pub raw_amount : Option Text

pub record PaymentInput (D : Type 0) : Type 0 where
  pub payment_type : D
  pub method : Option D
  pub date : Option Text
  pub term_days : Option D
  pub account_type : Option Text
  pub account_number : Option Text
  pub bank : Option Text
  pub forms : List (PaymentForm D)

pub record DocumentReference : Type 0 where
  pub checked : ReferenceInput
  pub rnc_otro_contribuyente : Option Text
  pub reason : Option Text

pub record CurrencyInput (D : Type 0) : Type 0 where
  pub code : Text
  pub exchange_rate : D

-- An entry of `subDescuentos` or of `subRecargos`.
pub record SubAdjustment : Type 0 where
  pub tipo : Text
  pub porcentaje : Option Text
  pub monto : Option Text

-- The texts of `rawText` of an item.
pub record ItemRawText : Type 0 where
  pub cantidad_item : Option Text
  pub precio_unitario_item : Option Text
  pub precio_unitario_referencia : Option Text
  pub precio_otra_moneda : Option Text
  pub monto_item : Option Text
  pub descuento_monto : Option Text
  pub recargo_monto : Option Text
  pub cantidad_referencia : Option Text

pub record DocumentItem (D : Type 0) : Type 0 where
  pub taxed : TaxedItem D
  pub line_number : Option D
  pub long_description : Option Text
  pub good_service : Option D
  pub code : Option Text
  pub code_type : Option Text
  pub unit : Option Text
  pub income_type : Option ℕ
  pub retencion_indicador : Option ℕ
  pub monto_itbis_retenido : Option D
  pub monto_isr_retenido : Option D
  pub sub_quantity_code : Option D
  pub manufacturing_date : Option Text
  pub expiration_date : Option Text
  pub indicador_monto_gravado : Option ℕ
  pub raw_text : ItemRawText
  pub sub_descuentos : List SubAdjustment
  pub sub_recargos : List SubAdjustment

pub record DiscountSurcharge (D : Type 0) : Type 0 where
  pub is_discount : Bool
  pub description : Text
  pub percentage : Option D
  pub amount : D
  pub indicador_norma1007 : Option D
  pub amount_other_currency : Option D
  pub indicador_facturacion : Option D

pub record SubtotalInformativo (D : Type 0) : Type 0 where
  pub numero : D
  pub nombre : Text
  pub gravado_i1 : Option D
  pub gravado_i2 : Option D
  pub gravado_i3 : Option D
  pub exento : Option D
  pub total_itbis : Option D
  pub itbis1 : Option D
  pub itbis2 : Option D
  pub itbis3 : Option D
  pub impuesto_adicional : Option D
  pub monto_subtotal : D

pub record Pagina (D : Type 0) : Type 0 where
  pub pagina_no : D
  pub no_linea_desde : D
  pub no_linea_hasta : D
  pub monto_gravado : Option D
  pub monto_gravado1 : Option D
  pub monto_gravado2 : Option D
  pub monto_gravado3 : Option D
  pub exento : Option D
  pub itbis : Option D
  pub itbis1 : Option D
  pub itbis2 : Option D
  pub itbis3 : Option D
  pub impuesto_adicional : Option D
  pub isc_especifico : Option D
  pub otros_impuesto : Option D
  pub monto_subtotal : D
  pub monto_no_facturable : Option D

-- `ExportAdditionalInfoInput`
pub record AdditionalInfo (D : Type 0) : Type 0 where
  pub shipment_date : Option Text
  pub shipment_number : Option Text
  pub container_number : Option Text
  pub reference_number : Option Text
  pub gross_weight : Option D
  pub net_weight : Option D
  pub gross_weight_unit : Option D
  pub net_weight_unit : Option D
  pub package_count : Option D
  pub package_unit : Option D
  pub package_volume : Option D
  pub volume_unit : Option D
  pub port_of_shipment : Option Text
  pub delivery_conditions : Option Text
  pub total_fob : Option D
  pub insurance : Option D
  pub freight : Option D
  pub other_expenses : Option D
  pub total_cif : Option D
  pub customs_regime : Option Text
  pub departure_port : Option Text
  pub arrival_port : Option Text

pub record TransportInput (D : Type 0) : Type 0 where
  pub conductor : Option Text
  pub documento_transporte : Option D
  pub ficha : Option Text
  pub placa : Option Text
  pub ruta_transporte : Option Text
  pub zona_transporte : Option Text
  pub numero_albaran : Option Text
  pub via_transporte : Option ℕ
  pub country_origin : Option Text
  pub destination_address : Option Text
  pub country_destination : Option Text
  pub carrier_rnc : Option Text
  pub carrier_name : Option Text
  pub trip_number : Option Text

pub record RetentionInput (D : Type 0) : Type 0 where
  pub itbis_retenido : Option D
  pub isr_retencion : Option D
  pub itbis_percepcion : Option D
  pub isr_percepcion : Option D

-- `TotalsRawText`
pub record TotalsRawText : Type 0 where
  pub monto_gravado_total : Option Text
  pub monto_gravado_i1 : Option Text
  pub monto_gravado_i2 : Option Text
  pub monto_gravado_i3 : Option Text
  pub monto_exento : Option Text
  pub itbis1 : Option Text
  pub itbis2 : Option Text
  pub itbis3 : Option Text
  pub total_itbis : Option Text
  pub total_itbis1 : Option Text
  pub total_itbis2 : Option Text
  pub total_itbis3 : Option Text
  pub monto_impuesto_adicional : Option Text
  pub monto_total : Option Text
  pub monto_no_facturable : Option Text
  pub total_itbis_retenido : Option Text
  pub total_isr_retencion : Option Text
  pub total_itbis_percepcion : Option Text
  pub total_isr_percepcion : Option Text

pub record DocumentInput (D : Type 0) : Type 0 where
  pub ecf_type : Text
  pub company_id : Text
  pub buyer : BuyerInput
  pub items : List (DocumentItem D)
  pub payment : PaymentInput D
  pub reference : Option DocumentReference
  pub currency : Option (CurrencyInput D)
  pub discounts_or_surcharges : List (DiscountSurcharge D)
  pub indicador_monto_gravado : Option ℕ
  pub indicador_envio_diferido : Option ℕ
  pub indicador_nota_credito : Option ℕ
  pub monto_periodo : Option D
  pub valor_pagar : Option D
  pub emit_tipo_pago : Option Bool
  pub totals_raw_text : TotalsRawText
  pub fecha_emision : Option Text
  pub sequence_expires_at : Option Time
  pub retention : RetentionInput D
  pub subtotales_informativos : List (SubtotalInformativo D)
  pub paginacion : List (Pagina D)
  pub additional_info : Option (AdditionalInfo D)
  pub transport : Option (TransportInput D)

abbrev checked_reference : Option DocumentReference → Option ReferenceInput
checked_reference none = none
checked_reference (some r) = some r.checked

-- What `validateInvoiceInput` reads of it.
unfoldable pub input_of : {D : Type 0} → DocumentInput D → InvoiceInput D
unfolding checked_reference
input_of d = record {
  ecf_type = d.ecf_type;
  company_id = d.company_id;
  buyer_rnc = d.buyer.rnc;
  items = map (λ i. i.taxed) d.items;
  payment_type = d.payment.payment_type;
  reference = checked_reference d.reference;
  fecha_emision = d.fecha_emision;
}
