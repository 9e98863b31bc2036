-- ===== src/Xml/Parties.antt =====
-- `buildEmisor` and `buildComprador` of src/xml-builder/xml-builder.service.ts.
pub mod Written
use ecf_api.Prelude.{
  ℕ, Bool, true, false, ◌&&◌, ◌||◌, not, List, [], ◌∷◌, ◌++◌, Option, none, some, ◌==◌,
  if◌then◌else◌, take, includes,
}
use ecf_api.Prelude.Text.{Text, codes}
use ecf_api.Prelude.Results.{Result, ok, err, and_then}
use ecf_api.Invoices.{given}
use ecf_api.Validation.{is_given}
use ecf_api.Encf.{requires_buyer_rnc}
use ecf_api.Xml.{
  Line, text_line, raw_line, text_field, only_if, open_tag, close_tag, text_or, for_each,
}
use ecf_api.Xml.Places.{is_valid_provincia_municipio}

-- `EmitterData`
pub record EmitterData : Type 0 where
  pub rnc : Text
  pub business_name : Text
  pub trade_name : Option Text
  pub branch_code : Option Text
  pub address : Option Text
  pub municipality : Option Text
  pub province : Option Text
  pub phones : List Text
  pub email : Option Text
  pub website : Option Text
  pub economic_activity : Option Text
  pub vendor_code : Option Text
  pub internal_invoice_number : Option Text
  pub internal_order_number : Option Text
  pub sales_zone : Option Text
  pub sales_route : Option Text
  pub additional_info : Option Text

-- `BuyerInput`, without the fields that the document does not show.
pub record BuyerInput : Type 0 where
  pub rnc : Option Text
  pub name : Text
  pub contact_name : Option Text
  pub email : Option Text
  pub address : Option Text
  pub municipality : Option Text
  pub province : Option Text
  pub foreign_id : Option Text
  pub country : Option Text
  pub delivery_date : Option Text
  pub delivery_contact : Option Text
  pub delivery_address : Option Text
  pub additional_phone : Option Text
  pub order_date : Option Text
  pub order_number : Option Text
  pub internal_code : Option Text
  pub payment_responsible : Option Text
  pub additional_info : Option Text

-- The exception of `validateProvinciaMunicipio`, with the name of the field.
pub data XmlError : Type 0 where
  unknown_place : Text → XmlError

-- `validateProvinciaMunicipio` of a field that is given.
unfoldable pub check_place : Option Text → Text → Result XmlError (Unit {0})
check_place v field = elim (given v) [
  | none ↦ ok tt
  | some s ↦ if is_valid_provincia_municipio s then ok tt else err (unknown_place field)
]

unfoldable pub phone_lines : List Text → List Line
phone_lines [] = []
phone_lines (p ∷ phones) =
    open_tag (codes "TablaTelefonoEmisor")
    ∷ ((for_each (λ t. text_line (codes "TelefonoEmisor") t) (take 3 (p ∷ phones)))
        ++ close_tag (codes "TablaTelefonoEmisor") ∷ [])

unfoldable pub emisor_names : EmitterData → List Line
emisor_names e =
    text_line (codes "RNCEmisor") e.rnc
    ++ text_line (codes "RazonSocialEmisor") e.business_name
    ++ text_field (codes "NombreComercial") e.trade_name
    ++ text_field (codes "Sucursal") e.branch_code
    ++ text_line (codes "DireccionEmisor") (text_or e.address (codes "N/A"))
    ++ text_field (codes "Municipio") e.municipality
    ++ text_field (codes "Provincia") e.province

unfoldable pub emisor_contact : EmitterData → List Line
emisor_contact e =
    phone_lines e.phones
    ++ text_field (codes "CorreoEmisor") e.email
    ++ text_field (codes "WebSite") e.website
    ++ text_field (codes "ActividadEconomica") e.economic_activity
    ++ text_field (codes "CodigoVendedor") e.vendor_code
    ++ text_field (codes "NumeroFacturaInterna") e.internal_invoice_number
    ++ text_field (codes "NumeroPedidoInterno") e.internal_order_number
    ++ text_field (codes "ZonaVenta") e.sales_zone
    ++ text_field (codes "RutaVenta") e.sales_route
    ++ text_field (codes "InformacionAdicionalEmisor") e.additional_info

-- `buildEmisor`; `today` is the date of the call.
unfoldable pub build_emisor : Text → EmitterData → Option Text → Result XmlError (List Line)
build_emisor today e fecha_emision =
    and_then (check_place e.municipality (codes "Emisor.Municipio")) (λ _.
      and_then (check_place e.province (codes "Emisor.Provincia")) (λ _. ok (
        (open_tag (codes "Emisor")
          ∷ ((emisor_names e
                ++ emisor_contact e
                ++ raw_line (codes "FechaEmision") (text_or fecha_emision today))
              ++ close_tag (codes "Emisor") ∷ [])))))

-- The buyer of a consumer's invoice that does not name one.
unfoldable pub anonymous_buyer : BuyerInput → List Line
anonymous_buyer b =
    open_tag (codes "Comprador")
    ∷ ((text_field (codes "IdentificadorExtranjero") b.foreign_id
          ++ text_line (codes "RazonSocialComprador")
              (text_or (some b.name) (codes "CONSUMIDOR FINAL")))
        ++ close_tag (codes "Comprador") ∷ [])

unfoldable pub delivery_lines : BuyerInput → List Line
delivery_lines b =
    text_field (codes "FechaEntrega") b.delivery_date
    ++ text_field (codes "ContactoEntrega") b.delivery_contact
    ++ text_field (codes "DireccionEntrega") b.delivery_address
    ++ text_field (codes "TelefonoAdicional") b.additional_phone
    ++ text_field (codes "FechaOrdenCompra") b.order_date
    ++ text_field (codes "NumeroOrdenCompra") b.order_number

-- What a document to a buyer abroad leaves out.
unfoldable pub local_lines : ℕ → BuyerInput → List Line
local_lines type b =
    text_field (codes "ContactoComprador") b.contact_name
    ++ text_field (codes "CorreoComprador") b.email
    ++ text_field (codes "DireccionComprador") b.address
    ++ text_field (codes "MunicipioComprador") b.municipality
    ++ text_field (codes "ProvinciaComprador") b.province
    ++ only_if (type == 46) (text_field (codes "PaisComprador") b.country)
    ++ only_if (not (type == 41)) (delivery_lines b)
    ++ text_field (codes "CodigoInternoComprador") b.internal_code
    ++ text_field (codes "ResponsablePago") b.payment_responsible
    ++ text_field (codes "InformacionAdicionalComprador") b.additional_info

-- `IdentificadorExtranjero`
unfoldable pub foreign_lines : ℕ → BuyerInput → List Line
foreign_lines type b =
    if type == 47
    then text_field (codes "IdentificadorExtranjero")
        (some (text_or b.foreign_id (text_or b.rnc [])))
    else only_if (not (is_given b.rnc)) (text_field (codes "IdentificadorExtranjero") b.foreign_id)

unfoldable pub buyer_lines : ℕ → BuyerInput → List Line
buyer_lines type b =
    open_tag (codes "Comprador")
    ∷ ((only_if (not (type == 47)) (text_field (codes "RNCComprador") b.rnc)
          ++ foreign_lines type b
          ++ text_line (codes "RazonSocialComprador") b.name
          ++ only_if (not (type == 47)) (local_lines type b))
        ++ close_tag (codes "Comprador") ∷ [])

unfoldable pub checked_buyer : ℕ → BuyerInput → Result XmlError (List Line)
checked_buyer type b =
    if type == 47
    then ok (buyer_lines type b)
    else and_then (check_place b.municipality (codes "Comprador.MunicipioComprador")) (λ _.
      and_then (check_place b.province (codes "Comprador.ProvinciaComprador"))
        (λ _. ok (buyer_lines type b)))

-- `buildComprador` of a buyer, which `InvoiceInput` always has.
unfoldable pub build_comprador : ℕ → BuyerInput → Result XmlError (List Line)
build_comprador type b =
    if type == 43
    then ok []
    else if not (is_given b.rnc) && not (includes type requires_buyer_rnc)
    then if type == 32
      then ok (anonymous_buyer b)
      else if type == 47
      then ok []
      else checked_buyer type b
    else checked_buyer type b
