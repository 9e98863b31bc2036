-- ===== src/Xml/Annexes.antt =====
-- The optional sections of src/xml-builder/xml-builder.service.ts: `buildInformacionesAdicionales`,
-- `buildTransporte`, `buildSubtotalesInformativos`, `buildDescuentosORecargos`, `buildPaginacion` and
-- `buildInformacionReferencia`.
pub mod Written
use ecf_api.Prelude.{
  ℕ, ◌+◌, Bool, true, false, ◌||◌, List, [], ◌∷◌, ◌++◌, Option, none, some, ◌==◌, if◌then◌else◌,
  includes, take,
}
use ecf_api.Prelude.Text.{Text, codes, to_string, pad_start}
use ecf_api.Prelude.Numbers.{Numbers}
use ecf_api.Invoices.{given}
use ecf_api.Amounts.{or_else, round2}
use ecf_api.Encf.{requires_reference}
use ecf_api.Xml.{
  Line, element, text_line, raw_line, text_field, raw_field, only_if, open_tag, close_tag, for_each,
  Format, truthy_field, positive_field, number_field,
}
use ecf_api.Xml.Input.{
  DocumentReference, DiscountSurcharge, SubtotalInformativo, Pagina, AdditionalInfo, TransportInput,
}

-- `if (via) …`: zero is left out.
unfoldable pub via_transporte_lines : Option ℕ → List Line
via_transporte_lines none = []
via_transporte_lines (some k) =
    if k == 0 then [] else raw_line (codes "ViaTransporte") (pad_start 2 b'0' (to_string k))

-- `ref.reason.substring(0, 90)`
unfoldable pub reason_lines : ℕ → Option Text → List Line
reason_lines type reason = elim (given reason) [
  | none ↦ []
  | some s ↦
      only_if (includes type requires_reference) (text_line (codes "RazonModificacion") (take 90 s))
]

-- `buildInformacionReferencia`
unfoldable pub build_informacion_referencia : ℕ → DocumentReference → List Line
build_informacion_referencia type r =
    open_tag (codes "InformacionReferencia")
    ∷ ((text_line (codes "NCFModificado") r.checked.encf
          ++ text_field (codes "RNCOtroContribuyente") r.rnc_otro_contribuyente
          ++ raw_line (codes "FechaNCFModificado") r.checked.date
          ++ raw_line (codes "CodigoModificacion") (to_string r.checked.modification_code)
          ++ reason_lines type r.reason)
        ++ close_tag (codes "InformacionReferencia") ∷ [])

-- A group with no line in it is left out, with its two tags.
unfoldable pub unless_empty : Line → Line → List Line → List Line
unless_empty opening closing [] = []
unless_empty opening closing (line ∷ lines) = opening ∷ ((line ∷ lines) ++ closing ∷ [])

module _ (n : Numbers) (f : Format n.Double) where
  open n use {Double, of_nat, add, lt, truthy}

  unfoldable pub info_lines : AdditionalInfo Double → List Line
  info_lines i =
      raw_field (codes "FechaEmbarque") i.shipment_date
      ++ text_field (codes "NumeroEmbarque") i.shipment_number
      ++ text_field (codes "NumeroContenedor") i.container_number
      ++ text_field (codes "NumeroReferencia") i.reference_number
      ++ truthy_field n f (codes "PesoBruto") i.gross_weight
      ++ truthy_field n f (codes "PesoNeto") i.net_weight
      ++ number_field n f (codes "UnidadPesoBruto") i.gross_weight_unit
      ++ number_field n f (codes "UnidadPesoNeto") i.net_weight_unit
      ++ truthy_field n f (codes "CantidadBulto") i.package_count
      ++ number_field n f (codes "UnidadBulto") i.package_unit
      ++ truthy_field n f (codes "VolumenBulto") i.package_volume
      ++ number_field n f (codes "UnidadVolumen") i.volume_unit

  unfoldable pub export_lines : AdditionalInfo Double → List Line
  export_lines i =
      text_field (codes "NombrePuertoEmbarque") i.port_of_shipment
      ++ text_field (codes "CondicionesEntrega") i.delivery_conditions
      ++ truthy_field n f (codes "TotalFob") i.total_fob
      ++ truthy_field n f (codes "Seguro") i.insurance
      ++ truthy_field n f (codes "Flete") i.freight
      ++ truthy_field n f (codes "OtrosGastos") i.other_expenses
      ++ truthy_field n f (codes "TotalCif") i.total_cif
      ++ text_field (codes "RegimenAduanero") i.customs_regime
      ++ text_field (codes "NombrePuertoSalida") i.departure_port
      ++ text_field (codes "NombrePuertoDesembarque") i.arrival_port

  -- `buildInformacionesAdicionales`
  unfoldable pub build_informaciones_adicionales : ℕ → AdditionalInfo Double → List Line
  build_informaciones_adicionales type i =
      unless_empty (open_tag (codes "InformacionesAdicionales"))
        (close_tag (codes "InformacionesAdicionales"))
        (info_lines i ++ only_if (type == 46) (export_lines i))

  unfoldable pub carriage_lines : TransportInput Double → List Line
  carriage_lines t =
      text_field (codes "Conductor") t.conductor
      ++ number_field n f (codes "DocumentoTransporte") t.documento_transporte
      ++ text_field (codes "Ficha") t.ficha
      ++ text_field (codes "Placa") t.placa
      ++ text_field (codes "RutaTransporte") t.ruta_transporte
      ++ text_field (codes "ZonaTransporte") t.zona_transporte
      ++ text_field (codes "NumeroAlbaran") t.numero_albaran

  unfoldable pub voyage_lines : TransportInput Double → List Line
  voyage_lines t =
      via_transporte_lines t.via_transporte
      ++ text_field (codes "PaisOrigen") t.country_origin
      ++ text_field (codes "DireccionDestino") t.destination_address
      ++ text_field (codes "PaisDestino") t.country_destination
      ++ text_field (codes "RNCIdentificacionCompaniaTransportista") t.carrier_rnc
      ++ text_field (codes "NombreCompaniaTransportista") t.carrier_name
      ++ text_field (codes "NumeroViaje") t.trip_number

  -- `buildTransporte`
  unfoldable pub build_transporte : ℕ → TransportInput Double → List Line
  build_transporte type t =
      if type == 47
      then unless_empty (open_tag (codes "Transporte")) (close_tag (codes "Transporte"))
          (text_field (codes "PaisDestino") t.country_destination)
      else (open_tag (codes "Transporte")
          ∷ ((carriage_lines t ++ only_if (type == 46) (voyage_lines t))
              ++ close_tag (codes "Transporte") ∷ []))

  -- `SubTotalMontoGravadoTotal`
  unfoldable pub gravado_lines : SubtotalInformativo Double → List Line
  gravado_lines s =
      let total = round2 n (
        add (add (or_else n s.gravado_i1 (of_nat 0)) (or_else n s.gravado_i2 (of_nat 0)))
          (or_else n s.gravado_i3 (of_nat 0))) in
      positive_field n f (codes "SubTotalMontoGravadoTotal") (some total)

  unfoldable pub subtotal_lines : SubtotalInformativo Double → List Line
  subtotal_lines s =
      open_tag (codes "Subtotal")
      ∷ ((raw_line (codes "NumeroSubTotal") (f.number s.numero)
            ++ text_line (codes "DescripcionSubtotal") s.nombre
            ++ gravado_lines s
            ++ positive_field n f (codes "SubTotalMontoGravadoI1") s.gravado_i1
            ++ positive_field n f (codes "SubTotalMontoGravadoI2") s.gravado_i2
            ++ positive_field n f (codes "SubTotalMontoGravadoI3") s.gravado_i3
            ++ positive_field n f (codes "SubTotaITBIS") s.total_itbis
            ++ positive_field n f (codes "SubTotaITBIS1") s.itbis1
            ++ positive_field n f (codes "SubTotaITBIS2") s.itbis2
            ++ positive_field n f (codes "SubTotaITBIS3") s.itbis3
            ++ positive_field n f (codes "SubTotalImpuestoAdicional") s.impuesto_adicional
            ++ positive_field n f (codes "SubTotalExento") s.exento
            ++ raw_line (codes "MontoSubTotal") (f.amount s.monto_subtotal))
          ++ close_tag (codes "Subtotal") ∷ [])

  -- `buildSubtotalesInformativos`
  unfoldable pub build_subtotales : List (SubtotalInformativo Double) → List Line
  build_subtotales [] = []
  build_subtotales (s ∷ rest) =
      open_tag (codes "Subtotales")
      ∷ ((for_each subtotal_lines (s ∷ rest)) ++ close_tag (codes "Subtotales") ∷ [])

  unfoldable pub percentage_lines : Option Double → List Line
  percentage_lines none = []
  percentage_lines (some x) = only_if (truthy x) (
      raw_line (codes "TipoValor") (codes "%")
      ++ raw_line (codes "ValorDescuentooRecargo") (f.number x))

  -- `if (x != null) …`
  unfoldable pub plain_number_field : Text → Option Double → List Line
  plain_number_field name none = []
  plain_number_field name (some x) = raw_line name (f.number x)

  unfoldable pub adjustment_lines : ℕ → DiscountSurcharge Double → List Line
  adjustment_lines k i =
      open_tag (codes "DescuentoORecargo")
      ∷ ((raw_line (codes "NumeroLinea") (to_string k)
            ++ raw_line (codes "TipoAjuste") (if i.is_discount then codes "D" else codes "R")
            ++ number_field n f (codes "IndicadorNorma1007") i.indicador_norma1007
            ++ text_line (codes "DescripcionDescuentooRecargo") i.description
            ++ percentage_lines i.percentage
            ++ raw_line (codes "MontoDescuentooRecargo") (f.amount i.amount)
            ++ positive_field n f (codes "MontoDescuentooRecargoOtraMoneda") i.amount_other_currency
            ++ plain_number_field (codes "IndicadorFacturacionDescuentooRecargo")
                i.indicador_facturacion)
          ++ close_tag (codes "DescuentoORecargo") ∷ [])

  unfoldable pub adjustments_from : ℕ → List (DiscountSurcharge Double) → List Line
  adjustments_from k [] = []
  adjustments_from k (i ∷ rest) = adjustment_lines k i ++ adjustments_from (k + 1) rest

  -- `buildDescuentosORecargos`
  unfoldable pub build_descuentos : List (DiscountSurcharge Double) → List Line
  build_descuentos [] = []
  build_descuentos (i ∷ rest) =
      open_tag (codes "DescuentosORecargos")
      ∷ ((adjustments_from 1 (i ∷ rest)) ++ close_tag (codes "DescuentosORecargos") ∷ [])

  unfoldable pub page_amounts : Pagina Double → List Line
  page_amounts p =
      positive_field n f (codes "SubtotalMontoGravadoPagina") p.monto_gravado
      ++ positive_field n f (codes "SubtotalMontoGravado1Pagina") p.monto_gravado1
      ++ positive_field n f (codes "SubtotalMontoGravado2Pagina") p.monto_gravado2
      ++ positive_field n f (codes "SubtotalMontoGravado3Pagina") p.monto_gravado3
      ++ positive_field n f (codes "SubtotalExentoPagina") p.exento
      ++ positive_field n f (codes "SubtotalItbisPagina") p.itbis
      ++ positive_field n f (codes "SubtotalItbis1Pagina") p.itbis1
      ++ positive_field n f (codes "SubtotalItbis2Pagina") p.itbis2
      ++ positive_field n f (codes "SubtotalItbis3Pagina") p.itbis3
      ++ positive_field n f (codes "SubtotalImpuestoAdicionalPagina") p.impuesto_adicional

  -- The group `SubtotalImpuestoAdicional`, which is there if one of its two amounts is.
  unfoldable pub page_tax_lines : Pagina Double → List Line
  page_tax_lines p =
      unless_empty (open_tag (codes "SubtotalImpuestoAdicional"))
        (close_tag (codes "SubtotalImpuestoAdicional"))
        (positive_field n f (codes "SubtotalImpuestoSelectivoConsumoEspecificoPagina")
            p.isc_especifico
          ++ positive_field n f (codes "SubtotalOtrosImpuesto") p.otros_impuesto)

  unfoldable pub page_lines : Pagina Double → List Line
  page_lines p =
      open_tag (codes "Pagina")
      ∷ ((raw_line (codes "PaginaNo") (f.number p.pagina_no)
            ++ raw_line (codes "NoLineaDesde") (f.number p.no_linea_desde)
            ++ raw_line (codes "NoLineaHasta") (f.number p.no_linea_hasta)
            ++ page_amounts p
            ++ page_tax_lines p
            ++ raw_line (codes "MontoSubtotalPagina") (f.amount p.monto_subtotal)
            ++ positive_field n f (codes "SubtotalMontoNoFacturablePagina") p.monto_no_facturable)
          ++ close_tag (codes "Pagina") ∷ [])

  -- `buildPaginacion`
  unfoldable pub build_paginacion : List (Pagina Double) → List Line
  build_paginacion [] = []
  build_paginacion (p ∷ rest) =
      open_tag (codes "Paginacion")
      ∷ ((for_each page_lines (p ∷ rest)) ++ close_tag (codes "Paginacion") ∷ [])
