-- ===== src/Xml/Items/Written.antt =====
-- Lemmas on the safety of `buildDetallesItem` of src/xml-builder/xml-builder.service.ts.
use ecf_api.Prelude.{
  ℕ, ◌+◌, List, [], ◌∷◌, Option, none, some, ◌==◌, if◌then◌else◌, includes, if_rule,
}
use ecf_api.Prelude.Text.{Text, codes}
use ecf_api.Prelude.Numbers.{Numbers}
use ecf_api.Prelude.Rows.{All}
use ecf_api.Amounts.{or_default}
use ecf_api.Xml.{open_tag, close_tag, raw_line, Format, truthy_field}
use ecf_api.Xml.Safe.{
  IsSafe, printed, IsSafe-nil, IsSafe-raw_line, IsSafe-open_tag, IsSafe-append, IsPlainOption,
  IsPlainFormat,
}
use ecf_api.Xml.Input.{SubAdjustment, DocumentItem, CurrencyInput}
use ecf_api.Xml.Totales.{entries_of}
use ecf_api.Xml.Totales.Written.{entries_of-IsSafe}
use ecf_api.Xml.Items.{
  given_line, sub_descuento_lines, sub_recargo_lines, nonzero, code_lines, unit_lines,
  tax_table_lines, raw_amount_field, required_retention, optional_retention, retencion,
  sub_quantity_lines, isc_lines, discount_lines, currency_lines, name_lines, quantity_lines,
  price_lines, item_lines, items_from, build_detalles_item,
}

-- The texts of an entry of discounts or surcharges that are written as they are are plain.
abbrev pub HasPlainAdjustment : SubAdjustment → Type 0
HasPlainAdjustment s = IsPlainOption s.porcentaje × IsPlainOption s.monto

-- The same of an item.
pub record HasPlainItem {D : Type 0} (i : DocumentItem D) : Type 0 where
  pub tax_code : IsPlainOption i.taxed.additional_tax_code
  pub manufacturing_date : IsPlainOption i.manufacturing_date
  pub expiration_date : IsPlainOption i.expiration_date
  pub cantidad_item : IsPlainOption i.raw_text.cantidad_item
  pub precio_unitario_item : IsPlainOption i.raw_text.precio_unitario_item
  pub precio_unitario_referencia : IsPlainOption i.raw_text.precio_unitario_referencia
  pub precio_otra_moneda : IsPlainOption i.raw_text.precio_otra_moneda
  pub monto_item : IsPlainOption i.raw_text.monto_item
  pub descuento_monto : IsPlainOption i.raw_text.descuento_monto
  pub recargo_monto : IsPlainOption i.raw_text.recargo_monto
  pub cantidad_referencia : IsPlainOption i.raw_text.cantidad_referencia
  pub sub_descuentos : All HasPlainAdjustment i.sub_descuentos
  pub sub_recargos : All HasPlainAdjustment i.sub_recargos

given_line-IsSafe : (name : Text) (v : Option Text) → IsPlainOption v → IsSafe (given_line name v)
unfolding given_line
given_line-IsSafe name none h = IsSafe-nil
given_line-IsSafe name (some s) h = IsSafe-raw_line name s h

sub_descuento_lines-IsSafe :
    (s : SubAdjustment) → HasPlainAdjustment s → IsSafe (sub_descuento_lines s)
unfolding sub_descuento_lines
sub_descuento_lines-IsSafe s h = search (printed, given_line-IsSafe) depth 10

sub_recargo_lines-IsSafe : (s : SubAdjustment) → HasPlainAdjustment s → IsSafe (sub_recargo_lines s)
unfolding sub_recargo_lines
sub_recargo_lines-IsSafe s h = search (printed, given_line-IsSafe) depth 10

module _ (n : Numbers) where
  code_lines-IsSafe : (i : DocumentItem n.Double) → IsSafe (code_lines i)
  unfolding code_lines
  code_lines-IsSafe i = search printed depth 20

  unit_lines-IsSafe : (i : DocumentItem n.Double) → IsSafe (unit_lines i)
  unfolding unit_lines
  unit_lines-IsSafe i =
      if_rule IsSafe (nonzero i.taxed.unit_measure_code) (λ _. search printed depth 20)
        (λ _. search printed depth 20)

  tax_table_lines-IsSafe :
      (i : DocumentItem n.Double)
      → IsPlainOption i.taxed.additional_tax_code
      → IsSafe (tax_table_lines i)
  unfolding tax_table_lines
  tax_table_lines-IsSafe i h = search printed depth 20

  sub_descuentos-IsSafe :
      (rows : List SubAdjustment)
      → All HasPlainAdjustment rows
      → IsSafe (
          entries_of
            (open_tag (codes "TablaSubDescuento"))
            (close_tag (codes "TablaSubDescuento"))
            sub_descuento_lines
            rows)
  sub_descuentos-IsSafe rows h =
      entries_of-IsSafe (codes "TablaSubDescuento") sub_descuento_lines HasPlainAdjustment rows
        sub_descuento_lines-IsSafe h

  sub_recargos-IsSafe :
      (rows : List SubAdjustment)
      → All HasPlainAdjustment rows
      → IsSafe (
          entries_of
            (open_tag (codes "TablaSubRecargo"))
            (close_tag (codes "TablaSubRecargo"))
            sub_recargo_lines
            rows)
  sub_recargos-IsSafe rows h =
      entries_of-IsSafe (codes "TablaSubRecargo") sub_recargo_lines HasPlainAdjustment rows
        sub_recargo_lines-IsSafe h

module _ (n : Numbers) (f : Format n.Double) where
  raw_amount_field-IsSafe :
      (name : Text) (raw : Option Text) (v : Option n.Double)
      → IsPlainFormat f
      → IsPlainOption raw
      → IsSafe (raw_amount_field n f name raw v)
  unfolding raw_amount_field
  raw_amount_field-IsSafe name raw none h k = IsSafe-nil
  raw_amount_field-IsSafe name raw (some x) h k = search printed depth 10

  required_retention-IsSafe :
      (type : ℕ) (i : DocumentItem n.Double)
      → IsPlainFormat f
      → IsSafe (required_retention n f type i)
  unfolding required_retention
  required_retention-IsSafe type i h =
      let isr : IsSafe (
          if type == 47
          then raw_line (codes "MontoISRRetenido")
              (f.amount (or_default n i.monto_isr_retenido (n.of_nat 0)))
          else truthy_field n f (codes "MontoISRRetenido") i.monto_isr_retenido) =
        if_rule IsSafe (type == 47) (λ _. search printed depth 20) (λ _. search printed depth 20) in
      search printed depth 20

  optional_retention-IsSafe :
      (i : DocumentItem n.Double) → IsPlainFormat f → IsSafe (optional_retention n f i)
  unfolding optional_retention
  optional_retention-IsSafe i h = search (printed) depth 60 fits 9000

  retencion-IsSafe :
      (type : ℕ) (i : DocumentItem n.Double) → IsPlainFormat f → IsSafe (retencion n f type i)
  unfolding retencion
  retencion-IsSafe type i h =
      if_rule IsSafe (includes type (41 ∷ 47 ∷ [])) (λ _. required_retention-IsSafe type i h)
        (λ _. search (printed, optional_retention-IsSafe) depth 20)

  sub_quantity_lines-IsSafe :
      (i : DocumentItem n.Double) (v : Option n.Double)
      → IsPlainFormat f
      → IsSafe (sub_quantity_lines n f i v)
  unfolding sub_quantity_lines
  sub_quantity_lines-IsSafe i none h = IsSafe-nil
  sub_quantity_lines-IsSafe i (some x) h = search printed depth 20

  isc_lines-IsSafe :
      (i : DocumentItem n.Double) → IsPlainFormat f → HasPlainItem i → IsSafe (isc_lines n f i)
  unfolding isc_lines
  isc_lines-IsSafe i h plain =
      search (printed, raw_amount_field-IsSafe, sub_quantity_lines-IsSafe) depth 60 fits 9000

  discount_lines-IsSafe :
      (type : ℕ) (i : DocumentItem n.Double)
      → IsPlainFormat f
      → HasPlainItem i
      → IsSafe (discount_lines n f type i)
  unfolding discount_lines
  discount_lines-IsSafe type i h plain =
      search (printed, sub_descuentos-IsSafe, sub_recargos-IsSafe) depth 60 fits 9000

  currency_lines-IsSafe :
      (i : DocumentItem n.Double) (c : Option (CurrencyInput n.Double))
      → IsPlainFormat f
      → HasPlainItem i
      → IsSafe (currency_lines n f i c)
  unfolding currency_lines
  currency_lines-IsSafe i none h plain = IsSafe-nil
  currency_lines-IsSafe i (some c) h plain = search printed depth 30 fits 4000

  name_lines-IsSafe :
      (type k : ℕ) (i : DocumentItem n.Double) → IsPlainFormat f → IsSafe (name_lines n f type k i)
  unfolding name_lines
  name_lines-IsSafe type k i h =
      search (printed, code_lines-IsSafe, retencion-IsSafe) depth 60 fits 9000

  quantity_lines-IsSafe :
      (type : ℕ) (i : DocumentItem n.Double)
      → IsPlainFormat f
      → HasPlainItem i
      → IsSafe (quantity_lines n f type i)
  unfolding quantity_lines
  quantity_lines-IsSafe type i h plain =
      search (printed, unit_lines-IsSafe, isc_lines-IsSafe) depth 60 fits 9000

  price_lines-IsSafe :
      (type : ℕ) (i : DocumentItem n.Double) (c : Option (CurrencyInput n.Double))
      → IsPlainFormat f
      → HasPlainItem i
      → IsSafe (price_lines n f type i c)
  unfolding price_lines
  price_lines-IsSafe type i c h plain =
      search (printed, discount_lines-IsSafe, tax_table_lines-IsSafe, currency_lines-IsSafe) depth
        60 fits 9000

  item_lines-IsSafe :
      (type : ℕ) (c : Option (CurrencyInput n.Double)) (k : ℕ) (i : DocumentItem n.Double)
      → IsPlainFormat f
      → HasPlainItem i
      → IsSafe (item_lines n f type c k i)
  unfolding item_lines
  item_lines-IsSafe type c k i h plain =
      search (printed, name_lines-IsSafe, quantity_lines-IsSafe, price_lines-IsSafe) depth 60 fits
        9000

  items_from-IsSafe :
      (type : ℕ) (c : Option (CurrencyInput n.Double)) (k : ℕ)
      (items : List (DocumentItem n.Double))
      → IsPlainFormat f
      → All HasPlainItem items
      → IsSafe (items_from n f type c k items)
  unfolding items_from
  items_from-IsSafe type c k [] h plain = IsSafe-nil
  items_from-IsSafe type c k (i ∷ items) h plain =
      IsSafe-append (item_lines n f type c k i) (items_from n f type c (k + 1) items)
        (item_lines-IsSafe type c k i h plain.0) (items_from-IsSafe type c (k + 1) items h plain.1)

  pub build_detalles_item-IsSafe :
      (type : ℕ) (c : Option (CurrencyInput n.Double)) (items : List (DocumentItem n.Double))
      → IsPlainFormat f
      → All HasPlainItem items
      → IsSafe (build_detalles_item n f type c items)
  unfolding build_detalles_item
  build_detalles_item-IsSafe type c items h plain =
      IsSafe-open_tag (codes "DetallesItems") (items_from n f type c 1 items)
        (items_from-IsSafe type c 1 items h plain)
