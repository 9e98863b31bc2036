-- ===== src/Xml/Document/Entries.antt =====
-- The codes in the entries of additional taxes of `calculateTotals` of
-- src/xml-builder/xml-builder.service.ts.
use ecf_api.Prelude.{ℕ, ◌≡◌, refl, sym, inl, inr, List, [], ◌∷◌, Option-cases, if_rule, arith}
use mathlib.Core.Path.{subst}
use ecf_api.Prelude.Text.{Text, text_eq}
use ecf_api.Prelude.Numbers.{Numbers}
use ecf_api.Prelude.Rows.{All}
use ecf_api.Invoices.{given}
use ecf_api.Encf.{
  is_isc_especifico_alcohol, is_isc_advalorem_alcohol, is_isc_especifico_cigarrillo,
  is_isc_advalorem_cigarrillo, is_otros_impuestos,
}
use ecf_api.Amounts.{ItemInput, or_else}
use ecf_api.Xml.Escape.{IsPlain}
use ecf_api.Xml.Safe.{given-IsPlain}
use ecf_api.Xml.Input.{DocumentItem}
use ecf_api.Xml.Items.Written.{HasPlainItem}
use ecf_api.Xml.Totals.{
  AdditionalTaxEntry, Sums, add_amounts, change_entry, add_especifico, add_advalorem, add_otros,
  add_tax, add_item, add_items, no_sums, totals_of, calculate_totals,
}

module _ (n : Numbers) where
  open n use {Double}

  abbrev HasPlainEntries : List (AdditionalTaxEntry Double) → Type 0
  HasPlainEntries entries = All (λ e. IsPlain e.tipo_impuesto) entries

  change_entry-plain :
      (code : Text) (tasa : Double) (g : AdditionalTaxEntry Double → AdditionalTaxEntry Double)
      (entries : List (AdditionalTaxEntry Double))
      → ((e : AdditionalTaxEntry Double) → (g e).tipo_impuesto ≡ e.tipo_impuesto)
      → IsPlain code
      → HasPlainEntries entries
      → HasPlainEntries (change_entry n code tasa g entries)
  unfolding change_entry
  change_entry-plain code tasa g [] keeps plain h = (subst IsPlain (sym (keeps _)) plain, tt)
  change_entry-plain code tasa g (e ∷ entries) keeps plain h =
      if_rule HasPlainEntries (text_eq e.tipo_impuesto code)
        (λ _. (subst IsPlain (sym (keeps e)) h.0, h.1))
        (λ _. (h.0, change_entry-plain code tasa g entries keeps plain h.1))

  -- The entries after an amount.
  abbrev Kept : Sums Double → Type 0
  Kept s = HasPlainEntries s.entries

  add_amounts_entries :
      (item : ItemInput Double) (s : Sums Double) → (add_amounts n item s).entries ≡ s.entries
  unfolding add_amounts
  add_amounts_entries item s = ground arith

  add_tax-plain :
      (gravado : ℕ) (code : Text) (item : DocumentItem Double) (s : Sums Double)
      → IsPlain code
      → Kept s
      → Kept (add_tax n gravado code item s)
  unfolding add_tax add_especifico add_advalorem add_otros
  add_tax-plain gravado code item s plain h =
      if_rule Kept (is_isc_especifico_alcohol code) (λ _. changed _ (λ e. refl))
        (λ _.
          if_rule Kept (is_isc_especifico_cigarrillo code) (λ _. changed _ (λ e. refl))
            (λ _.
              if_rule Kept (is_isc_advalorem_alcohol code) (λ _. changed _ (λ e. refl))
                (λ _.
                  if_rule Kept (is_isc_advalorem_cigarrillo code) (λ _. changed _ (λ e. refl))
                    (λ _.
                      if_rule Kept (is_otros_impuestos code) (λ _. changed _ (λ e. refl))
                        (λ _. changed _ (λ e. refl))))))
    where
      changed :
          (g : AdditionalTaxEntry Double → AdditionalTaxEntry Double)
          → ((e : AdditionalTaxEntry Double) → (g e).tipo_impuesto ≡ e.tipo_impuesto)
          → HasPlainEntries (
              change_entry n code
                (or_else n item.taxed.additional_tax_rate (n.of_nat 0))
                g
                s.entries)
      changed g keeps = change_entry-plain code _ g s.entries keeps plain h

  add_item-plain :
      (gravado : ℕ) (item : DocumentItem Double) (s : Sums Double)
      → HasPlainItem item
      → Kept s
      → Kept (add_item n gravado item s)
  unfolding add_item
  add_item-plain gravado item s plain h =
      let s0 : Sums Double = record s {
        discount = n.add s.discount (or_else n item.taxed.amounts.discount (n.of_nat 0));
      } in
      let kept : Kept (add_amounts n item.taxed.amounts s0) =
        subst HasPlainEntries (sym (add_amounts_entries item.taxed.amounts s0)) h in
      elim (Option-cases (given item.taxed.additional_tax_code)) [
        | inl absent ↦ rw (absent, add_item) kept
        | inr (code, there) ↦
            rw (there, add_item)
              (add_tax-plain gravado code item (add_amounts n item.taxed.amounts s0)
                (given-IsPlain item.taxed.additional_tax_code code there plain.tax_code) kept)
      ]

  add_items-plain :
      (gravado : ℕ) (items : List (DocumentItem Double)) (s : Sums Double)
      → All HasPlainItem items
      → Kept s
      → Kept (add_items n gravado items s)
  unfolding add_items
  add_items-plain gravado [] s plain h = h
  add_items-plain gravado (item ∷ items) s plain h =
      add_items-plain gravado items (add_item n gravado item s) plain.1
        (add_item-plain gravado item s plain.0 h)

  pub calculate_totals-plain :
      (items : List (DocumentItem Double)) (gravado : ℕ)
      → All HasPlainItem items
      → HasPlainEntries (calculate_totals n items gravado).additional_tax_entries
  unfolding calculate_totals totals_of no_sums
  calculate_totals-plain items gravado plain = add_items-plain gravado items (no_sums n) plain tt
