-- ===== src/Amounts.antt =====
-- The ITBIS of a line: src/xml-builder/itbis.util.ts.
pub mod Itbis
use ecf_api.Prelude.{ℕ, Bool, true, false, Option, none, some, ◌==◌, if◌then◌else◌}
use ecf_api.Prelude.Numbers.{Numbers}

-- The fields of an item that the amounts of a line depend on.
pub record ItemInput (D : Type 0) : Type 0 where
  pub quantity : D
  pub unit_price : D
  pub discount : Option D
  pub surcharge : Option D
  pub itbis_rate : Option D
  pub indicador_facturacion : Option ℕ

module _ (n : Numbers) where
  open n use {Double, of_nat, epsilon, add, sub, mul, div, round, eq, truthy}

  -- `x || y`
  abbrev pub or_else : Option Double → Double → Double
  or_else none y = y
  or_else (some x) y = if truthy x then x else y

  -- `x ?? y`
  abbrev pub or_default : Option Double → Double → Double
  or_default none y = y
  or_default (some x) y = x

  unfoldable pub round2 : Double → Double
  round2 x = div (round (mul (add x epsilon) (of_nat 100))) (of_nat 100)

  -- `resolveIndicadorFacturacion`
  unfoldable pub resolve_indicador : Option ℕ → Double → ℕ
  resolve_indicador (some i) rate = i
  resolve_indicador none rate =
      if eq rate (of_nat 18)
      then 1
      else if eq rate (of_nat 16)
      then 2
      else if eq rate (of_nat 0)
      then 3
      else 1

  -- `effectiveItbisRate`
  unfoldable pub effective_rate : ℕ → Double → Double
  effective_rate indicador rate =
      if indicador == 1
      then of_nat 18
      else if indicador == 2
      then of_nat 16
      else if indicador == 3
      then of_nat 0
      else if indicador == 4
      then of_nat 0
      else if indicador == 0
      then of_nat 0
      else if eq rate (of_nat 16)
      then of_nat 16
      else if eq rate (of_nat 0)
      then of_nat 0
      else of_nat 18

  -- `lineItbisAmount`
  unfoldable pub line_itbis_amount : Double → ℕ → Double → Double
  line_itbis_amount subtotal indicador rate =
      round2 (mul subtotal (div (effective_rate indicador rate) (of_nat 100)))

  -- The subtotal of a line.
  unfoldable pub line_subtotal : ItemInput Double → Double
  line_subtotal item = round2 (
      add (sub (mul item.quantity item.unit_price) (or_else item.discount (of_nat 0)))
        (or_else item.surcharge (of_nat 0)))
