-- ===== src/Amounts/Itbis.antt =====
-- The rates that a line can carry.
use ecf_api.Prelude.{ℕ, ◌≡◌, ◌⊎◌, true, Option, none, some, arith}
use ecf_api.Prelude.Numbers.{Numbers}
use ecf_api.Amounts.{resolve_indicador, effective_rate}

module _ (n : Numbers) where
  open n use {Double, of_nat, eq}

  -- A line carries one of the three rates of the law, whatever its input says.
  pub effective_rate_legal :
      (indicador : Option ℕ) (rate : Double)
      → let e = effective_rate n (resolve_indicador n indicador rate) rate in
        (e ≡ of_nat 18) ⊎ (e ≡ of_nat 16) ⊎ (e ≡ of_nat 0)
  unfolding effective_rate resolve_indicador
  effective_rate_legal none rate = ground arith
  effective_rate_legal (some i) rate = ground arith

  -- A line whose rate is given and whose indicador is not carries a rate that is `===` to the given one,
  -- if that is `===` to one of the three rates of the law.
  pub effective_rate_given :
      (rate : Double)
      → (eq rate (of_nat 18) ≡ true) ⊎ (eq rate (of_nat 16) ≡ true) ⊎ (eq rate (of_nat 0) ≡ true)
      → eq rate (effective_rate n (resolve_indicador n none rate) rate) ≡ true
  unfolding effective_rate resolve_indicador
  effective_rate_given rate legal = ground arith
