-- ===== src/Prelude/Numbers.antt =====
-- JavaScript numbers as the program computes with them: a type of doubles with the operations of the
-- language. What is proved holds for every such type.
use ecf_api.Prelude.{ℕ, Bool}

pub record Numbers : Type 1 where
  pub Double : Type 0
  -- A literal.
  pub of_nat : ℕ → Double
  pub epsilon : Double
  pub add : Double → Double → Double
  pub sub : Double → Double → Double
  pub mul : Double → Double → Double
  pub div : Double → Double → Double
  -- `Math.round` and `Math.abs`
  pub round : Double → Double
  pub magnitude : Double → Double
  -- `===`, `<` and `<=`
  pub eq : Double → Double → Bool
  pub lt : Double → Double → Bool
  pub le : Double → Double → Bool
  -- Neither zero nor NaN.
  pub truthy : Double → Bool
