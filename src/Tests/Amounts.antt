-- ===== src/Tests/Amounts.antt =====
-- The rates of src/xml-builder/itbis.util.ts at work, on natural numbers.
use ecf_api.Prelude.{ℕ, ◌+◌, ◌-◌, ◌*◌, ◌/◌, not, ltb, leb, ◌==◌}
use ecf_api.Prelude.Numbers.{Numbers}

abbrev pub whole : Numbers
whole = record {
  Double = ℕ;
  of_nat = λ n. n;
  epsilon = 0;
  add = λ a b. a + b;
  sub = λ a b. a - b;
  mul = λ a b. a * b;
  div = λ a b. a / b;
  round = λ a. a;
  magnitude = λ a. a;
  eq = λ a b. a == b;
  lt = λ a b. ltb a b;
  le = λ a b. leb a b;
  truthy = λ a. not (a == 0);
}

-- An exempt line of rate 18.
