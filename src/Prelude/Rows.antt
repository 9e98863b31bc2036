-- ===== src/Prelude/Rows.antt =====
-- Tables as lists of rows: what holds of every row, and which rows there are.
pub mod Laws
use ecf_api.Prelude.{
  ◌≡◌, refl, Bool, true, false, ◌⊎◌, inl, inr, List, [], ◌∷◌, Option, none, some, arith,
  if◌then◌else◌,
}

abbrev pub All {ℓ} : {A : Type 0} → (A → Type ℓ) → List A → Type ℓ
All P [] = Unit
All P (x ∷ xs) = P x × All P xs

-- The row `x` stands in the table.
abbrev pub Has : {A : Type 0} → A → List A → Type 0
Has x [] = ⊥
Has x (y ∷ ys) = (y ≡ x) ⊎ Has x ys

-- `findFirst` and `SELECT … LIMIT 1`: the first row of the table that fits.
abbrev pub find_first : {A : Type 0} → (A → Bool) → List A → Option A
find_first p [] = none
find_first p (x ∷ xs) = if p x then some x else find_first p xs

-- `findMany`
abbrev pub find_many : {A : Type 0} → (A → Bool) → List A → List A
find_many p [] = []
find_many p (x ∷ xs) = let rest = find_many p xs in if p x then x ∷ rest else rest
