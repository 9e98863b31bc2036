-- ===== src/Prelude/Rows/Laws.antt =====
-- What a query says of the table.
use ecf_api.Prelude.{
  ◌≡◌, refl, Bool, true, false, inl, inr, List, [], ◌∷◌, ◌++◌, none, some, Bool-cases, arith,
}
use mathlib.Core.Path.{subst}
use ecf_api.Prelude.Rows.{All, Has, find_first}

pub All-Has {ℓ} : {A : Type 0} (P : A → Type ℓ) (x : A) (xs : List A) → All P xs → Has x xs → P x
All-Has P x [] h m = elim m [ ]
All-Has P x (y ∷ ys) h (inl e) = subst P e h.0
All-Has P x (y ∷ ys) h (inr m) = All-Has P x ys h.1 m

-- A row that a query finds is in the table and fits.
pub find_first-some :
    {A : Type 0} (p : A → Bool) (xs : List A) {x : A}
    → find_first p xs ≡ some x
    → (p x ≡ true) × Has x xs
find_first-some p [] e = cc
find_first-some p (y ∷ ys) {x} e = elim (Bool-cases (p y)) [
  | inl yes_y ↦
      let same : some y ≡ some x = rw yes_y at e in
      let eq : y ≡ x = cc same in (subst (λ z. p z ≡ true) eq yes_y, inl eq)
  | inr no_y ↦ let (fits, m) = find_first-some p ys (rw no_y at e) in (fits, inr m)
]

-- A query that finds nothing has tested every row.
pub find_first-none :
    {A : Type 0} (p : A → Bool) (xs : List A) → find_first p xs ≡ none → All (λ x. p x ≡ false) xs
find_first-none p [] e = tt
find_first-none p (y ∷ ys) e = elim (Bool-cases (p y)) [
  | inl yes_y ↦ let clash : some y ≡ none = rw yes_y at e in cc clash
  | inr no_y ↦ (no_y, find_first-none p ys (rw no_y at e))
]

pub All-map {ℓ κ} :
    {A : Type 0} (P : A → Type ℓ) (Q : A → Type κ) (xs : List A)
    → ((x : A) → P x → Q x)
    → All P xs
    → All Q xs
All-map P Q [] f h = tt
All-map P Q (x ∷ xs) f h = (f x h.0, All-map P Q xs f h.1)

pub All-both {ℓ κ} :
    {A : Type 0} (P : A → Type ℓ) (Q : A → Type κ) (xs : List A)
    → All P xs
    → All Q xs
    → All (λ x. P x × Q x) xs
All-both P Q [] h k = tt
All-both P Q (x ∷ xs) h k = ((h.0, k.0), All-both P Q xs h.1 k.1)

pub find_first-absent :
    {A : Type 0} (p : A → Bool) (xs : List A) → All (λ x. p x ≡ false) xs → find_first p xs ≡ none
find_first-absent p [] h = refl
find_first-absent p (x ∷ xs) h = rw h.0 (find_first-absent p xs h.1)

pub All-append {ℓ} :
    {A : Type 0} (P : A → Type ℓ) (xs ys : List A) → All P xs → All P ys → All P (xs ++ ys)
All-append P [] ys h k = k
All-append P (x ∷ xs) ys h k = (h.0, All-append P xs ys h.1 k)

pub find_first-append :
    {A : Type 0} (p : A → Bool) (xs : List A) (y : A)
    → find_first p xs ≡ none
    → p y ≡ true
    → find_first p (xs ++ y ∷ []) ≡ some y
find_first-append p [] y absent yes_y = ground (arith, absent)
find_first-append p (x ∷ xs) y absent yes_y = elim (Bool-cases (p x)) [
  | inl yes_x ↦ ground arith
  | inr no_x ↦ ground (arith, find_first-append p xs y)
]
