-- ===== src/Prelude/Results.antt =====
-- Results of code that throws, and what the code relies on in a database transaction.
use ecf_api.Prelude.{◌≡◌, refl, sym, ◌∙◌, Bool, true, false, ◌⊎◌, inl, inr}

pub data Result (E A : Type 0) : Type 0 where
  ok : A → Result E A
  err : E → Result E A

abbrev pub is_ok : {E A : Type 0} → Result E A → Bool
is_ok (ok _) = true
is_ok (err _) = false

pub Result-cases :
    {E A : Type 0} (r : Result E A) → ((a : A) × (r ≡ ok a)) ⊎ ((e : E) × (r ≡ err e))
Result-cases (ok a) = inl (a, refl)
Result-cases (err e) = inr (e, refl)

-- What is done with a result, unless it is an exception.
abbrev pub and_then : {E A B : Type 0} → Result E A → (A → Result E B) → Result E B
and_then (err e) next = err e
and_then (ok a) next = next a

-- A success comes of two.
pub and_then-ok :
    {E A B : Type 0} (r : Result E A) (next : A → Result E B) (b : B)
    → and_then r next ≡ ok b
    → (a : A) × (r ≡ ok a) × (next a ≡ ok b)
and_then-ok (err e) next b h = cc
and_then-ok (ok a) next b h = (a, refl, h)

-- The same for code that also changes a state: a `throw` keeps the state that it leaves behind.
abbrev pub and_run : {S E A B : Type 0} → Result E A × S → (A → S → Result E B × S) → Result E B × S
and_run (err e, s) next = (err e, s)
and_run (ok a, s) next = next a s

-- A part of the state, and the exceptions of a part.
abbrev pub lift_run : {S T E F A : Type 0} → (E → F) → (S → T) → Result E A × S → Result F A × T
lift_run on_error whole (err e, s) = (err (on_error e), whole s)
lift_run on_error whole (ok a, s) = (ok a, whole s)

pub and_run-ok :
    {S E A B : Type 0} (r : Result E A × S) (next : A → S → Result E B × S) (b : B) (s' : S)
    → and_run r next ≡ (ok b, s')
    → (a : A) × (s : S) × (r ≡ (ok a, s)) × (next a s ≡ (ok b, s'))
and_run-ok (err e, s) next b s' h = cc
and_run-ok (ok a, s) next b s' h = (a, s, refl, h)

pub lift_run-ok :
    {S T E F A : Type 0} (on_error : E → F) (whole : S → T) (r : Result E A × S) (a : A) (t : T)
    → lift_run on_error whole r ≡ (ok a, t)
    → (s : S) × (r ≡ (ok a, s)) × (whole s ≡ t)
lift_run-ok on_error whole (err e, s) a t h = cc
lift_run-ok on_error whole (ok b, s) a t h = (s, cc, cc)

-- `prisma.$transaction(body)`: a body that returns commits its writes, and a body that throws
-- leaves the tables as they were.
pub record Transaction (S E A : Type 0) : Type 0 where
  pub run : (S → Result E A × S) → S → Result E A × S
  pub commits :
      (body : S → Result E A × S) (s : S) (a : A) (s' : S)
      → body s ≡ (ok a, s')
      → run body s ≡ (ok a, s')
  pub rolls_back :
      (body : S → Result E A × S) (s : S) (e : E) (s' : S)
      → body s ≡ (err e, s')
      → run body s ≡ (err e, s)

module _ {S E A : Type 0} (t : Transaction S E A) (body : S → Result E A × S) (s : S) where
  pub run-ok : {a : A} {s' : S} → t.run body s ≡ (ok a, s') → body s ≡ (ok a, s')
  run-ok {a} {s'} h = go (body s) refl
    where
      go : (r : Result E A × S) → body s ≡ r → r ≡ (ok a, s')
      go (ok b, u) e = sym (t.commits body s b u e) ∙ h
      go (err x, u) e = cc (t.rolls_back body s x u e)

  pub run-err : {e : E} {s' : S} → t.run body s ≡ (err e, s') → (s' ≡ s) × ((body s).0 ≡ err e)
  run-err {e} {s'} h = go (body s) refl
    where
      go : (r : Result E A × S) → body s ≡ r → (s' ≡ s) × (r.0 ≡ err e)
      go (ok b, u) q = cc (t.commits body s b u q)
      go (err x, u) q = (cc (t.rolls_back body s x u q), cc (t.rolls_back body s x u q))
