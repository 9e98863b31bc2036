-- ===== src/Sequences/Annul/Plan.antt =====
-- What the plan of an annulment makes of the simulated rows.
use ecf_api.Prelude.{
  ℕ, ◌≤◌, ◌<◌, ◌≡◌, ◌⊎◌, inl, inr, true, false, List, [], ◌∷◌, arith, leb, min, Bool-cases,
}
use ecf_api.Prelude.Results.{ok, and_then, and_then-ok}
use ecf_api.Types.{Uuid}
use ecf_api.Sequences.{Invoice, Store}
use ecf_api.Sequences.Annul.{
  SimState, plan_past, plan_future, unless_blocked, plan_numbers, blocking,
}

-- The row of a state gives out no number `n`.
abbrev pub Shut : ℕ → SimState → Type 0
Shut n s = (s.active ≡ false) ⊎ (n ≤ s.current_number) ⊎ (s.end_number < n)

-- A later state of the same row that keeps shut what is shut.
pub record Follows (s t : SimState) : Type 0 where
  pub same_id : t.id ≡ s.id
  pub same_prefix : t.prefix ≡ s.prefix
  pub touched : t.touched ≡ true
  pub active : (t.active ≡ s.active) ⊎ (t.active ≡ false)
  pub current : s.current_number ≤ t.current_number
  pub end : t.end_number ≤ s.end_number

pub Shut-of_Follows : (n : ℕ) (s t : SimState) → Follows s t → Shut n s → Shut n t
Shut-of_Follows n s t f h = ground arith

unless_blocked_lem :
    (s t : SimState) (b : List Invoice)
    → unless_blocked s b ≡ ok t
    → t ≡ record s { touched = true }
unfolding unless_blocked
unless_blocked_lem s t [] e = ground arith
unless_blocked_lem s t (x ∷ xs) e = ground arith

module _ (tenant company : Uuid) (st : Store) where
  plan_past_lem :
      (from to : ℕ) (s t : SimState)
      → plan_past tenant company st from to s ≡ ok t
      → (t ≡ s × (min to s.current_number < from)) ⊎ (t ≡ record s { touched = true })
  unfolding plan_past
  plan_past_lem from to s t e = elim (Bool-cases (leb from (min to s.current_number))) [
    | inl past ↦ inr (unless_blocked_lem s t (blocking tenant company st s from to) (rw past at e))
    | inr ahead ↦ inl (ground arith, ground arith)
  ]

  plan_future-Follows :
      (from to : ℕ) (s t : SimState)
      → from ≤ to
      → to ≤ s.end_number
      → (s.touched ≡ true) ⊎ (min to s.current_number < from)
      → plan_future tenant company st from to s ≡ ok t
      → Follows s t
  unfolding plan_future
  plan_future-Follows from to s t ordered within touched e = ground arith

  plan_future-Shut :
      (from to : ℕ) (s t : SimState) (n : ℕ)
      → to ≤ s.end_number
      → plan_future tenant company st from to s ≡ ok t
      → from ≤ n
      → n ≤ to
      → Shut n t
  unfolding plan_future
  plan_future-Shut from to s t n within e low high = ground arith

  checked_parts :
      (from to : ℕ) (s t : SimState)
      → plan_numbers tenant company st from to s ≡ ok t
      → (to ≤ s.end_number)
        × (and_then (plan_past tenant company st from to s) (plan_future tenant company st from to)
            ≡ ok t)
  unfolding plan_numbers
  checked_parts from to s t e = (ground arith, ground arith)

  pub plan_numbers-Follows :
      (from to : ℕ) (s t : SimState)
      → from ≤ to
      → plan_numbers tenant company st from to s ≡ ok t
      → Follows s t
  plan_numbers-Follows from to s t ordered e =
      let (within, both) = checked_parts from to s t e in
      let (p, past, ahead) =
        and_then-ok (plan_past tenant company st from to s) (plan_future tenant company st from to)
          t both in
      elim (plan_past_lem from to s p past) [
        | inl (same, small) ↦
            plan_future-Follows from to s t ordered within (inr small) (rw same at ahead)
        | inr marked ↦
            let f =
              plan_future-Follows from to p t ordered (ground arith) (inl (ground arith)) ahead in
            ground arith
      ]

  pub plan_numbers-Shut :
      (from to : ℕ) (s t : SimState) (n : ℕ)
      → plan_numbers tenant company st from to s ≡ ok t
      → from ≤ n
      → n ≤ to
      → Shut n t
  plan_numbers-Shut from to s t n e low high =
      let (within, both) = checked_parts from to s t e in
      let (p, past, ahead) =
        and_then-ok (plan_past tenant company st from to s) (plan_future tenant company st from to)
          t both in
      plan_future-Shut from to p t n (ground (arith, plan_past_lem from to s p past)) ahead low high
