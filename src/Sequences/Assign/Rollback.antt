-- ===== src/Sequences/Assign/Rollback.antt =====
-- `getNextEncf` on every branch: what a success writes, and what a failure leaves.
use ecf_api.Prelude.{
  ℕ, ◌+◌, ◌≤◌, ◌≡◌, refl, sym, inl, inr, false, Option, none, some, arith, max, Option-cases,
}
use mathlib.Core.Path.{subst}
use ecf_api.Prelude.Results.{Result, ok, err, Transaction, run-ok, run-err}
use ecf_api.Prelude.Rows.{find_first}
use ecf_api.Prelude.Rows.Laws.{find_first-some}
use ecf_api.Types.{Uuid, Time, EcfType}
use ecf_api.Sequences.{Sequence, Store, Error, is_active_for, update_sequence, encf_of}
use ecf_api.Sequences.Assign.{
  Assigned, is_expired, assign_override, assign_next, assign_from, assign_next_encf, get_next_encf,
}
use ecf_api.Sequences.Invariant.{IsValid}
use ecf_api.Sequences.Invariant.Update.{update_row-IsValid, IsSound-of_Has}

-- The number that a request asks for: the override, or the next one.
abbrev pub requested : Sequence → Option ℕ → ℕ
requested s none = s.current_number + 1
requested s (some n) = n

-- The row after the number `n` is used.
abbrev pub advanced : Sequence → ℕ → Sequence
advanced s n = record s { current_number = max s.current_number n }

-- What a successful assignment is: one active, unexpired row of the key; a number of its range, which
-- is the next one unless overridden; and a write of that row alone.
pub record Assigns (now : Time) (tenant company : Uuid) (t : EcfType) (o : Option ℕ) (st : Store)
    (a : Assigned) (st' : Store) : Type 0 where
  pub row : Sequence
  pub found : find_first (is_active_for tenant company t) st.sequences ≡ some row
  pub fresh : is_expired now row.expires_at ≡ false
  pub in_range : (row.start_number ≤ requested row o) × (requested row o ≤ row.end_number)
  pub number : a ≡ record { encf = encf_of row (requested row o); expires_at = row.expires_at }
  pub written :
      st'
      ≡ update_sequence row.id
          (λ r. record r { current_number = max row.current_number (requested row o) })
          st

-- The write of the next number is that of the greater of the two.
next_write : (s : Sequence) → max s.current_number (s.current_number + 1) ≡ s.current_number + 1
next_write s = omega arith

-- The write of an assignment keeps the table valid.
written-IsValid :
    (tenant company : Uuid) (t : EcfType) (st : Store) (o : Option ℕ) (s : Sequence)
    → IsValid st.sequences
    → find_first (is_active_for tenant company t) st.sequences ≡ some s
    → (s.start_number ≤ requested s o) × (requested s o ≤ s.end_number)
    → IsValid
        (update_sequence s.id
          (λ r. record r { current_number = max s.current_number (requested s o) })
          st).sequences
unfolding update_sequence
written-IsValid tenant company t st o s v found range =
    let (_, m) = find_first-some (is_active_for tenant company t) st.sequences found in
    let sound = IsSound-of_Has s st.sequences v m in
    update_row-IsValid (λ r. record r { current_number = max s.current_number (requested s o) }) s
      st.sequences v m (ground arith) (ground arith)

module _ (now : Time) (tenant company : Uuid) (t : EcfType) (st : Store) where
  assign_from-Assigns :
      (o : Option ℕ) (s : Sequence) {a : Assigned} {st' : Store}
      → find_first (is_active_for tenant company t) st.sequences ≡ some s
      → s.start_number ≤ s.current_number + 1
      → assign_from now o s st ≡ (ok a, st')
      → Assigns now tenant company t o st a st'
  unfolding assign_from assign_next assign_override
  assign_from-Assigns none s f b h = record {
    row = s;
    found = f;
    fresh = ground arith;
    in_range = ground arith;
    number = ground arith;
    written = rw (next_write s) (ground arith);
  }
  assign_from-Assigns (some n) s f b h = record {
    row = s;
    found = f;
    fresh = ground arith;
    in_range = ground arith;
    number = ground arith;
    written = ground arith;
  }

  pub assign_next_encf-Assigns :
      (o : Option ℕ) {a : Assigned} {st' : Store}
      → IsValid st.sequences
      → assign_next_encf now tenant company t o st ≡ (ok a, st')
      → Assigns now tenant company t o st a st'
  unfolding assign_next_encf
  assign_next_encf-Assigns o {a} {st'} v h =
      elim (Option-cases (find_first (is_active_for tenant company t) st.sequences)) [
        | inl e ↦ ground arith
        | inr (s, e) ↦
            let (_, m) = find_first-some (is_active_for tenant company t) st.sequences e in
            assign_from-Assigns o s e (IsSound-of_Has s st.sequences v m).begun
              (rw (e, assign_next_encf) at h)
      ]

  module _ (transaction : Transaction Store Error Assigned) where
    -- On a valid table, a successful call of `getNextEncf` took the next number (or the override) of an active, unexpired row, inside its
    -- range, and wrote that row alone.
    pub get_next_encf-Assigns :
        (o : Option ℕ) {a : Assigned} {st' : Store}
        → IsValid st.sequences
        → get_next_encf transaction now tenant company t o st ≡ (ok a, st')
        → Assigns now tenant company t o st a st'
    unfolding get_next_encf
    get_next_encf-Assigns o v h =
        assign_next_encf-Assigns o v
          (run-ok transaction (assign_next_encf now tenant company t o) st h)

    -- A call that throws changes nothing.
    pub get_next_encf-error_unchanged :
        (o : Option ℕ) {e : Error} {st' : Store}
        → get_next_encf transaction now tenant company t o st ≡ (err e, st')
        → st' ≡ st
    unfolding get_next_encf
    get_next_encf-error_unchanged o h =
        (run-err transaction (assign_next_encf now tenant company t o) st h).0

    -- A call of `getNextEncf`, refused or not, keeps a valid table valid.
    pub get_next_encf-IsValid :
        (o : Option ℕ)
        → IsValid st.sequences
        → IsValid (get_next_encf transaction now tenant company t o st).1.sequences
    get_next_encf-IsValid o v = go (get_next_encf transaction now tenant company t o st) refl
      where
        go :
            (r : Result Error Assigned × Store)
            → get_next_encf transaction now tenant company t o st ≡ r
            → IsValid r.1.sequences
        go (err e, st') q =
            subst (λ z. IsValid z.sequences) (sym (get_next_encf-error_unchanged o q)) v
        go (ok a, st') q =
            let assigns = get_next_encf-Assigns o v q in
            subst (λ z. IsValid z.sequences) (sym assigns.written)
              (written-IsValid tenant company t st o assigns.row v assigns.found assigns.in_range)
