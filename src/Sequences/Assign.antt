-- ===== src/Sequences/Assign.antt =====
-- `getNextEncf`, `getNextEncfInTx` and `assignNextEncf` of src/sequences/sequences.service.ts.
pub mod Rollback
pub mod Used
pub mod Exhausted
use ecf_api.Prelude.{ℕ, ◌+◌, Bool, false, ◌||◌, Option, none, some, ltb, if◌then◌else◌, max}
use ecf_api.Prelude.Text.{Text}
use ecf_api.Prelude.Results.{Result, ok, err, Transaction}
use ecf_api.Types.{Uuid, Time, EcfType}
use ecf_api.Prelude.Rows.{find_first}
use ecf_api.Sequences.{
  Sequence, Store, Error, no_active_sequence, sequence_expired, override_out_of_range,
  sequence_exhausted, update_sequence, is_active_for, encf_of,
}

-- The result of `assignNextEncf`.
pub record Assigned : Type 0 where
  pub encf : Text
  pub expires_at : Option Time

-- `sequence.expiresAt && sequence.expiresAt < new Date()`
abbrev pub is_expired : Time → Option Time → Bool
is_expired now none = false
is_expired now (some t) = ltb t now

-- The branch of `overrideNumber !== undefined`.
unfoldable pub assign_override : Sequence → ℕ → Store → Result Error Assigned × Store
assign_override s n st =
    if ltb n s.start_number || ltb s.end_number n then (err override_out_of_range, st) else (
      ok (record { encf = encf_of s n; expires_at = s.expires_at }),
      update_sequence s.id (λ r. record r { current_number = max s.current_number n }) st,
    )

-- The branch of the next number. The warning about a range that runs low is only logged.
unfoldable pub assign_next : Sequence → Store → Result Error Assigned × Store
assign_next s st =
    let next_number = s.current_number + 1 in
    if ltb s.end_number next_number
    then (err sequence_exhausted, update_sequence s.id (λ r. record r { is_active = false }) st)
    else (
      ok (record { encf = encf_of s next_number; expires_at = s.expires_at }),
      update_sequence s.id (λ r. record r { current_number = next_number }) st,
    )

-- The expiry check, and the choice between the two branches.
unfoldable pub assign_from : Time → Option ℕ → Sequence → Store → Result Error Assigned × Store
assign_from now override_number s st =
    if is_expired now s.expires_at
    then (err sequence_expired, update_sequence s.id (λ r. record r { is_active = false }) st)
    else elim override_number [ some n ↦ assign_override s n st | none ↦ assign_next s st ]

-- `assignNextEncf`: the writes made before a `throw` are in the returned tables.
unfoldable pub assign_next_encf :
    Time → Uuid → Uuid → EcfType → Option ℕ → Store → Result Error Assigned × Store
assign_next_encf now tenant company ecf_type override_number st =
    elim (find_first (is_active_for tenant company ecf_type) st.sequences) [
      | none ↦ (err no_active_sequence, st)
      | some s ↦ assign_from now override_number s st
    ]

-- `getNextEncf`: `assignNextEncf` in a transaction of its own.
unfoldable pub get_next_encf :
    Transaction Store Error Assigned
    → Time
    → Uuid
    → Uuid
    → EcfType
    → Option ℕ
    → Store
    → Result Error Assigned × Store
get_next_encf transaction now tenant company ecf_type override_number =
    transaction.run (assign_next_encf now tenant company ecf_type override_number)
