-- ===== src/Sequences/Assign/Exhausted.antt =====
-- What becomes of a range whose numbers are all used.
use ecf_api.Prelude.{◌≡◌, refl, inl, inr, false, none, some, arith, Bool-cases}
use ecf_api.Prelude.Results.{err, is_ok, Transaction}
use ecf_api.Prelude.Rows.{find_first}
use ecf_api.Prelude.Rows.Laws.{All-Has, find_first-some}
use ecf_api.Types.{Uuid, Time, EcfType}
use ecf_api.Sequences.{Sequence, Store, Error, sequence_exhausted, is_active_for, update_sequence}
use ecf_api.Sequences.Create.{CreateSequenceDto, create}
use ecf_api.Sequences.Create.Ranges.{Admits}
use ecf_api.Sequences.Create.Admission.{create_iff}
use ecf_api.Sequences.Assign.{
  Assigned, is_expired, assign_next, assign_from, assign_next_encf, get_next_encf,
}
use ecf_api.Sequences.Invariant.{IsValid}

module _ (transaction : Transaction Store Error Assigned) (now : Time) (tenant company : Uuid)
    (t : EcfType) (st : Store) (s : Sequence) (v : IsValid st.sequences)
    (found : find_first (is_active_for tenant company t) st.sequences ≡ some s)
    (used_up : s.current_number ≡ s.end_number) where
  exhausted_body :
      is_expired now s.expires_at ≡ false
      → assign_next_encf now tenant company t none st
        ≡ (err sequence_exhausted, update_sequence s.id (λ r. record r { is_active = false }) st)
  unfolding assign_next_encf assign_from assign_next
  exhausted_body current = rw (found, assign_next_encf) (ground arith)

  -- The deactivation that precedes the exception is rolled back with it.
  pub exhausted_unchanged :
      is_expired now s.expires_at ≡ false
      → get_next_encf transaction now tenant company t none st ≡ (err sequence_exhausted, st)
  unfolding get_next_encf
  exhausted_unchanged current =
      transaction.rolls_back (assign_next_encf now tenant company t none) st sequence_exhausted _
        (exhausted_body current)

  -- An active row of the key is in the way of every new range.
  blocked :
      (fresh owner : Uuid) (dto : CreateSequenceDto)
      → dto.company_id ≡ company
      → dto.ecf_type ≡ t
      → is_ok (create fresh owner dto st).0 ≡ false
  blocked fresh owner dto same_company same_type =
      elim (Bool-cases (is_ok (create fresh owner dto st).0)) [
        | inr refused ↦ refused
        | inl good ↦
            let (fits, m) = find_first-some (is_active_for tenant company t) st.sequences found in
            let (_, _, _, _, admits) = (create_iff fresh owner dto st v).0 good in
            let clash : Admits dto s = All-Has (Admits dto) s st.sequences admits m in ground arith
      ]

  -- Once the active range of a company and type is used up, a request for the next number fails and
  -- leaves the range active, and no new range of that company and type can be registered.
  pub exhausted_blocks_create :
      (fresh owner : Uuid) (dto : CreateSequenceDto)
      → is_expired now s.expires_at ≡ false
      → dto.company_id ≡ company
      → dto.ecf_type ≡ t
      → let r = get_next_encf transaction now tenant company t none st in
        (r.0 ≡ err sequence_exhausted)
        × (find_first (is_active_for tenant company t) r.1.sequences ≡ some s)
        × (is_ok (create fresh owner dto r.1).0 ≡ false)
  exhausted_blocks_create fresh owner dto current same_company same_type =
      rw (exhausted_unchanged current) (refl, found, blocked fresh owner dto same_company same_type)
