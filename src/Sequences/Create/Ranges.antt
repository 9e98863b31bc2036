-- ===== src/Sequences/Create/Ranges.antt =====
-- `create` admits a range exactly if it is new, and keeps the table valid.
use ecf_api.Prelude.{
  ℕ, ◌^◌, ◌≤◌, ◌<◌, ◌≡◌, ◌≢◌, ◌⊎◌, ◌↔◌, inl, inr, true, false, ◌&&◌, List, [], ◌∷◌, none, arith,
  max, Option-cases,
}
use ecf_api.Prelude.Results.{is_ok}
use ecf_api.Prelude.Rows.{All}
use ecf_api.Prelude.Rows.Laws.{find_first-none, All-map, All-both}
use ecf_api.Types.{Uuid}
use ecf_api.Sequences.{Sequence, Store, has_key}
use ecf_api.Sequences.Create.{
  CreateSequenceDto, overlaps, new_sequence, overlapping, existing, insert_checked,
}
use ecf_api.Sequences.Invariant.{IsSound, Apart, IsValid}

-- The three cases of the query are together the test that two ranges share a number.
pub overlaps_iff :
    (start end : ℕ) (s : Sequence)
    → start ≤ end
    → s.start_number ≤ s.end_number
    → (overlaps start end s ≡ true)
      ↔ ((n : ℕ) × (start ≤ n) × (n ≤ end) × (s.start_number ≤ n) × (n ≤ s.end_number))
unfolding overlaps
overlaps_iff start end s h k = (
  λ o. (max start s.start_number, omega arith, ground arith, omega arith, ground arith),
  λ (n, a, b, c, d). ground arith,
)

pub overlaps-false :
    (start end : ℕ) (s : Sequence)
    → start ≤ end
    → s.start_number ≤ s.end_number
    → overlaps start end s ≡ false
    → (end < s.start_number) ⊎ (s.end_number < start)
unfolding overlaps
overlaps-false start end s h k o = ground arith

-- The new row against one that passed both queries.
new-Apart :
    (fresh tenant : Uuid) (dto : CreateSequenceDto) (t : Sequence)
    → t.id ≢ fresh
    → dto.start_number ≤ dto.end_number
    → t.start_number ≤ t.end_number
    → (has_key dto.company_id dto.ecf_type t && overlaps dto.start_number dto.end_number t) ≡ false
    → (has_key dto.company_id dto.ecf_type t && t.is_active) ≡ false
    → Apart (new_sequence fresh tenant dto) t
unfolding new_sequence
new-Apart fresh tenant dto t ne h k q r =
    ground (arith, overlaps-false dto.start_number dto.end_number t)

new-IsSound :
    (fresh tenant : Uuid) (dto : CreateSequenceDto)
    → 0 < dto.start_number
    → dto.start_number < dto.end_number
    → dto.end_number < 2 ^ 31
    → IsSound (new_sequence fresh tenant dto)
unfolding new_sequence
new-IsSound fresh tenant dto h k int4 = ground arith

-- What the conditions of `create` say of one row of the table.
abbrev pub Admits : CreateSequenceDto → Sequence → Type 0
Admits dto t =
    (has_key dto.company_id dto.ecf_type t ≡ false)
    ⊎ ((t.is_active ≡ false)
        × ((dto.end_number < t.start_number) ⊎ (t.end_number < dto.start_number)))

Admits-of_queries :
    (dto : CreateSequenceDto) (t : Sequence)
    → dto.start_number ≤ dto.end_number
    → t.start_number ≤ t.end_number
    → (has_key dto.company_id dto.ecf_type t && overlaps dto.start_number dto.end_number t) ≡ false
    → (has_key dto.company_id dto.ecf_type t && t.is_active) ≡ false
    → Admits dto t
Admits-of_queries dto t h k q r = ground (arith, overlaps-false dto.start_number dto.end_number t)

pub ordered_rows :
    (rows : List Sequence) → IsValid rows → All (λ t. t.start_number ≤ t.end_number) rows
ordered_rows [] v = tt
ordered_rows (t ∷ rows) v = (v.0.ordered, ordered_rows rows v.2)

-- What both queries leave of a table.
rows_passed :
    (dto : CreateSequenceDto) (st : Store)
    → overlapping dto st ≡ none
    → existing dto st ≡ none
    → All
        (λ t.
          ((has_key dto.company_id dto.ecf_type t && overlaps dto.start_number dto.end_number t)
            ≡ false)
          × ((has_key dto.company_id dto.ecf_type t && t.is_active) ≡ false))
        st.sequences
unfolding overlapping existing
rows_passed dto st e f =
    All-both _ _ st.sequences (find_first-none _ st.sequences e) (find_first-none _ st.sequences f)

module _ (fresh tenant : Uuid) (dto : CreateSequenceDto) (st : Store)
    (v : IsValid st.sequences) where
  pub insert-Admits :
      dto.start_number < dto.end_number
      → is_ok (insert_checked fresh tenant dto st).0 ≡ true
      → All (Admits dto) st.sequences
  unfolding insert_checked
  insert-Admits h good = elim (Option-cases (overlapping dto st)) [
    | inr (t, e) ↦ ground arith
    | inl e ↦ elim (Option-cases (existing dto st)) [
      | inr (t, f) ↦ ground arith
      | inl f ↦
          All-map _ (Admits dto) st.sequences
            (λ t p. Admits-of_queries dto t (omega arith) p.0 p.1.0 p.1.1)
            (All-both _ _ st.sequences (ordered_rows st.sequences v) (rows_passed dto st e f))
    ]
  ]

  pub insert-IsValid :
      0 < dto.start_number
      → dto.start_number < dto.end_number
      → dto.end_number < 2 ^ 31
      → All (λ t. t.id ≢ fresh) st.sequences
      → IsValid (insert_checked fresh tenant dto st).1.sequences
  unfolding insert_checked
  insert-IsValid h k int4 new = elim (Option-cases (overlapping dto st)) [
    | inr (t, e) ↦ rw (e, insert_checked) v
    | inl e ↦ elim (Option-cases (existing dto st)) [
      | inr (t, f) ↦ rw (e, f, insert_checked) v
      | inl f ↦
          rw (e, f, insert_checked)
            (
              new-IsSound fresh tenant dto h k int4,
              All-map _ (Apart (new_sequence fresh tenant dto)) st.sequences
                  (λ t p. new-Apart fresh tenant dto t p.0 (omega arith) p.1.0 p.1.1.0 p.1.1.1)
                  (All-both _ _ st.sequences new (
                    All-both _ _ st.sequences (ordered_rows st.sequences v)
                      (rows_passed dto st e f))),
              v,
            )
    ]
  ]
