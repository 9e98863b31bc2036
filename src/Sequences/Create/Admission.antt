-- ===== src/Sequences/Create/Admission.antt =====
-- What `create` promises on all its branches.
use ecf_api.Prelude.{
  ◌-◌, ◌^◌, ◌≤◌, ◌<◌, ◌≡◌, refl, ◌≢◌, ◌↔◌, ◌⊎◌, inl, inr, true, false, ◌&&◌, ◌∷◌, none, arith,
  Option-cases, if_rule, leb, ltb,
}
use ecf_api.Prelude.Results.{Result, is_ok}
use ecf_api.Prelude.Rows.{All, find_first}
use ecf_api.Prelude.Rows.Laws.{All-map, All-both, find_first-absent}
use ecf_api.Types.{Uuid}
use ecf_api.Sequences.{Sequence, Store, Error, has_key, is_company}
use ecf_api.Sequences.Create.{
  CreateSequenceDto, new_sequence, overlaps, overlapping, existing, insert_checked, create,
}
use ecf_api.Sequences.Invariant.{IsValid}
use ecf_api.Sequences.Create.Ranges.{Admits, ordered_rows, insert-Admits, insert-IsValid}

-- A row that admits the range passes both queries.
admitted_row :
    (dto : CreateSequenceDto) (t : Sequence)
    → dto.start_number ≤ dto.end_number
    → t.start_number ≤ t.end_number
    → Admits dto t
    → ((has_key dto.company_id dto.ecf_type t && overlaps dto.start_number dto.end_number t)
        ≡ false)
      × ((has_key dto.company_id dto.ecf_type t && t.is_active) ≡ false)
unfolding overlaps
admitted_row dto t h k a = ground arith

module _ (fresh tenant : Uuid) (dto : CreateSequenceDto) (st : Store)
    (v : IsValid st.sequences) where
  admitted-insert :
      dto.start_number ≤ dto.end_number
      → All (Admits dto) st.sequences
      → is_ok (insert_checked fresh tenant dto st).0 ≡ true
  unfolding insert_checked overlapping existing
  admitted-insert h admits =
      let passed =
        All-map _ _ st.sequences (λ t p. admitted_row dto t h p.0 p.1)
          (All-both _ _ st.sequences (ordered_rows st.sequences v) admits) in
      rw
        (
          find_first-absent _ st.sequences (All-map _ _ st.sequences (λ t p. p.0) passed),
          find_first-absent _ st.sequences (All-map _ _ st.sequences (λ t p. p.1) passed),
          insert_checked,
        )
        refl

  -- On a valid table, a range is registered exactly if the company is the tenant's, the numbers are ordered, positive
  -- and at most ten million apart, and every range of the same company and type is inactive and has
  -- no number in common with it.
  pub create_iff : (is_ok (create fresh tenant dto st).0 ≡ true) ↔ (
      (find_first (is_company tenant dto.company_id) st.companies ≢ none)
      × (0 < dto.start_number)
      × (dto.start_number < dto.end_number)
      × (dto.end_number - dto.start_number ≤ 10000000)
      × All (Admits dto) st.sequences)
  unfolding create
  create_iff = (
    λ good. (
      ground arith,
      ground arith,
      ground arith,
      ground arith,
      insert-Admits fresh tenant dto st v (ground arith) (ground arith),
    ),
    λ (known, positive, below, short, admits). ground (arith, admitted-insert (omega arith) admits),
  )

  abbrev Kept : Result Error Sequence × Store → Type 0
  Kept r = IsValid r.1.sequences

  -- A call of `create`, refused or not, keeps the table valid, if the database hands out a new key
  -- and the numbers fit the column.
  pub create-IsValid :
      All (λ t. t.id ≢ fresh) st.sequences
      → dto.end_number < 2 ^ 31
      → IsValid (create fresh tenant dto st).1.sequences
  unfolding create
  create-IsValid new int4 =
      elim (Option-cases (find_first (is_company tenant dto.company_id) st.companies)) [
        | inl e ↦ rw (e, create) v
        | inr (c, e) ↦
            rw (e, create)
              (if_rule Kept (leb dto.end_number dto.start_number) (λ _. v)
                (λ below.
                  if_rule Kept (ltb dto.start_number 1) (λ _. v)
                    (λ positive.
                      if_rule Kept (ltb dto.end_number 1) (λ _. v)
                        (λ _.
                          if_rule Kept (ltb 10000000 (dto.end_number - dto.start_number)) (λ _. v)
                            (λ _.
                              insert-IsValid fresh tenant dto st v (ground arith) (ground arith)
                                int4 new)))))
      ]

-- A call of `create` inserts one row, or writes nothing.
pub create_writes :
    (fresh tenant : Uuid) (dto : CreateSequenceDto) (st : Store)
    → ((create fresh tenant dto st).1 ≡ st)
      ⊎ ((create fresh tenant dto st).1
          ≡ record st { sequences = new_sequence fresh tenant dto ∷ st.sequences })
unfolding create insert_checked
create_writes fresh tenant dto st = ground arith
