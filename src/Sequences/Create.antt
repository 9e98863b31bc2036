-- ===== src/Sequences/Create.antt =====
-- `create` of src/sequences/sequences.service.ts: the registration of an authorised range.
pub mod Ranges
pub mod Admission
use ecf_api.Prelude.{
  ℕ, ◌-◌, Bool, true, ◌&&◌, ◌||◌, ◌∷◌, Option, none, some, ltb, leb, if◌then◌else◌,
}
use ecf_api.Prelude.Results.{Result, ok, err}
use ecf_api.Types.{Uuid, Time, EcfType}
use ecf_api.Prelude.Rows.{find_first}
use ecf_api.Sequences.{
  Sequence, Store, Error, company_not_found, start_not_below_end, start_not_positive,
  end_not_positive, range_too_large, range_overlaps, active_exists, ecf_type_prefix, is_company,
  has_key,
}

-- The three cases of the overlap query in `create`.
unfoldable pub overlaps : ℕ → ℕ → Sequence → Bool
overlaps start end s =
    (leb s.start_number start && leb start s.end_number)
    || (leb s.start_number end && leb end s.end_number)
    || (leb start s.start_number && leb s.end_number end)

-- `CreateSequenceDto`; `@Min(1)` refuses negative numbers before the handler runs.
pub record CreateSequenceDto : Type 0 where
  pub company_id : Uuid
  pub ecf_type : EcfType
  pub start_number : ℕ
  pub end_number : ℕ
  pub expires_at : Option Time

-- The row that `create` inserts, under the key that the database gives it.
unfoldable pub new_sequence : Uuid → Uuid → CreateSequenceDto → Sequence
new_sequence fresh_id tenant dto = record {
  id = fresh_id;
  tenant_id = tenant;
  company_id = dto.company_id;
  ecf_type = dto.ecf_type;
  prefix = ecf_type_prefix dto.ecf_type;
  current_number = dto.start_number - 1;
  start_number = dto.start_number;
  end_number = dto.end_number;
  expires_at = dto.expires_at;
  is_active = true;
}

-- The two queries on existing ranges.
unfoldable pub overlapping : CreateSequenceDto → Store → Option Sequence
overlapping dto st =
    find_first
      (λ s. has_key dto.company_id dto.ecf_type s && overlaps dto.start_number dto.end_number s)
      st.sequences

unfoldable pub existing : CreateSequenceDto → Store → Option Sequence
existing dto st =
    find_first (λ s. has_key dto.company_id dto.ecf_type s && s.is_active) st.sequences

-- The insert, after both queries.
unfoldable pub insert_checked :
    Uuid → Uuid → CreateSequenceDto → Store → Result Error Sequence × Store
insert_checked fresh_id tenant dto st = elim (overlapping dto st) [
  | some _ ↦ (err range_overlaps, st)
  | none ↦ elim (existing dto st) [
    | some _ ↦ (err active_exists, st)
    | none ↦
        let s = new_sequence fresh_id tenant dto in
        (ok s, record st { sequences = s ∷ st.sequences })
  ]
]

-- `create`
unfoldable pub create : Uuid → Uuid → CreateSequenceDto → Store → Result Error Sequence × Store
create fresh_id tenant dto st = elim (find_first (is_company tenant dto.company_id) st.companies) [
  | none ↦ (err company_not_found, st)
  | some _ ↦
      if leb dto.end_number dto.start_number
      then (err start_not_below_end, st)
      else if ltb dto.start_number 1
      then (err start_not_positive, st)
      else if ltb dto.end_number 1
      then (err end_not_positive, st)
      else if ltb 10000000 (dto.end_number - dto.start_number)
      then (err range_too_large, st)
      else insert_checked fresh_id tenant dto st
]
