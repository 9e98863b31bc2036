-- ===== src/Sequences/Invariant.antt =====
-- What holds of the table `sequences` between two requests.
pub mod Update
use ecf_api.Prelude.{
  ℕ, suc, ◌+◌, ◌^◌, ◌≤◌, ◌<◌, ◌≡◌, ◌≢◌, ◌⊎◌, Bool, true, false, ◌&&◌, List, [], ◌∷◌, ◌==◌,
}
use ecf_api.Prelude.Rows.{All}
use ecf_api.Types.{type_eq}
use ecf_api.Sequences.{Sequence, Store, ecf_type_prefix, has_key}

-- One row: a range of positive numbers, of which those up to `current_number` are used.
pub record IsSound (s : Sequence) : Type 0 where
  pub positive : 0 < s.start_number
  pub ordered : s.start_number ≤ s.end_number
  pub begun : s.start_number ≤ s.current_number + 1
  pub within : s.current_number ≤ s.end_number
  pub int4 : s.end_number < 2 ^ 31
  pub prefixed : s.prefix ≡ ecf_type_prefix s.ecf_type

abbrev pub same_key : Sequence → Sequence → Bool
same_key s t = has_key s.company_id s.ecf_type t

-- Two rows: another key of the table, and for one company and type not both active, and no number
-- in common.
pub record Apart (s t : Sequence) : Type 0 where
  pub distinct : s.id ≢ t.id
  pub separate :
      (same_key s t ≡ false)
      ⊎ (((s.is_active && t.is_active) ≡ false)
          × ((s.end_number < t.start_number) ⊎ (t.end_number < s.start_number)))

abbrev pub IsValid : List Sequence → Type 0
IsValid [] = Unit
IsValid (s ∷ rows) = IsSound s × All (Apart s) rows × IsValid rows

-- A write to a row that keeps it apart from the others: its range may shrink at the end.
pub record Narrows (s t : Sequence) : Type 0 where
  pub same_id : t.id ≡ s.id
  pub same_company : t.company_id ≡ s.company_id
  pub same_type : t.ecf_type ≡ s.ecf_type
  pub same_start : t.start_number ≡ s.start_number
  pub end_le : t.end_number ≤ s.end_number
  pub activity : (t.is_active ≡ s.is_active) ⊎ (t.is_active ≡ false)
