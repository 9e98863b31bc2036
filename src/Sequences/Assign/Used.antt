-- ===== src/Sequences/Assign/Used.antt =====
-- The numbers that a company has used of a type, as one row of the table tells them.
pub mod Distinct
use ecf_api.Prelude.{
  ℕ, suc, ◌+◌, ◌^◌, ◌≤◌, ◌<◌, ◌≡◌, refl, sym, ◌≢◌, ◌⊎◌, inl, inr, Bool, true, false, ◌&&◌, ◌||◌,
  List, [], ◌∷◌, Option, none, some, arith, ltb, leb, ◌==◌, max, if◌then◌else◌, Bool-cases,
}
use mathlib.Core.Path.{subst}
use ecf_api.Prelude.Rows.{All, Has}
use ecf_api.Prelude.Rows.Laws.{All-Has, All-map}
use ecf_api.Types.{Uuid, EcfType, type_eq, type_eq_refl, type_eq→eq}
use ecf_api.Sequences.{Sequence, has_key, update_row}
use ecf_api.Sequences.Invariant.{IsSound, Apart, IsValid, same_key}
use ecf_api.Sequences.Invariant.Update.{IsSound-of_Has, two_rows, Has-update_row, Has-update_row_ne}
use ecf_api.Sequences.Assign.Rollback.{advanced}

-- The row has counted past `n`.
abbrev pub used_by : Uuid → EcfType → ℕ → Sequence → Bool
used_by company t n s = has_key company t s && leb s.start_number n && leb n s.current_number

abbrev pub Used : Uuid → EcfType → ℕ → List Sequence → Type 0
Used company t n rows = (s : Sequence) × Has s rows × (used_by company t n s ≡ true)

pub key_parts :
    (company : Uuid) (t : EcfType) (s : Sequence)
    → has_key company t s ≡ true
    → (s.company_id ≡ company) × (s.ecf_type ≡ t)
key_parts company t s h = (ground arith, type_eq→eq s.ecf_type t (ground arith))

-- Two rows of one key are rows of each other's key.
same_keys :
    (company : Uuid) (t : EcfType) (s r : Sequence)
    → has_key company t s ≡ true
    → has_key company t r ≡ true
    → same_key s r ≡ true
same_keys company t s r h k =
    let (c, e) = key_parts company t s h in
    let (d, f) = key_parts company t r k in ground (arith, type_eq_refl t)

distinct_ids : (s r : Sequence) → Apart s r ⊎ Apart r s → r.id ≢ s.id
distinct_ids s r (inl a) e = a.distinct (sym e)
distinct_ids s r (inr a) e = a.distinct e

module _ (company : Uuid) (t : EcfType) (n : ℕ) where
  -- The next number of a row is in no other row.
  unused_beside :
      (s r : Sequence)
      → has_key company t s ≡ true
      → s.start_number ≤ n
      → n ≤ s.end_number
      → IsSound r
      → Apart s r ⊎ Apart r s
      → used_by company t n r ≡ false
  unused_beside s r key a b sound apart = elim (Bool-cases (has_key company t r)) [
    | inr other ↦ rw other
    | inl same ↦ ground (arith, same_keys company t s r key same, same_keys company t r s same key)
  ]

  pub next_unused :
      (rows : List Sequence) (s : Sequence)
      → IsValid rows
      → Has s rows
      → has_key company t s ≡ true
      → s.current_number < n
      → s.start_number ≤ n
      → n ≤ s.end_number
      → ¬ Used company t n rows
  next_unused rows s v m key above a b (r, k, u) = elim (two_rows s r rows v m k) [
    | inl same ↦
        let w : used_by company t n s ≡ true = subst (λ z. used_by company t n z ≡ true) same u in
        ground arith
    | inr apart ↦ cc (unused_beside s r key a b (IsSound-of_Has r rows v k) apart)
  ]

  -- Using another number keeps what was used.
  pub Used-mono :
      (m : ℕ) (rows : List Sequence) (s : Sequence)
      → IsValid rows
      → Has s rows
      → Used company t n rows
      → Used company t n
          (update_row s.id (λ r. record r { current_number = max s.current_number m }) rows)
  Used-mono m rows s v h (r, k, u) = elim (two_rows s r rows v h k) [
    | inl same ↦ (
      advanced s m,
      Has-update_row (λ r. record r { current_number = max s.current_number m }) s rows v h,
      (let w : used_by company t n s ≡ true = subst (λ z. used_by company t n z ≡ true) same u in
          ground arith),
    )
    | inr apart ↦ (
      r,
      Has-update_row_ne (λ r. record r { current_number = max s.current_number m }) s rows r
          (distinct_ids s r apart) k,
      u,
    )
  ]
