-- ===== src/Sequences/Annul/Sims.antt =====
-- The map of simulated rows, and the adjustment of the table row by row.
use ecf_api.Prelude.{
  ℕ, ◌≤◌, ◌<◌, ◌≡◌, refl, sym, ◌∙◌, ap, ◌≢◌, ◌⊎◌, inl, inr, Bool, true, false, List, [], ◌∷◌, none,
  some, arith, ◌==◌, Bool-cases, if◌then◌else◌,
}
use mathlib.Core.Path.{subst}
use ecf_api.Prelude.Text.{Text, text_eq}
use ecf_api.Prelude.Text.Laws.{text_eq_iff}
use ecf_api.Prelude.Rows.{All, Has}
use ecf_api.Types.{Uuid}
use ecf_api.Sequences.{Sequence, update_row}
use ecf_api.Sequences.Annul.{SimState, lookup_sim, put_sim, adjust_row, adjust}
use ecf_api.Sequences.Annul.Plan.{Shut}

text_eq-ne : (s t : Text) → s ≢ t → text_eq s t ≡ false
text_eq-ne s t other = elim (Bool-cases (text_eq s t)) [
  | inl same ↦ absurd (other ((text_eq_iff s t).0 same))
  | inr differ ↦ differ
]

pub lookup_sim-here :
    (p : Text) (s : SimState) (sims : List SimState)
    → s.prefix ≡ p
    → lookup_sim p (s ∷ sims) ≡ some s
lookup_sim-here p s sims e = rw ((text_eq_iff s.prefix p).1 e)

pub lookup_sim-next :
    (p : Text) (s : SimState) (sims : List SimState)
    → s.prefix ≢ p
    → lookup_sim p (s ∷ sims) ≡ lookup_sim p sims
lookup_sim-next p s sims e = rw (text_eq-ne s.prefix p e)

pub lookup_sim-put :
    (s : SimState) (sims : List SimState) → lookup_sim s.prefix (put_sim s sims) ≡ some s
lookup_sim-put s [] = lookup_sim-here s.prefix s [] refl
lookup_sim-put s (x ∷ sims) = elim (Bool-cases (text_eq x.prefix s.prefix)) [
  | inl same ↦ rw same (lookup_sim-here s.prefix s sims refl)
  | inr other ↦ rw (other, other) (lookup_sim-put s sims)
]

pub lookup_sim-put_ne :
    (p : Text) (s : SimState) (sims : List SimState)
    → s.prefix ≢ p
    → lookup_sim p (put_sim s sims) ≡ lookup_sim p sims
lookup_sim-put_ne p s [] ne = lookup_sim-next p s [] ne
lookup_sim-put_ne p s (x ∷ sims) ne = elim (Bool-cases (text_eq x.prefix s.prefix)) [
  | inl same ↦
      let e = (text_eq_iff x.prefix s.prefix).0 same in
      rw same (lookup_sim-next p s sims ne ∙ sym (lookup_sim-next p x sims (λ f. ne (sym e ∙ f))))
  | inr other ↦
      rw other (ap (λ o. if text_eq x.prefix p then some x else o) (lookup_sim-put_ne p s sims ne))
]

-- One state for each prefix.
abbrev pub Distinct : List SimState → Type 0
Distinct [] = Unit
Distinct (s ∷ sims) = (lookup_sim s.prefix sims ≡ none) × Distinct sims

pub Distinct-put : (s : SimState) (sims : List SimState) → Distinct sims → Distinct (put_sim s sims)
Distinct-put s [] d = (refl, tt)
Distinct-put s (x ∷ sims) d = elim (Bool-cases (text_eq x.prefix s.prefix)) [
  | inl same ↦
      rw same
        (subst (λ q. lookup_sim q sims ≡ none) ((text_eq_iff x.prefix s.prefix).0 same) d.0, d.1)
  | inr other ↦ rw other (
    lookup_sim-put_ne x.prefix s sims (λ e. cc ((text_eq_iff x.prefix s.prefix).1 (sym e))) ∙ d.0,
    Distinct-put s sims d.1,
  )
]

pub All-put :
    (P : SimState → Type 0) (s : SimState) (sims : List SimState)
    → P s
    → All P sims
    → All P (put_sim s sims)
All-put P s [] h all = (h, tt)
All-put P s (x ∷ sims) h all = elim (Bool-cases (text_eq x.prefix s.prefix)) [
  | inl same ↦ rw same (h, all.1)
  | inr other ↦ rw other (all.0, All-put P s sims h all.1)
]

-- The adjustment of one row by every state.
abbrev pub adjust_one : List SimState → Sequence → Sequence
adjust_one [] r = r
adjust_one (s ∷ sims) r =
    adjust_one sims (if s.touched then (if r.id == s.id then adjust_row s r else r) else r)

pub Has-of_update_row :
    (k : Uuid) (f : Sequence → Sequence) (rows : List Sequence) (r' : Sequence)
    → Has r' (update_row k f rows)
    → (r : Sequence) × Has r rows × (r' ≡ (if r.id == k then f r else r))
Has-of_update_row k f [] r' h = elim h [ ]
Has-of_update_row k f (x ∷ rows) r' (inl e) = (x, inl refl, sym e)
Has-of_update_row k f (x ∷ rows) r' (inr h) =
    let (r, m, e) = Has-of_update_row k f rows r' h in (r, inr m, e)

-- Every row of the adjusted table is the adjustment of a row.
pub Has-of_adjust :
    (sims : List SimState) (rows : List Sequence) (r' : Sequence)
    → Has r' (adjust sims rows)
    → (r : Sequence) × Has r rows × (r' ≡ adjust_one sims r)
unfolding adjust
Has-of_adjust [] rows r' h = (r', h, refl)
Has-of_adjust (s ∷ sims) rows r' h =
    let (r, m, e) =
      Has-of_adjust sims (if s.touched then update_row s.id (adjust_row s) rows else rows) r' h in
    go s.touched r m e
  where
    go :
        (b : Bool) (r : Sequence)
        → Has r (if b then update_row s.id (adjust_row s) rows else rows)
        → r' ≡ adjust_one sims r
        → (q : Sequence) × Has q rows
          × (r' ≡ adjust_one sims (if b then (if q.id == s.id then adjust_row s q else q) else q))
    go true r m e =
        let (q, n, f) = Has-of_update_row s.id (adjust_row s) rows r m in
        (q, n, e ∙ ap (adjust_one sims) f)
    go false r m e = (r, m, e)

-- A row out of which no number `n` is given.
abbrev pub RowShut : ℕ → Sequence → Type 0
RowShut n r = (r.is_active ≡ false) ⊎ (n ≤ r.current_number) ⊎ (r.end_number < n)

pub adjust_row_same :
    (s : SimState) (r : Sequence)
    → ((adjust_row s r).id ≡ r.id)
      × ((adjust_row s r).company_id ≡ r.company_id)
      × ((adjust_row s r).ecf_type ≡ r.ecf_type)
      × ((adjust_row s r).is_active ≡ true → r.is_active ≡ true)
unfolding adjust_row
adjust_row_same s r = (ground arith, ground arith, ground arith, λ h. ground arith)

pub adjust_row-RowShut :
    (n : ℕ) (s : SimState) (r : Sequence) → Shut n s → RowShut n (adjust_row s r)
unfolding adjust_row
adjust_row-RowShut n s r h = ground arith
