-- ===== src/Sequences/Annul/Rows.antt =====
-- The adjustment of one row by the states of a plan.
use ecf_api.Prelude.{
  ℕ, ◌≡◌, refl, sym, ◌∙◌, ap, ◌≢◌, inl, inr, Bool, true, false, List, [], ◌∷◌, none, some, ◌==◌,
  ==_iff, Bool-cases, if◌then◌else◌,
}
use mathlib.Core.Path.{subst}
use mathlib.Core.Option.{some-injective}
use ecf_api.Prelude.Text.{Text, text_eq}
use ecf_api.Prelude.Text.Laws.{text_eq_iff}
use ecf_api.Prelude.Rows.{All}
use ecf_api.Prelude.Rows.Laws.{All-map}
use ecf_api.Sequences.{Sequence}
use ecf_api.Sequences.Annul.{SimState, lookup_sim, adjust_row}
use ecf_api.Sequences.Annul.Plan.{Shut}
use ecf_api.Sequences.Annul.Sims.{
  lookup_sim-here, lookup_sim-next, Distinct, adjust_one, RowShut, adjust_row_same,
  adjust_row-RowShut,
}

-- A state of another row leaves a row alone.
other_row :
    (s : SimState) (r : Sequence)
    → r.id ≢ s.id
    → (if s.touched then (if r.id == s.id then adjust_row s r else r) else r) ≡ r
other_row s r ne = go s.touched (r.id == s.id) refl
  where
    go :
        (b c : Bool) → (r.id == s.id) ≡ c → (if b then (if c then adjust_row s r else r) else r) ≡ r
    go true true e = absurd (ne ((==_iff r.id s.id).0 e))
    go true false e = refl
    go false c e = refl

own_row :
    (s : SimState) (r : Sequence)
    → s.touched ≡ true
    → r.id ≡ s.id
    → (if s.touched then (if r.id == s.id then adjust_row s r else r) else r) ≡ adjust_row s r
own_row s r t e = rw (t, (==_iff r.id s.id).1 e)

absent_parts :
    (p : Text) (s : SimState) (sims : List SimState)
    → lookup_sim p (s ∷ sims) ≡ none
    → (s.prefix ≢ p) × (lookup_sim p sims ≡ none)
absent_parts p s sims absent =
    let ne : s.prefix ≢ p = λ e. let found = lookup_sim-here p s sims e in cc (found, absent) in
    (ne, sym (lookup_sim-next p s sims ne) ∙ absent)

adjust_one-absent :
    (p : Text) (sims : List SimState) (r : Sequence)
    → lookup_sim p sims ≡ none
    → All (λ s. r.id ≡ s.id → p ≡ s.prefix) sims
    → adjust_one sims r ≡ r
adjust_one-absent p [] r absent all = refl
adjust_one-absent p (s ∷ sims) r absent all =
    let (ne, rest) = absent_parts p s sims absent in
    ap (adjust_one sims) (other_row s r (λ e. ne (sym (all.0 e))))
    ∙ adjust_one-absent p sims r rest all.1

-- The state of a prefix shuts its row.
pub adjust_one-RowShut :
    (p : Text) (n : ℕ) (sims : List SimState) (r : Sequence) (s : SimState)
    → lookup_sim p sims ≡ some s
    → Distinct sims
    → All (λ x. r.id ≡ x.id → p ≡ x.prefix) sims
    → s.touched ≡ true
    → r.id ≡ s.id
    → Shut n s
    → RowShut n (adjust_one sims r)
adjust_one-RowShut p n [] r s found d all t e h = cc
adjust_one-RowShut p n (x ∷ sims) r s found d all t e h = elim (Bool-cases (text_eq x.prefix p)) [
  | inl same ↦
      let q = (text_eq_iff x.prefix p).0 same in
      let eq : x ≡ s = some-injective _ _ (sym (lookup_sim-here p x sims q) ∙ found) in
      let first = own_row x r (ap (λ z. z.touched) eq ∙ t) (e ∙ sym (ap (λ z. z.id) eq)) in
      let keep = (adjust_row_same x r).0 in
      let rest =
        adjust_one-absent p sims (adjust_row x r) (subst (λ z. lookup_sim z sims ≡ none) q d.0) (
          All-map (λ y. r.id ≡ y.id → p ≡ y.prefix) (λ y. (adjust_row x r).id ≡ y.id → p ≡ y.prefix)
            sims (λ y f g. f (sym keep ∙ g)) all.1) in
      subst (RowShut n) (sym (ap (adjust_one sims) first ∙ rest))
        (adjust_row-RowShut n x r (subst (Shut n) (sym eq) h))
  | inr other ↦
      let ne : x.prefix ≢ p = λ q. cc ((text_eq_iff x.prefix p).1 q, other) in
      let step = other_row x r (λ f. ne (sym (all.0 f))) in
      subst (λ z. RowShut n (adjust_one sims z)) (sym step)
        (adjust_one-RowShut p n sims r s (sym (lookup_sim-next p x sims ne) ∙ found) d.1 all.1 t e
          h)
]

-- Two rows with the same company and type, of which the first is active only if the second is.
abbrev pub SameKey : Sequence → Sequence → Type 0
SameKey a b =
    (a.company_id ≡ b.company_id)
    × (a.ecf_type ≡ b.ecf_type)
    × (a.is_active ≡ true → b.is_active ≡ true)

pub adjust_one-SameKey : (sims : List SimState) (r : Sequence) → SameKey (adjust_one sims r) r
adjust_one-SameKey [] r = (refl, refl, λ h. h)
adjust_one-SameKey (s ∷ sims) r =
    go s.touched (r.id == s.id) (adjust_one-SameKey sims r)
      (adjust_one-SameKey sims (adjust_row s r))
  where
    go :
        (b c : Bool)
        → SameKey (adjust_one sims r) r
        → SameKey (adjust_one sims (adjust_row s r)) (adjust_row s r)
        → SameKey (adjust_one sims (if b then (if c then adjust_row s r else r) else r)) r
    go true true other own =
        let (_, company, type, active) = adjust_row_same s r in
        (own.0 ∙ company, own.1 ∙ type, λ h. active (own.2 h))
    go true false other own = other
    go false c other own = other
