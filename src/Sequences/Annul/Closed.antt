-- ===== src/Sequences/Annul/Closed.antt =====
-- No number of an annulled range is given out after the annulment.
use ecf_api.Prelude.{
  ℕ, ◌+◌, ◌^◌, ◌≤◌, ◌<◌, ◌≡◌, sym, ◌∙◌, ap, ◌≢◌, inl, inr, Bool, true, List, [], ◌∷◌, none, some,
  arith, Bool-cases,
}
use mathlib.Core.Path.{subst}
use mathlib.Core.List.{append_cancel_left}
use ecf_api.Prelude.Text.{Text, text_eq, digits_value}
use ecf_api.Prelude.Text.Laws.{text_eq_iff, digits_value-padded}
use ecf_api.Prelude.Results.{ok, Transaction}
use ecf_api.Prelude.Rows.{Has, find_first}
use ecf_api.Prelude.Rows.Laws.{All-map, All-Has, find_first-some}
use ecf_api.Types.{Uuid, Time, EcfType, type_eq→eq}
use ecf_api.Sequences.{Sequence, Store, Error, ecf_type_prefix, encf_of, is_active_for}
use ecf_api.Sequences.Invariant.{IsValid, IsSound}
use ecf_api.Sequences.Invariant.Update.{IsSound-of_Has}
use ecf_api.Sequences.Assign.{Assigned, get_next_encf}
use ecf_api.Sequences.Assign.Rollback.{get_next_encf-Assigns}
use ecf_api.Sequences.Annul.{
  EncfRange, SimState, read_range, plan, adjust, encf_text, accepted, annul_sequences, annul_ranges,
  submit_annulment,
}
use ecf_api.Sequences.Annul.Sims.{Has-of_adjust, RowShut}
use ecf_api.Sequences.Annul.Rows.{SameKey, adjust_one-SameKey, adjust_one-RowShut}
use ecf_api.Sequences.Annul.Rounds.{Owns, IsClosed, Reached, plan-Reached, plan-Blocks}

-- The later table has the rows of the earlier one, with other counters, and none is active anew.
abbrev pub Continues : List Sequence → List Sequence → Type 0
Continues planned live =
    (r : Sequence) → Has r live → (s : Sequence) × Has s planned × (r.id ≡ s.id) × SameKey r s

module _ (tenant company : Uuid) (st : Store) where
  start : Reached company st.sequences []
  start = record { owned = tt; distinct = tt }

  adjust-IsClosed :
      (ranges : List EncfRange) (sims : List SimState) (live : List Sequence) (r : EncfRange)
      (q : Text × ℕ × ℕ) (n : ℕ)
      → IsValid st.sequences
      → plan tenant company st ranges [] ≡ ok sims
      → Continues st.sequences live
      → Has r ranges
      → read_range tenant company st r ≡ ok q
      → q.1 ≤ n
      → n ≤ q.2
      → IsClosed company (adjust sims live) q.0 n
  adjust-IsClosed ranges sims live r q n v planned same m is_q low high row' k of_company
        of_prefix =
      let b = plan-Blocks tenant company st ranges [] sims r q n v start planned m is_q low high in
      let reached = plan-Reached tenant company st ranges [] sims v start planned in
      let (row, held, adjusted) = Has-of_adjust sims live row' k in
      let (row_company, row_type, row_active) = adjust_one-SameKey sims row in
      let (s, first, id, (s_company, s_type, s_active)) = same row held in
      let prefixed : ecf_type_prefix s.ecf_type ≡ q.0 =
        sym (ap ecf_type_prefix (ap (λ z. z.ecf_type) adjusted ∙ (row_type ∙ s_type)))
        ∙ of_prefix in
      let (_, listed) = find_first-some (λ z. text_eq z.prefix q.0) sims b.found in
      let owns = All-Has (Owns company st.sequences) b.state sims reached.owned listed in
      let state_prefix : b.state.prefix ≡ q.0 =
        (text_eq_iff b.state.prefix q.0).0
          (find_first-some (λ z. text_eq z.prefix q.0) sims b.found).0 in
      elim (Bool-cases row'.is_active) [
        | inr off ↦ inl off
        | inl on ↦
            let active : s.is_active ≡ true =
              s_active (row_active (sym (ap (λ z. z.is_active) adjusted) ∙ on)) in
            let owned =
              owns.only s first
                (sym (ap (λ z. z.company_id) adjusted ∙ (row_company ∙ s_company)) ∙ of_company)
                (prefixed ∙ sym state_prefix) active in
            subst (RowShut n) (sym adjusted) (
              adjust_one-RowShut q.0 n sims row b.state b.found reached.distinct
                (All-map (Owns company st.sequences) (λ y. row.id ≡ y.id → q.0 ≡ y.prefix) sims
                  (λ y o e. sym prefixed ∙ o.owner s first (sym id ∙ e)) reached.owned)
                b.marked (id ∙ owned) b.shut)
      ]

  annul_parts :
      (ranges : List EncfRange) (signed : Bool) (later : Store → Store) (sims : List SimState)
      (st' : Store)
      → annul_sequences tenant company ranges signed accepted later st ≡ (ok sims, st')
      → (plan tenant company st ranges [] ≡ ok sims)
        × (st'.sequences ≡ adjust sims (later st).sequences)
  unfolding annul_sequences annul_ranges submit_annulment
  annul_parts [] signed later sims st' e = ground arith
  annul_parts (r ∷ ranges) signed later sims st' e = ground arith

  -- After an annulment that DGII accepts, the next number of no active row of the company and type, the
  -- one that an assignment without an override gives out, is in an annulled range, also if other requests
  -- have advanced or deactivated rows in the meantime.
  pub annul_sequences-IsClosed :
      (ranges : List EncfRange) (signed : Bool) (later : Store → Store) (sims : List SimState)
      (st' : Store) (r : EncfRange) (q : Text × ℕ × ℕ) (n : ℕ)
      → IsValid st.sequences
      → Continues st.sequences (later st).sequences
      → annul_sequences tenant company ranges signed accepted later st ≡ (ok sims, st')
      → Has r ranges
      → read_range tenant company st r ≡ ok q
      → q.1 ≤ n
      → n ≤ q.2
      → IsClosed company st'.sequences q.0 n
  annul_sequences-IsClosed ranges signed later sims st' r q n v same done m is_q low high =
      let (planned, adjusted) = annul_parts ranges signed later sims st' done in
      subst (λ z. IsClosed company z q.0 n) (sym adjusted)
        (adjust-IsClosed ranges sims (later st).sequences r q n v planned same m is_q low high)

-- A number that is closed is not given out by `getNextEncf` without an override, and stays closed.
module _ (transaction : Transaction Store Error Assigned) where
  number_of-encf :
      (p : Text) (m n : ℕ) → m < 10 ^ 10 → n < 10 ^ 10 → encf_text p m ≡ encf_text p n → m ≡ n
  number_of-encf p m n hm hn e =
      sym (digits_value-padded m hm)
      ∙ (ap (digits_value 0) (append_cancel_left p _ _ e) ∙ digits_value-padded n hn)

  assigned_row :
      (tenant company : Uuid) (t : EcfType) (st : Store) (s : Sequence)
      → IsValid st.sequences
      → find_first (is_active_for tenant company t) st.sequences ≡ some s
      → Has s st.sequences
        × IsSound s
        × (s.is_active ≡ true)
        × (s.company_id ≡ company)
        × (s.ecf_type ≡ t)
  assigned_row tenant company t st s v found =
      let (fits, m) = find_first-some (is_active_for tenant company t) st.sequences found in
      (
        m,
        IsSound-of_Has s st.sequences v m,
        ground arith,
        ground arith,
        type_eq→eq s.ecf_type t (ground arith),
      )

  -- A number that is closed is not given out by `getNextEncf` without an override.
  pub get_next_encf-closed :
      (now : Time) (tenant company : Uuid) (t : EcfType) (st : Store) (n : ℕ) {a : Assigned}
      {st' : Store}
      → IsValid st.sequences
      → n < 10 ^ 10
      → IsClosed company st.sequences (ecf_type_prefix t) n
      → get_next_encf transaction now tenant company t none st ≡ (ok a, st')
      → a.encf ≢ encf_text (ecf_type_prefix t) n
  unfolding encf_of
  get_next_encf-closed now tenant company t st n {a} v small closed e same =
      let x = get_next_encf-Assigns now tenant company t st transaction none v e in
      let s = x.row in
      let (m, sound, active, of_company, of_type) = assigned_row tenant company t st s v x.found in
      let shut = closed s m of_company (ap ecf_type_prefix of_type) in
      let text : encf_text (ecf_type_prefix t) (s.current_number + 1)
          ≡ encf_text (ecf_type_prefix t) n =
        ap (λ z. encf_text z (s.current_number + 1))
          (sym (sound.prefixed ∙ ap ecf_type_prefix of_type))
        ∙ (sym (ap (λ z. z.encf) x.number) ∙ same) in
      let number =
        number_of-encf (ecf_type_prefix t) (s.current_number + 1) n
          (omega (arith, x.in_range, sound.int4)) small text in
      ground arith
