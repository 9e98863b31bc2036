-- ===== src/Sequences/Annul/Rounds.antt =====
-- What each round of the plan of an annulment reaches.
use ecf_api.Prelude.{
  ℕ, ◌≤◌, ◌≡◌, refl, sym, ◌∙◌, ap, ◌⊎◌, inl, inr, true, List, [], ◌∷◌, some, arith, Bool-cases,
  Option-cases,
}
use mathlib.Core.Path.{subst}
use ecf_api.Prelude.Text.{Text, text_eq}
use ecf_api.Prelude.Text.Laws.{text_eq_iff}
use ecf_api.Prelude.Results.{ok, and_then-ok}
use ecf_api.Prelude.Rows.{All, Has, find_first}
use ecf_api.Prelude.Rows.Laws.{All-Has, find_first-some}
use ecf_api.Types.{Uuid, EcfType, type_eq_refl}
use ecf_api.Sequences.{Sequence, Store, ecf_type_prefix}
use ecf_api.Sequences.Invariant.{IsValid, Apart}
use ecf_api.Sequences.Invariant.Update.{two_rows}
use ecf_api.Sequences.Annul.{
  EncfRange, SimState, lookup_sim, put_sim, sim_of, read_range, find_sim, plan_numbers, plan_found,
  plan_range, plan, is_registered,
}
use ecf_api.Sequences.Annul.Plan.{
  Shut, Shut-of_Follows, Follows, plan_numbers-Follows, plan_numbers-Shut,
}
use ecf_api.Sequences.Annul.Sims.{
  lookup_sim-put, lookup_sim-put_ne, Distinct, Distinct-put, All-put, RowShut,
}

module _ (company : Uuid) (rows : List Sequence) where
  -- The state belongs to one row of the table, and that row is the active one of its prefix.
  pub record Owns (s : SimState) : Type 0 where
    pub owner : (r : Sequence) → Has r rows → r.id ≡ s.id → ecf_type_prefix r.ecf_type ≡ s.prefix
    pub only :
        (r : Sequence)
        → Has r rows
        → r.company_id ≡ company
        → ecf_type_prefix r.ecf_type ≡ s.prefix
        → r.is_active ≡ true
        → r.id ≡ s.id

  Owns-Follows : (s t : SimState) → Follows s t → Owns s → Owns t
  Owns-Follows s t f o = record {
    owner = λ r m e. o.owner r m (e ∙ f.same_id) ∙ sym f.same_prefix;
    only = λ r m c p a. o.only r m c (p ∙ f.same_prefix) a ∙ sym f.same_id;
  }

  -- No number `n` is given out under a prefix.
  abbrev pub IsClosed : Text → ℕ → Type 0
  IsClosed p n =
      (r : Sequence)
      → Has r rows
      → r.company_id ≡ company
      → ecf_type_prefix r.ecf_type ≡ p
      → RowShut n r

-- Two rows that are apart are not both the active one of their company and type.
not_both :
    (s r : Sequence)
    → s.is_active ≡ true
    → r.is_active ≡ true
    → r.company_id ≡ s.company_id
    → r.ecf_type ≡ s.ecf_type
    → Apart s r ⊎ Apart r s
    → ⊥
not_both s r a b c t (inl apart) = ground (arith, type_eq_refl s.ecf_type, apart.separate, t)
not_both s r a b c t (inr apart) = ground (arith, type_eq_refl s.ecf_type, apart.separate, t)

prefix-injective : (s t : EcfType) → ecf_type_prefix s ≡ ecf_type_prefix t → s ≡ t
unfolding ecf_type_prefix
prefix-injective s t e = ground arith

-- The active row of a prefix owns a new state.
registered-Owns :
    (tenant company : Uuid) (p : Text) (rows : List Sequence) (row : Sequence)
    → IsValid rows
    → find_first (is_registered tenant company p) rows ≡ some row
    → Owns company rows (sim_of p row)
registered-Owns tenant company p rows row v found =
    let (fits, m) = find_first-some (is_registered tenant company p) rows found in
    let prefixed : ecf_type_prefix row.ecf_type ≡ p =
      (text_eq_iff (ecf_type_prefix row.ecf_type) p).0 (ground arith) in
    record {
      owner = λ r k e. elim (two_rows row r rows v m k) [
        | inl same ↦ ap (λ z. ecf_type_prefix z.ecf_type) same ∙ prefixed
        | inr (inl a) ↦ absurd (a.distinct (sym e))
        | inr (inr a) ↦ absurd (a.distinct e)
      ];
      only = λ r k c q active. elim (two_rows row r rows v m k) [
        | inl same ↦ ap (λ z. z.id) same
        | inr apart ↦ absurd (
            not_both row r (ground arith) active (ground arith)
              (prefix-injective r.ecf_type row.ecf_type (q ∙ sym prefixed)) apart)
      ];
    }

-- What the plan has reached: a state for each row that it works on, and the state of the prefix `p`
-- shuts `n`.
pub record Reached (company : Uuid) (rows : List Sequence) (sims : List SimState) : Type 0 where
  pub owned : All (Owns company rows) sims
  pub distinct : Distinct sims

pub record Blocks (p : Text) (n : ℕ) (sims : List SimState) : Type 0 where
  pub state : SimState
  pub found : lookup_sim p sims ≡ some state
  pub marked : state.touched ≡ true
  pub shut : Shut n state

module _ (tenant company : Uuid) (st : Store) where
  find_sim-Owns :
      (p : Text) (sims : List SimState) (s : SimState)
      → IsValid st.sequences
      → All (Owns company st.sequences) sims
      → find_sim tenant company st p sims ≡ ok s
      → Owns company st.sequences s × (s.prefix ≡ p)
  unfolding find_sim
  find_sim-Owns p sims s v all e = elim (Option-cases (lookup_sim p sims)) [
    | inr (x, found) ↦
        let same : x ≡ s = ground arith in
        let (fits, m) = find_first-some (λ z. text_eq z.prefix p) sims found in
        subst (λ z. Owns company st.sequences z × (z.prefix ≡ p)) same
          (All-Has (Owns company st.sequences) x sims all m, (text_eq_iff x.prefix p).0 fits)
    | inl absent ↦ elim (Option-cases (find_first (is_registered tenant company p) st.sequences)) [
      | inl missing ↦ absurd (ground arith)
      | inr (row, found) ↦
          let same : sim_of p row ≡ s = ground arith in
          subst (λ z. Owns company st.sequences z × (z.prefix ≡ p)) same
            (registered-Owns tenant company p st.sequences row v found, refl)
    ]
  ]

  find_sim_found :
      (p : Text) (sims : List SimState) (s x : SimState)
      → find_sim tenant company st p sims ≡ ok s
      → lookup_sim p sims ≡ some x
      → s ≡ x
  unfolding find_sim
  find_sim_found p sims s x e found = ground arith

  read_range_ordered :
      (r : EncfRange) (q : Text × ℕ × ℕ) → read_range tenant company st r ≡ ok q → q.1 ≤ q.2
  unfolding read_range
  read_range_ordered r q e = ground arith

  plan_range_parts :
      (r : EncfRange) (sims next : List SimState)
      → plan_range tenant company st r sims ≡ ok next
      → (q : Text × ℕ × ℕ) × (s : SimState) × (t : SimState) × (read_range tenant company st r
          ≡ ok q)
        × (find_sim tenant company st q.0 sims ≡ ok s)
        × (plan_numbers tenant company st q.1 q.2 s ≡ ok t)
        × (next ≡ put_sim t sims)
  unfolding plan_range plan_found
  plan_range_parts r sims next e =
      let (q, read, rest) = and_then-ok (read_range tenant company st r) _ next e in
      let (s, found, more) = and_then-ok (find_sim tenant company st q.0 sims) _ next rest in
      let (t, planned, put) = and_then-ok (plan_numbers tenant company st q.1 q.2 s) _ next more in
      (q, s, t, read, found, planned, ground arith)

  plan_range-Reached :
      (r : EncfRange) (sims next : List SimState)
      → IsValid st.sequences
      → Reached company st.sequences sims
      → plan_range tenant company st r sims ≡ ok next
      → Reached company st.sequences next
  plan_range-Reached r sims next v h e =
      let (q, s, t, read, found, planned, put) = plan_range_parts r sims next e in
      let (owns, _) = find_sim-Owns q.0 sims s v h.owned found in
      let f =
        plan_numbers-Follows tenant company st q.1 q.2 s t (read_range_ordered r q read) planned in
      subst (Reached company st.sequences) (sym put) (record {
        owned =
            All-put (Owns company st.sequences) t sims
              (Owns-Follows company st.sequences s t f owns) h.owned;
        distinct = Distinct-put t sims h.distinct;
      })

  -- A round shuts its own range.
  plan_range-Blocks :
      (r : EncfRange) (sims next : List SimState) (q : Text × ℕ × ℕ) (n : ℕ)
      → IsValid st.sequences
      → Reached company st.sequences sims
      → plan_range tenant company st r sims ≡ ok next
      → read_range tenant company st r ≡ ok q
      → q.1 ≤ n
      → n ≤ q.2
      → Blocks q.0 n next
  plan_range-Blocks r sims next q n v h e is_q low high =
      let (q', s, t, read, found, planned, put) = plan_range_parts r sims next e in
      let same : q' ≡ q = cc (read, is_q) in
      let (_, of_q) = find_sim-Owns q'.0 sims s v h.owned found in
      let f =
        plan_numbers-Follows tenant company st q'.1 q'.2 s t (read_range_ordered r q' read)
          planned in
      let here = lookup_sim-put t sims in
      record {
        state = t;
        found =
            subst (λ z. lookup_sim z next ≡ some t) (f.same_prefix ∙ (of_q ∙ ap (λ z. z.0) same))
              (ap (lookup_sim t.prefix) put ∙ here);
        marked = f.touched;
        shut =
            plan_numbers-Shut tenant company st q'.1 q'.2 s t n planned
              (subst (λ z. z.1 ≤ n) (sym same) low) (subst (λ z. n ≤ z.2) (sym same) high);
      }

  -- A later round keeps shut what is shut.
  plan_range-Blocks_kept :
      (r : EncfRange) (sims next : List SimState) (p : Text) (n : ℕ)
      → IsValid st.sequences
      → Reached company st.sequences sims
      → plan_range tenant company st r sims ≡ ok next
      → Blocks p n sims
      → Blocks p n next
  plan_range-Blocks_kept r sims next p n v h e b =
      let (q, s, t, read, found, planned, put) = plan_range_parts r sims next e in
      let (_, of_q) = find_sim-Owns q.0 sims s v h.owned found in
      let f =
        plan_numbers-Follows tenant company st q.1 q.2 s t (read_range_ordered r q read) planned in
      elim (Bool-cases (text_eq t.prefix p)) [
        | inl same ↦
            let of_p = (text_eq_iff t.prefix p).0 same in
            let own : s ≡ b.state =
              find_sim_found p sims s b.state
                (subst (λ z. find_sim tenant company st z sims ≡ ok s)
                  (sym of_q ∙ (sym f.same_prefix ∙ of_p)) found)
                b.found in
            record {
              state = t;
              found =
                  subst (λ z. lookup_sim z next ≡ some t) of_p
                    (ap (lookup_sim t.prefix) put ∙ lookup_sim-put t sims);
              marked = f.touched;
              shut = Shut-of_Follows n s t f (subst (Shut n) (sym own) b.shut);
            }
        | inr other ↦ record {
          state = b.state;
          found =
              ap (lookup_sim p) put
              ∙ (lookup_sim-put_ne p t sims (λ g. cc ((text_eq_iff t.prefix p).1 g, other))
                  ∙ b.found);
          marked = b.marked;
          shut = b.shut;
        }
      ]

  pub plan-Reached :
      (ranges : List EncfRange) (sims next : List SimState)
      → IsValid st.sequences
      → Reached company st.sequences sims
      → plan tenant company st ranges sims ≡ ok next
      → Reached company st.sequences next
  unfolding plan
  plan-Reached [] sims next v h e = subst (Reached company st.sequences) (ground arith) h
  plan-Reached (r ∷ ranges) sims next v h e =
      let (mid, first, rest) =
        and_then-ok (plan_range tenant company st r sims) (plan tenant company st ranges) next e in
      plan-Reached ranges mid next v (plan_range-Reached r sims mid v h first) rest

  plan-Blocks_kept :
      (ranges : List EncfRange) (sims next : List SimState) (p : Text) (n : ℕ)
      → IsValid st.sequences
      → Reached company st.sequences sims
      → plan tenant company st ranges sims ≡ ok next
      → Blocks p n sims
      → Blocks p n next
  unfolding plan
  plan-Blocks_kept [] sims next p n v h e b = subst (Blocks p n) (ground arith) b
  plan-Blocks_kept (r ∷ ranges) sims next p n v h e b =
      let (mid, first, rest) =
        and_then-ok (plan_range tenant company st r sims) (plan tenant company st ranges) next e in
      plan-Blocks_kept ranges mid next p n v (plan_range-Reached r sims mid v h first) rest
        (plan_range-Blocks_kept r sims mid p n v h first b)

  -- The plan shuts every range.
  pub plan-Blocks :
      (ranges : List EncfRange) (sims next : List SimState) (r : EncfRange) (q : Text × ℕ × ℕ)
      (n : ℕ)
      → IsValid st.sequences
      → Reached company st.sequences sims
      → plan tenant company st ranges sims ≡ ok next
      → Has r ranges
      → read_range tenant company st r ≡ ok q
      → q.1 ≤ n
      → n ≤ q.2
      → Blocks q.0 n next
  unfolding plan
  plan-Blocks [] sims next r q n v h e m is_q low high = elim m [ ]
  plan-Blocks (x ∷ ranges) sims next r q n v h e (inl same) is_q low high =
      let (mid, first, rest) =
        and_then-ok (plan_range tenant company st x sims) (plan tenant company st ranges) next e in
      plan-Blocks_kept ranges mid next q.0 n v (plan_range-Reached x sims mid v h first) rest (
        plan_range-Blocks x sims mid q n v h first
          (subst (λ z. read_range tenant company st z ≡ ok q) (sym same) is_q) low high)
  plan-Blocks (x ∷ ranges) sims next r q n v h e (inr m) is_q low high =
      let (mid, first, rest) =
        and_then-ok (plan_range tenant company st x sims) (plan tenant company st ranges) next e in
      plan-Blocks ranges mid next r q n v (plan_range-Reached x sims mid v h first) rest m is_q low
        high
