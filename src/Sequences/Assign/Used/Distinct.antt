-- ===== src/Sequences/Assign/Used/Distinct.antt =====
-- No tax number is handed out twice: every run of registrations and assignments.
use ecf_api.Prelude.{
  ℕ, ◌+◌, ◌^◌, ◌<◌, ◌≡◌, refl, sym, ap, ◌∙◌, ◌≢◌, inl, inr, true, List, [], ◌∷◌, ◌++◌, none, arith,
  max,
}
use mathlib.Core.Path.{subst}
use ecf_api.Prelude.Text.{Text, to_string}
use ecf_api.Prelude.Results.{Result, ok, err, Transaction}
use ecf_api.Prelude.Rows.{All}
use ecf_api.Prelude.Rows.Laws.{All-map, All-append, find_first-some}
use ecf_api.Types.{Uuid, Time, EcfType}
use ecf_api.Encf.{type_code, format_encf}
use ecf_api.Encf.Format.{type_prefix-format, format_encf-injective}
use ecf_api.Sequences.{
  Sequence, Store, Error, ecf_type_prefix, encf_of, is_active_for, has_key, update_sequence,
}
use ecf_api.Sequences.Create.{CreateSequenceDto, create}
use ecf_api.Sequences.Create.Admission.{create-IsValid, create_writes}
use ecf_api.Sequences.Assign.{Assigned, get_next_encf}
use ecf_api.Sequences.Assign.Rollback.{
  Assigns, advanced, get_next_encf-Assigns, get_next_encf-error_unchanged, get_next_encf-IsValid,
}
use ecf_api.Sequences.Assign.Used.{Used, next_unused, Used-mono, key_parts}
use ecf_api.Sequences.Invariant.{IsValid}
use ecf_api.Sequences.Invariant.Update.{IsSound-of_Has, Has-update_row}

-- Requests in the order in which they run.
pub data Request : Type 0 where
  register : Uuid → CreateSequenceDto → Request
  assign : Time → Uuid → Uuid → EcfType → Request

-- The company and the number that a request was given.
abbrev pub Issue : Type 0
Issue = Uuid × Text

module _ (transaction : Transaction Store Error Assigned) (fresh : Store → Uuid) where
  -- One request: the number that it hands out, if any, and the tables after it.
  unfoldable pub serve : Request → Store → List Issue × Store
  serve (register tenant dto) st = ([], (create (fresh st) tenant dto st).1)
  serve (assign now tenant company t) st =
      let r = get_next_encf transaction now tenant company t none st in
      (elim r.0 [ ok a ↦ (company, a.encf) ∷ [] | err _ ↦ [] ], r.1)

  -- All the numbers that a run of requests hands out, first to last.
  unfoldable pub issues : List Request → Store → List Issue
  issues [] st = []
  issues (q ∷ qs) st = let (given, st') = serve q st in given ++ issues qs st'

abbrev pub AllDistinct : List Issue → Type 0
AllDistinct [] = Unit
AllDistinct (i ∷ is) = All (λ j. i ≢ j) is × AllDistinct is

AllDistinct-append :
    (is js : List Issue)
    → AllDistinct is
    → AllDistinct js
    → All (λ j. All (λ i. i ≢ j) is) js
    → AllDistinct (is ++ js)
AllDistinct-append [] js d e h = e
AllDistinct-append (i ∷ is) js d e h = (
  All-append (λ j. i ≢ j) is js d.0 (All-map _ (λ j. i ≢ j) js (λ j p. p.0) h),
  AllDistinct-append is js d.1 e (All-map _ (λ j. All (λ k. k ≢ j) is) js (λ j p. p.1) h),
)

-- The numbers of a registered range fit the column.
abbrev pub FitsColumn : Request → Type 0
FitsColumn (register _ dto) = dto.end_number < 2 ^ 31
FitsColumn (assign _ _ _ _) = Unit

prefix-text : (t : EcfType) → ecf_type_prefix t ≡ b'E' ∷ to_string (type_code t)
unfolding ecf_type_prefix to_string
prefix-text EcfType.e31 = refl
prefix-text _ = refl

encf_of-format :
    (s : Sequence) (n : ℕ)
    → s.prefix ≡ ecf_type_prefix s.ecf_type
    → encf_of s n ≡ format_encf (type_code s.ecf_type) n
unfolding encf_of
encf_of-format s n e = type_prefix-format s.ecf_type s.prefix n (e ∙ prefix-text s.ecf_type)

-- What an assignment makes of the numbers used: it uses one that was not, and its text is the eNCF of
-- that number.
record Issues (company : Uuid) (t : EcfType) (st : Store) (x : Text) (st' : Store) : Type 0 where
  n : ℕ
  small : n < 10 ^ 10
  text : x ≡ format_encf (type_code t) n
  unused : ¬ Used company t n st.sequences
  now_used : Used company t n st'.sequences
  kept : (c : Uuid) (u : EcfType) (m : ℕ) → Used c u m st.sequences → Used c u m st'.sequences

Assigns-Issues :
    (now : Time) (tenant company : Uuid) (t : EcfType) (st : Store) (a : Assigned) (st' : Store)
    → IsValid st.sequences
    → Assigns now tenant company t none st a st'
    → Issues company t st a.encf st'
unfolding update_sequence
Assigns-Issues now tenant company t st a st' v h =
    let s = h.row in
    let n = s.current_number + 1 in
    let (fits, m) = find_first-some (is_active_for tenant company t) st.sequences h.found in
    let key : has_key company t s ≡ true = ground arith in
    let sound = IsSound-of_Has s st.sequences v m in
    record {
      n = n;
      small = omega (arith, sound, h.in_range);
      text =
          ap (λ (b : Assigned). b.encf) h.number
          ∙ (encf_of-format s n sound.prefixed
              ∙ ap (λ (u : EcfType). format_encf (type_code u) n) (key_parts company t s key).1);
      unused =
          next_unused company t n st.sequences s v m key (omega arith) h.in_range.0 h.in_range.1;
      now_used =
          subst (λ z. Used company t n z.sequences) (sym h.written)
            (
              advanced s n,
              Has-update_row (λ r. record r { current_number = max s.current_number n }) s
                  st.sequences v m,
              ground arith,
            );
      kept = λ c u k w.
          subst (λ z. Used c u k z.sequences) (sym h.written)
            (Used-mono c u k n st.sequences s v m w);
    }

-- A number that the company has not used before.
abbrev New : Store → Issue → Type 0
New st (c, x) =
    (t : EcfType) (n : ℕ) → n < 10 ^ 10 → Used c t n st.sequences → x ≢ format_encf (type_code t) n

Issues-New :
    (company : Uuid) (t : EcfType) (st : Store) (x : Text) (st' : Store)
    → Issues company t st x st'
    → New st (company, x)
Issues-New company t st x st' i u m small w e =
    let (same_type, same_number) = format_encf-injective t u i.n m i.small small (sym i.text ∙ e) in
    i.unused (
      subst (λ z. Used company z i.n st.sequences) (sym same_type)
        (subst (λ k. Used company u k st.sequences) (sym same_number) w))

-- What is new after an assignment is not the number assigned.
New-differs :
    (company : Uuid) (t : EcfType) (st : Store) (x : Text) (st' : Store) (j : Issue)
    → Issues company t st x st'
    → New st' j
    → (company, x) ≢ j
New-differs company t st x st' j i new e =
    new t i.n i.small (subst (λ (k : Issue). Used k.0 t i.n st'.sequences) e i.now_used)
      (sym (ap (λ (k : Issue). k.1) e) ∙ i.text)

module _ (transaction : Transaction Store Error Assigned) (fresh : Store → Uuid)
    (fresh_new : (st : Store) → All (λ s. s.id ≢ fresh st) st.sequences) where
  serve-IsValid :
      (q : Request) (st : Store)
      → FitsColumn q
      → IsValid st.sequences
      → IsValid (serve transaction fresh q st).1.sequences
  unfolding serve
  serve-IsValid (register tenant dto) st fits v =
      create-IsValid (fresh st) tenant dto st v (fresh_new st) fits
  serve-IsValid (assign now tenant company t) st fits v =
      get_next_encf-IsValid now tenant company t st transaction none v

  -- One request: what it hands out is new, and what is new after it was new before it and differs
  -- from what it hands out.
  abbrev Serves : Store → List Issue × Store → Type 0
  Serves st r =
      All (New st) r.0
      × AllDistinct r.0
      × ((j : Issue) → New r.1 j → New st j × All (λ i. i ≢ j) r.0)

  assign_step :
      (now : Time) (tenant company : Uuid) (t : EcfType) (st : Store)
      → IsValid st.sequences
      → (r : Result Error Assigned × Store)
      → get_next_encf transaction now tenant company t none st ≡ r
      → Serves st (elim r.0 [ ok a ↦ (company, a.encf) ∷ [] | err _ ↦ [] ], r.1)
  assign_step now tenant company t st v (ok a, st') e =
      let assigns = get_next_encf-Assigns now tenant company t st transaction none v e in
      let i = Assigns-Issues now tenant company t st a st' v assigns in
      (
        (Issues-New company t st a.encf st' i, tt),
        (tt, tt),
        λ j new. (
          λ u m small w. new u m small (i.kept j.0 u m w),
          (New-differs company t st a.encf st' j i new, tt),
        ),
      )
  assign_step now tenant company t st v (err x, st') e =
      let same = get_next_encf-error_unchanged now tenant company t st transaction none e in
      (tt, tt, λ j new. (subst (λ z. New z j) same new, tt))

  register_step :
      (tenant : Uuid) (dto : CreateSequenceDto) (st : Store)
      → Serves st ([], (create (fresh st) tenant dto st).1)
  register_step tenant dto st = elim (create_writes (fresh st) tenant dto st) [
    | inl same ↦ (tt, tt, λ j new. (subst (λ z. New z j) same new, tt))
    | inr added ↦ (
      tt,
      tt,
      λ j new. (λ t n small (s, m, u). subst (λ z. New z j) added new t n small (s, inr m, u), tt),
    )
  ]

  serve_step :
      (q : Request) (st : Store) → IsValid st.sequences → Serves st (serve transaction fresh q st)
  unfolding serve
  serve_step (register tenant dto) st v = register_step tenant dto st
  serve_step (assign now tenant company t) st v =
      assign_step now tenant company t st v (get_next_encf transaction now tenant company t none st)
        refl

  issues-New :
      (qs : List Request) (st : Store)
      → All FitsColumn qs
      → IsValid st.sequences
      → All (New st) (issues transaction fresh qs st)
  unfolding issues
  issues-New [] st fits v = tt
  issues-New (q ∷ qs) st fits v =
      let (given, st') = serve transaction fresh q st in
      let (new, _, later) = serve_step q st v in
      All-append (New st) given (issues transaction fresh qs st') new (
        All-map (New st') (New st) (issues transaction fresh qs st') (λ j n. (later j n).0)
          (issues-New qs st' fits.1 (serve-IsValid q st fits.0 v)))

  -- No company is handed a tax number twice: in any run of registrations and of assignments without an
  -- override, each registered range within the 32 bits of its columns, from a valid table, the numbers
  -- handed out are pairwise different for each company.
  pub issues-AllDistinct :
      (qs : List Request) (st : Store)
      → All FitsColumn qs
      → IsValid st.sequences
      → AllDistinct (issues transaction fresh qs st)
  unfolding issues
  issues-AllDistinct [] st fits v = tt
  issues-AllDistinct (q ∷ qs) st fits v =
      let (given, st') = serve transaction fresh q st in
      let (_, apart, later) = serve_step q st v in
      let v' = serve-IsValid q st fits.0 v in
      AllDistinct-append given (issues transaction fresh qs st') apart
        (issues-AllDistinct qs st' fits.1 v')
        (All-map (New st') _ (issues transaction fresh qs st') (λ j n. (later j n).1)
          (issues-New qs st' fits.1 v'))
