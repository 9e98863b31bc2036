-- ===== src/Sequences/Annul.antt =====
-- `annulSequences` of src/sequences/sequences.service.ts: the plan over simulated rows, the submission
-- to DGII, and the adjustment of the table. `getAnnulableEncfs` is in the child `Candidates`.
-- The invoices and the rows are read once, before the submission, and the adjustment reads the rows
-- anew: `plan` and `adjust` take the tables of their own time.
pub mod Plan
pub mod Sims
pub mod Rows
pub mod Rounds
pub mod Closed
pub mod Candidates
use ecf_api.Prelude.{
  ℕ, suc, ◌+◌, ◌-◌, Bool, true, false, ◌&&◌, not, List, [], ◌∷◌, ◌++◌, Option, none, some, ltb, leb,
  ◌==◌, if◌then◌else◌, max, min, take, drop, map,
}
use ecf_api.Prelude.Int.{pos}
use ecf_api.Prelude.Text.{Text, codes, to_string, pad_start, parse_int, text_eq, text_leb}
use ecf_api.Prelude.Results.{Result, ok, err, and_then}
use ecf_api.Prelude.Rows.{find_first, find_many}
use ecf_api.Types.{Uuid, InvoiceStatus, rejected, error}
use ecf_api.Encf.{is_valid_encf}
use ecf_api.Sequences.{
  Sequence, Company, Invoice, Store, Error, AnnulmentStatus, pending, refused, annulled, Annulment,
  company_not_found, no_ranges, incomplete_range, invalid_encf, mixed_types, from_above_to,
  no_registered_sequence, already_deactivated, outside_sequence, not_annullable, middle_segment,
  service_failed, anecf_not_sent, anecf_refused, ecf_type_prefix, update_row, is_company,
}

-- One element of `ranges`.
pub record EncfRange : Type 0 where
  pub encf_from : Text
  pub encf_to : Text

-- `SimState`
pub record SimState : Type 0 where
  pub id : Uuid
  pub prefix : Text
  pub start_number : ℕ
  pub end_number : ℕ
  pub current_number : ℕ
  pub active : Bool
  pub touched : Bool

-- `simByType.get(prefix)`
abbrev pub lookup_sim : Text → List SimState → Option SimState
lookup_sim prefix sims = find_first (λ s. text_eq s.prefix prefix) sims

-- The map after a write to the state of one prefix.
abbrev pub put_sim : SimState → List SimState → List SimState
put_sim s [] = s ∷ []
put_sim s (x ∷ sims) = if text_eq x.prefix s.prefix then s ∷ sims else x ∷ put_sim s sims

-- `${sim.prefix}${String(n).padStart(10, '0')}`
abbrev pub encf_text : Text → ℕ → Text
encf_text prefix n = prefix ++ pad_start 10 b'0' (to_string n)

-- `parseInt(encf.substring(3), 10)` of a text that `isValidEncf` accepts.
abbrev pub number_of : Text → ℕ
number_of encf = elim (parse_int (drop 3 encf)) [ some (pos n) ↦ n | _ ↦ 0 ]

-- `ANNULLABLE_INVOICE_STATES`
abbrev pub is_annullable : InvoiceStatus → Bool
is_annullable rejected = true
is_annullable error = true
is_annullable _ = false

-- The query of the invoices that forbid an annulment; an invoice without eNCF fits no bounds.
unfoldable pub is_blocking : Uuid → Uuid → Text → Text → Invoice → Bool
is_blocking tenant company low high i =
    i.tenant_id == tenant
    && i.company_id == company
    && elim i.encf [ none ↦ false | some e ↦ text_leb low e && text_leb e high ]
    && not (is_annullable i.status)

-- The query of the active row of a prefix.
abbrev pub is_registered : Uuid → Uuid → Text → Sequence → Bool
is_registered tenant company prefix s =
    s.tenant_id == tenant
    && s.company_id == company
    && text_eq (ecf_type_prefix s.ecf_type) prefix
    && s.is_active

-- The state of a row before the first range of its prefix.
abbrev pub sim_of : Text → Sequence → SimState
sim_of prefix s = record {
  id = s.id;
  prefix = prefix;
  start_number = s.start_number;
  end_number = s.end_number;
  current_number = s.current_number;
  active = true;
  touched = false;
}

-- A past number can be annulled if no invoice forbids it.
unfoldable pub unless_blocked : SimState → List Invoice → Result Error SimState
unless_blocked sim [] = ok (record sim { touched = true })
unless_blocked sim (_ ∷ _) = err not_annullable

module _ (tenant company : Uuid) (st : Store) where
  -- The checks of one range that read no table: the prefix, and the two numbers.
  unfoldable pub read_range : EncfRange → Result Error (Text × ℕ × ℕ)
  read_range r =
      if text_eq r.encf_from []
      then err incomplete_range
      else if text_eq r.encf_to []
      then err incomplete_range
      else if not (is_valid_encf r.encf_from && is_valid_encf r.encf_to)
      then err invalid_encf
      else if not (text_eq (take 3 r.encf_to) (take 3 r.encf_from))
      then err mixed_types
      else if ltb (number_of r.encf_to) (number_of r.encf_from)
      then err from_above_to
      else ok (take 3 r.encf_from, number_of r.encf_from, number_of r.encf_to)

  -- The state to work on: the one of an earlier range, or a new one.
  unfoldable pub find_sim : Text → List SimState → Result Error SimState
  find_sim prefix sims = elim (lookup_sim prefix sims) [
    | some s ↦ ok s
    | none ↦ elim (find_first (is_registered tenant company prefix) st.sequences) [
      | none ↦ err no_registered_sequence
      | some s ↦ ok (sim_of prefix s)
    ]
  ]

  abbrev pub blocking : SimState → ℕ → ℕ → List Invoice
  blocking sim from to =
      find_many
        (is_blocking tenant company (encf_text sim.prefix from)
          (encf_text sim.prefix (min to sim.current_number)))
        st.invoices

  -- The part of a range that is already counted past.
  unfoldable pub plan_past : ℕ → ℕ → SimState → Result Error SimState
  plan_past from to sim =
      if leb from (min to sim.current_number)
      then unless_blocked sim (blocking sim from to)
      else ok sim

  -- The part that is still ahead: the whole rest, its end, or its beginning.
  unfoldable pub plan_future : ℕ → ℕ → SimState → Result Error SimState
  plan_future from to sim =
      let next = sim.current_number + 1 in
      let above_from = max from next in
      if leb above_from to
      then if above_from == next && to == sim.end_number
        then ok (record sim { active = false; touched = true })
        else if to == sim.end_number
        then ok (record sim { end_number = above_from - 1; touched = true })
        else if above_from == next
        then ok (record sim { current_number = to; touched = true })
        else err middle_segment
      else ok sim

  -- The checks against the state, and both parts.
  unfoldable pub plan_numbers : ℕ → ℕ → SimState → Result Error SimState
  plan_numbers from to sim =
      if not sim.active
      then err already_deactivated
      else if ltb from sim.start_number
      then err outside_sequence
      else if ltb sim.end_number to
      then err outside_sequence
      else and_then (plan_past from to sim) (plan_future from to)

  unfoldable pub plan_found : ℕ → ℕ → List SimState → SimState → Result Error (List SimState)
  plan_found from to sims sim = and_then (plan_numbers from to sim) (λ next. ok (put_sim next sims))

  -- One round of the loop over the ranges.
  unfoldable pub plan_range : EncfRange → List SimState → Result Error (List SimState)
  plan_range r sims =
      and_then (read_range r)
        (λ (q : Text × ℕ × ℕ). and_then (find_sim q.0 sims) (plan_found q.1 q.2 sims))

  unfoldable pub plan : List EncfRange → List SimState → Result Error (List SimState)
  plan [] sims = ok sims
  plan (r ∷ ranges) sims = and_then (plan_range r sims) (plan ranges)

-- The adjustment of the row of one state.
unfoldable pub adjust_row : SimState → Sequence → Sequence
adjust_row sim r = if not sim.active then record r { is_active = false } else record r {
  end_number = sim.end_number;
  current_number = max r.current_number sim.current_number;
}

unfoldable pub adjust : List SimState → List Sequence → List Sequence
adjust [] rows = rows
adjust (sim ∷ sims) rows =
    adjust sims (if sim.touched then update_row sim.id (adjust_row sim) rows else rows)

-- What DGII says to the signed document.
pub data AnecfAnswer : Type 0 where
  not_sent not_accepted accepted : AnecfAnswer

-- The records of the request, all with one status.
abbrev pub annulments_of : Uuid → Uuid → AnnulmentStatus → List EncfRange → List Annulment
annulments_of tenant company status = map (λ r. record {
  tenant_id = tenant;
  company_id = company;
  encf_from = r.encf_from;
  encf_to = r.encf_to;
  status = status;
})

abbrev pub recorded : Uuid → Uuid → AnnulmentStatus → List EncfRange → Store → Store
recorded tenant company status ranges st = record st {
  annulments = annulments_of tenant company status ranges ++ st.annulments;
}

-- The submission and what follows it. The PENDING records are written before the submission and are
-- the ones that are updated after it; `later` are the tables when DGII has answered.
unfoldable pub submit_annulment :
    Uuid
    → Uuid
    → List EncfRange
    → List SimState
    → AnecfAnswer
    → Store
    → Result Error (List SimState) × Store
submit_annulment tenant company ranges sims not_sent later =
    (err anecf_not_sent, recorded tenant company pending ranges later)
submit_annulment tenant company ranges sims not_accepted later =
    (err anecf_refused, recorded tenant company refused ranges later)
submit_annulment tenant company ranges sims accepted later = (
  ok sims,
  record (recorded tenant company annulled ranges later) {
    sequences = adjust sims later.sequences;
  },
)

-- The rows of active companies.
abbrev pub is_active_company : Uuid → Uuid → Company → Bool
is_active_company tenant company c = is_company tenant company c && c.is_active

-- The request of a known company. `signed` says whether the document could be built and signed and
-- DGII gave a token; `later` makes the tables at the time of the answer out of those of the plan.
unfoldable pub annul_ranges :
    Uuid
    → Uuid
    → Bool
    → AnecfAnswer
    → (Store → Store)
    → Store
    → List EncfRange
    → Result Error (List SimState) × Store
annul_ranges tenant company signed answer later st [] = (err no_ranges, st)
annul_ranges tenant company signed answer later st (r ∷ ranges) =
    elim (plan tenant company st (r ∷ ranges) []) [
      | err e ↦ (err e, st)
      | ok sims ↦
          if signed
          then submit_annulment tenant company (r ∷ ranges) sims answer (later st)
          else (err service_failed, st)
    ]

-- `annulSequences`
unfoldable pub annul_sequences :
    Uuid
    → Uuid
    → List EncfRange
    → Bool
    → AnecfAnswer
    → (Store → Store)
    → Store
    → Result Error (List SimState) × Store
annul_sequences tenant company ranges signed answer later st =
    elim (find_first (is_active_company tenant company) st.companies) [
      | none ↦ (err company_not_found, st)
      | some _ ↦ annul_ranges tenant company signed answer later st ranges
    ]
