-- ===== src/Tests/Annul.antt =====
-- `annulSequences` of src/sequences/sequences.service.ts at work.
use ecf_api.Prelude.{◌≡◌, refl, ◌≢◌, ◌↔◌, inl, inr, true, [], ◌∷◌, none, arith}
use ecf_api.Prelude.Text.{codes, to_string, parse_int}
use ecf_api.Prelude.Results.{ok, err}
use ecf_api.Prelude.Rows.{Has}
use ecf_api.Types.{e31, type_eq}
use ecf_api.Encf.{is_valid_encf}
use ecf_api.Sequences.{Sequence, Store, middle_segment, ecf_type_prefix, encf_of, update_sequence}
use ecf_api.Sequences.Invariant.{IsValid}
use ecf_api.Sequences.Assign.{Assigned, get_next_encf, assign_next_encf, assign_from, assign_next}
use ecf_api.Sequences.Annul.{
  EncfRange, SimState, accepted, annul_sequences, annul_ranges, submit_annulment, plan, plan_range,
  plan_found, unless_blocked, plan_numbers, plan_past, plan_future, find_sim, read_range, adjust,
  adjust_row, encf_text,
}
use ecf_api.Sequences.Annul.Rounds.{IsClosed}
use ecf_api.Sequences.Annul.Closed.{annul_sequences-IsClosed, get_next_encf-closed}
use ecf_api.Sequences.Annul.Candidates.{gaps_of, IsGap, gaps_of-exact}
use ecf_api.Tests.Sequences.{database}

abbrev pub row : Sequence
row = record {
  id = 10;
  tenant_id = 7;
  company_id = 1;
  ecf_type = e31;
  prefix = codes "E31";
  current_number = 2;
  start_number = 1;
  end_number = 9;
  expires_at = none;
  is_active = true;
}

abbrev store : Store
store = record {
  companies = record { id = 1; tenant_id = 7; is_active = true } ∷ [];
  sequences = row ∷ [];
  invoices = [];
  annulments = [];
}

store-IsValid : IsValid store.sequences
unfolding ecf_type_prefix
store-IsValid = (ground arith, tt, tt)

-- The numbers 2 (a gap) to 4.
abbrev range : EncfRange
range = record { encf_from = codes "E310000000002"; encf_to = codes "E310000000004" }

abbrev planned : SimState
planned = record {
  id = 10;
  prefix = codes "E31";
  start_number = 1;
  end_number = 9;
  current_number = 4;
  active = true;
  touched = true;
}

abbrev after : Store
after = (annul_sequences 7 1 (range ∷ []) true accepted (λ s. s) store).1

annuls : annul_sequences 7 1 (range ∷ []) true accepted (λ s. s) store ≡ (ok (planned ∷ []), after)
unfolding annul_sequences annul_ranges submit_annulment plan plan_range plan_found plan_numbers
    plan_past unless_blocked plan_future find_sim read_range adjust adjust_row is_valid_encf
    parse_int ecf_type_prefix to_string
annuls = refl

refuses_middle :
    (annul_sequences 7 1
      (record { encf_from = codes "E310000000004"; encf_to = codes "E310000000005" } ∷ [])
      true
      accepted
      (λ s. s)
      store).0
    ≡ err middle_segment
unfolding annul_sequences annul_ranges plan plan_range plan_found plan_numbers plan_past
    unless_blocked plan_future find_sim read_range is_valid_encf parse_int ecf_type_prefix to_string
refuses_middle = refl

range_read : read_range 7 1 store range ≡ ok (codes "E31", 2, 4)
unfolding read_range is_valid_encf parse_int
range_read = refl

annul_sequences-IsClosed_example : IsClosed 1 after.sequences (codes "E31") 3
annul_sequences-IsClosed_example =
    annul_sequences-IsClosed 7 1 store (range ∷ []) true (λ s. s) (planned ∷ []) after range
      (codes "E31", 2, 4) 3 store-IsValid (λ r h. (r, h, refl, (refl, refl, λ a. a))) annuls
      (inl refl) range_read (omega arith) (omega arith)

abbrev advanced_row : Sequence
advanced_row = record row { current_number = 4 }

abbrev advanced_store : Store
advanced_store = record store { sequences = advanced_row ∷ [] }

advanced-IsValid : IsValid advanced_store.sequences
unfolding ecf_type_prefix
advanced-IsValid = (ground arith, tt, tt)

closed : IsClosed 1 advanced_store.sequences (ecf_type_prefix e31) 3
closed r (inl e) of_company of_prefix = inr (inl (ground arith))
closed r (inr h) of_company of_prefix = elim h [ ]

abbrev fifth : Assigned
fifth = record { encf = codes "E310000000005"; expires_at = none }

get_fifth :
    get_next_encf database 5 7 1 e31 none advanced_store
    ≡ (ok fifth, record store { sequences = record row { current_number = 5 } ∷ [] })
unfolding get_next_encf assign_next_encf assign_from assign_next encf_of update_sequence to_string
    type_eq
get_fifth = refl

get_next_encf-closed_example : fifth.encf ≢ encf_text (ecf_type_prefix e31) 3
get_next_encf-closed_example =
    get_next_encf-closed database 5 7 1 e31 advanced_store 3 advanced-IsValid (omega arith) closed
      get_fifth

gaps_of-exact_example :
    Has (codes "E310000000002") (gaps_of row []) ↔ IsGap row [] 1 3 (codes "E310000000002")
gaps_of-exact_example = gaps_of-exact row [] (codes "E310000000002") (omega arith) (omega arith)
