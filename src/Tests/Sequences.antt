-- ===== src/Tests/Sequences.antt =====
-- A company with one range of three numbers.
use ecf_api.Prelude.{
  ℕ, suc, ◌+◌, ◌≤◌, ◌<◌, ◌≡◌, ◌≢◌, ◌↔◌, ◌-◌, refl, ap, true, false, List, [], ◌∷◌, none, some,
  arith,
}
use ecf_api.Prelude.Text.{codes, to_string}
use ecf_api.Prelude.Results.{Result, ok, err, is_ok, Transaction}
use ecf_api.Prelude.Rows.{All, find_first}
use ecf_api.Prelude.Rows.Laws.{All-map}
use ecf_api.Types.{Uuid, e31, e32, type_eq}
use ecf_api.Sequences.{
  Sequence, Store, sequence_exhausted, ecf_type_prefix, encf_of, update_sequence, is_company,
  is_active_for,
}
use ecf_api.Sequences.Create.{
  CreateSequenceDto, overlaps, overlapping, existing, new_sequence, insert_checked, create,
}
use ecf_api.Sequences.Create.Ranges.{Admits}
use ecf_api.Sequences.Create.Admission.{create_iff, create-IsValid}
use ecf_api.Sequences.Assign.{Assigned, assign_next, assign_from, assign_next_encf, get_next_encf}
use ecf_api.Sequences.Assign.Rollback.{Assigns, get_next_encf-Assigns, get_next_encf-IsValid}
use ecf_api.Sequences.Assign.Exhausted.{exhausted_blocks_create}
use ecf_api.Sequences.Assign.Used.Distinct.{
  Request, register, assign, serve, issues, AllDistinct, issues-AllDistinct,
}
use ecf_api.Sequences.Invariant.{IsValid}

-- A database that commits or rolls back.
abbrev finish : {S E A : Type 0} → S → Result E A × S → Result E A × S
finish s (ok a, s') = (ok a, s')
finish s (err e, s') = (err e, s)

abbrev pub database : {S E A : Type 0} → Transaction S E A
database = record {
  run = λ body s. finish s (body s);
  commits = λ body s a s' h. ap (finish s) h;
  rolls_back = λ body s e s' h. ap (finish s) h;
}

-- A key that no row has.
abbrev id_sum : List Sequence → ℕ
id_sum [] = 0
id_sum (s ∷ rows) = s.id + id_sum rows

abbrev fresh : Store → Uuid
fresh st = suc (id_sum st.sequences)

ids_below : (rows : List Sequence) (n : ℕ) → All (λ s. s.id ≢ suc (n + id_sum rows)) rows
ids_below [] n = tt
ids_below (s ∷ rows) n =
    (omega arith, All-map _ _ rows (λ r h. omega arith) (ids_below rows (n + s.id)))

fresh_new : (st : Store) → All (λ s. s.id ≢ fresh st) st.sequences
fresh_new st = All-map _ _ st.sequences (λ r h. omega arith) (ids_below st.sequences 0)

abbrev row : Sequence
row = record {
  id = 10;
  tenant_id = 7;
  company_id = 1;
  ecf_type = e31;
  prefix = codes "E31";
  current_number = 1;
  start_number = 1;
  end_number = 3;
  expires_at = some 1000;
  is_active = true;
}

abbrev store : Store
store = record {
  companies = record { id = 1; tenant_id = 7; is_active = true } ∷ [];
  sequences = row ∷ [];
  invoices = [];
  annulments = [];
}

store-IsValid : IsValid store.sequences
unfolding ecf_type_prefix
store-IsValid = (ground arith, tt, tt)

abbrev dto : CreateSequenceDto
dto = record { company_id = 1; ecf_type = e32; start_number = 4; end_number = 9; expires_at = none }

abbrev requests : List Request
requests =
    assign 5 7 1 e31 ∷ register 7 dto ∷ assign 5 7 1 e32 ∷ assign 5 7 1 e31 ∷ assign 5 7 1 e31 ∷ []

-- The last request finds the range used up.
issued :
    issues database fresh requests store
    ≡ (1, codes "E310000000002") ∷ (1, codes "E320000000004") ∷ (1, codes "E310000000003") ∷ []
unfolding issues serve get_next_encf assign_next_encf assign_from assign_next create insert_checked
    overlapping existing overlaps new_sequence ecf_type_prefix encf_of update_sequence to_string
    type_eq
issued = refl

issues-AllDistinct_example : AllDistinct (issues database fresh requests store)
issues-AllDistinct_example =
    issues-AllDistinct database fresh fresh_new requests store
      (tt, (omega arith, (tt, (tt, (tt, tt))))) store-IsValid

create_iff_example : (is_ok (create 11 7 dto store).0 ≡ true) ↔ (
    (find_first (is_company 7 1) store.companies ≢ none)
    × (0 < 4)
    × (4 < 9)
    × (9 - 4 ≤ 10000000)
    × All (Admits dto) store.sequences)
create_iff_example = create_iff 11 7 dto store store-IsValid

create-IsValid_example : IsValid (create 11 7 dto store).1.sequences
create-IsValid_example = create-IsValid 11 7 dto store store-IsValid (omega arith, tt) (omega arith)

abbrev assigned : Assigned
assigned = record { encf = codes "E310000000002"; expires_at = some 1000 }

abbrev after : Store
after = record store { sequences = record row { current_number = 2 } ∷ [] }

get_second : get_next_encf database 5 7 1 e31 none store ≡ (ok assigned, after)
unfolding get_next_encf assign_next_encf assign_from assign_next encf_of update_sequence to_string
    type_eq
get_second = refl

get_next_encf-Assigns_example : Assigns 5 7 1 e31 none store assigned after
get_next_encf-Assigns_example =
    get_next_encf-Assigns 5 7 1 e31 store database none store-IsValid get_second

get_next_encf-IsValid_example :
    IsValid (get_next_encf database 5 7 1 e31 (some 3) store).1.sequences
get_next_encf-IsValid_example =
    get_next_encf-IsValid 5 7 1 e31 store database (some 3) store-IsValid

abbrev last_row : Sequence
last_row = record row { current_number = 3 }

abbrev used_up : Store
used_up = record store { sequences = last_row ∷ [] }

used_up-IsValid : IsValid used_up.sequences
unfolding ecf_type_prefix
used_up-IsValid = (ground arith, tt, tt)

abbrev next_range : CreateSequenceDto
next_range = record dto { ecf_type = e31 }

last_row_found : find_first (is_active_for 7 1 e31) used_up.sequences ≡ some last_row
unfolding type_eq
last_row_found = refl

exhausted_blocks_create_example :
    let r = get_next_encf database 5 7 1 e31 none used_up in
    (r.0 ≡ err sequence_exhausted)
    × (find_first (is_active_for 7 1 e31) r.1.sequences ≡ some last_row)
    × (is_ok (create 11 7 next_range r.1).0 ≡ false)
exhausted_blocks_create_example =
    exhausted_blocks_create database 5 7 1 e31 used_up last_row used_up-IsValid last_row_found refl
      11 7 next_range refl refl refl
