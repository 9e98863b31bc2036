-- ===== src/Tests/Invoices.antt =====
-- `create`, `voidInvoice`, `pollStatus` and `findAll` of src/invoices/invoices.service.ts at work.
use ecf_api.Prelude.{
  ℕ, ◌≡◌, ◌≢◌, refl, sym, ◌∙◌, ap, true, false, [], ◌∷◌, none, some, arith, length,
}
use ecf_api.Prelude.Text.{codes, to_string, digits_from}
use ecf_api.Prelude.Results.{ok, err}
use ecf_api.Prelude.Rows.{find_first}
use ecf_api.Types.{e32, queued, contingency, accepted, prod, type_eq}
use ecf_api.Sequences.{encf_of, update_sequence}
use ecf_api.Sequences.Assign.{assign_next_encf, assign_from, assign_next}
use ecf_api.Billing.Usage.{
  charge_base, charge_oldest, charge_topup, consume, consume_topup, flip_exhausted, increment_usage,
  metered_by, refuse,
}
use ecf_api.Amounts.{
  ItemInput, effective_rate, line_itbis_amount, line_subtotal, resolve_indicador, round2,
}
use ecf_api.Invoices.{Emitted, Office, CreateInvoiceDto, store_of, find_by_key, is_invoice}
use ecf_api.Invoices.Create.{
  InvoiceServices, CreateOutcome, create_invoice, emit, check_request, check_rnc, check_items,
  emission, assign_and_build, build_invoice, store_invoice, insert_invoice, charge, after_commit,
  announce_created, find_one, new_invoice, lines_of, job_not_queued, ecf_processing, invoice_queued,
}
use ecf_api.Invoices.Create.Emission.{EmitsOrKeeps, create_invoice-EmitsOrKeeps}
use ecf_api.Invoices.Create.Later.{IsVersion}
use ecf_api.Invoices.Create.Steps.{none_yet, then_step, requested, poll_asked, void_asked}
use ecf_api.Invoices.Create.Repeat.{create_invoice_repeat, create_invoice_lost_job}
use ecf_api.Invoices.Status.{check_voidable, void_invoice, poll_invoice, already_voided, set_status}
use ecf_api.Invoices.Status.Voided.{IsSettled, void_invoice_once, poll_invoice-void_invoice}
use ecf_api.Tests.Annul.{row}
use ecf_api.Tests.Amounts.{whole}
use ecf_api.Tests.Sequences.{database}
use ecf_api.Tests.Billing.{books}

abbrev pub office : Office ℕ
office = record {
  companies = record { id = 7; tenant_id = 7; is_active = true; dgii_env = prod } ∷ [];
  sequences = record row { company_id = 7; ecf_type = e32; prefix = codes "E32" } ∷ [];
  annulments = [];
  invoices = [];
  books = books;
  tenant_plans = [];
}

abbrev pub item : ItemInput ℕ
item = record {
  quantity = 2;
  unit_price = 100;
  discount = some 50;
  surcharge = none;
  itbis_rate = none;
  indicador_facturacion = none;
}

abbrev dto : CreateInvoiceDto ℕ
dto = record {
  idempotency_key = some (codes "k");
  company_id = 7;
  ecf_type = e32;
  buyer_rnc = none;
  reference = none;
  items = item ∷ [];
  payment_type = 1;
  term_days = none;
  encf_override = none;
  emitter_override = false;
}

abbrev services : InvoiceServices whole
services = record {
  build = λ _ _ _. ok (codes "x", 177);
  has_usage_service = true;
  enqueues = true;
  emits = true;
}

abbrev request : InvoiceServices whole → CreateOutcome whole
request s = create_invoice whole database s 110 20 7 dto office

abbrev pub row_20 : Emitted ℕ
row_20 = new_invoice whole 110 20 7 dto (codes "E320000000003") (codes "x") 177

messages_of : (request services).messages ≡ ecf_processing 20 false ∷ invoice_queued 20 ∷ []
unfolding create_invoice emit find_by_key check_request type_eq check_rnc check_items after_commit
    emission assign_and_build assign_next_encf store_of assign_from assign_next build_invoice
    store_invoice insert_invoice charge new_invoice effective_rate line_itbis_amount line_subtotal
    resolve_indicador round2 charge_base charge_oldest charge_topup consume consume_topup
    flip_exhausted increment_usage metered_by refuse announce_created find_one lines_of digits_from
    to_string encf_of update_sequence
messages_of = refl

answer_of : (request services).answer ≡ ok row_20
unfolding create_invoice emit find_by_key check_request type_eq check_rnc check_items after_commit
    emission assign_and_build assign_next_encf store_of assign_from assign_next build_invoice
    store_invoice insert_invoice charge new_invoice effective_rate line_itbis_amount line_subtotal
    resolve_indicador round2 charge_base charge_oldest charge_topup consume consume_topup
    flip_exhausted increment_usage metered_by refuse announce_created find_one lines_of digits_from
    to_string encf_of update_sequence
answer_of = refl

create_invoice-EmitsOrKeeps_example :
    EmitsOrKeeps whole services 110 20 7 dto office (request services)
create_invoice-EmitsOrKeeps_example =
    create_invoice-EmitsOrKeeps whole services 110 20 7 dto office database

abbrev later_office : Office ℕ
later_office =
    (void_invoice database true true none 7 20
      (poll_invoice true (ok (record { status = 2; message = none })) 7 20
        (create_invoice whole database services 115 21 7 (record dto { idempotency_key = none })
          (request services).office).office).office).office

-- Between the two requests come another request, a poll and a void.
create_invoice_repeat_example :
    (j : Emitted ℕ) × (create_invoice whole database services 120 22 7 dto later_office
      ≡ record { answer = ok j; office = later_office; messages = [] })
    × IsVersion row_20 j
create_invoice_repeat_example =
    create_invoice_repeat whole services 110 20 7 dto office database (codes "k") row_20 services
      120 22 dto later_office refl refl tt answer_of
      (then_step _ _ _
        (then_step _ _ _
          (then_step _ _ _ (none_yet _)
            (requested database services 115 21 7 (record dto { idempotency_key = none }) _))
          (poll_asked true (ok (record { status = 2; message = none })) 7 20 _))
        (void_asked database true true none 7 20 _))

abbrev down : InvoiceServices whole
down = record services { enqueues = false }

one_row : length (request down).office.invoices ≡ 1
unfolding create_invoice emit find_by_key check_request type_eq check_rnc check_items after_commit
    emission assign_and_build assign_next_encf store_of assign_from assign_next build_invoice
    store_invoice insert_invoice charge new_invoice effective_rate line_itbis_amount line_subtotal
    resolve_indicador round2 charge_base charge_oldest charge_topup consume consume_topup
    flip_exhausted increment_usage metered_by refuse announce_created find_one lines_of digits_from
    to_string encf_of update_sequence
one_row = refl

one_not_zero : (n : ℕ) → 1 ≡ n → n ≢ 0
one_not_zero n h e = omega arith

changes : (request down).office ≢ office
changes same =
    one_not_zero (length office.invoices) (sym one_row ∙ ap (λ o. length o.invoices) same) refl

create_invoice_lost_job_example :
    ((request down).answer ≡ err job_not_queued)
    × ((request down).messages ≡ [])
    × (i : Emitted ℕ) × (i.status ≡ queued)
    × (create_invoice whole database services 120 21 7 dto (request down).office
        ≡ record { answer = ok i; office = (request down).office; messages = [] })
create_invoice_lost_job_example =
    create_invoice_lost_job whole down 110 20 7 dto office database (codes "k") services 120 21 dto
      refl refl refl changes

-- An invoice that DGII has, and whose answer was lost.
abbrev lost : Emitted ℕ
lost = record row_20 { status = contingency; track_id = some (codes "t") }

abbrev shelf : Office ℕ
shelf = record office { invoices = lost ∷ [] }

lost_found : find_first (is_invoice 7 20) shelf.invoices ≡ some lost
unfolding new_invoice
lost_found = refl

lost_voidable : check_voidable lost.status ≡ ok tt
unfolding check_voidable
lost_voidable = refl

abbrev without_row : Office ℕ
without_row = (void_invoice database true true none 7 20 shelf).office

void_invoice_once_example :
    IsSettled lost shelf.books without_row.books
    × (void_invoice database true true none 7 20 without_row
        ≡ record { answer = err already_voided; office = without_row; announced = false })
void_invoice_once_example =
    void_invoice_once database database true true none none 7 20 shelf lost lost_found lost_voidable

abbrev polled : Office ℕ
polled = (poll_invoice true (ok (record { status = 1; message = none })) 7 20 without_row).office

poll_invoice-void_invoice_example :
    (find_first (is_invoice 7 20) polled.invoices ≡ some (set_status accepted none lost))
    × (polled.books ≡ without_row.books)
    × IsSettled lost shelf.books polled.books
poll_invoice-void_invoice_example =
    poll_invoice-void_invoice database true true none none 7 20 shelf lost (codes "t") lost_found
      lost_voidable refl
