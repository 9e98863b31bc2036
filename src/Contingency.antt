-- ===== src/Contingency.antt =====
-- The documents that could not be sent: src/contingency/contingency.service.ts, on the tables of the
-- invoices.
pub mod Updates
pub mod Accounts
pub mod Sent
pub mod Marked
use ecf_api.Prelude.{
  ℕ, ◌+◌, ◌-◌, ◌*◌, ◌/◌, Bool, true, false, ◌&&◌, not, List, [], ◌∷◌, ◌++◌, Option, none, some, ltb,
  ◌==◌, length, map, take, max, if◌then◌else◌,
}
use ecf_api.Prelude.Text.{Text, codes}
use ecf_api.Prelude.Results.{Result, ok, err, and_run}
use ecf_api.Prelude.Rows.{find_first, find_many}
use ecf_api.Types.{
  Uuid, Time, EcfType, e32, InvoiceStatus, accepted, rejected, conditional, processing, contingency,
  error, type_eq,
}
use ecf_api.Billing.Usage.{revert_usage}
use ecf_api.Invoices.{Emitted, Office, with_books, given}
use ecf_api.Invoices.Status.{StatusResult, status_eq, update_invoice, set_status}

-- `where: { status, tenantId }`; no tenant stands for all.
abbrev pub is_in : {D : Type 0} → InvoiceStatus → Option Uuid → Emitted D → Bool
is_in status none i = status_eq i.status status
is_in status (some tenant) i = status_eq i.status status && i.tenant_id == tenant

abbrev pub count : {A : Type 0} → (A → Bool) → List A → ℕ
count p rows = length (find_many p rows)

abbrev pub hour : ℕ
hour = 1000 * 60 * 60

-- What `getPendingInvoices` computes of a row.
pub record Waiting : Type 0 where
  pub id : Uuid
  pub hours_in_contingency : ℕ
  pub hours_remaining : ℕ
  pub urgent : Bool
  pub expired : Bool

unfoldable pub waiting_of : {D : Type 0} → Time → Emitted D → Waiting
waiting_of now i =
    let hours = (now - i.created_at) / hour in
    let remaining = 72 - hours in
    record {
      id = i.id;
      hours_in_contingency = hours;
      hours_remaining = remaining;
      urgent = ltb remaining 12;
      expired = remaining == 0;
    }

-- `getPendingInvoices`, the oldest row first.
unfoldable pub get_pending_invoices : {D : Type 0} → Time → Option Uuid → Office D → List Waiting
get_pending_invoices now tenant o =
    map (waiting_of now) (find_many (is_in contingency tenant) o.invoices)

pub record QueueStats : Type 0 where
  pub contingency_count : ℕ
  pub error_count : ℕ
  pub total_today : ℕ
  pub oldest_hours : ℕ
  pub urgent_action : Bool

-- `getStats`; `midnight` is the start of the day.
unfoldable pub get_stats : {D : Type 0} → Time → Time → Uuid → Office D → QueueStats
get_stats now midnight tenant o =
    let oldest : ℕ = elim (find_first (is_in contingency (some tenant)) o.invoices) [
      | none ↦ 0
      | some i ↦ (now - i.created_at) / hour
    ] in
    record {
      contingency_count = count (is_in contingency (some tenant)) o.invoices;
      error_count = count (is_in error (some tenant)) o.invoices;
      total_today =
          count (λ i. i.tenant_id == tenant && not (ltb i.created_at midnight)) o.invoices;
      oldest_hours = oldest;
      urgent_action = ltb 60 oldest;
    }

abbrev pub to_contingency : {D : Type 0} → Emitted D → Emitted D
to_contingency i = record i { status = contingency }

-- `markForRetry`: whether there was such an invoice.
unfoldable pub mark_for_retry : {D : Type 0} → Uuid → Uuid → Office D → Bool × Office D
mark_for_retry tenant invoice o =
    elim (find_first (λ i. i.id == invoice && is_in error (some tenant) i) o.invoices) [
      | none ↦ (false, o)
      | some _ ↦ (true, record o { invoices = update_invoice invoice to_contingency o.invoices })
    ]

-- `markAllForRetry`
unfoldable pub mark_all_for_retry : {D : Type 0} → Uuid → Office D → ℕ × Office D
mark_all_for_retry tenant o = (
  count (is_in error (some tenant)) o.invoices,
  record o {
    invoices = map (λ i. if is_in error (some tenant) i then to_contingency i else i) o.invoices;
  },
)

-- The answer of DGII to a document.
pub record SubmitResult : Type 0 where
  pub status : ℕ
  pub track_id : Option Text
  pub message : Option Text

-- What the other services answer for an invoice: the certificate with its token, the state of a track id,
-- the signature, the two submissions, the queue of polls; `err` is an exception with its message.
-- `refunds` says that a refund does not fail, since a failure is only logged.
pub record RetryServices (D : Type 0) : Type 0 where
  pub first_token : Emitted D → Result Text (Unit {0})
  pub token : Emitted D → Result Text (Unit {0})
  pub query_status : Emitted D → Result Text StatusResult
  pub sign_xml : Emitted D → Result Text Text
  pub submit_ecf : Text → Emitted D → Result Text SubmitResult
  pub submit_rfce : Text → Emitted D → Result Text SubmitResult
  pub enqueue_poll : Emitted D → Result Text (Unit {0})
  pub refunds : Bool
  -- `Number(totalAmount) < FC_FULL_SUBMISSION_THRESHOLD`
  pub is_below_threshold : D → Bool

-- The tables, the invoices that were sent to DGII, and those with a new poll.
pub record Desk (D : Type 0) : Type 0 where
  pub office : Office D
  pub sent : List Uuid
  pub polls : List Uuid

-- `reconciledStatus` and `newStatus`
unfoldable pub retry_status : ℕ → InvoiceStatus
retry_status n =
    if n == 1
    then accepted
    else if n == 2
    then rejected
    else if n == 4
    then conditional
    else processing

abbrev pub update_desk : {D : Type 0} → Uuid → (Emitted D → Emitted D) → Desk D → Desk D
update_desk id f d = record d {
  office = record d.office { invoices = update_invoice id f d.office.invoices };
}

abbrev pub refund_desk : {D : Type 0} → Bool → Emitted D → Desk D → Desk D
refund_desk refunds i d =
    if refunds
    then record d { office = with_books (revert_usage i.id i.company_id d.office.books) d.office }
    else d

-- What follows a state: the refund of a rejected document, the poll of one in process.
unfoldable pub follow_up :
    {D : Type 0}
    → RetryServices D
    → InvoiceStatus
    → Emitted D
    → Desk D
    → Result Text (Unit {0}) × Desk D
follow_up s rejected i d = (ok tt, refund_desk s.refunds i d)
follow_up s processing i d = elim (s.enqueue_poll i) [
  | err m ↦ (err m, d)
  | ok _ ↦ (ok tt, record d { polls = d.polls ++ i.id ∷ [] })
]
follow_up s _ i d = (ok tt, d)

-- An invoice with a track id: its state is asked for.
unfoldable pub reconcile :
    {D : Type 0} → RetryServices D → Emitted D → Desk D → Result Text (Unit {0}) × Desk D
reconcile s i d = elim (s.query_status i) [
  | err m ↦ (err m, d)
  | ok r ↦
      follow_up s (retry_status r.status) i
        (update_desk i.id (set_status (retry_status r.status) r.message) d)
]

-- The columns of a submission.
abbrev pub set_submitted : {D : Type 0} → Text → SubmitResult → Emitted D → Emitted D
set_submitted signed r i = record i {
  status = retry_status r.status;
  xml_signed = some signed;
  track_id = r.track_id;
  dgii_message = r.message;
}

abbrev pub is_rfce_document : {D : Type 0} → RetryServices D → Emitted D → Bool
is_rfce_document s i = type_eq i.ecf_type e32 && s.is_below_threshold i.total_amount

-- The submission of the summary of a small invoice, if it has one, or else of the document.
unfoldable pub submit : {D : Type 0} → RetryServices D → Text → Emitted D → Result Text SubmitResult
submit s signed i = elim (given i.xml_rfce) [
  | none ↦ s.submit_ecf signed i
  | some rfce ↦ if is_rfce_document s i then s.submit_rfce rfce i else s.submit_ecf signed i
]

abbrev pub note_sent : {D : Type 0} → Uuid → Desk D → Desk D
note_sent id d = record d { sent = d.sent ++ id ∷ [] }

unfoldable pub send_signed :
    {D : Type 0} → RetryServices D → Text → Emitted D → Desk D → Result Text (Unit {0}) × Desk D
send_signed s signed i d = elim (submit s signed i) [
  | err m ↦ (err m, note_sent i.id d)
  | ok r ↦
      follow_up s (retry_status r.status) i
        (update_desk i.id (set_submitted signed r) (note_sent i.id d))
]

unfoldable pub resubmit :
    {D : Type 0} → RetryServices D → Emitted D → Desk D → Result Text (Unit {0}) × Desk D
resubmit s i d = elim i.xml_unsigned [
  | [] ↦ (err (codes "No unsigned XML stored for invoice"), d)
  | _ ∷ _ ↦ elim (s.sign_xml i) [ err m ↦ (err m, d) | ok signed ↦ send_signed s signed i d ]
]

-- The body of the `try` for one invoice.
unfoldable pub attempt :
    {D : Type 0} → RetryServices D → Emitted D → Desk D → Result Text (Unit {0}) × Desk D
attempt s i d = elim (s.token i) [
  | err m ↦ (err m, d)
  | ok _ ↦ elim (given i.track_id) [ some _ ↦ reconcile s i d | none ↦ resubmit s i d ]
]

-- The `catch`; the result says whether the invoice was processed.
unfoldable pub settle_attempt :
    {D : Type 0} → Emitted D → Result Text (Unit {0}) × Desk D → Bool × Desk D
settle_attempt i (ok _, d) = (true, d)
settle_attempt i (err m, d) =
    (false, update_desk i.id (set_status error (some (codes "Contingency retry failed: " ++ m))) d)

-- `CONTINGENCY_LIMIT_MS`
abbrev pub contingency_limit : ℕ
contingency_limit = 72 * 60 * 60 * 1000

abbrev pub is_over_limit : {D : Type 0} → Time → Emitted D → Bool
is_over_limit now i = ltb contingency_limit (now - i.created_at)

abbrev pub limit_message : Text
limit_message =
    codes "Ventana de contingencia de 72 horas excedida. Requiere gestión manual ante DGII."

unfoldable pub process_invoice :
    {D : Type 0} → RetryServices D → Time → Emitted D → Desk D → Bool × Desk D
process_invoice s now i d =
    if is_over_limit now i
    then (false, update_desk i.id (set_status error (some limit_message)) d)
    else settle_attempt i (attempt s i d)

pub record Processed : Type 0 where
  pub processed : ℕ
  pub failed : ℕ
  pub remaining : ℕ

-- The loop over the batch: how many were processed and how many failed.
unfoldable pub process_batch :
    {D : Type 0} → RetryServices D → Time → List (Emitted D) → Desk D → (ℕ × ℕ) × Desk D
process_batch s now [] d = ((0, 0), d)
process_batch s now (i ∷ batch) d =
    let (done, d1) = process_invoice s now i d in
    let ((processed, failed), d2) = process_batch s now batch d1 in
    (if done then (processed + 1, failed) else (processed, failed + 1), d2)

-- The rows of a run, the oldest first.
unfoldable pub pending : {D : Type 0} → Option Uuid → Office D → List (Emitted D)
pending tenant o = take 10 (find_many (is_in contingency tenant) o.invoices)

unfoldable pub process_pending :
    {D : Type 0}
    → RetryServices D
    → Time
    → Option Uuid
    → List (Emitted D)
    → Desk D
    → Processed × Desk D
process_pending s now tenant [] d = (record { processed = 0; failed = 0; remaining = 0 }, d)
process_pending s now tenant (i ∷ batch) d = elim (s.first_token i) [
  | err _ ↦ (record { processed = 0; failed = 0; remaining = length (i ∷ batch) }, d)
  | ok _ ↦
      let ((processed, failed), d1) = process_batch s now (i ∷ batch) d in
      (
        record {
          processed = processed;
          failed = failed;
          remaining = count (is_in contingency tenant) d1.office.invoices;
        },
        d1,
      )
]

-- `processQueue`
unfoldable pub process_queue :
    {D : Type 0} → RetryServices D → Time → Option Uuid → Desk D → Processed × Desk D
process_queue s now tenant d = process_pending s now tenant (pending tenant d.office) d
