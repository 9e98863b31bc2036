-- ===== src/Invoices/Status.antt =====
-- `pollStatus` and `voidInvoice` of src/invoices/invoices.service.ts. Audit rows are left out.
pub mod Voided
use ecf_api.Prelude.{
  ℕ, Bool, true, false, ◌&&◌, not, List, [], ◌∷◌, Option, none, some, ◌==◌, if◌then◌else◌,
}
use ecf_api.Prelude.Text.{Text, codes}
use ecf_api.Prelude.Results.{Result, ok, err, Transaction}
use ecf_api.Prelude.Rows.{find_first}
use ecf_api.Types.{
  Uuid, InvoiceStatus, draft, queued, processing, sent, accepted, rejected, conditional, voided,
  contingency, error,
}
use ecf_api.Billing.{Books}
use ecf_api.Billing.Usage.{revert_usage}
use ecf_api.Queue.{map_dgii_status}
use ecf_api.Invoices.{Emitted, Office, with_books, given, is_invoice}

-- The exceptions.
pub data StatusError : Type 0 where
  invoice_not_found without_track_id already_voided accepted_by_dgii in_transit not_voidable :
      StatusError
  service_failed webhook_not_queued : StatusError

-- `===` and `!==` on states, by the place in the enumeration.
abbrev status_index : InvoiceStatus → ℕ
status_index draft = 0
status_index queued = 1
status_index processing = 2
status_index sent = 3
status_index accepted = 4
status_index rejected = 5
status_index conditional = 6
status_index voided = 7
status_index contingency = 8
status_index error = 9

unfoldable pub status_eq : InvoiceStatus → InvoiceStatus → Bool
status_eq s t = status_index s == status_index t

-- `update({ where: { id }, data })`
abbrev pub update_invoice :
    {D : Type 0} → Uuid → (Emitted D → Emitted D) → List (Emitted D) → List (Emitted D)
update_invoice id f [] = []
update_invoice id f (i ∷ rows) = (if i.id == id then f i else i) ∷ update_invoice id f rows

abbrev pub set_status : {D : Type 0} → InvoiceStatus → Option Text → Emitted D → Emitted D
set_status status message i = record i { status = status; dgii_message = message }

pub record Answered (D A : Type 0) : Type 0 where
  pub answer : Result StatusError A
  pub office : Office D
  -- Whether the webhook of the void was queued.
  pub announced : Bool

-- The answer of DGII to `queryStatus`.
pub record StatusResult : Type 0 where
  pub status : ℕ
  pub message : Option Text

-- What `pollStatus` returns, as far as it is decided there.
pub record Polled : Type 0 where
  pub previous_status : InvoiceStatus
  pub current_status : InvoiceStatus

-- The refund of a document that the poll finds rejected. `refunds` says that there is a metering service
-- and that it does not fail, since a failure is only logged.
unfoldable pub refund : {D : Type 0} → Bool → InvoiceStatus → Emitted D → Office D → Office D
refund refunds rejected i o =
    if refunds then with_books (revert_usage i.id i.company_id o.books) o else o
refund refunds _ i o = o

-- The new state of an invoice.
unfoldable pub record_poll : {D : Type 0} → Bool → StatusResult → Emitted D → Office D → Office D
record_poll refunds r i o =
    let new_status = map_dgii_status r.status in
    if status_eq new_status i.status
    then o
    else refund refunds new_status i
        (record o { invoices = update_invoice i.id (set_status new_status r.message) o.invoices })

unfoldable pub poll_found :
    {D : Type 0} → Bool → Result Text StatusResult → Emitted D → Office D → Answered D Polled
poll_found refunds dgii i o = elim (given i.track_id) [
  | none ↦ record { answer = err without_track_id; office = o; announced = false }
  | some _ ↦ elim dgii [
    | err _ ↦ record { answer = err service_failed; office = o; announced = false }
    | ok r ↦ record {
      answer =
          ok (record { previous_status = i.status; current_status = map_dgii_status r.status });
      office = record_poll refunds r i o;
      announced = false;
    }
  ]
]

-- `pollStatus`. `dgii` is what the certificate, the token and the query give.
unfoldable pub poll_invoice :
    {D : Type 0} → Bool → Result Text StatusResult → Uuid → Uuid → Office D → Answered D Polled
poll_invoice refunds dgii tenant invoice o =
    elim (find_first (is_invoice tenant invoice) o.invoices) [
      | none ↦ record { answer = err invoice_not_found; office = o; announced = false }
      | some i ↦ poll_found refunds dgii i o
    ]

-- The states that can be voided.
unfoldable pub check_voidable : InvoiceStatus → Result StatusError (Unit {0})
check_voidable voided = err already_voided
check_voidable accepted = err accepted_by_dgii
check_voidable conditional = err accepted_by_dgii
check_voidable processing = err in_transit
check_voidable sent = err in_transit
check_voidable queued = err not_voidable
check_voidable _ = ok tt

-- `reason || 'Anulada por el usuario'`
abbrev pub reason_or_default : Option Text → Text
reason_or_default (some (c ∷ s)) = c ∷ s
reason_or_default _ = codes "Anulada por el usuario"

-- The body of the transaction: the row, and the refund of an invoice that was counted. `has_usage_service`
-- says that there is a metering service.
unfoldable pub void_row : {D : Type 0} → Bool → Option Text → Emitted D → Office D → Office D
void_row has_usage_service reason i o =
    let o1 = record o {
      invoices =
          update_invoice i.id (set_status voided (some (reason_or_default reason))) o.invoices;
    } in
    if not (status_eq i.status draft) && has_usage_service
    then with_books (revert_usage i.id i.company_id o1.books) o1
    else o1

-- After the commit: the webhook, and the row as it was updated.
unfoldable pub after_void :
    {D : Type 0} → Bool → Result StatusError (Emitted D) × Office D → Answered D (Emitted D)
after_void emits (err e, o) = record { answer = err e; office = o; announced = false }
after_void true (ok i, o) = record { answer = ok i; office = o; announced = true }
after_void false (ok i, o) = record {
  answer = err webhook_not_queued;
  office = o;
  announced = false;
}

unfoldable pub void_found :
    {D : Type 0}
    → Transaction (Office D) StatusError (Emitted D)
    → Bool
    → Bool
    → Option Text
    → Emitted D
    → Office D
    → Answered D (Emitted D)
void_found transaction has_usage_service emits reason i o = elim (check_voidable i.status) [
  | err e ↦ record { answer = err e; office = o; announced = false }
  | ok _ ↦ after_void emits (
      transaction.run
        (λ t. (
          ok (set_status voided (some (reason_or_default reason)) i),
          void_row has_usage_service reason i t,
        ))
        o)
]

-- `voidInvoice`
unfoldable pub void_invoice :
    {D : Type 0}
    → Transaction (Office D) StatusError (Emitted D)
    → Bool
    → Bool
    → Option Text
    → Uuid
    → Uuid
    → Office D
    → Answered D (Emitted D)
void_invoice transaction has_usage_service emits reason tenant invoice o =
    elim (find_first (is_invoice tenant invoice) o.invoices) [
      | none ↦ record { answer = err invoice_not_found; office = o; announced = false }
      | some i ↦ void_found transaction has_usage_service emits reason i o
    ]
