-- ===== src/Invoices/Create.antt =====
-- `create` of src/invoices/invoices.service.ts.
pub mod Written
pub mod Emission
pub mod Later
pub mod Steps
pub mod Repeat
use ecf_api.Prelude.{
  ℕ, suc, ◌+◌, Bool, true, false, ◌&&◌, ◌||◌, not, List, [], ◌∷◌, ◌++◌, Option, none, some, ◌==◌,
  if◌then◌else◌,
}
use ecf_api.Prelude.Text.{Text, text_eq}
use ecf_api.Prelude.Numbers.{Numbers}
use ecf_api.Prelude.Results.{Result, ok, err, and_then, and_run, lift_run, Transaction}
use ecf_api.Prelude.Rows.{find_first}
use ecf_api.Types.{Uuid, Time, EcfType, e31, e33, e34, e41, e45, InvoiceStatus, queued, type_eq}
use ecf_api.Encf.{type_code}
use ecf_api.Rnc.{validate_format, wrong_length}
use ecf_api.Sequences.{Error}
use ecf_api.Sequences.Assign.{Assigned, assign_next_encf}
use ecf_api.Billing.{Books, UsageError}
use ecf_api.Billing.Usage.{increment_usage}
use ecf_api.Billing.Tenants.{increment_invoice_count}
use ecf_api.Amounts.{
  ItemInput, or_else, or_default, resolve_indicador, effective_rate, line_itbis_amount,
  line_subtotal,
}
use ecf_api.Invoices.{
  Company, InvoiceLine, Emitted, Office, CreateInvoiceDto, store_of, with_sequences, with_books,
  is_emitting_company, given, has_text, find_by_key, is_invoice, is_prod,
}

-- The exceptions.
pub data InvoiceError : Type 0 where
  company_not_found rnc_required rnc_invalid reference_required : InvoiceError
  -- With the number of the item.
  discount_exceeds : ℕ → InvoiceError
  term_days_required override_forbidden emitter_forbidden : InvoiceError
  sequence_error : Error → InvoiceError
  xml_error : Text → InvoiceError
  duplicate_row : InvoiceError
  usage_error : UsageError → InvoiceError
  no_usage_service job_not_queued webhook_not_queued invoice_not_found : InvoiceError

-- What the transaction returns.
pub data TxResult (D : Type 0) : Type 0 where
  found : Emitted D → TxResult D
  created : Emitted D → TxResult D

-- What leaves the service: jobs and webhooks.
pub data Message : Type 0 where
  ecf_processing : Uuid → Bool → Message
  invoice_queued : Uuid → Message

-- `TYPES_REQUIRING_RNC`
abbrev pub requires_rnc : EcfType → Bool
requires_rnc t = type_eq t e31 || type_eq t e41 || type_eq t e45

-- Two values of nullable columns that a unique index takes for the same.
abbrev pub same_text : Option Text → Option Text → Bool
same_text (some a) (some b) = text_eq a b
same_text _ _ = false

-- The unique indexes of the table.
abbrev pub clash : {D : Type 0} → Emitted D → Emitted D → Bool
clash i j =
    (i.tenant_id == j.tenant_id && same_text i.idempotency_key j.idempotency_key)
    || (i.company_id == j.company_id && type_eq i.ecf_type j.ecf_type && same_text i.encf j.encf)

-- `tx.invoice.create`
unfoldable pub insert_invoice :
    {D : Type 0} → Emitted D → Office D → Result InvoiceError (Emitted D) × Office D
insert_invoice i o = elim (find_first (clash i) o.invoices) [
  | some _ ↦ (err duplicate_row, o)
  | none ↦ (ok i, record o { invoices = o.invoices ++ i ∷ [] })
]

-- `usageReverted` of a new invoice.
abbrev pub unreverted : Uuid → Books → Books
unreverted invoice b = record b {
  reverted = λ k. if k == invoice then some false else b.reverted k;
}

module _ (n : Numbers) where
  open n use {Double, of_nat, mul, lt, truthy}

  -- The services that the handler calls: the building of the document, the metering (which may be
  -- missing), the queue of jobs and the queue of webhooks.
  pub record InvoiceServices : Type 0 where
    pub build : CreateInvoiceDto Double → Text → Option Time → Result Text (Text × Double)
    pub has_usage_service : Bool
    pub enqueues : Bool
    pub emits : Bool

  -- The checks of one item and of all.
  abbrev pub exceeds : ItemInput Double → Bool
  exceeds item = elim item.discount [
    | none ↦ false
    | some d ↦ truthy d && lt (mul item.quantity item.unit_price) d
  ]

  unfoldable pub check_items : ℕ → List (ItemInput Double) → Result InvoiceError (Unit {0})
  check_items i [] = ok tt
  check_items i (item ∷ items) =
      let rest = check_items (i + 1) items in
      if exceeds item then err (discount_exceeds i) else rest

  abbrev pub require : Bool → InvoiceError → Result InvoiceError (Unit {0})
  require true e = ok tt
  require false e = err e

  unfoldable pub check_rnc : Option Text → Result InvoiceError (Unit {0})
  check_rnc none = ok tt
  check_rnc (some rnc) = elim (validate_format rnc) [
    | none ↦ err rnc_invalid
    | some wrong_length ↦ err rnc_invalid
    | some _ ↦ ok tt
  ]

  abbrev pub is_some : {A : Type 0} → Option A → Bool
  is_some none = false
  is_some (some _) = true

  -- `dto.payment.termDays`, which 0 does not give.
  abbrev pub has_term : Option ℕ → Bool
  has_term none = false
  has_term (some d) = not (d == 0)

  -- The checks of the request against a company, in the order of the code.
  unfoldable pub check_request : Company → CreateInvoiceDto Double → Result InvoiceError (Unit {0})
  check_request c dto =
      and_then
        (require (not (requires_rnc dto.ecf_type) || is_some (given dto.buyer_rnc)) rnc_required)
        (λ _. and_then (check_rnc (given dto.buyer_rnc)) (λ _.
          and_then
            (require
              (not (type_eq dto.ecf_type e33 || type_eq dto.ecf_type e34) || is_some dto.reference)
              reference_required)
            (λ _. and_then (check_items 1 dto.items) (λ _.
              and_then
                (require (not (dto.payment_type == 2) || has_term dto.term_days) term_days_required)
                (λ _.
                  and_then
                    (require (not (is_some dto.encf_override) || not (is_prod c.dgii_env))
                      override_forbidden)
                    (λ _.
                      require (not dto.emitter_override || not (is_prod c.dgii_env))
                        emitter_forbidden))))))

  -- `tx.invoiceLine.createMany`
  abbrev pub line_of : ℕ → ItemInput Double → InvoiceLine Double
  line_of index item =
      let rate = or_default n item.itbis_rate (of_nat 18) in
      let indicador = resolve_indicador n item.indicador_facturacion rate in
      record {
        line_number = index;
        discount = or_else n item.discount (of_nat 0);
        itbis_rate = effective_rate n indicador rate;
        itbis_amount = line_itbis_amount n (line_subtotal n item) indicador rate;
        subtotal = line_subtotal n item;
      }

  unfoldable pub lines_of : ℕ → List (ItemInput Double) → List (InvoiceLine Double)
  lines_of index [] = []
  lines_of index (item ∷ items) = line_of index item ∷ lines_of (index + 1) items

  -- The row of a new invoice.
  unfoldable pub new_invoice :
      Time → Uuid → Uuid → CreateInvoiceDto Double → Text → Text → Double → Emitted Double
  new_invoice now id tenant dto encf xml total = record {
    id = id;
    tenant_id = tenant;
    company_id = dto.company_id;
    ecf_type = dto.ecf_type;
    encf = some encf;
    status = queued;
    idempotency_key = dto.idempotency_key;
    reference_encf = dto.reference;
    track_id = none;
    is_rfce = type_code dto.ecf_type == 32 && lt total (of_nat 250000);
    total_amount = total;
    xml_unsigned = xml;
    xml_signed = none;
    xml_rfce = none;
    created_at = now;
    dgii_message = none;
    lines = lines_of 1 dto.items;
  }

  -- The one meter that counts the invoice.
  unfoldable pub charge :
      InvoiceServices
      → Time
      → Uuid
      → Uuid
      → Office Double
      → Result InvoiceError (Unit {0}) × Office Double
  charge s now tenant company o = elim (o.books.plans company) [
    | none ↦ (ok tt, record o { tenant_plans = increment_invoice_count now tenant o.tenant_plans })
    | some _ ↦
        if s.has_usage_service
        then lift_run usage_error (λ b. with_books b o) (increment_usage now company o.books)
        else (err no_usage_service, o)
  ]

  -- The row, the column `usageReverted` and the meter.
  unfoldable pub store_invoice :
      InvoiceServices
      → Time
      → Emitted Double
      → Office Double
      → Result InvoiceError (TxResult Double) × Office Double
  store_invoice s now i o = and_run (insert_invoice i o) (λ _ o1.
      and_run (charge s now i.tenant_id i.company_id (with_books (unreverted i.id o1.books) o1))
        (λ _ o2. (ok (created i), o2)))

  -- The document of a number, and the row. `id` is the identifier that the database gives.
  unfoldable pub build_invoice :
      InvoiceServices
      → Time
      → Uuid
      → Uuid
      → CreateInvoiceDto Double
      → Assigned
      → Office Double
      → Result InvoiceError (TxResult Double) × Office Double
  build_invoice s now id tenant dto a o = elim (s.build dto a.encf a.expires_at) [
    | err e ↦ (err (xml_error e), o)
    | ok (xml, total) ↦ store_invoice s now (new_invoice now id tenant dto a.encf xml total) o
  ]

  unfoldable pub assign_and_build :
      InvoiceServices
      → Time
      → Uuid
      → Uuid
      → CreateInvoiceDto Double
      → Office Double
      → Result InvoiceError (TxResult Double) × Office Double
  assign_and_build s now id tenant dto o =
      and_run
        (lift_run sequence_error (λ st. with_sequences st o)
          (assign_next_encf now tenant dto.company_id dto.ecf_type dto.encf_override (store_of o)))
        (build_invoice s now id tenant dto)

  -- The body of the transaction.
  unfoldable pub emission :
      InvoiceServices
      → Time
      → Uuid
      → Uuid
      → CreateInvoiceDto Double
      → Office Double
      → Result InvoiceError (TxResult Double) × Office Double
  emission s now id tenant dto o =
      elim (find_by_key tenant (given dto.idempotency_key) o.invoices) [
        | some i ↦ (ok (found i), o)
        | none ↦ assign_and_build s now id tenant dto o
      ]

  -- `findOne`
  unfoldable pub find_one : Uuid → Uuid → Office Double → Result InvoiceError (Emitted Double)
  find_one tenant invoice o = elim (find_first (is_invoice tenant invoice) o.invoices) [
    | none ↦ err invoice_not_found
    | some i ↦ ok i
  ]

  pub record CreateOutcome : Type 0 where
    pub answer : Result InvoiceError (Emitted Double)
    pub office : Office Double
    pub messages : List Message

  -- After the commit: the job, the webhook, and the answer.
  unfoldable pub announce_created :
      InvoiceServices
      → Uuid
      → CreateInvoiceDto Double
      → Emitted Double
      → Office Double
      → CreateOutcome
  announce_created s tenant dto i o =
      let job = ecf_processing i.id (is_some (given dto.reference)) in
      if s.enqueues
      then (if s.emits
          then record {
            answer = find_one tenant i.id o;
            office = o;
            messages = job ∷ invoice_queued i.id ∷ [];
          }
          else record { answer = err webhook_not_queued; office = o; messages = job ∷ [] })
      else record { answer = err job_not_queued; office = o; messages = [] }

  unfoldable pub after_commit :
      InvoiceServices
      → Uuid
      → CreateInvoiceDto Double
      → Result InvoiceError (TxResult Double) × Office Double
      → CreateOutcome
  after_commit s tenant dto (err e, o) = record { answer = err e; office = o; messages = [] }
  after_commit s tenant dto (ok (found i), o) = record {
    answer = find_one tenant i.id o;
    office = o;
    messages = [];
  }
  after_commit s tenant dto (ok (created i), o) = announce_created s tenant dto i o

  -- A request that the first lookup does not answer.
  unfoldable pub emit :
      Transaction (Office Double) InvoiceError (TxResult Double)
      → InvoiceServices
      → Time
      → Uuid
      → Uuid
      → CreateInvoiceDto Double
      → Office Double
      → CreateOutcome
  emit transaction s now id tenant dto o =
      elim (find_first (is_emitting_company tenant dto.company_id) o.companies) [
        | none ↦ record { answer = err company_not_found; office = o; messages = [] }
        | some c ↦ elim (check_request c dto) [
          | err e ↦ record { answer = err e; office = o; messages = [] }
          | ok _ ↦ after_commit s tenant dto (transaction.run (emission s now id tenant dto) o)
        ]
      ]

  -- `create`
  unfoldable pub create_invoice :
      Transaction (Office Double) InvoiceError (TxResult Double)
      → InvoiceServices
      → Time
      → Uuid
      → Uuid
      → CreateInvoiceDto Double
      → Office Double
      → CreateOutcome
  create_invoice transaction s now id tenant dto o =
      elim (find_by_key tenant (given dto.idempotency_key) o.invoices) [
        | some i ↦ record { answer = ok i; office = o; messages = [] }
        | none ↦ emit transaction s now id tenant dto o
      ]
