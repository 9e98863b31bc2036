-- ===== src/Invoices/Status/Voided.antt =====
-- Invoices that are voided: what is refunded, and what a later poll does.
use ecf_api.Prelude.{
  ◌≡◌, refl, sym, ap, ◌∙◌, ◌⊎◌, inl, inr, Bool, true, false, ◌&&◌, List, [], ◌∷◌, Option, some,
  arith, ◌==◌, not, Bool-cases,
}
use mathlib.Core.Path.{subst}
use ecf_api.Prelude.Text.{Text}
use ecf_api.Prelude.Results.{ok, err, Transaction}
use ecf_api.Prelude.Rows.{find_first}
use ecf_api.Prelude.Rows.Laws.{find_first-some}
use ecf_api.Types.{Uuid, InvoiceStatus, draft, accepted, voided}
use ecf_api.Billing.{Books}
use ecf_api.Billing.Usage.{revert_usage}
use ecf_api.Billing.Usage.Refund.{revert_usage_once}
use ecf_api.Queue.{map_dgii_status}
use ecf_api.Invoices.{Emitted, Office, given, is_invoice}
use ecf_api.Invoices.Status.{
  StatusError, already_voided, status_eq, update_invoice, set_status, record_poll, refund,
  poll_found, poll_invoice, check_voidable, reason_or_default, void_row, after_void, void_found,
  void_invoice,
}

module _ {D : Type 0} (tenant invoice : Uuid) (status : InvoiceStatus) (message : Option Text) where
  -- The row that the query finds is the updated one.
  find_first-set_status :
      (rows : List (Emitted D)) (i : Emitted D)
      → find_first (is_invoice tenant invoice) rows ≡ some i
      → find_first
          (is_invoice tenant invoice)
          (update_invoice invoice (set_status status message) rows)
        ≡ some (set_status status message i)
  find_first-set_status [] i found = cc
  find_first-set_status (r ∷ rows) i found = elim (Bool-cases (r.id == invoice)) [
    | inl this ↦ elim (Bool-cases (r.tenant_id == tenant)) [
      | inl own ↦
          let same : r ≡ i = ground arith in
          rw (this, this, own) (ap (λ x. some (set_status status message x)) same)
      | inr foreign ↦ rw (this, this, foreign) (find_first-set_status rows i (ground arith))
    ]
    | inr other ↦ rw (other, other) (find_first-set_status rows i (ground arith))
  ]

  id_of_found :
      (rows : List (Emitted D)) (i : Emitted D)
      → find_first (is_invoice tenant invoice) rows ≡ some i
      → i.id ≡ invoice
  id_of_found rows i found =
      ground (arith, (find_first-some (is_invoice tenant invoice) rows found).0)

  find_first-update :
      (rows : List (Emitted D)) (i : Emitted D)
      → find_first (is_invoice tenant invoice) rows ≡ some i
      → find_first
          (is_invoice tenant invoice)
          (update_invoice i.id (set_status status message) rows)
        ≡ some (set_status status message i)
  find_first-update rows i found =
      ap
        (λ k.
          find_first (is_invoice tenant invoice)
            (update_invoice k (set_status status message) rows))
        (id_of_found rows i found)
      ∙ find_first-set_status rows i found

after_void_office :
    {D : Type 0} (emits : Bool) (i : Emitted D) (o : Office D)
    → (after_void emits (ok i, o)).office ≡ o
unfolding after_void
after_void_office true i o = refl
after_void_office false i o = refl

-- A void that is refused for the row that is there.
voided_twice :
    {D : Type 0} (transaction : Transaction (Office D) StatusError (Emitted D))
    (has_usage_service emits : Bool) (reason : Option Text) (tenant invoice : Uuid) (o : Office D)
    (i : Emitted D)
    → find_first (is_invoice tenant invoice) o.invoices ≡ some i
    → i.status ≡ voided
    → void_invoice transaction has_usage_service emits reason tenant invoice o
      ≡ record { answer = err already_voided; office = o; announced = false }
unfolding void_invoice void_found check_voidable
voided_twice transaction has_usage_service emits reason tenant invoice o i found is_voided =
    rw (found, is_voided, void_invoice, void_found, check_voidable)

-- A draft was never counted and is not refunded; what was counted is refunded, and no later refund of the
-- invoice does anything.
abbrev pub IsSettled : {D : Type 0} → Emitted D → Books → Books → Type 0
IsSettled i b b' =
    ((status_eq i.status draft ≡ true) × (b' ≡ b))
    ⊎ ((status_eq i.status draft ≡ false)
        × (b' ≡ revert_usage i.id i.company_id b)
        × ((company : Uuid) → revert_usage i.id company b' ≡ b'))

void_row-IsSettled :
    {D : Type 0} (reason : Option Text) (i : Emitted D) (o : Office D)
    → IsSettled i o.books (void_row true reason i o).books
unfolding void_row
void_row-IsSettled reason i o = elim (Bool-cases (status_eq i.status draft)) [
  | inl never ↦ inl (never, rw (never, void_row))
  | inr counted ↦
      let books : (void_row true reason i o).books ≡ revert_usage i.id i.company_id o.books =
        rw (counted, void_row) in
      inr (
        counted,
        books,
        λ company.
            ap (revert_usage i.id company) books
            ∙ revert_usage_once i.id i.company_id company o.books
            ∙ sym books,
      )
]

module _ {D : Type 0} (transaction : Transaction (Office D) StatusError (Emitted D))
    (has_usage_service emits : Bool) (reason : Option Text) (tenant invoice : Uuid) (o : Office D)
    (i : Emitted D) (found : find_first (is_invoice tenant invoice) o.invoices ≡ some i) where
  void_found_office :
      check_voidable i.status ≡ ok tt
      → (void_found transaction has_usage_service emits reason i o).office
        ≡ void_row has_usage_service reason i o
  unfolding void_found
  void_found_office may =
      rw (may, void_found)
        (ap (λ r. (after_void emits r).office)
            (transaction.commits
              (λ t. (
                ok (set_status voided (some (reason_or_default reason)) i),
                void_row has_usage_service reason i t,
              ))
              o (set_status voided (some (reason_or_default reason)) i)
              (void_row has_usage_service reason i o) refl)
          ∙ after_void_office emits (set_status voided (some (reason_or_default reason)) i)
              (void_row has_usage_service reason i o))

  -- A void that is allowed writes its row and its refund.
  pub void_office :
      check_voidable i.status ≡ ok tt
      → (void_invoice transaction has_usage_service emits reason tenant invoice o).office
        ≡ void_row has_usage_service reason i o
  unfolding void_invoice
  void_office may = rw (found, void_invoice) (void_found_office may)

  -- The row of the invoice afterwards.
  void_row-found :
      find_first (is_invoice tenant invoice) (void_row has_usage_service reason i o).invoices
      ≡ some (set_status voided (some (reason_or_default reason)) i)
  unfolding void_row
  void_row-found = elim (Bool-cases (not (status_eq i.status draft) && has_usage_service)) [
    | inl counted ↦ rw counted (
        find_first-update tenant invoice voided (some (reason_or_default reason)) o.invoices i
          found)
    | inr free ↦ rw free (
        find_first-update tenant invoice voided (some (reason_or_default reason)) o.invoices i
          found)
  ]

-- A void of an invoice that may be voided settles its quota once: a draft costs nothing, any other state is
-- refunded, after which neither a second refund nor a second void changes anything.
pub void_invoice_once :
    {D : Type 0} (transaction again : Transaction (Office D) StatusError (Emitted D))
    (emits emits' : Bool) (reason reason' : Option Text) (tenant invoice : Uuid) (o : Office D)
    (i : Emitted D)
    → find_first (is_invoice tenant invoice) o.invoices ≡ some i
    → check_voidable i.status ≡ ok tt
    → let o' = (void_invoice transaction true emits reason tenant invoice o).office in
      IsSettled i o.books o'.books
      × (void_invoice again true emits' reason' tenant invoice o'
          ≡ record { answer = err already_voided; office = o'; announced = false })
void_invoice_once transaction again emits emits' reason reason' tenant invoice o i found may =
    let x = void_invoice transaction true emits reason tenant invoice o in
    let after : x.office ≡ void_row true reason i o =
      void_office transaction true emits reason tenant invoice o i found may in
    (
      subst (λ w. IsSettled i o.books w.books) (sym after) (void_row-IsSettled reason i o),
      voided_twice again true emits' reason' tenant invoice x.office
          (set_status voided (some (reason_or_default reason)) i)
          (ap (λ w. find_first (is_invoice tenant invoice) w.invoices) after
            ∙ void_row-found transaction true emits reason tenant invoice o i found)
          refl,
    )

poll_accepts :
    {D : Type 0} (refunds : Bool) (message : Option Text) (tenant invoice : Uuid) (o : Office D)
    (i : Emitted D) (track : Text)
    → find_first (is_invoice tenant invoice) o.invoices ≡ some i
    → given i.track_id ≡ some track
    → i.status ≡ voided
    → (poll_invoice refunds (ok (record { status = 1; message = message })) tenant invoice o).office
      ≡ record o { invoices = update_invoice i.id (set_status accepted message) o.invoices }
unfolding poll_invoice poll_found record_poll refund map_dgii_status status_eq
poll_accepts refunds message tenant invoice o i track found sent_once is_voided = rw (
  found, sent_once, is_voided, poll_invoice, poll_found, record_poll, refund, map_dgii_status,
  status_eq,
)

-- An invoice that DGII knows by its track id, and that is voided and refunded, is accepted again by the
-- next manual poll that DGII answers with 1, and stays refunded.
pub poll_invoice-void_invoice :
    {D : Type 0} (transaction : Transaction (Office D) StatusError (Emitted D))
    (emits refunds : Bool) (reason message : Option Text) (tenant invoice : Uuid) (o : Office D)
    (i : Emitted D) (track : Text)
    → find_first (is_invoice tenant invoice) o.invoices ≡ some i
    → check_voidable i.status ≡ ok tt
    → given i.track_id ≡ some track
    → let x = void_invoice transaction true emits reason tenant invoice o in
      let y =
        poll_invoice refunds
          (ok (record { status = 1; message = message }))
          tenant
          invoice
          x.office in
      (find_first (is_invoice tenant invoice) y.office.invoices
        ≡ some (set_status accepted message i))
      × (y.office.books ≡ x.office.books)
      × IsSettled i o.books y.office.books
poll_invoice-void_invoice transaction emits refunds reason message tenant invoice o i track found
      may sent_once =
    let x = void_invoice transaction true emits reason tenant invoice o in
    let y =
      poll_invoice refunds (ok (record { status = 1; message = message })) tenant invoice
        x.office in
    let j = set_status voided (some (reason_or_default reason)) i in
    let after : x.office ≡ void_row true reason i o =
      void_office transaction true emits reason tenant invoice o i found may in
    let there : find_first (is_invoice tenant invoice) x.office.invoices ≡ some j =
      ap (λ w. find_first (is_invoice tenant invoice) w.invoices) after
      ∙ void_row-found transaction true emits reason tenant invoice o i found in
    let polled =
      poll_accepts refunds message tenant invoice x.office j track there sent_once refl in
    (
      ap (λ w. find_first (is_invoice tenant invoice) w.invoices) polled
          ∙ find_first-update tenant invoice accepted message x.office.invoices j there,
      ap (λ w. w.books) polled,
      subst (λ w. IsSettled i o.books w) (ap (λ w. w.books) (sym polled))
          (void_invoice_once transaction transaction emits emits reason reason tenant invoice o i
            found may).0,
    )
