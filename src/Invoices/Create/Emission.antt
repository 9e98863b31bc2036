-- ===== src/Invoices/Create/Emission.antt =====
-- What an emission writes: everything or nothing.
use ecf_api.Prelude.{
  ◌≡◌, refl, sym, ◌⊎◌, inl, inr, true, false, [], ◌∷◌, none, some, arith, Option-cases,
}
use mathlib.Core.Path.{subst}
use ecf_api.Prelude.Numbers.{Numbers}
use ecf_api.Prelude.Results.{Result, ok, err, Transaction, run-ok, run-err}
use ecf_api.Prelude.Rows.{find_first}
use ecf_api.Types.{Uuid, Time}
use ecf_api.Invoices.{
  Company, Emitted, Office, CreateInvoiceDto, given, find_by_key, is_emitting_company,
}
use ecf_api.Invoices.Create.{
  InvoiceError, TxResult, found, created, ecf_processing, invoice_queued, InvoiceServices, is_some,
  find_one, job_not_queued, webhook_not_queued, emission, CreateOutcome, announce_created,
  after_commit, emit, create_invoice, check_request, company_not_found,
}
use ecf_api.Invoices.Create.Written.{IsEmission, emission-IsEmission}

module _ (n : Numbers) where
  open n use {Double}

  -- What an emission answers: the row, or the exception of a queue that fails, with what was queued till then.
  abbrev pub IsAnnounced :
      InvoiceServices n → Uuid → CreateInvoiceDto Double → Emitted Double → CreateOutcome n → Type 0
  IsAnnounced s tenant dto i x =
      let job = ecf_processing i.id (is_some n (given dto.reference)) in
      ((s.enqueues ≡ true)
        × (s.emits ≡ true)
        × (x.messages ≡ job ∷ invoice_queued i.id ∷ [])
        × (x.answer ≡ find_one n tenant i.id x.office))
      ⊎ ((s.enqueues ≡ true)
          × (s.emits ≡ false)
          × (x.messages ≡ job ∷ [])
          × (x.answer ≡ err webhook_not_queued))
      ⊎ ((s.enqueues ≡ false) × (x.messages ≡ []) × (x.answer ≡ err job_not_queued))

  -- The tables and the queues stay as they are, after an exception or for a known key, or one invoice is
  -- emitted.
  abbrev pub EmitsOrKeeps :
      InvoiceServices n
      → Time
      → Uuid
      → Uuid
      → CreateInvoiceDto Double
      → Office Double
      → CreateOutcome n
      → Type 0
  EmitsOrKeeps s now id tenant dto o x =
      ((x.office ≡ o)
        × (x.messages ≡ [])
        × (((i : Emitted Double) × (find_by_key tenant (given dto.idempotency_key) o.invoices
                ≡ some i)
              × (x.answer ≡ ok i))
            ⊎ (e : InvoiceError) × (x.answer ≡ err e)))
      ⊎ ((i : Emitted Double) × IsEmission n s now id tenant dto o i x.office
          × IsAnnounced s tenant dto i x)

  announce_created-IsAnnounced :
      (s : InvoiceServices n) (tenant : Uuid) (dto : CreateInvoiceDto Double) (i : Emitted Double)
      (o : Office Double)
      → IsAnnounced s tenant dto i (announce_created n s tenant dto i o)
  unfolding announce_created
  announce_created-IsAnnounced s tenant dto i o = ground arith

  announce_created-office :
      (s : InvoiceServices n) (tenant : Uuid) (dto : CreateInvoiceDto Double) (i : Emitted Double)
      (o : Office Double)
      → (announce_created n s tenant dto i o).office ≡ o
  unfolding announce_created
  announce_created-office s tenant dto i o = ground arith

  after_commit-EmitsOrKeeps :
      (s : InvoiceServices n) (now : Time) (id tenant : Uuid) (dto : CreateInvoiceDto Double)
      (o : Office Double) (transaction : Transaction (Office Double) InvoiceError (TxResult Double))
      → find_by_key tenant (given dto.idempotency_key) o.invoices ≡ none
      → EmitsOrKeeps s now id tenant dto o
          (after_commit n s tenant dto (transaction.run (emission n s now id tenant dto) o))
  unfolding after_commit
  after_commit-EmitsOrKeeps s now id tenant dto o transaction fresh =
      go (transaction.run (emission n s now id tenant dto) o) refl
    where
      go :
          (r : Result InvoiceError (TxResult Double) × Office Double)
          → transaction.run (emission n s now id tenant dto) o ≡ r
          → EmitsOrKeeps s now id tenant dto o (after_commit n s tenant dto r)
      go (err e, o') h =
          inl ((run-err transaction (emission n s now id tenant dto) o h).0, refl, inr (e, refl))
      go (ok (found i), o') h =
          let (j, clashing, rest) =
            emission-IsEmission n s now id tenant dto o (found i) o' fresh
              (run-ok transaction (emission n s now id tenant dto) o h) in
          cc clashing
      go (ok (created i), o') h =
          let (j, same, written) =
            emission-IsEmission n s now id tenant dto o (created i) o' fresh
              (run-ok transaction (emission n s now id tenant dto) o h) in
          let e : j ≡ i = cc same in
          inr (
            i,
            subst (λ w. IsEmission n s now id tenant dto o i w)
                (sym (announce_created-office s tenant dto i o'))
                (subst (λ k. IsEmission n s now id tenant dto o k o') e written),
            announce_created-IsAnnounced s tenant dto i o',
          )

  emit-EmitsOrKeeps :
      (s : InvoiceServices n) (now : Time) (id tenant : Uuid) (dto : CreateInvoiceDto Double)
      (o : Office Double) (transaction : Transaction (Office Double) InvoiceError (TxResult Double))
      → find_by_key tenant (given dto.idempotency_key) o.invoices ≡ none
      → EmitsOrKeeps s now id tenant dto o (emit n transaction s now id tenant dto o)
  unfolding emit
  emit-EmitsOrKeeps s now id tenant dto o transaction fresh =
      elim (Option-cases (find_first (is_emitting_company tenant dto.company_id) o.companies)) [
        | inl missing ↦ rw (missing, emit) (inl (refl, refl, inr (company_not_found, refl)))
        | inr (c, there) ↦ rw (there, emit) (go c (check_request n c dto) refl)
      ]
    where
      go :
          (c : Company) (r : Result InvoiceError (Unit {0}))
          → check_request n c dto ≡ r
          → EmitsOrKeeps s now id tenant dto o
              (elim (check_request n c dto) as (λ _. CreateOutcome n) [
                | err e ↦ record { answer = err e; office = o; messages = [] }
                | ok _ ↦
                    after_commit n s tenant dto (transaction.run (emission n s now id tenant dto) o)
              ])
      go c (err e) checked = rw checked (inl (refl, refl, inr (e, refl)))
      go c (ok _) checked =
          rw checked (after_commit-EmitsOrKeeps s now id tenant dto o transaction fresh)

  create_invoice_fresh :
      (s : InvoiceServices n) (now : Time) (id tenant : Uuid) (dto : CreateInvoiceDto Double)
      (o : Office Double) (transaction : Transaction (Office Double) InvoiceError (TxResult Double))
      → find_by_key tenant (given dto.idempotency_key) o.invoices ≡ none
      → create_invoice n transaction s now id tenant dto o
        ≡ emit n transaction s now id tenant dto o
  unfolding create_invoice
  create_invoice_fresh s now id tenant dto o transaction fresh = rw (fresh, create_invoice)

  pub create_invoice_known :
      (s : InvoiceServices n) (now : Time) (id tenant : Uuid) (dto : CreateInvoiceDto Double)
      (o : Office Double) (transaction : Transaction (Office Double) InvoiceError (TxResult Double))
      (i : Emitted Double)
      → find_by_key tenant (given dto.idempotency_key) o.invoices ≡ some i
      → create_invoice n transaction s now id tenant dto o
        ≡ record { answer = ok i; office = o; messages = [] }
  unfolding create_invoice
  create_invoice_known s now id tenant dto o transaction i known = rw (known, create_invoice)

  -- A request either changes no table, queues nothing, and answers with an exception or with the invoice
  -- that has its idempotency key; or it writes exactly one invoice, whose key was not in use, with the
  -- number that the assignment gives or its override asks for, its document, and what the metering of its
  -- company or else of its tenant writes, which may be no count. Then it queues the job and the webhook,
  -- or ends with an exception: nothing is queued if the job cannot be, only the job if the webhook cannot.
  pub create_invoice-EmitsOrKeeps :
      (s : InvoiceServices n) (now : Time) (id tenant : Uuid) (dto : CreateInvoiceDto Double)
      (o : Office Double) (transaction : Transaction (Office Double) InvoiceError (TxResult Double))
      → EmitsOrKeeps s now id tenant dto o (create_invoice n transaction s now id tenant dto o)
  create_invoice-EmitsOrKeeps s now id tenant dto o transaction =
      elim (Option-cases (find_by_key tenant (given dto.idempotency_key) o.invoices)) [
        | inl fresh ↦
            subst (EmitsOrKeeps s now id tenant dto o)
              (sym (create_invoice_fresh s now id tenant dto o transaction fresh))
              (emit-EmitsOrKeeps s now id tenant dto o transaction fresh)
        | inr (i, known) ↦
            subst (EmitsOrKeeps s now id tenant dto o)
              (sym (create_invoice_known s now id tenant dto o transaction i known))
              (inl (refl, refl, inl (i, known, refl)))
      ]
