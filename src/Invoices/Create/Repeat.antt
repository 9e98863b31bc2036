-- ===== src/Invoices/Create/Repeat.antt =====
-- What a repeated request meets.
use ecf_api.Prelude.{
  ◌≡◌, ◌≢◌, refl, sym, ap, ◌∙◌, inl, inr, true, false, List, [], ◌∷◌, Option, none, some, arith,
  ◌==◌,
}
use ecf_api.Prelude.Text.{Text}
use ecf_api.Prelude.Text.Laws.{text_eq_iff}
use ecf_api.Prelude.Numbers.{Numbers}
use ecf_api.Prelude.Results.{ok, err, Transaction}
use ecf_api.Prelude.Rows.{All, find_first}
use ecf_api.Prelude.Rows.Laws.{find_first-append}
use ecf_api.Types.{Uuid, Time, queued}
use ecf_api.Invoices.{
  Emitted, Office, CreateInvoiceDto, given, has_text, find_by_key, has_idempotency_key, is_invoice,
}
use ecf_api.Invoices.Create.{
  InvoiceError, TxResult, InvoiceServices, new_invoice, CreateOutcome, create_invoice, find_one,
  job_not_queued,
}
use ecf_api.Invoices.Create.Written.{IsEmission}
use ecf_api.Invoices.Create.Later.{IsVersion}
use ecf_api.Invoices.Create.Steps.{Steps, Steps-IsVersion}
use ecf_api.Invoices.Create.Emission.{
  IsAnnounced, EmitsOrKeeps, create_invoice-EmitsOrKeeps, create_invoice_known,
}

given-has_text : (key : Option Text) (k : Text) → given key ≡ some k → has_text key k ≡ true
given-has_text none k h = cc
given-has_text (some []) k h = cc
given-has_text (some (c ∷ s)) k h = (text_eq_iff (c ∷ s) k).1 (ground (arith, h))

module _ (n : Numbers) where
  open n use {Double}

  find_by_given :
      (tenant : Uuid) (key : Option Text) (k : Text) (rows : List (Emitted Double))
      → key ≡ some k
      → find_by_key tenant key rows ≡ find_first (has_idempotency_key tenant k) rows
  unfolding find_by_key
  find_by_given tenant key k rows e = rw (e, find_by_key)

  -- A row that an emission wrote is found by its key.
  find_by_key-IsEmission :
      (s : InvoiceServices n) (now : Time) (id tenant : Uuid) (dto : CreateInvoiceDto Double)
      (o : Office Double) (i : Emitted Double) (o' : Office Double) (k : Text)
      → given dto.idempotency_key ≡ some k
      → IsEmission n s now id tenant dto o i o'
      → find_first (has_idempotency_key tenant k) o'.invoices ≡ some i
  unfolding new_invoice
  find_by_key-IsEmission s now id tenant dto o i o' k key
        (a, st, xml, total, fresh, _, _, row, rows, _, _) =
      ap (find_first (has_idempotency_key tenant k)) rows
      ∙ find_first-append (has_idempotency_key tenant k) o.invoices i
          (sym (find_by_given tenant (given dto.idempotency_key) k o.invoices key) ∙ fresh)
          (ap (has_idempotency_key tenant k) row
            ∙ ground (arith, given-has_text dto.idempotency_key k key))

  absent_id :
      (tenant id : Uuid) (rows : List (Emitted Double))
      → All (λ r. (r.id == id) ≡ false) rows
      → find_first (is_invoice tenant id) rows ≡ none
  absent_id tenant id [] fresh = refl
  absent_id tenant id (r ∷ rows) (other, fresh) =
      ground (arith, absent_id tenant id rows fresh, other)

  -- The answer of an emission is the row that it wrote.
  find_one-IsEmission :
      (s : InvoiceServices n) (now : Time) (id tenant : Uuid) (dto : CreateInvoiceDto Double)
      (o : Office Double) (i : Emitted Double) (o' : Office Double)
      → All (λ r. (r.id == id) ≡ false) o.invoices
      → IsEmission n s now id tenant dto o i o'
      → find_one n tenant i.id o' ≡ ok i
  unfolding find_one new_invoice
  find_one-IsEmission s now id tenant dto o i o' fresh
        (a, st, xml, total, _, _, _, row, rows, _, _) =
      let own : i.id ≡ id = ap (λ x. x.id) row in
      let tenants : i.tenant_id ≡ tenant = ap (λ x. x.tenant_id) row in
      let there : find_first (is_invoice tenant i.id) o'.invoices ≡ some i =
        ap (find_first (is_invoice tenant i.id)) rows
        ∙ find_first-append (is_invoice tenant i.id) o.invoices i
            (rw own (absent_id tenant id o.invoices fresh)) (ground (arith, tenants)) in
      rw (there, find_one)

  -- The row that answers a request with a key is the one of that key from then on.
  module _ (s : InvoiceServices n) (now : Time) (id tenant : Uuid) (dto : CreateInvoiceDto Double)
      (o : Office Double) (k : Text) (key : given dto.idempotency_key ≡ some k) where
    kept-known :
        (x : CreateOutcome n) (i : Emitted Double)
        → x.office ≡ o
        → find_by_key tenant (given dto.idempotency_key) o.invoices ≡ some i
        → find_first (has_idempotency_key tenant k) x.office.invoices ≡ some i
    kept-known x i same known =
        ap (λ w. find_first (has_idempotency_key tenant k) w.invoices) same
        ∙ sym (find_by_given tenant (given dto.idempotency_key) k o.invoices key)
        ∙ known

    emitted-known :
        (x : CreateOutcome n) (i j : Emitted Double)
        → All (λ r. (r.id == id) ≡ false) o.invoices
        → IsEmission n s now id tenant dto o j x.office
        → IsAnnounced n s tenant dto j x
        → x.answer ≡ ok i
        → find_first (has_idempotency_key tenant k) x.office.invoices ≡ some i
    emitted-known x i j unused written (inl (_, _, _, answer)) answered =
        let own : j ≡ i =
          cc (find_one-IsEmission s now id tenant dto o j x.office unused written) in
        find_by_key-IsEmission s now id tenant dto o j x.office k key written ∙ ap some own
    emitted-known x i j unused written (inr (inl (_, _, _, failed))) answered = cc
    emitted-known x i j unused written (inr (inr (_, _, failed))) answered = cc

    answer-known :
        (x : CreateOutcome n) (i : Emitted Double)
        → All (λ r. (r.id == id) ≡ false) o.invoices
        → EmitsOrKeeps n s now id tenant dto o x
        → x.answer ≡ ok i
        → find_first (has_idempotency_key tenant k) x.office.invoices ≡ some i
    answer-known x i unused (inl (same, _, inl (j, known, answer))) answered =
        let own : j ≡ i = cc in kept-known x i same (known ∙ ap some own)
    answer-known x i unused (inl (same, _, inr (e, failed))) answered = cc
    answer-known x i unused (inr (j, written, announced)) answered =
        emitted-known x i j unused written announced answered

  -- A request with an idempotency key that was answered with an invoice, under an identifier that was not
  -- in use, can be repeated: whatever else the repetition says, and after any number of other requests,
  -- manual polls, voids and writes of the jobs to columns other than those named here, it is answered with
  -- that invoice, which has the same identifier, tenant, company, type, eNCF, key, total, document and
  -- lines; it changes no table and queues nothing.
  pub create_invoice_repeat :
      (s : InvoiceServices n) (now : Time) (id tenant : Uuid) (dto : CreateInvoiceDto Double)
      (o : Office Double) (transaction : Transaction (Office Double) InvoiceError (TxResult Double))
      (k : Text) (i : Emitted Double) (s' : InvoiceServices n) (later : Time) (id' : Uuid)
      (dto' : CreateInvoiceDto Double) (o' : Office Double)
      → given dto.idempotency_key ≡ some k
      → given dto'.idempotency_key ≡ some k
      → All (λ r. (r.id == id) ≡ false) o.invoices
      → (create_invoice n transaction s now id tenant dto o).answer ≡ ok i
      → Steps n (create_invoice n transaction s now id tenant dto o).office o'
      → (j : Emitted Double) × (create_invoice n transaction s' later id' tenant dto' o'
          ≡ record { answer = ok j; office = o'; messages = [] })
        × IsVersion i j
  create_invoice_repeat s now id tenant dto o transaction k i s' later id' dto' o' key key' unused
        answered steps =
      let x = create_invoice n transaction s now id tenant dto o in
      let known =
        answer-known s now id tenant dto o k key x i unused
          (create_invoice-EmitsOrKeeps n s now id tenant dto o transaction) answered in
      let (j, there, version) = Steps-IsVersion n tenant k i x.office o' steps known in
      (
        j,
        create_invoice_known n s' later id' tenant dto' o' transaction j
            (find_by_given tenant (given dto'.idempotency_key) k o'.invoices key' ∙ there),
        version,
      )

  -- A request with an idempotency key whose invoice was written, while the queue of jobs was down, ends
  -- with an exception, and leaves a queued invoice without a job: each repetition is answered with it, and
  -- queues nothing either.
  pub create_invoice_lost_job :
      (s : InvoiceServices n) (now : Time) (id tenant : Uuid) (dto : CreateInvoiceDto Double)
      (o : Office Double) (transaction : Transaction (Office Double) InvoiceError (TxResult Double))
      (k : Text) (s' : InvoiceServices n) (later : Time) (id' : Uuid)
      (dto' : CreateInvoiceDto Double)
      → given dto.idempotency_key ≡ some k
      → given dto'.idempotency_key ≡ some k
      → s.enqueues ≡ false
      → (create_invoice n transaction s now id tenant dto o).office ≢ o
      → ((create_invoice n transaction s now id tenant dto o).answer ≡ err job_not_queued)
        × ((create_invoice n transaction s now id tenant dto o).messages ≡ [])
        × (i : Emitted Double) × (i.status ≡ queued)
        × (create_invoice n transaction s' later id' tenant dto'
              (create_invoice n transaction s now id tenant dto o).office
            ≡ record {
              answer = ok i;
              office = (create_invoice n transaction s now id tenant dto o).office;
              messages = [];
            })
  unfolding new_invoice
  create_invoice_lost_job s now id tenant dto o transaction k s' later id' dto' key key' down
        changed =
      elim (create_invoice-EmitsOrKeeps n s now id tenant dto o transaction) [
        | inl (same, _, _) ↦ absurd (changed same)
        | inr (i, written, inl (up, _, _, _)) ↦ cc
        | inr (i, written, inr (inl (up, _, _, _))) ↦ cc
        | inr (i, written, inr (inr (_, silent, lost))) ↦
            let x = create_invoice n transaction s now id tenant dto o in
            let (a, st, xml, total, _, _, _, row, _, _, _) = written in
            (
              lost,
              silent,
              i,
              ap (λ r. r.status) row,
              create_invoice_known n s' later id' tenant dto' x.office transaction i (
                  find_by_given tenant (given dto'.idempotency_key) k x.office.invoices key'
                  ∙ find_by_key-IsEmission s now id tenant dto o i x.office k key written),
            )
      ]
