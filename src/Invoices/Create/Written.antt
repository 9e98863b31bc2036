-- ===== src/Invoices/Create/Written.antt =====
-- What the transaction of an emission writes.
use ecf_api.Prelude.{
  ◌≡◌, refl, sym, ap, ◌∙◌, ◌⊎◌, inl, inr, [], ◌∷◌, ◌++◌, none, some, arith, Option-cases,
  Bool-cases,
}
use ecf_api.Prelude.Text.{Text}
use ecf_api.Prelude.Numbers.{Numbers}
use ecf_api.Prelude.Results.{Result, ok, err, and_run, lift_run, and_run-ok, lift_run-ok}
use ecf_api.Prelude.Rows.{find_first}
use ecf_api.Types.{Uuid, Time}
use ecf_api.Sequences.{Store}
use ecf_api.Sequences.Assign.{Assigned, assign_next_encf}
use ecf_api.Billing.{CompanyPlan}
use ecf_api.Billing.Usage.{increment_usage}
use ecf_api.Billing.Tenants.{increment_invoice_count}
use ecf_api.Invoices.{
  Emitted, Office, CreateInvoiceDto, store_of, with_sequences, with_books, given, find_by_key,
}
use ecf_api.Invoices.Create.{
  TxResult, created, unreverted, insert_invoice, clash, duplicate_row, InvoiceServices, usage_error,
  sequence_error, new_invoice, charge, store_invoice, build_invoice, assign_and_build, emission,
}

module _ (n : Numbers) where
  open n use {Double}

  -- One meter counts an invoice: that of the plan of the company, or else that of the tenant.
  abbrev pub IsMetered : Time → Uuid → Uuid → Office Double → Office Double → Type 0
  IsMetered now tenant company o o' =
      ((p : CompanyPlan) × (o.books.plans company ≡ some p)
        × (increment_usage now company o.books ≡ (ok tt, o'.books))
        × (o'.tenant_plans ≡ o.tenant_plans))
      ⊎ ((o.books.plans company ≡ none)
          × (o'.books ≡ o.books)
          × (o'.tenant_plans ≡ increment_invoice_count now tenant o.tenant_plans))

  -- The key is not in use, the row `i` is new, with the number that the ranges give, and all else that
  -- belongs to it is written.
  abbrev pub IsEmission :
      InvoiceServices n
      → Time
      → Uuid
      → Uuid
      → CreateInvoiceDto Double
      → Office Double
      → Emitted Double
      → Office Double
      → Type 0
  IsEmission s now id tenant dto o i o' =
      (a : Assigned) × (st : Store) × (xml : Text) × (total : Double) × (find_by_key tenant
          (given dto.idempotency_key) o.invoices
        ≡ none)
      × (assign_next_encf now tenant dto.company_id dto.ecf_type dto.encf_override (store_of o)
          ≡ (ok a, st))
      × (s.build dto a.encf a.expires_at ≡ ok (xml, total))
      × (i ≡ new_invoice n now id tenant dto a.encf xml total)
      × (o'.invoices ≡ o.invoices ++ i ∷ [])
      × (o'.sequences ≡ st.sequences)
      × IsMetered now tenant dto.company_id (with_books (unreverted id o.books) o) o'

  -- What the metering changes of the tables that it is given.
  Charges : Time → Uuid → Uuid → Office Double → Office Double → Type 0
  Charges now tenant company o o' =
      (o'.invoices ≡ o.invoices) × (o'.sequences ≡ o.sequences) × IsMetered now tenant company o o'

  charge_planned-Charges :
      (now : Time) (tenant company : Uuid) (o o' : Office Double) (p : CompanyPlan)
      → o.books.plans company ≡ some p
      → lift_run usage_error (λ b. with_books b o) (increment_usage now company o.books)
        ≡ (ok tt, o')
      → Charges now tenant company o o'
  unfolding Charges
  charge_planned-Charges now tenant company o o' p plan h =
      let (b, counted, whole) =
        lift_run-ok usage_error (λ b. with_books b o) (increment_usage now company o.books) tt o'
          h in
      let books : b ≡ o'.books = ap (λ x. x.books) whole in
      (
        ap (λ x. x.invoices) (sym whole),
        ap (λ x. x.sequences) (sym whole),
        inl (p, plan, counted ∙ ap (λ x. (ok tt, x)) books, ap (λ x. x.tenant_plans) (sym whole)),
      )

  charge_free-Charges :
      (now : Time) (tenant company : Uuid) (o o' : Office Double)
      → o.books.plans company ≡ none
      → record o { tenant_plans = increment_invoice_count now tenant o.tenant_plans } ≡ o'
      → Charges now tenant company o o'
  unfolding Charges
  charge_free-Charges now tenant company o o' free whole = (
    ap (λ x. x.invoices) (sym whole),
    ap (λ x. x.sequences) (sym whole),
    inr (free, ap (λ x. x.books) (sym whole), ap (λ x. x.tenant_plans) (sym whole)),
  )

  charge-Charges :
      (s : InvoiceServices n) (now : Time) (tenant company : Uuid) (o o' : Office Double)
      → charge n s now tenant company o ≡ (ok tt, o')
      → Charges now tenant company o o'
  unfolding charge
  charge-Charges s now tenant company o o' h = elim (Option-cases (o.books.plans company)) [
    | inl free ↦ charge_free-Charges now tenant company o o' free (ground arith)
    | inr (p, plan) ↦ elim (Bool-cases s.has_usage_service) [
      | inl has ↦ charge_planned-Charges now tenant company o o' p plan (ground arith)
      | inr without ↦ absurd (ground arith)
    ]
  ]

  -- The row stands in the table, and the meter is next.
  with_row : Emitted Double → Office Double → Office Double
  with_row i o = with_books (unreverted i.id o.books) (record o { invoices = o.invoices ++ i ∷ [] })

  store_invoice_fresh :
      (s : InvoiceServices n) (now : Time) (i : Emitted Double) (o : Office Double)
      → find_first (clash i) o.invoices ≡ none
      → store_invoice n s now i o
        ≡ and_run
            (charge n s now i.tenant_id i.company_id (with_row i o))
            (λ _ o'. (ok (created i), o'))
  unfolding store_invoice insert_invoice with_row
  store_invoice_fresh s now i o fresh = rw (fresh, store_invoice, insert_invoice, with_row)

  store_invoice-clash :
      (s : InvoiceServices n) (now : Time) (i j : Emitted Double) (o : Office Double)
      → find_first (clash i) o.invoices ≡ some j
      → store_invoice n s now i o ≡ (err duplicate_row, o)
  unfolding store_invoice insert_invoice
  store_invoice-clash s now i j o taken = rw (taken, store_invoice, insert_invoice)

  -- Everything that the transaction writes for a new invoice.
  Stores : Time → Emitted Double → Office Double → Office Double → Type 0
  Stores now i o o' =
      (o'.invoices ≡ o.invoices ++ i ∷ [])
      × (o'.sequences ≡ o.sequences)
      × IsMetered now i.tenant_id i.company_id (with_books (unreverted i.id o.books) o) o'

  store_fresh-Stores :
      (s : InvoiceServices n) (now : Time) (i : Emitted Double) (o : Office Double)
      (r : TxResult Double) (o' : Office Double)
      → and_run
          (charge n s now i.tenant_id i.company_id (with_row i o))
          (λ _ o'. (ok (created i), o'))
        ≡ (ok r, o')
      → (r ≡ created i) × Stores now i o o'
  unfolding Stores Charges with_row
  store_fresh-Stores s now i o r o' h =
      let (u, o2, charged, h2) =
        and_run-ok (charge n s now i.tenant_id i.company_id (with_row i o))
          (λ _ o2. (ok (created i), o2)) r o' h in
      let e : o2 ≡ o' = cc h2 in
      (
        cc h2,
        charge-Charges s now i.tenant_id i.company_id (with_row i o) o'
            (charged ∙ ap (λ x. (ok tt, x)) e),
      )

  store_invoice-Stores :
      (s : InvoiceServices n) (now : Time) (i : Emitted Double) (o : Office Double)
      (r : TxResult Double) (o' : Office Double)
      → store_invoice n s now i o ≡ (ok r, o')
      → (r ≡ created i) × Stores now i o o'
  store_invoice-Stores s now i o r o' h = elim (Option-cases (find_first (clash i) o.invoices)) [
    | inl fresh ↦ store_fresh-Stores s now i o r o' (sym (store_invoice_fresh s now i o fresh) ∙ h)
    | inr (j, taken) ↦ cc (store_invoice-clash s now i j o taken)
  ]

  built-IsEmission :
      (s : InvoiceServices n) (now : Time) (id tenant : Uuid) (dto : CreateInvoiceDto Double)
      (a : Assigned) (st : Store) (o : Office Double) (r : TxResult Double) (o' : Office Double)
      → find_by_key tenant (given dto.idempotency_key) o.invoices ≡ none
      → assign_next_encf now tenant dto.company_id dto.ecf_type dto.encf_override (store_of o)
        ≡ (ok a, st)
      → build_invoice n s now id tenant dto a (with_sequences st o) ≡ (ok r, o')
      → (i : Emitted Double) × (r ≡ created i) × IsEmission s now id tenant dto o i o'
  unfolding build_invoice Stores new_invoice
  built-IsEmission s now id tenant dto a st o r o' fresh assigned h =
      go (s.build dto a.encf a.expires_at) refl
    where
      go :
          (b : Result Text (Text × Double))
          → s.build dto a.encf a.expires_at ≡ b
          → (i : Emitted Double) × (r ≡ created i) × IsEmission s now id tenant dto o i o'
      go (err e) built = absurd (ground (arith, built))
      go (ok (xml, total)) built =
          let (same, stores) =
            store_invoice-Stores s now (new_invoice n now id tenant dto a.encf xml total)
              (with_sequences st o) r o' (ground (arith, built)) in
          let (rows, numbers, meter) = stores in
          (
            new_invoice n now id tenant dto a.encf xml total,
            same,
            (a, st, xml, total, fresh, assigned, built, refl, rows, numbers, meter),
          )

  pub emission-IsEmission :
      (s : InvoiceServices n) (now : Time) (id tenant : Uuid) (dto : CreateInvoiceDto Double)
      (o : Office Double) (r : TxResult Double) (o' : Office Double)
      → find_by_key tenant (given dto.idempotency_key) o.invoices ≡ none
      → emission n s now id tenant dto o ≡ (ok r, o')
      → (i : Emitted Double) × (r ≡ created i) × IsEmission s now id tenant dto o i o'
  unfolding emission assign_and_build
  emission-IsEmission s now id tenant dto o r o' fresh h =
      let assigned =
        assign_next_encf now tenant dto.company_id dto.ecf_type dto.encf_override (store_of o) in
      let body : and_run (lift_run sequence_error (λ st. with_sequences st o) assigned)
            (build_invoice n s now id tenant dto)
          ≡ (ok r, o') =
        ground (arith, fresh) in
      let (a, o1, numbered, built) =
        and_run-ok (lift_run sequence_error (λ st. with_sequences st o) assigned)
          (build_invoice n s now id tenant dto) r o' body in
      let (st, by_store, whole) =
        lift_run-ok sequence_error (λ st. with_sequences st o) assigned a o1 numbered in
      built-IsEmission s now id tenant dto a st o r o' fresh by_store
        (ap (λ x. build_invoice n s now id tenant dto a x) whole ∙ built)
