-- ===== src/Invoices/Create/Steps.antt =====
-- The steps of src/invoices/invoices.service.ts and of the jobs of src/queue/ between two requests.
use ecf_api.Prelude.{◌≡◌, sym, ap, inl, inr, Bool, [], ◌∷◌, Option, some}
use mathlib.Core.Path.{subst}
use ecf_api.Prelude.Text.{Text}
use ecf_api.Prelude.Numbers.{Numbers}
use ecf_api.Prelude.Results.{Result, Transaction}
use ecf_api.Prelude.Rows.{find_first}
use ecf_api.Types.{Uuid, Time}
use ecf_api.Invoices.{Emitted, Office, CreateInvoiceDto, has_idempotency_key}
use ecf_api.Invoices.Status.{StatusError, StatusResult, update_invoice, poll_invoice, void_invoice}
use ecf_api.Invoices.Create.{InvoiceError, TxResult, InvoiceServices, create_invoice}
use ecf_api.Invoices.Create.Emission.{create_invoice-EmitsOrKeeps}
use ecf_api.Invoices.Create.Later.{
  IsVersion, IsVersion-refl, IsVersion-trans, IsLater, IsLater-append, IsLater-of_same,
  IsLater-update, find_first-IsLater, poll_invoice-IsLater, void_invoice-IsLater,
}

module _ (n : Numbers) where
  open n use {Double}

  pub create_invoice-IsLater :
      (transaction : Transaction (Office Double) InvoiceError (TxResult Double))
      (s : InvoiceServices n) (now : Time) (id tenant : Uuid) (dto : CreateInvoiceDto Double)
      (o : Office Double)
      → IsLater o.invoices (create_invoice n transaction s now id tenant dto o).office.invoices
  create_invoice-IsLater transaction s now id tenant dto o =
      let rows' = (create_invoice n transaction s now id tenant dto o).office.invoices in
      elim (create_invoice-EmitsOrKeeps n s now id tenant dto o transaction) [
        | inl (same, _, _) ↦ IsLater-of_same o.invoices rows' (ap (λ w. w.invoices) same)
        | inr (i, (a, st, xml, total, _, _, _, _, rows, _, _), _) ↦
            subst (IsLater o.invoices) (sym rows) (IsLater-append o.invoices (i ∷ []))
      ]

  -- One step between two requests: another request, a manual poll, a void, or a write of a job or of the
  -- contingency run, which updates columns of one row that are none of those of a version.
  pub data Step : Office Double → Office Double → Type 0 where
    requested :
        (transaction : Transaction (Office Double) InvoiceError (TxResult Double))
        (s : InvoiceServices n) (now : Time) (id tenant : Uuid) (dto : CreateInvoiceDto Double)
        (o : Office Double)
        → Step o (create_invoice n transaction s now id tenant dto o).office
    poll_asked :
        (refunds : Bool) (dgii : Result Text StatusResult) (tenant invoice : Uuid)
        (o : Office Double)
        → Step o (poll_invoice refunds dgii tenant invoice o).office
    void_asked :
        (transaction : Transaction (Office Double) StatusError (Emitted Double))
        (has_usage_service emits : Bool) (reason : Option Text) (tenant invoice : Uuid)
        (o : Office Double)
        → Step o (void_invoice transaction has_usage_service emits reason tenant invoice o).office
    updated :
        (id : Uuid) (f : Emitted Double → Emitted Double) (o : Office Double)
        → ((i : Emitted Double) → IsVersion i (f i))
        → Step o (record o { invoices = update_invoice id f o.invoices })

  -- Any number of steps.
  pub data Steps : Office Double → Office Double → Type 0 where
    none_yet : (o : Office Double) → Steps o o
    then_step : (o o' o2 : Office Double) → Steps o o' → Step o' o2 → Steps o o2

  Step-IsLater : (o o' : Office Double) → Step o o' → IsLater o.invoices o'.invoices
  Step-IsLater o _ (requested transaction s now id tenant dto _) =
      create_invoice-IsLater transaction s now id tenant dto o
  Step-IsLater o _ (poll_asked refunds dgii tenant invoice _) =
      poll_invoice-IsLater refunds dgii tenant invoice o
  Step-IsLater o _ (void_asked transaction has_usage_service emits reason tenant invoice _) =
      void_invoice-IsLater transaction has_usage_service emits reason tenant invoice o
  Step-IsLater o _ (updated id f _ keeps) = IsLater-update id f o.invoices keeps

  -- The row of a key stays the row of the key over any steps.
  pub Steps-IsVersion :
      (tenant : Uuid) (k : Text) (i : Emitted Double) (o o' : Office Double)
      → Steps o o'
      → find_first (has_idempotency_key tenant k) o.invoices ≡ some i
      → (j : Emitted Double) × (find_first (has_idempotency_key tenant k) o'.invoices ≡ some j)
        × IsVersion i j
  Steps-IsVersion tenant k i o _ (none_yet _) found = (i, found, IsVersion-refl i)
  Steps-IsVersion tenant k i o _ (then_step _ o' o2 steps step) found =
      let (j, there, version) = Steps-IsVersion tenant k i o o' steps found in
      let (j2, there2, version2) =
        find_first-IsLater tenant k o'.invoices o2.invoices j (Step-IsLater o' o2 step) there in
      (j2, there2, IsVersion-trans i j j2 version version2)
