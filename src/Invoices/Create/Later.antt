-- ===== src/Invoices/Create/Later.antt =====
-- What the operations of src/invoices/invoices.service.ts and the jobs of src/queue/ leave of the columns by
-- which an invoice is known.
use ecf_api.Prelude.{
  ◌≡◌, refl, sym, ◌∙◌, inl, inr, Bool, true, false, List, [], ◌∷◌, ◌++◌, Option, some, ◌==◌, not,
  ◌&&◌, Bool-cases, Option-cases, if_rule,
}
use mathlib.Core.Path.{subst}
use ecf_api.Prelude.Text.{Text}
use ecf_api.Prelude.Results.{Result, Transaction, Result-cases}
use ecf_api.Prelude.Rows.{find_first}
use ecf_api.Types.{Uuid, InvoiceStatus, draft, voided, rejected}
use ecf_api.Queue.{map_dgii_status}
use ecf_api.Invoices.Status.Voided.{void_office}
use ecf_api.Invoices.{Emitted, Office, given, is_invoice, has_idempotency_key}
use ecf_api.Invoices.Status.{
  StatusError, StatusResult, update_invoice, set_status, refund, record_poll, poll_found,
  poll_invoice, check_voidable, reason_or_default, void_row, void_found, void_invoice, status_eq,
}

-- A version of the same row.
abbrev pub IsVersion : {D : Type 0} → Emitted D → Emitted D → Type 0
IsVersion i j =
    (j.id ≡ i.id)
    × (j.tenant_id ≡ i.tenant_id)
    × (j.company_id ≡ i.company_id)
    × (j.ecf_type ≡ i.ecf_type)
    × (j.encf ≡ i.encf)
    × (j.idempotency_key ≡ i.idempotency_key)
    × (j.total_amount ≡ i.total_amount)
    × (j.xml_unsigned ≡ i.xml_unsigned)
    × (j.lines ≡ i.lines)

-- The table at a later time: a version of each row, in place, and new rows.
abbrev pub IsLater : {D : Type 0} → List (Emitted D) → List (Emitted D) → Type 0
IsLater [] rows' = Unit
IsLater (i ∷ rows) [] = ⊥
IsLater (i ∷ rows) (j ∷ rows') = IsVersion i j × IsLater rows rows'

module _ {D : Type 0} where
  pub IsVersion-refl : (i : Emitted D) → IsVersion i i
  IsVersion-refl i = (refl, refl, refl, refl, refl, refl, refl, refl, refl)

  pub IsVersion-trans : (i j k : Emitted D) → IsVersion i j → IsVersion j k → IsVersion i k
  IsVersion-trans i j k (a, b, c, d, e, f, g, h, l) (a', b', c', d', e', f', g', h', l') =
      (a' ∙ a, b' ∙ b, c' ∙ c, d' ∙ d, e' ∙ e, f' ∙ f, g' ∙ g, h' ∙ h, l' ∙ l)

  pub IsLater-append : (rows new : List (Emitted D)) → IsLater rows (rows ++ new)
  IsLater-append [] new = tt
  IsLater-append (i ∷ rows) new = (IsVersion-refl i, IsLater-append rows new)

  IsLater-refl : (rows : List (Emitted D)) → IsLater rows rows
  IsLater-refl [] = tt
  IsLater-refl (i ∷ rows) = (IsVersion-refl i, IsLater-refl rows)

  pub IsLater-of_same : (rows rows' : List (Emitted D)) → rows' ≡ rows → IsLater rows rows'
  IsLater-of_same rows rows' same = subst (IsLater rows) (sym same) (IsLater-refl rows)

  pub IsLater-update :
      (id : Uuid) (f : Emitted D → Emitted D) (rows : List (Emitted D))
      → ((i : Emitted D) → IsVersion i (f i))
      → IsLater rows (update_invoice id f rows)
  IsLater-update id f [] keeps = tt
  IsLater-update id f (i ∷ rows) keeps = (
    if_rule (IsVersion i) (i.id == id) (λ _. keeps i) (λ _. IsVersion-refl i),
    IsLater-update id f rows keeps,
  )

  set_status-IsVersion :
      (status : InvoiceStatus) (message : Option Text) (i : Emitted D)
      → IsVersion i (set_status status message i)
  set_status-IsVersion status message i = IsVersion-refl i

  -- The row of a key stays the row of the key.
  pub find_first-IsLater :
      (tenant : Uuid) (k : Text) (rows rows' : List (Emitted D)) (i : Emitted D)
      → IsLater rows rows'
      → find_first (has_idempotency_key tenant k) rows ≡ some i
      → (j : Emitted D) × (find_first (has_idempotency_key tenant k) rows' ≡ some j) × IsVersion i j
  find_first-IsLater tenant k [] rows' i later found = cc
  find_first-IsLater tenant k (r ∷ rows) [] i later found = absurd later
  find_first-IsLater tenant k (r ∷ rows) (r' ∷ rows') i (version, later) found =
      let (_, tenants, _, _, _, keys, _, _, _) = version in
      let same : has_idempotency_key tenant k r' ≡ has_idempotency_key tenant k r =
        rw (tenants, keys) refl in
      elim (Bool-cases (has_idempotency_key tenant k r)) [
        | inl here ↦
            let own : r ≡ i = cc (rw here at found) in
            let here' : has_idempotency_key tenant k r' ≡ true = same ∙ here in
            (r', rw here' refl, subst (λ x. IsVersion x r') own version)
        | inr other ↦
            let other' : has_idempotency_key tenant k r' ≡ false = same ∙ other in
            let (j, found', own) =
              find_first-IsLater tenant k rows rows' i later (rw other at found) in
            (j, rw other' found', own)
      ]

  refund_invoices :
      (refunds : Bool) (status : InvoiceStatus) (i : Emitted D) (o : Office D)
      → (refund refunds status i o).invoices ≡ o.invoices
  unfolding refund
  refund_invoices true rejected i o = refl
  refund_invoices false rejected i o = refl
  refund_invoices refunds _ i o = refl

  record_poll-IsLater :
      (refunds : Bool) (r : StatusResult) (i : Emitted D) (o : Office D)
      → IsLater o.invoices (record_poll refunds r i o).invoices
  unfolding record_poll
  record_poll-IsLater refunds r i o =
      let status = map_dgii_status r.status in
      let rows = update_invoice i.id (set_status status r.message) o.invoices in
      if_rule (λ (w : Office D). IsLater o.invoices w.invoices) (status_eq status i.status)
        (λ _. IsLater-refl o.invoices)
        (λ _.
          subst (IsLater o.invoices)
            (sym (refund_invoices refunds status i (record o { invoices = rows })))
            (IsLater-update i.id (set_status status r.message) o.invoices
              (set_status-IsVersion status r.message)))

  poll_found-IsLater :
      (refunds : Bool) (dgii : Result Text StatusResult) (i : Emitted D) (o : Office D)
      → IsLater o.invoices (poll_found refunds dgii i o).office.invoices
  unfolding poll_found
  poll_found-IsLater refunds dgii i o = elim (Option-cases (given i.track_id)) [
    | inl untracked ↦ rw (untracked, poll_found) (IsLater-refl o.invoices)
    | inr (t, tracked) ↦ elim (Result-cases dgii) [
      | inl (r, answered) ↦ rw (tracked, answered, poll_found) (record_poll-IsLater refunds r i o)
      | inr (m, failed) ↦ rw (tracked, failed, poll_found) (IsLater-refl o.invoices)
    ]
  ]

  pub poll_invoice-IsLater :
      (refunds : Bool) (dgii : Result Text StatusResult) (tenant invoice : Uuid) (o : Office D)
      → IsLater o.invoices (poll_invoice refunds dgii tenant invoice o).office.invoices
  unfolding poll_invoice
  poll_invoice-IsLater refunds dgii tenant invoice o =
      elim (Option-cases (find_first (is_invoice tenant invoice) o.invoices)) [
        | inl missing ↦ rw (missing, poll_invoice) (IsLater-refl o.invoices)
        | inr (i, there) ↦ rw (there, poll_invoice) (poll_found-IsLater refunds dgii i o)
      ]

  void_row-IsLater :
      (has_usage_service : Bool) (reason : Option Text) (i : Emitted D) (o : Office D)
      → IsLater o.invoices (void_row has_usage_service reason i o).invoices
  unfolding void_row
  void_row-IsLater has_usage_service reason i o =
      let written =
        IsLater-update i.id (set_status voided (some (reason_or_default reason))) o.invoices
          (set_status-IsVersion voided (some (reason_or_default reason))) in
      if_rule (λ (w : Office D). IsLater o.invoices w.invoices)
        (not (status_eq i.status draft) && has_usage_service) (λ _. written) (λ _. written)

  pub void_invoice-IsLater :
      (transaction : Transaction (Office D) StatusError (Emitted D))
      (has_usage_service emits : Bool) (reason : Option Text) (tenant invoice : Uuid) (o : Office D)
      → IsLater o.invoices
          (void_invoice transaction has_usage_service emits reason tenant invoice o).office.invoices
  unfolding void_invoice void_found
  void_invoice-IsLater transaction has_usage_service emits reason tenant invoice o =
      elim (Option-cases (find_first (is_invoice tenant invoice) o.invoices)) [
        | inl missing ↦ rw (missing, void_invoice) (IsLater-refl o.invoices)
        | inr (i, there) ↦ elim (Result-cases (check_voidable i.status)) [
          | inl (_, may) ↦
              let after =
                void_office transaction has_usage_service emits reason tenant invoice o i there
                  may in
              subst (λ (w : Office D). IsLater o.invoices w.invoices) (sym after)
                (void_row-IsLater has_usage_service reason i o)
          | inr (e, refused) ↦
              rw (there, refused, void_invoice, void_found) (IsLater-refl o.invoices)
        ]
      ]
