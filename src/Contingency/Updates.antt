-- ===== src/Contingency/Updates.antt =====
-- What a run of src/contingency/contingency.service.ts does to the rows of the invoices.
use ecf_api.Prelude.{
  ℕ, Bool, true, false, ◌||◌, ◌≡◌, refl, sym, ap, ◌∙◌, ◌⊎◌, inl, inr, List, [], ◌∷◌, Option, none,
  some, ◌==◌, arith, Bool-cases, Option-cases, if_rule, ◌++◌,
}
use mathlib.Core.Path.{subst}
use ecf_api.Prelude.Text.{Text, codes}
use ecf_api.Prelude.Results.{Result, ok, err, Result-cases}
use ecf_api.Types.{
  Uuid, Time, InvoiceStatus, draft, queued, sent, voided, accepted, rejected, conditional,
  processing, contingency, error,
}
use ecf_api.Invoices.{Emitted, given}
use ecf_api.Invoices.Status.{status_eq, update_invoice, set_status}
use ecf_api.Contingency.{
  is_in, RetryServices, Desk, retry_status, update_desk, refund_desk, follow_up, reconcile,
  set_submitted, submit, note_sent, send_signed, resubmit, attempt, settle_attempt, is_over_limit,
  limit_message, process_invoice, process_batch,
}

-- The row is of one of these invoices.
abbrev pub has_id : {D : Type 0} → List (Emitted D) → Uuid → Bool
has_id [] id = false
has_id (i ∷ batch) id = id == i.id || has_id batch id

-- A row that is touched keeps its identity and leaves the queue of the tenant; another one is as it was.
abbrev pub Change : {D : Type 0} → Option Uuid → Bool → Emitted D → Emitted D → Type 0
Change tenant true r s = (s.id ≡ r.id) × (is_in contingency tenant s ≡ false)
Change tenant false r s = s ≡ r

-- Such a change in every row of a table.
abbrev pub Settled :
    {D : Type 0} → Option Uuid → (Uuid → Bool) → List (Emitted D) → List (Emitted D) → Type 0
Settled tenant touched [] [] = Unit
Settled tenant touched [] (s ∷ after) = ⊥
Settled tenant touched (r ∷ before) [] = ⊥
Settled tenant touched (r ∷ before) (s ∷ after) =
    Change tenant (touched r.id) r s × Settled tenant touched before after

Change-trans :
    {D : Type 0} (tenant : Option Uuid) (a b c : Bool) (r s t : Emitted D)
    → c ≡ (a || b)
    → Change tenant a r s
    → Change tenant b s t
    → Change tenant c r t
Change-trans tenant true true true r s t e h k = (k.0 ∙ h.0, k.1)
Change-trans tenant true false true r s t e h k =
    (ap (λ z. z.id) k ∙ h.0, subst (λ z. is_in contingency tenant z ≡ false) (sym k) h.1)
Change-trans tenant false true true r s t e h k = (k.0 ∙ ap (λ z. z.id) h, k.1)
Change-trans tenant false false false r s t e h k = k ∙ h
Change-trans tenant true b false r s t e h k = cc
Change-trans tenant false true false r s t e h k = cc
Change-trans tenant false false true r s t e h k = cc

Change-id :
    {D : Type 0} (tenant : Option Uuid) (a : Bool) (r s : Emitted D)
    → Change tenant a r s
    → s.id ≡ r.id
Change-id tenant true r s h = h.0
Change-id tenant false r s h = ap (λ z. z.id) h

pub Settled-trans :
    {D : Type 0} (tenant : Option Uuid) (p q touched : Uuid → Bool) (xs ys zs : List (Emitted D))
    → ((id : Uuid) → touched id ≡ (p id || q id))
    → Settled tenant p xs ys
    → Settled tenant q ys zs
    → Settled tenant touched xs zs
Settled-trans tenant p q touched [] [] [] e h k = tt
Settled-trans tenant p q touched [] [] (z ∷ zs) e h k = k
Settled-trans tenant p q touched [] (y ∷ ys) zs e h k = elim h [ ]
Settled-trans tenant p q touched (x ∷ xs) [] zs e h k = elim h [ ]
Settled-trans tenant p q touched (x ∷ xs) (y ∷ ys) [] e h k = k
Settled-trans tenant p q touched (x ∷ xs) (y ∷ ys) (z ∷ zs) e h k =
    let same = Change-id tenant (p x.id) x y h.0 in
    (
      Change-trans tenant (p x.id) (q x.id) (touched x.id) x y z (e x.id) h.0
          (subst (λ id. Change tenant (q id) y z) same k.0),
      Settled-trans tenant p q touched xs ys zs e h.1 k.1,
    )

-- No row is touched.
pub Settled-refl :
    {D : Type 0} (tenant : Option Uuid) (xs : List (Emitted D)) → Settled tenant (λ id. false) xs xs
Settled-refl tenant [] = tt
Settled-refl tenant (x ∷ xs) = (refl, Settled-refl tenant xs)

-- A write that takes the rows of an id out of the queue.
pub update_invoice-Settled :
    {D : Type 0} (tenant : Option Uuid) (k : Uuid) (f : Emitted D → Emitted D)
    (xs : List (Emitted D))
    → ((x : Emitted D) → (f x).id ≡ x.id)
    → ((x : Emitted D) → is_in contingency tenant (f x) ≡ false)
    → Settled tenant (λ id. id == k) xs (update_invoice k f xs)
update_invoice-Settled tenant k f [] e h = tt
update_invoice-Settled tenant k f (x ∷ xs) e h = (
  elim (Bool-cases (x.id == k)) [ inl here ↦ rw here (e x, h x) | inr other ↦ rw other refl ],
  update_invoice-Settled tenant k f xs e h,
)

retry_status_lem : (n : ℕ) → status_eq (retry_status n) contingency ≡ false
unfolding retry_status status_eq
retry_status_lem n = ground arith

leaves :
    {D : Type 0} (tenant : Option Uuid) (i : Emitted D)
    → status_eq i.status contingency ≡ false
    → is_in contingency tenant i ≡ false
leaves none i h = h
leaves (some t) i h = rw h

or_self : (b : Bool) → b ≡ (b || b)
or_self true = refl
or_self false = refl

Outcome :
    {D : Type 0} → Option Uuid → Uuid → List (Emitted D) → Result Text (Unit {0}) × Desk D → Type 0
Outcome tenant k xs (ok _, d) = Settled tenant (λ id. id == k) xs d.office.invoices
Outcome tenant k xs (err _, d) =
    (d.office.invoices ≡ xs) ⊎ Settled tenant (λ id. id == k) xs d.office.invoices

untouched :
    {D : Type 0} (tenant : Option Uuid) (k : Uuid) (m : Text) (d : Desk D)
    → Outcome tenant k d.office.invoices (err m, d)
unfolding Outcome
untouched tenant k m d = inl refl

failed :
    {D : Type 0} (tenant : Option Uuid) (k : Uuid) (xs : List (Emitted D)) (m : Text) (d : Desk D)
    → Settled tenant (λ id. id == k) xs d.office.invoices
    → Outcome tenant k xs (err m, d)
unfolding Outcome
failed tenant k xs m d h = inr h

done :
    {D : Type 0} (tenant : Option Uuid) (k : Uuid) (xs : List (Emitted D)) (u : Unit {0})
    (d : Desk D)
    → Settled tenant (λ id. id == k) xs d.office.invoices
    → Outcome tenant k xs (ok u, d)
unfolding Outcome
done tenant k xs u d h = h

refund_desk_rows :
    {D : Type 0} (refunds : Bool) (i : Emitted D) (d : Desk D)
    → (refund_desk refunds i d).office.invoices ≡ d.office.invoices
refund_desk_rows true i d = refl
refund_desk_rows false i d = refl

follow_up-Outcome :
    {D : Type 0} (tenant : Option Uuid) (s : RetryServices D) (st : InvoiceStatus) (i : Emitted D)
    (d : Desk D) (xs : List (Emitted D))
    → Settled tenant (λ id. id == i.id) xs d.office.invoices
    → Outcome tenant i.id xs (follow_up s st i d)
unfolding follow_up
follow_up-Outcome tenant s rejected i d xs h =
    done tenant i.id xs tt _
      (subst (Settled tenant (λ id. id == i.id) xs) (sym (refund_desk_rows s.refunds i d)) h)
follow_up-Outcome tenant s processing i d xs h = elim (Result-cases (s.enqueue_poll i)) [
  | inl (u, e) ↦ rw (e, follow_up) (done tenant i.id xs tt _ h)
  | inr (m, e) ↦ rw (e, follow_up) (failed tenant i.id xs m d h)
]
follow_up-Outcome tenant s draft i d xs h = done tenant i.id xs tt d h
follow_up-Outcome tenant s queued i d xs h = done tenant i.id xs tt d h
follow_up-Outcome tenant s sent i d xs h = done tenant i.id xs tt d h
follow_up-Outcome tenant s accepted i d xs h = done tenant i.id xs tt d h
follow_up-Outcome tenant s conditional i d xs h = done tenant i.id xs tt d h
follow_up-Outcome tenant s voided i d xs h = done tenant i.id xs tt d h
follow_up-Outcome tenant s contingency i d xs h = done tenant i.id xs tt d h
follow_up-Outcome tenant s error i d xs h = done tenant i.id xs tt d h

reconcile-Outcome :
    {D : Type 0} (tenant : Option Uuid) (s : RetryServices D) (i : Emitted D) (d : Desk D)
    → Outcome tenant i.id d.office.invoices (reconcile s i d)
unfolding reconcile
reconcile-Outcome tenant s i d = elim (Result-cases (s.query_status i)) [
  | inr (m, e) ↦ rw (e, reconcile) (untouched tenant i.id m d)
  | inl (r, e) ↦
      rw (e, reconcile)
        (follow_up-Outcome tenant s (retry_status r.status) i
          (update_desk i.id (set_status (retry_status r.status) r.message) d) d.office.invoices
          (update_invoice-Settled tenant i.id (set_status (retry_status r.status) r.message)
            d.office.invoices (λ x. refl) (λ x. leaves tenant _ (retry_status_lem r.status))))
]

send_signed-Outcome :
    {D : Type 0} (tenant : Option Uuid) (s : RetryServices D) (signed : Text) (i : Emitted D)
    (d : Desk D)
    → Outcome tenant i.id d.office.invoices (send_signed s signed i d)
unfolding send_signed
send_signed-Outcome tenant s signed i d = elim (Result-cases (submit s signed i)) [
  | inr (m, e) ↦ rw (e, send_signed) (untouched tenant i.id m (note_sent i.id d))
  | inl (r, e) ↦
      rw (e, send_signed)
        (follow_up-Outcome tenant s (retry_status r.status) i
          (update_desk i.id (set_submitted signed r) (note_sent i.id d)) d.office.invoices
          (update_invoice-Settled tenant i.id (set_submitted signed r) d.office.invoices (λ x. refl)
            (λ x. leaves tenant _ (retry_status_lem r.status))))
]

resubmit-Outcome :
    {D : Type 0} (tenant : Option Uuid) (s : RetryServices D) (i : Emitted D) (d : Desk D)
    → Outcome tenant i.id d.office.invoices (resubmit s i d)
unfolding resubmit
resubmit-Outcome tenant s i d = go i.xml_unsigned
  where
    go :
        (xml : Text)
        → Outcome tenant i.id d.office.invoices (elim xml [
          | [] ↦ (err (codes "No unsigned XML stored for invoice"), d)
          | _ ∷ _ ↦ elim (s.sign_xml i) [
            | err m ↦ (err m, d)
            | ok signed ↦ send_signed s signed i d
          ]
        ])
    go [] = untouched tenant i.id _ d
    go (c ∷ xml) = elim (Result-cases (s.sign_xml i)) [
      | inr (m, e) ↦ rw e (untouched tenant i.id m d)
      | inl (signed, e) ↦ rw e (send_signed-Outcome tenant s signed i d)
    ]

attempt-Outcome :
    {D : Type 0} (tenant : Option Uuid) (s : RetryServices D) (i : Emitted D) (d : Desk D)
    → Outcome tenant i.id d.office.invoices (attempt s i d)
unfolding attempt
attempt-Outcome tenant s i d = elim (Result-cases (s.token i)) [
  | inr (m, e) ↦ rw (e, attempt) (untouched tenant i.id m d)
  | inl (u, e) ↦
      rw (e, attempt)
        (elim (Option-cases (given i.track_id)) [
          | inl none_there ↦ rw none_there (resubmit-Outcome tenant s i d)
          | inr (t, there) ↦ rw there (reconcile-Outcome tenant s i d)
        ])
]

error_leaves :
    {D : Type 0} (tenant : Option Uuid) (k : Uuid) (m : Option Text) (xs : List (Emitted D))
    → Settled tenant (λ id. id == k) xs (update_invoice k (set_status error m) xs)
unfolding status_eq
error_leaves tenant k m xs =
    update_invoice-Settled tenant k (set_status error m) xs (λ x. refl) (λ x. leaves tenant _ refl)

settle_attempt-Settled :
    {D : Type 0} (tenant : Option Uuid) (i : Emitted D) (xs : List (Emitted D))
    (out : Result Text (Unit {0}) × Desk D)
    → Outcome tenant i.id xs out
    → Settled tenant (λ id. id == i.id) xs (settle_attempt i out).1.office.invoices
unfolding settle_attempt Outcome
settle_attempt-Settled tenant i xs (ok _, d) h = h
settle_attempt-Settled tenant i xs (err m, d) (inl same) =
    subst
      (λ ys.
        Settled tenant (λ id. id == i.id) ys
          (update_invoice i.id (set_status error (some (codes "Contingency retry failed: " ++ m)))
            d.office.invoices))
      same (error_leaves tenant i.id _ d.office.invoices)
settle_attempt-Settled tenant i xs (err m, d) (inr h) =
    Settled-trans tenant (λ id. id == i.id) (λ id. id == i.id) (λ id. id == i.id) xs
      d.office.invoices _ (λ id. or_self (id == i.id)) h
      (error_leaves tenant i.id (some (codes "Contingency retry failed: " ++ m)) d.office.invoices)

process_invoice-Settled :
    {D : Type 0} (tenant : Option Uuid) (s : RetryServices D) (now : Time) (i : Emitted D)
    (d : Desk D)
    → Settled tenant
        (λ id. id == i.id)
        d.office.invoices
        (process_invoice s now i d).1.office.invoices
unfolding process_invoice
process_invoice-Settled {D} tenant s now i d =
    if_rule
      (λ (out : Bool × Desk D).
        Settled tenant (λ id. id == i.id) d.office.invoices out.1.office.invoices)
      (is_over_limit now i)
      (λ late. error_leaves tenant i.id (some limit_message) d.office.invoices)
      (λ early.
        settle_attempt-Settled tenant i d.office.invoices (attempt s i d)
          (attempt-Outcome tenant s i d))

-- Every invoice of the batch leaves the queue, and no other row changes.
pub process_batch-Settled :
    {D : Type 0} (tenant : Option Uuid) (s : RetryServices D) (now : Time)
    (batch : List (Emitted D)) (d : Desk D)
    → Settled tenant
        (has_id batch)
        d.office.invoices
        (process_batch s now batch d).1.office.invoices
unfolding process_batch
process_batch-Settled tenant s now [] d = Settled-refl tenant d.office.invoices
process_batch-Settled tenant s now (i ∷ batch) d =
    Settled-trans tenant (λ id. id == i.id) (has_id batch) (has_id (i ∷ batch)) d.office.invoices
      (process_invoice s now i d).1.office.invoices _ (λ id. refl)
      (process_invoice-Settled tenant s now i d)
      (process_batch-Settled tenant s now batch (process_invoice s now i d).1)
