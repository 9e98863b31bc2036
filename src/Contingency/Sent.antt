-- ===== src/Contingency/Sent.antt =====
-- Which documents a run of src/contingency/contingency.service.ts sends to DGII.
use ecf_api.Prelude.{
  Bool, true, false, ◌&&◌, ◌≡◌, refl, sym, ap, ◌∙◌, inl, inr, List, [], ◌∷◌, ◌++◌, none, some, not,
  map, if◌then◌else◌, Bool-cases, Option-cases,
}
use mathlib.Core.List.{append-nil, append_assoc}
use ecf_api.Prelude.Text.{Text, codes}
use ecf_api.Prelude.Results.{Result, ok, err, is_ok, Result-cases}
use ecf_api.Prelude.Rows.{find_many}
use ecf_api.Types.{
  Uuid, Time, InvoiceStatus, draft, queued, sent, voided, accepted, rejected, conditional,
  processing, contingency, error,
}
use ecf_api.Invoices.{Emitted, given}
use ecf_api.Invoices.Status.{set_status}
use ecf_api.Contingency.{
  RetryServices, Desk, retry_status, update_desk, follow_up, reconcile, set_submitted, submit,
  note_sent, send_signed, resubmit, attempt, settle_attempt, is_over_limit, process_invoice,
  process_batch,
}

abbrev pub has_content : Text → Bool
has_content [] = false
has_content (c ∷ s) = true

abbrev pub is_untracked : {D : Type 0} → Emitted D → Bool
is_untracked i = elim (given i.track_id) [ none ↦ true | some _ ↦ false ]

-- The invoices that go to DGII again: still within their 72 hours, with a token, without a track id, with an
-- XML that can be signed.
abbrev pub is_resubmitted : {D : Type 0} → RetryServices D → Time → Emitted D → Bool
is_resubmitted s now i =
    not (is_over_limit now i)
    && (is_ok (s.token i)
        && (is_untracked i && (has_content i.xml_unsigned && is_ok (s.sign_xml i))))

abbrev note : {D : Type 0} → Bool → Emitted D → List Uuid → List Uuid
note b i l = if b then l ++ i.id ∷ [] else l

follow_up_sent :
    {D : Type 0} (s : RetryServices D) (st : InvoiceStatus) (i : Emitted D) (d : Desk D)
    → (follow_up s st i d).1.sent ≡ d.sent
unfolding follow_up
follow_up_sent s rejected i d = elim (Bool-cases s.refunds) [
  | inl e ↦ rw e refl
  | inr e ↦ rw e refl
]
follow_up_sent s processing i d = elim (Result-cases (s.enqueue_poll i)) [
  | inl (u, e) ↦ rw (e, follow_up) refl
  | inr (m, e) ↦ rw (e, follow_up) refl
]
follow_up_sent s draft i d = refl
follow_up_sent s queued i d = refl
follow_up_sent s sent i d = refl
follow_up_sent s accepted i d = refl
follow_up_sent s conditional i d = refl
follow_up_sent s voided i d = refl
follow_up_sent s contingency i d = refl
follow_up_sent s error i d = refl

reconcile_sent :
    {D : Type 0} (s : RetryServices D) (i : Emitted D) (d : Desk D)
    → (reconcile s i d).1.sent ≡ d.sent
unfolding reconcile
reconcile_sent s i d = elim (Result-cases (s.query_status i)) [
  | inl (r, e) ↦
      rw (e, reconcile)
        (follow_up_sent s (retry_status r.status) i
          (update_desk i.id (set_status (retry_status r.status) r.message) d))
  | inr (m, e) ↦ rw (e, reconcile) refl
]

send_signed_sent :
    {D : Type 0} (s : RetryServices D) (signed : Text) (i : Emitted D) (d : Desk D)
    → (send_signed s signed i d).1.sent ≡ d.sent ++ i.id ∷ []
unfolding send_signed
send_signed_sent s signed i d = elim (Result-cases (submit s signed i)) [
  | inl (r, e) ↦
      rw (e, send_signed)
        (follow_up_sent s (retry_status r.status) i
          (update_desk i.id (set_submitted signed r) (note_sent i.id d)))
  | inr (m, e) ↦ rw (e, send_signed) refl
]

resubmit_sent :
    {D : Type 0} (s : RetryServices D) (i : Emitted D) (d : Desk D)
    → (resubmit s i d).1.sent ≡ note (has_content i.xml_unsigned && is_ok (s.sign_xml i)) i d.sent
unfolding resubmit
resubmit_sent {D} s i d = go i.xml_unsigned
  where
    go :
        (xml : Text)
        → (elim xml as (λ _. Result Text (Unit {0}) × Desk D) [
          | [] ↦ (err (codes "No unsigned XML stored for invoice"), d)
          | _ ∷ _ ↦ elim (s.sign_xml i) [
            | err m ↦ (err m, d)
            | ok signed ↦ send_signed s signed i d
          ]
        ]).1.sent
          ≡ note (has_content xml && is_ok (s.sign_xml i)) i d.sent
    go [] = refl
    go (c ∷ xml) = elim (Result-cases (s.sign_xml i)) [
      | inl (signed, e) ↦ rw e (send_signed_sent s signed i d)
      | inr (m, e) ↦ rw e refl
    ]

attempt_sent :
    {D : Type 0} (s : RetryServices D) (i : Emitted D) (d : Desk D)
    → (attempt s i d).1.sent
      ≡ note
          (is_ok (s.token i)
            && (is_untracked i && (has_content i.xml_unsigned && is_ok (s.sign_xml i))))
          i
          d.sent
unfolding attempt
attempt_sent s i d = elim (Result-cases (s.token i)) [
  | inr (m, e) ↦ rw (e, attempt) refl
  | inl (u, e) ↦
      rw (e, attempt)
        (elim (Option-cases (given i.track_id)) [
          | inl absent ↦ rw (absent, is_untracked) (resubmit_sent s i d)
          | inr (t, there) ↦ rw (there, is_untracked) (reconcile_sent s i d)
        ])
]

settle_attempt_sent :
    {D : Type 0} (i : Emitted D) (out : Result Text (Unit {0}) × Desk D)
    → (settle_attempt i out).1.sent ≡ out.1.sent
unfolding settle_attempt
settle_attempt_sent i (ok _, d) = refl
settle_attempt_sent i (err m, d) = refl

process_invoice_sent :
    {D : Type 0} (s : RetryServices D) (now : Time) (i : Emitted D) (d : Desk D)
    → (process_invoice s now i d).1.sent ≡ note (is_resubmitted s now i) i d.sent
unfolding process_invoice
process_invoice_sent s now i d = elim (Bool-cases (is_over_limit now i)) [
  | inl late ↦ rw late refl
  | inr early ↦ rw early (settle_attempt_sent i (attempt s i d) ∙ attempt_sent s i d)
]

-- The documents that a batch sends to DGII are, in the order of the batch, exactly those of the invoices
-- without a track id that are within their 72 hours, for which there is a token, and whose stored XML is
-- not empty and can be signed. Each is sent once; one with a track id is not sent again.
pub process_batch_sent :
    {D : Type 0} (s : RetryServices D) (now : Time) (batch : List (Emitted D)) (d : Desk D)
    → (process_batch s now batch d).1.sent
      ≡ d.sent ++ map (λ i. i.id) (find_many (is_resubmitted s now) batch)
unfolding process_batch
process_batch_sent s now [] d = sym (append-nil d.sent)
process_batch_sent {D} s now (i ∷ batch) d =
    let d1 = (process_invoice s now i d).1 in
    let ids = λ (b : List (Emitted D)).
      map (λ (j : Emitted D). j.id) (find_many (is_resubmitted s now) b) in
    let ih = process_batch_sent s now batch d1 in
    let step = process_invoice_sent s now i d in
    elim (Bool-cases (is_resubmitted s now i)) [
      | inl here ↦
          let one : d1.sent ≡ d.sent ++ i.id ∷ [] = rw here at step in
          let head : ids (i ∷ batch) ≡ i.id ∷ ids batch = rw here refl in
          ih
          ∙ ap (λ l. l ++ ids batch) one
          ∙ append_assoc d.sent (i.id ∷ []) (ids batch)
          ∙ ap (λ l. d.sent ++ l) (sym head)
      | inr other ↦
          let same : d1.sent ≡ d.sent = rw other at step in
          let head : ids (i ∷ batch) ≡ ids batch = rw other refl in
          ih ∙ ap (λ l. l ++ ids batch) same ∙ ap (λ l. d.sent ++ l) (sym head)
    ]
