-- ===== src/Queue/Processing/Submission.antt =====
-- When a job submits a document to DGII.
use ecf_api.Prelude.{
  ℕ, suc, ◌+◌, ◌≤◌, ◌≡◌, refl, ◌≢◌, ◌⊎◌, inl, inr, Bool, true, false, List, [], ◌∷◌, Option, none,
  some, arith,
}
use ecf_api.Prelude.Text.{Text}
use ecf_api.Types.{InvoiceStatus, accepted, voided}
use ecf_api.Queue.{
  Invoice, Failure, Effect, submit_ecf, submit_rfce, poll_enqueued, webhook, refund_requested,
  audited, World, Work, truthy,
}
use ecf_api.Queue.Processing.{
  Services, SubmissionResult, submit_document, record_answer, announce, conclude, submit_signed,
  reject_invalid, sign_and_submit, after_validation, after_signing, XsdAnswer, unavailable, valid,
  invalid, handle_failure, guarded, after_lookup, after_reference, unless_submitted, process_status,
  process, process_xml,
}

-- The submissions of a log.
abbrev pub submissions : List Effect → ℕ
submissions [] = 0
submissions (submit_ecf _ ∷ log) = suc (submissions log)
submissions (submit_rfce _ ∷ log) = suc (submissions log)
submissions (poll_enqueued ∷ log) = submissions log
submissions (webhook _ ∷ log) = submissions log
submissions (refund_requested ∷ log) = submissions log
submissions (audited _ ∷ log) = submissions log

-- A step that submits nothing.
abbrev Quiet : {A : Type 0} → Work A → Type 0
Quiet m = (w : World) → submissions (m w).1.log ≡ submissions w.log

-- A step that submits once at most.
abbrev Once : {A : Type 0} → Work A → Type 0
Once m = (w : World) → submissions (m w).1.log ≤ submissions w.log + 1

module _ (s : Services) where
  submit_document-Once : (b : Bool) (x : Text) → Once (submit_document s b x)
  unfolding submit_document
  submit_document-Once true x w = ground arith
  submit_document-Once false x w = ground arith

  record_answer-Quiet : (r : SubmissionResult) → Quiet (record_answer s r)
  unfolding record_answer
  record_answer-Quiet r w = ground arith

  announce-Quiet : (b : Bool) (r : SubmissionResult) → Quiet (announce s b r)
  unfolding announce
  announce-Quiet b r w = ground arith

  conclude-Quiet : (t : InvoiceStatus) → Quiet (conclude s t)
  unfolding conclude
  conclude-Quiet accepted w = ground arith
  conclude-Quiet _ w = ground arith

  reject_invalid-Quiet : (x : List Text) → Quiet (reject_invalid s x)
  unfolding reject_invalid
  reject_invalid-Quiet x w = ground arith

  handle_failure-Quiet : (e : Failure) → Quiet (handle_failure s e)
  unfolding handle_failure
  handle_failure-Quiet e w = ground arith

  submit_signed-Once : (b : Bool) (x : Text) → Once (submit_signed s b x)
  unfolding submit_signed
  submit_signed-Once b x w =
      grind (arith, submit_document-Once, record_answer-Quiet, announce-Quiet, conclude-Quiet)

  after_validation-Once :
      (b : Bool) (x : Text) (answer : XsdAnswer) → Once (after_validation s b x answer)
  unfolding after_validation
  after_validation-Once b x unavailable w = submit_signed-Once b x w
  after_validation-Once b x valid w = submit_signed-Once b x w
  after_validation-Once b x (invalid why) w = grind (arith, reject_invalid-Quiet)

  after_signing-Once : (b : Bool) (x : Text) → Once (after_signing s b x)
  unfolding after_signing
  after_signing-Once b x w = grind (arith, after_validation-Once)

  sign_and_submit-Once : (b : Bool) (x : Text) → Once (sign_and_submit s b x)
  unfolding sign_and_submit
  sign_and_submit-Once b x w = grind (arith, after_signing-Once)

  guarded-Once : (b : Bool) (x : Text) → Once (guarded s b x)
  unfolding guarded
  guarded-Once b x w = grind (arith, sign_and_submit-Once, handle_failure-Quiet)

-- The invoice of `w` may go to DGII: it is in no final state, an earlier attempt left no tracking
-- number, and the document that it modifies, if any, is accepted.
abbrev pub MaySubmit : Services → World → Type 0
MaySubmit s w =
    w.invoice.status ≢ accepted
    × w.invoice.status ≢ voided
    × truthy w.invoice.track_id ≡ false
    × (truthy w.invoice.reference_encf ≡ false ⊎ s.referenced ≡ some accepted)

after_lookup_submits :
    (s : Services) (found : Option InvoiceStatus) (i : Invoice) (xml : Text) (w : World)
    → submissions (after_lookup s found i xml w).1.log ≡ submissions w.log
      ⊎ found ≡ some accepted
        × submissions (after_lookup s found i xml w).1.log ≤ submissions w.log + 1
unfolding after_lookup
after_lookup_submits s none i xml w = inl refl
after_lookup_submits s (some accepted) i xml w = inr (refl, guarded-Once s i.is_rfce xml w)
after_lookup_submits s (some _) i xml w = inl refl

after_reference_submits :
    (s : Services) (i : Invoice) (xml : Text) (w : World)
    → submissions (after_reference s i xml w).1.log ≡ submissions w.log
      ⊎ (truthy i.reference_encf ≡ false ⊎ s.referenced ≡ some accepted)
        × submissions (after_reference s i xml w).1.log ≤ submissions w.log + 1
unfolding after_reference
after_reference_submits s i xml w = grind (arith, after_lookup_submits, guarded-Once)

-- One run of a job sends nothing to DGII, or at most one document, and then only for an invoice that is
-- neither accepted nor voided, that has no tracking number of an earlier run, and that modifies no other
-- invoice or one that is found accepted. A retry of the job is a further run.
pub process_submits :
    (s : Services) (w : World)
    → submissions (process s w).1.log ≡ submissions w.log
      ⊎ MaySubmit s w × submissions (process s w).1.log ≤ submissions w.log + 1
unfolding process process_xml process_status unless_submitted
process_submits s w = grind (arith, after_reference_submits)
