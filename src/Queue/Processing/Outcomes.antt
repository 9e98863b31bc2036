-- ===== src/Queue/Processing/Outcomes.antt =====
-- The status that a job leaves in the database, against what it returns and what DGII answered.
use ecf_api.Prelude.{
  ◌≡◌, refl, ◌≢◌, [], ◌∷◌, Bool, true, false, List, Option, none, some, arith, if◌then◌else◌,
}
use ecf_api.Prelude.Text.{Text}
use ecf_api.Prelude.Results.{ok, err}
use ecf_api.Types.{InvoiceStatus, accepted, voided}
use ecf_api.Queue.{Invoice, Failure, accepted_event, World, Work, truthy, map_dgii_status}
use ecf_api.Queue.Processing.{
  Services, Outcome, SubmissionResult, record_answer, announce, conclude, submit_signed,
  reject_invalid, sign_and_submit, after_validation, after_signing, handle_failure, guarded,
  after_lookup, after_reference, unless_submitted, process_status, process, process_xml, done,
  no_xml, final, reconcile, XsdAnswer, unavailable, valid, invalid,
}

-- What a step returns is related by `P` to the world that it leaves.
abbrev Ends : {A : Type 0} → (A → World → Type 0) → Work A → Type 0
Ends {A} P m = (w : World) (y : A) → (m w).0 ≡ ok y → P y (m w).1

if-Ends :
    {A : Type 0} (P : A → World → Type 0) (b : Bool) (m n : Work A)
    → Ends P m
    → Ends P n
    → Ends P (if b then m else n)
if-Ends P true m n first second = first
if-Ends P false m n first second = second

module _ (P : Outcome → World → Type 0) (s : Services)
    (submits : (b : Bool) (x : Text) → Ends P (submit_signed s b x))
    (rejects : (x : List Text) → Ends P (reject_invalid s x)) where
  after_validation-Ends :
      (b : Bool) (x : Text) (answer : XsdAnswer) → Ends P (after_validation s b x answer)
  unfolding after_validation
  after_validation-Ends b x unavailable w y returns = submits b x w y returns
  after_validation-Ends b x valid w y returns = submits b x w y returns
  after_validation-Ends b x (invalid why) w y returns = rejects why w y returns

  after_signing-Ends : (b : Bool) (x : Text) → Ends P (after_signing s b x)
  unfolding after_signing
  after_signing-Ends b x w y returns = grind (arith, after_validation-Ends)

  sign_and_submit-Ends : (b : Bool) (x : Text) → Ends P (sign_and_submit s b x)
  unfolding sign_and_submit
  sign_and_submit-Ends b x w y returns = grind (arith, after_signing-Ends)

module _ (s : Services) where
  handle_failure_status :
      (e : Failure) (w : World) → (handle_failure s e w).1.invoice.status ≢ accepted
  unfolding handle_failure
  handle_failure_status e w = ground arith

  reject_invalid_status :
      (x : List Text) (w : World) → (reject_invalid s x w).1.invoice.status ≢ accepted
  unfolding reject_invalid
  reject_invalid_status e w = ground arith

  record_answer_status :
      (r : SubmissionResult) (w : World)
      → (record_answer s r w).1.invoice.status ≡ map_dgii_status r.status
  unfolding record_answer
  record_answer_status r w = ground arith

  announce_status :
      (b : Bool) (r : SubmissionResult) (w : World)
      → (announce s b r w).1.invoice.status ≡ w.invoice.status
  unfolding announce
  announce_status b r w = ground arith

  conclude_status :
      (t : InvoiceStatus) (w : World) → (conclude s t w).1.invoice.status ≡ w.invoice.status
  unfolding conclude
  conclude_status accepted w = ground arith
  conclude_status _ w = ground arith

  submit_signed_status :
      (b : Bool) (x : Text) (w : World) (e : Failure) (y : Outcome)
      → s.emit accepted_event ≡ err e
      → (submit_signed s b x w).0 ≡ ok y
      → (submit_signed s b x w).1.invoice.status ≢ accepted
  unfolding submit_signed conclude
  submit_signed_status b x w e y lost succeeds =
      grind (arith, record_answer_status, announce_status, conclude_status)

  sign_and_submit_status :
      (b : Bool) (x : Text) (w : World) (e : Failure) (y : Outcome)
      → s.emit accepted_event ≡ err e
      → (sign_and_submit s b x w).0 ≡ ok y
      → (sign_and_submit s b x w).1.invoice.status ≢ accepted
  sign_and_submit_status b x w e y lost =
      sign_and_submit-Ends (λ _ v. v.invoice.status ≢ accepted) s
        (λ c z v u. submit_signed_status c z v e u lost) (λ z v _ _. reject_invalid_status z v) b x
        w y

  -- If the webhook of an acceptance cannot be queued, then the `try` and its `catch` never leave the
  -- invoice accepted, whatever DGII answers.
  pub guarded-lost_webhook :
      (b : Bool) (x : Text) (w : World) (e : Failure)
      → s.emit accepted_event ≡ err e
      → (guarded s b x w).1.invoice.status ≢ accepted
  unfolding guarded
  guarded-lost_webhook b x w e lost = grind (arith, sign_and_submit_status, handle_failure_status)

-- A returned status is the one in the database.
abbrev pub Recorded : Outcome → World → Type 0
Recorded (done t) w = w.invoice.status ≡ t
Recorded no_xml w = Unit
Recorded (final t) w = w.invoice.status ≡ t
Recorded reconcile w = Unit

module _ (s : Services) where
  submit_signed-Recorded : (b : Bool) (x : Text) → Ends Recorded (submit_signed s b x)
  unfolding submit_signed
  submit_signed-Recorded b x w y returns =
      grind (arith, record_answer_status, announce_status, conclude_status)

  reject_invalid-Recorded : (x : List Text) → Ends Recorded (reject_invalid s x)
  unfolding reject_invalid
  reject_invalid-Recorded x w y returns = ground arith

  handle_failure-Recorded : (e : Failure) → Ends Recorded (handle_failure s e)
  unfolding handle_failure
  handle_failure-Recorded e w y returns = ground arith

  sign_and_submit-Recorded : (b : Bool) (x : Text) → Ends Recorded (sign_and_submit s b x)
  sign_and_submit-Recorded =
      sign_and_submit-Ends Recorded s submit_signed-Recorded reject_invalid-Recorded

  guarded-Recorded : (b : Bool) (x : Text) → Ends Recorded (guarded s b x)
  unfolding guarded
  guarded-Recorded b x w y returns =
      grind (arith, sign_and_submit-Recorded, handle_failure-Recorded)

  after_lookup-Recorded :
      (found : Option InvoiceStatus) (i : Invoice) (x : Text)
      → Ends Recorded (after_lookup s found i x)
  unfolding after_lookup
  after_lookup-Recorded none i x w y returns = ground arith
  after_lookup-Recorded (some accepted) i x w y returns = guarded-Recorded i.is_rfce x w y returns
  after_lookup-Recorded (some _) i x w y returns = ground arith

  unless_submitted-Recorded : (i : Invoice) (x : Text) → Ends Recorded (unless_submitted s i x)
  unfolding unless_submitted after_reference
  unless_submitted-Recorded i x =
      if-Ends Recorded (truthy i.track_id) _ _ (λ w y returns. ground arith)
        (if-Ends Recorded (truthy i.reference_encf) _ _ (after_lookup-Recorded s.referenced i x)
          (guarded-Recorded i.is_rfce x))

  process_status-Recorded :
      (t : InvoiceStatus) (i : Invoice) (x : Text) (w : World) (y : Outcome)
      → w.invoice.status ≡ t
      → (process_status s t i x w).0 ≡ ok y
      → Recorded y (process_status s t i x w).1
  unfolding process_status
  process_status-Recorded accepted i x w y now returns = ground arith
  process_status-Recorded voided i x w y now returns = ground arith
  process_status-Recorded _ i x w y now returns = unless_submitted-Recorded i x w y returns

  process_xml-Recorded : (xml : Option Text) → Ends Recorded (process_xml s xml)
  unfolding process_xml
  process_xml-Recorded none w y returns = ground arith
  process_xml-Recorded (some []) w y returns = ground arith
  process_xml-Recorded (some (c ∷ xml)) w y returns =
      process_status-Recorded w.invoice.status w.invoice (c ∷ xml) w y refl returns

  -- A job that returns the status of a submission, or the final status that it found, leaves the
  -- invoice with that status in the database.
  pub process-Recorded :
      (w : World) (y : Outcome) → (process s w).0 ≡ ok y → Recorded y (process s w).1
  unfolding process
  process-Recorded w y returns = process_xml-Recorded w.invoice.xml_unsigned w y returns
