-- ===== src/Queue/Processing.antt =====
-- `process` of src/queue/ecf-processing.processor.ts: sign, validate, submit to DGII and record.
pub mod Submission
pub mod Outcomes
use ecf_api.Prelude.{
  ℕ, Bool, true, false, ◌&&◌, ◌||◌, not, List, [], ◌∷◌, ◌++◌, Option, none, some, ◌==◌,
  if◌then◌else◌,
}
use ecf_api.Prelude.Text.{Text, codes}
use ecf_api.Prelude.Results.{Result, ok, err}
use ecf_api.Types.{
  InvoiceStatus, draft, queued, processing, sent, accepted, rejected, conditional, voided,
  contingency, error,
}
use ecf_api.Queue.{
  Invoice, Failure, Event, submitted_event, accepted_event, rejected_event, conditional_event,
  error_event, Effect, submit_ecf, submit_rfce, poll_enqueued, webhook, refund_requested, audited,
  World, Work, ◌>>=◌, ◌>>◌, pure, throw, call, update, note, truthy, contains, map_dgii_status,
}

-- The answer of DGII to a submission.
pub record SubmissionResult : Type 0 where
  pub status : ℕ
  pub track_id : Option Text
  pub message : Text

-- The answer of the XSD validation: no tool, valid, or the errors.
pub data XsdAnswer : Type 0 where
  unavailable valid : XsdAnswer
  invalid : List Text → XsdAnswer

-- The services around the worker, and the tag `[Job id] ` of the job. `referenced` is the status of the invoice that this one modifies,
-- if it is in the database; an answer `err` is an exception.
pub record Services : Type 0 where
  pub job_tag : Text
  pub referenced : Option InvoiceStatus
  pub certificate : Result Failure (Unit {0})
  pub sign : Text → Result Failure Text
  pub validate : Text → Result Failure XsdAnswer
  pub token : Result Failure (Unit {0})
  pub to_rfce : Text → Result Failure Text
  pub submit : Bool → Text → Result Failure SubmissionResult
  pub enqueue_poll : Result Failure (Unit {0})
  pub emit : Event → Result Failure (Unit {0})

-- `slice(0, 3).join('; ')`
abbrev first_three : List Text → Text
first_three [] = []
first_three (a ∷ []) = a
first_three (a ∷ b ∷ []) = a ++ codes "; " ++ b
first_three (a ∷ b ∷ c ∷ _) = a ++ codes "; " ++ b ++ codes "; " ++ c

-- What a job returns.
pub data Outcome : Type 0 where
  no_xml : Outcome
  final : InvoiceStatus → Outcome
  reconcile : Outcome
  done : InvoiceStatus → Outcome

-- A status that DGII has not decided.
abbrev is_pending : InvoiceStatus → Bool
is_pending processing = true
is_pending sent = true
is_pending _ = false

abbrev or_empty : Option Text → Text
or_empty (some t) = t
or_empty none = []

-- The name of a status in a message.
abbrev pub status_name : InvoiceStatus → Text
status_name draft = codes "DRAFT"
status_name queued = codes "QUEUED"
status_name processing = codes "PROCESSING"
status_name sent = codes "SENT"
status_name accepted = codes "ACCEPTED"
status_name rejected = codes "REJECTED"
status_name conditional = codes "CONDITIONAL"
status_name voided = codes "VOIDED"
status_name contingency = codes "CONTINGENCY"
status_name error = codes "ERROR"

-- The error of a modifier whose reference is not accepted.
abbrev waiting : Invoice → Text → Failure
waiting i why = record {
  status = 0;
  message =
      i.encf
      ++ codes " waiting for referenced "
      ++ or_empty i.reference_encf
      ++ codes " ("
      ++ why
      ++ codes ")";
}

module _ (s : Services) where
  -- `webhooksService.emit`
  abbrev emit_webhook : Event → Work (Unit {0})
  emit_webhook e = do note (webhook e); call (s.emit e)

  -- `emit(...).catch(() => {})`
  abbrev emit_quietly : Event → Work (Unit {0})
  emit_quietly e = note (webhook e)

  -- The branch of a document that does not satisfy its schema.
  unfoldable pub reject_invalid : List Text → Work Outcome
  reject_invalid errors = do
    update (λ i. record i {
      status = error;
      dgii_message = codes "XSD validation failed: " ++ first_three errors;
    })
    note (audited (codes "failed"))
    emit_quietly error_event
    pure (done error)

  -- Step 5: the summary of a small consumer invoice, or the document itself.
  unfoldable pub submit_document : Bool → Text → Work SubmissionResult
  submit_document true signed = do
    rfce ← call (s.to_rfce signed)
    signed_rfce ← call (s.sign rfce)
    update (λ i. record i { xml_rfce = some signed_rfce })
    note (submit_rfce signed_rfce)
    call (s.submit true signed_rfce)
  submit_document false signed = do note (submit_ecf signed); call (s.submit false signed)

  -- Step 6 and the refund of a rejected document.
  unfoldable pub record_answer : SubmissionResult → Work (Unit {0})
  record_answer r = do
    let new_status = map_dgii_status r.status
    update (λ i. record i { status = new_status; track_id = r.track_id; dgii_message = r.message })
    note (audited (codes "sent_to_dgii"))
    elim new_status [ rejected ↦ note refund_requested | _ ↦ pure tt ]

  -- Step 7.
  abbrev acknowledge : SubmissionResult → Work (Unit {0})
  acknowledge r = if truthy r.track_id then emit_webhook submitted_event else pure tt

  -- Step 8.
  abbrev schedule_poll : Bool → SubmissionResult → Work (Unit {0})
  schedule_poll is_rfce r =
      if is_pending (map_dgii_status r.status) && not (is_rfce && not (truthy r.track_id))
      then (do call s.enqueue_poll; note poll_enqueued)
      else pure tt

  -- Steps 7 and 8: the acknowledgement and the status poll.
  unfoldable pub announce : Bool → SubmissionResult → Work (Unit {0})
  announce is_rfce r = do acknowledge r; schedule_poll is_rfce r

  -- Step 9: audit and webhook of a final status.
  unfoldable pub conclude : InvoiceStatus → Work (Unit {0})
  conclude accepted = do note (audited (codes "accepted")); emit_webhook accepted_event
  conclude rejected = do note (audited (codes "rejected")); emit_webhook rejected_event
  conclude conditional = do
    note (audited (codes "conditionally_accepted"))
    emit_webhook conditional_event
  conclude _ = pure tt

  -- Steps 4 to 9.
  unfoldable pub submit_signed : Bool → Text → Work Outcome
  submit_signed is_rfce signed = do
    call s.token
    r ← submit_document is_rfce signed
    record_answer r
    announce is_rfce r
    conclude (map_dgii_status r.status)
    pure (done (map_dgii_status r.status))

  -- Step 3b, the answer of the schema validation, and what follows it.
  unfoldable pub after_validation : Bool → Text → XsdAnswer → Work Outcome
  after_validation is_rfce signed unavailable = submit_signed is_rfce signed
  after_validation is_rfce signed valid = submit_signed is_rfce signed
  after_validation is_rfce signed (invalid errors) = reject_invalid errors

  -- The signed document is saved, and then validated.
  unfoldable pub after_signing : Bool → Text → Work Outcome
  after_signing is_rfce signed = do
    update (λ i. record i { xml_signed = some signed; status = processing })
    note (audited (codes "signed"))
    answer ← call (s.validate signed)
    after_validation is_rfce signed answer

  -- The body of the `try`.
  unfoldable pub sign_and_submit : Bool → Text → Work Outcome
  sign_and_submit is_rfce xml = do
    call s.certificate
    signed ← call (s.sign xml)
    after_signing is_rfce signed

  -- `isNetworkError`
  unfoldable pub is_network_error : Failure → Bool
  is_network_error e =
      e.status == 503
      || contains (codes "DGII") e.message
      || contains (codes "ECONNREFUSED") e.message
      || contains (codes "ETIMEDOUT") e.message

  -- The `catch`: a network error enters contingency and is thrown again, for a retry of the job.
  unfoldable pub handle_failure : Failure → Work Outcome
  handle_failure e =
      if is_network_error e
      then (do
        update (λ i. record i { status = contingency; dgii_message = s.job_tag ++ e.message })
        note (audited (codes "contingency_entered"))
        throw e)
      else (do
        update (λ i. record i { status = error; dgii_message = s.job_tag ++ e.message })
        note (audited (codes "failed"))
        emit_quietly error_event
        pure (done error))

  unfoldable pub guarded : Bool → Text → Work Outcome
  guarded is_rfce xml w =
      let r = sign_and_submit is_rfce xml w in elim r.0 [ ok x ↦ r | err e ↦ handle_failure e r.1 ]

  -- The wait for the modified document, as it is found in the database.
  unfoldable pub after_lookup : Option InvoiceStatus → Invoice → Text → Work Outcome
  after_lookup none i xml = throw (waiting i (codes "not yet in DB"))
  after_lookup (some accepted) i xml = guarded i.is_rfce xml
  after_lookup (some t) i xml = throw (waiting i (codes "status: " ++ status_name t))

  unfoldable pub after_reference : Invoice → Text → Work Outcome
  after_reference i xml =
      if truthy i.reference_encf then after_lookup s.referenced i xml else guarded i.is_rfce xml

  -- The check of a document that an earlier attempt submitted.
  unfoldable pub unless_submitted : Invoice → Text → Work Outcome
  unless_submitted i xml =
      if truthy i.track_id
      then (do call s.enqueue_poll; note poll_enqueued; pure reconcile)
      else after_reference i xml

  unfoldable pub process_status : InvoiceStatus → Invoice → Text → Work Outcome
  process_status accepted i xml = pure (final accepted)
  process_status voided i xml = pure (final voided)
  process_status _ i xml = unless_submitted i xml

  unfoldable pub process_xml : Option Text → Work Outcome
  process_xml none w = (ok no_xml, w)
  process_xml (some []) w = (ok no_xml, w)
  process_xml (some (c ∷ xml)) w = process_status w.invoice.status w.invoice (c ∷ xml) w

  -- `process`, for an invoice that is found.
  unfoldable pub process : Work Outcome
  process w = process_xml w.invoice.xml_unsigned w
