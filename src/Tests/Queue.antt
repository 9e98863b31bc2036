-- ===== src/Tests/Queue.antt =====
-- Jobs of src/queue/ecf-processing.processor.ts and src/queue/status-poll.processor.ts at work.
use ecf_api.Prelude.{arith, ◌+◌, ◌≤◌, ◌≡◌, refl, ◌≢◌, ◌⊎◌, false, [], none, some}
use ecf_api.Prelude.Text.{codes}
use ecf_api.Prelude.Results.{ok, err}
use ecf_api.Types.{processing, queued, accepted, error}
use ecf_api.Queue.{map_dgii_status, Invoice, Failure, World}
use ecf_api.Queue.Processing.{
  Services, SubmissionResult, unavailable, done, guarded, process, process_xml, process_status,
  unless_submitted, after_reference, sign_and_submit, after_signing, after_validation,
  submit_signed, submit_document, record_answer, announce, conclude, handle_failure,
  is_network_error,
}
use ecf_api.Queue.Polling.{PollServices, poll}
use ecf_api.Queue.Polling.Answers.{poll-keeps_answer}
use ecf_api.Queue.Polling.Rounds.{run_polls, is_delayed, run_polls_end}
use ecf_api.Queue.Processing.Submission.{submissions, MaySubmit, process_submits}
use ecf_api.Queue.Processing.Outcomes.{Recorded, guarded-lost_webhook, process-Recorded}

abbrev invoice : Invoice
invoice = record {
  encf = codes "E310000000001";
  status = queued;
  xml_unsigned = some (codes "<ECF/>");
  xml_signed = none;
  xml_rfce = none;
  track_id = none;
  reference_encf = none;
  is_rfce = false;
  dgii_message = [];
}

abbrev before : World
before = record { invoice = invoice; log = [] }

abbrev answer : SubmissionResult
answer = record { status = 1; track_id = some (codes "t"); message = codes "Aceptado" }

abbrev redis_down : Failure
redis_down = record { status = 0; message = codes "Connection is closed." }

abbrev services : Services
services = record {
  job_tag = codes "[Job 1] ";
  referenced = none;
  certificate = ok tt;
  sign = λ xml. ok xml;
  validate = λ _. ok unavailable;
  token = ok tt;
  to_rfce = λ xml. ok xml;
  submit = λ _ _. ok answer;
  enqueue_poll = ok tt;
  emit = λ _. ok tt;
}

abbrev no_webhooks : Services
no_webhooks = record services { emit = λ _. err redis_down }

accepts : (process services before).0 ≡ ok (done accepted)
unfolding process process_xml process_status unless_submitted after_reference guarded
    sign_and_submit after_signing after_validation submit_signed submit_document record_answer
    announce conclude map_dgii_status
accepts = refl

clobbers : (process no_webhooks before).0 ≡ ok (done error)
unfolding process process_xml process_status unless_submitted after_reference guarded
    sign_and_submit after_signing after_validation submit_signed submit_document record_answer
    announce conclude map_dgii_status handle_failure is_network_error
clobbers = refl

process_submits_example :
    (submissions (process services before).1.log ≡ submissions before.log)
    ⊎ MaySubmit services before
      × (submissions (process services before).1.log ≤ submissions before.log + 1)
process_submits_example = process_submits services before

guarded-lost_webhook_example :
    (guarded no_webhooks false (codes "<ECF/>") before).1.invoice.status ≢ accepted
guarded-lost_webhook_example =
    guarded-lost_webhook no_webhooks false (codes "<ECF/>") before redis_down refl

process-Recorded_example : Recorded (done accepted) (process services before).1
process-Recorded_example = process-Recorded services before (done accepted) accepts

abbrev poll_services : PollServices
poll_services = record {
  certificate = ok tt;
  token = ok tt;
  query_tracks = ok none;
  query_status = ok answer;
  emit = λ _. err redis_down;
}

abbrev sent_before : World
sent_before = record {
  invoice = record invoice { status = processing; track_id = some (codes "t") };
  log = [];
}

poll-keeps_answer_example : (poll poll_services 20 sent_before).1.invoice.status ≡ map_dgii_status 1
unfolding map_dgii_status
poll-keeps_answer_example =
    poll-keeps_answer poll_services 20 sent_before answer (omega arith) refl refl refl refl refl
      refl

abbrev still_waiting : SubmissionResult
still_waiting = record { status = 3; track_id = none; message = [] }

run_polls_end_example :
    is_delayed
      (run_polls (λ _. record poll_services { query_status = ok still_waiting }) 22 1 sent_before)
    ≡ false
run_polls_end_example =
    run_polls_end (λ _. record poll_services { query_status = ok still_waiting }) 1 sent_before
