-- ===== src/Queue/Polling.antt =====
-- `process` of src/queue/status-poll.processor.ts: one poll of a submitted document, which ends the job
-- or delays it. The signal `DelayedError` passes the `catch` untouched and is the last thing that a
-- body does, so that it is the outcome `delayed` here.
pub mod Answers
pub mod Rounds
use ecf_api.Prelude.{
  ℕ, suc, ◌+◌, ◌-◌, Bool, true, false, ◌||◌, List, [], ◌∷◌, ◌++◌, Option, none, some, ltb, ◌==◌,
  min, if◌then◌else◌, get_elem?,
}
use ecf_api.Prelude.Text.{Text, codes, to_string}
use ecf_api.Prelude.Results.{Result, ok, err}
use ecf_api.Types.{
  InvoiceStatus, draft, queued, processing, sent, accepted, rejected, conditional, voided,
  contingency, error,
}
use ecf_api.Queue.{
  Invoice, Failure, Event, accepted_event, rejected_event, conditional_event, webhook,
  refund_requested, audited, World, Work, ◌>>=◌, ◌>>◌, pure, call, update, note, truthy, contains,
  map_dgii_status,
}
use ecf_api.Queue.Processing.{SubmissionResult, status_name}

-- The services around one poll. `query_tracks` is the tracking number that is read out of the answer
-- of DGII, if there is one.
pub record PollServices : Type 0 where
  pub certificate : Result Failure (Unit {0})
  pub token : Result Failure (Unit {0})
  pub query_tracks : Result Failure (Option Text)
  pub query_status : Result Failure SubmissionResult
  pub emit : Event → Result Failure (Unit {0})

-- How a poll ends. `delayed ms attempt` runs the job again after `ms`, with that attempt.
pub data PollOutcome : Type 0 where
  already_final : InvoiceStatus → PollOutcome
  no_track_id : PollOutcome
  timed_out : ℕ → PollOutcome
  delayed : ℕ → ℕ → PollOutcome
  finished : InvoiceStatus → PollOutcome
  failed : PollOutcome

abbrev pub max_attempts : ℕ
max_attempts = 20

-- `getBackoffDelay`, for an attempt from 1.
unfoldable pub backoff_delay : ℕ → ℕ
backoff_delay attempt =
    let delays = 30000 ∷ 60000 ∷ 120000 ∷ 300000 ∷ 600000 ∷ 1800000 ∷ 3600000 ∷ [] in
    elim (get_elem? delays (min (attempt - 1) 6)) [ none ↦ 0 | some ms ↦ ms ]

-- A number for each status, for the comparison of two.
abbrev pub status_rank : InvoiceStatus → ℕ
status_rank draft = 0
status_rank queued = 1
status_rank processing = 2
status_rank sent = 3
status_rank accepted = 4
status_rank rejected = 5
status_rank conditional = 6
status_rank voided = 7
status_rank contingency = 8
status_rank error = 9

-- `isFinal`
abbrev pub is_final : InvoiceStatus → Bool
is_final accepted = true
is_final rejected = true
is_final conditional = true
is_final _ = false

-- The states that the `catch` may still overwrite.
abbrev pub is_open : InvoiceStatus → Bool
is_open processing = true
is_open sent = true
is_open _ = false

module _ (s : PollServices) where
  -- The reconciliation of a document without a tracking number, after its query.
  unfoldable pub after_recovery : ℕ → Result Failure (Option Text) → Work PollOutcome
  after_recovery attempt (ok (some (c ∷ t))) = do
    update (λ i. record i { track_id = some (c ∷ t) })
    pure (delayed 5000 attempt)
  after_recovery attempt _ = do
    update (λ i. record i {
      status = error;
      dgii_message =
          codes "No trackId disponible y reconciliación DGII falló. Verifique manualmente.";
    })
    note (audited (codes "failed"))
    pure no_track_id

  unfoldable pub reconcile_tracks : ℕ → Work PollOutcome
  reconcile_tracks attempt w =
      let asked = (do call s.certificate; call s.token; call s.query_tracks) w in
      after_recovery attempt asked.0 asked.1

  -- The poll after the last attempt.
  unfoldable pub time_out : ℕ → Work PollOutcome
  time_out attempt = do
    update (λ i. record i {
      status = error;
      dgii_message =
          codes "Status polling timed out after "
          ++ to_string (attempt - 1)
          ++ codes " attempts. Last status: "
          ++ status_name i.status;
    })
    note (audited (codes "failed"))
    pure (timed_out (attempt - 1))

  -- The update, if the status changed.
  unfoldable pub record_status : SubmissionResult → Work (Unit {0})
  record_status r w =
      let new_status = map_dgii_status r.status in
      if status_rank new_status == status_rank w.invoice.status
      then (ok tt, w)
      else update (λ i. record i { status = new_status; dgii_message = r.message }) w

  -- Refund, audit and webhook of a final status.
  unfoldable pub announce_final : InvoiceStatus → Work (Unit {0})
  announce_final accepted = do
    note (audited (codes "accepted"))
    note (webhook accepted_event)
    call (s.emit accepted_event)
  announce_final rejected = do
    note refund_requested
    note (audited (codes "rejected"))
    note (webhook rejected_event)
    call (s.emit rejected_event)
  announce_final conditional = do
    note (audited (codes "conditionally_accepted"))
    note (webhook conditional_event)
    call (s.emit conditional_event)
  announce_final _ = pure tt

  unfoldable pub settle : ℕ → InvoiceStatus → Work PollOutcome
  settle attempt t =
      if is_final t
      then (do announce_final t; pure (finished t))
      else pure (delayed (backoff_delay attempt) (attempt + 1))

  unfoldable pub after_query : ℕ → SubmissionResult → Work PollOutcome
  after_query attempt r = do record_status r; settle attempt (map_dgii_status r.status)

  -- The body of the `try`.
  unfoldable pub query_dgii : ℕ → Work PollOutcome
  query_dgii attempt = do
    call s.certificate
    call s.token
    r ← call s.query_status
    after_query attempt r

  -- The `catch`: a network error delays the job; any other marks a document that is still open.
  unfoldable pub handle_poll_failure : ℕ → Failure → Work PollOutcome
  handle_poll_failure attempt e =
      if contains (codes "ECONNREFUSED") e.message || contains (codes "ETIMEDOUT") e.message
      then pure (delayed (backoff_delay attempt) (attempt + 1))
      else (do
        update (λ i.
            if is_open i.status
            then record i {
              status = error;
              dgii_message = codes "Status poll failed (non-network): " ++ e.message;
            }
            else i)
        note (audited (codes "failed"))
        pure failed)

  unfoldable pub query_guarded : ℕ → Work PollOutcome
  query_guarded attempt w =
      let r = query_dgii attempt w in
      elim r.0 [ ok x ↦ r | err e ↦ handle_poll_failure attempt e r.1 ]

  unfoldable pub poll_tracked : ℕ → Work PollOutcome
  poll_tracked attempt =
      if ltb max_attempts attempt then time_out attempt else query_guarded attempt

  unfoldable pub poll_open : ℕ → Work PollOutcome
  poll_open attempt w =
      if truthy w.invoice.track_id then poll_tracked attempt w else reconcile_tracks attempt w

  unfoldable pub poll_status : InvoiceStatus → ℕ → Work PollOutcome
  poll_status accepted attempt = pure (already_final accepted)
  poll_status rejected attempt = pure (already_final rejected)
  poll_status voided attempt = pure (already_final voided)
  poll_status _ attempt = poll_open attempt

  -- `process`, for an invoice that is found.
  unfoldable pub poll : ℕ → Work PollOutcome
  poll attempt w = poll_status w.invoice.status attempt w
