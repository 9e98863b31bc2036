-- ===== src/Queue/Polling/Answers.antt =====
-- The answer of DGII that a poll received is kept.
use ecf_api.Prelude.{ℕ, ◌≤◌, ◌≡◌, true, false, arith}
use ecf_api.Prelude.Results.{ok}
use ecf_api.Types.{InvoiceStatus, accepted, rejected, conditional}
use ecf_api.Queue.{Failure, World, truthy, map_dgii_status}
use ecf_api.Queue.Processing.{SubmissionResult}
use ecf_api.Queue.Polling.{
  PollServices, status_rank, is_final, is_open, record_status, announce_final, settle, after_query,
  query_dgii, handle_poll_failure, query_guarded, poll_tracked, poll_open, poll_status, poll,
  max_attempts,
}

status_rank-injective : (a b : InvoiceStatus) → status_rank a ≡ status_rank b → a ≡ b
status_rank-injective a b e = ground arith

module _ (s : PollServices) where
  record_status_lem :
      (r : SubmissionResult) (w : World)
      → ((record_status s r w).0 ≡ ok tt)
        × ((record_status s r w).1.invoice.status ≡ map_dgii_status r.status)
  unfolding record_status
  record_status_lem r w = grind (arith, status_rank-injective)

  announce_final_status :
      (t : InvoiceStatus) (w : World) → (announce_final s t w).1.invoice.status ≡ w.invoice.status
  unfolding announce_final
  announce_final_status accepted w = ground arith
  announce_final_status rejected w = ground arith
  announce_final_status conditional w = ground arith
  announce_final_status _ w = ground arith

  settle_status :
      (attempt : ℕ) (t : InvoiceStatus) (w : World)
      → (settle s attempt t w).1.invoice.status ≡ w.invoice.status
  unfolding settle
  settle_status attempt t w = grind (arith, announce_final_status)

  after_query_status :
      (attempt : ℕ) (r : SubmissionResult) (w : World)
      → (after_query s attempt r w).1.invoice.status ≡ map_dgii_status r.status
  unfolding after_query
  after_query_status attempt r w = grind (arith, settle_status, record_status_lem)

  handle_poll_failure_status :
      (attempt : ℕ) (e : Failure) (w : World)
      → is_open w.invoice.status ≡ false
      → (handle_poll_failure s attempt e w).1.invoice.status ≡ w.invoice.status
  unfolding handle_poll_failure
  handle_poll_failure_status attempt e w closed = ground arith

  -- If a poll within the allowed attempts is for a document that is processing or sent and has a
  -- tracking number, and DGII answers its query with a final status, then the document ends with that
  -- status, even if the webhook cannot be queued.
  pub poll-keeps_answer :
      (attempt : ℕ) (w : World) (r : SubmissionResult)
      → attempt ≤ max_attempts
      → is_open w.invoice.status ≡ true
      → truthy w.invoice.track_id ≡ true
      → s.certificate ≡ ok tt
      → s.token ≡ ok tt
      → s.query_status ≡ ok r
      → is_final (map_dgii_status r.status) ≡ true
      → (poll s attempt w).1.invoice.status ≡ map_dgii_status r.status
  unfolding poll poll_status poll_open poll_tracked query_guarded query_dgii
  poll-keeps_answer attempt w r early pending track cert token answer final =
      grind (arith, after_query_status, handle_poll_failure_status)
