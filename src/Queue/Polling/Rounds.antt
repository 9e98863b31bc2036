-- ===== src/Queue/Polling/Rounds.antt =====
-- The polling of a document ends.
use ecf_api.Prelude.{
  ◌≢◌, ℕ, zero, suc, ◌+◌, ◌-◌, ◌≤◌, ◌<◌, ◌≡◌, refl, Bool, true, false, ltb, arith, if◌then◌else◌,
}
use ecf_api.Prelude.Results.{Result, ok}
use ecf_api.Types.{InvoiceStatus, accepted, rejected, conditional, voided}
use ecf_api.Queue.{Failure, World, truthy}
use ecf_api.Queue.Processing.{SubmissionResult}
use ecf_api.Queue.Polling.{
  PollServices, PollOutcome, delayed, record_status, announce_final, settle, after_query,
  query_dgii, handle_poll_failure, query_guarded, poll_tracked, poll_open, poll_status, poll,
  max_attempts, after_recovery, reconcile_tracks, time_out,
}

-- The polls that can still be delayed: one for each attempt left, and one for a recovered number.
unfoldable pub rounds_left : ℕ → World → ℕ
rounds_left attempt w = (21 - attempt) + (if truthy w.invoice.track_id then 0 else 1)

module _ (s : PollServices) where
  record_status_track :
      (r : SubmissionResult) (w : World)
      → (record_status s r w).1.invoice.track_id ≡ w.invoice.track_id
  unfolding record_status
  record_status_track r w = ground arith

  announce_final_track :
      (t : InvoiceStatus) (w : World)
      → (announce_final s t w).1.invoice.track_id ≡ w.invoice.track_id
  unfolding announce_final
  announce_final_track accepted w = ground arith
  announce_final_track rejected w = ground arith
  announce_final_track conditional w = ground arith
  announce_final_track _ w = ground arith

  after_query_track :
      (attempt : ℕ) (r : SubmissionResult) (w : World)
      → (after_query s attempt r w).1.invoice.track_id ≡ w.invoice.track_id
  unfolding after_query settle
  after_query_track attempt r w = grind (arith, announce_final_track, record_status_track)

  -- A poll that asks DGII, and is delayed, has moved to the next attempt with the same number.
  query_guarded_next :
      (attempt : ℕ) (w : World) (ms n : ℕ)
      → (query_guarded s attempt w).0 ≡ ok (delayed ms n)
      → (n ≡ attempt + 1) × ((query_guarded s attempt w).1.invoice.track_id ≡ w.invoice.track_id)
  unfolding query_guarded query_dgii after_query settle handle_poll_failure
  query_guarded_next attempt w ms n later = grind (arith, record_status_track, announce_final_track)

  reconcile_tracks_next :
      (attempt : ℕ) (w : World) (ms n : ℕ)
      → (reconcile_tracks s attempt w).0 ≡ ok (delayed ms n)
      → (n ≡ attempt) × (truthy (reconcile_tracks s attempt w).1.invoice.track_id ≡ true)
  unfolding reconcile_tracks after_recovery
  reconcile_tracks_next attempt w ms n later = ground arith

  tracked_next :
      (attempt : ℕ) (w : World) (ms n : ℕ)
      → truthy w.invoice.track_id ≡ true
      → attempt ≤ max_attempts
      → (query_guarded s attempt w).0 ≡ ok (delayed ms n)
      → rounds_left n (query_guarded s attempt w).1 < rounds_left attempt w
  unfolding rounds_left
  tracked_next attempt w ms n track early later =
      let (next, kept) = query_guarded_next attempt w ms n later in
      rw (next, kept, track) (omega arith)

  poll_tracked_next :
      (attempt : ℕ) (w : World) (ms n : ℕ)
      → truthy w.invoice.track_id ≡ true
      → (poll_tracked s attempt w).0 ≡ ok (delayed ms n)
      → rounds_left n (poll_tracked s attempt w).1 < rounds_left attempt w
  unfolding poll_tracked time_out
  poll_tracked_next attempt w ms n track later = choose (ltb max_attempts attempt) refl later
    where
      choose :
          (b : Bool)
          → ltb max_attempts attempt ≡ b
          → ((if b then time_out s attempt else query_guarded s attempt) w).0 ≡ ok (delayed ms n)
          → rounds_left n ((if b then time_out s attempt else query_guarded s attempt) w).1
            < rounds_left attempt w
      choose true late e = ground arith
      choose false early e = tracked_next attempt w ms n track (ground arith) e

  untracked_next :
      (attempt : ℕ) (w : World) (ms n : ℕ)
      → truthy w.invoice.track_id ≡ false
      → (reconcile_tracks s attempt w).0 ≡ ok (delayed ms n)
      → rounds_left n (reconcile_tracks s attempt w).1 < rounds_left attempt w
  unfolding rounds_left
  untracked_next attempt w ms n track later =
      let (same, found) = reconcile_tracks_next attempt w ms n later in
      rw (same, found, track) (omega arith)

  poll_open_next :
      (attempt : ℕ) (w : World) (ms n : ℕ)
      → (poll_open s attempt w).0 ≡ ok (delayed ms n)
      → rounds_left n (poll_open s attempt w).1 < rounds_left attempt w
  unfolding poll_open
  poll_open_next attempt w ms n later = choose (truthy w.invoice.track_id) refl later
    where
      choose :
          (b : Bool)
          → truthy w.invoice.track_id ≡ b
          → (if b then poll_tracked s attempt w else reconcile_tracks s attempt w).0
            ≡ ok (delayed ms n)
          → rounds_left n (if b then poll_tracked s attempt w else reconcile_tracks s attempt w).1
            < rounds_left attempt w
      choose true track e = poll_tracked_next attempt w ms n track e
      choose false track e = untracked_next attempt w ms n track e

  poll_next :
      (t : InvoiceStatus) (attempt : ℕ) (w : World) (ms n : ℕ)
      → (poll_status s t attempt w).0 ≡ ok (delayed ms n)
      → rounds_left n (poll_status s t attempt w).1 < rounds_left attempt w
  unfolding poll_status
  poll_next accepted attempt w ms n later = cc
  poll_next rejected attempt w ms n later = cc
  poll_next voided attempt w ms n later = cc
  poll_next _ attempt w ms n later = poll_open_next attempt w ms n later

-- What follows one poll: the job runs again if it was delayed.
abbrev pub run_again :
    (ℕ → World → Result Failure PollOutcome × World)
    → Result Failure PollOutcome × World
    → Result Failure PollOutcome × World
run_again again (ok (delayed ms n), w) = again n w
run_again again r = r

-- The polls of one document until it is delayed no more, at most one more than `fuel` of them. The
-- services answer each poll anew.
unfoldable pub run_polls : (ℕ → PollServices) → ℕ → ℕ → World → Result Failure PollOutcome × World
run_polls day zero attempt w = poll (day 0) attempt w
run_polls day (suc fuel) attempt w =
    run_again (run_polls day fuel) (poll (day (suc fuel)) attempt w)

abbrev pub is_delayed : Result Failure PollOutcome × World → Bool
is_delayed (ok (delayed ms n), w) = true
is_delayed _ = false

not_delayed :
    (r : Result Failure PollOutcome × World)
    → ((ms n : ℕ) → r.0 ≢ ok (delayed ms n))
    → is_delayed r ≡ false
not_delayed (ok (delayed ms n), w) h = elim (h ms n refl) [ ]
not_delayed _ h = refl

run_again_ends :
    (again : ℕ → World → Result Failure PollOutcome × World) (fuel : ℕ)
    (r : Result Failure PollOutcome × World)
    → ((n : ℕ) (w : World) → rounds_left n w ≤ fuel → is_delayed (again n w) ≡ false)
    → ((ms n : ℕ) → r.0 ≡ ok (delayed ms n) → rounds_left n r.1 ≤ fuel)
    → is_delayed (run_again again r) ≡ false
run_again_ends again fuel (ok (delayed ms n), w) ends left = ends n w (left ms n refl)
run_again_ends again fuel _ ends left = refl

run_polls_enough :
    (day : ℕ → PollServices) (fuel attempt : ℕ) (w : World)
    → rounds_left attempt w ≤ fuel
    → is_delayed (run_polls day fuel attempt w) ≡ false
unfolding run_polls poll
run_polls_enough day zero attempt w enough =
    not_delayed (poll (day 0) attempt w)
      (λ ms n later. omega (arith, poll_next (day 0) w.invoice.status attempt w ms n later))
run_polls_enough day (suc fuel) attempt w enough =
    run_again_ends (run_polls day fuel) fuel (poll (day (suc fuel)) attempt w)
      (run_polls_enough day fuel)
      (λ ms n later.
        omega (arith, poll_next (day (suc fuel)) w.invoice.status attempt w ms n later))

rounds-bounded : (attempt : ℕ) (w : World) → rounds_left attempt w ≤ 22
unfolding rounds_left
rounds-bounded attempt w = ground arith

-- Whatever the services answer, and from any attempt, the polling of a document ends after 23 polls
-- at most: the last of them is not delayed.
pub run_polls_end :
    (day : ℕ → PollServices) (attempt : ℕ) (w : World)
    → is_delayed (run_polls day 22 attempt w) ≡ false
run_polls_end day attempt w = run_polls_enough day 22 attempt w (rounds-bounded attempt w)
