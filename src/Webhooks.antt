-- ===== src/Webhooks.antt =====
-- The delivery of webhooks: src/webhooks/webhook-delivery.processor.ts, on the tables of
-- prisma/schema.prisma. The bodies of requests and answers are left out.
pub mod Delivered
use ecf_api.Prelude.{
  ℕ, ◌+◌, ◌-◌, ◌*◌, Bool, true, false, ◌&&◌, ◌||◌, not, List, [], ◌∷◌, ◌++◌, Option, none, some,
  ltb, leb, ◌==◌, length, get_or, includes, if◌then◌else◌,
}
use ecf_api.Prelude.Rows.{find_many}
use ecf_api.Types.{Uuid, Time}
use ecf_api.Contingency.{count, hour}

-- `model WebhookSubscription`; an event is its place in `enum WebhookEvent`.
pub record Subscription : Type 0 where
  pub id : Uuid
  pub tenant_id : Uuid
  pub events : List ℕ
  -- Whether `secretEnc` is not null.
  pub has_secret : Bool
  pub needs_regeneration : Bool
  pub is_active : Bool

-- `model WebhookDelivery`
pub record Delivery : Type 0 where
  pub subscription_id : Uuid
  pub event : ℕ
  pub status_code : ℕ
  -- Whether `deliveredAt` is set.
  pub is_delivered : Bool
  pub created_at : Time

pub record Board : Type 0 where
  pub subscriptions : List Subscription
  pub deliveries : List Delivery

-- What the endpoint of a subscription does: no secret comes out of the decryption, the request fails or is
-- cut off after 10 seconds, or there is a response with its status.
pub data Answer : Type 0 where
  unsigned unreachable : Answer
  response : ℕ → Answer

-- `WEBHOOK_RETRY_DELAYS`
abbrev pub retry_delays : List ℕ
retry_delays = 30000 ∷ 2 * 60000 ∷ 10 * 60000 ∷ 60 * 60000 ∷ 6 * 60 * 60000 ∷ []

-- `backoffStrategy`; the queue calls it after the first attempt or later.
unfoldable pub backoff : ℕ → ℕ
backoff attempts_made = get_or retry_delays (attempts_made - 1) (6 * 60 * 60000)

abbrev pub deactivate_threshold : ℕ
deactivate_threshold = 10

-- The subscriptions of an event.
abbrev pub is_target : Uuid → ℕ → Subscription → Bool
is_target tenant event s =
    s.tenant_id == tenant
    && s.is_active
    && includes event s.events
    && not s.needs_regeneration
    && s.has_secret

-- `response.ok`, by the standard of `fetch`.
abbrev pub is_ok_status : ℕ → Bool
is_ok_status status = leb 200 status && leb status 299

abbrev pub is_recent_failure : Time → Uuid → Delivery → Bool
is_recent_failure now id d =
    d.subscription_id == id
    && not (includes d.status_code (200 ∷ 201 ∷ 202 ∷ 204 ∷ []))
    && leb (now - 24 * hour) d.created_at

abbrev pub set_inactive : Uuid → List Subscription → List Subscription
set_inactive id [] = []
set_inactive id (s ∷ rows) =
    (if s.id == id then record s { is_active = false } else s) ∷ set_inactive id rows

-- The end of the `catch`: ten failures of the last day switch the subscription off.
unfoldable pub after_failure : Time → Subscription → Board → Board
after_failure now s b =
    if leb deactivate_threshold (count (is_recent_failure now s.id) b.deliveries)
    then record b { subscriptions = set_inactive s.id b.subscriptions }
    else b

abbrev pub add_delivery : Time → ℕ → ℕ → Bool → Subscription → Board → Board
add_delivery now event status delivered s b = record b {
  deliveries =
      b.deliveries
      ++ record {
        subscription_id = s.id;
        event = event;
        status_code = status;
        is_delivered = delivered;
        created_at = now;
      }
        ∷ [];
}

-- `deliverToEndpoint`: whether it returns, and the tables.
unfoldable pub deliver_to_endpoint : Time → ℕ → Answer → Subscription → Board → Bool × Board
deliver_to_endpoint now event unsigned s b = (false, b)
deliver_to_endpoint now event unreachable s b =
    (false, after_failure now s (add_delivery now event 0 false s b))
deliver_to_endpoint now event (response status) s b =
    let b1 = add_delivery now event status (is_ok_status status) s b in
    if is_ok_status status then (true, b1) else (false, after_failure now s b1)

-- The deliveries of a job, which touch rows of different subscriptions, one after the other; how many
-- succeed and how many fail.
unfoldable pub deliver_all :
    Time → ℕ → (Subscription → Answer) → List Subscription → Board → (ℕ × ℕ) × Board
deliver_all now event answers [] b = ((0, 0), b)
deliver_all now event answers (s ∷ rows) b =
    let (done, b1) = deliver_to_endpoint now event (answers s) s b in
    let ((succeeded, failed), b2) = deliver_all now event answers rows b1 in
    (if done then (succeeded + 1, failed) else (succeeded, failed + 1), b2)

abbrev pub targets : Uuid → ℕ → Board → List Subscription
targets tenant event b = find_many (is_target tenant event) b.subscriptions

-- `process`: how many deliveries succeeded and failed, and the tables; a failure throws.
unfoldable pub process_delivery :
    Time → Uuid → ℕ → (Subscription → Answer) → Board → (ℕ × ℕ) × Board
process_delivery now tenant event answers b =
    deliver_all now event answers (targets tenant event b) b

-- The attempts of a job at their times, until one does not throw.
unfoldable pub run_attempts : List Time → Uuid → ℕ → (Time → Subscription → Answer) → Board → Board
run_attempts [] tenant event answers b = b
run_attempts (now ∷ later) tenant event answers b =
    let ((_, failed), b1) = process_delivery now tenant event (answers now) b in
    let rest = run_attempts later tenant event answers b1 in if failed == 0 then b1 else rest
