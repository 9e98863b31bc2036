-- ===== src/Tests/Webhooks.antt =====
-- The delivery of src/webhooks/webhook-delivery.processor.ts at work.
use ecf_api.Prelude.{◌≡◌, refl, true, false, [], ◌∷◌, replicate, arith, ◌==◌, if◌then◌else◌}
use ecf_api.Webhooks.{
  Subscription, Board, Answer, unreachable, response, deliver_to_endpoint, process_delivery,
  run_attempts, deliver_all, set_inactive, targets, after_failure,
}
use ecf_api.Webhooks.Delivered.{
  IsAccounted, lost, deliver_each, process_delivery-IsAccounted, deliver_to_endpoint_switches_off,
}

abbrev first : Subscription
first = record {
  id = 1;
  tenant_id = 7;
  events = 3 ∷ [];
  has_secret = true;
  needs_regeneration = false;
  is_active = true;
}

abbrev second : Subscription
second = record first { id = 2 }

abbrev fresh : Board
fresh = record { subscriptions = first ∷ second ∷ []; deliveries = [] }

-- The second endpoint is down.
abbrev second_down : Subscription → Answer
second_down s = if s.id == 2 then unreachable else response 200

process_delivery-IsAccounted_example :
    IsAccounted 1 second_down (targets 7 3 fresh) fresh (process_delivery 5 7 3 second_down fresh)
process_delivery-IsAccounted_example = process_delivery-IsAccounted 5 7 3 1 second_down fresh

-- A second attempt sends to the first endpoint again, which had the event already.
sent_again :
    (run_attempts (5 ∷ 6 ∷ []) 7 3 (λ _. second_down) fresh).deliveries
    ≡ record {
      subscription_id = 1;
      event = 3;
      status_code = 200;
      is_delivered = true;
      created_at = 5;
    }
      ∷ record {
        subscription_id = 2;
        event = 3;
        status_code = 0;
        is_delivered = false;
        created_at = 5;
      }
      ∷ record {
        subscription_id = 1;
        event = 3;
        status_code = 200;
        is_delivered = true;
        created_at = 6;
      }
      ∷ record {
        subscription_id = 2;
        event = 3;
        status_code = 0;
        is_delivered = false;
        created_at = 6;
      }
      ∷ []
unfolding run_attempts process_delivery deliver_all deliver_to_endpoint after_failure
sent_again = refl

abbrev alone : Board
alone = record { subscriptions = first ∷ []; deliveries = [] }

-- Nine times the endpoint answers with the status 206, then with 500.
deliver_to_endpoint_switches_off_example :
    let (returned, sent) = deliver_each (replicate 9 4) 3 (response 206) first alone in
    let (done, after) = deliver_to_endpoint 5 3 (response 500) first sent in
    (returned ≡ 9)
    × (sent.subscriptions ≡ first ∷ [])
    × (lost 1 sent.deliveries ≡ 0)
    × (done ≡ false)
    × (after.subscriptions ≡ set_inactive 1 (first ∷ []))
    × (lost 1 after.deliveries ≡ 1)
deliver_to_endpoint_switches_off_example =
    deliver_to_endpoint_switches_off 5 (replicate 9 4) 3 206 (response 500) first alone
      (omega arith) (refl, (refl, (refl, (refl, (refl, (refl, (refl, (refl, (refl, tt)))))))))
      (omega arith) (omega arith) refl refl
