-- ===== src/Webhooks/Delivered.antt =====
-- What a delivery of src/webhooks/webhook-delivery.processor.ts leaves behind.
use ecf_api.Prelude.{
  ℕ, ◌+◌, ◌-◌, ◌*◌, ◌≤◌, ◌≡◌, refl, ap, ◌∙◌, inl, inr, Bool, true, false, ◌&&◌, not, List, [], ◌∷◌,
  ◌++◌, leb, ◌==◌, length, if◌then◌else◌, if_rule, Bool-cases, arith, includes,
}
use ecf_api.Prelude.Rows.{All}
use ecf_api.Types.{Uuid, Time}
use ecf_api.Contingency.{count, hour}
use ecf_api.Webhooks.{
  Subscription, Delivery, Board, Answer, unsigned, unreachable, response, is_ok_status,
  is_recent_failure, set_inactive, after_failure, add_delivery, deliver_to_endpoint, deliver_all,
  targets, process_delivery, deactivate_threshold,
}

abbrev pub is_success : Answer → Bool
is_success unsigned = false
is_success unreachable = false
is_success (response status) = is_ok_status status

-- A request goes out.
abbrev pub is_request : Answer → Bool
is_request unsigned = false
is_request unreachable = true
is_request (response _) = true

abbrev pub is_of : Uuid → Delivery → Bool
is_of id d = d.subscription_id == id

count-append :
    {A : Type 0} (p : A → Bool) (xs : List A) (y : A)
    → count p (xs ++ y ∷ []) ≡ count p xs + (if p y then 1 else 0)
count-append p [] y = elim (Bool-cases (p y)) [ inl e ↦ rw e refl | inr e ↦ rw e refl ]
count-append p (x ∷ xs) y = elim (Bool-cases (p x)) [
  | inl e ↦ rw e (omega (arith, count-append p xs y))
  | inr e ↦ rw e (count-append p xs y)
]

after_failure_deliveries :
    (now : Time) (s : Subscription) (b : Board) → (after_failure now s b).deliveries ≡ b.deliveries
unfolding after_failure
after_failure_deliveries now s b =
    if_rule (λ (z : Board). z.deliveries ≡ b.deliveries)
      (leb deactivate_threshold (count (is_recent_failure now s.id) b.deliveries)) (λ _. refl)
      (λ _. refl)

row_added :
    (now : Time) (event status k : ℕ) (done : Bool) (s : Subscription) (b : Board)
    → count (is_of k) (add_delivery now event status done s b).deliveries
      ≡ count (is_of k) b.deliveries + (if s.id == k && true then 1 else 0)
row_added now event status k done s b = elim (Bool-cases (s.id == k)) [
  | inl e ↦
      let one = count-append (is_of k) b.deliveries (record {
        subscription_id = s.id;
        event = event;
        status_code = status;
        is_delivered = done;
        created_at = now;
      }) in
      one ∙ rw e refl
  | inr e ↦
      let one = count-append (is_of k) b.deliveries (record {
        subscription_id = s.id;
        event = event;
        status_code = status;
        is_delivered = done;
        created_at = now;
      }) in
      one ∙ rw e refl
]

failed_row :
    (now : Time) (event status k : ℕ) (s : Subscription) (b : Board)
    → count (is_of k) (after_failure now s (add_delivery now event status false s b)).deliveries
      ≡ count (is_of k) b.deliveries + (if s.id == k && true then 1 else 0)
failed_row now event status k s b =
    ap (count (is_of k)) (after_failure_deliveries now s (add_delivery now event status false s b))
    ∙ row_added now event status k false s b

-- A delivery adds one row of its subscription if a request goes out, and returns if it succeeds.
deliver_row :
    (now : Time) (event k : ℕ) (a : Answer) (s : Subscription) (b : Board)
    → (count (is_of k) (deliver_to_endpoint now event a s b).1.deliveries
        ≡ count (is_of k) b.deliveries + (if s.id == k && is_request a then 1 else 0))
      × ((deliver_to_endpoint now event a s b).0 ≡ is_success a)
unfolding deliver_to_endpoint
deliver_row now event k unsigned s b = elim (Bool-cases (s.id == k)) [
  | inl e ↦ rw e (omega arith, refl)
  | inr e ↦ rw e (omega arith, refl)
]
deliver_row now event k unreachable s b = (failed_row now event 0 k s b, refl)
deliver_row now event k (response status) s b = elim (Bool-cases (is_ok_status status)) [
  | inl e ↦ rw e (row_added now event status k true s b, refl)
  | inr e ↦ rw e (failed_row now event status k s b, refl)
]

abbrev pub IsAccounted :
    ℕ → (Subscription → Answer) → List Subscription → Board → (ℕ × ℕ) × Board → Type 0
IsAccounted k answers rows before ((succeeded, failed), after) =
    (count (is_of k) after.deliveries
      ≡ count (is_of k) before.deliveries + count (λ s. s.id == k && is_request (answers s)) rows)
    × (succeeded ≡ count (λ s. is_success (answers s)) rows)
    × (succeeded + failed ≡ length rows)

deliver_all-IsAccounted :
    (now : Time) (event k : ℕ) (answers : Subscription → Answer) (rows : List Subscription)
    (b : Board)
    → IsAccounted k answers rows b (deliver_all now event answers rows b)
unfolding deliver_all
deliver_all-IsAccounted now event k answers [] b = (omega arith, refl, refl)
deliver_all-IsAccounted now event k answers (s ∷ rows) b =
    let b1 = (deliver_to_endpoint now event (answers s) s b).1 in
    let (row, done) = deliver_row now event k (answers s) s b in
    let (added, succeeded, total) = deliver_all-IsAccounted now event k answers rows b1 in
    let here =
      elim (Bool-cases (s.id == k && is_request (answers s)))
        as (λ _.
          count (is_of k) (deliver_all now event answers rows b1).1.deliveries
          ≡ count (is_of k) b.deliveries
            + count (λ t. t.id == k && is_request (answers t)) (s ∷ rows)) [
              | inl e ↦
                  let one : count (is_of k) b1.deliveries ≡ count (is_of k) b.deliveries + 1 =
                    rw e at row in
                  rw e (omega (arith, added, one))
              | inr e ↦
                  let none_new : count (is_of k) b1.deliveries ≡ count (is_of k) b.deliveries + 0 =
                    rw e at row in
                  rw e (omega (arith, added, none_new))
            ] in
    elim (Bool-cases (is_success (answers s))) [
      | inl e ↦
          let yes_done : (deliver_to_endpoint now event (answers s) s b).0 ≡ true = done ∙ e in
          rw (yes_done, e) (here, omega (arith, succeeded), omega (arith, total))
      | inr e ↦
          let not_done : (deliver_to_endpoint now event (answers s) s b).0 ≡ false = done ∙ e in
          rw (not_done, e) (here, succeeded, omega (arith, total))
    ]

-- An attempt of a job adds, for every id, one row of delivery for each subscription of the event with that
-- id to which a request goes out, whatever earlier attempts did; it counts as succeeded the subscriptions
-- whose response is in 200 to 299, and succeeded and failed are together all subscriptions of the event.
pub process_delivery-IsAccounted :
    (now : Time) (tenant : Uuid) (event k : ℕ) (answers : Subscription → Answer) (b : Board)
    → IsAccounted k answers (targets tenant event b) b (process_delivery now tenant event answers b)
unfolding process_delivery
process_delivery-IsAccounted now tenant event k answers b =
    deliver_all-IsAccounted now event k answers (targets tenant event b) b

abbrev is_lost : Uuid → Delivery → Bool
is_lost id d = is_of id d && not d.is_delivered

-- How many rows of the subscription are not delivered.
abbrev pub lost : Uuid → List Delivery → ℕ
lost id rows = count (is_lost id) rows

same_id : (k : ℕ) → (k == k) ≡ true
same_id k = ground arith

day_before : (now day : ℕ) → leb (now - day) now ≡ true
day_before now day = ground arith

ten_reached : (k : ℕ) → 9 ≤ k → leb 10 (k + 1) ≡ true
ten_reached k h = ground arith

-- Deliveries to one subscription at the given times, each with the same answer: how many return, and
-- the tables.
unfoldable pub deliver_each : List Time → ℕ → Answer → Subscription → Board → ℕ × Board
deliver_each [] event a s b = (0, b)
deliver_each (t ∷ times) event a s b =
    let (done, b1) = deliver_to_endpoint t event a s b in
    let (returned, b2) = deliver_each times event a s b1 in
    (if done then returned + 1 else returned, b2)

abbrev sent_row : Time → ℕ → ℕ → Bool → Subscription → Delivery
sent_row now event status done s = record {
  subscription_id = s.id;
  event = event;
  status_code = status;
  is_delivered = done;
  created_at = now;
}

-- The statuses that `response.ok` takes for a success and the count of failures for a failure.
is_divergent : ℕ → Bool
is_divergent status = is_ok_status status && not (includes status (200 ∷ 201 ∷ 202 ∷ 204 ∷ []))

divergent : (status : ℕ) → 205 ≤ status → status ≤ 299 → is_divergent status ≡ true
unfolding is_divergent
divergent status low high = ground arith

-- What a success with such a status leaves: it returns, and its row counts as a failure.
deliver_divergent :
    (now t : Time) (event status : ℕ) (s : Subscription) (b : Board)
    → 205 ≤ status
    → status ≤ 299
    → leb (now - 24 * hour) t ≡ true
    → ((deliver_to_endpoint t event (response status) s b).0 ≡ true)
      × ((deliver_to_endpoint t event (response status) s b).1.subscriptions ≡ b.subscriptions)
      × (count
            (is_recent_failure now s.id)
            (deliver_to_endpoint t event (response status) s b).1.deliveries
          ≡ count (is_recent_failure now s.id) b.deliveries + 1)
      × (lost s.id (deliver_to_endpoint t event (response status) s b).1.deliveries
          ≡ lost s.id b.deliveries)
unfolding deliver_to_endpoint is_divergent
deliver_divergent now t event status s b low high recent =
    let both : is_divergent status ≡ true = divergent status low high in
    let fine : is_ok_status status ≡ true = ground arith in
    let unlisted : includes status (200 ∷ 201 ∷ 202 ∷ 204 ∷ []) ≡ false = ground arith in
    let row = sent_row t event status true s in
    let counts : is_recent_failure now s.id row ≡ true = rw (same_id s.id, unlisted, recent) refl in
    let arrives : is_lost s.id row ≡ false = rw (same_id s.id) refl in
    let failures = count-append (is_recent_failure now s.id) b.deliveries row in
    let losses = count-append (is_lost s.id) b.deliveries row in
    rw fine (refl, refl, failures ∙ rw counts refl, losses ∙ rw arrives (omega arith))

deliver_each_lem :
    (now : Time) (times : List Time) (event status : ℕ) (s : Subscription) (b : Board)
    → 205 ≤ status
    → status ≤ 299
    → All (λ t. leb (now - 24 * hour) t ≡ true) times
    → ((deliver_each times event (response status) s b).0 ≡ length times)
      × ((deliver_each times event (response status) s b).1.subscriptions ≡ b.subscriptions)
      × (count
            (is_recent_failure now s.id)
            (deliver_each times event (response status) s b).1.deliveries
          ≡ count (is_recent_failure now s.id) b.deliveries + length times)
      × (lost s.id (deliver_each times event (response status) s b).1.deliveries
          ≡ lost s.id b.deliveries)
unfolding deliver_each
deliver_each_lem now [] event status s b low high recent = (refl, refl, omega arith, refl)
deliver_each_lem now (t ∷ times) event status s b low high recent =
    let (done, rows, failures, losses) =
      deliver_divergent now t event status s b low high recent.0 in
    let (returned, rows', failures', losses') =
      deliver_each_lem now times event status s
        (deliver_to_endpoint t event (response status) s b).1 low high recent.1 in
    rw done
      (omega (arith, returned), rows' ∙ rows, omega (arith, failures, failures'), losses' ∙ losses)

refused_unlisted :
    (status : ℕ)
    → is_ok_status status ≡ false
    → includes status (200 ∷ 201 ∷ 202 ∷ 204 ∷ []) ≡ false
refused_unlisted status h = ground arith

-- The row of a request that fails is the tenth failure.
refused_off :
    (now : Time) (event status : ℕ) (s : Subscription) (b : Board)
    → 9 ≤ count (is_recent_failure now s.id) b.deliveries
    → includes status (200 ∷ 201 ∷ 202 ∷ 204 ∷ []) ≡ false
    → (leb deactivate_threshold (
          count
            (is_recent_failure now s.id)
            (b.deliveries ++ sent_row now event status false s ∷ []))
        ≡ true)
      × (lost s.id (b.deliveries ++ sent_row now event status false s ∷ [])
          ≡ lost s.id b.deliveries + 1)
refused_off now event status s b nine unlisted =
    let row = sent_row now event status false s in
    let fails : is_recent_failure now s.id row ≡ true =
      rw (same_id s.id, unlisted) (day_before now (24 * hour)) in
    let is_row : is_lost s.id row ≡ true = rw (same_id s.id) refl in
    let failures : count (is_recent_failure now s.id) (b.deliveries ++ row ∷ [])
        ≡ count (is_recent_failure now s.id) b.deliveries + 1 =
      count-append (is_recent_failure now s.id) b.deliveries row ∙ rw fails refl in
    let one : lost s.id (b.deliveries ++ row ∷ []) ≡ lost s.id b.deliveries + 1 =
      count-append (is_lost s.id) b.deliveries row ∙ rw is_row refl in
    (rw failures (ten_reached _ nine), one)

-- A delivery that fails when nine of the day count as failures switches the subscription off.
switch_off :
    (now : Time) (event : ℕ) (a : Answer) (s : Subscription) (b : Board)
    → 9 ≤ count (is_recent_failure now s.id) b.deliveries
    → is_request a ≡ true
    → is_success a ≡ false
    → ((deliver_to_endpoint now event a s b).0 ≡ false)
      × ((deliver_to_endpoint now event a s b).1.subscriptions ≡ set_inactive s.id b.subscriptions)
      × (lost s.id (deliver_to_endpoint now event a s b).1.deliveries ≡ lost s.id b.deliveries + 1)
unfolding deliver_to_endpoint after_failure
switch_off now event unsigned s b nine goes fails = cc
switch_off now event unreachable s b nine goes fails =
    let off = refused_off now event 0 s b nine refl in (refl, rw off.0 refl, rw off.0 off.1)
switch_off now event (response status) s b nine goes fails =
    let off = refused_off now event status s b nine (refused_unlisted status fails) in
    rw fails (refl, rw off.0 refl, rw off.0 off.1)

-- Deliveries that succeed count as failures: nine or more to one subscription within a day, each answered
-- with the same status of 205 to 299, all return, leave no further row that is not delivered
-- and the subscriptions as they were; then the first request that fails, for want of a response or by its status,
-- is the only one not delivered, and switches the subscription off.
pub deliver_to_endpoint_switches_off :
    (now : Time) (times : List Time) (event status : ℕ) (a : Answer) (s : Subscription) (b : Board)
    → 9 ≤ length times
    → All (λ t. leb (now - 24 * hour) t ≡ true) times
    → 205 ≤ status
    → status ≤ 299
    → is_request a ≡ true
    → is_success a ≡ false
    → let (returned, sent) = deliver_each times event (response status) s b in
      let (done, after) = deliver_to_endpoint now event a s sent in
      (returned ≡ length times)
      × (sent.subscriptions ≡ b.subscriptions)
      × (lost s.id sent.deliveries ≡ lost s.id b.deliveries)
      × (done ≡ false)
      × (after.subscriptions ≡ set_inactive s.id b.subscriptions)
      × (lost s.id after.deliveries ≡ lost s.id b.deliveries + 1)
deliver_to_endpoint_switches_off now times event status a s b nine recent low high goes fails =
    let sent = (deliver_each times event (response status) s b).1 in
    let (returned, rows, failures, losses) =
      deliver_each_lem now times event status s b low high recent in
    let many : 9 ≤ count (is_recent_failure now s.id) sent.deliveries =
      omega (arith, failures, nine) in
    let (done, off, one) = switch_off now event a s sent many goes fails in
    (returned, rows, losses, done, off ∙ ap (set_inactive s.id) rows, one ∙ ap (λ n. n + 1) losses)
