-- ===== src/Contingency/Marked.antt =====
-- The numbers of `getStats` of src/contingency/contingency.service.ts around `markAllForRetry`.
use ecf_api.Prelude.{
  ◌+◌, Bool, true, false, ◌&&◌, ◌≡◌, refl, inl, inr, List, [], ◌∷◌, some, ◌==◌, if◌then◌else◌, map,
  arith, Bool-cases,
}
use ecf_api.Types.{
  Uuid, Time, InvoiceStatus, draft, queued, sent, voided, accepted, rejected, conditional,
  processing, contingency, error,
}
use ecf_api.Invoices.{Emitted, Office}
use ecf_api.Invoices.Status.{status_eq}
use ecf_api.Contingency.{is_in, count, to_contingency, get_stats, mark_all_for_retry}

abbrev marked : {D : Type 0} → Uuid → Emitted D → Emitted D
marked tenant i = if is_in error (some tenant) i then to_contingency i else i

exclusive :
    (b c : Bool) (s : InvoiceStatus)
    → (status_eq s error && b) ≡ true
    → (status_eq s contingency && c) ≡ false
unfolding status_eq
exclusive b c draft h = cc
exclusive b c queued h = cc
exclusive b c sent h = cc
exclusive b c voided h = cc
exclusive b c accepted h = cc
exclusive b c rejected h = cc
exclusive b c conditional h = cc
exclusive b c processing h = cc
exclusive b c contingency h = cc
exclusive b c error h = refl

and_right : (a b : Bool) → (a && b) ≡ true → b ≡ true
and_right true b h = h
and_right false b h = cc

to_contingency_out :
    {D : Type 0} (tenant : Uuid) (x : Emitted D)
    → is_in error (some tenant) (to_contingency x) ≡ false
unfolding status_eq
to_contingency_out tenant x = refl

to_contingency_in :
    {D : Type 0} (tenant : Uuid) (x : Emitted D)
    → (x.tenant_id == tenant) ≡ true
    → is_in contingency (some tenant) (to_contingency x) ≡ true
unfolding status_eq
to_contingency_in tenant x ours = rw ours refl

counted :
    {D : Type 0} (tenant : Uuid) (rows : List (Emitted D))
    → (count (is_in error (some tenant)) (map (marked tenant) rows) ≡ 0)
      × (count (is_in contingency (some tenant)) (map (marked tenant) rows)
          ≡ count (is_in contingency (some tenant)) rows + count (is_in error (some tenant)) rows)
counted tenant [] = (refl, refl)
counted {D} tenant (x ∷ xs) =
    let ih = counted tenant xs in
    let of_error = is_in {D = D} error (some tenant) in
    let waits = is_in {D = D} contingency (some tenant) in
    let rows = map (marked {D = D} tenant) xs in
    elim (Bool-cases (is_in error (some tenant) x)) [
      | inl failed ↦
          let ours = and_right (status_eq x.status error) (x.tenant_id == tenant) failed in
          let same : marked tenant x ≡ to_contingency x = rw (failed, marked) refl in
          let now_out : of_error (to_contingency x) ≡ false = to_contingency_out tenant x in
          let now_in : waits (to_contingency x) ≡ true = to_contingency_in tenant x ours in
          let was_out : waits x ≡ false =
            exclusive (x.tenant_id == tenant) (x.tenant_id == tenant) x.status failed in
          (rw (same, now_out) ih.0, rw (same, now_in, was_out, failed) (omega (arith, ih.1)))
      | inr other ↦
          let same : marked tenant x ≡ x = rw (other, marked) refl in
          (
            rw (same, other) ih.0,
            elim (Bool-cases (waits x)) [
              | inl here ↦ rw (same, here, other) (omega (arith, ih.1))
              | inr absent ↦ rw (same, absent, other) ih.1
            ],
          )
    ]

-- When all failed invoices of a tenant are marked for a retry, the number answered is that of the failed
-- invoices in its statistics before; after it the statistics count no failed invoice, and as many more in
-- contingency.
pub mark_all_for_retry-get_stats :
    {D : Type 0} (now midnight : Time) (tenant : Uuid) (o : Office D)
    → let before = get_stats now midnight tenant o in
      let (marked, o2) = mark_all_for_retry tenant o in
      let after = get_stats now midnight tenant o2 in
      (marked ≡ before.error_count)
      × (after.error_count ≡ 0)
      × (after.contingency_count ≡ before.contingency_count + before.error_count)
unfolding get_stats mark_all_for_retry
mark_all_for_retry-get_stats now midnight tenant o =
    let (cleared, moved) = counted tenant o.invoices in (refl, cleared, moved)
