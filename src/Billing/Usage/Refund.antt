-- ===== src/Billing/Usage/Refund.antt =====
-- A refund happens once, and takes back what one emission consumed.
use ecf_api.Prelude.{
  ℕ, ◌-◌, ◌<◌, ◌≡◌, refl, ◌∙◌, ◌⊎◌, inl, inr, true, false, Option, none, some, arith, ltb, ◌==◌,
  if◌then◌else◌, if_rule, Option-cases,
}
use ecf_api.Types.{Uuid, Time, env_is_dev}
use ecf_api.Billing.{exhausted, is_exhausted, Company, CompanyPlan, CompanyUsage, Books}
use ecf_api.Billing.Usage.{
  refund_row, decrement_usage, revert_usage, metered_by, metered_plan, increment_usage, consume,
}
use ecf_api.Billing.Usage.Quota.{
  used, charged, consume_room, consume_companies, consume_plans, metered_after, metered_step,
}

refund_row_flags :
    (company i : Uuid) (t : Time) (b : Books) → (refund_row company t b).reverted i ≡ b.reverted i
unfolding refund_row
refund_row_flags company i t b = elim (Option-cases (b.usages company t)) [
  | inl gone ↦ rw (gone, refund_row)
  | inr (u, row) ↦
      rw (row, refund_row)
        (if_rule Same (ltb 0 u.topup_used) (λ _. refl)
          (λ _. if_rule Same (ltb 0 u.base_used) (λ _. refl) (λ _. refl)))
]
  where
    Same : Books → Type 0
    Same c = c.reverted i ≡ b.reverted i

-- The plan by which a company is metered is its plan, and its environment is not DEV.
metered_parts :
    (c : Option Company) (q : Option CompanyPlan) (p : CompanyPlan)
    → metered_by c q ≡ some p
    → (x : Company) × (c ≡ some x) × (env_is_dev x.dgii_env ≡ false) × (q ≡ some p)
unfolding metered_by
metered_parts none q p h = cc
metered_parts (some x) none p h = cc
metered_parts (some x) (some r) p h = (x, refl, ground arith, ground arith)

-- A refund leaves the flags alone.
decrement_flags :
    (company i : Uuid) (b : Books) → (decrement_usage company b).reverted i ≡ b.reverted i
unfolding decrement_usage
decrement_flags company i b = elim (Option-cases (b.companies company)) [
  | inl e ↦ rw (e, decrement_usage)
  | inr (c, e) ↦ elim (Option-cases (b.plans company)) [
    | inl f ↦
        rw (e, f, decrement_usage) (if_rule Same (env_is_dev c.dgii_env) (λ _. refl) (λ _. refl))
    | inr (p, f) ↦
        let kept = refund_row_flags company i p.cycle_start b in
        rw (e, f, decrement_usage)
          (if_rule Same (env_is_dev c.dgii_env) (λ _. refl)
            (λ _. if_rule Same (is_exhausted p.status) (λ _. kept) (λ _. kept)))
  ]
]
  where
    Same : Books → Type 0
    Same x = x.reverted i ≡ b.reverted i

-- Once the flag of an invoice is set, or the invoice is gone, a refund changes nothing.
revert_done :
    (invoice company : Uuid) (b : Books)
    → (b.reverted invoice ≡ none) ⊎ (b.reverted invoice ≡ some true)
    → revert_usage invoice company b ≡ b
unfolding revert_usage
revert_done invoice company b (inl gone) = rw (gone, revert_usage)
revert_done invoice company b (inr set) = rw (set, revert_usage)

-- After a refund the flag is set, or there was no invoice.
flag_set :
    (invoice company : Uuid) (b : Books)
    → ((revert_usage invoice company b).reverted invoice ≡ none)
      ⊎ ((revert_usage invoice company b).reverted invoice ≡ some true)
unfolding revert_usage
flag_set invoice company b = elim (Option-cases (b.reverted invoice)) [
  | inl gone ↦ inl (rw (gone, revert_usage) gone)
  | inr (true, e) ↦ inr (rw (e, revert_usage) e)
  | inr (false, e) ↦ inr (
      rw (e, revert_usage)
        (decrement_flags company invoice
            (record b { reverted = λ i. if i == invoice then some true else b.reverted i })
          ∙ ground arith))
]

-- Refunding an invoice a second time, for any company, changes nothing.
pub revert_usage_once :
    (invoice company other : Uuid) (b : Books)
    → revert_usage invoice other (revert_usage invoice company b) ≡ revert_usage invoice company b
revert_usage_once invoice company other b =
    revert_done invoice other (revert_usage invoice company b) (flag_set invoice company b)

-- The row that a refund writes.
unfoldable pub refunded : CompanyUsage → CompanyUsage
refunded u =
    if ltb 0 u.topup_used
    then record u { topup_used = u.topup_used - 1 }
    else if ltb 0 u.base_used
    then record u { base_used = u.base_used - 1 }
    else u

refund_row_usage :
    (company : Uuid) (t : Time) (b : Books) (u : CompanyUsage)
    → b.usages company t ≡ some u
    → (refund_row company t b).usages company t ≡ some (refunded u)
unfolding refund_row refunded
refund_row_usage company t b u row = ground arith

decrement_row :
    (company : Uuid) (b : Books) (p : CompanyPlan) (u : CompanyUsage)
    → metered_plan company b ≡ some p
    → b.usages company p.cycle_start ≡ some u
    → (decrement_usage company b).usages company p.cycle_start ≡ some (refunded u)
unfolding decrement_usage
decrement_row company b p u plan row =
    let (c, e, live, f) = metered_parts (b.companies company) (b.plans company) p plan in
    let written = refund_row_usage company p.cycle_start b u row in
    rw (e, f, live, decrement_usage)
      (if_rule Written (is_exhausted p.status) (λ _. written) (λ _. written))
  where
    Written : Books → Type 0
    Written x = x.usages company p.cycle_start ≡ some (refunded u)

refunded-charged :
    (n : ℕ) (u : CompanyUsage)
    → (used (refunded (charged n u)) ≡ used u)
      × ((refunded (charged n u)).total_quota ≡ u.total_quota)
unfolding refunded charged
refunded-charged n u = (ground arith, ground arith)

-- A metered emission with room under the quota, and the refund of its quota, leave the company's usage
-- row with the count and the quota that it had.
pub decrement-increment :
    (now : Time) (company : Uuid) (b : Books) (p : CompanyPlan) (u : CompanyUsage)
    → metered_plan company b ≡ some p
    → b.usages company p.cycle_start ≡ some u
    → used u < u.total_quota
    → (v : CompanyUsage) × ((decrement_usage company (increment_usage now company b).1).usages
          company p.cycle_start
        ≡ some v)
      × (used v ≡ used u)
      × (v.total_quota ≡ u.total_quota)
decrement-increment now company b p u plan row room =
    let n = p.included_invoices in
    let b' = (consume now company p b).1 in
    let (_, write) = consume_room now company p b u row room in
    let row' : b'.usages company p.cycle_start ≡ some (charged n u) =
      ground (arith, write company p.cycle_start) in
    let (same, quota) = refunded-charged n u in
    let back : (decrement_usage company b').usages company p.cycle_start
        ≡ some (refunded (charged n u)) =
      elim (metered_after company p b b' plan (consume_companies now company p b)
        (consume_plans now company p b)) [
          | inl kept ↦ decrement_row company b' p (charged n u) kept row'
          | inr flipped ↦
              decrement_row company b' (record p { status = exhausted }) (charged n u) flipped row'
        ] in
    (refunded (charged n u), rw (metered_step now company b p plan) back, same, quota)
