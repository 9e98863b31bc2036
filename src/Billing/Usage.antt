-- ===== src/Billing/Usage.antt =====
-- `incrementUsage`, `decrementUsage` and `revertUsage` of src/billing/usage.service.ts.
pub mod Quota
pub mod Refund
use ecf_api.Prelude.{
  ℕ, suc, ◌+◌, ◌-◌, Bool, true, false, ◌&&◌, not, List, [], ◌∷◌, Option, none, some, ltb, leb, ◌==◌,
  if◌then◌else◌,
}
use ecf_api.Prelude.Results.{Result, ok, err}
use ecf_api.Types.{Uuid, Time, DgiiEnv, dev, cert, prod, env_is_dev}
use ecf_api.Billing.{
  PlanStatus, active, exhausted, expired, cancelled, is_exhausted, Company, CompanyPlan,
  CompanyUsage, TopupPurchase, Books, UsageError, usage_row_missing, quota_exhausted, set_plan,
  set_usage,
}

-- The first conditional update: base quota.
unfoldable pub charge_base : ℕ → CompanyUsage → Option CompanyUsage
charge_base plan_base u =
    if ltb u.base_used plan_base && ltb (u.base_used + u.topup_used) u.total_quota
    then some (record u { base_used = u.base_used + 1 })
    else none

-- The second one: the pool of top-ups.
unfoldable pub charge_topup : CompanyUsage → Option CompanyUsage
charge_topup u =
    if ltb (u.base_used + u.topup_used) u.total_quota
    then some (record u { topup_used = u.topup_used + 1 })
    else none

-- `UPDATE topup_purchases … ORDER BY created_at ASC LIMIT 1`
unfoldable pub charge_oldest : Time → Uuid → Time → List TopupPurchase → List TopupPurchase
charge_oldest now company cycle [] = []
charge_oldest now company cycle (t ∷ ts) =
    if t.company_id == company && t.cycle_start == cycle && ltb now t.cycle_end
    then record t { invoices_used = t.invoices_used + 1 } ∷ ts
    else t ∷ charge_oldest now company cycle ts

-- The flip to EXHAUSTED when the consumption reaches the quota.
unfoldable pub flip_exhausted : Uuid → CompanyPlan → CompanyUsage → Books → Books
flip_exhausted company p row b =
    if leb row.total_quota (row.base_used + row.topup_used) && not (is_exhausted p.status)
    then set_plan company (record p { status = exhausted }) b
    else b

-- Neither update found room.
unfoldable pub refuse : Uuid → CompanyPlan → Books → Result UsageError (Unit {0}) × Books
refuse company p b = elim (b.usages company p.cycle_start) [
  | none ↦ (err usage_row_missing, b)
  | some _ ↦ (
    err quota_exhausted,
    if not (is_exhausted p.status) then set_plan company (record p { status = exhausted }) b else b,
  )
]

abbrev pub update_usage :
    (CompanyUsage → Option CompanyUsage) → Uuid → Time → Books → Option CompanyUsage
update_usage f company cycle b = elim (b.usages company cycle) [ none ↦ none | some u ↦ f u ]

-- The second update and what follows it.
unfoldable pub consume_topup :
    Time → Uuid → CompanyPlan → Books → Result UsageError (Unit {0}) × Books
consume_topup now company p b = elim (update_usage charge_topup company p.cycle_start b) [
  | none ↦ refuse company p b
  | some row ↦
      let charged = set_usage company p.cycle_start row b in
      (
        ok tt,
        flip_exhausted company p row
            (record charged { topups = charge_oldest now company p.cycle_start b.topups }),
      )
]

-- Both updates in turn.
unfoldable pub consume : Time → Uuid → CompanyPlan → Books → Result UsageError (Unit {0}) × Books
consume now company p b =
    elim (update_usage (charge_base p.included_invoices) company p.cycle_start b) [
      | some row ↦ (ok tt, flip_exhausted company p row (set_usage company p.cycle_start row b))
      | none ↦ consume_topup now company p b
    ]

-- `!companyPlan || companyPlan.status === EXPIRED`
abbrev pub is_unmetered : PlanStatus → Bool
is_unmetered expired = true
is_unmetered _ = false

-- The plan by which a company is metered, from its two rows; `none` is an early return.
unfoldable pub metered_by : Option Company → Option CompanyPlan → Option CompanyPlan
metered_by none plan = none
metered_by (some c) none = none
metered_by (some c) (some p) =
    if env_is_dev c.dgii_env then none else if is_unmetered p.status then none else some p

abbrev pub metered_plan : Uuid → Books → Option CompanyPlan
metered_plan company b = metered_by (b.companies company) (b.plans company)

-- `incrementUsage`, in the emission's transaction: the writes before a `throw` are in the result.
unfoldable pub increment_usage : Time → Uuid → Books → Result UsageError (Unit {0}) × Books
increment_usage now company b = elim (metered_plan company b) [
  | none ↦ (ok tt, b)
  | some p ↦ consume now company p b
]

-- `UPDATE topup_purchases … AND invoices_used > 0 ORDER BY created_at DESC LIMIT 1`: the last purchase
-- that fits; the flag says that one was found further down the list.
unfoldable pub refund_newest : Uuid → Time → List TopupPurchase → List TopupPurchase × Bool
refund_newest company cycle [] = ([], false)
refund_newest company cycle (t ∷ ts) =
    let (rest, found) = refund_newest company cycle ts in
    if found
    then (t ∷ rest, true)
    else if t.company_id == company && t.cycle_start == cycle && ltb 0 t.invoices_used
    then (record t { invoices_used = t.invoices_used - 1 } ∷ rest, true)
    else (t ∷ rest, false)

-- The refund of one invoice: first of the top-up pool, then of the base.
unfoldable pub refund_row : Uuid → Time → Books → Books
refund_row company cycle b = elim (b.usages company cycle) [
  | none ↦ b
  | some u ↦
      if ltb 0 u.topup_used
      then (let charged = set_usage company cycle (record u { topup_used = u.topup_used - 1 }) b in
          record charged { topups = (refund_newest company cycle b.topups).0 })
      else if ltb 0 u.base_used
      then set_usage company cycle (record u { base_used = u.base_used - 1 }) b
      else b
]

-- `decrementUsage`
unfoldable pub decrement_usage : Uuid → Books → Books
decrement_usage company b = elim (b.companies company) [
  | none ↦ b
  | some c ↦ if env_is_dev c.dgii_env then b else elim (b.plans company) [
    | none ↦ b
    | some p ↦
        let refunded = refund_row company p.cycle_start b in
        if is_exhausted p.status
        then set_plan company (record p { status = active }) refunded
        else refunded
  ]
]

-- `revertUsage`: the flag is claimed first, and only the winner refunds.
unfoldable pub revert_usage : Uuid → Uuid → Books → Books
revert_usage invoice company b = elim (b.reverted invoice) [
  | none ↦ b
  | some true ↦ b
  | some false ↦
      decrement_usage company
        (record b { reverted = λ i. if i == invoice then some true else b.reverted i })
]
