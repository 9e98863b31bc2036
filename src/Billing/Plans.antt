-- ===== src/Billing/Plans.antt =====
-- `assignPlan`, `canEmitInvoice`, `getUsage` and `purchaseTopup` of
-- src/billing/company-billing.service.ts. The catalogues of plans and of top-up packs are functions of
-- the code.
pub mod Room
use ecf_api.Prelude.{
  ℕ, ◌+◌, ◌-◌, ◌*◌, ◌/◌, Bool, true, false, ◌&&◌, List, [], ◌∷◌, ◌++◌, Option, none, some, ltb, leb,
  ◌==◌, max, map, if◌then◌else◌,
}
use ecf_api.Prelude.Text.{Text}
use ecf_api.Prelude.Results.{Result, ok, err}
use ecf_api.Prelude.Rows.{find_many}
use ecf_api.Types.{Uuid, Time, env_is_dev}
use ecf_api.Billing.{
  PlanStatus, active, exhausted, expired, cancelled, is_exhausted, Company, CompanyPlan,
  CompanyUsage, TopupPurchase, Books, set_plan, set_usage,
}

-- `model BillingPlan` and `model TopupPack`, as far as the services read them.
pub record BillingPlan : Type 0 where
  pub included_invoices : ℕ
  pub is_active : Bool

pub record TopupPack : Type 0 where
  pub invoice_count : ℕ
  pub is_active : Bool

pub data PlanError : Type 0 where
  company_not_found plan_not_found no_plan pack_not_found : PlanError

-- `findFirst({ where: { id: companyId, tenantId } })`
unfoldable pub find_company : Uuid → Uuid → Books → Option Company
find_company company tenant b = elim (b.companies company) [
  | none ↦ none
  | some c ↦ if c.tenant_id == tenant then some c else none
]

-- 30 days in milliseconds.
abbrev pub cycle_length : ℕ
cycle_length = 30 * 24 * 60 * 60 * 1000

-- The new cycle of a company.
unfoldable pub start_cycle : Time → Uuid → BillingPlan → Books → Books
start_cycle now company plan b =
    let planned =
      set_plan company
        (record {
          status = active;
          cycle_start = now;
          cycle_end = now + cycle_length;
          included_invoices = plan.included_invoices;
        })
        b in
    elim (planned.usages company now) [
      | some _ ↦ planned
      | none ↦
          set_usage company now
            (record { base_used = 0; topup_used = 0; total_quota = plan.included_invoices }) planned
    ]

unfoldable pub assign_plan :
    (Text → Option BillingPlan)
    → Time
    → Uuid
    → Text
    → Uuid
    → Books
    → Result PlanError (Unit {0}) × Books
assign_plan plans now company plan_code tenant b = elim (find_company company tenant b) [
  | none ↦ (err company_not_found, b)
  | some _ ↦ elim (plans plan_code) [
    | none ↦ (err plan_not_found, b)
    | some plan ↦
        if plan.is_active then (ok tt, start_cycle now company plan b) else (err plan_not_found, b)
  ]
]

-- The answer of `canEmitInvoice`; `fallback` is an allowance without a plan of the company.
pub data Emission : Type 0 where
  allowed fallback unknown_company plan_expired plan_cancelled quota_used : Emission

unfoldable pub can_emit_usage : Option CompanyUsage → Emission
can_emit_usage none = allowed
can_emit_usage (some u) =
    if leb u.total_quota (u.base_used + u.topup_used) then quota_used else allowed

unfoldable pub can_emit_status : PlanStatus → Time → Uuid → CompanyPlan → Books → Emission
can_emit_status expired now company p b = plan_expired
can_emit_status cancelled now company p b = plan_cancelled
can_emit_status exhausted now company p b = quota_used
can_emit_status active now company p b =
    if ltb p.cycle_end now then plan_expired else can_emit_usage (b.usages company p.cycle_start)

unfoldable pub can_emit_plan : Option CompanyPlan → Time → Uuid → Books → Emission
can_emit_plan none now company b = fallback
can_emit_plan (some p) now company b = can_emit_status p.status now company p b

unfoldable pub can_emit_invoice : Time → Uuid → Uuid → Books → Emission
can_emit_invoice now company tenant b = elim (find_company company tenant b) [
  | none ↦ unknown_company
  | some c ↦
      if env_is_dev c.dgii_env then allowed else can_emit_plan (b.plans company) now company b
]

-- The figures of `getUsage` that it computes.
pub record UsageSummary : Type 0 where
  pub days_remaining : ℕ
  pub base_used : ℕ
  pub topup_used : ℕ
  pub total_used : ℕ
  pub total_quota : ℕ
  pub remaining : ℕ
  pub active_topups : List TopupPurchase

abbrev pub day_length : ℕ
day_length = 24 * 60 * 60 * 1000

-- The usage of a plan, or the figures of an unused one.
unfoldable pub usage_or_new : CompanyPlan → Option CompanyUsage → CompanyUsage
usage_or_new p none = record { base_used = 0; topup_used = 0; total_quota = p.included_invoices }
usage_or_new p (some u) = u

unfoldable pub summarise : Time → Uuid → CompanyPlan → Books → UsageSummary
summarise now company p b =
    let u = usage_or_new p (b.usages company p.cycle_start) in
    record {
      days_remaining = ((p.cycle_end - now) + (day_length - 1)) / day_length;
      base_used = u.base_used;
      topup_used = u.topup_used;
      total_used = u.base_used + u.topup_used;
      total_quota = u.total_quota;
      remaining = u.total_quota - (u.base_used + u.topup_used);
      active_topups =
          find_many
            (λ t. t.company_id == company && t.cycle_start == p.cycle_start && ltb now t.cycle_end)
            b.topups;
    }

-- `none` is a company without a plan.
unfoldable pub get_usage : Time → Uuid → Uuid → Books → Result PlanError (Option UsageSummary)
get_usage now company tenant b = elim (find_company company tenant b) [
  | none ↦ err company_not_found
  | some _ ↦ elim (b.plans company) [
    | none ↦ ok none
    | some p ↦ ok (some (summarise now company p b))
  ]
]

-- The quota of a purchase, if there is a usage row of the cycle.
unfoldable pub add_quota : Uuid → Time → ℕ → Books → Books
add_quota company cycle count b = elim (b.usages company cycle) [
  | none ↦ b
  | some u ↦ set_usage company cycle (record u { total_quota = u.total_quota + count }) b
]

-- The purchase of a pack under a plan: the row, the quota, and the plan.
unfoldable pub buy : Uuid → CompanyPlan → TopupPack → Books → Books
buy company p pack b =
    let purchase : TopupPurchase = record {
      company_id = company;
      cycle_start = p.cycle_start;
      cycle_end = p.cycle_end;
      invoices_used = 0;
    } in
    let bought =
      add_quota company p.cycle_start pack.invoice_count
        (record b { topups = b.topups ++ purchase ∷ [] }) in
    if is_exhausted p.status then set_plan company (record p { status = active }) bought else bought

unfoldable pub purchase_topup :
    (Text → Option TopupPack) → Uuid → Text → Uuid → Books → Result PlanError (Unit {0}) × Books
purchase_topup packs company pack_code tenant b = elim (find_company company tenant b) [
  | none ↦ (err company_not_found, b)
  | some _ ↦ elim (b.plans company) [
    | none ↦ (err no_plan, b)
    | some p ↦ elim (packs pack_code) [
      | none ↦ (err pack_not_found, b)
      | some pack ↦
          if pack.is_active then (ok tt, buy company p pack b) else (err pack_not_found, b)
    ]
  ]
]
