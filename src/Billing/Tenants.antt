-- ===== src/Billing/Tenants.antt =====
-- The plans of tenants of src/billing/billing.service.ts, and the guard of the emission of
-- src/billing/guards/active-plan.guard.ts.
pub mod Guarded
use ecf_api.Prelude.{
  ℕ, suc, ◌+◌, ◌-◌, ◌*◌, ◌/◌, Bool, true, false, ◌&&◌, ◌||◌, not, List, [], ◌∷◌, Option, none, some,
  ltb, leb, ◌==◌, length, if◌then◌else◌,
}
use ecf_api.Prelude.Results.{Result, ok, err}
use ecf_api.Prelude.Rows.{find_first, find_many}
use ecf_api.Types.{Uuid, Time}
use ecf_api.Billing.{Books}
use ecf_api.Billing.Plans.{
  Emission, allowed, fallback, unknown_company, plan_expired, plan_cancelled, quota_used,
  can_emit_invoice,
}

-- `TenantPlanStatus`
pub data TenantPlanStatus : Type 0 where
  plan_active plan_lapsed plan_ended : TenantPlanStatus

abbrev pub is_active_status : TenantPlanStatus → Bool
is_active_status plan_active = true
is_active_status _ = false

-- `model TenantPlan`, with the quota of its plan and the count of its `MonthlyUsage`, if it has one.
pub record TenantPlan : Type 0 where
  pub tenant_id : Uuid
  pub status : TenantPlanStatus
  pub expires_at : Option Time
  pub included_invoices : ℕ
  pub invoices_count : Option ℕ

-- `expiresAt: { gt: now }`, which null does not satisfy.
abbrev pub is_after : Time → Option Time → Bool
is_after now none = false
is_after now (some t) = ltb now t

abbrev pub is_active_plan : Time → Uuid → TenantPlan → Bool
is_active_plan now tenant p =
    p.tenant_id == tenant && is_active_status p.status && is_after now p.expires_at

-- `getActivePlan`, on the rows in the order of the query.
unfoldable pub get_active_plan : Time → Uuid → List TenantPlan → Option TenantPlan
get_active_plan now tenant rows = find_first (is_active_plan now tenant) rows

abbrev pub count_of : Option ℕ → ℕ
count_of none = 0
count_of (some n) = n

pub data TenantEmission : Type 0 where
  may_emit without_plan plan_used : TenantEmission

-- `canEmitInvoice`
unfoldable pub can_tenant_emit : Time → Uuid → List TenantPlan → TenantEmission
can_tenant_emit now tenant rows = elim (get_active_plan now tenant rows) [
  | none ↦ without_plan
  | some p ↦ if leb p.included_invoices (count_of p.invoices_count) then plan_used else may_emit
]

-- `incrementInvoiceCount`: the first active plan counts one more.
unfoldable pub increment_invoice_count : Time → Uuid → List TenantPlan → List TenantPlan
increment_invoice_count now tenant [] = []
increment_invoice_count now tenant (p ∷ rows) =
    if is_active_plan now tenant p
    then record p { invoices_count = some (count_of p.invoices_count + 1) } ∷ rows
    else p ∷ increment_invoice_count now tenant rows

-- A plan that `expireStalePlans` ends.
abbrev pub is_stale : Time → TenantPlan → Bool
is_stale now p =
    is_active_status p.status && elim p.expires_at [ none ↦ false | some t ↦ ltb t now ]

-- `expireStalePlans`: the number of rows, and the rows.
unfoldable pub expire_stale_plans : Time → List TenantPlan → ℕ × List TenantPlan
expire_stale_plans now [] = (0, [])
expire_stale_plans now (p ∷ rows) =
    let (n, rest) = expire_stale_plans now rows in
    if is_stale now p then (n + 1, record p { status = plan_lapsed } ∷ rest) else (n, p ∷ rest)

-- The exceptions of the guard, each of status 402.
pub data PaymentRequired : Type 0 where
  company_refused : Emission → PaymentRequired
  tenant_refused : TenantEmission → PaymentRequired

unfoldable pub tenant_guard : Time → Uuid → List TenantPlan → Result PaymentRequired (Unit {0})
tenant_guard now tenant rows = elim (can_tenant_emit now tenant rows) [
  | may_emit ↦ ok tt
  | refused ↦ err (tenant_refused refused)
]

unfoldable pub company_guard :
    Emission → Time → Uuid → List TenantPlan → Result PaymentRequired (Unit {0})
company_guard allowed now tenant rows = ok tt
company_guard fallback now tenant rows = tenant_guard now tenant rows
company_guard refused now tenant rows = err (company_refused refused)

-- `canActivate`. The first argument says that the scopes of the key include ADMIN, the second that the
-- optional `companyBillingService` is there.
unfoldable pub can_activate :
    Bool
    → Bool
    → Time
    → Uuid
    → Option Uuid
    → Books
    → List TenantPlan
    → Result PaymentRequired (Unit {0})
can_activate true served now tenant company b rows = ok tt
can_activate false served now tenant none b rows = tenant_guard now tenant rows
can_activate false false now tenant (some company) b rows = tenant_guard now tenant rows
can_activate false true now tenant (some company) b rows =
    company_guard (can_emit_invoice now company tenant b) now tenant rows
