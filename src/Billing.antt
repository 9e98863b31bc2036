-- ===== src/Billing.antt =====
-- The metering of a company's invoices: src/billing/usage.service.ts and
-- src/billing/company-billing.service.ts, with the tables that they use.
-- A table with a unique key is a function of the key; the purchases of a table are listed in the order
-- of their creation. Each raw `UPDATE … WHERE … RETURNING` is one step on its row.
pub mod Usage
pub mod Plans
pub mod Tenants
use ecf_api.Prelude.{
  ℕ, suc, ◌+◌, ◌-◌, Bool, true, false, ◌&&◌, not, List, [], ◌∷◌, Option, none, some, ltb, leb, ◌==◌,
  if◌then◌else◌,
}
use ecf_api.Types.{Uuid, Time, DgiiEnv}

-- `CompanyPlanStatus`
pub data PlanStatus : Type 0 where
  active exhausted expired cancelled : PlanStatus

abbrev pub is_exhausted : PlanStatus → Bool
is_exhausted exhausted = true
is_exhausted _ = false

-- `model Company`, as far as billing reads it.
pub record Company : Type 0 where
  pub tenant_id : Uuid
  pub dgii_env : DgiiEnv

-- `model CompanyPlan` with the quota of its plan.
pub record CompanyPlan : Type 0 where
  pub status : PlanStatus
  pub cycle_start : Time
  pub cycle_end : Time
  pub included_invoices : ℕ

-- `model CompanyUsage`
pub record CompanyUsage : Type 0 where
  pub base_used : ℕ
  pub topup_used : ℕ
  pub total_quota : ℕ

-- `model TopupPurchase`
pub record TopupPurchase : Type 0 where
  pub company_id : Uuid
  pub cycle_start : Time
  pub cycle_end : Time
  pub invoices_used : ℕ

-- The tables. `usages company cycle_start` and `reverted invoice` (the column `usageReverted`).
pub record Books : Type 0 where
  pub companies : Uuid → Option Company
  pub plans : Uuid → Option CompanyPlan
  pub usages : Uuid → Time → Option CompanyUsage
  pub topups : List TopupPurchase
  pub reverted : Uuid → Option Bool

-- The exceptions of `incrementUsage`.
pub data UsageError : Type 0 where
  usage_row_missing quota_exhausted : UsageError

abbrev pub set_plan : Uuid → CompanyPlan → Books → Books
set_plan company p b = record b { plans = λ c. if c == company then some p else b.plans c }

abbrev pub set_usage : Uuid → Time → CompanyUsage → Books → Books
set_usage company cycle u b = record b {
  usages = λ c t. if c == company && t == cycle then some u else b.usages c t;
}
