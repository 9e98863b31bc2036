-- ===== src/Tests/Billing.antt =====
-- The metering of src/billing/usage.service.ts at work.
use ecf_api.Prelude.{
  ◌-◌, ◌≡◌, ◌≢◌, inl, refl, true, false, Option, List, [], ◌∷◌, none, some, arith, min, length,
  ◌==◌, if◌then◌else◌, ◌&&◌,
}
use ecf_api.Prelude.Text.{Text}
use ecf_api.Prelude.Results.{err}
use ecf_api.Types.{Time, prod}
use ecf_api.Billing.{
  active, quota_exhausted, Company, CompanyPlan, CompanyUsage, TopupPurchase, Books,
}
use ecf_api.Billing.Usage.{
  metered_plan, increment_usage, revert_usage, metered_by, consume, consume_topup, charge_base,
  charge_topup, flip_exhausted, refuse, charge_oldest,
}
use ecf_api.Billing.Usage.Quota.{used, emit_all, emit_all_exact, IsWithin, increment_usage-IsWithin}
use ecf_api.Billing.Plans.{
  TopupPack, find_company, can_emit_invoice, can_emit_plan, can_emit_status, can_emit_usage,
}
use ecf_api.Billing.Plans.Room.{Counts, can_emit-Counts}
use ecf_api.Billing.Tenants.{TenantPlan, plan_active, can_activate, company_guard}
use ecf_api.Billing.Tenants.Guarded.{can_activate-room}
use ecf_api.Billing.Usage.Refund.{revert_usage_once}

abbrev company : Company
company = record { tenant_id = 1; dgii_env = prod }

abbrev plan : CompanyPlan
plan = record { status = active; cycle_start = 100; cycle_end = 200; included_invoices = 2 }

abbrev usage : CompanyUsage
usage = record { base_used = 1; topup_used = 0; total_quota = 3 }

abbrev purchase : TopupPurchase
purchase = record { company_id = 7; cycle_start = 100; cycle_end = 200; invoices_used = 0 }

abbrev times : List Time
times = 110 ∷ 120 ∷ 130 ∷ []

abbrev pub books : Books
books = record {
  companies = λ c. if c == 7 then some company else none;
  plans = λ c. if c == 7 then some plan else none;
  usages = λ c t. if c == 7 && t == 100 then some usage else none;
  topups = purchase ∷ [];
  reverted = λ _. some false;
}

metered : metered_plan 7 books ≡ some plan
unfolding metered_by
metered = refl

-- Three emissions where two are left.
two_left : (emit_all times 7 books).0 ≡ 2
unfolding emit_all increment_usage metered_by consume consume_topup charge_base charge_topup
    flip_exhausted refuse charge_oldest
two_left = refl

emit_all_exact_example :
    (emit_all times 7 books).0 ≡ min (length times) (usage.total_quota - used usage)
emit_all_exact_example = emit_all_exact times 7 books plan usage metered refl

books-IsWithin : IsWithin books
books-IsWithin c t u row = ground arith

increment_usage-IsWithin_example : IsWithin (increment_usage 110 7 books).1
increment_usage-IsWithin_example = increment_usage-IsWithin 110 7 books books-IsWithin

revert_usage_once_example : revert_usage 3 7 (revert_usage 3 7 books) ≡ revert_usage 3 7 books
revert_usage_once_example = revert_usage_once 3 7 7 books

abbrev pack : TopupPack
pack = record { invoice_count = 5; is_active = true }

abbrev packs : Text → Option TopupPack
packs _ = some pack

can_emit-Counts_example : Counts 120 7 books
unfolding can_emit_invoice can_emit_plan can_emit_status can_emit_usage find_company
can_emit-Counts_example = can_emit-Counts 110 120 7 1 books (inl refl)

company_known : find_company 7 1 books ≡ some company
unfolding find_company
company_known = refl

can_activate-room_example : (increment_usage 120 7 books).0 ≢ err quota_exhausted
unfolding can_activate company_guard can_emit_invoice can_emit_plan can_emit_status can_emit_usage
    find_company
can_activate-room_example = can_activate-room 110 120 1 7 books [] refl

abbrev stale : TenantPlan
stale = record {
  tenant_id = 1;
  status = plan_active;
  expires_at = some 90;
  included_invoices = 5;
  invoices_count = none;
}
