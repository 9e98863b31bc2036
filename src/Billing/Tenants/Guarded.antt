-- ===== src/Billing/Tenants/Guarded.antt =====
-- What the guard of the emission promises.
use ecf_api.Prelude.{
  ◌≡◌, refl, ap, ◌≢◌, ◌⊎◌, inl, inr, true, false, List, [], ◌∷◌, some, arith, length,
}
use ecf_api.Prelude.Results.{ok, err}
use ecf_api.Prelude.Rows.{All, find_many}
use ecf_api.Types.{Uuid, Time}
use ecf_api.Billing.{Books, quota_exhausted}
use ecf_api.Billing.Usage.{increment_usage}
use ecf_api.Billing.Plans.{Emission, allowed, fallback, can_emit_invoice}
use ecf_api.Billing.Plans.Room.{can_emit-Counts}
use ecf_api.Billing.Tenants.{TenantPlan, is_stale, expire_stale_plans, company_guard, can_activate}

company_guard_lem :
    (e : Emission) (now : Time) (tenant : Uuid) (rows : List TenantPlan)
    → company_guard e now tenant rows ≡ ok tt
    → (e ≡ allowed) ⊎ (e ≡ fallback)
unfolding company_guard
company_guard_lem allowed now tenant rows h = inl refl
company_guard_lem fallback now tenant rows h = inr refl
company_guard_lem _ now tenant rows h = absurd (ground arith)

-- A request for a company that the guard lets pass, without an administrator's key and with the service
-- of company plans there, is not refused for its quota by `incrementUsage` on the same tables, with no
-- other emission in between.
pub can_activate-room :
    (now later : Time) (tenant company : Uuid) (b : Books) (rows : List TenantPlan)
    → can_activate false true now tenant (some company) b rows ≡ ok tt
    → (increment_usage later company b).0 ≢ err quota_exhausted
unfolding can_activate
can_activate-room now later tenant company b rows passes refused =
    let may = company_guard_lem (can_emit_invoice now company tenant b) now tenant rows passes in
    elim (can_emit-Counts now later company tenant b may) [
      | inl (p, u, v, plan, row, counts, after, one) ↦ cc
      | inr (inl (free, same)) ↦ cc (ap (λ x. x.0) same)
      | inr (inr (p, plan, missing, fails)) ↦ cc
    ]

-- After `expireStalePlans` no active plan has an expiry date that is past, and it reports how many it ended.
pub expire_stale_plans_lem :
    (now : Time) (rows : List TenantPlan)
    → All (λ p. is_stale now p ≡ false) (expire_stale_plans now rows).1
      × ((expire_stale_plans now rows).0 ≡ length (find_many (is_stale now) rows))
unfolding expire_stale_plans
expire_stale_plans_lem now [] = (tt, refl)
expire_stale_plans_lem now (p ∷ rows) = grind (arith, expire_stale_plans_lem now rows)
