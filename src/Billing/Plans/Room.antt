-- ===== src/Billing/Plans/Room.antt =====
-- The quota that a plan and its top-ups give.
use ecf_api.Prelude.{
  ◌+◌, ◌-◌, ◌<◌, ◌≡◌, refl, ◌⊎◌, inl, inr, true, false, List, Option, none, some, arith, min,
  length, Bool-cases, Option-cases,
}
use ecf_api.Prelude.Text.{Text}
use ecf_api.Prelude.Results.{ok, err}
use ecf_api.Types.{Uuid, Time, env_is_dev}
use ecf_api.Billing.{
  active, is_exhausted, Company, CompanyPlan, CompanyUsage, Books, usage_row_missing,
}
use ecf_api.Billing.Usage.{
  metered_by, metered_plan, increment_usage, consume, consume_topup, refuse,
}
use ecf_api.Billing.Usage.Quota.{
  used, charged, used-charged, emit_all, emit_all_exact, consume_room,
}
use ecf_api.Billing.Plans.{
  TopupPack, find_company, allowed, fallback, can_emit_usage, can_emit_status, can_emit_plan,
  can_emit_invoice, add_quota, buy, purchase_topup,
}

-- The outcome of an emission that `canEmitInvoice` allowed: the usage row of the plan that meters the
-- company is charged one invoice; or no plan meters it, and the tables stay; or the plan has no usage row.
abbrev pub Counts : Time → Uuid → Books → Type 0
Counts now company b =
    ((p : CompanyPlan) × (u : CompanyUsage) × (v : CompanyUsage) × (metered_plan company b ≡ some p)
      × (b.usages company p.cycle_start ≡ some u)
      × ((increment_usage now company b).0 ≡ ok tt)
      × ((increment_usage now company b).1.usages company p.cycle_start ≡ some v)
      × (used v ≡ used u + 1))
    ⊎ ((metered_plan company b ≡ none) × (increment_usage now company b ≡ (ok tt, b)))
    ⊎ (p : CompanyPlan) × (metered_plan company b ≡ some p)
      × (b.usages company p.cycle_start ≡ none)
      × ((increment_usage now company b).0 ≡ err usage_row_missing)

consume_without_row :
    (now : Time) (company : Uuid) (p : CompanyPlan) (b : Books)
    → b.usages company p.cycle_start ≡ none
    → (consume now company p b).0 ≡ err usage_row_missing
unfolding consume consume_topup refuse
consume_without_row now company p b missing = ground arith

metered-Counts :
    (now : Time) (company : Uuid) (b : Books) (p : CompanyPlan)
    → metered_plan company b ≡ some p
    → can_emit_usage (b.usages company p.cycle_start) ≡ allowed
    → Counts now company b
unfolding increment_usage can_emit_usage
metered-Counts now company b p plan may = elim (Option-cases (b.usages company p.cycle_start)) [
  | inl missing ↦ inr (
      inr (
        p,
        plan,
        missing,
        rw (plan, increment_usage) (consume_without_row now company p b missing),
      ))
  | inr (u, row) ↦
      let room : used u < u.total_quota = ground (arith, row) in
      let (good, write) = consume_room now company p b u row room in
      let v = charged p.included_invoices u in
      let row' : (consume now company p b).1.usages company p.cycle_start ≡ some v =
        ground (arith, write company p.cycle_start) in
      inl (
        p,
        u,
        v,
        plan,
        row,
        rw (plan, increment_usage) good,
        rw (plan, increment_usage) row',
        used-charged p.included_invoices u,
      )
]

-- A company with no plan by which it is metered.
unmetered-Counts :
    (now : Time) (company : Uuid) (b : Books) → metered_plan company b ≡ none → Counts now company b
unfolding increment_usage
unmetered-Counts now company b free = inr (inl (free, rw (free, increment_usage) refl))

plan-Counts :
    (now then_ : Time) (company : Uuid) (b : Books) (c : Company) (o : Option CompanyPlan)
    → b.companies company ≡ some c
    → env_is_dev c.dgii_env ≡ false
    → b.plans company ≡ o
    → (can_emit_plan o now company b ≡ allowed) ⊎ (can_emit_plan o now company b ≡ fallback)
    → Counts then_ company b
unfolding can_emit_plan can_emit_status metered_by can_emit_usage
plan-Counts now then_ company b c none found prod none_plan may =
    unmetered-Counts then_ company b (ground arith)
plan-Counts now then_ company b c (some p) found prod plan may =
    metered-Counts then_ company b p (ground arith) (ground arith)

dev_unmetered :
    (company : Uuid) (b : Books) (c : Company)
    → b.companies company ≡ some c
    → env_is_dev c.dgii_env ≡ true
    → metered_plan company b ≡ none
unfolding metered_by
dev_unmetered company b c found dev = ground arith

plan_of_metered :
    (company : Uuid) (b : Books) (p : CompanyPlan)
    → metered_plan company b ≡ some p
    → b.plans company ≡ some p
unfolding metered_by
plan_of_metered company b p plan = ground arith

-- When `canEmitInvoice` allows an emission, by a plan of the company or for want of one, an emission on
-- the same tables succeeds and charges exactly one invoice to the usage row of the plan that meters the
-- company, whatever its time; or no plan meters the company (none, an ended one, or the environment DEV),
-- and it succeeds and changes nothing; or the plan has no usage row, and it fails for that.
pub can_emit-Counts :
    (now later : Time) (company tenant : Uuid) (b : Books)
    → (can_emit_invoice now company tenant b ≡ allowed)
      ⊎ (can_emit_invoice now company tenant b ≡ fallback)
    → Counts later company b
unfolding can_emit_invoice find_company
can_emit-Counts now later company tenant b may = elim (Option-cases (b.companies company)) [
  | inl missing ↦ absurd (ground arith)
  | inr (c, found) ↦ elim (Bool-cases (env_is_dev c.dgii_env)) [
    | inl dev ↦ unmetered-Counts later company b (dev_unmetered company b c found dev)
    | inr prod ↦ plan-Counts now later company b c (b.plans company) found prod refl (ground arith)
  ]
]

buy-metered :
    (company : Uuid) (p : CompanyPlan) (pack : TopupPack) (b : Books) (u : CompanyUsage)
    → metered_plan company b ≡ some p
    → b.usages company p.cycle_start ≡ some u
    → (q : CompanyPlan) × (metered_plan company (buy company p pack b) ≡ some q)
      × ((buy company p pack b).usages company q.cycle_start
          ≡ some (record u { total_quota = u.total_quota + pack.invoice_count }))
unfolding buy add_quota metered_by
buy-metered company p pack b u plan row = elim (Bool-cases (is_exhausted p.status)) [
  | inl full ↦ (record p { status = active }, ground arith, ground arith)
  | inr open_plan ↦ (p, ground arith, ground arith)
]

-- After the purchase of a pack on sale for a metered company with a usage row, of any number of emissions
-- as many succeed as were left of its quota and come with the pack.
pub purchase_topup-room :
    (packs : Text → Option TopupPack) (company : Uuid) (code : Text) (tenant : Uuid) (b : Books)
    (pack : TopupPack) (c : Company) (p : CompanyPlan) (u : CompanyUsage) (times : List Time)
    → find_company company tenant b ≡ some c
    → packs code ≡ some pack
    → pack.is_active ≡ true
    → metered_plan company b ≡ some p
    → b.usages company p.cycle_start ≡ some u
    → (emit_all times company (purchase_topup packs company code tenant b).1).0
      ≡ min (length times) (u.total_quota + pack.invoice_count - used u)
unfolding purchase_topup
purchase_topup-room packs company code tenant b pack c p u times known listed sold plan row =
    let bought : (purchase_topup packs company code tenant b).1 ≡ buy company p pack b =
      rw (known, plan_of_metered company b p plan, listed, sold, purchase_topup) in
    let (q, plan', row') = buy-metered company p pack b u plan row in
    rw bought (
      emit_all_exact times company (buy company p pack b) q
        (record u { total_quota = u.total_quota + pack.invoice_count }) plan' row')
