-- ===== src/Billing/Usage/Quota.antt =====
-- The quota is never passed, and each metered invoice counts once.
use ecf_api.Prelude.{
  ℕ, suc, ◌+◌, ◌-◌, ◌≤◌, ◌<◌, ◌≡◌, sym, ◌∙◌, ◌⊎◌, inl, inr, false, ◌&&◌, List, [], ◌∷◌, Option,
  none, some, arith, min, length, ltb, ◌==◌, if◌then◌else◌, Bool-cases, Option-cases, ltb→lt,
}
use ecf_api.Prelude.Results.{ok, err}
use ecf_api.Types.{Uuid, Time}
use ecf_api.Billing.{exhausted, Company, CompanyPlan, CompanyUsage, Books, quota_exhausted}
use ecf_api.Billing.Usage.{
  charge_base, charge_topup, flip_exhausted, refuse, consume_topup, consume, metered_by,
  metered_plan, increment_usage,
}

-- What the code counts against the quota.
abbrev pub used : CompanyUsage → ℕ
used u = u.base_used + u.topup_used

-- The usage row after one invoice.
unfoldable pub charged : ℕ → CompanyUsage → CompanyUsage
charged plan_base u =
    if ltb u.base_used plan_base
    then record u { base_used = u.base_used + 1 }
    else record u { topup_used = u.topup_used + 1 }

pub used-charged : (n : ℕ) (u : CompanyUsage) → used (charged n u) ≡ used u + 1
unfolding charged
used-charged n u = ground arith

pub quota-charged : (n : ℕ) (u : CompanyUsage) → (charged n u).total_quota ≡ u.total_quota
unfolding charged
quota-charged n u = ground arith

consume_missing :
    (now : Time) (company : Uuid) (p : CompanyPlan) (b : Books)
    → b.usages company p.cycle_start ≡ none
    → (c : Uuid) (t : Time) → (consume now company p b).1.usages c t ≡ b.usages c t
unfolding consume consume_topup refuse
consume_missing now company p b missing c t = ground arith

module _ (now : Time) (company : Uuid) (p : CompanyPlan) (b : Books) (u : CompanyUsage)
    (row : b.usages company p.cycle_start ≡ some u) where
  -- With room under the quota the row is charged once.
  pub consume_room :
      used u < u.total_quota
      → ((consume now company p b).0 ≡ ok tt)
        × ((c : Uuid) (t : Time)
            → (consume now company p b).1.usages c t ≡ (
                if c == company && t == p.cycle_start
                then some (charged p.included_invoices u)
                else b.usages c t))
  unfolding consume consume_topup charge_base charge_topup charged flip_exhausted
  consume_room room = (ground arith, λ c t. ground arith)

  -- Without it nothing is charged.
  pub consume_full :
      u.total_quota ≤ used u
      → ((consume now company p b).0 ≡ err quota_exhausted)
        × ((c : Uuid) (t : Time) → (consume now company p b).1.usages c t ≡ b.usages c t)
  unfolding consume consume_topup charge_base charge_topup refuse
  consume_full full = (ground arith, λ c t. ground arith)

-- No usage row is above its quota.
abbrev pub IsWithin : Books → Type 0
IsWithin b =
    (c : Uuid) (t : Time) (u : CompanyUsage) → b.usages c t ≡ some u → used u ≤ u.total_quota

IsWithin-of_same :
    (b b' : Books)
    → IsWithin b
    → ((c : Uuid) (t : Time) → b'.usages c t ≡ b.usages c t)
    → IsWithin b'
IsWithin-of_same b b' h same c t u e = h c t u (sym (same c t) ∙ e)

IsWithin-of_charge :
    (company : Uuid) (cycle : Time) (n : ℕ) (u : CompanyUsage) (b b' : Books)
    → IsWithin b
    → used u < u.total_quota
    → ((c : Uuid) (t : Time)
        → b'.usages c t ≡ (if c == company && t == cycle then some (charged n u) else b.usages c t))
    → IsWithin b'
IsWithin-of_charge company cycle n u b b' h room write c t v e =
    elim (Bool-cases (c == company && t == cycle)) [
      | inl here ↦
          let same : some (charged n u) ≡ some v = sym (rw here at (write c t)) ∙ e in
          ground (arith, used-charged n u, quota-charged n u)
      | inr there ↦ h c t v (sym (rw there at (write c t)) ∙ e)
    ]

consume-IsWithin :
    (now : Time) (company : Uuid) (p : CompanyPlan) (b : Books)
    → IsWithin b
    → IsWithin (consume now company p b).1
consume-IsWithin now company p b h =
    let b' = (consume now company p b).1 in
    elim (Option-cases (b.usages company p.cycle_start)) [
      | inl missing ↦ IsWithin-of_same b b' h (consume_missing now company p b missing)
      | inr (u, row) ↦ elim (Bool-cases (ltb (used u) u.total_quota)) [
        | inl room ↦
            IsWithin-of_charge company p.cycle_start p.included_invoices u b b' h (ground arith)
              (consume_room now company p b u row (ground arith)).1
        | inr full ↦ IsWithin-of_same b b' h (consume_full now company p b u row (ground arith)).1
      ]
    ]

-- An emission, metered or not, refused or not, leaves every usage row within its quota.
pub increment_usage-IsWithin :
    (now : Time) (company : Uuid) (b : Books)
    → IsWithin b
    → IsWithin (increment_usage now company b).1
unfolding increment_usage
increment_usage-IsWithin now company b h = elim (Option-cases (metered_plan company b)) [
  | inl free ↦ rw (free, increment_usage) h
  | inr (p, plan) ↦ rw (plan, increment_usage) (consume-IsWithin now company p b h)
]

pub consume_companies :
    (now : Time) (company : Uuid) (p : CompanyPlan) (b : Books)
    → (consume now company p b).1.companies ≡ b.companies
unfolding consume consume_topup charge_base charge_topup refuse flip_exhausted
consume_companies now company p b = ground arith

pub consume_plans :
    (now : Time) (company : Uuid) (p : CompanyPlan) (b : Books)
    → ((consume now company p b).1.plans company ≡ b.plans company)
      ⊎ ((consume now company p b).1.plans company ≡ some (record p { status = exhausted }))
unfolding consume consume_topup charge_base charge_topup refuse flip_exhausted
consume_plans now company p b = ground arith

metered_by-flipped :
    (c : Option Company) (q : Option CompanyPlan) (p : CompanyPlan)
    → metered_by c q ≡ some p
    → metered_by c (some (record p { status = exhausted })) ≡ some (record p { status = exhausted })
unfolding metered_by
metered_by-flipped none q p h = cc
metered_by-flipped (some c) q p h = ground arith

-- The plan that meters the company after a charge: only its status may change.
pub metered_after :
    (company : Uuid) (p : CompanyPlan) (b b' : Books)
    → metered_plan company b ≡ some p
    → b'.companies ≡ b.companies
    → (b'.plans company ≡ b.plans company)
      ⊎ (b'.plans company ≡ some (record p { status = exhausted }))
    → (metered_plan company b' ≡ some p)
      ⊎ (metered_plan company b' ≡ some (record p { status = exhausted }))
metered_after company p b b' plan companies (inl same) = inl (rw (companies, same) plan)
metered_after company p b b' plan companies (inr flipped) =
    inr
      (rw (companies, flipped) (metered_by-flipped (b.companies company) (b.plans company) p plan))

pub metered_step :
    (now : Time) (company : Uuid) (b : Books) (p : CompanyPlan)
    → metered_plan company b ≡ some p
    → increment_usage now company b ≡ consume now company p b
unfolding increment_usage
metered_step now company b p plan = rw (plan, increment_usage)

ltb-false→le : (a b : ℕ) → ltb a b ≡ false → b ≤ a
ltb-false→le a b h = ground arith

-- The emissions of a company in turn, each in a transaction: how many succeed, and the tables.
unfoldable pub emit_all : List Time → Uuid → Books → ℕ × Books
emit_all [] company b = (0, b)
emit_all (now ∷ times) company b = elim (increment_usage now company b).0 [
  | ok _ ↦ let (n, b') = emit_all times company (increment_usage now company b).1 in (suc n, b')
  | err _ ↦ emit_all times company b
]

-- Of any number of emissions in turn by a metered company, at any times, as many succeed as the quota
-- of its usage row has left, and all of them if there is room for all.
pub emit_all_exact :
    (times : List Time) (company : Uuid) (b : Books) (p : CompanyPlan) (u : CompanyUsage)
    → metered_plan company b ≡ some p
    → b.usages company p.cycle_start ≡ some u
    → (emit_all times company b).0 ≡ min (length times) (u.total_quota - used u)
unfolding emit_all
emit_all_exact [] company b p u plan row = omega arith
emit_all_exact (now ∷ times) company b p u plan row =
    elim (Bool-cases (ltb (used u) u.total_quota)) [
      | inl room ↦
          let (good, write) = consume_room now company p b u row (ground arith) in
          let b' = (consume now company p b).1 in
          let row' : b'.usages company p.cycle_start ≡ some (charged p.included_invoices u) =
            ground (arith, write company p.cycle_start) in
          let v = charged p.included_invoices u in
          let ih : (emit_all times company b').0 ≡ min (length times) (v.total_quota - used v) =
            elim (metered_after company p b b' plan (consume_companies now company p b)
              (consume_plans now company p b)) [
                | inl same ↦ emit_all_exact times company b' p v same row'
                | inr flipped ↦
                    emit_all_exact times company b' (record p { status = exhausted }) v flipped row'
              ] in
          let ih' : (emit_all times company (increment_usage now company b).1).0
              ≡ min (length times) (v.total_quota - used v) =
            rw (metered_step now company b p plan) ih in
          rw (metered_step now company b p plan, good, emit_all)
            (omega (
              arith,
              ih',
              used-charged p.included_invoices u,
              quota-charged p.included_invoices u,
              ltb→lt _ _ room,
            ))
      | inr full ↦
          let refused = (consume_full now company p b u row (ground arith)).0 in
          rw (metered_step now company b p plan, refused, emit_all)
            (omega (
              arith,
              emit_all_exact times company b p u plan row,
              ltb-false→le (used u) u.total_quota full,
            ))
    ]
