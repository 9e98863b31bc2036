-- ===== src/Contingency/Accounts.antt =====
-- The numbers of `processQueue` of src/contingency/contingency.service.ts.
use ecf_api.Prelude.{
  ℕ, zero, suc, ◌+◌, ◌≤◌, Bool, true, false, ◌||◌, ◌≡◌, refl, sym, ap, inl, inr, List, [], ◌∷◌,
  Option, ◌==◌, length, take, arith, Bool-cases,
}
use mathlib.Core.Path.{subst}
use ecf_api.Prelude.Results.{ok}
use ecf_api.Prelude.Rows.{All, find_many}
use ecf_api.Types.{Uuid, Time, contingency}
use ecf_api.Invoices.{Emitted}
use ecf_api.Contingency.{
  is_in, count, RetryServices, Desk, Processed, process_invoice, process_batch, pending,
  process_pending, process_queue,
}
use ecf_api.Contingency.Updates.{has_id, Change, Settled, Settled-refl, process_batch-Settled}

-- No two rows have the same id.
abbrev pub HasDistinctIds : {D : Type 0} → List (Emitted D) → Type 0
HasDistinctIds [] = Unit
HasDistinctIds (x ∷ xs) = All (λ y. (y.id == x.id) ≡ false) xs × HasDistinctIds xs

Settled-drop :
    {D : Type 0} (tenant : Option Uuid) (x : Emitted D) (batch ys zs : List (Emitted D))
    → All (λ y. (y.id == x.id) ≡ false) ys
    → Settled tenant (has_id (x ∷ batch)) ys zs
    → Settled tenant (has_id batch) ys zs
Settled-drop tenant x batch [] [] h k = tt
Settled-drop tenant x batch [] (z ∷ zs) h k = k
Settled-drop tenant x batch (y ∷ ys) [] h k = k
Settled-drop tenant x batch (y ∷ ys) (z ∷ zs) h k = (
  subst (λ b. Change tenant (b || has_id batch y.id) y z) h.0 k.0,
  Settled-drop tenant x batch ys zs h.1 k.1,
)

Change-out :
    {D : Type 0} (tenant : Option Uuid) (touched : Bool) (r s : Emitted D)
    → is_in contingency tenant r ≡ false
    → Change tenant touched r s
    → is_in contingency tenant s ≡ false
Change-out tenant true r s e h = h.1
Change-out tenant false r s e h = subst (λ z. is_in contingency tenant z ≡ false) (sym h) e

untouched_count :
    {D : Type 0} (tenant : Option Uuid) (xs ys : List (Emitted D))
    → Settled tenant (λ id. false) xs ys
    → count (is_in contingency tenant) ys ≡ count (is_in contingency tenant) xs
untouched_count tenant [] [] h = refl
untouched_count tenant [] (y ∷ ys) h = elim h [ ]
untouched_count tenant (x ∷ xs) [] h = elim h [ ]
untouched_count {D} tenant (x ∷ xs) (y ∷ ys) h =
    let same : y ≡ x = h.0 in
    let rest = untouched_count tenant xs ys h.1 in
    elim (Bool-cases (is_in contingency tenant x)) [
      | inl waits ↦
          let waits_y : is_in contingency tenant y ≡ true = rw same waits in
          rw (waits, waits_y) (ap suc rest)
      | inr out ↦
          let out_y : is_in contingency tenant y ≡ false = rw same out in rw (out, out_y) rest
    ]

same_id : (n : ℕ) → (n == n) ≡ true
same_id n = ground arith

-- The head of the table is in the batch.
count_in :
    {D : Type 0} (tenant : Option Uuid) (x y : Emitted D) (batch : List (Emitted D))
    (xs ys : List (Emitted D))
    → is_in contingency tenant x ≡ true
    → Change tenant (has_id (x ∷ batch) x.id) x y
    → count (is_in contingency tenant) ys + length batch ≡ count (is_in contingency tenant) xs
    → count (is_in contingency tenant) (y ∷ ys) + length (x ∷ batch)
      ≡ count (is_in contingency tenant) (x ∷ xs)
count_in tenant x y batch xs ys waits h ih =
    let change : Change tenant true x y =
      subst (λ b. Change tenant (b || has_id batch x.id) x y) (same_id x.id) h in
    rw (waits, change.1) (omega (arith, ih))

-- The head of the table is not in the queue.
count_out :
    {D : Type 0} (tenant : Option Uuid) (touched : Bool) (x y : Emitted D) (k : ℕ)
    (xs ys : List (Emitted D))
    → is_in contingency tenant x ≡ false
    → Change tenant touched x y
    → count (is_in contingency tenant) ys + k ≡ count (is_in contingency tenant) xs
    → count (is_in contingency tenant) (y ∷ ys) + k ≡ count (is_in contingency tenant) (x ∷ xs)
count_out tenant touched x y k xs ys out h ih = rw (out, Change-out tenant touched x y out h) ih

-- The rows that leave the queue are those of the batch.
batch_count :
    {D : Type 0} (tenant : Option Uuid) (n : ℕ) (xs ys : List (Emitted D))
    → HasDistinctIds xs
    → Settled tenant (has_id (take n (find_many (is_in contingency tenant) xs))) xs ys
    → count (is_in contingency tenant) ys
        + length (take n (find_many (is_in contingency tenant) xs))
      ≡ count (is_in contingency tenant) xs
batch_count tenant zero xs ys distinct h = omega (arith, untouched_count tenant xs ys h)
batch_count tenant (suc n) [] [] distinct h = refl
batch_count tenant (suc n) [] (y ∷ ys) distinct h = elim h [ ]
batch_count tenant (suc n) (x ∷ xs) [] distinct h = elim h [ ]
batch_count tenant (suc n) (x ∷ xs) (y ∷ ys) distinct h =
    elim (Bool-cases (is_in contingency tenant x)) [
      | inl waits ↦
          let batch = take n (find_many (is_in contingency tenant) xs) in
          let head : find_many (is_in contingency tenant) (x ∷ xs)
              ≡ x ∷ find_many (is_in contingency tenant) xs =
            rw waits refl in
          let k : Settled tenant (has_id (x ∷ batch)) (x ∷ xs) (y ∷ ys) =
            subst (λ l. Settled tenant (has_id (take (suc n) l)) (x ∷ xs) (y ∷ ys)) head h in
          subst
            (λ l.
              count (is_in contingency tenant) (y ∷ ys) + length (take (suc n) l)
              ≡ count (is_in contingency tenant) (x ∷ xs))
            (sym head)
            (count_in tenant x y batch xs ys waits k.0 (
              batch_count tenant n xs ys distinct.1
                (Settled-drop tenant x batch xs ys distinct.0 k.1)))
      | inr out ↦
          let batch = take (suc n) (find_many (is_in contingency tenant) xs) in
          let head : find_many (is_in contingency tenant) (x ∷ xs)
              ≡ find_many (is_in contingency tenant) xs =
            rw out refl in
          let k : Settled tenant (has_id batch) (x ∷ xs) (y ∷ ys) =
            subst (λ l. Settled tenant (has_id (take (suc n) l)) (x ∷ xs) (y ∷ ys)) head h in
          subst
            (λ l.
              count (is_in contingency tenant) (y ∷ ys) + length (take (suc n) l)
              ≡ count (is_in contingency tenant) (x ∷ xs))
            (sym head)
            (count_out tenant (has_id batch x.id) x y (length batch) xs ys out k.0
              (batch_count tenant (suc n) xs ys distinct.1 k.1))
    ]

-- Each invoice of a batch is counted once.
batch_total :
    {D : Type 0} (s : RetryServices D) (now : Time) (batch : List (Emitted D)) (d : Desk D)
    → (process_batch s now batch d).0.0 + (process_batch s now batch d).0.1 ≡ length batch
unfolding process_batch
batch_total s now [] d = refl
batch_total s now (i ∷ batch) d = elim (Bool-cases (process_invoice s now i d).0) [
  | inl done ↦ rw done (omega (arith, batch_total s now batch (process_invoice s now i d).1))
  | inr failed ↦ rw failed (omega (arith, batch_total s now batch (process_invoice s now i d).1))
]

take_bound : {A : Type 0} (n : ℕ) (xs : List A) → length (take n xs) ≤ n
take_bound zero xs = omega arith
take_bound (suc n) [] = omega arith
take_bound (suc n) (x ∷ xs) = omega (arith, take_bound n xs)

take_none : {A : Type 0} (n : ℕ) (xs : List A) → take (suc n) xs ≡ [] → 0 ≡ length xs
take_none n [] e = refl
take_none n (x ∷ xs) e = cc

-- The numbers of a run against the table before and after it.
abbrev pub IsAccounted :
    {D : Type 0} → Option Uuid → List (Emitted D) → List (Emitted D) → Processed × Desk D → Type 0
IsAccounted tenant batch rows (r, after) =
    (r.remaining ≡ count (is_in contingency tenant) after.office.invoices)
    × (r.remaining + (r.processed + r.failed) ≡ count (is_in contingency tenant) rows)
    × (r.processed + r.failed ≡ length batch)
    × Settled tenant (has_id batch) rows after.office.invoices

pending_accounts :
    {D : Type 0} (s : RetryServices D) (now : Time) (tenant : Option Uuid)
    (batch : List (Emitted D)) (d : Desk D)
    → HasDistinctIds d.office.invoices
    → ((i : Emitted D) → s.first_token i ≡ ok tt)
    → take 10 (find_many (is_in contingency tenant) d.office.invoices) ≡ batch
    → IsAccounted tenant batch d.office.invoices (process_pending s now tenant batch d)
unfolding process_pending
pending_accounts {D} s now tenant [] d distinct given e =
    let same : Settled tenant (has_id {D = D} []) d.office.invoices d.office.invoices =
      Settled-refl tenant d.office.invoices in
    let none_waits = take_none 9 (find_many (is_in contingency tenant) d.office.invoices) e in
    (none_waits, none_waits, refl, same)
pending_accounts s now tenant (i ∷ batch) d distinct given e =
    let settled = process_batch-Settled tenant s now (i ∷ batch) d in
    let total =
      batch_count tenant 10 d.office.invoices (process_batch s now (i ∷ batch) d).1.office.invoices
        distinct
        (subst
          (λ l.
            Settled tenant (has_id l) d.office.invoices
              (process_batch s now (i ∷ batch) d).1.office.invoices)
          (sym e) settled) in
    let size = batch_total s now (i ∷ batch) d in
    let counted =
      subst
        (λ l.
          count (is_in contingency tenant) (process_batch s now (i ∷ batch) d).1.office.invoices
            + length l
          ≡ count (is_in contingency tenant) d.office.invoices)
        e total in
    let accounted =
      subst
        (λ k.
          count (is_in contingency tenant) (process_batch s now (i ∷ batch) d).1.office.invoices + k
          ≡ count (is_in contingency tenant) d.office.invoices)
        (sym size) counted in
    rw (given i, process_pending) (refl, accounted, size, settled)

-- A run of the queue at which DGII gives a token, over rows of distinct ids: what it says remains are the
-- rows in contingency after it, what it processed and what failed together with these are the rows in
-- contingency before it, one for each row of the batch and at most ten, every row of the batch leaves the
-- queue and keeps its id, and every other row is as it was.
pub process_queue-accounts :
    {D : Type 0} (s : RetryServices D) (now : Time) (tenant : Option Uuid) (d : Desk D)
    → HasDistinctIds d.office.invoices
    → ((i : Emitted D) → s.first_token i ≡ ok tt)
    → IsAccounted tenant (pending tenant d.office) d.office.invoices (process_queue s now tenant d)
      × (length (pending tenant d.office) ≤ 10)
unfolding process_queue pending
process_queue-accounts s now tenant d distinct given = (
  pending_accounts s now tenant (pending tenant d.office) d distinct given refl,
  take_bound 10 (find_many (is_in contingency tenant) d.office.invoices),
)
