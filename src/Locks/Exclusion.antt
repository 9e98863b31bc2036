-- ===== src/Locks/Exclusion.antt =====
-- A lock that is held excludes all others until it expires or its holder releases it.
use ecf_api.Prelude.{
  ℕ, ◌+◌, ◌≡◌, ◌≢◌, ◌≤◌, ◌<◌, refl, sym, ap, ◌∙◌, ◌⊎◌, inl, inr, Bool, true, false, List, [], ◌∷◌,
  none, some, ltb, ◌==◌, arith, Bool-cases, Option-cases, if◌then◌else◌,
}
use mathlib.Core.Path.{subst}
use ecf_api.Prelude.Results.{ok, err}
use ecf_api.Prelude.Rows.{All}
use ecf_api.Types.{Time}
use ecf_api.Locks.{
  Key, Token, Redis, AcquiredLock, ttl_not_positive, is_token, acquire, release, LockRequest,
  acquiring, releasing,
}

module _ {S : Type 0} (redis : Redis S) where
  -- One request, and whether it gained the lock `k`.
  unfoldable pub serve : Key → LockRequest → S → Bool × S
  serve k (acquiring now token key ttl) s =
      let (answer, s') = acquire redis now token key ttl s in
      (elim answer [ ok (some l) ↦ l.key == k | ok none ↦ false | err _ ↦ false ], s')
  serve k (releasing now lock) s = (false, (release redis now lock s).1)

  unfoldable pub serve_all : Key → List LockRequest → S → List Bool × S
  serve_all k [] s = ([], s)
  serve_all k (r ∷ requests) s =
      let (gained, s') = serve k r s in
      let (rest, s'') = serve_all k requests s' in (gained ∷ rest, s'')

  -- The token `t` has the key `k` at all times from `from` to before `until`.
  abbrev IsHeld : Key → Token → Time → Time → S → Type 0
  IsHeld k t from until s = (now : Time) → from ≤ now → now < until → redis.get now k s ≡ some t

  -- A request between two times that does not release the lock of `t`.
  abbrev pub IsForeign : Key → Token → Time → Time → LockRequest → Type 0
  IsForeign k t from until (acquiring now _ _ _) = (from ≤ now) × (now < until)
  IsForeign k t from until (releasing now lock) =
      (from ≤ now) × (now < until) × ((lock.key ≢ k) ⊎ (lock.token ≢ t))

  apart :
      (now : Time) (k other : Key) (t : Token) (s : S)
      → redis.get now k s ≡ some t
      → redis.get now other s ≡ none
      → k ≢ other
  apart now k other t s held free same =
      let clash : redis.get now k s ≡ none = ap (λ x. redis.get now x s) same ∙ free in cc

  differs : (a b : ℕ) → b ≢ a → (a == b) ≡ false
  differs a b h = ground arith

  -- A request for a key that is taken, and for one that is not.
  serve_taken :
      (k : Key) (now : Time) (token held : Token) (key : Key) (ttl : ℕ) (s : S)
      → redis.get now key s ≡ some held
      → serve k (acquiring now token key ttl) s ≡ (false, s)
  unfolding serve acquire
  serve_taken k now token held key ttl s taken = elim (Bool-cases (ltb 0 ttl)) [
    | inl fine ↦ rw (fine, redis.set_taken now key token held ttl s taken, serve, acquire)
    | inr wrong ↦ rw (wrong, serve, acquire)
  ]

  serve_free :
      (k : Key) (now : Time) (token : Token) (key : Key) (ttl : ℕ) (s s' : S)
      → k ≢ key
      → redis.set_nx now key token ttl s ≡ (true, s')
      → ((serve k (acquiring now token key ttl) s).0 ≡ false)
        × (((serve k (acquiring now token key ttl) s).1 ≡ s')
            ⊎ ((serve k (acquiring now token key ttl) s).1 ≡ s))
  unfolding serve acquire
  serve_free k now token key ttl s s' other set = elim (Bool-cases (ltb 0 ttl)) [
    | inl fine ↦
        (rw (fine, set, serve, acquire) (differs key k other), inl (rw (fine, set, serve, acquire)))
    | inr wrong ↦ (rw (wrong, serve, acquire), inr (rw (wrong, serve, acquire)))
  ]

  serve_acquiring-IsHeld :
      (k : Key) (t : Token) (from until now : Time) (token : Token) (key : Key) (ttl : ℕ) (s : S)
      → from ≤ now
      → now < until
      → IsHeld k t from until s
      → ((serve k (acquiring now token key ttl) s).0 ≡ false)
        × IsHeld k t from until (serve k (acquiring now token key ttl) s).1
  serve_acquiring-IsHeld k t from until now token key ttl s after before held =
      elim (Option-cases (redis.get now key s)) [
        | inr (other, taken) ↦
            let same = serve_taken k now token other key ttl s taken in
            (ap (λ r. r.0) same, subst (IsHeld k t from until) (ap (λ r. r.1) (sym same)) held)
        | inl free ↦
            let (s', set, _, keeps) = redis.set_free now key token ttl s free in
            let other = apart now k key t s (held now after before) free in
            let (nothing, result) = serve_free k now token key ttl s s' other set in
            let kept : IsHeld k t from until s' =
              λ later a b. keeps later k other ∙ held later a b in
            (
              nothing,
              elim result [
                | inl changed ↦ subst (IsHeld k t from until) (sym changed) kept
                | inr same ↦ subst (IsHeld k t from until) (sym same) held
              ],
            )
      ]

  not_own : (held t : Token) → t ≢ held → is_token (some held) t ≡ false
  not_own held t h = ground arith

  not_released :
      (k : Key) (t : Token) (now : Time) (lock : AcquiredLock) (s : S)
      → (lock.key ≢ k) ⊎ (lock.token ≢ t)
      → redis.get now k s ≡ some t
      → is_token (redis.get now lock.key s) lock.token ≡ true
      → k ≢ lock.key
  not_released k t now lock s (inl other) held own same = other (sym same)
  not_released k t now lock s (inr other) held own same =
      let stored : redis.get now lock.key s ≡ some t =
        ap (λ x. redis.get now x s) (sym same) ∙ held in
      let no : is_token (redis.get now lock.key s) lock.token ≡ false =
        ap (λ o. is_token o lock.token) stored ∙ not_own t lock.token other in
      cc (sym own ∙ no)

  serve_releasing-IsHeld :
      (k : Key) (t : Token) (from until now : Time) (lock : AcquiredLock) (s : S)
      → from ≤ now
      → now < until
      → (lock.key ≢ k) ⊎ (lock.token ≢ t)
      → IsHeld k t from until s
      → IsHeld k t from until (release redis now lock s).1
  unfolding release
  serve_releasing-IsHeld k t from until now lock s after before foreign held =
      elim (Bool-cases (is_token (redis.get now lock.key s) lock.token)) [
        | inr refused ↦ rw (refused, release) held
        | inl own ↦
            let other = not_released k t now lock s foreign (held now after before) own in
            rw (own, release)
              (λ later a b. redis.del_other later lock.key k s other ∙ held later a b)
      ]

  serve-IsHeld :
      (k : Key) (t : Token) (from until : Time) (r : LockRequest) (s : S)
      → IsForeign k t from until r
      → IsHeld k t from until s
      → ((serve k r s).0 ≡ false) × IsHeld k t from until (serve k r s).1
  unfolding serve
  serve-IsHeld k t from until (acquiring now token key ttl) s (after, before) held =
      serve_acquiring-IsHeld k t from until now token key ttl s after before held
  serve-IsHeld k t from until (releasing now lock) s (after, before, foreign) held =
      (refl, serve_releasing-IsHeld k t from until now lock s after before foreign held)

  serve_all-IsHeld :
      (k : Key) (t : Token) (from until : Time) (requests : List LockRequest) (s : S)
      → All (IsForeign k t from until) requests
      → IsHeld k t from until s
      → All (λ gained. gained ≡ false) (serve_all k requests s).0
  unfolding serve_all
  serve_all-IsHeld k t from until [] s foreign held = tt
  serve_all-IsHeld k t from until (r ∷ requests) s (one, others) held =
      let (nothing, still) = serve-IsHeld k t from until r s one held in
      (nothing, serve_all-IsHeld k t from until requests (serve k r s).1 others still)

  acquire_result :
      (now : Time) (t : Token) (k : Key) (ttl : ℕ) (s s1 : S) (set : Bool)
      → ltb 0 ttl ≡ true
      → redis.set_nx now k t ttl s ≡ (set, s1)
      → acquire redis now t k ttl s
        ≡ (ok (if set then some (record { key = k; token = t }) else none), s1)
  unfolding acquire
  acquire_result now t k ttl s s1 set fine e = rw (fine, e, acquire)

  acquired-IsHeld :
      (now : Time) (t : Token) (k : Key) (ttl : ℕ) (s s' : S) (lock : AcquiredLock)
      → acquire redis now t k ttl s ≡ (ok (some lock), s')
      → IsHeld k t now (now + ttl) s'
  unfolding acquire
  acquired-IsHeld now t k ttl s s' lock h = elim (Bool-cases (ltb 0 ttl)) [
    | inr wrong ↦
        let refused : acquire redis now t k ttl s ≡ (err ttl_not_positive, s) =
          rw (wrong, acquire) in
        absurd (cc (sym refused ∙ h))
    | inl fine ↦ elim (Option-cases (redis.get now k s)) [
      | inr (held, taken) ↦
          let refused : acquire redis now t k ttl s ≡ (ok none, s) =
            acquire_result now t k ttl s s false fine (redis.set_taken now k t held ttl s taken) in
          absurd (cc (sym refused ∙ h))
      | inl free ↦
          let (s1, set, there, _) = redis.set_free now k t ttl s free in
          let gained = acquire_result now t k ttl s s1 true fine set in
          let same : s1 ≡ s' = cc (sym gained ∙ h) in
          λ later a b. ap (redis.get later k) (sym same) ∙ there later a ∙ ground (arith, b)
    ]
  ]

  -- While a lock is held, from its acquisition until its time is over, whatever other processes ask for,
  -- in whatever order, none of them gains the lock, as long as nobody releases it with its holder's token.
  pub acquire-excludes :
      (now : Time) (t : Token) (k : Key) (ttl : ℕ) (s s' : S) (lock : AcquiredLock)
      (requests : List LockRequest)
      → acquire redis now t k ttl s ≡ (ok (some lock), s')
      → All (IsForeign k t now (now + ttl)) requests
      → All (λ gained. gained ≡ false) (serve_all k requests s').0
  acquire-excludes now t k ttl s s' lock requests taken foreign =
      serve_all-IsHeld k t now (now + ttl) requests s' foreign
        (acquired-IsHeld now t k ttl s s' lock taken)
