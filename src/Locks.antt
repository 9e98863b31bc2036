-- ===== src/Locks.antt =====
-- The locks of src/common/services/distributed-lock.service.ts, over a key-value store with expiring keys.
pub mod Exclusion
use ecf_api.Prelude.{
  ℕ, ◌+◌, ◌≡◌, ◌≢◌, ◌≤◌, ◌<◌, Bool, true, false, List, [], ◌∷◌, Option, none, some, ltb, ◌==◌,
  if◌then◌else◌,
}
use ecf_api.Prelude.Text.{Text}
use ecf_api.Prelude.Results.{Result, ok, err}
use ecf_api.Types.{Time}

-- Keys and tokens are only compared.
abbrev pub Key : Type 0
Key = ℕ

abbrev pub Token : Type 0
Token = ℕ

-- What the code relies on in the store: `SET key value PX ttl NX`, `GET` and `DEL`, each at a time.
pub record Redis (S : Type 0) : Type 0 where
  pub get : Time → Key → S → Option Token
  pub set_nx : Time → Key → Token → ℕ → S → Bool × S
  pub del : Key → S → S
  -- A key that is there is not set.
  pub set_taken :
      (now : Time) (k : Key) (t held : Token) (ttl : ℕ) (s : S)
      → get now k s ≡ some held
      → set_nx now k t ttl s ≡ (false, s)
  -- A key that is not there is set, and is there until its time is over.
  pub set_free :
      (now : Time) (k : Key) (t : Token) (ttl : ℕ) (s : S)
      → get now k s ≡ none
      → (s' : S) × (set_nx now k t ttl s ≡ (true, s'))
        × ((later : Time)
            → now ≤ later
            → get later k s' ≡ (if ltb later (now + ttl) then some t else none))
        × ((later : Time) (other : Key) → other ≢ k → get later other s' ≡ get later other s)
  pub del_own : (now : Time) (k : Key) (s : S) → get now k (del k s) ≡ none
  pub del_other :
      (now : Time) (k other : Key) (s : S) → other ≢ k → get now other (del k s) ≡ get now other s

pub record AcquiredLock : Type 0 where
  pub key : Key
  pub token : Token

-- `ttlMs must be positive`
pub data LockError : Type 0 where
  ttl_not_positive : LockError

abbrev pub is_token : Option Token → Token → Bool
is_token none t = false
is_token (some held) t = held == t

module _ {S : Type 0} (redis : Redis S) where
  -- `acquire`; `token` is the random identifier of the call.
  unfoldable pub acquire : Time → Token → Key → ℕ → S → Result LockError (Option AcquiredLock) × S
  acquire now token key ttl s =
      if ltb 0 ttl
      then (let (set, s') = redis.set_nx now key token ttl s in
          (ok (if set then some (record { key = key; token = token }) else none), s'))
      else (err ttl_not_positive, s)

  -- `RELEASE_SCRIPT`, which the store runs as one step, and `release`.
  unfoldable pub release : Time → AcquiredLock → S → Bool × S
  release now lock s =
      if is_token (redis.get now lock.key s) lock.token
      then (true, redis.del lock.key s)
      else (false, s)

  -- `withLock`: `work` takes the time from `now` to `later`, and its own exception is kept. `none` is a lock
  -- that somebody else has.
  unfoldable pub with_lock :
      {E A : Type 0}
      → (LockError → E)
      → Time
      → Time
      → Token
      → Key
      → ℕ
      → (S → Result E A × S)
      → S
      → Result E (Option A) × S
  with_lock fails now later token key ttl work s =
      let (lock, s1) = acquire now token key ttl s in
      elim lock [
        | err e ↦ (err (fails e), s1)
        | ok none ↦ (ok none, s1)
        | ok (some l) ↦
            let (result, s2) = work s1 in
            let (_, s3) = release later l s2 in
            elim result [ ok a ↦ (ok (some a), s3) | err e ↦ (err e, s3) ]
      ]

-- What a process asks of the service, and when.
pub data LockRequest : Type 0 where
  acquiring : Time → Token → Key → ℕ → LockRequest
  releasing : Time → AcquiredLock → LockRequest

abbrev pub time_of : LockRequest → Time
time_of (acquiring now _ _ _) = now
time_of (releasing now _) = now
