-- ===== src/Tests/Locks.antt =====
-- The locks of src/common/services/distributed-lock.service.ts at work, on a store kept as a function.
use ecf_api.Prelude.{
  ℕ, ◌+◌, ◌≡◌, ◌≢◌, refl, ap, Bool, true, false, inr, List, [], ◌∷◌, Option, none, some, ltb, ◌==◌,
  arith, if◌then◌else◌,
}
use ecf_api.Prelude.Results.{ok}
use ecf_api.Prelude.Rows.{All}
use ecf_api.Types.{Time}
use ecf_api.Locks.{Key, Token, Redis, LockRequest, acquiring, releasing, acquire}
use ecf_api.Locks.Exclusion.{serve_all, serve, acquire-excludes}

-- Each key with its token and the time at which it expires.
abbrev Table : Type 0
Table = Key → Option (Token × Time)

abbrev live : Time → Option (Token × Time) → Option Token
live now none = none
live now (some (t, end)) = if ltb now end then some t else none

abbrev put : Key → Option (Token × Time) → Table → Table
put k v s = λ other. if other == k then v else s other

abbrev set_if : Option Token → Time → Key → Token → ℕ → Table → Bool × Table
set_if none now k t ttl s = (true, put k (some (t, now + ttl)) s)
set_if (some held) now k t ttl s = (false, s)

put_own : (k : Key) (v : Option (Token × Time)) (s : Table) → put k v s k ≡ v
put_own k v s = ground arith

put_other :
    (k other : Key) (v : Option (Token × Time)) (s : Table) → other ≢ k → put k v s other ≡ s other
put_other k other v s h = ground (arith, h)

abbrev redis : Redis Table
redis = record {
  get = λ now k s. live now (s k);
  set_nx = λ now k t ttl s. set_if (live now (s k)) now k t ttl s;
  del = λ k s. put k none s;
  set_taken = λ now k t held ttl s taken. ap (λ o. set_if o now k t ttl s) taken;
  set_free = λ now k t ttl s free. (
    put k (some (t, now + ttl)) s,
    ap (λ o. set_if o now k t ttl s) free,
    λ later after. ap (live later) (put_own k (some (t, now + ttl)) s),
    λ later other apart. ap (live later) (put_other k other (some (t, now + ttl)) s apart),
  );
  del_own = λ now k s. ap (live now) (put_own k none s);
  del_other = λ now k other s apart. ap (live now) (put_other k other none s apart);
}

abbrev nothing : Table
nothing = λ _. none

abbrev requests : List LockRequest
requests =
    acquiring 105 2 7 50
    ∷ releasing 110 (record { key = 7; token = 2 })
    ∷ acquiring 120 3 8 50
    ∷ acquiring 149 3 7 50
    ∷ []

abbrev held : Table
held = (acquire redis 100 1 7 50 nothing).1

gained : acquire redis 100 1 7 50 nothing ≡ (ok (some (record { key = 7; token = 1 })), held)
unfolding acquire
gained = refl

-- When its time is over, another process gains it.
expires :
    (serve_all redis 7 (acquiring 149 2 7 50 ∷ acquiring 150 3 7 50 ∷ []) held).0
    ≡ false ∷ true ∷ []
unfolding serve_all serve acquire
expires = refl

second_not_first : (a : ℕ) → a ≡ 2 → a ≢ 1
second_not_first a e h = omega arith

acquire-excludes_example : All (λ g. g ≡ false) (serve_all redis 7 requests held).0
acquire-excludes_example =
    acquire-excludes redis 100 1 7 50 nothing held (record { key = 7; token = 1 }) requests gained
      (
        (omega arith, omega arith),
        (
          (omega arith, omega arith, inr (second_not_first 2 refl)),
          ((omega arith, omega arith), ((omega arith, omega arith), tt)),
        ),
      )
