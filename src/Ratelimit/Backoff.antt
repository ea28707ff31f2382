-- ===== src/Ratelimit/Backoff.antt =====
-- The lock-out of the login limiter (keyhub/ratelimit.py) as the unlock endpoint drives it.
use key_hub.Common.{
  ℕ, ◌+◌, ◌*◌, ◌≤◌, ◌<◌, ◌-◌, min, ◌≡◌, ◌≢◌, ◌/◌, ◌⊎◌, inl, inr, String, eq_iff, true, false, some,
  arith, ltb, Option-cases,
}
use key_hub.Common.Dict.{lookup, insert, lookup-insert, lookup-erase}
use key_hub.Ratelimit.{
  second, fresh_attempts, AttemptState, LoginRateLimiter, is_locked, attempts, lock_seconds,
  record_failure, record_success,
}

-- No address holds more failures than the threshold, and one that is at it has been locked.
unfoldable pub IsSettled : LoginRateLimiter → Type 0
IsSettled l =
    (ip : String) (st : AttemptState)
    → lookup ip l.state ≡ some st
    → (st.fails < l.max_fails) ⊎ ((st.fails ≡ l.max_fails) × (0 < st.locked_until))

abbrev Settled : LoginRateLimiter → AttemptState → Type 0
Settled l st = (st.fails < l.max_fails) ⊎ ((st.fails ≡ l.max_fails) × (0 < st.locked_until))

insert-IsSettled :
    (l : LoginRateLimiter) (ip : String) (st : AttemptState)
    → IsSettled l
    → Settled l st
    → IsSettled (record l { state = insert ip st l.state })
unfolding IsSettled
insert-IsSettled l ip st h s j st' e =
    ground (arith, lookup-insert ip j st l.state, h j st', eq_iff ip j)

-- Asking whether an address is locked keeps the limiter settled.
pub is_locked-IsSettled :
    (l : LoginRateLimiter) (ip : String) (now : ℕ)
    → 0 < l.max_fails
    → IsSettled l
    → IsSettled (is_locked l ip now).0
unfolding is_locked
is_locked-IsSettled l ip now pos h = ground (arith, insert-IsSettled l ip fresh_attempts h)

-- An address that is not locked has room for a failure before the threshold is passed.
pub is_locked-room :
    (l : LoginRateLimiter) (ip : String) (now : ℕ)
    → 0 < l.max_fails
    → IsSettled l
    → (is_locked l ip now).1 ≡ false
    → (attempts (is_locked l ip now).0 ip).fails < l.max_fails
unfolding is_locked IsSettled
is_locked-room l ip now pos h e = elim (Option-cases (lookup ip l.state)) [
  | inl new ↦ ground arith
  | inr (st, old) ↦
      ground (arith, lookup-insert ip ip fresh_attempts l.state, h ip st old, eq_iff ip ip)
]

first_lock :
    (l : LoginRateLimiter) (fails : ℕ)
    → fails ≤ l.max_fails
    → lock_seconds l fails ≡ min l.base_lock l.max_lock
unfolding lock_seconds
first_lock l fails h = let e : fails - l.max_fails ≡ 0 = omega arith in rw e (omega arith)

-- A failure of an address that has room keeps the limiter settled, and a lock that it sets is the
-- first one: it lasts the base time or the cap.
pub record_failure-IsSettled :
    (l : LoginRateLimiter) (ip : String) (now : ℕ)
    → 0 < l.base_lock
    → 0 < l.max_lock
    → (attempts l ip).fails < l.max_fails
    → IsSettled l
    → IsSettled (record_failure l ip now).0
      × ((record_failure l ip now).1 ≡ true
          → (record_failure l ip now).2 ≡ min l.base_lock l.max_lock)
unfolding record_failure
record_failure-IsSettled l ip now b m room h =
    let n = (attempts l ip).fails + 1 in
    let e = first_lock l n (omega arith) in
    ground (
      arith,
      e,
      insert-IsSettled l ip (record { fails = n; locked_until = now + lock_seconds l n * second })
          h,
      insert-IsSettled l ip (record { fails = n; locked_until = (attempts l ip).locked_until }) h,
    )

pub record_success-IsSettled :
    (l : LoginRateLimiter) (ip : String) → IsSettled l → IsSettled (record_success l ip)
unfolding record_success IsSettled
record_success-IsSettled l ip h j st e = ground (arith, lookup-erase ip j l.state, h j st)

-- A failure that sets a lock locks its address until exactly the announced seconds are over, with
-- the rest of the time in whole seconds as the answer; other addresses are locked as before.
pub is_locked-record_failure :
    (l : LoginRateLimiter) (ip other : String) (now t : ℕ)
    → (record_failure l ip now).1 ≡ true
    → other ≢ ip
    → let (l', _, secs) = record_failure l ip now in
      ((is_locked l' ip t).1 ≡ ltb t (now + secs * second))
      × ((is_locked l' ip t).2 ≡ (now + secs * second - t) / second)
      × ((is_locked l' other t).1 ≡ (is_locked l other t).1)
unfolding is_locked record_failure
is_locked-record_failure l ip other now t h ne =
    let n = (attempts l ip).fails + 1 in
    let st : AttemptState = record { fails = n; locked_until = now + lock_seconds l n * second } in
    (
      ground (arith, lookup-insert ip ip st l.state, eq_iff ip ip),
      ground (arith, lookup-insert ip ip st l.state, eq_iff ip ip),
      ground (arith, lookup-insert ip other st l.state, eq_iff ip other),
    )
