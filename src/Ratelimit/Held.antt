-- ===== src/Ratelimit/Held.antt =====
-- A lock of the login limiter (keyhub/ratelimit.py) until it is over.
use key_hub.Common.{
  Bool-cases, leb, ltb, ◌&&◌, ◌⊎◌, ℕ, suc, ◌+◌, ◌*◌, ◌^◌, ◌-◌, ◌≤◌, ◌<◌, ◌≡◌, ◌≢◌, inl, inr, ap,
  sym, String, eq_iff, true, some, arith, Option-cases,
}
use mathlib.Core.Path.{subst}
use native.Mathlib.Nat.{pow-suc}
use key_hub.Common.Dict.{lookup, insert, lookup-insert, lookup-erase}
use key_hub.Ratelimit.{
  second, fresh_attempts, AttemptState, LoginRateLimiter, is_locked, attempts, lock_seconds,
  record_failure, record_success,
}

-- The address is locked, for `secs` from `since` on at least, and its next lock is no shorter.
abbrev pub IsHeld : String → ℕ → ℕ → LoginRateLimiter → Type 0
IsHeld ip since secs l =
    (st : AttemptState) × (lookup ip l.state ≡ some st)
    × (since + secs * second ≤ st.locked_until)
    × (l.max_fails ≤ st.fails)
    × (secs ≤ lock_seconds l st.fails)

-- Each failure more makes the lock no shorter.
lock_seconds-suc :
    (l : LoginRateLimiter) (n : ℕ) → l.max_fails ≤ n → lock_seconds l n ≤ lock_seconds l (n + 1)
unfolding lock_seconds
lock_seconds-suc l n h =
    let e : n + 1 - l.max_fails ≡ suc (n - l.max_fails) = omega arith in
    let two : l.base_lock * 2 ^ suc (n - l.max_fails) ≡ 2 * (l.base_lock * 2 ^ (n - l.max_fails)) =
      rw (pow-suc 2 (n - l.max_fails)) (omega arith) in
    omega (arith, ap (λ k. l.base_lock * 2 ^ k) e, two)

insert-IsHeld :
    (ip other : String) (since secs : ℕ) (l : LoginRateLimiter) (new : AttemptState)
    → other ≢ ip
    → IsHeld ip since secs l
    → IsHeld ip since secs (record l { state = insert other new l.state })
unfolding lock_seconds
insert-IsHeld ip other since secs l new ne (st, there, late, many, long) = (
  st,
  ground (arith, lookup-insert other ip new l.state, eq_iff other ip, there, ne),
  late,
  many,
  long,
)

-- A failure that sets a lock holds its address.
pub record_failure-holds :
    (l : LoginRateLimiter) (ip : String) (now : ℕ)
    → (record_failure l ip now).1 ≡ true
    → IsHeld ip now (record_failure l ip now).2 (record_failure l ip now).0
unfolding record_failure lock_seconds
record_failure-holds l ip now e =
    let n = (attempts l ip).fails + 1 in
    let st : AttemptState = record { fails = n; locked_until = now + lock_seconds l n * second } in
    (
      st,
      ground (arith, lookup-insert ip ip st l.state, eq_iff ip ip, e),
      ground (arith, e),
      ground (arith, e),
      ground (arith, e),
    )

lock_seconds-record_failure :
    (l : LoginRateLimiter) (ip : String) (now n : ℕ)
    → lock_seconds (record_failure l ip now).0 n ≡ lock_seconds l n
unfolding record_failure lock_seconds
lock_seconds-record_failure l ip now n = ground arith

-- A failure of the address later on holds it as long.
pub record_failure-IsHeld :
    (l : LoginRateLimiter) (ip : String) (since secs now : ℕ)
    → since ≤ now
    → IsHeld ip since secs l
    → IsHeld ip since secs (record_failure l ip now).0
unfolding record_failure
record_failure-IsHeld l ip since secs now later (st, there, late, many, long) =
    let more = lock_seconds-suc l st.fails many in
    let st' : AttemptState = record {
      fails = st.fails + 1;
      locked_until = now + lock_seconds l (st.fails + 1) * second;
    } in
    (
      st',
      ground (arith, lookup-insert ip ip st' l.state, eq_iff ip ip, there, many),
      omega (arith, more, long, later),
      ground (arith, many, there),
      omega (arith, long, more, lock_seconds-record_failure l ip now (st.fails + 1)),
    )

-- So does one of another address, and a success of another.
pub record_failure-other :
    (l : LoginRateLimiter) (ip other : String) (since secs now : ℕ)
    → other ≢ ip
    → IsHeld ip since secs l
    → IsHeld ip since secs (record_failure l other now).0
unfolding record_failure
record_failure-other l ip other since secs now ne held =
    let n = (attempts l other).fails + 1 in
    let put = λ (new : AttemptState). insert-IsHeld ip other since secs l new ne held in
    elim (Bool-cases (leb l.max_fails n)) [
      | inl over ↦
          rw over (put (record { fails = n; locked_until = now + lock_seconds l n * second }))
      | inr under ↦
          rw under (put (record { fails = n; locked_until = (attempts l other).locked_until }))
    ]

pub record_success-other :
    (l : LoginRateLimiter) (ip other : String) (since secs : ℕ)
    → other ≢ ip
    → IsHeld ip since secs l
    → IsHeld ip since secs (record_success l other)
unfolding record_success lock_seconds
record_success-other l ip other since secs ne (st, there, late, many, long) = (
  st,
  ground (arith, lookup-erase other ip l.state, eq_iff other ip, there, ne),
  late,
  many,
  long,
)

-- The look-up of the address before the end finds the lock and leaves it.
pub is_locked-held :
    (l : LoginRateLimiter) (ip : String) (since secs now : ℕ)
    → now < since + secs * second
    → IsHeld ip since secs l
    → ((is_locked l ip now).1 ≡ true) × ((is_locked l ip now).0 ≡ l)
unfolding is_locked
is_locked-held l ip since secs now early (st, there, late, many, long) =
    ground (arith, there, late, early)

is_locked-limiter :
    (l : LoginRateLimiter) (ip : String) (now : ℕ)
    → ((is_locked l ip now).0 ≡ l)
      ⊎ ((is_locked l ip now).0 ≡ record l { state = insert ip fresh_attempts l.state })
unfolding is_locked
is_locked-limiter l ip now = elim (Option-cases (lookup ip l.state)) [
  | inl new ↦ inl (ground (arith, new))
  | inr (st, old) ↦ elim (Bool-cases (ltb now st.locked_until)) [
    | inl closed ↦ inl (ground (arith, old, closed))
    | inr free ↦ elim (Bool-cases (ltb 0 st.locked_until && leb l.max_fails st.fails)) [
      | inl over ↦ inr (ground (arith, old, free, over))
      | inr not_set ↦ inl (ground (arith, old, free, not_set))
    ]
  ]
]

-- The look-up of another address holds it too.
pub is_locked-other :
    (l : LoginRateLimiter) (ip other : String) (since secs now : ℕ)
    → other ≢ ip
    → IsHeld ip since secs l
    → IsHeld ip since secs (is_locked l other now).0
is_locked-other l ip other since secs now ne held = elim (is_locked-limiter l other now) [
  | inl same ↦ subst (IsHeld ip since secs) (sym same) held
  | inr reset ↦
      subst (IsHeld ip since secs) (sym reset)
        (insert-IsHeld ip other since secs l fresh_attempts ne held)
]
