-- ===== src/Ratelimit.antt =====
-- keyhub/ratelimit.py: the login limiter with its lock-out, and the sliding window of API tokens.
-- Time is in milliseconds and comes in as an argument, where the source reads `time.monotonic()`.
pub mod Backoff
pub mod Held
pub mod Window
mod Tests
use key_hub.Common.{
  ℕ, ◌+◌, ◌-◌, ◌*◌, ◌/◌, ◌^◌, min, String, Bool, true, false, ◌&&◌, Option, none, some, List, [],
  ◌∷◌, ◌++◌, ltb, leb, if◌then◌else◌, keep, length,
}
use key_hub.Common.Dict.{Dict, lookup, insert, erase}

abbrev pub second : ℕ
second = 1000

-- `_AttemptState`; a `locked_until` of 0 is "never locked".
pub record AttemptState : Type 0 where
  pub fails : ℕ
  pub locked_until : ℕ

pub record LoginRateLimiter : Type 0 where
  pub max_fails : ℕ
  pub base_lock : ℕ
  pub max_lock : ℕ
  pub state : Dict AttemptState

abbrev pub fresh_attempts : AttemptState
fresh_attempts = record { fails = 0; locked_until = 0 }

-- The part of `is_locked` behind the lookup: an expired lock gives the address a new start.
pub settle : LoginRateLimiter → String → ℕ → AttemptState → LoginRateLimiter × Bool × ℕ
settle l ip now st =
    if ltb now st.locked_until
    then (l, true, (st.locked_until - now) / second)
    else (if ltb 0 st.locked_until && leb l.max_fails st.fails
        then (record l { state = insert ip fresh_attempts l.state }, false, 0)
        else (l, false, 0))

-- `LoginRateLimiter.is_locked`: whether the address is locked, and the seconds left.
unfoldable pub is_locked : LoginRateLimiter → String → ℕ → LoginRateLimiter × Bool × ℕ
unfolding settle
is_locked l ip now = elim (lookup ip l.state) [
  | none ↦ (l, false, 0)
  | some st ↦ settle l ip now st
]

-- `self._state.setdefault(ip, _AttemptState())`
abbrev pub attempts : LoginRateLimiter → String → AttemptState
attempts l ip = elim (lookup ip l.state) [ none ↦ fresh_attempts | some st ↦ st ]

-- `min(base_lock * 2 ** excess, max_lock)`, in seconds.
unfoldable pub lock_seconds : LoginRateLimiter → ℕ → ℕ
lock_seconds l fails = min (l.base_lock * 2 ^ (fails - l.max_fails)) l.max_lock

-- `LoginRateLimiter.record_failure`: whether a lock was set, and its seconds.
unfoldable pub record_failure : LoginRateLimiter → String → ℕ → LoginRateLimiter × Bool × ℕ
record_failure l ip now =
    let fails = (attempts l ip).fails + 1 in
    let secs = lock_seconds l fails in
    let store = λ (st : AttemptState). record l { state = insert ip st l.state } in
    if leb l.max_fails fails
    then (store (record { fails = fails; locked_until = now + secs * second }), true, secs)
    else (store (record { fails = fails; locked_until = (attempts l ip).locked_until }), false, 0)

-- `LoginRateLimiter.record_success`
unfoldable pub record_success : LoginRateLimiter → String → LoginRateLimiter
record_success l ip = record l { state = erase ip l.state }

-- `LoginRateLimiter.reset`: one address, or all of them.
pub reset : LoginRateLimiter → Option String → LoginRateLimiter
reset l none = record l { state = [] }
reset l (some ip) = record l { state = erase ip l.state }

-- `TokenRateLimiter._requests`: the times of the requests that were let through.
pub record TokenRateLimiter : Type 0 where
  pub requests : Dict (List ℕ)

-- `self._requests.get(token_id, [])`
abbrev pub requests_of : Dict (List ℕ) → String → List ℕ
requests_of d token_id = elim (lookup token_id d) [ none ↦ [] | some reqs ↦ reqs ]

abbrev pub window : ℕ
window = 60 * second

abbrev pub recent : ℕ → ℕ → Bool
recent now t = ltb (now - t) window

-- `TokenRateLimiter.check` under a limit `rpm`, where 0 stands for every limit that is not positive.
-- The answer is whether the request may go on, and the quota left: `none` is the -1 of "no limit".
unfoldable pub check : ℕ → TokenRateLimiter → String → ℕ → TokenRateLimiter × Bool × Option ℕ
check rpm l token_id now =
    let reqs = keep (recent now) (requests_of l.requests token_id) in
    let store = λ (r : List ℕ). record l { requests = insert token_id r l.requests } in
    let reqs' = reqs ++ now ∷ [] in
    if leb rpm 0
    then (l, true, none)
    else (if leb rpm (length reqs)
        then (store reqs, false, some 0)
        else (store reqs', true, some (rpm - length reqs')))
