-- ===== src/Api/Tests.antt =====
-- Tests and instances for the endpoints.
use key_hub.Common.{ℕ, ◌+◌, ◌≡◌, refl, true, false, some, List, [], ◌∷◌, arith, All, get_elem?}
use key_hub.Common.Dict.{lookup, insert}
use key_hub.Models.{audit}
use key_hub.Ratelimit.{LoginRateLimiter, is_locked, lock_seconds, record_failure, record_success}
use key_hub.Api.Unlock.{
  invalid_password, locked_for, retry_after, Attempt, Server, try_password, ask, unlock,
}
use key_hub.Api.Lockout.{run}
use key_hub.Api.Crowd.{arrives, finishes, step, looked_up, IsTurnedAway, looked_up-locked_for}
use key_hub.Api.AtOnce.{asked_all, answered_all, at_once, told, at_once-told}

abbrev attempt : ℕ → Attempt
attempt now = record { ip = "a"; password_ok = false; asked = now; answered = now + 5 }

abbrev limiter : LoginRateLimiter
limiter = record { max_fails = 2; base_lock = 60; max_lock = 3600; state = [] }

abbrev server : Server
server = record { limiter = limiter; audit_logs = [] }

-- One failure on record.
abbrev tried_once : Server
tried_once = record {
  limiter = record limiter { state = ("a", record { fails = 1; locked_until = 0 }) ∷ [] };
  audit_logs = [];
}

program : Unit {0}
unfolding is_locked record_failure record_success lock_seconds try_password ask unlock run step
    looked_up asked_all answered_all lookup insert audit
program = tt

locks : (try_password tried_once (attempt 10)).1 ≡ locked_for 60
unfolding program
locks = refl

-- One more is waiting, which passed the look-up before the lock, and is answered after it.
looked_up-locked_for_example : All (IsTurnedAway "a") (
    looked_up
      (record { server = (try_password tried_once (attempt 10)).0; waiting = attempt 11 ∷ [] })
      (arrives (attempt 20) ∷ finishes 0 ∷ arrives (attempt 50000) ∷ []))
looked_up-locked_for_example =
    looked_up-locked_for tried_once (attempt 10) 60 (attempt 11 ∷ [])
      (arrives (attempt 20) ∷ finishes 0 ∷ arrives (attempt 50000) ∷ []) locks
      ((omega arith, λ e. refl), tt)
      (((omega arith, λ e. refl), omega arith), (tt, (((omega arith, λ e. refl), omega arith), tt)))

abbrev three : List Attempt
three = attempt 1 ∷ attempt 2 ∷ attempt 3 ∷ []

-- The third failure doubles the lock.
at_once-told_example : get_elem? (at_once server three) 2 ≡ some (told limiter 3)
at_once-told_example =
    at_once-told server "a" three 2 (attempt 3) (unfold lookup in refl)
      ((refl, refl), ((refl, refl), ((refl, refl), tt))) refl

doubled : told limiter 3 ≡ locked_for 120
doubled = refl

-- One after the other, the third is turned away.
turned_away : run true server three ≡ invalid_password ∷ locked_for 60 ∷ retry_after 60 ∷ []
unfolding program
turned_away = refl
