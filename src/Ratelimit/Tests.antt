-- ===== src/Ratelimit/Tests.antt =====
-- Tests and instances for keyhub/ratelimit.py.
use key_hub.Common.{◌≡◌, refl, true, false, none, some, [], ◌∷◌, arith}
use key_hub.Common.Dict.{lookup, insert}
use key_hub.Ratelimit.{LoginRateLimiter, lock_seconds, record_failure, check, reset}
use key_hub.Ratelimit.Window.{answers, ideal_answers, answers-eq-ideal}

abbrev limiter : LoginRateLimiter
limiter = record {
  max_fails = 5;
  base_lock = 60;
  max_lock = 3600;
  state = ("a", record { fails = 4; locked_until = 0 }) ∷ [];
}

fifth : (record_failure limiter "a" 1000).1 ≡ true
unfolding record_failure lock_seconds lookup insert
fifth = refl

-- Without the reset of an expired lock the time doubles with each failure, up to the cap.
doubles :
    ((record_failure (record_failure limiter "a" 1000).0 "a" 1000).2 ≡ 120)
    × ((record_failure (record limiter { max_lock = 100 }) "a" 1000).2 ≡ 60)
unfolding record_failure lock_seconds lookup insert
doubles = (refl, refl)

answers-eq-ideal_example :
    answers 1 (record { requests = [] }) (("t", 10) ∷ ("t", 20) ∷ ("t", 60010) ∷ [])
    ≡ ideal_answers 1 [] (("t", 10) ∷ ("t", 20) ∷ ("t", 60010) ∷ [])
answers-eq-ideal_example =
    answers-eq-ideal 1 0 (("t", 10) ∷ ("t", 20) ∷ ("t", 60010) ∷ []) (record { requests = [] })
      (omega arith)

window_moves_on :
    answers 1 (record { requests = [] }) (("t", 10) ∷ ("t", 20) ∷ ("t", 60010) ∷ [])
    ≡ (true, some 0) ∷ (false, some 0) ∷ (true, some 0) ∷ []
unfolding answers check lookup insert
window_moves_on = refl

reset_all : reset limiter none ≡ record limiter { state = [] }
unfolding reset
reset_all = refl
