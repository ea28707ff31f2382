-- ===== src/Api/AtOnce.antt =====
-- Attempts at `unlock` (keyhub/api/auth.py) that all come before any of them is answered.
use mathlib.Core.Path.{subst}
use key_hub.Common.{
  ℕ, zero, suc, ◌+◌, ◌*◌, ◌^◌, ◌-◌, ◌≡◌, ◌∙◌, refl, ap, min, String, eq_iff, true, false, Option,
  none, some, List, [], ◌∷◌, arith, ltb, if◌then◌else◌, All, get_elem?,
}
use key_hub.Common.Dict.{lookup, lookup-insert}
use key_hub.Ratelimit.{
  second, AttemptState, LoginRateLimiter, is_locked, attempts, lock_seconds, record_failure,
}
use key_hub.Api.Unlock.{Reply, locked_for, invalid_password, Attempt, Server, try_password, ask}

abbrev pub join : Attempt → Option Reply → List Attempt → List Attempt
join a none passed = a ∷ passed
join a (some r) passed = passed

-- The look-ups, with the attempts that pass.
unfoldable pub asked_all : Server → List Attempt → Server × List Attempt
asked_all s [] = (s, [])
asked_all s (a ∷ tries) =
    let (s', r) = ask true s a in let (s'', passed) = asked_all s' tries in (s'', join a r passed)

-- The replies to attempts that are past the look-up.
unfoldable pub answered_all : Server → List Attempt → List Reply
answered_all s [] = []
answered_all s (a ∷ tries) = let (s', r) = try_password s a in r ∷ answered_all s' tries

-- All look-ups, and then all answers.
abbrev pub at_once : Server → List Attempt → List Reply
at_once s tries = let (s', passed) = asked_all s tries in answered_all s' passed

-- A wrong password from the address.
abbrev pub IsWrongFrom : String → Attempt → Type 0
IsWrongFrom ip a = (a.ip ≡ ip) × (a.password_ok ≡ false)

-- What a failure is told that is the `fails`-th of its address.
abbrev pub told : LoginRateLimiter → ℕ → Reply
told l fails =
    if ltb fails l.max_fails
    then invalid_password
    else locked_for (min (l.base_lock * 2 ^ (fails - l.max_fails)) l.max_lock)

asked_all-new :
    (ip : String) (s : Server) (tries : List Attempt)
    → lookup ip s.limiter.state ≡ none
    → All (IsWrongFrom ip) tries
    → asked_all s tries ≡ (s, tries)
unfolding asked_all ask is_locked
asked_all-new ip s [] new h = refl
asked_all-new ip s (a ∷ tries) new ((same, wrong), h) =
    let new' : lookup a.ip s.limiter.state ≡ none = ap (λ j. lookup j s.limiter.state) same ∙ new in
    ground (arith, new', asked_all-new ip s tries new h)

-- A failure counts one more for the address, is told so, and leaves the settings.
abbrev CountsOne : String → Server → Server × Reply → Type 0
CountsOne ip s (s', r) =
    (r ≡ told s.limiter (suc (attempts s.limiter ip).fails))
    × ((attempts s'.limiter ip).fails ≡ suc (attempts s.limiter ip).fails)
    × ((n : ℕ) → told s'.limiter n ≡ told s.limiter n)

try_password-CountsOne :
    (ip : String) (s : Server) (a : Attempt) → IsWrongFrom ip a → CountsOne ip s (try_password s a)
unfolding try_password record_failure lock_seconds
try_password-CountsOne ip s a (same, wrong) =
    let n = (attempts s.limiter a.ip).fails + 1 in
    let put = λ (st : AttemptState). lookup-insert a.ip a.ip st s.limiter.state in
    let over =
      put (record { fails = n; locked_until = a.answered + lock_seconds s.limiter n * second }) in
    let under = put (record { fails = n; locked_until = (attempts s.limiter a.ip).locked_until }) in
    subst (λ j. CountsOne j s (try_password s a)) same
      (
        ground (arith, wrong, over, under, eq_iff a.ip a.ip),
        ground (arith, wrong, over, under, eq_iff a.ip a.ip),
        λ m. ground (arith, wrong),
      )

answered_all-told :
    (ip : String) (tries : List Attempt) (s : Server) (i : ℕ) (a : Attempt)
    → All (IsWrongFrom ip) tries
    → get_elem? tries i ≡ some a
    → get_elem? (answered_all s tries) i
      ≡ some (told s.limiter ((attempts s.limiter ip).fails + suc i))
unfolding answered_all
answered_all-told ip [] s i a h there = cc
answered_all-told ip (b ∷ tries) s zero a (w, h) there =
    let (reply, count, config) = try_password-CountsOne ip s b w in
    ap (λ r. some r) (reply ∙ ap (told s.limiter) (omega arith))
answered_all-told ip (b ∷ tries) s (suc i) a (w, h) there =
    let (reply, count, config) = try_password-CountsOne ip s b w in
    let s' = (try_password s b).0 in
    answered_all-told ip tries s' i a h there
    ∙ ap (λ r. some r)
        (config ((attempts s'.limiter ip).fails + suc i)
          ∙ ap (told s.limiter) (omega (arith, count)))

-- Of attempts with wrong passwords from an address without failures, which all come before any of
-- them is answered, none is turned away, and the i-th to be answered is told that its password is
-- invalid, while there are fewer than `max_fails`, and from there on of a lock that starts at the
-- base time and doubles with each failure up to the cap.
pub at_once-told :
    (s : Server) (ip : String) (tries : List Attempt) (i : ℕ) (a : Attempt)
    → lookup ip s.limiter.state ≡ none
    → All (IsWrongFrom ip) tries
    → get_elem? tries i ≡ some a
    → get_elem? (at_once s tries) i ≡ some (told s.limiter (suc i))
at_once-told s ip tries i a new h there =
    let none_yet : (attempts s.limiter ip).fails ≡ 0 = ground (arith, new) in
    ap (λ (x : Server × List Attempt). get_elem? (answered_all x.0 x.1) i)
      (asked_all-new ip s tries new h)
    ∙ answered_all-told ip tries s i a h there
    ∙ ap (λ n. some (told s.limiter n)) (omega (arith, none_yet))
