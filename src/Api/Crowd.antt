-- ===== src/Api/Crowd.antt =====
-- The `unlock` endpoint (keyhub/api/auth.py) in many threads: the look-up of the lock and the answer
-- of an attempt are steps of their own, and any order of them is a run.
use mathlib.Core.Path.{subst}
use key_hub.Common.{
  ◌≢◌, ◌⊎◌, sym, str_eq, ℕ, zero, suc, ◌+◌, ◌*◌, ◌≤◌, ◌<◌, ◌≡◌, refl, inl, inr, ap, String, eq_iff,
  true, false, Option, none, some, List, [], ◌∷◌, ◌++◌, arith, Bool-cases, Option-cases, All,
  get_elem?,
}
use key_hub.Ratelimit.{second, is_locked, record_failure}
use key_hub.Ratelimit.Held.{
  IsHeld, record_failure-holds, record_failure-IsHeld, record_failure-other, record_success-other,
  is_locked-held, is_locked-other,
}
use key_hub.Api.Unlock.{Reply, retry_after, locked_for, Attempt, Server, try_password, ask}

-- The server, and the attempts that are past the look-up and whose password is being tried.
pub record Site : Type 0 where
  pub server : Server
  pub waiting : List Attempt

-- An attempt comes and is looked up; the attempt at a place among those waiting is answered.
pub data Event : Type 0 where
  arrives : Attempt → Event
  finishes : ℕ → Event

abbrev pub and_wait : Attempt → List Attempt → Option Reply → List Attempt
and_wait a waiting none = waiting ++ a ∷ []
and_wait a waiting (some r) = waiting

pub drop_at : ℕ → List Attempt → List Attempt
drop_at n [] = []
drop_at zero (a ∷ waiting) = waiting
drop_at (suc n) (a ∷ waiting) = a ∷ drop_at n waiting

abbrev pub answer : Site → ℕ → Option Attempt → Site
answer x n none = x
answer x n (some a) = record { server = (try_password x.server a).0; waiting = drop_at n x.waiting }

unfoldable pub step : Site → Event → Site
step x (arrives a) =
    let (s, r) = ask true x.server a in record { server = s; waiting = and_wait a x.waiting r }
step x (finishes n) = answer x n (get_elem? x.waiting n)

-- What the attempts that arrive are told at the look-up, in their order.
unfoldable pub looked_up : Site → List Event → List (Attempt × Option Reply)
looked_up x [] = []
looked_up x (arrives a ∷ es) = (a, (ask true x.server a).1) ∷ looked_up (step x (arrives a)) es
looked_up x (finishes n ∷ es) = looked_up (step x (finishes n)) es

-- An attempt of an address is turned away at the look-up.
abbrev pub IsTurnedAway : String → Attempt × Option Reply → Type 0
IsTurnedAway ip (a, r) = a.ip ≡ ip → (n : ℕ) × (r ≡ some (retry_after n))

-- An attempt that is answered from `since` on, and has a wrong password if it is from `ip`.
abbrev pub IsHostile : String → ℕ → Attempt → Type 0
IsHostile ip since a = (since ≤ a.answered) × (a.ip ≡ ip → a.password_ok ≡ false)

-- One that arrives is looked up before `until`.
abbrev pub IsDuring : String → ℕ → ℕ → Event → Type 0
IsDuring ip since until (arrives a) = IsHostile ip since a × (a.asked < until)
IsDuring ip since until (finishes n) = Unit

locked_for-IsHeld :
    (s : Server) (a : Attempt) (secs : ℕ)
    → (try_password s a).1 ≡ locked_for secs
    → IsHeld a.ip a.answered secs (try_password s a).0.limiter
unfolding try_password
locked_for-IsHeld s a secs e = elim (Bool-cases a.password_ok) [
  | inl right ↦ absurd (ground (arith, e, right))
  | inr wrong ↦ elim (Bool-cases (record_failure s.limiter a.ip a.answered).1) [
    | inl tripped ↦
        let same : (record_failure s.limiter a.ip a.answered).2 ≡ secs =
          ground (arith, e, wrong, tripped) in
        subst (λ n. IsHeld a.ip a.answered n (try_password s a).0.limiter) same
          (rw (wrong, tripped) (record_failure-holds s.limiter a.ip a.answered tripped))
    | inr quiet ↦ absurd (ground (arith, e, wrong, quiet))
  ]
]

same_or_other : (j k : String) → (j ≡ k) ⊎ (j ≢ k)
same_or_other j k = elim (Bool-cases (str_eq j k)) [
  | inl same ↦ inl ((eq_iff j k).0 same)
  | inr other ↦ inr (λ e. ground (arith, other, e, eq_iff j k))
]

try_password-wrong :
    (s : Server) (a : Attempt)
    → a.password_ok ≡ false
    → (try_password s a).0.limiter ≡ (record_failure s.limiter a.ip a.answered).0
unfolding try_password
try_password-wrong s a wrong = ground (arith, wrong)

module _ (ip : String) (since secs : ℕ) where
  abbrev until : ℕ
  until = since + secs * second

  try_password-IsHeld :
      (s : Server) (a : Attempt)
      → IsHostile ip since a
      → IsHeld ip since secs s.limiter
      → IsHeld ip since secs (try_password s a).0.limiter
  unfolding try_password
  try_password-IsHeld s a (later, wrong) held = elim (same_or_other a.ip ip) [
    | inl same ↦ subst (IsHeld ip since secs) (sym (try_password-wrong s a (wrong same))) (
        subst (λ j. IsHeld ip since secs (record_failure s.limiter j a.answered).0) (sym same)
          (record_failure-IsHeld s.limiter ip since secs a.answered later held))
    | inr other ↦ elim (Bool-cases a.password_ok) [
      | inl right ↦ rw right (record_success-other s.limiter ip a.ip since secs other held)
      | inr bad ↦
          subst (IsHeld ip since secs) (sym (try_password-wrong s a bad))
            (record_failure-other s.limiter ip a.ip since secs a.answered other held)
    ]
  ]

  get_elem-IsHostile :
      (waiting : List Attempt) (n : ℕ) (a : Attempt)
      → All (IsHostile ip since) waiting
      → get_elem? waiting n ≡ some a
      → IsHostile ip since a
  get_elem-IsHostile [] n a h e = cc
  get_elem-IsHostile (b ∷ waiting) zero a (h, hs) e =
      subst (IsHostile ip since) (ap (λ o. elim o [ none ↦ b | some x ↦ x ]) e) h
  get_elem-IsHostile (b ∷ waiting) (suc n) a (h, hs) e = get_elem-IsHostile waiting n a hs e

  drop_at-IsHostile :
      (n : ℕ) (waiting : List Attempt)
      → All (IsHostile ip since) waiting
      → All (IsHostile ip since) (drop_at n waiting)
  unfolding drop_at
  drop_at-IsHostile n [] h = tt
  drop_at-IsHostile zero (a ∷ waiting) (h, hs) = hs
  drop_at-IsHostile (suc n) (a ∷ waiting) (h, hs) = (h, drop_at-IsHostile n waiting hs)

  and_wait-IsHostile :
      (a : Attempt) (waiting : List Attempt) (r : Option Reply)
      → IsHostile ip since a
      → All (IsHostile ip since) waiting
      → All (IsHostile ip since) (and_wait a waiting r)
  and_wait-IsHostile a [] none h hs = (h, tt)
  and_wait-IsHostile a (b ∷ waiting) none h (g, gs) = (g, and_wait-IsHostile a waiting none h gs)
  and_wait-IsHostile a waiting (some r) h hs = hs

  ask-IsHeld :
      (s : Server) (a : Attempt)
      → a.asked < until
      → IsHeld ip since secs s.limiter
      → IsHeld ip since secs (ask true s a).0.limiter × IsTurnedAway ip (a, (ask true s a).1)
  unfolding ask
  ask-IsHeld s a early held = elim (same_or_other a.ip ip) [
    | inl same ↦
        let (closed, still) =
          is_locked-held s.limiter a.ip since secs a.asked early
            (subst (λ j. IsHeld j since secs s.limiter) (sym same) held) in
        rw closed (subst (IsHeld ip since secs) (sym still) held, λ e. (_, refl))
    | inr other ↦ elim (Bool-cases (is_locked s.limiter a.ip a.asked).1) [
      | inl closed ↦
          rw closed
            (is_locked-other s.limiter ip a.ip since secs a.asked other held, λ e. (_, refl))
      | inr free ↦
          rw free
            (is_locked-other s.limiter ip a.ip since secs a.asked other held, λ e. absurd (other e))
    ]
  ]

  looked_up-IsTurnedAway :
      (es : List Event) (x : Site)
      → All (IsDuring ip since until) es
      → All (IsHostile ip since) x.waiting
      → IsHeld ip since secs x.server.limiter
      → All (IsTurnedAway ip) (looked_up x es)
  unfolding looked_up step
  looked_up-IsTurnedAway [] x during hostile held = tt
  looked_up-IsTurnedAway (arrives a ∷ es) x ((h, early), during) hostile held =
      let (held', away) = ask-IsHeld x.server a early held in
      (
        away,
        looked_up-IsTurnedAway es (step x (arrives a)) during
            (and_wait-IsHostile a x.waiting (ask true x.server a).1 h hostile) held',
      )
  looked_up-IsTurnedAway (finishes n ∷ es) x (h, during) hostile held =
      elim (Option-cases (get_elem? x.waiting n)) [
        | inl nobody ↦
            subst (λ o. All (IsTurnedAway ip) (looked_up (answer x n o) es)) (sym nobody)
              (looked_up-IsTurnedAway es x during hostile held)
        | inr (a, there) ↦
            subst (λ o. All (IsTurnedAway ip) (looked_up (answer x n o) es)) (sym there)
              (looked_up-IsTurnedAway es (answer x n (some a)) during
                (drop_at-IsHostile n x.waiting hostile)
                (try_password-IsHeld x.server a (get_elem-IsHostile x.waiting n a hostile there)
                  held))
      ]

-- Once a wrong password has locked its address, each attempt of that address that is looked up before
-- the announced seconds are over is turned away, whatever attempts of any addresses are looked up
-- before that and answered from the lock on, in any order, also such as were past the look-up before
-- the lock, where none of that address has the right password.
pub looked_up-locked_for :
    (s : Server) (a : Attempt) (secs : ℕ) (waiting : List Attempt) (es : List Event)
    → (try_password s a).1 ≡ locked_for secs
    → All (IsHostile a.ip a.answered) waiting
    → All (IsDuring a.ip a.answered (a.answered + secs * second)) es
    → All
        (IsTurnedAway a.ip)
        (looked_up (record { server = (try_password s a).0; waiting = waiting }) es)
looked_up-locked_for s a secs waiting es locked hostile during =
    looked_up-IsTurnedAway a.ip a.answered secs es _ during hostile
      (locked_for-IsHeld s a secs locked)
