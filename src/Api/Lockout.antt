-- ===== src/Api/Lockout.antt =====
-- The `unlock` endpoint (keyhub/api/auth.py) over time: how long the locks of the login limiter last.
use mathlib.Core.Path.{ap₂}
use key_hub.Models.{AuditLog}
use key_hub.Common.{
  some, none, ℕ, ◌∙◌, ◌<◌, min, ◌≡◌, refl, inl, inr, String, Bool, true, false, List, [], ◌∷◌,
  arith, Bool-cases, All,
}
use key_hub.Common.Dict.{lookup}
use key_hub.Ratelimit.{LoginRateLimiter, is_locked, record_failure, record_success, attempts}
use key_hub.Ratelimit.Backoff.{
  IsSettled, is_locked-IsSettled, is_locked-room, record_failure-IsSettled,
  record_success-IsSettled,
}
use key_hub.Api.Unlock.{
  Reply, locked_for, Attempt, Server, try_password, ask, unlock, failed, retry_after,
}

unfoldable pub run : Bool → Server → List Attempt → List Reply
run initialized s [] = []
run initialized s (a ∷ rest) = let (s', r) = unlock initialized s a in r ∷ run initialized s' rest

-- A lock that is announced lasts this long.
abbrev pub LastsFor : ℕ → Reply → Type 0
LastsFor secs (locked_for n) = n ≡ secs
LastsFor secs _ = Unit

-- What the limiter was built with.
abbrev Config : LoginRateLimiter → LoginRateLimiter → Type 0
Config l l' =
    (l'.max_fails ≡ l.max_fails) × (l'.base_lock ≡ l.base_lock) × (l'.max_lock ≡ l.max_lock)

is_locked-Config : (l : LoginRateLimiter) (ip : String) (now : ℕ) → Config l (is_locked l ip now).0
unfolding is_locked
is_locked-Config l ip now = ground arith

record_failure-Config :
    (l : LoginRateLimiter) (ip : String) (now : ℕ) → Config l (record_failure l ip now).0
unfolding record_failure
record_failure-Config l ip now = ground arith

ask_closed :
    (s : Server) (a : Attempt)
    → (is_locked s.limiter a.ip a.asked).1 ≡ true
    → ask true s a ≡ (
      failed a a.asked (record s { limiter = (is_locked s.limiter a.ip a.asked).0 }),
      some (retry_after (is_locked s.limiter a.ip a.asked).2),
    )
unfolding ask
ask_closed s a closed = ground (arith, closed)

ask_free :
    (s : Server) (a : Attempt)
    → (is_locked s.limiter a.ip a.asked).1 ≡ false
    → ask true s a ≡ (record s { limiter = (is_locked s.limiter a.ip a.asked).0 }, none)
unfolding ask
ask_free s a free = ground (arith, free)

module _ (max_fails base_lock max_lock : ℕ) (f : 0 < max_fails) (b : 0 < base_lock)
    (m : 0 < max_lock) where
  record Good (l : LoginRateLimiter) : Type 0 where
    same : (l.max_fails ≡ max_fails) × (l.base_lock ≡ base_lock) × (l.max_lock ≡ max_lock)
    settled : IsSettled l

  try_password-Good :
      (s : Server) (a : Attempt)
      → Good s.limiter
      → (attempts s.limiter a.ip).fails < s.limiter.max_fails
      → Good (try_password s a).0.limiter × LastsFor (min base_lock max_lock) (try_password s a).1
  unfolding try_password
  try_password-Good s a g room = elim (Bool-cases a.password_ok) [
    | inl good ↦ rw good (
      record {
        same = unfold record_success in g.same;
        settled = record_success-IsSettled s.limiter a.ip g.settled;
      },
      tt,
    )
    | inr bad ↦
        let (settled, secs) =
          record_failure-IsSettled s.limiter a.ip a.answered (omega (arith, g.same))
            (omega (arith, g.same)) room g.settled in
        let same = record_failure-Config s.limiter a.ip a.answered in
        let good : Good (record_failure s.limiter a.ip a.answered).0 = record {
          same = omega (arith, same, g.same);
          settled = settled;
        } in
        elim (Bool-cases (record_failure s.limiter a.ip a.answered).1) [
          | inl tripped ↦ rw (bad, tripped) (good, secs tripped ∙ ap₂ min g.same.1 g.same.2)
          | inr quiet ↦ rw (bad, quiet) (good, tt)
        ]
  ]

  unlock-Good :
      (initialized : Bool) (s : Server) (a : Attempt)
      → Good s.limiter
      → Good (unlock initialized s a).0.limiter
        × LastsFor (min base_lock max_lock) (unlock initialized s a).1
  unfolding unlock ask
  unlock-Good false s a g = (g, tt)
  unlock-Good true s a g =
      let l = (is_locked s.limiter a.ip a.asked).0 in
      let pos : 0 < s.limiter.max_fails = omega (arith, g.same) in
      let settled = is_locked-IsSettled s.limiter a.ip a.asked pos g.settled in
      let room = is_locked-room s.limiter a.ip a.asked pos g.settled in
      let same = is_locked-Config s.limiter a.ip a.asked in
      let good : Good l = record { same = omega (arith, same, g.same); settled = settled } in
      elim (Bool-cases (is_locked s.limiter a.ip a.asked).1) [
        | inl closed ↦ rw (ask_closed s a closed) (good, tt)
        | inr free ↦
            rw (ask_free s a free)
              (try_password-Good (record s { limiter = l }) a good (omega (arith, same, room free)))
      ]

  run-LastsFor :
      (initialized : Bool) (s : Server) (attempts : List Attempt)
      → Good s.limiter
      → All (LastsFor (min base_lock max_lock)) (run initialized s attempts)
  unfolding run
  run-LastsFor initialized s [] g = tt
  run-LastsFor initialized s (a ∷ rest) g =
      let (g', r) = unlock-Good initialized s a g in
      (r, run-LastsFor initialized (unlock initialized s a).0 rest g')

-- From an empty limiter with positive settings, where each attempt is answered before the next one
-- comes, whatever is tried from whatever addresses at whatever times, each lock that the endpoint
-- announces lasts the base time, or the cap if that is lower.
pub run-base_lock :
    (max_fails base_lock max_lock : ℕ) (initialized : Bool) (logs : List AuditLog)
    (attempts : List Attempt)
    → 0 < max_fails
    → 0 < base_lock
    → 0 < max_lock
    → All (LastsFor (min base_lock max_lock)) (
        run initialized
          (record {
            limiter = record {
              max_fails = max_fails;
              base_lock = base_lock;
              max_lock = max_lock;
              state = [];
            };
            audit_logs = logs;
          })
          attempts)
run-base_lock max_fails base_lock max_lock initialized logs tries f b m =
    run-LastsFor max_fails base_lock max_lock f b m initialized _ tries
      (record { same = (refl, refl, refl); settled = unfold IsSettled lookup in λ ip st e. cc })
