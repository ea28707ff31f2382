-- ===== src/Api/Unlock.antt =====
-- keyhub/api/auth.py: the `unlock` endpoint over the login limiter. The cookie is left out. The
-- endpoint runs in a pool of threads, and the limiter is locked in each of its calls alone, so an
-- attempt has two steps, `ask` and `try_password`, and those of others come in between.
use key_hub.Common.{ℕ, String, Bool, true, false, Option, none, some, List, if◌then◌else◌}
use key_hub.Models.{AuditLog, audit, auth_unlock, auth_unlock_failed}
use key_hub.Ratelimit.{LoginRateLimiter, is_locked, record_failure, record_success}

pub data Reply : Type 0 where
  not_initialized invalid_password unlocked : Reply
  retry_after : ℕ → Reply
  locked_for : ℕ → Reply

-- A request: the address, whether `Runtime.unlock` takes the password, and the times at which the
-- lock is looked up and at which a failure is recorded.
pub record Attempt : Type 0 where
  pub ip : String
  pub password_ok : Bool
  pub asked : ℕ
  pub answered : ℕ

pub record Server : Type 0 where
  pub limiter : LoginRateLimiter
  pub audit_logs : List AuditLog

abbrev pub failed : Attempt → ℕ → Server → Server
failed a now s = record s {
  audit_logs = audit auth_unlock_failed "anonymous" none false now s.audit_logs;
}

-- The endpoint behind the look-up, from where the password has been tried.
unfoldable pub try_password : Server → Attempt → Server × Reply
try_password s a =
    if a.password_ok
    then (
      record {
        limiter = record_success s.limiter a.ip;
        audit_logs = audit auth_unlock "master" none true a.answered s.audit_logs;
      },
      unlocked,
    )
    else (let (l, triggered, lock_secs) = record_failure s.limiter a.ip a.answered in
        let s' = record (failed a a.answered s) { limiter = l } in
        if triggered then (s', locked_for lock_secs) else (s', invalid_password))

-- The endpoint up to the look-up of the lock: a refusal, or none and the password is tried next.
unfoldable pub ask : Bool → Server → Attempt → Server × Option Reply
ask initialized s a =
    let (l, locked, remaining) = is_locked s.limiter a.ip a.asked in
    let s' = record s { limiter = l } in
    if initialized
    then (if locked then (failed a a.asked s', some (retry_after remaining)) else (s', none))
    else (s, some not_initialized)

-- What follows the look-up.
abbrev pub then_try : Attempt → Server × Option Reply → Server × Reply
then_try a (s, some r) = (s, r)
then_try a (s, none) = try_password s a

-- `unlock` of one request, with no other in between.
unfoldable pub unlock : Bool → Server → Attempt → Server × Reply
unlock initialized s a = then_try a (ask initialized s a)
