-- ===== src/AutoLock.antt =====
-- keyhub/auto_lock.py: the thread that locks an idle server. Times are seconds of the monotonic
-- clock, which the audit log takes here too; an idle time of 0 stands for every one that is not
-- positive. Starting and stopping the thread are left out.
mod Idle
mod Tests
use key_hub.Common.{ℕ, ◌+◌, Bool, true, ◌&&◌, none, List, ltb, if◌then◌else◌, is_some}
use key_hub.Models.{AuditLog, audit, auth_auto_lock}
use key_hub.Runtime.State.{Server, lock}

-- The checker, with the server and the log that it writes to.
pub record AutoLockChecker : Type 0 where
  pub last_activity : ℕ
  pub server : Server
  pub audit_logs : List AuditLog

-- `touch`
unfoldable pub touch : AutoLockChecker → ℕ → AutoLockChecker
touch a now = record a { last_activity = now }

-- `Runtime.unlocked`
abbrev pub is_unlocked : Server → Bool
is_unlocked s = is_some s.vault

-- The lock and its audit row.
unfoldable pub lock_idle : AutoLockChecker → ℕ → AutoLockChecker
lock_idle a now =
    let locked = lock a.server in
    record a {
      server = locked;
      audit_logs =
          if is_unlocked locked
          then a.audit_logs
          else audit auth_auto_lock "system" none true now a.audit_logs;
    }

-- One turn of `_loop`, with the `auto_lock_idle_seconds` that it reads.
unfoldable pub turn : ℕ → AutoLockChecker → ℕ → AutoLockChecker
turn idle a now = if ltb 0 idle && ltb (a.last_activity + idle) now then lock_idle a now else a
