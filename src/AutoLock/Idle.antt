-- ===== src/AutoLock/Idle.antt =====
-- When the thread of keyhub/auto_lock.py locks, and what it writes.
use key_hub.Common.{
  ℕ, ◌+◌, ◌≤◌, ◌<◌, ◌≡◌, refl, true, false, none, List, [], ◌∷◌, arith, ltb, all, length,
  length-append,
}
use key_hub.Models.{audit, auth_auto_lock}
use key_hub.Runtime.State.{lock, bump_session_epoch, get_session_epoch}
use key_hub.AutoLock.{AutoLockChecker, touch, is_unlocked, lock_idle, turn}

-- What happens to the checker: activity, or a turn of the loop.
pub data Event : Type 0 where
  active turns : ℕ → Event

abbrev pub step : ℕ → AutoLockChecker → Event → AutoLockChecker
step idle a (active now) = touch a now
step idle a (turns now) = turn idle a now

unfoldable pub run : ℕ → AutoLockChecker → List Event → AutoLockChecker
run idle a [] = a
run idle a (e ∷ es) = run idle (step idle a e) es

-- Events in order of time after `last`, at most `idle` apart.
abbrev pub Busy : ℕ → ℕ → List Event → Type 0
Busy idle last [] = Unit
Busy idle last (active now ∷ es) = (last ≤ now) × Busy idle now es
Busy idle last (turns now ∷ es) = (now ≤ last + idle) × Busy idle last es

turn-soon :
    (idle : ℕ) (a : AutoLockChecker) (t : ℕ) → t ≤ a.last_activity + idle → turn idle a t ≡ a
unfolding turn
turn-soon idle a t soon = ground arith

-- The turn that comes too late.
turn-late :
    (idle : ℕ) (a : AutoLockChecker) (t : ℕ)
    → 0 < idle
    → a.last_activity + idle < t
    → (is_unlocked (turn idle a t).server ≡ false)
      × (get_session_epoch (turn idle a t).server ≡ get_session_epoch a.server + 1)
      × (length (turn idle a t).audit_logs ≡ length a.audit_logs + 1)
      × ((turn idle a t).last_activity ≡ a.last_activity)
unfolding turn lock_idle lock bump_session_epoch audit
turn-late idle a t pos late = ground (
  arith,
  length-append a.audit_logs (
      record {
        action = auth_auto_lock;
        actor = "system";
        target = none;
        success = true;
        created_at = t;
      }
      ∷ []),
)

-- While no turn comes more than the idle time after the last activity, the server and the log stay
-- as they are; and the first turn that does locks the server and moves the session epoch on.
pub run-Busy :
    (idle : ℕ) (es : List Event) (a : AutoLockChecker) (now : ℕ)
    → 0 < idle
    → Busy idle a.last_activity es
    → (run idle a es).last_activity + idle < now
    → ((run idle a es).server ≡ a.server)
      × ((run idle a es).audit_logs ≡ a.audit_logs)
      × (is_unlocked (turn idle (run idle a es) now).server ≡ false)
      × (get_session_epoch (turn idle (run idle a es) now).server ≡ get_session_epoch a.server + 1)
unfolding run touch
run-Busy idle [] a now pos busy late =
    let (shut, epoch, _, _) = turn-late idle a now pos late in (refl, refl, shut, epoch)
run-Busy idle (active t ∷ es) a now pos (le, busy) late =
    run-Busy idle es (record a { last_activity = t }) now pos busy late
run-Busy idle (turns t ∷ es) a now pos (soon, busy) late =
    let same = turn-soon idle a t soon in
    let still : Busy idle (turn idle a t).last_activity es = rw same busy in
    let (server, logs, shut, epoch) = run-Busy idle es (turn idle a t) now pos still late in
    ground (arith, same, server, logs, shut, epoch)

pub idle_turns : ℕ → AutoLockChecker → List ℕ → AutoLockChecker
idle_turns idle a [] = a
idle_turns idle a (t ∷ ts) = idle_turns idle (turn idle a t) ts

-- A server that is locked and idle is locked again in every turn: each turn writes a row of its own
-- to the audit log and moves the session epoch on.
pub idle_turns-locked :
    (idle : ℕ) (ts : List ℕ) (a : AutoLockChecker)
    → 0 < idle
    → all (λ t. ltb (a.last_activity + idle) t) ts ≡ true
    → is_unlocked a.server ≡ false
    → (length (idle_turns idle a ts).audit_logs ≡ length a.audit_logs + length ts)
      × (get_session_epoch (idle_turns idle a ts).server ≡ get_session_epoch a.server + length ts)
unfolding idle_turns
idle_turns-locked idle [] a pos late shut = (omega arith, omega arith)
idle_turns-locked idle (t ∷ ts) a pos late shut =
    let (gone, epoch, logs, last) = turn-late idle a t pos (ground arith) in
    let rest : all (λ u. ltb (a.last_activity + idle) u) ts ≡ true = ground arith in
    let (more, epochs) = idle_turns-locked idle ts (turn idle a t) pos (rw last rest) gone in
    (omega (arith, more, logs), omega (arith, epochs, epoch))
