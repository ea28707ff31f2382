-- ===== src/AutoLock/Tests.antt =====
-- Tests and instances for keyhub/auto_lock.py.
use key_hub.Common.{◌+◌, ◌≡◌, refl, true, none, some, [], ◌∷◌, arith, length}
use key_hub.Runtime.State.{Server, get_session_epoch}
use key_hub.AutoLock.{AutoLockChecker, is_unlocked, turn}
use key_hub.AutoLock.Idle.{active, turns, run, idle_turns, idle_turns-locked}

abbrev server : Server
server = record {
  vault = some (record {
    params = record { salt = []; time_cost = 3; memory_cost = 2; parallelism = 1 };
    key = 1 ∷ [];
  });
  initialized = some true;
  kv = [];
  session_epoch = none;
  db = record { credentials = []; llm_keys = []; rotations = []; audit_logs = [] };
}

abbrev checker : AutoLockChecker
checker = record { last_activity = 0; server = server; audit_logs = [] }

last_seen : (run 60 checker (turns 50 ∷ active 55 ∷ turns 100 ∷ [])).last_activity ≡ 55
unfolding run turn key_hub.AutoLock.touch
last_seen = refl

abbrev shut : AutoLockChecker
shut = record checker { server = record server { vault = none } }

idle_turns-locked_example :
    (length (idle_turns 60 shut (70 ∷ 80 ∷ [])).audit_logs ≡ length shut.audit_logs + 2)
    × (get_session_epoch (idle_turns 60 shut (70 ∷ 80 ∷ [])).server
        ≡ get_session_epoch shut.server + 2)
idle_turns-locked_example = idle_turns-locked 60 (70 ∷ 80 ∷ []) shut (omega arith) refl refl
