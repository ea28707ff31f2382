-- ===== src/Runtime/RwLock.antt =====
-- `_RWLock` of keyhub/runtime.py: each step is what one thread does under the lock's condition.
use key_hub.Common.{ℕ, ◌+◌, ◌-◌, ◌<◌, ◌≡◌}

-- `_readers` and `_writers`.
pub record RwLock : Type 0 where
  pub readers : ℕ
  pub writers : ℕ

-- A thread enters where it need not wait, and leaves where it is inside.
pub data Step (l : RwLock) : RwLock → Type 0 where
  read : l.writers ≡ 0 → Step l (record l { readers = l.readers + 1 })
  read_done : 0 < l.readers → Step l (record l { readers = l.readers - 1 })
  write : l.writers ≡ 0 → l.readers ≡ 0 → Step l (record l { writers = l.writers + 1 })
  write_done : 0 < l.writers → Step l (record l { writers = l.writers - 1 })

pub data Reachable : RwLock → Type 0 where
  start : Reachable (record { readers = 0; writers = 0 })
  later : {l m : RwLock} → Reachable l → Step l m → Reachable m
