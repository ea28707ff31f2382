-- ===== src/Runtime/Exclusion.antt =====
-- What the lock of keyhub/runtime.py excludes.
use key_hub.Common.{◌≤◌, ◌≡◌, ◌⊎◌, inl, inr, refl, arith}
use key_hub.Runtime.RwLock.{RwLock, Reachable, read, read_done, write, write_done, start, later}

-- In every state that steps of any threads lead to, at most one writer is inside; while one is, no
-- reader is.
pub Reachable-exclusive :
    (l : RwLock) → Reachable l → (l.writers ≤ 1) × ((l.writers ≡ 0) ⊎ (l.readers ≡ 0))
Reachable-exclusive l start = (omega arith, inl refl)
Reachable-exclusive l (later {l = k} before (read none_writes)) = (omega arith, inl none_writes)
Reachable-exclusive l (later {l = k} before (read_done some_reads)) =
    let (le, one) = Reachable-exclusive k before in ground arith
Reachable-exclusive l (later {l = k} before (write none_writes none_reads)) =
    (omega arith, inr none_reads)
Reachable-exclusive l (later {l = k} before (write_done some_writes)) =
    let (le, one) = Reachable-exclusive k before in (omega arith, inl (omega arith))
