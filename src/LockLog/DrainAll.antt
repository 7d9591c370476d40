-- ===== src/LockLog/DrainAll.antt =====
-- The release call carries everything (`DrainAll`).
use sair.Base.{ℕ, ◌≡◌, false, List, [], ◌∷◌, ◌++◌}
use sair.LockLog.Entries.{Entry}
use sair.LockLog.{LockLog, drain, drain_batches, max_lock_log_drain_bytes}
use sair.LockLog.Drained.{IsCounted}

abbrev batch : LockLog → List Entry × LockLog
batch l = drain max_lock_log_drain_bytes false l

after_batch : ℕ → LockLog → List Entry → List Entry × LockLog
after_batch f l [] = ([], (batch l).1)
after_batch f l (e ∷ es) =
    ((e ∷ es) ++ (drain_batches f (batch l).1).0, (drain_batches f (batch l).1).1)

abbrev Emptied : LockLog → List Entry × LockLog → Type 0
Emptied l r =
    (r.0 ≡ l.pending)
    × (r.1.pending ≡ [])
    × (r.1.open_requests ≡ l.open_requests)
    × (IsCounted l → IsCounted r.1)
