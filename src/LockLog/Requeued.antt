-- ===== src/LockLog/Requeued.antt =====
-- What a failed flush puts back (`drain`, `Requeue` of internal/proxy/lock_log.go), with what the log
-- recorded meanwhile.
use sair.Base.{ℕ, ◌≡◌, List, [], ◌∷◌, ◌++◌}
use sair.Text.{Bytes}
use sair.LockLog.Entries.{Entry, blank}
use sair.LockLog.{LockLog, log_entry}
use sair.LockLog.Tunnel.{Observer}
use sair.LockLog.Tunnel.Taken.{IsTaken}
use sair.LockLog.Drained.{IsCounted}

-- The entry that carries a piece of output, if there is any.
unfoldable pub piece_entry : ℕ → Bytes → List Entry
piece_entry id [] = []
piece_entry id (b ∷ piece) = record blank { request_id = id; output = b ∷ piece } ∷ []

-- The entries carry the output of the requests that still run, one piece of each at most, in their
-- order: what each request had is its piece and what it keeps.
unfoldable pub AreTaken : List Observer → List Observer → List Entry → Type 0
unfolding piece_entry IsTaken
AreTaken [] [] out = out ≡ []
AreTaken [] (o' ∷ os') out = ⊥
AreTaken (o ∷ os) [] out = ⊥
AreTaken (o ∷ os) (o' ∷ os') out =
    (piece : Bytes) × (later : List Entry) × IsTaken o o' piece
    × (out ≡ piece_entry o.id piece ++ later)
    × AreTaken os os' later

-- Recording entries one after another.
unfoldable pub log_entries : LockLog → List Entry → LockLog
log_entries l [] = l
log_entries l (e ∷ es) = log_entries (log_entry l e) es

-- The log's pending entries begin with these, and its count is exact.
Extends : List Entry → LockLog → Type 0
Extends es l = IsCounted l × ((since : List Entry) × (l.pending ≡ es ++ since))
