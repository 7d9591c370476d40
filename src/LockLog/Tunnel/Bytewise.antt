-- ===== src/LockLog/Tunnel/Bytewise.antt =====
-- The decoder takes whatever pieces the connection hands it; here it is one byte at a time.
use sair.Base.{ℕ, ◌+◌, ◌-◌, ◌<◌, not, [], ◌∷◌, ◌++◌, ltb, ◌==◌, if◌then◌else◌, length}
use sair.Text.{Bytes}
use sair.LockLog.Tunnel.{Observer, append, read_status, read_header, keep_payload}

unfoldable pub live_byte : Observer → ℕ → Observer
live_byte o b =
    if ltb (length o.status) 4
    then if ltb (length o.status + 1) 4
      then record o { status = o.status ++ b ∷ [] }
      else read_status (record o { status = o.status ++ b ∷ [] })
    else if ltb 0 o.skip
    then record o { skip = o.skip - 1 }
    else if not o.v2
    then append o (b ∷ [])
    else if o.left == 0
    then if ltb (length o.hdr + 1) 5
      then record o { hdr = o.hdr ++ b ∷ [] }
      else read_header (record o { hdr = o.hdr ++ b ∷ [] })
    else record (keep_payload o.keep o (b ∷ [])) { left = o.left - 1 }

-- What one byte does.
unfoldable pub observe_byte : Observer → ℕ → Observer
observe_byte o b = if o.capture then live_byte o b else o

unfoldable pub observe_bytes : Observer → Bytes → Observer
observe_bytes o [] = o
observe_bytes o (b ∷ p) = observe_bytes (observe_byte o b) p

-- Between rounds a packet header in progress is never whole.
abbrev pub IsReady : Observer → Type 0
IsReady o = length o.hdr < 5
