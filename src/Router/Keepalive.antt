-- ===== src/Router/Keepalive.antt =====
-- `runKeepalive` and `idleFor` (internal/proxy/scoped_port.go): one tick of each timer of a scoped
-- port. What the port's connections record meanwhile stands between the ticks.
use sair.Base.{
  ℕ, ◌-◌, Bool, true, false, not, ◌&&◌, Option, none, some, List, [], ◌∷◌, ◌++◌, ltb, leb, is_some,
}
use sair.Text.{Bytes, utf8}
use sair.Ports.Branch.{if◌then◌else◌}
use sair.LockLog.Entries.{Entry, blank}
use sair.LockLog.{LockLog, log_entry, drain_some, requeue}
use sair.Router.Session.{SendFault}
use sair.Router.Orchestrator.{
  Net, M, ◌>>=◌, pure, session_up, Beaten, lock_heartbeat, send_lock_log,
}

-- What the loop does next: `releases` and `closes` end it, and start the release of an abandoned lock
-- or the closing of an expired one.
pub data Next : Type 0 where
  goes_on releases closes : Next

pub record Keeper : Type 0 where
  pub log : LockLog
  pub flushed_since_beat : Bool
  pub next : Next

-- `idleFor`, of how many clients are connected and when the last one left.
unfoldable pub idle_for : ℕ → ℕ → ℕ → ℕ
idle_for open_conns last_client now = if ltb 0 open_conns then 0 else now - last_client

unfoldable pub flush_outcome : Keeper → List Entry → Option SendFault → Keeper
flush_outcome k entries none = record k { flushed_since_beat = true }
flush_outcome k entries (some e) = record k { log = requeue k.log entries }

unfoldable pub requeue_some : LockLog → List Entry → LockLog
requeue_some l [] = l
requeue_some l (e ∷ es) = requeue l (e ∷ es)

unfoldable pub next_of : Beaten → Next
next_of b = if not (is_some b.error) && not b.alive then closes else goes_on

unfoldable pub beat_outcome : Keeper → Beaten → Keeper
unfolding requeue_some next_of
beat_outcome k b = record k { log = requeue_some k.log b.unsent; next = next_of b }

-- The time, how long no client was connected, and how that is printed.
pub record Moment : Type 0 where
  pub now_ms : ℕ
  pub idle : ℕ
  pub idle_text : Bytes

unfoldable pub is_abandoned : ℕ → Moment → Bool
is_abandoned idle_timeout m = ltb 0 idle_timeout && leb idle_timeout m.idle

abbrev pub farewell : Moment → Entry
farewell m = record blank {
  timestamp_ms = m.now_ms;
  service = utf8 "sair: released, no adb client for " ++ (m.idle_text ++ utf8 " (the job is gone)");
}

-- What happens to the log of a port, in order.
pub data Event : Type 0 where
  recorded : Entry → Event
  flushes : Event
  beats : Moment → Event

unfoldable pub goes_on_with : Next → M Keeper → Keeper → M Keeper
goes_on_with goes_on rest k = rest
goes_on_with releases rest k = pure k
goes_on_with closes rest k = pure k

module _ (net : Net) (lock_id : Bytes) where
  unfoldable pub flush_drained : Keeper → List Entry → M Keeper
  unfolding flush_outcome
  flush_drained k [] = pure k
  flush_drained k (e ∷ es) = do
    r ← send_lock_log net lock_id (e ∷ es)
    pure (flush_outcome k (e ∷ es) r)

  -- A tick of the flush timer.
  unfoldable pub flush_tick : Keeper → M Keeper
  flush_tick k = do
    up ← session_up net
    if not up
        then pure k
        else flush_drained (record k { log = (drain_some k.log).1 }) (drain_some k.log).0

  unfoldable pub heartbeat_with : Keeper → List Entry → M Keeper
  unfolding beat_outcome
  heartbeat_with k entries = do b ← lock_heartbeat net lock_id entries; pure (beat_outcome k b)

  unfoldable pub heartbeat : Keeper → M Keeper
  heartbeat k = do
    up ← session_up net
    if up
        then heartbeat_with k []
        else heartbeat_with (record k { log = (drain_some k.log).1 }) (drain_some k.log).0

  -- A tick of the heartbeat timer.
  unfoldable pub beat_tick : ℕ → Moment → Keeper → M Keeper
  unfolding is_abandoned
  beat_tick idle_timeout m k =
      if is_abandoned idle_timeout m
      then pure (record k { log = log_entry k.log (farewell m); next = releases })
      else if k.flushed_since_beat
      then pure (record k { flushed_since_beat = false })
      else heartbeat k

  unfoldable pub happens : ℕ → Event → Keeper → M Keeper
  happens idle_timeout (recorded e) k = pure (record k { log = log_entry k.log e })
  happens idle_timeout flushes k = flush_tick k
  happens idle_timeout (beats m) k = beat_tick idle_timeout m k

  -- The loop, over what happens until one tick ends it.
  unfoldable pub run_keepalive : ℕ → List Event → Keeper → M Keeper
  unfolding goes_on_with
  run_keepalive idle_timeout [] k = pure k
  run_keepalive idle_timeout (e ∷ es) k = do
    k' ← happens idle_timeout e k
    goes_on_with k'.next (run_keepalive idle_timeout es k') k'
