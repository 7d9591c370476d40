-- ===== src/Router/Orchestrator.antt =====
-- The calls that the proxy makes of the orchestrator about locks (internal/proxy/command_router.go):
-- on the session where one is open, else unary. What the session is at a moment, and what gRPC
-- answers, may depend on everything that was done before: the trace, the latest first.
use sair.Base.{ℕ, Bool, true, false, not, Option, none, some, List, [], ◌∷◌}
use sair.Text.{Bytes}
use sair.Result.{Result, ok, err}
use sair.Ports.Branch.{if◌then◌else◌}
use sair.LockLog.Entries.{Entry}
use sair.Adb.Number.{ℤ}
use sair.Router.Session.{
  Failure, Session, connected, SendFault, session_down, send_failed, is_stream_dead,
}

pub data Message : Type 0 where
  devices_message : List Bytes → Message
  heartbeat_message : Bytes → Message
  lock_log_message : Bytes → List Entry → Message
  event_message : Bytes → Message

-- What the lock is for (pb.AcquireLockRequest, as far as AcquireLock copies it from the job).
pub record Job : Type 0 where
  pub repo : Bytes
  pub run_url : Bytes
  pub job : Bytes
  pub run_attempt : Bytes
  pub sha : Bytes
  pub branch : Bytes
  pub workflow : Bytes
  pub stage : Bytes
  pub labels : List (Bytes × Bytes)

pub record LockRequest : Type 0 where
  pub about : Job
  pub count : ℤ
  pub proxy_id : Bytes
  pub priority : ℤ
  pub same_proxy : Bool
  pub tenant_api_key : Bytes
  pub serials : List Bytes

pub record LockReply : Type 0 where
  pub lock_id : Bytes
  pub serials : List Bytes
  -- Each device on another box, with what its owner reported.
  pub remote_devices : List (Bytes × Bytes)

-- What was done, with how it ended; `looked` is a read of the session.
pub data Step : Type 0 where
  looked waited : Step
  sent : Message → Option Failure → Step
  reported : List Bytes → Option Failure → Step
  beat : Bytes → List Entry → Result Failure Bool → Step
  asked : LockRequest → Result Failure LockReply → Step

abbrev pub Trace : Type 0
Trace = List Step

-- `session` is `none` before StartSession; `gone` is whether the caller of AcquireLock hangs up, or
-- its deadline passes, in a wait. The deadline, the address of the client and the keys go along with the
-- request's context.
pub record Net : Type 0 where
  pub session : Trace → Option Session
  pub stream_send : Trace → ℕ → Message → Option Failure
  pub report : Trace → List Bytes → Option Failure
  pub heartbeat : Trace → Bytes → List Entry → Result Failure Bool
  pub acquire : Trace → LockRequest → Result Failure LockReply
  pub gone : Trace → Bool

abbrev pub M : Type 0 → Type 0
M A = Trace → A × Trace

infixl 5 ◌>>=◌ ◌>>◌
unfoldable pub ◌>>=◌ : {A B : Type 0} → M A → (A → M B) → M B
◌>>=◌ m f t = f (m t).0 (m t).1

abbrev pub ◌>>◌ : {A B : Type 0} → M A → M B → M B
m >> k = m >>= λ _. k

unfoldable pub pure : {A : Type 0} → A → M A
pure a t = (a, t)

unfoldable pub is_up : Option Session → Bool
is_up none = false
is_up (some s) = connected s

-- How `send` reads the answer of a Send.
unfoldable pub send_outcome : Option Failure → Option SendFault
send_outcome none = none
send_outcome (some e) = if is_stream_dead e then some session_down else some (send_failed e)

unfoldable pub stream_of : Option Session → Option ℕ
stream_of none = none
stream_of (some s) = s.stream

-- `r.sess != nil && !r.sess.unaryFallback()`: a reconnect is in progress.
unfoldable pub reconnecting : Option Session → Bool
reconnecting none = false
reconnecting (some s) = not s.fallback

as_fault : Option Failure → Option SendFault
as_fault none = none
as_fault (some e) = some (send_failed e)

-- `LockHeartbeat`'s results: whether the lock is alive, the entries it hands back, its error.
pub record Beaten : Type 0 where
  pub alive : Bool
  pub unsent : List Entry
  pub error : Option SendFault

unfoldable pub beaten : List Entry → Result Failure Bool → Beaten
beaten log (err e) = record { alive = false; unsent = log; error = some (send_failed e) }
beaten log (ok alive) = record { alive = alive; unsent = []; error = none }

unfoldable pub is_none : Option SendFault → Bool
is_none none = true
is_none (some e) = false

module _ (net : Net) where
  -- The session as it is now; it may be another one at the next look.
  unfoldable pub look : M (Option Session)
  look t = (net.session t, looked ∷ t)

  -- `sessionUp`.
  unfoldable pub session_up : M Bool
  session_up = do s ← look; pure (is_up s)

  unfoldable pub send_on : Option ℕ → Message → M (Option SendFault)
  unfolding send_outcome
  send_on none m t = (some session_down, t)
  send_on (some n) m t = let r = net.stream_send t n m in (send_outcome r, sent m r ∷ t)

  -- `session.send`, on the stream that is there now. The callers ask for a session first.
  unfoldable pub send : Message → M (Option SendFault)
  unfolding stream_of
  send m = do s ← look; send_on (stream_of s) m

  unfoldable pub report_unary : List Bytes → M (Option SendFault)
  unfolding as_fault
  report_unary ds t = let r = net.report t ds in (as_fault r, reported ds r ∷ t)

  -- `ReportDevices`.
  unfoldable pub report_devices : List Bytes → M (Option SendFault)
  report_devices ds = do
    up ← session_up
    if up
        then send (devices_message ds)
        else do s ← look; if reconnecting s then pure none else report_unary ds

  unfoldable pub beat_unary : Bytes → List Entry → M Beaten
  unfolding beaten
  beat_unary lock_id log t =
      let r = net.heartbeat t lock_id log in (beaten log r, beat lock_id log r ∷ t)

  -- `LockHeartbeat`.
  unfoldable pub lock_heartbeat : Bytes → List Entry → M Beaten
  unfolding is_none
  lock_heartbeat lock_id log = do
    up ← session_up
    if up
        then (do
          e ← send (heartbeat_message lock_id)
          pure (record { alive = is_none e; unsent = log; error = e }))
        else do
          s ← look
          if reconnecting s
              then pure (record { alive = false; unsent = log; error = some session_down })
              else beat_unary lock_id log

  -- `SendLockLog`.
  unfoldable pub send_lock_log : Bytes → List Entry → M (Option SendFault)
  send_lock_log lock_id entries = do
    up ← session_up
    if up then send (lock_log_message lock_id entries) else pure (some session_down)
