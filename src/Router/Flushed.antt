-- ===== src/Router/Flushed.antt =====
-- What is logged reaches the orchestrator while the session is up (internal/proxy/scoped_port.go).
use sair.Base.{
  ℕ, zero, suc, ◌≤◌, ◌≡◌, refl, sym, ap, ◌∙◌, ◌≢◌, true, Option, none, some, List, [], ◌∷◌, ◌++◌,
  append-nil, arith, is_some, length, length-append,
}
use sair.Text.{Bytes}
use sair.Ports.Branch.{if◌then◌else◌}
use mathlib.Core.List.{Sublist}
use sair.LockLog.Entries.{Entry}
use sair.LockLog.{LockLog, drain_some, max_lock_log_drain_bytes}
use sair.LockLog.Drained.{drain-splits}
use sair.Router.Session.{Session, connected}
use sair.Router.Orchestrator.{
  Message, lock_log_message, Net, Trace, ◌>>=◌, pure, look, is_up, session_up, send_on, send,
  stream_of, send_lock_log, looked,
}
use sair.Router.Keepalive.{
  Keeper, goes_on, Event, flushes, flush_outcome, flush_drained, flush_tick, happens, goes_on_with,
  run_keepalive,
}
use sair.Router.Shipped.{shipped, run_keepalive-Sublist}

-- The session stays open, and each message is sent.
pub record IsOpen (net : Net) : Type 0 where
  pub up : (t : Trace) → is_up (net.session t) ≡ true
  pub sends : (t : Trace) (stream : ℕ) (m : Message) → net.stream_send t stream m ≡ none

unfoldable pub ticks : ℕ → List Event
ticks zero = []
ticks (suc n) = flushes ∷ ticks n

some_of : (stream : Option ℕ) → is_some stream ≡ true → (n : ℕ) × (stream ≡ some n)
some_of none h = cc
some_of (some n) h = (n, refl)

stream-of_up : (s : Option Session) → is_up s ≡ true → (n : ℕ) × (stream_of s ≡ some n)
unfolding is_up connected stream_of
stream-of_up none h = cc
stream-of_up (some s) h = some_of s.stream h

drain-shortens :
    (l : LockLog) (n : ℕ) → length l.pending ≤ suc n → length (drain_some l).1.pending ≤ n
unfolding drain_some
drain-shortens l n h =
    let (taken, out, e, split, small, progress, quiet) =
      drain-splits max_lock_log_drain_bytes true l in
    shorter taken (drain_some l).1.pending l.pending split progress h
  where
    shorter :
        (taken rest before : List Entry)
        → taken ++ rest ≡ before
        → (before ≢ [] → taken ≢ [])
        → length before ≤ suc n
        → length rest ≤ n
    shorter [] rest [] e p small = omega (arith, ap length e)
    shorter [] rest (b ∷ before) e p small = absurd (p (λ h. cc) refl)
    shorter (x ∷ taken) rest before e p small =
        omega (arith, ap length e, length-append (x ∷ taken) rest)

module _ (net : Net) (o : IsOpen net) (lock_id : Bytes) where
  sends-send_lock_log : (es : List Entry) (t : Trace) → (send_lock_log net lock_id es t).0 ≡ none
  unfolding send_lock_log session_up look ◌>>=◌ pure send if◌then◌else◌ send_on
  sends-send_lock_log es t =
      let (n, e) = stream-of_up (net.session (looked ∷ t)) (o.up (looked ∷ t)) in
      rw (o.up t, e, o.sends (looked ∷ looked ∷ t) n (lock_log_message lock_id es)) refl

  next-flush_drained :
      (k : Keeper) (es : List Entry) (t : Trace)
      → (flush_drained net lock_id k es t).0.next ≡ k.next
  unfolding flush_drained ◌>>=◌ pure flush_outcome
  next-flush_drained k [] t = refl
  next-flush_drained k (e ∷ es) t = rw (sends-send_lock_log (e ∷ es) t) refl

  log-flush_drained :
      (k : Keeper) (es : List Entry) (t : Trace) → (flush_drained net lock_id k es t).0.log ≡ k.log
  unfolding flush_drained ◌>>=◌ pure flush_outcome
  log-flush_drained k [] t = refl
  log-flush_drained k (e ∷ es) t = rw (sends-send_lock_log (e ∷ es) t) refl

  abbrev drained : Keeper → Keeper
  drained k = record k { log = (drain_some k.log).1 }

  next-flush_tick : (k : Keeper) (t : Trace) → (flush_tick net lock_id k t).0.next ≡ k.next
  unfolding flush_tick session_up look ◌>>=◌ pure if◌then◌else◌
  next-flush_tick k t =
      rw (o.up t) (next-flush_drained (drained k) (drain_some k.log).0 (looked ∷ t))

  log-flush_tick :
      (k : Keeper) (t : Trace) → (flush_tick net lock_id k t).0.log ≡ (drain_some k.log).1
  unfolding flush_tick session_up look ◌>>=◌ pure if◌then◌else◌
  log-flush_tick k t = rw (o.up t) (log-flush_drained (drained k) (drain_some k.log).0 (looked ∷ t))

  none_pending : (l : LockLog) → length l.pending ≤ 0 → l.pending ≡ []
  none_pending l h = nothing l.pending h
    where
      nothing : (es : List Entry) → length es ≤ 0 → es ≡ []
      nothing [] h = refl
      nothing (e ∷ es) h = let impossible : suc zero ≡ zero = omega arith in cc

  pending-ticks :
      (idle_timeout n : ℕ) (k : Keeper) (t : Trace)
      → k.next ≡ goes_on
      → length k.log.pending ≤ n
      → (run_keepalive net lock_id idle_timeout (ticks n) k t).0.log.pending ≡ []
  unfolding run_keepalive ticks happens ◌>>=◌ pure goes_on_with
  pending-ticks idle_timeout zero k t g h = none_pending k.log h
  pending-ticks idle_timeout (suc n) k t g h =
      let r = flush_tick net lock_id k t in
      let g' = next-flush_tick k t ∙ g in
      rw g' (
        pending-ticks idle_timeout n r.0 r.1 g'
          (rw (log-flush_tick k t) (drain-shortens k.log n h)))

-- While the session stays open and each message is sent, as many flush ticks as there are pending
-- entries leave nothing pending, and all that was pending has been shipped, in order.
pub run_keepalive-flushes :
    (net : Net)
    → IsOpen net
    → (lock_id : Bytes) (idle_timeout n : ℕ) (k : Keeper) (t : Trace) → k.next ≡ goes_on
    → length k.log.pending ≤ n
    → let r = run_keepalive net lock_id idle_timeout (ticks n) k t in
      (r.0.log.pending ≡ []) × Sublist (shipped t ++ k.log.pending) (shipped r.1)
run_keepalive-flushes net o lock_id idle_timeout n k t g h =
    let r = run_keepalive net lock_id idle_timeout (ticks n) k t in
    let gone = pending-ticks net o lock_id idle_timeout n k t g h in
    (
      gone,
      all_shipped (shipped r.1) r.0.log.pending gone
          (run_keepalive-Sublist net lock_id idle_timeout (ticks n) k t),
    )
  where
    all_shipped :
        {before : List Entry} (front rest : List Entry)
        → rest ≡ []
        → Sublist before (front ++ rest)
        → Sublist before front
    all_shipped front rest e s = rw⁻¹ (append-nil front) (rw (sym e) s)
