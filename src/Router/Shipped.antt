-- ===== src/Router/Shipped.antt =====
-- What the keepalive loop (internal/proxy/scoped_port.go) does to a lock's log.
use sair.Base.{
  ℕ, ◌≡◌, refl, sym, ap, ◌∙◌, inl, inr, Bool, true, false, Option, none, some, List, [], ◌∷◌, ◌++◌,
  append_assoc, append-nil, Bool-cases,
}
use sair.Text.{Bytes}
use sair.Ports.Branch.{if◌then◌else◌}
use sair.Result.{Result, ok, err}
use mathlib.Core.List.Sublist
use mathlib.Core.List.{Sublist, sublist-append_left, sublist-append_right}
use sair.LockLog.Entries.{Entry}
use sair.LockLog.{LockLog, log_entry, drain_some, requeue, max_lock_log_drain_bytes}
use sair.LockLog.Drained.{drain-splits}
use sair.LockLog.Bounds.{log_entry-keeps_or_marks}
use sair.Router.Session.{Failure, SendFault, is_stream_dead}
use sair.Router.Orchestrator.{
  Message, devices_message, heartbeat_message, lock_log_message, event_message, looked, waited,
  sent, reported, beat, asked, Net, Trace, M, ◌>>=◌, pure, look, is_up, session_up, send_outcome,
  send_on, send, reconnecting, beat_unary, beaten, lock_heartbeat, send_lock_log,
}
use sair.Router.Keepalive.{
  Keeper, Next, goes_on, releases, closes, Event, recorded, flushes, beats, flush_outcome,
  flush_drained, flush_tick, requeue_some, beat_outcome, heartbeat_with, heartbeat, farewell,
  is_abandoned, beat_tick, happens, goes_on_with, run_keepalive,
}

delivered_by : Message → Option Failure → List Entry
delivered_by (lock_log_message i es) none = es
delivered_by (lock_log_message i es) (some e) = []
delivered_by (devices_message ds) r = []
delivered_by (heartbeat_message i) r = []
delivered_by (event_message e) r = []

carried_by : List Entry → Result Failure Bool → List Entry
carried_by es (ok alive) = es
carried_by es (err e) = []

-- The log entries that reached the orchestrator, in the order of the calls that carried them.
unfoldable pub shipped : Trace → List Entry
unfolding delivered_by carried_by
shipped [] = []
shipped (sent m r ∷ t) = shipped t ++ delivered_by m r
shipped (beat i es r ∷ t) = shipped t ++ carried_by es r
shipped (looked ∷ t) = shipped t
shipped (waited ∷ t) = shipped t
shipped (reported ds r ∷ t) = shipped t
shipped (asked q r ∷ t) = shipped t

unless : Option SendFault → List Entry → List Entry
unless none es = es
unless (some e) es = []

module _ (net : Net) where
  shipped-sent :
      (i : Bytes) (es : List Entry) (r : Option Failure) (t : Trace)
      → shipped (sent (lock_log_message i es) r ∷ t) ≡ shipped t ++ unless (send_outcome r) es
  unfolding shipped send_outcome unless if◌then◌else◌
  shipped-sent i es none t = refl
  shipped-sent i es (some e) t = elim (Bool-cases (is_stream_dead e)) [
    | inl d ↦ rw d refl
    | inr l ↦ rw l refl
  ]

  shipped-send_on :
      (stream : Option ℕ) (i : Bytes) (es : List Entry) (t : Trace)
      → shipped (send_on net stream (lock_log_message i es) t).1
        ≡ shipped t ++ unless (send_on net stream (lock_log_message i es) t).0 es
  unfolding send_on unless
  shipped-send_on none i es t = sym (append-nil _)
  shipped-send_on (some n) i es t =
      shipped-sent i es (net.stream_send t n (lock_log_message i es)) t

  shipped-send_lock_log :
      (i : Bytes) (es : List Entry) (t : Trace)
      → shipped (send_lock_log net i es t).1 ≡ shipped t ++ unless (send_lock_log net i es t).0 es
  unfolding send_lock_log session_up look ◌>>=◌ pure send unless if◌then◌else◌ shipped
  shipped-send_lock_log i es t = elim (Bool-cases (is_up (net.session t))) [
    | inl up ↦ rw up (shipped-send_on _ i es _)
    | inr down ↦ rw down (sym (append-nil _))
  ]

  shipped-pulse :
      (stream : Option ℕ) (i : Bytes) (t : Trace)
      → shipped (send_on net stream (heartbeat_message i) t).1 ≡ shipped t
  unfolding send_on shipped delivered_by
  shipped-pulse none i t = refl
  shipped-pulse (some n) i t = append-nil _

  shipped-carried :
      (i : Bytes) (es : List Entry) (r : Result Failure Bool) (t : Trace)
      → shipped (beat i es r ∷ t) ++ (beaten es r).unsent ≡ shipped t ++ es
  unfolding shipped carried_by beaten
  shipped-carried i es (ok alive) t = append-nil _
  shipped-carried i es (err e) t = ap (λ front. front ++ es) (append-nil (shipped t))

  -- What a heartbeat ships and what it hands back is what it was given.
  shipped-lock_heartbeat :
      (i : Bytes) (es : List Entry) (t : Trace)
      → shipped (lock_heartbeat net i es t).1 ++ (lock_heartbeat net i es t).0.unsent
        ≡ shipped t ++ es
  unfolding lock_heartbeat session_up look ◌>>=◌ pure send if◌then◌else◌ shipped beat_unary
  shipped-lock_heartbeat i es t = elim (Bool-cases (is_up (net.session t))) [
    | inl up ↦ rw up (ap (λ front. front ++ es) (shipped-pulse _ i _))
    | inr down ↦ rw down (elim (Bool-cases (reconnecting (net.session (looked ∷ t)))) [
      | inl busy ↦ rw busy refl
      | inr unary ↦
          rw unary
            (shipped-carried i es (net.heartbeat (looked ∷ looked ∷ t) i es) (looked ∷ looked ∷ t))
    ])
  ]

-- What reached the orchestrator, and then what is still in the log.
abbrev kept : Trace → Keeper → List Entry
kept t k = shipped t ++ k.log.pending

Sublist-front :
    {xs ys : List Entry} (front : List Entry) → Sublist xs ys → Sublist (front ++ xs) (front ++ ys)
Sublist-front [] s = s
Sublist-front (x ∷ front) s = Sublist.cons-cons x (Sublist-front front s)

Sublist-parts :
    (taken out rest before given : List Entry)
    → given ≡ taken ++ out
    → taken ++ rest ≡ before
    → Sublist before (given ++ rest)
Sublist-parts taken out rest before given e split =
    rw (e, sym split, append_assoc taken out rest)
      (Sublist-front taken (sublist-append_right out rest))

Sublist-drain : (l : LockLog) → Sublist l.pending ((drain_some l).0 ++ (drain_some l).1.pending)
unfolding drain_some
Sublist-drain l =
    let (taken, out, e, split, small, progress, quiet) =
      drain-splits max_lock_log_drain_bytes true l in
    Sublist-parts taken out _ _ _ e split

Sublist-log_entry : (l : LockLog) (e : Entry) → Sublist l.pending (log_entry l e).pending
unfolding sair.LockLog.Bounds.IsMarked
Sublist-log_entry l e = elim (log_entry-keeps_or_marks l e) [
  | inl (room, (service, clipped, h)) ↦ rw h (sublist-append_left _ _)
  | inr (full, (marked, inl (before, same))) ↦ rw same (Sublist.refl _)
  | inr (full, (marked, inr (before, more))) ↦ rw more (sublist-append_left _ _)
]

pending-requeue_some :
    (l : LockLog) (es : List Entry) → (requeue_some l es).pending ≡ es ++ l.pending
unfolding requeue_some requeue
pending-requeue_some l [] = refl
pending-requeue_some l (e ∷ es) = refl

pending-flush_outcome :
    (k : Keeper) (es : List Entry) (r : Option SendFault)
    → unless r es ++ (flush_outcome k es r).log.pending ≡ es ++ k.log.pending
unfolding flush_outcome unless requeue
pending-flush_outcome k es none = refl
pending-flush_outcome k es (some e) = refl

module _ (net : Net) (lock_id : Bytes) where
  abbrev Keeps : Trace → Keeper → Keeper × Trace → Type 0
  Keeps t k r = Sublist (kept t k) (kept r.1 r.0)

  kept-flush_drained :
      (k : Keeper) (es : List Entry) (t : Trace)
      → kept (flush_drained net lock_id k es t).1 (flush_drained net lock_id k es t).0
        ≡ shipped t ++ (es ++ k.log.pending)
  unfolding flush_drained ◌>>=◌ pure
  kept-flush_drained k [] t = refl
  kept-flush_drained k (e ∷ es) t =
      let r = send_lock_log net lock_id (e ∷ es) t in
      rw
        (
          shipped-send_lock_log net lock_id (e ∷ es) t,
          append_assoc (shipped t) (unless r.0 (e ∷ es)) (flush_outcome k (e ∷ es) r.0).log.pending,
        )
        (ap (◌++◌ (shipped t)) (pending-flush_outcome k (e ∷ es) r.0))

  Keeps-drained :
      (k : Keeper) (t : Trace) (r : Keeper × Trace)
      → kept r.1 r.0 ≡ shipped t ++ ((drain_some k.log).0 ++ (drain_some k.log).1.pending)
      → Keeps t k r
  Keeps-drained k t r e = rw e (Sublist-front (shipped t) (Sublist-drain k.log))

  Keeps-flush_tick : (k : Keeper) (t : Trace) → Keeps t k (flush_tick net lock_id k t)
  unfolding flush_tick session_up look ◌>>=◌ pure if◌then◌else◌ shipped
  Keeps-flush_tick k t = elim (Bool-cases (is_up (net.session t))) [
    | inr down ↦ rw down (Sublist.refl _)
    | inl up ↦ rw up (
        Keeps-drained k t
          (flush_drained net lock_id (record k { log = (drain_some k.log).1 }) (drain_some k.log).0
            (looked ∷ t))
          (kept-flush_drained (record k { log = (drain_some k.log).1 }) (drain_some k.log).0
            (looked ∷ t)))
  ]

  kept-heartbeat_with :
      (k : Keeper) (es : List Entry) (t : Trace)
      → kept (heartbeat_with net lock_id k es t).1 (heartbeat_with net lock_id k es t).0
        ≡ shipped t ++ (es ++ k.log.pending)
  unfolding heartbeat_with beat_outcome ◌>>=◌ pure
  kept-heartbeat_with k es t =
      let r = lock_heartbeat net lock_id es t in
      rw (pending-requeue_some k.log r.0.unsent) (
        sym (append_assoc (shipped r.1) r.0.unsent k.log.pending)
        ∙ ap (λ front. front ++ k.log.pending) (shipped-lock_heartbeat net lock_id es t)
        ∙ append_assoc (shipped t) es k.log.pending)

  Keeps-heartbeat : (k : Keeper) (t : Trace) → Keeps t k (heartbeat net lock_id k t)
  unfolding heartbeat session_up look ◌>>=◌ pure if◌then◌else◌ shipped
  Keeps-heartbeat k t = elim (Bool-cases (is_up (net.session t))) [
    | inl up ↦ rw up (rw (kept-heartbeat_with k [] (looked ∷ t)) (Sublist.refl _))
    | inr down ↦ rw down (
        Keeps-drained k t
          (heartbeat_with net lock_id (record k { log = (drain_some k.log).1 }) (drain_some k.log).0
            (looked ∷ t))
          (kept-heartbeat_with (record k { log = (drain_some k.log).1 }) (drain_some k.log).0
            (looked ∷ t)))
  ]

  Keeps-entry :
      (k : Keeper) (t : Trace) (e : Entry) (next : Next)
      → Keeps t k (record k { log = log_entry k.log e; next = next }, t)
  Keeps-entry k t e next = Sublist-front (shipped t) (Sublist-log_entry k.log e)

  Keeps-if :
      (b : Bool) (m n : M Keeper) (k : Keeper) (t : Trace)
      → Keeps t k (m t)
      → Keeps t k (n t)
      → Keeps t k ((if b then m else n) t)
  unfolding if◌then◌else◌
  Keeps-if true m n k t km kn = km
  Keeps-if false m n k t km kn = kn

  Keeps-happens :
      (idle_timeout : ℕ) (e : Event) (k : Keeper) (t : Trace)
      → Keeps t k (happens net lock_id idle_timeout e k t)
  unfolding happens beat_tick pure
  Keeps-happens idle_timeout (recorded e) k t = Keeps-entry k t e k.next
  Keeps-happens idle_timeout flushes k t = Keeps-flush_tick k t
  Keeps-happens idle_timeout (beats m) k t =
      Keeps-if (is_abandoned idle_timeout m) _ _ k t (Keeps-entry k t (farewell m) releases)
        (Keeps-if k.flushed_since_beat _ _ k t (Sublist.refl _) (Keeps-heartbeat k t))

  Keeps-goes_on_with :
      (next : Next) (rest : M Keeper) (k : Keeper) (t : Trace)
      → Keeps t k (rest t)
      → Keeps t k (goes_on_with next rest k t)
  unfolding goes_on_with pure
  Keeps-goes_on_with goes_on rest k t h = h
  Keeps-goes_on_with releases rest k t h = Sublist.refl _
  Keeps-goes_on_with closes rest k t h = Sublist.refl _

-- Whatever the session, the orchestrator and the connections do between the ticks of the
-- keepalive loop, no entry that a lock's log held is lost and none of them overtakes another:
-- what was shipped, by a Send or a call that succeeded, with what was pending behind it, is still
-- there, in its order, in what is shipped and pending afterwards.
pub run_keepalive-Sublist :
    (net : Net) (lock_id : Bytes) (idle_timeout : ℕ) (events : List Event) (k : Keeper) (t : Trace)
    → let r = run_keepalive net lock_id idle_timeout events k t in
      Sublist (shipped t ++ k.log.pending) (shipped r.1 ++ r.0.log.pending)
unfolding run_keepalive ◌>>=◌ pure
run_keepalive-Sublist net lock_id idle_timeout [] k t = Sublist.refl _
run_keepalive-Sublist net lock_id idle_timeout (e ∷ events) k t =
    let r = happens net lock_id idle_timeout e k t in
    Sublist.trans (Keeps-happens net lock_id idle_timeout e k t) (
      Keeps-goes_on_with net lock_id r.0.next (run_keepalive net lock_id idle_timeout events r.0)
        r.0 r.1 (run_keepalive-Sublist net lock_id idle_timeout events r.0 r.1))
