-- ===== src/LockLog.antt =====
-- LockLog (internal/proxy/lock_log.go): the ADB requests made on one scoped port until they are
-- drained into a heartbeat or the release call. The observers of running requests are part of the
-- log's state here, in the order in which a `range` over the map would meet them.
pub mod Utf8
pub mod Entries
pub mod Sniff
pub mod Tunnel
pub mod Bounds
pub mod Drained
pub mod DrainAll
pub mod Requeued
use sair.Base.{
  ℕ, zero, suc, ◌+◌, ◌-◌, ◌*◌, ◌/◌, ◌%◌, ◌^◌, ◌≤◌, ◌<◌, min, max, ◌≡◌, refl, sym, ap, ◌∙◌, subst,
  ◌≢◌, ◌↔◌, ◌⊎◌, inl, inr, Bool, true, false, not, ◌&&◌, ◌||◌, Option, none, some, List, [], ◌∷◌,
  ◌++◌, map, foldl, append_assoc, append-nil, arith, ltb, leb, ◌==◌, if◌then◌else◌, ltb→lt, lt→ltb,
  leb→le, ==_iff, Bool-cases, Option-cases, is_some, length, take, drop, length-append,
  take-append-drop, length-take, length-drop, take-append_length, drop-append_length, take_all,
  drop_all, any_of, keep_if, All, All-append,
}
use sair.Text.{
  Bytes, utf8, str_eq, str_eq_iff, str_eq_refl, cut_prefix, has_prefix, trim_prefix, has_suffix,
  trim_suffix, cut_prefix-append, cut_prefix-eq_some,
}
use sair.Logging.Redact.{redact_secrets}
use Entries.{Entry, blank, size_of, total_of}
use Tunnel.{Observer, max_unflushed_output, take_piece}

abbrev pub max_lock_log_entries : ℕ
max_lock_log_entries = 2000

abbrev pub max_lock_log_pending_bytes : ℕ
max_lock_log_pending_bytes = 32 * 2 ^ 20

abbrev pub max_lock_log_service_len : ℕ
max_lock_log_service_len = 1000

abbrev pub max_lock_log_drain_bytes : ℕ
max_lock_log_drain_bytes = 2 * 2 ^ 20

abbrev pub max_output_piece : ℕ
max_output_piece = max_lock_log_drain_bytes / 2

pub record LockLog : Type 0 where
  pub pending : List Entry
  pub pending_bytes : ℕ
  pub truncated : Bool
  pub next_id : ℕ
  pub open_requests : List Observer

abbrev pub empty : LockLog
empty = record {
  pending = [];
  pending_bytes = 0;
  truncated = false;
  next_id = 0;
  open_requests = [];
}

abbrev pub ellipsis : Bytes
ellipsis = utf8 "…"

unfoldable pub clip : Bytes → Bytes
clip service =
    if ltb max_lock_log_service_len (length service)
    then take (max_lock_log_service_len - length ellipsis) service ++ ellipsis
    else service

abbrev pub truncation_marker : ℕ → Entry
truncation_marker timestamp = record blank {
  timestamp_ms = timestamp;
  service = utf8 "(log truncated: too much logged between heartbeats)";
}

unfoldable pub mark_truncated : LockLog → Entry → LockLog
mark_truncated l e =
    if not l.truncated
    then record l { truncated = true; pending = l.pending ++ truncation_marker e.timestamp_ms ∷ [] }
    else l

unfoldable pub is_full : LockLog → Entry → Bool
is_full l e =
    leb max_lock_log_entries (length l.pending)
    || ltb max_lock_log_pending_bytes (l.pending_bytes + size_of e)

unfoldable pub add_entry : LockLog → Entry → LockLog
add_entry l e = record l {
  pending = l.pending ++ e ∷ [];
  pending_bytes = l.pending_bytes + size_of e;
}

-- `Record`, behind its test for nil.
unfoldable pub log_entry : LockLog → Entry → LockLog
log_entry l e =
    let e' = record e { service = clip (redact_secrets e.service) } in
    if is_full l e' then mark_truncated l e' else add_entry l e'

-- The first loop of `drain`. The budget less what is spent may be negative in the source, so the
-- two are kept apart.
unfoldable pub take_pending : ℕ → ℕ → Bool → List Entry → List Entry × List Entry
take_pending budget spent any [] = ([], [])
take_pending budget spent any (e ∷ es) =
    let (taken, rest) = take_pending budget (spent + size_of e) true es in
    if ltb budget (spent + size_of e) && any then ([], e ∷ es) else (e ∷ taken, rest)

-- One open request's share of the output.
live_entry : Observer → Bytes → List Entry
live_entry o [] = []
live_entry o (b ∷ piece) = record blank { request_id = o.id; output = b ∷ piece } ∷ []

-- The second loop, over the open requests.
take_live : ℕ → ℕ → List Observer → List Entry × List Observer
unfolding live_entry
take_live budget spent [] = ([], [])
take_live budget spent (o ∷ os) =
    let (piece, o') = take_piece (budget - spent) false o in
    let (out, os') = take_live budget (spent + length piece) os in
    if leb budget spent then ([], o ∷ os) else (live_entry o piece ++ out, o' ∷ os')

abbrev total : List Entry → ℕ
total = total_of

-- `drain`, behind its test for nil.
unfoldable pub drain : ℕ → Bool → LockLog → List Entry × LockLog
unfolding take_pending take_live
drain budget live l =
    let (taken, rest) = take_pending budget 0 false l.pending in
    let (out, opens) =
      if live then take_live budget (total taken) l.open_requests else ([], l.open_requests) in
    (
      taken ++ out,
      record l {
        pending = rest;
        pending_bytes = l.pending_bytes - total taken;
        truncated = elim rest [ [] ↦ false | e ∷ es ↦ l.truncated ];
        open_requests = opens;
      },
    )

-- `Drain`.
unfoldable pub drain_some : LockLog → List Entry × LockLog
drain_some l = drain max_lock_log_drain_bytes true l

-- The loop of `DrainAll`, on fuel: batches of what is pending until there is none.
unfoldable pub drain_batches : ℕ → LockLog → List Entry × LockLog
drain_batches zero l = ([], l)
drain_batches (suc f) l =
    let (batch, l') = drain max_lock_log_drain_bytes false l in
    let (more, l'') = drain_batches f l' in
    elim batch [ [] ↦ ([], l') | e ∷ es ↦ ((e ∷ es) ++ more, l'') ]

-- `DrainAll`. Every batch takes one entry at least.
unfoldable pub drain_all : LockLog → List Entry × LockLog
drain_all l =
    let (all_pending, l') = drain_batches (suc (length l.pending)) l in
    let (out, l'') = drain (length l'.open_requests * max_unflushed_output) true l' in
    (all_pending ++ out, l'')

-- `Requeue`: with no entries it changes nothing either.
unfoldable pub requeue : LockLog → List Entry → LockLog
requeue l entries = record l {
  pending = entries ++ l.pending;
  pending_bytes = l.pending_bytes + total entries;
}

-- `register`: the next request id, a uint64, before the observer is seen by a drain.
unfoldable pub register : LockLog → Observer → LockLog × Observer
register l o =
    let id = (l.next_id + 1) % 2 ^ 64 in
    let o' = record o { id = id } in
    (record l { next_id = id; open_requests = o' ∷ l.open_requests }, o')

unfoldable pub unregister : LockLog → ℕ → LockLog
unregister l id = record l { open_requests = keep_if (λ o. not (o.id == id)) l.open_requests }
