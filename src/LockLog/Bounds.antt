-- ===== src/LockLog/Bounds.antt =====
-- What `Record` lets into the log between drains.
use sair.Base.{
  ◌*◌, ◌^◌, ◌<◌, ℕ, ◌+◌, ◌-◌, ◌≤◌, max, ◌≡◌, refl, sym, ap, subst, ◌⊎◌, inl, inr, Bool, true, false,
  not, List, [], ◌∷◌, ◌++◌, arith, ltb, if◌then◌else◌, Bool-cases, length, take, length-append,
  length-take,
}
use sair.Text.{Bytes, utf8}
use sair.Logging.Redact.{redact_secrets}
use sair.LockLog.Entries.{Entry, total_of, total_of-append}
use sair.LockLog.{
  LockLog, clip, log_entry, drain, is_full, mark_truncated, add_entry, truncation_marker,
  max_lock_log_entries, max_lock_log_pending_bytes, max_lock_log_service_len,
}
use sair.LockLog.Drained.{IsCounted, drain-splits}

abbrev one_if : Bool → ℕ
one_if true = 1
one_if false = 0

pub record IsBounded (l : LockLog) : Type 0 where
  pub entries : length l.pending ≤ max_lock_log_entries + one_if l.truncated
  pub bytes : total_of l.pending ≤ max_lock_log_pending_bytes

short_of : (n : ℕ) (s : Bytes) → length (take (n - 3) s ++ utf8 "…") ≤ max n 3
short_of n s = omega (arith, length-append (take (n - 3) s) (utf8 "…"), length-take (n - 3) s)

length-clip : (s : Bytes) → length (clip s) ≤ max_lock_log_service_len
unfolding clip
length-clip s = elim (Bool-cases (ltb max_lock_log_service_len (length s))) [
  | inl long ↦ rw long (short_of max_lock_log_service_len s)
  | inr fits ↦ rw fits (ground arith)
]

add_entry-IsBounded :
    (l : LockLog) (e : Entry)
    → IsCounted l
    → IsBounded l
    → is_full l e ≡ false
    → IsCounted (add_entry l e) × IsBounded (add_entry l e)
unfolding add_entry is_full
add_entry-IsBounded l e c b h =
    let n = length-append l.pending (e ∷ []) in
    let t = total_of-append l.pending (e ∷ []) in
    (
      record { counted = omega (arith, c.counted, t) },
      record { entries = ground (arith, n); bytes = ground (arith, t, c.counted) },
    )

mark_truncated-IsBounded :
    (l : LockLog) (e : Entry) (t : Bool)
    → l.truncated ≡ t
    → IsCounted l
    → IsBounded l
    → IsCounted (mark_truncated l e) × IsBounded (mark_truncated l e)
unfolding mark_truncated
mark_truncated-IsBounded l e true h c b =
    subst Good (sym (ap (λ x. if not x then marked else l) h)) (c, b)
  where
    marked : LockLog
    marked = record l {
      truncated = true;
      pending = l.pending ++ truncation_marker e.timestamp_ms ∷ [];
    }

    Good : LockLog → Type 0
    Good x = IsCounted x × IsBounded x
mark_truncated-IsBounded l e false h c b =
    subst Good (sym (ap (λ x. if not x then marked else l) h)) (
      record { counted = omega (arith, c.counted, t) },
      record {
        entries = omega (arith, n, b.entries, ap one_if h);
        bytes = omega (arith, t, b.bytes);
      },
    )
  where
    marked : LockLog
    marked = record l {
      truncated = true;
      pending = l.pending ++ truncation_marker e.timestamp_ms ∷ [];
    }

    Good : LockLog → Type 0
    Good x = IsCounted x × IsBounded x

    n : length (l.pending ++ truncation_marker e.timestamp_ms ∷ []) ≡ length l.pending + 1
    n = length-append l.pending (truncation_marker e.timestamp_ms ∷ [])

    t : total_of (l.pending ++ truncation_marker e.timestamp_ms ∷ []) ≡ total_of l.pending + 0
    t = total_of-append l.pending (truncation_marker e.timestamp_ms ∷ [])

-- Recording in a log that is within its bounds and counts exactly keeps the count of bytes exact,
-- and the log within its 2000 entries and one marker, and within its bytes.
pub log_entry-IsBounded :
    (l : LockLog) (e : Entry)
    → IsCounted l
    → IsBounded l
    → IsCounted (log_entry l e) × IsBounded (log_entry l e)
unfolding log_entry
log_entry-IsBounded l e c b = elim (Bool-cases (is_full l e')) [
  | inl full ↦ rw full (mark_truncated-IsBounded l e' l.truncated refl c b)
  | inr room ↦ rw room (add_entry-IsBounded l e' c b room)
]
  where
    e' : Entry
    e' = record e { service = clip (redact_secrets e.service) }

drain-truncated :
    (budget : ℕ) (live : Bool) (l : LockLog) (x : Entry) (xs : List Entry)
    → (drain budget live l).1.pending ≡ x ∷ xs
    → (drain budget live l).1.truncated ≡ l.truncated
unfolding drain
drain-truncated budget live l x xs e = ap (λ r. elim r [ [] ↦ false | y ∷ ys ↦ l.truncated ]) e

-- A drain of a log within its bounds leaves it within them.
pub drain-IsBounded :
    (budget : ℕ) (live : Bool) (l : LockLog) → IsBounded l → IsBounded (drain budget live l).1
drain-IsBounded budget live l b =
    let (taken, out, e, split, small, progress, quiet) = drain-splits budget live l in
    let n = length-append taken (drain budget live l).1.pending in
    let t = total_of-append taken (drain budget live l).1.pending in
    record {
      entries =
          marker_kept (drain budget live l).1.pending (omega (arith, n, ap length split)) refl;
      bytes = omega (arith, t, ap total_of split, b.bytes);
    }
  where
    marker_kept :
        (r : List Entry)
        → length r ≤ length l.pending
        → (drain budget live l).1.pending ≡ r
        → length (drain budget live l).1.pending
          ≤ max_lock_log_entries + one_if (drain budget live l).1.truncated
    marker_kept [] h e = omega (arith, ap length e)
    marker_kept (x ∷ xs) h e =
        subst (λ k. length (drain budget live l).1.pending ≤ max_lock_log_entries + one_if k)
          (sym (drain-truncated budget live l x xs e)) (omega (arith, ap length e, h, b.entries))

-- There is room for an entry: fewer than 2000 are pending, and with its output they stay within 32 MiB.
pub HasRoom : LockLog → Entry → Type 0
HasRoom l e = (length l.pending < 2000) × (l.pending_bytes + length e.output ≤ 32 * 2 ^ 20)

-- A service string as it is logged: whole up to 1000 bytes, or else its first 997 and an ellipsis.
pub IsClipped : Bytes → Bytes → Type 0
IsClipped s c = ((length s ≤ 1000) × (c ≡ s)) ⊎ ((1000 < length s) × (c ≡ take 997 s ++ utf8 "…"))

clip-IsClipped : (s : Bytes) → IsClipped s (clip s)
unfolding clip IsClipped
clip-IsClipped s = elim (Bool-cases (ltb max_lock_log_service_len (length s))) [
  | inl long ↦ rw long (inr (ground arith, refl))
  | inr fits ↦ rw fits (inl (ground arith, refl))
]

-- What an entry without room leaves: one marker behind what was pending, if there is none so far.
unfoldable pub IsMarked : LockLog → Entry → LockLog → Type 0
IsMarked l e l' =
    (l'.truncated ≡ true)
    × (((l.truncated ≡ true) × (l'.pending ≡ l.pending))
        ⊎ ((l.truncated ≡ false)
            × (l'.pending ≡ l.pending ++ truncation_marker e.timestamp_ms ∷ [])))

marks : (l : LockLog) (e : Entry) (t : Bool) → l.truncated ≡ t → IsMarked l e (mark_truncated l e)
unfolding IsMarked mark_truncated
marks l e true h = rw h (refl, inl (refl, refl))
marks l e false h = rw h (refl, inr (refl, refl))

-- An entry is kept exactly where there is room for it: fewer than 2000 entries are pending, and
-- their output and its own is at most 32 MiB. Then it is the log's last entry, with its fields as
-- given but for the service, which is redacted and, beyond 1000 bytes, cut to 997 and an
-- ellipsis. Without room it is dropped, the log is truncated, and one marker is added if the log
-- was not truncated before. What was pending stays in front.
pub log_entry-keeps_or_marks :
    (l : LockLog) (e : Entry)
    → let l' = log_entry l e in
      (HasRoom l e
        × ((service : Bytes) × IsClipped (redact_secrets e.service) service
            × (l'.pending ≡ l.pending ++ record e { service = service } ∷ [])))
      ⊎ ((¬ HasRoom l e) × IsMarked l e l')
unfolding log_entry HasRoom IsMarked
log_entry-keeps_or_marks l e = elim (Bool-cases (is_full l e')) [
  | inl full ↦ rw full (inr (no_room full, marks l e' _ refl))
  | inr room ↦
      rw room (inl (has_room room, (clip (redact_secrets e.service), clip-IsClipped _, added)))
]
  where
    e' : Entry
    e' = record e { service = clip (redact_secrets e.service) }

    added : (add_entry l e').pending ≡ l.pending ++ e' ∷ []
    added = unfold add_entry in refl

    has_room : is_full l e' ≡ false → HasRoom l e
    has_room h = unfold is_full in (ground arith, ground arith)

    no_room : is_full l e' ≡ true → ¬ HasRoom l e
    no_room h r = unfold is_full in ground (arith, h, r.0, r.1)
