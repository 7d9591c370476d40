-- ===== src/Ports/Reset.antt =====
-- `resetDevice`, `resetDevices` and `logExcerpt` (internal/proxy/scoped_port.go): a phone of a lock
-- that ended is put back to its baseline, unless a newer lock holds it.
use sair.Base.{
  ℕ, ◌-◌, Bool, true, false, not, ◌&&◌, ◌||◌, Option, none, some, List, [], ◌∷◌, ◌++◌, length, drop,
  keep_if,
}
use sair.Text.{join, Bytes, utf8, str_eq}
use sair.LockLog.Entries.{blank}
use sair.Ports.Branch.{if◌then◌else◌}
use sair.Ports.World.{
  Err, code_of, err_text, not_found, on, reset, reboot_event, Snapshot, reboot_if_stale_call,
  recent_source_log_call, Bench, ScopedPort, Relay, M, ◌>>=◌, ◌>>◌, pure, skip, ask, has, without,
  record_in, held_by,
}
use sair.Ports.Device.{
  is_code, is_skipped, wake_failed, wifi_unmanaged, when, is_none, event_of, send_event,
  wait_for_source, note_line, wake_device, wifi_device, set_updates, unwedge, cycle_bluetooth,
  clean_device,
}

abbrev pub max_excerpt_lines : ℕ
max_excerpt_lines = 100

unfoldable pub find_relay : Bytes → Bytes → List Relay → Option Relay
find_relay serial lock_id [] = none
find_relay serial lock_id (r ∷ rs) =
    if str_eq r.serial serial
    then if str_eq r.lock_id lock_id then some r else none
    else find_relay serial lock_id rs

abbrev pub drop_relay : Bytes → List Relay → List Relay
drop_relay serial rs = keep_if (λ r. not (str_eq r.serial serial)) rs

unfoldable pub taken : Bytes → Option Relay → M (Option Relay)
taken serial none w = (none, w)
taken serial (some r) w = (some r, record w { relays = drop_relay serial w.relays })

-- `takeRelayRecord`: the phone's record, if it names the lock, which is then gone.
unfoldable pub take_relay : Bytes → Bytes → M (Option Relay)
take_relay serial lock_id w = taken serial (find_relay serial lock_id w.relays) w

-- `settledSnapshot` of the record, where there is one.
abbrev pub snapshot_of : Option Relay → Snapshot
snapshot_of none = none
snapshot_of (some r) = r.snapshot

-- `heldByAnyPort`.
abbrev pub held_by_any_port : Bytes → M Bool
held_by_any_port serial w = (held_by serial w.ports, w)

abbrev pub mark_fresh : Bytes → M (Unit {0})
mark_fresh serial w = (tt, record w { bt_fresh = serial ∷ without serial w.bt_fresh })

excerpt_of : Bytes → List Bytes → Bytes × Bytes
excerpt_of who lines = (
  utf8 "sair: " ++ (who ++ utf8 " log before the failure"),
  join (utf8 "\n") (drop (length lines - max_excerpt_lines) lines) ++ utf8 "\n",
)

module _ (b : Bench) where
  -- `add` of `logExcerpt`.
  unfoldable pub add_excerpt : ℕ → ScopedPort → Bytes → List Bytes → M (Unit {0})
  unfolding excerpt_of
  add_excerpt now sp who [] = skip
  add_excerpt now sp who (l ∷ ls) = do
    record_in sp.log (record blank { timestamp_ms = now; service = (excerpt_of who (l ∷ ls)).0 })
    record_in sp.log (record blank { output = (excerpt_of who (l ∷ ls)).1 })

  unfoldable pub source_excerpt : ℕ → ScopedPort → Bytes → Option (List Bytes) → M (Unit {0})
  source_excerpt now sp serial none = skip
  source_excerpt now sp serial (some lines) =
      add_excerpt now sp (utf8 "device source (" ++ (serial ++ utf8 ")")) lines

  unfoldable pub source_excerpts : ℕ → ScopedPort → List Bytes → M (Unit {0})
  source_excerpts now sp [] = skip
  source_excerpts now sp (serial ∷ serials) = do
    answer ← ask (recent_source_log_call serial) (λ h. b.recent_source_log h serial)
    source_excerpt now sp serial answer
    source_excerpts now sp serials

  unfoldable pub log_excerpt : ScopedPort → List Bytes → M (Unit {0})
  unfolding source_excerpts
  log_excerpt sp serials = do
    now ← (λ w. (b.now w.trace, w))
    lines ← (λ w. (b.recent_lines w.trace (sp.lock_id ∷ serials), w))
    add_excerpt now sp (utf8 "proxy") lines
    source_excerpts now sp serials

  -- The reboot over the bench's uptime limit: whether the phone was rebooted, and whether it failed.
  unfoldable pub reboot_stale : ScopedPort → Bytes → M (Bool × Bool)
  reboot_stale sp serial = do
    r ← ask (reboot_if_stale_call serial) (λ h. b.reboot_if_stale h serial)
    if is_none r.error && r.rebooted
        then (do
          note_line b sp serial
              (utf8 "sair: rebooted after release (uptime " ++ (r.uptime ++ utf8 ")"))
          wait_for_source serial
          send_event
              (event_of reboot_event serial sp.lock_id (utf8 "ok") (utf8 "uptime " ++ r.uptime))
          pure (true, false))
        else if is_none r.error || is_skipped r.error
        then pure (r.rebooted, false)
        else do
          send_event (event_of reboot_event serial sp.lock_id (utf8 "failed") (err_text r.error))
          pure (r.rebooted, true)

  abbrev pub reset_failed : Err → Bool
  reset_failed err =
      not (is_none err) && not (wifi_unmanaged err) && not (is_code (code_of err) not_found)

  -- The Wi-Fi reset, run again after the reboot of a wedged radio: its error, and whether the phone
  -- was rebooted for it.
  unfoldable pub reset_wifi : ScopedPort → Bytes → M (Err × Bool)
  reset_wifi sp serial = do
    err ← wifi_device b sp.lock_id serial reset []
    if reset_failed err
        then (do
          rebooted ← unwedge b sp serial (utf8 "wifi") []
          if rebooted
              then (do err' ← wifi_device b sp.lock_id serial reset []; pure (err', true))
              else pure (err, false))
        else pure (err, false)

  -- Whether Bluetooth failed to be fresh for the next acquire.
  unfoldable pub freshen_bluetooth : ScopedPort → Bytes → Bool → M Bool
  freshen_bluetooth sp serial rebooted = if rebooted then (do mark_fresh serial; pure false) else do
    err ← cycle_bluetooth b sp serial [] true
    if is_none err then (do mark_fresh serial; pure false) else pure true

  -- The steps of `resetDevice` once it is settled that the phone is this lock's to reset.
  unfoldable pub reset_phone : ScopedPort → Bytes → Snapshot → M (Unit {0})
  reset_phone sp serial since = do
    dirty ← clean_device b sp serial [] since
    (rebooted, reboot_failed) ← reboot_stale sp serial
    (err, unwedged) ← reset_wifi sp serial
    stuck ← freshen_bluetooth sp serial (rebooted || unwedged)
    wake_err ← wake_device b sp.lock_id serial
    set_updates b sp serial false
    when (is_none err) (wifi_device b sp.lock_id serial on [] >> skip)
    when (dirty || reboot_failed || reset_failed err || stuck || wake_failed wake_err)
        (log_excerpt sp (serial ∷ []))

  unfoldable pub reset_device : ScopedPort → Bytes → M (Unit {0})
  reset_device sp serial = do
    rec ← take_relay serial sp.lock_id
    if sp.relayed && is_none rec then skip else do
      held ← held_by_any_port serial
      if held then skip else reset_phone sp serial (if sp.relayed then snapshot_of rec else none)

  unfoldable pub reset_all : ScopedPort → List Bytes → M (Unit {0})
  reset_all sp [] = skip
  reset_all sp (serial ∷ serials) = do
    when (not (has serial sp.remote_devices)) (reset_device sp serial)
    reset_all sp serials

  -- `resetDevices`: every local phone of the lock.
  unfoldable pub reset_devices : ScopedPort → M (Unit {0})
  unfolding reset_all
  reset_devices sp = reset_all sp sp.serials
