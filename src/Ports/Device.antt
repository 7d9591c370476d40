-- ===== src/Ports/Device.antt =====
-- What the scoped port manager does to one phone, on acquire and when a lock ends: cleaning,
-- rebooting, Wi-Fi, Bluetooth, waking, updates. The caller holds the phone's mutex throughout, so
-- nothing else drives the phone meanwhile.
use sair.Base.{Bool, true, false, not, ◌&&◌, ◌||◌, Option, none, some, List, [], ◌∷◌, ◌++◌}
use sair.Text.{join, Bytes, utf8, str_eq, has_prefix}
use sair.LockLog.Entries.{blank}
use sair.Ports.Branch.{if◌then◌else◌}
use sair.Ports.World.{
  Code, ok_code, not_found, unimplemented, failed_precondition, deadline_exceeded, other_code, Err,
  code_of, err_text, WifiState, on, off, reset, EventKind, wake_event, wifi_on_event,
  wifi_off_event, wifi_reset_event, reboot_event, package_reset_event, BenchEvent, Snapshot,
  set_wifi_call, remove_reverse_call, reset_packages_call, clear_ui_automation_call, wake_call,
  reset_bluetooth_call, hold_updates_call, reboot_if_wedged_call, wait_for_source_call, event_call,
  Bench, ScopedPort, M, ◌>>=◌, ◌>>◌, pure, skip, ask, record_in,
}

abbrev pub is_code : Code → Code → Bool
is_code ok_code ok_code = true
is_code not_found not_found = true
is_code unimplemented unimplemented = true
is_code failed_precondition failed_precondition = true
is_code deadline_exceeded deadline_exceeded = true
is_code other_code other_code = true
is_code a b = false

-- `c == codes.NotFound`, `c == codes.Unimplemented`: a relayed device, an older device source.
abbrev pub is_skipped : Err → Bool
is_skipped e = is_code (code_of e) not_found || is_code (code_of e) unimplemented

unfoldable pub wake_failed : Err → Bool
wake_failed none = false
wake_failed (some e) = not (is_skipped (some e))

unfoldable pub wifi_unmanaged : Err → Bool
wifi_unmanaged e = is_code (code_of e) failed_precondition || is_code (code_of e) unimplemented

abbrev wifi_failures : List (Bytes × Bytes)
wifi_failures =
    (utf8 "not associated to any network", utf8 "not_associated")
    ∷ (utf8 "still associated to", utf8 "still_associated")
    ∷ (utf8 "associated to", utf8 "other_ssid")
    ∷ (utf8 "not VALIDATED", utf8 "not_validated")
    ∷ (utf8 "no Wi-Fi network in dumpsys", utf8 "not_validated")
    ∷ (utf8 "default network is cellular", utf8 "cellular_default")
    ∷ (utf8 "cannot reach", utf8 "no_route")
    ∷ (utf8 "still reaches", utf8 "still_online")
    ∷ (utf8 "radio is", utf8 "radio_off")
    ∷ []

-- `strings.Contains`.
unfoldable pub contains : Bytes → Bytes → Bool
unfolding has_prefix
contains [] p = has_prefix [] p
contains (c ∷ s) p = has_prefix (c ∷ s) p || contains s p

first_match : Bytes → List (Bytes × Bytes) → Option Bytes
first_match msg [] = none
first_match msg ((text, outcome) ∷ fs) =
    if contains msg text then some outcome else first_match msg fs

unfoldable pub wifi_outcome : Err → Bytes
unfolding first_match contains
wifi_outcome none = utf8 "ok"
wifi_outcome (some e) = elim (first_match e.message wifi_failures) [
  | some outcome ↦ outcome
  | none ↦ if is_code e.code deadline_exceeded then utf8 "timeout" else utf8 "error"
]

-- `wifiEventKinds`.
abbrev pub wifi_event_kind : WifiState → EventKind
wifi_event_kind on = wifi_on_event
wifi_event_kind off = wifi_off_event
wifi_event_kind reset = wifi_reset_event

abbrev pub when : Bool → M (Unit {0}) → M (Unit {0})
when t m = if t then m else skip

-- `packagesRemovedService`.
unfoldable pub packages_removed_service : List Bytes → List Bytes → Bytes
packages_removed_service removed suggestions =
    utf8 "sair: uninstalled "
    ++ (join (utf8 ", ") removed ++ elim suggestions [
      | [] ↦ []
      | s ∷ ss ↦
          utf8 " (Wi-Fi suggestions removed with them: " ++ (join (utf8 "; ") (s ∷ ss) ++ utf8 ")")
    ])

abbrev pub is_empty : {A : Type 0} → List A → Bool
is_empty [] = true
is_empty (x ∷ xs) = false

abbrev pub is_none : {A : Type 0} → Option A → Bool
is_none none = true
is_none (some a) = false

abbrev pub event_of : EventKind → Bytes → Bytes → Bytes → Bytes → BenchEvent
event_of k serial lock_id outcome detail = record {
  kind = k;
  serial = serial;
  lock_id = lock_id;
  outcome = outcome;
  detail = detail;
}

abbrev pub send_event : BenchEvent → M (Unit {0})
send_event e = ask (event_call e) (λ _. tt)

abbrev pub wait_for_source : Bytes → M (Unit {0})
wait_for_source serial = ask (wait_for_source_call serial) (λ _. tt)

module _ (b : Bench) where
  -- A line of the lock's log about a phone.
  abbrev pub note_line : ScopedPort → Bytes → Bytes → M (Unit {0})
  note_line sp serial service w =
      record_in sp.log
        (record blank { timestamp_ms = b.now w.trace; serial = serial; service = service }) w

  unfoldable pub wake_device : Bytes → Bytes → M Err
  unfolding wake_failed
  wake_device lock_id serial = do
    err ← ask (wake_call serial) (λ h. b.wake h serial)
    when (wake_failed err)
        (send_event (event_of wake_event serial lock_id (utf8 "failed") (err_text err)))
    pure err

  unfoldable pub wifi_device : Bytes → Bytes → WifiState → Bytes → M Err
  unfolding wifi_unmanaged
  wifi_device lock_id serial state band = do
    err ← ask (set_wifi_call serial state band) (λ h. b.set_wifi h serial state band)
    when (not (wifi_unmanaged err)) (
        send_event
          (event_of (wifi_event_kind state) serial lock_id (wifi_outcome err) (err_text err)))
    pure err

  unfoldable pub set_updates : ScopedPort → Bytes → Bool → M (Unit {0})
  set_updates sp serial hold = do
    err ← ask (hold_updates_call serial hold) (λ h. b.hold_updates h serial hold)
    if is_skipped err
        then skip
        else if is_none err && hold
        then note_line sp serial
            (utf8 "sair: Play Store disabled for the lease (auto-updates resume on release)")
        else if is_none err
        then skip
        else if hold
        then note_line sp serial (
            utf8 "sair: Play Store not disabled, an auto-update can stop the app mid-job: "
            ++ err_text err)
        else note_line sp serial (utf8 "sair: Play Store not re-enabled: " ++ err_text err)

  unfoldable pub unwedge : ScopedPort → Bytes → Bytes → Bytes → M Bool
  unwedge sp serial radio note = do
    r ← ask (reboot_if_wedged_call serial radio) (λ h. b.reboot_if_wedged h serial radio)
    if is_none r.error && r.rebooted
        then (do
          note_line sp serial
              (utf8 "sair: radio wedged (" ++ (radio ++ (utf8 "), rebooted" ++ note)))
          wait_for_source serial
          send_event (event_of reboot_event serial sp.lock_id (utf8 "ok") (utf8 "wedged " ++ radio))
          pure true)
        else if is_none r.error || is_skipped r.error
        then pure false
        else do
          note_line sp serial (
              utf8 "sair: radio wedged ("
              ++ (radio ++ (utf8 "), not rebooted: " ++ (err_text r.error ++ note))))
          pure false

  -- The first cycle and, of a wedged radio that may be rebooted and was, the second.
  unfoldable pub cycle_again : ScopedPort → Bytes → Bytes → Bool → M Err
  cycle_again sp serial note may_reboot = do
    err ← ask (reset_bluetooth_call serial) (λ h. b.reset_bluetooth h serial)
    if not (is_none err) && not (is_skipped err) && may_reboot
        then (do
          rebooted ← unwedge sp serial (utf8 "bluetooth") note
          if rebooted
              then ask (reset_bluetooth_call serial) (λ h. b.reset_bluetooth h serial)
              else pure err)
        else pure err

  unfoldable pub cycle_bluetooth : ScopedPort → Bytes → Bytes → Bool → M Err
  cycle_bluetooth sp serial note may_reboot = do
    err ← cycle_again sp serial note may_reboot
    took ← (λ w. (b.elapsed w.trace, w))
    if is_none err
        then (do
          note_line sp serial
              (utf8 "sair: Bluetooth cycled off and on (" ++ (took ++ (utf8 ")" ++ note)))
          pure err)
        else if is_skipped err
        then pure none
        else do
          note_line sp serial (utf8 "sair: Bluetooth reset failed: " ++ (err_text err ++ note))
          pure err

  unfoldable pub clean_packages : ScopedPort → Bytes → Bytes → Snapshot → M Bool
  clean_packages sp serial note since = do
    c ← ask (reset_packages_call serial since) (λ h. b.reset_packages h serial since)
    if is_none c.error && not (is_empty c.removed)
        then (do
          note_line sp serial (packages_removed_service c.removed c.suggestions ++ note)
          send_event (
              event_of package_reset_event serial sp.lock_id (utf8 "ok")
                (join (utf8 ", ") c.removed))
          pure false)
        else if is_code (code_of c.error) not_found && not (is_none since)
        then (do
          send_event
              (event_of package_reset_event serial sp.lock_id (utf8 "failed") (err_text c.error))
          pure true)
        else if is_none c.error || is_skipped c.error
        then pure false
        else do
          send_event
              (event_of package_reset_event serial sp.lock_id (utf8 "failed") (err_text c.error))
          pure true

  unfoldable pub clean_ui_automation : ScopedPort → Bytes → Bytes → M Bool
  unfolding str_eq
  clean_ui_automation sp serial note = do
    c ← ask (clear_ui_automation_call serial) (λ h. b.clear_ui_automation h serial)
    if is_none c.error && not (is_empty c.how)
        then (do
          note_line sp serial (
              utf8 "sair: cleared a leaked UiAutomation registration ("
              ++ (c.how ++ (utf8 ")" ++ note)))
          when (str_eq c.how (utf8 "rebooted")) (
              wait_for_source serial
              >> send_event (
                  event_of reboot_event serial sp.lock_id (utf8 "ok") (utf8 "leaked UiAutomation")))
          pure false)
        else if is_none c.error || is_skipped c.error
        then pure false
        else do
          note_line sp serial (
              utf8 "sair: leaked UiAutomation registration not cleared: "
              ++ (err_text c.error ++ note))
          pure true

  -- The package step of `cleanDevice`: none at all on a relayed phone without a snapshot.
  unfoldable pub clean_relayed : ScopedPort → Bytes → Bytes → Snapshot → M Bool
  clean_relayed sp serial note since =
      if sp.relayed && is_none since
      then (do
        send_event (
            event_of package_reset_event serial sp.lock_id (utf8 "failed")
              (utf8 "no package snapshot, nothing uninstalled"))
        pure true)
      else clean_packages sp serial note since

  unfoldable pub clean_device : ScopedPort → Bytes → Bytes → Snapshot → M Bool
  clean_device sp serial note since = do
    err ← ask (remove_reverse_call serial) (λ h. b.remove_reverse h serial)
    packages ← clean_relayed sp serial note since
    ui ← clean_ui_automation sp serial note
    pure (packages || ui)
