-- ===== src/Source/Bluetooth.antt =====
-- internal/devicesource/bluetooth.go: the cycle of a phone's Bluetooth, and the ways to get the adapter
-- off where something holds it at BLE_ON. What the source defers stands behind the rest of the call.
use sair.Base.{
  ℕ, zero, suc, ◌+◌, ◌-◌, ◌*◌, ◌/◌, ◌%◌, ◌^◌, ◌≤◌, ◌<◌, min, max, ◌≡◌, refl, sym, ap, ◌∙◌, subst,
  ◌≢◌, ◌↔◌, ◌⊎◌, inl, inr, Bool, true, false, not, ◌&&◌, ◌||◌, Option, none, some, List, [], ◌∷◌,
  ◌++◌, map, foldl, append_assoc, append-nil, arith, ltb, leb, ◌==◌, ltb→lt, lt→ltb, leb→le, ==_iff,
  Bool-cases, Option-cases, is_some, length, take, drop, length-append, take-append-drop,
  length-take, length-drop, take-append_length, drop-append_length, take_all, drop_all, any_of,
  keep_if, All, All-append,
}
use sair.Text.{Bytes, utf8, str_eq, trim_prefix}
use sair.Result.{Result, ok, err}
use sair.Ports.Branch.{if◌then◌else◌}
use sair.Ports.Device.{contains, is_none}
use sair.Lines.{lines_of, split_at, trim_space, member}
use sair.Source.Shell.{
  dump, force_stop, get_setting, put_setting, delete_setting, airplane_mode, shell_quote, Answer,
  Env, Command, M, ◌>>=◌, ◌>>◌, pure, internal, unimplemented, Fault, not_online, panicked, plain,
  hung, unsafe_reboot, rpc, run_shell, output_of, radio_shell, svc, and_then, fail_with, done,
  wait_for,
}
use sair.Source.Serial.{Filter, check_serial}

unfoldable pub lower : ℕ → ℕ
lower b = sair.Base.if◌then◌else◌ (leb b'A' b && leb b b'Z') (b + 32) b

unfoldable pub to_lower : Bytes → Bytes
unfolding lower
to_lower [] = []
to_lower (b ∷ s) = lower b ∷ to_lower s

is_letter : ℕ → Bool
is_letter b = (leb b'a' b && leb b b'z') || (leb b'A' b && leb b b'Z')

is_word : ℕ → Bool
unfolding is_letter
is_word b = is_letter b || (leb b'0' b && leb b b'9') || b == b'_'

all_words : Bytes → Bool
unfolding is_word
all_words [] = true
all_words (b ∷ s) = is_word b && all_words s

dotted : List Bytes → Bool
unfolding all_words
dotted [] = true
dotted ([] ∷ parts) = false
dotted ((b ∷ s) ∷ parts) = all_words (b ∷ s) && dotted parts

named : List Bytes → Bool
unfolding dotted all_words is_letter
named [] = false
named ([] ∷ parts) = false
named ((b ∷ s) ∷ []) = false
named ((b ∷ s) ∷ (part ∷ parts)) = is_letter b && (all_words s && dotted (part ∷ parts))

-- `packageName.MatchString`: `^[A-Za-z]\w*(\.\w+)+$`.
unfoldable pub is_package_name : Bytes → Bool
unfolding named
is_package_name s = named (split_at b'.' s)

apps_in : Bool → List Bytes → List Bytes
unfolding is_package_name
apps_in in_list [] = []
apps_in in_list (line ∷ ls) =
    let t = trim_space line in
    let heading = contains (to_lower t) (utf8 "ble app") in
    let app = in_list && (not (str_eq t []) && (not (str_eq line t) && is_package_name t)) in
    let rest = apps_in (heading || (in_list && (app || str_eq t []))) ls in
    sair.Base.if◌then◌else◌ (not heading && app) (t ∷ rest) rest

-- `bleApps`.
unfoldable pub ble_apps : Bytes → List Bytes
unfolding apps_in
ble_apps out = apps_in false (lines_of out)

-- The state in a line of the dump, if it has one.
unfoldable pub state_line : Bytes → Option Bytes
unfolding to_lower
state_line line =
    let t = trim_space line in
    sair.Base.if◌then◌else◌ (ltb 6 (length t) && str_eq (to_lower (take 6 t)) (utf8 "state:"))
      (some (trim_prefix (trim_space (drop 6 t)) (utf8 "STATE_"))) none

unfoldable pub first_state : List Bytes → Bytes
unfolding state_line
first_state [] = []
first_state (l ∷ ls) = elim (state_line l) [ some st ↦ st | none ↦ first_state ls ]

unfoldable pub state_of : Bytes × Result Fault Bytes → Result Fault Bytes
unfolding first_state
state_of (out, ok o) = ok (first_state (lines_of o))
state_of (out, err e) =
    sair.Base.if◌then◌else◌ (contains out (utf8 "Can't find service")) (ok []) (err e)

wanted : List Bytes → Result Fault Bytes → Result Fault (Unit {0})
wanted states (err e) = err e
wanted states (ok st) =
    sair.Base.if◌then◌else◌ (member st states) (ok tt) (err (plain (utf8 "adapter is " ++ st)))

unfoldable pub is_ok : Result Fault (Unit {0}) → Bool
is_ok (ok u) = true
is_ok (err e) = false

-- The status that an error of the wait becomes.
held : Bytes → Fault → Fault
held how (rpc c text) = rpc c (text ++ how)
held how (plain text) = plain (text ++ how)
held how hung = hung
held how (unsafe_reboot why) = unsafe_reboot why
held how (not_online why) = not_online why
held how panicked = panicked

abbrev pub ble_scan : Bytes
ble_scan = utf8 "ble_scan_always_enabled"

abbrev pub airplane_radios : Bytes
airplane_radios = utf8 "airplane_mode_radios"

-- A setting that reads 1.
unfoldable pub reads_one : Answer → Bool
reads_one a = is_none a.error && str_eq (trim_space a.out) (utf8 "1")

-- The command that puts the radio list back.
unfoldable pub restore_of : Bytes → Command
restore_of radios =
    sair.Base.if◌then◌else◌ (str_eq (trim_space radios) (utf8 "null"))
      (delete_setting airplane_radios)
      (put_setting airplane_radios (shell_quote (trim_space radios)))

-- A deferred command, whose outcome nobody reads.
unfoldable pub finally : Env → M (Result Fault (Unit {0})) → Command → M (Result Fault (Unit {0}))
finally env m c = do r ← m; run_shell env c; pure r

-- A setting that is put back on return, if it could be set.
unfoldable pub with_setting :
    Env
    → Command
    → Command
    → M (Result Fault (Unit {0}))
    → M (Result Fault (Unit {0}))
    → M (Result Fault (Unit {0}))
unfolding finally
with_setting env set undo inside otherwise = do
  a ← run_shell env set
  if is_none a.error then finally env inside undo else otherwise

module _ (rounds short_rounds : ℕ) (env : Env) where
  -- `bluetoothState` and `checkBluetooth`.
  unfoldable pub bluetooth_state : M (Result Fault Bytes)
  bluetooth_state = do r ← radio_shell env (dump (utf8 "bluetooth_manager")); pure (state_of r)

  unfoldable pub check_bluetooth : List Bytes → M (Result Fault (Unit {0}))
  unfolding wanted
  check_bluetooth states = do st ← bluetooth_state; pure (wanted states st)

  unfoldable pub until_off : ℕ → M (Result Fault (Unit {0}))
  until_off n = wait_for n env (check_bluetooth (utf8 "OFF" ∷ []))

  unfoldable pub toggle_outcome : Result Fault (Unit {0}) → M (Result Fault (Unit {0}))
  unfolding held
  toggle_outcome (ok u) = done
  toggle_outcome (err e) = fail_with (held (utf8 " even through airplane mode") e)

  -- The toggle of airplane mode; the outcomes of its two commands are only logged.
  unfoldable pub airplane_toggle : M (Result Fault (Unit {0}))
  airplane_toggle = do
    radio_shell env (airplane_mode true)
    r ← until_off rounds
    radio_shell env (airplane_mode false)
    toggle_outcome r

  -- Airplane mode turns off Bluetooth alone, where the list of radios can be read and set.
  unfoldable pub with_radios : M (Result Fault (Unit {0}))
  with_radios = do
    radios ← run_shell env (get_setting airplane_radios)
    if is_none radios.error
        then with_setting env (put_setting airplane_radios (utf8 "bluetooth"))
            (restore_of radios.out) airplane_toggle airplane_toggle
        else airplane_toggle

  unfoldable pub through_airplane : Fault → M (Result Fault (Unit {0}))
  unfolding held
  through_airplane e = do
    apm ← run_shell env (get_setting (utf8 "airplane_mode_on"))
    if reads_one apm then fail_with (held (utf8 " in airplane mode already") e) else with_radios

  unfoldable pub stop_apps : List Bytes → M (Unit {0})
  stop_apps [] = pure tt
  stop_apps (app ∷ apps) = run_shell env (force_stop app) >> stop_apps apps

  unfoldable pub or_airplane : Result Fault (Unit {0}) → M (Result Fault (Unit {0}))
  or_airplane (ok u) = done
  or_airplane (err e) = through_airplane e

  -- The BLE apps are force-stopped; what is held after that goes through airplane mode.
  unfoldable pub force_off : M (Result Fault (Unit {0}))
  force_off = do
    a ← run_shell env (dump (utf8 "bluetooth_manager"))
    and_then (pure (output_of a))
        λ out. do stop_apps (ble_apps out); r ← until_off short_rounds; or_airplane r

  unfoldable pub without_scanning : M (Result Fault (Unit {0}))
  without_scanning = do r ← until_off short_rounds; if is_ok r then done else force_off

  unfoldable pub off_from_ble : M (Result Fault (Unit {0}))
  off_from_ble = do
    scan ← run_shell env (get_setting ble_scan)
    if reads_one scan
        then with_setting env (put_setting ble_scan (utf8 "0")) (put_setting ble_scan (utf8 "1"))
            without_scanning force_off
        else force_off

  -- `bluetoothOff`.
  unfoldable pub bluetooth_off : M (Result Fault (Unit {0}))
  bluetooth_off =
      and_then (wait_for rounds env (check_bluetooth (utf8 "OFF" ∷ utf8 "BLE_ON" ∷ [])))
        λ u. do r ← check_bluetooth (utf8 "OFF" ∷ []); if is_ok r then done else off_from_ble

  partial : Fault → Fault
  partial (rpc c text) = rpc c (utf8 "Bluetooth back on but never fully off: " ++ text)
  partial (plain text) = plain (utf8 "Bluetooth back on but never fully off: " ++ text)
  partial hung = hung
  partial (unsafe_reboot why) = unsafe_reboot why
  partial (not_online why) = not_online why
  partial panicked = panicked

  as_internal : Fault → Fault
  as_internal (rpc c text) = rpc c text
  as_internal (plain text) = rpc internal (utf8 "Bluetooth reset: " ++ text)
  as_internal hung = rpc internal []
  as_internal (unsafe_reboot why) = rpc internal why
  as_internal (not_online why) = rpc internal []
  as_internal panicked = panicked

  -- `cmp.Or(onErr, offErr)` as a status.
  unfoldable pub cycle_outcome :
      Result Fault (Unit {0}) → Result Fault (Unit {0}) → Result Fault (Unit {0})
  unfolding partial as_internal
  cycle_outcome (ok u) (ok v) = ok tt
  cycle_outcome (ok u) (err e) = err (partial e)
  cycle_outcome (err e) off = err (as_internal e)

  -- The cycle; its error is the phone's Bluetooth warning from then on.
  unfoldable pub cycle : M (Result Fault (Unit {0}))
  unfolding cycle_outcome
  cycle = do
    off ← and_then (svc env (utf8 "bluetooth disable")) λ u. bluetooth_off
    on ←
        and_then (svc env (utf8 "bluetooth enable"))
          λ u. wait_for rounds env (check_bluetooth (utf8 "ON" ∷ []))
    pure (cycle_outcome on off)

  unfoldable pub cycle_from : Result Fault Bytes → M (Result Fault (Unit {0}))
  cycle_from (err e) = fail_with (rpc internal (utf8 "Bluetooth"))
  cycle_from (ok st) =
      if str_eq st []
      then fail_with (
          rpc unimplemented (
            utf8
              "no adapter state in dumpsys bluetooth_manager; Bluetooth is not managed on this phone"))
      else cycle

  -- `ResetBluetooth`.
  unfoldable pub reset_bluetooth : Filter → Bytes → M (Result Fault (Unit {0}))
  reset_bluetooth f serial =
      and_then (pure (check_serial f serial)) λ u. do st ← bluetooth_state; cycle_from st
