-- ===== src/Source/Shell.antt =====
-- A phone's shell (`Server.shell`, wifi.go, and `radioShell`, `svc`, reboot.go) and `waitFor`
-- (wifi.go), all of internal/devicesource. The shell is a parameter, whose answers may depend on all
-- commands that were run; those are the trace, the latest first.
use sair.Base.{ℕ, zero, suc, Bool, true, false, Option, none, some, List, [], ◌∷◌, ◌++◌, ◌==◌}
use sair.Text.{Bytes, utf8}
use sair.Result.{Result, ok, err}
use sair.Ports.Branch.{if◌then◌else◌}

pub data Command : Type 0 where
  list_packages list_packages_whole : Bytes → Command
  list_instrumentation list_suggestions : Command
  uninstall : Bool → Bytes → Command
  force_stop clear_data : Bytes → Command
  remove_all_suggestions list_networks start_scan list_scan_results wifi_status : Command
  remove_suggestion forget_network : Bytes → Command
  add_suggestion : Bytes → Option Bytes → Option Bytes → Command
  dump ping svc_toggle : Bytes → Command
  read_uptime read_boot_id read_boot_state reboot_phone : Command
  press_wakeup dismiss_keyguard probe_ui_automation list_all_processes list_processes : Command
  get_setting kill_process : Bytes → Command
  package_path : Command
  enable_store : Bool → Command
  put_setting : Bytes → Bytes → Command
  delete_setting : Bytes → Command
  airplane_mode : Bool → Command

-- `listingEnd`.
abbrev pub listing_end : Bytes
listing_end = utf8 "sair-listing-end"

-- `playStore` (updates.go).
abbrev pub play_store : Bytes
play_store = utf8 "com.android.vending"

-- `uiaProbe` (uiautomation.go).
abbrev ui_automation_probe : Bytes
ui_automation_probe =
    utf8
      "uiautomator dump /data/local/tmp/sair-uia-probe.xml 2>&1 & p=$!; wait $p; rm -f /data/local/tmp/sair-uia-probe.xml; "
    ++ utf8 "logcat -d -b main,crash --pid=$p 2>/dev/null | grep 'already registered'; true"

quoted : Bytes → Bytes
quoted [] = []
quoted (b ∷ s) = if b == 39 then 39 ∷ 92 ∷ 39 ∷ 39 ∷ quoted s else b ∷ quoted s

-- `shellQuote`.
unfoldable pub shell_quote : Bytes → Bytes
unfolding quoted
shell_quote s = 39 ∷ (quoted s ++ 39 ∷ [])

security : Option Bytes → Bytes
unfolding shell_quote
security none = utf8 " open"
security (some passphrase) = utf8 " wpa2 " ++ shell_quote passphrase

pinned : Option Bytes → Bytes
unfolding shell_quote
pinned none = []
pinned (some bssid) = utf8 " -b " ++ shell_quote bssid

-- The command line that the phone's shell gets.
unfoldable pub text_of : Command → Bytes
unfolding security pinned shell_quote
text_of (list_packages flag) = utf8 "pm list packages " ++ flag
text_of (list_packages_whole flag) =
    utf8 "pm list packages " ++ (flag ++ (utf8 " && echo " ++ listing_end))
text_of list_instrumentation = utf8 "pm list instrumentation"
text_of list_suggestions = utf8 "cmd wifi list-all-suggestions"
text_of (uninstall true pkg) = utf8 "pm uninstall --user 0 " ++ shell_quote pkg
text_of (uninstall false pkg) = utf8 "pm uninstall " ++ shell_quote pkg
text_of (force_stop pkg) = utf8 "am force-stop " ++ shell_quote pkg
text_of (clear_data pkg) = utf8 "pm clear " ++ shell_quote pkg
text_of remove_all_suggestions = utf8 "cmd wifi remove-all-suggestions"
text_of list_networks = utf8 "cmd wifi list-networks"
text_of start_scan = utf8 "cmd wifi start-scan"
text_of list_scan_results = utf8 "cmd wifi list-scan-results"
text_of wifi_status = utf8 "cmd wifi status"
text_of (remove_suggestion ssid) = utf8 "cmd wifi remove-suggestion " ++ shell_quote ssid
text_of (forget_network id) = utf8 "cmd wifi forget-network " ++ id
text_of (add_suggestion ssid passphrase bssid) =
    utf8 "cmd wifi add-suggestion " ++ (shell_quote ssid ++ (security passphrase ++ pinned bssid))
text_of (dump service) = utf8 "dumpsys " ++ service
text_of (ping host) = utf8 "ping -c1 -W2 " ++ shell_quote host
text_of (svc_toggle args) = utf8 "svc " ++ args
text_of read_uptime = utf8 "cat /proc/uptime"
text_of read_boot_id = utf8 "cat /proc/sys/kernel/random/boot_id"
text_of read_boot_state = utf8 "cat /proc/sys/kernel/random/boot_id; getprop sys.boot_completed"
text_of reboot_phone = utf8 "reboot"
text_of press_wakeup = utf8 "input keyevent KEYCODE_WAKEUP"
text_of dismiss_keyguard = utf8 "wm dismiss-keyguard"
text_of probe_ui_automation = ui_automation_probe
text_of list_all_processes = utf8 "ps -A"
text_of list_processes = utf8 "ps"
text_of (get_setting name) = utf8 "settings get global " ++ name
text_of (kill_process pid) = utf8 "kill -9 " ++ pid
text_of package_path = utf8 "pm path " ++ play_store
text_of (enable_store true) = utf8 "pm enable " ++ play_store
text_of (enable_store false) = utf8 "pm disable-user " ++ play_store
text_of (put_setting name value) = utf8 "settings put global " ++ (name ++ (utf8 " " ++ value))
text_of (delete_setting name) = utf8 "settings delete global " ++ name
text_of (airplane_mode true) = utf8 "cmd connectivity airplane-mode enable"
text_of (airplane_mode false) = utf8 "cmd connectivity airplane-mode disable"

-- `late`: the command was ended by its own time limit.
pub record Answer : Type 0 where
  pub out : Bytes
  pub error : Option Bytes
  pub late : Bool

abbrev pub Trace : Type 0
Trace = List Command

-- The shell, and the clock as `waitFor` asks it: whether the deadline of the wait has passed, and
-- whether the caller has gone.
pub record Env : Type 0 where
  pub shell : Trace → Bytes → Answer
  pub deadline_passed : Trace → Bool
  pub cancelled : Trace → Bool

abbrev pub M : Type 0 → Type 0
M A = Trace → A × Trace

infixl 5 ◌>>=◌ ◌>>◌
unfoldable pub ◌>>=◌ : {A B : Type 0} → M A → (A → M B) → M B
◌>>=◌ m f t = f (m t).0 (m t).1

abbrev pub ◌>>◌ : {A B : Type 0} → M A → M B → M B
m >> k = m >>= λ _. k

unfoldable pub pure : {A : Type 0} → A → M A
pure a t = (a, t)

pub data RpcCode : Type 0 where
  invalid_argument not_found failed_precondition internal deadline_exceeded unimplemented : RpcCode

-- Why a phone is not online: the errors that `joinFailureReason` tells apart.
pub data Reason : Type 0 where
  not_associated other_ssid not_validated no_route : Reason

pub data Fault : Type 0 where
  -- An error of a phone's command, or of a check, with its text.
  plain : Bytes → Fault
  -- `errRadioHung`.
  hung : Fault
  -- `errUnsafeReboot`, with the reason.
  unsafe_reboot : Bytes → Fault
  -- A gRPC status.
  rpc : RpcCode → Bytes → Fault
  -- An error that wraps one of the reasons.
  not_online : Reason → Fault
  -- The handler panics: none of the code behind it runs.
  panicked : Fault

unfoldable pub run_shell : Env → Command → M Answer
unfolding text_of
run_shell env c t = (env.shell t (text_of c), c ∷ t)

-- The output of a command that did not fail.
unfoldable pub output_of : Answer → Result Fault Bytes
output_of a = elim a.error [ none ↦ ok a.out | some e ↦ err (plain e) ]

unfoldable pub radio_output : Answer → Result Fault Bytes
unfolding output_of
radio_output a = elim a.error [
  | none ↦ ok a.out
  | some e ↦ if a.late then err hung else err (plain e)
]

-- `radioShell`: its error, if there is one, and its output either way.
unfoldable pub radio_shell : Env → Command → M (Bytes × Result Fault Bytes)
unfolding radio_output
radio_shell env c = do a ← run_shell env c; pure (a.out, radio_output a)

svc_outcome : Result Fault Bytes → Result Fault (Unit {0})
svc_outcome (ok out) = ok tt
svc_outcome (err hung) = ok tt
svc_outcome (err (plain e)) = err (plain e)
svc_outcome (err (unsafe_reboot e)) = err (unsafe_reboot e)
svc_outcome (err (rpc c e)) = err (rpc c e)
svc_outcome (err (not_online why)) = err (not_online why)
svc_outcome (err panicked) = err panicked

-- `svc`: a hang is no error.
unfoldable pub svc : Env → Bytes → M (Result Fault (Unit {0}))
unfolding svc_outcome
svc env args = do r ← radio_shell env (svc_toggle args); pure (svc_outcome r.1)

unfoldable pub after :
    {A B : Type 0} → Result Fault A → (A → M (Result Fault B)) → M (Result Fault B)
after (ok a) f t = f a t
after (err e) f t = (err e, t)

-- A chain of steps that may fail.
unfoldable pub and_then :
    {A B : Type 0} → M (Result Fault A) → (A → M (Result Fault B)) → M (Result Fault B)
and_then m f t = after (m t).0 f (m t).1

abbrev pub fail_with : {A : Type 0} → Fault → M (Result Fault A)
fail_with e = pure (err e)

abbrev pub done : M (Result Fault (Unit {0}))
done = pure (ok tt)

-- One round of `waitFor` whose check failed, and the rounds that follow it.
unfoldable pub not_yet : Env → M (Result Fault (Unit {0})) → M (Result Fault (Unit {0}))
not_yet env more t =
    (if env.deadline_passed t
        then fail_with (rpc deadline_exceeded [])
        else if env.cancelled t
        then fail_with (plain (utf8 "context canceled"))
        else more)
      t

unfoldable pub wait_round :
    Env → Result Fault (Unit {0}) → M (Result Fault (Unit {0})) → M (Result Fault (Unit {0}))
unfolding not_yet
wait_round env (ok u) more = done
wait_round env (err (plain e)) more = not_yet env more
wait_round env (err hung) more = not_yet env more
wait_round env (err (unsafe_reboot e)) more = not_yet env more
wait_round env (err (rpc c e)) more = not_yet env more
wait_round env (err (not_online why)) more = not_yet env more
wait_round env (err panicked) more = fail_with panicked

-- `waitFor`. Every round but the last waits two seconds or up to the deadline, so with two rounds
-- more than there are times two seconds the last finds the deadline passed. The text of the error,
-- which carries the times, is left out.
unfoldable pub wait_for : ℕ → Env → M (Result Fault (Unit {0})) → M (Result Fault (Unit {0}))
wait_for zero env check = fail_with (rpc deadline_exceeded [])
wait_for (suc rounds) env check = do r ← check; wait_round env r (wait_for rounds env check)
