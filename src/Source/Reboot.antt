-- ===== src/Source/Reboot.antt =====
-- internal/devicesource/reboot.go: reboots of a phone that was up for too long or whose radio is
-- wedged. `uptime_of` is strconv.ParseFloat, in nanoseconds, of the first field of /proc/uptime.
use sair.Base.{ℕ, Bool, true, false, not, ◌||◌, Option, none, some, List, [], ◌∷◌, ltb, ◌==◌}
use sair.Text.{Bytes, utf8, str_eq, cut_prefix}
use sair.Result.{Result, ok, err}
use sair.Ports.Branch.{if◌then◌else◌}
use sair.Ports.Device.{contains}
use sair.Lines.{lines_of, trim_space, fields, cut, before_of, after_of}
use sair.Source.Shell.{
  Command, dump, read_uptime, read_boot_id, read_boot_state, reboot_phone, Env, M, ◌>>=◌, ◌>>◌,
  pure, invalid_argument, internal, failed_precondition, Fault, not_online, panicked, plain, hung,
  unsafe_reboot, rpc, run_shell, output_of, radio_shell, and_then, fail_with, wait_for,
}
use sair.Source.Serial.{Filter, check_serial}

value_in : Bytes → List Bytes → Bytes
value_in key [] = []
value_in key (w ∷ ws) = elim (cut_prefix w key) [ some v ↦ v | none ↦ value_in key ws ]

-- `dumpsysField` (screen.go): the value of the first token with the key.
unfoldable pub dumpsys_field : Bytes → Bytes → Bytes
unfolding value_in
dumpsys_field out key = value_in key (fields out)

credential : List Bytes → Bytes
credential [] = []
credential (l ∷ ls) = elim (cut_prefix (trim_space l) (utf8 "CredentialType:")) [
  | none ↦ credential ls
  | some v ↦ if str_eq (trim_space v) (utf8 "NONE") then utf8 "false" else utf8 "true"
]

-- What `dumpsys lock_settings` says.
unfoldable pub credential_secure : Bytes → Bytes
unfolding credential
credential_secure out = credential (lines_of out)

unfoldable pub policy_dump : Command
policy_dump = dump (utf8 "window policy")

unfoldable pub settings_dump : Command
settings_dump = dump (utf8 "lock_settings")

unfoldable pub ask_settings : Env → Bytes → M (Result Fault Bytes)
unfolding settings_dump
ask_settings env [] = do
  a ← run_shell env settings_dump
  pure (elim (output_of a) [ ok out ↦ ok (credential_secure out) | err e ↦ err e ])
ask_settings env (b ∷ v) = pure (ok (b ∷ v))

-- `secureLock`: "true", "false", or "" where no dump says.
unfoldable pub secure_lock : Env → M (Result Fault Bytes)
unfolding policy_dump
secure_lock env = do
  a ← run_shell env policy_dump
  and_then (pure (output_of a)) λ out. ask_settings env (dumpsys_field out (utf8 "secure="))

abbrev still_old : Fault
still_old = plain (utf8 "still the old boot")

-- Whether the phone has booted anew: its boot id differs, and its boot is complete.
unfoldable pub booted : Bytes → Bytes → Result Fault (Unit {0})
booted old out =
    let text = trim_space out in
    let halves = cut text (utf8 "\n") in
    if str_eq (trim_space (before_of text halves)) old
    then err still_old
    else if not (str_eq (trim_space (after_of halves)) (utf8 "1"))
    then err (plain (utf8 "sys.boot_completed"))
    else ok tt

unfoldable pub check_boot : Env → Bytes → M (Result Fault (Unit {0}))
check_boot env old = do
  a ← run_shell env read_boot_state
  and_then (pure (output_of a)) λ out. pure (booted old out)

unfoldable pub boot_from : ℕ → Env → Bytes → M (Result Fault (Unit {0}))
boot_from rounds env [] = fail_with (rpc internal [])
boot_from rounds env (b ∷ old) = do
  run_shell env reboot_phone
  wait_for rounds env (check_boot env (b ∷ old))

-- Without the old boot id there is no reboot.
unfoldable pub reboot_now : ℕ → Env → M (Result Fault (Unit {0}))
reboot_now rounds env = do
  a ← run_shell env read_boot_id
  boot_from rounds env (elim (output_of a) [ ok out ↦ trim_space out | err e ↦ [] ])

abbrev cannot_unlock : Bytes
cannot_unlock =
    utf8
      "a secure lock is set, and sair could not unlock the phone after a reboot. Set Settings > Lock screen > Screen lock type to Swipe or None"

abbrev cannot_tell : Bytes
cannot_tell =
    utf8
      "cannot tell from dumpsys window policy or lock_settings whether a secure lock is set on this Android version"

unfoldable pub as_internal : {A : Type 0} → Result Fault A → Result Fault A
as_internal (ok a) = ok a
as_internal (err e) = err (rpc internal [])

unfoldable pub know_lock : Env → M (Result Fault Bytes)
know_lock env = do r ← secure_lock env; pure (as_internal r)

-- `reboot`, for at most so many rounds of waiting. The note of the time of the reboot is left out.
unfoldable pub reboot : ℕ → Env → M (Result Fault (Unit {0}))
reboot rounds env = and_then (know_lock env) λ secure.
    if str_eq secure (utf8 "false")
    then reboot_now rounds env
    else if str_eq secure (utf8 "true")
    then fail_with (unsafe_reboot cannot_unlock)
    else fail_with (unsafe_reboot cannot_tell)

pub record Rebooted : Type 0 where
  pub rebooted : Bool
  pub uptime : ℕ

-- A phone that it is unsafe to reboot is left up, which is no failure of RebootIfStale.
unfoldable pub stale_outcome : ℕ → Result Fault (Unit {0}) → Result Fault Rebooted
stale_outcome up (ok u) = ok (record { rebooted = true; uptime = up })
stale_outcome up (err (unsafe_reboot why)) = ok (record { rebooted = false; uptime = up })
stale_outcome up (err (plain e)) = err (plain e)
stale_outcome up (err hung) = err hung
stale_outcome up (err (rpc c e)) = err (rpc c e)
stale_outcome up (err (not_online why)) = err (not_online why)
stale_outcome up (err panicked) = err panicked

unfoldable pub wedged_outcome : Result Fault (Unit {0}) → Result Fault Bool
wedged_outcome (ok u) = ok true
wedged_outcome (err (unsafe_reboot why)) = err (rpc failed_precondition why)
wedged_outcome (err (plain e)) = err (plain e)
wedged_outcome (err hung) = err hung
wedged_outcome (err (rpc c e)) = err (rpc c e)
wedged_outcome (err (not_online why)) = err (not_online why)
wedged_outcome (err panicked) = err panicked

unfoldable pub service_of : Bytes → Option Bytes
service_of radio =
    if str_eq radio (utf8 "wifi")
    then some (utf8 "wifi")
    else if str_eq radio (utf8 "bluetooth")
    then some (utf8 "bluetooth_manager")
    else none

-- Whether the dump of a radio's service hung, or says that it timed out.
unfoldable pub is_wedged : Bytes → Result Fault Bytes → Bool
is_wedged out (err hung) = true
is_wedged out (err (plain e)) = contains out (utf8 "DUMP TIMEOUT")
is_wedged out (err (unsafe_reboot e)) = contains out (utf8 "DUMP TIMEOUT")
is_wedged out (err (rpc c e)) = contains out (utf8 "DUMP TIMEOUT")
is_wedged out (err (not_online why)) = contains out (utf8 "DUMP TIMEOUT")
is_wedged out (err panicked) = contains out (utf8 "DUMP TIMEOUT")
is_wedged out (ok o) = contains out (utf8 "DUMP TIMEOUT")

module _ (uptime_of : Bytes → Option ℕ) where
  -- `parseUptime`.
  unfoldable pub parse_uptime : Bytes → Option ℕ
  parse_uptime out = elim (fields out) [ [] ↦ none | w ∷ ws ↦ uptime_of w ]

  unfoldable pub reboot_over : ℕ → ℕ → Env → Option ℕ → M (Result Fault Rebooted)
  reboot_over rounds limit env none = fail_with (rpc internal [])
  reboot_over rounds limit env (some up) =
      if limit == 0 || ltb up limit
      then pure (ok (record { rebooted = false; uptime = up }))
      else do r ← reboot rounds env; pure (stale_outcome up r)

  -- The RebootIfStale call.
  unfoldable pub reboot_if_stale : ℕ → ℕ → Env → Filter → Bytes → M (Result Fault Rebooted)
  reboot_if_stale rounds limit env f serial = and_then (pure (check_serial f serial)) λ _. do
    a ← run_shell env read_uptime
    reboot_over rounds limit env (elim (output_of a) [ ok out ↦ parse_uptime out | err e ↦ none ])

unfoldable pub reboot_wedged : ℕ → Env → Option Bytes → M (Result Fault Bool)
reboot_wedged rounds env none = fail_with (rpc invalid_argument [])
reboot_wedged rounds env (some service) = do
  (out, r) ← radio_shell env (dump service)
  if is_wedged out r then (do r' ← reboot rounds env; pure (wedged_outcome r')) else pure (ok false)

-- The RebootIfWedged call.
unfoldable pub reboot_if_wedged : ℕ → Env → Filter → Bytes → Bytes → M (Result Fault Bool)
reboot_if_wedged rounds env f serial radio =
    and_then (pure (check_serial f serial)) λ _. reboot_wedged rounds env (service_of radio)
