-- ===== src/Source/Screen.antt =====
-- internal/devicesource/screen.go, uiautomation.go and updates.go: waking a phone, clearing a leaked
-- UiAutomation registration, holding the Play Store's updates. The texts of most errors are left out.
use sair.Base.{
  ℕ, zero, suc, Bool, true, false, not, ◌&&◌, ◌||◌, List, [], ◌∷◌, ◌++◌, ltb, ◌==◌, is_some, any_of,
}
use sair.Text.{Bytes, utf8, str_eq, has_prefix}
use sair.Result.{Result, ok, err}
use sair.Ports.Branch.{if◌then◌else◌}
use sair.Ports.Device.{contains}
use sair.Lines.{lines_of, split_at, trim_space, fields}
use sair.Source.Shell.{
  dump, press_wakeup, dismiss_keyguard, probe_ui_automation, list_all_processes, list_processes,
  get_setting, kill_process, package_path, enable_store, Env, M, ◌>>=◌, ◌>>◌, pure, internal,
  failed_precondition, unimplemented, deadline_exceeded, Fault, not_online, panicked, plain, hung,
  unsafe_reboot, rpc, run_shell, output_of, and_then, fail_with, done, wait_for,
}
use sair.Source.Serial.{Filter, check_serial}
use sair.Source.Reboot.{dumpsys_field, policy_dump, reboot, wedged_outcome}

-- What the policy dump says of the keyguard: an unknown format counts as unlocked.
unfoldable pub keyguard_gone : Bytes → Result Fault (Unit {0})
keyguard_gone out =
    let v = dumpsys_field out (utf8 "showing=") in
    let v' = if str_eq v [] then dumpsys_field out (utf8 "mShowingLockscreen=") else v in
    if str_eq v' (utf8 "false") || str_eq v' []
    then ok tt
    else err (plain (utf8 "keyguard is showing"))

unfoldable pub is_awake : Bytes → Result Fault (Unit {0})
is_awake out =
    let w = dumpsys_field out (utf8 "mWakefulness=") in
    if str_eq w (utf8 "Awake")
    then ok tt
    else err (plain (utf8 "screen is " ++ (w ++ utf8 ", not Awake")))

-- `checkAwake`.
unfoldable pub check_awake : Env → M (Result Fault (Unit {0}))
unfolding policy_dump
check_awake env = do
  a ← run_shell env (dump (utf8 "power"))
  and_then (pure (output_of a)) λ out. and_then (pure (is_awake out)) λ _. do
    b ← run_shell env policy_dump
    and_then (pure (output_of b)) λ out'. pure (keyguard_gone out')

discard : Result Fault Bytes → Result Fault (Unit {0})
discard (ok out) = ok tt
discard (err e) = err e

-- One attempt: whether to stop trying, and its outcome.
unfoldable pub wake_once : ℕ → Env → M (Bool × Result Fault (Unit {0}))
unfolding discard
wake_once rounds env = do
  a ← run_shell env press_wakeup
  if is_some a.error then pure (true, discard (output_of a)) else do
    b ← run_shell env dismiss_keyguard
    if is_some b.error then pure (true, discard (output_of b)) else do
      r ← wait_for rounds env (check_awake env)
      pure (elim r [ ok u ↦ true | err e ↦ false ], r)

-- Up to so many attempts; `last` is the outcome so far.
unfoldable pub wake_attempts : ℕ → ℕ → Env → Result Fault (Unit {0}) → M (Result Fault (Unit {0}))
wake_attempts zero rounds env last = pure last
wake_attempts (suc n) rounds env last = do
  (stop, r) ← wake_once rounds env
  if stop then pure r else wake_attempts n rounds env r

-- The error as a status: a keyguard that stays is a failed precondition.
unfoldable pub wake_outcome : Result Fault (Unit {0}) → Result Fault (Unit {0})
wake_outcome (ok u) = ok u
wake_outcome (err (rpc deadline_exceeded e)) = err (rpc failed_precondition e)
wake_outcome (err (rpc c e)) = err (rpc c e)
wake_outcome (err (plain e)) = err (rpc internal e)
wake_outcome (err hung) = err (rpc internal [])
wake_outcome (err (not_online why)) = err (rpc internal [])
wake_outcome (err panicked) = err panicked
wake_outcome (err (unsafe_reboot e)) = err (rpc internal e)

look_at_setting : Env → Result Fault (Unit {0}) → M (Result Fault (Unit {0}))
look_at_setting env (err e) = fail_with e
look_at_setting env (ok u) = do run_shell env (get_setting (utf8 "stay_on_while_plugged_in")); done

-- `wake`; the device's warning afterwards is there exactly on an error.
unfoldable pub wake : ℕ → Env → M (Result Fault (Unit {0}))
unfolding look_at_setting
wake rounds env = do r ← wake_attempts 3 rounds env (ok tt); look_at_setting env (wake_outcome r)

-- The Wake call.
unfoldable pub wake_call : ℕ → Env → Filter → Bytes → M (Result Fault (Unit {0}))
wake_call rounds env f serial = and_then (pure (check_serial f serial)) λ _. wake rounds env

-- `uiaLeaked`.
unfoldable pub is_leaked : Env → M (Result Fault Bool)
is_leaked env = do
  a ← run_shell env probe_ui_automation
  pure (elim (output_of a) [
    | ok out ↦ ok (contains out (utf8 "already registered"))
    | err e ↦ err (rpc internal [])
  ])

last_of : Bytes → List Bytes → Bytes
last_of w [] = w
last_of w (v ∷ vs) = last_of v vs

-- `path.Base`, of a name without a slash at its end.
unfoldable pub base_name : Bytes → Bytes
unfolding last_of
base_name s = elim (split_at b'/' s) [ [] ↦ [] | w ∷ ws ↦ last_of w ws ]

holder : List Bytes → List (Bytes × Bytes) → List (Bytes × Bytes)
unfolding last_of
holder (user ∷ pid ∷ w ∷ ws) hs =
    let name = base_name (last_of w ws) in
    if str_eq user (utf8 "shell")
      && (has_prefix name (utf8 "app_process")
          || has_prefix name (utf8 "uiautomator")
          || has_prefix name (utf8 "com.android.commands."))
    then (pid, name) ∷ hs
    else hs
holder (user ∷ pid ∷ []) hs = hs
holder (user ∷ []) hs = hs
holder [] hs = hs

holders_in : List Bytes → List (Bytes × Bytes)
unfolding holder
holders_in [] = []
holders_in (l ∷ ls) = holder (fields l) (holders_in ls)

-- `uiaHolders`: the pid and the name of each process that may hold the registration.
unfoldable pub ui_automation_holders : Bytes → List (Bytes × Bytes)
unfolding holders_in
ui_automation_holders out = holders_in (lines_of out)

-- The kills: the processes that were there to be killed.
unfoldable pub kill_holders : Env → List (Bytes × Bytes) → M (List (Bytes × Bytes))
kill_holders env [] = pure []
kill_holders env ((pid, name) ∷ hs) = do
  a ← run_shell env (kill_process pid)
  killed ← kill_holders env hs
  pure (if is_some a.error then killed else (pid, name) ∷ killed)

-- The processes: by `ps` alone where `ps -A` lists none.
unfoldable pub processes : Env → M Bytes
processes env = do
  a ← run_shell env list_all_processes
  if any_of (λ b. b == b'\n') (trim_space a.out)
      then pure a.out
      else do b ← run_shell env list_processes; pure b.out

still_leaked : Result Fault Bool → Result Fault (Unit {0})
still_leaked (ok false) = ok tt
still_leaked (ok true) = err (plain (utf8 "probe still says already registered"))
still_leaked (err e) = err (plain [])

unfoldable pub check_cleared : Env → M (Result Fault (Unit {0}))
unfolding still_leaked
check_cleared env = do r ← is_leaked env; pure (still_leaked r)

-- Whether killing cleared it; with nothing killed it did not.
unfoldable pub cleared_by_kill : ℕ → Env → List (Bytes × Bytes) → M Bool
unfolding check_cleared
cleared_by_kill rounds env [] = pure false
cleared_by_kill rounds env (k ∷ ks) = do
  r ← wait_for rounds env (check_cleared env)
  pure (elim r [ ok u ↦ true | err e ↦ false ])

pub data Clearing : Type 0 where
  nothing_leaked by_reboot : Clearing
  by_kill : List (Bytes × Bytes) → Clearing

gone_after_reboot : Result Fault Bool → Result Fault Clearing
gone_after_reboot (ok false) = ok by_reboot
gone_after_reboot (ok true) = err (rpc internal [])
gone_after_reboot (err e) = err e

unfoldable pub clear_by_reboot : ℕ → Env → M (Result Fault Clearing)
unfolding gone_after_reboot
clear_by_reboot rounds env = do
  r ← reboot rounds env
  and_then (pure (wedged_outcome r)) λ _. do l ← is_leaked env; pure (gone_after_reboot l)

-- A registration that leaked: its holders are killed, and only if it stays is the phone rebooted.
unfoldable pub clear_leaked : ℕ → ℕ → Env → Bool → M (Result Fault Clearing)
clear_leaked kill_rounds rounds env false = pure (ok nothing_leaked)
clear_leaked kill_rounds rounds env true = do
  out ← processes env
  killed ← kill_holders env (ui_automation_holders out)
  cleared ← cleared_by_kill kill_rounds env killed
  if cleared then pure (ok (by_kill killed)) else clear_by_reboot rounds env

-- The ClearUiAutomation call.
unfoldable pub clear_ui_automation : ℕ → ℕ → Env → Filter → Bytes → M (Result Fault Clearing)
clear_ui_automation kill_rounds rounds env f serial =
    and_then (pure (check_serial f serial))
      λ _. and_then (is_leaked env) (clear_leaked kill_rounds rounds env)

-- The HoldUpdates call, on a phone of the given API level.
unfoldable pub hold_updates : Env → Filter → ℕ → Bytes → Bool → M (Result Fault (Unit {0}))
hold_updates env f sdk serial hold = and_then (pure (check_serial f serial)) λ _.
    if ltb sdk 21 then fail_with (rpc unimplemented []) else do
      a ← run_shell env package_path
      if is_some a.error || not (contains a.out (utf8 "package:"))
          then fail_with (rpc unimplemented [])
          else do
            b ← run_shell env (enable_store (not hold))
            if contains b.out (utf8 "new state:")
                then done
                else fail_with (rpc failed_precondition [])
