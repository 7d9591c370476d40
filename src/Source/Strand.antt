-- ===== src/Source/Strand.antt =====
-- When a phone is not rebooted (internal/devicesource/reboot.go): a phone whose dumps never say that
-- its lock is not secure could not be unlocked after a reboot.
use sair.Base.{ℕ, ◌≡◌, refl, sym, Bool, true, false, Option, none, some, List, [], ◌∷◌}
use sair.Text.{Bytes, utf8, str_eq}
use sair.Result.{Result, ok, err}
use sair.Source.Shell.{
  Command, reboot_phone, text_of, Trace, Env, M, ◌>>=◌, pure, Fault, run_shell, output_of, after,
  and_then,
}
use sair.Source.Serial.{Filter}
use sair.Source.Reboot.{
  dumpsys_field, credential_secure, policy_dump, settings_dump, ask_settings, secure_lock,
  as_internal, know_lock, reboot, reboot_over, reboot_if_stale, reboot_wedged, reboot_if_wedged,
}
use sair.Source.Screen.{
  is_leaked, check_cleared, kill_holders, processes, cleared_by_kill, clear_by_reboot, clear_leaked,
  clear_ui_automation,
}
use sair.Source.Only.{
  Only, Only-pure, Only-bind, Only-run, Only-if, Only-cond, Only-then, Only-then_when, Only-radio,
  Only-wait_for,
}

-- Any command but the reboot.
unfoldable pub is_not_reboot : Command → Bool
is_not_reboot reboot_phone = false
is_not_reboot c = true

-- No dump of the phone ever says that its lock is not secure.
pub record IsLocked (env : Env) : Type 0 where
  pub policy :
      (t : Trace) (out : Bytes)
      → output_of (env.shell t (text_of policy_dump)) ≡ ok out
      → str_eq (dumpsys_field out (utf8 "secure=")) (utf8 "false") ≡ false
  pub settings :
      (t : Trace) (out : Bytes)
      → output_of (env.shell t (text_of settings_dump)) ≡ ok out
      → str_eq (credential_secure out) (utf8 "false") ≡ false

module _ (env : Env) (locked : IsLocked env) where
  abbrev StaysUp : {A : Type 0} → M A → Type 0
  StaysUp m = Only (λ c. is_not_reboot c ≡ true) m

  abbrev Secure : Bytes → Type 0
  Secure v = str_eq v (utf8 "false") ≡ false

  same : {a b : Bytes} → Path (Result Fault Bytes) (ok a) (ok b) → a ≡ b
  same e = cc

  Secure-said :
      (r : Result Fault Bytes)
      → ((out : Bytes) → r ≡ ok out → Secure (credential_secure out))
      → (v : Bytes) → elim r [ ok out ↦ ok (credential_secure out) | err e ↦ err e ] ≡ ok v
      → Secure v
  Secure-said (ok out) k v e = rw (sym (same e)) (k out refl)
  Secure-said (err x) k v e = cc

  Secure-ask_settings :
      (dumped : Bytes)
      → Secure dumped
      → (t : Trace) (v : Bytes) → (ask_settings env dumped t).0 ≡ ok v
      → Secure v
  unfolding ask_settings ◌>>=◌ pure run_shell
  Secure-ask_settings [] h t v e =
      Secure-said (output_of (env.shell t (text_of settings_dump))) (locked.settings t) v e
  Secure-ask_settings (b ∷ dumped) h t v e = rw (sym (same e)) h

  Secure-after :
      (r : Result Fault Bytes) (t : Trace)
      → ((out : Bytes) → r ≡ ok out → Secure (dumpsys_field out (utf8 "secure=")))
      → (v : Bytes)
      → (after r (λ out. ask_settings env (dumpsys_field out (utf8 "secure="))) t).0 ≡ ok v
      → Secure v
  unfolding after
  Secure-after (ok out) t k v e = Secure-ask_settings _ (k out refl) t v e
  Secure-after (err x) t k v e = cc

  Secure-secure_lock : (t : Trace) (v : Bytes) → (secure_lock env t).0 ≡ ok v → Secure v
  unfolding secure_lock ◌>>=◌ run_shell and_then pure
  Secure-secure_lock t v e =
      Secure-after (output_of (env.shell t (text_of policy_dump))) _ (locked.policy t) v e

  Secure-as_internal :
      (r : Result Fault Bytes) (v : Bytes)
      → ((v' : Bytes) → r ≡ ok v' → Secure v')
      → as_internal r ≡ ok v
      → Secure v
  unfolding as_internal
  Secure-as_internal (ok w) v k e = k v e
  Secure-as_internal (err x) v k e = cc

  Secure-know_lock : (t : Trace) (v : Bytes) → (know_lock env t).0 ≡ ok v → Secure v
  unfolding know_lock ◌>>=◌ pure
  Secure-know_lock t v e = Secure-as_internal (secure_lock env t).0 v (Secure-secure_lock t) e

  StaysUp-ask_settings : (v : Bytes) → StaysUp (ask_settings env v)
  unfolding ask_settings is_not_reboot settings_dump
  StaysUp-ask_settings [] = Only-run _ env _ refl λ a. Only-pure _ _
  StaysUp-ask_settings (b ∷ v) = Only-pure _ _

  StaysUp-secure_lock : StaysUp (secure_lock env)
  unfolding secure_lock is_not_reboot policy_dump
  StaysUp-secure_lock =
      Only-run _ env _ refl λ a. Only-then _ _ _ (Only-pure _ _) λ out. StaysUp-ask_settings _

  StaysUp-reboot : (rounds : ℕ) → StaysUp (reboot rounds env)
  unfolding reboot know_lock
  StaysUp-reboot rounds =
      Only-then_when _ Secure _ _ (Only-bind _ _ _ StaysUp-secure_lock λ r. Only-pure _ _)
        Secure-know_lock
        λ v h. Only-cond _ _ (λ yes. cc) λ _. Only-if _ _ (Only-pure _ _) (Only-pure _ _)

  StaysUp-reboot_over :
      (uptime_of : Bytes → Option ℕ) (rounds limit : ℕ) (up : Option ℕ)
      → StaysUp (reboot_over uptime_of rounds limit env up)
  unfolding reboot_over
  StaysUp-reboot_over uptime_of rounds limit none = Only-pure _ _
  StaysUp-reboot_over uptime_of rounds limit (some up) =
      Only-if _ _ (Only-pure _ _) (Only-bind _ _ _ (StaysUp-reboot rounds) λ r. Only-pure _ _)

  StaysUp-reboot_wedged :
      (rounds : ℕ) (service : Option Bytes) → StaysUp (reboot_wedged rounds env service)
  unfolding reboot_wedged is_not_reboot
  StaysUp-reboot_wedged rounds none = Only-pure _ _
  StaysUp-reboot_wedged rounds (some service) =
      Only-bind _ _ _ (Only-radio _ env _ refl) λ r.
        Only-if _ _ (Only-bind _ _ _ (StaysUp-reboot rounds) λ r'. Only-pure _ _) (Only-pure _ _)

  StaysUp-is_leaked : StaysUp (is_leaked env)
  unfolding is_leaked is_not_reboot
  StaysUp-is_leaked = Only-run _ env _ refl λ a. Only-pure _ _

  StaysUp-kill_holders : (hs : List (Bytes × Bytes)) → StaysUp (kill_holders env hs)
  unfolding kill_holders is_not_reboot
  StaysUp-kill_holders [] = Only-pure _ _
  StaysUp-kill_holders ((pid, name) ∷ hs) =
      Only-run _ env _ refl λ a. Only-bind _ _ _ (StaysUp-kill_holders hs) λ killed. Only-pure _ _

  StaysUp-processes : StaysUp (processes env)
  unfolding processes is_not_reboot
  StaysUp-processes =
      Only-run _ env _ refl
        λ a. Only-if _ _ (Only-pure _ _) (Only-run _ env _ refl λ b. Only-pure _ _)

  StaysUp-cleared_by_kill :
      (rounds : ℕ) (killed : List (Bytes × Bytes)) → StaysUp (cleared_by_kill rounds env killed)
  unfolding cleared_by_kill check_cleared
  StaysUp-cleared_by_kill rounds [] = Only-pure _ _
  StaysUp-cleared_by_kill rounds (k ∷ ks) =
      Only-bind _ _ _
        (Only-wait_for _ rounds env _ (Only-bind _ _ _ StaysUp-is_leaked λ r. Only-pure _ _))
        λ r. Only-pure _ _

  StaysUp-clear_by_reboot : (rounds : ℕ) → StaysUp (clear_by_reboot rounds env)
  unfolding clear_by_reboot
  StaysUp-clear_by_reboot rounds =
      Only-bind _ _ _ (StaysUp-reboot rounds) λ r.
        Only-then _ _ _ (Only-pure _ _) λ u. Only-bind _ _ _ StaysUp-is_leaked λ l. Only-pure _ _

  StaysUp-clear_leaked :
      (kill_rounds rounds : ℕ) (leaked : Bool)
      → StaysUp (clear_leaked kill_rounds rounds env leaked)
  unfolding clear_leaked
  StaysUp-clear_leaked kill_rounds rounds false = Only-pure _ _
  StaysUp-clear_leaked kill_rounds rounds true = Only-bind _ _ _ StaysUp-processes λ out.
      Only-bind _ _ _ (StaysUp-kill_holders _) λ killed.
        Only-bind _ _ _ (StaysUp-cleared_by_kill kill_rounds killed)
          λ cleared. Only-if _ _ (Only-pure _ _) (StaysUp-clear_by_reboot rounds)

-- RebootIfStale never reboots a phone whose dumps never say that its lock is not secure, however
-- long it has been up.
pub reboot_if_stale-StaysUp :
    (env : Env)
    → IsLocked env
    → (uptime_of : Bytes → Option ℕ) (rounds limit : ℕ) (f : Filter) (serial : Bytes)
    → Only (λ c. is_not_reboot c ≡ true) (reboot_if_stale uptime_of rounds limit env f serial)
unfolding reboot_if_stale is_not_reboot
reboot_if_stale-StaysUp env locked uptime_of rounds limit f serial =
    Only-then _ _ _ (Only-pure _ _)
      λ u. Only-run _ env _ refl λ a. StaysUp-reboot_over env locked uptime_of rounds limit _

-- ClearUiAutomation never reboots a phone whose dumps never say that its lock is not secure,
-- which could not be unlocked after a reboot.
pub clear_ui_automation-StaysUp :
    (env : Env)
    → IsLocked env
    → (kill_rounds rounds : ℕ) (f : Filter) (serial : Bytes)
    → Only (λ c. is_not_reboot c ≡ true) (clear_ui_automation kill_rounds rounds env f serial)
unfolding clear_ui_automation
clear_ui_automation-StaysUp env locked kill_rounds rounds f serial =
    Only-then _ _ _ (Only-pure _ _) λ u.
      Only-then _ _ _ (StaysUp-is_leaked env locked)
        (StaysUp-clear_leaked env locked kill_rounds rounds)

-- RebootIfWedged never reboots a phone whose dumps never say that its lock is not secure, for any
-- radio.
pub reboot_if_wedged-StaysUp :
    (env : Env)
    → IsLocked env
    → (rounds : ℕ) (f : Filter) (serial radio : Bytes)
    → Only (λ c. is_not_reboot c ≡ true) (reboot_if_wedged rounds env f serial radio)
unfolding reboot_if_wedged
reboot_if_wedged-StaysUp env locked rounds f serial radio =
    Only-then _ _ _ (Only-pure _ _) λ u. StaysUp-reboot_wedged env locked rounds _
