-- ===== src/Ports/Steps.antt =====
-- The steps on a phone leave the map of ports alone, and make the calls that a policy permits.
use sair.Base.{◌≡◌, refl, Bool, true, false, ◌&&◌, ◌||◌, none}
use sair.Text.{Bytes, utf8}
use sair.Ports.World.{
  WifiState, BenchEvent, Snapshot, Call, set_wifi_call, remove_reverse_call, reset_packages_call,
  clear_ui_automation_call, wake_call, reset_bluetooth_call, hold_updates_call,
  reboot_if_stale_call, reboot_if_wedged_call, recent_source_log_call, wait_for_source_call,
  event_call, Trace, Bench, ScopedPort, M, ◌>>=◌, ◌>>◌, ask,
}
use sair.Ports.Device.{
  is_none, note_line, wake_device, wifi_device, set_updates, unwedge, cycle_again, cycle_bluetooth,
  clean_packages, clean_ui_automation, clean_relayed, clean_device,
}
use sair.Ports.Keeps.{
  Keeps, Keeps-pure, Keeps-bind, Keeps-ask, Keeps-if, Keeps-cond, Keeps-note_line, Keeps-read,
  Keeps-when,
}

-- The calls about a phone that a policy permits, the package reset apart.
pub record Permits (P : Call → Type 0) (serial : Bytes) : Type 0 where
  pub event : (e : BenchEvent) → e.serial ≡ serial → P (event_call e)
  pub wait : P (wait_for_source_call serial)
  pub wake : P (wake_call serial)
  pub wifi : (state : WifiState) (band : Bytes) → P (set_wifi_call serial state band)
  pub updates : (hold : Bool) → P (hold_updates_call serial hold)
  pub reverse : P (remove_reverse_call serial)
  pub clear : P (clear_ui_automation_call serial)
  pub bluetooth : P (reset_bluetooth_call serial)
  pub wedged : (radio : Bytes) → P (reboot_if_wedged_call serial radio)
  pub stale : P (reboot_if_stale_call serial)
  pub source : P (recent_source_log_call serial)

module _ (P : Call → Type 0) (b : Bench) (sp : ScopedPort) (serial : Bytes) where
  pub note_then :
      {A : Type 0} (service : Bytes) {m : M A}
      → Keeps P m
      → Keeps P (note_line b sp serial service >> m)
  note_then service k = Keeps-bind P _ _ (Keeps-note_line P b sp serial service) λ _. k

  pub call_then :
      {A B : Type 0} {c : Call} (f : Trace → A) {m : A → M B}
      → P c
      → ((a : A) → Keeps P (m a))
      → Keeps P (ask c f >>= m)
  call_then f p k = Keeps-bind P _ _ (Keeps-ask P _ _ p) k

  module _ (may : Permits P serial) where
    pub Keeps-wake_device : (lock_id : Bytes) → Keeps P (wake_device b lock_id serial)
    unfolding wake_device
    Keeps-wake_device lock_id = call_then _ may.wake λ e.
        Keeps-bind P _ _ (Keeps-when P _ (Keeps-ask P _ _ (may.event _ refl))) λ _. Keeps-pure P e

    pub Keeps-wifi_device :
        (lock_id : Bytes) (state : WifiState) (band : Bytes)
        → Keeps P (wifi_device b lock_id serial state band)
    unfolding wifi_device
    Keeps-wifi_device lock_id state band = call_then _ (may.wifi state band) λ e.
        Keeps-bind P _ _ (Keeps-when P _ (Keeps-ask P _ _ (may.event _ refl))) λ _. Keeps-pure P e

    pub Keeps-set_updates : (hold : Bool) → Keeps P (set_updates b sp serial hold)
    unfolding set_updates
    Keeps-set_updates hold = call_then _ (may.updates hold) λ e. Keeps-if P _ (Keeps-pure P tt) (
        Keeps-if P _ (Keeps-note_line P b sp serial _) (
          Keeps-if P _ (Keeps-pure P tt)
            (Keeps-if P _ (Keeps-note_line P b sp serial _) (Keeps-note_line P b sp serial _))))

    pub Keeps-unwedge : (radio note : Bytes) → Keeps P (unwedge b sp serial radio note)
    unfolding unwedge
    Keeps-unwedge radio note = call_then _ (may.wedged radio) λ r.
        Keeps-if P _
          (note_then _
            (call_then _ may.wait λ _. call_then _ (may.event _ refl) λ _. Keeps-pure P true))
          (Keeps-if P _ (Keeps-pure P false) (note_then _ (Keeps-pure P false)))

    pub Keeps-cycle_bluetooth :
        (note : Bytes) (may_reboot : Bool) → Keeps P (cycle_bluetooth b sp serial note may_reboot)
    unfolding cycle_bluetooth cycle_again
    Keeps-cycle_bluetooth note may_reboot =
        Keeps-bind P _ _
          (call_then _ may.bluetooth λ e.
            Keeps-if P _
              (Keeps-bind P _ _ (Keeps-unwedge (utf8 "bluetooth") note)
                λ r. Keeps-if P _ (Keeps-ask P _ _ may.bluetooth) (Keeps-pure P e))
              (Keeps-pure P e))
          λ e. Keeps-bind P _ _ (Keeps-read P (λ w. b.elapsed w.trace)) λ took.
            Keeps-if P _ (note_then _ (Keeps-pure P e))
              (Keeps-if P _ (Keeps-pure P none) (note_then _ (Keeps-pure P e)))

    pub Keeps-clean_packages :
        (note : Bytes) (since : Snapshot)
        → P (reset_packages_call serial since)
        → Keeps P (clean_packages b sp serial note since)
    unfolding clean_packages
    Keeps-clean_packages note since p = call_then _ p λ c.
        Keeps-if P _ (note_then _ (call_then _ (may.event _ refl) λ _. Keeps-pure P false)) (
          Keeps-if P _ (call_then _ (may.event _ refl) λ _. Keeps-pure P true) (
            Keeps-if P _ (Keeps-pure P false)
              (call_then _ (may.event _ refl) λ _. Keeps-pure P true)))

    pub Keeps-clean_ui_automation : (note : Bytes) → Keeps P (clean_ui_automation b sp serial note)
    unfolding clean_ui_automation
    Keeps-clean_ui_automation note = call_then _ may.clear λ c.
        Keeps-if P _
          (note_then _ (
            Keeps-bind P _ _
              (Keeps-when P _ (call_then _ may.wait λ _. Keeps-ask P _ _ (may.event _ refl)))
              λ _. Keeps-pure P false))
          (Keeps-if P _ (Keeps-pure P false) (note_then _ (Keeps-pure P true)))

    -- The package reset must be permitted only where it can be made: not on a relayed phone
    -- without a snapshot.
    pub Keeps-clean_device :
        (note : Bytes) (since : Snapshot)
        → ((sp.relayed && is_none since) ≡ false → P (reset_packages_call serial since))
        → Keeps P (clean_device b sp serial note since)
    unfolding clean_device clean_relayed
    Keeps-clean_device note since p = call_then _ may.reverse λ _.
        Keeps-bind P _ _
          (Keeps-cond P _ (λ _. call_then _ (may.event _ refl) λ _. Keeps-pure P true)
            (λ h. Keeps-clean_packages note since (p h)))
          λ packages.
            Keeps-bind P _ _ (Keeps-clean_ui_automation note) λ ui. Keeps-pure P (packages || ui)
