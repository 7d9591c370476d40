-- ===== src/Ports/Lifecycle.antt =====
-- The steps of a phone's reset leave the map of ports alone, and make the calls that a policy permits.
use sair.Base.{ℕ, ◌≡◌, refl, Bool, true, false, ◌&&◌, Option, none, some, List, [], ◌∷◌}
use sair.Text.{Bytes, utf8}
use sair.Ports.World.{Snapshot, on, reset, Call, reset_packages_call, Bench, ScopedPort}
use sair.Ports.Device.{is_none}
use sair.Ports.Reset.{
  mark_fresh, add_excerpt, source_excerpt, source_excerpts, log_excerpt, reboot_stale, reset_wifi,
  freshen_bluetooth, reset_phone,
}
use sair.Ports.Keeps.{
  Keeps, Keeps-pure, Keeps-bind, Keeps-if, Keeps-read, Keeps-when, Keeps-record_in,
}
use sair.Ports.Steps.{
  Permits, note_then, call_then, Keeps-wake_device, Keeps-wifi_device, Keeps-set_updates,
  Keeps-unwedge, Keeps-cycle_bluetooth, Keeps-clean_device,
}

module _ (P : Call → Type 0) (b : Bench) (sp : ScopedPort) (serial : Bytes)
    (may : Permits P serial) where
  Keeps-mark_fresh : Keeps P (mark_fresh serial)
  Keeps-mark_fresh = record { ports = λ w. refl; calls = λ w. ([], refl, tt) }

  pub Keeps-add_excerpt :
      (now : ℕ) (who : Bytes) (ls : List Bytes) → Keeps P (add_excerpt b now sp who ls)
  unfolding add_excerpt
  Keeps-add_excerpt now who [] = Keeps-pure P tt
  Keeps-add_excerpt now who (l ∷ ls) =
      Keeps-bind P _ _ (Keeps-record_in P sp.log _) λ _. Keeps-record_in P sp.log _

  pub Keeps-source_excerpt :
      (now : ℕ) (a : Option (List Bytes)) → Keeps P (source_excerpt b now sp serial a)
  unfolding source_excerpt
  Keeps-source_excerpt now none = Keeps-pure P tt
  Keeps-source_excerpt now (some ls) = Keeps-add_excerpt now _ ls

  Keeps-log_excerpt : Keeps P (log_excerpt b sp (serial ∷ []))
  unfolding log_excerpt source_excerpts
  Keeps-log_excerpt = Keeps-bind P _ _ (Keeps-read P (λ w. b.now w.trace)) λ now.
      Keeps-bind P _ _ (Keeps-read P (λ w. b.recent_lines w.trace (sp.lock_id ∷ serial ∷ []))) λ ls.
        Keeps-bind P _ _ (Keeps-add_excerpt now _ ls) λ _.
          call_then P b sp serial _ may.source
            λ a. Keeps-bind P _ _ (Keeps-source_excerpt now a) λ _. Keeps-pure P tt

  Keeps-reboot_stale : Keeps P (reboot_stale b sp serial)
  unfolding reboot_stale
  Keeps-reboot_stale = call_then P b sp serial _ may.stale λ r.
      Keeps-if P _
        (note_then P b sp serial _ (
          call_then P b sp serial _ may.wait
            λ _. call_then P b sp serial _ (may.event _ refl) λ _. Keeps-pure P (true, false)))
        (Keeps-if P _ (Keeps-pure P _)
          (call_then P b sp serial _ (may.event _ refl) λ _. Keeps-pure P _))

  Keeps-reset_wifi : Keeps P (reset_wifi b sp serial)
  unfolding reset_wifi
  Keeps-reset_wifi = Keeps-bind P _ _ (Keeps-wifi_device P b sp serial may sp.lock_id reset []) λ e.
      Keeps-if P _
        (Keeps-bind P _ _ (Keeps-unwedge P b sp serial may (utf8 "wifi") []) λ r.
          Keeps-if P _
            (Keeps-bind P _ _ (Keeps-wifi_device P b sp serial may sp.lock_id reset [])
              λ e'. Keeps-pure P _)
            (Keeps-pure P _))
        (Keeps-pure P _)

  Keeps-freshen_bluetooth : (rebooted : Bool) → Keeps P (freshen_bluetooth b sp serial rebooted)
  unfolding freshen_bluetooth
  Keeps-freshen_bluetooth rebooted =
      Keeps-if P _ (Keeps-bind P _ _ Keeps-mark_fresh λ _. Keeps-pure P _) (
        Keeps-bind P _ _ (Keeps-cycle_bluetooth P b sp serial may [] true) λ e.
          Keeps-if P _ (Keeps-bind P _ _ Keeps-mark_fresh λ _. Keeps-pure P _) (Keeps-pure P _))

  -- Every call of a reset is one that the policy permits, and the package reset is made only where
  -- the phone is local or its packages before the lock are known.
  pub Keeps-reset_phone :
      (since : Snapshot)
      → ((sp.relayed && is_none since) ≡ false → P (reset_packages_call serial since))
      → Keeps P (reset_phone b sp serial since)
  unfolding reset_phone
  Keeps-reset_phone since p =
      Keeps-bind P _ _ (Keeps-clean_device P b sp serial may [] since p) λ dirty.
        Keeps-bind P _ _ Keeps-reboot_stale λ rebooted. Keeps-bind P _ _ Keeps-reset_wifi λ wifi.
          Keeps-bind P _ _ (Keeps-freshen_bluetooth _) λ stuck.
            Keeps-bind P _ _ (Keeps-wake_device P b sp serial may sp.lock_id) λ e.
              Keeps-bind P _ _ (Keeps-set_updates P b sp serial may false) λ _.
                Keeps-bind P _ _
                  (Keeps-when P _ (
                    Keeps-bind P _ _ (Keeps-wifi_device P b sp serial may sp.lock_id on [])
                      λ _. Keeps-pure P tt))
                  λ _. Keeps-when P _ Keeps-log_excerpt
