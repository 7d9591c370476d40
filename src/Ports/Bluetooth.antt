-- ===== src/Ports/Bluetooth.antt =====
-- `RestartBluetooth` (internal/proxy/scoped_port.go): a cycle that a job asks for reboots no phone.
use sair.Base.{◌≡◌, refl, Bool, true, false, not, ◌&&◌, none, List, [], ◌∷◌, arith}
use sair.Text.{Bytes}
use sair.Result.{Result, ok, err}
use sair.Ports.World.{
  Call, reset_bluetooth_call, reboot_if_stale_call, reboot_if_wedged_call, Bench, ScopedPort, M,
}
use sair.Ports.Device.{is_none, is_skipped, cycle_again, cycle_bluetooth}
use sair.Ports.Manager.{LockError, lock_devices, cycle_each, cycle_of, restart_bluetooth}
use sair.Ports.Keeps.{
  Keeps, Keeps-pure, Keeps-bind, Keeps-ask, Keeps-if, Keeps-cond, Keeps-read, Keeps-note_line,
}

-- A call by which a phone may be rebooted.
unfoldable pub is_reboot : Call → Bool
is_reboot (reboot_if_stale_call s) = true
is_reboot (reboot_if_wedged_call s radio) = true
is_reboot c = false

-- The one call that a cycle of a job makes, on any phone.
unfoldable pub is_cycle : Call → Bool
is_cycle (reset_bluetooth_call s) = true
is_cycle c = false

abbrev pub Cycles : {A : Type 0} → M A → Type 0
Cycles m = Keeps (λ c. is_cycle c ≡ true) m

never : (t : Bool) {X : Type 0} → (t && false) ≡ true → X
never true h = ground (arith, h)
never false h = ground (arith, h)

module _ (b : Bench) (sp : ScopedPort) where
  Cycles-cycle_bluetooth : (serial note : Bytes) → Cycles (cycle_bluetooth b sp serial note false)
  unfolding cycle_bluetooth cycle_again is_cycle
  Cycles-cycle_bluetooth serial note =
      Keeps-bind _ _ _
        (Keeps-bind _ _ _ (Keeps-ask _ (reset_bluetooth_call serial) _ refl) λ e.
          Keeps-cond _ (not (is_none e) && not (is_skipped e) && false) (never _)
            (λ h. Keeps-pure _ e))
        λ e. Keeps-bind _ _ _ (Keeps-read _ (λ w. b.elapsed w.trace)) λ took.
          Keeps-if _ _ (Keeps-bind _ _ _ (Keeps-note_line _ b sp serial _) λ _. Keeps-pure _ e) (
            Keeps-if _ _ (Keeps-pure _ none)
              (Keeps-bind _ _ _ (Keeps-note_line _ b sp serial _) λ _. Keeps-pure _ e))

  Cycles-cycle_each : (serials : List Bytes) → Cycles (cycle_each b sp serials)
  unfolding cycle_each
  Cycles-cycle_each [] = Keeps-pure _ []
  Cycles-cycle_each (s ∷ ss) =
      Keeps-bind _ _ _ (Cycles-cycle_bluetooth s _)
        λ e. Keeps-bind _ _ _ (Cycles-cycle_each ss) λ es. Keeps-pure _ _

Cycles-cycle_of :
    (b : Bench) (r : Result LockError (ScopedPort × List Bytes)) → Cycles (cycle_of b r)
unfolding cycle_of
Cycles-cycle_of b (err e) = Keeps-pure _ (err e)
Cycles-cycle_of b (ok (sp, chosen)) =
    Keeps-bind _ _ _ (Cycles-cycle_each b sp chosen) λ es. Keeps-pure _ (ok es)

-- A restart of Bluetooth that a job asks for cycles radios and does nothing else to any phone, in
-- particular it never reboots one, however the cycles fail; the ports stay as they are.
pub restart_bluetooth-Cycles :
    (b : Bench) (lock_id : Bytes) (serials : List Bytes)
    → Cycles (restart_bluetooth b lock_id serials)
unfolding restart_bluetooth
restart_bluetooth-Cycles b lock_id serials = record {
  ports = λ w. (Cycles-cycle_of b (lock_devices lock_id serials w.ports)).ports w;
  calls = λ w. (Cycles-cycle_of b (lock_devices lock_id serials w.ports)).calls w;
}
