-- ===== src/Devices/Isolated.antt =====
-- internal/proxy/adb_connection.go: a connection of a scoped port reaches the lock's devices only.
use sair.Base.{
  zero, suc, ◌≡◌, refl, sym, ◌∙◌, inl, inr, Bool, true, false, Option, none, some, List, [], ◌∷◌,
  Bool-cases, any_of, All,
}
use sair.Text.{Bytes, str_eq}
use sair.Ports.Branch.{if◌then◌else◌}
use sair.Adb.Number.{ℤ, pos, negsuc}
use sair.Devices.Tracker.{Device}
use sair.Devices.Visible.{Connection, is_serial_allowed, IsKeyed, Within, visible_devices-Within}
use sair.Devices.Host.{
  Reply, tunnel_to, handle_transport, handle_transport_with_id, with_allowed, on_first,
  transport_by_id, wait_for, other_serial_command, track_devices, handle_serial_command,
  handle_transport_command, handle_host_command,
}

-- A tunnel goes to one of the serials.
abbrev pub Reaches : List Bytes → Reply → Type 0
Reaches ss (tunnel_to addr serial) = any_of (str_eq serial) ss ≡ true
Reaches ss r = Unit {0}

module _ (c : Connection) (ss : List Bytes) (keyed : IsKeyed c.remote_devices)
    (lock : c.allowed ≡ some ss) where
  if-Reaches :
      (t : Bool) (x y : List Reply)
      → All (Reaches ss) x
      → All (Reaches ss) y
      → All (Reaches ss) (if t then x else y)
  unfolding if◌then◌else◌
  if-Reaches true x y px py = px
  if-Reaches false x y px py = py

  allowed_in : (serial : Bytes) → is_serial_allowed c serial ≡ any_of (str_eq serial) ss
  unfolding is_serial_allowed
  allowed_in serial = rw lock refl

  with_allowed-Reaches :
      (serial : Bytes) (rs : List Reply)
      → (any_of (str_eq serial) ss ≡ true → All (Reaches ss) rs)
      → All (Reaches ss) (with_allowed c serial rs)
  unfolding with_allowed if◌then◌else◌
  with_allowed-Reaches serial rs k = elim (Bool-cases (is_serial_allowed c serial)) [
    | inl h ↦ rw h (k (sym (allowed_in serial) ∙ h))
    | inr h ↦ rw h (tt, tt)
  ]

  transport-Reaches :
      (serial : Bytes)
      → any_of (str_eq serial) ss ≡ true
      → All (Reaches ss) (handle_transport c serial)
  unfolding handle_transport
  transport-Reaches serial h = if-Reaches _ _ _ (tt, tt) (tt, (h, tt))

  transport_with_id-Reaches :
      (serial : Bytes)
      → any_of (str_eq serial) ss ≡ true
      → All (Reaches ss) (handle_transport_with_id c serial)
  unfolding handle_transport_with_id
  transport_with_id-Reaches serial h = if-Reaches _ _ _ (tt, tt) (tt, (tt, (h, tt)))

  on_first-Reaches :
      (ds : List Device) (f : Bytes → List Reply)
      → All (Within ss) ds
      → ((serial : Bytes) → any_of (str_eq serial) ss ≡ true → All (Reaches ss) (f serial))
      → All (Reaches ss) (on_first ds f)
  unfolding on_first
  on_first-Reaches [] f w k = (tt, tt)
  on_first-Reaches (d ∷ ds) f w k = k d.serial w.0

  by_id-Reaches : (id : ℤ) → All (Reaches ss) (transport_by_id c id)
  unfolding transport_by_id
  by_id-Reaches (pos zero) = (tt, tt)
  by_id-Reaches (negsuc n) = (tt, tt)
  by_id-Reaches (pos (suc n)) =
      if-Reaches _ _ _ (tt, tt) (with_allowed-Reaches _ _ (transport-Reaches _))

  wait_for-Reaches : (request : Bytes) (o : Option Bytes) → All (Reaches ss) (wait_for c request o)
  unfolding wait_for
  wait_for-Reaches request none = (tt, tt)
  wait_for-Reaches request (some []) = (tt, tt)
  wait_for-Reaches request (some (b ∷ s)) =
      with_allowed-Reaches _ _ λ _. if-Reaches _ _ _ (tt, (tt, tt)) (tt, tt)

  other-Reaches :
      (request : Bytes) (o : Option Bytes) → All (Reaches ss) (other_serial_command request o)
  unfolding other_serial_command
  other-Reaches request none = (tt, tt)
  other-Reaches request (some []) = (tt, tt)
  other-Reaches request (some (b ∷ s)) = (tt, tt)

  serial_command-Reaches : (request : Bytes) → All (Reaches ss) (handle_serial_command c request)
  unfolding handle_serial_command
  serial_command-Reaches request =
      if-Reaches _ _ _ (wait_for-Reaches request _)
        (if-Reaches _ _ _ (other-Reaches request _) (if-Reaches _ _ _ (tt, tt) (tt, tt)))

  transport_command-Reaches :
      (request : Bytes) → All (Reaches ss) (handle_transport_command c request)
  unfolding handle_transport_command
  transport_command-Reaches request =
      let seen = visible_devices-Within c ss keyed lock in
      if-Reaches _ _ _ (with_allowed-Reaches _ _ (transport-Reaches _)) (
        if-Reaches _ _ _ (on_first-Reaches _ _ seen transport-Reaches) (
          if-Reaches _ _ _ (with_allowed-Reaches _ _ (transport_with_id-Reaches _)) (
            if-Reaches _ _ _ (on_first-Reaches _ _ seen transport_with_id-Reaches)
              (if-Reaches _ _ _ (by_id-Reaches _) (serial_command-Reaches request)))))

-- Whatever a client of a scoped port requests, every tunnel that its host command opens goes to a
-- device of the lock: by serial, by transport id, or to any device; relayed devices are listed
-- under their own serials.
pub handle_host_command-Reaches :
    (c : Connection) (ss : List Bytes) (request : Bytes)
    → IsKeyed c.remote_devices
    → c.allowed ≡ some ss
    → All (Reaches ss) (handle_host_command c request)
unfolding handle_host_command track_devices
handle_host_command-Reaches c ss request keyed lock =
    if-Reaches c ss keyed lock _ _ _ (tt, tt)
      (if-Reaches c ss keyed lock _ _ _ (tt, tt)
        (if-Reaches c ss keyed lock _ _ _ (with_allowed-Reaches c ss keyed lock _ _ λ _. (tt, tt)) (
          if-Reaches c ss keyed lock _ _ _ (tt, tt)
            (if-Reaches c ss keyed lock _ _ _ (tt, tt)
              (if-Reaches c ss keyed lock _ _ _ (tt, (tt, (tt, tt)))
                (if-Reaches c ss keyed lock _ _ _ (tt, tt)
                  (transport_command-Reaches c ss keyed lock request)))))))
