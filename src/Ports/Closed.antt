-- ===== src/Ports/Closed.antt =====
-- `CloseScopedPort` and `resetDevice` (internal/proxy/scoped_port.go): a closed port stays closed,
-- the others stay open, and a phone that another lock holds by now is left alone.
use sair.Base.{
  ◌≡◌, refl, sym, ap, ◌∙◌, subst, inl, inr, Bool, true, false, Option, none, some, List, [], ◌∷◌,
  arith, Bool-cases,
}
use sair.Text.{Bytes, str_eq, str_eq_iff}
use sair.Ports.Branch.{if◌then◌else◌}
use sair.Ports.World.{Bench, ScopedPort, Relay, World, M, ◌>>=◌, pure, skip, held_by, find_port}
use sair.Ports.Reset.{taken, take_relay, reset_device}
use sair.Ports.Manager.{remove_port, close_scoped_port, closed_with}
use sair.Ports.Ended.{reset_devices-drives_own}

pub find-remove : (id : Bytes) (ps : List ScopedPort) → find_port id (remove_port id ps) ≡ none
unfolding find_port remove_port
find-remove id [] = refl
find-remove id (p ∷ ps) = elim (Bool-cases (str_eq p.lock_id id)) [
  | inl h ↦ rw (h, find-remove id ps)
  | inr h ↦ rw (h, h, find-remove id ps)
]

-- A port of one lock is not found under another's name.
not_named :
    (p : ScopedPort) (id other : Bytes)
    → str_eq id other ≡ false
    → str_eq p.lock_id id ≡ true
    → str_eq p.lock_id other ≡ false
not_named p id other h e =
    subst (λ t. str_eq t other ≡ false) (sym ((str_eq_iff p.lock_id id).0 e)) h

remove-absent :
    (id : Bytes) (ps : List ScopedPort) → find_port id ps ≡ none → remove_port id ps ≡ ps
unfolding find_port remove_port
remove-absent id [] h = refl
remove-absent id (p ∷ ps) h = elim (Bool-cases (str_eq p.lock_id id)) [
  | inl e ↦ ground (arith, e, h)
  | inr e ↦ ground (arith, e, h, remove-absent id ps)
]

pub find-remove_other :
    (id other : Bytes) (ps : List ScopedPort)
    → str_eq id other ≡ false
    → find_port other (remove_port id ps) ≡ find_port other ps
unfolding find_port remove_port
find-remove_other id other [] h = refl
find-remove_other id other (p ∷ ps) h = elim (Bool-cases (str_eq p.lock_id id)) [
  | inl e ↦ rw (e, find-remove_other id other ps h, not_named p id other h e)
  | inr e ↦ rw (e, find-remove_other id other ps h)
]

pub with_ports :
    (b : Bench) (id : Bytes) (w : World) (o : Option ScopedPort)
    → find_port id w.ports ≡ o
    → (closed_with b id o w).1.ports ≡ remove_port id w.ports
unfolding closed_with
with_ports b id w none h = sym (remove-absent id w.ports h)
with_ports b id w (some sp) h = (reset_devices-drives_own b sp).ports _

with_none :
    (b : Bench) (id : Bytes) (w : World)
    → find_port id w.ports ≡ none
    → close_scoped_port b id w ≡ (false, w)
unfolding close_scoped_port closed_with
with_none b id w h = rw h

pub closed_ports :
    (b : Bench) (id : Bytes) (w : World)
    → (close_scoped_port b id w).1.ports ≡ remove_port id w.ports
unfolding close_scoped_port
closed_ports b id w = with_ports b id w (find_port id w.ports) refl

-- After a lock's port is closed no port has its name, any other lock finds the port that it found
-- before, and closing it again answers that there is none and changes nothing.
pub close_scoped_port-closes :
    (b : Bench) (id other : Bytes) (w : World)
    → str_eq id other ≡ false
    → let w' = (close_scoped_port b id w).1 in
      (find_port id w'.ports ≡ none)
      × (find_port other w'.ports ≡ find_port other w.ports)
      × (close_scoped_port b id w' ≡ (false, w'))
close_scoped_port-closes b id other w h =
    let gone = ap (find_port id) (closed_ports b id w) ∙ find-remove id w.ports in
    (
      gone,
      ap (find_port other) (closed_ports b id w) ∙ find-remove_other id other w.ports h,
      with_none b id _ gone,
    )

-- No call was made, and the ports, the logs and the Bluetooth marks are as they were.
abbrev pub Undriven : World → World → Type 0
Undriven w w' =
    (w'.trace ≡ w.trace) × (w'.ports ≡ w.ports) × (w'.logs ≡ w.logs) × (w'.bt_fresh ≡ w.bt_fresh)

Undriven-unless_held :
    (serial : Bytes) (w : World) (t : Bool) (k : M (Unit {0}))
    → held_by serial w.ports ≡ true
    → Undriven w
        ((if t then skip else (λ w'. (if held_by serial w'.ports then skip else k) w')) w).1
unfolding if◌then◌else◌ pure
Undriven-unless_held serial w true k h = (refl, refl, refl, refl)
Undriven-unless_held serial w false k h =
    subst (λ t. Undriven w ((if t then skip else k) w).1) (sym h) (refl, refl, refl, refl)

Undriven-taken :
    (serial : Bytes) (w : World) (o : Option Relay) (t : Bool) (k : M (Unit {0}))
    → held_by serial w.ports ≡ true
    → Undriven w
        ((if t then skip else (λ w'. (if held_by serial w'.ports then skip else k) w'))
          (taken serial o w).1).1
unfolding taken
Undriven-taken serial w none t k h = Undriven-unless_held serial w t k h
Undriven-taken serial w (some r) t k h = Undriven-unless_held serial _ t k h

-- The reset of a phone that a port holds by now makes no call at all, whoever relays the phone,
-- and leaves the ports, the logs and the Bluetooth marks as they are.
pub reset_device-leaves_held :
    (b : Bench) (sp : ScopedPort) (serial : Bytes) (w : World)
    → held_by serial w.ports ≡ true
    → Undriven w (reset_device b sp serial w).1
unfolding reset_device ◌>>=◌ take_relay
reset_device-leaves_held b sp serial w h = Undriven-taken serial w _ _ _ h
