-- ===== src/Ports/Ended.antt =====
-- `resetDevice`, `resetDevices` and `CloseScopedPort` (internal/proxy/scoped_port.go): what the end
-- of a lock does to its phones, to those of other locks, and to the map of ports.
use sair.Base.{
  subst, ◌⊎◌, inl, inr, All, ◌++◌, Bool-cases, ◌≡◌, refl, sym, ap, ◌∙◌, Bool, true, false, not,
  ◌&&◌, ◌||◌, Option, none, some, List, [], ◌∷◌,
}
use sair.Text.{Bytes, str_eq, str_eq_iff, str_eq_refl}
use sair.Ports.World.{
  Snapshot, Call, set_wifi_call, remove_reverse_call, add_reverse_call, reset_packages_call,
  clear_ui_automation_call, wake_call, reset_bluetooth_call, hold_updates_call,
  reboot_if_stale_call, reboot_if_wedged_call, recent_source_log_call, wait_for_source_call,
  event_call, acquire_lock_call, release_lock_call, Trace, World, M, ◌>>=◌, skip, Bench, ScopedPort,
  Relay, has, held_by,
}
use sair.Ports.Device.{is_none}
use sair.Ports.Reset.{
  find_relay, taken, snapshot_of, held_by_any_port, reset_phone, take_relay, reset_device,
  reset_all, reset_devices,
}
use sair.Ports.Branch.{if◌then◌else◌}
use sair.Ports.Keeps.{Keeps, Keeps-pure, Keeps-bind, Keeps-if, Keeps-cond, Keeps-read}
use sair.Ports.Steps.{Permits}
use sair.Ports.Lifecycle.{Keeps-reset_phone}

-- Which of the serials a call is about.
unfoldable pub about : List Bytes → Call → Bool
about serials (set_wifi_call s state band) = has s serials
about serials (remove_reverse_call s) = has s serials
about serials (add_reverse_call s port) = has s serials
about serials (reset_packages_call s since) = has s serials
about serials (clear_ui_automation_call s) = has s serials
about serials (wake_call s) = has s serials
about serials (reset_bluetooth_call s) = has s serials
about serials (hold_updates_call s hold) = has s serials
about serials (reboot_if_stale_call s) = has s serials
about serials (reboot_if_wedged_call s radio) = has s serials
about serials (recent_source_log_call s) = has s serials
about serials (wait_for_source_call s) = has s serials
about serials (event_call e) = has e.serial serials
about serials acquire_lock_call = false
about serials (release_lock_call s status entries) = false

-- One of the records is the phone's under the lock.
unfoldable pub HasRecord : List Relay → Bytes → Bytes → List Bytes → Type 0
HasRecord [] serial lock_id packages = ⊥
HasRecord (r ∷ rs) serial lock_id packages =
    ((r.serial ≡ serial) × (r.lock_id ≡ lock_id) × (r.snapshot ≡ some packages))
    ⊎ HasRecord rs serial lock_id packages

-- A package reset goes by the packages that a record of the lock has for the phone.
unfoldable pub IsRecorded : List Relay → Bytes → Call → Type 0
unfolding HasRecord
IsRecorded relays lock_id (reset_packages_call s since) =
    (packages : List Bytes) × (since ≡ some packages) × HasRecord relays s lock_id packages
IsRecorded relays lock_id c = Unit {0}

head_has : (s : Bytes) (ss : List Bytes) → has s (s ∷ ss) ≡ true
head_has s ss = ap (λ t. t || has s ss) (str_eq_refl s)

or_true : (t : Bool) {u : Bool} → u ≡ true → (t || u) ≡ true
or_true true h = refl
or_true false h = h

tail_has : (s x : Bytes) (ss : List Bytes) → has s ss ≡ true → has s (x ∷ ss) ≡ true
tail_has s x ss h = or_true (str_eq s x) h

not-true : (t : Bool) → not t ≡ true → t ≡ false
not-true true h = sym h
not-true false h = refl

abbrev Both : ScopedPort → Bytes → Type 0
Both sp serial = (has serial sp.serials ≡ true) × (has serial sp.remote_devices ≡ false)

Permits-about :
    (sp : ScopedPort) (serial : Bytes)
    → has serial sp.serials ≡ true
    → has serial sp.remote_devices ≡ false
    → Permits (λ c. (about sp.serials c ≡ true) × (about sp.remote_devices c ≡ false)) serial
unfolding about
Permits-about sp serial l r =
    let h : Both sp serial = (l, r) in
    record {
      event = λ e q. (ap (λ s. has s sp.serials) q ∙ l, ap (λ s. has s sp.remote_devices) q ∙ r);
      wait = h;
      wake = h;
      wifi = λ state band. h;
      updates = λ hold. h;
      reverse = h;
      clear = h;
      bluetooth = h;
      wedged = λ radio. h;
      stale = h;
      source = h;
    }

Permits-IsRecorded :
    (relays : List Relay) (lock_id serial : Bytes) → Permits (IsRecorded relays lock_id) serial
unfolding IsRecorded
Permits-IsRecorded relays lock_id serial = record {
  event = λ e q. tt;
  wait = tt;
  wake = tt;
  wifi = λ state band. tt;
  updates = λ hold. tt;
  reverse = tt;
  clear = tt;
  bluetooth = tt;
  wedged = λ radio. tt;
  stale = tt;
  source = tt;
}

HasRecord-find_relay :
    (serial lock_id : Bytes) (rs : List Relay) (r : Relay) (packages : List Bytes)
    → find_relay serial lock_id rs ≡ some r
    → r.snapshot ≡ some packages
    → HasRecord rs serial lock_id packages
unfolding find_relay HasRecord if◌then◌else◌
HasRecord-find_relay serial lock_id [] r packages h q = cc h
HasRecord-find_relay serial lock_id (x ∷ rs) r packages h q =
    elim (Bool-cases (str_eq x.serial serial)) [
      | inr other ↦ inr (
          HasRecord-find_relay serial lock_id rs r packages
            (subst
              (λ t.
                (if t
                  then if str_eq x.lock_id lock_id then some x else none
                  else find_relay serial lock_id rs)
                ≡ some r)
              other h)
            q)
      | inl this ↦ elim (Bool-cases (str_eq x.lock_id lock_id)) [
        | inr stale ↦ cc (first this stale h)
        | inl names ↦
            inl ((str_eq_iff _ _).0 this, (str_eq_iff _ _).0 names, cc (first this names h, q))
      ]
    ]
  where
    first :
        {n : Bool}
        → str_eq x.serial serial ≡ true
        → str_eq x.lock_id lock_id ≡ n
        → find_relay serial lock_id (x ∷ rs) ≡ some r
        → (if n then some x else none) ≡ some r
    first this names h =
        subst (λ k. (if k then some x else none) ≡ some r) names
          (subst
            (λ t.
              (if t
                then if str_eq x.lock_id lock_id then some x else none
                else find_relay serial lock_id rs)
              ≡ some r)
            this h)

module _ (P : Call → Type 0) where
  Keeps-taken : (serial : Bytes) (r : Option Relay) → Keeps P (taken serial r)
  unfolding taken
  Keeps-taken serial none = record { ports = λ w. refl; calls = λ w. ([], refl, tt) }
  Keeps-taken serial (some r) = record { ports = λ w. refl; calls = λ w. ([], refl, tt) }

  Keeps-take_relay : (serial lock_id : Bytes) → Keeps P (take_relay serial lock_id)
  unfolding take_relay
  Keeps-take_relay serial lock_id = record {
    ports = λ w. (Keeps-taken serial (find_relay serial lock_id w.relays)).ports w;
    calls = λ w. (Keeps-taken serial (find_relay serial lock_id w.relays)).calls w;
  }

  module _ (b : Bench) (sp : ScopedPort) where
    Keeps-reset_device :
        (serial : Bytes)
        → Permits P serial
        → ((since : Snapshot)
            → (sp.relayed && is_none since) ≡ false
            → P (reset_packages_call serial since))
        → Keeps P (reset_device b sp serial)
    unfolding reset_device
    Keeps-reset_device serial may p = Keeps-bind P _ _ (Keeps-take_relay serial sp.lock_id) λ r.
        Keeps-if P _ (Keeps-pure P tt) (
          Keeps-bind P _ _ (Keeps-read P (λ w. held_by serial w.ports))
            λ held. Keeps-if P _ (Keeps-pure P tt) (Keeps-reset_phone P b sp serial may _ (p _)))

    Keeps-reset_all :
        (serials : List Bytes)
        → ((s : Bytes)
            → has s serials ≡ true
            → has s sp.remote_devices ≡ false
            → Permits P s
              × ((since : Snapshot)
                  → (sp.relayed && is_none since) ≡ false
                  → P (reset_packages_call s since)))
        → Keeps P (reset_all b sp serials)
    unfolding reset_all
    Keeps-reset_all [] may = Keeps-pure P tt
    Keeps-reset_all (s ∷ ss) may =
        Keeps-bind P _ _
          (Keeps-cond P (not (has s sp.remote_devices))
            (λ h.
              let permitted = may s (head_has s ss) (not-true _ h) in
              Keeps-reset_device s permitted.0 permitted.1)
            (λ h. Keeps-pure P tt))
          λ _. Keeps-reset_all ss λ s' h. may s' (tail_has s' s ss h)

-- A lock's end drives the lock's own local phones only, and leaves the map of ports as it was:
-- each call is about a serial of the lock, and about none of those on other boxes.
pub reset_devices-drives_own :
    (b : Bench) (sp : ScopedPort)
    → Keeps
        (λ c. (about sp.serials c ≡ true) × (about sp.remote_devices c ≡ false))
        (reset_devices b sp)
unfolding reset_devices about
reset_devices-drives_own b sp =
    Keeps-reset_all _ b sp sp.serials λ s h h'. (Permits-about sp s h h', λ since _. (h, h'))

module _ (b : Bench) (sp : ScopedPort) (serial : Bytes) where
  -- What follows the taking of the record.
  abbrev after_take : Option Relay → M (Unit {0})
  after_take rec = if sp.relayed && is_none rec then skip else do
    held ← held_by_any_port serial
    if held then skip else reset_phone b sp serial (if sp.relayed then snapshot_of rec else none)

  has_snapshot :
      (relays : List Relay) (r : Relay) (since : Snapshot)
      → find_relay serial sp.lock_id relays ≡ some r
      → r.snapshot ≡ since
      → is_none since ≡ false
      → IsRecorded relays sp.lock_id (reset_packages_call serial since)
  unfolding IsRecorded
  has_snapshot relays r none e q h = cc h
  has_snapshot relays r (some packages) e q h =
      (packages, refl, HasRecord-find_relay serial sp.lock_id relays r packages e q)

  goes_by :
      (relays : List Relay) (t : Bool) (rec : Option Relay)
      → t ≡ true
      → find_relay serial sp.lock_id relays ≡ rec
      → (t && is_none (if t then snapshot_of rec else none)) ≡ false
      → IsRecorded relays sp.lock_id
          (reset_packages_call serial (if t then snapshot_of rec else none))
  unfolding if◌then◌else◌
  goes_by relays false rec t e h = cc t
  goes_by relays true none t e h = cc h
  goes_by relays true (some r) t e h = has_snapshot relays r _ e refl h

  Keeps-after_take :
      (relays : List Relay) (rec : Option Relay)
      → sp.relayed ≡ true
      → find_relay serial sp.lock_id relays ≡ rec
      → Keeps (IsRecorded relays sp.lock_id) (after_take rec)
  unfolding IsRecorded
  Keeps-after_take relays rec relayed e = Keeps-if _ _ (Keeps-pure _ tt) (
      Keeps-bind _ _ _ (Keeps-read _ (λ w. held_by serial w.ports)) λ held.
        Keeps-if _ _ (Keeps-pure _ tt) (
          Keeps-reset_phone _ b sp serial (Permits-IsRecorded relays sp.lock_id serial) _
            (goes_by relays sp.relayed rec relayed e)))

  ResetsBy : World → World → Type 0
  ResetsBy w w' =
      (w'.ports ≡ w.ports)
      × ((new : Trace) × (w'.trace ≡ new ++ w.trace) × All (IsRecorded w.relays sp.lock_id) new)

  resets_by :
      (w : World) (rec : Option Relay)
      → sp.relayed ≡ true
      → find_relay serial sp.lock_id w.relays ≡ rec
      → let (r, w') = taken serial rec w in ResetsBy w (after_take r w').1
  unfolding taken ResetsBy
  resets_by w none relayed e =
      let k = Keeps-after_take w.relays none relayed e in (k.ports w, k.calls w)
  resets_by w (some r) relayed e =
      let w' = (taken serial (some r) w).1 in
      let k = Keeps-after_take w.relays (some r) relayed e in (k.ports w', k.calls w')

-- The reset of a phone relayed under a lock resets its packages only against the snapshot in the
-- record of that phone and lock, as it stood when the reset began: without a record, or without a
-- snapshot in it, no package is touched. The map of ports stays as it was.
pub reset_device-needs_snapshot :
    (b : Bench) (sp : ScopedPort) (serial : Bytes) (w : World)
    → sp.relayed ≡ true
    → let w' = (reset_device b sp serial w).1 in
      (w'.ports ≡ w.ports)
      × ((new : Trace) × (w'.trace ≡ new ++ w.trace) × All (IsRecorded w.relays sp.lock_id) new)
unfolding reset_device take_relay ◌>>=◌ ResetsBy
reset_device-needs_snapshot b sp serial w relayed = resets_by b sp serial w _ relayed refl
