-- ===== src/Devices/Visible.antt =====
-- internal/proxy/adb_connection.go: what a connection knows, and the devices that it may see.
use sair.Base.{
  ℕ, ◌≡◌, ap, ◌∙◌, inl, inr, Bool, true, false, ◌&&◌, ◌||◌, Option, none, some, List, [], ◌∷◌, ◌++◌,
  ltb, ◌==◌, if◌then◌else◌, Bool-cases, any_of, All, All-append,
}
use sair.Text.{Bytes, str_eq}
use sair.Devices.Features.{modern_sdk}
use sair.Devices.Tracker.{Device, Tracker, get_transport_id}

-- `allowed` is `none` where every device is (the bare port), and the serials of the lock on a scoped
-- port. The last two fields are the port's transport ids of relayed phones.
pub record Connection : Type 0 where
  pub tracker : Tracker
  pub allowed : Option (List Bytes)
  pub remote_devices : List (Bytes × Device)
  pub remote_transport_id : Option (Bytes → ℕ)
  pub remote_serial_by_transport_id : Option (ℕ → Bytes)

unfoldable pub is_serial_allowed : Connection → Bytes → Bool
is_serial_allowed c serial = elim c.allowed [ none ↦ true | some ss ↦ any_of (str_eq serial) ss ]

-- Go's order of strings, byte by byte.
str_le : Bytes → Bytes → Bool
str_le [] t = true
str_le (a ∷ s) [] = false
str_le (a ∷ s) (b ∷ t) = ltb a b || ((a == b) && str_le s t)

insert : Device → List Device → List Device
unfolding str_le
insert d [] = d ∷ []
insert d (e ∷ es) =
    let rest = insert d es in if str_le d.serial e.serial then d ∷ e ∷ es else e ∷ rest

-- `sort.Slice` by serial.
sort : List Device → List Device
unfolding insert
sort [] = []
sort (d ∷ ds) = insert d (sort ds)

values : List (Bytes × Device) → List Device
values [] = []
values ((k, d) ∷ ds) = d ∷ values ds

allowed_of : List Bytes → List Device → List Device
allowed_of ss [] = []
allowed_of ss (d ∷ ds) =
    let rest = allowed_of ss ds in if any_of (str_eq d.serial) ss then d ∷ rest else rest

allowed_remote : List Bytes → List (Bytes × Device) → List Device
allowed_remote ss [] = []
allowed_remote ss ((k, d) ∷ ds) =
    let rest = allowed_remote ss ds in if any_of (str_eq k) ss then d ∷ rest else rest

unfoldable pub visible_devices : Connection → List Device
unfolding sort values allowed_of allowed_remote
visible_devices c = elim c.allowed [
  | none ↦ sort (c.tracker.devices ++ values c.remote_devices)
  | some ss ↦ sort (allowed_of ss c.tracker.devices ++ allowed_remote ss c.remote_devices)
]

sdk_in : Bytes → List Device → ℕ
unfolding str_eq
sdk_in serial [] = modern_sdk
sdk_in serial (d ∷ ds) = if str_eq d.serial serial then d.sdk else sdk_in serial ds

unfoldable pub sdk_of : Connection → Bytes → ℕ
unfolding sdk_in visible_devices
sdk_of c serial = sdk_in serial (visible_devices c)

least_sdk : ℕ → List Device → ℕ
least_sdk n [] = n
least_sdk n (d ∷ ds) = least_sdk (if ltb d.sdk n then d.sdk else n) ds

unfoldable pub min_visible_sdk : Connection → ℕ
unfolding least_sdk visible_devices
min_visible_sdk c = least_sdk modern_sdk (visible_devices c)

remote_id : Connection → Bytes → ℕ
remote_id c serial = elim c.remote_transport_id [ none ↦ 0 | some f ↦ f serial ]

unfoldable pub transport_id_of : Connection → Bytes → ℕ
unfolding remote_id get_transport_id
transport_id_of c serial =
    let id = get_transport_id c.tracker serial in if id == 0 then remote_id c serial else id

-- Every device with this property, however the list is put together.
module _ (P : Device → Type 0) where
  insert-All : (d : Device) (es : List Device) → P d → All P es → All P (insert d es)
  unfolding insert
  insert-All d [] p ps = (p, tt)
  insert-All d (e ∷ es) p ps = elim (Bool-cases (str_le d.serial e.serial)) [
    | inl h ↦ rw h (p, ps)
    | inr h ↦ rw h (ps.0, insert-All d es p ps.1)
  ]

  sort-All : (ds : List Device) → All P ds → All P (sort ds)
  unfolding sort
  sort-All [] ps = tt
  sort-All (d ∷ ds) ps = insert-All d (sort ds) ps.0 (sort-All ds ps.1)

abbrev pub Within : List Bytes → Device → Type 0
Within ss d = any_of (str_eq d.serial) ss ≡ true

-- A relayed device is listed under its own serial.
abbrev pub IsKeyed : List (Bytes × Device) → Type 0
IsKeyed ds = All {A = Bytes × Device} (λ e. e.1.serial ≡ e.0) ds

allowed_of-Within : (ss : List Bytes) (ds : List Device) → All (Within ss) (allowed_of ss ds)
unfolding allowed_of
allowed_of-Within ss [] = tt
allowed_of-Within ss (d ∷ ds) = elim (Bool-cases (any_of (str_eq d.serial) ss)) [
  | inl h ↦ rw h (h, allowed_of-Within ss ds)
  | inr h ↦ rw h (allowed_of-Within ss ds)
]

allowed_remote-Within :
    (ss : List Bytes) (ds : List (Bytes × Device))
    → IsKeyed ds
    → All (Within ss) (allowed_remote ss ds)
unfolding allowed_remote
allowed_remote-Within ss [] k = tt
allowed_remote-Within ss ((s, d) ∷ ds) k = elim (Bool-cases (any_of (str_eq s) ss)) [
  | inl h ↦ rw h (ap (λ u. any_of (str_eq u) ss) k.0 ∙ h, allowed_remote-Within ss ds k.1)
  | inr h ↦ rw h (allowed_remote-Within ss ds k.1)
]

pub visible_devices-Within :
    (c : Connection) (ss : List Bytes)
    → IsKeyed c.remote_devices
    → c.allowed ≡ some ss
    → All (Within ss) (visible_devices c)
unfolding visible_devices
visible_devices-Within c ss k h = rw h (
    sort-All (Within ss) _ (
      All-append (Within ss) _ _ (allowed_of-Within ss c.tracker.devices)
        (allowed_remote-Within ss c.remote_devices k)))
