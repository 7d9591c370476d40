-- ===== src/Devices/Tracker.antt =====
-- internal/proxy/device_tracker.go: the devices that the device sources report, which source owns
-- each, and the transport id that each keeps while it is there.
use sair.Base.{
  ℕ, ◌+◌, ◌-◌, ◌%◌, ◌^◌, Bool, not, Option, none, some, List, [], ◌∷◌, ◌++◌, leb, ◌==◌,
  if◌then◌else◌, any_of, keep_if,
}
use sair.Text.{Bytes, utf8, str_eq}

-- A `pb.DeviceInfo`, as far as the proxy reads it.
pub record Device : Type 0 where
  pub serial : Bytes
  pub model : Bytes
  pub sdk : ℕ
  pub device_source : Bytes

pub record Source : Type 0 where
  pub addr : Bytes
  pub devices : List Device
  pub last_seen : ℕ

-- Transport ids start at 1; the source's counter is an int32, of which this is the bit pattern.
pub record Tracker : Type 0 where
  pub sources : List Source
  pub devices : List Device
  pub serial_to_source : List (Bytes × Bytes)
  pub transport_ids : List (Bytes × ℕ)
  pub next_transport : ℕ

pub data TrackerEvent : Type 0 where
  source_up : Bytes → TrackerEvent
  source_stale : Bytes → TrackerEvent

abbrev pub new_tracker : Tracker
new_tracker = record {
  sources = [];
  devices = [];
  serial_to_source = [];
  transport_ids = [];
  next_transport = 1;
}

unfoldable pub lookup {ℓ} : {A : Type ℓ} → Bytes → List (Bytes × A) → Option A
lookup k [] = none
lookup k ((k', a) ∷ xs) = if str_eq k' k then some a else lookup k xs

unfoldable pub store {ℓ} : {A : Type ℓ} → Bytes → A → List (Bytes × A) → List (Bytes × A)
store k a [] = (k, a) ∷ []
store k a ((k', b) ∷ xs) =
    let rest = store k a xs in if str_eq k' k then (k, a) ∷ xs else (k', b) ∷ rest

or_else {ℓ} : {A : Type ℓ} → A → Option A → A
or_else d none = d
or_else d (some a) = a

unfoldable pub get_source_addr : Tracker → Bytes → Bytes
unfolding or_else
get_source_addr t serial = or_else [] (lookup serial t.serial_to_source)

unfoldable pub get_transport_id : Tracker → Bytes → ℕ
unfolding or_else
get_transport_id t serial = or_else 0 (lookup serial t.transport_ids)

unfoldable pub key_of : ℕ → List (Bytes × ℕ) → Bytes
key_of id [] = []
key_of id ((k, i) ∷ xs) = if i == id then k else key_of id xs

unfoldable pub get_serial_by_transport_id : Tracker → ℕ → Bytes
unfolding key_of
get_serial_by_transport_id t id = key_of id t.transport_ids

unfoldable pub serials_of : List Device → List Bytes
serials_of [] = []
serials_of (d ∷ ds) = d.serial ∷ serials_of ds

-- The merge: every source's devices, and for a serial that two of them report the later source.
unfoldable pub all_devices : List Source → List Device
all_devices [] = []
all_devices (s ∷ ss) = s.devices ++ all_devices ss

own_all : Bytes → List Device → List (Bytes × Bytes) → List (Bytes × Bytes)
own_all addr [] m = m
own_all addr (d ∷ ds) m = own_all addr ds (store d.serial addr m)

owners : List Source → List (Bytes × Bytes) → List (Bytes × Bytes)
unfolding own_all
owners [] m = m
owners (s ∷ ss) m = owners ss (own_all s.addr s.devices m)

-- A transport id for each device that has none yet.
unfoldable pub assign_id : Bytes → Option ℕ → List (Bytes × ℕ) → ℕ → List (Bytes × ℕ) × ℕ
assign_id serial (some i) ids next = (ids, next)
assign_id serial none ids next = (ids ++ (serial, next) ∷ [], (next + 1) % 2 ^ 32)

unfoldable pub assign_ids : List Device → List (Bytes × ℕ) → ℕ → List (Bytes × ℕ) × ℕ
assign_ids [] ids next = (ids, next)
assign_ids (d ∷ ds) ids next =
    let (ids', next') = assign_id d.serial (lookup d.serial ids) ids next in
    assign_ids ds ids' next'

unfoldable pub keep_keys {ℓ} : {A : Type ℓ} → List Bytes → List (Bytes × A) → List (Bytes × A)
keep_keys serials [] = []
keep_keys serials ((k, a) ∷ xs) =
    let rest = keep_keys serials xs in if any_of (str_eq k) serials then (k, a) ∷ rest else rest

unfoldable pub drop_gone :
    List Bytes → List (Bytes × ℕ) → List (Bytes × Bytes) → List (Bytes × Bytes)
drop_gone serials [] m = m
drop_gone serials ((k, i) ∷ ids) m =
    let rest = drop_gone serials ids m in
    if any_of (str_eq k) serials then rest else keep_if (λ e. not (str_eq e.0 k)) rest

unfoldable pub rebuild : Tracker → Tracker
unfolding owners
rebuild t =
    let present = all_devices t.sources in
    let (ids, next) = assign_ids present t.transport_ids t.next_transport in
    record t {
      devices = present;
      serial_to_source = drop_gone (serials_of present) ids (owners t.sources t.serial_to_source);
      transport_ids = keep_keys (serials_of present) ids;
      next_transport = next;
    }

stamp : Bytes → List Device → List Device
stamp addr [] = []
stamp addr (d ∷ ds) = record d { device_source = addr } ∷ stamp addr ds

put_source : Source → List Source → List Source
put_source s [] = s ∷ []
put_source s (s' ∷ ss) =
    let rest = put_source s ss in if str_eq s'.addr s.addr then s ∷ ss else s' ∷ rest

is_known : Bytes → List Source → Bool
is_known addr ss = any_of {A = Source} (λ s. str_eq s.addr addr) ss

-- `UpdateDevices`, at time `now` in milliseconds; the event that it
-- sends, by its detail.
unfoldable pub update_devices :
    ℕ → Bytes → Bytes → List Device → Tracker → Option TrackerEvent × Tracker
unfolding stamp put_source is_known
update_devices now addr version ds t = (
  if is_known addr t.sources then none else some (source_up (addr ++ (utf8 " " ++ version))),
  rebuild (record t {
    sources =
        put_source (record { addr = addr; devices = stamp addr ds; last_seen = now }) t.sources;
  }),
)

abbrev pub stale_threshold : ℕ
stale_threshold = 30000

fresh_sources : ℕ → List Source → List Source
fresh_sources now ss = keep_if {A = Source} (λ s. leb (now - s.last_seen) stale_threshold) ss

stale_events : ℕ → List Source → List TrackerEvent
stale_events now [] = []
stale_events now (s ∷ ss) =
    let rest = stale_events now ss in
    if leb (now - s.last_seen) stale_threshold then rest else source_stale s.addr ∷ rest

-- `reapAndReport`, as far as the report: the events, and the tracker whose devices are reported.
unfoldable pub reap : ℕ → Tracker → List TrackerEvent × Tracker
unfolding fresh_sources stale_events
reap now t =
    (stale_events now t.sources, rebuild (record t { sources = fresh_sources now t.sources }))
