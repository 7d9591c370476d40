-- ===== src/Ports/Manager.antt =====
-- The life of a lock's scoped port (internal/proxy/scoped_port.go): acquire, create, mid-job calls,
-- release, expiry, shutdown. Calls that the source fans out over phones are made in the order of
-- the phones here; each phone has its own mutex.
use sair.Base.{
  ℕ, ◌+◌, Bool, true, false, not, ◌&&◌, ◌||◌, Option, none, some, List, [], ◌∷◌, ◌==◌,
  if◌then◌else◌, keep_if,
}
use sair.Text.{Bytes, utf8, str_eq}
use sair.Result.{Result, ok, err}
use sair.LockLog.Entries.{Entry}
use sair.LockLog.{empty, drain_all}
use sair.Ports.World.{
  Error, Err, WifiState, on, off, release_lock_call, Granted, Bench, ScopedPort, Relay, M, ◌>>=◌,
  ◌>>◌, pure, skip, ask, has, find_port,
}
use sair.Ports.Device.{when, is_empty, wifi_device, cycle_bluetooth}
use sair.Ports.Reset.{reset_device, reset_devices}

abbrev pub the_port : Bytes → M (Option ScopedPort)
the_port lock_id w = (find_port lock_id w.ports, w)

unfoldable pub remove_port : Bytes → List ScopedPort → List ScopedPort
remove_port lock_id [] = []
remove_port lock_id (p ∷ ps) =
    let rest = remove_port lock_id ps in if str_eq p.lock_id lock_id then rest else p ∷ rest

-- `sp.Log.DrainAll()`.
unfoldable pub drain_log : Option ℕ → M (List Entry)
drain_log none w = ([], w)
drain_log (some n) w =
    let (entries, l) = drain_all (w.logs n) in
    (entries, record w { logs = λ k. if k == n then l else w.logs k })

-- `localSerials`, in the order of the lock's serials.
unfoldable pub local_serials : ScopedPort → List Bytes
local_serials sp = keep_if (λ s. not (has s sp.remote_devices)) sp.serials

pub data LockError : Type 0 where
  unknown_lock : LockError
  not_in_lock : Bytes → LockError

unfoldable pub first_outside : List Bytes → List Bytes → Option Bytes
first_outside serials [] = none
first_outside serials (s ∷ ss) = if has s serials then first_outside serials ss else some s

-- `lockDevices`.
unfoldable pub lock_devices :
    Bytes → List Bytes → List ScopedPort → Result LockError (ScopedPort × List Bytes)
unfolding local_serials first_outside
lock_devices lock_id serials ports = elim (find_port lock_id ports) [
  | none ↦ err unknown_lock
  | some sp ↦
      let chosen = if is_empty serials then local_serials sp else serials in
      elim (first_outside sp.serials chosen) [
        | some s ↦ err (not_in_lock s)
        | none ↦ ok (sp, chosen)
      ]
]

-- `DeviceTokenValid`: the comparison's timing aside.
unfoldable pub device_token_valid : Bytes → Bytes → List ScopedPort → Bool
device_token_valid lock_id token ports = elim (find_port lock_id ports) [
  | none ↦ false
  | some sp ↦ not (is_empty token) && str_eq sp.device_token token
]

-- `AddLabels`: whether the labels' serials may be forwarded.
unfoldable pub add_labels : Bytes → List Bytes → List ScopedPort → Result LockError (Unit {0})
unfolding first_outside
add_labels lock_id serials ports = elim (find_port lock_id ports) [
  | none ↦ err unknown_lock
  | some sp ↦ elim (first_outside sp.serials (keep_if (λ s. not (is_empty s)) serials)) [
    | some s ↦ err (not_in_lock s)
    | none ↦ ok tt
  ]
]

pub data CreateError : Type 0 where
  already_exists listen_failed random_failed : CreateError

-- The errors that `Acquire` returns: the orchestrator's refusal, a port that could not be made, a
-- phone that could not be put in the state that the job asked for.
pub data AcquireError : Type 0 where
  refused : AcquireError
  no_port : CreateError → AcquireError
  wake_failure : Err → AcquireError
  wifi_failure : Result LockError Err → AcquireError

module _ (b : Bench) where
  -- `CreateScopedPort`.
  unfoldable pub create_scoped_port : Granted → M (Result CreateError ScopedPort)
  create_scoped_port g w = elim (find_port g.lock_id w.ports) [
    | some sp ↦ (err already_exists, w)
    | none ↦ elim (b.listen w.trace) [
      | none ↦ (err listen_failed, w)
      | some port ↦ elim (b.random_token w.trace) [
        | none ↦ (err random_failed, w)
        | some token ↦
            let sp : ScopedPort = record {
              lock_id = g.lock_id;
              serials = g.serials;
              port = port;
              log = some w.next_log;
              remote_devices = g.remote_devices;
              device_token = token;
              device_api_port = 0;
              relayed = false;
            } in
            (
              ok sp,
              record w {
                ports = sp ∷ w.ports;
                logs = λ k. if k == w.next_log then empty else w.logs k;
                next_log = w.next_log + 1;
              },
            )
      ]
    ]
  ]

  unfoldable pub closed_with : Bytes → Option ScopedPort → M Bool
  closed_with lock_id none w = (false, w)
  closed_with lock_id (some sp) w =
      (true, (reset_devices b sp (record w { ports = remove_port lock_id w.ports })).1)

  -- `CloseScopedPort`: the port is gone from the map before its phones are reset.
  unfoldable pub close_scoped_port : Bytes → M Bool
  close_scoped_port lock_id w = closed_with lock_id (find_port lock_id w.ports) w

  abbrev pub release_lock : Bytes → Bytes → List Entry → M (Option Bool)
  release_lock lock_id status entries =
      ask (release_lock_call lock_id status entries) (λ h. b.release_lock h lock_id status)

  unfoldable pub drain_port : Option ScopedPort → M (List Entry)
  unfolding drain_log
  drain_port none = pure []
  drain_port (some sp) = drain_log sp.log

  unfoldable pub released_or : Bool → Option Bool → Bool
  released_or closed none = closed
  released_or closed (some released) = closed || released

  unfoldable pub release : Bytes → Bytes → M Bool
  unfolding drain_port released_or
  release lock_id status = do
    sp ← the_port lock_id
    closed ← close_scoped_port lock_id
    entries ← drain_port sp
    released ← release_lock lock_id status entries
    pure (released_or closed released)

  abbrev stand_in : Bytes → ScopedPort
  stand_in lock_id = record {
    lock_id = lock_id;
    serials = [];
    port = 0;
    log = none;
    remote_devices = [];
    device_token = [];
    device_api_port = 0;
    relayed = true;
  }

  reset_relays : Bytes → List Relay → M (Unit {0})
  reset_relays lock_id [] = skip
  reset_relays lock_id (r ∷ rs) = do
    when (str_eq r.lock_id lock_id) (reset_device b (stand_in lock_id) r.serial)
    reset_relays lock_id rs

  -- `resetRelayed`: the phones relayed from here under an ended lock.
  unfoldable pub reset_relayed : Bytes → M (Unit {0})
  unfolding reset_relays
  reset_relayed lock_id w = reset_relays lock_id w.relays w

  unfoldable pub on_lock_expired : Bytes → M (Unit {0})
  on_lock_expired lock_id = do closed ← close_scoped_port lock_id; reset_relayed lock_id

  shutdown_ports : List ScopedPort → M (Unit {0})
  unfolding drain_log
  shutdown_ports [] = skip
  shutdown_ports (sp ∷ ps) = do
    closed ← close_scoped_port sp.lock_id
    entries ← drain_log sp.log
    released ← release_lock sp.lock_id (utf8 "proxy_restart") entries
    shutdown_ports ps

  -- `ShutdownAll`, over a snapshot of the ports.
  unfoldable pub shutdown_all : M (Unit {0})
  unfolding shutdown_ports
  shutdown_all w = shutdown_ports w.ports w

  first_error : Err → Err → Err
  first_error none e = e
  first_error (some e) e' = some e

  unfoldable pub wifi_each : Bytes → WifiState → Bytes → List Bytes → M Err
  unfolding first_error
  wifi_each lock_id state band [] = pure none
  wifi_each lock_id state band (s ∷ ss) = do
    e ← wifi_device b lock_id s state band
    e' ← wifi_each lock_id state band ss
    pure (first_error e e')

  unfoldable pub wifi_of :
      Result LockError (ScopedPort × List Bytes) → Bytes → Bool → Bytes → M (Result LockError Err)
  unfolding wifi_each
  wifi_of (err e) lock_id turn_on band = pure (err e)
  wifi_of (ok (sp, chosen)) lock_id turn_on band = do
    e ← wifi_each lock_id (if turn_on then on else off) band chosen
    pure (ok e)

  -- `SetWifi`.
  unfoldable pub set_wifi : Bytes → List Bytes → Bool → Bytes → M (Result LockError Err)
  unfolding wifi_of
  set_wifi lock_id serials turn_on band w =
      wifi_of (lock_devices lock_id serials w.ports) lock_id turn_on band w

  -- `errors.Join`: a nil error adds nothing.
  joined : Err → List Error → List Error
  joined none es = es
  joined (some e) es = e ∷ es

  unfoldable pub cycle_each : ScopedPort → List Bytes → M (List Error)
  unfolding joined
  cycle_each sp [] = pure []
  cycle_each sp (s ∷ ss) = do
    e ← cycle_bluetooth b sp s (utf8 " (requested by the job)") false
    es ← cycle_each sp ss
    pure (joined e es)

  unfoldable pub cycle_of :
      Result LockError (ScopedPort × List Bytes) → M (Result LockError (List Error))
  cycle_of (err e) = pure (err e)
  cycle_of (ok (sp, chosen)) = do es ← cycle_each sp chosen; pure (ok es)

  -- `RestartBluetooth`: the errors of all phones, joined.
  unfoldable pub restart_bluetooth : Bytes → List Bytes → M (Result LockError (List Error))
  restart_bluetooth lock_id serials w = cycle_of (lock_devices lock_id serials w.ports) w
