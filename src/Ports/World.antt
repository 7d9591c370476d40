-- ===== src/Ports/World.antt =====
-- What the scoped port manager (internal/proxy/scoped_port.go) keeps and calls. Its function
-- fields (setWifi, wake, …) are the operations of a `Bench`, whose answers may depend on all calls
-- made so far; the calls made are the trace, the latest first.
use sair.Base.{
  ℕ, Bool, false, not, ◌||◌, Option, none, some, List, [], ◌∷◌, ◌==◌, if◌then◌else◌, any_of,
  keep_if,
}
use sair.Text.{Bytes, str_eq}
use sair.LockLog.Entries.{Entry}
use sair.LockLog.{LockLog, log_entry}

-- The gRPC codes that the manager tells apart.
pub data Code : Type 0 where
  ok_code not_found unimplemented failed_precondition deadline_exceeded other_code : Code

pub record Error : Type 0 where
  pub code : Code
  pub message : Bytes

-- An error value: `none` is nil.
abbrev pub Err : Type 0
Err = Option Error

-- `status.Code`.
abbrev pub code_of : Err → Code
code_of none = ok_code
code_of (some e) = e.code

-- `errText`.
abbrev pub err_text : Err → Bytes
err_text none = []
err_text (some e) = e.message

pub data WifiState : Type 0 where
  on off reset : WifiState

pub data EventKind : Type 0 where
  acquire_event wake_event wifi_on_event wifi_off_event wifi_reset_event : EventKind
  reboot_event package_reset_event : EventKind

-- A bench event, without its measured times.
pub record BenchEvent : Type 0 where
  pub kind : EventKind
  pub serial : Bytes
  pub lock_id : Bytes
  pub outcome : Bytes
  pub detail : Bytes

abbrev pub Snapshot : Type 0
Snapshot = Option (List Bytes)

pub data Call : Type 0 where
  set_wifi_call : Bytes → WifiState → Bytes → Call
  remove_reverse_call : Bytes → Call
  add_reverse_call : Bytes → ℕ → Call
  reset_packages_call : Bytes → Snapshot → Call
  clear_ui_automation_call : Bytes → Call
  wake_call : Bytes → Call
  reset_bluetooth_call : Bytes → Call
  hold_updates_call : Bytes → Bool → Call
  reboot_if_stale_call : Bytes → Call
  reboot_if_wedged_call : Bytes → Bytes → Call
  recent_source_log_call : Bytes → Call
  wait_for_source_call : Bytes → Call
  event_call : BenchEvent → Call
  acquire_lock_call : Call
  release_lock_call : Bytes → Bytes → List Entry → Call

abbrev pub Trace : Type 0
Trace = List Call

-- What the packages call answers, besides its error: what was removed, and the suggestions with it.
pub record Cleaned : Type 0 where
  pub removed : List Bytes
  pub suggestions : List Bytes
  pub error : Err

-- Whether the phone was rebooted; the uptime as it is printed.
pub record Rebooted : Type 0 where
  pub rebooted : Bool
  pub uptime : Bytes
  pub error : Err

pub record Cleared : Type 0 where
  pub how : Bytes
  pub error : Err

pub record Granted : Type 0 where
  pub lock_id : Bytes
  pub serials : List Bytes
  pub remote_devices : List Bytes

-- The clock, `net.Listen`, `rand.Read` and the process log belong to the bench too.
pub record Bench : Type 0 where
  pub set_wifi : Trace → Bytes → WifiState → Bytes → Err
  pub remove_reverse : Trace → Bytes → Err
  pub add_reverse : Trace → Bytes → ℕ → Err
  pub reset_packages : Trace → Bytes → Snapshot → Cleaned
  pub clear_ui_automation : Trace → Bytes → Cleared
  pub wake : Trace → Bytes → Err
  pub reset_bluetooth : Trace → Bytes → Err
  pub hold_updates : Trace → Bytes → Bool → Err
  pub reboot_if_stale : Trace → Bytes → Rebooted
  pub reboot_if_wedged : Trace → Bytes → Bytes → Rebooted
  pub recent_source_log : Trace → Bytes → Option (List Bytes)
  pub recent_lines : Trace → List Bytes → List Bytes
  pub acquire_lock : Trace → Option Granted
  pub release_lock : Trace → Bytes → Bytes → Option Bool
  pub listen : Trace → Option ℕ
  pub random_token : Trace → Option Bytes
  pub now : Trace → ℕ
  pub elapsed : Trace → Bytes

-- A scoped port; its log is a place in the store of logs (`none` is the nil log of the stand-in
-- for a lock that this proxy only relayed phones for).
pub record ScopedPort : Type 0 where
  pub lock_id : Bytes
  pub serials : List Bytes
  pub port : ℕ
  pub log : Option ℕ
  pub remote_devices : List Bytes
  pub device_token : Bytes
  pub device_api_port : ℕ
  pub relayed : Bool

-- One lock's relay of one phone, and the packages that the phone had before it.
pub record Relay : Type 0 where
  pub serial : Bytes
  pub lock_id : Bytes
  pub snapshot : Snapshot

pub record World : Type 0 where
  pub ports : List ScopedPort
  pub logs : ℕ → LockLog
  pub next_log : ℕ
  pub bt_fresh : List Bytes
  pub relays : List Relay
  pub trace : Trace

abbrev pub M : Type 0 → Type 0
M A = World → A × World

-- Shut, so that a `do` block stays as it is written; so are `pure` and `ask`.
infixl 5 ◌>>=◌ ◌>>◌
unfoldable pub ◌>>=◌ : {A B : Type 0} → M A → (A → M B) → M B
◌>>=◌ m f w = f (m w).0 (m w).1

abbrev pub ◌>>◌ : {A B : Type 0} → M A → M B → M B
m >> k = m >>= λ _. k

unfoldable pub pure : {A : Type 0} → A → M A
pure a w = (a, w)

abbrev pub skip : M (Unit {0})
skip = pure tt

-- One call of the bench.
unfoldable pub ask : {A : Type 0} → Call → (Trace → A) → M A
ask c f w = (f w.trace, record w { trace = c ∷ w.trace })

abbrev pub has : Bytes → List Bytes → Bool
has s xs = any_of (str_eq s) xs

abbrev pub without : Bytes → List Bytes → List Bytes
without s xs = keep_if (λ x. not (str_eq s x)) xs

update : (ℕ → LockLog) → ℕ → LockLog → ℕ → LockLog
update logs n l k = if k == n then l else logs k

-- `sp.Log.Record`; a nil log takes nothing.
unfoldable pub record_in : Option ℕ → Entry → M (Unit {0})
unfolding update
record_in none e w = (tt, w)
record_in (some n) e w = (tt, record w { logs = update w.logs n (log_entry (w.logs n) e) })

unfoldable pub find_port : Bytes → List ScopedPort → Option ScopedPort
find_port id [] = none
find_port id (p ∷ ps) = if str_eq p.lock_id id then some p else find_port id ps

unfoldable pub held_by : Bytes → List ScopedPort → Bool
held_by serial [] = false
held_by serial (p ∷ ps) = has serial p.serials || held_by serial ps
