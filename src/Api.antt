-- ===== src/Api.antt =====
-- The proxy's HTTP API (internal/proxy/http_api.go): what its handlers read of a request and write
-- to a response, and what they call. net/http has split the request, decoded its query and, by
-- encoding/json, its body.
pub mod Params
pub mod Labels
pub mod Keys
pub mod Locks
pub mod Acquire
pub mod Reports
pub mod Serve
pub mod Backed
use sair.Base.{
  ℕ, zero, suc, ◌+◌, ◌-◌, ◌*◌, ◌/◌, ◌%◌, ◌^◌, ◌≤◌, ◌<◌, min, max, ◌≡◌, refl, sym, ap, ◌∙◌, subst,
  ◌≢◌, ◌↔◌, ◌⊎◌, inl, inr, Bool, true, false, not, ◌&&◌, ◌||◌, Option, none, some, List, [], ◌∷◌,
  ◌++◌, map, foldl, append_assoc, append-nil, arith, ltb, leb, ◌==◌, if◌then◌else◌, ltb→lt, lt→ltb,
  leb→le, ==_iff, Bool-cases, Option-cases, is_some, length, take, drop, length-append,
  take-append-drop, length-take, length-drop, take-append_length, drop-append_length, take_all,
  drop_all, any_of, keep_if, All, All-append,
}
use sair.Text.{
  Bytes, join, utf8, str_eq, str_eq_iff, str_eq_refl, cut_prefix, has_prefix, trim_prefix,
  has_suffix, trim_suffix, cut_prefix-append, cut_prefix-eq_some,
}
use sair.Result.{Result}
use sair.Adb.Number.{ℤ}

pub record Label : Type 0 where
  pub serial : Bytes
  pub key : Bytes
  pub value : Bytes

-- A `deviceInfo` of a report, without the Wi-Fi counters that are passed through.
pub record Phone : Type 0 where
  pub serial : Bytes
  pub manufacturer : Bytes
  pub model : Bytes
  pub sdk : ℕ
  pub release_version : ℕ
  pub account_types : List Bytes
  pub last_reboot_ms : ℕ
  pub warning : Bytes

pub record DeviceReport : Type 0 where
  pub source_addr : Bytes
  pub version : Bytes
  pub devices : List Phone

-- A missing header is empty; the query's parameters stand in their order. `report` is the decoded
-- body, `client_left` whether the client had hung up when `Acquire` returned.
pub record Request : Type 0 where
  pub api_key : Bytes
  pub device_token : Bytes
  pub query : List (Bytes × Bytes)
  pub client_ip : Bytes
  pub report : Option DeviceReport
  pub client_left : Bool

-- `url.Values.Get`: the first value, empty if there is none.
unfoldable pub get : Bytes → List (Bytes × Bytes) → Bytes
get name [] = []
get name ((n, v) ∷ q) = if str_eq n name then v else get name q

-- All values of a parameter.
unfoldable pub get_all : Bytes → List (Bytes × Bytes) → List Bytes
get_all name [] = []
get_all name ((n, v) ∷ q) = let rest = get_all name q in if str_eq n name then v ∷ rest else rest

-- The gRPC codes that the API tells apart.
pub data RpcCode : Type 0 where
  resource_exhausted invalid_argument permission_denied unauthenticated : RpcCode
  deadline_exceeded failed_precondition unimplemented not_found other_rpc_code : RpcCode

-- An error of the lock manager, with its text.
pub data Failure : Type 0 where
  unknown_lock_failure : Bytes → Failure
  outside_lock_failure : Bytes → Failure
  rpc_failure : RpcCode → Bytes → Failure
  plain_failure : Bytes → Failure

-- What a job asks for; no serials stand for nil.
pub record Job : Type 0 where
  pub serials : Option (List Bytes)
  pub count : ℤ
  pub priority : ℤ
  pub wifi : Bool
  pub wifi_band : Bytes
  pub same_proxy : Bool
  pub run_attempt : ℤ
  pub texts : List Bytes
  pub labels : List Label
  pub tenant_key : Bytes
  pub client_ip : Bytes

-- A scoped port as the API shows it; times are in nanoseconds.
pub record Handed : Type 0 where
  pub lock_id : Bytes
  pub serials : List Bytes
  pub port : ℕ
  pub device_token : Bytes
  pub device_api_port : ℕ
  pub created : ℕ

pub record Shown : Type 0 where
  pub serial : Bytes
  pub last_reboot_ms : Option ℕ
  pub warning : Bytes

pub data Body : Type 0 where
  error_body : Bytes → Body
  status_body : Bytes → Body
  lock_body : Handed → Body
  state_body : List (Handed × ℕ) → List Shown → Body

pub record Response : Type 0 where
  pub status : ℕ
  pub content : Body

-- The scoped port manager and the device tracker, as the handlers call them.
pub record Manager (S : Type 0) : Type 0 where
  pub acquire_job : Job → S → Result Failure Handed × S
  pub end_lock : Bytes → Bytes → S → Bool × S
  pub label_lock : Bytes → List Label → S → Option Failure × S
  pub switch_wifi : Bytes → List Bytes → Bool → Bytes → S → Option Failure × S
  pub cycle_radios : Bytes → List Bytes → S → Option Failure × S
  pub token_valid : Bytes → Bytes → S → Bool
  pub open_ports : S → List Handed
  pub tracked : S → List Phone
  pub report_devices : DeviceReport → S → S

abbrev pub failed : ℕ → Bytes → Response
failed code text = record { status = code; content = error_body text }

-- What `NewHTTPApi` is given, with `strconv.Quote`. `check_key` is the orchestrator's answer at a time,
-- `none` an error; without a router there is nobody to ask.
pub record Config : Type 0 where
  pub owner_key : Bytes
  pub guest_keys : List Bytes
  pub check_key : Option (ℕ → Bytes → List Bytes → Option Bool)
  pub quote : Bytes → Bytes

-- `keyAnswer`.
pub record KeyAnswer : Type 0 where
  pub accepted : Bool
  pub until : ℕ

abbrev pub KeyCache : Type 0
KeyCache = List (Bytes × KeyAnswer)

pub record ApiState (S : Type 0) : Type 0 where
  pub keys : KeyCache
  pub manager : S
