-- ===== src/Api/Backed.antt =====
-- The scoped ports behind the API: `ScopedPortManager` (internal/proxy/scoped_port.go) as the manager
-- that the handlers of internal/proxy/http_api.go call. The orchestrator's refusals and labels, the
-- texts of joined errors and the device tracker are arguments.
pub mod GivenBack
use sair.Base.{
  ℕ, zero, suc, ◌+◌, ◌-◌, ◌*◌, ◌/◌, ◌%◌, ◌^◌, ◌≤◌, ◌<◌, min, max, ◌≡◌, refl, sym, ap, ◌∙◌, subst,
  ◌≢◌, ◌↔◌, ◌⊎◌, inl, inr, Bool, true, false, not, ◌&&◌, ◌||◌, Option, none, some, List, [], ◌∷◌,
  ◌++◌, map, foldl, append_assoc, append-nil, arith, ltb, leb, ◌==◌, if◌then◌else◌, ltb→lt, lt→ltb,
  leb→le, ==_iff, Bool-cases, Option-cases, is_some, length, take, drop, length-append,
  take-append-drop, length-take, length-drop, take-append_length, drop-append_length, take_all,
  drop_all, any_of, keep_if, All, All-append,
}
use sair.Text.{
  Bytes, join, utf8, str_eq, str_eq_iff, str_eq_refl, cut_prefix, has_prefix, trim_prefix,
  has_suffix, trim_suffix, cut_prefix-append, cut_prefix-eq_some,
}
use sair.Result.{Result, ok, err}
use sair.LockLog.Entries.{Entry}
use sair.Api.{
  Label, Phone, DeviceReport, Request, RpcCode, deadline_exceeded, failed_precondition,
  unimplemented, not_found, other_rpc_code, Failure, unknown_lock_failure, outside_lock_failure,
  rpc_failure, plain_failure, Job, Handed, Response, Manager, Config, ApiState,
}
use sair.Api.Locks.{with_key}
use sair.Api.Keys.{require_auth}
use sair.Api.Acquire.{read_job, handed_over, acquire_handler}
use sair.Api.Serve.{handle_acquire}
use sair.Ports.World.{
  Code, ok_code, other_code, Error, Err, Granted, Bench, ScopedPort, World, M, ◌>>=◌, ◌>>◌, pure,
  ask, find_port,
}
use sair.Ports.Manager.{
  remove_port, drain_log, LockError, unknown_lock, not_in_lock, device_token_valid, add_labels,
  CreateError, already_exists, listen_failed, random_failed, AcquireError, refused, no_port,
  wake_failure, wifi_failure, close_scoped_port, release, set_wifi, restart_bluetooth,
}
use sair.Ports.Acquire
use sair.Ports.Closed.{closed_ports, close_scoped_port-closes}

rpc_code : Code → RpcCode
rpc_code Code.ok_code = other_rpc_code
rpc_code Code.not_found = not_found
rpc_code Code.unimplemented = unimplemented
rpc_code Code.failed_precondition = failed_precondition
rpc_code Code.deadline_exceeded = deadline_exceeded
rpc_code Code.other_code = other_rpc_code

failure_of : Err → Option Failure
unfolding rpc_code
failure_of none = none
failure_of (some e) = some (rpc_failure (rpc_code e.code) e.message)

lock_failure : LockError → Failure
lock_failure unknown_lock = unknown_lock_failure (utf8 "unknown lock_id")
lock_failure (not_in_lock s) = outside_lock_failure (utf8 "serial is not part of this lock: " ++ s)

wifi_answer : Result LockError Err → Option Failure
unfolding lock_failure failure_of
wifi_answer (err e) = some (lock_failure e)
wifi_answer (ok e) = failure_of e

or_plain : Option Failure → Failure
or_plain none = plain_failure []
or_plain (some f) = f

-- What a handler sees of a scoped port.
handed : (ScopedPort → ℕ) → ScopedPort → Handed
handed created sp = record {
  lock_id = sp.lock_id;
  serials = sp.serials;
  port = sp.port;
  device_token = sp.device_token;
  device_api_port = sp.device_api_port;
  created = created sp;
}

handed_all : (ScopedPort → ℕ) → List ScopedPort → List Handed
unfolding handed
handed_all created [] = []
handed_all created (sp ∷ ps) = handed created sp ∷ handed_all created ps

serials_named : List Label → List Bytes
serials_named [] = []
serials_named (l ∷ ls) = l.serial ∷ serials_named ls

-- What is not the scoped ports'.
pub record Others : Type 0 where
  pub refusal : World → Failure
  pub create_text : CreateError → Bytes
  pub joined : List Error → Failure
  pub forward_labels : Bytes → List Label → World → Option Failure
  pub created : ScopedPort → ℕ
  pub tracked : World → List Phone
  pub report : DeviceReport → World → World
  pub api_port : ℕ

module _ (b : Bench) (o : Others) where
  acquire_failure : AcquireError → World → Failure
  unfolding wifi_answer or_plain failure_of
  acquire_failure refused w = o.refusal w
  acquire_failure (no_port e) w = plain_failure (o.create_text e)
  acquire_failure (wake_failure e) w = or_plain (failure_of e)
  acquire_failure (wifi_failure r) w = or_plain (wifi_answer r)

  unfoldable pub acquired : Result AcquireError ScopedPort × World → Result Failure Handed × World
  unfolding acquire_failure handed
  acquired (err e, w) = (err (acquire_failure e w), w)
  acquired (ok sp, w) = (ok (handed o.created sp), w)

  joined_failure : List Error → Option Failure
  joined_failure [] = none
  joined_failure (e ∷ es) = some (o.joined (e ∷ es))

  radio_answer : Result LockError (List Error) → Option Failure
  unfolding lock_failure joined_failure
  radio_answer (err e) = some (lock_failure e)
  radio_answer (ok es) = joined_failure es

  label_answer : Bytes → List Label → World → Result LockError (Unit {0}) → Option Failure
  unfolding lock_failure
  label_answer lock_id ls w (err e) = some (lock_failure e)
  label_answer lock_id ls w (ok u) = o.forward_labels lock_id ls w

  unfoldable pub port_manager : Manager World
  unfolding acquired radio_answer label_answer wifi_answer handed_all serials_named
  port_manager = record {
    acquire_job = λ job w. acquired (Acquire.acquire b o.api_port job.wifi job.wifi_band w);
    end_lock = λ lock_id status w. release b lock_id status w;
    label_lock = λ lock_id ls w.
        (label_answer lock_id ls w (add_labels lock_id (serials_named ls) w.ports), w);
    switch_wifi = λ lock_id serials on band w.
        let (r, w') = set_wifi b lock_id serials on band w in (wifi_answer r, w');
    cycle_radios = λ lock_id serials w.
        let (r, w') = restart_bluetooth b lock_id serials w in (radio_answer r, w');
    token_valid = λ lock_id token w. device_token_valid lock_id token w.ports;
    open_ports = λ w. handed_all o.created w.ports;
    tracked = λ w. o.tracked w;
    report_devices = λ d w. o.report d w;
  }
