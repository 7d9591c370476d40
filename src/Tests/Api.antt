-- ===== src/Tests/Api.antt =====
-- Runs of the theorems about the HTTP API, and about the acquire behind it, at concrete inputs.
use sair.Base.{ℕ, ◌+◌, ◌≤◌, ◌≡◌, refl, ◌↔◌, true, false, ◌&&◌, none, some, List, [], ◌∷◌, length}
use sair.Text.{Bytes, utf8, str_eq, cut_prefix}
use sair.Lines.{atoi, cut}
use sair.Devices.Tracker.{lookup, store}
use sair.Result.{ok}
use sair.Adb.Number.{pos, negsuc}
use sair.Api.{Label, Request, get, get_all, Failure, Job, Manager, Config, ApiState}
use sair.Api.Params.{parse_int32, parse_wifi_state, valid_wifi_band}
use sair.Api.Labels.{
  cut_last, split_key, checked_label, split_label, parse_label, label_loop, max_labels,
  parse_labels,
}
use sair.Api.Labels.RoundTrip.{AllWritable, print_labels, parse_labels_iff}
use sair.Api.Keys.{
  require_auth, is_listed, check_asking, check_cached, recall, remember, tenant_key,
}
use sair.Api.Keys.Fresh.{IsVouched, visits, require_auth-IsVouched}
use sair.Api.Locks.{read_labels}
use sair.Api.Acquire.{
  read_serials, checked_count, read_count, read_number, read_wifi, read_band, read_same_proxy,
  read_job, acquire_handler,
}
use sair.Api.Acquire.Bounds.{IsSound, read_job-IsSound}
use sair.Api.Serve.{to_wifi, serve}
use sair.Api.Serve.Refused.{takes_token, IsRefused, serve-IsRefused}
use sair.Api.Backed.{Others, port_manager}
use sair.Api.Backed.GivenBack.{IsGone, acquire_handler-IsGone}
use sair.Ports.World.{Granted, Bench, World, find_port}
use sair.Ports.Acquire.{acquire}
use sair.Ports.AllOrNothing.{AllOrNothing, acquire-AllOrNothing}
use sair.LockLog.{empty}
use sair.Tests.Benches.{good_bench}

-- The orchestrator vouches for one key besides the owner's.
abbrev lab : Config
lab = record {
  owner_key = utf8 "owner";
  guest_keys = utf8 "guest" ∷ [];
  check_key = some (λ now key guests. some (str_eq key (utf8 "runner")));
  quote = λ s. s;
}

abbrev asked_by : Bytes → List (Bytes × Bytes) → Request
asked_by key query = record {
  api_key = key;
  device_token = utf8 "token";
  query = query;
  client_ip = utf8 "10.0.0.7";
  report = none;
  client_left = true;
}

runner_is_let_in :
    (require_auth lab 30
      (asked_by (utf8 "runner") [])
      (visits lab ((5, asked_by (utf8 "runner") []) ∷ []) 5 []).1).0
    ≡ true
unfolding visits require_auth is_listed check_asking check_cached recall remember lookup store
    str_eq
runner_is_let_in = refl

require_auth-IsVouched_example : IsVouched lab 30 (utf8 "runner")
unfolding visits
require_auth-IsVouched_example =
    require_auth-IsVouched lab ((5, asked_by (utf8 "runner") []) ∷ []) 5 20
      (asked_by (utf8 "runner") []) runner_is_let_in

abbrev two_labels : List Label
two_labels =
    record { serial = []; key = utf8 "role"; value = utf8 "a=b" }
    ∷ record { serial = utf8 "10.0.0.3:5555"; key = utf8 "role"; value = utf8 "camera" }
    ∷ []

parse_labels_iff_example :
    (parse_labels (utf8 "role=a=b" ∷ utf8 "10.0.0.3:5555:role=camera" ∷ []) ≡ ok two_labels) ↔ (
      (utf8 "role=a=b" ∷ utf8 "10.0.0.3:5555:role=camera" ∷ [] ≡ print_labels two_labels)
      × AllWritable two_labels
      × (length (utf8 "role=a=b" ∷ utf8 "10.0.0.3:5555:role=camera" ∷ []) ≤ max_labels))
parse_labels_iff_example =
    parse_labels_iff (utf8 "role=a=b" ∷ utf8 "10.0.0.3:5555:role=camera" ∷ []) two_labels

-- A manager that counts the calls that change something.
abbrev counting : Manager ℕ
counting = record {
  acquire_job = λ job n. (
    ok (record {
      lock_id = utf8 "L1";
      serials = [];
      port = 5037;
      device_token = [];
      device_api_port = 0;
      created = 0;
    }),
    n + 1,
  );
  end_lock = λ id status n. (true, n + 1);
  label_lock = λ id ls n. (none, n + 1);
  switch_wifi = λ id serials on band n. (none, n + 1);
  cycle_radios = λ id serials n. (none, n + 1);
  token_valid = λ id token n. str_eq token (utf8 "token");
  open_ports = λ n. [];
  tracked = λ n. [];
  report_devices = λ d n. n + 1;
}

abbrev at_start : ApiState ℕ
at_start = record { keys = []; manager = 0 }

abbrev wifi_off_all : List (Bytes × Bytes)
wifi_off_all =
    (utf8 "lock_id", utf8 "L1") ∷ (utf8 "serial", utf8 ",") ∷ (utf8 "state", utf8 "off") ∷ []

abbrev without_token : Request
without_token = record (asked_by (utf8 "stranger") wifi_off_all) { device_token = [] }

stranger_is_refused : (require_auth lab 9 without_token []).0 ≡ false
unfolding require_auth is_listed check_asking check_cached recall remember lookup store str_eq
stranger_is_refused = refl

token_is_wrong :
    (takes_token to_wifi
      && counting.token_valid
          (get (utf8 "lock_id") without_token.query)
          without_token.device_token
          0)
    ≡ false
unfolding takes_token str_eq get
token_is_wrong = refl

serve-IsRefused_example :
    IsRefused lab counting at_start (serve lab counting to_wifi 9 without_token at_start)
serve-IsRefused_example =
    serve-IsRefused lab counting to_wifi 9 without_token at_start stranger_is_refused token_is_wrong

abbrev by_token : Request
by_token = asked_by (utf8 "stranger") wifi_off_all

abbrev small_job : Request
small_job = asked_by (utf8 "runner") (
    (utf8 "count", utf8 "2")
    ∷ (utf8 "priority", utf8 "-1")
    ∷ (utf8 "wifi_band", utf8 "5")
    ∷ (utf8 "label", utf8 "role=camera")
    ∷ [])

abbrev small : Job
small = record {
  serials = none;
  count = pos 2;
  priority = negsuc 0;
  wifi = true;
  wifi_band = utf8 "5";
  same_proxy = false;
  run_attempt = pos 0;
  texts = [] ∷ [] ∷ [] ∷ [] ∷ [] ∷ [] ∷ [] ∷ [];
  labels = record { serial = []; key = utf8 "role"; value = utf8 "camera" } ∷ [];
  tenant_key = utf8 "runner";
  client_ip = utf8 "10.0.0.7";
}

small_is_read : read_job lab small_job ≡ ok small
unfolding read_job read_serials get str_eq read_count parse_int32 atoi read_number read_wifi
    parse_wifi_state read_band valid_wifi_band read_same_proxy read_labels parse_labels get_all
    label_loop parse_label checked_count tenant_key checked_label cut_last split_key split_label cut
    cut_prefix
small_is_read = refl

read_job-IsSound_example : IsSound small
read_job-IsSound_example = read_job-IsSound lab small_job small_is_read

abbrev one_phone : Granted
one_phone = record { lock_id = utf8 "L1"; serials = utf8 "A1" ∷ []; remote_devices = [] }

abbrev granting : Bench
granting = record good_bench { acquire_lock = λ h. some one_phone }

abbrev no_locks : World
no_locks = record {
  ports = [];
  logs = λ n. empty;
  next_log = 0;
  bt_fresh = [];
  relays = [];
  trace = [];
}

two_names : str_eq (utf8 "L1") (utf8 "L2") ≡ false
unfolding str_eq
two_names = refl

acquire-AllOrNothing_example :
    let r = acquire granting 0 true [] no_locks in
    (find_port (utf8 "L2") r.1.ports ≡ find_port (utf8 "L2") []) × AllOrNothing (utf8 "L1") [] r
acquire-AllOrNothing_example =
    acquire-AllOrNothing granting 0 true [] one_phone no_locks (utf8 "L2") refl two_names

abbrev silent : Others
silent = record {
  refusal = λ w. Failure.plain_failure [];
  create_text = λ e. [];
  joined = λ es. Failure.plain_failure [];
  forward_labels = λ id ls w. none;
  created = λ sp. 0;
  tracked = λ w. [];
  report = λ d w. w;
  api_port = 0;
}

acquire_handler-IsGone_example :
    let after =
      (acquire_handler
        (port_manager granting silent)
        lab
        small_job
        (record { keys = []; manager = no_locks })).1.manager.ports in
    (find_port (utf8 "L2") after ≡ find_port (utf8 "L2") []) × IsGone (utf8 "L1") [] after
acquire_handler-IsGone_example =
    acquire_handler-IsGone granting silent lab small_job (record { keys = []; manager = no_locks })
      small one_phone (utf8 "L2") small_is_read refl refl two_names
