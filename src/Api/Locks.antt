-- ===== src/Api/Locks.antt =====
-- The requests about a held lock (internal/proxy/http_api.go): release, labels, and the mid-job calls
-- /wifi and /bluetooth, which a lock's device token may make too.
pub mod Separators
use sair.Base.{
  ℕ, zero, suc, ◌+◌, ◌-◌, ◌*◌, ◌/◌, ◌%◌, ◌^◌, ◌≤◌, ◌<◌, min, max, ◌≡◌, refl, sym, ap, ◌∙◌, subst,
  ◌≢◌, ◌↔◌, ◌⊎◌, inl, inr, Bool, true, false, not, ◌&&◌, ◌||◌, Option, none, some, List, [], ◌∷◌,
  ◌++◌, map, foldl, append_assoc, append-nil, arith, ltb, leb, ◌==◌, if◌then◌else◌, ltb→lt, lt→ltb,
  leb→le, ==_iff, Bool-cases, Option-cases, is_some, length, take, drop, length-append,
  take-append-drop, length-take, length-drop, take-append_length, drop-append_length, take_all,
  drop_all, any_of, keep_if, All, All-append,
}
use sair.Text.{
  Bytes, join, utf8, str_eq, str_eq_iff, str_eq_refl, cut_prefix, has_prefix, trim_prefix,
  has_suffix, trim_suffix, cut_prefix-append, cut_prefix-eq_some,
}
use sair.Lines.{trim_space}
use sair.Result.{Result, ok, err}
use sair.Api.{
  Label, Request, get, get_all, RpcCode, resource_exhausted, invalid_argument, permission_denied,
  unauthenticated, deadline_exceeded, failed_precondition, unimplemented, not_found, other_rpc_code,
  Failure, unknown_lock_failure, outside_lock_failure, rpc_failure, plain_failure, status_body,
  Response, Manager, failed, Config, ApiState,
}
use sair.Api.Params.{blank, parse_wifi_state, valid_wifi_band, listed}
use sair.Api.Labels.{LabelError, too_many, malformed, too_long, parse_labels}
use sair.Api.Keys.{require_auth}

-- `httpStatusForAcquireError`.
unfoldable pub status_of_code : RpcCode → ℕ
status_of_code resource_exhausted = 429
status_of_code invalid_argument = 400
status_of_code permission_denied = 403
status_of_code unauthenticated = 403
status_of_code deadline_exceeded = 504
status_of_code failed_precondition = 501
status_of_code unimplemented = 501
status_of_code not_found = 404
status_of_code other_rpc_code = 500

unfoldable pub http_status_for_acquire_error : Failure → Response
unfolding status_of_code
http_status_for_acquire_error (unknown_lock_failure text) = failed 500 text
http_status_for_acquire_error (outside_lock_failure text) = failed 500 text
http_status_for_acquire_error (rpc_failure code text) = failed (status_of_code code) text
http_status_for_acquire_error (plain_failure text) = failed 500 text

abbrev pub answered : Bytes → Response
answered text = record { status = 200; content = status_body text }

abbrev pub refused_key : Response
refused_key = failed 401 (utf8 "invalid or missing x-api-key header")

-- `writeLockResult`, which /label answers like too.
unfoldable pub write_lock_result : Option Failure → Response
unfolding http_status_for_acquire_error
write_lock_result none = answered (utf8 "ok")
write_lock_result (some (unknown_lock_failure text)) = failed 404 text
write_lock_result (some (outside_lock_failure text)) = failed 403 text
write_lock_result (some (rpc_failure code text)) =
    http_status_for_acquire_error (rpc_failure code text)
write_lock_result (some (plain_failure text)) = http_status_for_acquire_error (plain_failure text)

-- The text of a label's error, for `strconv.Quote`.
label_error_text : (Bytes → Bytes) → LabelError → Bytes
label_error_text quote too_many = utf8 "at most 32 labels per request"
label_error_text quote (malformed p) =
    utf8 "label " ++ (quote p ++ utf8 " must be k=v or SERIAL:k=v")
label_error_text quote (too_long p) =
    utf8 "label " ++ (quote p ++ utf8 ": key is at most 64 bytes, value at most 256")

unfoldable pub read_labels : (Bytes → Bytes) → List (Bytes × Bytes) → Result Response (List Label)
unfolding label_error_text
read_labels quote q = elim (parse_labels (get_all (utf8 "label") q)) [
  | err e ↦ err (failed 400 (label_error_text quote e))
  | ok ls ↦ ok ls
]

some_label : List Label → Result Response (List Label)
some_label [] = err (failed 400 (utf8 "label parameter required"))
some_label (l ∷ ls) = ok (l ∷ ls)

-- A lock and the phones of it that a mid-job request names.
pub record LockRequest : Type 0 where
  pub lock_id : Bytes
  pub serials : List Bytes

-- What a mid-job request is allowed by: the key, else the token, else nothing.
unfoldable pub admitted : Bool → Bool → Bytes → Bytes → Result Response LockRequest
admitted by_key by_token lock_id serial =
    if not by_key && not by_token
    then err (failed 401 (utf8 "invalid or missing x-api-key or x-device-token header"))
    else if not by_key && blank (trim_space serial)
    then err (failed 400 (utf8 "serial parameter required with x-device-token"))
    else ok (record { lock_id = lock_id; serials = listed serial })

unfoldable pub wanted_wifi : List (Bytes × Bytes) → Result Response (Bool × Bytes)
wanted_wifi q =
    let state = get (utf8 "state") q in
    let band = get (utf8 "band") q in
    elim (parse_wifi_state state false) [
      | none ↦ err (failed 400 (utf8 "state parameter must be on or off"))
      | some on ↦
          if blank state
          then err (failed 400 (utf8 "state parameter must be on or off"))
          else if not (valid_wifi_band band) || (not (blank band) && not on)
          then err (failed 400 (utf8 "band parameter must be 2.4, 5 or 6, with state on"))
          else ok (on, band)
    ]

module _ {S : Type 0} (c : Config) (mgr : Manager S) where
  -- An answer, and what the call left behind.
  done : ApiState S → Option Failure × S → Option Response × ApiState S
  done s (failure, m) = (some (write_lock_result failure), record s { manager = m })

  closed : ApiState S → Bool × S → Option Response × ApiState S
  closed s (true, m) = (some (answered (utf8 "released")), record s { manager = m })
  closed s (false, m) = (some (failed 404 (utf8 "unknown lock_id")), record s { manager = m })

  abbrev pub answer : Response → ApiState S → Option Response × ApiState S
  answer r s = (some r, s)

  -- A handler behind `requireAuth`.
  unfoldable pub with_key :
      ℕ
      → Request
      → (ApiState S → Option Response × ApiState S)
      → ApiState S
      → Option Response × ApiState S
  with_key now r handle s =
      let (known, keys) = require_auth c now r s.keys in
      let s' : ApiState S = record s { keys = keys } in
      if known then handle s' else answer refused_key s'

  unfoldable pub release_handler : Request → ApiState S → Option Response × ApiState S
  unfolding closed
  release_handler r s =
      let lock_id = get (utf8 "lock_id") r.query in
      if blank lock_id
      then answer (failed 400 (utf8 "lock_id parameter required")) s
      else closed s (mgr.end_lock lock_id (get (utf8 "status") r.query) s.manager)

  label_with : Bytes → Result Response (List Label) → ApiState S → Option Response × ApiState S
  unfolding done some_label
  label_with lock_id (err e) s = answer e s
  label_with lock_id (ok ls) s = elim (some_label ls) [
    | err e ↦ answer e s
    | ok given ↦ done s (mgr.label_lock lock_id given s.manager)
  ]

  unfoldable pub label_handler : Request → ApiState S → Option Response × ApiState S
  unfolding label_with
  label_handler r s =
      let lock_id = get (utf8 "lock_id") r.query in
      if blank lock_id
      then answer (failed 400 (utf8 "lock_id parameter required")) s
      else label_with lock_id (read_labels c.quote r.query) s

  -- `lockRequest`.
  unfoldable pub lock_request : ℕ → Request → ApiState S → Result Response LockRequest × ApiState S
  lock_request now r s =
      let lock_id = get (utf8 "lock_id") r.query in
      if blank lock_id
      then (err (failed 400 (utf8 "lock_id parameter required")), s)
      else let (by_key, keys) = require_auth c now r s.keys in
        (
          admitted by_key (mgr.token_valid lock_id r.device_token s.manager) lock_id
              (get (utf8 "serial") r.query),
          record s { keys = keys },
        )

  wifi_with :
      Result Response LockRequest
      → Result Response (Bool × Bytes)
      → ApiState S
      → Option Response × ApiState S
  unfolding done
  wifi_with (err e) w s = answer e s
  wifi_with (ok q) (err e) s = answer e s
  wifi_with (ok q) (ok (on, band)) s =
      done s (mgr.switch_wifi q.lock_id q.serials on band s.manager)

  unfoldable pub handle_wifi : ℕ → Request → ApiState S → Option Response × ApiState S
  unfolding wifi_with
  handle_wifi now r s = let (q, s') = lock_request now r s in wifi_with q (wanted_wifi r.query) s'

  bluetooth_with : Result Response LockRequest → Bool → ApiState S → Option Response × ApiState S
  unfolding done
  bluetooth_with (err e) restart s = answer e s
  bluetooth_with (ok q) false s = answer (failed 400 (utf8 "action parameter must be restart")) s
  bluetooth_with (ok q) true s = done s (mgr.cycle_radios q.lock_id q.serials s.manager)

  unfoldable pub handle_bluetooth : ℕ → Request → ApiState S → Option Response × ApiState S
  unfolding bluetooth_with
  handle_bluetooth now r s =
      let (q, s') = lock_request now r s in
      bluetooth_with q (str_eq (get (utf8 "action") r.query) (utf8 "restart")) s'
