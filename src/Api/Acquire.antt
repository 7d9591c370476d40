-- ===== src/Api/Acquire.antt =====
-- `handleAcquire` (internal/proxy/http_api.go): the parameters of a job, checked in the source's
-- order, and the lock handed over or, when the client has left, given back.
pub mod Bounds
use sair.Base.{
  ℕ, zero, suc, ◌+◌, ◌-◌, ◌*◌, ◌/◌, ◌%◌, ◌^◌, ◌≤◌, ◌<◌, min, max, ◌≡◌, refl, sym, ap, ◌∙◌, subst,
  ◌≢◌, ◌↔◌, ◌⊎◌, inl, inr, Bool, true, false, not, ◌&&◌, ◌||◌, Option, none, some, List, [], ◌∷◌,
  ◌++◌, map, foldl, append_assoc, append-nil, arith, ltb, leb, ◌==◌, if◌then◌else◌, ltb→lt, lt→ltb,
  leb→le, ==_iff, Bool-cases, Option-cases, is_some, length, take, drop, length-append,
  take-append-drop, length-take, length-drop, take-append_length, drop-append_length, take_all,
  drop_all, any_of, keep_if, All, All-append,
}
use sair.Text.{
  Bytes, join, utf8, str_eq, str_eq_iff, str_eq_refl, cut_prefix, has_prefix, trim_prefix,
  has_suffix, trim_suffix, cut_prefix-append, cut_prefix-eq_some,
}
use sair.Lines.{set_of}
use sair.Result.{Result, ok, err, ◌>>=◌}
use sair.Adb.Number.{ℤ, pos, negsuc}
use sair.Api.{
  Label, Request, get, Failure, Job, Handed, lock_body, Response, Manager, failed, Config, ApiState,
}
use sair.Api.Params.{parse_int32, parse_bool, blank, parse_wifi_state, valid_wifi_band, listed}
use sair.Api.Keys.{tenant_key}
use sair.Api.Locks.{http_status_for_acquire_error, read_labels}

abbrev pub Query : Type 0
Query = List (Bytes × Bytes)

-- The requested serials are a set; without the parameter it is nil.
unfoldable pub read_serials : Bytes → Result Response (Option (List Bytes))
read_serials v =
    if blank v
    then ok none
    else if is_empty (listed v)
    then err (failed 400 (utf8 "serial parameter must contain at least one non-empty serial"))
    else ok (some (set_of (listed v)))
  where
    is_empty : List Bytes → Bool
    is_empty [] = true
    is_empty (s ∷ ss) = false

unfoldable pub checked_count : Option ℤ → Bool → Result Response ℤ
checked_count none named = err (failed 400 (utf8 "count parameter must be a non-negative integer"))
checked_count (some (negsuc n)) named =
    err (failed 400 (utf8 "count parameter must be a non-negative integer"))
checked_count (some (pos n)) named =
    if ltb 0 n && named
    then err (failed 400 (utf8 "count and serial parameters are mutually exclusive"))
    else ok (pos n)

unfoldable pub read_count : Bytes → Bool → Result Response ℤ
unfolding checked_count
read_count v named = if blank v then ok (pos 0) else checked_count (parse_int32 v) named

-- An optional 32-bit number, 0 if it is not there.
unfoldable pub read_number : Bytes → Bytes → Result Response ℤ
read_number v problem =
    if blank v
    then ok (pos 0)
    else elim (parse_int32 v) [ none ↦ err (failed 400 problem) | some n ↦ ok n ]

unfoldable pub read_wifi : Query → Result Response Bool
read_wifi q = elim (parse_wifi_state (get (utf8 "wifi") q) true) [
  | none ↦ err (failed 400 (utf8 "wifi parameter must be on or off"))
  | some on ↦ ok on
]

unfoldable pub read_band : Bytes → Bool → Result Response Bytes
read_band band wifi =
    if not (valid_wifi_band band) || (not (blank band) && not wifi)
    then err (failed 400 (utf8 "wifi_band parameter must be 2.4, 5 or 6, with wifi on"))
    else ok band

unfoldable pub read_same_proxy : Bytes → Result Response Bool
read_same_proxy v = if blank v then ok false else elim (parse_bool v) [
  | none ↦ err (failed 400 (utf8 "same_proxy parameter must be true or false"))
  | some b ↦ ok b
]

-- The texts of the job that are passed on as they are.
abbrev job_texts : Query → List Bytes
job_texts q =
    get (utf8 "repo") q
    ∷ get (utf8 "run_url") q
    ∷ get (utf8 "job") q
    ∷ get (utf8 "sha") q
    ∷ get (utf8 "branch") q
    ∷ get (utf8 "workflow") q
    ∷ get (utf8 "stage") q
    ∷ []

unfoldable pub read_job : Config → Request → Result Response Job
read_job c r = do
  serials ← read_serials (get (utf8 "serial") r.query)
  count ← read_count (get (utf8 "count") r.query) (is_some serials)
  priority ←
      read_number (get (utf8 "priority") r.query)
        (utf8 "priority parameter must be a 32-bit integer")
  wifi ← read_wifi r.query
  band ← read_band (get (utf8 "wifi_band") r.query) wifi
  same ← read_same_proxy (get (utf8 "same_proxy") r.query)
  attempt ←
      read_number (get (utf8 "run_attempt") r.query)
        (utf8 "run_attempt parameter must be a 32-bit integer")
  labels ← read_labels c.quote r.query
  ok (record {
    serials = serials;
    count = count;
    priority = priority;
    wifi = wifi;
    wifi_band = band;
    same_proxy = same;
    run_attempt = attempt;
    texts = job_texts r.query;
    labels = labels;
    tenant_key = tenant_key c r;
    client_ip = r.client_ip;
  })

module _ {S : Type 0} (mgr : Manager S) where
  -- A client that has left gets no answer, and its lock is released.
  unfoldable pub handed_over :
      Bool → ApiState S → Result Failure Handed × S → Option Response × ApiState S
  handed_over left s (err failure, m) =
      (some (http_status_for_acquire_error failure), record s { manager = m })
  handed_over false s (ok lock, m) =
      (some (record { status = 200; content = lock_body lock }), record s { manager = m })
  handed_over true s (ok lock, m) =
      (none, record s { manager = (mgr.end_lock lock.lock_id (utf8 "cancelled") m).1 })

  unfoldable pub with_job : Bool → ApiState S → Result Response Job → Option Response × ApiState S
  with_job left s (err e) = (some e, s)
  with_job left s (ok job) = handed_over left s (mgr.acquire_job job s.manager)

  unfoldable pub acquire_handler : Config → Request → ApiState S → Option Response × ApiState S
  acquire_handler c r s = with_job r.client_left s (read_job c r)
