-- ===== src/Api/Serve.antt =====
-- The routes of `NewHTTPApi` (internal/proxy/http_api.go), each handler with its check of the key.
pub mod Refused
use sair.Base.{
  ℕ, zero, suc, ◌+◌, ◌-◌, ◌*◌, ◌/◌, ◌%◌, ◌^◌, ◌≤◌, ◌<◌, min, max, ◌≡◌, refl, sym, ap, ◌∙◌, subst,
  ◌≢◌, ◌↔◌, ◌⊎◌, inl, inr, Bool, true, false, not, ◌&&◌, ◌||◌, Option, none, some, List, [], ◌∷◌,
  ◌++◌, map, foldl, append_assoc, append-nil, arith, ltb, leb, ◌==◌, if◌then◌else◌, ltb→lt, lt→ltb,
  leb→le, ==_iff, Bool-cases, Option-cases, is_some, length, take, drop, length-append,
  take-append-drop, length-take, length-drop, take-append_length, drop-append_length, take_all,
  drop_all, any_of, keep_if, All, All-append,
}
use sair.Text.{
  Bytes, join, utf8, str_eq, str_eq_iff, str_eq_refl, cut_prefix, has_prefix, trim_prefix,
  has_suffix, trim_suffix, cut_prefix-append, cut_prefix-eq_some,
}
use sair.Api.{Request, Response, Manager, Config, ApiState}
use sair.Api.Locks.{with_key, release_handler, label_handler, handle_wifi, handle_bluetooth}
use sair.Api.Acquire.{acquire_handler}
use sair.Api.Reports.{status_handler, register_handler}

pub data Route : Type 0 where
  to_acquire to_release to_wifi to_bluetooth to_label to_status to_devices : Route

module _ {S : Type 0} (c : Config) (mgr : Manager S) where
  unfoldable pub handle_acquire : ℕ → Request → ApiState S → Option Response × ApiState S
  handle_acquire now r = with_key c mgr now r (acquire_handler mgr c r)

  unfoldable pub handle_release : ℕ → Request → ApiState S → Option Response × ApiState S
  handle_release now r = with_key c mgr now r (release_handler c mgr r)

  unfoldable pub handle_label : ℕ → Request → ApiState S → Option Response × ApiState S
  handle_label now r = with_key c mgr now r (label_handler c mgr r)

  unfoldable pub handle_status : ℕ → Request → ApiState S → Option Response × ApiState S
  handle_status now r = with_key c mgr now r (status_handler mgr now)

  unfoldable pub handle_register_devices : ℕ → Request → ApiState S → Option Response × ApiState S
  handle_register_devices now r = with_key c mgr now r (register_handler mgr r)

  unfoldable pub serve : Route → ℕ → Request → ApiState S → Option Response × ApiState S
  serve to_acquire = handle_acquire
  serve to_release = handle_release
  serve to_wifi = handle_wifi c mgr
  serve to_bluetooth = handle_bluetooth c mgr
  serve to_label = handle_label
  serve to_status = handle_status
  serve to_devices = handle_register_devices
