-- ===== src/Api/Keys.antt =====
-- `requireAuth` and `tenantKey` (internal/proxy/http_api.go): whose key a request carries.
pub mod Fresh
use sair.Base.{
  ℕ, zero, suc, ◌+◌, ◌-◌, ◌*◌, ◌/◌, ◌%◌, ◌^◌, ◌≤◌, ◌<◌, min, max, ◌≡◌, refl, sym, ap, ◌∙◌, subst,
  ◌≢◌, ◌↔◌, ◌⊎◌, inl, inr, Bool, true, false, not, ◌&&◌, ◌||◌, Option, none, some, List, [], ◌∷◌,
  ◌++◌, map, foldl, append_assoc, append-nil, arith, ltb, leb, ◌==◌, if◌then◌else◌, ltb→lt, lt→ltb,
  leb→le, ==_iff, Bool-cases, Option-cases, is_some, length, take, drop, length-append,
  take-append-drop, length-take, length-drop, take-append_length, drop-append_length, take_all,
  drop_all, any_of, keep_if, All, All-append,
}
use sair.Text.{
  Bytes, join, utf8, str_eq, str_eq_iff, str_eq_refl, cut_prefix, has_prefix, trim_prefix,
  has_suffix, trim_suffix, cut_prefix-append, cut_prefix-eq_some,
}
use sair.Lines.{member}
use sair.Devices.Tracker.{lookup, store}
use sair.Api.{Request, Config, KeyAnswer, KeyCache}
use sair.Api.Params.{blank}

-- 30 s.
abbrev pub key_cache_ttl : ℕ
key_cache_ttl = 30000000000

-- The orchestrator's answer is kept, an error is not.
unfoldable pub remember : ℕ → Bytes → Option Bool → KeyCache → Bool × KeyCache
remember now key none cache = (false, cache)
remember now key (some ok) cache =
    (ok, store key (record { accepted = ok; until = now + key_cache_ttl }) cache)

-- An answer that is still good is given again.
unfoldable pub recall : ℕ → Option KeyAnswer → Option KeyAnswer
recall now none = none
recall now (some a) = if ltb now a.until then some a else none

module _ (c : Config) where
  unfoldable pub is_listed : Bytes → Bool
  is_listed key = str_eq key c.owner_key || member key c.guest_keys

  unfoldable pub check_cached :
      ℕ
      → Bytes
      → (ℕ → Bytes → List Bytes → Option Bool)
      → Option KeyAnswer
      → KeyCache
      → Bool × KeyCache
  check_cached now key ask (some a) cache = (a.accepted, cache)
  check_cached now key ask none cache = remember now key (ask now key c.guest_keys) cache

  unfoldable pub check_asking :
      Option (ℕ → Bytes → List Bytes → Option Bool) → ℕ → Bytes → KeyCache → Bool × KeyCache
  check_asking none now key cache = (false, cache)
  check_asking (some ask) now key cache =
      if blank key
      then (false, cache)
      else check_cached now key ask (recall now (lookup key cache)) cache

  unfoldable pub require_auth : ℕ → Request → KeyCache → Bool × KeyCache
  require_auth now r cache =
      if is_listed r.api_key then (true, cache) else check_asking c.check_key now r.api_key cache

  -- `tenantKey`: empty for the owner.
  unfoldable pub tenant_key : Request → Bytes
  tenant_key r = if str_eq r.api_key c.owner_key then [] else r.api_key
