-- ===== src/Api/Locks/Separators.antt =====
-- A device token must name its phone (`lockRequest` of internal/proxy/http_api.go): what a serial
-- parameter of separators alone does.
use sair.Base.{ℕ, suc, ◌≡◌, refl, ap, ◌⊎◌, inl, inr, Bool, true, false, [], ◌∷◌, Bool-cases}
use sair.Text.{Bytes, utf8}
use sair.Lines.{is_space, trim_right, trim_space}
use sair.Result.{ok}
use sair.Api.{Request, get, Manager, Config, ApiState}
use sair.Api.Params.{blank, separators, listed-separators}
use sair.Api.Keys.{require_auth}
use sair.Api.Locks.{admitted, lock_request, wanted_wifi, handle_wifi}

trim_right-separators : (n : ℕ) → blank (trim_right (separators (suc n))) ≡ false
unfolding trim_right is_space
trim_right-separators n = elim (trimmed_cases (trim_right (separators n))) [
  | inl e ↦ rw e refl
  | inr (b, t, e) ↦ rw e refl
]
  where
    trimmed_cases : (s : Bytes) → (s ≡ []) ⊎ ((b : ℕ) × (t : Bytes) × (s ≡ b ∷ t))
    trimmed_cases [] = inl refl
    trimmed_cases (b ∷ t) = inr (b, t, refl)

separators_stay : (n : ℕ) → blank (trim_space (separators (suc n))) ≡ false
unfolding trim_space is_space
separators_stay n = trim_right-separators n

module _ {S : Type 0} (c : Config) (mgr : Manager S) where
  lock_request-separators :
      (now n : ℕ) (r : Request) (s : ApiState S)
      → blank (get (utf8 "lock_id") r.query) ≡ false
      → (require_auth c now r s.keys).0 ≡ false
      → mgr.token_valid (get (utf8 "lock_id") r.query) r.device_token s.manager ≡ true
      → get (utf8 "serial") r.query ≡ separators (suc n)
      → (lock_request c mgr now r s).0
        ≡ ok (record { lock_id = get (utf8 "lock_id") r.query; serials = [] })
  unfolding lock_request admitted
  lock_request-separators now n r s given refused_key token serial =
      rw (given, refused_key, token, serial, separators_stay n, listed-separators (suc n)) refl

  manager-lock_request :
      (now : ℕ) (r : Request) (s : ApiState S) → (lock_request c mgr now r s).1.manager ≡ s.manager
  unfolding lock_request
  manager-lock_request now r s = elim (Bool-cases (blank (get (utf8 "lock_id") r.query))) [
    | inl none_given ↦ rw none_given refl
    | inr given ↦ rw given refl
  ]

  -- A /wifi request that only a device token allows, and whose serial parameter is one or more
  -- commas, is carried out with an empty list of serials. Its other parameters are valid.
  pub handle_wifi-separators :
      (now n : ℕ) (r : Request) (s : ApiState S) (on : Bool) (band : Bytes)
      → blank (get (utf8 "lock_id") r.query) ≡ false
      → (require_auth c now r s.keys).0 ≡ false
      → mgr.token_valid (get (utf8 "lock_id") r.query) r.device_token s.manager ≡ true
      → get (utf8 "serial") r.query ≡ separators (suc n)
      → wanted_wifi r.query ≡ ok (on, band)
      → (handle_wifi c mgr now r s).1.manager
        ≡ (mgr.switch_wifi (get (utf8 "lock_id") r.query) [] on band s.manager).1
  unfolding handle_wifi
  handle_wifi-separators now n r s on band given refused_key token serial wanted =
      rw (lock_request-separators now n r s given refused_key token serial, wanted)
        (ap (λ m. (mgr.switch_wifi (get (utf8 "lock_id") r.query) [] on band m).1)
          (manager-lock_request now r s))
