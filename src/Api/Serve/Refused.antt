-- ===== src/Api/Serve/Refused.antt =====
-- What a request without a good key or token comes to (internal/proxy/http_api.go).
use sair.Base.{ℕ, ◌≡◌, refl, ◌⊎◌, inl, inr, Bool, true, false, ◌&&◌, Option, some, Bool-cases}
use sair.Text.{utf8}
use sair.Result.{Result, err}
use sair.Api.{Request, get, Response, Manager, Config, ApiState}
use sair.Api.Params.{blank}
use sair.Api.Keys.{require_auth}
use sair.Api.Locks.{with_key, admitted, lock_request, LockRequest, handle_wifi, handle_bluetooth}
use sair.Api.Serve.{
  Route, to_acquire, to_release, to_wifi, to_bluetooth, to_label, to_status, to_devices,
  handle_acquire, handle_release, handle_label, handle_status, handle_register_devices, serve,
}

-- The routes that a test on a locked phone may use.
unfoldable pub takes_token : Route → Bool
takes_token to_wifi = true
takes_token to_bluetooth = true
takes_token to_acquire = false
takes_token to_release = false
takes_token to_label = false
takes_token to_status = false
takes_token to_devices = false

module _ {S : Type 0} (c : Config) (mgr : Manager S) where
  pub record IsRefused (s : ApiState S) (result : Option Response × ApiState S) : Type 0 where
    pub response : Response
    pub answer : result.0 ≡ some response
    pub status : (response.status ≡ 401) ⊎ (response.status ≡ 400)
    pub same : result.1.manager ≡ s.manager

  with_key-IsRefused :
      (now : ℕ) (r : Request) (handle : ApiState S → Option Response × ApiState S) (s : ApiState S)
      → (require_auth c now r s.keys).0 ≡ false
      → IsRefused s (with_key c mgr now r handle s)
  unfolding with_key
  with_key-IsRefused now r handle s h =
      rw h (record { response = _; answer = refl; status = inl refl; same = refl })

  -- A mid-job request that nothing allows names no phones.
  abbrev Stopped : ApiState S → Result Response LockRequest × ApiState S → Type 0
  Stopped s q =
      (response : Response) × (q.0 ≡ err response)
      × ((response.status ≡ 401) ⊎ (response.status ≡ 400))
      × (q.1.manager ≡ s.manager)

  lock_request-Stopped :
      (now : ℕ) (r : Request) (s : ApiState S)
      → (require_auth c now r s.keys).0 ≡ false
      → mgr.token_valid (get (utf8 "lock_id") r.query) r.device_token s.manager ≡ false
      → Stopped s (lock_request c mgr now r s)
  unfolding lock_request admitted
  lock_request-Stopped now r s h t = elim (Bool-cases (blank (get (utf8 "lock_id") r.query))) [
    | inl none_given ↦ rw none_given (_, refl, inr refl, refl)
    | inr given ↦ rw (given, h, t) (_, refl, inl refl, refl)
  ]

  wifi-IsRefused :
      (now : ℕ) (r : Request) (s : ApiState S)
      → Stopped s (lock_request c mgr now r s)
      → IsRefused s (handle_wifi c mgr now r s)
  unfolding handle_wifi
  wifi-IsRefused now r s st =
      rw st.1 (record { response = st.0; answer = refl; status = st.2; same = st.3 })

  bluetooth-IsRefused :
      (now : ℕ) (r : Request) (s : ApiState S)
      → Stopped s (lock_request c mgr now r s)
      → IsRefused s (handle_bluetooth c mgr now r s)
  unfolding handle_bluetooth
  bluetooth-IsRefused now r s st =
      rw st.1 (record { response = st.0; answer = refl; status = st.2; same = st.3 })

  -- On every route, a request whose key is not let in, and on /wifi and /bluetooth without a valid
  -- device token of the lock either, is answered with status 401 or 400 and leaves the locks and
  -- the devices as they are.
  pub serve-IsRefused :
      (route : Route) (now : ℕ) (r : Request) (s : ApiState S)
      → (require_auth c now r s.keys).0 ≡ false
      → (takes_token route
          && mgr.token_valid (get (utf8 "lock_id") r.query) r.device_token s.manager)
        ≡ false
      → IsRefused s (serve c mgr route now r s)
  unfolding serve takes_token handle_acquire handle_release handle_label handle_status
      handle_register_devices
  serve-IsRefused to_acquire now r s h t = with_key-IsRefused now r _ s h
  serve-IsRefused to_release now r s h t = with_key-IsRefused now r _ s h
  serve-IsRefused to_label now r s h t = with_key-IsRefused now r _ s h
  serve-IsRefused to_status now r s h t = with_key-IsRefused now r _ s h
  serve-IsRefused to_devices now r s h t = with_key-IsRefused now r _ s h
  serve-IsRefused to_wifi now r s h t = wifi-IsRefused now r s (lock_request-Stopped now r s h t)
  serve-IsRefused to_bluetooth now r s h t =
      bluetooth-IsRefused now r s (lock_request-Stopped now r s h t)
