-- ===== src/Ports/Acquire.antt =====
-- `Acquire` (internal/proxy/scoped_port.go): a granted lock is handed over once every local phone
-- is clean, awake and on or off the Wi-Fi as asked; otherwise it is released.
use sair.Base.{
  ℕ, zero, suc, Bool, true, false, not, ◌&&◌, Option, none, some, List, [], ◌∷◌, ◌++◌, map,
}
use sair.Text.{Bytes, utf8, str_eq}
use sair.Result.{Result, ok, err}
use sair.Ports.Branch.{if◌then◌else◌}
use sair.Ports.World.{
  other_code, Err, err_text, acquire_event, add_reverse_call, acquire_lock_call, release_lock_call,
  Granted, Bench, ScopedPort, M, ◌>>=◌, ◌>>◌, pure, skip, ask, has, without,
}
use sair.Ports.Device.{
  wake_failed, wifi_unmanaged, when, is_none, event_of, send_event, wake_device, set_updates,
  cycle_bluetooth, clean_device,
}
use sair.Ports.Reset.{log_excerpt}
use sair.Ports.Manager.{
  local_serials, CreateError, LockError, unknown_lock, not_in_lock, AcquireError, refused, no_port,
  wake_failure, wifi_failure, create_scoped_port, release, set_wifi,
}

-- `m.btFresh.LoadAndDelete`.
abbrev pub take_fresh : Bytes → M Bool
take_fresh serial w = (has serial w.bt_fresh, record w { bt_fresh = without serial w.bt_fresh })

module _ (b : Bench) where
  unfoldable pub each_event : Bytes → ScopedPort → Bytes → Err → List Bytes → M (Unit {0})
  each_event lock_id sp outcome e [] = skip
  each_event lock_id sp outcome e (s ∷ ss) = do
    send_event (event_of acquire_event s lock_id outcome (err_text e))
    each_event lock_id sp outcome e ss

  -- `acquireEvents`.
  unfoldable pub acquire_events : ScopedPort → Bytes → Err → M (Unit {0})
  unfolding each_event local_serials
  acquire_events sp outcome e = each_event sp.lock_id sp outcome e (local_serials sp)

  -- `acquireFailed`.
  unfoldable pub acquire_failed : ScopedPort → Bytes → Err → M (Unit {0})
  unfolding local_serials
  acquire_failed sp outcome e = do
    acquire_events sp outcome e
    log_excerpt b sp (local_serials sp)
    released ← release b sp.lock_id (utf8 "error")
    skip

  -- The body of the loop over the lock's local phones; its error is the wake's.
  unfoldable pub prepare_phone : ScopedPort → Bytes → M Err
  prepare_phone sp serial = do
    dirty ← clean_device b sp serial (utf8 " (left by an earlier job)") none
    fresh ← take_fresh serial
    when (not fresh)
        (cycle_bluetooth b sp serial (utf8 " (no release reset since the last job)") true >> skip)
    set_updates b sp serial true
    wake_device b sp.lock_id serial

  unfoldable pub prepare_phones : ScopedPort → List Bytes → M Err
  prepare_phones sp [] = pure none
  prepare_phones sp (serial ∷ serials) =
      if has serial sp.remote_devices then prepare_phones sp serials else do
        e ← prepare_phone sp serial
        if wake_failed e then pure e else prepare_phones sp serials

  unfoldable pub add_reverses : ℕ → ScopedPort → List Bytes → M Bool
  add_reverses port sp [] = pure true
  add_reverses port sp (serial ∷ serials) =
      if has serial sp.remote_devices then add_reverses port sp serials else do
        e ← ask (add_reverse_call serial port) (λ h. b.add_reverse h serial port)
        if is_none e then add_reverses port sp serials else pure false

  abbrev pub set_api_port : ℕ → Bytes → M (Unit {0})
  set_api_port port lock_id w = (
    tt,
    record w {
      ports =
          map {A = ScopedPort}
            (λ p. if str_eq p.lock_id lock_id then record p { device_api_port = port } else p)
            w.ports;
    },
  )

  -- `setupDeviceAPI`, and the port as it is then: with no API port there is nothing to do.
  unfoldable pub setup_device_api : ℕ → ScopedPort → M ScopedPort
  unfolding add_reverses
  setup_device_api zero sp = pure sp
  setup_device_api (suc n) sp = do
    all_set ← add_reverses (suc n) sp sp.serials
    when all_set (set_api_port (suc n) sp.lock_id)
    pure (if all_set then record sp { device_api_port = suc n } else sp)

  -- Whether `Acquire` takes what `SetWifi` returned for a failure.
  unfoldable pub wifi_refused : Result LockError Err → Bool
  wifi_refused (err e) = true
  wifi_refused (ok e) = not (is_none e) && not (wifi_unmanaged e)

  lock_error_text : LockError → Bytes
  lock_error_text unknown_lock = utf8 "unknown lock_id"
  lock_error_text (not_in_lock s) = utf8 "serial is not part of this lock: " ++ s

  unfoldable pub detail_of : Result LockError Err → Err
  unfolding lock_error_text
  detail_of (err e) = some (record { code = other_code; message = lock_error_text e })
  detail_of (ok e) = e

  -- After the port is there: the phones, the device API, the Wi-Fi.
  unfoldable pub hand_over : ℕ → Bool → Bytes → ScopedPort → M (Result AcquireError ScopedPort)
  hand_over api_port wifi band sp = do
    e ← prepare_phones sp sp.serials
    if wake_failed e
        then (do acquire_failed sp (utf8 "wake_failed") e; pure (err (wake_failure e)))
        else (do
          sp' ← setup_device_api api_port sp
          r ← set_wifi b sp.lock_id [] wifi band
          if wifi_refused r
              then (do
                acquire_failed sp' (utf8 "wifi_failed") (detail_of r)
                pure (err (wifi_failure r)))
              else (do acquire_events sp' (utf8 "granted") none; pure (ok sp')))

  unfoldable pub after_create :
      ℕ
      → Bool
      → Bytes
      → Granted
      → Result CreateError ScopedPort
      → M (Result AcquireError ScopedPort)
  after_create api_port wifi band g (ok sp) = hand_over api_port wifi band sp
  after_create api_port wifi band g (err e) = do
    released ←
        ask (release_lock_call g.lock_id (utf8 "error") [])
          (λ h. b.release_lock h g.lock_id (utf8 "error"))
    pure (err (no_port e))

  unfoldable pub after_grant :
      ℕ → Bool → Bytes → Option Granted → M (Result AcquireError ScopedPort)
  after_grant api_port wifi band none = pure (err refused)
  after_grant api_port wifi band (some g) = do
    made ← create_scoped_port b g
    after_create api_port wifi band g made

  unfoldable pub acquire : ℕ → Bool → Bytes → M (Result AcquireError ScopedPort)
  unfolding after_grant after_create
  acquire api_port wifi band = do
    granted ← ask acquire_lock_call (λ h. b.acquire_lock h)
    after_grant api_port wifi band granted
