-- ===== src/Api/Reports.antt =====
-- `handleStatus` and `handleRegisterDevices` (internal/proxy/http_api.go).
use sair.Base.{ℕ, ◌-◌, ◌/◌, Option, none, some, List, [], ◌∷◌, ltb, if◌then◌else◌}
use sair.Text.{utf8}
use sair.Api.{
  Phone, DeviceReport, Request, Handed, Shown, state_body, Response, Manager, failed, ApiState,
}
use sair.Api.Params.{blank}
use sair.Api.Locks.{answered}

-- A port and its age in milliseconds.
aged : ℕ → List Handed → List (Handed × ℕ)
aged now [] = []
aged now (p ∷ ps) = (p, (now - p.created) / 1000000) ∷ aged now ps

-- A phone that was never rebooted shows no time.
unfoldable pub shown : Phone → Shown
shown d = record {
  serial = d.serial;
  last_reboot_ms = if ltb 0 d.last_reboot_ms then some d.last_reboot_ms else none;
  warning = d.warning;
}

shown_all : List Phone → List Shown
unfolding shown
shown_all [] = []
shown_all (d ∷ ds) = shown d ∷ shown_all ds

module _ {S : Type 0} (mgr : Manager S) where
  unfoldable pub status_handler : ℕ → ApiState S → Option Response × ApiState S
  unfolding aged shown_all
  status_handler now s = (
    some (record {
      status = 200;
      content =
          state_body (aged now (mgr.open_ports s.manager)) (shown_all (mgr.tracked s.manager));
    }),
    s,
  )

  register : DeviceReport → ApiState S → Option Response × ApiState S
  register d s =
      if blank d.source_addr
      then (some (failed 400 (utf8 "source_addr required")), s)
      else (some (answered (utf8 "ok")), record s { manager = mgr.report_devices d s.manager })

  unfoldable pub register_handler : Request → ApiState S → Option Response × ApiState S
  unfolding register
  register_handler r s = elim r.report [
    | none ↦ (some (failed 400 (utf8 "invalid JSON")), s)
    | some d ↦ register d s
  ]
