-- ===== src/Source/Wifi.antt =====
-- The SetWifi call (internal/devicesource/wifi.go). The texts of most errors are left out, and so are
-- the log lines.
use sair.Base.{
  ℕ, zero, suc, Bool, true, false, not, ◌&&◌, ◌||◌, Option, none, some, List, [], ◌∷◌, is_some,
}
use sair.Text.{Bytes, join, utf8, str_eq}
use sair.Result.{Result, ok, err}
use sair.Ports.Branch.{if◌then◌else◌}
use sair.Source.Shell.{
  Command, remove_all_suggestions, remove_suggestion, list_networks, forget_network, add_suggestion,
  start_scan, list_scan_results, wifi_status, dump, ping, Answer, Env, M, ◌>>=◌, pure,
  invalid_argument, failed_precondition, internal, deadline_exceeded, Fault, plain, hung,
  unsafe_reboot, rpc, not_online, panicked, not_associated, other_ssid, no_route, run_shell,
  output_of, radio_shell, svc, and_then, fail_with, done, wait_for,
}
use sair.Source.Serial.{Filter, check_serial}
use sair.Lines.{int_lt}
use sair.Source.Networks.{
  wifi_band, is_in_band, ScanResult, parse_scan_results, saved_network_ids, WifiStatus,
  parse_wifi_status, wifi_is_validated,
}

-- The server's Wi-Fi settings, and the rounds of each wait.
pub record Bench : Type 0 where
  pub ssid : Bytes
  pub passphrase : Bytes
  pub ping_host : Bytes
  pub on_rounds : ℕ
  pub off_rounds : ℕ

discard : Result Fault Bytes → Result Fault (Unit {0})
discard (ok out) = ok tt
discard (err e) = err e

-- A command whose output does not matter.
unfoldable pub try : Env → Command → M (Result Fault (Unit {0}))
unfolding discard
try env c = do a ← run_shell env c; pure (discard (output_of a))

unfoldable pub forget_each : Env → List Bytes → M (Result Fault (Unit {0}))
forget_each env [] = done
forget_each env (id ∷ ids) = and_then (try env (forget_network id)) λ _. forget_each env ids

-- The suggestions; by the bench's SSID alone where the shell may not remove all.
unfoldable pub drop_suggestions : Env → Bench → M (Result Fault (Unit {0}))
drop_suggestions env b = do
  a ← run_shell env remove_all_suggestions
  if is_some a.error then try env (remove_suggestion b.ssid) else done

-- `wifiForget`.
unfoldable pub wifi_forget : Env → Bench → M (Result Fault (Unit {0}))
wifi_forget env b = and_then (drop_suggestions env b) λ _. do
  a ← run_shell env list_networks
  if is_some a.error then done else forget_each env (saved_network_ids a.out)

-- `wifiStatus`.
unfoldable pub ask_status : Env → M (Result Fault WifiStatus)
ask_status env = do
  (out, r) ← radio_shell env wifi_status
  and_then (pure r) λ o. pure (ok (parse_wifi_status o))

-- The first tests of `checkOnline`.
unfoldable pub is_associated : Bench → Bytes → WifiStatus → Result Fault (Unit {0})
is_associated b band st =
    if not st.enabled
    then err (plain (utf8 "Wi-Fi radio is off"))
    else if str_eq st.ssid []
    then err (not_online not_associated)
    else if not (str_eq st.ssid b.ssid)
    then err (not_online other_ssid)
    else if not (str_eq band []) && not (is_in_band band st.freq)
    then err (plain (utf8 "associated on another band"))
    else ok tt

unfoldable pub reached : Answer → Result Fault (Unit {0})
reached a = if is_some a.error then err (not_online no_route) else ok tt

-- `checkOnline`, once it has the status.
unfoldable pub check_route : Env → Bench → Bytes → WifiStatus → M (Result Fault (Unit {0}))
unfolding reached
check_route env b band st = and_then (pure (is_associated b band st)) λ _. do
  d ← run_shell env (dump (utf8 "connectivity"))
  and_then (pure (output_of d)) λ out.
      and_then (pure (wifi_is_validated out))
        λ _. do p ← run_shell env (ping b.ping_host); pure (reached p)

-- `checkOnline`.
unfoldable pub check_online : Env → Bench → Bytes → M (Result Fault (Unit {0}))
check_online env b band = and_then (ask_status env) (check_route env b band)

-- The first tests of `checkOffline`.
unfoldable pub has_left : Bench → Bool → WifiStatus → Result Fault (Unit {0})
has_left b radio_on st =
    if radio_on && not st.enabled
    then err (plain (utf8 "Wi-Fi radio is still off"))
    else if not (str_eq st.ssid []) && str_eq st.ssid b.ssid
    then err (plain (utf8 "still associated"))
    else ok tt

unfoldable pub unreached : Answer → Result Fault (Unit {0})
unreached a = if is_some a.error then ok tt else err (plain (utf8 "still reaches the host"))

-- `checkOffline`, once it has the status.
unfoldable pub check_no_route : Env → Bench → Bool → WifiStatus → M (Result Fault (Unit {0}))
unfolding unreached
check_no_route env b radio_on st =
    and_then (pure (has_left b radio_on st))
      λ _. do p ← run_shell env (ping b.ping_host); pure (unreached p)

-- `checkOffline`.
unfoldable pub check_offline : Env → Bench → Bool → M (Result Fault (Unit {0}))
check_offline env b radio_on = and_then (ask_status env) (check_no_route env b radio_on)

-- The strongest of the bench's networks in a band.
unfoldable pub strongest : Bench → Bytes → Option ScanResult → List ScanResult → Option ScanResult
strongest b band best [] = best
strongest b band best (r ∷ rs) =
    let is_better : Bool = elim best [
      | none ↦ true
      | some s ↦ str_eq s.bssid [] || int_lt s.rssi r.rssi
    ] in
    let rest = strongest b band (some r) rs in
    if str_eq r.ssid b.ssid && is_in_band band r.freq && is_better
    then rest
    else strongest b band best rs

use_best : Option ScanResult → Result Fault Bytes
use_best none = err (plain (utf8 "not in the scan results yet"))
use_best (some r) =
    if str_eq r.bssid [] then err (plain (utf8 "not in the scan results yet")) else ok r.bssid

-- What a poll gave: its outcome, and the last answer of its check.
pub record Polled (A : Type 0) : Type 0 where
  pub outcome : Result Fault A
  pub last : Result Fault A

abbrev both : {A : Type 0} → Result Fault A → Polled A
both r = record { outcome = r; last = r }

-- A round of a poll whose check failed with `e`, and the rounds that follow it.
unfoldable pub poll_again : {A : Type 0} → Env → Fault → M (Polled A) → M (Polled A)
poll_again env e more t =
    (if env.deadline_passed t
        then pure (record { outcome = err (rpc deadline_exceeded []); last = err e })
        else if env.cancelled t
        then pure (record { outcome = err (plain (utf8 "context canceled")); last = err e })
        else more)
      t

unfoldable pub poll_round : {A : Type 0} → Env → Result Fault A → M (Polled A) → M (Polled A)
unfolding poll_again
poll_round env (ok a) more = pure (both (ok a))
poll_round env (err panicked) more = pure (both (err panicked))
poll_round env (err (plain e)) more = poll_again env (plain e) more
poll_round env (err hung) more = poll_again env hung more
poll_round env (err (unsafe_reboot e)) more = poll_again env (unsafe_reboot e) more
poll_round env (err (rpc c e)) more = poll_again env (rpc c e) more
poll_round env (err (not_online why)) more = poll_again env (not_online why) more

-- `waitFor`, with what its check wrote to the caller's variables.
unfoldable pub poll : {A : Type 0} → ℕ → Env → M (Result Fault A) → M (Polled A)
poll zero env check = pure (both (err (rpc deadline_exceeded [])))
poll (suc rounds) env check = do r ← check; poll_round env r (poll rounds env check)

unfoldable pub scan : Env → Bench → Bytes → M (Result Fault Bytes)
unfolding use_best
scan env b band = do
  a ← run_shell env list_scan_results
  and_then (pure (output_of a))
      λ out. pure (use_best (strongest b band none (parse_scan_results out)))

-- `wifiPickBSSID`.
unfoldable pub pick_bssid : Env → Bench → Bytes → M (Result Fault Bytes)
pick_bssid env b band =
    and_then (try env start_scan) λ _. do p ← poll b.on_rounds env (scan env b band); pure p.outcome

-- What `recordJoin` is told of.
pub record Join : Type 0 where
  pub outcome : Result Fault (Unit {0})
  pub last : Result Fault (Unit {0})

security : Bytes → Option Bytes
security [] = none
security (b ∷ s) = some (b ∷ s)

-- The BSSID that the suggestion is pinned to, where there is a band.
unfoldable pub pin : Env → Bench → Bytes → M (Result Fault (Option Bytes))
pin env b [] = pure (ok none)
pin env b (c ∷ band) =
    and_then (pick_bssid env b (c ∷ band))
      λ bssid. and_then (wifi_forget env b) λ _. pure (ok (some bssid))

unfoldable pub told : Env → Polled (Unit {0}) → M (Result Fault (Unit {0}) × Option Join)
told env p t = (
  (
    p.outcome,
    if env.cancelled t then none else some (record { outcome = p.outcome; last = p.last }),
  ),
  t,
)

unfoldable pub join_now :
    Env → Bench → Bytes → Result Fault (Unit {0}) → M (Result Fault (Unit {0}) × Option Join)
unfolding told
join_now env b band (err e) = pure (err e, none)
join_now env b band (ok u) = do p ← poll b.on_rounds env (check_online env b band); told env p

unfoldable pub suggest : Env → Bench → Option Bytes → M (Result Fault (Unit {0}))
unfolding security
suggest env b bssid =
    and_then (try env (add_suggestion b.ssid (security b.passphrase) bssid)) λ _. try env start_scan

-- `wifiConnect`, with the join that it counts, if any.
unfoldable pub wifi_connect : Env → Bench → Bytes → M (Result Fault (Unit {0}) × Option Join)
unfolding join_now
wifi_connect env b band = do r ← and_then (pin env b band) (suggest env b); join_now env b band r

pub data Wanted : Type 0 where
  on off reset unknown : Wanted

unfoldable pub wifi_reset : Env → Bench → M (Result Fault (Unit {0}))
wifi_reset env b = and_then (wifi_forget env b) λ _. and_then (svc env (utf8 "wifi disable")) λ _.
    and_then (svc env (utf8 "wifi enable"))
      λ _. wait_for b.off_rounds env (check_offline env b true)

unfoldable pub wifi_off : Env → Bench → M (Result Fault (Unit {0}))
wifi_off env b =
    and_then (wifi_forget env b) λ _. wait_for b.off_rounds env (check_offline env b false)

-- An error that is no status yet is an internal one.
unfoldable pub as_status : Result Fault (Unit {0}) → Result Fault (Unit {0})
as_status (ok u) = ok u
as_status (err (rpc c e)) = err (rpc c e)
as_status (err panicked) = err panicked
as_status (err (plain e)) = err (rpc internal e)
as_status (err hung) = err (rpc internal [])
as_status (err (unsafe_reboot e)) = err (rpc internal e)
as_status (err (not_online why)) = err (rpc internal [])

unfoldable pub plainly : M (Result Fault (Unit {0})) → M (Result Fault (Unit {0}) × Option Join)
plainly m = do r ← m; pure (as_status r, none)

unfoldable pub switch : Env → Bench → Wanted → Bytes → M (Result Fault (Unit {0}) × Option Join)
unfolding plainly
switch env b on band = do (r, join) ← wifi_connect env b band; pure (as_status r, join)
switch env b off band = plainly (wifi_off env b)
switch env b reset band = plainly (wifi_reset env b)
switch env b unknown band = plainly (fail_with (rpc invalid_argument []))

is_on : Wanted → Bool
is_on on = true
is_on off = false
is_on reset = false
is_on unknown = false

unfoldable pub is_refused : Bench → Wanted → Bytes → Option Fault
unfolding is_on
is_refused b wanted band =
    if str_eq b.ssid []
    then some (
        rpc failed_precondition
          (utf8 "WIFI_SSID is not set on the device source; Wi-Fi is not managed on this bench"))
    else if not (str_eq band []) && (not (is_some (wifi_band band)) || not (is_on wanted))
    then some (rpc invalid_argument [])
    else none

unfoldable pub set_allowed :
    Env → Bench → Wanted → Bytes → Option Fault → M (Result Fault (Unit {0}) × Option Join)
set_allowed env b wanted band (some e) = pure (err e, none)
set_allowed env b wanted band none = switch env b wanted band

unfoldable pub set_checked :
    Env
    → Bench
    → Wanted
    → Bytes
    → Result Fault (Unit {0})
    → M (Result Fault (Unit {0}) × Option Join)
set_checked env b wanted band (err e) = pure (err e, none)
set_checked env b wanted band (ok u) = set_allowed env b wanted band (is_refused b wanted band)

-- The SetWifi call, with the join that it counts.
unfoldable pub set_wifi :
    Env → Filter → Bench → Bytes → Wanted → Bytes → M (Result Fault (Unit {0}) × Option Join)
set_wifi env f b serial wanted band = set_checked env b wanted band (check_serial f serial)
