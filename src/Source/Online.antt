-- ===== src/Source/Online.antt =====
-- What a phone said last when a SetWifi call succeeds (internal/devicesource/wifi.go).
use sair.Base.{
  ◌≡◌, refl, sym, ap, ◌∙◌, Bool, true, false, not, ◌||◌, Option, none, some, [], ◌∷◌, arith,
  is_some,
}
use sair.Text.{Bytes, utf8, str_eq}
use sair.Result.{Result, ok, err}
use sair.Ports.Branch.{if◌then◌else◌}
use sair.Source.Shell.{
  Command, wifi_status, dump, ping, text_of, Answer, Trace, Env, ◌>>=◌, pure, Fault, plain, hung,
  unsafe_reboot, rpc, not_online, no_route, panicked, run_shell, output_of, radio_output,
  radio_shell, svc, after, and_then, wait_for,
}
use sair.Source.Serial.{Filter, check_serial}
use sair.Source.Networks.{WifiStatus, parse_wifi_status, wifi_is_validated, is_in_band}
use sair.Source.Wifi.{
  Bench, ask_status, is_associated, reached, check_route, check_online, has_left, unreached,
  check_no_route, check_offline, wifi_forget, wifi_connect, told, join_now, plainly, Wanted, on,
  off, reset, unknown, wifi_reset, wifi_off, as_status, switch, is_refused, set_allowed,
  set_checked, set_wifi,
}
use sair.Source.Waits.{and_then-ok, Last, wait_for-Waited, poll-Ok}

-- The answer that a phone's last check was given by a command, run after `t`.
abbrev answer : Env → Trace → Command → Answer
answer env t c = env.shell t (text_of c)

module _ (env : Env) (b : Bench) where
  -- Online, as Android and the network say: associated to the bench's network, in the band if one was
  -- asked for, Wi-Fi validated and no default over mobile data, and the host answers.
  pub record IsOnline (band : Bytes) (end : Trace) : Type 0 where
    pub before : Trace
    pub status : WifiStatus
    pub asked : end ≡ ping b.ping_host ∷ dump (utf8 "connectivity") ∷ wifi_status ∷ before
    pub is_status : status ≡ parse_wifi_status (answer env before wifi_status).out
    pub enabled : status.enabled ≡ true
    pub joined : str_eq status.ssid b.ssid ≡ true
    pub in_band : (str_eq band [] || is_in_band band status.freq) ≡ true
    pub validated :
        wifi_is_validated (answer env (wifi_status ∷ before) (dump (utf8 "connectivity"))).out
        ≡ ok tt
    pub answered :
        (answer env (dump (utf8 "connectivity") ∷ wifi_status ∷ before) (ping b.ping_host)).error
        ≡ none

  -- Offline: off the bench's network, and the host does not answer; with the radio on if it is to be.
  pub record IsOffline (radio_on : Bool) (end : Trace) : Type 0 where
    pub before : Trace
    pub status : WifiStatus
    pub asked : end ≡ ping b.ping_host ∷ wifi_status ∷ before
    pub is_status : status ≡ parse_wifi_status (answer env before wifi_status).out
    pub radio : (not radio_on || status.enabled) ≡ true
    pub apart : (str_eq status.ssid [] || not (str_eq status.ssid b.ssid)) ≡ true
    pub silent : is_some (answer env (wifi_status ∷ before) (ping b.ping_host)).error ≡ true

  said_by_radio :
      (out : Bytes) (error : Option Bytes) (late : Bool) (o : Bytes)
      → radio_output (record { out = out; error = error; late = late }) ≡ ok o
      → o ≡ out
  unfolding radio_output output_of if◌then◌else◌
  said_by_radio out none late o h = cc
  said_by_radio out (some e) true o h = cc
  said_by_radio out (some e) false o h = cc

  ask_status-ok :
      (t : Trace) (st : WifiStatus)
      → (ask_status env t).0 ≡ ok st
      → st ≡ parse_wifi_status (answer env t wifi_status).out
  unfolding ask_status radio_shell ◌>>=◌ pure run_shell
  ask_status-ok t st h =
      let a = answer env t wifi_status in
      let (o, e, q) = and_then-ok (pure (radio_output a)) _ (wifi_status ∷ t) st h in
      same_status st (parse_wifi_status o) (sym h ∙ ap (λ r. r.0) q)
      ∙ ap parse_wifi_status (said_by_radio a.out a.error a.late o e)
    where
      same_status : (x y : WifiStatus) → Path (Result Fault WifiStatus) (ok x) (ok y) → x ≡ y
      same_status x y e = cc

  ask_status-asks : (t : Trace) → (ask_status env t).1 ≡ wifi_status ∷ t
  unfolding ask_status radio_shell ◌>>=◌ pure run_shell and_then after
  ask_status-asks t = asks (radio_output (answer env t wifi_status))
    where
      asks :
          (r : Result Fault Bytes)
          → (and_then (pure r) (λ o. pure (ok (parse_wifi_status o))) (wifi_status ∷ t)).1
            ≡ wifi_status ∷ t
      asks (ok o) = refl
      asks (err e) = refl

  said_by_shell :
      (out : Bytes) (error : Option Bytes) (late : Bool) (o : Bytes)
      → output_of (record { out = out; error = error; late = late }) ≡ ok o
      → o ≡ out
  unfolding output_of
  said_by_shell out none late o h = cc
  said_by_shell out (some e) late o h = cc

  reached-ok : (a : Answer) → reached a ≡ ok tt → a.error ≡ none
  unfolding reached if◌then◌else◌
  reached-ok a h = without a.error h
    where
      without :
          (e : Option Bytes)
          → (if is_some e then err (not_online no_route) else ok tt) ≡ ok tt
          → e ≡ none
      without none h = refl
      without (some e) h = cc

  is_associated-ok :
      (band : Bytes) (st : WifiStatus)
      → is_associated b band st ≡ ok tt
      → (st.enabled ≡ true)
        × (str_eq st.ssid b.ssid ≡ true)
        × ((str_eq band [] || is_in_band band st.freq) ≡ true)
  unfolding is_associated if◌then◌else◌
  is_associated-ok band st h = ground arith

  has_left-ok :
      (radio_on : Bool) (st : WifiStatus)
      → has_left b radio_on st ≡ ok tt
      → ((not radio_on || st.enabled) ≡ true)
        × ((str_eq st.ssid [] || not (str_eq st.ssid b.ssid)) ≡ true)
  unfolding has_left if◌then◌else◌
  has_left-ok radio_on st h = ground arith

  unreached-ok : (a : Answer) → unreached a ≡ ok tt → is_some a.error ≡ true
  unfolding unreached if◌then◌else◌
  unreached-ok a h = ground arith

  check_route-Ok :
      (band : Bytes) (st : WifiStatus) (t end : Trace)
      → st ≡ parse_wifi_status (answer env t wifi_status).out
      → check_route env b band st (wifi_status ∷ t) ≡ (ok tt, end)
      → IsOnline band end
  unfolding check_route ◌>>=◌ pure run_shell
  check_route-Ok band st t end is e =
      let t1 : Trace = wifi_status ∷ t in
      let fine = ap (λ r. r.0) e in
      let (u, ea, qa) = and_then-ok (pure (is_associated b band st)) _ t1 tt fine in
      let d = answer env t1 (dump (utf8 "connectivity")) in
      let (out, ed, qd) = and_then-ok (pure (output_of d)) _ _ tt (sym (ap (λ r. r.0) qa) ∙ fine) in
      let (v, ev, qv) =
        and_then-ok (pure (wifi_is_validated out)) _ _ tt
          (sym (ap (λ r. r.0) qd) ∙ sym (ap (λ r. r.0) qa) ∙ fine) in
      let whole = sym qv ∙ sym qd ∙ sym qa ∙ e in
      let (enabled, joined, in_band) = is_associated-ok band st ea in
      record {
        before = t;
        status = st;
        asked = sym (ap (λ r. r.1) whole);
        is_status = is;
        enabled = enabled;
        joined = joined;
        in_band = in_band;
        validated = rw (sym (said_by_shell d.out d.error d.late out ed)) ev;
        answered =
            reached-ok (answer env (dump (utf8 "connectivity") ∷ t1) (ping b.ping_host))
              (ap (λ r. r.0) whole);
      }

  check_online-Ok :
      (band : Bytes) (end : Trace) → Last (check_online env b band) tt end → IsOnline band end
  unfolding check_online
  check_online-Ok band end (t, e) =
      let (st, es, qs) =
        and_then-ok (ask_status env) (check_route env b band) t tt (ap (λ r. r.0) e) in
      check_route-Ok band st t end (ask_status-ok t st es)
        (ap (check_route env b band st) (sym (ask_status-asks t)) ∙ sym qs ∙ e)

  check_no_route-Ok :
      (radio_on : Bool) (st : WifiStatus) (t end : Trace)
      → st ≡ parse_wifi_status (answer env t wifi_status).out
      → check_no_route env b radio_on st (wifi_status ∷ t) ≡ (ok tt, end)
      → IsOffline radio_on end
  unfolding check_no_route ◌>>=◌ pure run_shell
  check_no_route-Ok radio_on st t end is e =
      let (u, ea, qa) =
        and_then-ok (pure (has_left b radio_on st)) _ (wifi_status ∷ t) tt (ap (λ r. r.0) e) in
      let whole = sym qa ∙ e in
      let (radio, apart) = has_left-ok radio_on st ea in
      record {
        before = t;
        status = st;
        asked = sym (ap (λ r. r.1) whole);
        is_status = is;
        radio = radio;
        apart = apart;
        silent =
            unreached-ok (answer env (wifi_status ∷ t) (ping b.ping_host)) (ap (λ r. r.0) whole);
      }

  check_offline-Ok :
      (radio_on : Bool) (end : Trace)
      → Last (check_offline env b radio_on) tt end
      → IsOffline radio_on end
  unfolding check_offline
  check_offline-Ok radio_on end (t, e) =
      let (st, es, qs) =
        and_then-ok (ask_status env) (check_no_route env b radio_on) t tt (ap (λ r. r.0) e) in
      check_no_route-Ok radio_on st t end (ask_status-ok t st es)
        (ap (check_no_route env b radio_on st) (sym (ask_status-asks t)) ∙ sym qs ∙ e)

  as_status-ok : (r : Result Fault (Unit {0})) → as_status r ≡ ok tt → r ≡ ok tt
  unfolding as_status
  as_status-ok (ok u) h = refl
  as_status-ok (err (rpc c x)) h = cc
  as_status-ok (err panicked) h = cc
  as_status-ok (err (plain x)) h = cc
  as_status-ok (err hung) h = cc
  as_status-ok (err (unsafe_reboot x)) h = cc
  as_status-ok (err (not_online why)) h = cc

  join_now-Ok :
      (band : Bytes) (r : Result Fault (Unit {0})) (t : Trace)
      → (join_now env b band r t).0.0 ≡ ok tt
      → IsOnline band (join_now env b band r t).1
  unfolding join_now ◌>>=◌ pure told
  join_now-Ok band (err e) t h = cc
  join_now-Ok band (ok u) t h =
      check_online-Ok band _ (poll-Ok env (check_online env b band) b.on_rounds t h)

  wifi_off-Ok : (t : Trace) → (wifi_off env b t).0 ≡ ok tt → IsOffline false (wifi_off env b t).1
  unfolding wifi_off
  wifi_off-Ok t h =
      let waiting = wait_for b.off_rounds env (check_offline env b false) in
      let (u, e, q) = and_then-ok (wifi_forget env b) (λ _. waiting) t tt h in
      rw q (
        check_offline-Ok false _ (
          wait_for-Waited env (check_offline env b false) b.off_rounds _
            (sym (ap (λ r. r.0) q) ∙ h)))

  wifi_reset-Ok :
      (t : Trace) → (wifi_reset env b t).0 ≡ ok tt → IsOffline true (wifi_reset env b t).1
  unfolding wifi_reset
  wifi_reset-Ok t h =
      let waiting = wait_for b.off_rounds env (check_offline env b true) in
      let up = and_then (svc env (utf8 "wifi enable")) (λ _. waiting) in
      let (u, e, q) =
        and_then-ok (wifi_forget env b) (λ _. and_then (svc env (utf8 "wifi disable")) (λ _. up)) t
          tt h in
      let (u', e', q') =
        and_then-ok (svc env (utf8 "wifi disable")) (λ _. up) _ tt (sym (ap (λ r. r.0) q) ∙ h) in
      let (u'', e'', q'') =
        and_then-ok (svc env (utf8 "wifi enable")) (λ _. waiting) _ tt
          (sym (ap (λ r. r.0) q') ∙ sym (ap (λ r. r.0) q) ∙ h) in
      let all = q ∙ q' ∙ q'' in
      rw all (
        check_offline-Ok true _ (
          wait_for-Waited env (check_offline env b true) b.off_rounds _
            (sym (ap (λ r. r.0) all) ∙ h)))

  -- What the phone must have said at the end of a call that succeeds.
  unfoldable pub Reached : Wanted → Bytes → Trace → Type 0
  Reached on band end = IsOnline band end
  Reached off band end = IsOffline false end
  Reached reset band end = IsOffline true end
  Reached unknown band end = ⊥

  switch-Reached :
      (wanted : Wanted) (band : Bytes) (t : Trace)
      → (switch env b wanted band t).0.0 ≡ ok tt
      → Reached wanted band (switch env b wanted band t).1
  unfolding switch plainly ◌>>=◌ pure Reached wifi_connect as_status
  switch-Reached on band t h = join_now-Ok band _ _ (as_status-ok _ h)
  switch-Reached off band t h = wifi_off-Ok t (as_status-ok _ h)
  switch-Reached reset band t h = wifi_reset-Ok t (as_status-ok _ h)
  switch-Reached unknown band t h = cc

-- When SetWifi succeeds, the last commands that ran on the phone, in order and with nothing
-- behind them, are a check that passed. For ON: its status has the radio on and the bench's
-- network, in the band if one was asked for, the connectivity dump has Wi-Fi validated and no
-- default over mobile data, and the ping was answered. For OFF and RESET: it is off the bench's
-- network and the ping failed, for RESET with the radio on.
pub set_wifi-Reached :
    (env : Env) (f : Filter) (b : Bench) (serial : Bytes) (wanted : Wanted) (band : Bytes)
    (t : Trace)
    → (set_wifi env f b serial wanted band t).0.0 ≡ ok tt
    → Reached env b wanted band (set_wifi env f b serial wanted band t).1
unfolding set_wifi set_allowed set_checked pure
set_wifi-Reached env f b serial wanted band t = checked (check_serial f serial)
  where
    allowed :
        (r : Option Fault)
        → (set_allowed env b wanted band r t).0.0 ≡ ok tt
        → Reached env b wanted band (set_allowed env b wanted band r t).1
    allowed (some e) h = cc
    allowed none h = switch-Reached env b wanted band t h

    checked :
        (r : Result Fault (Unit {0}))
        → (set_checked env b wanted band r t).0.0 ≡ ok tt
        → Reached env b wanted band (set_checked env b wanted band r t).1
    checked (err e) h = cc
    checked (ok u) h = allowed (is_refused b wanted band) h
