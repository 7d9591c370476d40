-- ===== src/Tests/Benches.antt =====
-- A bench for the runs at concrete inputs.
use sair.Base.{none, some, true, false, []}
use sair.Text.{utf8}
use sair.Ports.World.{Bench}

-- A bench on which every call succeeds.
abbrev pub good_bench : Bench
good_bench = record {
  set_wifi = λ h s state band. none;
  remove_reverse = λ h s. none;
  add_reverse = λ h s port. none;
  reset_packages = λ h s since. record { removed = []; suggestions = []; error = none };
  clear_ui_automation = λ h s. record { how = []; error = none };
  wake = λ h s. none;
  reset_bluetooth = λ h s. none;
  hold_updates = λ h s hold. none;
  reboot_if_stale = λ h s. record { rebooted = false; uptime = []; error = none };
  reboot_if_wedged = λ h s radio. record { rebooted = false; uptime = []; error = none };
  recent_source_log = λ h s. none;
  recent_lines = λ h match. [];
  acquire_lock = λ h. none;
  release_lock = λ h id status. some true;
  listen = λ h. some 5037;
  random_token = λ h. some (utf8 "token");
  now = λ h. 7;
  elapsed = λ h. utf8 "1s";
}
