-- ===== src/Tests/Phone.antt =====
-- Runs of the theorems about a phone's resets, reboots and Wi-Fi at concrete inputs.
use sair.Base.{arith, ℕ, ◌≡◌, refl, sym, true, false, Option, none, some, [], ◌∷◌}
use sair.Text.{Bytes, utf8, str_eq, cut_prefix, has_prefix}
use sair.Ports.Branch.{if◌then◌else◌}
use sair.Lines.{
  fields, split_at, trim_space, trim_left, trim_right, trim_byte, cut, atoi, nonempty, is_space,
}
use sair.Result.{Result, ok, err}
use sair.Source.Shell.{
  Env, Answer, Fault, rpc, internal, output_of, text_of, list_packages_whole, list_suggestions,
  run_shell, ◌>>=◌, pure, and_then, after, wait_for, wait_round, not_yet, radio_output, radio_shell,
}
use sair.Source.Only.{Only}
use sair.Source.Serial.{Filter, check_serial, is_serial, managed}
use sair.Source.Packages.{Baseline, Config, keep_of, baseline_for, reset_packages}
use sair.Source.Kept.{spares, reset_packages-Spares, reset_packages-needs_listing}
use sair.Source.Reboot.{dumpsys_field, credential_secure}
use sair.Source.Screen.{clear_ui_automation}
use sair.Source.Strand.{IsLocked, is_not_reboot, clear_ui_automation-StaysUp}
use sair.Source.Wifi.{
  Bench, Join, off, set_wifi, set_checked, set_allowed, is_refused, switch, as_status, wifi_off,
  wifi_forget, drop_suggestions, ask_status, check_no_route, check_offline, forget_each, has_left,
  plainly, unreached,
}
use sair.Source.Networks.{parse_wifi_status, saved_network_ids}
use sair.Source.Joins.{WifiStats, no_stats}
use sair.Source.Counted.{IsCounted}
use sair.Source.Rounds.{IsOverWithin, wait_for-IsOverWithin}
use sair.Source.Online.{Reached, set_wifi-Reached}

abbrev said : Bytes → Answer
said out = record { out = out; error = none; late = false }

abbrev refused : Answer
refused = record { out = []; error = some (utf8 "exit status 1"); late = false }

abbrev phone_that : (Bytes → Answer) → Env
phone_that shell = record {
  shell = λ t. shell;
  deadline_passed = λ t. false;
  cancelled = λ t. false;
}

abbrev all_phones : Filter
all_phones = record { allow = none; deny = [] }

abbrev lab_config : Config
lab_config = record { stop_packages = utf8 "com.lab.agent" ∷ []; clear_packages = [] }

abbrev lab_baseline : Baseline
lab_baseline = record {
  baseline_override = none;
  recorded = some (utf8 "com.lab" ∷ []);
  warned = false;
}

-- A phone that has the lab's package and a job's.
abbrev busy_phone : Env
busy_phone = phone_that λ c. said (utf8 "package:com.job\npackage:com.lab\n")

keeps_lab : keep_of none lab_baseline ≡ some (utf8 "com.lab" ∷ [])
unfolding keep_of baseline_for
keeps_lab = refl

reset_packages-Spares_example :
    Only
      (λ c. spares (utf8 "com.lab" ∷ []) c ≡ true)
      (reset_packages busy_phone all_phones lab_config lab_baseline (utf8 "A1") none)
reset_packages-Spares_example =
    reset_packages-Spares busy_phone all_phones lab_config lab_baseline (utf8 "A1") none
      (utf8 "com.lab" ∷ []) keeps_lab

abbrev dead_phone : Env
dead_phone = phone_that λ c. refused

checks_serial : check_serial all_phones (utf8 "A1") ≡ ok tt
unfolding check_serial
checks_serial = refl

reset_packages-needs_listing_example :
    reset_packages dead_phone all_phones lab_config lab_baseline (utf8 "A1") (some []) []
    ≡ (err (rpc internal []), list_packages_whole (utf8 "-3") ∷ list_suggestions ∷ [])
reset_packages-needs_listing_example =
    reset_packages-needs_listing dead_phone all_phones lab_config lab_baseline (utf8 "A1") [] []
      checks_serial λ whole. cc whole.0

-- A phone whose policy dump says that its lock is secure.
abbrev locked_phone : Env
locked_phone = phone_that λ c. said (utf8 "secure=true")

only_said : {x y : Bytes} → Path (Result Fault Bytes) (ok x) (ok y) → x ≡ y
only_said e = cc

locked_phone-IsLocked : IsLocked locked_phone
unfolding output_of dumpsys_field credential_secure str_eq fields cut_prefix split_at trim_space
locked_phone-IsLocked = record {
  policy = λ t out h. rw (sym (only_said h)) refl;
  settings = λ t out h. rw (sym (only_said h)) refl;
}

abbrev uptime_of : Bytes → Option ℕ
uptime_of w = some 1000

clear_ui_automation-StaysUp_example :
    Only (λ c. is_not_reboot c ≡ true) (clear_ui_automation 3 3 locked_phone all_phones (utf8 "A1"))
clear_ui_automation-StaysUp_example =
    clear_ui_automation-StaysUp locked_phone locked_phone-IsLocked 3 3 all_phones (utf8 "A1")

abbrev lab_bench : Bench
lab_bench = record {
  ssid = utf8 "bench";
  passphrase = [];
  ping_host = utf8 "h";
  on_rounds = 3;
  off_rounds = 3;
}

-- A phone that pings nothing, with its radio on.
abbrev offline_phone : Env
offline_phone = phone_that λ c. elim (cut_prefix c (utf8 "ping")) [
  | some rest ↦ refused
  | none ↦ said (utf8 "Wifi is enabled\n")
]

goes_offline : (set_wifi offline_phone all_phones lab_bench (utf8 "A1") off [] []).0.0 ≡ ok tt
unfolding set_wifi set_checked check_serial set_allowed is_refused if◌then◌else◌ str_eq switch ◌>>=◌
    pure as_status wifi_off and_then after wifi_forget drop_suggestions run_shell cut_prefix fields
    split_at trim_space trim_left trim_right trim_byte cut atoi nonempty is_space parse_wifi_status
    saved_network_ids is_serial managed output_of radio_output radio_shell text_of wait_for
    wait_round not_yet ask_status check_no_route check_offline forget_each has_left plainly
    unreached has_prefix
goes_offline = refl

set_wifi-Reached_example :
    Reached offline_phone lab_bench off []
      (set_wifi offline_phone all_phones lab_bench (utf8 "A1") off [] []).1
set_wifi-Reached_example =
    set_wifi-Reached offline_phone all_phones lab_bench (utf8 "A1") off [] [] goes_offline

abbrev good_join : Join
good_join = record { outcome = ok tt; last = ok tt }

no_stats-IsCounted : IsCounted no_stats
no_stats-IsCounted = record {
  reasons = refl;
  fewer = omega arith;
  latest = omega arith;
  slowest = tt;
}

abbrev one_join : WifiStats
one_join = record no_stats { joins = 1; recent = 1200 ∷ []; slowest = 1200 }

one_join-IsCounted : IsCounted one_join
one_join-IsCounted = record {
  reasons = refl;
  fewer = omega arith;
  latest = omega arith;
  slowest = (omega arith, tt);
}

-- A phone that never answers, at a wait whose deadline has passed.
abbrev late_phone : Env
late_phone = record dead_phone { deadline_passed = λ t. true }

is_over : IsOverWithin late_phone (check_offline late_phone lab_bench true) 1 []
unfolding IsOverWithin
is_over h = cc

wait_for-IsOverWithin_example :
    wait_for 1 late_phone (check_offline late_phone lab_bench true) []
    ≡ wait_for 30 late_phone (check_offline late_phone lab_bench true) []
wait_for-IsOverWithin_example =
    wait_for-IsOverWithin late_phone (check_offline late_phone lab_bench true) 1 30 [] (omega arith)
      is_over
