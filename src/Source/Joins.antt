-- ===== src/Source/Joins.antt =====
-- The statistics of Wi-Fi joins (internal/devicesource/wifi.go): recordJoin, hint, wifiStatsReport. One
-- phone's are modelled. The counters are natural numbers, for fewer than 2 ^ 31 joins. Times are in
-- milliseconds; `rounded` is how a time is printed.
use sair.Base.{
  ℕ, zero, suc, ◌-◌, ◌*◌, ◌/◌, max, Bool, false, not, ◌&&◌, Option, none, some, List, [], ◌∷◌, ◌++◌,
  ltb, leb, length, drop,
}
use sair.Text.{Bytes}
use sair.Ports.Branch.{if◌then◌else◌}
use sair.Result.{Result, ok, err}
use sair.Source.Shell.{
  Fault, plain, hung, unsafe_reboot, rpc, not_online, panicked, Reason, not_associated, other_ssid,
  not_validated, no_route,
}
use sair.Source.Wifi.{Join}

-- The keys of failures_by_reason.
pub data Why : Type 0 where
  because : Reason → Why
  other : Why

-- `joinFailureReason`.
unfoldable pub join_failure_reason : Result Fault (Unit {0}) → Why
join_failure_reason (ok u) = other
join_failure_reason (err (not_online why)) = because why
join_failure_reason (err (plain e)) = other
join_failure_reason (err hung) = other
join_failure_reason (err (unsafe_reboot e)) = other
join_failure_reason (err (rpc c e)) = other
join_failure_reason (err panicked) = other

-- The counts by reason; a Go map, whose missing keys read as zero.
pub record Reasons : Type 0 where
  pub not_associated_count : ℕ
  pub other_ssid_count : ℕ
  pub not_validated_count : ℕ
  pub no_route_count : ℕ
  pub other_count : ℕ

unfoldable pub count_reason : Why → Reasons → Reasons
count_reason (because not_associated) r = record r {
  not_associated_count = suc r.not_associated_count;
}
count_reason (because other_ssid) r = record r { other_ssid_count = suc r.other_ssid_count }
count_reason (because not_validated) r = record r {
  not_validated_count = suc r.not_validated_count;
}
count_reason (because no_route) r = record r { no_route_count = suc r.no_route_count }
count_reason other r = record r { other_count = suc r.other_count }

-- `wifiStats`.
pub record WifiStats : Type 0 where
  pub joins : ℕ
  pub failures : ℕ
  pub by_reason : Reasons
  pub last_failure : Bytes
  pub last_failure_at : Option ℕ
  pub recent : List ℕ
  pub slowest : ℕ
  pub warned : Bool

abbrev pub no_stats : WifiStats
no_stats = record {
  joins = 0;
  failures = 0;
  by_reason = record {
    not_associated_count = 0;
    other_ssid_count = 0;
    not_validated_count = 0;
    no_route_count = 0;
    other_count = 0;
  };
  last_failure = [];
  last_failure_at = none;
  recent = [];
  slowest = 0;
  warned = false;
}

-- The latest hundred.
unfoldable pub keep_recent : List ℕ → List ℕ
keep_recent ts = if ltb 100 (length ts) then drop 1 ts else ts

unfoldable pub succeeded : ℕ → WifiStats → WifiStats
unfolding keep_recent
succeeded took s = record s {
  joins = suc s.joins;
  recent = keep_recent (s.recent ++ took ∷ []);
  slowest = max s.slowest took;
}

unfoldable pub failed : ℕ → Bytes → Why → WifiStats → WifiStats
unfolding count_reason
failed now message why s = record s {
  joins = suc s.joins;
  failures = suc s.failures;
  by_reason = count_reason why s.by_reason;
  last_failure = message;
  last_failure_at = some now;
}

unfoldable pub count_join : ℕ → ℕ → Bytes → Join → WifiStats → WifiStats
unfolding succeeded failed join_failure_reason
count_join now took message j s = elim j.outcome [
  | ok u ↦ succeeded took s
  | err e ↦ failed now message (join_failure_reason j.last) s
]

-- One failure in ten, after five joins.
unfoldable pub is_bad : WifiStats → Bool
is_bad s = leb 5 s.joins && leb s.joins (s.failures * 10)

-- `recordJoin`; whether it warns.
unfoldable pub record_join : ℕ → ℕ → Bytes → Join → WifiStats → Bool × WifiStats
unfolding count_join is_bad
record_join now took message j s =
    let s' : WifiStats = count_join now took message j s in
    (is_bad s' && not s'.warned, record s' { warned = is_bad s' })

pub data Hint : Type 0 where
  no_hint raise_timeout move_phone : Hint

-- `hint`; a division of a Go duration rounds down.
unfoldable pub hint : ℕ → WifiStats → Hint
hint timeout s =
    if ltb (timeout * 3 / 4) s.slowest
    then raise_timeout
    else if ltb s.failures (s.by_reason.not_associated_count * 2)
    then move_phone
    else no_hint

unfoldable pub put_in_order : ℕ → List ℕ → List ℕ
put_in_order t [] = t ∷ []
put_in_order t (u ∷ us) = let rest = put_in_order t us in if leb t u then t ∷ u ∷ us else u ∷ rest

unfoldable pub sorted : List ℕ → List ℕ
unfolding put_in_order
sorted [] = []
sorted (t ∷ ts) = put_in_order t (sorted ts)

unfoldable pub at : ℕ → List ℕ → Option ℕ
at n [] = none
at zero (t ∷ ts) = some t
at (suc n) (t ∷ ts) = at n ts

-- What `wifiStatsReport` adds to the counts: the last join and the median one, where there is one.
pub record Report : Type 0 where
  pub stats : WifiStats
  pub timeout : ℕ
  pub advice : Hint
  pub last_join : Option ℕ
  pub median_join : Option ℕ

unfoldable pub wifi_stats_report : ℕ → Option WifiStats → Option Report
unfolding hint sorted at
wifi_stats_report timeout none = none
wifi_stats_report timeout (some s) = some (record {
  stats = s;
  timeout = timeout;
  advice = hint timeout s;
  last_join = at (length s.recent - 1) s.recent;
  median_join = at (length s.recent / 2) (sorted s.recent);
})
