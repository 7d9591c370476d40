-- ===== src/Source/Networks.antt =====
-- What internal/devicesource/wifi.go reads out of a phone's answers about Wi-Fi. A read that panics
-- is `none`.
use sair.Base.{
  ℕ, suc, ◌≡◌, Bool, true, false, not, ◌&&◌, Option, none, some, List, [], ◌∷◌, ◌++◌, ◌==◌, is_some,
  All,
}
use sair.Text.{Bytes, join, utf8, str_eq, cut_prefix, has_prefix}
use sair.Result.{Result, ok, err}
use sair.Ports.Branch.{if◌then◌else◌}
use sair.Ports.Device.{contains}
use sair.Lines.{
  int_lt, lines_of, split_at, trim_space, trim_byte, fields, cut, before_of, atoi, member,
}
use sair.Adb.Number.{ℤ, pos}
use sair.Source.Shell.{Fault, plain, not_online, panicked, not_validated}

-- `wifiBands`, in MHz.
unfoldable pub wifi_band : Bytes → Option (ℤ × ℤ)
wifi_band band =
    if str_eq band (utf8 "2.4")
    then some (pos 2400, pos 2500)
    else if str_eq band (utf8 "5")
    then some (pos 4900, pos 5900)
    else if str_eq band (utf8 "6")
    then some (pos 5925, pos 7125)
    else none

-- The range of a band; an unknown one's is empty but for zero, a map's zero value.
unfoldable pub is_in_band : Bytes → ℤ → Bool
unfolding int_lt wifi_band
is_in_band band freq =
    let range : ℤ × ℤ = elim (wifi_band band) [ some r ↦ r | none ↦ (pos 0, pos 0) ] in
    not (int_lt freq range.0) && not (int_lt range.1 freq)

pub record ScanResult : Type 0 where
  pub bssid : Bytes
  pub freq : ℤ
  pub rssi : ℤ
  pub ssid : Bytes

colons : Bytes → ℕ
colons [] = 0
colons (b ∷ s) = if b == b':' then suc (colons s) else colons s

until_flags : List Bytes → List Bytes
until_flags [] = []
until_flags (w ∷ ws) = if has_prefix w (utf8 "[") then [] else w ∷ until_flags ws

read_numbers : Bytes → List Bytes → Option ℤ → Option ℤ → Option ScanResult
unfolding until_flags
read_numbers bssid ws none r = none
read_numbers bssid ws (some f) none = none
read_numbers bssid ws (some f) (some r) =
    some (record { bssid = bssid; freq = f; rssi = r; ssid = join (utf8 " ") (until_flags ws) })

-- One line of the scan results.
unfoldable pub scan_line : List Bytes → Option ScanResult
unfolding colons read_numbers
scan_line (bssid ∷ freq ∷ rssi ∷ age ∷ ws) =
    if colons bssid == 5
    then read_numbers bssid ws (atoi freq) (atoi (before_of rssi (cut rssi (utf8 "("))))
    else none
scan_line (a ∷ b ∷ c ∷ []) = none
scan_line (a ∷ b ∷ []) = none
scan_line (a ∷ []) = none
scan_line [] = none

scan_lines : List Bytes → List ScanResult
scan_lines [] = []
scan_lines (l ∷ ls) = elim (scan_line (fields l)) [
  | some r ↦ r ∷ scan_lines ls
  | none ↦ scan_lines ls
]

-- `parseScanResults`.
unfoldable pub parse_scan_results : Bytes → List ScanResult
unfolding scan_lines
parse_scan_results out = scan_lines (lines_of out)

network_ids : List Bytes → List Bytes
network_ids [] = []
network_ids (l ∷ ls) = elim (fields l) [
  | [] ↦ network_ids ls
  | w ∷ ws ↦ if is_some (atoi w) then w ∷ network_ids ls else network_ids ls
]

-- `savedNetworkIDs`.
unfoldable pub saved_network_ids : Bytes → List Bytes
unfolding network_ids
saved_network_ids out = network_ids (lines_of out)

-- `wifiStatusInfo`.
pub record WifiStatus : Type 0 where
  pub enabled : Bool
  pub ssid : Bytes
  pub freq : ℤ

-- The part of a line behind "Frequency: ", up to "MHz"; what is no number reads as zero.
frequency : Bytes → ℤ
frequency rest = elim (atoi (before_of rest (cut rest (utf8 "MHz")))) [ some f ↦ f | none ↦ pos 0 ]

status_line : WifiStatus → Bytes → WifiStatus
unfolding frequency
status_line st line =
    if str_eq line (utf8 "Wifi is enabled")
    then record st { enabled = true }
    else elim (cut_prefix line (utf8 "Wifi is connected to ")) [
      | some ssid ↦ record st { ssid = trim_byte b'"' ssid }
      | none ↦ elim (cut line (utf8 "Frequency: ")) [
        | none ↦ st
        | some (before, rest) ↦
            if has_prefix line (utf8 "WifiInfo:") then record st { freq = frequency rest } else st
      ]
    ]

status_lines : WifiStatus → List Bytes → WifiStatus
unfolding status_line
status_lines st [] = st
status_lines st (l ∷ ls) = status_lines (status_line st (trim_space l)) ls

-- `parseWifiStatus`.
unfoldable pub parse_wifi_status : Bytes → WifiStatus
unfolding status_lines
parse_wifi_status out =
    status_lines (record { enabled = false; ssid = []; freq = pos 0 }) (lines_of out)

first_word : List Bytes → Option (List Bytes)
first_word [] = none
first_word (w ∷ ws) = some (split_at b'|' w)

-- `transports`: with nothing behind "Transports: " it indexes an empty slice.
unfoldable pub transports : Bytes → Option (List Bytes)
unfolding first_word
transports line = elim (cut line (utf8 "Transports: ")) [
  | none ↦ some []
  | some (before, rest) ↦ first_word (fields rest)
]

-- What the first loop has found: the default network's id and the Wi-Fi network's line.
pub record Seen : Type 0 where
  pub default_id : Bytes
  pub wifi_line : Bytes

see_default : Seen → Bytes → Seen
see_default s line = elim (cut_prefix (trim_space line) (utf8 "Active default network: ")) [
  | some v ↦ record s { default_id = trim_space v }
  | none ↦ s
]

see_wifi : Seen → Bytes → Option Seen
see_wifi s line = if not (str_eq s.wifi_line []) then some s else elim (transports line) [
  | none ↦ none
  | some ts ↦ some (if member (utf8 "WIFI") ts then record s { wifi_line = line } else s)
]

unfoldable pub look_for_wifi : Seen → List Bytes → Option Seen
unfolding see_default see_wifi
look_for_wifi s [] = some s
look_for_wifi s (l ∷ ls) = elim (see_wifi (see_default s l) l) [
  | none ↦ none
  | some s' ↦ look_for_wifi s' ls
]

-- Whether one of the lines is the default network's, over mobile data.
unfoldable pub is_cellular : Bytes → List Bytes → Option Bool
is_cellular id [] = some false
is_cellular id (l ∷ ls) =
    let rest = is_cellular id ls in
    if not (str_eq id []) && contains l (utf8 "network{" ++ (id ++ utf8 "}"))
    then elim (transports l) [
      | none ↦ none
      | some ts ↦ if member (utf8 "CELLULAR") ts then some true else rest
    ]
    else rest

cellular_outcome : Option Bool → Result Fault (Unit {0})
cellular_outcome none = err panicked
cellular_outcome (some true) = err (plain (utf8 "default network is cellular, not Wi-Fi"))
cellular_outcome (some false) = ok tt

seen_outcome : List Bytes → Option Seen → Result Fault (Unit {0})
unfolding cellular_outcome
seen_outcome ls none = err panicked
seen_outcome ls (some s) =
    if str_eq s.wifi_line []
    then err (plain (utf8 "no Wi-Fi network in dumpsys connectivity"))
    else if not (contains s.wifi_line (utf8 "VALIDATED"))
    then err (not_online not_validated)
    else cellular_outcome (is_cellular s.default_id ls)

-- `wifiValidatedNotCellularDefault`.
unfoldable pub wifi_is_validated : Bytes → Result Fault (Unit {0})
unfolding seen_outcome
wifi_is_validated out =
    seen_outcome (lines_of out)
      (look_for_wifi (record { default_id = []; wifi_line = [] }) (lines_of out))

-- Every line with transports names one.
unfoldable pub NamesTransports : List Bytes → Type 0
NamesTransports ls = All (λ l. is_some (transports l) ≡ true) ls
