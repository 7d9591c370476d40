-- ===== src/Devices/Host.antt =====
-- `handleHostCommand`, `handleTransport` and the route of a tunnel (internal/proxy/adb_connection.go).
use sair.Base.{
  ℕ, zero, suc, ◌+◌, ◌-◌, ◌*◌, ◌^◌, Bool, true, false, not, ◌&&◌, ◌||◌, Option, none, some, List,
  [], ◌∷◌, ◌++◌, ltb, leb, ◌==◌, is_some, length, any_of,
}
use sair.Text.{Bytes, utf8, str_eq, has_prefix, trim_prefix, has_suffix, trim_suffix}
use sair.Ports.Branch.{if◌then◌else◌}
use sair.Ports.Device.{contains}
use sair.Adb.{format_device_line, format_device_line_long}
use sair.Adb.Number.{ℤ, pos, negsuc, hex4, decimal, put_uint64}
use sair.Devices.Features.{features_for_sdk}
use sair.Devices.Tracker.{Device, lookup, get_source_addr, get_serial_by_transport_id}
use sair.Devices.Visible.{
  Connection, is_serial_allowed, visible_devices, sdk_of, min_visible_sdk, transport_id_of,
}

-- What a command makes the connection do: the calls of the write functions, the tunnel to a device
-- through a source (`[]` for the relay), and holding the connection open.
pub data Reply : Type 0 where
  reply_okay hold_open : Reply
  reply_payload reply_fail reply_raw : Bytes → Reply
  tunnel_to : Bytes → Bytes → Reply

abbrev pub not_available : Bytes → Reply
not_available serial =
    reply_fail (utf8 "device " ++ (serial ++ utf8 " not available — use sair-acquire"))

is_remote : Connection → Bytes → Bool
is_remote c serial = is_some (lookup serial c.remote_devices)

unfoldable pub handle_transport : Connection → Bytes → List Reply
unfolding is_remote str_eq
handle_transport c serial =
    let addr = get_source_addr c.tracker serial in
    if str_eq addr [] && not (is_remote c serial)
    then reply_fail (utf8 "no device-source registered for " ++ serial) ∷ []
    else reply_okay ∷ tunnel_to addr serial ∷ []

-- The transport id goes out as eight bytes after the OKAY.
unfoldable pub handle_transport_with_id : Connection → Bytes → List Reply
unfolding is_remote str_eq
handle_transport_with_id c serial =
    let addr = get_source_addr c.tracker serial in
    if str_eq addr [] && not (is_remote c serial)
    then reply_fail (utf8 "no device-source registered for " ++ serial) ∷ []
    else reply_okay ∷ reply_raw (put_uint64 (transport_id_of c serial)) ∷ tunnel_to addr serial ∷ []

underscored : Bytes → Bytes
underscored [] = []
underscored (b ∷ s) = (if b == b' ' then b'_' else b) ∷ underscored s

short_lines : List Device → Bytes
short_lines [] = []
short_lines (d ∷ ds) = format_device_line d.serial ++ short_lines ds

long_lines : Connection → List Device → Bytes
unfolding underscored
long_lines c [] = []
long_lines c (d ∷ ds) =
    let model = underscored d.model in
    format_device_line_long d.serial model model model (transport_id_of c d.serial)
    ++ long_lines c ds

device_list : Connection → Bool → Bytes
unfolding short_lines long_lines visible_devices
device_list c long =
    if long then long_lines c (visible_devices c) else short_lines (visible_devices c)

unfoldable pub track_devices : Connection → Bool → List Reply
unfolding device_list
track_devices c long =
    let text = device_list c long in
    reply_okay ∷ reply_raw (hex4 (length text) ++ text) ∷ hold_open ∷ []

unfoldable pub with_allowed : Connection → Bytes → List Reply → List Reply
with_allowed c serial rs = if is_serial_allowed c serial then rs else not_available serial ∷ []

unfoldable pub on_first : List Device → (Bytes → List Reply) → List Reply
on_first [] f = reply_fail (utf8 "no devices available — use sair-acquire") ∷ []
on_first (d ∷ ds) f = f d.serial

-- What `fmt.Sscanf("%d")` leaves in the int: blanks, a sign, digits as far as they go; 0 where none
-- stand there or the number is out of range.
is_blank : ℕ → Bool
is_blank b = b == b' ' || b == b'\t' || b == b'\r' || b == 11 || b == 12

digits : ℕ → Bool → Bytes → Option ℕ
digits n any [] = if any then some n else none
digits n any (b ∷ s) =
    let rest = digits (n * 10 + (b - b'0')) true s in
    if leb b'0' b && leb b b'9' then rest else if any then some n else none

signed : Bool → Option ℕ → ℤ
signed minus none = pos 0
signed false (some n) = if ltb n (2 ^ 63) then pos n else pos 0
signed true (some zero) = pos 0
signed true (some (suc n)) = if ltb n (2 ^ 63) then negsuc n else pos 0

scan_int : Bytes → ℤ
unfolding is_blank digits signed
scan_int [] = pos 0
scan_int (b ∷ s) =
    let rest = scan_int s in
    if is_blank b
    then rest
    else if b == b'-'
    then signed true (digits 0 false s)
    else if b == b'+'
    then signed false (digits 0 false s)
    else signed false (digits 0 false (b ∷ s))

-- The serial of a transport id: the tracker's, else the port's own.
unfoldable pub serial_of_id : Connection → ℕ → Bytes
unfolding str_eq
serial_of_id c id =
    let serial = get_serial_by_transport_id c.tracker id in
    if str_eq serial []
    then elim c.remote_serial_by_transport_id [ none ↦ [] | some f ↦ f id ]
    else serial

not_found_id : Bytes → List Reply
not_found_id id = reply_fail (utf8 "device not found for transport id " ++ id) ∷ []

-- An id below zero is nobody's.
unfoldable pub transport_by_id : Connection → ℤ → List Reply
unfolding not_found_id str_eq
transport_by_id c (pos zero) = reply_fail (utf8 "invalid transport id") ∷ []
transport_by_id c (negsuc n) = not_found_id (b'-' ∷ decimal (n + 1))
transport_by_id c (pos (suc n)) =
    let serial = serial_of_id c (suc n) in
    if str_eq serial []
    then not_found_id (decimal (suc n))
    else with_allowed c serial (handle_transport c serial)

-- What stands before the first occurrence.
before : Bytes → Bytes → Option Bytes
before p [] = if has_prefix [] p then some [] else none
before p (b ∷ s) =
    let rest = before p s in
    if has_prefix (b ∷ s) p then some [] else elim rest [ none ↦ none | some t ↦ some (b ∷ t) ]

unfoldable pub wait_for : Connection → Bytes → Option Bytes → List Reply
unfolding str_eq
wait_for c request none =
    reply_fail (utf8 "malformed host-serial wait-for command: " ++ request) ∷ []
wait_for c request (some []) =
    reply_fail (utf8 "malformed host-serial wait-for command: " ++ request) ∷ []
wait_for c request (some (b ∷ s)) = with_allowed c (b ∷ s) (
    if any_of {A = Device} (λ d. str_eq d.serial (b ∷ s)) (visible_devices c)
    then reply_okay ∷ reply_okay ∷ []
    else reply_fail (utf8 "unknown device: " ++ (b ∷ s)) ∷ [])

unfoldable pub other_serial_command : Bytes → Option Bytes → List Reply
other_serial_command request (some (b ∷ s)) =
    reply_fail (utf8 "unsupported command: " ++ request) ∷ []
other_serial_command request o = reply_fail (utf8 "malformed host-serial command: " ++ request) ∷ []

is : Bytes → Bytes → Bool
unfolding str_eq
is request name = str_eq request name

-- The cases about one serial or all, behind those that name no transport.
unfoldable pub handle_serial_command : Connection → Bytes → List Reply
unfolding wait_for other_serial_command before
handle_serial_command c request =
    let rest = trim_prefix request (utf8 "host-serial:") in
    if has_prefix request (utf8 "host-serial:") && contains request (utf8 ":wait-for-")
    then wait_for c request (before (utf8 ":wait-for-") rest)
    else if has_prefix request (utf8 "host-serial:")
    then other_serial_command request (before (utf8 ":") rest)
    else if has_prefix request (utf8 "host:")
    then reply_fail (utf8 "unsupported command: " ++ request) ∷ []
    else reply_fail (utf8 "expected host: command") ∷ []

unfoldable pub handle_transport_command : Connection → Bytes → List Reply
unfolding is scan_int
handle_transport_command c request =
    if has_prefix request (utf8 "host:transport:")
    then (let serial = trim_prefix request (utf8 "host:transport:") in
        with_allowed c serial (handle_transport c serial))
    else if is request (utf8 "host:transport-any")
    then on_first (visible_devices c) (handle_transport c)
    else if has_prefix request (utf8 "host:tport:serial:")
    then (let serial = trim_prefix request (utf8 "host:tport:serial:") in
        with_allowed c serial (handle_transport_with_id c serial))
    else if is request (utf8 "host:tport:any")
    then on_first (visible_devices c) (handle_transport_with_id c)
    else if has_prefix request (utf8 "host:transport-id:")
    then transport_by_id c (scan_int (trim_prefix request (utf8 "host:transport-id:")))
    else handle_serial_command c request

unfoldable pub handle_host_command : Connection → Bytes → List Reply
unfolding is track_devices device_list
handle_host_command c request =
    if is request (utf8 "host:version")
    then reply_payload (utf8 "0029") ∷ []
    else if is request (utf8 "host:features") || is request (utf8 "host:host-features")
    then reply_payload (features_for_sdk (min_visible_sdk c)) ∷ []
    else if has_prefix request (utf8 "host-serial:") && has_suffix request (utf8 ":features")
    then (let serial = trim_suffix (trim_prefix request (utf8 "host-serial:")) (utf8 ":features") in
        with_allowed c serial (reply_payload (features_for_sdk (sdk_of c serial)) ∷ []))
    else if is request (utf8 "host:devices") || is request (utf8 "host:devices-short")
    then reply_payload (device_list c false) ∷ []
    else if is request (utf8 "host:devices-l")
    then reply_payload (device_list c true) ∷ []
    else if is request (utf8 "host:track-devices") || is request (utf8 "host:track-devices-l")
    then track_devices c (has_suffix request (utf8 "-l"))
    else if is request (utf8 "host:kill")
    then reply_okay ∷ []
    else handle_transport_command c request
