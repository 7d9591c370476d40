-- ===== src/Devices/Route.antt =====
-- `tunnel` (internal/proxy/adb_connection.go): where the request behind a transport goes.
use sair.Base.{[], ◌∷◌, ◌++◌, if◌then◌else◌, is_some}
use sair.Text.{Bytes, utf8, has_prefix}
use sair.Devices.Tracker.{lookup}
use sair.Devices.Visible.{Connection}

-- The relay, the device source at an address, or a refusal with this message.
pub data Route : Type 0 where
  through_relay : Route
  through_source : Bytes → Route
  refuse : Bytes → Route

unfoldable pub relay_route : Bytes → Bytes → Route
relay_route serial service =
    if has_prefix service (utf8 "reverse:")
    then refuse (
        utf8 "adb reverse is not supported on "
        ++ (serial ++ utf8 ": it is relayed from another proxy"))
    else through_relay

-- The route of a service whose request was read, for a transport to `serial` through the source
-- at `addr`; `[]` is no source.
unfoldable pub route : Connection → Bytes → Bytes → Bytes → Route
unfolding relay_route
route c [] serial service =
    if is_some (lookup serial c.remote_devices)
    then relay_route serial service
    else through_source []
route c (b ∷ addr) serial service = through_source (b ∷ addr)
