-- ===== src/Lib.antt =====
-- A model of the sair proxy's core: what it does with a lock on phones from the grant to the reset,
-- the log that it keeps of the lock, and the ADB framing under both.
--
-- The program's parts. A scoped port (internal/proxy/scoped_port.go) is one lock's ADB port: acquiring
-- it cleans and wakes the lock's phones, closing it resets them, and each step is told to the lock's
-- log (internal/proxy/lock_log.go). The connections on the port speak ADB's framing
-- (internal/proxy/adb_protocol.go); an observer on each connection decodes what the phone answers into
-- the log, which heartbeats and the release drain. Before that the connection answers host commands
-- (internal/proxy/adb_connection.go) about the devices that device sources report
-- (internal/proxy/device_tracker.go), as far as its lock allows. Service strings are redacted first
-- (internal/logging/redact.go). The end of a lock also resets phones that were relayed for another
-- proxy, by the records of internal/proxy/relay.go. While a lock is held, the keepalive loop of its
-- port ships the log and heartbeats, on the session with the orchestrator (internal/proxy/session.go)
-- or by unary calls (internal/proxy/command_router.go). What a reset does to a phone, the device source
-- does (internal/devicesource): it runs commands in the phone's shell and reads their answers. Runners
-- ask for locks over the HTTP API (internal/proxy/http_api.go), which checks their keys and parameters.
--
-- The files.
--   Base, Text, Result   lists and tests on native numbers, byte strings, results
--   Adb                  adb_protocol.go: ReadRequest is read_request, WriteOkayWithPayload is
--                        write_okay_with_payload, and so on; Adb/Number is the arithmetic of strconv,
--                        fmt and encoding/binary that they use
--   Devices/Features     features.go: FeaturesForSdk
--   Devices/Tracker      device_tracker.go: UpdateDevices, rebuild, reapAndReport (reap)
--   Devices/Visible      adb_connection.go: what a connection may see
--   Devices/Host         adb_connection.go: handleHostCommand, split in three by its cases
--   Devices/Route        adb_connection.go: where tunnel sends a request
--   Logging/Redact       RedactSecrets is redact_secrets, the regular expression as a scan
--   LockLog              LockLog and its methods; Record is log_entry, Drain is drain_some
--   LockLog/Tunnel       tunnelObserver: observe, append, take (take_piece)
--   LockLog/Sniff        sniffConn: feed, and what Read and Write do to it
--   LockLog/Utf8         the unicode/utf8 functions that take uses
--   Ports/World          the manager's state, and its function fields as a record, Bench
--   Ports/Device         the steps on one phone: cleanDevice, cycleBluetooth, unwedge, wakeDevice
--   Ports/Reset          resetDevice and resetDevices, logExcerpt, takeRelayRecord
--   Ports/Manager        create, close, release, expiry, shutdown, the mid-job calls
--   Ports/Acquire        Acquire
--   Ports/Conns          trackConn, untrackConn, closeConns
--   Ports/RemoteIds      remoteTransportID, remoteSerialByTransportID
--   Ports/Prepared       what the steps of Acquire and Release leave in the map of ports
--   Api                  http_api.go: the records of a request, a response and what handlers call
--   Api/Params, Labels   parseWifiState, validWifiBand, parseLabels
--   Api/Keys             requireAuth, tenantKey
--   Api/Locks            handleRelease, handleLabel, lockRequest, handleWifi, handleBluetooth
--   Api/Acquire          handleAcquire
--   Api/Reports          handleStatus, handleRegisterDevices
--   Api/Serve            the routes of NewHTTPApi
--   Api/Backed           the scoped ports as what the handlers call
--   Relays/Records       relay.go: relayRecord as a cell of a store, and the steps on it
--   Relays/Holder        relay.go: RelayToDevice, relayErr; adb_connection.go: what tunnel tells
--   Relays/Owner         relay.go: ServeRelay
--   Router/Session       session.go: send, run, serveOnce, with gRPC's answers as arguments
--   Router/Sources       command_router.go: the calls of a device source
--   Router/Orchestrator  command_router.go: ReportDevices, LockHeartbeat, SendLockLog
--   Router/Retries       command_router.go: AcquireLock
--   Router/Events        command_router.go: Event, sendEvents
--   Router/Keepalive     scoped_port.go: runKeepalive, one function for each of its timers
--   Lines                the functions of strings and strconv that the parsers use
--   Source/Shell         a phone's shell, and waitFor (wifi.go), radioShell and svc (reboot.go)
--   Source/Serial        server.go: checkSerial
--   Source/Packages      packages.go
--   Source/Reboot        reboot.go, and dumpsysField (screen.go)
--   Source/Screen        screen.go, uiautomation.go, updates.go
--   Source/Networks      wifi.go: the parsers
--   Source/Wifi          wifi.go: SetWifi and its parts
--   Source/Bluetooth     bluetooth.go: ResetBluetooth, bluetoothOff, bleApps
--   Source/Joins         wifi.go: recordJoin, hint, wifiStatsReport
--   Updater              updater.go: isNewer, atomicReplace, CheckAndUpdate
--   Logging/Recent       recent.go: Write is write, Lines is read_lines
-- The other files prove things about these, and are named for what they prove. Tests holds runs.
--
-- The model. A byte is a natural number, a string a list of bytes, an int a natural number where it
-- cannot be negative. Wrap-around is written out (% 2 ^ 64 for request ids, % 2 ^ 32 for packet
-- lengths). A nil log is `none` where it can occur. The manager's function fields are parameters whose
-- answers may depend on every call so far; a run records its calls, and that record is what the
-- theorems on resets speak of. A run is a function from a world to an answer and the next world. Maps
-- are lists: a Go map has no order, so the serials of a lock stand in the sorted order that
-- localSerials gives them. Phones that the source serves at once are served one after another here;
-- each phone has its own mutex, held throughout.
--
-- Loops. observe and feed run on fuel, one round for each byte, which is enough as every round takes a
-- byte; DrainAll runs on fuel, one round for each pending entry and one more, as every batch takes an
-- entry. A wait of the device source (waitFor) runs on rounds: each but the last waits two seconds or up
-- to the deadline, so there are at most two more than the timeout has pauses of two seconds. AcquireLock
-- has its ten retries. The keepalive loop, and the loop of reconnects, run over a list of what happens, and so
-- does relayRecordFor, which tries again when another relay was faster; left alone it needs one round.
-- All other loops are over lists.
--
-- A phone's shell is a parameter whose answers may depend on every command that was run before; so are
-- the deadlines of a wait. The shell's commands are a data type, with the command line of each as a
-- function of it. Errors keep what the code asks of them, a code or a kind; most texts are left out.
-- White space is that of ASCII. A Go map from serials to something is, on one phone, that phone's entry.
--
-- Not modelled: sockets, goroutines and timers (the accept loop, the pump), gRPC, JSON,
-- the generated code, and for now the device source's accounts and the download of an update.
pub mod Base
pub mod Text
pub mod Result
pub mod Lines
pub mod Source
pub mod Router
pub mod Updater
pub mod Api
pub mod Relays
pub mod Adb
pub mod Ports
pub mod Devices
pub mod LockLog
pub mod Logging
pub mod Tests
