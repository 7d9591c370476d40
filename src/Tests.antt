-- ===== src/Tests.antt =====
-- Runs of the development's theorems at concrete inputs.
mod Phone
mod Session
mod Updates
mod Logs
mod Ports
mod Api
mod Benches
mod Relays
mod Recovery
use sair.Base.{
  if◌then◌else◌, any_of, All, ℕ, ◌+◌, ◌-◌, ◌≤◌, ◌≡◌, refl, ◌≢◌, ◌⊎◌, true, false, none, some, List,
  [], ◌∷◌, ◌++◌, arith, length, take,
}
use sair.Text.{Bytes, utf8, str_eq}
use sair.Devices.Tracker.{Device, Tracker, lookup, serials_of, all_devices, rebuild}
use sair.Devices.Visible.{Connection}
use sair.Devices.Host.{handle_host_command}
use sair.Devices.Isolated.{Reaches, handle_host_command-Reaches}
use sair.Devices.Stable.{rebuild-keeps_id}
use sair.Result.{ok}
use sair.Logging.Redact.{redact_secrets}
use sair.Logging.Redact.Hidden.{connect_network, name_of, redact_secrets-hides}
use sair.Adb.{
  Reader, at_eof, read_full, read_request, okay, write_okay_with_payload, shell_v2_packet,
}
use sair.Adb.Number.{hex4}
use sair.Adb.Bounds.{read_request-takes}
use sair.Adb.Framing.{reader, read_request-hex4, write_okay_with_payload-reads_back}
use sair.LockLog.Entries.{Entry, blank}
use sair.LockLog.{LockLog, empty, log_entry, truncation_marker, max_lock_log_service_len}
use sair.LockLog.Tunnel.{Observer, observe, max_unflushed_output}
use sair.LockLog.Tunnel.Bytewise.{observe_bytes}
use sair.LockLog.Tunnel.Pieces.{observe-append, observe-eq-observe_bytes}
use sair.LockLog.Tunnel.Packets.{opened, encode_all, outputs, observe-packets}
use sair.LockLog.Drained.{IsCounted, drain-hands_out}
use sair.LockLog.Bounds.{
  IsBounded, log_entry-IsBounded, drain-IsBounded, log_entry-keeps_or_marks, HasRoom, IsClipped,
  IsMarked,
}
use sair.Tests.Benches.{good_bench}
use sair.Ports.World.{Trace, Bench, ScopedPort, World, find_port, held_by}
use sair.Ports.Reset.{reset_device, reset_devices}
use sair.Ports.Manager.{close_scoped_port, restart_bluetooth}
use sair.Ports.Keeps.{Keeps}
use sair.Ports.Closed.{Undriven, close_scoped_port-closes, reset_device-leaves_held}
use sair.Ports.Ended.{about, IsRecorded, reset_devices-drives_own, reset_device-needs_snapshot}
use sair.Ports.Bluetooth.{Cycles, restart_bluetooth-Cycles}

-- An observer as it is made for a shell v2 session.
abbrev new_observer : Observer
new_observer = record {
  serial = utf8 "A1";
  id = 1;
  entry = none;
  started = 0;
  capture = true;
  v2 = true;
  status = [];
  skip = 0;
  hdr = [];
  left = 0;
  keep = false;
  buf = [];
  dropped = 0;
  binary = false;
}

-- What a device answers to a command that prints two bytes and exits.
abbrev two_packets : List (ℕ × Bytes)
two_packets = (1, utf8 "hi") ∷ (3, 0 ∷ []) ∷ []

observe-append_example :
    observe new_observer (utf8 "OKAY" ++ shell_v2_packet 1 (utf8 "hi"))
    ≡ observe (observe new_observer (utf8 "OKAY")) (shell_v2_packet 1 (utf8 "hi"))
observe-append_example =
    observe-append new_observer (utf8 "OKAY") (shell_v2_packet 1 (utf8 "hi")) (omega arith)

observe-packets_example :
    let u = observe (opened new_observer) (okay ++ encode_all two_packets) in
    let room = max_unflushed_output - length new_observer.buf in
    (u.buf ≡ new_observer.buf ++ take room (outputs two_packets))
    × (u.dropped ≡ new_observer.dropped + (length (outputs two_packets) - room))
observe-packets_example =
    observe-packets new_observer two_packets refl (omega arith, (omega arith, tt))

-- Two services recorded between heartbeats.
abbrev two_entries : List Entry
two_entries = record blank { service = utf8 "shell:ls" } ∷ record blank { output = utf8 "hi" } ∷ []

abbrev recorded : LockLog
recorded = record empty { pending = two_entries; pending_bytes = 2 }

recorded-IsCounted : IsCounted recorded
recorded-IsCounted = record { counted = refl }

recorded-IsBounded : IsBounded recorded
recorded-IsBounded = record { entries = omega arith; bytes = omega arith }

log_entry-IsBounded_example :
    IsCounted (log_entry recorded blank) × IsBounded (log_entry recorded blank)
log_entry-IsBounded_example =
    log_entry-IsBounded recorded blank recorded-IsCounted recorded-IsBounded

log_entry-keeps_or_marks_example :
    let l' = log_entry recorded blank in
    (HasRoom recorded blank
      × ((service : Bytes) × IsClipped (redact_secrets []) service
          × (l'.pending ≡ recorded.pending ++ record blank { service = service } ∷ [])))
    ⊎ ((¬ HasRoom recorded blank) × IsMarked recorded blank l')
log_entry-keeps_or_marks_example = log_entry-keeps_or_marks recorded blank

abbrev on_the_wire : Reader
on_the_wire = reader (hex4 4 ++ (utf8 "host" ++ [])) at_eof

on_the_wire_reads : read_request on_the_wire ≡ ok (utf8 "host", reader [] at_eof)
on_the_wire_reads = read_request-hex4 (utf8 "host") [] at_eof (omega arith)

write_okay_with_payload-reads_back_example :
    (msg : Bytes) × (tail : Reader) × (write_okay_with_payload {W = Bytes} {E = Unit {0}}
        (λ w p. (w ++ p, none))
        []
        (utf8 "41")
      ≡ (msg, none))
    × (read_full 4 (reader (msg ++ utf8 "rest") at_eof) ≡ ok (okay, tail))
    × (read_request tail ≡ ok (utf8 "41", reader (utf8 "rest") at_eof))
write_okay_with_payload-reads_back_example =
    write_okay_with_payload-reads_back (λ w p. (w ++ p, none)) [] (utf8 "41") (utf8 "rest") at_eof
      (omega arith)

redact_secrets-hides_example :
    redact_secrets (
      (utf8 "shell,v2,raw:cmd wifi " ++ name_of connect_network)
      ++ b' ' ∷ (utf8 "lab wpa2 pass" ++ utf8 "\nls"))
    ≡ redact_secrets
        ((utf8 "shell,v2,raw:cmd wifi " ++ name_of connect_network) ++ b' ' ∷ ([] ++ utf8 "\nls"))
redact_secrets-hides_example =
    redact_secrets-hides connect_network (utf8 "shell,v2,raw:cmd wifi ") (utf8 "lab wpa2 pass") []
      (utf8 "\nls") (ground arith) tt

-- A lock of two phones, one of them on another box.
abbrev lab_port : ScopedPort
lab_port = record {
  lock_id = utf8 "L1";
  serials = utf8 "A1" ∷ utf8 "B2" ∷ [];
  port = 5037;
  log = some 0;
  remote_devices = utf8 "B2" ∷ [];
  device_token = utf8 "token";
  device_api_port = 0;
  relayed = false;
}

abbrev guest_port : ScopedPort
guest_port = record lab_port { lock_id = utf8 "L2"; relayed = true }

abbrev lab : World
lab = record {
  ports = lab_port ∷ [];
  logs = λ n. empty;
  next_log = 1;
  bt_fresh = [];
  relays = record { serial = utf8 "A1"; lock_id = utf8 "L2"; snapshot = none } ∷ [];
  trace = [];
}

lab_holds : held_by (utf8 "A1") lab.ports ≡ true
unfolding held_by str_eq
lab_holds = refl

other_lock : str_eq (utf8 "L1") (utf8 "L2") ≡ false
unfolding str_eq
other_lock = refl

reset_device-leaves_held_example :
    Undriven lab (reset_device good_bench guest_port (utf8 "A1") lab).1
reset_device-leaves_held_example =
    reset_device-leaves_held good_bench guest_port (utf8 "A1") lab lab_holds

close_scoped_port-closes_example :
    let w' = (close_scoped_port good_bench (utf8 "L1") lab).1 in
    (find_port (utf8 "L1") w'.ports ≡ none)
    × (find_port (utf8 "L2") w'.ports ≡ find_port (utf8 "L2") lab.ports)
    × (close_scoped_port good_bench (utf8 "L1") w' ≡ (false, w'))
close_scoped_port-closes_example =
    close_scoped_port-closes good_bench (utf8 "L1") (utf8 "L2") lab other_lock

reset_devices-drives_own_example :
    Keeps
      (λ c. (about lab_port.serials c ≡ true) × (about lab_port.remote_devices c ≡ false))
      (reset_devices good_bench lab_port)
reset_devices-drives_own_example = reset_devices-drives_own good_bench lab_port

-- The phone is in no port; its record was made under the lock.
abbrev guest_world : World
guest_world = record lab {
  ports = [];
  relays =
      record { serial = utf8 "A1"; lock_id = utf8 "L2"; snapshot = some (utf8 "com.owner" ∷ []) }
      ∷ [];
}

reset_device-needs_snapshot_example :
    let w' = (reset_device good_bench guest_port (utf8 "A1") guest_world).1 in
    (w'.ports ≡ guest_world.ports)
    × ((new : Trace) × (w'.trace ≡ new ++ guest_world.trace)
        × All (IsRecorded guest_world.relays (utf8 "L2")) new)
reset_device-needs_snapshot_example =
    reset_device-needs_snapshot good_bench guest_port (utf8 "A1") guest_world refl

restart_bluetooth-Cycles_example :
    Cycles (restart_bluetooth good_bench (utf8 "L1") (utf8 "A1" ∷ []))
restart_bluetooth-Cycles_example = restart_bluetooth-Cycles good_bench (utf8 "L1") (utf8 "A1" ∷ [])

abbrev lab_device : Device
lab_device = record {
  serial = utf8 "A1";
  model = utf8 "Pixel 7";
  sdk = 34;
  device_source = utf8 "src";
}

abbrev lab_tracker : Tracker
lab_tracker = record {
  sources = record { addr = utf8 "src"; devices = lab_device ∷ []; last_seen = 0 } ∷ [];
  devices = lab_device ∷ [];
  serial_to_source = (utf8 "A1", utf8 "src") ∷ [];
  transport_ids = (utf8 "A1", 1) ∷ [];
  next_transport = 2;
}

abbrev lab_connection : Connection
lab_connection = record {
  tracker = lab_tracker;
  allowed = some (utf8 "A1" ∷ []);
  remote_devices = (utf8 "B2", record lab_device { serial = utf8 "B2" }) ∷ [];
  remote_transport_id = none;
  remote_serial_by_transport_id = none;
}

handle_host_command-Reaches_example :
    All (Reaches (utf8 "A1" ∷ [])) (handle_host_command lab_connection (utf8 "host:transport-any"))
handle_host_command-Reaches_example =
    handle_host_command-Reaches lab_connection (utf8 "A1" ∷ []) (utf8 "host:transport-any")
      (refl, tt) refl

lab_id : lookup (utf8 "A1") lab_tracker.transport_ids ≡ some 1
unfolding lookup str_eq
lab_id = refl
