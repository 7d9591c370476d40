-- ===== src/Tests/Relays.antt =====
-- Runs of the theorems about relays at concrete inputs.
use sair.Base.{◌≡◌, true, false, none, some, List, [], ◌∷◌, arith}
use sair.Text.{utf8}
use sair.Result.{ok}
use sair.Relays.Records.{Store, settled_snapshot, Step, loads, lists, deletes, steps}
use sair.Relays.Once.{settled_snapshot-steps}
use sair.Relays.Holder.{Tunnel, status_error, other_code}
use sair.Relays.Owner.{Relayed}

-- A phone that was relayed under one lock, whose packages were never read.
abbrev one_record : Store
one_record = record {
  cells = record { lock_id = utf8 "L1"; settled = false; snapshot = none; prev = none } ∷ [];
  locks = (utf8 "A1", 0) ∷ [];
}

-- A late relay reads the packages after the reset has asked for them.
abbrev late_relay : List Step
late_relay =
    deletes (utf8 "A1") 0
    ∷ lists 0 (ok (utf8 "com.left.over" ∷ []))
    ∷ loads (utf8 "A1") (utf8 "L2")
    ∷ []

settled_snapshot-steps_example :
    (settled_snapshot 0 (steps late_relay (settled_snapshot 0 one_record).1)).0
    ≡ (settled_snapshot 0 one_record).0
settled_snapshot-steps_example = settled_snapshot-steps 0 one_record late_relay (omega arith)

abbrev cut_short : Tunnel
cut_short = record {
  open_error = none;
  send_error = none;
  send_status = none;
  first = ok true;
  pump_error = some (status_error other_code (utf8 "gone"));
}

abbrev no_source : Relayed
no_source = record {
  serial = utf8 "A1";
  source_addr = utf8 "10.0.0.3:7000";
  open_error = none;
  send_error = none;
  send_status = none;
  dead_after_wait = none;
  client_error = some (utf8 "no such host");
  dead_after_snapshot = none;
  forward_error = none;
  setup_error = none;
  fail_sent = true;
  pumped = false;
}
