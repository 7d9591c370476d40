-- ===== src/Tests/Recovery.antt =====
-- A run of the theorem about the cycle of Bluetooth, on a phone whose adapter stays at BLE_ON.
use sair.Base.{true, false, none, []}
use sair.Text.{utf8}
use sair.Source.Shell.{Env}
use sair.Source.Serial.{Filter}

abbrev stuck : Env
stuck = record {
  shell = λ t line. record { out = utf8 "  state: BLE_ON"; error = none; late = false };
  deadline_passed = λ t. true;
  cancelled = λ t. false;
}

abbrev any_phone : Filter
any_phone = record { allow = none; deny = [] }
