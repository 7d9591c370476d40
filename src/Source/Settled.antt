-- ===== src/Source/Settled.antt =====
-- After a cycle of a phone's Bluetooth (internal/devicesource/bluetooth.go) nothing that it changed for
-- a while is left changed.
use sair.Result.{Result}
use sair.Source.Settles.{Settles}
