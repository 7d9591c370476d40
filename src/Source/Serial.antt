-- ===== src/Source/Serial.antt =====
-- `validateSerial`, `managed` and `checkSerial` (internal/devicesource/server.go): which phones the
-- device source touches.
use sair.Base.{
  ℕ, Bool, true, false, not, ◌&&◌, ◌||◌, Option, none, some, List, [], ◌∷◌, ◌++◌, leb, ◌==◌,
  if◌then◌else◌,
}
use sair.Text.{Bytes, utf8}
use sair.Lines.{member}
use sair.Source.Shell.{invalid_argument, not_found, Fault, rpc}
use sair.Result.{Result, ok, err}

-- A class of the pattern `^[a-zA-Z0-9._:()\-]+$`.
is_serial_byte : ℕ → Bool
is_serial_byte b =
    (leb b'a' b && leb b b'z')
    || (leb b'A' b && leb b b'Z')
    || (leb b'0' b && leb b b'9')
    || b == b'.'
    || b == b'_'
    || b == b':'
    || b == b'('
    || b == b')'
    || b == b'-'

all_serial_bytes : Bytes → Bool
unfolding is_serial_byte
all_serial_bytes [] = true
all_serial_bytes (b ∷ s) = is_serial_byte b && all_serial_bytes s

-- `serialPattern.MatchString`.
unfoldable pub is_serial : Bytes → Bool
unfolding all_serial_bytes
is_serial [] = false
is_serial (b ∷ s) = all_serial_bytes (b ∷ s)

-- The filter: with `allow` set only those serials are managed, otherwise all but `deny`.
pub record Filter : Type 0 where
  pub allow : Option (List Bytes)
  pub deny : List Bytes

unfoldable pub managed : Filter → Bytes → Bool
managed f serial = elim f.allow [ none ↦ not (member serial f.deny) | some ss ↦ member serial ss ]

unfoldable pub check_serial : Filter → Bytes → Result Fault (Unit {0})
unfolding is_serial managed
check_serial f serial =
    if not (is_serial serial)
    then err (rpc invalid_argument (utf8 "invalid device serial: " ++ serial))
    else if not (managed f serial)
    then err (
        rpc not_found
          (utf8 "device " ++ (serial ++ utf8 " is excluded by DEVICE_SERIALS/EXCLUDE_SERIALS")))
    else ok tt
