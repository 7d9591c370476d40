-- ===== src/Relays/Owner.antt =====
-- The owner's end of a relay (`ServeRelay`, internal/proxy/relay.go): the steps in their order, each with
-- the way out that it has. What the streams and the device source answer is a parameter, the text of
-- an error where there is one.
use sair.Base.{Bool, Option, none, some, List, [], ◌∷◌, ◌++◌, if◌then◌else◌}
use sair.Text.{Bytes, utf8, str_eq}

-- `dead_…`: what ended the tunnel, if its first Recv has seen it by then. `fail_sent`: whether a FAIL
-- reached the stream. `pumped`: whether both directions ended by themselves.
pub record Relayed : Type 0 where
  pub serial : Bytes
  pub source_addr : Bytes
  pub open_error : Option Bytes
  pub send_error : Option Bytes
  pub send_status : Option Bytes
  pub dead_after_wait : Option Bytes
  pub client_error : Option Bytes
  pub dead_after_snapshot : Option Bytes
  pub forward_error : Option Bytes
  pub setup_error : Option Bytes
  pub fail_sent : Bool
  pub pumped : Bool

pub data Deed : Type 0 where
  keeps_record opens_tunnel joins waits_reset checks_tunnel dials_source takes_snapshot : Deed
  opens_forward opens_device pumps closes_send drains cancels : Deed
  -- `fail`: relay_failed, with its reason; `failInBand`: a FAIL through the tunnel.
  reports : Bytes → Deed
  fails_in_band : Bytes → Deed

-- A step that may fail, and what is done behind it if it does not.
unfoldable pub unless_error : Option Bytes → (Bytes → List Deed) → List Deed → List Deed
unless_error none out rest = rest
unless_error (some e) out rest = out e

first_text : Bytes → Option Bytes → Bytes
first_text e none = e
first_text e (some status) = status

abbrev pub reported : Bytes → List Deed
reported e = reports e ∷ cancels ∷ []

unfoldable pub in_band : Relayed → Bytes → List Deed
in_band r e =
    if r.fail_sent
    then fails_in_band e ∷ closes_send ∷ drains ∷ cancels ∷ []
    else fails_in_band e ∷ cancels ∷ []

unfoldable pub pump_through : Relayed → List Deed
pump_through r =
    if r.pumped then pumps ∷ closes_send ∷ drains ∷ cancels ∷ [] else pumps ∷ cancels ∷ []

unfoldable pub open_device : Relayed → List Deed
unfolding unless_error in_band pump_through
open_device r =
    opens_forward
    ∷ unless_error r.forward_error (in_band r)
        (opens_device ∷ unless_error r.setup_error (in_band r) (pump_through r))

unfoldable pub with_source : Relayed → List Deed
unfolding unless_error open_device in_band
with_source r =
    dials_source
    ∷ unless_error r.client_error (in_band r) (
        takes_snapshot
        ∷ checks_tunnel
        ∷ unless_error r.dead_after_snapshot reported (open_device r))

unfoldable pub joined : Relayed → List Deed
unfolding unless_error with_source
joined r =
    joins ∷ waits_reset ∷ checks_tunnel ∷ unless_error r.dead_after_wait reported (with_source r)

refused_join : Relayed → Bytes → List Deed
unfolding first_text
refused_join r e = reported (first_text e r.send_status)

-- `ServeRelay`.
unfoldable pub serve_relay : Relayed → List Deed
unfolding unless_error joined refused_join
serve_relay r =
    if str_eq r.source_addr []
    then reports (utf8 "no device " ++ (r.serial ++ utf8 " on this proxy")) ∷ []
    else keeps_record
      ∷ opens_tunnel
      ∷ unless_error r.open_error reported (unless_error r.send_error (refused_join r) (joined r))
