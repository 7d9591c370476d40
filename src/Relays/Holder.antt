-- ===== src/Relays/Holder.antt =====
-- The holder's end of a relay (`relayErr`, `refused`, `RelayToDevice` of internal/proxy/relay.go, and
-- what `tunnel` of internal/proxy/adb_connection.go does with its error). What the orchestrator's
-- stream answers is a parameter; what is done on the stream and the client's connection is a list.
use sair.Base.{Bool, true, false, Option, none, some, List, [], ◌∷◌, ◌++◌}
use sair.Text.{Bytes, utf8}
use sair.Result.{Result, ok, err}

pub data StatusCode : Type 0 where
  unimplemented canceled other_code : StatusCode

-- An error of a stream: a gRPC status, the end of the stream, or another.
pub data StreamError : Type 0 where
  status_error : StatusCode → Bytes → StreamError
  end_of_stream : StreamError
  plain_error : Bytes → StreamError

-- `relayErr`: what the client should see, if anything.
unfoldable pub relay_err : StreamError → Option Bytes
relay_err (status_error unimplemented text) = some (utf8 "unknown device")
relay_err (status_error canceled text) = none
relay_err (status_error other_code text) = some text
relay_err end_of_stream = some (utf8 "EOF")
relay_err (plain_error text) = some text

-- What `RelayToDevice` returns: nil, a `relayRefused`, or a plain error.
pub data Returned : Type 0 where
  returned_nil : Returned
  refused_with : Bytes → Returned
  failed_with : Bytes → Returned

-- `refused`.
unfoldable pub refused : StreamError → Returned
unfolding relay_err
refused e = elim (relay_err e) [ none ↦ returned_nil | some text ↦ refused_with text ]

-- What the stream answers: an error of Tunnel, of the first Send (with what Recv then says), the first
-- message, which accepts or not, and how the pump ends.
pub record Tunnel : Type 0 where
  pub open_error : Option StreamError
  pub send_error : Option StreamError
  pub send_status : Option StreamError
  pub first : Result StreamError Bool
  pub pump_error : Option StreamError

pub data Act : Type 0 where
  opens_tunnel sends_setup receives_first pumps cancels : Act
  writes_fail : Bytes → Act

-- The error of a Send is on Recv.
unfoldable pub on_recv : StreamError → Option StreamError → StreamError
on_recv e none = e
on_recv e (some r) = r

unfoldable pub after_pump : Option StreamError → Returned
unfolding relay_err
after_pump none = returned_nil
after_pump (some end_of_stream) = returned_nil
after_pump (some (plain_error text)) = failed_with text
after_pump (some (status_error c text)) = elim (relay_err (status_error c text)) [
  | none ↦ returned_nil
  | some shown ↦ failed_with shown
]

unfoldable pub accepted : Tunnel → Result StreamError Bool → List Act × Returned
unfolding refused after_pump
accepted t (err e) = (opens_tunnel ∷ sends_setup ∷ receives_first ∷ cancels ∷ [], refused e)
accepted t (ok false) = (
  opens_tunnel ∷ sends_setup ∷ receives_first ∷ cancels ∷ [],
  refused (plain_error (utf8 "orchestrator did not accept the tunnel")),
)
accepted t (ok true) =
    (opens_tunnel ∷ sends_setup ∷ receives_first ∷ pumps ∷ cancels ∷ [], after_pump t.pump_error)

unfoldable pub set_up : Tunnel → Option StreamError → List Act × Returned
unfolding accepted refused on_recv
set_up t none = accepted t t.first
set_up t (some e) = (opens_tunnel ∷ sends_setup ∷ cancels ∷ [], refused (on_recv e t.send_status))

unfoldable pub opened : Tunnel → Option StreamError → List Act × Returned
unfolding set_up refused
opened t none = set_up t t.send_error
opened t (some e) = (opens_tunnel ∷ cancels ∷ [], refused e)

-- `RelayToDevice`.
unfoldable pub relay_to_device : Tunnel → List Act × Returned
unfolding opened
relay_to_device t = opened t t.open_error

-- What `tunnel` does with the result: only a refusal is written to the client.
unfoldable pub tell_client : List Act × Returned → List Act
tell_client (acts, returned_nil) = acts
tell_client (acts, refused_with text) = acts ++ writes_fail text ∷ []
tell_client (acts, failed_with text) = acts

unfoldable pub relayed_tunnel : Tunnel → List Act
unfolding tell_client
relayed_tunnel t = tell_client (relay_to_device t)
