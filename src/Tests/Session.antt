-- ===== src/Tests/Session.antt =====
-- Runs of the theorems about the session, the locks and the keepalive loop at concrete inputs.
use sair.Base.{◌≡◌, refl, true, false, none, some, List, [], ◌∷◌, ◌++◌, arith}
use sair.Text.{utf8}
use sair.Result.{ok, err}
use mathlib.Core.List.{Sublist}
use sair.Adb.Number.{pos}
use sair.LockLog.Entries.{blank}
use sair.LockLog.{empty}
use sair.Router.Session.{unavailable, other_failure, connected, State, Attempt}
use sair.Router.Orchestrator.{Job, LockRequest, LockReply, Net, is_up}
use sair.Router.Retries.{ask_for, lost, Loses, lost_connection, lock_result, ask_for-answers}
use sair.Router.Keepalive.{Keeper, goes_on, Event, recorded, flushes, beats, run_keepalive}
use sair.Router.Shipped.{shipped, run_keepalive-Sublist}
use sair.Ports.World.{wake_event}
use sair.Router.Session.{session_down}
use sair.Router.Events.{QueuedEvent, Queue, Turn, queued, taken, tried, turns}
use sair.Router.Events.InOrder.{sent_or_waiting, all_let_in, sent_or_waiting-turns}
use sair.Router.Flushed.{IsOpen, ticks, run_keepalive-flushes}

abbrev lab_reply : LockReply
lab_reply = record { lock_id = utf8 "L1"; serials = utf8 "A1" ∷ []; remote_devices = [] }

-- A session that stays open; a lock is granted at the second attempt.
abbrev open_net : Net
open_net = record {
  session = λ t. some (record { stream = some 0; fallback = false });
  stream_send = λ t stream m. none;
  report = λ t ds. none;
  heartbeat = λ t i es. ok true;
  acquire = λ t q. elim t [ [] ↦ err unavailable | s ∷ t' ↦ ok lab_reply ];
  gone = λ t. false;
}

open_net-IsOpen : IsOpen open_net
unfolding is_up connected
open_net-IsOpen = record { up = λ t. refl; sends = λ t stream m. refl }

abbrev two_pending : Keeper
two_pending = record {
  log = record empty {
    pending =
        record blank { service = utf8 "shell:ls" }
        ∷ record blank { service = utf8 "shell:id" }
        ∷ [];
  };
  flushed_since_beat = false;
  next = goes_on;
}

abbrev lab_events : List Event
lab_events =
    recorded (record blank { service = utf8 "shell:ps" })
    ∷ flushes
    ∷ beats (record { now_ms = 5; idle = 0; idle_text = [] })
    ∷ []

run_keepalive-Sublist_example :
    let r = run_keepalive open_net (utf8 "L1") 0 lab_events two_pending [] in
    Sublist (shipped [] ++ two_pending.log.pending) (shipped r.1 ++ r.0.log.pending)
run_keepalive-Sublist_example =
    run_keepalive-Sublist open_net (utf8 "L1") 0 lab_events two_pending []

run_keepalive-flushes_example :
    let r = run_keepalive open_net (utf8 "L1") 0 (ticks 2) two_pending [] in
    (r.0.log.pending ≡ []) × Sublist (shipped [] ++ two_pending.log.pending) (shipped r.1)
run_keepalive-flushes_example =
    run_keepalive-flushes open_net open_net-IsOpen (utf8 "L1") 0 2 two_pending [] refl (omega arith)

abbrev second_stream : State
second_stream = record { session = record { stream = some 1; fallback = false }; opened = 2 }

abbrev lab_attempts : List Attempt
lab_attempts =
    record { reached = false; stopped = false; failure = unavailable }
    ∷ record { reached = true; stopped = false; failure = other_failure }
    ∷ []

abbrev lab_job : Job
lab_job = record {
  repo = utf8 "r";
  run_url = [];
  job = [];
  run_attempt = [];
  sha = [];
  branch = [];
  workflow = [];
  stage = [];
  labels = [];
}

abbrev lab_request : LockRequest
lab_request = record {
  about = lab_job;
  count = pos 1;
  proxy_id = utf8 "P1";
  priority = pos 0;
  same_proxy = false;
  tenant_api_key = [];
  serials = [];
}

first_lost : Loses open_net lab_request 1 []
unfolding Loses lost_connection
first_lost = (refl, refl, tt)

then_granted :
    lost_connection (open_net.acquire (lost open_net lab_request 1 []) lab_request) ≡ false
unfolding lost lost_connection
then_granted = refl

ask_for-answers_example :
    (ask_for open_net lab_request []).0
    ≡ lock_result (open_net.acquire (lost open_net lab_request 1 []) lab_request)
ask_for-answers_example =
    ask_for-answers open_net lab_request 1 [] (omega arith) first_lost then_granted

abbrev woken : QueuedEvent
woken = record {
  timestamp_ms = 0;
  event = record {
    kind = wake_event;
    serial = utf8 "A1";
    lock_id = utf8 "L1";
    outcome = utf8 "ok";
    detail = [];
  };
}

abbrev no_events : Queue
no_events = record { started = true; events = []; hand = none; done = [] }

-- Two events, of which the first is sent at the second try.
abbrev two_turns : List Turn
two_turns =
    queued 5 woken
    ∷ taken
    ∷ tried false (some session_down)
    ∷ queued 7 woken
    ∷ tried false none
    ∷ []

sent_or_waiting-turns_example :
    sent_or_waiting (turns two_turns no_events)
    ≡ sent_or_waiting no_events ++ all_let_in two_turns no_events
unfolding sair.Router.Events.InOrder.IsPatient
sent_or_waiting-turns_example =
    sent_or_waiting-turns two_turns no_events (tt, (tt, (tt, (tt, (tt, tt)))))
