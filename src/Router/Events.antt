-- ===== src/Router/Events.antt =====
-- The queue of bench events (internal/proxy/command_router.go: Event and sendEvents), which handlers
-- fill and one goroutine empties onto the session.
pub mod InOrder
use sair.Base.{
  ℕ, suc, ◌+◌, ◌≤◌, ◌<◌, ◌≡◌, refl, sym, ap, ◌∙◌, append_assoc, append-nil, Bool, true, false,
  Option, none, some, List, [], ◌∷◌, ◌++◌, arith, ltb, ltb→lt, ◌==◌, if◌then◌else◌, ◌&&◌, length,
  length-append, Bool-cases, inl, inr,
}
use sair.Ports.World.{BenchEvent}
use sair.Router.Session.{Failure, SendFault, session_down, send_failed}

pub record QueuedEvent : Type 0 where
  pub timestamp_ms : ℕ
  pub event : BenchEvent

pub data Fate : Type 0 where
  delivered given_up : Fate

-- `events`, with the event that sendEvents has in hand and those that it is done with, the latest
-- last. Before StartSession there is no queue.
pub record Queue : Type 0 where
  pub started : Bool
  pub events : List QueuedEvent
  pub hand : Option QueuedEvent
  pub done : List (QueuedEvent × Fate)

-- `maxQueuedEvents`.
abbrev pub max_queued_events : ℕ
max_queued_events = 256

unfoldable pub stamp : ℕ → QueuedEvent → QueuedEvent
stamp now e = if e.timestamp_ms == 0 then record e { timestamp_ms = now } else e

unfoldable pub has_room : Queue → Bool
has_room q = q.started && ltb (length q.events) max_queued_events

-- `Event`.
unfoldable pub queue_event : ℕ → QueuedEvent → Queue → Queue
unfolding has_room
queue_event now e q = if has_room q then record q { events = q.events ++ (stamp now e ∷ []) } else q

-- The outer loop of `sendEvents` gets its next event.
unfoldable pub take_event : Queue → Queue
take_event q = elim q.hand [
  | some e ↦ q
  | none ↦ elim q.events [ [] ↦ q | e ∷ es ↦ record q { events = es; hand = some e } ]
]

unfoldable pub finish_event : QueuedEvent → Fate → Queue → Queue
finish_event e f q = record q { hand = none; done = q.done ++ ((e, f) ∷ []) }

-- What a try at the event in hand comes to; after `errSessionDown` it stays in hand.
unfoldable pub after_send : QueuedEvent → Option SendFault → Queue → Queue
after_send e none q = finish_event e delivered q
after_send e (some session_down) q = q
after_send e (some (send_failed f)) q = finish_event e given_up q

-- The inner loop's next round: whether the session has fallen back, and what send would answer.
unfoldable pub try_event : Bool → Option SendFault → Queue → Queue
unfolding after_send finish_event
try_event fallback answer q = elim q.hand [
  | none ↦ q
  | some e ↦ if fallback then finish_event e given_up q else after_send e answer q
]

pub data Turn : Type 0 where
  queued : ℕ → QueuedEvent → Turn
  taken : Turn
  tried : Bool → Option SendFault → Turn

unfoldable pub turn : Turn → Queue → Queue
unfolding queue_event take_event try_event
turn (queued now e) = queue_event now e
turn taken = take_event
turn (tried fallback answer) = try_event fallback answer

unfoldable pub turns : List Turn → Queue → Queue
unfolding turn
turns [] q = q
turns (t ∷ ts) q = turns ts (turn t q)
