-- ===== src/Router/Events/InOrder.antt =====
-- What becomes of the events that the queue takes (internal/proxy/command_router.go: Event,
-- sendEvents), in whatever order handlers, the sender and the session take their turns.
use sair.Base.{
  All, ℕ, ◌≤◌, ◌≡◌, refl, sym, ap, ◌∙◌, append_assoc, append-nil, Bool, true, false, Option, none,
  some, List, [], ◌∷◌, ◌++◌, if◌then◌else◌, length, Bool-cases, inl, inr,
}
use sair.Router.Session.{SendFault, session_down, send_failed}
use sair.Router.Events.{
  QueuedEvent, Fate, delivered, given_up, Queue, max_queued_events, stamp, has_room, queue_event,
  take_event, finish_event, after_send, try_event, Turn, queued, taken, tried, turn, turns,
}

-- The events that were delivered, without those that were given up.
unfoldable pub sent : List (QueuedEvent × Fate) → List QueuedEvent
sent [] = []
sent ((e, delivered) ∷ ds) = e ∷ sent ds
sent ((e, given_up) ∷ ds) = sent ds

unfoldable pub held : Option QueuedEvent → List QueuedEvent
held none = []
held (some e) = e ∷ []

-- The events delivered, then the one in hand, then those waiting.
unfoldable pub sent_or_waiting : Queue → List QueuedEvent
unfolding sent held
sent_or_waiting q = sent q.done ++ (held q.hand ++ q.events)

-- A turn in which the session is not too old, and a try is sent or finds the session down.
unfoldable pub IsPatient : Turn → Type 0
IsPatient (queued now e) = Unit {0}
IsPatient taken = Unit {0}
IsPatient (tried true answer) = ⊥
IsPatient (tried false none) = Unit {0}
IsPatient (tried false (some session_down)) = Unit {0}
IsPatient (tried false (some (send_failed f))) = ⊥

-- The events that a turn adds: one is dropped for want of room, or before the start.
unfoldable pub let_in : Turn → Queue → List QueuedEvent
unfolding has_room stamp
let_in (queued now e) q = if has_room q then stamp now e ∷ [] else []
let_in taken q = []
let_in (tried fallback answer) q = []

unfoldable pub all_let_in : List Turn → Queue → List QueuedEvent
unfolding turn let_in
all_let_in [] q = []
all_let_in (t ∷ ts) q = let_in t q ++ all_let_in ts (turn t q)

sent-append :
    (xs : List (QueuedEvent × Fate)) (e : QueuedEvent)
    → sent (xs ++ ((e, delivered) ∷ [])) ≡ sent xs ++ (e ∷ [])
unfolding sent
sent-append [] e = refl
sent-append ((x, delivered) ∷ xs) e = ap (λ r. x ∷ r) (sent-append xs e)
sent-append ((x, given_up) ∷ xs) e = sent-append xs e

module _ (b : Bool) (es : List QueuedEvent) (d : List (QueuedEvent × Fate)) where
  waiting : Option QueuedEvent → Queue
  waiting h = record { started = b; events = es; hand = h; done = d }

  sent_or_waiting-try_event :
      (fallback : Bool) (answer : Option SendFault) (h : Option QueuedEvent)
      → IsPatient (tried fallback answer)
      → sent_or_waiting (try_event fallback answer (waiting h)) ≡ sent_or_waiting (waiting h)
  unfolding sent_or_waiting try_event after_send finish_event held waiting IsPatient
  sent_or_waiting-try_event fallback answer none p = refl
  sent_or_waiting-try_event true answer (some e) p = absurd p
  sent_or_waiting-try_event false none (some e) p =
      ap (λ r. r ++ es) (sent-append d e) ∙ append_assoc (sent d) (e ∷ []) es
  sent_or_waiting-try_event false (some session_down) (some e) p = refl
  sent_or_waiting-try_event false (some (send_failed f)) (some e) p = absurd p

sent_or_waiting-take_event :
    (b : Bool) (es : List QueuedEvent) (d : List (QueuedEvent × Fate)) (h : Option QueuedEvent)
    → sent_or_waiting (take_event (waiting b es d h)) ≡ sent_or_waiting (waiting b es d h)
unfolding sent_or_waiting take_event sent held waiting
sent_or_waiting-take_event b es d (some e) = refl
sent_or_waiting-take_event b [] d none = refl
sent_or_waiting-take_event b (e ∷ es) d none = refl

sent_or_waiting-queue_event :
    (now : ℕ) (e : QueuedEvent) (q : Queue)
    → sent_or_waiting (queue_event now e q) ≡ sent_or_waiting q ++ let_in (queued now e) q
unfolding sent_or_waiting queue_event let_in sent held
sent_or_waiting-queue_event now e q = elim (Bool-cases (has_room q)) [
  | inl room ↦ rw (
    room,
    append_assoc (sent q.done) (held q.hand ++ q.events) (stamp now e ∷ []),
    append_assoc (held q.hand) q.events (stamp now e ∷ []),
  )
  | inr full ↦ rw (full, append-nil (sent q.done ++ (held q.hand ++ q.events)))
]

sent_or_waiting-turn :
    (t : Turn) (q : Queue)
    → IsPatient t
    → sent_or_waiting (turn t q) ≡ sent_or_waiting q ++ let_in t q
unfolding turn let_in waiting
sent_or_waiting-turn (queued now e) q p = sent_or_waiting-queue_event now e q
sent_or_waiting-turn taken q p =
    sent_or_waiting-take_event q.started q.events q.done q.hand
    ∙ sym (append-nil (sent_or_waiting q))
sent_or_waiting-turn (tried fallback answer) q p =
    sent_or_waiting-try_event q.started q.events q.done fallback answer q.hand p
    ∙ sym (append-nil (sent_or_waiting q))

-- While the session does not fall back, and each try at an event is sent or finds the session
-- down, the events delivered, then the one in hand, then those that wait are the ones that were
-- there and the ones let in since, in the order in which they were let in, whatever turns
-- handlers, sendEvents and the session take: an event that finds the session down is kept, and
-- none is lost, doubled or passed by another.
pub sent_or_waiting-turns :
    (ts : List Turn) (q : Queue)
    → All IsPatient ts
    → sent_or_waiting (turns ts q) ≡ sent_or_waiting q ++ all_let_in ts q
unfolding turns all_let_in
sent_or_waiting-turns [] q p = sym (append-nil (sent_or_waiting q))
sent_or_waiting-turns (t ∷ ts) q p =
    sent_or_waiting-turns ts (turn t q) p.1
    ∙ (ap (λ r. r ++ all_let_in ts (turn t q)) (sent_or_waiting-turn t q p.0)
        ∙ append_assoc (sent_or_waiting q) (let_in t q) (all_let_in ts (turn t q)))

-- A queue of at most 256 waiting events.
unfoldable pub IsWithin : Queue → Type 0
IsWithin q = length q.events ≤ max_queued_events
