-- ===== src/Router/Session.antt =====
-- The session with the orchestrator (internal/proxy/session.go). Streams are numbered in the order
-- in which they are opened. What gRPC answers is an argument of each step.
use sair.Base.{
  ℕ, suc, ◌*◌, ◌≤◌, ◌<◌, ◌≡◌, Bool, true, false, Option, none, some, List, [], ◌∷◌, arith, ltb,
  ◌==◌, if◌then◌else◌, is_some, All,
}
use sair.Result.{Result, ok, err}

-- The codes that the proxy tells apart; the end of a stream (io.EOF) is a failure without one.
pub data Failure : Type 0 where
  end_of_stream unavailable canceled deadline_exceeded aborted unimplemented not_found
        other_failure :
      Failure

-- `isStreamDead`.
unfoldable pub is_stream_dead : Failure → Bool
is_stream_dead end_of_stream = true
is_stream_dead unavailable = true
is_stream_dead canceled = true
is_stream_dead deadline_exceeded = true
is_stream_dead aborted = true
is_stream_dead unimplemented = false
is_stream_dead not_found = false
is_stream_dead other_failure = false

pub record Session : Type 0 where
  pub stream : Option ℕ
  pub fallback : Bool

unfoldable pub connected : Session → Bool
connected s = is_some s.stream

pub data SendFault : Type 0 where
  -- `errSessionDown`.
  session_down : SendFault
  send_failed : Failure → SendFault

-- `s.stream == stream`: the stream is dropped only if it is still the one that the send used.
unfoldable pub drop_stream : ℕ → Session → Session
drop_stream used s =
    if elim s.stream [ none ↦ false | some n ↦ n == used ] then record s { stream = none } else s

-- The end of `send`, with what the Send on the stream `used` answered; the session may have changed
-- since the stream was read.
unfoldable pub finish_send : ℕ → Option Failure → Session → Option SendFault × Session
unfolding is_stream_dead drop_stream
finish_send used none s = (none, s)
finish_send used (some e) s =
    if is_stream_dead e then (some session_down, drop_stream used s) else (some (send_failed e), s)

-- `send`, where nothing happens to the session meanwhile.
unfoldable pub send : (ℕ → Option Failure) → Session → Option SendFault × Session
send stream_send s = elim s.stream [
  | none ↦ (some session_down, s)
  | some n ↦ finish_send n (stream_send n) s
]

-- The steps of the goroutines on the session: the reader gets a welcome on a newer stream, or loses
-- its stream; a sender's Send ends; the orchestrator turns out to be too old.
pub data Step : Type 0 where
  welcome ended too_old : Step
  sent : ℕ → Option Failure → Step

-- The session, and how many streams were opened so far.
pub record State : Type 0 where
  pub session : Session
  pub opened : ℕ

unfoldable pub step : Step → State → State
unfolding finish_send
step welcome s = record {
  session = record s.session { stream = some s.opened };
  opened = suc s.opened;
}
step ended s = record s { session = record s.session { stream = none } }
step too_old s = record s { session = record s.session { fallback = true } }
step (sent used answer) s = record s { session = (finish_send used answer s.session).1 }

-- A Send that ends on an older stream, in whatever way, leaves the newer stream that the session
-- has by then.
pub step-keeps_newer :
    (s : State) (n used : ℕ) (answer : Option Failure)
    → s.session.stream ≡ some n
    → used < n
    → (step (sent used answer) s).session.stream ≡ some n
unfolding step finish_send drop_stream
step-keeps_newer s n used none h older = h
step-keeps_newer s n used (some e) h older = ground arith

-- `run`'s pause before the next attempt: `reached` is whether this one got its welcome.
unfoldable pub pause : ℕ → Bool → ℕ → ℕ
pause backoff_min reached backoff = if reached then backoff_min else backoff

-- What the pause is before the attempt after that.
unfoldable pub grow : ℕ → ℕ → ℕ
grow backoff_max backoff = if ltb backoff_max (backoff * 2) then backoff_max else backoff * 2

-- The end of an attempt: whether it got its welcome, whether the caller stopped, and its error.
pub record Attempt : Type 0 where
  pub reached : Bool
  pub stopped : Bool
  pub failure : Failure

is_unimplemented : Failure → Bool
is_unimplemented unimplemented = true
is_unimplemented end_of_stream = false
is_unimplemented unavailable = false
is_unimplemented canceled = false
is_unimplemented deadline_exceeded = false
is_unimplemented aborted = false
is_unimplemented not_found = false
is_unimplemented other_failure = false

-- What follows an attempt: nothing after a stop, nor where the orchestrator has no Session.
unfoldable after_attempt : Bool → Bool → List ℕ × Bool → List ℕ × Bool
after_attempt true unsupported retried = ([], false)
after_attempt false true retried = ([], true)
after_attempt false false retried = retried

-- `run`, over the attempts that it makes: its pauses, and whether it fell back to unary calls. A stop
-- during a pause is the end of the attempts.
unfoldable pub run : ℕ → ℕ → ℕ → List Attempt → List ℕ × Bool
unfolding is_unimplemented pause grow after_attempt
run backoff_min backoff_max backoff [] = ([], false)
run backoff_min backoff_max backoff (a ∷ later) =
    let p = pause backoff_min a.reached backoff in
    let (ps, fell_back) = run backoff_min backoff_max (grow backoff_max p) later in
    after_attempt a.stopped (is_unimplemented a.failure) (p ∷ ps, fell_back)

-- The opening of `serveOnce`: the error that ends it (`none` is an answer that is no welcome), or a
-- welcome. `opened` and `hello_sent` are the errors of the first two calls; `first` is what Recv gives
-- then, a welcome or not. After an end of the stream Recv has the true error.
unfoldable pub serve_once :
    Option Failure → Option Failure → Result Failure Bool → Result (Option Failure) (Unit {0})
serve_once (some e) hello_sent first = err (some e)
serve_once none (some end_of_stream) (err e) = err (some e)
serve_once none (some end_of_stream) (ok w) = err (some end_of_stream)
serve_once none (some unavailable) first = err (some unavailable)
serve_once none (some canceled) first = err (some canceled)
serve_once none (some deadline_exceeded) first = err (some deadline_exceeded)
serve_once none (some aborted) first = err (some aborted)
serve_once none (some unimplemented) first = err (some unimplemented)
serve_once none (some not_found) first = err (some not_found)
serve_once none (some other_failure) first = err (some other_failure)
serve_once none none (err e) = err (some e)
serve_once none none (ok false) = err none
serve_once none none (ok true) = ok tt

grow-bounds :
    (low high p : ℕ) → low ≤ high → low ≤ p → p ≤ high → (low ≤ grow high p) × (grow high p ≤ high)
unfolding grow
grow-bounds low high p h l u = ground arith

module _ (low high : ℕ) (h : low ≤ high) where
  abbrev Within : ℕ → Type 0
  Within p = (low ≤ p) × (p ≤ high)

  pause-bounds :
      (reached : Bool) (backoff : ℕ) → Within backoff → Within (pause low reached backoff)
  unfolding pause
  pause-bounds reached backoff w = ground arith

  All-after_attempt :
      (stopped unsupported : Bool) (r : List ℕ × Bool)
      → All Within r.0
      → All Within (after_attempt stopped unsupported r).0
  unfolding after_attempt
  All-after_attempt true unsupported r w = tt
  All-after_attempt false true r w = tt
  All-after_attempt false false r w = w

-- Every pause between two attempts at a session lies between the least and the greatest backoff,
-- if the first pause does and the least is at most the greatest.
pub run-bounds :
    (low high : ℕ)
    → low ≤ high
    → (later : List Attempt) (backoff : ℕ) → low ≤ backoff
    → backoff ≤ high
    → All (λ p. (low ≤ p) × (p ≤ high)) (run low high backoff later).0
unfolding run pause
run-bounds low high h [] backoff l u = tt
run-bounds low high h (a ∷ later) backoff l u =
    let w = pause-bounds low high h a.reached backoff (l, u) in
    let g = grow-bounds low high (pause low a.reached backoff) h w.0 w.1 in
    All-after_attempt low high h a.stopped _ _ (w, run-bounds low high h later _ g.0 g.1)
