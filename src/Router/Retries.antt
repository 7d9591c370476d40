-- ===== src/Router/Retries.antt =====
-- `AcquireLock` (internal/proxy/command_router.go) and its retries.
use sair.Base.{
  ℕ, zero, suc, ◌+◌, ◌≤◌, ◌≡◌, refl, ap, inl, inr, Bool, true, false, not, ◌&&◌, List, [], ◌∷◌,
  arith, ◌==◌, Bool-cases, length,
}
use sair.Text.{Bytes, str_eq}
use sair.Result.{Result, ok, err}
use sair.Ports.Branch.{if◌then◌else◌}
use sair.Lines.{set_of}
use sair.Adb.Number.{ℤ, pos, negsuc}
use sair.Router.Session.{
  Failure, end_of_stream, unavailable, canceled, deadline_exceeded, aborted, unimplemented,
  not_found, other_failure,
}
use sair.Router.Orchestrator.{
  Job, LockRequest, LockReply, looked, waited, sent, reported, beat, asked, Trace, Net, M, ◌>>=◌,
  pure,
}

-- `acquireRetries`.
abbrev pub acquire_retries : ℕ
acquire_retries = 10

pub data AcquireFault : Type 0 where
  negative_count exclusive : AcquireFault
  call_failed : Failure → AcquireFault

pub record LockResult : Type 0 where
  pub lock_id : Bytes
  pub serials : List Bytes
  pub remote_devices : List (Bytes × Bytes)

-- A later device takes the place of one with its serial.
put : Bytes × Bytes → List (Bytes × Bytes) → List (Bytes × Bytes)
put d [] = d ∷ []
put d (e ∷ es) = if str_eq d.0 e.0 then d ∷ es else e ∷ put d es

unfoldable by_serial : List (Bytes × Bytes) → List (Bytes × Bytes) → List (Bytes × Bytes)
unfolding put
by_serial so_far [] = so_far
by_serial so_far (d ∷ ds) = by_serial (put d so_far) ds

unfoldable pub lock_result : Result Failure LockReply → Result AcquireFault LockResult
unfolding by_serial
lock_result (err e) = err (call_failed e)
lock_result (ok r) = ok (record {
  lock_id = r.lock_id;
  serials = set_of r.serials;
  remote_devices = by_serial [] r.remote_devices;
})

unfoldable pub lost_connection : Result Failure LockReply → Bool
lost_connection (ok r) = false
lost_connection (err unavailable) = true
lost_connection (err end_of_stream) = false
lost_connection (err canceled) = false
lost_connection (err deadline_exceeded) = false
lost_connection (err aborted) = false
lost_connection (err unimplemented) = false
lost_connection (err not_found) = false
lost_connection (err other_failure) = false

unfoldable is_positive : ℤ → Bool
is_positive (pos zero) = false
is_positive (pos (suc n)) = true
is_positive (negsuc n) = false

unfoldable pub request_of : Bytes → List Bytes → ℤ → Job → ℤ → Bool → Bytes → LockRequest
request_of proxy_id serials count about priority same_proxy tenant_key = record {
  about = about;
  count = count;
  proxy_id = proxy_id;
  priority = priority;
  same_proxy = same_proxy;
  tenant_api_key = tenant_key;
  serials = serials;
}

module _ (net : Net) where
  unfoldable pub ask_once : LockRequest → M (Result Failure LockReply)
  ask_once q t = let r = net.acquire t q in (r, asked q r ∷ t)

  -- A wait between two attempts: whether the caller has gone.
  unfoldable pub wait : M Bool
  wait t = (net.gone t, waited ∷ t)

  -- The loop, with so many retries left.
  unfoldable pub ask : ℕ → LockRequest → M (Result Failure LockReply)
  ask zero q = ask_once q
  ask (suc left) q = do
    r ← ask_once q
    if lost_connection r then (do gone ← wait; if gone then pure r else ask left q) else pure r

  unfoldable pub ask_for : LockRequest → M (Result AcquireFault LockResult)
  ask_for q = do r ← ask acquire_retries q; pure (lock_result r)

  -- `AcquireLock`, for a set of serials.
  unfoldable pub acquire_lock :
      Bytes → List Bytes → ℤ → Job → ℤ → Bool → Bytes → M (Result AcquireFault LockResult)
  unfolding is_positive
  acquire_lock proxy_id serials (negsuc n) about priority same_proxy tenant_key =
      pure (err negative_count)
  acquire_lock proxy_id serials (pos n) about priority same_proxy tenant_key =
      if is_positive (pos n) && not (length serials == 0)
      then pure (err exclusive)
      else ask_for (request_of proxy_id serials (pos n) about priority same_proxy tenant_key)

-- How often a trace asks for a lock.
unfoldable pub asks : Trace → ℕ
asks [] = 0
asks (asked q r ∷ t) = suc (asks t)
asks (looked ∷ t) = asks t
asks (waited ∷ t) = asks t
asks (sent m r ∷ t) = asks t
asks (reported ds r ∷ t) = asks t
asks (beat i es r ∷ t) = asks t

module _ (net : Net) where
  asks-ask :
      (left : ℕ) (q : LockRequest) (t : Trace) → asks (ask net left q t).1 ≤ suc left + asks t
  unfolding ask asks ask_once wait ◌>>=◌ pure if◌then◌else◌
  asks-ask zero q t = omega arith
  asks-ask (suc left) q t =
      let r = net.acquire t q in
      let t' = asked q r ∷ t in
      elim (Bool-cases (lost_connection r)) [
        | inr kept ↦ rw kept (omega arith)
        | inl again ↦ rw again (elim (Bool-cases (net.gone t')) [
          | inl left_us ↦ rw left_us (omega arith)
          | inr here ↦ rw here (omega (arith, asks-ask left q (waited ∷ t')))
        ])
      ]

-- AcquireLock asks the orchestrator at most eleven times, whatever it answers.
pub acquire_lock-bounds :
    (net : Net) (proxy_id : Bytes) (serials : List Bytes) (count : ℤ) (about : Job) (priority : ℤ)
    (same_proxy : Bool) (tenant_key : Bytes) (t : Trace)
    → asks (acquire_lock net proxy_id serials count about priority same_proxy tenant_key t).1
      ≤ 11 + asks t
unfolding acquire_lock ask_for ◌>>=◌ pure asks if◌then◌else◌
acquire_lock-bounds net proxy_id serials (negsuc n) about priority same_proxy tenant_key t =
    omega arith
acquire_lock-bounds net proxy_id serials (pos n) about priority same_proxy tenant_key t =
    elim (Bool-cases (is_positive (pos n) && not (length serials == 0))) [
      | inl both ↦ rw both (omega arith)
      | inr fine ↦ rw fine (
          asks-ask net 10 (request_of proxy_id serials (pos n) about priority same_proxy tenant_key)
            t)
    ]

-- The trace after `k` attempts that lost their connection, each followed by a wait.
unfoldable pub lost : Net → LockRequest → ℕ → Trace → Trace
lost net q zero t = t
lost net q (suc k) t = lost net q k (waited ∷ asked q (net.acquire t q) ∷ t)

-- Each of the next `k` attempts loses its connection, and the caller stays.
unfoldable pub Loses : Net → LockRequest → ℕ → Trace → Type 0
Loses net q zero t = Unit {0}
Loses net q (suc k) t =
    (lost_connection (net.acquire t q) ≡ true)
    × (net.gone (asked q (net.acquire t q) ∷ t) ≡ false)
    × Loses net q k (waited ∷ asked q (net.acquire t q) ∷ t)

ask-answers :
    (net : Net) (q : LockRequest) (k left : ℕ) (t : Trace)
    → k ≤ left
    → Loses net q k t
    → lost_connection (net.acquire (lost net q k t) q) ≡ false
    → (ask net left q t).0 ≡ net.acquire (lost net q k t) q
unfolding ask lost Loses ask_once wait ◌>>=◌ pure if◌then◌else◌
ask-answers net q zero zero t h l e = refl
ask-answers net q zero (suc left) t h l e = rw e refl
ask-answers net q (suc k) zero t h l e = let none_left : suc k ≡ zero = omega arith in cc
ask-answers net q (suc k) (suc left) t h l e =
    rw (l.0, l.1) (ask-answers net q k left _ (omega arith) l.2 e)

-- If the first k requests for a lock lose their connection, for a k of at most ten, with the
-- caller staying, and the next one is answered otherwise, that answer is the result.
pub ask_for-answers :
    (net : Net) (q : LockRequest) (k : ℕ) (t : Trace)
    → k ≤ 10
    → Loses net q k t
    → lost_connection (net.acquire (lost net q k t) q) ≡ false
    → (ask_for net q t).0 ≡ lock_result (net.acquire (lost net q k t) q)
unfolding ask_for ◌>>=◌ pure
ask_for-answers net q k t h l e = ap lock_result (ask-answers net q k 10 t h l e)
