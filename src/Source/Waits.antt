-- ===== src/Source/Waits.antt =====
-- A wait or a poll that succeeds ends with a check that passed (`waitFor`,
-- internal/devicesource/wifi.go).
use sair.Base.{ℕ, zero, suc, ◌≡◌, refl, Bool, true, false}
use sair.Result.{Result, ok, err}
use sair.Ports.Branch.{if◌then◌else◌}
use sair.Source.Shell.{
  Trace, Env, M, ◌>>=◌, pure, Fault, plain, hung, unsafe_reboot, rpc, not_online, panicked, after,
  and_then, not_yet, wait_round, wait_for,
}
use sair.Source.Wifi.{Polled, poll_again, poll_round, poll}

module _ {A B : Type 0} where
  after-ok :
      (r : Result Fault A) (f : A → M (Result Fault B)) (t : Trace) (b : B)
      → (after r f t).0 ≡ ok b
      → (a : A) × (r ≡ ok a) × (after r f t ≡ f a t)
  unfolding after
  after-ok (ok a) f t b h = (a, refl, refl)
  after-ok (err e) f t b h = cc

  -- A chain that succeeds: its first part did, and the rest went on from there.
  pub and_then-ok :
      (m : M (Result Fault A)) (f : A → M (Result Fault B)) (t : Trace) (b : B)
      → (and_then m f t).0 ≡ ok b
      → (a : A) × ((m t).0 ≡ ok a) × (and_then m f t ≡ f a (m t).1)
  unfolding and_then
  and_then-ok m f t b h = after-ok (m t).0 f (m t).1 b h

-- The last run of `check` passed, and nothing ran behind it.
abbrev pub Last : {A : Type 0} → M (Result Fault A) → A → Trace → Type 0
Last check a end = (t0 : Trace) × (check t0 ≡ (ok a, end))

either :
    {X : Type 0} (P : X × Trace → Type 0) (b : Bool) (m n : M X) (t : Trace)
    → P (m t)
    → P (n t)
    → P ((if b then m else n) t)
unfolding if◌then◌else◌
either P true m n t pm pn = pm
either P false m n t pm pn = pn

module _ (env : Env) (check : M (Result Fault (Unit {0}))) where
  abbrev pub Waited : Result Fault (Unit {0}) × Trace → Type 0
  Waited r = r.0 ≡ ok tt → Last check tt r.1

  not_yet-Waited :
      (more : M (Result Fault (Unit {0}))) (t : Trace)
      → Waited (more t)
      → Waited (not_yet env more t)
  unfolding not_yet pure
  not_yet-Waited more t k =
      either Waited (env.deadline_passed t) _ _ t (λ h. cc)
        (either Waited (env.cancelled t) _ more t (λ h. cc) k)

  wait_round-Waited :
      (r : Result Fault (Unit {0})) (more : M (Result Fault (Unit {0}))) (t0 t : Trace)
      → check t0 ≡ (r, t)
      → Waited (more t)
      → Waited (wait_round env r more t)
  unfolding wait_round pure
  wait_round-Waited (ok u) more t0 t e k = λ h. (t0, e)
  wait_round-Waited (err (plain x)) more t0 t e k = not_yet-Waited more t k
  wait_round-Waited (err hung) more t0 t e k = not_yet-Waited more t k
  wait_round-Waited (err (unsafe_reboot x)) more t0 t e k = not_yet-Waited more t k
  wait_round-Waited (err (rpc c x)) more t0 t e k = not_yet-Waited more t k
  wait_round-Waited (err (not_online why)) more t0 t e k = not_yet-Waited more t k
  wait_round-Waited (err panicked) more t0 t e k = λ h. cc

  pub wait_for-Waited : (rounds : ℕ) (t : Trace) → Waited (wait_for rounds env check t)
  unfolding wait_for ◌>>=◌ pure
  wait_for-Waited zero t = λ h. cc
  wait_for-Waited (suc rounds) t =
      wait_round-Waited (check t).0 (wait_for rounds env check) t (check t).1 refl
        (wait_for-Waited rounds (check t).1)

  abbrev pub PolledOk : Polled (Unit {0}) × Trace → Type 0
  PolledOk r = r.0.outcome ≡ ok tt → Last check tt r.1

  poll_again-Ok :
      (e : Fault) (more : M (Polled (Unit {0}))) (t : Trace)
      → PolledOk (more t)
      → PolledOk (poll_again env e more t)
  unfolding poll_again pure
  poll_again-Ok e more t k =
      either PolledOk (env.deadline_passed t) _ _ t (λ h. cc)
        (either PolledOk (env.cancelled t) _ more t (λ h. cc) k)

  poll_round-Ok :
      (r : Result Fault (Unit {0})) (more : M (Polled (Unit {0}))) (t0 t : Trace)
      → check t0 ≡ (r, t)
      → PolledOk (more t)
      → PolledOk (poll_round env r more t)
  unfolding poll_round pure
  poll_round-Ok (ok u) more t0 t e k = λ h. (t0, e)
  poll_round-Ok (err (plain x)) more t0 t e k = poll_again-Ok _ more t k
  poll_round-Ok (err hung) more t0 t e k = poll_again-Ok _ more t k
  poll_round-Ok (err (unsafe_reboot x)) more t0 t e k = poll_again-Ok _ more t k
  poll_round-Ok (err (rpc c x)) more t0 t e k = poll_again-Ok _ more t k
  poll_round-Ok (err (not_online why)) more t0 t e k = poll_again-Ok _ more t k
  poll_round-Ok (err panicked) more t0 t e k = λ h. cc

  pub poll-Ok : (rounds : ℕ) (t : Trace) → PolledOk (poll rounds env check t)
  unfolding poll ◌>>=◌ pure
  poll-Ok zero t = λ h. cc
  poll-Ok (suc rounds) t =
      poll_round-Ok (check t).0 (poll rounds env check) t (check t).1 refl
        (poll-Ok rounds (check t).1)
