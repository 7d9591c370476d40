-- ===== src/Source/Rounds.antt =====
-- How many rounds a wait of the device source needs (`waitFor`, internal/devicesource/wifi.go).
use sair.Base.{ℕ, zero, suc, ◌≤◌, ◌≡◌, refl, inl, inr, false, arith, Bool-cases}
use sair.Ports.Branch.{if◌then◌else◌}
use sair.Result.{Result, ok, err}
use sair.Source.Shell.{
  Trace, Env, M, ◌>>=◌, Fault, plain, hung, unsafe_reboot, rpc, not_online, panicked, not_yet,
  wait_round, wait_for,
}

-- The deadline has passed after at most so many checks.
unfoldable pub IsOverWithin : Env → M (Result Fault (Unit {0})) → ℕ → Trace → Type 0
IsOverWithin env check zero t = ⊥
IsOverWithin env check (suc n) t =
    env.deadline_passed (check t).1 ≡ false → IsOverWithin env check n (check t).1

module _ (env : Env) where
  not_yet_same :
      (more more' : M (Result Fault (Unit {0}))) (t : Trace)
      → (env.deadline_passed t ≡ false → more t ≡ more' t)
      → not_yet env more t ≡ not_yet env more' t
  unfolding not_yet if◌then◌else◌
  not_yet_same more more' t same = elim (Bool-cases (env.deadline_passed t)) [
    | inl late ↦ rw late refl
    | inr early ↦ rw early (elim (Bool-cases (env.cancelled t)) [
      | inl gone ↦ rw gone refl
      | inr here ↦ rw here (same early)
    ])
  ]

  wait_round_same :
      (r : Result Fault (Unit {0})) (more more' : M (Result Fault (Unit {0}))) (t : Trace)
      → (env.deadline_passed t ≡ false → more t ≡ more' t)
      → wait_round env r more t ≡ wait_round env r more' t
  unfolding wait_round
  wait_round_same (ok u) more more' t same = refl
  wait_round_same (err (plain e)) more more' t same = not_yet_same more more' t same
  wait_round_same (err hung) more more' t same = not_yet_same more more' t same
  wait_round_same (err (unsafe_reboot e)) more more' t same = not_yet_same more more' t same
  wait_round_same (err (rpc c e)) more more' t same = not_yet_same more more' t same
  wait_round_same (err (not_online why)) more more' t same = not_yet_same more more' t same
  wait_round_same (err panicked) more more' t same = refl

-- A wait of the device source needs no more rounds than there are checks until its deadline has
-- passed: with more rounds it does and answers the same.
pub wait_for-IsOverWithin :
    (env : Env) (check : M (Result Fault (Unit {0}))) (n rounds : ℕ) (t : Trace)
    → n ≤ rounds
    → IsOverWithin env check n t
    → wait_for n env check t ≡ wait_for rounds env check t
unfolding wait_for ◌>>=◌ IsOverWithin
wait_for-IsOverWithin env check zero rounds t h over = absurd over
wait_for-IsOverWithin env check (suc n) zero t h over = absurd (omega arith)
wait_for-IsOverWithin env check (suc n) (suc rounds) t h over =
    wait_round_same env (check t).0 (wait_for n env check) (wait_for rounds env check) (check t).1
      λ early. wait_for-IsOverWithin env check n rounds (check t).1 (omega arith) (over early)
