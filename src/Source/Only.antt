-- ===== src/Source/Only.antt =====
-- Which commands the steps on a phone may run: rules for each way to build a step.
use sair.Base.{
  ℕ, zero, suc, ◌≡◌, refl, sym, ap, ◌∙◌, Bool, true, false, [], ◌∷◌, ◌++◌, append_assoc, All,
  All-append,
}
use sair.Result.{Result, ok, err}
use sair.Ports.Branch.{if◌then◌else◌}
use sair.Source.Shell.{
  Command, Trace, Env, Fault, plain, hung, unsafe_reboot, rpc, not_online, panicked, M, ◌>>=◌, pure,
  run_shell, radio_shell, svc, svc_toggle, after, and_then, not_yet, wait_round, wait_for,
}

module _ (P : Command → Type 0) where
  -- Whatever was run before, `m` runs commands with `P` only.
  pub record Only {A : Type 0} (m : M A) : Type 0 where
    pub runs : (t : Trace) → (new : Trace) × ((m t).1 ≡ new ++ t) × All P new

  pub Only-pure : {A : Type 0} (a : A) → Only (pure a)
  unfolding pure
  Only-pure a = record { runs = λ t. ([], refl, tt) }

  pub Only-bind :
      {A B : Type 0} (m : M A) (f : A → M B) → Only m → ((a : A) → Only (f a)) → Only (m >>= f)
  unfolding ◌>>=◌
  Only-bind m f om of = record {
    runs = λ t.
        let (before, e, pb) = om.runs t in
        let (behind, e', pa) = (of (m t).0).runs (m t).1 in
        (
          behind ++ before,
          e' ∙ ap (◌++◌ behind) e ∙ sym (append_assoc behind before t),
          All-append P behind before pa pb,
        );
  }

  -- The rest of the steps may use which answer the first one gave.
  pub Only-run :
      {B : Type 0} (env : Env) (c : Command) {f : _ → M B}
      → P c
      → ((a : _) → Only (f a))
      → Only (run_shell env c >>= f)
  unfolding run_shell
  Only-run env c p k = Only-bind _ _ (record { runs = λ t. (c ∷ [], refl, (p, tt)) }) k

  pub Only-one : (env : Env) (c : Command) → P c → Only (run_shell env c)
  unfolding run_shell
  Only-one env c p = record { runs = λ t. (c ∷ [], refl, (p, tt)) }

  pub Only-if : {A : Type 0} (t : Bool) {m n : M A} → Only m → Only n → Only (if t then m else n)
  unfolding if◌then◌else◌
  Only-if true om on = om
  Only-if false om on = on

  pub Only-cond :
      {A : Type 0} (t : Bool) {m n : M A}
      → (t ≡ true → Only m)
      → (t ≡ false → Only n)
      → Only (if t then m else n)
  unfolding if◌then◌else◌
  Only-cond true om on = om refl
  Only-cond false om on = on refl

  pub Only-after :
      {A B : Type 0} (r : Result Fault A) (f : A → M (Result Fault B))
      → ((a : A) → r ≡ ok a → Only (f a))
      → Only (after r f)
  unfolding after
  Only-after (ok a) f k = record { runs = λ t. (k a refl).runs t }
  Only-after (err e) f k = record { runs = λ t. ([], refl, tt) }

  pub Only-then :
      {A B : Type 0} (m : M (Result Fault A)) (f : A → M (Result Fault B))
      → Only m
      → ((a : A) → Only (f a))
      → Only (and_then m f)
  unfolding and_then after ◌>>=◌
  Only-then m f om of = record {
    runs = λ t. (Only-bind m (λ r. after r f) om (λ r. Only-after r f (λ a _. of a))).runs t;
  }

  pub Only-radio : (env : Env) (c : Command) → P c → Only (radio_shell env c)
  unfolding radio_shell
  Only-radio env c p = Only-run env c p λ a. Only-pure _

  pub Only-svc : (env : Env) (args : _) → P (svc_toggle args) → Only (svc env args)
  unfolding svc
  Only-svc env args p = Only-bind _ _ (Only-radio env (svc_toggle args) p) λ r. Only-pure _

  Only-not_yet : (env : Env) (more : _) → Only more → Only (not_yet env more)
  unfolding not_yet
  Only-not_yet env more o = record {
    runs = λ t.
        (Only-if (env.deadline_passed t) (Only-pure _)
            (Only-if (env.cancelled t) (Only-pure _) o)).runs
          t;
  }

  Only-wait_round :
      (env : Env) (r : Result Fault (Unit {0})) (more : _)
      → Only more
      → Only (wait_round env r more)
  unfolding wait_round
  Only-wait_round env (ok u) more o = Only-pure _
  Only-wait_round env (err (plain e)) more o = Only-not_yet env more o
  Only-wait_round env (err hung) more o = Only-not_yet env more o
  Only-wait_round env (err (unsafe_reboot e)) more o = Only-not_yet env more o
  Only-wait_round env (err (rpc c e)) more o = Only-not_yet env more o
  Only-wait_round env (err (not_online why)) more o = Only-not_yet env more o
  Only-wait_round env (err panicked) more o = Only-pure _

  pub Only-wait_for :
      (rounds : ℕ) (env : Env) (check : M (Result Fault (Unit {0})))
      → Only check
      → Only (wait_for rounds env check)
  unfolding wait_for
  Only-wait_for zero env check o = Only-pure _
  Only-wait_for (suc rounds) env check o =
      Only-bind _ _ o λ r. Only-wait_round env r _ (Only-wait_for rounds env check o)

  -- As Only-then, where `m` answers with a `Q` only.
  pub Only-then_when :
      {A B : Type 0} (Q : A → Type 0) (m : M (Result Fault A)) (f : A → M (Result Fault B))
      → Only m
      → ((t : Trace) (a : A) → (m t).0 ≡ ok a → Q a)
      → ((a : A) → Q a → Only (f a))
      → Only (and_then m f)
  unfolding and_then
  Only-then_when Q m f om q of = record {
    runs = λ t.
        let (before, e, pb) = om.runs t in
        let (behind, e', pa) = (Only-after (m t).0 f (λ a h. of a (q t a h))).runs (m t).1 in
        (
          behind ++ before,
          e' ∙ ap (◌++◌ behind) e ∙ sym (append_assoc behind before t),
          All-append P behind before pa pb,
        );
  }
