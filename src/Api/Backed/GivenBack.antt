-- ===== src/Api/Backed/GivenBack.antt =====
-- A client that has left when its lock is granted (`handleAcquire` of internal/proxy/http_api.go over
-- `Acquire` and `Release` of internal/proxy/scoped_port.go).
use sair.Base.{
  ◌≡◌, refl, sym, ap, ◌∙◌, subst, ◌⊎◌, inl, inr, Bool, true, none, some, List, [], ◌∷◌, arith,
  Bool-cases, false,
}
use sair.Text.{Bytes, utf8, str_eq, str_eq_iff}
use sair.Result.{Result, ok, err}
use sair.Api.{Request, Job, Response, Config, ApiState}
use sair.Api.Acquire.{read_job, handed_over, with_job, acquire_handler}
use sair.Api.Backed.{Others, acquired, port_manager}
use sair.Ports.World.{Granted, Bench, ScopedPort, World, find_port}
use sair.Ports.Manager.{remove_port, AcquireError, release}
use sair.Ports.Prepared.{ports-release}
use sair.Ports.AllOrNothing.{Settled, acquire-Settled}
use sair.Ports.Closed.{find-remove, find-remove_other}

find-named :
    (id : Bytes) (ps : List ScopedPort) {sp : ScopedPort}
    → find_port id ps ≡ some sp
    → sp.lock_id ≡ id
unfolding find_port
find-named id [] h = cc
find-named id (p ∷ ps) {sp} h = elim (Bool-cases (str_eq p.lock_id id)) [
  | inl mine ↦
      let same : p ≡ sp = ground (arith, h, mine) in
      subst (λ q. q.lock_id ≡ id) same ((str_eq_iff p.lock_id id).0 mine)
  | inr theirs ↦ find-named id ps {sp = sp} (ground (arith, h, theirs))
]

-- The lock has no port, unless none could be made.
abbrev pub IsGone : Bytes → List ScopedPort → List ScopedPort → Type 0
IsGone id before after = (find_port id after ≡ none) ⊎ (after ≡ before)

module _ (b : Bench) (o : Others) where
  left-IsGone :
      (g : Granted) (w : World) (other : Bytes) (s : ApiState World)
      (r : Result AcquireError ScopedPort × World)
      → str_eq g.lock_id other ≡ false
      → Settled b g w r
      → let after = (handed_over (port_manager b o) true s (acquired b o r)).1.manager.ports in
        (find_port other after ≡ find_port other w.ports) × IsGone g.lock_id w.ports after
  unfolding handed_over acquired port_manager
  left-IsGone g w other s (err e, v) d (inl ends) = (ends.others other d, inl (ends.nothing e refl))
  left-IsGone g w other s (err e, v) d (inr (e', h, same)) = (ap (find_port other) same, inr same)
  left-IsGone g w other s (ok sp, v) d (inr (e', h, same)) = cc
  left-IsGone g w other s (ok sp, v) d (inl ends) =
      let named : sp.lock_id ≡ g.lock_id = find-named g.lock_id v.ports (ends.all sp refl) in
      let ended : (release b sp.lock_id (utf8 "cancelled") v).1.ports
          ≡ remove_port g.lock_id v.ports =
        ports-release b sp.lock_id (utf8 "cancelled") v ∙ ap (λ id. remove_port id v.ports) named in
      (
        ap (find_port other) ended
            ∙ find-remove_other g.lock_id other v.ports d
            ∙ ends.others other d,
        inl (ap (find_port g.lock_id) ended ∙ find-remove g.lock_id v.ports),
      )

  -- When a granted lock's client has left by the time that the lock could be handed over, no port
  -- is open under the lock afterwards, or the ports are as they were because none could be made;
  -- every other lock finds the port that it found before. The request's parameters are valid.
  pub acquire_handler-IsGone :
      (c : Config) (r : Request) (s : ApiState World) (job : Job) (g : Granted) (other : Bytes)
      → read_job c r ≡ ok job
      → r.client_left ≡ true
      → b.acquire_lock s.manager.trace ≡ some g
      → str_eq g.lock_id other ≡ false
      → let after = (acquire_handler (port_manager b o) c r s).1.manager.ports in
        (find_port other after ≡ find_port other s.manager.ports)
        × IsGone g.lock_id s.manager.ports after
  unfolding acquire_handler with_job port_manager
  acquire_handler-IsGone c r s job g other read left granted d =
      let ends : Bool → Result Response Job → Type 0 = λ gone asked.
        let after = (with_job (port_manager b o) gone s asked).1.manager.ports in
        (find_port other after ≡ find_port other s.manager.ports)
        × IsGone g.lock_id s.manager.ports after in
      let at_job =
        left-IsGone g s.manager other s _ d
          (acquire-Settled b o.api_port job.wifi job.wifi_band g s.manager granted) in
      subst (λ gone. ends gone (read_job c r)) (sym left) (subst (ends true) (sym read) at_job)
