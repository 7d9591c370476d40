-- ===== src/Ports/Prepared.antt =====
-- What the steps of `Acquire` and `Release` (internal/proxy/scoped_port.go) do to the map of ports.
use sair.Base.{ℕ, ◌≡◌, refl, ◌∙◌, Bool, true, false, Option, none, some, List, [], ◌∷◌}
use sair.Text.{Bytes}
use sair.Result.{Result, ok, err}
use sair.Ports.World.{Err, Call, Bench, ScopedPort, World, WifiState, ◌>>=◌, pure, ask, find_port}
use sair.Ports.Reset.{source_excerpts, log_excerpt}
use sair.Ports.Manager.{
  remove_port, drain_log, drain_port, close_scoped_port, release, LockError, local_serials,
  wifi_each, wifi_of, lock_devices, set_wifi,
}
use sair.Ports.Acquire.{
  take_fresh, each_event, acquire_events, prepare_phone, prepare_phones, add_reverses,
}
use sair.Ports.Keeps.{Keeps, Keeps-pure, Keeps-bind, Keeps-ask, Keeps-if, Keeps-read, Keeps-when}
use sair.Ports.Steps.{
  Permits, Keeps-wake_device, Keeps-wifi_device, Keeps-set_updates, Keeps-cycle_bluetooth,
  Keeps-clean_device,
}
use sair.Ports.Lifecycle.{Keeps-add_excerpt, Keeps-source_excerpt}
use sair.Ports.Closed.{closed_ports}

-- Any call at all.
abbrev pub Free : Call → Type 0
Free c = Unit {0}

free : (serial : Bytes) → Permits Free serial
free serial = record {
  event = λ e h. tt;
  wait = tt;
  wake = tt;
  wifi = λ state band. tt;
  updates = λ hold. tt;
  reverse = tt;
  clear = tt;
  bluetooth = tt;
  wedged = λ radio. tt;
  stale = tt;
  source = tt;
}

module _ (b : Bench) where
  Keeps-take_fresh : (serial : Bytes) → Keeps Free (take_fresh serial)
  Keeps-take_fresh serial = record { ports = λ w. refl; calls = λ w. ([], refl, tt) }

  Keeps-prepare_phone : (sp : ScopedPort) (serial : Bytes) → Keeps Free (prepare_phone b sp serial)
  unfolding prepare_phone
  Keeps-prepare_phone sp serial =
      Keeps-bind Free _ _ (Keeps-clean_device Free b sp serial (free serial) _ none λ h. tt)
        λ dirty. Keeps-bind Free _ _ (Keeps-take_fresh serial) λ fresh.
          Keeps-bind Free _ _
            (Keeps-when Free _ (
              Keeps-bind Free _ _ (Keeps-cycle_bluetooth Free b sp serial (free serial) _ true)
                λ e. Keeps-pure Free tt))
            λ u.
              Keeps-bind Free _ _ (Keeps-set_updates Free b sp serial (free serial) true)
                λ u'. Keeps-wake_device Free b sp serial (free serial) sp.lock_id

  pub Keeps-prepare_phones :
      (sp : ScopedPort) (serials : List Bytes) → Keeps Free (prepare_phones b sp serials)
  unfolding prepare_phones
  Keeps-prepare_phones sp [] = Keeps-pure Free none
  Keeps-prepare_phones sp (serial ∷ serials) = Keeps-if Free _ (Keeps-prepare_phones sp serials) (
      Keeps-bind Free _ _ (Keeps-prepare_phone sp serial)
        λ e. Keeps-if Free _ (Keeps-pure Free e) (Keeps-prepare_phones sp serials))

  pub Keeps-add_reverses :
      (port : ℕ) (sp : ScopedPort) (serials : List Bytes)
      → Keeps Free (add_reverses b port sp serials)
  unfolding add_reverses
  Keeps-add_reverses port sp [] = Keeps-pure Free true
  Keeps-add_reverses port sp (serial ∷ serials) =
      Keeps-if Free _ (Keeps-add_reverses port sp serials) (
        Keeps-bind Free _ _ (Keeps-ask Free _ _ tt)
          λ e. Keeps-if Free _ (Keeps-add_reverses port sp serials) (Keeps-pure Free false))

  Keeps-each_event :
      (id : Bytes) (sp : ScopedPort) (outcome : Bytes) (e : Err) (serials : List Bytes)
      → Keeps Free (each_event b id sp outcome e serials)
  unfolding each_event
  Keeps-each_event id sp outcome e [] = Keeps-pure Free tt
  Keeps-each_event id sp outcome e (s ∷ ss) =
      Keeps-bind Free _ _ (Keeps-ask Free _ _ tt) λ u. Keeps-each_event id sp outcome e ss

  pub Keeps-acquire_events :
      (sp : ScopedPort) (outcome : Bytes) (e : Err) → Keeps Free (acquire_events b sp outcome e)
  unfolding acquire_events
  Keeps-acquire_events sp outcome e = Keeps-each_event sp.lock_id sp outcome e (local_serials sp)

  Keeps-source_excerpts :
      (now : ℕ) (sp : ScopedPort) (serials : List Bytes)
      → Keeps Free (source_excerpts b now sp serials)
  unfolding source_excerpts
  Keeps-source_excerpts now sp [] = Keeps-pure Free tt
  Keeps-source_excerpts now sp (s ∷ ss) = Keeps-bind Free _ _ (Keeps-ask Free _ _ tt) λ answer.
      Keeps-bind Free _ _ (Keeps-source_excerpt Free b sp s (free s) now answer)
        λ u. Keeps-source_excerpts now sp ss

  pub Keeps-log_excerpts :
      (sp : ScopedPort) (serials : List Bytes) → Keeps Free (log_excerpt b sp serials)
  unfolding log_excerpt
  Keeps-log_excerpts sp serials = Keeps-bind Free _ _ (Keeps-read Free (λ w. b.now w.trace)) λ now.
      Keeps-bind Free _ _ (Keeps-read Free (λ w. b.recent_lines w.trace (sp.lock_id ∷ serials)))
        λ ls.
          Keeps-bind Free _ _ (Keeps-add_excerpt Free b sp [] (free []) now _ ls)
            λ u. Keeps-source_excerpts now sp serials

  Keeps-wifi_each :
      (sp : ScopedPort) (id : Bytes) (state : WifiState) (band : Bytes) (serials : List Bytes)
      → Keeps Free (wifi_each b id state band serials)
  unfolding wifi_each
  Keeps-wifi_each sp id state band [] = Keeps-pure Free none
  Keeps-wifi_each sp id state band (s ∷ ss) =
      Keeps-bind Free _ _ (Keeps-wifi_device Free b sp s (free s) id state band)
        λ e. Keeps-bind Free _ _ (Keeps-wifi_each sp id state band ss) λ e'. Keeps-pure Free _

  ports-wifi_of :
      (r : Result LockError (ScopedPort × List Bytes)) (id : Bytes) (on : Bool) (band : Bytes)
      → Keeps Free (wifi_of b r id on band)
  unfolding wifi_of
  ports-wifi_of (err e) id on band = Keeps-pure Free (err e)
  ports-wifi_of (ok (sp, chosen)) id on band =
      Keeps-bind Free _ _ (Keeps-wifi_each sp id _ band chosen) λ e. Keeps-pure Free (ok e)

  pub ports-set_wifi :
      (id : Bytes) (serials : List Bytes) (on : Bool) (band : Bytes) (w : World)
      → (set_wifi b id serials on band w).1.ports ≡ w.ports
  unfolding set_wifi
  ports-set_wifi id serials on band w =
      (ports-wifi_of (lock_devices id serials w.ports) id on band).ports w

  ports-drain_port : (o : Option ScopedPort) (w : World) → (drain_port b o w).1.ports ≡ w.ports
  unfolding drain_port drain_log pure
  ports-drain_port none w = refl
  ports-drain_port (some sp) w = drained sp.log w
    where
      drained : (l : Option ℕ) (v : World) → (drain_log l v).1.ports ≡ v.ports
      drained none v = refl
      drained (some n) v = refl

  -- The end of a lock by name takes its port away and no other.
  pub ports-release :
      (id status : Bytes) (w : World) → (release b id status w).1.ports ≡ remove_port id w.ports
  unfolding release ◌>>=◌ pure ask
  ports-release id status w =
      ports-drain_port (find_port id w.ports) (close_scoped_port b id w).1 ∙ closed_ports b id w
