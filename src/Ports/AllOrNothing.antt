-- ===== src/Ports/AllOrNothing.antt =====
-- `Acquire` (internal/proxy/scoped_port.go): a lock's port is there when it is handed over, and is
-- gone when it is not; the other locks' ports stay as they are.
use sair.Base.{
  ℕ, zero, suc, ◌≡◌, refl, sym, ap, ◌∙◌, subst, ◌⊎◌, inl, inr, Bool, true, false, none, some, List,
  [], ◌∷◌, map, arith, Bool-cases,
}
use sair.Text.{Bytes, utf8, str_eq, str_eq_iff, str_eq_refl}
use sair.Result.{Result, ok, err}
use sair.Ports.Branch.{if◌then◌else◌}
use sair.Ports.World.{
  Err, acquire_lock_call, Granted, Bench, ScopedPort, World, M, ◌>>=◌, ◌>>◌, pure, ask, find_port,
}
use sair.Ports.Device.{when, wake_failed}
use sair.Ports.Reset.{log_excerpt}
use sair.Ports.Manager.{
  remove_port, create_scoped_port, release, CreateError, AcquireError, refused, wake_failure,
  wifi_failure, no_port, local_serials, set_wifi,
}
use sair.Ports.Acquire.{
  acquire_events, acquire_failed, prepare_phones, add_reverses, set_api_port, setup_device_api,
  wifi_refused, detail_of, hand_over, after_create, after_grant, acquire,
}
use sair.Ports.Prepared.{
  Keeps-prepare_phones, Keeps-add_reverses, Keeps-acquire_events, Keeps-log_excerpts,
  ports-set_wifi, ports-release,
}
use sair.Ports.Closed.{find-remove, find-remove_other}

-- Every lock but one finds the port that it found before.
abbrev pub SameElsewhere : Bytes → List ScopedPort → List ScopedPort → Type 0
SameElsewhere id before after =
    (other : Bytes) → str_eq id other ≡ false → find_port other after ≡ find_port other before

abbrev pub Outcome : Type 0
Outcome = Result AcquireError ScopedPort × World

abbrev pub is_no_port : AcquireError → Bool
is_no_port (no_port e) = true
is_no_port refused = false
is_no_port (wake_failure e) = false
is_no_port (wifi_failure r) = false

-- The port that was handed out is open under the lock's name; a failure leaves none, or, where the port
-- could not be made, the map as it was.
abbrev pub AllOrNothing : Bytes → List ScopedPort → Outcome → Type 0
AllOrNothing id before (ok sp, w) = find_port id w.ports ≡ some sp
AllOrNothing id before (err refused, w) = find_port id w.ports ≡ none
AllOrNothing id before (err (no_port e), w) = w.ports ≡ before
AllOrNothing id before (err (wake_failure e), w) = find_port id w.ports ≡ none
AllOrNothing id before (err (wifi_failure r), w) = find_port id w.ports ≡ none

-- How a granted lock ends up: with its port open, or with none.
pub record Ends (id : Bytes) (before : List ScopedPort) (r : Outcome) : Type 0 where
  pub others : SameElsewhere id before r.1.ports
  pub made : (e : AcquireError) → r.0 ≡ err e → is_no_port e ≡ false
  pub nothing : (e : AcquireError) → r.0 ≡ err e → find_port id r.1.ports ≡ none
  pub all : (sp : ScopedPort) → r.0 ≡ ok sp → find_port id r.1.ports ≡ some sp

-- The ports once a lock's own port is in the map.
abbrev Open : Bytes → List ScopedPort → ScopedPort → List ScopedPort → Type 0
Open id before sp now =
    (sp.lock_id ≡ id) × SameElsewhere id before now × (find_port id now ≡ some sp)

Ends-if :
    {id : Bytes} {before : List ScopedPort} (t : Bool) (m n : M (Result AcquireError ScopedPort))
    (w : World)
    → Ends id before (m w)
    → Ends id before (n w)
    → Ends id before ((if t then m else n) w)
unfolding if◌then◌else◌
Ends-if true m n w em en = em
Ends-if false m n w em en = en

api_port_of : ℕ → Bytes → ScopedPort → ScopedPort
api_port_of port id p = if str_eq p.lock_id id then record p { device_api_port = port } else p

find-api_port_other :
    (port : ℕ) (id other : Bytes) (ps : List ScopedPort)
    → str_eq id other ≡ false
    → find_port other (map (api_port_of port id) ps) ≡ find_port other ps
unfolding find_port api_port_of if◌then◌else◌
find-api_port_other port id other [] h = refl
find-api_port_other port id other (p ∷ ps) h = elim (Bool-cases (str_eq p.lock_id id)) [
  | inl mine ↦
      let not_other : str_eq p.lock_id other ≡ false =
        subst (λ t. str_eq t other ≡ false) (sym ((str_eq_iff p.lock_id id).0 mine)) h in
      rw (mine, not_other) (find-api_port_other port id other ps h)
  | inr theirs ↦ rw (theirs, find-api_port_other port id other ps h) refl
]

find-api_port :
    (port : ℕ) (id : Bytes) (ps : List ScopedPort) {sp : ScopedPort}
    → find_port id ps ≡ some sp
    → find_port id (map (api_port_of port id) ps) ≡ some (record sp { device_api_port = port })
unfolding find_port api_port_of if◌then◌else◌
find-api_port port id [] h = cc
find-api_port port id (p ∷ ps) {sp} h = elim (Bool-cases (str_eq p.lock_id id)) [
  | inl mine ↦
      let same : p ≡ sp = ground (arith, h, mine) in
      rw mine (rw mine (ap {A = ScopedPort} (λ q. some (record q { device_api_port = port })) same))
  | inr theirs ↦
      rw theirs (rw theirs (find-api_port port id ps {sp = sp} (ground (arith, h, theirs))))
]

module _ (b : Bench) where
  -- A failure on the way: the lock is released.
  Ends-failed :
      (sp : ScopedPort) (outcome : Bytes) (e : Err) (x : AcquireError) (before : List ScopedPort)
      (w : World)
      → is_no_port x ≡ false
      → SameElsewhere sp.lock_id before w.ports
      → Ends sp.lock_id before ((acquire_failed b sp outcome e >>= λ u. pure (err x)) w)
  unfolding acquire_failed ◌>>=◌ pure
  Ends-failed sp outcome e x before w n others =
      let w1 = (acquire_events b sp outcome e w).1 in
      let w2 = (log_excerpt b sp (local_serials sp) w1).1 in
      let kept : w2.ports ≡ w.ports =
        (Keeps-log_excerpts b sp (local_serials sp)).ports w1
        ∙ (Keeps-acquire_events b sp outcome e).ports w in
      let ended : (release b sp.lock_id (utf8 "error") w2).1.ports
          ≡ remove_port sp.lock_id w.ports =
        ports-release b sp.lock_id (utf8 "error") w2 ∙ ap (remove_port sp.lock_id) kept in
      record {
        others = λ other h.
            ap (find_port other) ended
            ∙ find-remove_other sp.lock_id other w.ports h
            ∙ others other h;
        made = λ e' h. ground (arith, h, n);
        nothing = λ e' h. ap (find_port sp.lock_id) ended ∙ find-remove sp.lock_id w.ports;
        all = λ sp' h. cc;
      }

  Open-set_up :
      (t : Bool) (port : ℕ) (id : Bytes) (before : List ScopedPort) (sp : ScopedPort) (w : World)
      → Open id before sp w.ports
      → Open id before
          (if t then record sp { device_api_port = port } else sp)
          (when t (set_api_port b port sp.lock_id) w).1.ports
  unfolding if◌then◌else◌ pure api_port_of
  Open-set_up false port id before sp w o = o
  Open-set_up true port id before sp w o = (
    o.0,
    λ other h.
        find-api_port_other port sp.lock_id other w.ports
          (subst (λ i. str_eq i other ≡ false) (sym o.0) h)
        ∙ o.1 other h,
    ap (λ i. find_port id (map (api_port_of port i) w.ports)) o.0
        ∙ find-api_port port id w.ports o.2,
  )

  Open-ports :
      (id : Bytes) (before : List ScopedPort) (sp : ScopedPort) (now later : List ScopedPort)
      → later ≡ now
      → Open id before sp now
      → Open id before sp later
  Open-ports id before sp now later e o = subst (Open id before sp) (sym e) o

  Open-setup_device_api :
      (port : ℕ) (id : Bytes) (before : List ScopedPort) (sp : ScopedPort) (w : World)
      → Open id before sp w.ports
      → Open id before (setup_device_api b port sp w).0 (setup_device_api b port sp w).1.ports
  unfolding setup_device_api pure ◌>>=◌
  Open-setup_device_api zero id before sp w o = o
  Open-setup_device_api (suc n) id before sp w o =
      let r = add_reverses b (suc n) sp sp.serials w in
      Open-set_up r.0 (suc n) id before sp r.1
        (Open-ports id before sp _ _ ((Keeps-add_reverses b (suc n) sp sp.serials).ports w) o)

  -- The last step: the phones have the Wi-Fi that was asked for, or the lock is given back.
  Ends-granted :
      (id : Bytes) (before : List ScopedPort) (sp : ScopedPort) (w : World)
      → Open id before sp w.ports
      → Ends id before ((acquire_events b sp (utf8 "granted") none >>= λ u. pure (ok sp)) w)
  unfolding ◌>>=◌ pure
  Ends-granted id before sp w o =
      let kept = (Keeps-acquire_events b sp (utf8 "granted") none).ports w in
      record {
        others = λ other h. ap (find_port other) kept ∙ o.1 other h;
        made = λ e h. cc;
        nothing = λ e h. cc;
        all = λ sp' h. ap (find_port id) kept ∙ o.2 ∙ cc h;
      }

  Ends-lost :
      (id : Bytes) (before : List ScopedPort) (sp : ScopedPort) (outcome : Bytes) (e : Err)
      (x : AcquireError) (w : World)
      → is_no_port x ≡ false
      → Open id before sp w.ports
      → Ends id before ((acquire_failed b sp outcome e >>= λ u. pure (err x)) w)
  Ends-lost id before sp outcome e x w n o =
      subst (λ i. Ends i before ((acquire_failed b sp outcome e >>= λ u. pure (err x)) w)) o.0
        (Ends-failed sp outcome e x before w n
          (subst (λ i. SameElsewhere i before w.ports) (sym o.0) o.1))

  Ends-wifi :
      (wifi : Bool) (band : Bytes) (id : Bytes) (before : List ScopedPort) (sp sp' : ScopedPort)
      (w : World)
      → Open id before sp' w.ports
      → Ends id before (
          (do
            r ← set_wifi b sp.lock_id [] wifi band
            if wifi_refused b r
                then (do
                  acquire_failed b sp' (utf8 "wifi_failed") (detail_of b r)
                  pure (err (wifi_failure r)))
                else (do acquire_events b sp' (utf8 "granted") none; pure (ok sp')))
            w)
  unfolding ◌>>=◌
  Ends-wifi wifi band id before sp sp' w o =
      let r = set_wifi b sp.lock_id [] wifi band w in
      let open_still =
        Open-ports id before sp' _ _ (ports-set_wifi b sp.lock_id [] wifi band w) o in
      Ends-if (wifi_refused b r.0) _ _ r.1 (Ends-lost id before sp' _ _ _ r.1 refl open_still)
        (Ends-granted id before sp' r.1 open_still)

  pub hand_over-Ends :
      (port : ℕ) (wifi : Bool) (band : Bytes) (before : List ScopedPort) (sp : ScopedPort)
      (w : World)
      → Open sp.lock_id before sp w.ports
      → Ends sp.lock_id before (hand_over b port wifi band sp w)
  unfolding hand_over ◌>>=◌
  hand_over-Ends port wifi band before sp w o =
      let r = prepare_phones b sp sp.serials w in
      let o' =
        Open-ports sp.lock_id before sp _ _ ((Keeps-prepare_phones b sp sp.serials).ports w) o in
      Ends-if (wake_failed r.0) _ _ r.1 (Ends-lost sp.lock_id before sp _ _ _ r.1 refl o') (
        Ends-wifi wifi band sp.lock_id before sp (setup_device_api b port sp r.1).0
          (setup_device_api b port sp r.1).1
          (Open-setup_device_api port sp.lock_id before sp r.1 o'))

  -- The port that a granted lock gets.
  created :
      (g : Granted) (w : World) {sp : ScopedPort}
      → (create_scoped_port b g w).0 ≡ ok sp
      → (sp.lock_id ≡ g.lock_id) × ((create_scoped_port b g w).1.ports ≡ sp ∷ w.ports)
  unfolding create_scoped_port
  created g w {sp} h = ground (arith, h)

  Open-front : (sp : ScopedPort) (ps : List ScopedPort) → Open sp.lock_id ps sp (sp ∷ ps)
  unfolding find_port
  Open-front sp ps = (refl, λ other h. rw h refl, rw (str_eq_refl sp.lock_id) refl)

  -- A port that could not be made leaves the others as they were.
  not_created :
      (g : Granted) (w : World) {e : CreateError}
      → (create_scoped_port b g w).0 ≡ err e
      → (create_scoped_port b g w).1.ports ≡ w.ports
  unfolding create_scoped_port
  not_created g w h = ground (arith, h)

  -- With its port open, or with none; if the port could not be made, the map is as it was.
  abbrev pub Settled : Granted → World → Outcome → Type 0
  Settled g w r =
      Ends g.lock_id w.ports r
      ⊎ ((e : CreateError) × (r.0 ≡ err (no_port e)) × (r.1.ports ≡ w.ports))

  made_port :
      (port : ℕ) (wifi : Bool) (band : Bytes) (g : Granted) (w : World)
      (made : Result CreateError ScopedPort)
      → (create_scoped_port b g w).0 ≡ made
      → Settled g w (after_create b port wifi band g made (create_scoped_port b g w).1)
  unfolding after_create ask pure ◌>>=◌
  made_port port wifi band g w (err e) h = inr (e, refl, not_created g w h)
  made_port port wifi band g w (ok sp) h =
      let (named, now) = created g w h in
      let v = (create_scoped_port b g w).1 in
      inl (
        subst (λ id. Ends id w.ports (hand_over b port wifi band sp v)) named
          (hand_over-Ends port wifi band w.ports sp v
            (Open-ports sp.lock_id w.ports sp _ _ now (Open-front sp w.ports))))

  pub acquire-Settled :
      (port : ℕ) (wifi : Bool) (band : Bytes) (g : Granted) (w : World)
      → b.acquire_lock w.trace ≡ some g
      → Settled g w (acquire b port wifi band w)
  unfolding acquire after_grant ask ◌>>=◌
  acquire-Settled port wifi band g w h =
      rw h (made_port port wifi band g (record w { trace = acquire_lock_call ∷ w.trace }) _ refl)

  outcome :
      (g : Granted) (w : World) (other : Bytes) (r : Outcome)
      → str_eq g.lock_id other ≡ false
      → Settled g w r
      → (find_port other r.1.ports ≡ find_port other w.ports) × AllOrNothing g.lock_id w.ports r
  outcome g w other (ok sp, v) d (inl ends) = (ends.others other d, ends.all sp refl)
  outcome g w other (err refused, v) d (inl ends) = (ends.others other d, ends.nothing _ refl)
  outcome g w other (err (wake_failure e), v) d (inl ends) =
      (ends.others other d, ends.nothing _ refl)
  outcome g w other (err (wifi_failure r), v) d (inl ends) =
      (ends.others other d, ends.nothing _ refl)
  outcome g w other (err (no_port e), v) d (inl ends) = absurd (cc (ends.made _ refl))
  outcome g w other (ok sp, v) d (inr (e, failed, same)) = cc
  outcome g w other (err refused, v) d (inr (e, failed, same)) = cc
  outcome g w other (err (wake_failure e'), v) d (inr (e, failed, same)) = cc
  outcome g w other (err (wifi_failure r), v) d (inr (e, failed, same)) = cc
  outcome g w other (err (no_port e'), v) d (inr (e, failed, same)) =
      (ap (find_port other) same, same)

  -- Of a lock that the orchestrator grants, Acquire hands out the port that is then open under the
  -- lock, or fails with no port open under it; every other lock finds the port that it found
  -- before. If no port could be made, the ports stay as they were.
  pub acquire-AllOrNothing :
      (port : ℕ) (wifi : Bool) (band : Bytes) (g : Granted) (w : World) (other : Bytes)
      → b.acquire_lock w.trace ≡ some g
      → str_eq g.lock_id other ≡ false
      → let r = acquire b port wifi band w in
        (find_port other r.1.ports ≡ find_port other w.ports) × AllOrNothing g.lock_id w.ports r
  acquire-AllOrNothing port wifi band g w other h d =
      outcome g w other _ d (acquire-Settled port wifi band g w h)
