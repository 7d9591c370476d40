-- ===== src/Source/Settles.antt =====
-- What the device source changes on a phone for a while and changes back: rules for steps that leave
-- nothing changed. One of the things is followed at a time.
use sair.Base.{
  ℕ, zero, suc, ◌+◌, ◌-◌, ◌*◌, ◌/◌, ◌%◌, ◌^◌, ◌≤◌, ◌<◌, min, max, ◌≡◌, refl, sym, ap, ◌∙◌, subst,
  ◌≢◌, ◌↔◌, ◌⊎◌, inl, inr, Bool, true, false, not, ◌&&◌, ◌||◌, Option, none, some, List, [], ◌∷◌,
  ◌++◌, map, foldl, append_assoc, append-nil, arith, ltb, leb, ◌==◌, ltb→lt, lt→ltb, leb→le, ==_iff,
  Bool-cases, Option-cases, is_some, length, take, drop, length-append, take-append-drop,
  length-take, length-drop, take-append_length, drop-append_length, take_all, drop_all, any_of,
  keep_if, All, All-append,
}
use sair.Text.{Bytes, utf8, str_eq}
use sair.Result.{Result, ok, err}
use sair.Ports.Branch.{if◌then◌else◌}
use sair.Ports.Device.{is_none}
use sair.Lines.{trim_space}
use sair.Source.Shell.{
  Command, get_setting, shell_quote, put_setting, delete_setting, airplane_mode, svc_toggle, Trace,
  Env, Fault, plain, hung, unsafe_reboot, rpc, not_online, panicked, M, ◌>>=◌, pure, text_of,
  run_shell, radio_shell, svc, after, and_then, not_yet, wait_round, wait_for,
}
use sair.Source.Bluetooth.{ble_scan, airplane_radios, finally, with_setting}

-- The radio itself, BLE scanning, airplane mode, and the list of radios that airplane mode turns off,
-- where the phone gave it as this text.
pub data Thing : Type 0 where
  adapter scanning airplane : Thing
  radio_list : Bytes → Thing

-- The commands that change a thing, and those that change it back.
unfoldable pub changes : Command → Thing → Bool
changes (svc_toggle args) adapter = str_eq args (utf8 "bluetooth disable")
changes (put_setting name value) scanning = str_eq name ble_scan && str_eq value (utf8 "0")
changes (put_setting name value) (radio_list was) =
    str_eq name airplane_radios && str_eq value (utf8 "bluetooth")
changes (airplane_mode on) airplane = on
changes c g = false

unfoldable pub undoes : Command → Thing → Bool
undoes (svc_toggle args) adapter = str_eq args (utf8 "bluetooth enable")
undoes (put_setting name value) scanning = str_eq name ble_scan && str_eq value (utf8 "1")
undoes (put_setting name value) (radio_list was) =
    str_eq name airplane_radios
    && (not (str_eq was (utf8 "null")) && str_eq value (shell_quote was))
undoes (delete_setting name) (radio_list was) =
    str_eq name airplane_radios && str_eq was (utf8 "null")
undoes (airplane_mode on) airplane = not on
undoes c g = false

-- A setting is changed only by a command that did not fail.
abbrev pub is_setting : Thing → Bool
is_setting adapter = false
is_setting scanning = true
is_setting airplane = false
is_setting (radio_list was) = true

-- Whether a command asks for the list of radios.
unfoldable pub asks_radios : Command → Bool
asks_radios (get_setting name) = str_eq name airplane_radios
asks_radios c = false

-- What the phone gave as the list of radios when it was last asked.
unfoldable pub radios_given : Env → Trace → Bytes
unfolding asks_radios
radios_given env [] = []
radios_given env (c ∷ t) =
    let earlier = radios_given env t in
    sair.Base.if◌then◌else◌ (asks_radios c) (trim_space (env.shell t (text_of c)).out) earlier

-- Whether a thing is as its name says when it is changed.
unfoldable pub is_before : Env → Trace → Thing → Bool
unfolding radios_given
is_before env t adapter = true
is_before env t scanning = true
is_before env t airplane = true
is_before env t (radio_list was) = str_eq (radios_given env t) was

module _ (env : Env) (g : Thing) where
  -- Whether the thing was changed and not changed back, the latest command first.
  unfoldable pub is_changed : Trace → Bool
  unfolding is_before
  is_changed [] = false
  is_changed (c ∷ t) =
      let before = is_changed t in
      sair.Base.if◌then◌else◌ (undoes c g) false (
        sair.Base.if◌then◌else◌
          (changes c g
            && (is_before env t g
                && (not (is_setting g) || is_none (env.shell t (text_of c)).error)))
          true before)

  -- A step that leaves the thing as it ought to be if it was so before.
  pub record Settles {A : Type 0} (m : M A) : Type 0 where
    pub leaves : (t : Trace) → is_changed t ≡ false → is_changed (m t).1 ≡ false

  pub Settles-pure : {A : Type 0} (a : A) → Settles (pure a)
  unfolding pure
  Settles-pure a = record { leaves = λ t h. h }

  pub Settles-bind :
      {A B : Type 0} (m : M A) (f : A → M B)
      → Settles m
      → ((a : A) → Settles (f a))
      → Settles (m >>= f)
  unfolding ◌>>=◌
  Settles-bind m f sm sf = record { leaves = λ t h. (sf (m t).0).leaves (m t).1 (sm.leaves t h) }

  pub Settles-if :
      {A : Type 0} (b : Bool) {m n : M A} → Settles m → Settles n → Settles (if b then m else n)
  unfolding if◌then◌else◌
  Settles-if true sm sn = sm
  Settles-if false sm sn = sn

  pub Settles-after :
      {A B : Type 0} (r : Result Fault A) (f : A → M (Result Fault B))
      → ((a : A) → Settles (f a))
      → Settles (after r f)
  unfolding after
  Settles-after (ok a) f sf = record { leaves = λ t h. (sf a).leaves t h }
  Settles-after (err e) f sf = record { leaves = λ t h. h }

  pub Settles-then :
      {A B : Type 0} (m : M (Result Fault A)) (f : A → M (Result Fault B))
      → Settles m
      → ((a : A) → Settles (f a))
      → Settles (and_then m f)
  unfolding and_then
  Settles-then m f sm sf = record {
    leaves = λ t h. (Settles-after (m t).0 f sf).leaves (m t).1 (sm.leaves t h);
  }

  -- A command that does not change the thing.
  pub Settles-run : (c : Command) → changes c g ≡ false → Settles (run_shell env c)
  unfolding run_shell is_changed
  Settles-run c n = record { leaves = λ t h. ground (arith, n, h) }

  pub Settles-radio : (c : Command) → changes c g ≡ false → Settles (radio_shell env c)
  unfolding radio_shell
  Settles-radio c n = Settles-bind _ _ (Settles-run c n) λ a. Settles-pure _

  -- A command that changes the thing back, whatever was before.
  pub undone :
      (c : Command) (t : Trace) → undoes c g ≡ true → is_changed (run_shell env c t).1 ≡ false
  unfolding run_shell is_changed
  undone c t u = rw u refl

  -- A step that leaves the thing as it ought to be, whatever was before.
  pub record Resets {A : Type 0} (m : M A) : Type 0 where
    pub restores : (t : Trace) → is_changed (m t).1 ≡ false

  pub Resets-Settles : {A : Type 0} (m : M A) → Resets m → Settles m
  Resets-Settles m rm = record { leaves = λ t h. rm.restores t }

  pub Resets-first :
      {A B : Type 0} (m : M A) (f : A → M B)
      → Resets m
      → ((a : A) → Settles (f a))
      → Resets (m >>= f)
  unfolding ◌>>=◌
  Resets-first m f rm sf = record { restores = λ t. (sf (m t).0).leaves (m t).1 (rm.restores t) }

  pub Resets-last :
      {A B : Type 0} (m : M A) (f : A → M B) → ((a : A) → Resets (f a)) → Resets (m >>= f)
  unfolding ◌>>=◌
  Resets-last m f rf = record { restores = λ t. (rf (m t).0).restores (m t).1 }

  pub Resets-then :
      {A B : Type 0} (m : M (Result Fault A)) (f : A → M (Result Fault B))
      → Resets m
      → ((a : A) → Settles (f a))
      → Resets (and_then m f)
  unfolding and_then
  Resets-then m f rm sf = record {
    restores = λ t. (Settles-after (m t).0 f sf).leaves (m t).1 (rm.restores t);
  }

  pub Resets-run : (c : Command) → undoes c g ≡ true → Resets (run_shell env c)
  Resets-run c u = record { restores = λ t. undone c t u }

  pub Resets-radio : (c : Command) → undoes c g ≡ true → Resets (radio_shell env c)
  unfolding radio_shell
  Resets-radio c u = Resets-first _ _ (Resets-run c u) λ a. Settles-pure _

  pub Settles-svc : (args : Bytes) → changes (svc_toggle args) g ≡ false → Settles (svc env args)
  unfolding svc
  Settles-svc args n = Settles-bind _ _ (Settles-radio (svc_toggle args) n) λ r. Settles-pure _

  pub Resets-svc : (args : Bytes) → undoes (svc_toggle args) g ≡ true → Resets (svc env args)
  unfolding svc
  Resets-svc args u = Resets-first _ _ (Resets-radio (svc_toggle args) u) λ r. Settles-pure _

  -- A deferred command that changes the thing back does so whatever stands before it.
  pub Resets-finally :
      (m : M (Result Fault (Unit {0}))) (c : Command) → undoes c g ≡ true → Resets (finally env m c)
  unfolding finally
  Resets-finally m c u = Resets-last m _ λ r. Resets-first _ _ (Resets-run c u) λ a. Settles-pure r

  -- What is deferred changes the thing back, or neither step changes it.
  pub Settles-finally :
      (m : M (Result Fault (Unit {0}))) (c : Command)
      → (undoes c g ≡ true) ⊎ (Settles m × (changes c g ≡ false))
      → Settles (finally env m c)
  unfolding finally
  Settles-finally m c (inl u) = Resets-Settles _ (Resets-finally m c u)
  Settles-finally m c (inr (sm, n)) =
      Settles-bind m _ sm λ r. Settles-bind _ _ (Settles-run c n) λ a. Settles-pure r

  -- A setting that could not be set is as it was.
  pub unset :
      (set : Command) (t : Trace)
      → is_setting g ≡ true
      → is_none (env.shell t (text_of set)).error ≡ false
      → is_changed t ≡ false
      → is_changed (set ∷ t) ≡ false
  unfolding is_changed
  unset set t s e h = ground (arith, s, e, h)

  -- So is one that was not as its name says.
  pub not_this :
      (set : Command) (t : Trace)
      → is_before env t g ≡ false
      → is_changed t ≡ false
      → is_changed (set ∷ t) ≡ false
  unfolding is_changed
  not_this set t w h = ground (arith, w, h)

  set_choice :
      (set undo : Command) (inside otherwise : M (Result Fault (Unit {0}))) (t : Trace) (b : Bool)
      → is_none (env.shell t (text_of set)).error ≡ b
      → undoes undo g ≡ true
      → is_setting g ≡ true
      → Settles otherwise
      → is_changed t ≡ false
      → is_changed ((if b then finally env inside undo else otherwise) (set ∷ t)).1 ≡ false
  unfolding if◌then◌else◌ finally ◌>>=◌ pure
  set_choice set undo inside otherwise t true e u s so h = undone undo (inside (set ∷ t)).1 u
  set_choice set undo inside otherwise t false e u s so h = so.leaves (set ∷ t) (unset set t s e h)

  -- A setting that is put back: what runs in between may be anything, if it is about this thing.
  pub Settles-with_setting :
      (set undo : Command) (inside otherwise : M (Result Fault (Unit {0})))
      → ((undoes undo g ≡ true) × (is_setting g ≡ true))
        ⊎ (Settles inside × (changes undo g ≡ false) × (changes set g ≡ false))
      → Settles otherwise
      → Settles (with_setting env set undo inside otherwise)
  unfolding with_setting ◌>>=◌ run_shell
  Settles-with_setting set undo inside otherwise (inr (si, nu, ns)) so =
      Settles-bind (run_shell env set) _ (Settles-run set ns)
        λ a. Settles-if (is_none a.error) (Settles-finally inside undo (inr (si, nu))) so
  Settles-with_setting set undo inside otherwise (inl (u, s)) so = record {
    leaves = λ t h. set_choice set undo inside otherwise t _ refl u s so h;
  }

  Settles-not_yet : (more : M (Result Fault (Unit {0}))) → Settles more → Settles (not_yet env more)
  unfolding not_yet
  Settles-not_yet more sm = record {
    leaves = λ t h.
        (Settles-if (env.deadline_passed t) (Settles-pure _)
            (Settles-if (env.cancelled t) (Settles-pure _) sm)).leaves
          t h;
  }

  Settles-wait_round :
      (r : Result Fault (Unit {0})) (more : M (Result Fault (Unit {0})))
      → Settles more
      → Settles (wait_round env r more)
  unfolding wait_round
  Settles-wait_round (ok u) more sm = Settles-pure _
  Settles-wait_round (err (plain e)) more sm = Settles-not_yet more sm
  Settles-wait_round (err hung) more sm = Settles-not_yet more sm
  Settles-wait_round (err (unsafe_reboot e)) more sm = Settles-not_yet more sm
  Settles-wait_round (err (rpc c e)) more sm = Settles-not_yet more sm
  Settles-wait_round (err (not_online why)) more sm = Settles-not_yet more sm
  Settles-wait_round (err panicked) more sm = Settles-pure _

  pub Settles-wait_for :
      (rounds : ℕ) (check : M (Result Fault (Unit {0})))
      → Settles check
      → Settles (wait_for rounds env check)
  unfolding wait_for
  Settles-wait_for zero check sc = Settles-pure _
  Settles-wait_for (suc n) check sc =
      Settles-bind check _ sc λ r. Settles-wait_round r _ (Settles-wait_for n check sc)
