-- ===== src/Ports/Keeps.antt =====
-- Which calls the steps on a phone may make, and that they leave the map of ports alone.
use sair.Base.{
  ℕ, ◌≡◌, refl, sym, ap, ◌∙◌, Bool, true, false, Option, none, some, [], ◌∷◌, ◌++◌, append_assoc,
  All, All-append,
}
use sair.Text.{Bytes}
use sair.LockLog.Entries.{Entry}
use sair.Ports.Branch.{if◌then◌else◌}
use sair.Ports.World.{Call, Trace, Bench, ScopedPort, World, M, ◌>>=◌, pure, ask, record_in}
use sair.Ports.Device.{when, note_line}

module _ (P : Call → Type 0) where
  -- From any world, `m` leaves the ports as they are and makes calls that satisfy `P` only.
  pub record Keeps {A : Type 0} (m : M A) : Type 0 where
    pub ports : (w : World) → (m w).1.ports ≡ w.ports
    pub calls : (w : World) → (new : Trace) × ((m w).1.trace ≡ new ++ w.trace) × All P new

  pub Keeps-pure : {A : Type 0} (a : A) → Keeps (pure a)
  unfolding pure
  Keeps-pure a = record { ports = λ w. refl; calls = λ w. ([], refl, tt) }

  pub Keeps-bind :
      {A B : Type 0} (m : M A) (f : A → M B) → Keeps m → ((a : A) → Keeps (f a)) → Keeps (m >>= f)
  unfolding ◌>>=◌
  Keeps-bind m f km kf = record {
    ports = λ w. (kf (m w).0).ports (m w).1 ∙ km.ports w;
    calls = λ w.
        let (before, e, pb) = km.calls w in
        let (after, e', pa) = (kf (m w).0).calls (m w).1 in
        (
          after ++ before,
          e' ∙ ap (◌++◌ after) e ∙ sym (append_assoc after before w.trace),
          All-append P after before pa pb,
        );
  }

  pub Keeps-ask : {A : Type 0} (c : Call) (f : Trace → A) → P c → Keeps (ask c f)
  unfolding ask
  Keeps-ask c f pc = record { ports = λ w. refl; calls = λ w. (c ∷ [], refl, (pc, tt)) }

  pub Keeps-if :
      {A : Type 0} (t : Bool) {m n : M A} → Keeps m → Keeps n → Keeps (if t then m else n)
  unfolding if◌then◌else◌
  Keeps-if true km kn = km
  Keeps-if false km kn = kn

  pub Keeps-cond :
      {A : Type 0} (t : Bool) {m n : M A}
      → (t ≡ true → Keeps m)
      → (t ≡ false → Keeps n)
      → Keeps (if t then m else n)
  unfolding if◌then◌else◌
  Keeps-cond true km kn = km refl
  Keeps-cond false km kn = kn refl

  pub Keeps-record_in : (l : Option ℕ) (e : Entry) → Keeps (record_in l e)
  unfolding record_in
  Keeps-record_in none e = record { ports = λ w. refl; calls = λ w. ([], refl, tt) }
  Keeps-record_in (some n) e = record { ports = λ w. refl; calls = λ w. ([], refl, tt) }

  pub Keeps-note_line :
      (b : Bench) (sp : ScopedPort) (serial service : Bytes) → Keeps (note_line b sp serial service)
  Keeps-note_line b sp serial service = record {
    ports = λ w. (Keeps-record_in sp.log _).ports w;
    calls = λ w. (Keeps-record_in sp.log _).calls w;
  }

  pub Keeps-read : {A : Type 0} (f : World → A) → Keeps (λ w. (f w, w))
  Keeps-read f = record { ports = λ w. refl; calls = λ w. ([], refl, tt) }

  pub Keeps-when : (t : Bool) {m : M (Unit {0})} → Keeps m → Keeps (when t m)
  Keeps-when t k = Keeps-if t k (Keeps-pure tt)
