-- ===== src/Ports/RemoteIds.antt =====
-- The transport ids of a lock's phones on other boxes (internal/proxy/scoped_port.go):
-- remoteTransportID and remoteSerialByTransportID. Both maps are lists, the latest entry first.
use sair.Base.{
  ℕ, ◌+◌, ◌≤◌, ◌≡◌, refl, sym, ◌∙◌, inl, inr, Bool, true, false, not, Option, none, some, List, [],
  ◌∷◌, arith, ◌==◌, ==_iff, Bool-cases, length,
}
use sair.Text.{Bytes, str_eq, str_eq_iff, str_eq_refl}
use sair.Ports.Branch.{if◌then◌else◌}
use sair.Lines.{member}

pub record RemoteIds : Type 0 where
  pub by_serial : List (Bytes × ℕ)
  pub by_id : List (ℕ × Bytes)

unfoldable pub id_of : Bytes → List (Bytes × ℕ) → Option ℕ
id_of serial [] = none
id_of serial (e ∷ es) = if str_eq serial e.0 then some e.1 else id_of serial es

unfoldable pub serial_of : ℕ → List (ℕ × Bytes) → Option Bytes
serial_of id [] = none
serial_of id (e ∷ es) = if id == e.0 then some e.1 else serial_of id es

unfoldable pub new_id : Bytes → RemoteIds → ℕ × RemoteIds
new_id serial s =
    let id = 1000000 + length s.by_serial + 1 in
    (id, record { by_serial = (serial, id) ∷ s.by_serial; by_id = (id, serial) ∷ s.by_id })

unfoldable pub known_or_new : Option ℕ → Bytes → RemoteIds → ℕ × RemoteIds
known_or_new (some id) serial s = (id, s)
known_or_new none serial s = new_id serial s

-- `remoteTransportID`, for a port with the given phones on other boxes.
unfoldable pub remote_transport_id : List Bytes → Bytes → RemoteIds → ℕ × RemoteIds
remote_transport_id remotes serial s =
    if not (member serial remotes) then (0, s) else known_or_new (id_of serial s.by_serial) serial s

-- `remoteSerialByTransportID`: "" where the id is unknown.
unfoldable pub remote_serial_by_transport_id : ℕ → RemoteIds → Bytes
remote_serial_by_transport_id id s = elim (serial_of id s.by_id) [
  | some serial ↦ serial
  | none ↦ []
]

-- The entries are numbered in turn, the first one 1000001, and both maps have the same.
unfoldable pub Numbered : List (Bytes × ℕ) → List (ℕ × Bytes) → Type 0
Numbered [] [] = Unit {0}
Numbered [] (f ∷ fs) = ⊥
Numbered (e ∷ es) [] = ⊥
Numbered (e ∷ es) (f ∷ fs) =
    (e.1 ≡ 1000000 + length es + 1) × (f.0 ≡ e.1) × (f.1 ≡ e.0) × Numbered es fs

pub record IsNumbered (s : RemoteIds) : Type 0 where
  pub numbered : Numbered s.by_serial s.by_id

found :
    (serial : Bytes) (id : ℕ) (es : List (Bytes × ℕ)) (fs : List (ℕ × Bytes))
    → Numbered es fs
    → id_of serial es ≡ some id
    → (id ≤ 1000000 + length es) × (serial_of id fs ≡ some serial)
unfolding Numbered id_of serial_of if◌then◌else◌
found serial id [] [] n h = cc
found serial id [] (f ∷ fs) n h = absurd n
found serial id (e ∷ es) [] n h = absurd n
found serial id (e ∷ es) (f ∷ fs) n h =
    split (str_eq serial e.0) refl h (λ k. found serial id es fs n.3 k)
  where
    same_id : some e.1 ≡ some id → id ≡ e.1
    same_id k = cc

    split :
        (b : Bool)
        → str_eq serial e.0 ≡ b
        → (if b then some e.1 else id_of serial es) ≡ some id
        → (id_of serial es ≡ some id → (id ≤ 1000000 + length es) × (serial_of id fs ≡ some serial))
        → (id ≤ 1000000 + length (e ∷ es)) × (serial_of id (f ∷ fs) ≡ some serial)
    split true same k ih =
        let here : (id == f.0) ≡ true = (==_iff id f.0).1 (same_id k ∙ sym n.1) in
        (omega (arith, same_id k, n.0), rw (here, n.2, sym ((str_eq_iff serial e.0).0 same)) refl)
    split false other k ih =
        let (small, there) = ih k in
        let not_here : (id == f.0) ≡ false = ground (arith, n.0, n.1, small) in
        (omega (arith, small), rw not_here there)

known_or_new-IsNumbered :
    (known : Option ℕ) (serial : Bytes) (s : RemoteIds)
    → IsNumbered s
    → IsNumbered (known_or_new known serial s).1
unfolding known_or_new new_id Numbered
known_or_new-IsNumbered (some id) serial s i = i
known_or_new-IsNumbered none serial s i = record { numbered = (refl, refl, refl, i.numbered) }

remote_transport_id-IsNumbered :
    (remotes : List Bytes) (serial : Bytes) (s : RemoteIds)
    → IsNumbered s
    → IsNumbered (remote_transport_id remotes serial s).1
unfolding remote_transport_id if◌then◌else◌
remote_transport_id-IsNumbered remotes serial s i = elim (Bool-cases (member serial remotes)) [
  | inl ours ↦ rw ours (known_or_new-IsNumbered (id_of serial s.by_serial) serial s i)
  | inr unknown ↦ rw unknown i
]

known :
    (asked : Option ℕ) (serial : Bytes) (s : RemoteIds)
    → id_of serial s.by_serial ≡ asked
    → id_of serial (known_or_new asked serial s).1.by_serial ≡ some (known_or_new asked serial s).0
unfolding known_or_new new_id id_of if◌then◌else◌
known (some id) serial s e = e
known none serial s e = rw (str_eq_refl serial) refl

-- Of maps that are numbered in turn, the transport id that a phone on another box gets reads back
-- as its serial and is the one that it gets when asked again; the maps stay numbered in turn.
pub remote_transport_id-reads_back :
    (remotes : List Bytes) (serial : Bytes) (s : RemoteIds)
    → IsNumbered s
    → member serial remotes ≡ true
    → let (id, s') = remote_transport_id remotes serial s in
      (remote_serial_by_transport_id id s' ≡ serial)
      × IsNumbered s'
      × ((remote_transport_id remotes serial s').0 ≡ id)
unfolding remote_transport_id if◌then◌else◌ remote_serial_by_transport_id known_or_new
remote_transport_id-reads_back remotes serial s i ours =
    let r = known_or_new (id_of serial s.by_serial) serial s in
    let j = known_or_new-IsNumbered (id_of serial s.by_serial) serial s i in
    let k = known (id_of serial s.by_serial) serial s refl in
    rw ours (
      reads r.1 r.0 ((found serial r.0 r.1.by_serial r.1.by_id j.numbered k).1),
      j,
      again r.1 r.0 k,
    )
  where
    again :
        (q : RemoteIds) (id : ℕ)
        → id_of serial q.by_serial ≡ some id
        → (known_or_new (id_of serial q.by_serial) serial q).0 ≡ id
    again q id e = rw e refl

    reads :
        (q : RemoteIds) (id : ℕ)
        → serial_of id q.by_id ≡ some serial
        → elim (serial_of id q.by_id) [ some x ↦ x | none ↦ [] ] ≡ serial
    reads q id e = rw e refl
