-- ===== src/LockLog/Tunnel/Pieces.antt =====
-- `observe` does not depend on how the connection cuts the device's answer into pieces, and keeps
-- of a shell v2 answer exactly what its stdout and stderr packets carry.
use sair.Base.{
  ℕ, zero, suc, ◌+◌, ◌-◌, ◌≤◌, ◌<◌, min, ◌≡◌, refl, sym, ap, ◌∙◌, subst, inl, inr, Bool, true,
  false, not, [], ◌∷◌, ◌++◌, append-nil, arith, ltb, ◌==◌, if◌then◌else◌, ltb→lt, lt→ltb,
  Bool-cases, length, drop, length-append,
}
use sair.Text.{Bytes}
use sair.LockLog.Tunnel.{
  Observer, read_status, read_header, observe_round, take_status, take_header, take_payload,
  keep_payload, observe_loop, observe,
}
use sair.LockLog.Tunnel.Append.{
  append-nil_lem, append-packet, keep_payload-SamePacket, keep_payload-nil,
}
use sair.LockLog.Tunnel.Bytewise.{observe_byte, live_byte, observe_bytes, IsReady}
use sair.LockLog.Tunnel.Advances.{round-Advances}

read_status-hdr : (o : Observer) → (read_status o).hdr ≡ o.hdr
unfolding read_status
read_status-hdr o = ground arith

IsReady-if :
    (t : Bool) (o u : Observer)
    → (t ≡ true → IsReady o)
    → (t ≡ false → IsReady u)
    → IsReady (if t then o else u)
IsReady-if true o u yes_case no_case = yes_case refl
IsReady-if false o u yes_case no_case = no_case refl

keep_payload-IsReady :
    (k : Bool) (o : Observer) (p : Bytes) → IsReady o → IsReady (keep_payload k o p)
keep_payload-IsReady k o p h = subst (λ s. length s < 5) (sym (keep_payload-SamePacket k o p).1) h

live_byte-IsReady : (o : Observer) (b : ℕ) → IsReady o → IsReady (live_byte o b)
unfolding live_byte read_header
live_byte-IsReady o b h =
    IsReady-if (ltb (length o.status) 4) _ _
      (λ _.
        IsReady-if (ltb (length o.status + 1) 4) _ _ (λ _. h)
          (λ _.
            subst (λ s. length s < 5)
              (sym (read_status-hdr (record o { status = o.status ++ b ∷ [] }))) h))
      λ _.
        IsReady-if (ltb 0 o.skip) _ _ (λ _. h)
          λ _.
            IsReady-if (not o.v2) _ _
              (λ _. subst (λ s. length s < 5) (sym (append-packet o (b ∷ []) 0).2) h)
              λ _.
                IsReady-if (o.left == 0) _ _
                  (λ _.
                    IsReady-if (ltb (length o.hdr + 1) 5) _ _
                      (λ more. omega (arith, ltb→lt _ _ more, length-append o.hdr (b ∷ [])))
                      (λ _. omega arith))
                  (λ _. keep_payload-IsReady o.keep o (b ∷ []) h)

observe_byte-IsReady : (o : Observer) (b : ℕ) → IsReady o → IsReady (observe_byte o b)
unfolding observe_byte
observe_byte-IsReady o b h = IsReady-if o.capture _ _ (λ _. live_byte-IsReady o b h) (λ _. h)

pub observe_bytes-IsReady : (o : Observer) (p : Bytes) → IsReady o → IsReady (observe_bytes o p)
unfolding observe_bytes
observe_bytes-IsReady o [] h = h
observe_bytes-IsReady o (b ∷ p) h =
    observe_bytes-IsReady (observe_byte o b) p (observe_byte-IsReady o b h)

observe_byte-stopped : (o : Observer) (b : ℕ) → o.capture ≡ false → observe_byte o b ≡ o
unfolding observe_byte
observe_byte-stopped o b h = ap (λ t. if t then live_byte o b else o) h

pub observe_bytes-stopped : (o : Observer) (p : Bytes) → o.capture ≡ false → observe_bytes o p ≡ o
unfolding observe_bytes
observe_bytes-stopped o [] h = refl
observe_bytes-stopped o (b ∷ p) h =
    ap (λ u. observe_bytes u p) (observe_byte-stopped o b h) ∙ observe_bytes-stopped o p h

pub observe_bytes-append :
    (o : Observer) (p q : Bytes) → observe_bytes o (p ++ q) ≡ observe_bytes (observe_bytes o p) q
unfolding observe_bytes
observe_bytes-append o [] q = refl
observe_bytes-append o (b ∷ p) q = observe_bytes-append (observe_byte o b) p q

-- A round on nothing changes nothing.
either_way :
    {A : Type 0} (t : Bool) {r s x : A}
    → (t ≡ true → r ≡ x)
    → (t ≡ false → s ≡ x)
    → (if t then r else s) ≡ x
either_way true yes_case no_case = yes_case refl
either_way false yes_case no_case = no_case refl

status-nil : (o : Observer) → ltb (length o.status) 4 ≡ true → take_status o [] ≡ (o, [])
unfolding take_status
status-nil o h =
    let e : min (4 - length o.status) 0 ≡ 0 = omega arith in
    rw e (
      ap
        (λ s.
          if ltb (length s) 4
          then (record o { status = s }, [])
          else (read_status (record o { status = s }), []))
        (append-nil o.status)
      ∙ rw h)

header-nil : (o : Observer) → IsReady o → take_header o [] ≡ (o, [])
unfolding take_header
header-nil o h =
    let e : min (5 - length o.hdr) 0 ≡ 0 = omega arith in
    rw e (
      ap
        (λ s.
          if ltb (length s) 5
          then (record o { hdr = s }, [])
          else (read_header (record o { hdr = s }), []))
        (append-nil o.hdr)
      ∙ rw (lt→ltb _ _ h))

payload-nil : (o : Observer) → take_payload o [] ≡ (o, [])
unfolding take_payload
payload-nil o =
    let e : min o.left 0 ≡ 0 = omega arith in
    let l : o.left - 0 ≡ o.left = omega arith in
    rw e (
      ap (λ x. (record x { left = o.left - 0 }, [])) (keep_payload-nil o.keep o)
      ∙ ap (λ n. (record o { left = n }, [])) l)

skip-nil :
    (o : Observer)
    → ◌≡◌ {A = Observer × Bytes}
        (record o { skip = o.skip - min o.skip 0 }, drop (min o.skip 0) [])
        (o, [])
skip-nil o =
    let e : min o.skip 0 ≡ 0 = omega arith in
    let l : o.skip - 0 ≡ o.skip = omega arith in rw e (ap (λ n. (record o { skip = n }, [])) l)

round-nil : (o : Observer) → IsReady o → observe_round o [] ≡ (o, [])
unfolding observe_round
round-nil o h = either_way (ltb (length o.status) 4) (status-nil o) λ _.
    either_way (ltb 0 o.skip) (λ _. skip-nil o)
      λ _.
        either_way (not o.v2) (λ _. ap (λ x. (x, [])) (append-nil_lem o))
          λ _. either_way (o.left == 0) (λ _. header-nil o h) (λ _. payload-nil o)

abbrev on : ℕ → Observer × Bytes → Observer
on f r = observe_loop f r.0 r.1

loop_live :
    (f : ℕ) (o : Observer) (b : ℕ) (p : Bytes)
    → o.capture ≡ true
    → observe_loop (suc f) o (b ∷ p) ≡ on f (observe_round o (b ∷ p))
unfolding observe_loop
loop_live f o b p h = ap (λ t. elim t [ true ↦ on f (observe_round o (b ∷ p)) | false ↦ o ]) h

loop_stopped :
    (f : ℕ) (o : Observer) (b : ℕ) (p : Bytes)
    → o.capture ≡ false
    → observe_loop (suc f) o (b ∷ p) ≡ o
unfolding observe_loop
loop_stopped f o b p h = ap (λ t. elim t [ true ↦ on f (observe_round o (b ∷ p)) | false ↦ o ]) h

loop-nil : (f : ℕ) (o : Observer) → observe_loop f o [] ≡ o
unfolding observe_loop
loop-nil zero o = refl
loop-nil (suc f) o = refl

loop_goes_on :
    (f : ℕ) (o : Observer) (p : Bytes)
    → IsReady o
    → o.capture ≡ true
    → observe_loop (suc f) o p ≡ observe_bytes o p
    → on f (observe_round o p) ≡ observe_bytes o p
loop_goes_on f o [] h c ih =
    ap (on f) (round-nil o h) ∙ loop-nil f o ∙ sym (loop-nil (suc f) o) ∙ ih
loop_goes_on f o (b ∷ p) h c ih = sym (loop_live f o b p c) ∙ ih

-- The loop is the bytewise decoder, on any fuel that is not less than the bytes.
loop-bytes :
    (f : ℕ) (o : Observer) (p : Bytes)
    → length p ≤ f
    → IsReady o
    → observe_loop f o p ≡ observe_bytes o p
unfolding observe_bytes
loop-bytes zero o [] l h = loop-nil 0 o
loop-bytes zero o (b ∷ p) l h = absurd (omega arith)
loop-bytes (suc f) o [] l h = loop-nil (suc f) o
loop-bytes (suc f) o (b ∷ p) l h = elim (Bool-cases o.capture) [
  | inr stopped ↦ loop_stopped f o b p stopped ∙ sym (observe_bytes-stopped o (b ∷ p) stopped)
  | inl live ↦ loop_live f o b p live ∙ elim (round-Advances o b p h live) [
    | inl e ↦ ap (on f) e ∙ loop-bytes f (observe_byte o b) p (omega arith) ready
    | inr (e, c) ↦
        ap (on f) e
        ∙ loop_goes_on f (observe_byte o b) p ready c
            (loop-bytes (suc f) (observe_byte o b) p (omega arith) ready)
  ]
]
  where
    ready : IsReady (observe_byte o b)
    ready = observe_byte-IsReady o b h

-- Reading the device's answer in one chunk is reading it byte by byte, for an observer that holds
-- fewer than five bytes of a packet header: the loop needs no more rounds than there are bytes,
-- and every round is right.
pub observe-eq-observe_bytes :
    (o : Observer) (p : Bytes) → IsReady o → observe o p ≡ observe_bytes o p
unfolding observe
observe-eq-observe_bytes o p h = loop-bytes (length p) o p (omega arith) h

-- However the connection cuts a device's answer in two, the observer ends in the same state as
-- when it sees the answer whole; the observer holds fewer than five bytes of a packet header.
pub observe-append :
    (o : Observer) (p q : Bytes) → IsReady o → observe o (p ++ q) ≡ observe (observe o p) q
observe-append o p q h =
    observe-eq-observe_bytes o (p ++ q) h
    ∙ observe_bytes-append o p q
    ∙ sym (
        rw (observe-eq-observe_bytes o p h)
          (observe-eq-observe_bytes (observe_bytes o p) q (observe_bytes-IsReady o p h)))
