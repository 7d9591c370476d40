-- ===== src/LockLog/Tunnel/Append.antt =====
-- `append` (internal/proxy/lock_log.go): what the buffer keeps and drops, piece by piece.
use sair.Base.{
  ℕ, zero, suc, ◌+◌, ◌-◌, ◌≡◌, refl, sym, ap, ◌∙◌, Bool, true, false, [], ◌∷◌, ◌++◌, append_assoc,
  append-nil, arith, if◌then◌else◌, length, take, length-append, length-take, take_all,
}
use sair.Text.{Bytes}
use sair.LockLog.Tunnel.{Observer, append, keep_payload, max_unflushed_output}

-- The text that the buffer keeps of some bytes, and how many it drops.
abbrev pub kept : Bytes → Bytes → Bytes
kept buf p = buf ++ take (max_unflushed_output - length buf) p

abbrev pub lost : Bytes → Bytes → ℕ
lost buf p = length p - (max_unflushed_output - length buf)

pub append_lem :
    (o : Observer) (p : Bytes)
    → append o p ≡ (
        if o.binary then o else record o { buf = kept o.buf p; dropped = o.dropped + lost o.buf p })
unfolding append
append_lem o p = ground (arith, take_all (max_unflushed_output - length o.buf) p)

take_one : (k b : ℕ) → take (suc k) (b ∷ []) ≡ b ∷ []
take_one zero b = refl
take_one (suc k) b = refl

kept-cons : (buf p : Bytes) (b : ℕ) → kept (kept buf (b ∷ [])) p ≡ kept buf (b ∷ p)
kept-cons buf p b = go (max_unflushed_output - length buf) refl
  where
    go :
        (k : ℕ)
        → max_unflushed_output - length buf ≡ k
        → kept (kept buf (b ∷ [])) p ≡ kept buf (b ∷ p)
    go zero e = rw (e, append-nil buf, e, append-nil buf)
    go (suc k) e =
        let e' : max_unflushed_output - length (buf ++ b ∷ []) ≡ k =
          omega (arith, length-append buf (b ∷ [])) in
        let one : take (max_unflushed_output - length buf) (b ∷ []) ≡ b ∷ [] =
          rw e (take_one k b) in
        rw (one, e, e') (append_assoc buf (b ∷ []) (take k p))

lost-cons :
    (buf p : Bytes) (b : ℕ) → lost buf (b ∷ []) + lost (kept buf (b ∷ [])) p ≡ lost buf (b ∷ p)
lost-cons buf p b = omega (
  arith,
  length-append buf (take (max_unflushed_output - length buf) (b ∷ [])),
  length-take (max_unflushed_output - length buf) (b ∷ []),
)

-- Appending byte by byte keeps and drops what appending the whole does.
pub append-cons :
    (o : Observer) (b : ℕ) (p : Bytes) → append o (b ∷ p) ≡ append (append o (b ∷ [])) p
append-cons o b p =
    rw (append_lem o (b ∷ p), append_lem o (b ∷ []), append_lem _ p)
      (ground (arith, kept-cons o.buf p b, lost-cons o.buf p b))

pub append-nil_lem : (o : Observer) → append o [] ≡ o
unfolding append
append-nil_lem o = ground (arith, append-nil o.buf)

-- Appending leaves the packet alone.
pub append-packet :
    (o : Observer) (p : Bytes) (n : ℕ)
    → (append (record o { left = n }) p ≡ record (append o p) { left = n })
      × ((append o p).keep ≡ o.keep)
      × ((append o p).hdr ≡ o.hdr)
      × ((append o p).capture ≡ o.capture)
      × ((append o p).left ≡ o.left)
      × ((append o p).v2 ≡ o.v2)
      × ((append o p).skip ≡ o.skip)
      × ((append o p).status ≡ o.status)
unfolding append
append-packet o p n = (
  ground arith,
  ground arith,
  ground arith,
  ground arith,
  ground arith,
  ground arith,
  ground arith,
  ground arith,
)

abbrev pub with_left : ℕ → Observer → Observer
with_left n o = record o { left = n }

pub keep_payload-cons :
    (k : Bool) (o : Observer) (b n l : ℕ) (p : Bytes)
    → record (keep_payload k o (b ∷ p)) { left = l }
      ≡ record (keep_payload k (record (keep_payload k o (b ∷ [])) { left = n }) p) { left = l }
unfolding keep_payload
keep_payload-cons true o b n l p =
    ap (with_left l) (append-cons o b p)
    ∙ ap (with_left l) (sym (append-packet (append o (b ∷ [])) p n).0)
keep_payload-cons false o b n l p = refl

-- What the decoder knows of the stream, besides the text.
abbrev pub SamePacket : Observer → Observer → Type 0
SamePacket o u =
    (u.capture ≡ o.capture)
    × (u.hdr ≡ o.hdr)
    × (u.v2 ≡ o.v2)
    × (u.skip ≡ o.skip)
    × (u.status ≡ o.status)

pub keep_payload-SamePacket :
    (k : Bool) (o : Observer) (p : Bytes) → SamePacket o (keep_payload k o p)
unfolding keep_payload
keep_payload-SamePacket true o p =
    let same = append-packet o p 0 in (same.3, same.2, same.5, same.6, same.7)
keep_payload-SamePacket false o p = (refl, refl, refl, refl, refl)

pub keep_payload-nil : (k : Bool) (o : Observer) → keep_payload k o [] ≡ o
unfolding keep_payload
keep_payload-nil true o = append-nil_lem o
keep_payload-nil false o = refl

pub keep_payload-keep : (k : Bool) (o : Observer) (p : Bytes) → (keep_payload k o p).keep ≡ o.keep
unfolding keep_payload
keep_payload-keep true o p = (append-packet o p 0).1
keep_payload-keep false o p = refl
