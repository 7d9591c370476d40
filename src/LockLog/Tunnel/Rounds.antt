-- ===== src/LockLog/Tunnel/Rounds.antt =====
-- One round of `observe` on a byte and more, beside the round on what follows that byte.
use sair.Base.{
  ℕ, suc, ◌+◌, ◌-◌, ◌<◌, min, ◌≡◌, sym, ap, ◌∙◌, false, [], ◌∷◌, ◌++◌, append_assoc, arith, ltb,
  length, take, drop, length-append,
}
use sair.Text.{Bytes}
use sair.LockLog.Tunnel.{
  Observer, read_status, read_header, take_status, take_header, take_payload, keep_payload,
}
use sair.LockLog.Tunnel.Append.{with_left, keep_payload-cons, keep_payload-keep}

pub min-suc : (a l : ℕ) → 0 < a → min a (suc l) ≡ suc (min (a - 1) l)
min-suc a l h = omega arith

snoc-append : (s : Bytes) (b : ℕ) (p : Bytes) → s ++ (b ∷ p) ≡ (s ++ b ∷ []) ++ p
snoc-append s b p = sym (append_assoc s (b ∷ []) p)

less_one : (s : Bytes) (b k : ℕ) → k - length (s ++ b ∷ []) ≡ k - length s - 1
less_one s b k = omega (arith, length-append s (b ∷ []))

pub status_goes_on :
    (o : Observer) (b : ℕ) (p : Bytes)
    → length o.status + 1 < 4
    → take_status o (b ∷ p) ≡ take_status (record o { status = o.status ++ b ∷ [] }) p
unfolding take_status
status_goes_on o b p h = rw (
  min-suc (4 - length o.status) (length p) (omega arith),
  less_one o.status b 4,
  snoc-append o.status b (take (min (4 - length o.status - 1) (length p)) p),
)

pub status_ends :
    (o : Observer) (b : ℕ) (p : Bytes)
    → length o.status + 1 ≡ 4
    → take_status o (b ∷ p) ≡ (read_status (record o { status = o.status ++ b ∷ [] }), p)
unfolding take_status
status_ends o b p h =
    let e : min (4 - length o.status) (suc (length p)) ≡ 1 = omega arith in
    let whole : ltb (length (o.status ++ b ∷ [])) 4 ≡ false =
      ground (arith, length-append o.status (b ∷ [])) in
    rw (e, whole)

pub header_goes_on :
    (o : Observer) (b : ℕ) (p : Bytes)
    → length o.hdr + 1 < 5
    → take_header o (b ∷ p) ≡ take_header (record o { hdr = o.hdr ++ b ∷ [] }) p
unfolding take_header
header_goes_on o b p h = rw (
  min-suc (5 - length o.hdr) (length p) (omega arith),
  less_one o.hdr b 5,
  snoc-append o.hdr b (take (min (5 - length o.hdr - 1) (length p)) p),
)

pub header_ends :
    (o : Observer) (b : ℕ) (p : Bytes)
    → length o.hdr + 1 ≡ 5
    → take_header o (b ∷ p) ≡ (read_header (record o { hdr = o.hdr ++ b ∷ [] }), p)
unfolding take_header
header_ends o b p h =
    let e : min (5 - length o.hdr) (suc (length p)) ≡ 1 = omega arith in
    let whole : ltb (length (o.hdr ++ b ∷ [])) 5 ≡ false =
      ground (arith, length-append o.hdr (b ∷ [])) in
    rw (e, whole)

pub payload_goes_on :
    (o : Observer) (b n : ℕ) (p : Bytes)
    → o.left ≡ suc n
    → take_payload o (b ∷ p) ≡ take_payload (record (keep_payload o.keep o (b ∷ [])) { left = n }) p
unfolding take_payload
payload_goes_on o b n p h =
    let m : ℕ = min n (length p) in
    let count : min o.left (suc (length p)) ≡ suc m = omega arith in
    let less : o.left - suc m ≡ n - m = omega arith in
    let o1 : Observer = with_left n (keep_payload o.keep o (b ∷ [])) in
    let done : Observer × Bytes =
      (with_left (n - m) (keep_payload o1.keep o1 (take m p)), drop m p) in
    rw count (
      ap {B = Observer × Bytes}
        (λ l. (with_left l (keep_payload o.keep o (b ∷ take m p)), drop m p)) less
      ∙ ap {B = Observer × Bytes} (λ x. (x, drop m p))
          (keep_payload-cons o.keep o b n (n - m) (take m p))
      ∙ ap {B = Observer × Bytes}
          (λ k. (with_left (n - m) (keep_payload k o1 (take m p)), drop m p))
          (sym (keep_payload-keep o.keep o (b ∷ []))))
