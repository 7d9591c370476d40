-- ===== src/Adb/Bounds.antt =====
-- How much a request takes off its stream, and what a header can announce.
use sair.Base.{
  ℕ, zero, suc, ◌+◌, ◌*◌, ◌≤◌, ◌<◌, ◌≡◌, ap, ◌∙◌, inl, inr, Option, none, some, [], ◌∷◌, ◌++◌,
  arith, leb, Bool-cases, Option-cases, length, take-append-drop, length-take,
}
use sair.Text.{Bytes}
use sair.Result.{ok, ◌>>=◌, >>=-eq-ok, or_fail}
use sair.Adb.{
  Reader, ReadError, invalid_length, read_full, read_request, check_length, read_payload,
}
use sair.Adb.Number.{ℤ, pos, negsuc, parse_int, parse_uint, parse_digits, hex_value}

hex_value_lt : (c : ℕ) {d : ℕ} → hex_value c ≡ some d → d < 16
unfolding hex_value
hex_value_lt c h = ground arith

-- What the digits of a list can reach, from a value below `b`.
abbrev reach : ℕ → Bytes → ℕ
reach b [] = b
reach b (c ∷ s) = reach (b * 16) s

parse_digits_lt : (n b : ℕ) (s : Bytes) {m : ℕ} → n < b → parse_digits n s ≡ some m → m < reach b s
unfolding parse_digits
parse_digits_lt n b [] h e = ground arith
parse_digits_lt n b (c ∷ s) {m} h e = elim (Option-cases (hex_value c)) [
  | inl bad ↦ cc (rw (bad, parse_digits) at e)
  | inr (d, good) ↦
      parse_digits_lt (n * 16 + d) (b * 16) s (omega (arith, hex_value_lt c good))
        (rw (good, parse_digits) at e)
]

parse_uint_lt : (s : Bytes) {m : ℕ} → length s ≤ 4 → parse_uint s ≡ some m → m < 0x10000
unfolding parse_uint
parse_uint_lt [] h e = cc
parse_uint_lt (a ∷ []) h e = omega (arith, parse_digits_lt 0 1 (a ∷ []) (omega arith) e)
parse_uint_lt (a ∷ b ∷ []) h e = omega (arith, parse_digits_lt 0 1 (a ∷ b ∷ []) (omega arith) e)
parse_uint_lt (a ∷ b ∷ c ∷ []) h e =
    omega (arith, parse_digits_lt 0 1 (a ∷ b ∷ c ∷ []) (omega arith) e)
parse_uint_lt (a ∷ b ∷ c ∷ d ∷ []) h e = parse_digits_lt 0 1 (a ∷ b ∷ c ∷ d ∷ []) (omega arith) e
parse_uint_lt (a ∷ b ∷ c ∷ d ∷ x ∷ s) h e = absurd (omega arith)

-- A four-character header never announces more than 65535.
parse_int_lt : (s : Bytes) {m : ℕ} → length s ≡ 4 → parse_int s ≡ some (pos m) → m < 0x10000
unfolding parse_int
parse_int_lt [] h e = cc
parse_int_lt (c ∷ s) {m} h e = ground (
  arith,
  parse_uint_lt s {m = m} (omega arith),
  parse_uint_lt (c ∷ s) {m = m} (omega arith),
  parse_uint_lt s {m = 0} (omega arith),
)

read_full_sound :
    (n : ℕ) (r : Reader) {s : Bytes} {r' : Reader}
    → read_full n r ≡ ok (s, r')
    → (r.left ≡ s ++ r'.left) × (length s ≡ n) × (r'.ending ≡ r.ending)
unfolding read_full
read_full_sound n r h = elim (Bool-cases (leb n (length r.left))) [
  | inl fits ↦ ground (arith, take-append-drop n r.left, length-take n r.left)
  | inr short ↦ ground arith
]

read_payload_sound :
    (n : ℕ) (r : Reader) {s : Bytes} {r' : Reader}
    → read_payload n r ≡ ok (s, r')
    → (r.left ≡ s ++ r'.left) × (length s ≡ n) × (r'.ending ≡ r.ending)
unfolding read_payload
read_payload_sound zero r h = ground arith
read_payload_sound (suc n) r h = read_full_sound (suc n) r h

check_length_sound : (z : ℤ) {n : ℕ} → check_length z ≡ ok n → z ≡ pos n
unfolding check_length
check_length_sound (pos m) h = ground arith
check_length_sound (negsuc m) h = cc

or_fail-eq-ok :
    {A : Type 0} (o : Option A) (why : ReadError) {a : A} → or_fail o why ≡ ok a → o ≡ some a
or_fail-eq-ok none why h = cc
or_fail-eq-ok (some a) why h = ground arith

body_takes :
    (header : Bytes) (r : Reader) {s : Bytes} {r' : Reader}
    → length header ≡ 4
    → ((or_fail (parse_int header) (invalid_length header))
        >>= (λ parsed. check_length parsed >>= λ n. read_payload n r))
      ≡ ok (s, r')
    → (r.left ≡ s ++ r'.left) × (length s ≤ 0xFFFF) × (r'.ending ≡ r.ending)
body_takes header r l e =
    let (z, e1, e1') = >>=-eq-ok (or_fail (parse_int header) (invalid_length header)) _ e in
    let (n, e2, e2') = >>=-eq-ok (check_length z) (λ k. read_payload k r) e1' in
    let taken = read_payload_sound n r e2' in
    let small =
      parse_int_lt header l
        (or_fail-eq-ok (parse_int header) _ e1 ∙ ap some (check_length_sound z e2)) in
    (taken.0, omega (arith, taken.1, small), taken.2)

-- A request that is read is at most 65535 bytes long, and reading it takes off the stream a
-- four-byte header and the request, and nothing behind them.
pub read_request-takes :
    (r : Reader) {s : Bytes} {r' : Reader}
    → read_request r ≡ ok (s, r')
    → (header : Bytes) × (length header ≡ 4)
      × (r.left ≡ header ++ (s ++ r'.left))
      × (length s ≤ 0xFFFF)
      × (r'.ending ≡ r.ending)
unfolding read_request
read_request-takes r e =
    let ((header, r1), e1, e1') = >>=-eq-ok (read_full 4 r) _ e in
    let first = read_full_sound 4 r e1 in
    let body = body_takes header r1 first.1 e1' in
    (header, first.1, first.0 ∙ ap (◌++◌ header) body.0, body.1, body.2 ∙ first.2)
