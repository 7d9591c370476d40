-- ===== src/Logging/Turns.antt =====
-- Reading the ring (internal/logging/recent.go) from its turn on.
use sair.Base.{
  ℕ, zero, suc, ◌+◌, ◌-◌, ◌%◌, ◌≤◌, ◌<◌, ◌≡◌, refl, sym, ap, ◌∙◌, inl, inr, Bool, true, false, List,
  [], ◌∷◌, ◌++◌, map, append-nil, arith, ltb, Bool-cases, length, take, drop, length-drop, take_all,
  keep_if,
}
use sair.Text.{Bytes}
use sair.Ports.Branch.{if◌then◌else◌}
use sair.Logging.Redact.{redact_secrets}
use native.Mathlib.Nat.{mod-eq_of_lt, mod_self, mod-add-mod}
use sair.Logging.Recent.{Ring, line_at, is_wanted, read_from, read_lines}
use sair.Logging.Latest.{in_order, IsRing}

-- Those that are wanted, redacted.
unfoldable pub chosen : List Bytes → List Bytes → List Bytes
chosen match xs = map redact_secrets (keep_if (is_wanted match) xs)

turns : List Bytes → ℕ → ℕ → List Bytes
turns xs s zero = []
turns xs s (suc n) = line_at (s % length xs) xs ∷ turns xs (suc s) n

chosen-cons :
    (match : List Bytes) (x : Bytes) (xs rest : List Bytes)
    → rest ≡ chosen match xs
    → (if is_wanted match x then redact_secrets x ∷ rest else rest) ≡ chosen match (x ∷ xs)
unfolding chosen if◌then◌else◌
chosen-cons match x xs rest e = elim (Bool-cases (is_wanted match x)) [
  | inl hit ↦ rw (hit, taken (is_wanted match x) hit) (ap (◌∷◌ (redact_secrets x)) e)
  | inr miss ↦ rw (miss, left_out (is_wanted match x) miss) e
]
  where
    keep : Bool → List Bytes
    keep b = elim b [
      | true ↦ x ∷ keep_if (is_wanted match) xs
      | false ↦ keep_if (is_wanted match) xs
    ]

    taken : (b : Bool) → b ≡ true → keep b ≡ x ∷ keep_if (is_wanted match) xs
    taken true h = refl
    taken false h = cc

    left_out : (b : Bool) → b ≡ false → keep b ≡ keep_if (is_wanted match) xs
    left_out false h = refl
    left_out true h = cc

read_from-turns :
    (r : Ring) (match : List Bytes) (i n : ℕ)
    → read_from r match i n ≡ chosen match (turns r.lines (r.next + i) n)
unfolding read_from turns chosen
read_from-turns r match i zero = none_left
  where
    none_left : [] ≡ chosen match []
    none_left = refl
read_from-turns r match i (suc n) =
    let e : r.next + suc i ≡ suc (r.next + i) = omega arith in
    chosen-cons match (line_at ((r.next + i) % length r.lines) r.lines)
      (turns r.lines (suc (r.next + i)) n) (read_from r match (suc i) n)
      (read_from-turns r match (suc i) n ∙ ap (λ s. chosen match (turns r.lines s n)) e)

take-drop :
    (n s : ℕ) (xs : List Bytes)
    → s < length xs
    → take (suc n) (drop s xs) ≡ line_at s xs ∷ take n (drop (suc s) xs)
unfolding line_at
take-drop n s [] h = absurd (omega arith)
take-drop n zero (x ∷ xs) h = refl
take-drop n (suc s) (x ∷ xs) h = take-drop n s xs (omega arith)

-- Turns that read the places from `s` on, in a row.
turns-row :
    (xs : List Bytes) (t s n : ℕ)
    → ((k : ℕ) → k < n → (t + k) % length xs ≡ s + k)
    → s + n ≤ length xs
    → turns xs t n ≡ take n (drop s xs)
unfolding turns
turns-row xs t s zero h fits = refl
turns-row xs t s (suc n) h fits =
    rw (take-drop n s xs (omega arith), here)
      (ap (◌∷◌ (line_at s xs)) (turns-row xs (suc t) (suc s) n next (omega arith)))
  where
    same_place : t + 0 ≡ t
    same_place = omega arith

    here : t % length xs ≡ s
    here = ap (λ m. m % length xs) (sym same_place) ∙ h 0 (omega arith) ∙ omega arith

    next : (k : ℕ) → k < n → (suc t + k) % length xs ≡ suc s + k
    next k small =
        let e : suc t + k ≡ t + suc k = omega arith in
        let e' : s + suc k ≡ suc s + k = omega arith in
        ap (λ m. m % length xs) e ∙ h (suc k) (omega arith) ∙ e'

turns-append :
    (xs : List Bytes) (t m n : ℕ) → turns xs t (m + n) ≡ turns xs t m ++ turns xs (t + m) n
unfolding turns
turns-append xs t zero n =
    let e : 0 + n ≡ n = omega arith in
    let e' : t ≡ t + 0 = omega arith in ap (turns xs t) e ∙ ap (λ s. turns xs s n) e'
turns-append xs t (suc m) n =
    let e : suc m + n ≡ suc (m + n) = omega arith in
    let e' : suc t + m ≡ t + suc m = omega arith in
    ap (turns xs t) e
    ∙ ap (◌∷◌ (line_at (t % length xs) xs))
        (turns-append xs (suc t) m n ∙ ap (λ s. turns xs (suc t) m ++ turns xs s n) e')

around : (xs : List Bytes) (s : ℕ) → s < length xs → turns xs s (length xs) ≡ drop s xs ++ take s xs
around xs s h =
    let size = length xs in
    let e : size ≡ (size - s) + s = omega (arith, h) in
    let e' : s + (size - s) ≡ size = omega (arith, h) in
    ap (turns xs s) e
    ∙ turns-append xs s (size - s) s
    ∙ ap (λ t. turns xs s (size - s) ++ turns xs t s) e'
    ∙ ap (λ front. front ++ turns xs size s)
        (turns-row xs s s (size - s) (λ k small. mod-eq_of_lt (omega (arith, h, small)))
            (omega (arith, h))
          ∙ take_all (size - s) (drop s xs) (omega (arith, length-drop s xs)))
    ∙ ap (λ back. drop s xs ++ back)
        (turns-row xs size 0 s (λ k small. once_more k (omega (arith, h, small)))
          (omega (arith, h)))
  where
    once_more : (k : ℕ) → k < length xs → (length xs + k) % length xs ≡ 0 + k
    once_more k small =
        let e : 0 + k ≡ k = omega arith in
        sym (mod-add-mod (length xs) (length xs) k)
        ∙ ap (λ m. (m + k) % length xs) (mod_self (length xs))
        ∙ ap (λ m. m % length xs) e
        ∙ mod-eq_of_lt small
        ∙ sym e

-- Reading a ring goes round it once, from its turn on: it gives the lines that are wanted, the
-- oldest first, each redacted.
pub read_lines-in_order :
    (r : Ring) (match : List Bytes) → IsRing r → read_lines r match ≡ chosen match (in_order r)
unfolding read_lines in_order
read_lines-in_order r match i =
    let e : r.next + 0 ≡ r.next = omega arith in
    read_from-turns r match 0 (length r.lines)
    ∙ ap (λ s. chosen match (turns r.lines s (length r.lines))) e
    ∙ ap (chosen match) (elim (Bool-cases (ltb (length r.lines) r.max_lines)) [
      | inl room ↦ from_start r.next (i.starts (ground arith))
      | inr full ↦ around r.lines r.next (ground (arith, i.turns, i.fits))
    ])
  where
    at_start : (k : ℕ) → k < length r.lines → (0 + k) % length r.lines ≡ 0 + k
    at_start k small = mod-eq_of_lt (omega (arith, small))

    from_start :
        (s : ℕ) → s ≡ 0 → turns r.lines s (length r.lines) ≡ drop s r.lines ++ take s r.lines
    from_start s e = rw e (
        turns-row r.lines 0 0 (length r.lines) (λ k small. at_start k small) (omega arith)
        ∙ take_all (length r.lines) r.lines (omega arith)
        ∙ sym (append-nil r.lines))
