-- ===== src/Logging/Latest.antt =====
-- The ring (internal/logging/recent.go) holds the latest lines, in order.
use sair.Base.{
  ℕ, zero, suc, ◌+◌, ◌-◌, ◌%◌, ◌≤◌, ◌<◌, ◌≡◌, refl, sym, ap, ◌∙◌, inl, inr, false, List, [], ◌∷◌,
  ◌++◌, append_assoc, append-nil, arith, ltb, Bool-cases, length, take, drop, length-append,
  length-take, length-drop, take-append_length, drop-append_length,
}
use sair.Text.{Bytes}
use sair.Ports.Branch.{if◌then◌else◌}
use native.Mathlib.Nat.{mod-eq_of_lt, mod-lt, mod_self}
use sair.Logging.Recent.{Ring, set_at, write_line, write_lines, write, trim_newlines}
use sair.Lines.{lines_of}

-- The last `n` of a list.
unfoldable pub latest : ℕ → List Bytes → List Bytes
latest n xs = drop (length xs - n) xs

-- The lines of a ring, the oldest first.
unfoldable pub in_order : Ring → List Bytes
in_order r = drop r.next r.lines ++ take r.next r.lines

pub record IsRing (r : Ring) : Type 0 where
  pub fits : length r.lines ≤ r.max_lines
  pub turns : r.next < r.max_lines
  pub starts : length r.lines < r.max_lines → r.next ≡ 0

drop-nil : (n : ℕ) → Path (List Bytes) (drop n []) []
drop-nil zero = refl
drop-nil (suc n) = refl

drop-drop : (j k : ℕ) (xs : List Bytes) → drop j (drop k xs) ≡ drop (k + j) xs
drop-drop j zero xs = ap (λ m. drop m xs) (omega arith)
drop-drop j (suc k) [] = drop-nil j ∙ sym (drop-nil (suc k + j))
drop-drop j (suc k) (x ∷ xs) =
    let e : suc (k + j) ≡ suc k + j = omega arith in drop-drop j k xs ∙ ap (λ m. drop m (x ∷ xs)) e

drop-append : (k : ℕ) (xs ys : List Bytes) → k ≤ length xs → drop k (xs ++ ys) ≡ drop k xs ++ ys
drop-append zero xs ys h = refl
drop-append (suc k) [] ys h = absurd (omega arith)
drop-append (suc k) (x ∷ xs) ys h = drop-append k xs ys (omega arith)

latest-latest : (n : ℕ) (xs ys : List Bytes) → latest n (latest n xs ++ ys) ≡ latest n (xs ++ ys)
unfolding latest
latest-latest n xs ys =
    let k = length xs - n in
    let j = length (drop k xs ++ ys) - n in
    ap (drop j) (sym (drop-append k xs ys (omega arith)))
    ∙ drop-drop j k (xs ++ ys)
    ∙ ap (λ m. drop m (xs ++ ys))
        (omega (arith, length-append (drop k xs) ys, length-drop k xs, length-append xs ys))

set_at-append :
    (front : List Bytes) (l x : Bytes) (back : List Bytes)
    → set_at (length front) l (front ++ x ∷ back) ≡ front ++ l ∷ back
unfolding set_at
set_at-append [] l x back = refl
set_at-append (f ∷ front) l x back = ap (◌∷◌ f) (set_at-append front l x back)

split_at_turn :
    (n : ℕ) (xs : List Bytes)
    → n < length xs
    → (front : List Bytes) × (x : Bytes) × (back : List Bytes) × (xs ≡ front ++ x ∷ back)
      × (length front ≡ n)
split_at_turn n [] h = absurd (omega arith)
split_at_turn zero (x ∷ xs) h = ([], x, xs, refl, refl)
split_at_turn (suc n) (y ∷ xs) h =
    let (front, x, back, e, m) = split_at_turn n xs (omega arith) in
    (y ∷ front, x, back, ap (◌∷◌ y) e, ap suc m)

drop_past :
    (front : List Bytes) (l : Bytes) (back : List Bytes)
    → drop (suc (length front)) (front ++ l ∷ back) ≡ back
drop_past [] l back = refl
drop_past (f ∷ front) l back = drop_past front l back

take_past :
    (front : List Bytes) (l : Bytes) (back : List Bytes)
    → take (suc (length front)) (front ++ l ∷ back) ≡ front ++ l ∷ []
take_past [] l back = refl
take_past (f ∷ front) l back = ap (◌∷◌ f) (take_past front l back)

latest_all : (m : ℕ) (xs : List Bytes) → length xs ≤ m → latest m xs ≡ xs
unfolding latest
latest_all m xs h = none_over (length xs - m) (omega arith)
  where
    none_over : (k : ℕ) → k ≡ 0 → drop k xs ≡ xs
    none_over k e = rw e refl

rotation : ℕ → List Bytes → List Bytes
rotation n xs = drop n xs ++ take n xs

-- After a line was put in its turn, the turn is the next one's, or the first one's again.
rotation-turn :
    (front : List Bytes) (l : Bytes) (back : List Bytes) (m : ℕ)
    → suc (length front + length back) ≡ m
    → rotation ((length front + 1) % m) (front ++ l ∷ back) ≡ (back ++ front) ++ l ∷ []
unfolding rotation
rotation-turn front l [] m e = rw (again m (omega (arith, e))) (append-nil (front ++ l ∷ []))
  where
    again : (k : ℕ) → length front + 1 ≡ k → (length front + 1) % k ≡ 0
    again k h = rw h (mod_self k)
rotation-turn front l (b ∷ back) m e =
    rw
      (
        mod-eq_of_lt {n = length front + 1} {m = m} (omega (arith, e)),
        plus_one,
        drop_past front l (b ∷ back),
        take_past front l (b ∷ back),
      )
      (sym (append_assoc (b ∷ back) front (l ∷ [])))
  where
    plus_one : length front + 1 ≡ suc (length front)
    plus_one = omega arith

rotation-old :
    (front : List Bytes) (x : Bytes) (back : List Bytes)
    → rotation (length front) (front ++ x ∷ back) ≡ (x ∷ back) ++ front
unfolding rotation
rotation-old front x back =
    rw (drop-append_length front (x ∷ back), take-append_length front (x ∷ back)) refl

latest-old :
    (front : List Bytes) (x l : Bytes) (back : List Bytes) (m : ℕ)
    → suc (length front + length back) ≡ m
    → latest m (((x ∷ back) ++ front) ++ l ∷ []) ≡ (back ++ front) ++ l ∷ []
unfolding latest
latest-old front x l back m e =
    rw
      (one_over (
        omega
          (arith, e, length-append ((x ∷ back) ++ front) (l ∷ []), length-append (x ∷ back) front)))
      refl
  where
    one_over :
        length (((x ∷ back) ++ front) ++ l ∷ []) - m ≡ 1
        → length (((x ∷ back) ++ front) ++ l ∷ []) - m ≡ 1
    one_over h = h

-- A full ring, around the line whose turn it is.
at_turn :
    (l x : Bytes) (front back xs : List Bytes) (n m : ℕ)
    → xs ≡ front ++ x ∷ back
    → length front ≡ n
    → length xs ≡ m
    → rotation ((n + 1) % m) (set_at n l xs) ≡ latest m (rotation n xs ++ l ∷ [])
at_turn l x front back xs n m e k full =
    let size : suc (length front + length back) ≡ m =
      omega (arith, full, ap length e, length-append front (x ∷ back)) in
    rw (e, sym k, set_at-append front l x back, rotation-old front x back)
      (rotation-turn front l back m size ∙ sym (latest-old front x l back m size))

write_line-in_order :
    (r : Ring) (l : Bytes)
    → IsRing r
    → in_order (write_line r l) ≡ latest r.max_lines (in_order r ++ l ∷ [])
unfolding write_line if◌then◌else◌ in_order rotation
write_line-in_order r l i = elim (Bool-cases (ltb (length r.lines) r.max_lines)) [
  | inl room ↦ rw (room) (with_room r.next r.lines (i.starts (ground arith)) (ground arith))
  | inr full ↦ rw full (
      let (front, x, back, e, n) = split_at_turn r.next r.lines (ground (arith, i.turns, i.fits)) in
      at_turn l x front back r.lines r.next r.max_lines e n (ground (arith, i.fits)))
]
  where
    with_room :
        (n : ℕ) (xs : List Bytes)
        → n ≡ 0
        → length xs < r.max_lines
        → rotation n (xs ++ l ∷ []) ≡ latest r.max_lines (rotation n xs ++ l ∷ [])
    with_room n xs e room =
        rw (e, append-nil xs, append-nil (xs ++ l ∷ []))
          (sym (latest_all r.max_lines (xs ++ l ∷ []) (omega (arith, length-append xs (l ∷ [])))))

length-set_at : (n : ℕ) (l : Bytes) (xs : List Bytes) → length (set_at n l xs) ≡ length xs
unfolding set_at
length-set_at n l [] = refl
length-set_at zero l (x ∷ xs) = refl
length-set_at (suc n) l (x ∷ xs) = ap suc (length-set_at n l xs)

write_line-IsRing : (r : Ring) (l : Bytes) → IsRing r → IsRing (write_line r l)
unfolding write_line if◌then◌else◌
write_line-IsRing r l i = elim (Bool-cases (ltb (length r.lines) r.max_lines)) [
  | inl room ↦ rw room (record {
    fits = ground (arith, length-append r.lines (l ∷ []));
    turns = i.turns;
    starts = λ h. i.starts (omega (arith, h, length-append r.lines (l ∷ [])));
  })
  | inr full ↦ rw full (record {
    fits = omega (arith, i.fits, length-set_at r.next l r.lines);
    turns = mod-lt (r.next + 1) (omega (arith, i.turns));
    starts = λ h. absurd (never (omega (arith, h, length-set_at r.next l r.lines)) full);
  })
]
  where
    never : length r.lines < r.max_lines → ltb (length r.lines) r.max_lines ≡ false → ⊥
    never h k = ground arith

max_lines-write_line : (r : Ring) (l : Bytes) → (write_line r l).max_lines ≡ r.max_lines
unfolding write_line if◌then◌else◌
max_lines-write_line r l = elim (Bool-cases (ltb (length r.lines) r.max_lines)) [
  | inl room ↦ rw room refl
  | inr full ↦ rw full refl
]

length-in_order : (r : Ring) → length (in_order r) ≡ length r.lines
unfolding in_order
length-in_order r = omega (
  arith,
  length-append (drop r.next r.lines) (take r.next r.lines),
  length-drop r.next r.lines,
  length-take r.next r.lines,
)

write_lines-in_order :
    (r : Ring) (ls : List Bytes)
    → IsRing r
    → IsRing (write_lines r ls)
      × (in_order (write_lines r ls) ≡ latest r.max_lines (in_order r ++ ls))
unfolding write_lines
write_lines-in_order r [] i = (
  i,
  sym (append-nil (in_order r))
      ∙ sym (
          latest_all r.max_lines (in_order r ++ [])
            (omega (arith, i.fits, length-append (in_order r) [], length-in_order r))),
)
write_lines-in_order r (l ∷ ls) i =
    let (j, e) = write_lines-in_order (write_line r l) ls (write_line-IsRing r l i) in
    let one = write_line-in_order r l i in
    (
      j,
      e
          ∙ ap (λ m. latest m (in_order (write_line r l) ++ ls)) (max_lines-write_line r l)
          ∙ ap (λ xs. latest r.max_lines (xs ++ ls)) one
          ∙ latest-latest r.max_lines (in_order r ++ l ∷ []) ls
          ∙ ap (latest r.max_lines) (append_assoc (in_order r) (l ∷ []) ls),
    )

-- A write to the ring of log lines is an append to a list of which the latest lines are kept: the
-- ring's lines from its turn on are the last ones, as many as it holds, of those that it had and
-- those of the write; it stays a ring.
pub write-latest :
    (r : Ring) (p : Bytes)
    → IsRing r
    → IsRing (write r p)
      × (in_order (write r p) ≡ latest r.max_lines (in_order r ++ lines_of (trim_newlines p)))
unfolding write
write-latest r p i = write_lines-in_order r (lines_of (trim_newlines p)) i
