-- ===== src/LockLog/Utf8.antt =====
-- Package unicode/utf8 as `take` uses it: RuneStart, FullRune and Valid.
use sair.Base.{
  ℕ, ◌-◌, Bool, true, false, not, ◌&&◌, ◌||◌, Option, none, some, [], ◌∷◌, ltb, leb, ◌==◌,
  if◌then◌else◌, length,
}
use sair.Text.{Bytes}

-- How many continuation bytes are wanted, and the range that the next must lie in.
pub record Need : Type 0 where
  pub more : ℕ
  pub lo : ℕ
  pub hi : ℕ

abbrev pub need : ℕ → ℕ → ℕ → Need
need n a b = record { more = n; lo = a; hi = b }

abbrev pub between : ℕ → ℕ → ℕ → Bool
between a b c = leb a c && leb c b

-- The table of first bytes: what each wants after it; `none` where no character starts.
unfoldable pub first : ℕ → Option Need
first b =
    if ltb b 0x80
    then some (need 0 0x80 0xBF)
    else if between 0xC2 0xDF b
    then some (need 1 0x80 0xBF)
    else if b == 0xE0
    then some (need 2 0xA0 0xBF)
    else if b == 0xED
    then some (need 2 0x80 0x9F)
    else if between 0xE1 0xEF b
    then some (need 2 0x80 0xBF)
    else if b == 0xF0
    then some (need 3 0x90 0xBF)
    else if between 0xF1 0xF3 b
    then some (need 3 0x80 0xBF)
    else if b == 0xF4
    then some (need 3 0x80 0x8F)
    else none

-- `b&0xC0 != 0x80`.
unfoldable pub rune_start : ℕ → Bool
rune_start b = not (between 0x80 0xBF b)

unfoldable pub step : Need → ℕ → Option Need
unfolding first
step n b =
    if n.more == 0
    then first b
    else if between n.lo n.hi b
    then some (need (n.more - 1) 0x80 0xBF)
    else none

unfoldable pub run : Need → Bytes → Option Need
run n [] = some n
run n (b ∷ bs) = elim (step n b) [ none ↦ none | some m ↦ run m bs ]

abbrev pub start : Need
start = need 0 0x80 0xBF

unfoldable pub is_valid : Bytes → Bool
unfolding run step
is_valid s = elim (run start s) [ none ↦ false | some n ↦ n.more == 0 ]

third_bad : Bytes → Bool
third_bad [] = false
third_bad (c ∷ s) = not (between 0x80 0xBF c)

second_bad : Need → Bytes → Bool
unfolding third_bad
second_bad n [] = false
second_bad n (b ∷ s) = not (between n.lo n.hi b) || third_bad s

-- `FullRune`: a character that is whole, or already seen to be none.
unfoldable pub full_rune : Bytes → Bool
unfolding first second_bad
full_rune [] = false
full_rune (a ∷ s) = elim (first a) [
  | none ↦ true
  | some n ↦ leb n.more (length s) || second_bad n s
]
