-- ===== src/Lines.antt =====
-- What the parsers of a phone's output use of Go's strings, strconv and slices packages: lines,
-- fields, trimming, decimal numbers, and sets of strings. White space is ASCII's. A set, a
-- map[string]struct{} in the source, is a sorted list without repetitions, so that
-- `slices.Sorted(maps.Keys(m))` is the list itself.
use sair.Base.{
  ℕ, zero, suc, ◌+◌, ◌-◌, ◌*◌, ◌^◌, ◌≡◌, refl, ap, ◌∙◌, inl, inr, Bool, true, false, ◌&&◌, ◌||◌,
  Option, none, some, List, [], ◌∷◌, arith, ltb, leb, ◌==◌, if◌then◌else◌, Bool-cases, any_of,
}
use sair.Text.{Bytes, str_eq, str_eq_iff, str_eq_refl, cut_prefix}
use sair.Adb.Number.{ℤ, pos, negsuc}

pub push_byte : ℕ → List Bytes → List Bytes
push_byte b [] = (b ∷ []) ∷ []
push_byte b (l ∷ ls) = (b ∷ l) ∷ ls

-- `strings.Split` at one byte.
unfoldable pub split_at : ℕ → Bytes → List Bytes
unfolding push_byte
split_at c [] = [] ∷ []
split_at c (b ∷ s) = let rest = split_at c s in if b == c then [] ∷ rest else push_byte b rest

abbrev pub lines_of : Bytes → List Bytes
lines_of = split_at b'\n'

unfoldable pub is_space : ℕ → Bool
is_space b = b == b' ' || (leb 9 b && leb b 13)

unfoldable pub trim_left : Bytes → Bytes
unfolding is_space
trim_left [] = []
trim_left (b ∷ s) = let rest = trim_left s in if is_space b then rest else b ∷ s

unfoldable pub trim_right : Bytes → Bytes
unfolding is_space
trim_right [] = []
trim_right (b ∷ s) = elim (trim_right s) [
  | [] ↦ if is_space b then [] else b ∷ []
  | c ∷ t ↦ b ∷ c ∷ t
]

-- `strings.TrimSpace`.
unfoldable pub trim_space : Bytes → Bytes
unfolding trim_left trim_right
trim_space s = trim_right (trim_left s)

-- `strings.Trim` of one byte.
unfoldable pub trim_byte : ℕ → Bytes → Bytes
trim_byte c s = strip_right (strip_left s)
  where
    strip_left : Bytes → Bytes
    strip_left [] = []
    strip_left (b ∷ t) = let rest = strip_left t in if b == c then rest else b ∷ t

    strip_right : Bytes → Bytes
    strip_right [] = []
    strip_right (b ∷ t) = elim (strip_right t) [
      | [] ↦ if b == c then [] else b ∷ []
      | d ∷ u ↦ b ∷ d ∷ u
    ]

unfoldable pub nonempty : List Bytes → List Bytes
nonempty [] = []
nonempty ([] ∷ ls) = nonempty ls
nonempty ((b ∷ l) ∷ ls) = (b ∷ l) ∷ nonempty ls

split_spaces : Bytes → List Bytes
unfolding is_space push_byte
split_spaces [] = [] ∷ []
split_spaces (b ∷ s) =
    let rest = split_spaces s in if is_space b then [] ∷ rest else push_byte b rest

-- `strings.Fields`.
unfoldable pub fields : Bytes → List Bytes
unfolding nonempty split_spaces
fields s = nonempty (split_spaces s)

-- `strings.Cut`: what stands before and behind the first occurrence of a separator.
unfoldable pub cut : Bytes → Bytes → Option (Bytes × Bytes)
unfolding cut_prefix
cut [] sep = elim (cut_prefix [] sep) [ none ↦ none | some rest ↦ some ([], rest) ]
cut (b ∷ s) sep = elim (cut_prefix (b ∷ s) sep) [
  | none ↦ elim (cut s sep) [ none ↦ none | some (before, after) ↦ some (b ∷ before, after) ]
  | some rest ↦ some ([], rest)
]

abbrev pub before_of : Bytes → Option (Bytes × Bytes) → Bytes
before_of s none = s
before_of s (some (before, after)) = before

abbrev pub after_of : Option (Bytes × Bytes) → Bytes
after_of none = []
after_of (some (before, after)) = after

all_digits : Bytes → Bool
all_digits [] = true
all_digits (b ∷ s) = leb b'0' b && (leb b b'9' && all_digits s)

digits_value : ℕ → Bytes → ℕ
digits_value n [] = n
digits_value n (b ∷ s) = digits_value (n * 10 + (b - b'0')) s

magnitude : Bytes → Option ℕ
unfolding all_digits digits_value
magnitude [] = none
magnitude (b ∷ s) = if all_digits (b ∷ s) then some (digits_value 0 (b ∷ s)) else none

in_range : Bool → Option ℕ → Option ℤ
in_range minus none = none
in_range false (some n) = if ltb n (2 ^ 63) then some (pos n) else none
in_range true (some zero) = some (pos 0)
in_range true (some (suc n)) = if ltb n (2 ^ 63) then some (negsuc n) else none

-- `strconv.Atoi` of a 64-bit int.
unfoldable pub atoi : Bytes → Option ℤ
unfolding magnitude in_range
atoi [] = none
atoi (b ∷ s) =
    if b == b'-'
    then in_range true (magnitude s)
    else if b == b'+'
    then in_range false (magnitude s)
    else in_range false (magnitude (b ∷ s))

-- Go's order of strings, byte by byte.
unfoldable pub str_le : Bytes → Bytes → Bool
str_le [] t = true
str_le (a ∷ s) [] = false
str_le (a ∷ s) (b ∷ t) = ltb a b || ((a == b) && str_le s t)

abbrev pub member : Bytes → List Bytes → Bool
member x xs = any_of (str_eq x) xs

unfoldable pub insert : Bytes → List Bytes → List Bytes
unfolding str_le str_eq
insert x [] = x ∷ []
insert x (y ∷ ys) =
    let rest = insert x ys in
    if str_eq x y then y ∷ ys else if str_le x y then x ∷ y ∷ ys else y ∷ rest

unfoldable pub set_of : List Bytes → List Bytes
unfolding insert
set_of [] = []
set_of (x ∷ xs) = insert x (set_of xs)

pub member-insert :
    (x y : Bytes) (ys : List Bytes) → member x (insert y ys) ≡ (str_eq x y || member x ys)
unfolding insert
member-insert x y [] = refl
member-insert x y (z ∷ zs) = elim (Bool-cases (str_eq y z)) [
  | inl h ↦ rw ((str_eq_iff y z).0 h, str_eq_refl z) (ground arith)
  | inr h ↦ elim (Bool-cases (str_le y z)) [
    | inl le ↦ rw (h, le) refl
    | inr gt ↦ rw (h, gt, member-insert x y zs) (ground arith)
  ]
]

pub member-set_of : (x : Bytes) (xs : List Bytes) → member x (set_of xs) ≡ member x xs
unfolding set_of
member-set_of x [] = refl
member-set_of x (y ∷ ys) =
    member-insert x y (set_of ys) ∙ ap (λ t. str_eq x y || t) (member-set_of x ys)

-- `<` of two ints.
unfoldable pub int_lt : ℤ → ℤ → Bool
int_lt (pos m) (pos n) = ltb m n
int_lt (pos m) (negsuc n) = false
int_lt (negsuc m) (pos n) = true
int_lt (negsuc m) (negsuc n) = ltb n m

-- `==` of two ints.
unfoldable pub int_eq : ℤ → ℤ → Bool
int_eq (pos m) (pos n) = m == n
int_eq (pos m) (negsuc n) = false
int_eq (negsuc m) (pos n) = false
int_eq (negsuc m) (negsuc n) = m == n
