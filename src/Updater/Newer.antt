-- ===== src/Updater/Newer.antt =====
-- The comparison of versions (`isNewer`, internal/updater/updater.go) is a strict order.
use sair.Base.{
  ◌≡◌, refl, sym, ap, ◌∙◌, ◌⊎◌, inl, inr, Bool, true, false, Option, none, some, arith, ==_iff,
  Bool-cases,
}
use sair.Ports.Branch.{if◌then◌else◌}
use sair.Text.{Bytes}
use sair.Lines.{int_lt, int_eq}
use sair.Adb.Number.{ℤ, pos, negsuc}
use sair.Updater.{Version, parse_version, decides, is_later, both_parse, is_newer}

int_lt_trans : (x y z : ℤ) → int_lt x y ≡ true → int_lt y z ≡ true → int_lt x z ≡ true
unfolding int_lt
int_lt_trans (pos x) (pos y) (pos z) h k = ground arith
int_lt_trans (pos x) (pos y) (negsuc z) h k = cc
int_lt_trans (pos x) (negsuc y) z h k = cc
int_lt_trans (negsuc x) (pos y) (pos z) h k = refl
int_lt_trans (negsuc x) (pos y) (negsuc z) h k = cc
int_lt_trans (negsuc x) (negsuc y) (pos z) h k = refl
int_lt_trans (negsuc x) (negsuc y) (negsuc z) h k = ground arith

int_lt_irrefl : (x : ℤ) → int_lt x x ≡ false
unfolding int_lt
int_lt_irrefl (pos x) = ground arith
int_lt_irrefl (negsuc x) = ground arith

int_eq-eq : (x y : ℤ) → int_eq x y ≡ true → x ≡ y
unfolding int_eq
int_eq-eq (pos x) (pos y) h = ap pos ((==_iff x y).0 h)
int_eq-eq (pos x) (negsuc y) h = cc
int_eq-eq (negsuc x) (pos y) h = cc
int_eq-eq (negsuc x) (negsuc y) h = ap negsuc ((==_iff x y).0 h)

int_eq_refl : (x : ℤ) → int_eq x x ≡ true
unfolding int_eq
int_eq_refl (pos x) = (==_iff x x).1 refl
int_eq_refl (negsuc x) = (==_iff x x).1 refl

-- A number that decides: the same, and the later ones decide, or a greater one.
decides-cases :
    (x y : ℤ) (r : Bool) → decides x y r ≡ true → ((x ≡ y) × (r ≡ true)) ⊎ (int_lt y x ≡ true)
unfolding decides if◌then◌else◌
decides-cases x y r h = split (int_eq x y) refl h
  where
    split :
        (b : Bool)
        → int_eq x y ≡ b
        → (if b then r else int_lt y x) ≡ true
        → ((x ≡ y) × (r ≡ true)) ⊎ (int_lt y x ≡ true)
    split true e k = inl (int_eq-eq x y e, k)
    split false e k = inr k

decides-greater : (x y : ℤ) (r : Bool) → int_lt y x ≡ true → decides x y r ≡ true
unfolding decides if◌then◌else◌
decides-greater x y r h = elim (Bool-cases (int_eq x y)) [
  | inl e ↦ cc (greater_not_same (int_eq-eq x y e))
  | inr e ↦ rw e h
]
  where
    greater_not_same : x ≡ y → true ≡ false
    greater_not_same e = sym h ∙ ap (int_lt y) e ∙ int_lt_irrefl y

decides-same : (x : ℤ) (r : Bool) → r ≡ true → decides x x r ≡ true
unfolding decides if◌then◌else◌
decides-same x r h = rw (int_eq_refl x) h

decides_trans :
    (x y z : ℤ) (r s u : Bool)
    → (r ≡ true → s ≡ true → u ≡ true)
    → decides x y r ≡ true
    → decides y z s ≡ true
    → decides x z u ≡ true
decides_trans x y z r s u later h k = elim (decides-cases x y r h) [
  | inr gt ↦ elim (decides-cases y z s k) [
    | inr gt' ↦ decides-greater x z u (int_lt_trans z y x gt' gt)
    | inl (same, hs) ↦ decides-greater x z u (rw (sym same) gt)
  ]
  | inl (same, hr) ↦ elim (decides-cases y z s k) [
    | inr gt' ↦ decides-greater x z u (rw same gt')
    | inl (same', hs) ↦ rw (same, same') (decides-same z u (later hr hs))
  ]
]

decides_irrefl : (x : ℤ) (r : Bool) → r ≡ false → decides x x r ≡ false
unfolding decides if◌then◌else◌
decides_irrefl x r h = rw (int_eq_refl x) h

is_later_trans : (a b c : Version) → is_later a b ≡ true → is_later b c ≡ true → is_later a c ≡ true
unfolding is_later
is_later_trans a b c =
    decides_trans _ _ _ _ _ _
      (decides_trans _ _ _ _ _ _ λ h k. int_lt_trans c.patch b.patch a.patch k h)

is_later_irrefl : (a : Version) → is_later a a ≡ false
unfolding is_later
is_later_irrefl a = decides_irrefl a.major _ (decides_irrefl a.minor _ (int_lt_irrefl a.patch))

-- Being newer is a strict order on versions: no version is newer than itself, what is newer than
-- a newer one is newer, and no two are newer than each other.
pub is_newer-IsStrictOrder :
    (a b c : Bytes)
    → (is_newer a a ≡ false)
      × (is_newer a b ≡ true → is_newer b c ≡ true → is_newer a c ≡ true)
      × (is_newer a b ≡ true → is_newer b a ≡ false)
unfolding is_newer both_parse
is_newer-IsStrictOrder a b c = (
  irrefl (parse_version a),
  trans (parse_version a) (parse_version b) (parse_version c),
  λ h. asym (parse_version a) (parse_version b) h,
)
  where
    irrefl : (x : Option Version) → both_parse x x ≡ false
    irrefl none = refl
    irrefl (some x) = is_later_irrefl x

    trans :
        (x y z : Option Version)
        → both_parse x y ≡ true
        → both_parse y z ≡ true
        → both_parse x z ≡ true
    trans none y z h k = cc
    trans (some x) none z h k = cc
    trans (some x) (some y) none h k = cc
    trans (some x) (some y) (some z) h k = is_later_trans x y z h k

    asym : (x y : Option Version) → both_parse x y ≡ true → both_parse y x ≡ false
    asym x y h = elim (Bool-cases (both_parse y x)) [
      | inl k ↦ cc (trans x y x h k, irrefl x)
      | inr k ↦ k
    ]
