-- ===== src/Api/Params.antt =====
-- The parameters of internal/proxy/http_api.go that are numbers, switches, bands and lists.
use sair.Base.{
  ℕ, zero, suc, ◌<◌, ◌≡◌, refl, Bool, true, false, ◌||◌, Option, none, some, List, [], ◌∷◌, arith,
  ltb, if◌then◌else◌, any_of,
}
use sair.Text.{Bytes, utf8, str_eq}
use sair.Lines.{split_at, trim_space, nonempty, atoi}
use sair.Adb.Number.{ℤ, pos, negsuc}

-- `strconv.ParseInt(s, 10, 32)`: what does not fit in 64 bits does not fit in 32.
int32_of : Option ℤ → Option ℤ
int32_of none = none
int32_of (some (pos n)) = if ltb n 0x80000000 then some (pos n) else none
int32_of (some (negsuc n)) = if ltb n 0x80000000 then some (negsuc n) else none

unfoldable pub parse_int32 : Bytes → Option ℤ
unfolding int32_of
parse_int32 s = int32_of (atoi s)

-- `strconv.ParseBool`.
unfoldable pub parse_bool : Bytes → Option Bool
parse_bool s =
    if any_of (str_eq s)
      (utf8 "1" ∷ utf8 "t" ∷ utf8 "T" ∷ utf8 "TRUE" ∷ utf8 "true" ∷ utf8 "True" ∷ [])
    then some true
    else if any_of (str_eq s)
        (utf8 "0" ∷ utf8 "f" ∷ utf8 "F" ∷ utf8 "FALSE" ∷ utf8 "false" ∷ utf8 "False" ∷ [])
    then some false
    else none

abbrev pub blank : Bytes → Bool
blank [] = true
blank (b ∷ s) = false

-- An on/off parameter; empty means the default. `none` is the answer (false, false).
unfoldable pub parse_wifi_state : Bytes → Bool → Option Bool
parse_wifi_state v default =
    if blank v
    then some default
    else if str_eq v (utf8 "on")
    then some true
    else if str_eq v (utf8 "off")
    then some false
    else none

unfoldable pub valid_wifi_band : Bytes → Bool
valid_wifi_band v =
    blank v || (str_eq v (utf8 "2.4") || (str_eq v (utf8 "5") || str_eq v (utf8 "6")))

-- The loop over `strings.Split(param, ",")`: the entries that are not blank, trimmed.
unfoldable pub trimmed : List Bytes → List Bytes
trimmed [] = []
trimmed (s ∷ ss) = trim_space s ∷ trimmed ss

unfoldable pub listed : Bytes → List Bytes
unfolding trimmed
listed v = nonempty (trimmed (split_at b',' v))

abbrev int32_max : ℕ
int32_max = 0x80000000

-- The range of an int32.
abbrev pub InInt32 : ℤ → Type 0
InInt32 (pos n) = n < int32_max
InInt32 (negsuc n) = n < int32_max

int32_of-InInt32 : (o : Option ℤ) {n : ℤ} → int32_of o ≡ some n → InInt32 n
unfolding int32_of
int32_of-InInt32 none h = cc
int32_of-InInt32 (some (pos m)) {n} h = ground arith
int32_of-InInt32 (some (negsuc m)) {n} h = ground arith

pub parse_int32-InInt32 : (s : Bytes) {n : ℤ} → parse_int32 s ≡ some n → InInt32 n
unfolding parse_int32
parse_int32-InInt32 s = int32_of-InInt32 (atoi s)

-- A list of nothing but separators names nothing.
abbrev pub separators : ℕ → Bytes
separators zero = []
separators (suc n) = b',' ∷ separators n

pub listed-separators : (n : ℕ) → listed (separators n) ≡ []
unfolding listed nonempty split_at trim_space
listed-separators zero = refl
listed-separators (suc n) = listed-separators n
