-- ===== src/Adb/Number.antt =====
-- The numbers of the wire formats: four hex digits, little-endian bytes, decimal text, and what
-- strconv.ParseInt accepts at base 16.
use sair.Base.{
  ℕ, zero, suc, ◌+◌, ◌-◌, ◌*◌, ◌/◌, ◌%◌, ◌^◌, ◌<◌, ◌≡◌, ap, ◌∙◌, ◌≢◌, ◌&&◌, Option, none, some, [],
  ◌∷◌, ◌++◌, arith, ltb, leb, ◌==◌, if◌then◌else◌, lt→ltb, length,
}
use sair.Text.{Bytes}

-- `negsuc n` is -(n + 1).
pub data ℤ : Type 0 where
  pos : ℕ → ℤ
  negsuc : ℕ → ℤ

unfoldable pub hex_value : ℕ → Option ℕ
hex_value c =
    if leb b'0' c && leb c b'9'
    then some (c - b'0')
    else if leb b'a' c && leb c b'f'
    then some (c - b'a' + 10)
    else if leb b'A' c && leb c b'F'
    then some (c - b'A' + 10)
    else none

unfoldable pub parse_digits : ℕ → Bytes → Option ℕ
unfolding hex_value
parse_digits n [] = some n
parse_digits n (c ∷ s) = elim (hex_value c) [ none ↦ none | some d ↦ parse_digits (n * 16 + d) s ]

unfoldable pub parse_uint : Bytes → Option ℕ
unfolding parse_digits
parse_uint [] = none
parse_uint (c ∷ s) = parse_digits 0 (c ∷ s)

abbrev negate : ℕ → ℤ
negate zero = pos 0
negate (suc n) = negsuc n

-- `strconv.ParseInt(s, 16, 32)`: an optional sign, then digits, in the range of an int32.
unfoldable pub parse_int : Bytes → Option ℤ
unfolding parse_uint
parse_int [] = none
parse_int (c ∷ s) =
    if c == b'-'
    then elim (parse_uint s) [
      | none ↦ none
      | some n ↦ if leb n 0x80000000 then some (negate n) else none
    ]
    else elim (parse_uint (if c == b'+' then s else c ∷ s)) [
      | none ↦ none
      | some n ↦ if ltb n 0x80000000 then some (pos n) else none
    ]

unfoldable pub hex_digit : ℕ → ℕ
hex_digit d = if ltb d 10 then b'0' + d else b'A' + (d - 10)

hex_loop : ℕ → ℕ → Bytes → Bytes
unfolding hex_digit
hex_loop zero n out = out
hex_loop (suc f) n out =
    let rest = hex_loop f (n / 16) (hex_digit (n % 16) ∷ out) in if n == 0 then out else rest

-- `fmt.Sprintf("%04X", n)`: at least four digits.
unfoldable pub hex4 : ℕ → Bytes
unfolding hex_digit hex_loop
hex4 n =
    if ltb n 0x10000
    then hex_digit (n / 4096)
      ∷ hex_digit (n / 256 % 16)
      ∷ hex_digit (n / 16 % 16)
      ∷ hex_digit (n % 16)
      ∷ []
    else hex_loop n n []

decimal_loop : ℕ → ℕ → Bytes → Bytes
decimal_loop zero n out = out
decimal_loop (suc f) n out =
    let rest = decimal_loop f (n / 10) ((b'0' + n % 10) ∷ out) in if n == 0 then out else rest

-- `%d` of a number that is not negative.
unfoldable pub decimal : ℕ → Bytes
unfolding decimal_loop
decimal n = if n == 0 then b'0' ∷ [] else decimal_loop n n []

-- `binary.LittleEndian.PutUint32` and `Uint32`.
unfoldable pub put_uint32 : ℕ → Bytes
put_uint32 n = (n % 256) ∷ (n / 256 % 256) ∷ (n / 65536 % 256) ∷ (n / 16777216 % 256) ∷ []

unfoldable pub uint32 : Bytes → ℕ
uint32 [] = 0
uint32 (b ∷ bs) = b + 256 * uint32 bs

unfoldable pub put_uint64 : ℕ → Bytes
unfolding put_uint32
put_uint64 n = put_uint32 (n % 2 ^ 32) ++ put_uint32 (n / 2 ^ 32)

pub hex4_lem :
    (n : ℕ)
    → n < 0x10000
    → hex4 n
      ≡ hex_digit (n / 4096)
        ∷ hex_digit (n / 256 % 16)
        ∷ hex_digit (n / 16 % 16)
        ∷ hex_digit (n % 16)
        ∷ []
unfolding hex4
hex4_lem n h = rw (lt→ltb n 0x10000 h)

pub hex_value-hex_digit : (d : ℕ) → d < 16 → hex_value (hex_digit d) ≡ some d
unfolding hex_value hex_digit
hex_value-hex_digit d h = ground arith

-- A digit is no sign.
pub hex_digit-ne_sign : (d : ℕ) → d < 16 → (hex_digit d ≢ b'-') × (hex_digit d ≢ b'+')
unfolding hex_digit
hex_digit-ne_sign d h = (ground arith, ground arith)

parse_digits_step :
    (n c d : ℕ) (s : Bytes)
    → hex_value c ≡ some d
    → parse_digits n (c ∷ s) ≡ parse_digits (n * 16 + d) s
unfolding parse_digits
parse_digits_step n c d s h = rw (h, parse_digits)

digits4 :
    (a b c d : ℕ)
    → a < 16
    → b < 16
    → c < 16
    → d < 16
    → parse_digits 0 (hex_digit a ∷ hex_digit b ∷ hex_digit c ∷ hex_digit d ∷ [])
      ≡ some (((a * 16 + b) * 16 + c) * 16 + d)
digits4 a b c d ha hb hc hd =
    rw
      (
        parse_digits_step 0 (hex_digit a) a _ (hex_value-hex_digit a ha),
        parse_digits_step (0 * 16 + a) (hex_digit b) b _ (hex_value-hex_digit b hb),
        parse_digits_step ((0 * 16 + a) * 16 + b) (hex_digit c) c _ (hex_value-hex_digit c hc),
        parse_digits_step (((0 * 16 + a) * 16 + b) * 16 + c) (hex_digit d) d _
            (hex_value-hex_digit d hd),
      )
      (unfold parse_digits in ap some (omega arith))

parse_int-unsigned :
    (c n : ℕ) (s : Bytes)
    → c ≢ b'-'
    → c ≢ b'+'
    → parse_digits 0 (c ∷ s) ≡ some n
    → n < 0x80000000
    → parse_int (c ∷ s) ≡ some (pos n)
unfolding parse_int
parse_int-unsigned c n s minus plus e h = ground arith

-- Four digits are read back as the number that they print.
pub parse_int-hex4 : (n : ℕ) → n < 0x10000 → parse_int (hex4 n) ≡ some (pos n)
parse_int-hex4 n h = rw (hex4_lem n h) (
    parse_int-unsigned (hex_digit (n / 4096)) n _ sign.0 sign.1
      (digits4 (n / 4096) (n / 256 % 16) (n / 16 % 16) (n % 16) (omega arith) (omega arith)
          (omega arith) (omega arith)
        ∙ ap some (omega arith))
      (omega arith))
  where
    sign : (hex_digit (n / 4096) ≢ b'-') × (hex_digit (n / 4096) ≢ b'+')
    sign = hex_digit-ne_sign (n / 4096) (omega arith)

pub length-hex4 : (n : ℕ) → n < 0x10000 → length (hex4 n) ≡ 4
unfolding hex4
length-hex4 n h = ground arith

pub uint32-put_uint32 : (n : ℕ) → n < 2 ^ 32 → uint32 (put_uint32 n) ≡ n
unfolding uint32 put_uint32
uint32-put_uint32 n h = omega arith
