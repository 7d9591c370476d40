-- ===== src/Adb/Framing.antt =====
-- What a reader gets of the frames that the codec sends, and how much it takes off the stream.
use sair.Base.{
  ℕ, zero, suc, ◌≤◌, ◌≡◌, refl, true, Option, [], ◌∷◌, ◌++◌, append_assoc, arith, leb, length,
  length-append, take-append_length, drop-append_length,
}
use sair.Text.{Bytes}
use sair.Result.{ok}
use sair.Adb.{
  Reader, okay, read_full, read_request, check_length, read_payload, frame, write_okay_with_payload,
  write_frame, sent, StreamEnd,
}
use sair.Adb.Number.{pos, hex4, parse_int-hex4, length-hex4}

abbrev pub reader : Bytes → StreamEnd → Reader
reader bs e = record { left = bs; ending = e }

leb-length : (xs ys : Bytes) → leb (length xs) (length (xs ++ ys)) ≡ true
leb-length xs ys = ground (arith, length-append xs ys)

read_full-append :
    (n : ℕ) (xs ys : Bytes) (e : StreamEnd)
    → length xs ≡ n
    → read_full n (reader (xs ++ ys) e) ≡ ok (xs, reader ys e)
unfolding read_full
read_full-append n xs ys e h =
    rw (← h, leb-length xs ys, take-append_length xs ys, drop-append_length xs ys)

read_payload-append :
    (n : ℕ) (xs ys : Bytes) (e : StreamEnd)
    → length xs ≡ n
    → read_payload n (reader (xs ++ ys) e) ≡ ok (xs, reader ys e)
unfolding read_payload
read_payload-append zero [] ys e h = refl
read_payload-append zero (x ∷ xs) ys e h = absurd (omega arith)
read_payload-append (suc n) xs ys e h = read_full-append (suc n) xs ys e h

check_length_small : (n : ℕ) → n ≤ 0xFFFF → check_length (pos n) ≡ ok n
unfolding check_length
check_length_small n h = ground arith

-- A frame after its four-byte tag is a request that reads back as its payload, and what follows it
-- on the stream stays there.
pub read_request-hex4 :
    (s rest : Bytes) (e : StreamEnd)
    → length s ≤ 0xFFFF
    → read_request (reader (hex4 (length s) ++ (s ++ rest)) e) ≡ ok (s, reader rest e)
unfolding read_request
read_request-hex4 s rest e h =
    rw
      (
        read_full-append 4 (hex4 (length s)) (s ++ rest) e (length-hex4 (length s) (omega arith)),
        parse_int-hex4 (length s) (omega arith),
        check_length_small (length s) h,
      )
      (read_payload-append (length s) s rest e refl)

-- A reply of at most 65535 bytes is one Write of a message whose tag and payload a reader gets
-- back, with what follows the message still on the stream.
pub write_okay_with_payload-reads_back :
    {W E : Type 0} (write : W → Bytes → W × Option E) (w : W) (payload rest : Bytes) (e : StreamEnd)
    → length payload ≤ 0xFFFF
    → (msg : Bytes) × (tail : Reader) × (write_okay_with_payload write w payload
        ≡ sent write (write w msg))
      × (read_full 4 (reader (msg ++ rest) e) ≡ ok (okay, tail))
      × (read_request tail ≡ ok (payload, reader rest e))
unfolding write_okay_with_payload write_frame frame
write_okay_with_payload-reads_back write w payload rest e h = (
  okay ++ (hex4 (length payload) ++ payload),
  reader (hex4 (length payload) ++ (payload ++ rest)) e,
  ground arith,
  rw (append_assoc okay _ rest, append_assoc (hex4 (length payload)) payload rest)
      (read_full-append 4 okay _ e refl),
  read_request-hex4 payload rest e h,
)
