-- ===== src/Adb.antt =====
-- The ADB smart-socket protocol (internal/proxy/adb_protocol.go): requests read off a stream and
-- replies handed to a writer. A stream is the bytes still to come and how it ends after them.
pub mod Number
pub mod Framing
pub mod Bounds
use sair.Base.{
  ℕ, zero, suc, ◌+◌, ◌-◌, ◌*◌, ◌/◌, ◌%◌, ◌^◌, ◌≤◌, ◌<◌, min, max, ◌≡◌, refl, sym, ap, ◌∙◌, subst,
  ◌≢◌, ◌↔◌, ◌⊎◌, inl, inr, Bool, true, false, not, ◌&&◌, ◌||◌, Option, none, some, List, [], ◌∷◌,
  ◌++◌, map, foldl, append_assoc, append-nil, arith, ltb, leb, ◌==◌, if◌then◌else◌, ltb→lt, lt→ltb,
  leb→le, ==_iff, Bool-cases, Option-cases, is_some, length, take, drop, length-append,
  take-append-drop, length-take, length-drop, take-append_length, drop-append_length, take_all,
  drop_all, any_of, keep_if, All, All-append,
}
use sair.Text.{
  Bytes, utf8, str_eq, str_eq_iff, str_eq_refl, cut_prefix, has_prefix, trim_prefix, has_suffix,
  trim_suffix, cut_prefix-append, cut_prefix-eq_some,
}
use sair.Result.{Result, ok, err, ◌>>=◌, or_fail}
use Number.{ℤ, pos, negsuc, parse_int, hex4, put_uint32, decimal}

pub data StreamEnd : Type 0 where
  at_eof broken : StreamEnd

pub record Reader : Type 0 where
  pub left : Bytes
  pub ending : StreamEnd

pub data ReadError : Type 0 where
  eof unexpected_eof io_error : ReadError
  invalid_length : Bytes → ReadError
  out_of_range : ℤ → ReadError

-- What `io.ReadFull` says when the stream ends too early: EOF only if nothing at all was read.
abbrev cut_short : StreamEnd → Bytes → ReadError
cut_short broken got = io_error
cut_short at_eof [] = eof
cut_short at_eof (b ∷ got) = unexpected_eof

pub read_full : ℕ → Reader → Result ReadError (Bytes × Reader)
read_full n r =
    if leb n (length r.left)
    then ok (take n r.left, record r { left = drop n r.left })
    else err (cut_short r.ending r.left)

-- `if length < 0 || length > 1<<20`.
pub check_length : ℤ → Result ReadError ℕ
check_length (negsuc n) = err (out_of_range (negsuc n))
check_length (pos n) = if ltb (2 ^ 20) n then err (out_of_range (pos n)) else ok n

pub read_payload : ℕ → Reader → Result ReadError (Bytes × Reader)
read_payload zero r = ok ([], r)
read_payload (suc n) r = read_full (suc n) r

pub read_request : Reader → Result ReadError (Bytes × Reader)
read_request r = do
  (header, r') ← read_full 4 r
  parsed ← or_fail (parse_int header) (invalid_length header)
  n ← check_length parsed
  read_payload n r'

abbrev pub okay : Bytes
okay = utf8 "OKAY"

abbrev pub fail : Bytes
fail = utf8 "FAIL"

pub data WriteError (E : Type 0) : Type 0 where
  too_large : ℕ → WriteError E
  write_failed : E → WriteError E

-- The message that one Write call sends: a tag, the length in hex, the payload. Longer payloads
-- than four digits can count are refused.
pub frame : Bytes → Bytes → Option Bytes
frame tag payload =
    if ltb 0xFFFF (length payload) then none else some (tag ++ (hex4 (length payload) ++ payload))

-- `w.Write`: the writer afterwards, and the error if there was one.
module _ {W E : Type 0} (write : W → Bytes → W × Option E) where
  abbrev sent : W × Option E → W × Option (WriteError E)
  sent (w, none) = (w, none)
  sent (w, some e) = (w, some (write_failed e))

  pub write_okay : W → W × Option (WriteError E)
  write_okay w = sent (write w okay)

  pub write_raw : W → Bytes → W × Option (WriteError E)
  write_raw w p = sent (write w p)

  write_frame : Bytes → W → Bytes → W × Option (WriteError E)
  write_frame tag w payload = elim (frame tag payload) [
    | none ↦ (w, some (too_large (length payload)))
    | some msg ↦ sent (write w msg)
  ]

  pub write_okay_with_payload : W → Bytes → W × Option (WriteError E)
  unfolding write_frame frame
  write_okay_with_payload w payload = write_frame okay w payload

  pub write_fail : W → Bytes → W × Option (WriteError E)
  unfolding write_frame frame
  write_fail w message = write_frame fail w message

-- One byte of id, the payload's length as a little-endian uint32, the payload.
unfoldable pub shell_v2_packet : ℕ → Bytes → Bytes
shell_v2_packet id payload = id ∷ (put_uint32 (length payload % 2 ^ 32) ++ payload)

pub format_device_line : Bytes → Bytes
format_device_line serial = serial ++ utf8 "\tdevice\n"

pub format_device_line_long : Bytes → Bytes → Bytes → Bytes → ℕ → Bytes
format_device_line_long serial product model device transport_id =
    serial
    ++ (utf8 "\tdevice product:"
        ++ (product
            ++ (utf8 " model:"
                ++ (model
                    ++ (utf8 " device:"
                        ++ (device
                            ++ (utf8 " transport_id:" ++ (decimal transport_id ++ utf8 "\n"))))))))
