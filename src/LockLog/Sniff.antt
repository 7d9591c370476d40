-- ===== src/LockLog/Sniff.antt =====
-- `sniffConn` (internal/proxy/lock_log.go): the first ADB request read off a client's bytes as they
-- pass, however they are cut.
use sair.Base.{
  ℕ, zero, suc, ◌+◌, ◌-◌, ◌*◌, min, ◌≡◌, refl, Bool, true, false, ◌&&◌, Option, none, some, [], ◌∷◌,
  ◌++◌, ltb, leb, ◌==◌, if◌then◌else◌, length, take, drop,
}
use sair.Text.{Bytes, utf8}

-- `want` is 0 until the header is whole. The service that `onService` was called with is `seen`.
pub record Sniffer : Type 0 where
  pub header : Bytes
  pub want : ℕ
  pub service : Bytes
  pub done : Bool
  pub seen : Option Bytes
  pub bytes_to_client : ℕ

abbrev pub new_sniffer : Sniffer
new_sniffer = record {
  header = [];
  want = 0;
  service = [];
  done = false;
  seen = none;
  bytes_to_client = 0;
}

-- `hex.DecodeString` takes digits of both cases.
nibble : ℕ → Option ℕ
nibble c =
    if leb b'0' c && leb c b'9'
    then some (c - b'0')
    else if leb b'a' c && leb c b'f'
    then some (c - b'a' + 10)
    else if leb b'A' c && leb c b'F'
    then some (c - b'A' + 10)
    else none

-- The number that four hex digits name.
decode_header : ℕ → Bytes → Option ℕ
unfolding nibble
decode_header n [] = some n
decode_header n (b ∷ s) = elim (nibble b) [ none ↦ none | some d ↦ decode_header (n * 16 + d) s ]

-- With the header whole: a bad one, or one that announces nothing, ends the reading.
unfoldable pub start_service : Option ℕ → Sniffer → Sniffer
start_service none s = record s { done = true }
start_service (some zero) s = record s { done = true }
start_service (some (suc n)) s = record s { want = suc n }

unfoldable pub feed_header : Sniffer → Bytes → Sniffer × Bytes
unfolding decode_header
feed_header s p =
    let need = min (4 - length s.header) (length p) in
    let s' = record s { header = s.header ++ take need p } in
    if ltb (length s'.header) 4
    then (s', [])
    else (start_service (decode_header 0 s'.header) s', drop need p)

unfoldable pub feed_service : Sniffer → Bytes → Sniffer × Bytes
feed_service s p =
    let need = min (s.want - length s.service) (length p) in
    let s' = record s { service = s.service ++ take need p } in
    (
      if length s'.service == s.want then record s' { done = true; seen = some s'.service } else s',
      drop need p,
    )

unfoldable pub feed_round : Sniffer → Bytes → Sniffer × Bytes
feed_round s p = if s.want == 0 then feed_header s p else feed_service s p

-- `for len(data) > 0 && !s.done`, on fuel.
unfoldable pub feed_loop : ℕ → Sniffer → Bytes → Sniffer
feed_loop zero s p = s
feed_loop (suc f) s [] = s
feed_loop (suc f) s (b ∷ p) =
    let (s', rest) = feed_round s (b ∷ p) in elim s.done [ true ↦ s | false ↦ feed_loop f s' rest ]

-- Each round takes a byte at least, so one round for each byte is enough.
unfoldable pub feed : Sniffer → Bytes → Sniffer
unfolding feed_loop feed_round feed_header feed_service start_service
feed s p = feed_loop (length p) s p

-- What a Read of the wrapped connection does with the bytes that it got, and a Write with those that
-- went out.
unfoldable pub on_read : Sniffer → Bytes → Sniffer
on_read s p = if s.done then s else feed s p

unfoldable pub on_write : Sniffer → Bytes → Sniffer
on_write s p = record s { bytes_to_client = s.bytes_to_client + length p }

whole : (feed (feed new_sniffer (utf8 "00")) (utf8 "08shell:lsX")).seen ≡ some (utf8 "shell:ls")
unfolding feed
whole = refl
