-- ===== src/LockLog/Tunnel.antt =====
-- tunnelObserver (internal/proxy/lock_log.go): what a device answers to a shell request, decoded
-- as it passes, and handed out in pieces of text.
pub mod Bytewise
pub mod Append
pub mod Rounds
pub mod Advances
pub mod Pieces
pub mod Taken
pub mod Packets
use sair.Base.{
  ℕ, zero, suc, ◌+◌, ◌-◌, ◌*◌, ◌/◌, ◌%◌, ◌^◌, ◌≤◌, ◌<◌, min, max, ◌≡◌, refl, sym, ap, ◌∙◌, subst,
  ◌≢◌, ◌↔◌, ◌⊎◌, inl, inr, Bool, true, false, not, ◌&&◌, ◌||◌, Option, none, some, List, [], ◌∷◌,
  ◌++◌, map, foldl, append_assoc, append-nil, arith, ltb, leb, ◌==◌, if◌then◌else◌, ltb→lt, lt→ltb,
  leb→le, ==_iff, Bool-cases, Option-cases, is_some, length, take, drop, length-append,
  take-append-drop, length-take, length-drop, take-append_length, drop-append_length, take_all,
  drop_all, any_of, keep_if, All, All-append,
}
use sair.Text.{
  Bytes, utf8, str_eq, str_eq_iff, str_eq_refl, cut_prefix, has_prefix, trim_prefix, has_suffix,
  trim_suffix, cut_prefix-append, cut_prefix-eq_some,
}
use sair.Adb.Number.{uint32, decimal}
use sair.LockLog.Entries.{Entry}
use sair.LockLog.Utf8.{rune_start, full_rune, is_valid}

abbrev pub max_unflushed_output : ℕ
max_unflushed_output = 8 * 2 ^ 20

abbrev pub binary_output_marker : Bytes
binary_output_marker = utf8 "(binary output omitted)"

-- `started` is kept in milliseconds.
pub record Observer : Type 0 where
  pub serial : Bytes
  pub id : ℕ
  pub entry : Option Entry
  pub started : ℕ
  pub capture : Bool
  pub v2 : Bool
  pub status : Bytes
  pub skip : ℕ
  pub hdr : Bytes
  pub left : ℕ
  pub keep : Bool
  pub buf : Bytes
  pub dropped : ℕ
  pub binary : Bool

unfoldable pub append : Observer → Bytes → Observer
append o p =
    let room = max_unflushed_output - length o.buf in
    if o.binary
    then o
    else if ltb room (length p)
    then record o { dropped = o.dropped + (length p - room); buf = o.buf ++ take room p }
    else record o { buf = o.buf ++ p }

-- `switch string(o.status)`.
unfoldable pub read_status : Observer → Observer
unfolding str_eq
read_status o =
    if str_eq o.status (utf8 "OKAY")
    then o
    else if str_eq o.status (utf8 "FAIL")
    then record o { v2 = false; skip = 4 }
    else record o { capture = false }

unfoldable pub take_status : Observer → Bytes → Observer × Bytes
take_status o p =
    let n = min (4 - length o.status) (length p) in
    let o' = record o { status = o.status ++ take n p } in
    if ltb (length o'.status) 4 then (o', []) else (read_status o', drop n p)

head : Bytes → ℕ
head [] = 0
head (b ∷ bs) = b

-- A header of five bytes: the packet's kind and its length.
unfoldable pub read_header : Observer → Observer
unfolding uint32 head
read_header o = record o {
  left = uint32 (drop 1 o.hdr);
  keep = head o.hdr == 1 || head o.hdr == 2;
  hdr = [];
}

unfoldable pub take_header : Observer → Bytes → Observer × Bytes
take_header o p =
    let n = min (5 - length o.hdr) (length p) in
    let o' = record o { hdr = o.hdr ++ take n p } in
    if ltb (length o'.hdr) 5 then (o', []) else (read_header o', drop n p)

-- `if o.keep { o.append(p) }`.
unfoldable pub keep_payload : Bool → Observer → Bytes → Observer
keep_payload true o p = append o p
keep_payload false o p = o

unfoldable pub take_payload : Observer → Bytes → Observer × Bytes
unfolding keep_payload
take_payload o p =
    let n = min o.left (length p) in
    (record (keep_payload o.keep o (take n p)) { left = o.left - n }, drop n p)

-- One round of the loop: the cases of its switch. What is left of the bytes is `[]` after a return.
unfoldable pub observe_round : Observer → Bytes → Observer × Bytes
observe_round o p =
    if ltb (length o.status) 4
    then take_status o p
    else if ltb 0 o.skip
    then (record o { skip = o.skip - min o.skip (length p) }, drop (min o.skip (length p)) p)
    else if not o.v2
    then (append o p, [])
    else if o.left == 0
    then take_header o p
    else take_payload o p

-- `for len(p) > 0 && o.capture`, on fuel.
unfoldable pub observe_loop : ℕ → Observer → Bytes → Observer
observe_loop zero o p = o
observe_loop (suc f) o [] = o
observe_loop (suc f) o (b ∷ p) =
    let (o', rest) = observe_round o (b ∷ p) in
    elim o.capture [ true ↦ observe_loop f o' rest | false ↦ o ]

-- Each round takes a byte at least, so one round for each byte is enough.
unfoldable pub observe : Observer → Bytes → Observer
unfolding observe_loop observe_round take_status take_header take_payload append read_status
    read_header
observe o p = observe_loop (length p) o p

at : Bytes → ℕ → ℕ
at [] i = 0
at (b ∷ bs) zero = b
at (b ∷ bs) (suc i) = at bs i

-- The search back from `cut` for the start of a character, four bytes at most; `i` is one more
-- than the index in the source.
back_up : ℕ → Bytes → ℕ → ℕ → ℕ
unfolding at rune_start full_rune
back_up zero buf cut i = cut
back_up (suc k) buf cut zero = cut
back_up (suc k) buf cut (suc i) = elim (rune_start (at buf i)) [
  | true ↦ if full_rune (drop i (take cut buf)) then cut else i
  | false ↦ back_up k buf cut i
]

dropped_note : Observer → Bool → Bytes × Observer
dropped_note o final =
    if final && ltb 0 o.dropped
    then (
      utf8 "\n(" ++ (decimal o.dropped ++ utf8 " bytes of output dropped)\n"),
      record o { dropped = 0 },
    )
    else ([], o)

cut_at : ℕ → Bool → Bytes → ℕ
unfolding back_up
cut_at most final buf =
    let cut = min most (length buf) in
    if not final || ltb cut (length buf) then back_up 4 buf cut cut else cut

take_text : Observer → ℕ → Bytes × Observer
unfolding is_valid
take_text o cut =
    if is_valid (take cut o.buf)
    then (take cut o.buf, record o { buf = drop cut o.buf })
    else (binary_output_marker, record o { binary = true; buf = []; dropped = 0 })

-- `take`.
unfoldable pub take_piece : ℕ → Bool → Observer → Bytes × Observer
unfolding dropped_note cut_at take_text
take_piece most final o = elim o.buf [
  | [] ↦ dropped_note o final
  | b ∷ bs ↦ take_text o (cut_at most final o.buf)
]
