-- ===== src/LockLog/Tunnel/Packets.antt =====
-- What `observe` keeps of a shell v2 answer: the payloads of its stdout and stderr packets.
use sair.Base.{
  ℕ, zero, suc, ◌+◌, ◌-◌, ◌%◌, ◌^◌, ◌<◌, ◌≡◌, refl, sym, ap, ◌∙◌, Bool, true, false, ◌||◌, List, [],
  ◌∷◌, ◌++◌, arith, ◌==◌, if◌then◌else◌, length, take, All,
}
use sair.Text.{Bytes}
use sair.Adb.{okay, shell_v2_packet}
use sair.Adb.Number.{put_uint32, uint32-put_uint32}
use sair.LockLog.Tunnel.{
  Observer, append, read_status, read_header, keep_payload, observe, max_unflushed_output,
}
use sair.LockLog.Tunnel.Append.{
  append-cons, append-nil_lem, append_lem, kept, lost, with_left, keep_payload-nil,
}
use sair.LockLog.Tunnel.Bytewise.{observe_byte, live_byte, observe_bytes}
use sair.LockLog.Tunnel.Pieces.{observe_bytes-append, observe-eq-observe_bytes}

-- An observer of a shell v2 session: before the reply, and inside a packet with `n` bytes to come.
abbrev pub opened : Observer → Observer
opened o = record o {
  capture = true;
  v2 = true;
  status = [];
  skip = 0;
  hdr = [];
  left = 0;
  keep = false;
}

abbrev pub inside : Bool → ℕ → Observer → Observer
inside k n o = record o {
  capture = true;
  v2 = true;
  status = okay;
  skip = 0;
  hdr = [];
  left = n;
  keep = k;
}

abbrev pub is_output : ℕ → Bool
is_output id = id == 1 || id == 2

append-inside :
    (k : Bool) (n : ℕ) (o : Observer) (p : Bytes)
    → append (inside k n o) p ≡ inside k n (append o p)
unfolding append
append-inside k n o p = ground arith

suc_ne : (n : ℕ) → (suc n == 0) ≡ false
suc_ne n = ground arith

less_one : (n : ℕ) → suc n - 1 ≡ n
less_one n = omega arith

keep_payload_append :
    (k : Bool) (o : Observer) (b : ℕ) (p : Bytes)
    → keep_payload k o (b ∷ p) ≡ keep_payload k (keep_payload k o (b ∷ [])) p
unfolding keep_payload
keep_payload_append true o b p = append-cons o b p
keep_payload_append false o b p = refl

payload_byte :
    (k : Bool) (n b : ℕ) (o : Observer)
    → observe_byte (inside k (suc n) o) b ≡ inside k n (keep_payload k o (b ∷ []))
unfolding observe_byte live_byte keep_payload
payload_byte true n b o = rw (suc_ne n) (
    ap (λ x. with_left (suc n - 1) x) (append-inside true (suc n) o (b ∷ []))
    ∙ ap (λ l. inside true l (append o (b ∷ []))) (less_one n))
payload_byte false n b o = rw (suc_ne n) (ap (λ l. inside false l o) (less_one n))

payload_bytes :
    (k : Bool) (n : ℕ) (o : Observer) (p : Bytes)
    → length p ≡ n
    → observe_bytes (inside k n o) p ≡ inside k 0 (keep_payload k o p)
unfolding observe_bytes
payload_bytes k zero o [] h = ap (inside k 0) (sym (keep_payload-nil k o))
payload_bytes k (suc n) o [] h = absurd (omega arith)
payload_bytes k zero o (b ∷ p) h = absurd (omega arith)
payload_bytes k (suc n) o (b ∷ p) h =
    ap (λ u. observe_bytes u p) (payload_byte k n b o)
    ∙ payload_bytes k n (keep_payload k o (b ∷ [])) p (omega arith)
    ∙ ap (inside k 0) (sym (keep_payload_append k o b p))

packet_bytes :
    (k : Bool) (o : Observer) (id : ℕ) (payload : Bytes)
    → length payload < 2 ^ 32
    → observe_bytes (inside k 0 o) (shell_v2_packet id payload)
      ≡ inside (is_output id) 0 (keep_payload (is_output id) o payload)
unfolding observe_bytes observe_byte live_byte read_header shell_v2_packet put_uint32
packet_bytes k o id payload h =
    ap (λ n. observe_bytes (inside (is_output id) n o) payload)
      (uint32-put_uint32 (length payload % 2 ^ 32) (omega arith) ∙ omega arith)
    ∙ payload_bytes (is_output id) (length payload) o payload refl

reply_bytes : (o : Observer) → observe_bytes (opened o) okay ≡ inside false 0 o
unfolding observe_bytes observe_byte live_byte read_status
reply_bytes o = refl

-- A packet: its id and its payload.
abbrev pub Packet : Type 0
Packet = ℕ × Bytes

abbrev pub encode_all : List Packet → Bytes
encode_all [] = []
encode_all ((id, payload) ∷ ps) = shell_v2_packet id payload ++ encode_all ps

-- What the packets with id 1 or 2 carry, in order.
abbrev pub outputs : List Packet → Bytes
outputs [] = []
outputs ((id, payload) ∷ ps) = (if is_output id then payload else []) ++ outputs ps

abbrev pub Fits : Packet → Type 0
Fits (id, payload) = length payload < 2 ^ 32

append-append : (o : Observer) (p q : Bytes) → append o (p ++ q) ≡ append (append o p) q
append-append o [] q = ap (λ u. append u q) (sym (append-nil_lem o))
append-append o (b ∷ p) q =
    append-cons o b (p ++ q)
    ∙ append-append (append o (b ∷ [])) p q
    ∙ ap (λ u. append u q) (sym (append-cons o b p))

keep_payload-append :
    (k : Bool) (o : Observer) (p q : Bytes)
    → append (keep_payload k o p) q ≡ append o ((if k then p else []) ++ q)
unfolding keep_payload
keep_payload-append true o p q = sym (append-append o p q)
keep_payload-append false o p q = refl

packets_bytes :
    (k : Bool) (o : Observer) (ps : List Packet)
    → All Fits ps
    → (last : Bool) × (observe_bytes (inside k 0 o) (encode_all ps)
        ≡ inside last 0 (append o (outputs ps)))
unfolding observe_bytes
packets_bytes k o [] h = (k, ap (inside k 0) (sym (append-nil_lem o)))
packets_bytes k o ((id, payload) ∷ ps) h =
    let (last, rest) =
      packets_bytes (is_output id) (keep_payload (is_output id) o payload) ps h.1 in
    (
      last,
      observe_bytes-append (inside k 0 o) (shell_v2_packet id payload) (encode_all ps)
          ∙ ap (λ u. observe_bytes u (encode_all ps)) (packet_bytes k o id payload h.0)
          ∙ rest
          ∙ ap (inside last 0) (keep_payload-append (is_output id) o payload (outputs ps)),
    )

append_text :
    (o : Observer) (p : Bytes)
    → o.binary ≡ false
    → ((append o p).buf ≡ o.buf ++ take (max_unflushed_output - length o.buf) p)
      × ((append o p).dropped ≡ o.dropped + (length p - (max_unflushed_output - length o.buf)))
append_text o p h =
    let e : append o p ≡ record o { buf = kept o.buf p; dropped = o.dropped + lost o.buf p } =
      append_lem o p
      ∙ ap
          (λ t.
            if t then o else record o { buf = kept o.buf p; dropped = o.dropped + lost o.buf p })
          h in
    (ap (λ u. u.buf) e, ap (λ u. u.dropped) e)

-- A shell v2 answer, OKAY and then packets each under 2^32 bytes, leaves in the buffer of an
-- observer that is not binary exactly what its stdout and stderr packets carry, in order, as far
-- as the buffer has room; the rest of it is counted as dropped, and the packets of other kinds
-- leave nothing.
pub observe-packets :
    (o : Observer) (ps : List Packet)
    → o.binary ≡ false
    → All Fits ps
    → let u = observe (opened o) (okay ++ encode_all ps) in
      let room = max_unflushed_output - length o.buf in
      (u.buf ≡ o.buf ++ take room (outputs ps))
      × (u.dropped ≡ o.dropped + (length (outputs ps) - room))
unfolding observe_bytes
observe-packets o ps h fits =
    let (last, rest) = packets_bytes false o ps fits in
    let whole : observe (opened o) (okay ++ encode_all ps) ≡ inside last 0 (append o (outputs ps)) =
      observe-eq-observe_bytes (opened o) (okay ++ encode_all ps) (omega arith)
      ∙ observe_bytes-append (opened o) okay (encode_all ps)
      ∙ ap (λ u. observe_bytes u (encode_all ps)) (reply_bytes o)
      ∙ rest in
    let text = append_text o (outputs ps) h in
    (ap (λ u. u.buf) whole ∙ text.0, ap (λ u. u.dropped) whole ∙ text.1)
