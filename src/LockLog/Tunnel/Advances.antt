-- ===== src/LockLog/Tunnel/Advances.antt =====
-- Every round of `observe` goes on as after its first byte.
use sair.Base.{
  ℕ, zero, suc, ◌+◌, ◌-◌, min, ◌≡◌, refl, sym, ap, ◌∙◌, subst, ◌⊎◌, inl, inr, Bool, true, false,
  not, [], ◌∷◌, ◌++◌, arith, ltb, ◌==◌, if◌then◌else◌, ltb→lt, lt→ltb, Bool-cases, length, drop,
  length-append,
}
use sair.Text.{Bytes}
use sair.LockLog.Tunnel.{
  Observer, append, read_status, read_header, observe_round, take_status, take_header, take_payload,
  keep_payload,
}
use sair.LockLog.Tunnel.Bytewise.{observe_byte, live_byte, IsReady}
use sair.LockLog.Tunnel.Append.{
  with_left, append-cons, append-packet, keep_payload-SamePacket, keep_payload-nil,
}
use sair.LockLog.Tunnel.Rounds.{
  min-suc, status_goes_on, status_ends, header_goes_on, header_ends, payload_goes_on,
}

-- A round on a byte and `p` either deals with that byte alone, or goes on as after that byte.
abbrev pub Advances : Bytes → Observer × Bytes → Observer → Type 0
Advances p r o = (r ≡ (o, p)) ⊎ ((r ≡ observe_round o p) × (o.capture ≡ true))

Advances-both :
    (p : Bytes) (t : Bool) {r s : Observer × Bytes} {o u : Observer}
    → (t ≡ true → Advances p r o)
    → (t ≡ false → Advances p s u)
    → Advances p (if t then r else s) (if t then o else u)
Advances-both p true yes_case no_case = yes_case refl
Advances-both p false yes_case no_case = no_case refl

Advances-after :
    (p : Bytes) (t : Bool) (r : Observer × Bytes) {o u : Observer}
    → (t ≡ true → Advances p r o)
    → (t ≡ false → Advances p r u)
    → Advances p r (if t then o else u)
Advances-after p true r yes_case no_case = yes_case refl
Advances-after p false r yes_case no_case = no_case refl

status-Advances :
    (o : Observer) (b : ℕ) (p : Bytes)
    → o.capture ≡ true
    → ltb (length o.status) 4 ≡ true
    → Advances p (take_status o (b ∷ p)) (
        if ltb (length o.status + 1) 4
        then record o { status = o.status ++ b ∷ [] }
        else read_status (record o { status = o.status ++ b ∷ [] }))
unfolding observe_round
status-Advances o b p c h =
    Advances-after p (ltb (length o.status + 1) 4) (take_status o (b ∷ p))
      (λ more. inr (status_goes_on o b p (ltb→lt _ _ more) ∙ sym (rw (short more)), c))
      (λ done. inl (status_ends o b p (ground arith)))
  where
    short : ltb (length o.status + 1) 4 ≡ true → ltb (length (o.status ++ b ∷ [])) 4 ≡ true
    short more = lt→ltb _ _ (omega (arith, ltb→lt _ _ more, length-append o.status (b ∷ [])))

-- The branches of a round, by the tests that lead there.
abbrev IsPast : Observer → Type 0
IsPast o = (ltb (length o.status) 4 ≡ false) × (ltb 0 o.skip ≡ false)

round_skip :
    (o : Observer) (p : Bytes)
    → ltb (length o.status) 4 ≡ false
    → ltb 0 o.skip ≡ true
    → observe_round o p
      ≡ (record o { skip = o.skip - min o.skip (length p) }, drop (min o.skip (length p)) p)
unfolding observe_round
round_skip o p h k = rw (h, k)

round_raw :
    (o : Observer) (p : Bytes) → IsPast o → not o.v2 ≡ true → observe_round o p ≡ (append o p, [])
unfolding observe_round
round_raw o p h k = rw (h.0, h.1, k)

round_header :
    (o : Observer) (p : Bytes)
    → IsPast o
    → not o.v2 ≡ false
    → (o.left == 0) ≡ true
    → observe_round o p ≡ take_header o p
unfolding observe_round
round_header o p h k l = rw (h.0, h.1, k, l)

round_payload :
    (o : Observer) (p : Bytes)
    → IsPast o
    → not o.v2 ≡ false
    → (o.left == 0) ≡ false
    → observe_round o p ≡ take_payload o p
unfolding observe_round
round_payload o p h k l = rw (h.0, h.1, k, l)

skip-Advances :
    (o : Observer) (b : ℕ) (p : Bytes)
    → o.capture ≡ true
    → ltb (length o.status) 4 ≡ false
    → ltb 0 o.skip ≡ true
    → Advances p
        (
          record o { skip = o.skip - min o.skip (suc (length p)) },
          drop (min o.skip (suc (length p))) (b ∷ p),
        )
        (record o { skip = o.skip - 1 })
skip-Advances o b p c h k = elim (Bool-cases (ltb 0 (o.skip - 1))) [
  | inl more ↦ inr (
    rw count (ap (λ n. (record o { skip = n }, drop (min (o.skip - 1) (length p)) p)) (omega arith))
        ∙ sym (round_skip (record o { skip = o.skip - 1 }) p h more),
    c,
  )
  | inr done ↦
      let one : min o.skip (suc (length p)) ≡ 1 = omega (arith, ltb→lt 0 o.skip k, not_pos done) in
      rw one (inl refl)
]
  where
    not_pos : ltb 0 (o.skip - 1) ≡ false → o.skip - 1 ≡ 0
    not_pos e = ground arith

    count : min o.skip (suc (length p)) ≡ suc (min (o.skip - 1) (length p))
    count = min-suc o.skip (length p) (ltb→lt 0 o.skip k)

raw-Advances :
    (o : Observer) (b : ℕ) (p : Bytes)
    → o.capture ≡ true
    → IsPast o
    → not o.v2 ≡ true
    → Advances p (append o (b ∷ p), []) (append o (b ∷ []))
raw-Advances o b p c h k =
    let same = append-packet o (b ∷ []) 0 in
    inr (
      ap (λ x. (x, [])) (append-cons o b p)
          ∙ sym (
              round_raw (append o (b ∷ [])) p
                (ap (λ s. ltb (length s) 4) same.7 ∙ h.0, ap (ltb 0) same.6 ∙ h.1)
                (ap not same.5 ∙ k)),
      same.3 ∙ c,
    )

header-Advances :
    (o : Observer) (b : ℕ) (p : Bytes)
    → o.capture ≡ true
    → IsReady o
    → IsPast o
    → not o.v2 ≡ false
    → (o.left == 0) ≡ true
    → Advances p (take_header o (b ∷ p)) (
        if ltb (length o.hdr + 1) 5
        then record o { hdr = o.hdr ++ b ∷ [] }
        else read_header (record o { hdr = o.hdr ++ b ∷ [] }))
header-Advances o b p c ready h k l =
    Advances-after p (ltb (length o.hdr + 1) 5) (take_header o (b ∷ p))
      (λ more. inr (
        header_goes_on o b p (ltb→lt _ _ more)
            ∙ sym (round_header (record o { hdr = o.hdr ++ b ∷ [] }) p h k l),
        c,
      ))
      (λ done. inl (header_ends o b p (ground arith)))

suc_ne : (n : ℕ) → (suc n == 0) ≡ false
suc_ne n = ground arith

payload_none : (o : Observer) (p : Bytes) → take_payload (with_left 0 o) p ≡ (with_left 0 o, p)
unfolding take_payload
payload_none o p =
    let none_left : min 0 (length p) ≡ 0 = omega arith in
    rw none_left (ap (λ x. (with_left 0 x, p)) (keep_payload-nil o.keep (with_left 0 o)))

payload-Advances :
    (o : Observer) (b n : ℕ) (p : Bytes)
    → o.capture ≡ true
    → IsPast o
    → not o.v2 ≡ false
    → o.left ≡ suc n
    → Advances p (take_payload o (b ∷ p)) (with_left n (keep_payload o.keep o (b ∷ [])))
payload-Advances o b zero p c h k l =
    inl (payload_goes_on o b zero p l ∙ payload_none (keep_payload o.keep o (b ∷ [])) p)
payload-Advances o b (suc n) p c h k l =
    let same = keep_payload-SamePacket o.keep o (b ∷ []) in
    inr (
      payload_goes_on o b (suc n) p l
          ∙ sym (
              round_payload (with_left (suc n) (keep_payload o.keep o (b ∷ []))) p
                (ap (λ s. ltb (length s) 4) same.4 ∙ h.0, ap (ltb 0) same.3 ∙ h.1)
                (ap not same.2 ∙ k) (suc_ne n)),
      same.0 ∙ c,
    )

-- Every round goes on as after its first byte.
pub round-Advances :
    (o : Observer) (b : ℕ) (p : Bytes)
    → IsReady o
    → o.capture ≡ true
    → Advances p (observe_round o (b ∷ p)) (observe_byte o b)
unfolding observe_round observe_byte live_byte
round-Advances o b p ready c =
    subst (λ t. Advances p (observe_round o (b ∷ p)) (if t then live_byte o b else o)) (sym c)
      (Advances-both p (ltb (length o.status) 4) (λ h. status-Advances o b p c h)
        λ h.
          Advances-both p (ltb 0 o.skip) (λ k. skip-Advances o b p c h k)
            λ k.
              Advances-both p (not o.v2) (λ m. raw-Advances o b p c (h, k) m)
                λ m.
                  Advances-both p (o.left == 0) (λ l. header-Advances o b p c ready (h, k) m l)
                    λ l. payload-Advances o b (o.left - 1) p c (h, k) m (ground arith))
