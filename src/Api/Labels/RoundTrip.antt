-- ===== src/Api/Labels/RoundTrip.antt =====
-- The labels that `parseLabels` (internal/proxy/http_api.go) reads are the ones that were written.
use sair.Base.{
  ℕ, ◌≤◌, ◌≡◌, refl, sym, ap, ◌∙◌, subst, ◌↔◌, inl, inr, Bool, true, false, ◌&&◌, none, some, List,
  [], ◌∷◌, ◌++◌, arith, ltb, ◌==◌, Bool-cases, Option-cases, length, any_of, All,
}
use sair.Text.{Bytes, cut_prefix}
use sair.Lines.{cut}
use sair.Result.{ok, >>=-eq-ok}
use sair.Api.{Label}
use sair.Api.Params.{blank}
use sair.Api.Labels.{
  max_labels, cut_last, split_key, colon, checked_label, split_label, parse_label, label_loop,
  parse_labels, IsCapped,
}

abbrev pub Lacks : ℕ → Bytes → Type 0
Lacks c s = any_of (λ b. b == c) s ≡ false

abbrev print_parts : Bytes → Bytes → Bytes → Bytes
print_parts [] key value = key ++ b'=' ∷ value
print_parts (b ∷ serial) key value = ((b ∷ serial) ++ b':' ∷ key) ++ b'=' ∷ value

-- How a client writes a label.
abbrev pub print_label : Label → Bytes
print_label l = print_parts l.serial l.key l.value

-- A label that can be written: within the caps, with a key free of both separators.
pub record IsWritable (l : Label) : Type 0 where
  pub capped : IsCapped l
  pub key_colon : Lacks b':' l.key
  pub key_equals : Lacks b'=' l.key
  pub serial_equals : Lacks b'=' l.serial

Lacks-append : (c : ℕ) (s t : Bytes) → Lacks c s → Lacks c t → Lacks c (s ++ t)
Lacks-append c [] t h k = k
Lacks-append c (b ∷ s) t h k = ground (arith, Lacks-append c s t, h, k)

Lacks-front : (c : ℕ) (s t : Bytes) → Lacks c (s ++ t) → Lacks c s
Lacks-front c [] t h = refl
Lacks-front c (b ∷ s) t h = ground (arith, Lacks-front c s t)

Lacks-back : (c : ℕ) (s t : Bytes) → Lacks c (s ++ t) → Lacks c t
Lacks-back c [] t h = h
Lacks-back c (b ∷ s) t h = ground (arith, Lacks-back c s t)

cut_byte : (c : ℕ) (s t : Bytes) → Lacks c s → cut (s ++ c ∷ t) (c ∷ []) ≡ some (s, t)
unfolding cut cut_prefix
cut_byte c [] t h = ground arith
cut_byte c (b ∷ s) t h = ground (arith, cut_byte c s t, h)

cut-eq_some :
    (c : ℕ) (s : Bytes) {a b : Bytes} → cut s (c ∷ []) ≡ some (a, b) → (s ≡ a ++ c ∷ b) × Lacks c a
unfolding cut cut_prefix
cut-eq_some c [] h = cc
cut-eq_some c (x ∷ s) {a} {b} h = elim (Bool-cases (x == c)) [
  | inl e ↦ ground (arith, e, h)
  | inr e ↦ elim (Option-cases (cut s (c ∷ []))) [
    | inl n ↦ ground (arith, h, n, e)
    | inr ((u, v), f) ↦ ground (arith, h, f, e, cut-eq_some c s f)
  ]
]

cut_last-none : (c : ℕ) (s : Bytes) → Lacks c s → cut_last c s ≡ none
unfolding cut_last
cut_last-none c [] h = refl
cut_last-none c (b ∷ s) h = ground (arith, cut_last-none c s)

cut_last-append : (c : ℕ) (s t : Bytes) → Lacks c t → cut_last c (s ++ c ∷ t) ≡ some (s, t)
unfolding cut_last
cut_last-append c [] t h = ground (arith, cut_last-none c t h)
cut_last-append c (b ∷ s) t h = rw (cut_last-append c s t h) refl

Lacks-none : (c : ℕ) (s : Bytes) → cut_last c s ≡ none → Lacks c s
unfolding cut_last
Lacks-none c [] h = refl
Lacks-none c (b ∷ s) h = ground (arith, Lacks-none c s)

cut_last-eq_some :
    (c : ℕ) (s : Bytes) {a b : Bytes} → cut_last c s ≡ some (a, b) → (s ≡ a ++ c ∷ b) × Lacks c b
unfolding cut_last
cut_last-eq_some c [] h = cc
cut_last-eq_some c (x ∷ s) {a} {b} h = elim (Option-cases (cut_last c s)) [
  | inl n ↦ ground (arith, h, n, Lacks-none c s n)
  | inr ((u, v), f) ↦ ground (arith, h, f, cut_last-eq_some c s f)
]

-- The three steps of reading a label, at the text of one.
split-plain :
    (p key value : Bytes)
    → Lacks b':' key
    → split_label p key value ≡ checked_label p false [] key value
unfolding split_label split_key
split-plain p key value h = rw (cut_last-none b':' key h) refl

split-named :
    (p serial key value : Bytes)
    → Lacks b':' key
    → split_label p (serial ++ b':' ∷ key) value ≡ checked_label p true serial key value
unfolding split_label split_key
split-named p serial key value h = rw (cut_last-append b':' serial key h) refl

checked-ok :
    (p : Bytes) (has_colon : Bool) (serial key value : Bytes)
    → IsCapped (record { serial = serial; key = key; value = value })
    → (blank serial && has_colon) ≡ false
    → checked_label p has_colon serial key value
      ≡ ok (record { serial = serial; key = key; value = value })
unfolding checked_label
checked-ok p has_colon serial [] value c h = absurd (omega (arith, c.key_given))
checked-ok p has_colon serial (k ∷ key) value c h = ground (arith, c, h)

checked-eq_ok :
    (p : Bytes) (has_colon : Bool) (serial key value : Bytes) {l : Label}
    → checked_label p has_colon serial key value ≡ ok l
    → (l ≡ record { serial = serial; key = key; value = value })
      × IsCapped (record { serial = serial; key = key; value = value })
      × ((blank serial && has_colon) ≡ false)
unfolding checked_label
checked-eq_ok p has_colon serial [] value h = cc
checked-eq_ok p has_colon serial (k ∷ key) value {l} h =
    (ground (arith, h), ground (arith, h), ground (arith, h))

parse-cut :
    (p left value : Bytes)
    → cut p (b'=' ∷ []) ≡ some (left, value)
    → parse_label p ≡ split_label p left value
unfolding parse_label
parse-cut p left value h = ground (arith, h)

parse_parts :
    (serial key value : Bytes)
    → IsWritable (record { serial = serial; key = key; value = value })
    → parse_label (print_parts serial key value)
      ≡ ok (record { serial = serial; key = key; value = value })
parse_parts [] key value w =
    parse-cut _ key value (cut_byte b'=' key value w.key_equals)
    ∙ split-plain _ key value w.key_colon
    ∙ checked-ok _ false [] key value w.capped refl
parse_parts (b ∷ serial) key value w =
    let left : Bytes = (b ∷ serial) ++ b':' ∷ key in
    let whole = Lacks-append b'=' (b ∷ serial) (b':' ∷ key) w.serial_equals w.key_equals in
    parse-cut _ left value (cut_byte b'=' left value whole)
    ∙ split-named _ (b ∷ serial) key value w.key_colon
    ∙ checked-ok _ true (b ∷ serial) key value w.capped refl

-- What a text is that was read as a label without a serial, and with one.
plain_label :
    (p key value : Bytes) {l : Label}
    → Lacks b':' key
    → Lacks b'=' key
    → checked_label p false [] key value ≡ ok l
    → (key ++ b'=' ∷ value ≡ print_label l) × IsWritable l
plain_label p key value {l} h e c =
    let (made, capped, _) = checked-eq_ok p false [] key value c in
    subst (λ m. (key ++ b'=' ∷ value ≡ print_label m) × IsWritable m) (sym made)
      (refl, record { capped = capped; key_colon = h; key_equals = e; serial_equals = refl })

named_label :
    (p serial key value : Bytes) {l : Label}
    → Lacks b':' key
    → Lacks b'=' (serial ++ b':' ∷ key)
    → checked_label p true serial key value ≡ ok l
    → ((serial ++ b':' ∷ key) ++ b'=' ∷ value ≡ print_label l) × IsWritable l
named_label p [] key value {l} h e c =
    let (made, capped, full) = checked-eq_ok p true [] key value c in cc
named_label p (b ∷ serial) key value {l} h e c =
    let (made, capped, _) = checked-eq_ok p true (b ∷ serial) key value c in
    subst (λ m. (((b ∷ serial) ++ b':' ∷ key) ++ b'=' ∷ value ≡ print_label m) × IsWritable m)
      (sym made)
      (
        refl,
        record {
          capped = capped;
          key_colon = h;
          key_equals = Lacks-back b'=' (b ∷ serial) (b':' ∷ key) e;
          serial_equals = Lacks-front b'=' (b ∷ serial) (b':' ∷ key) e;
        },
      )

split_sound :
    (p left value : Bytes) {l : Label}
    → Lacks b'=' left
    → split_label p left value ≡ ok l
    → (left ++ b'=' ∷ value ≡ print_label l) × IsWritable l
unfolding split_label split_key
split_sound p left value {l} e h = elim (Option-cases (cut_last b':' left)) [
  | inl n ↦ plain_label p left value (Lacks-none b':' left n) e (
      subst (λ o. checked_label p (colon o) (split_key left o).0 (split_key left o).1 value ≡ ok l)
        n h)
  | inr ((serial, key), f) ↦
      let (shape, lacks) = cut_last-eq_some b':' left f in
      let read =
        subst
          (λ o. checked_label p (colon o) (split_key left o).0 (split_key left o).1 value ≡ ok l) f
          h in
      subst (λ t. (t ++ b'=' ∷ value ≡ print_label l) × IsWritable l) (sym shape)
        (named_label p serial key value lacks (subst (Lacks b'=') shape e) read)
]

parse_sound : (p : Bytes) {l : Label} → parse_label p ≡ ok l → (p ≡ print_label l) × IsWritable l
unfolding parse_label
parse_sound p {l} h = elim (Option-cases (cut p (b'=' ∷ []))) [
  | inl n ↦ ground (arith, h, n)
  | inr ((left, value), f) ↦
      let (shape, lacks) = cut-eq_some b'=' p f in
      let (same, fit) = split_sound p left value lacks (ground (arith, h, f)) in (shape ∙ same, fit)
]

pub print_labels : List Label → List Bytes
print_labels [] = []
print_labels (l ∷ ls) = print_label l ∷ print_labels ls

abbrev pub AllWritable : List Label → Type 0
AllWritable ls = All IsWritable ls

loop-print : (ls : List Label) → AllWritable ls → label_loop (print_labels ls) ≡ ok ls
unfolding label_loop print_labels
loop-print [] w = refl
loop-print (l ∷ ls) w = ground (arith, parse_parts l.serial l.key l.value w.0, loop-print ls w.1)

loop_sound :
    (ps : List Bytes) {ls : List Label}
    → label_loop ps ≡ ok ls
    → (ps ≡ print_labels ls) × AllWritable ls
unfolding label_loop print_labels
loop_sound [] h = ground (arith, h)
loop_sound (p ∷ ps) {ls} h =
    let (l, one, rest) = >>=-eq-ok (parse_label p) _ h in
    let (more, others, whole) = >>=-eq-ok (label_loop ps) _ rest in
    ground (arith, parse_sound p one, loop_sound ps others, whole)

length-print : (ls : List Label) → length (print_labels ls) ≡ length ls
unfolding print_labels
length-print [] = refl
length-print (l ∷ ls) = omega (arith, length-print ls)

-- parseLabels reads exactly what is written as k=v or SERIAL:k=v from labels whose key is not
-- empty and free of both separators, whose serial is free of the equals sign, and which are
-- within the caps on their number and lengths; it reads the labels that were written.
pub parse_labels_iff :
    (ps : List Bytes) (ls : List Label)
    → (parse_labels ps ≡ ok ls)
      ↔ ((ps ≡ print_labels ls) × AllWritable ls × (length ps ≤ max_labels))
unfolding parse_labels
parse_labels_iff ps ls = elim (Bool-cases (ltb max_labels (length ps))) [
  | inl big ↦ (λ h. ground (arith, h, big), λ w. ground (arith, w, big))
  | inr fits ↦ (
    λ h.
        let (same, all) = loop_sound ps (ground (arith, h, fits)) in
        (same, all, ground (arith, fits)),
    λ w. rw fits (ap label_loop w.0 ∙ loop-print ls w.1),
  )
]

pub parsed-AllWritable :
    (ps : List Bytes) {ls : List Label}
    → parse_labels ps ≡ ok ls
    → (length ls ≤ max_labels) × AllWritable ls
parsed-AllWritable ps {ls} h =
    let (same, all, few) = (parse_labels_iff ps ls).0 h in
    (omega (arith, length-print ls, ap length same, few), all)
