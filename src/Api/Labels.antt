-- ===== src/Api/Labels.antt =====
-- `parseLabels` (internal/proxy/http_api.go): the caps on a request's labels, and their reading.
pub mod RoundTrip
use sair.Base.{
  ℕ, zero, suc, ◌+◌, ◌-◌, ◌*◌, ◌/◌, ◌%◌, ◌^◌, ◌≤◌, ◌<◌, min, max, ◌≡◌, refl, sym, ap, ◌∙◌, subst,
  ◌≢◌, ◌↔◌, ◌⊎◌, inl, inr, Bool, true, false, not, ◌&&◌, ◌||◌, Option, none, some, List, [], ◌∷◌,
  ◌++◌, map, foldl, append_assoc, append-nil, arith, ltb, leb, ◌==◌, if◌then◌else◌, ltb→lt, lt→ltb,
  leb→le, ==_iff, Bool-cases, Option-cases, is_some, length, take, drop, length-append,
  take-append-drop, length-take, length-drop, take-append_length, drop-append_length, take_all,
  drop_all, any_of, keep_if, All, All-append,
}
use sair.Text.{
  Bytes, join, utf8, str_eq, str_eq_iff, str_eq_refl, cut_prefix, has_prefix, trim_prefix,
  has_suffix, trim_suffix, cut_prefix-append, cut_prefix-eq_some,
}
use sair.Lines.{cut}
use sair.Result.{Result, ok, err, ◌>>=◌}
use sair.Api.{Label}
use sair.Api.Params.{blank}

abbrev pub max_labels : ℕ
max_labels = 32

abbrev pub max_label_key_len : ℕ
max_label_key_len = 64

abbrev pub max_label_value_len : ℕ
max_label_value_len = 256

pub data LabelError : Type 0 where
  too_many : LabelError
  malformed : Bytes → LabelError
  too_long : Bytes → LabelError

-- `strings.LastIndex` at one byte: what stands before and behind the last one.
unfoldable pub cut_last : ℕ → Bytes → Option (Bytes × Bytes)
cut_last c [] = none
cut_last c (b ∷ s) = elim (cut_last c s) [
  | some (before, behind) ↦ some (b ∷ before, behind)
  | none ↦ if b == c then some ([], s) else none
]

-- The serial, if the part before the `=` has one, and the key.
unfoldable pub split_key : Bytes → Option (Bytes × Bytes) → Bytes × Bytes
split_key left none = ([], left)
split_key left (some parts) = parts

abbrev pub colon : Option (Bytes × Bytes) → Bool
colon none = false
colon (some parts) = true

-- A label from its serial, key and value: the key is not empty, nor is a serial before a colon.
unfoldable pub checked_label : Bytes → Bool → Bytes → Bytes → Bytes → Result LabelError Label
checked_label p has_colon serial key value =
    if blank key || (blank serial && has_colon)
    then err (malformed p)
    else if ltb max_label_key_len (length key) || ltb max_label_value_len (length value)
    then err (too_long p)
    else ok (record { serial = serial; key = key; value = value })

unfoldable pub split_label : Bytes → Bytes → Bytes → Result LabelError Label
unfolding split_key checked_label
split_label p left value =
    let (serial, key) = split_key left (cut_last b':' left) in
    checked_label p (colon (cut_last b':' left)) serial key value

unfoldable pub parse_label : Bytes → Result LabelError Label
unfolding split_label
parse_label p = elim (cut p (b'=' ∷ [])) [
  | none ↦ err (malformed p)
  | some (left, value) ↦ split_label p left value
]

unfoldable pub label_loop : List Bytes → Result LabelError (List Label)
label_loop [] = ok []
label_loop (p ∷ ps) = do l ← parse_label p; ls ← label_loop ps; ok (l ∷ ls)

unfoldable pub parse_labels : List Bytes → Result LabelError (List Label)
parse_labels params = if ltb max_labels (length params) then err too_many else label_loop params

-- What the caps promise of a label that was read.
pub record IsCapped (l : Label) : Type 0 where
  pub key_given : 0 < length l.key
  pub key_short : length l.key ≤ max_label_key_len
  pub value_short : length l.value ≤ max_label_value_len
