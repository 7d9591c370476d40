-- ===== src/Api/Acquire/Bounds.antt =====
-- What the checks of `handleAcquire` (internal/proxy/http_api.go) promise of the job that is asked for.
use sair.Base.{
  ℕ, suc, ◌≤◌, ◌≡◌, refl, sym, ◌∙◌, subst, ◌⊎◌, inl, inr, Bool, true, false, not, ◌&&◌, Option,
  none, some, List, [], ◌∷◌, arith, ltb, Bool-cases, Option-cases, is_some, length, ◌<◌, zero,
}
use sair.Text.{Bytes, utf8}
use sair.Adb.Number.{ℤ, pos, negsuc}
use sair.Result.{Result, ok, err, >>=-eq-ok}
use sair.Api.{Label, Request, get, get_all, Job, Response, Config}
use sair.Api.Params.{parse_int32, blank, valid_wifi_band, InInt32, parse_int32-InInt32}
use sair.Api.Labels.{max_labels, parse_labels}
use sair.Api.Labels.RoundTrip.{AllWritable, parsed-AllWritable}
use sair.Api.Locks.{read_labels}
use sair.Api.Acquire.{
  read_serials, checked_count, read_count, read_number, read_wifi, read_band, read_same_proxy,
  read_job,
}

-- A natural number that fits into an int32.
abbrev pub IsNatural : ℤ → Type 0
IsNatural n = (k : ℕ) × (n ≡ pos k) × (k < 0x80000000)

-- A job asks for named phones or for a number of them, not both; a band goes with Wi-Fi on; numbers
-- are of 32 bits, the count not negative; the labels are few and within their caps.
pub record IsSound (job : Job) : Type 0 where
  pub count : IsNatural job.count
  pub not_both : (job.serials ≡ none) ⊎ (job.count ≡ pos 0)
  pub priority : InInt32 job.priority
  pub attempt : InInt32 job.run_attempt
  pub band_wifi : (job.wifi ≡ true) ⊎ (job.wifi_band ≡ [])
  pub band_known : valid_wifi_band job.wifi_band ≡ true
  pub few_labels : length job.labels ≤ max_labels
  pub labels : AllWritable job.labels

read_number-InInt32 : (v problem : Bytes) {n : ℤ} → read_number v problem ≡ ok n → InInt32 n
unfolding read_number
read_number-InInt32 v problem {n} h = elim (Bool-cases (blank v)) [
  | inl empty ↦
      let zero_read : pos 0 ≡ n = ground (arith, h, empty) in subst InInt32 zero_read (omega arith)
  | inr given ↦ elim (Option-cases (parse_int32 v)) [
    | inl bad ↦ ground (arith, h, given, bad)
    | inr (m, good) ↦
        let same : m ≡ n = ground (arith, h, given, good) in
        subst InInt32 same (parse_int32-InInt32 v good)
  ]
]

abbrev IsCount : Bool → ℤ → Type 0
IsCount named n = IsNatural n × ((named ≡ false) ⊎ (n ≡ pos 0))

-- A count that is asked for with named serials is 0.
alone_or_zero :
    (m : ℕ) (named : Bool)
    → (ltb 0 m && named) ≡ false
    → (named ≡ false) ⊎ (◌≡◌ {A = ℤ} (pos m) (pos 0))
alone_or_zero zero named h = inr refl
alone_or_zero (suc m) false h = inl refl
alone_or_zero (suc m) true h = ground (arith, h)

checked_count-IsCount :
    (o : Option ℤ) (named : Bool) {n : ℤ}
    → ((m : ℤ) → o ≡ some m → InInt32 m)
    → checked_count o named ≡ ok n
    → IsCount named n
unfolding checked_count
checked_count-IsCount none named range h = cc
checked_count-IsCount (some (negsuc m)) named range h = cc
checked_count-IsCount (some (pos m)) named {n} range h = elim (Bool-cases (ltb 0 m && named)) [
  | inl both ↦ ground (arith, h, both)
  | inr fine ↦
      let same : pos m ≡ n = ground (arith, h, fine) in
      subst (IsCount named) same ((m, refl, range (pos m) refl), alone_or_zero m named fine)
]

read_count-IsCount :
    (v : Bytes) (named : Bool) {n : ℤ} → read_count v named ≡ ok n → IsCount named n
unfolding read_count
read_count-IsCount v named {n} h = elim (Bool-cases (blank v)) [
  | inl empty ↦
      let same : pos 0 ≡ n = ground (arith, h, empty) in
      subst (IsCount named) same ((0, refl, omega arith), inr refl)
  | inr given ↦
      checked_count-IsCount (parse_int32 v) named (λ m. parse_int32-InInt32 v {n = m})
        (ground (arith, h, given))
]

read_band-eq_ok :
    (band : Bytes) (wifi : Bool) {b : Bytes}
    → read_band band wifi ≡ ok b
    → (b ≡ band) × (valid_wifi_band band ≡ true) × ((not (blank band) && not wifi) ≡ false)
unfolding read_band
read_band-eq_ok band wifi h = ground (arith, h)

blank-eq : (s : Bytes) → blank s ≡ true → s ≡ []
blank-eq [] h = refl
blank-eq (b ∷ s) h = cc

Result-cases {ℓ κ} :
    {E : Type ℓ} {A : Type κ} (r : Result E A) → ((e : E) × (r ≡ err e)) ⊎ ((a : A) × (r ≡ ok a))
Result-cases (err e) = inl (e, refl)
Result-cases (ok a) = inr (a, refl)

read_labels-eq_ok :
    (quote : Bytes → Bytes) (q : List (Bytes × Bytes)) {ls : List Label}
    → read_labels quote q ≡ ok ls
    → (length ls ≤ max_labels) × AllWritable ls
unfolding read_labels
read_labels-eq_ok quote q {ls} h = elim (Result-cases (parse_labels (get_all (utf8 "label") q))) [
  | inl (e, bad) ↦ ground (arith, h, bad)
  | inr (ms, good) ↦
      let same : ms ≡ ls = ground (arith, h, good) in
      subst (λ m. (length m ≤ max_labels) × AllWritable m) same (parsed-AllWritable _ good)
]

-- A job that handleAcquire asks for has a count and numbers of 32 bits, the count not negative
-- and not together with named serials; a band is a known one and goes with Wi-Fi on; its labels
-- are at most 32 and within their caps.
pub read_job-IsSound : (c : Config) (r : Request) {job : Job} → read_job c r ≡ ok job → IsSound job
unfolding read_job
read_job-IsSound c r h =
    let (serials, e1, h1) = >>=-eq-ok (read_serials (get (utf8 "serial") r.query)) _ h in
    let (count, e2, h2) =
      >>=-eq-ok (read_count (get (utf8 "count") r.query) (is_some serials)) _ h1 in
    let (priority, e3, h3) = >>=-eq-ok (read_number (get (utf8 "priority") r.query) _) _ h2 in
    let (wifi, e4, h4) = >>=-eq-ok (read_wifi r.query) _ h3 in
    let (band, e5, h5) = >>=-eq-ok (read_band (get (utf8 "wifi_band") r.query) wifi) _ h4 in
    let (same, e6, h6) = >>=-eq-ok (read_same_proxy (get (utf8 "same_proxy") r.query)) _ h5 in
    let (attempt, e7, h7) = >>=-eq-ok (read_number (get (utf8 "run_attempt") r.query) _) _ h6 in
    let (labels, e8, h8) = >>=-eq-ok (read_labels c.quote r.query) _ h7 in
    let n = read_count-IsCount _ _ e2 in
    let b = read_band-eq_ok _ wifi e5 in
    let l = read_labels-eq_ok c.quote r.query e8 in
    subst IsSound (ok_path h8) (record {
      count = n.0;
      not_both = none_or_zero serials n.1;
      priority = read_number-InInt32 _ _ e3;
      attempt = read_number-InInt32 _ _ e7;
      band_wifi = on_or_blank wifi b.0 b.2;
      band_known = subst (λ t. valid_wifi_band t ≡ true) (sym b.0) b.1;
      few_labels = l.0;
      labels = l.1;
    })
  where
    none_or_zero :
        {k : ℤ} (o : Option (List Bytes))
        → (is_some o ≡ false) ⊎ (k ≡ pos 0)
        → (o ≡ none) ⊎ (k ≡ pos 0)
    none_or_zero none e = inl refl
    none_or_zero (some ss) (inl e) = cc
    none_or_zero (some ss) (inr e) = inr e

    on_or_blank :
        {s t : Bytes} (on : Bool)
        → s ≡ t
        → (not (blank t) && not on) ≡ false
        → (on ≡ true) ⊎ (s ≡ [])
    on_or_blank true e h = inl refl
    on_or_blank {s} {t} false e h = inr (e ∙ blank-eq t (ground (arith, h)))

    ok_path : {a b : Job} → ◌≡◌ {A = Result Response Job} (ok a) (ok b) → a ≡ b
    ok_path e = cc
