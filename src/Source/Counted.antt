-- ===== src/Source/Counted.antt =====
-- The statistics of joins add up (internal/devicesource/wifi.go).
use sair.Base.{
  ℕ, zero, suc, ◌+◌, ◌-◌, ◌/◌, ◌≤◌, ◌<◌, max, ◌≡◌, refl, ap, ◌∙◌, inl, inr, some, List, [], ◌∷◌,
  ◌++◌, arith, ltb, leb, Bool-cases, length, drop, length-append, length-drop, All, All-append,
}
use sair.Text.{Bytes}
use sair.Ports.Branch.{if◌then◌else◌}
use sair.Result.{Result, ok, err}
use sair.Source.Shell.{Fault, not_associated, other_ssid, not_validated, no_route}
use sair.Source.Wifi.{Join}
use sair.Source.Joins.{
  Why, because, other, join_failure_reason, Reasons, count_reason, WifiStats, keep_recent,
  succeeded, failed, count_join, record_join, put_in_order, sorted, at, Report, wifi_stats_report,
}

abbrev total : Reasons → ℕ
total r =
    r.not_associated_count + r.other_ssid_count + r.not_validated_count + r.no_route_count
    + r.other_count

abbrev pub NoMoreThan : ℕ → List ℕ → Type 0
NoMoreThan n ts = All (λ t. t ≤ n) ts

-- The counts by reason add up to the failures, of which there are no more than joins; at most a hundred
-- times are kept, none above the slowest.
pub record IsCounted (s : WifiStats) : Type 0 where
  pub reasons : total s.by_reason ≡ s.failures
  pub fewer : s.failures ≤ s.joins
  pub latest : length s.recent ≤ 100
  pub slowest : NoMoreThan s.slowest s.recent

total-count_reason : (why : Why) (r : Reasons) → total (count_reason why r) ≡ suc (total r)
unfolding count_reason
total-count_reason (because not_associated) r = omega arith
total-count_reason (because other_ssid) r = omega arith
total-count_reason (because not_validated) r = omega arith
total-count_reason (because no_route) r = omega arith
total-count_reason other r = omega arith

weaker : (m n : ℕ) (ts : List ℕ) → m ≤ n → NoMoreThan m ts → NoMoreThan n ts
weaker m n [] h a = tt
weaker m n (t ∷ ts) h a = (omega arith, weaker m n ts h a.1)

NoMoreThan-keep_recent : (n : ℕ) (ts : List ℕ) → NoMoreThan n ts → NoMoreThan n (keep_recent ts)
unfolding keep_recent if◌then◌else◌
NoMoreThan-keep_recent n ts a = elim (Bool-cases (ltb 100 (length ts))) [
  | inl over ↦ rw over (behind ts a)
  | inr within ↦ rw within a
]
  where
    behind : (us : List ℕ) → NoMoreThan n us → NoMoreThan n (drop 1 us)
    behind [] b = tt
    behind (u ∷ us) b = b.1

length-keep_recent : (ts : List ℕ) → length ts ≤ 101 → length (keep_recent ts) ≤ 100
unfolding keep_recent if◌then◌else◌
length-keep_recent ts h = elim (Bool-cases (ltb 100 (length ts))) [
  | inl over ↦ rw over (omega (arith, length-drop 1 ts))
  | inr within ↦ rw within (ground arith)
]

succeeded-IsCounted : (took : ℕ) (s : WifiStats) → IsCounted s → IsCounted (succeeded took s)
unfolding succeeded
succeeded-IsCounted took s c = record {
  reasons = c.reasons;
  fewer = omega (arith, c.fewer);
  latest =
      length-keep_recent (s.recent ++ took ∷ [])
        (omega (arith, c.latest, length-append s.recent (took ∷ [])));
  slowest = NoMoreThan-keep_recent (max s.slowest took) (s.recent ++ took ∷ []) (
      All-append (λ t. t ≤ max s.slowest took) s.recent (took ∷ [])
        (weaker s.slowest (max s.slowest took) s.recent (omega arith) c.slowest) (omega arith, tt));
}

failed-IsCounted :
    (now : ℕ) (message : Bytes) (why : Why) (s : WifiStats)
    → IsCounted s
    → IsCounted (failed now message why s)
unfolding failed
failed-IsCounted now message why s c = record {
  reasons = total-count_reason why s.by_reason ∙ ap suc c.reasons;
  fewer = omega (arith, c.fewer);
  latest = c.latest;
  slowest = c.slowest;
}

counted :
    (outcome : Result Fault (Unit {0})) (took now : ℕ) (message : Bytes) (why : Why) (s : WifiStats)
    → IsCounted s
    → IsCounted (elim outcome [ ok u ↦ succeeded took s | err e ↦ failed now message why s ])
counted (ok u) took now message why s c = succeeded-IsCounted took s c
counted (err e) took now message why s c = failed-IsCounted now message why s c

-- Counting a join keeps the statistics consistent: the failures by reason add up to the failures,
-- which are no more than the joins, and at most a hundred times are kept, none above the slowest.
pub record_join-IsCounted :
    (now took : ℕ) (message : Bytes) (j : Join) (s : WifiStats)
    → IsCounted s
    → IsCounted (record_join now took message j s).1
unfolding record_join count_join
record_join-IsCounted now took message j s c =
    let c' = counted j.outcome took now message (join_failure_reason j.last) s c in
    record { reasons = c'.reasons; fewer = c'.fewer; latest = c'.latest; slowest = c'.slowest }

NoMoreThan-put_in_order :
    (n t : ℕ) (ts : List ℕ) → t ≤ n → NoMoreThan n ts → NoMoreThan n (put_in_order t ts)
unfolding put_in_order if◌then◌else◌
NoMoreThan-put_in_order n t [] h a = (h, tt)
NoMoreThan-put_in_order n t (u ∷ us) h a = elim (Bool-cases (leb t u)) [
  | inl first ↦ rw first (h, a)
  | inr later ↦ rw later (a.0, NoMoreThan-put_in_order n t us h a.1)
]

length-put_in_order : (t : ℕ) (ts : List ℕ) → length (put_in_order t ts) ≡ suc (length ts)
unfolding put_in_order if◌then◌else◌
length-put_in_order t [] = refl
length-put_in_order t (u ∷ us) = elim (Bool-cases (leb t u)) [
  | inl first ↦ rw first refl
  | inr later ↦ rw later (ap suc (length-put_in_order t us))
]

NoMoreThan-sorted : (n : ℕ) (ts : List ℕ) → NoMoreThan n ts → NoMoreThan n (sorted ts)
unfolding sorted
NoMoreThan-sorted n [] a = tt
NoMoreThan-sorted n (t ∷ ts) a =
    NoMoreThan-put_in_order n t (sorted ts) a.0 (NoMoreThan-sorted n ts a.1)

length-sorted : (ts : List ℕ) → length (sorted ts) ≡ length ts
unfolding sorted
length-sorted [] = refl
length-sorted (t ∷ ts) = length-put_in_order t (sorted ts) ∙ ap suc (length-sorted ts)

at-NoMoreThan :
    (n i : ℕ) (ts : List ℕ)
    → NoMoreThan n ts
    → i < length ts
    → (t : ℕ) × (at i ts ≡ some t) × (t ≤ n)
unfolding at
at-NoMoreThan n i [] a h = absurd (omega arith)
at-NoMoreThan n zero (t ∷ ts) a h = (t, refl, a.0)
at-NoMoreThan n (suc i) (t ∷ ts) a h = at-NoMoreThan n i ts a.1 (omega arith)

-- Of consistent statistics with a join that succeeded, the report names a median and a last time
-- to online, neither above the slowest.
pub wifi_stats_report-bounds :
    (timeout : ℕ) (s : WifiStats)
    → IsCounted s
    → 0 < length s.recent
    → (r : Report) × (wifi_stats_report timeout (some s) ≡ some r)
      × (m : ℕ) × (r.median_join ≡ some m)
      × (m ≤ s.slowest)
      × (l : ℕ) × (r.last_join ≡ some l)
      × (l ≤ s.slowest)
unfolding wifi_stats_report
wifi_stats_report-bounds timeout s c h =
    let (m, em, lm) =
      at-NoMoreThan s.slowest (length s.recent / 2) (sorted s.recent)
        (NoMoreThan-sorted s.slowest s.recent c.slowest) (omega (arith, length-sorted s.recent)) in
    let (l, el, ll) =
      at-NoMoreThan s.slowest (length s.recent - 1) s.recent c.slowest (omega arith) in
    (_, refl, m, em, lm, l, el, ll)
