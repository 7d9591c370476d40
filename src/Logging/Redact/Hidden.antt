-- ===== src/Logging/Redact/Hidden.antt =====
-- What a passphrase leaves in a redacted text (internal/logging/redact.go): nothing, wherever the
-- subcommand stands.
use sair.Base.{
  ℕ, zero, suc, ◌-◌, ◌≤◌, ◌≡◌, refl, sym, ap, ◌∙◌, ◌≢◌, ◌⊎◌, inl, inr, Bool, true, false, Option,
  none, some, List, [], ◌∷◌, ◌++◌, arith, ◌==◌, ==_iff, if◌then◌else◌, length, All, Bool-cases,
}
use sair.Text.{Bytes, utf8, cut_prefix}
use sair.Logging.Redact.{
  redact_secrets, IsOneLine, Scan, copying, in_word, dropping, scan, enter, drop_char, after_drop,
  match_subcommand, subcommands, at_boundary,
}

-- The subcommands that carry a passphrase.
pub data Carrier : Type 0 where
  add_suggestion connect_network add_network : Carrier

abbrev pub name_of : Carrier → Bytes
name_of add_suggestion = utf8 "add-suggestion"
name_of connect_network = utf8 "connect-network"
name_of add_network = utf8 "add-network"

-- While the rest of a line is dropped, it leaves nothing.
dropped_line : (s tail : Bytes) → IsOneLine s → scan dropping (s ++ tail) ≡ scan dropping tail
unfolding scan drop_char after_drop
dropped_line [] tail h = refl
dropped_line (c ∷ s) tail h = ground (arith, dropped_line s tail h.1, ==_iff c b'\n')

blank_dropped :
    (s tail : Bytes) → IsOneLine s → scan dropping (b' ' ∷ (s ++ tail)) ≡ scan dropping tail
unfolding scan drop_char after_drop
blank_dropped s tail h = dropped_line s tail h

word_ends :
    (c : ℕ) (r : Bytes)
    → c ≢ b'\n'
    → scan (in_word zero) (c ∷ r) ≡ utf8 " <redacted>" ++ scan dropping r
unfolding scan drop_char after_drop
word_ends c r n = ground (arith, ==_iff c b'\n')

abbrev NoBlank : Bytes → Type 0
NoBlank = All (λ c. c ≢ b' ')

-- A word without blanks is found or not within what stands before the first blank.
Cut : Bytes → Bytes → Bytes → Bytes → Type 0
Cut v w r1 r2 =
    ((cut_prefix (v ++ b' ' ∷ r1) w ≡ none) × (cut_prefix (v ++ b' ' ∷ r2) w ≡ none))
    ⊎ ((v' : Bytes) × (cut_prefix (v ++ b' ' ∷ r1) w ≡ some (v' ++ b' ' ∷ r1))
        × (cut_prefix (v ++ b' ' ∷ r2) w ≡ some (v' ++ b' ' ∷ r2))
        × (length w ≤ length v))

Cut-before_blank : (v w r1 r2 : Bytes) → NoBlank w → Cut v w r1 r2
unfolding Cut cut_prefix
Cut-before_blank v [] r1 r2 h = inr (v, refl, refl, omega arith)
Cut-before_blank [] (p ∷ ps) r1 r2 h = elim (Bool-cases (b' ' == p)) [
  | inl e ↦ absurd (h.0 (sym ((==_iff b' ' p).0 e)))
  | inr e ↦ inl (rw e refl, rw e refl)
]
Cut-before_blank (c ∷ v) (p ∷ ps) r1 r2 h = elim (Bool-cases (c == p)) [
  | inl e ↦ elim (Cut-before_blank v ps r1 r2 h.1) [
    | inl (e1, e2) ↦ inl (rw e e1, rw e e2)
    | inr (v', e1, e2, fits) ↦ inr (v', rw e e1, rw e e2, omega (arith, fits))
  ]
  | inr e ↦ inl (rw e refl, rw e refl)
]

-- Where a subcommand is found, it stands before the first blank.
Match : List Bytes → Bytes → Bytes → Bytes → Type 0
Match ws v r1 r2 =
    ((match_subcommand ws (v ++ b' ' ∷ r1) ≡ none) × (match_subcommand ws (v ++ b' ' ∷ r2) ≡ none))
    ⊎ ((n : ℕ) × (match_subcommand ws (v ++ b' ' ∷ r1) ≡ some n)
        × (match_subcommand ws (v ++ b' ' ∷ r2) ≡ some n)
        × (n ≤ length v))

boundary_same : (v r1 r2 : Bytes) → at_boundary (v ++ b' ' ∷ r1) ≡ at_boundary (v ++ b' ' ∷ r2)
unfolding at_boundary
boundary_same [] r1 r2 = refl
boundary_same (c ∷ v) r1 r2 = refl

match-no_cut :
    (w : Bytes) (ws : List Bytes) (s : Bytes)
    → cut_prefix s w ≡ none
    → match_subcommand (w ∷ ws) s ≡ match_subcommand ws s
unfolding match_subcommand
match-no_cut w ws s e =
    ap
      (λ x. elim x [
        | none ↦ match_subcommand ws s
        | some rest ↦ if at_boundary rest then some (length w) else match_subcommand ws s
      ])
      e

match-cut :
    (w : Bytes) (ws : List Bytes) (s rest : Bytes) (b : Bool)
    → cut_prefix s w ≡ some rest
    → at_boundary rest ≡ b
    → match_subcommand (w ∷ ws) s ≡ (if b then some (length w) else match_subcommand ws s)
unfolding match_subcommand
match-cut w ws s rest b e t =
    ap
      (λ x. elim x [
        | none ↦ match_subcommand ws s
        | some r ↦ if at_boundary r then some (length w) else match_subcommand ws s
      ])
      e
    ∙ ap (λ x. if x then some (length w) else match_subcommand ws s) t

Match-before_blank : (ws : List Bytes) (v r1 r2 : Bytes) → All NoBlank ws → Match ws v r1 r2
unfolding Match match_subcommand Cut
Match-before_blank [] v r1 r2 h = inl (refl, refl)
Match-before_blank (w ∷ ws) v r1 r2 h =
    found (Cut-before_blank v w r1 r2 h.0) (Match-before_blank ws v r1 r2 h.1)
  where
    found : Cut v w r1 r2 → Match ws v r1 r2 → Match (w ∷ ws) v r1 r2
    found (inl (e1, e2)) later = elim later [
      | inl (l1, l2) ↦ inl (match-no_cut w ws _ e1 ∙ l1, match-no_cut w ws _ e2 ∙ l2)
      | inr (n, l1, l2, fits) ↦
          inr (n, match-no_cut w ws _ e1 ∙ l1, match-no_cut w ws _ e2 ∙ l2, fits)
    ]
    found (inr (v', e1, e2, fits)) later =
        let same = boundary_same v' r1 r2 in
        elim (Bool-cases (at_boundary (v' ++ b' ' ∷ r1))) [
          | inl t ↦ inr (
            length w,
            match-cut w ws _ _ true e1 t,
            match-cut w ws _ _ true e2 (sym same ∙ t),
            fits,
          )
          | inr t ↦ elim later [
            | inl (l1, l2) ↦ inl (
              match-cut w ws _ _ false e1 t ∙ l1,
              match-cut w ws _ _ false e2 (sym same ∙ t) ∙ l2,
            )
            | inr (n, l1, l2, short) ↦ inr (
              n,
              match-cut w ws _ _ false e1 t ∙ l1,
              match-cut w ws _ _ false e2 (sym same ∙ t) ∙ l2,
              short,
            )
          ]
        ]

subcommands-NoBlank : All NoBlank subcommands
subcommands-NoBlank = ground arith

-- The characters that a state still copies fit into what is left before the blank.
Fits : Scan → Bytes → Type 0
Fits copying v = Unit {0}
Fits (in_word n) v = n ≤ length v
Fits dropping v = Unit {0}

one_line : (k : Carrier) → IsOneLine (name_of k)
one_line add_suggestion = ground arith
one_line connect_network = ground arith
one_line add_network = ground arith

blank_is_no_break : ◌≢◌ {A = ℕ} b' ' b'\n'
blank_is_no_break = ground arith

module _ (s1 s2 tail : Bytes) (h1 : IsOneLine s1) (h2 : IsOneLine s2) where
  Same : Scan → Bytes → Type 0
  Same st v = scan st (v ++ b' ' ∷ (s1 ++ tail)) ≡ scan st (v ++ b' ' ∷ (s2 ++ tail))

  Same-dropping : (u : Bytes) → IsOneLine u → Same dropping u
  unfolding Same
  Same-dropping u h =
      dropped_line u (b' ' ∷ (s1 ++ tail)) h
      ∙ (blank_dropped s1 tail h1
          ∙ sym (blank_dropped s2 tail h2)
          ∙ sym (dropped_line u (b' ' ∷ (s2 ++ tail)) h))

  Same-in_word : (n : ℕ) (u : Bytes) → IsOneLine u → n ≤ length u → Same (in_word n) u
  unfolding Same scan
  Same-in_word zero [] h fits =
      word_ends b' ' (s1 ++ tail) blank_is_no_break
      ∙ ap (λ r. utf8 " <redacted>" ++ r)
          (blank_dropped s1 tail h1 ∙ sym (blank_dropped s2 tail h2))
      ∙ sym (word_ends b' ' (s2 ++ tail) blank_is_no_break)
  Same-in_word zero (c ∷ u) h fits =
      word_ends c (u ++ b' ' ∷ (s1 ++ tail)) h.0
      ∙ ap (λ r. utf8 " <redacted>" ++ r) (Same-dropping u h.1)
      ∙ sym (word_ends c (u ++ b' ' ∷ (s2 ++ tail)) h.0)
  Same-in_word (suc n) [] h fits = absurd (no_room fits)
    where
      no_room : suc n ≤ 0 → ⊥
      no_room f = ground arith
  Same-in_word (suc n) (c ∷ u) h fits = ap (λ r. c ∷ r) (Same-in_word n u h.1 (omega (arith, fits)))

  rest_same : scan dropping (s1 ++ tail) ≡ scan dropping (s2 ++ tail)
  rest_same = dropped_line s1 tail h1 ∙ sym (dropped_line s2 tail h2)

  from_subcommand : (k : Carrier) → Same copying (name_of k)
  unfolding Same scan match_subcommand at_boundary cut_prefix enter
  from_subcommand add_suggestion = ap (λ r. utf8 "add-suggestion <redacted>" ++ r) rest_same
  from_subcommand connect_network = ap (λ r. utf8 "connect-network <redacted>" ++ r) rest_same
  from_subcommand add_network = ap (λ r. utf8 "add-network <redacted>" ++ r) rest_same

  Fits-after_drop : (c : ℕ) (v : Bytes) → Fits (after_drop c) v
  unfolding Fits after_drop
  Fits-after_drop c v = elim (Bool-cases (c == b'\n')) [ inl e ↦ rw e tt | inr e ↦ rw e tt ]

  Same-scan :
      (k : Carrier) (pre : Bytes) (st : Scan)
      → Fits st (pre ++ name_of k)
      → Same st (pre ++ name_of k)
  unfolding Fits Same scan enter Match
  Same-scan k [] copying f = from_subcommand k
  Same-scan k [] (in_word n) f = Same-in_word n (name_of k) (one_line k) f
  Same-scan k [] dropping f = Same-dropping (name_of k) (one_line k)
  Same-scan k (c ∷ pre) copying f =
      let v = pre ++ name_of k in
      let next : Bytes → Option ℕ → Bytes = λ s m. c ∷ scan (enter m) (v ++ b' ' ∷ (s ++ tail)) in
      elim (Match-before_blank subcommands (c ∷ v) (s1 ++ tail) (s2 ++ tail) subcommands-NoBlank) [
        | inl (e1, e2) ↦
            ap (next s1) e1 ∙ ap (λ r. c ∷ r) (Same-scan k pre copying tt) ∙ sym (ap (next s2) e2)
        | inr (n, e1, e2, fits) ↦
            ap (next s1) e1
            ∙ ap (λ r. c ∷ r) (Same-scan k pre (in_word (n - 1)) (omega (arith, fits)))
            ∙ sym (ap (next s2) e2)
      ]
  Same-scan k (c ∷ pre) (in_word zero) f =
      ap (λ r. utf8 " <redacted>" ++ drop_char c r)
        (Same-scan k pre (after_drop c) (Fits-after_drop c (pre ++ name_of k)))
  Same-scan k (c ∷ pre) (in_word (suc n)) f =
      ap (λ r. c ∷ r) (Same-scan k pre (in_word n) (omega (arith, f)))
  Same-scan k (c ∷ pre) dropping f =
      ap (drop_char c) (Same-scan k pre (after_drop c) (Fits-after_drop c (pre ++ name_of k)))

-- What follows one of the three subcommands and a blank, to the end of its line, leaves no trace
-- in the redacted text, wherever in the text the subcommand stands and whatever follows that
-- line: any other text in its place, on one line, is redacted to the same.
pub redact_secrets-hides :
    (k : Carrier) (pre s1 s2 tail : Bytes)
    → IsOneLine s1
    → IsOneLine s2
    → redact_secrets ((pre ++ name_of k) ++ b' ' ∷ (s1 ++ tail))
      ≡ redact_secrets ((pre ++ name_of k) ++ b' ' ∷ (s2 ++ tail))
unfolding redact_secrets Same Fits
redact_secrets-hides k pre s1 s2 tail h1 h2 = Same-scan s1 s2 tail h1 h2 k pre copying tt
