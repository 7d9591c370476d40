-- ===== src/Logging/Redact.antt =====
-- internal/logging/redact.go: `RedactSecrets` replaces every match of
-- `(add-suggestion|connect-network|add-network)\b.*` by the subcommand and " <redacted>".
pub mod Hidden
use sair.Base.{
  ℕ, zero, suc, ◌-◌, ◌≡◌, refl, ap, ◌≢◌, Bool, true, not, ◌&&◌, ◌||◌, Option, none, some, List, [],
  ◌∷◌, ◌++◌, arith, leb, ◌==◌, if◌then◌else◌, ==_iff, length, All,
}
use sair.Text.{Bytes, utf8, cut_prefix}

is_word : ℕ → Bool
is_word c =
    (leb b'0' c && leb c b'9')
    || (leb b'A' c && leb c b'Z')
    || (leb b'a' c && leb c b'z')
    || c == b'_'

-- `\b` after a letter.
at_boundary : Bytes → Bool
unfolding is_word
at_boundary [] = true
at_boundary (c ∷ s) = not (is_word c)

abbrev subcommands : List Bytes
subcommands = utf8 "add-suggestion" ∷ utf8 "connect-network" ∷ utf8 "add-network" ∷ []

-- The length of the first alternative that matches here.
match_subcommand : List Bytes → Bytes → Option ℕ
unfolding at_boundary cut_prefix
match_subcommand [] s = none
match_subcommand (w ∷ ws) s =
    let later = match_subcommand ws s in
    elim (cut_prefix s w) [
      | none ↦ later
      | some rest ↦ if at_boundary rest then some (length w) else later
    ]

-- Copying; inside a subcommand with so many characters to copy; dropping the rest of the line.
pub data Scan : Type 0 where
  copying : Scan
  in_word : ℕ → Scan
  dropping : Scan

enter : Option ℕ → Scan
enter none = copying
enter (some n) = in_word (n - 1)

drop_char : ℕ → Bytes → Bytes
drop_char c rest = if c == b'\n' then c ∷ rest else rest

after_drop : ℕ → Scan
after_drop c = if c == b'\n' then copying else dropping

scan : Scan → Bytes → Bytes
unfolding match_subcommand enter drop_char after_drop
scan copying [] = []
scan (in_word zero) [] = utf8 " <redacted>"
scan (in_word (suc n)) [] = []
scan dropping [] = []
scan copying (c ∷ s) = c ∷ scan (enter (match_subcommand subcommands (c ∷ s))) s
scan (in_word zero) (c ∷ s) = utf8 " <redacted>" ++ drop_char c (scan (after_drop c) s)
scan (in_word (suc n)) (c ∷ s) = c ∷ scan (in_word n) s
scan dropping (c ∷ s) = drop_char c (scan (after_drop c) s)

unfoldable pub redact_secrets : Bytes → Bytes
unfolding scan
redact_secrets s = scan copying s

redacted :
    redact_secrets (utf8 "x add-network 'home' wpa2 'pw'\nadd-networks connect-network a")
    ≡ utf8 "x add-network <redacted>\nadd-networks connect-network <redacted>"
unfolding redact_secrets
redacted = refl

abbrev pub IsOneLine : Bytes → Type 0
IsOneLine = All (λ c. c ≢ b'\n')
