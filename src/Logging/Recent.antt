-- ===== src/Logging/Recent.antt =====
-- internal/logging/recent.go: the ring of recent log lines.
use sair.Base.{
  ℕ, zero, suc, ◌+◌, ◌%◌, Bool, false, not, ◌&&◌, ◌||◌, List, [], ◌∷◌, ◌++◌, ltb, ◌==◌, length,
}
use sair.Text.{Bytes, str_eq}
use sair.Ports.Branch.{if◌then◌else◌}
use sair.Ports.Device.{contains}
use sair.Lines.{lines_of}
use sair.Logging.Redact.{redact_secrets}

-- `recentLines`.
abbrev pub recent_lines : ℕ
recent_lines = 500

pub record Ring : Type 0 where
  pub max_lines : ℕ
  pub lines : List Bytes
  pub next : ℕ

-- A slice with one element replaced; an index out of range, a panic, is met by no ring below.
unfoldable pub set_at : ℕ → Bytes → List Bytes → List Bytes
set_at n l [] = []
set_at zero l (x ∷ xs) = l ∷ xs
set_at (suc n) l (x ∷ xs) = x ∷ set_at n l xs

unfoldable pub line_at : ℕ → List Bytes → Bytes
line_at n [] = []
line_at zero (x ∷ xs) = x
line_at (suc n) (x ∷ xs) = line_at n xs

unfoldable pub write_line : Ring → Bytes → Ring
unfolding set_at
write_line r l =
    if ltb (length r.lines) r.max_lines
    then record r { lines = r.lines ++ l ∷ [] }
    else record r { lines = set_at r.next l r.lines; next = (r.next + 1) % r.max_lines }

unfoldable pub write_lines : Ring → List Bytes → Ring
write_lines r [] = r
write_lines r (l ∷ ls) = write_lines (write_line r l) ls

-- `strings.TrimRight` of newlines.
unfoldable pub trim_newlines : Bytes → Bytes
trim_newlines [] = []
trim_newlines (b ∷ s) = elim (trim_newlines s) [
  | [] ↦ if b == b'\n' then [] else b ∷ []
  | c ∷ t ↦ b ∷ c ∷ t
]

-- `Write`.
unfoldable pub write : Ring → Bytes → Ring
unfolding trim_newlines
write r p = write_lines r (lines_of (trim_newlines p))

-- `containsAny`.
unfoldable pub contains_any : Bytes → List Bytes → Bool
contains_any s [] = false
contains_any s (sub ∷ subs) = (not (str_eq sub []) && contains s sub) || contains_any s subs

unfoldable pub is_wanted : List Bytes → Bytes → Bool
unfolding contains_any
is_wanted match line = (length match == 0) || contains_any line match

-- The loop of `Lines`, for `n` more turns from turn `i`.
unfoldable pub read_from : Ring → List Bytes → ℕ → ℕ → List Bytes
unfolding line_at
read_from r match i zero = []
read_from r match i (suc n) =
    let line = line_at ((r.next + i) % length r.lines) r.lines in
    let rest = read_from r match (suc i) n in
    if is_wanted match line then redact_secrets line ∷ rest else rest

-- `Lines`.
unfoldable pub read_lines : Ring → List Bytes → List Bytes
read_lines r match = read_from r match 0 (length r.lines)
