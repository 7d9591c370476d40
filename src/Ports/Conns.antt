-- ===== src/Ports/Conns.antt =====
-- The accepted connections of a scoped port (internal/proxy/scoped_port.go): trackConn, untrackConn,
-- closeConns. Connections are numbered; `shut` are those on which Close was called.
use sair.Base.{ℕ, ◌≡◌, Bool, true, false, not, List, [], ◌∷◌, ◌++◌, ◌==◌, any_of, keep_if, All}
use sair.Ports.Branch.{if◌then◌else◌}

pub record Conns : Type 0 where
  pub conns : List ℕ
  pub closed : Bool
  pub shut : List ℕ

unfoldable pub track_conn : ℕ → Conns → Bool × Conns
track_conn conn s =
    if s.closed
    then (false, record s { shut = conn ∷ s.shut })
    else (true, record s { conns = conn ∷ s.conns })

unfoldable pub untrack_conn : ℕ → Conns → Conns
untrack_conn conn s = record s { conns = keep_if (λ c. not (c == conn)) s.conns }

unfoldable pub close_conns : Conns → Conns
close_conns s = record s { closed = true; shut = s.conns ++ s.shut }

pub data Step : Type 0 where
  accepts ends : ℕ → Step
  closes : Step

unfoldable pub step : Step → Conns → Conns
step (accepts conn) s = (track_conn conn s).1
step (ends conn) s = untrack_conn conn s
step closes s = close_conns s

unfoldable pub steps : List Step → Conns → Conns
steps [] s = s
steps (x ∷ xs) s = steps xs (step x s)

abbrev pub is_shut : Conns → ℕ → Bool
is_shut s conn = any_of (λ c. c == conn) s.shut

-- Once the port is closed, each connection that is still open has been shut.
pub record IsClosing (s : Conns) : Type 0 where
  pub shuts : s.closed ≡ true → All (λ conn. is_shut s conn ≡ true) s.conns
