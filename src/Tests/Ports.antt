-- ===== src/Tests/Ports.antt =====
-- Runs of the theorems about a port's connections and transport ids at concrete inputs.
use sair.Base.{◌≡◌, refl, true, false, List, [], ◌∷◌}
use sair.Text.{utf8, str_eq}
use sair.Lines.{member}
use sair.Ports.Conns.{Conns, Step, accepts, ends, closes}
use sair.Ports.RemoteIds.{RemoteIds, Numbered, IsNumbered}

abbrev no_conns : Conns
no_conns = record { conns = []; closed = false; shut = [] }

-- A late accept: the third connection registers after the closing.
abbrev late_accept : List Step
late_accept = accepts 1 ∷ accepts 2 ∷ ends 1 ∷ closes ∷ accepts 3 ∷ []

abbrev one_remote : RemoteIds
one_remote = record { by_serial = (utf8 "B2", 1000001) ∷ []; by_id = (1000001, utf8 "B2") ∷ [] }

one_remote-IsNumbered : IsNumbered one_remote
unfolding Numbered
one_remote-IsNumbered = record { numbered = (refl, refl, refl, tt) }

is_remote : member (utf8 "C3") (utf8 "B2" ∷ utf8 "C3" ∷ []) ≡ true
unfolding str_eq
is_remote = refl
