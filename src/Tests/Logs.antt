-- ===== src/Tests/Logs.antt =====
-- Runs of the theorems about the ring of log lines at concrete inputs.
use sair.Base.{◌≡◌, [], ◌∷◌, ◌++◌, arith}
use sair.Text.{utf8}
use sair.Lines.{lines_of}
use sair.Logging.Recent.{Ring, write, trim_newlines, read_lines}
use sair.Logging.Latest.{latest, in_order, IsRing, write-latest}
use sair.Logging.Turns.{chosen, read_lines-in_order}

-- A full ring of two lines; the second is the older one.
abbrev full_ring : Ring
full_ring = record { max_lines = 2; lines = utf8 "c" ∷ utf8 "b" ∷ []; next = 1 }

full_ring-IsRing : IsRing full_ring
full_ring-IsRing = record {
  fits = omega arith;
  turns = omega arith;
  starts = λ h. absurd (omega arith);
}

write-latest_example :
    IsRing (write full_ring (utf8 "d\ne\n"))
    × (in_order (write full_ring (utf8 "d\ne\n"))
        ≡ latest 2 (in_order full_ring ++ lines_of (trim_newlines (utf8 "d\ne\n"))))
write-latest_example = write-latest full_ring (utf8 "d\ne\n") full_ring-IsRing

read_lines-in_order_example :
    read_lines full_ring (utf8 "b" ∷ []) ≡ chosen (utf8 "b" ∷ []) (in_order full_ring)
read_lines-in_order_example = read_lines-in_order full_ring (utf8 "b" ∷ []) full_ring-IsRing
