-- ===== src/LockLog/Entries.antt =====
-- The messages of a lock's log (pb.LockLogEntry), as far as the proxy fills them in.
use sair.Base.{ℕ, ◌+◌, ◌≡◌, Bool, false, List, [], ◌∷◌, ◌++◌, arith, length}
use sair.Text.{Bytes}

pub record Entry : Type 0 where
  pub timestamp_ms : ℕ
  pub serial : Bytes
  pub service : Bytes
  pub output : Bytes
  pub request_id : ℕ
  pub is_open : Bool
  pub duration_ms : ℕ
  pub bytes_to_client : ℕ

abbrev pub blank : Entry
blank = record {
  timestamp_ms = 0;
  serial = [];
  service = [];
  output = [];
  request_id = 0;
  is_open = false;
  duration_ms = 0;
  bytes_to_client = 0;
}

abbrev pub size_of : Entry → ℕ
size_of e = length e.output

abbrev pub total_of : List Entry → ℕ
total_of [] = 0
total_of (e ∷ es) = size_of e + total_of es

pub total_of-append : (xs ys : List Entry) → total_of (xs ++ ys) ≡ total_of xs + total_of ys
total_of-append [] ys = omega arith
total_of-append (x ∷ xs) ys = omega (arith, total_of-append xs ys)
