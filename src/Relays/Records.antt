-- ===== src/Relays/Records.antt =====
-- The records of relayed phones (internal/proxy/relay.go). They are shared: a relay, the reset of the
-- phone and the record that replaced one may hold the same record, so each is a cell of a store, and
-- `relayLocks` maps serials to cells. A step is what runs without a break: an operation of the map, or
-- what stands inside the record's `once`.
use sair.Base.{
  ℕ, Bool, true, false, not, ◌||◌, Option, none, some, List, [], ◌∷◌, ◌==◌, if◌then◌else◌, length,
  keep_if,
}
use sair.Text.{Bytes, str_eq}
use sair.Result.{Result, ok, err}
use sair.Lines.{member}
use sair.Devices.Tracker.{lookup, store}

pub record RelayRecord : Type 0 where
  pub lock_id : Bytes
  -- Whether `once` has run.
  pub settled : Bool
  pub snapshot : Option (List Bytes)
  pub prev : Option ℕ

-- The cells that were made, the latest first, so that a cell's number is how many were before it.
pub record Store : Type 0 where
  pub cells : List RelayRecord
  pub locks : List (Bytes × ℕ)

unfoldable pub cell : ℕ → List RelayRecord → Option RelayRecord
cell n [] = none
cell n (r ∷ rs) = let rest = cell n rs in if n == length rs then some r else rest

unfoldable pub set_cell : ℕ → RelayRecord → List RelayRecord → List RelayRecord
set_cell n r [] = []
set_cell n r (q ∷ rs) = let rest = set_cell n r rs in if n == length rs then r ∷ rs else q ∷ rest

unfoldable pub remove {ℓ} : {A : Type ℓ} → Bytes → List (Bytes × A) → List (Bytes × A)
remove k [] = []
remove k ((j, a) ∷ xs) = let rest = remove k xs in if str_eq j k then rest else (j, a) ∷ rest

abbrev pub fresh : Bytes → Option ℕ → RelayRecord
fresh lock_id prev = record { lock_id = lock_id; settled = false; snapshot = none; prev = prev }

unfoldable pub once_at : ℕ → (RelayRecord → RelayRecord) → Store → Option RelayRecord → Store
once_at n f s none = s
once_at n f s (some r) =
    if r.settled
    then s
    else record s { cells = set_cell n (record (f r) { settled = true }) s.cells }

-- `once.Do`: the first time `f` runs on the record, later nothing does.
unfoldable pub once_do : ℕ → (RelayRecord → RelayRecord) → Store → Store
once_do n f s = once_at n f s (cell n s.cells)

unfoldable pub snapshot_at : Option RelayRecord → Option (List Bytes)
snapshot_at none = none
snapshot_at (some r) = r.snapshot

listed_into : Result Bytes (List Bytes) → RelayRecord → RelayRecord
listed_into (err e) r = record r { prev = none }
listed_into (ok packages) r = record r { prev = none; snapshot = some packages }

-- The record that this one replaced, if this is the record's one chance and its packages were listed.
replaced : Result Bytes (List Bytes) → Option RelayRecord → Option ℕ
replaced (err e) r = none
replaced (ok packages) none = none
replaced (ok packages) (some r) = if r.settled then none else r.prev

-- `settledSnapshot` of the record that was replaced, inside the once.
unfoldable pub settle_replaced : Option ℕ → Store → Store
settle_replaced none s = s
settle_replaced (some m) s = once_do m (λ r. r) s

-- `takeSnapshot`, for what ListPackages answers.
unfoldable pub take_snapshot : ℕ → Result Bytes (List Bytes) → Store → Store
unfolding listed_into replaced
take_snapshot n answer s =
    settle_replaced (replaced answer (cell n s.cells)) (once_do n (listed_into answer) s)

-- `settledSnapshot`.
unfoldable pub settled_snapshot : ℕ → Store → Option (List Bytes) × Store
unfolding snapshot_at
settled_snapshot n s = let s' = once_do n (λ r. r) s in (snapshot_at (cell n s'.cells), s')

-- The packages that are warned of: those that the record before did not have.
unfoldable pub possibly_left : List Bytes → List Bytes → List Bytes
possibly_left packages old = keep_if (λ pkg. not (member pkg old)) packages

unfoldable pub loaded_or_stored : Bytes → Bytes → Store → Option ℕ → (Bool × ℕ) × Store
loaded_or_stored serial lock_id s (some n) = ((true, n), s)
loaded_or_stored serial lock_id s none = (
  (false, length s.cells),
  record s { cells = fresh lock_id none ∷ s.cells; locks = store serial (length s.cells) s.locks },
)

-- `LoadOrStore` of a fresh record: the one that is there, or the fresh one.
unfoldable pub load_or_store : Bytes → Bytes → Store → (Bool × ℕ) × Store
load_or_store serial lock_id s = loaded_or_stored serial lock_id s (lookup serial s.locks)

unfoldable pub same_cell : Option ℕ → ℕ → Bool
same_cell none n = false
same_cell (some m) n = m == n

-- `CompareAndSwap` of the record `old` for a fresh one.
unfoldable pub compare_and_swap : Bytes → Bytes → ℕ → Store → Option ℕ × Store
unfolding same_cell
compare_and_swap serial lock_id old s =
    if same_cell (lookup serial s.locks) old
    then (
      some (length s.cells),
      record s {
        cells = fresh lock_id (some old) ∷ s.cells;
        locks = store serial (length s.cells) s.locks;
      },
    )
    else (none, s)

unfoldable pub names_lock : Bytes → Option RelayRecord → Bool
names_lock lock_id none = false
names_lock lock_id (some r) = str_eq r.lock_id lock_id

-- `relayRecordFor`: between its two steps others may act, once for each round in the list; after
-- those it is left alone.
unfoldable pub swapped : Option ℕ × Store → (Store → ℕ × Store) → ℕ × Store
swapped (some n, s) again = (n, s)
swapped (none, s) again = again s

unfoldable pub relay_round :
    (Store → Store) → (Store → ℕ × Store) → Bytes → Bytes → (Bool × ℕ) × Store → ℕ × Store
unfolding swapped
relay_round act again serial lock_id ((loaded, n), s) =
    if not loaded || names_lock lock_id (cell n s.cells)
    then (n, s)
    else swapped (compare_and_swap serial lock_id n (act s)) again

-- With nobody else acting the swap succeeds, and there is no further round.
unfoldable pub relay_record_for : List (Store → Store) → Bytes → Bytes → Store → ℕ × Store
relay_record_for [] serial lock_id s =
    relay_round (λ t. t) (λ t. (0, t)) serial lock_id (load_or_store serial lock_id s)
relay_record_for (act ∷ acts) serial lock_id s =
    let again = relay_record_for acts serial lock_id in
    relay_round act again serial lock_id (load_or_store serial lock_id s)

-- `takeRelayRecord`: `CompareAndDelete` of the record that was loaded, after what others did.
unfoldable pub take_relay_record : (Store → Store) → Bytes → Bytes → Store → Option ℕ × Store
unfolding same_cell
take_relay_record act serial lock_id s = elim (lookup serial s.locks) [
  | none ↦ (none, s)
  | some n ↦
      if not (names_lock lock_id (cell n s.cells))
      then (none, s)
      else let s' = act s in
        if same_cell (lookup serial s'.locks) n
        then (some n, record s' { locks = remove serial s'.locks })
        else (none, s')
]

-- What relays and resets do to the store, one step at a time.
pub data Step : Type 0 where
  -- The two steps of `relayRecordFor`.
  loads : Bytes → Bytes → Step
  swaps : Bytes → Bytes → ℕ → Step
  -- `takeSnapshot`, `settledSnapshot`, and the deletion of `takeRelayRecord`.
  lists : ℕ → Result Bytes (List Bytes) → Step
  settles : ℕ → Step
  deletes : Bytes → ℕ → Step

unfoldable pub step : Step → Store → Store
unfolding same_cell
step (loads serial lock_id) s = (load_or_store serial lock_id s).1
step (swaps serial lock_id old) s = (compare_and_swap serial lock_id old s).1
step (lists n answer) s = take_snapshot n answer s
step (settles n) s = (settled_snapshot n s).1
step (deletes serial n) s =
    if same_cell (lookup serial s.locks) n then record s { locks = remove serial s.locks } else s

unfoldable pub steps : List Step → Store → Store
steps [] s = s
steps (a ∷ as') s = steps as' (step a s)
