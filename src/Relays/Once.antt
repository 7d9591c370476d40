-- ===== src/Relays/Once.antt =====
-- What is sure of the shared records of relayed phones (internal/proxy/relay.go), whoever acts when.
use sair.Base.{
  ℕ, ◌<◌, ◌≡◌, refl, sym, ap, ◌∙◌, subst, ◌⊎◌, inl, inr, true, false, Option, none, some, List, [],
  ◌∷◌, arith, ◌==◌, ==_iff, Bool-cases, length,
}
use sair.Text.{Bytes}
use sair.Devices.Tracker.{lookup}
use sair.Relays.Records.{
  RelayRecord, Store, cell, set_cell, once_at, once_do, snapshot_at, same_cell, loaded_or_stored,
  take_snapshot, settle_replaced, settled_snapshot, load_or_store, compare_and_swap, Step, loads,
  swaps, lists, settles, deletes, step, steps,
}

lt-cell : (n : ℕ) (cs : List RelayRecord) {r : RelayRecord} → cell n cs ≡ some r → n < length cs
unfolding cell
lt-cell n [] h = cc
lt-cell n (q ∷ cs) {r} h = elim (Bool-cases (n == length cs)) [
  | inl e ↦ ground (arith, e)
  | inr e ↦ let below = lt-cell n cs {r = r} (ground (arith, h, e)) in omega (arith, below)
]

cell-cons :
    (n : ℕ) (q : RelayRecord) (cs : List RelayRecord) → n < length cs → cell n (q ∷ cs) ≡ cell n cs
unfolding cell
cell-cons n q cs h = ground (arith, h)

length-set_cell :
    (n : ℕ) (r : RelayRecord) (cs : List RelayRecord) → length (set_cell n r cs) ≡ length cs
unfolding set_cell
length-set_cell n r [] = refl
length-set_cell n r (q ∷ cs) = ground (arith, length-set_cell n r cs)

cell-set_other :
    (m n : ℕ) (r : RelayRecord) (cs : List RelayRecord)
    → (m == n) ≡ false
    → cell n (set_cell m r cs) ≡ cell n cs
unfolding cell set_cell
cell-set_other m n r [] h = refl
cell-set_other m n r (q ∷ cs) h =
    ground (arith, h, cell-set_other m n r cs h, length-set_cell m r cs)

cell-set_self :
    (n : ℕ) (r : RelayRecord) (cs : List RelayRecord)
    → n < length cs
    → cell n (set_cell n r cs) ≡ some r
unfolding cell set_cell
cell-set_self n r [] h = absurd (omega (arith, h))
cell-set_self n r (q ∷ cs) h = elim (Bool-cases (n == length cs)) [
  | inl e ↦ ground (arith, e)
  | inr e ↦ ground (arith, e, h, cell-set_self n r cs, length-set_cell n r cs)
]

cell_there :
    (n : ℕ) (cs : List RelayRecord) → n < length cs → (r : RelayRecord) × (cell n cs ≡ some r)
unfolding cell
cell_there n [] h = absurd (omega (arith, h))
cell_there n (q ∷ cs) h = elim (Bool-cases (n == length cs)) [
  | inl e ↦ (q, rw e refl)
  | inr e ↦ let (r, there) = cell_there n cs (ground (arith, e, h)) in (r, rw e there)
]

-- A record whose `once` has run, and the snapshot that it has from then on.
pub record IsSettled (n : ℕ) (snapshot : Option (List Bytes)) (s : Store) : Type 0 where
  pub at : RelayRecord
  pub there : cell n s.cells ≡ some at
  pub settled : at.settled ≡ true
  pub same : at.snapshot ≡ snapshot

-- Only the record's cell counts.
IsSettled-cell :
    {n : ℕ} {x : Option (List Bytes)} (s t : Store)
    → cell n t.cells ≡ cell n s.cells
    → IsSettled n x s
    → IsSettled n x t
IsSettled-cell s t e i = record {
  at = i.at;
  there = e ∙ i.there;
  settled = i.settled;
  same = i.same;
}

cell-once_at :
    (m n : ℕ) (f : RelayRecord → RelayRecord) (s : Store) (o : Option RelayRecord) {r : RelayRecord}
    → cell m s.cells ≡ o
    → cell n s.cells ≡ some r
    → r.settled ≡ true
    → cell n (once_at m f s o).cells ≡ cell n s.cells
unfolding once_at
cell-once_at m n f s none found there e = refl
cell-once_at m n f s (some q) {r} found there e = elim (Bool-cases q.settled) [
  | inl old ↦ rw old refl
  | inr new ↦ elim (Bool-cases (m == n)) [
    | inl mine ↦
        let one : m ≡ n = (==_iff m n).0 mine in
        let same : q ≡ r = cc (subst (λ k. cell k s.cells ≡ some q) one found) in
        cc (ap (λ k. k.settled) same)
    | inr other ↦ rw new (cell-set_other m n _ s.cells other)
  ]
]

Extends : Store → Store → Type 0
Extends s t = (t.cells ≡ s.cells) ⊎ ((q : RelayRecord) × (t.cells ≡ q ∷ s.cells))

Extends-loads :
    (serial lock_id : Bytes) (s : Store) (o : Option ℕ)
    → Extends s (loaded_or_stored serial lock_id s o).1
unfolding Extends loaded_or_stored
Extends-loads serial lock_id s none = inr (_, refl)
Extends-loads serial lock_id s (some n) = inl refl

Extends-swaps :
    (serial lock_id : Bytes) (old : ℕ) (s : Store)
    → Extends s (compare_and_swap serial lock_id old s).1
unfolding Extends compare_and_swap
Extends-swaps serial lock_id old s = elim (Bool-cases (same_cell (lookup serial s.locks) old)) [
  | inl mine ↦ rw mine (inr (_, refl))
  | inr other ↦ rw other (inl refl)
]

IsSettled-Extends :
    {n : ℕ} {x : Option (List Bytes)} (s t : Store)
    → Extends s t
    → IsSettled n x s
    → IsSettled n x t
unfolding Extends
IsSettled-Extends {n} s t (inl e) i = IsSettled-cell s t (ap (cell n) e) i
IsSettled-Extends {n} s t (inr (q, e)) i =
    IsSettled-cell s t (ap (cell n) e ∙ cell-cons n q s.cells (lt-cell n s.cells i.there)) i

IsSettled-settle_replaced :
    {n : ℕ} {x : Option (List Bytes)} (o : Option ℕ) (s : Store)
    → IsSettled n x s
    → IsSettled n x (settle_replaced o s)
unfolding settle_replaced once_do
IsSettled-settle_replaced none s i = i
IsSettled-settle_replaced {n} (some m) s i =
    IsSettled-cell s _ (cell-once_at m n _ s _ refl i.there i.settled) i

step-IsSettled :
    {n : ℕ} {x : Option (List Bytes)} (a : Step) (s : Store)
    → IsSettled n x s
    → IsSettled n x (step a s)
unfolding step take_snapshot settled_snapshot once_do load_or_store
step-IsSettled {n} (lists m answer) s i =
    IsSettled-settle_replaced _ _
      (IsSettled-cell s _ (cell-once_at m n _ s _ refl i.there i.settled) i)
step-IsSettled {n} (settles m) s i =
    IsSettled-cell s _ (cell-once_at m n _ s _ refl i.there i.settled) i
step-IsSettled {n} {x} (deletes serial m) s i =
    elim (Bool-cases (same_cell (lookup serial s.locks) m)) [
      | inl mine ↦ rw mine (IsSettled-cell s _ refl i)
      | inr other ↦ rw other i
    ]
step-IsSettled (loads serial lock_id) s i =
    IsSettled-Extends s _ (Extends-loads serial lock_id s (lookup serial s.locks)) i
step-IsSettled (swaps serial lock_id old) s i =
    IsSettled-Extends s _ (Extends-swaps serial lock_id old s) i

steps-IsSettled :
    {n : ℕ} {x : Option (List Bytes)} (acts : List Step) (s : Store)
    → IsSettled n x s
    → IsSettled n x (steps acts s)
unfolding steps
steps-IsSettled [] s i = i
steps-IsSettled (a ∷ acts) s i = steps-IsSettled acts (step a s) (step-IsSettled a s i)

cell-IsSettled :
    (n : ℕ) (s : Store) (o : Option RelayRecord)
    → cell n s.cells ≡ o
    → n < length s.cells
    → let t = once_at n (λ r. r) s o in IsSettled n (snapshot_at (cell n t.cells)) t
unfolding once_at snapshot_at
cell-IsSettled n s none found h = let (r, there) = cell_there n s.cells h in absurd (cc there)
cell-IsSettled n s (some q) found h = elim (Bool-cases q.settled) [
  | inl old ↦
      rw old (record { at = q; there = found; settled = old; same = sym (ap snapshot_at found) })
  | inr new ↦
      let now = cell-set_self n (record q { settled = true }) s.cells h in
      rw new (record { at = _; there = now; settled = refl; same = sym (ap snapshot_at now) })
]

settled_snapshot-IsSettled :
    (n : ℕ) (s : Store)
    → n < length s.cells
    → IsSettled n (settled_snapshot n s).0 (settled_snapshot n s).1
unfolding settled_snapshot once_do
settled_snapshot-IsSettled n s h = cell-IsSettled n s (cell n s.cells) refl h

of_settled :
    (n : ℕ) (x : Option (List Bytes)) (s : Store) → IsSettled n x s → (settled_snapshot n s).0 ≡ x
unfolding settled_snapshot once_do
of_settled n x s i =
    ap snapshot_at (cell-once_at n n (λ r. r) s _ refl i.there i.settled ∙ i.there) ∙ i.same

-- What a reset reads as a relayed phone's packages before its lock never changes: whatever relays
-- and resets do after a record is settled, settledSnapshot of the record, which was made by then,
-- gives the same, so no listing made after the reset has begun is taken for the phone's state
-- before the lock.
pub settled_snapshot-steps :
    (n : ℕ) (s : Store) (acts : List Step)
    → n < length s.cells
    → (settled_snapshot n (steps acts (settled_snapshot n s).1)).0 ≡ (settled_snapshot n s).0
settled_snapshot-steps n s acts h =
    of_settled n _ _
      (steps-IsSettled acts (settled_snapshot n s).1 (settled_snapshot-IsSettled n s h))
