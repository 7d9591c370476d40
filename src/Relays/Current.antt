-- ===== src/Relays/Current.antt =====
-- The record that a relay goes on with (`relayRecordFor`, internal/proxy/relay.go).
use sair.Base.{
  ℕ, ◌≡◌, refl, inl, inr, true, false, Option, none, some, List, [], ◌∷◌, ==_iff, Bool-cases,
  length,
}
use sair.Text.{Bytes, str_eq, str_eq_refl}
use sair.Devices.Tracker.{lookup, store}
use sair.Relays.Records.{
  RelayRecord, Store, cell, fresh, same_cell, loaded_or_stored, load_or_store, compare_and_swap,
  names_lock, swapped, relay_round, relay_record_for,
}

lookup_stored : (k : Bytes) (n : ℕ) (xs : List (Bytes × ℕ)) → lookup k (store k n xs) ≡ some n
unfolding lookup store
lookup_stored k n [] = rw (str_eq_refl k) refl
lookup_stored k n ((j, m) ∷ xs) = elim (Bool-cases (str_eq j k)) [
  | inl mine ↦ rw mine (rw (str_eq_refl k) refl)
  | inr other ↦ rw other (rw other (lookup_stored k n xs))
]

newest : (q : RelayRecord) (cs : List RelayRecord) → cell (length cs) (q ∷ cs) ≡ some q
unfolding cell
newest q cs = rw ((==_iff (length cs) (length cs)).1 refl) refl

-- The record is the one that the map has for the phone, and it is the lock's.
pub record IsCurrent (serial lock_id : Bytes) (r : ℕ × Store) : Type 0 where
  pub in_map : lookup serial r.1.locks ≡ some r.0
  pub names : names_lock lock_id (cell r.0 r.1.cells) ≡ true

-- A fresh record, as `LoadOrStore` or `CompareAndSwap` put it into the map.
fresh-IsCurrent :
    (serial lock_id : Bytes) (prev : Option ℕ) (s : Store)
    → IsCurrent serial lock_id (
      length s.cells,
      record s {
        cells = fresh lock_id prev ∷ s.cells;
        locks = store serial (length s.cells) s.locks;
      },
    )
unfolding names_lock
fresh-IsCurrent serial lock_id prev s = record {
  in_map = lookup_stored serial (length s.cells) s.locks;
  names = rw (newest (fresh lock_id prev) s.cells) (str_eq_refl lock_id);
}

swapped-IsCurrent :
    (serial lock_id : Bytes) (n : ℕ) (t : Store) (again : Store → ℕ × Store)
    → (same_cell (lookup serial t.locks) n ≡ false → IsCurrent serial lock_id (again t))
    → IsCurrent serial lock_id (swapped (compare_and_swap serial lock_id n t) again)
unfolding swapped compare_and_swap
swapped-IsCurrent serial lock_id n t again ih =
    elim (Bool-cases (same_cell (lookup serial t.locks) n)) [
      | inl still ↦ rw still (fresh-IsCurrent serial lock_id (some n) t)
      | inr lost ↦ rw lost (ih lost)
    ]

round-IsCurrent :
    (act : Store → Store) (again : Store → ℕ × Store) (serial lock_id : Bytes) (s : Store)
    (o : Option ℕ)
    → lookup serial s.locks ≡ o
    → ((n : ℕ)
        → lookup serial s.locks ≡ some n
        → same_cell (lookup serial (act s).locks) n ≡ false
        → IsCurrent serial lock_id (again (act s)))
    → IsCurrent serial lock_id
        (relay_round act again serial lock_id (loaded_or_stored serial lock_id s o))
unfolding relay_round loaded_or_stored
round-IsCurrent act again serial lock_id s none e ih = fresh-IsCurrent serial lock_id none s
round-IsCurrent act again serial lock_id s (some n) e ih =
    elim (Bool-cases (names_lock lock_id (cell n s.cells))) [
      | inl ours ↦ rw ours (record { in_map = e; names = ours })
      | inr theirs ↦ rw theirs (swapped-IsCurrent serial lock_id n (act s) again (ih n e))
    ]

alone :
    (serial : Bytes) (s : Store) (n : ℕ)
    → lookup serial s.locks ≡ some n
    → same_cell (lookup serial s.locks) n ≡ true
unfolding same_cell
alone serial s n e = rw e ((==_iff n n).1 refl)

-- The record that a stream is given is the one in the map, and it names the lock.
pub relay_record_for-IsCurrent :
    (others : List (Store → Store)) (serial lock_id : Bytes) (s : Store)
    → IsCurrent serial lock_id (relay_record_for others serial lock_id s)
unfolding relay_record_for load_or_store
relay_record_for-IsCurrent [] serial lock_id s =
    round-IsCurrent _ _ serial lock_id s _ refl (λ n e lost. absurd (cc (alone serial s n e)))
relay_record_for-IsCurrent (act ∷ acts) serial lock_id s =
    round-IsCurrent act _ serial lock_id s _ refl
      (λ n e lost. relay_record_for-IsCurrent acts serial lock_id (act s))
