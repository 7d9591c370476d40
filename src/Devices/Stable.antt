-- ===== src/Devices/Stable.antt =====
-- internal/proxy/device_tracker.go: a device keeps its transport id for as long as it is reported.
use sair.Base.{
  ℕ, ◌≡◌, refl, sym, ◌∙◌, subst, inl, inr, Bool, true, false, Option, none, some, List, [], ◌∷◌,
  ◌++◌, arith, if◌then◌else◌, Bool-cases, any_of,
}
use sair.Text.{Bytes, str_eq, str_eq_iff}
use sair.Devices.Tracker.{
  Device, Tracker, lookup, assign_id, assign_ids, keep_keys, serials_of, all_devices, rebuild,
}

lookup-append :
    (k : Bytes) (xs ys : List (Bytes × ℕ)) (i : ℕ)
    → lookup k xs ≡ some i
    → lookup k (xs ++ ys) ≡ some i
unfolding lookup
lookup-append k [] ys i h = cc h
lookup-append k ((k', a) ∷ xs) ys i h = elim (Bool-cases (str_eq k' k)) [
  | inl e ↦ ground (arith, e, h)
  | inr e ↦ rw e (lookup-append k xs ys i (ground (arith, e, h)))
]

assign_id-keeps :
    (k serial : Bytes) (o : Option ℕ) (ids : List (Bytes × ℕ)) (next i : ℕ)
    → lookup k ids ≡ some i
    → lookup k (assign_id serial o ids next).0 ≡ some i
unfolding assign_id
assign_id-keeps k serial (some j) ids next i h = h
assign_id-keeps k serial none ids next i h = lookup-append k ids _ i h

assign_ids-keeps :
    (k : Bytes) (ds : List Device) (ids : List (Bytes × ℕ)) (next i : ℕ)
    → lookup k ids ≡ some i
    → lookup k (assign_ids ds ids next).0 ≡ some i
unfolding assign_ids
assign_ids-keeps k [] ids next i h = h
assign_ids-keeps k (d ∷ ds) ids next i h =
    assign_ids-keeps k ds _ _ i (assign_id-keeps k d.serial (lookup d.serial ids) ids next i h)

same_key :
    (k k' : Bytes) (serials : List Bytes) (t : Bool)
    → str_eq k' k ≡ true
    → any_of (str_eq k) serials ≡ t
    → any_of (str_eq k') serials ≡ t
same_key k k' serials t e h =
    subst (λ u. any_of (str_eq u) serials ≡ t) (sym ((str_eq_iff k' k).0 e)) h

lookup-keep_keys :
    (k : Bytes) (serials : List Bytes) (xs : List (Bytes × ℕ))
    → any_of (str_eq k) serials ≡ true
    → lookup k (keep_keys serials xs) ≡ lookup k xs
unfolding lookup keep_keys
lookup-keep_keys k serials [] h = refl
lookup-keep_keys k serials ((k', a) ∷ xs) h = elim (Bool-cases (str_eq k' k)) [
  | inl e ↦ ground (arith, e, same_key k k' serials true e h)
  | inr e ↦ elim (Bool-cases (any_of (str_eq k') serials)) [
    | inl u ↦ ground (arith, e, u, lookup-keep_keys k serials xs h)
    | inr u ↦ ground (arith, e, u, lookup-keep_keys k serials xs h)
  ]
]

lookup-keep_keys_gone :
    (k : Bytes) (serials : List Bytes) (xs : List (Bytes × ℕ))
    → any_of (str_eq k) serials ≡ false
    → lookup k (keep_keys serials xs) ≡ none
unfolding lookup keep_keys
lookup-keep_keys_gone k serials [] h = refl
lookup-keep_keys_gone k serials ((k', a) ∷ xs) h = elim (Bool-cases (str_eq k' k)) [
  | inl e ↦ ground (arith, e, same_key k k' serials false e h, lookup-keep_keys_gone k serials xs h)
  | inr e ↦ elim (Bool-cases (any_of (str_eq k') serials)) [
    | inl u ↦ ground (arith, e, u, lookup-keep_keys_gone k serials xs h)
    | inr u ↦ ground (arith, e, u, lookup-keep_keys_gone k serials xs h)
  ]
]

-- A merge of the sources' reports leaves a device that has a transport id its id if a source
-- still reports it, and none otherwise.
pub rebuild-keeps_id :
    (t : Tracker) (serial : Bytes) (i : ℕ)
    → lookup serial t.transport_ids ≡ some i
    → let present = any_of (str_eq serial) (serials_of (all_devices t.sources)) in
      lookup serial (rebuild t).transport_ids ≡ (if present then some i else none)
unfolding rebuild
rebuild-keeps_id t serial i h =
    elim (Bool-cases (any_of (str_eq serial) (serials_of (all_devices t.sources)))) [
      | inl e ↦ rw e (lookup-keep_keys serial _ _ e ∙ assign_ids-keeps serial _ _ _ i h)
      | inr e ↦ rw e (lookup-keep_keys_gone serial _ _ e)
    ]
