-- ===== src/LockLog/Drained.antt =====
-- Draining loses nothing, repeats nothing and keeps the order (`drain`).
use sair.Base.{
  ℕ, suc, ◌+◌, ◌≤◌, ◌≡◌, refl, ap, ◌≢◌, ◌⊎◌, inl, inr, Bool, true, false, ◌&&◌, List, [], ◌∷◌, ◌++◌,
  arith, ltb, if◌then◌else◌, Bool-cases, length,
}
use sair.LockLog.Entries.{Entry, size_of, total_of, total_of-append}
use sair.LockLog.{LockLog, take_pending, take_live, drain}
use sair.LockLog.Tunnel.{Observer}

abbrev pub Taken : ℕ → ℕ → Bool → List Entry → List Entry × List Entry → Type 0
Taken budget spent any es r =
    (r.0 ++ r.1 ≡ es)
    × ((r.0 ≡ []) ⊎ (spent + total_of r.0 ≤ budget) ⊎ ((any ≡ false) × (length r.0 ≡ 1)))
    × (any ≡ false → es ≢ [] → r.0 ≢ [])

pub take_pending-Taken :
    (budget spent : ℕ) (any : Bool) (es : List Entry)
    → Taken budget spent any es (take_pending budget spent any es)
unfolding take_pending
take_pending-Taken budget spent any [] = (refl, inl refl, λ _ h. h)
take_pending-Taken budget spent any (e ∷ es) =
    let ih = take_pending-Taken budget (spent + size_of e) true es in
    elim (Bool-cases (ltb budget (spent + size_of e) && any)) [
      | inl stop ↦ rw stop (refl, inl refl, λ f _. cc (any_false stop f))
      | inr go ↦ rw go (ap (◌∷◌ e) ih.0, within go ih.1, λ _ _ h. cc h)
    ]
  where
    rest : List Entry
    rest = (take_pending budget (spent + size_of e) true es).0

    any_false : (ltb budget (spent + size_of e) && any) ≡ true → any ≡ false → true ≡ false
    any_false h f = ground arith

    within :
        (ltb budget (spent + size_of e) && any) ≡ false
        → (rest ≡ [])
          ⊎ (spent + size_of e + total_of rest ≤ budget)
          ⊎ ((true ≡ false) × (length rest ≡ 1))
        → (e ∷ rest ≡ [])
          ⊎ (spent + (size_of e + total_of rest) ≤ budget)
          ⊎ ((any ≡ false) × (suc (length rest) ≡ 1))
    within go (inl h) = elim (Bool-cases (ltb budget (spent + size_of e))) [
      | inl over ↦ inr (inr (ground arith, ap (λ r. suc (length r)) h))
      | inr fits ↦ inr (inl (rw h (ground arith)))
    ]
    within go (inr (inl h)) = inr (inl (omega arith))
    within go (inr (inr h)) = cc h.0

-- The log's count of pending bytes is exact, so the source's subtraction never goes below zero.
pub record IsCounted (l : LockLog) : Type 0 where
  pub counted : l.pending_bytes ≡ total_of l.pending

pub drain-splits :
    (budget : ℕ) (live : Bool) (l : LockLog)
    → let r = drain budget live l in
      (taken : List Entry) × (out : List Entry) × (r.0 ≡ taken ++ out)
      × (taken ++ r.1.pending ≡ l.pending)
      × ((taken ≡ []) ⊎ (total_of taken ≤ budget) ⊎ (length taken ≡ 1))
      × (l.pending ≢ [] → taken ≢ [])
      × (live ≡ false → (out ≡ []) × (r.1.open_requests ≡ l.open_requests))
unfolding drain
drain-splits budget live l =
    let t = take_pending-Taken budget 0 false l.pending in
    let p = take_pending budget 0 false l.pending in
    (p.0, (live_part live p.0).0, refl, t.0, size t.1, t.2 refl, quiet live)
  where
    live_part : Bool → List Entry → List Entry × List Observer
    live_part b taken =
        if b then take_live budget (total_of taken) l.open_requests else ([], l.open_requests)

    size :
        {r : List Entry}
        → (r ≡ []) ⊎ (0 + total_of r ≤ budget) ⊎ ((false ≡ false) × (length r ≡ 1))
        → (r ≡ []) ⊎ (total_of r ≤ budget) ⊎ (length r ≡ 1)
    size (inl h) = inl h
    size (inr (inl h)) = inr (inl (omega arith))
    size (inr (inr h)) = inr (inr h.1)

    quiet :
        (b : Bool)
        → b ≡ false
        → ((live_part b (take_pending budget 0 false l.pending).0).0 ≡ [])
          × ((live_part b (take_pending budget 0 false l.pending).0).1 ≡ l.open_requests)
    quiet true h = cc
    quiet false h = (refl, refl)

pub drain-IsCounted :
    (budget : ℕ) (live : Bool) (l : LockLog) → IsCounted l → IsCounted (drain budget live l).1
unfolding drain
drain-IsCounted budget live l c =
    let t = take_pending-Taken budget 0 false l.pending in
    let p = take_pending budget 0 false l.pending in
    record { counted = omega (arith, c.counted, ap total_of t.0, total_of-append p.0 p.1) }

-- A drain hands out a first part of what is pending, in order, and keeps the rest; behind it may
-- stand live output. It hands out one entry at least where one is pending, and no more output of
-- the pending entries than the budget unless the first entry alone is larger.
pub drain-hands_out :
    (budget : ℕ) (live : Bool) (l : LockLog)
    → let r = drain budget live l in
      (taken : List Entry) × (out : List Entry) × (r.0 ≡ taken ++ out)
      × (taken ++ r.1.pending ≡ l.pending)
      × ((taken ≡ []) ⊎ (total_of taken ≤ budget) ⊎ (length taken ≡ 1))
      × ((l.pending ≡ []) ⊎ (taken ≢ []))
drain-hands_out budget live l =
    let (taken, out, e, split, small, progress, quiet) = drain-splits budget live l in
    (taken, out, e, split, small, nonempty l.pending taken progress)
  where
    nonempty : (es taken : List Entry) → (es ≢ [] → taken ≢ []) → (es ≡ []) ⊎ (taken ≢ [])
    nonempty [] taken h = inl refl
    nonempty (x ∷ es) taken h = inr (h λ e. cc e)
