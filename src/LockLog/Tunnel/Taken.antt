-- ===== src/LockLog/Tunnel/Taken.antt =====
-- What a drain takes of a request that still runs (`take` of internal/proxy/lock_log.go).
use sair.Base.{
  ◌≡◌, refl, ◌⊎◌, inl, inr, true, false, [], ◌∷◌, ◌++◌, ℕ, take, take-append-drop, Bool-cases,
}
use sair.Text.{Bytes}
use sair.LockLog.Utf8.{is_valid}
use sair.LockLog.Tunnel.{Observer, take_piece, binary_output_marker, take_text, dropped_note}

-- The piece and what the observer keeps are what it had; or they are not text, then the piece is the
-- marker, nothing is kept, and the request is binary from then on.
unfoldable pub IsTaken : Observer → Observer → Bytes → Type 0
IsTaken o o' piece =
    (o'.id ≡ o.id)
    × ((piece ++ o'.buf ≡ o.buf)
        ⊎ ((piece ≡ binary_output_marker) × (o'.buf ≡ []) × (o'.binary ≡ true)))

take_text-IsTaken : (o : Observer) (cut : ℕ) → IsTaken o (take_text o cut).1 (take_text o cut).0
unfolding take_text IsTaken
take_text-IsTaken o cut = elim (Bool-cases (is_valid (take cut o.buf))) [
  | inl text ↦ rw text (refl, inl (take-append-drop cut o.buf))
  | inr other ↦ rw other (refl, inr (refl, refl, refl))
]

pub take_piece-IsTaken :
    (most : ℕ) (o : Observer) → IsTaken o (take_piece most false o).1 (take_piece most false o).0
unfolding take_piece dropped_note IsTaken
take_piece-IsTaken most o = by_buf o.buf refl
  where
    by_buf :
        (s : Bytes) → o.buf ≡ s → IsTaken o (take_piece most false o).1 (take_piece most false o).0
    by_buf [] e = rw e (refl, inl refl)
    by_buf (b ∷ bs) e = rw e (take_text-IsTaken _ _)
