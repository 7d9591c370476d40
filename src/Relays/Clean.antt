-- ===== src/Relays/Clean.antt =====
-- What a relayed connection's client sees (internal/proxy/relay.go, internal/proxy/adb_connection.go),
-- and what stands before its device is opened.
use sair.Base.{ℕ, suc, ◌≡◌, ◌⊎◌, Bool, true, false, List, [], ◌∷◌, ◌++◌, if◌then◌else◌}
use sair.Relays.Holder.{Act, pumps, writes_fail}
use sair.Relays.Owner.{Deed}

abbrev pub is_pump : Act → Bool
is_pump pumps = true
is_pump a = false

abbrev pub is_fail : Act → Bool
is_fail (writes_fail text) = true
is_fail a = false

unfoldable pub count_of : {A : Type 0} → (A → Bool) → List A → ℕ
count_of p [] = 0
count_of p (x ∷ xs) = let rest = count_of p xs in if p x then suc rest else rest

-- The ends that a relay may come to: relay_failed, a FAIL in the tunnel, or the pump.
abbrev pub is_end : Deed → Bool
is_end (Deed.reports e) = true
is_end (Deed.fails_in_band e) = true
is_end Deed.pumps = true
is_end d = false

abbrev pub is_opening : Deed → Bool
is_opening Deed.opens_device = true
is_opening d = false

abbrev to_open : List Deed
to_open = Deed.opens_forward ∷ Deed.opens_device ∷ []

abbrev to_alive : List Deed
to_alive = Deed.checks_tunnel ∷ to_open

abbrev to_dial : List Deed
to_dial = Deed.dials_source ∷ Deed.takes_snapshot ∷ to_alive

abbrev to_join : List Deed
to_join = Deed.joins ∷ Deed.waits_reset ∷ Deed.checks_tunnel ∷ to_dial

-- What is done before a device is opened, and its opening.
abbrev pub prepared : List Deed
prepared = Deed.keeps_record ∷ Deed.opens_tunnel ∷ to_join

-- A device is not opened, or once and behind all of `before`.
abbrev pub OpensAfter : List Deed → List Deed → Type 0
OpensAfter before deeds =
    (count_of is_opening deeds ≡ 0)
    ⊎ ((rest : List Deed) × (deeds ≡ before ++ rest) × (count_of is_opening rest ≡ 0))

pub record IsOrderly (deeds : List Deed) : Type 0 where
  pub one_end : count_of is_end deeds ≡ 1
  pub late : OpensAfter prepared deeds
