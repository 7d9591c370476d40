-- ===== src/Ports/Branch.antt =====
-- The conditional of the monadic code, shut, so that a lemma about both branches applies to it.
use sair.Base.{Bool, true, false}

infix 1 if◌then◌else◌
unfoldable pub if◌then◌else◌ : {A : Type 0} → Bool → A → A → A
if true then x else y = x
if false then x else y = y
