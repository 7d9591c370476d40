-- ===== src/Source/Kept.antt =====
-- What a reset of a phone's packages leaves alone (internal/devicesource/packages.go).
use sair.Base.{
  ◌∙◌, All, ◌++◌, map, ◌≢◌, ◌⊎◌, inl, inr, ◌≡◌, refl, ap, Bool, true, false, not, Option, none,
  some, List, [], ◌∷◌, is_some,
}
use sair.Text.{cut_prefix, cut_prefix-eq_some, str_eq, str_eq_iff, Bytes, utf8}
use sair.Result.{ok, err}
use sair.Lines.{member, nonempty, trim_space, lines_of}
use sair.Ports.Device.{is_none}
use sair.Source.Shell.{
  Command, list_packages_whole, listing_end, list_suggestions, uninstall, force_stop, clear_data,
  text_of, Trace, Env, M, ◌>>=◌, pure, rpc, internal, Answer, run_shell, after, and_then,
}
use sair.Source.Serial.{Filter, check_serial}
use sair.Source.Packages.{
  Baseline, Config, parse_listing, whole, all_packages, named, listed, packages_of,
  complete_listing, uninstall_all, run_each, keep_of, current_packages, name_suggestions,
  remove_packages, reset_kept, reset_packages,
}
use sair.Source.Only.{Only, Only-pure, Only-bind, Only-run, Only-if, Only-cond, Only-then}

-- Not an uninstall of a package that is to be kept.
unfoldable pub spares : List Bytes → Command → Bool
spares keep (uninstall user_0 pkg) = not (member pkg keep)
spares keep c = true

spared :
    (keep : List Bytes) (u : Bool) (p : Bytes)
    → member p keep ≡ false
    → spares keep (uninstall u p) ≡ true
unfolding spares
spared keep u p h = ap not h

module _ (keep : List Bytes) (env : Env) where
  abbrev Spares : {A : Type 0} → M A → Type 0
  Spares m = Only (λ c. spares keep c ≡ true) m

  Spares-uninstall_all :
      (user_0 : Bool) (pkgs : List Bytes) → Spares (uninstall_all env user_0 keep pkgs)
  unfolding uninstall_all
  Spares-uninstall_all user_0 [] = Only-pure _ []
  Spares-uninstall_all user_0 (pkg ∷ pkgs) =
      Only-cond _ (member pkg keep) (λ _. Spares-uninstall_all user_0 pkgs)
        λ h.
          Only-run _ env (uninstall user_0 pkg) (spared keep user_0 pkg h)
            λ a. Only-bind _ _ _ (Spares-uninstall_all user_0 pkgs) λ gone. Only-pure _ _

  Spares-run_each :
      (c : Bytes → Command) (ps : List Bytes)
      → ((p : Bytes) → spares keep (c p) ≡ true)
      → Spares (run_each env c ps)
  unfolding run_each
  Spares-run_each c [] h = Only-pure _ tt
  Spares-run_each c (p ∷ ps) h = Only-run _ env (c p) (h p) λ a. Spares-run_each c ps h

  Spares-name_suggestions :
      (before : Bytes) (gone : List Bytes) → Spares (name_suggestions env before gone)
  unfolding name_suggestions spares
  Spares-name_suggestions before gone =
      Only-if _ _ (Only-pure _ _) (Only-run _ env list_suggestions refl λ a. Only-pure _ _)

  Spares-remove_packages :
      (cfg : Config) (user_0 : Bool) (before : Bytes) (pkgs : List Bytes)
      → Spares (remove_packages env cfg user_0 keep before pkgs)
  unfolding remove_packages spares
  Spares-remove_packages cfg user_0 before pkgs =
      Only-bind _ _ _ (Spares-uninstall_all user_0 pkgs) λ gone.
        Only-bind _ _ _ (Spares-run_each force_stop cfg.stop_packages λ p. refl) λ _.
          Only-bind _ _ _ (Spares-run_each clear_data cfg.clear_packages λ p. refl)
            λ _. Only-bind _ _ _ (Spares-name_suggestions before gone) λ r. Only-pure _ _

  Spares-current_packages : (since : Option (List Bytes)) → Spares (current_packages env since)
  unfolding current_packages complete_listing spares
  Spares-current_packages none = Only-run _ env _ refl λ a. Only-pure _ _
  Spares-current_packages (some since) = Only-run _ env _ refl λ a. Only-pure _ _

  Spares-reset_kept :
      (cfg : Config) (since : Option (List Bytes)) → Spares (reset_kept env cfg since (some keep))
  unfolding reset_kept spares
  Spares-reset_kept cfg since = Only-run _ env list_suggestions refl λ before.
      Only-then _ _ _ (Spares-current_packages since)
        λ pkgs. Spares-remove_packages cfg (is_some since) before.out pkgs

-- A reset of a phone's packages never uninstalls one that it is to keep: of the snapshot that the
-- request carries, or without one of the baseline.
pub reset_packages-Spares :
    (env : Env) (f : Filter) (cfg : Config) (b : Baseline) (serial : Bytes)
    (since : Option (List Bytes)) (keep : List Bytes)
    → keep_of since b ≡ some keep
    → Only (λ c. spares keep c ≡ true) (reset_packages env f cfg b serial since)
unfolding reset_packages
reset_packages-Spares env f cfg b serial since keep h =
    Only-then _ _ _ (Only-pure _ _) λ _. rw h (Spares-reset_kept keep env cfg since)

abbrev package_line : Bytes → Bytes
package_line name = utf8 "package:" ++ name

-- A listing that is whole: its lines, but for blank ones, name a package each, and the last is the end
-- that the command line prints behind them.
unfoldable pub IsComplete : Bytes → Type 0
IsComplete out =
    (names : List Bytes) × All (λ name. name ≢ []) names
    × (nonempty (map trim_space (lines_of out)) ≡ map package_line names ++ (listing_end ∷ []))

only : {xs ys : List Bytes} → some xs ≡ some ys → xs ≡ ys
only h = cc h

whole-ends : (ls ns : List Bytes) → whole ls ≡ some ns → ls ≡ ns ++ (listing_end ∷ [])
unfolding whole
whole-ends [] ns h = cc h
whole-ends (l ∷ []) ns h = last _ refl h
  where
    last :
        (t : Bool)
        → str_eq l listing_end ≡ t
        → (elim t [ true ↦ some [] | false ↦ none ]) ≡ some ns
        → l ∷ [] ≡ ns ++ (listing_end ∷ [])
    last true e h =
        ap (λ x. x ∷ []) ((str_eq_iff l listing_end).0 e)
        ∙ ap (λ n. n ++ (listing_end ∷ [])) (only h)
    last false e h = cc h
whole-ends (l ∷ l' ∷ ls) ns h = longer (λ rest. whole-ends (l' ∷ ls) rest) _ refl h
  where
    longer :
        ((rest : List Bytes) → whole (l' ∷ ls) ≡ some rest → l' ∷ ls ≡ rest ++ (listing_end ∷ []))
        → (r : Option (List Bytes)) → whole (l' ∷ ls) ≡ r
        → (elim r [ none ↦ none | some rest ↦ some (l ∷ rest) ]) ≡ some ns
        → l ∷ l' ∷ ls ≡ ns ++ (listing_end ∷ [])
    longer ih none e h = cc h
    longer ih (some rest) e h =
        ap (λ x. l ∷ x) (ih rest e) ∙ ap (λ n. n ++ (listing_end ∷ [])) (only h)

all_packages-names :
    (ls ps : List Bytes)
    → all_packages ls ≡ some ps
    → (names : List Bytes) × All (λ name. name ≢ []) names × (ls ≡ map package_line names)
unfolding all_packages named
all_packages-names [] ps h = ([], tt, refl)
all_packages-names (l ∷ ls) ps h = names_in (λ qs. all_packages-names ls qs) _ _ refl refl h
  where
    names_in :
        ((qs : List Bytes)
          → all_packages ls ≡ some qs
          → (names : List Bytes) × All (λ name. name ≢ []) names × (ls ≡ map package_line names))
        → (c : Option Bytes) (r : Option (List Bytes)) → cut_prefix l (utf8 "package:") ≡ c
        → all_packages ls ≡ r
        → named c r ≡ some ps
        → (names : List Bytes) × All (λ name. name ≢ []) names × (l ∷ ls ≡ map package_line names)
    names_in ih none none e e' h = cc h
    names_in ih none (some qs) e e' h = cc h
    names_in ih (some []) none e e' h = cc h
    names_in ih (some []) (some qs) e e' h = cc h
    names_in ih (some (x ∷ name)) none e e' h = cc h
    names_in ih (some (x ∷ name)) (some qs) e e' h =
        let (names, nonblank, lines) = ih qs e' in
        (
          (x ∷ name) ∷ names,
          (λ z. cc z, nonblank),
          ap (λ y. y ∷ ls) (cut_prefix-eq_some l (utf8 "package:") e)
              ∙ ap (λ y. package_line (x ∷ name) ∷ y) lines,
        )

parse_listing-cases :
    (a : Answer)
    → (parse_listing a ≡ err (rpc internal [])) ⊎ (is_none a.error ≡ true × IsComplete a.out)
unfolding parse_listing listed packages_of IsComplete
parse_listing-cases a = by_error _ refl
  where
    ls : List Bytes
    ls = nonempty (map trim_space (lines_of a.out))

    Cases : Type 0
    Cases = (parse_listing a ≡ err (rpc internal [])) ⊎ (is_none a.error ≡ true × IsComplete a.out)

    by_packages :
        (ns : List Bytes) (p : Option (List Bytes))
        → a.error ≡ none
        → whole ls ≡ some ns
        → all_packages ns ≡ p
        → Cases
    by_packages ns none ea ew ep = inl (rw (ea, ew, ep) refl)
    by_packages ns (some ps) ea ew ep =
        let (names, nonblank, lines) = all_packages-names ns ps ep in
        inr (
          ap is_none ea,
          (names, nonblank, whole-ends ls ns ew ∙ ap (λ n. n ++ (listing_end ∷ [])) lines),
        )

    by_lines : (w : Option (List Bytes)) → a.error ≡ none → whole ls ≡ w → Cases
    by_lines none ea ew = inl (rw (ea, ew) refl)
    by_lines (some ns) ea ew = by_packages ns _ ea ew refl

    by_error : (e : Option Bytes) → a.error ≡ e → Cases
    by_error (some e) ea = inl (rw ea refl)
    by_error none ea = by_lines _ ea refl

-- A reset against a snapshot whose listing is not whole, for a serial that is managed, fails and
-- uninstalls nothing: it has asked for the suggestions and the listing, and has run nothing else.
-- A listing is whole if the shell did not fail, every line but the last, leaving out blank ones,
-- names a package, and the last is the end that the command line prints behind them.
pub reset_packages-needs_listing :
    (env : Env) (f : Filter) (cfg : Config) (b : Baseline) (serial : Bytes) (since : List Bytes)
    (t : Trace)
    → check_serial f serial ≡ ok tt
    → let a = env.shell (list_suggestions ∷ t) (text_of (list_packages_whole (utf8 "-3"))) in
      ¬ (is_none a.error ≡ true × IsComplete a.out)
      → reset_packages env f cfg b serial (some since) t
        ≡ (err (rpc internal []), list_packages_whole (utf8 "-3") ∷ list_suggestions ∷ t)
unfolding reset_packages reset_kept current_packages complete_listing and_then after ◌>>=◌ pure
    run_shell keep_of
reset_packages-needs_listing env f cfg b serial since t checked cut_short =
    elim (parse_listing-cases
      (env.shell (list_suggestions ∷ t) (text_of (list_packages_whole (utf8 "-3"))))) [
        | inl h ↦ rw (checked, h) refl
        | inr fine ↦ absurd (cut_short fine)
      ]
