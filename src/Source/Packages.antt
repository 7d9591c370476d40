-- ===== src/Source/Packages.antt =====
-- internal/devicesource/packages.go: the baseline, the listings, and the reset of a phone's packages.
-- The texts of the errors are left out.
use sair.Base.{Bool, true, false, not, ◌&&◌, ◌||◌, Option, none, some, List, [], ◌∷◌, map, is_some}
use sair.Text.{Bytes, utf8, str_eq, cut_prefix, has_prefix, trim_suffix}
use sair.Result.{Result, ok, err}
use sair.Ports.Branch.{if◌then◌else◌}
use sair.Lines.{
  lines_of, split_at, trim_space, nonempty, cut, before_of, after_of, member, insert, set_of,
}
use sair.Source.Shell.{
  Command, list_packages, list_packages_whole, list_instrumentation, list_suggestions, uninstall,
  force_stop, clear_data, listing_end, Answer, Env, M, ◌>>=◌, ◌>>◌, pure, internal,
  failed_precondition, Fault, rpc, run_shell, output_of, and_then, fail_with,
}
use sair.Source.Serial.{Filter, check_serial}

package_name : Option Bytes → List Bytes → List Bytes
package_name none ps = ps
package_name (some []) ps = ps
package_name (some (b ∷ name)) ps = insert (b ∷ name) ps

packages_in : List Bytes → List Bytes
unfolding package_name
packages_in [] = []
packages_in (l ∷ ls) = package_name (cut_prefix (trim_space l) (utf8 "package:")) (packages_in ls)

-- `parsePackages`.
unfoldable pub parse_packages : Bytes → List Bytes
unfolding packages_in
parse_packages out = packages_in (lines_of out)

-- One line of `pm list instrumentation`: the test package and its target, if both are installed and
-- differ.
instrumented : List Bytes → Option Bytes → List Bytes → List Bytes
instrumented installed none ps = ps
instrumented installed (some rest) ps =
    let pkg = before_of rest (cut rest (utf8 "/")) in
    let target = trim_suffix (trim_space (after_of (cut rest (utf8 "(target=")))) (utf8 ")") in
    if str_eq pkg []
      || str_eq target []
      || str_eq pkg target
      || not (member pkg installed)
      || not (member target installed)
    then ps
    else insert pkg (insert target ps)

instrumented_in : List Bytes → List Bytes → List Bytes
unfolding instrumented
instrumented_in installed [] = []
instrumented_in installed (l ∷ ls) =
    instrumented installed (cut_prefix (trim_space l) (utf8 "instrumentation:"))
      (instrumented_in installed ls)

-- `instrumentationPackages`.
unfoldable pub instrumentation_packages : Bytes → List Bytes → List Bytes
unfolding instrumented_in
instrumentation_packages out installed = instrumented_in installed (lines_of out)

-- One phone's entries of the server's maps; `baseline_override` is the same for all phones.
pub record Baseline : Type 0 where
  pub baseline_override : Option (List Bytes)
  pub recorded : Option (List Bytes)
  pub warned : Bool

unfoldable pub baseline_for : Baseline → Option (List Bytes)
baseline_for b = elim b.baseline_override [ none ↦ b.recorded | some ps ↦ some ps ]

unfoldable pub without : List Bytes → List Bytes → List Bytes
without ps [] = []
without ps (x ∷ xs) = let rest = without ps xs in if member x ps then rest else x ∷ rest

excluding : List Bytes → Result Fault Bytes → List Bytes
unfolding without instrumentation_packages
excluding pkgs (ok out) = without (instrumentation_packages out pkgs) pkgs
excluding pkgs (err e) = pkgs

take_baseline : Env → Baseline → Result Fault Bytes → M Baseline
unfolding parse_packages excluding
take_baseline env b (err e) = pure (record b { warned = true })
take_baseline env b (ok out) = do
  a ← run_shell env list_instrumentation
  pure (record b { recorded = some (excluding (parse_packages out) (output_of a)) })

-- `recordBaseline`.
unfoldable pub record_baseline : Env → Baseline → M Baseline
unfolding take_baseline
record_baseline env b =
    if is_some (baseline_for b)
    then pure b
    else do a ← run_shell env (list_packages (utf8 "-3")); take_baseline env b (output_of a)

-- All lines but the last, which must be the listing's end.
unfoldable pub whole : List Bytes → Option (List Bytes)
whole [] = none
whole (l ∷ []) = elim (str_eq l listing_end) [ true ↦ some [] | false ↦ none ]
whole (l ∷ l' ∷ ls) = elim (whole (l' ∷ ls)) [ none ↦ none | some rest ↦ some (l ∷ rest) ]

unfoldable pub named : Option Bytes → Option (List Bytes) → Option (List Bytes)
named (some (b ∷ name)) (some ps) = some (insert (b ∷ name) ps)
named name rest = none

-- The packages that the lines name, if each of them names one.
unfoldable pub all_packages : List Bytes → Option (List Bytes)
unfolding named
all_packages [] = some []
all_packages (l ∷ ls) = named (cut_prefix l (utf8 "package:")) (all_packages ls)

unfoldable pub packages_of : Option (List Bytes) → Result Fault (List Bytes)
packages_of none = err (rpc internal [])
packages_of (some ps) = ok ps

unfoldable pub listed : Option (List Bytes) → Result Fault (List Bytes)
unfolding packages_of
listed none = err (rpc internal [])
listed (some ls) = packages_of (all_packages ls)

-- What `completeListing` makes of the shell's answer.
unfoldable pub parse_listing : Answer → Result Fault (List Bytes)
unfolding listed
parse_listing a = elim a.error [
  | some e ↦ err (rpc internal [])
  | none ↦ listed (whole (nonempty (map trim_space (lines_of a.out))))
]

unfoldable pub complete_listing : Env → Bytes → M (Result Fault (List Bytes))
complete_listing env flag = do a ← run_shell env (list_packages_whole flag); pure (parse_listing a)

-- A blank listing is believed only if system packages can be named.
believe : Env → List Bytes → M (Result Fault (List Bytes))
believe env (p ∷ ps) = pure (ok (p ∷ ps))
believe env [] = and_then (complete_listing env (utf8 "-s")) some_system
  where
    some_system : List Bytes → M (Result Fault (List Bytes))
    some_system [] = fail_with (rpc internal [])
    some_system (p ∷ ps) = pure (ok [])

-- The ListPackages call.
unfoldable pub list_third_party : Env → Filter → Bytes → M (Result Fault (List Bytes))
unfolding believe
list_third_party env f serial =
    and_then (pure (check_serial f serial))
      λ _. and_then (complete_listing env (utf8 "-3")) (believe env)

is_success : Answer → Bool
is_success a = not (is_some a.error) && has_prefix (trim_space a.out) (utf8 "Success")

-- The uninstalls: what went. With `user_0` only the primary user's copy goes.
unfoldable pub uninstall_all : Env → Bool → List Bytes → List Bytes → M (List Bytes)
unfolding is_success
uninstall_all env user_0 keep [] = pure []
uninstall_all env user_0 keep (pkg ∷ pkgs) =
    let rest = uninstall_all env user_0 keep pkgs in
    if member pkg keep then rest else do
      a ← run_shell env (uninstall user_0 pkg)
      gone ← rest
      pure (if is_success a then pkg ∷ gone else gone)

unfoldable pub run_each : Env → (Bytes → Command) → List Bytes → M (Unit {0})
run_each env c [] = pure tt
run_each env c (p ∷ ps) = do a ← run_shell env (c p); run_each env c ps

missing : List Bytes → List Bytes → List Bytes
missing have [] = []
missing have (l ∷ ls) =
    let rest = missing have ls in
    if member (trim_space l) have || str_eq (trim_space l) [] then rest else trim_space l ∷ rest

-- `linesGone`.
unfoldable pub lines_gone : Bytes → Bytes → List Bytes
unfolding missing
lines_gone before now = missing (map trim_space (lines_of now)) (lines_of before)

pub record Config : Type 0 where
  pub stop_packages : List Bytes
  pub clear_packages : List Bytes

pub record Removed : Type 0 where
  pub removed : List Bytes
  pub suggestions_removed : List Bytes

-- `keep`: the snapshot's packages, or without a snapshot the baseline.
unfoldable pub keep_of : Option (List Bytes) → Baseline → Option (List Bytes)
unfolding baseline_for
keep_of (some since) b = some (set_of since)
keep_of none b = baseline_for b

-- `listed`, which with a snapshot must be complete.
unfoldable pub current_packages : Env → Option (List Bytes) → M (Result Fault (List Bytes))
current_packages env (some since) = complete_listing env (utf8 "-3")
current_packages env none = do
  a ← run_shell env (list_packages (utf8 "-3"))
  pure (elim (output_of a) [ ok out ↦ ok (parse_packages out) | err e ↦ err (rpc internal []) ])

-- The suggestions that went, which are asked for only if a package went.
unfoldable pub name_suggestions : Env → Bytes → List Bytes → M Removed
name_suggestions env before gone =
    if str_eq before [] || not (is_some (elim gone [ [] ↦ none | p ∷ ps ↦ some p ]))
    then pure (record { removed = gone; suggestions_removed = [] })
    else do
      a ← run_shell env list_suggestions
      pure (record { removed = gone; suggestions_removed = lines_gone before a.out })

unfoldable pub remove_packages :
    Env → Config → Bool → List Bytes → Bytes → List Bytes → M (Result Fault Removed)
remove_packages env cfg user_0 keep before pkgs = do
  gone ← uninstall_all env user_0 keep pkgs
  run_each env force_stop cfg.stop_packages
  run_each env clear_data cfg.clear_packages
  r ← name_suggestions env before gone
  pure (ok r)

unfoldable pub reset_kept :
    Env → Config → Option (List Bytes) → Option (List Bytes) → M (Result Fault Removed)
reset_kept env cfg since none = fail_with (rpc failed_precondition [])
reset_kept env cfg since (some keep) = do
  before ← run_shell env list_suggestions
  and_then (current_packages env since) (remove_packages env cfg (is_some since) keep before.out)

-- The ResetPackages call.
unfoldable pub reset_packages :
    Env → Filter → Config → Baseline → Bytes → Option (List Bytes) → M (Result Fault Removed)
reset_packages env f cfg b serial since =
    and_then (pure (check_serial f serial)) λ _. reset_kept env cfg since (keep_of since b)

not_empty : Bytes → List Bytes → List Bytes
not_empty [] ps = ps
not_empty (b ∷ p) ps = (b ∷ p) ∷ ps

listed_in : List Bytes → List Bytes
unfolding not_empty
listed_in [] = []
listed_in (p ∷ ps) = not_empty (trim_space p) (listed_in ps)

-- `packageList`, of an environment variable.
unfoldable pub package_list : Bytes → List Bytes
unfolding listed_in
package_list v = listed_in (split_at b',' v)
