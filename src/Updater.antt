-- ===== src/Updater.antt =====
-- internal/updater/updater.go: whether to update, and the replacement of the binary. The network, the
-- archive and the file system are parameters: the latest release's tag, the binary that the archive
-- has, and how each call on the disk ends.
use sair.Base.{
  ℕ, zero, suc, ◌+◌, ◌-◌, ◌*◌, ◌/◌, ◌%◌, ◌^◌, ◌≤◌, ◌<◌, min, max, ◌≡◌, refl, sym, ap, ◌∙◌, subst,
  ◌≢◌, ◌↔◌, ◌⊎◌, inl, inr, Bool, true, false, not, ◌&&◌, ◌||◌, Option, none, some, List, [], ◌∷◌,
  ◌++◌, map, foldl, append_assoc, append-nil, arith, ltb, leb, ◌==◌, ltb→lt, lt→ltb, leb→le, ==_iff,
  Bool-cases, Option-cases, is_some, length, take, drop, length-append, take-append-drop,
  length-take, length-drop, take-append_length, drop-append_length, take_all, drop_all, any_of,
  keep_if, All, All-append,
}
use sair.Ports.Branch.{if◌then◌else◌}
use sair.Text.{
  Bytes, join, utf8, str_eq, str_eq_iff, str_eq_refl, cut_prefix, has_prefix, trim_prefix,
  has_suffix, trim_suffix, cut_prefix-append, cut_prefix-eq_some,
}
use sair.Lines.{cut, atoi, int_lt, int_eq}
use sair.Adb.Number.{ℤ, pos, negsuc}
pub mod Newer
pub mod Replaced

pub record Version : Type 0 where
  pub major : ℤ
  pub minor : ℤ
  pub patch : ℤ

numbers : Option ℤ → Option ℤ → Option ℤ → Option Version
numbers none b c = none
numbers (some x) none c = none
numbers (some x) (some y) none = none
numbers (some x) (some y) (some z) = some (record { major = x; minor = y; patch = z })

three_parts : Bytes → Option (Bytes × Bytes) → Option Version
unfolding numbers
three_parts major none = none
three_parts major (some (minor, patch)) = numbers (atoi major) (atoi minor) (atoi patch)

two_parts : Option (Bytes × Bytes) → Option Version
unfolding three_parts
two_parts none = none
two_parts (some (major, rest)) = three_parts major (cut rest (utf8 "."))

-- `parse`, of a version with or without a "v" in front.
unfoldable pub parse_version : Bytes → Option Version
unfolding two_parts
parse_version s = two_parts (cut (trim_prefix s (utf8 "v")) (utf8 "."))

-- One number of the comparison, and what the later ones say.
unfoldable pub decides : ℤ → ℤ → Bool → Bool
unfolding int_eq int_lt
decides latest current rest = if int_eq latest current then rest else int_lt current latest

unfoldable pub is_later : Version → Version → Bool
is_later l c = decides l.major c.major (decides l.minor c.minor (int_lt c.patch l.patch))

unfoldable pub both_parse : Option Version → Option Version → Bool
both_parse none c = false
both_parse (some l) none = false
both_parse (some l) (some c) = is_later l c

-- `isNewer`.
unfoldable pub is_newer : Bytes → Bytes → Bool
is_newer latest current = both_parse (parse_version latest) (parse_version current)

-- `maxBinarySize`.
abbrev pub max_binary_size : ℕ
max_binary_size = 100 * 2 ^ 20

-- Whether each of the calls of atomicReplace succeeds; `copied` also stands for the reads of the archive.
pub record Disk : Type 0 where
  pub created : Bool
  pub copied : Bool
  pub chmodded : Bool
  pub synced : Bool
  pub closed : Bool
  pub renamed : Bool

-- The binary's content, and the temporary file's, where there is one.
pub record Files : Type 0 where
  pub target : Bytes
  pub temp : Option Bytes

-- The deferred removal of the temporary file.
abbrev give_up : Files → Bool × Files
give_up f = (false, record f { temp = none })

-- `atomicReplace`: whether it succeeded, and the files behind it. LimitReader ends the copy at
-- maxBinarySize without an error.
unfoldable pub atomic_replace : Disk → Bytes → Files → Bool × Files
atomic_replace d src f =
    let f' : Files = record f { temp = some (take max_binary_size src) } in
    if not d.created
    then (false, f)
    else if not d.copied
    then give_up f'
    else if not d.chmodded
    then give_up f'
    else if not d.synced
    then give_up f'
    else if not d.closed
    then give_up f'
    else if not d.renamed
    then give_up f'
    else (true, record { target = take max_binary_size src; temp = none })

-- What CheckAndUpdate reads of its process: the version, SAIR_AUTO_UPDATE (whether it says false in any
-- case) and SAIR_JUST_UPDATED; the tag of the latest release, where it can be had; whether the path of the
-- executable can be found and its directory be written; the binary, where the archive has it; and
-- whether the exec of a binary that was replaced succeeds.
pub record Process : Type 0 where
  pub version : Bytes
  pub is_off : Bool
  pub just_updated : Bool
  pub latest : Option Bytes
  pub has_path : Bool
  pub is_writable : Bool
  pub archive : Option Bytes
  pub disk : Disk
  pub can_exec : Bool

-- What the call comes to. An exec that fails is only logged: the process goes on with its old code,
-- beside a binary that was replaced.
pub data Update : Type 0 where
  nothing resumed restarts restart_failed : Update

abbrev pub restart : Bool → Update
restart can_exec = if can_exec then restarts else restart_failed

unfoldable pub replace_with : Process → Option Bytes → Files → Update × Files
replace_with p none f = (nothing, f)
replace_with p (some src) f =
    let (done, f') = atomic_replace p.disk src f in
    (if done then restart p.can_exec else nothing, f')

unfoldable pub update_to : Process → Option Bytes → Files → Update × Files
unfolding replace_with
update_to p none f = (nothing, f)
update_to p (some tag) f =
    if not (is_newer tag p.version) || not p.has_path || not p.is_writable
    then (nothing, f)
    else replace_with p p.archive f

-- `CheckAndUpdate`.
unfoldable pub check_and_update : Process → Files → Update × Files
unfolding update_to
check_and_update p f =
    if str_eq p.version (utf8 "dev") || p.is_off
    then (nothing, f)
    else if p.just_updated
    then (resumed, f)
    else update_to p p.latest f
