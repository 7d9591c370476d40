-- ===== src/Updater/Replaced.antt =====
-- What becomes of the binary (internal/updater/updater.go).
use sair.Base.{
  ◌≤◌, ◌≡◌, refl, Bool, true, false, not, ◌||◌, Option, none, some, arith, length, take_all,
}
use sair.Ports.Branch.{if◌then◌else◌}
use sair.Text.{Bytes, utf8, str_eq}
use sair.Updater.{
  Disk, Files, atomic_replace, max_binary_size, Process, Update, nothing, resumed, restarts,
  restart_failed, restart, is_newer, replace_with, update_to, check_and_update,
}

-- No temporary file is left; a failure leaves the binary as it was, and a success has put the new one,
-- if that is no larger than the limit, in its place.
unfoldable pub IsWhole : Files → Bytes → Bool × Files → Type 0
IsWhole f src r =
    (r.1.temp ≡ none)
    × (r.0 ≡ false → r.1.target ≡ f.target)
    × (r.0 ≡ true → length src ≤ max_binary_size → r.1.target ≡ src)

branch :
    (P : Bool × Files → Type 0) (b : Bool) (x y : Bool × Files) → P x → P y → P (if b then x else y)
unfolding if◌then◌else◌
branch P true x y px py = px
branch P false x y px py = py

-- However the calls on the disk fail, a replacement of the binary leaves no temporary file where
-- there was none, and either leaves the binary as it was or has put the new one, if no larger
-- than 100 MB, in its place.
pub atomic_replace-IsWhole :
    (d : Disk) (src : Bytes) (f : Files) → f.temp ≡ none → IsWhole f src (atomic_replace d src f)
unfolding atomic_replace IsWhole
atomic_replace-IsWhole d src f clean =
    let P : Bool × Files → Type 0 = IsWhole f src in
    let failed : P (false, record f { temp = none }) = (refl, λ h. refl, λ h. cc) in
    branch P (not d.created) _ _ (clean, λ h. refl, λ h. cc)
      (branch P (not d.copied) _ _ failed (
        branch P (not d.chmodded) _ _ failed (
          branch P (not d.synced) _ _ failed (
            branch P (not d.closed) _ _ failed (
              branch P (not d.renamed) _ _ failed
                (refl, λ h. cc, λ h small. take_all max_binary_size src small))))))

-- The binary is the archive's, for a release that is newer, if it is no larger than the limit.
unfoldable pub IsReplaced : Process → Files → Type 0
IsReplaced p f' =
    (tag : Bytes) × (src : Bytes) × (p.latest ≡ some tag)
    × (is_newer tag p.version ≡ true)
    × (p.archive ≡ some src)
    × (length src ≤ max_binary_size → f'.target ≡ src)

-- The binary is as it was; or it is replaced, and whether the process restarts is the exec's to say.
unfoldable pub IsUpdate : Process → Files → Update × Files → Type 0
unfolding IsReplaced
IsUpdate p f (nothing, f') = f'.target ≡ f.target
IsUpdate p f (resumed, f') = f'.target ≡ f.target
IsUpdate p f (restarts, f') = (p.can_exec ≡ true) × IsReplaced p f'
IsUpdate p f (restart_failed, f') = (p.can_exec ≡ false) × IsReplaced p f'

either :
    (P : Update × Files → Type 0) (b : Bool) (x y : Update × Files)
    → (b ≡ true → P x)
    → (b ≡ false → P y)
    → P (if b then x else y)
unfolding if◌then◌else◌
either P true x y px py = px refl
either P false x y px py = py refl

finished :
    (p : Process) (f : Files) (tag src : Bytes) (r : Bool × Files)
    → IsWhole f src r
    → p.latest ≡ some tag
    → is_newer tag p.version ≡ true
    → p.archive ≡ some src
    → IsUpdate p f (if r.0 then restart p.can_exec else nothing, r.1)
unfolding IsUpdate IsWhole if◌then◌else◌
finished p f tag src (true, f') w l n a = restarted p.can_exec refl (tag, src, l, n, a, w.2 refl)
  where
    restarted : (b : Bool) → p.can_exec ≡ b → IsReplaced p f' → IsUpdate p f (restart b, f')
    restarted true e done = (e, done)
    restarted false e done = (e, done)
finished p f tag src (false, f') w l n a = w.1 refl

replace_with-IsUpdate :
    (p : Process) (f : Files) (tag : Bytes) (archive : Option Bytes)
    → f.temp ≡ none
    → p.latest ≡ some tag
    → is_newer tag p.version ≡ true
    → p.archive ≡ archive
    → IsUpdate p f (replace_with p archive f)
unfolding replace_with IsUpdate
replace_with-IsUpdate p f tag none clean l n a = refl
replace_with-IsUpdate p f tag (some src) clean l n a =
    finished p f tag src (atomic_replace p.disk src f) (atomic_replace-IsWhole p.disk src f clean) l
      n a

update_to-IsUpdate :
    (p : Process) (f : Files) (latest : Option Bytes)
    → f.temp ≡ none
    → p.latest ≡ latest
    → IsUpdate p f (update_to p latest f)
unfolding update_to IsUpdate
update_to-IsUpdate p f none clean l = refl
update_to-IsUpdate p f (some tag) clean l =
    either (IsUpdate p f) (not (is_newer tag p.version) || not p.has_path || not p.is_writable) _ _
      (λ h. refl)
      λ h.
        replace_with-IsUpdate p f tag p.archive clean l
          (newer (is_newer tag p.version) p.has_path p.is_writable h) refl
  where
    newer :
        (n has_path is_writable : Bool)
        → (not n || not has_path || not is_writable) ≡ false
        → n ≡ true
    newer n has_path is_writable h = ground arith

-- Where no temporary file was left before, CheckAndUpdate either leaves the binary as it was, or
-- replaces it: then the latest release is newer than the running version, the binary is the
-- archive's, if that is no larger than 100 MB, and the process restarts if the exec succeeds and
-- goes on with its old code if it fails.
pub check_and_update-IsUpdate :
    (p : Process) (f : Files) → f.temp ≡ none → IsUpdate p f (check_and_update p f)
unfolding check_and_update IsUpdate
check_and_update-IsUpdate p f clean =
    either (IsUpdate p f) (str_eq p.version (utf8 "dev") || p.is_off) _ _ (λ h. refl)
      λ _.
        either (IsUpdate p f) p.just_updated _ _ (λ h. refl)
          λ _. update_to-IsUpdate p f p.latest clean refl
