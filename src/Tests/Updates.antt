-- ===== src/Tests/Updates.antt =====
-- Runs of the theorems about updates at concrete inputs.
use sair.Base.{◌≡◌, refl, true, false, none, some}
use sair.Text.{utf8}
use sair.Updater.{Disk, Files, is_newer, Process, check_and_update}
use sair.Updater.Newer.{is_newer-IsStrictOrder}
use sair.Updater.Replaced.{IsUpdate, check_and_update-IsUpdate}

is_newer-IsStrictOrder_example :
    (is_newer (utf8 "v1.10.0") (utf8 "v1.10.0") ≡ false)
    × (is_newer (utf8 "v1.10.0") (utf8 "1.9.2") ≡ true
        → is_newer (utf8 "1.9.2") (utf8 "1.9.1") ≡ true
        → is_newer (utf8 "v1.10.0") (utf8 "1.9.1") ≡ true)
    × (is_newer (utf8 "v1.10.0") (utf8 "1.9.2") ≡ true
        → is_newer (utf8 "1.9.2") (utf8 "v1.10.0") ≡ false)
is_newer-IsStrictOrder_example =
    is_newer-IsStrictOrder (utf8 "v1.10.0") (utf8 "1.9.2") (utf8 "1.9.1")

abbrev good_disk : Disk
good_disk = record {
  created = true;
  copied = true;
  chmodded = true;
  synced = true;
  closed = true;
  renamed = true;
}

abbrev old_files : Files
old_files = record { target = utf8 "old"; temp = none }

abbrev lab_process : Process
lab_process = record {
  version = utf8 "1.9.2";
  is_off = false;
  just_updated = false;
  latest = some (utf8 "v1.10.0");
  has_path = true;
  is_writable = true;
  archive = some (utf8 "new");
  disk = good_disk;
  can_exec = false;
}

check_and_update-IsUpdate_example :
    IsUpdate lab_process old_files (check_and_update lab_process old_files)
check_and_update-IsUpdate_example = check_and_update-IsUpdate lab_process old_files refl
