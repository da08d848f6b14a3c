-- ===== src/Tests/Storage.antt =====
-- The writer's files at concrete inputs.
use montion_sense.Prelude.{ℕ, ◌≡◌, refl, true, some, List, [], ◌∷◌, Rc, ok}
use montion_sense.Utils.{wrote, write_all, write_loop}
use montion_sense.Storage.AtomicFile.{
  Disk, System, write_after_rename, after_write, write_file_atomic,
}
use montion_sense.Storage.AtomicFile.Crash.{Run, write_file_atomic-Run}

-- A playlist `/m` that is replaced.
abbrev playlist : List ℕ
playlist = b'/' ∷ b'm' ∷ []

abbrev old_disk : Disk
old_disk q = some (record { bytes = 1 ∷ []; synced = true })

-- All goes well until the second failpoint.
abbrev late_failure : System
late_failure = record {
  letters = some (b'a' ∷ []);
  writes = wrote 1 ∷ wrote 1 ∷ [];
  fsync = true;
  close = true;
  rename = true;
  unlink = true;
  opens_dir = λ _. true;
  syncs_dir = λ _. true;
  failpoint = some write_after_rename;
}

abbrev replaced : Rc × List Disk
replaced =
    after_write late_failure (b'/' ∷ b'm' ∷ b'.' ∷ b't' ∷ b'm' ∷ b'p' ∷ b'.' ∷ b'a' ∷ []) playlist
      old_disk (ok, 7 ∷ 8 ∷ [])

replaced_run : write_file_atomic late_failure playlist (7 ∷ 8 ∷ []) old_disk ≡ some replaced
unfolding write_file_atomic write_all write_loop
replaced_run = refl

write_file_atomic-Run_example : Run playlist (7 ∷ 8 ∷ []) old_disk replaced
write_file_atomic-Run_example =
    write_file_atomic-Run late_failure playlist (7 ∷ 8 ∷ []) old_disk replaced replaced_run
