-- ===== src/Tests/Utils.antt =====
-- The file helpers at concrete inputs.
use montion_sense.Prelude.{ℕ, ◌≡◌, refl, none, some, List, [], ◌∷◌, ok, fail}
use montion_sense.Utils.{
  wrote, interrupted, failed, write_loop, write_all, last_slash, parent_dir, fs_free_mb,
}
use montion_sense.Utils.Writes.{Appended, write_all-Appended}
use montion_sense.Utils.Paths.{slash}

-- A short write, an interruption and the rest.
short_writes :
    write_all (wrote 2 ∷ interrupted ∷ wrote 1 ∷ []) (7 ∷ 8 ∷ 9 ∷ []) [] ≡ some (ok, 7 ∷ 8 ∷ 9 ∷ [])
unfolding write_all write_loop
short_writes = refl

-- A full disk after two bytes.
full_disk : write_all (wrote 2 ∷ failed ∷ []) (7 ∷ 8 ∷ 9 ∷ []) [] ≡ some (fail, 7 ∷ 8 ∷ [])
unfolding write_all write_loop
full_disk = refl

write_all-Appended_example : Appended [] (7 ∷ 8 ∷ 9 ∷ []) (fail, 7 ∷ 8 ∷ [])
write_all-Appended_example =
    write_all-Appended (7 ∷ 8 ∷ 9 ∷ []) [] (wrote 2 ∷ failed ∷ []) (fail, 7 ∷ 8 ∷ []) full_disk

abbrev video_db : List ℕ
video_db = slash ∷ b'm' ∷ slash ∷ b'v' ∷ []

video_db_dir : parent_dir video_db ≡ some (slash ∷ b'm' ∷ [])
unfolding parent_dir last_slash
video_db_dir = refl

root_dir : parent_dir (slash ∷ b'm' ∷ []) ≡ some (slash ∷ [])
unfolding parent_dir last_slash
root_dir = refl

no_statvfs : fs_free_mb none ≡ 4294967295
unfolding fs_free_mb
no_statvfs = refl
