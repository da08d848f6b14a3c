-- ===== src/Tests/Paths.antt =====
-- The names on the card at concrete dates and numbers.
use montion_sense.Prelude.{
  ℕ, ◌≡◌, ◌≢◌, refl, ap, arith, length, true, false, some, Option, List, [], ◌∷◌, same_bytes,
}
use montion_sense.Prelude.Int.{pos}
use montion_sense.Storage.Sql.{active, row, oldest_date}
use montion_sense.Storage.MetaDb.{meta_db_oldest_retention_candidate}
use montion_sense.Storage.Retention.Engine.{Day, sorts_before, InState}
use montion_sense.Storage.Retention.Store.{Store, first, lookup, all_dates, run_store, store_engine}
use montion_sense.Storage.Paths.{
  snprintf, digits, d5, today_string, ts_name, count_entries, count_subdirs, is_subdir, make_folder,
}
use montion_sense.Storage.Paths.Names.{Named, paths-Named}
use montion_sense.Storage.Paths.Folders.{
  Entry, DayDir, new_day, opened, file_made, NoFolder, count_subdirs-NoFolder,
}
use montion_sense.Storage.Paths.Dates.{not_after, length-today_string, oldest_candidate-First}

-- 2026-01-09
abbrev day : List ℕ
day = b'2' ∷ b'0' ∷ b'2' ∷ b'6' ∷ b'-' ∷ b'0' ∷ b'1' ∷ b'-' ∷ b'0' ∷ b'9' ∷ []

day_text : today_string 2026 1 9 ≡ day
unfolding today_string digits
day_text = refl

name_text : (ts_name 12 ≡ b'0' ∷ b'0' ∷ b'0' ∷ b'1' ∷ b'2' ∷ b'.' ∷ b't' ∷ b's' ∷ [])
unfolding ts_name snprintf digits
name_text = refl

paths-Named_example : Named day 3 12
paths-Named_example = paths-Named day 3 12 refl (omega arith) (omega arith)

-- A day with one segment, and one whose folder could not be made.
abbrev second_start : List Entry
second_start =
    make_folder false
      ((false, b'x' ∷ []) ∷ make_folder true ((true, b'.' ∷ []) ∷ (true, b'.' ∷ b'.' ∷ []) ∷ []))

second_start-DayDir : DayDir second_start
second_start-DayDir = opened false (file_made (b'x' ∷ []) (opened true new_day))

one_folder : count_subdirs (some second_start) ≡ 1
unfolding count_subdirs count_entries make_folder is_subdir digits same_bytes
one_folder = refl

count_subdirs-NoFolder_example : NoFolder (d5 (count_subdirs (some second_start)) []) second_start
count_subdirs-NoFolder_example =
    count_subdirs-NoFolder second_start-DayDir (rw one_folder (omega arith))

abbrev an_active : Option Day
an_active = some (record { motion_count = pos 0; state = active })

abbrev days : Store
days = (today_string 2026 2 1, an_active) ∷ (today_string 2026 1 9, an_active) ∷ []

found : (run_store (oldest_date [] active) days).0 ≡ row (some (today_string 2026 1 9))
unfolding run_store first lookup all_dates sorts_before today_string digits same_bytes
found = refl

other_day : InState (store_engine.table days) active (today_string 2026 2 1)
unfolding store_engine lookup today_string digits same_bytes
other_day = (record { motion_count = pos 0; state = active }, refl, refl)

some_day : today_string 2026 2 1 ≢ []
some_day e =
    let n = length-today_string 2026 2 1 (omega arith) (omega arith) (omega arith) in
    let m = ap (λ (x : List ℕ). length x) e in absurd (omega arith)

oldest_candidate-First_example :
    ((meta_db_oldest_retention_candidate run_store (some days) []).0 ≡ some (today_string 2026 1 9))
    × (not_after 2026 1 9 2026 2 1 ≡ true)
oldest_candidate-First_example =
    oldest_candidate-First run_store store_engine days [] 2026 1 9 2026 2 1 (omega arith)
      (omega arith) (omega arith) (omega arith) (omega arith) (omega arith) found other_day some_day
