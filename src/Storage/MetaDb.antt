-- ===== src/Storage/MetaDb.antt =====
-- src/storage_db.c, `meta_db_init` to `meta_db_oldest_retention_candidate`: VideoMetadata.db.
use montion_sense.Prelude.{ℕ, true, Option, none, some, List, take, Rc, ok, fail}
use montion_sense.Prelude.Int.{ℤ}
use montion_sense.Storage.Sql.{
  Stmt, create_metadata, ensure_day, upsert_count, oldest_date, active, Answer, prepare_error,
  step_error, done, row, db_exec, db_open_rw,
}

-- `strncpy(out, text, DATE_STR_SIZE - 1)` of the column's text, if it has one.
unfoldable pub date_of : Answer → Option (List ℕ)
date_of prepare_error = none
date_of step_error = none
date_of (done changes rowid) = none
date_of (row none) = none
date_of (row (some text)) = some (take 15 text)

module _ {Db : Type 0} (run : Stmt → Db → Answer × Db) where
  -- The table is made in a database that is open.
  unfoldable pub create_day_table : Rc × Option Db → Rc × Option Db
  create_day_table (fail, db) = (fail, db)
  create_day_table (ok, none) = (fail, none)
  create_day_table (ok, some db) = let (rc, db') = db_exec run create_metadata db in (rc, some db')

  unfoldable pub meta_db_init : Option Db → Rc × Option Db
  meta_db_init opened = create_day_table (db_open_rw run opened true)

  unfoldable pub meta_db_ensure_day : Option Db → List ℕ → Option Db
  meta_db_ensure_day none date = none
  meta_db_ensure_day (some db) date = some (run (ensure_day date) db).1

  unfoldable pub meta_db_upsert_motion_count : Option Db → List ℕ → ℤ → Option Db
  meta_db_upsert_motion_count none date count = none
  meta_db_upsert_motion_count (some db) date count = some (run (upsert_count date count) db).1

  -- The oldest day that is active and not today.
  unfoldable pub meta_db_oldest_retention_candidate :
      Option Db → List ℕ → Option (List ℕ) × Option Db
  meta_db_oldest_retention_candidate none today = (none, none)
  meta_db_oldest_retention_candidate (some db) today =
      let (a, db') = run (oldest_date today active) db in (date_of a, some db')
