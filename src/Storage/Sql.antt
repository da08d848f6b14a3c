-- ===== src/Storage/Sql.antt =====
-- src/storage_db.c: the statements that the writer runs, and the helpers that run them.
--
-- SQLite is a parameter: a function that runs one statement on a connection and gives its answer with
-- the connection after it. What its answers mean is stated in `Storage.Retention.Engine`.
use montion_sense.Prelude.{ℕ, Bool, Option, none, some, List, if◌then◌else◌, Rc, ok, fail}
use montion_sense.Prelude.Int.{ℤ}

-- VM_STATE_ACTIVE and VM_STATE_PENDING
pub data DayState : Type 0 where
  active pending : DayState

pub data Stmt : Type 0 where
  pragma_wal pragma_full pragma_normal pragma_cache : Stmt
  create_metadata create_segments create_events create_index : Stmt
  -- INSERT OR IGNORE INTO VideoMetadata (date, motion_count, state) VALUES (date, 0, 0)
  ensure_day : List ℕ → Stmt
  -- INSERT INTO VideoMetadata ... ON CONFLICT(date) DO UPDATE SET motion_count
  upsert_count : List ℕ → ℤ → Stmt
  -- SELECT date FROM VideoMetadata WHERE date != today AND state = ... ORDER BY date ASC LIMIT 1
  oldest_date : List ℕ → DayState → Stmt
  -- UPDATE VideoMetadata SET state = new WHERE date = ... AND state = old
  set_state : DayState → List ℕ → DayState → Stmt
  -- SELECT date FROM VideoMetadata WHERE state = ... LIMIT 1
  any_date : DayState → Stmt
  -- DELETE FROM VideoMetadata WHERE date = ...
  delete_day : List ℕ → Stmt
  -- INSERT INTO VideoSegments (folder, start_time)
  insert_segment : List ℕ → List ℕ → Stmt
  -- INSERT INTO EventDetails (video_id, motion_frame)
  insert_event : ℤ → ℤ → Stmt
  -- UPDATE VideoSegments SET total_frames = ... WHERE id = ...
  set_total_frames : ℤ → ℤ → Stmt

-- The answer to a statement that is prepared and stepped once: SQLITE_DONE with `sqlite3_changes` and
-- `sqlite3_last_insert_rowid`, or SQLITE_ROW with the text of its first column.
pub data Answer : Type 0 where
  prepare_error step_error : Answer
  done : ℕ → ℕ → Answer
  row : Option (List ℕ) → Answer

unfoldable pub exec_rc : Answer → Rc
exec_rc prepare_error = fail
exec_rc step_error = fail
exec_rc (done changes rowid) = ok
exec_rc (row text) = ok

module _ {Db : Type 0} (run : Stmt → Db → Answer × Db) where
  unfoldable pub db_exec : Stmt → Db → Rc × Db
  db_exec stmt db = let (a, db') = run stmt db in (exec_rc a, db')

  -- `none` says that `sqlite3_open` fails; the flag is `sync_mode == DB_SYNC_FULL`.
  unfoldable pub db_open_rw : Option Db → Bool → Rc × Option Db
  db_open_rw none full = (fail, none)
  db_open_rw (some db) full =
      let (a, db1) = run pragma_wal db in
      let (b, db2) = run (if full then pragma_full else pragma_normal) db1 in
      let (c, db3) = run pragma_cache db2 in (ok, some db3)
