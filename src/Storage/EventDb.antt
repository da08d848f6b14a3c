-- ===== src/Storage/EventDb.antt =====
-- src/storage_db.c, `event_db_open` to `event_db_update_total_frames`: the day's EventLogs.db.
pub mod Journal
pub mod Rows
use montion_sense.Prelude.{ℕ, false, Option, none, some, List, [], ◌∷◌, if◌then◌else◌, Rc, ok, fail}
use montion_sense.Prelude.Int.{to_int, ℤ, pos, negsuc, ltb_ℤ}
use montion_sense.Storage.Paths.{LocalTime, folder_name, start_time}
use montion_sense.Storage.Sql.{
  Stmt, create_segments, create_events, create_index, insert_segment, insert_event,
  set_total_frames, Answer, prepare_error, step_error, done, row, db_exec, db_open_rw,
}

-- The id of the row that was inserted, or -1.
unfoldable pub inserted_id : Answer → ℤ
inserted_id prepare_error = negsuc 0
inserted_id step_error = negsuc 0
inserted_id (done changes rowid) = to_int rowid
inserted_id (row text) = negsuc 0

module _ {Db : Type 0} (run : Stmt → Db → Answer × Db) where
  -- The tables and the index; the database is closed when one of them cannot be made.
  unfoldable pub create_tables : List Stmt → Rc × Option Db → Rc × Option Db
  create_tables stmts (fail, db) = (fail, none)
  create_tables stmts (ok, none) = (fail, none)
  create_tables [] (ok, some db) = (ok, some db)
  create_tables (stmt ∷ stmts) (ok, some db) =
      let (rc, db') = db_exec run stmt db in create_tables stmts (rc, some db')

  unfoldable pub event_db_open : Option Db → Rc × Option Db
  event_db_open opened =
      create_tables (create_segments ∷ create_events ∷ create_index ∷ [])
        (db_open_rw run opened false)

  unfoldable pub event_db_close : Option Db → Option Db
  event_db_close db = none

  -- By `interrupt_idx`, the local time and its microseconds.
  unfoldable pub event_db_add_segment : Option Db → ℕ → LocalTime → ℕ → ℤ × Option Db
  event_db_add_segment none idx tm usec = (negsuc 0, none)
  event_db_add_segment (some db) idx tm usec =
      let (a, db') = run (insert_segment (folder_name idx) (start_time tm usec)) db in
      (inserted_id a, some db')

  unfoldable pub event_db_add_motion : Option Db → ℤ → ℤ → Option Db
  event_db_add_motion none video_id motion_frame = none
  event_db_add_motion (some db) video_id motion_frame =
      if ltb_ℤ video_id (pos 0)
      then some db
      else some (run (insert_event video_id motion_frame) db).1

  unfoldable pub event_db_update_total_frames : Option Db → ℤ → ℤ → Option Db
  event_db_update_total_frames none segment frames = none
  event_db_update_total_frames (some db) segment frames =
      if ltb_ℤ segment (pos 0) then some db else some (run (set_total_frames frames segment) db).1
