-- ===== src/Storage/EventDb/Journal.antt =====
-- What src/storage_db.c relies on of SQLite: the meaning of its statements on VideoSegments and
-- EventDetails.
use montion_sense.Prelude.{ℕ, ◌≡◌, Option, none, some, List, [], ◌∷◌, ◌++◌, if◌then◌else◌}
use montion_sense.Prelude.Int.{ℤ, negsuc, eq_ℤ, to_int}
use montion_sense.Storage.Sql.{Stmt, insert_segment, insert_event, set_total_frames, Answer, done}

-- VideoSegments: the column total_frames by the id of a row.
abbrev pub Totals : Type 0
Totals = ℤ → Option ℤ

-- EventDetails: the column motion_frame of the rows with this video_id, in the order of their ids.
abbrev pub Marks : Type 0
Marks = ℤ → List ℤ

abbrev pub replaced : ℤ → Option ℤ → Option ℤ
replaced n none = none
replaced n (some total) = some n

-- What a statement that is done leaves; an inserted row has the id that the answer tells. Ids fit an int.
unfoldable pub totals_after : Answer → Stmt → Totals → Totals
totals_after (done changes rowid) (insert_segment folder start) t id =
    if eq_ℤ (to_int rowid) id then some (negsuc 0) else t id
totals_after (done changes rowid) (set_total_frames n row_id) t id =
    if eq_ℤ row_id id then replaced n (t id) else t id
totals_after _ _ t id = t id

unfoldable pub marks_after : Answer → Stmt → Marks → Marks
marks_after (done changes rowid) (insert_event video_id n) t id =
    if eq_ℤ video_id id then t id ++ n ∷ [] else t id
marks_after _ _ t id = t id

pub record Journal {Db : Type 0} (run : Stmt → Db → Answer × Db) : Type 0 where
  pub totals : Db → Totals
  pub marks : Db → Marks
  pub totals_run :
      (s : Stmt) (db : Db) (id : ℤ)
      → totals (run s db).1 id ≡ totals_after (run s db).0 s (totals db) id
  pub marks_run :
      (s : Stmt) (db : Db) (id : ℤ)
      → marks (run s db).1 id ≡ marks_after (run s db).0 s (marks db) id
  -- AUTOINCREMENT gives an id that no row had before, so no motion row names it.
  pub unused :
      (folder start : List ℕ) (db : Db) (changes rowid : ℕ)
      → (run (insert_segment folder start) db).0 ≡ done changes rowid
      → marks db (to_int rowid) ≡ []
