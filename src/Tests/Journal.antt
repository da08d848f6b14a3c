-- ===== src/Tests/Journal.antt =====
-- The day's database at concrete inputs: two tables in memory.
use montion_sense.Prelude.{
  ℕ, ◌+◌, ◌≡◌, refl, inl, sym, ap, ◌∙◌, arith, true, none, some, List, [], ◌∷◌, ◌++◌, ok,
  if◌then◌else◌,
}
use montion_sense.Prelude.Int.{ℤ, pos, negsuc, eq_ℤ, to_int}
use montion_sense.FrameQueue.{Slot}
use montion_sense.Storage.Sql.{
  Stmt, insert_segment, insert_event, set_total_frames, Answer, prepare_error, row, done,
  step_error, db_open_rw, db_exec, exec_rc,
}
use montion_sense.Storage.EventDb.{event_db_open, create_tables, event_db_add_segment, inserted_id}
use montion_sense.Storage.EventDb.Journal.{
  Journal, Totals, Marks, replaced, totals_after, marks_after,
}
use montion_sense.Storage.EventDb.Rows.{no_marks}
use montion_sense.Storage.Writer.{
  Writer, Opening, rollover_day, ensure_on_ok, open_today, with_folder, with_event_db,
  start_segment, close_on_fail, hls_create,
}
use montion_sense.Storage.Writer.Ingest.{Moment}
use montion_sense.Storage.Writer.Ingest.Kept.{kept}
use montion_sense.Storage.Writer.Ingest.Alive.{fresh}
use montion_sense.Storage.Writer.Ingest.Reels.{ingest_all}
use montion_sense.Storage.Writer.Ingest.Journaled.{Journaled}
use montion_sense.Storage.Writer.Ingest.Logged.{Logged, ingest_all-Logged}
use montion_sense.Storage.Writer.Thread.{zeroed}
use montion_sense.Storage.Writer.Thread.Drain.{Openable}
use montion_sense.Tests.Writer.{
  cfg, media_input, opening, both_ok, space, New, default_rates, opening-New, keyframe,
}

record Ledger : Type 0 where
  totals : Totals
  marks : Marks
  last : ℕ

-- An id that motion rows name is not given.
unfoldable insert_row : Ledger → List ℤ → Answer × Ledger
insert_row db [] = (
  done 1 (db.last + 1),
  record db {
    totals = λ id. if eq_ℤ (to_int (db.last + 1)) id then some (negsuc 0) else db.totals id;
    last = db.last + 1;
  },
)
insert_row db (n ∷ ns) = (step_error, db)

unfoldable run_ledger : Stmt → Ledger → Answer × Ledger
run_ledger (insert_segment folder start) db = insert_row db (db.marks (to_int (db.last + 1)))
run_ledger (insert_event id n) db =
    (done 1 0, record db { marks = λ i. if eq_ℤ id i then db.marks i ++ n ∷ [] else db.marks i })
run_ledger (set_total_frames n id) db = (
  done 1 0,
  record db { totals = λ i. if eq_ℤ id i then replaced n (db.totals i) else db.totals i },
)
run_ledger _ db = (done 0 0, db)

abbrev rowid_of : Answer → ℕ
rowid_of prepare_error = 0
rowid_of step_error = 0
rowid_of (done changes rowid) = rowid
rowid_of (row text) = 0

insert_row-totals :
    (folder start : List ℕ) (db : Ledger) (ns : List ℤ) (id : ℤ)
    → (insert_row db ns).1.totals id
      ≡ totals_after (insert_row db ns).0 (insert_segment folder start) db.totals id
unfolding insert_row totals_after
insert_row-totals folder start db [] id = refl
insert_row-totals folder start db (n ∷ ns) id = refl

insert_row-marks :
    (folder start : List ℕ) (db : Ledger) (ns : List ℤ) (id : ℤ)
    → (insert_row db ns).1.marks id
      ≡ marks_after (insert_row db ns).0 (insert_segment folder start) db.marks id
unfolding insert_row marks_after
insert_row-marks folder start db [] id = refl
insert_row-marks folder start db (n ∷ ns) id = refl

insert_row-unused :
    (db : Ledger) (ns : List ℤ)
    → db.marks (to_int (db.last + 1)) ≡ ns
    → (changes rowid : ℕ) → (insert_row db ns).0 ≡ done changes rowid
    → db.marks (to_int rowid) ≡ []
unfolding insert_row
insert_row-unused db [] e changes rowid h = ap (λ n. db.marks (to_int n)) (sym (ap rowid_of h)) ∙ e
insert_row-unused db (n ∷ ns) e changes rowid h = absurd cc

ledger_totals :
    (s : Stmt) (db : Ledger) (id : ℤ)
    → (run_ledger s db).1.totals id ≡ totals_after (run_ledger s db).0 s db.totals id
unfolding run_ledger totals_after
ledger_totals (insert_segment folder start) db id =
    insert_row-totals folder start db (db.marks (to_int (db.last + 1))) id
ledger_totals (insert_event v n) db id = refl
ledger_totals (set_total_frames n i) db id = refl
ledger_totals _ db id = refl

ledger_marks :
    (s : Stmt) (db : Ledger) (id : ℤ)
    → (run_ledger s db).1.marks id ≡ marks_after (run_ledger s db).0 s db.marks id
unfolding run_ledger marks_after
ledger_marks (insert_segment folder start) db id =
    insert_row-marks folder start db (db.marks (to_int (db.last + 1))) id
ledger_marks (insert_event v n) db id = refl
ledger_marks (set_total_frames n i) db id = refl
ledger_marks _ db id = refl

ledger_unused :
    (folder start : List ℕ) (db : Ledger) (changes rowid : ℕ)
    → (run_ledger (insert_segment folder start) db).0 ≡ done changes rowid
    → db.marks (to_int rowid) ≡ []
unfolding run_ledger
ledger_unused folder start db = insert_row-unused db (db.marks (to_int (db.last + 1))) refl

unfoldable ledger_journal : Journal run_ledger
ledger_journal = record {
  totals = λ db. db.totals;
  marks = λ db. db.marks;
  totals_run = ledger_totals;
  marks_run = ledger_marks;
  unused = ledger_unused;
}

-- No row, and one row of a segment with the id 1.
abbrev no_rows : Ledger
no_rows = record { totals = λ _. none; marks = λ _. []; last = 0 }

abbrev one_row : Ledger
one_row = record no_rows {
  totals = λ id. if eq_ℤ id (pos 1) then some (negsuc 0) else none;
  last = 1;
}

abbrev opens : Opening Ledger ℕ
opens = record {
  today = opening.today;
  day_dir = some [];
  segment_dir = ok;
  event_db = some no_rows;
  segment_time = opening.segment_time;
  usec = 500;
  media = some 0;
  playlist = true;
}

abbrev second_frame : Moment Ledger ℕ
second_frame = record {
  yday = 2;
  writes = both_ok;
  opening = opens;
  current_fps = pos 30;
  now = 5000;
  space = space;
}

opens_again :
    (ws : Writer Ledger ℕ)
    → (rollover_day media_input 5000 run_ledger cfg.ivs.fps_low both_ok opens ws).0 ≡ ok
unfolding ensure_on_ok rollover_day open_today with_folder with_event_db start_segment close_on_fail
    hls_create event_db_open create_tables db_open_rw db_exec exec_rc run_ledger insert_row
    event_db_add_segment inserted_id to_int
opens_again ws = refl

second_frame-Openable : Openable media_input 5000 run_ledger cfg New second_frame
second_frame-Openable = record { opens = opens_again; new = opening-New }

abbrev with_row : Writer Ledger ℕ
with_row = record zeroed {
  hls = some 0;
  m3u = some [];
  event_db = some one_row;
  day_of_year = 1;
  current_segment_id = pos 1;
}

-- A frame with motion on the same day, and one on the next day.
abbrev frames : List (Moment Ledger ℕ × Slot)
frames = (record second_frame { yday = 1 }, keyframe) ∷ (second_frame, keyframe) ∷ []

with_row-Journaled : Journaled ledger_journal (kept with_row)
unfolding ledger_journal
with_row-Journaled = record {
  db = one_row;
  open_db = refl;
  has_id = refl;
  total = inl refl;
  marked = no_marks 0 0;
}

ingest_all-Logged_example :
    Logged ledger_journal (ingest_all media_input 5000 run_ledger cfg frames (with_row, λ _. true))
ingest_all-Logged_example =
    ingest_all-Logged ledger_journal media_input 5000 cfg New 1 30 default_rates.0 default_rates.1
      (omega arith) (omega arith) frames with_row (λ _. true)
      (record { opens = opens_again; new = opening-New }, (second_frame-Openable, tt))
      (fresh 0 refl) with_row-Journaled
