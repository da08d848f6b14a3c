-- ===== src/Storage/Retention.antt =====
-- src/storage_db.c, `retention_schedule_delete` and `retention_process_tasks`: days that are deleted.
--
-- The card has the database and the days' directories: `present` says whether a day has files.
pub mod Engine
pub mod Deletion
pub mod Store
pub mod Recordable
use montion_sense.Prelude.{
  ℕ, zero, suc, Bool, true, false, Option, none, some, List, [], ◌∷◌, same_bytes, if◌then◌else◌,
  ltb, take, Rc, ok, fail,
}
use montion_sense.Prelude.Int.{ℤ, pos, negsuc}
use montion_sense.Storage.Sql.{
  Stmt, set_state, any_date, delete_day, active, pending, Answer, prepare_error, step_error, done,
  row,
}

-- `sqlite3_changes(...) > 0 ? 1 : 0`, or -1.
unfoldable pub queued : Answer → ℤ
queued prepare_error = negsuc 0
queued step_error = negsuc 0
queued (done changes rowid) = if ltb 0 changes then pos 1 else pos 0
queued (row text) = negsuc 0

-- The buffer is empty when the column has no text.
unfoldable pub task_date : Option (List ℕ) → List ℕ
task_date none = []
task_date (some text) = take 15 text

pub record Card (Db : Type 0) : Type 0 where
  pub db : Db
  pub present : List ℕ → Bool

-- `remove_path_tree` of the day's directory succeeds or fails.
unfoldable pub remove_day : Rc → List ℕ → (List ℕ → Bool) → List ℕ → Bool
remove_day fail date present q = present q
remove_day ok date present q = if same_bytes date q then false else present q

-- After the statement that deletes the row: whether the loop goes on.
unfoldable pub went_on : Answer → Bool
went_on prepare_error = false
went_on step_error = false
went_on (done changes rowid) = true
went_on (row text) = false

module _ {Db : Type 0} (run : Stmt → Db → Answer × Db) where
  unfoldable pub retention_schedule_delete : Db → List ℕ → ℤ × Db
  retention_schedule_delete db date =
      let (a, db') = run (set_state pending date active) db in (queued a, db')

  -- The row goes once the files are gone.
  unfoldable pub delete_row : Rc → List ℕ → Card Db → Bool × Card Db
  delete_row fail date card = (false, card)
  delete_row ok date card =
      let (a, db') = run (delete_day date) card.db in (went_on a, record card { db = db' })

  -- `if (date[0] == '\0') return`
  unfoldable pub delete_date : (List ℕ → Rc) → List ℕ → Card Db → Bool × Card Db
  delete_date removes [] card = (false, card)
  delete_date removes (c ∷ cs) card =
      let rc = removes (c ∷ cs) in
      delete_row rc (c ∷ cs) (record card { present = remove_day rc (c ∷ cs) card.present })

  unfoldable pub on_task : (List ℕ → Rc) → Answer → Card Db → Bool × Card Db
  on_task removes prepare_error card = (false, card)
  on_task removes step_error card = (false, card)
  on_task removes (done changes rowid) card = (false, card)
  on_task removes (row text) card = delete_date removes (task_date text) card

  -- One turn of the loop. `removes` is what `remove_path_tree` returns for a day's directory.
  unfoldable pub one_task : (List ℕ → Rc) → Card Db → Bool × Card Db
  one_task removes card =
      let (a, db') = run (any_date pending) card.db in on_task removes a (record card { db = db' })

  unfoldable pub retention_process_tasks : (List ℕ → Rc) → ℕ → Card Db → Card Db
  retention_process_tasks removes zero card = card
  retention_process_tasks removes (suc budget) card =
      let (goes_on, card') = one_task removes card in
      let rest = retention_process_tasks removes budget card' in if goes_on then rest else card'
