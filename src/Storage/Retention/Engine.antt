-- ===== src/Storage/Retention/Engine.antt =====
-- What src/storage_db.c relies on of SQLite: the meaning of its statements on VideoMetadata.
use montion_sense.Prelude.{
  ℕ, ◌≡◌, ◌≢◌, Bool, true, false, Option, none, some, List, [], ◌∷◌, same_bytes, ◌==◌, ltb,
  if◌then◌else◌,
}
use montion_sense.Prelude.Int.{ℤ, pos}
use montion_sense.Storage.Sql.{
  Stmt, ensure_day, upsert_count, set_state, oldest_date, any_date, delete_day, DayState, active,
  pending, Answer, prepare_error, step_error, done, row,
}

pub record Day : Type 0 where
  pub motion_count : ℤ
  pub state : DayState

-- VideoMetadata by its unique column, the date.
abbrev pub Table : Type 0
Table = List ℕ → Option Day

abbrev pub same_state : DayState → DayState → Bool
same_state active active = true
same_state active pending = false
same_state pending active = false
same_state pending pending = true

abbrev pub inserted : Option Day → Option Day
inserted none = some (record { motion_count = pos 0; state = active })
inserted (some day) = some day

abbrev pub counted : ℤ → Option Day → Option Day
counted count none = some (record { motion_count = count; state = active })
counted count (some day) = some (record day { motion_count = count })

abbrev pub moved : DayState → DayState → Option Day → Option Day
moved new old none = none
moved new old (some day) =
    if same_state day.state old then some (record day { state = new }) else some day

-- What a statement does to a table when it is done.
unfoldable pub effect : Stmt → Table → Table
effect (ensure_day d) t q = if same_bytes d q then inserted (t q) else t q
effect (upsert_count d n) t q = if same_bytes d q then counted n (t q) else t q
effect (set_state new d old) t q = if same_bytes d q then moved new old (t q) else t q
effect (delete_day d) t q = if same_bytes d q then none else t q
effect _ t q = t q

-- A statement that fails, or that gives a row, changes nothing.
unfoldable pub after : Answer → Stmt → Table → Table
after prepare_error s t = t
after step_error s t = t
after (done changes rowid) s t = effect s t
after (row text) s t = t

abbrev pub InState : Table → DayState → List ℕ → Type 0
InState t st d = (day : Day) × (t d ≡ some day) × (day.state ≡ st)

-- The order of texts by their bytes, which is SQLite's BINARY collation.
unfoldable pub sorts_before : List ℕ → List ℕ → Bool
sorts_before [] _ = true
sorts_before (c ∷ cs) [] = false
sorts_before (c ∷ cs) (d ∷ ds) = let rest = sorts_before cs ds in if c == d then rest else ltb c d

-- The date that `ORDER BY date ASC LIMIT 1` gives.
pub record Oldest (t : Table) (today : List ℕ) (st : DayState) (d : List ℕ) : Type 0 where
  pub found : InState t st d
  pub not_today : d ≢ today
  pub oldest : (e : List ℕ) → InState t st e → e ≢ today → sorts_before d e ≡ true

pub record Engine {Db : Type 0} (run : Stmt → Db → Answer × Db) : Type 0 where
  pub table : Db → Table
  pub runs :
      (s : Stmt) (db : Db) (q : List ℕ) → table (run s db).1 q ≡ after (run s db).0 s (table db) q
  pub selects_oldest :
      (today : List ℕ) (st : DayState) (db : Db) (d : List ℕ)
      → (run (oldest_date today st) db).0 ≡ row (some d)
      → Oldest (table db) today st d
  pub selects_any :
      (st : DayState) (db : Db) (d : List ℕ)
      → (run (any_date st) db).0 ≡ row (some d)
      → InState (table db) st d
