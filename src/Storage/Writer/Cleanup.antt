-- ===== src/Storage/Writer/Cleanup.antt =====
-- src/storage.c, `check_and_cleanup`: the pending deletions go on, and the oldest day goes when the
-- card is full.
pub mod Rows
pub mod Choice
pub mod Today
use montion_sense.Prelude.{ℕ, Bool, Option, none, some, List, leb, if◌then◌else◌, Rc}
use montion_sense.Prelude.Int.{ℤ, pos, ltb_ℤ}
use montion_sense.Config.{StorageCfg}
use montion_sense.Storage.Sql.{Stmt, Answer}
use montion_sense.Storage.MetaDb.{meta_db_oldest_retention_candidate}
use montion_sense.Storage.Retention.{Card, retention_schedule_delete, retention_process_tasks}
use montion_sense.Storage.Writer.{Writer}

-- What one clean-up meets: the free megabytes, and which directories can be removed in each of the two
-- calls of `retention_process_tasks`.
pub record Space : Type 0 where
  pub free_mb : ℕ
  pub removes_first : List ℕ → Rc
  pub removes_second : List ℕ → Rc

module _ {Db : Type 0} (run : Stmt → Db → Answer × Db) where
  unfoldable pub with_scheduled : Space → ℤ × Db → Card Db → Card Db
  with_scheduled space (queued, db) card =
      let stopped = record card { db = db } in
      let removed = retention_process_tasks run space.removes_second 1 stopped in
      if ltb_ℤ queued (pos 0) then stopped else removed

  unfoldable pub with_target : Space → Option (List ℕ) → Card Db → Card Db
  with_target space none card = card
  with_target space (some target) card =
      with_scheduled space (retention_schedule_delete run card.db target) card

  abbrev pub reread : Card Db → Option Db → Card Db
  reread card none = card
  reread card (some db) = record card { db = db }

  unfoldable pub clean : StorageCfg → List ℕ → Space → Card Db → Card Db
  clean cfg today space card =
      let continued = retention_process_tasks run space.removes_first 1 card in
      let (target, db) = meta_db_oldest_retention_candidate run (some continued.db) today in
      let reclaimed = with_target space target (reread continued db) in
      if leb cfg.disk_free_min_mb space.free_mb then continued else reclaimed

module _ {Db Media : Type 0} (run : Stmt → Db → Answer × Db) where
  -- Without a database no statement can be prepared.
  unfoldable pub clean_up :
      StorageCfg
      → Space
      → Option Db
      → Writer Db Media
      → (List ℕ → Bool)
      → Writer Db Media × (List ℕ → Bool)
  clean_up cfg space none ws present = (ws, present)
  clean_up cfg space (some db) ws present =
      let card : Card Db = clean run cfg ws.date space (record { db = db; present = present }) in
      (record ws { meta_db = some card.db }, card.present)

  unfoldable pub check_and_cleanup :
      StorageCfg → Space → Writer Db Media → (List ℕ → Bool) → Writer Db Media × (List ℕ → Bool)
  check_and_cleanup cfg space ws present =
      if ltb_ℤ (pos ws.ts_since_cleanup) cfg.cleanup_every_ts
      then (ws, present)
      else clean_up cfg space ws.meta_db (record ws { ts_since_cleanup = 0 }) present
