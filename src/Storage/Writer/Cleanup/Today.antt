-- ===== src/Storage/Writer/Cleanup/Today.antt =====
-- `check_and_cleanup` of src/storage.c: the day that is being recorded.
use montion_sense.Prelude.{
  ℕ, ◌≡◌, ◌≢◌, inl, inr, refl, sym, ◌∙◌, Option, none, some, List, leb, if_elim, take, Rc, take_all,
}
use montion_sense.Prelude.Int.{pos, ltb_ℤ}
use montion_sense.Config.{StorageCfg}
use montion_sense.Storage.Sql.{Stmt, oldest_date, set_state, active, pending, Answer, row}
use montion_sense.Storage.MetaDb.{date_of, meta_db_oldest_retention_candidate}
use montion_sense.Storage.Retention.{
  Card, retention_schedule_delete, retention_process_tasks, queued,
}
use montion_sense.Storage.Retention.Engine.{Engine, InState, Oldest, after}
use montion_sense.Storage.Retention.Deletion.{
  rows_of, Dated, Safely-Dated, InState-row, retention_process_tasks-Safely,
}
use montion_sense.Storage.Writer.Cleanup.{Space, with_scheduled, with_target, clean}
use montion_sense.Storage.Writer.Cleanup.Rows.{
  after-set_state, after-select, after-set_state_kept, date_of-row, row_left,
}

module _ {Db : Type 0} {run : Stmt → Db → Answer × Db} (engine : Engine run) (today : List ℕ) where
  -- The day keeps its files and its row.
  pub record Spared (c c' : Card Db) : Type 0 where
    pub files : c'.present today ≡ c.present today
    pub row : rows_of engine c' today ≡ rows_of engine c today
    pub dated : Dated engine c'

  -- The day's deletion is not pending.
  abbrev pub Unscheduled : Card Db → Type 0
  Unscheduled c = InState (rows_of engine c) pending today → ⊥

  Spared-trans : (c d e : Card Db) → Spared c d → Spared d e → Spared c e
  Spared-trans c d e s t = record {
    files = t.files ∙ s.files;
    row = t.row ∙ s.row;
    dated = t.dated;
  }

  pub Spared-Unscheduled : (c d : Card Db) → Spared c d → Unscheduled c → Unscheduled d
  Spared-Unscheduled c d s u p =
      u (InState-row (rows_of engine d) (rows_of engine c) pending today s.row p)

  -- Work on pending days spares a day that is not.
  process-Spared :
      (removes : List ℕ → Rc) (c : Card Db)
      → Dated engine c
      → Unscheduled c
      → Spared c (retention_process_tasks run removes 1 c)
  process-Spared removes c dated u =
      let c' = retention_process_tasks run removes 1 c in
      let s = retention_process_tasks-Safely engine removes 1 c dated in
      record {
        files = elim (s.files today) [ inl same ↦ same | inr gone ↦ absurd (u gone.0) ];
        row = elim (s.rows today) [ inl same ↦ same | inr gone ↦ absurd (u gone.0) ];
        dated = Safely-Dated engine c c' s dated;
      }

  module _ (cfg : StorageCfg) (space : Space) where
    with_scheduled-Spared :
        (d : Card Db) (db : Db) (target : List ℕ)
        → ((q : List ℕ) → engine.table db q ≡ rows_of engine d q)
        → Dated engine d
        → Unscheduled d
        → target ≢ today
        → Spared d (
            with_scheduled run space
              (retention_schedule_delete run db target)
              (record d { db = db }))
    unfolding with_scheduled retention_schedule_delete
    with_scheduled-Spared d db target same dated u other =
        if_elim (Spared d) (ltb_ℤ (queued a) (pos 0)) _ _ (λ _. first)
          (λ _.
            Spared-trans d stopped (retention_process_tasks run space.removes_second 1 stopped)
              first
              (process-Spared space.removes_second stopped first.dated
                (Spared-Unscheduled d stopped first u)))
      where
        a : Answer
        a = (run (set_state pending target active) db).0

        stopped : Card Db
        stopped = record d { db = (run (set_state pending target active) db).1 }

        runs :
            (q : List ℕ)
            → rows_of engine stopped q
              ≡ after a (set_state pending target active) (engine.table db) q
        runs q = engine.runs (set_state pending target active) db q

        first : Spared d stopped
        first = record {
          files = refl;
          row = runs today ∙ after-set_state a target (engine.table db) today other ∙ same today;
          dated = λ q h. dated q (λ e.
              after-set_state_kept a target (engine.table db) q (λ n. h (runs q ∙ n)) (same q ∙ e));
        }

    with_target-Spared :
        (d : Card Db) (a : Answer) (db : Db)
        → ((q : List ℕ) → engine.table db q ≡ rows_of engine d q)
        → Dated engine d
        → Unscheduled d
        → ((e : List ℕ) → a ≡ row (some e) → Oldest (rows_of engine d) today active e)
        → Spared d (with_target run space (date_of a) (record d { db = db }))
    unfolding with_target
    with_target-Spared d a db same dated u o = on_date (date_of a) (date_of-row a)
      where
        on_date :
            (t : Option (List ℕ))
            → ((target : List ℕ)
                → t ≡ some target
                → (e : List ℕ) × (a ≡ row (some e)) × (target ≡ take 15 e))
            → Spared d (with_target run space t (record d { db = db }))
        on_date none found = record {
          files = refl;
          row = same today;
          dated = λ q h. dated q (λ e. h (same q ∙ e));
        }
        on_date (some target) found =
            let (e, is_row, cut) = found target refl in
            let oldest = o e is_row in
            let whole = take_all 15 e (dated e (row_left (rows_of engine d e) oldest.found)) in
            with_scheduled-Spared d db target same dated u
              (λ t. oldest.not_today (sym (cut ∙ whole) ∙ t))

    -- A clean-up spares the day that is being recorded, if its deletion is not pending.
    pub clean-Spared :
        (c : Card Db) → Dated engine c → Unscheduled c → Spared c (clean run cfg today space c)
    unfolding clean meta_db_oldest_retention_candidate
    clean-Spared c dated u =
        let d = retention_process_tasks run space.removes_first 1 c in
        let s = process-Spared space.removes_first c dated u in
        let a = (run (oldest_date today active) d.db).0 in
        if_elim (Spared c) (leb cfg.disk_free_min_mb space.free_mb) _ _ (λ _. s)
          (λ b. Spared-trans c d _ s (
            with_target-Spared d a (run (oldest_date today active) d.db).1
              (λ q.
                engine.runs (oldest_date today active) d.db q
                ∙ after-select a today active (rows_of engine d) q)
              s.dated (Spared-Unscheduled c d s u)
              (λ e. engine.selects_oldest today active d.db e)))
