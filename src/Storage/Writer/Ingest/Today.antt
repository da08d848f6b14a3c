-- ===== src/Storage/Writer/Ingest/Today.antt =====
-- The loop of `writer_thread` of src/storage.c over the frames of one day, and the files of that day.
use montion_sense.Prelude.{
  Rc, ℕ, ◌+◌, ◌≤◌, ◌≡◌, refl, sym, ◌∙◌, subst, Bool, Option, none, some, List, if_elim, length,
}
use montion_sense.Prelude.Int.{ℤ, pos, ltb_ℤ, eq_ℤ}
use montion_sense.Config.{Config, StorageCfg}
use montion_sense.Storage.Sql.{Stmt, upsert_count, Answer}
use montion_sense.Storage.MetaDb.{meta_db_upsert_motion_count}
use montion_sense.Storage.Retention.{Card}
use montion_sense.Storage.Retention.Engine.{Engine}
use montion_sense.Storage.Retention.Recordable.{Recordable, upsert-Recordable}
use montion_sense.Storage.Writer.{Writer, Input, Segment}
use montion_sense.Storage.Writer.Cleanup.{Space, clean_up, check_and_cleanup, clean}
use montion_sense.Storage.Writer.Cleanup.Today.{Spared, clean-Spared, Spared-Unscheduled}
use montion_sense.Storage.Writer.Ingest.{
  Moment, State, is_due, quotient, divides, count_motion, update_total, update_if, account,
}

module _ {Db : Type 0} {run : Stmt → Db → Answer × Db} (engine : Engine run) (date : List ℕ)
    (short : length date ≤ 15) where
  -- Without a database nothing is deleted.
  abbrev pub Guarded : Option Db → Type 0
  Guarded none = Unit {0}
  Guarded (some db) = Recordable date (engine.table db)

  upsert-Guarded :
      (o : Option Db) (n : ℤ) → Guarded o → Guarded (meta_db_upsert_motion_count run o date n)
  unfolding meta_db_upsert_motion_count
  upsert-Guarded none n g = tt
  upsert-Guarded (some db) n g =
      upsert-Recordable date (run (upsert_count date n) db).0 n (engine.table db) _ short
        (engine.runs (upsert_count date n) db) g

  -- The writer records on this day, which has these files on the card.
  pub record Recording {Media : Type 0} (day : ℕ) (files : Bool) (ws : Writer Db Media)
      (present : List ℕ → Bool) : Type 0 where
    pub on_date : ws.date ≡ date
    pub on_day : ws.day_of_year ≡ day
    pub same_files : present date ≡ files
    pub guarded : Guarded ws.meta_db

  clean_up-Recording :
      {Media : Type 0} (cfg : StorageCfg) (space : Space) (o : Option Db) (day : ℕ) (files : Bool)
      (ws : Writer Db Media) (present : List ℕ → Bool)
      → ws.meta_db ≡ o
      → Recording day files ws present
      → Recording day files
          (clean_up run cfg space o ws present).0
          (clean_up run cfg space o ws present).1
  unfolding clean_up
  clean_up-Recording cfg space none day files ws present e r = r
  clean_up-Recording {Media} cfg space (some db) day files ws present e r =
      let card : Card Db = record { db = db; present = present } in
      let rec : Recordable date (engine.table db) = subst Guarded e r.guarded in
      let s : Spared engine date card (clean run cfg date space card) =
        clean-Spared engine date cfg space card rec.dated rec.unscheduled in
      let c' = clean run cfg date space card in
      subst
        (λ d.
          let c = clean run cfg d space card in
          Recording day files (record ws { meta_db = some c.db }) c.present)
        (sym r.on_date)
        (record {
          on_date = r.on_date;
          on_day = r.on_day;
          same_files = s.files ∙ r.same_files;
          guarded = record {
            dated = s.dated;
            unscheduled = Spared-Unscheduled engine date card c' s rec.unscheduled;
          };
        })

  pub check_and_cleanup-Recording :
      {Media : Type 0} (cfg : StorageCfg) (space : Space) (day : ℕ) (files : Bool)
      (ws : Writer Db Media) (present : List ℕ → Bool)
      → Recording day files ws present
      → Recording day files
          (check_and_cleanup run cfg space ws present).0
          (check_and_cleanup run cfg space ws present).1
  unfolding check_and_cleanup
  check_and_cleanup-Recording {Media} cfg space day files ws present r =
      if_elim (λ (s : State Db Media). Recording day files s.0 s.1)
        (ltb_ℤ (pos ws.ts_since_cleanup) cfg.cleanup_every_ts) _ _ (λ _. r)
        (λ _.
          clean_up-Recording cfg space ws.meta_db day files (record ws { ts_since_cleanup = 0 })
            present refl
            (record {
              on_date = r.on_date;
              on_day = r.on_day;
              same_files = r.same_files;
              guarded = r.guarded;
            }))

  module _ {Media Float : Type 0}
      (media_input : Media → Option Input → (Rc → Media) × Option Segment) (hls_duration : ℕ)
      (cfg : Config Float) (day : ℕ) (files : Bool) where
    abbrev pub RecordingIf : Option (Writer Db Media) → (List ℕ → Bool) → Type 0
    RecordingIf none present = Unit {0}
    RecordingIf (some ws) present = Recording day files ws present

    count_motion-Recording :
        (now : ℕ) (ws : Writer Db Media) (present : List ℕ → Bool)
        → Recording day files ws present
        → Recording day files (count_motion media_input hls_duration run cfg now ws) present
    unfolding count_motion
    count_motion-Recording now ws present r =
        if_elim (λ (w : Writer Db Media). Recording day files w present)
          (is_due now ws.last_motion_ms cfg.ivs.motion_debounce_ms) _ _
          (λ _. record {
            on_date = r.on_date;
            on_day = r.on_day;
            same_files = r.same_files;
            guarded =
                subst
                  (λ d.
                    Guarded
                      (meta_db_upsert_motion_count run ws.meta_db d (pos (ws.motion_count + 1))))
                  (sym r.on_date) (upsert-Guarded ws.meta_db (pos (ws.motion_count + 1)) r.guarded);
          })
          (λ _. r)

    update_total-Recording :
        (ws : Writer Db Media) (present : List ℕ → Bool)
        → Recording day files ws present
        → Recording day files (update_total media_input hls_duration run cfg ws) present
    update_total-Recording ws present r = record {
      on_date = r.on_date;
      on_day = r.on_day;
      same_files = r.same_files;
      guarded = r.guarded;
    }

    update_if-RecordingIf :
        (o : Option Bool) (ws : Writer Db Media) (present : List ℕ → Bool)
        → Recording day files ws present
        → RecordingIf (update_if media_input hls_duration run cfg o ws) present
    unfolding update_if
    update_if-RecordingIf none ws present r = tt
    update_if-RecordingIf (some due) ws present r =
        if_elim (λ (w : Writer Db Media). Recording day files w present) due _ _
          (λ _. update_total-Recording ws present r) (λ _. r)

    pub account-RecordingIf :
        (m : Moment Db Media) (ws : Writer Db Media) (present : List ℕ → Bool)
        → Recording day files ws present
        → RecordingIf (account media_input hls_duration run cfg m ws) present
    unfolding account
    account-RecordingIf m ws present r =
        let counted = count_motion media_input hls_duration run cfg m.now ws in
        if_elim (λ o. RecordingIf o present) (eq_ℤ m.current_fps cfg.ivs.fps_high) _ _
          (λ _.
            update_if-RecordingIf
              (divides (quotient cfg.ivs.fps_high cfg.ivs.fps_low) counted.frame_count) counted
              present (count_motion-Recording m.now ws present r))
          (λ _. update_total-Recording ws present r)
