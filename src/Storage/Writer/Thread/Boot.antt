-- ===== src/Storage/Writer/Thread/Boot.antt =====
-- `storage_init` of src/storage.c: what its caller may rely on.
use montion_sense.Prelude.{
  ℕ, ◌≡◌, refl, Bool, true, false, Option, none, some, List, [], ◌∷◌, if_elim, Rc, ok, fail,
}
use montion_sense.Prelude.Int.{pos, ltb_ℤ}
use montion_sense.Config.{Config}
use montion_sense.Storage.Paths.{folder_name, start_time}
use montion_sense.Storage.Sql.{Stmt, insert_segment, Answer, db_exec, db_open_rw}
use montion_sense.Storage.MetaDb.{create_day_table, meta_db_init, meta_db_ensure_day}
use montion_sense.Storage.EventDb.{
  create_tables, event_db_open, event_db_close, event_db_add_segment, inserted_id,
}
use montion_sense.Storage.Writer.{
  Writer, Opening, Input, Segment, empty_folder, hls_create, close_on_fail, start_segment,
  with_event_db, with_folder, open_today,
}
use montion_sense.Storage.Writer.Thread.{
  Service, with_meta_db, with_today, boot, with_boot, storage_init,
}

abbrev pub IsOpen : {A : Type 0} → Option A → Type 0
IsOpen none = ⊥
IsOpen (some a) = Unit {0}

-- A database that is open after a success, and closed after a failure.
abbrev OpenOnOk : {A : Type 0} → Rc × Option A → Type 0
OpenOnOk (ok, db) = IsOpen db
OpenOnOk (fail, db) = db ≡ none

module _ {Db : Type 0} (run : Stmt → Db → Answer × Db) where
  create_tables-OpenOnOk :
      (stmts : List Stmt) (rc : Rc) (db : Option Db) → OpenOnOk (create_tables run stmts (rc, db))
  unfolding create_tables
  create_tables-OpenOnOk [] ok none = refl
  create_tables-OpenOnOk [] ok (some db) = tt
  create_tables-OpenOnOk [] fail db = refl
  create_tables-OpenOnOk (stmt ∷ stmts) ok none = refl
  create_tables-OpenOnOk (stmt ∷ stmts) fail db = refl
  create_tables-OpenOnOk (stmt ∷ stmts) ok (some db) =
      create_tables-OpenOnOk stmts (db_exec run stmt db).0 (some (db_exec run stmt db).1)

  event_db_open-OpenOnOk : (opened : Option Db) → OpenOnOk (event_db_open run opened)
  unfolding event_db_open
  event_db_open-OpenOnOk opened = create_tables-OpenOnOk _ _ _

  create_day_table-IsOpen :
      (rc : Rc) (db : Option Db)
      → (create_day_table run (rc, db)).0 ≡ ok
      → IsOpen (create_day_table run (rc, db)).1
  unfolding create_day_table
  create_day_table-IsOpen fail db h = absurd cc
  create_day_table-IsOpen ok none h = absurd cc
  create_day_table-IsOpen ok (some db) h = tt

  meta_db_ensure_day-IsOpen :
      (db : Option Db) (date : List ℕ) → IsOpen db → IsOpen (meta_db_ensure_day run db date)
  unfolding meta_db_ensure_day
  meta_db_ensure_day-IsOpen none date h = elim h [ ]
  meta_db_ensure_day-IsOpen (some db) date h = tt

module _ {Db Media : Type 0} where
  -- A segment that is open for frames on the day that `open_today` has met: its row is inserted, nothing
  -- is written yet, and a keyframe must come first.
  pub record Fresh (run : Stmt → Db → Answer × Db) (o : Opening Db Media) (ws : Writer Db Media)
      : Type 0 where
    pub day : ws.day_of_year ≡ o.today.yday
    pub hls : IsOpen ws.hls
    pub muxer : ws.hls ≡ o.media
    pub m3u : IsOpen ws.m3u
    pub row :
        (db : Db) × (ws.event_db
          ≡ some
              (run
                (insert_segment (folder_name ws.interrupt_idx) (start_time o.segment_time o.usec))
                db).1)
        × (ws.current_segment_id
            ≡ inserted_id
                (run
                  (insert_segment (folder_name ws.interrupt_idx) (start_time o.segment_time o.usec))
                  db).0)
    pub has_id : ltb_ℤ ws.current_segment_id (pos 0) ≡ false
    pub no_keyframe : ws.seen_keyframe ≡ false
    pub no_frames : ws.frame_count ≡ 0
    pub no_motion : ws.motion_count ≡ 0

  abbrev pub Opened : (Stmt → Db → Answer × Db) → Opening Db Media → Rc × Writer Db Media → Type 0
  Opened run o (ok, ws) = Fresh run o ws
  Opened run o (fail, ws) = ws.event_db ≡ none

  -- What `storage_init` promises.
  abbrev pub Ready : (Stmt → Db → Answer × Db) → Opening Db Media → Rc × Service Db Media → Type 0
  Ready run o (ok, s) = (s.started ≡ true) × Fresh run o s.ws × IsOpen s.ws.meta_db
  Ready run o (fail, s) = (s.started ≡ false) × (s.ws.event_db ≡ none)

  module _ {Float : Type 0} (media_input : Media → Option Input → (Rc → Media) × Option Segment)
      (hls_duration : ℕ) (run : Stmt → Db → Answer × Db) (cfg : Config Float) where
    -- A segment whose row is inserted, and that has no muxer yet.
    record Named (o : Opening Db Media) (ws : Writer Db Media) : Type 0 where
      day : ws.day_of_year ≡ o.today.yday
      row :
          (db : Db) × (ws.event_db
            ≡ some
                (run
                  (insert_segment (folder_name ws.interrupt_idx) (start_time o.segment_time o.usec))
                  db).1)
          × (ws.current_segment_id
              ≡ inserted_id
                  (run
                    (insert_segment
                      (folder_name ws.interrupt_idx)
                      (start_time o.segment_time o.usec))
                    db).0)
      has_id : ltb_ℤ ws.current_segment_id (pos 0) ≡ false
      no_keyframe : ws.seen_keyframe ≡ false
      no_frames : ws.frame_count ≡ 0
      no_motion : ws.motion_count ≡ 0

    create-Opened :
        (o : Opening Db Media) (media : Option Media) (playlist : Bool) (ws : Writer Db Media)
        → media ≡ o.media
        → Named o ws
        → Opened run o (
            close_on_fail media_input hls_duration run cfg.ivs.fps_low
              (hls_create media_input hls_duration media playlist ws))
    unfolding close_on_fail hls_create event_db_close
    create-Opened o none playlist ws e n = refl
    create-Opened o (some media) false ws e n = refl
    create-Opened o (some media) true ws e n = record {
      day = n.day;
      hls = tt;
      muxer = e;
      m3u = tt;
      row = n.row;
      has_id = n.has_id;
      no_keyframe = n.no_keyframe;
      no_frames = n.no_frames;
      no_motion = n.no_motion;
    }

    with_event_db-Opened :
        (o : Opening Db Media) (rc : Rc) (db : Option Db) (ws : Writer Db Media)
        → OpenOnOk (rc, db)
        → ws.day_of_year ≡ o.today.yday
        → Opened run o (with_event_db media_input hls_duration run cfg.ivs.fps_low o (rc, db) ws)
    unfolding with_event_db start_segment event_db_add_segment close_on_fail event_db_close
    with_event_db-Opened o fail db ws h d = h
    with_event_db-Opened o ok none ws h d = elim h [ ]
    with_event_db-Opened o ok (some db) ws h d =
        if_elim (λ r. Opened run o (close_on_fail media_input hls_duration run cfg.ivs.fps_low r))
          (ltb_ℤ
            (inserted_id
              (run
                (insert_segment (folder_name ws.interrupt_idx) (start_time o.segment_time o.usec))
                db).0)
            (pos 0))
          _ _ (λ _. refl)
          (λ b. create-Opened o o.media o.playlist _ refl (record {
            day = d;
            row = (db, refl, refl);
            has_id = b;
            no_keyframe = refl;
            no_frames = refl;
            no_motion = refl;
          }))

    pub open_today-Opened :
        (o : Opening Db Media) (rc : Rc) (ws : Writer Db Media)
        → ws.event_db ≡ none
        → ws.day_of_year ≡ o.today.yday
        → Opened run o (with_folder media_input hls_duration run cfg.ivs.fps_low o rc ws)
    unfolding with_folder
    open_today-Opened o fail ws h d = h
    open_today-Opened o ok ws h d =
        with_event_db-Opened o (event_db_open run o.event_db).0 (event_db_open run o.event_db).1
          (record ws { stored = empty_folder }) (event_db_open-OpenOnOk run o.event_db) d

    -- What the thread signals.
    abbrev Signalled : Opening Db Media → Rc × Writer Db Media → Type 0
    Signalled o (ok, ws) = Fresh run o ws × IsOpen ws.meta_db
    Signalled o (fail, ws) = ws.event_db ≡ none

    with_meta_db-Signalled :
        (writes : ℕ → Rc × Rc × ℕ) (o : Opening Db Media) (rc : Rc) (db : Option Db)
        (ws : Writer Db Media)
        → (rc ≡ ok → IsOpen db)
        → Fresh run o ws
        → Signalled o (with_meta_db media_input hls_duration run cfg writes (rc, db) ws)
    unfolding with_meta_db event_db_close
    with_meta_db-Signalled writes o fail db ws h f = refl
    with_meta_db-Signalled writes o ok db ws h f = (
      record {
        day = f.day;
        hls = f.hls;
        muxer = f.muxer;
        m3u = f.m3u;
        row = f.row;
        has_id = f.has_id;
        no_keyframe = f.no_keyframe;
        no_frames = f.no_frames;
        no_motion = f.no_motion;
      },
      meta_db_ensure_day-IsOpen run db ws.date (h refl),
    )

    with_today-Signalled :
        (writes : ℕ → Rc × Rc × ℕ) (o : Opening Db Media) (meta : Option Db) (rc : Rc)
        (ws : Writer Db Media)
        → Opened run o (rc, ws)
        → Signalled o (with_today media_input hls_duration run cfg writes meta (rc, ws))
    unfolding with_today meta_db_init
    with_today-Signalled writes o meta fail ws h = h
    with_today-Signalled writes o meta ok ws h =
        with_meta_db-Signalled writes o _ _ ws
          (create_day_table-IsOpen run (db_open_rw run meta true).0 (db_open_rw run meta true).1) h

    boot-Signalled :
        (writes : ℕ → Rc × Rc × ℕ) (o : Opening Db Media) (meta : Option Db) (ws : Writer Db Media)
        → ws.event_db ≡ none
        → Signalled o (boot media_input hls_duration run cfg writes o meta ws)
    unfolding boot open_today
    boot-Signalled writes o meta ws h =
        with_today-Signalled writes o meta _ _ (open_today-Opened o o.segment_dir _ h refl)

    with_boot-Ready :
        (o : Opening Db Media) (rc : Rc) (ws : Writer Db Media)
        → Signalled o (rc, ws)
        → Ready run o (with_boot media_input hls_duration run cfg (rc, ws))
    unfolding with_boot
    with_boot-Ready o ok ws h = (refl, h.0, h.1)
    with_boot-Ready o fail ws h = (refl, h)

    -- When `storage_init` returns 0, the writer runs with both databases, a new muxer and a playlist
    -- open, on the day that it has met; the row of its segment is inserted, with an id that is not
    -- negative; and it has no frame and no motion event yet and waits for a keyframe. When it returns -1,
    -- from a service that is not started, no writer runs and the day's database is closed.
    pub storage_init-Ready :
        (created : Bool) (writes : ℕ → Rc × Rc × ℕ) (o : Opening Db Media) (meta : Option Db)
        (s : Service Db Media)
        → s.started ≡ false
        → Ready run o (storage_init media_input hls_duration run cfg created writes o meta s)
    unfolding storage_init
    storage_init-Ready created writes o meta s stopped =
        if_elim (Ready run o) created _ _
          (λ _. with_boot-Ready o _ _ (boot-Signalled writes o meta _ refl)) (λ _. (stopped, refl))
