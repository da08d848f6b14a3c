-- ===== src/Storage/Writer/Ingest/Logged.antt =====
-- The loop of `writer_thread` of src/storage.c against the rows of the day's database.
use montion_sense.Prelude.{
  ℕ, ◌+◌, ◌/◌, ◌≤◌, ◌≡◌, inl, inr, refl, sym, ◌∙◌, ap, subst, arith, Bool, true, false, not, ◌&&◌,
  Option, none, some, List, [], ◌∷◌, ◌==◌, if_elim, Rc, ok, fail,
}
use montion_sense.Prelude.Int.{ℤ, pos, ltb_ℤ, eq_ℤ, to_int}
use montion_sense.Config.{Config}
use montion_sense.FrameQueue.{Slot}
use montion_sense.Storage.Sql.{Stmt, insert_segment, Answer, prepare_error, step_error, done, row}
use montion_sense.Storage.Paths.{folder_name, start_time}
use montion_sense.Storage.EventDb.{inserted_id, event_db_close}
use montion_sense.Storage.EventDb.Journal.{Journal, totals_after, marks_after}
use montion_sense.Storage.EventDb.Rows.{Marked, no_marks, Total, raise-Total}
use montion_sense.Storage.Writer.{
  Writer, Opening, Input, Segment, feed, open_today, ensure_on_ok, rollover_day,
}
use montion_sense.Storage.Writer.Ingest.{
  Moment, State, account, finish, write_frame, from_keyframe, today_writer, ingest_frame,
}
use montion_sense.Storage.Writer.Ingest.Returns.{Returns, Leaves, Returns-Leaves}
use montion_sense.Storage.Writer.Ingest.Kept.{Kept, kept, feed-kept, check_and_cleanup-kept}
use montion_sense.Storage.Writer.Ingest.Journaled.{
  Upto, Journaled, JournaledIf, account-JournaledIf,
}
use montion_sense.Storage.Writer.Ingest.Alive.{Fed, ingest_frame-Alive}
use montion_sense.Storage.Writer.Ingest.Reels.{ingest_next-Returns, ingest_all}
use montion_sense.Storage.Writer.Thread.Drain.{Openable}
use montion_sense.Storage.Writer.Thread.Boot.{Fresh, Opened, open_today-Opened}

module _ {Db : Type 0} {run : Stmt → Db → Answer × Db} (journal : Journal run) where
  -- A row that has just been inserted.
  inserted-Total :
      (a : Answer) (folder start : List ℕ) (t : ℤ → Option ℤ)
      → ltb_ℤ (inserted_id a) (pos 0) ≡ false
      → Total 0 (totals_after a (insert_segment folder start) t (inserted_id a))
  unfolding totals_after inserted_id
  inserted-Total prepare_error folder start t h = absurd cc
  inserted-Total step_error folder start t h = absurd cc
  inserted-Total (row text) folder start t h = absurd cc
  inserted-Total (done changes rowid) folder start t h =
      if_elim (Total 0) (eq_ℤ (to_int rowid) (to_int rowid)) _ _ (λ _. inl refl)
        (λ b. absurd (ground arith))

  inserted-marks :
      (db : Db) (folder start : List ℕ) (a : Answer)
      → (run (insert_segment folder start) db).0 ≡ a
      → ltb_ℤ (inserted_id a) (pos 0) ≡ false
      → marks_after a (insert_segment folder start) (journal.marks db) (inserted_id a) ≡ []
  unfolding marks_after inserted_id
  inserted-marks db folder start prepare_error e h = absurd cc
  inserted-marks db folder start step_error e h = absurd cc
  inserted-marks db folder start (row text) e h = absurd cc
  inserted-marks db folder start (done changes rowid) e h =
      journal.unused folder start db changes rowid e

  pub Fresh-Journaled :
      {Media : Type 0} (o : Opening Db Media) (ws : Writer Db Media)
      → Fresh run o ws
      → Journaled journal (kept ws)
  Fresh-Journaled o ws f =
      let (db, opened, id) = f.row in
      let folder = folder_name ws.interrupt_idx in
      let start = start_time o.segment_time o.usec in
      let stmt = insert_segment folder start in
      let a = (run stmt db).0 in
      let has : ltb_ℤ (inserted_id a) (pos 0) ≡ false =
        subst (λ z. ltb_ℤ z (pos 0) ≡ false) id f.has_id in
      record {
        db = (run (insert_segment folder start) db).1;
        open_db = opened;
        has_id = f.has_id;
        total =
            subst (λ z. Total ws.frame_count (journal.totals (run stmt db).1 z)) (sym id)
              (raise-Total 0 ws.frame_count _
                (subst (Total 0) (sym (journal.totals_run stmt db (inserted_id a)))
                  (inserted-Total a folder start (journal.totals db) has))
                (omega arith));
        marked =
            subst (Marked ws.frame_count ws.motion_count)
              (sym (
                ap (journal.marks (run stmt db).1) id
                ∙ journal.marks_run stmt db (inserted_id a)
                ∙ inserted-marks db folder start a refl has))
              (no_marks ws.frame_count ws.motion_count);
      }

  -- The writer has returned, and its rows are so.
  abbrev pub Logged : {Media : Type 0} → Option (State Db Media) → Type 0
  Logged = Returns (λ s. Journaled journal (kept s.0))

  module _ {Media Float : Type 0}
      (media_input : Media → Option Input → (Rc → Media) × Option Segment) (hls_duration : ℕ)
      (cfg : Config Float) where
    abbrev LoggedIf : Option (State Db Media) → Type 0
    LoggedIf = Leaves (λ s. Journaled journal (kept s.0))

    -- At each of the moments a new day's segment can be opened, with a new muxer.
    abbrev pub AllOpenableFrames : (Media → Type 0) → List (Moment Db Media × Slot) → Type 0
    AllOpenableFrames New [] = Unit {0}
    AllOpenableFrames New ((m, f) ∷ xs) =
        Openable media_input hls_duration run cfg New m × AllOpenableFrames New xs

    finish-LoggedIf :
        (m : Moment Db Media) (o : Option (Writer Db Media)) (present : List ℕ → Bool)
        → JournaledIf journal media_input hls_duration cfg o
        → LoggedIf (finish media_input hls_duration run cfg m o present)
    unfolding finish
    finish-LoggedIf m none present u = tt
    finish-LoggedIf m (some w) present u =
        subst (λ k. Journaled journal k)
          (sym (check_and_cleanup-kept run cfg.storage m.space w present)) u

    write_frame-LoggedIf :
        (m : Moment Db Media) (f : Slot) (o : Option Media) (ws : Writer Db Media)
        (present : List ℕ → Bool)
        → Journaled journal (kept ws)
        → LoggedIf (write_frame media_input hls_duration run cfg m f o ws present)
    unfolding write_frame feed
    write_frame-LoggedIf m f none ws present u = tt
    write_frame-LoggedIf m f (some media) ws present u =
        let x : Input = record { bytes = f.bytes; pts = ws.pts_ms; keyframe = f.is_key } in
        let fed = feed media_input hls_duration m.writes media (some x) ws in
        let counted = record fed { frame_count = fed.frame_count + 1; last_fps = m.current_fps } in
        let same = feed-kept media_input hls_duration m.writes media (some x) ws in
        let n : fed.frame_count ≡ ws.frame_count = ap (λ (k : Kept Db Media). k.frame_count) same in
        finish-LoggedIf m (account media_input hls_duration run cfg m counted) present (
          account-JournaledIf journal media_input hls_duration cfg m ws.frame_count counted
            (omega (arith, n))
            (subst
              (λ (k : Kept Db Media).
                Upto journal ws.frame_count (record k { frame_count = k.frame_count + 1 }))
              (sym same)
              (record {
                db = u.db;
                open_db = u.open_db;
                has_id = u.has_id;
                total = raise-Total ws.frame_count (ws.frame_count + 1) _ u.total (omega arith);
                marked = u.marked;
              })))

    from_keyframe-LoggedIf :
        (m : Moment Db Media) (f : Slot) (ws : Writer Db Media) (present : List ℕ → Bool)
        → Journaled journal (kept ws)
        → LoggedIf (from_keyframe media_input hls_duration run cfg m f ws present)
    unfolding from_keyframe
    from_keyframe-LoggedIf m f ws present u =
        if_elim LoggedIf (not ws.seen_keyframe && not f.is_key) _ _ (λ _. u)
          (λ _.
            write_frame-LoggedIf m f ws.hls
              (record ws { seen_keyframe = true; pts_ms = f.pts_us / 1000 }) present
              (record {
                db = u.db;
                open_db = u.open_db;
                has_id = u.has_id;
                total = u.total;
                marked = u.marked;
              }))

    ensure_on_ok-Journaled :
        (o : Opening Db Media) (r : Rc × Writer Db Media)
        → Opened run o r
        → (ensure_on_ok media_input hls_duration run cfg.ivs.fps_low r).0 ≡ ok
        → Journaled journal (kept (ensure_on_ok media_input hls_duration run cfg.ivs.fps_low r).1)
    unfolding ensure_on_ok
    ensure_on_ok-Journaled o (ok, ws) f h = Fresh-Journaled o ws f
    ensure_on_ok-Journaled o (fail, ws) f h = absurd cc

    rollover_day-Journaled :
        (writes : ℕ → Rc × Rc × ℕ) (o : Opening Db Media) (ws : Writer Db Media)
        → (rollover_day media_input hls_duration run cfg.ivs.fps_low writes o ws).0 ≡ ok
        → Journaled journal
            (kept (rollover_day media_input hls_duration run cfg.ivs.fps_low writes o ws).1)
    unfolding rollover_day open_today event_db_close
    rollover_day-Journaled writes o ws =
        ensure_on_ok-Journaled o _
          (open_today-Opened media_input hls_duration run cfg o o.segment_dir _ refl refl)

    ingest_frame-LoggedIf :
        (m : Moment Db Media) (f : Slot) (ws : Writer Db Media) (present : List ℕ → Bool)
        → (rollover_day media_input hls_duration run cfg.ivs.fps_low m.writes m.opening ws).0 ≡ ok
        → Journaled journal (kept ws)
        → LoggedIf (ingest_frame media_input hls_duration run cfg m f (ws, present))
    unfolding ingest_frame today_writer
    ingest_frame-LoggedIf m f ws present opens u =
        from_keyframe-LoggedIf m f (today_writer media_input hls_duration run cfg m ws) present (
          if_elim (λ (w : Writer Db Media). Journaled journal (kept w)) (m.yday == ws.day_of_year) _
            _ (λ _. u) (λ _. rollover_day-Journaled m.writes m.opening ws opens))

    -- With rates of at least 1 of which the low one is not above the high one, and whatever statements
    -- fail: after any frames over any days, the row of the open segment is there, its total_frames is -1
    -- or not above the number of frames that the segment has been given, and the motion_frame of its
    -- motion rows are numbers of such frames, each above the one before it, and no more of them than the
    -- motion events that have been counted. This holds if it holds at the start, as it does for a segment
    -- just opened; at each frame a new day's segment could be opened.
    pub ingest_all-Logged :
        (New : Media → Type 0) (low high : ℕ)
        → cfg.ivs.fps_low ≡ pos low
        → cfg.ivs.fps_high ≡ pos high
        → 1 ≤ low
        → low ≤ high
        → (xs : List (Moment Db Media × Slot)) (ws : Writer Db Media) (present : List ℕ → Bool)
        → AllOpenableFrames New xs
        → Fed media_input New ws.hls ws.seen_keyframe
        → Journaled journal (kept ws)
        → Logged (ingest_all media_input hls_duration run cfg xs (ws, present))
    unfolding ingest_all
    ingest_all-Logged New low high l h one_le le [] ws present o a u = u
    ingest_all-Logged New low high l h one_le le ((m, f) ∷ xs) ws present o a u =
        let o' = ingest_frame media_input hls_duration run cfg m f (ws, present) in
        ingest_next-Returns media_input hls_duration run cfg
          (λ s. Fed media_input New s.0.hls s.0.seen_keyframe × Journaled journal (kept s.0)) Logged
          (ingest_all media_input hls_duration run cfg xs)
          (λ s p. ingest_all-Logged New low high l h one_le le xs s.0 s.1 o.1 p.0 p.1) o'
          (Returns-Leaves (λ s. Fed media_input New s.0.hls s.0.seen_keyframe)
            (λ s. Journaled journal (kept s.0)) o'
            (ingest_frame-Alive media_input hls_duration run cfg New low high l h one_le le m f ws
              present o.0.new a (inr (o.0.opens ws)))
            (ingest_frame-LoggedIf m f ws present (o.0.opens ws) u))
