-- ===== src/Storage/Writer/Ingest/Spared.antt =====
-- The loop of `writer_thread` of src/storage.c over the frames of one day: that day keeps its files.
use montion_sense.Prelude.{
  Rc, ℕ, ◌+◌, ◌/◌, ◌≤◌, ◌≡◌, inl, sym, ◌∙◌, ap, subst, arith, Bool, true, not, ◌&&◌, Option, none,
  some, List, [], ◌∷◌, ◌==◌, if_elim, length,
}
use montion_sense.Prelude.Int.{pos}
use montion_sense.Config.{Config}
use montion_sense.FrameQueue.{Slot}
use montion_sense.Storage.Sql.{Stmt, Answer}
use montion_sense.Storage.Retention.Engine.{Engine}
use montion_sense.Storage.Writer.{Writer, Input, Segment, feed}
use montion_sense.Storage.Writer.Ingest.{
  Moment, State, account, finish, write_frame, from_keyframe, today_writer, ingest_frame,
}
use montion_sense.Storage.Writer.Ingest.Returns.{Leaves, Returns-Leaves}
use montion_sense.Storage.Writer.Ingest.Kept.{Kept, feed-kept, feed-meta_db}
use montion_sense.Storage.Writer.Ingest.Today.{
  Guarded, Recording, check_and_cleanup-Recording, RecordingIf, account-RecordingIf,
}
use montion_sense.Storage.Writer.Ingest.Alive.{Fed, ingest_frame-Alive}
use montion_sense.Storage.Writer.Ingest.Reels.{ingest_next-Returns, ingest_all}

module _ {Db : Type 0} {run : Stmt → Db → Answer × Db} (engine : Engine run) (date : List ℕ)
    (short : length date ≤ 15) where
  -- The writer has returned, and records on this day, which has these files on the card.
  abbrev pub StillRecording : {Media : Type 0} → ℕ → Bool → Option (State Db Media) → Type 0
  StillRecording day files none = ⊥
  StillRecording day files (some (ws, present)) = Recording engine date short day files ws present

  module _ {Media Float : Type 0}
      (media_input : Media → Option Input → (Rc → Media) × Option Segment) (hls_duration : ℕ)
      (cfg : Config Float) (day : ℕ) (files : Bool) where
    -- What a frame leaves, where it is defined.
    abbrev pub LeftRecording : Option (State Db Media) → Type 0
    LeftRecording = Leaves (λ s. Recording engine date short day files s.0 s.1)

    finish-LeftRecording :
        (m : Moment Db Media) (o : Option (Writer Db Media)) (present : List ℕ → Bool)
        → RecordingIf engine date short media_input hls_duration cfg day files o present
        → LeftRecording (finish media_input hls_duration run cfg m o present)
    unfolding finish
    finish-LeftRecording m none present r = tt
    finish-LeftRecording m (some ws) present r =
        check_and_cleanup-Recording engine date short cfg.storage m.space day files ws present r

    write_frame-LeftRecording :
        (m : Moment Db Media) (f : Slot) (o : Option Media) (ws : Writer Db Media)
        (present : List ℕ → Bool)
        → Recording engine date short day files ws present
        → LeftRecording (write_frame media_input hls_duration run cfg m f o ws present)
    unfolding write_frame feed
    write_frame-LeftRecording m f none ws present r = tt
    write_frame-LeftRecording m f (some media) ws present r =
        let x : Input = record { bytes = f.bytes; pts = ws.pts_ms; keyframe = f.is_key } in
        let fed = feed media_input hls_duration m.writes media (some x) ws in
        let counted = record fed { frame_count = fed.frame_count + 1; last_fps = m.current_fps } in
        let same = feed-kept media_input hls_duration m.writes media (some x) ws in
        finish-LeftRecording m (account media_input hls_duration run cfg m counted) present (
          account-RecordingIf engine date short media_input hls_duration cfg day files m counted
            present
            (record {
              on_date = ap (λ (k : Kept Db Media). k.date) same ∙ r.on_date;
              on_day = ap (λ (k : Kept Db Media). k.day_of_year) same ∙ r.on_day;
              same_files = r.same_files;
              guarded =
                  subst (Guarded engine date short)
                    (sym (feed-meta_db media_input hls_duration m.writes media (some x) ws))
                    r.guarded;
            }))

    -- A frame of the same day.
    ingest_frame-LeftRecording :
        (m : Moment Db Media) (f : Slot) (ws : Writer Db Media) (present : List ℕ → Bool)
        → m.yday ≡ ws.day_of_year
        → Recording engine date short day files ws present
        → LeftRecording (ingest_frame media_input hls_duration run cfg m f (ws, present))
    unfolding ingest_frame from_keyframe today_writer
    ingest_frame-LeftRecording m f ws present same r =
        if_elim
          (λ (w : Writer Db Media).
            LeftRecording (from_keyframe media_input hls_duration run cfg m f w present))
          (m.yday == ws.day_of_year) _ _
          (λ _.
            if_elim LeftRecording (not ws.seen_keyframe && not f.is_key) _ _ (λ _. r)
              (λ _.
                write_frame-LeftRecording m f ws.hls
                  (record ws { seen_keyframe = true; pts_ms = f.pts_us / 1000 }) present
                  (record {
                    on_date = r.on_date;
                    on_day = r.on_day;
                    same_files = r.same_files;
                    guarded = r.guarded;
                  })))
          (λ b. absurd (ground arith))

    -- All frames are of the day.
    abbrev pub AllToday : List (Moment Db Media × Slot) → Type 0
    AllToday [] = Unit {0}
    AllToday ((m, f) ∷ xs) = (m.yday ≡ day) × AllToday xs

    abbrev Any : Media → Type 0
    Any _ = Unit {0}

    -- With rates of at least 1 of which the low one is not above the high one: however many frames of one
    -- day the writer takes, and however full the card becomes, no clean-up deletes the files of that day;
    -- the writer goes on without undefined behaviour, and the day's row does not wait for deletion. The
    -- writer has a muxer, the day's deletion is not pending at the start, the dates of the table and the
    -- day's have at most 15 bytes, and the database keeps the contract of `Storage.Retention.Engine`.
    pub ingest_all-Recording :
        (low high : ℕ)
        → cfg.ivs.fps_low ≡ pos low
        → cfg.ivs.fps_high ≡ pos high
        → 1 ≤ low
        → low ≤ high
        → (xs : List (Moment Db Media × Slot)) (ws : Writer Db Media) (present : List ℕ → Bool)
        → AllToday xs
        → Fed media_input Any ws.hls ws.seen_keyframe
        → Recording engine date short day files ws present
        → StillRecording day files (ingest_all media_input hls_duration run cfg xs (ws, present))
    unfolding ingest_all
    ingest_all-Recording low high l h one_le le [] ws present t a r = r
    ingest_all-Recording low high l h one_le le ((m, f) ∷ xs) ws present t a r =
        let o = ingest_frame media_input hls_duration run cfg m f (ws, present) in
        ingest_next-Returns media_input hls_duration run cfg
          (λ s.
            Fed media_input Any s.0.hls s.0.seen_keyframe
            × Recording engine date short day files s.0 s.1)
          (StillRecording day files) (ingest_all media_input hls_duration run cfg xs)
          (λ s p. ingest_all-Recording low high l h one_le le xs s.0 s.1 t.1 p.0 p.1) o
          (Returns-Leaves (λ s. Fed media_input Any s.0.hls s.0.seen_keyframe)
            (λ s. Recording engine date short day files s.0 s.1) o
            (ingest_frame-Alive media_input hls_duration run cfg Any low high l h one_le le m f ws
              present (λ _ _. tt) a (inl (t.0 ∙ sym r.on_day)))
            (ingest_frame-LeftRecording m f ws present (t.0 ∙ sym r.on_day) r))
