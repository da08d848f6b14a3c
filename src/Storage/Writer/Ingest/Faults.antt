-- ===== src/Storage/Writer/Ingest/Faults.antt =====
-- `ingest_frame` of src/storage.c: inputs for which it is not defined.
use montion_sense.Prelude.{
  ℕ, ◌≡◌, ◌≢◌, refl, sym, subst, ap, arith, Bool, true, not, ◌&&◌, Option, none, some, List, ◌==◌,
  both_true, if_elim, Rc, ok, fail,
}
use montion_sense.Prelude.Int.{ℤ, pos, eq_ℤ}
use montion_sense.Config.{Config}
use montion_sense.FrameQueue.{Slot}
use montion_sense.Storage.Sql.{Stmt, Answer}
use montion_sense.Storage.Writer.{
  Writer, Opening, Input, Segment, flush_media, hls_flush_and_destroy, with_folder, open_today,
  ensure_on_ok, rollover_day,
}
use montion_sense.Storage.Writer.Ingest.{
  Moment, quotient, divides, count_motion, update_if, account, finish, write_frame, from_keyframe,
  today_writer, ingest_frame,
}

module _ {Db Media Float : Type 0}
    (media_input : Media → Option Input → (Rc → Media) × Option Segment) (hls_duration : ℕ)
    (run : Stmt → Db → Answer × Db) (cfg : Config Float) where
  flush_media-closed :
      (writes : ℕ → Rc × Rc × ℕ) (o : Option Media) (ws : Writer Db Media)
      → ws.hls ≡ o
      → (flush_media media_input hls_duration writes o ws).hls ≡ none
  unfolding flush_media
  flush_media-closed writes none ws e = e
  flush_media-closed writes (some media) ws e = refl

  no_folder-closed :
      (o : Opening Db Media) (rc : Rc) (ws : Writer Db Media)
      → rc ≡ fail
      → ws.hls ≡ none
      → (ensure_on_ok media_input hls_duration run cfg.ivs.fps_low
          (with_folder media_input hls_duration run cfg.ivs.fps_low o rc ws)).1.hls
        ≡ none
  unfolding ensure_on_ok with_folder
  no_folder-closed o fail ws e h = h
  no_folder-closed o ok ws e h = absurd cc

  write_frame-none :
      (m : Moment Db Media) (f : Slot) (o : Option Media) (ws : Writer Db Media)
      (present : List ℕ → Bool)
      → o ≡ none
      → write_frame media_input hls_duration run cfg m f o ws present ≡ none
  unfolding write_frame
  write_frame-none m f none ws present e = refl
  write_frame-none m f (some media) ws present e = absurd cc

  from_keyframe-none :
      (m : Moment Db Media) (f : Slot) (ws : Writer Db Media) (present : List ℕ → Bool)
      → ws.hls ≡ none
      → f.is_key ≡ true
      → from_keyframe media_input hls_duration run cfg m f ws present ≡ none
  unfolding from_keyframe
  from_keyframe-none m f ws present e key =
      if_elim (λ o. o ≡ none) (not ws.seen_keyframe && not f.is_key) _ _
        (λ b.
          let h = (both_true (not ws.seen_keyframe) (not f.is_key) b).1 in
          let g = ap not key in absurd cc)
        (λ _. write_frame-none m f ws.hls _ present e)

  -- A rollover whose segment folder cannot be made leaves no muxer, and the next keyframe is then
  -- written to it: `ingest_frame` is undefined.
  pub ingest_frame-no_muxer :
      (m : Moment Db Media) (f : Slot) (ws : Writer Db Media) (present : List ℕ → Bool)
      → m.yday ≢ ws.day_of_year
      → m.opening.segment_dir ≡ fail
      → f.is_key ≡ true
      → ingest_frame media_input hls_duration run cfg m f (ws, present) ≡ none
  unfolding ingest_frame today_writer rollover_day open_today hls_flush_and_destroy
  ingest_frame-no_muxer m f ws present changed bad key =
      if_elim
        (λ (w : Writer Db Media).
          from_keyframe media_input hls_duration run cfg m f w present ≡ none)
        (m.yday == ws.day_of_year) _ _ (λ b. absurd (changed (ground arith)))
        (λ _.
          from_keyframe-none m f _ present
            (no_folder-closed m.opening m.opening.segment_dir _ bad
              (flush_media-closed m.writes ws.hls ws refl))
            key)

  -- With a low rate of 0, which the configuration file may set, a keyframe that is taken at the high rate
  -- divides by zero: `ingest_frame` is undefined.
  pub ingest_frame-zero_rate :
      (m : Moment Db Media) (f : Slot) (ws : Writer Db Media) (present : List ℕ → Bool)
      → cfg.ivs.fps_low ≡ pos 0
      → m.current_fps ≡ cfg.ivs.fps_high
      → f.is_key ≡ true
      → ingest_frame media_input hls_duration run cfg m f (ws, present) ≡ none
  unfolding ingest_frame from_keyframe account write_frame finish update_if divides quotient
  ingest_frame-zero_rate m f ws present low high key =
      let today = today_writer media_input hls_duration run cfg m ws in
      if_elim (λ o. o ≡ none) (not today.seen_keyframe && not f.is_key) _ _
        (λ b.
          let h = (both_true (not today.seen_keyframe) (not f.is_key) b).1 in
          let g = ap not key in absurd cc)
        (λ _. no_frame today.hls _)
    where
      same_rate : (a : ℤ) → eq_ℤ a a ≡ true
      same_rate a = ground arith

      undivided : (w : Writer Db Media) → account media_input hls_duration run cfg m w ≡ none
      undivided w =
          let rate : eq_ℤ m.current_fps cfg.ivs.fps_high ≡ true =
            subst (λ a. eq_ℤ a cfg.ivs.fps_high ≡ true) (sym high) (same_rate cfg.ivs.fps_high) in
          let counted = count_motion media_input hls_duration run cfg m.now w in
          let no_ratio : quotient cfg.ivs.fps_high cfg.ivs.fps_low ≡ none =
            ap (quotient cfg.ivs.fps_high) low in
          if_elim (λ o. o ≡ none) (eq_ℤ m.current_fps cfg.ivs.fps_high) _ _
            (λ _.
              ap
                (λ o.
                  update_if media_input hls_duration run cfg (divides o counted.frame_count)
                    counted)
                no_ratio)
            (λ b. absurd cc)

      no_frame :
          (o : Option Media) (w : Writer Db Media)
          → write_frame media_input hls_duration run cfg m f o w present ≡ none
      no_frame none w = refl
      no_frame (some media) w =
          ap (λ o. finish media_input hls_duration run cfg m o present) (undivided _)
