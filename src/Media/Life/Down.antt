-- ===== src/Media/Life/Down.antt =====
-- `media_init` of src/media.c, when it returns -1.
use montion_sense.Prelude.{◌≡◌, refl, arith, Bool, true, false, not, none, if_elim, fail}
use montion_sense.Config.{Config}
use montion_sense.Media.{Board, Answers, off}
use montion_sense.Media.Devices.{vi_dev_init, enable_device, aiq_init}
use montion_sense.Media.Pipelines.{
  record_pipeline_init, motion_pipeline_init, stream_pipeline_init, stream_encoder,
}
use montion_sense.Media.Life.{
  start_threads, start_rated, start_producers, init_motion, init_stream, init_record, init_aiq,
  media_init,
}
use montion_sense.Media.Life.Labels.{
  Quiet, Idle, Down, DownOnFail, or_goto-DownOnFail, same-Quiet, fail_sys-Down, fail_vi-Down,
  fail_aiq-Down, fail_pipe0-Down, fail_pipe1-Down, fail_threads-Down, off-Idle, off-Down,
}

module _ {Float : Type 0} (cfg : Config Float) (a : Answers) where
  start_threads-Down : (b : Board) → DownOnFail (start_threads cfg a b)
  unfolding start_threads
  start_threads-Down b =
      if_elim DownOnFail (not a.h264_thread) _ _ (λ _. fail_threads-Down _)
        (λ _.
          if_elim DownOnFail (not a.mjpeg_thread) _ _ (λ _. fail_threads-Down _)
            (λ _.
              if_elim DownOnFail (not a.ivs_thread) _ _ (λ _. fail_threads-Down _)
                (λ _ h. absurd cc)))

  motion-Quiet : (b : Board) → Quiet b → Quiet (motion_pipeline_init cfg a b).1
  unfolding motion_pipeline_init
  motion-Quiet b q = same-Quiet b _ q (ground arith) (ground arith) (ground arith) (ground arith)

  stream-Quiet : (b : Board) → Quiet b → Quiet (stream_pipeline_init cfg a b).1
  unfolding stream_pipeline_init stream_encoder
  stream-Quiet b q = same-Quiet b _ q (ground arith) (ground arith) (ground arith) (ground arith)

  record-Quiet : (b : Board) → Quiet b → Quiet (record_pipeline_init cfg a b).1
  unfolding record_pipeline_init
  record-Quiet b q = same-Quiet b _ q (ground arith) (ground arith) (ground arith) (ground arith)

  record-Idle :
      (b : Board)
      → Idle b
      → (record_pipeline_init cfg a b).0 ≡ fail
      → Idle (record_pipeline_init cfg a b).1
  unfolding record_pipeline_init
  record-Idle b d h =
      let e : b.venc_h264 ≡ none = d.venc_h264 in
      let r : b.recv_h264 ≡ false = d.recv_h264 in
      record { quiet = record-Quiet b d.quiet; venc_h264 = ground arith; recv_h264 = ground arith }

  init_motion-Down : (b : Board) → Quiet b → DownOnFail (init_motion cfg a b)
  unfolding init_motion start_producers start_rated
  init_motion-Down b q =
      or_goto-DownOnFail _ _ _ (λ _. fail_pipe1-Down _ (motion-Quiet b q))
        (λ _. start_threads-Down _)

  init_stream-Down : (b : Board) → Quiet b → DownOnFail (init_stream cfg a b)
  unfolding init_stream
  init_stream-Down b q =
      or_goto-DownOnFail _ _ _ (λ _. fail_pipe0-Down _ (stream-Quiet b q))
        (λ _. init_motion-Down _ (stream-Quiet b q))

  init_record-Down : (b : Board) → Idle b → DownOnFail (init_record cfg a b)
  unfolding init_record
  init_record-Down b d =
      or_goto-DownOnFail _ _ _ (λ h. fail_aiq-Down _ (record-Idle b d h))
        (λ _. init_stream-Down _ (record-Quiet b d.quiet))

  aiq-Idle : (b : Board) → Idle b → Idle (aiq_init a b).1
  unfolding aiq_init
  aiq-Idle b d =
      let e : b.venc_h264 ≡ none = d.venc_h264 in
      let r : b.recv_h264 ≡ false = d.recv_h264 in
      record {
        quiet = same-Quiet b _ d.quiet (ground arith) (ground arith) (ground arith) (ground arith);
        venc_h264 = ground arith;
        recv_h264 = ground arith;
      }

  aiq_failed : (b : Board) → b.aiq ≡ false → (aiq_init a b).0 ≡ fail → (aiq_init a b).1.aiq ≡ false
  unfolding aiq_init
  aiq_failed b q h = ground arith

  init_aiq-Down : (b : Board) → Idle b → b.aiq ≡ false → DownOnFail (init_aiq cfg a b)
  unfolding init_aiq
  init_aiq-Down b d q =
      or_goto-DownOnFail _ _ _ (λ h. fail_vi-Down _ (aiq-Idle b d) (aiq_failed b q h))
        (λ _. init_record-Down _ (aiq-Idle b d))

  -- The device touches nothing of this.
  vi_dev_lem : (b : Board) → (v : Bool) × ((vi_dev_init a b).1 ≡ record b { vi_dev = v })
  unfolding vi_dev_init enable_device
  vi_dev_lem b = ((vi_dev_init a b).1.vi_dev, ground arith)

  media_init-DownOnFail : DownOnFail (media_init cfg a off)
  unfolding media_init
  media_init-DownOnFail =
      if_elim DownOnFail (not a.sys_init) _ _ (λ _ _. off-Down)
        (λ _.
          let v = vi_dev_lem (record off { sys = true }) in
          let idle : Idle (vi_dev_init a (record off { sys = true })).1 = rw v.1 (record {
            quiet = same-Quiet off _ off-Idle.quiet refl refl refl refl;
            venc_h264 = refl;
            recv_h264 = refl;
          }) in
          let q : (vi_dev_init a (record off { sys = true })).1.aiq ≡ false = rw v.1 refl in
          or_goto-DownOnFail _ _ _ (λ _. fail_sys-Down _ idle q) (λ _. init_aiq-Down _ idle q))

  -- A `media_init` that fails at the program's start leaves no H264 encoder, no image processor, no vendor's
  -- system and no producer thread but the overlay's, whichever of its calls it is that fails.
  pub media_init-Down : (media_init cfg a off).0 ≡ fail → Down (media_init cfg a off).1
  media_init-Down h = media_init-DownOnFail h
