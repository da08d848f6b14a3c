-- ===== src/Media/Life/Stop.antt =====
-- `media_stop` and `media_deinit` of src/media.c: what is given back, and in which order.
use montion_sense.Prelude.{
  ◌≡◌, refl, ◌∙◌, ap, arith, Bool, Bool-cases, ◌⊎◌, inl, inr, true, false, not, Option, none,
  if_elim, if◌then◌else◌, Rc, fail,
}
use montion_sense.Prelude.Int.{ℤ}
use montion_sense.Config.{Config}
use montion_sense.WebSock.{no_socket}
use montion_sense.Media.{Board, Answers, off}
use montion_sense.Media.Devices.{vi_dev_deinit, aiq_stop}
use montion_sense.Media.Pipelines.{
  record_pipeline_deinit, motion_pipeline_deinit, stream_pipeline_deinit,
}
use montion_sense.Media.Overlay.{osd_deinit}
use montion_sense.Media.Life.{
  fail_sys, fail_vi, fail_aiq, fail_pipe0, fail_pipe1, fail_threads, start_threads, media_stop,
  drop_osd, release, media_deinit,
}

media_stop-stopped : (b : Board) → b.producers_run ≡ false → media_stop b ≡ b
unfolding media_stop
media_stop-stopped b h = rw h refl

media_stop-producers_run : (b : Board) → (media_stop b).producers_run ≡ false
unfolding media_stop
media_stop-producers_run b = ground arith

-- `main` stops the producers before it stops the storage, and only then calls `media_deinit`: this gives
-- what `media_deinit` alone gives.
pub media_deinit-media_stop : (b : Board) → media_deinit (media_stop b) ≡ media_deinit b
unfolding media_deinit
media_deinit-media_stop b =
    ap release (media_stop-stopped (media_stop b) (media_stop-producers_run b))

-- The overlay is up, or none of its regions is there.
abbrev pub Announced : Board → Type 0
Announced b = (b.osd_inited ≡ true) ⊎ ((b.region_h264 ≡ none) × (b.region_mjpeg ≡ none))

-- The font, which is destroyed with an overlay that is up.
abbrev pub font_after : Board → Option ℤ
font_after b = if b.osd_inited then none else b.font

pub aiq_stop_lem : (b : Board) → aiq_stop b ≡ record b { aiq = false }
unfolding aiq_stop
aiq_stop_lem b =
    if_elim (λ (c : Board). c ≡ record b { aiq = false }) (not b.aiq) _ _
      (λ h. let off_ : b.aiq ≡ false = ground arith in ap (λ (x : Bool). record b { aiq = x }) off_)
      (λ _. refl)

drop_osd_lem :
    (b : Board)
    → Announced b
    → drop_osd b ≡ record b {
      region_h264 = none;
      region_mjpeg = none;
      font = font_after b;
      osd_inited = false;
    }
unfolding drop_osd osd_deinit
drop_osd_lem b k = elim (Bool-cases b.osd_inited) [
  | inl e ↦ rw e refl
  | inr e ↦ elim k [
    | inl up ↦ absurd cc
    | inr bare ↦
        rw e (λ i. record b { region_h264 = bare.0 i; region_mjpeg = bare.1 i; osd_inited = false })
  ]
]

media_stop_lem :
    (b : Board)
    → b.producers_run ≡ true
    → media_stop b ≡ record b {
      producers_run = false;
      recv_h264 = false;
      recv_mjpeg = false;
      osd_started = false;
      h264_started = false;
      mjpeg_started = false;
      ivs_started = false;
      web = no_socket;
    }
unfolding media_stop
media_stop_lem b h = rw h refl

pub media_deinit-Off :
    (b : Board)
    → b.producers_run ≡ true
    → Announced b
    → media_deinit b ≡ record off { font = font_after b }
unfolding media_deinit release vi_dev_deinit record_pipeline_deinit motion_pipeline_deinit
    stream_pipeline_deinit
media_deinit-Off b h k = rw (media_stop_lem b h) (rw drop_osd_lem (rw aiq_stop_lem refl))

-- What `fail_threads` leaves of the board.
abbrev pub gone : Board → Board
gone b = record off {
  font = b.font;
  region_h264 = b.region_h264;
  region_mjpeg = b.region_mjpeg;
  osd_started = b.osd_started;
  osd_inited = b.osd_inited;
  web = b.web;
}

pub fail_threads_lem : (b : Board) → (fail_threads b).1 ≡ gone b
unfolding fail_threads fail_pipe1 fail_pipe0 fail_aiq fail_vi fail_sys vi_dev_deinit
    record_pipeline_deinit motion_pipeline_deinit stream_pipeline_deinit
fail_threads_lem b = rw aiq_stop_lem refl

drop_osd_any :
    (b : Board)
    → drop_osd b ≡ record b {
      region_h264 = if b.osd_inited then none else b.region_h264;
      region_mjpeg = if b.osd_inited then none else b.region_mjpeg;
      font = font_after b;
      osd_inited = false;
    }
unfolding drop_osd osd_deinit
drop_osd_any b = elim (Bool-cases b.osd_inited) [ inl e ↦ rw e refl | inr e ↦ rw e refl ]

-- What a `media_deinit` after that leaves.
abbrev pub left_over : Board → Board
left_over b = record off {
  region_h264 = if b.osd_inited then none else b.region_h264;
  region_mjpeg = if b.osd_inited then none else b.region_mjpeg;
  font = font_after b;
  osd_started = b.osd_started;
  web = b.web;
}

media_deinit-gone : (b : Board) → media_deinit (gone b) ≡ left_over b
unfolding media_deinit release vi_dev_deinit record_pipeline_deinit motion_pipeline_deinit
    stream_pipeline_deinit
media_deinit-gone b = rw (media_stop-stopped (gone b) refl) (rw drop_osd_any (rw aiq_stop_lem refl))

abbrev pub Stuck : Board → Rc × Board → Type 0
Stuck b r = (r.1 ≡ gone b) × (media_deinit r.1 ≡ left_over b)

fail_threads-Stuck : (b c : Board) → gone c ≡ gone b → Stuck b (fail_threads c)
fail_threads-Stuck b c e =
    let stopped = fail_threads_lem c ∙ e in (stopped, ap media_deinit stopped ∙ media_deinit-gone b)

abbrev StuckOnFail : Board → Rc × Board → Type 0
StuckOnFail b r = r.0 ≡ fail → Stuck b r

-- When a thread cannot be started, all are told to stop, those of the encoders and of the detector that
-- have been started are joined, and the device, the image processor and the pipelines are given back;
-- but nothing joins the overlay's thread, whose `s_osd_started` stays set, and the overlay and the
-- socket are kept. A `media_deinit` after it gives back an overlay that is up, still without joining its
-- thread, and leaves the socket open.
pub start_threads-Stuck :
    {Float : Type 0} (cfg : Config Float) (a : Answers) (b : Board)
    → (start_threads cfg a b).0 ≡ fail
    → Stuck b (start_threads cfg a b)
unfolding start_threads
start_threads-Stuck cfg a b =
    if_elim (StuckOnFail b) (not a.h264_thread) _ _ (λ _ _. fail_threads-Stuck b _ refl)
      (λ _.
        if_elim (StuckOnFail b) (not a.mjpeg_thread) _ _ (λ _ _. fail_threads-Stuck b _ refl)
          (λ _.
            if_elim (StuckOnFail b) (not a.ivs_thread) _ _ (λ _ _. fail_threads-Stuck b _ refl)
              (λ _ h. absurd cc)))
