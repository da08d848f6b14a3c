-- ===== src/Tests/Media.antt =====
-- The start and the stop of the pipelines at concrete answers, with the default configuration.
use montion_sense.Prelude.{[], ◌∷◌, ◌≡◌, refl, arith, true, false, none, some, ok, fail}
use montion_sense.Prelude.Int.{pos, pos_part, up_align_to_16, to_int}
use montion_sense.Config.{Config, config_defaults}
use montion_sense.Media.{Board, Answers, Region, off}
use montion_sense.Media.Devices.{enable_device, vi_dev_init, aiq_init}
use montion_sense.Media.Pipelines.{
  venc_set_framerate, record_pipeline_init, motion_pipeline_init, stream_pipeline_init,
  stream_encoder,
}
use montion_sense.Media.Overlay.{far_x, far_y, place, osd_rgn_create, with_regions, osd_init}
use montion_sense.Media.Overlay.Clock.{
  Time, time_text, osd_get_time_wch, osd_upload, same_second, osd_redraw, osd_turn,
}
use montion_sense.Storage.Paths.{digits}
use montion_sense.Media.Overlay.Place.{InCorner, osd_init-InCorner}
use montion_sense.Media.Life.{
  fail_sys, fail_vi, fail_aiq, fail_pipe0, fail_pipe1, fail_threads, or_goto, start_threads,
  start_osd, start_rated, start_producers, init_motion, init_stream, init_record, init_aiq,
  media_init, media_deinit,
}
use montion_sense.Media.Life.Stop.{font_after, Stuck, start_threads-Stuck}
use montion_sense.Media.Life.Camera.{camera}
use montion_sense.Media.Life.Up.{OverlayOf, media_init-OverlayOf, media_deinit-media_init}
use montion_sense.Media.Life.Labels.{Down}
use montion_sense.Media.Life.Down.{media_init-Down}

abbrev cfg : Config (Unit {0})
cfg = config_defaults tt

abbrev pub all_succeed : Answers
all_succeed = record {
  sys_init = true;
  dev_not_config = true;
  set_dev_attr = true;
  enable_dev = true;
  bind_pipe = true;
  aiq_enum = true;
  aiq_init = true;
  aiq_prepare = true;
  aiq_start = true;
  vi_main = true;
  venc_h264 = true;
  vi_self = true;
  early_settings = false;
  venc_mjpeg = true;
  bind_mjpeg = true;
  vi_bypath = true;
  vi_sampling = true;
  ivs = true;
  bind_ivs = true;
  chn_attr = true;
  socket = true;
  bind_socket = true;
  listen = true;
  font = true;
  text_width = pos 370;
  region_h264 = true;
  attach_h264 = true;
  region_mjpeg = true;
  attach_mjpeg = true;
  osd_thread = true;
  h264_thread = true;
  mjpeg_thread = true;
  ivs_thread = true;
}

-- The image processor does not start, or the last thread does not.
abbrev no_aiq : Answers
no_aiq = record all_succeed { aiq_start = false }

abbrev no_ivs_thread : Answers
no_ivs_thread = record all_succeed { ivs_thread = false }

pub starts :
    {Float : Type 0} (area : Float) → (media_init (config_defaults area) all_succeed off).0 ≡ ok
unfolding stream_encoder config_defaults media_init init_aiq init_record init_stream init_motion
    start_producers start_rated start_threads start_osd or_goto vi_dev_init enable_device aiq_init
    record_pipeline_init stream_pipeline_init motion_pipeline_init venc_set_framerate osd_init
    with_regions osd_rgn_create
starts area = refl

default_rate : pos_part cfg.ivs.fps_high ≡ 30
unfolding config_defaults
default_rate = refl

media_init-OverlayOf_example : OverlayOf (media_init cfg all_succeed off).1 (camera cfg all_succeed)
media_init-OverlayOf_example =
    media_init-OverlayOf cfg all_succeed (omega (arith, default_rate)) (starts tt)

media_deinit-media_init_example :
    media_deinit (media_init cfg all_succeed off).1
    ≡ record off { font = font_after (media_init cfg all_succeed off).1 }
media_deinit-media_init_example = media_deinit-media_init cfg all_succeed (starts tt)

-- Where the default overlay stands.
corner :
    place cfg cfg.osd.position (up_align_to_16 (pos 370)) (up_align_to_16 (pos 36))
    ≡ (pos 1520, pos 1024)
unfolding config_defaults place far_x far_y up_align_to_16 to_int
corner = refl

osd_up : (osd_init cfg all_succeed off).0 ≡ ok
unfolding osd_init with_regions osd_rgn_create
osd_up = refl

osd_init-InCorner_example :
    (r : Region) × ((osd_init cfg all_succeed off).1.region_h264 ≡ some r)
    × ((osd_init cfg all_succeed off).1.region_mjpeg ≡ some r)
    × InCorner cfg.osd.position cfg.h264.width cfg.h264.height 384 48 16 (r.x, r.y)
unfolding config_defaults
osd_init-InCorner_example =
    osd_init-InCorner cfg all_succeed off 370 36 16 refl refl refl (omega arith) (omega arith)
      (omega arith) (omega arith) (omega arith) osd_up

stops_short : (media_init cfg no_aiq off).0 ≡ fail
unfolding config_defaults media_init init_aiq or_goto vi_dev_init enable_device aiq_init fail_vi
    fail_sys
stops_short = refl

media_init-Down_example : Down (media_init cfg no_aiq off).1
media_init-Down_example = media_init-Down cfg no_aiq stops_short

-- The producers run, with the overlay's thread and the socket.
abbrev producing : Board
producing = record off {
  sys = true;
  vi_dev = true;
  aiq = true;
  producers_run = true;
  h264_started = true;
  osd_started = true;
  web = record { listening = true; client = none };
}

thread_fails : (start_threads cfg no_ivs_thread producing).0 ≡ fail
unfolding start_threads fail_threads fail_pipe1 fail_pipe0 fail_aiq fail_vi fail_sys
thread_fails = refl

start_threads-Stuck_example : Stuck producing (start_threads cfg no_ivs_thread producing)
start_threads-Stuck_example = start_threads-Stuck cfg no_ivs_thread producing thread_fails

-- 07:05:09 on 2026-01-09, as the overlay shows it after one turn.
abbrev morning : Time
morning = record { hour = 7; minute = 5; second = 9; year = 2026; month = 1; day = 9 }

shown :
    (osd_turn
      (record { now = morning; opens = true; sets_h264 = true; sets_mjpeg = false })
      (record { last_sec = none; wch = []; h264 = []; mjpeg = [] })).h264
    ≡ b'0' ∷ b'7' ∷ b':' ∷ b'0' ∷ b'5' ∷ b':' ∷ b'0' ∷ b'9' ∷ b' ' ∷ b' ' ∷ b'2' ∷ b'0' ∷ b'2'
      ∷ b'6' ∷ b'-' ∷ b'0' ∷ b'1' ∷ b'-' ∷ b'0' ∷ b'9' ∷ []
unfolding osd_turn osd_redraw osd_get_time_wch osd_upload same_second time_text digits
shown = refl
