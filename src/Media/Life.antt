-- ===== src/Media/Life.antt =====
-- src/media.c, `media_init`, `media_stop` and `media_deinit`.
--
-- The flags `s_..._started` say which threads have been started and not joined. `s_producers_run` tells
-- the threads to go on: once it is false each of them returns by itself, and waits to be joined.
pub mod Stop
pub mod Pipes
pub mod Camera
pub mod Up
pub mod Labels
pub mod Down
use montion_sense.Prelude.{Bool, true, false, not, Option, none, some, if◌then◌else◌, Rc, ok, fail}
use montion_sense.Prelude.Int.{ℤ, pos, ltb_ℤ}
use montion_sense.Config.{Config, IvsCfg}
use montion_sense.WebSock.{WebSock, no_socket, web_sock_srv_init}
use montion_sense.Media.{Board, Answers}
use montion_sense.Media.Devices.{vi_dev_init, vi_dev_deinit, aiq_init, aiq_stop}
use montion_sense.Media.Pipelines.{
  venc_set_framerate, record_pipeline_init, record_pipeline_deinit, motion_pipeline_init,
  motion_pipeline_deinit, stream_pipeline_init, stream_pipeline_deinit,
}
use montion_sense.Media.Overlay.{osd_init, osd_deinit}

-- The labels of `media_init`, each with the ones after it.
unfoldable pub fail_sys : Board → Rc × Board
fail_sys b = (fail, record b { sys = false })

unfoldable pub fail_vi : Board → Rc × Board
fail_vi b = fail_sys (vi_dev_deinit b)

unfoldable pub fail_aiq : Board → Rc × Board
fail_aiq b = fail_vi (aiq_stop b)

unfoldable pub fail_pipe0 : Board → Rc × Board
fail_pipe0 b = fail_aiq (record_pipeline_deinit b)

unfoldable pub fail_pipe1 : Board → Rc × Board
fail_pipe1 b = fail_pipe0 (stream_pipeline_deinit b)

-- A thread that has not started has nothing to join, and its flag is false. The overlay's thread is told
-- to stop, and is not joined.
unfoldable pub fail_threads : Board → Rc × Board
fail_threads b = fail_pipe1 (
    motion_pipeline_deinit (record b {
      producers_run = false;
      h264_started = false;
      mjpeg_started = false;
      ivs_started = false;
    }))

-- The next step after a success, and the label after a failure.
unfoldable pub or_goto : (Board → Rc × Board) → (Board → Rc × Board) → Rc × Board → Rc × Board
or_goto label next (ok, b) = next b
or_goto label next (fail, b) = label b

module _ {Float : Type 0} (cfg : Config Float) (a : Answers) where
  unfoldable pub start_threads : Board → Rc × Board
  start_threads b =
      if not a.h264_thread
      then fail_threads b
      else if not a.mjpeg_thread
      then fail_threads (record b { h264_started = true })
      else if not a.ivs_thread
      then fail_threads (record b { h264_started = true; mjpeg_started = true })
      else (ok, record b { h264_started = true; mjpeg_started = true; ivs_started = true })

  -- `s_osd_inited` and the thread, after a success of `osd_init`.
  unfoldable pub start_osd : Rc × Board → Board
  start_osd (fail, b) = b
  start_osd (ok, b) =
      if a.osd_thread
      then record b { osd_inited = true; osd_started = true }
      else record b { osd_inited = true }

  unfoldable pub fps_high : ℤ
  fps_high = if ltb_ℤ cfg.ivs.fps_high (pos 1) then pos 1 else cfg.ivs.fps_high

  -- The producers and what they need, once the pipelines are set up: only a thread can fail.
  unfoldable pub start_rated : Board → Rc × Board
  start_rated b =
      let run = record b {
        producers_run = true;
        web = web_sock_srv_init a.socket a.bind_socket a.listen b.web;
      } in
      start_threads (start_osd (osd_init cfg a run))

  unfoldable pub start_producers : Board → Rc × Board
  start_producers b = start_rated (venc_set_framerate cfg a fps_high b).1

  unfoldable pub init_motion : Board → Rc × Board
  init_motion b = or_goto fail_pipe1 start_producers (motion_pipeline_init cfg a b)

  unfoldable pub init_stream : Board → Rc × Board
  init_stream b = or_goto fail_pipe0 init_motion (stream_pipeline_init cfg a b)

  unfoldable pub init_record : Board → Rc × Board
  init_record b = or_goto fail_aiq init_stream (record_pipeline_init cfg a b)

  unfoldable pub init_aiq : Board → Rc × Board
  init_aiq b = or_goto fail_vi init_record (aiq_init a b)

  unfoldable pub media_init : Board → Rc × Board
  media_init b =
      if not a.sys_init
      then (fail, b)
      else or_goto fail_sys init_aiq (vi_dev_init a (record b { sys = true }))

unfoldable pub media_stop : Board → Board
media_stop b = if not b.producers_run then b else record b {
  producers_run = false;
  recv_h264 = false;
  recv_mjpeg = false;
  osd_started = false;
  h264_started = false;
  mjpeg_started = false;
  ivs_started = false;
  web = no_socket;
}

-- Its overlay, where `s_osd_inited` is set.
unfoldable pub drop_osd : Board → Board
drop_osd b = if b.osd_inited then record (osd_deinit b) { osd_inited = false } else b

-- After `media_stop`.
unfoldable pub release : Board → Board
release b =
    let piped =
      record_pipeline_deinit (stream_pipeline_deinit (motion_pipeline_deinit (drop_osd b))) in
    record (vi_dev_deinit (aiq_stop piped)) { sys = false }

unfoldable pub media_deinit : Board → Board
media_deinit b = release (media_stop b)
