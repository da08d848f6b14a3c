-- ===== src/Media/Pipelines.antt =====
-- src/media.c, `venc_set_framerate` to `stream_pipeline_deinit`: the three video pipelines.
--
-- A pipeline whose set-up fails half-way keeps what it has set up so far, except that the bypass
-- channel is disabled when the sampling channel fails. The answer for a channel of the video input
-- says whether both VI_SetChnAttr and VI_EnableChn succeed.
use montion_sense.Prelude.{true, false, not, Option, none, some, if◌then◌else◌, Rc, ok, fail}
use montion_sense.Prelude.Int.{ℤ, to_u32}
use montion_sense.Config.{Config}
use montion_sense.Media.{Board, Answers, H264Attr}
use montion_sense.Media.Attrs.{
  main_attr, h264_attr, self_attr, mjpeg_attr, mjpeg_settings, bypath_attr, sampling_attr, ivs_attr,
  h264_tuning,
}

module _ {Float : Type 0} (cfg : Config Float) (a : Answers) where
  -- The new attributes of a channel that exists.
  unfoldable pub with_framerate : ℤ → Option H264Attr → Option H264Attr
  with_framerate fps none = none
  with_framerate fps (some v) = some record v {
    bit_rate = cfg.h264.bitrate_kbps;
    src_frame_rate = to_u32 fps;
    gop = to_u32 cfg.h264.gop;
  }

  unfoldable pub venc_set_framerate : ℤ → Board → Rc × Board
  venc_set_framerate fps b =
      if not a.chn_attr
      then (fail, b)
      else (ok, record b { venc_h264 = with_framerate fps b.venc_h264 })

  unfoldable pub record_pipeline_init : Board → Rc × Board
  record_pipeline_init b =
      if not a.vi_main
      then (fail, b)
      else if not a.venc_h264
      then (fail, record b { vi_main = some (main_attr cfg) })
      else (
        ok,
        record b {
          vi_main = some (main_attr cfg);
          venc_h264 = some (h264_attr cfg);
          tuning = some h264_tuning;
          recv_h264 = true;
        },
      )

  unfoldable pub motion_pipeline_init : Board → Rc × Board
  motion_pipeline_init b =
      if not a.vi_bypath
      then (fail, b)
      else if not a.vi_sampling
      then (fail, record b { vi_bypath = none })
      else if not a.ivs
      then (
        fail,
        record b { vi_bypath = some (bypath_attr cfg); vi_sampling = some (sampling_attr cfg) },
      )
      else if not a.bind_ivs
      then (
        fail,
        record b {
          vi_bypath = some (bypath_attr cfg);
          vi_sampling = some (sampling_attr cfg);
          ivs = some (ivs_attr cfg);
        },
      )
      else (
        ok,
        record b {
          vi_bypath = some (bypath_attr cfg);
          vi_sampling = some (sampling_attr cfg);
          ivs = some (ivs_attr cfg);
          bound_ivs = true;
        },
      )

  -- The settings are made before the channel is created, and their results are not looked at.
  unfoldable pub stream_encoder : Board → Rc × Board
  stream_encoder b =
      if not a.venc_mjpeg
      then (fail, b)
      else if not a.bind_mjpeg
      then (fail, record b { venc_mjpeg = some (mjpeg_attr cfg); recv_mjpeg = true })
      else (
        ok,
        record b { venc_mjpeg = some (mjpeg_attr cfg); recv_mjpeg = true; bound_mjpeg = true },
      )

  unfoldable pub stream_pipeline_init : Board → Rc × Board
  stream_pipeline_init b =
      if not a.vi_self
      then (fail, b)
      else stream_encoder (record b {
        vi_self = some (self_attr cfg);
        mjpeg_settings = if a.early_settings then some (mjpeg_settings cfg) else b.mjpeg_settings;
      })

unfoldable pub record_pipeline_deinit : Board → Board
record_pipeline_deinit b = record b {
  recv_h264 = false;
  venc_h264 = none;
  tuning = none;
  vi_main = none;
}

unfoldable pub motion_pipeline_deinit : Board → Board
motion_pipeline_deinit b = record b {
  bound_ivs = false;
  ivs = none;
  vi_sampling = none;
  vi_bypath = none;
}

unfoldable pub stream_pipeline_deinit : Board → Board
stream_pipeline_deinit b = record b {
  bound_mjpeg = false;
  recv_mjpeg = false;
  venc_mjpeg = none;
  mjpeg_settings = none;
  vi_self = none;
}
