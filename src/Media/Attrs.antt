-- ===== src/Media/Attrs.antt =====
-- src/media.c, `record_pipeline_init` to `stream_pipeline_init`: the attributes of the channels.
use montion_sense.Prelude.{ℕ, ◌*◌, ◌/◌, ◌%◌, ◌^◌}
use montion_sense.Prelude.Int.{to_u32}
use montion_sense.Config.{Config}
use montion_sense.Media.{ViAttr, H264Attr, H264Tuning, MjpegAttr, MjpegSettings, IvsAttr}

module _ {Float : Type 0} (cfg : Config Float) where
  -- The products are of type uint32_t.
  unfoldable pub h264_buffer : ℕ
  h264_buffer = cfg.h264.width * cfg.h264.height * 3 % 2 ^ 32 / 2

  unfoldable pub mjpeg_buffer : ℕ
  mjpeg_buffer = cfg.mjpeg.width * cfg.mjpeg.height % 2 ^ 32

  unfoldable pub main_attr : ViAttr
  main_attr = record {
    width = cfg.h264.width;
    height = cfg.h264.height;
    fps = cfg.h264.fps;
    buffers = 2;
    depth = 1;
  }

  unfoldable pub h264_attr : H264Attr
  h264_attr = record {
    width = cfg.h264.width;
    height = cfg.h264.height;
    buffer_size = h264_buffer;
    gop = to_u32 cfg.h264.gop;
    bit_rate = cfg.h264.bitrate_kbps;
    src_frame_rate = to_u32 cfg.h264.fps;
  }

  unfoldable pub self_attr : ViAttr
  self_attr = record {
    width = cfg.mjpeg.width;
    height = cfg.mjpeg.height;
    fps = cfg.h264.fps;
    buffers = 2;
    depth = 1;
  }

  unfoldable pub mjpeg_attr : MjpegAttr
  mjpeg_attr = record {
    width = cfg.mjpeg.width;
    height = cfg.mjpeg.height;
    buffer_size = mjpeg_buffer;
  }

  unfoldable pub mjpeg_settings : MjpegSettings
  mjpeg_settings = record {
    src_frame_rate = cfg.h264.fps;
    dst_frame_rate = cfg.mjpeg.fps;
    max_qfactor = cfg.mjpeg.qfactor_max;
    min_qfactor = cfg.mjpeg.qfactor_min;
  }

  unfoldable pub bypath_attr : ViAttr
  bypath_attr = record {
    width = cfg.h264.width / 2;
    height = cfg.h264.height / 2;
    fps = cfg.ivs.fps;
    buffers = 2;
    depth = 0;
  }

  unfoldable pub sampling_attr : ViAttr
  sampling_attr = record {
    width = cfg.ivs.width;
    height = cfg.ivs.height;
    fps = cfg.ivs.fps;
    buffers = 3;
    depth = 0;
  }

  unfoldable pub ivs_attr : IvsAttr
  ivs_attr = record {
    width = cfg.h264.width;
    height = cfg.h264.height;
    md_interval = cfg.ivs.md_interval;
    md_sensibility = to_u32 cfg.ivs.md_sensibility;
    thresh_sad = cfg.ivs.thresh_sad;
    thresh_move = cfg.ivs.thresh_move;
  }

abbrev pub h264_tuning : H264Tuning
h264_tuning = record {
  deblur_strength = 3;
  debreathe_strength = 16;
  min_qp = 10;
  frm_min_i_qp = 26;
  frm_min_qp = 28;
  frm_max_i_qp = 51;
  frm_max_qp = 51;
  anti_ring = 2;
  anti_line = 2;
  lambda = 4;
  filter_i = 0;
  filter_p = 0;
}
