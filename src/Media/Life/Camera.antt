-- ===== src/Media/Life/Camera.antt =====
-- The board that `media_init` of src/media.c is meant to leave, by the numbers of the configuration.
use Prim.Native.Nat.{max}
use montion_sense.Prelude.{
  ◌*◌, ◌/◌, ◌%◌, ◌^◌, ◌<◌, ◌≡◌, refl, arith, Bool-cases, inl, inr, true, false, none, some,
  if◌then◌else◌,
}
use montion_sense.Prelude.Int.{ℤ, pos, negsuc, pos_part, ltb_ℤ, to_u32}
use montion_sense.Config.{Config}
use montion_sense.WebSock.{no_socket, web_sock_srv_init}
use montion_sense.Media.{Board, Answers}
use montion_sense.Media.Attrs.{h264_tuning}
use montion_sense.Media.Life.{fps_high}

module _ {Float : Type 0} (cfg : Config Float) (a : Answers) where
  -- The board that the configuration asks for: the main picture for the H264 encoder, the picture of the
  -- MJPEG encoder, and half the main picture and the detector's picture for the detection. The rate of
  -- the H264 encoder is at least 1; a failure to set it keeps the sensor's rate.
  abbrev pub camera : Board
  camera = record {
    sys = true;
    vi_dev = true;
    aiq = true;
    vi_main = some (record {
      width = cfg.h264.width;
      height = cfg.h264.height;
      fps = cfg.h264.fps;
      buffers = 2;
      depth = 1;
    });
    vi_self = some (record {
      width = cfg.mjpeg.width;
      height = cfg.mjpeg.height;
      fps = cfg.h264.fps;
      buffers = 2;
      depth = 1;
    });
    vi_bypath = some (record {
      width = cfg.h264.width / 2;
      height = cfg.h264.height / 2;
      fps = cfg.ivs.fps;
      buffers = 2;
      depth = 0;
    });
    vi_sampling = some (record {
      width = cfg.ivs.width;
      height = cfg.ivs.height;
      fps = cfg.ivs.fps;
      buffers = 3;
      depth = 0;
    });
    venc_h264 = some (record {
      width = cfg.h264.width;
      height = cfg.h264.height;
      buffer_size = cfg.h264.width * cfg.h264.height * 3 % 2 ^ 32 / 2;
      gop = to_u32 cfg.h264.gop;
      bit_rate = cfg.h264.bitrate_kbps;
      src_frame_rate =
          if a.chn_attr then max 1 (pos_part cfg.ivs.fps_high) else to_u32 cfg.h264.fps;
    });
    tuning = some h264_tuning;
    recv_h264 = true;
    venc_mjpeg = some (record {
      width = cfg.mjpeg.width;
      height = cfg.mjpeg.height;
      buffer_size = cfg.mjpeg.width * cfg.mjpeg.height % 2 ^ 32;
    });
    mjpeg_settings =
        if a.early_settings
        then some (record {
          src_frame_rate = cfg.h264.fps;
          dst_frame_rate = cfg.mjpeg.fps;
          max_qfactor = cfg.mjpeg.qfactor_max;
          min_qfactor = cfg.mjpeg.qfactor_min;
        })
        else none;
    recv_mjpeg = true;
    bound_mjpeg = true;
    ivs = some (record {
      width = cfg.h264.width;
      height = cfg.h264.height;
      md_interval = cfg.ivs.md_interval;
      md_sensibility = to_u32 cfg.ivs.md_sensibility;
      thresh_sad = cfg.ivs.thresh_sad;
      thresh_move = cfg.ivs.thresh_move;
    });
    bound_ivs = true;
    font = none;
    region_h264 = none;
    region_mjpeg = none;
    producers_run = true;
    h264_started = true;
    mjpeg_started = true;
    ivs_started = true;
    osd_started = false;
    osd_inited = false;
    web = web_sock_srv_init a.socket a.bind_socket a.listen no_socket;
  }

  pub clamped :
      pos_part cfg.ivs.fps_high < 2 ^ 31
      → to_u32 (fps_high cfg a) ≡ max 1 (pos_part cfg.ivs.fps_high)
  unfolding fps_high to_u32
  clamped fits = clamp cfg.ivs.fps_high fits
    where
      clamp :
          (z : ℤ)
          → pos_part z < 2 ^ 31
          → to_u32 (if ltb_ℤ z (pos 1) then pos 1 else z) ≡ max 1 (pos_part z)
      clamp (pos n) l = elim (Bool-cases (ltb_ℤ (pos n) (pos 1))) [
        | inl e ↦ rw e (ground arith)
        | inr e ↦ rw e (ground arith)
      ]
      clamp (negsuc n) l = let e : ltb_ℤ (negsuc n) (pos 1) ≡ true = ground arith in rw e refl
