-- ===== src/Media.antt =====
-- src/media.c: the video pipelines that `media_init` starts and `media_deinit` takes down.
--
-- The board is what the vendor's library, the overlay and the threads hold, with the file's static
-- variables. The library is not at hand: whether each of its calls succeeds is an answer, and a call
-- that succeeds does what its name says. The calls that release never fail here, as the code never
-- looks at their results.
pub mod Devices
pub mod Attrs
pub mod Pipelines
pub mod Overlay
pub mod Life
use montion_sense.Prelude.{ℕ, ◌+◌, ◌-◌, ◌%◌, ◌^◌, Bool, true, false, Option, none, some}
use montion_sense.Prelude.Int.{ℤ, pos, negsuc}
use montion_sense.WebSock.{WebSock, no_socket}

-- A channel of the video input: its size, its source and destination frame rate, buffers and depth.
pub record ViAttr : Type 0 where
  pub width : ℕ
  pub height : ℕ
  pub fps : ℤ
  pub buffers : ℕ
  pub depth : ℕ

-- The H264 encoder: picture, buffer, and rate control.
pub record H264Attr : Type 0 where
  pub width : ℕ
  pub height : ℕ
  pub buffer_size : ℕ
  pub gop : ℕ
  pub bit_rate : ℕ
  pub src_frame_rate : ℕ

-- The quality settings of the H264 encoder, by the names of the vendor's structures.
pub record H264Tuning : Type 0 where
  pub deblur_strength : ℕ
  pub debreathe_strength : ℕ
  pub min_qp : ℕ
  pub frm_min_i_qp : ℕ
  pub frm_min_qp : ℕ
  pub frm_max_i_qp : ℕ
  pub frm_max_qp : ℕ
  pub anti_ring : ℕ
  pub anti_line : ℕ
  pub lambda : ℕ
  pub filter_i : ℕ
  pub filter_p : ℕ

pub record MjpegAttr : Type 0 where
  pub width : ℕ
  pub height : ℕ
  pub buffer_size : ℕ

-- What VENC_SetChnParam and VENC_SetRcParam set of the MJPEG encoder.
pub record MjpegSettings : Type 0 where
  pub src_frame_rate : ℤ
  pub dst_frame_rate : ℤ
  pub max_qfactor : ℕ
  pub min_qfactor : ℕ

pub record IvsAttr : Type 0 where
  pub width : ℕ
  pub height : ℕ
  pub md_interval : ℤ
  pub md_sensibility : ℕ
  pub thresh_sad : ℤ
  pub thresh_move : ℤ

-- An overlay region that is attached to an encoder: its size and its place.
pub record Region : Type 0 where
  pub width : ℕ
  pub height : ℕ
  pub x : ℤ
  pub y : ℤ

pub record Board : Type 0 where
  pub sys : Bool
  pub vi_dev : Bool
  pub aiq : Bool
  pub vi_main : Option ViAttr
  pub vi_self : Option ViAttr
  pub vi_bypath : Option ViAttr
  pub vi_sampling : Option ViAttr
  pub venc_h264 : Option H264Attr
  pub tuning : Option H264Tuning
  pub recv_h264 : Bool
  pub venc_mjpeg : Option MjpegAttr
  pub mjpeg_settings : Option MjpegSettings
  pub recv_mjpeg : Bool
  pub bound_mjpeg : Bool
  pub ivs : Option IvsAttr
  pub bound_ivs : Bool
  pub font : Option ℤ
  pub region_h264 : Option Region
  pub region_mjpeg : Option Region
  -- `s_producers_run`, `s_..._started` of the threads that are not joined, and `s_osd_inited`
  pub producers_run : Bool
  pub h264_started : Bool
  pub mjpeg_started : Bool
  pub ivs_started : Bool
  pub osd_started : Bool
  pub osd_inited : Bool
  pub web : WebSock

-- The board before `media_init`.
abbrev pub off : Board
off = record {
  sys = false;
  vi_dev = false;
  aiq = false;
  vi_main = none;
  vi_self = none;
  vi_bypath = none;
  vi_sampling = none;
  venc_h264 = none;
  tuning = none;
  recv_h264 = false;
  venc_mjpeg = none;
  mjpeg_settings = none;
  recv_mjpeg = false;
  bound_mjpeg = false;
  ivs = none;
  bound_ivs = false;
  font = none;
  region_h264 = none;
  region_mjpeg = none;
  producers_run = false;
  h264_started = false;
  mjpeg_started = false;
  ivs_started = false;
  osd_started = false;
  osd_inited = false;
  web = no_socket;
}

-- Which calls succeed.
pub record Answers : Type 0 where
  pub sys_init : Bool
  -- VI_GetDevAttr returns RK_ERR_VI_NOT_CONFIG
  pub dev_not_config : Bool
  pub set_dev_attr : Bool
  pub enable_dev : Bool
  pub bind_pipe : Bool
  pub aiq_enum : Bool
  pub aiq_init : Bool
  pub aiq_prepare : Bool
  pub aiq_start : Bool
  pub vi_main : Bool
  pub venc_h264 : Bool
  pub vi_self : Bool
  -- whether settings that are made before the channel hold for it
  pub early_settings : Bool
  pub venc_mjpeg : Bool
  pub bind_mjpeg : Bool
  pub vi_bypath : Bool
  pub vi_sampling : Bool
  pub ivs : Bool
  pub bind_ivs : Bool
  -- VENC_GetChnAttr and VENC_SetChnAttr of `venc_set_framerate`
  pub chn_attr : Bool
  pub socket : Bool
  pub bind_socket : Bool
  pub listen : Bool
  pub font : Bool
  -- the text's width in pixels
  pub text_width : ℤ
  pub region_h264 : Bool
  pub attach_h264 : Bool
  pub region_mjpeg : Bool
  pub attach_mjpeg : Bool
  pub osd_thread : Bool
  pub h264_thread : Bool
  pub mjpeg_thread : Bool
  pub ivs_thread : Bool
