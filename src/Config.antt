-- ===== src/Config.antt =====
-- src/config.c and include/motionsense/config.h: the configuration and its file.
--
-- The file is what libyaml makes of it: a document of nodes. A text is a `String`; the numerals are
-- read in `Config.Numerals`. `Float` is the type of `float`, with the default area and with `atof`.
pub mod Numerals
pub mod Document
pub mod Sections
use Prim.Native.String.{String}
use montion_sense.Prelude.{ℕ, ◌+◌, ◌*◌, Bool, true, false, Option, none, some}
use montion_sense.Prelude.Int.{ℤ, pos}

pub data OsdPosition : Type 0 where
  top_left top_right bottom_left bottom_right : OsdPosition

pub record H264Cfg : Type 0 where
  pub width : ℕ
  pub height : ℕ
  pub fps : ℤ
  pub bitrate_kbps : ℕ
  pub gop : ℤ

pub record MjpegCfg : Type 0 where
  pub width : ℕ
  pub height : ℕ
  pub fps : ℤ
  pub qfactor_max : ℕ
  pub qfactor_min : ℕ

pub record IvsCfg (Float : Type 0) : Type 0 where
  pub width : ℕ
  pub height : ℕ
  pub fps : ℤ
  pub md_interval : ℤ
  pub md_sensibility : ℤ
  pub md_night_mode : Bool
  pub thresh_sad : ℤ
  pub thresh_move : ℤ
  pub area_ratio : Float
  pub poll_ms : ℤ
  pub fps_low : ℤ
  pub fps_high : ℤ
  pub motion_debounce_ms : ℤ

pub record OsdCfg : Type 0 where
  pub font_size : ℤ
  pub margin : ℤ
  pub position : OsdPosition

pub record StorageCfg : Type 0 where
  pub hls_duration_s : ℤ
  pub disk_free_min_mb : ℕ
  pub cleanup_every_ts : ℤ

pub record Config (Float : Type 0) : Type 0 where
  pub h264 : H264Cfg
  pub mjpeg : MjpegCfg
  pub ivs : IvsCfg Float
  pub osd : OsdCfg
  pub storage : StorageCfg

-- `md_area_ratio` is CFG_MD_AREA_RATIO, 0.05f.
unfoldable pub config_defaults : {Float : Type 0} → Float → Config Float
config_defaults md_area_ratio = record {
  h264 = record {
    width = 1920;
    height = 1080;
    fps = pos 30;
    bitrate_kbps = 4000;
    gop = pos (30 * 2);
  };
  mjpeg = record { width = 1920; height = 1080; fps = pos 15; qfactor_max = 80; qfactor_min = 65 };
  ivs = record {
    width = 640;
    height = 360;
    fps = pos 15;
    md_interval = pos 4;
    md_sensibility = pos 3;
    md_night_mode = true;
    thresh_sad = pos 40;
    thresh_move = pos 2;
    area_ratio = md_area_ratio;
    poll_ms = pos 250;
    fps_low = pos 1;
    fps_high = pos 30;
    motion_debounce_ms = pos 1000;
  };
  osd = record { font_size = pos 36; margin = pos 16; position = bottom_right };
  storage = record { hls_duration_s = pos 0; disk_free_min_mb = 2048; cleanup_every_ts = pos 20 };
}
