-- ===== src/Config/Sections.antt =====
-- src/config.c: the sections, and `ms_config_load`.
pub mod Independence
pub mod Settings
use Prim.Native.String.{String}
use montion_sense.Prelude.{Option, none, some}
use montion_sense.Prelude.Int.{ℤ}
use montion_sense.Config.{Config, H264Cfg, MjpegCfg, IvsCfg, OsdCfg, StorageCfg, config_defaults}
use montion_sense.Config.Document.{
  Node, scalar, sequence, mapping, map_get, int_val, u32_val, float_val, bool_val, pos_val,
}

-- What `ms_config_load` finds: no file, a file that is no YAML, an empty document, or its root.
pub data Source : Type 0 where
  not_found parse_error no_root : Source
  loaded : Node → Source

module _ {Float : Type 0} where
  unfoldable pub parse_h264 : (String → ℤ) → Node → Config Float → Config Float
  parse_h264 beyond sec c = record c {
    h264 = record {
      width = u32_val sec "width" c.h264.width;
      height = u32_val sec "height" c.h264.height;
      fps = int_val beyond sec "fps" c.h264.fps;
      bitrate_kbps = u32_val sec "bitrate_kbps" c.h264.bitrate_kbps;
      gop = int_val beyond sec "gop" c.h264.gop;
    };
  }

  unfoldable pub parse_mjpeg : (String → ℤ) → Node → Config Float → Config Float
  parse_mjpeg beyond sec c = record c {
    mjpeg = record {
      width = u32_val sec "width" c.mjpeg.width;
      height = u32_val sec "height" c.mjpeg.height;
      fps = int_val beyond sec "fps" c.mjpeg.fps;
      qfactor_max = u32_val sec "qfactor_max" c.mjpeg.qfactor_max;
      qfactor_min = u32_val sec "qfactor_min" c.mjpeg.qfactor_min;
    };
  }

  unfoldable pub parse_ivs : (String → ℤ) → (String → Float) → Node → Config Float → Config Float
  parse_ivs beyond atof sec c = record c {
    ivs = record {
      width = u32_val sec "width" c.ivs.width;
      height = u32_val sec "height" c.ivs.height;
      fps = int_val beyond sec "fps" c.ivs.fps;
      md_interval = int_val beyond sec "md_interval" c.ivs.md_interval;
      md_sensibility = int_val beyond sec "md_sensibility" c.ivs.md_sensibility;
      md_night_mode = bool_val sec "md_night_mode" c.ivs.md_night_mode;
      thresh_sad = int_val beyond sec "thresh_sad" c.ivs.thresh_sad;
      thresh_move = int_val beyond sec "thresh_move" c.ivs.thresh_move;
      area_ratio = float_val atof sec "area_ratio" c.ivs.area_ratio;
      poll_ms = int_val beyond sec "poll_ms" c.ivs.poll_ms;
      fps_low = int_val beyond sec "fps_low" c.ivs.fps_low;
      fps_high = int_val beyond sec "fps_high" c.ivs.fps_high;
      motion_debounce_ms = int_val beyond sec "motion_debounce_ms" c.ivs.motion_debounce_ms;
    };
  }

  unfoldable pub parse_osd : (String → ℤ) → Node → Config Float → Config Float
  parse_osd beyond sec c = record c {
    osd = record {
      font_size = int_val beyond sec "font_size" c.osd.font_size;
      margin = int_val beyond sec "margin" c.osd.margin;
      position = pos_val sec "position" c.osd.position;
    };
  }

  unfoldable pub parse_storage : (String → ℤ) → Node → Config Float → Config Float
  parse_storage beyond sec c = record c {
    storage = record {
      hls_duration_s = int_val beyond sec "hls_duration_s" c.storage.hls_duration_s;
      disk_free_min_mb = u32_val sec "disk_free_min_mb" c.storage.disk_free_min_mb;
      cleanup_every_ts = int_val beyond sec "cleanup_every_ts" c.storage.cleanup_every_ts;
    };
  }

  -- `if ((sec = map_get(&doc, root, ...))) parse(...)`
  abbrev pub on_section :
      Option Node → (Node → Config Float → Config Float) → Config Float → Config Float
  on_section none parse c = c
  on_section (some sec) parse c = parse sec c

  unfoldable pub load_root : (String → ℤ) → (String → Float) → Node → Config Float → Config Float
  load_root beyond atof root c =
      let c1 = on_section (map_get root "h264") (parse_h264 beyond) c in
      let c2 = on_section (map_get root "mjpeg") (parse_mjpeg beyond) c1 in
      let c3 = on_section (map_get root "ivs") (parse_ivs beyond atof) c2 in
      let c4 = on_section (map_get root "osd") (parse_osd beyond) c3 in
      on_section (map_get root "storage") (parse_storage beyond) c4

  unfoldable pub ms_config_load : (String → ℤ) → (String → Float) → Float → Source → Config Float
  ms_config_load beyond atof md_area_ratio not_found = config_defaults md_area_ratio
  ms_config_load beyond atof md_area_ratio parse_error = config_defaults md_area_ratio
  ms_config_load beyond atof md_area_ratio no_root = config_defaults md_area_ratio
  ms_config_load beyond atof md_area_ratio (loaded (scalar s)) = config_defaults md_area_ratio
  ms_config_load beyond atof md_area_ratio (loaded sequence) = config_defaults md_area_ratio
  ms_config_load beyond atof md_area_ratio (loaded (mapping ps)) =
      load_root beyond atof (mapping ps) (config_defaults md_area_ratio)
