-- ===== src/Config/Sections/Settings.antt =====
-- `ms_config_load` of src/config.c: each field of the configuration by its key in the file and its
-- default.
use Prim.Native.String.{String}
use mathlib.Core.Path.{fun_ext}
use text.Mathlib.Text.{◌==◌ as same_text}
use montion_sense.Prelude.{
  ◌≡◌, refl, arith, ◌∙◌, ap, true, false, ◌||◌, Option, none, some, if◌then◌else◌,
}
use montion_sense.Prelude.Int.{ℤ, pos}
use montion_sense.Config.{
  OsdPosition, top_left, top_right, bottom_left, Config, H264Cfg, MjpegCfg, IvsCfg, OsdCfg,
  StorageCfg, bottom_right, config_defaults,
}
use montion_sense.Config.Numerals.{atoi, strtoul}
use montion_sense.Config.Document.{
  Node, Pairs, scalar, sequence, mapping, end, pair, find_pair, map_get, text_of, str_val, read_or,
  int_val, u32_val, float_val, bool_val, pos_val, read_position,
}
use montion_sense.Config.Sections.{
  Source, not_found, parse_error, no_root, loaded, parse_h264, parse_mjpeg, parse_ivs, parse_osd,
  parse_storage, on_section, ms_config_load,
}
use montion_sense.Config.Sections.Independence.{ms_config_load-alone}

-- The first node of that name.
abbrev pub named : String → Pairs → Option Node
named key end = none
named key (pair (scalar s) v ps) = elim (same_text s key) [ true ↦ some v | false ↦ named key ps ]
named key (pair sequence v ps) = named key ps
named key (pair (mapping qs) v ps) = named key ps

-- What a section says of a key.
abbrev pub entry : Option Node → String → Option String
entry none key = none
entry (some (scalar s)) key = none
entry (some sequence) key = none
entry (some (mapping qs)) key = text_of (named key qs)

-- What a file says of a key of a section, if it says anything.
abbrev pub setting : Source → String → String → Option String
setting not_found section key = none
setting parse_error section key = none
setting no_root section key = none
setting (loaded (scalar s)) section key = none
setting (loaded sequence) section key = none
setting (loaded (mapping ps)) section key = entry (named section ps) key

find_pair-named : (ps : Pairs) (key : String) → find_pair ps key ≡ named key ps
unfolding find_pair
find_pair-named end key = refl
find_pair-named (pair (scalar s) v ps) key = ground (arith, find_pair-named ps key)
find_pair-named (pair sequence v ps) key = find_pair-named ps key
find_pair-named (pair (mapping qs) v ps) key = find_pair-named ps key

str_val-entry : (sec : Node) → str_val sec ≡ entry (some sec)
unfolding str_val map_get
str_val-entry (scalar s) = refl
str_val-entry sequence = refl
str_val-entry (mapping qs) = fun_ext (λ key. ap text_of (find_pair-named qs key))

-- An unknown text is the default.
abbrev pub position_of : String → OsdPosition
position_of s =
    if same_text s "top-left"
    then top_left
    else (if same_text s "top-right"
        then top_right
        else (if same_text s "bottom-left" then bottom_left else bottom_right))

read_position-position_of : (s : String) → read_position bottom_right s ≡ position_of s
unfolding read_position
read_position-position_of s = ground arith

module _ {Float : Type 0} (beyond : String → ℤ) (atof : String → Float) (area : Float) where
  abbrev int : Option String → ℤ → ℤ
  int = read_or (atoi beyond)

  -- The sections that these settings make.
  abbrev pub h264_of : (String → Option String) → H264Cfg
  h264_of get = record {
    width = read_or strtoul (get "width") 1920;
    height = read_or strtoul (get "height") 1080;
    fps = int (get "fps") (pos 30);
    bitrate_kbps = read_or strtoul (get "bitrate_kbps") 4000;
    gop = int (get "gop") (pos 60);
  }

  abbrev pub mjpeg_of : (String → Option String) → MjpegCfg
  mjpeg_of get = record {
    width = read_or strtoul (get "width") 1920;
    height = read_or strtoul (get "height") 1080;
    fps = int (get "fps") (pos 15);
    qfactor_max = read_or strtoul (get "qfactor_max") 80;
    qfactor_min = read_or strtoul (get "qfactor_min") 65;
  }

  abbrev pub ivs_of : (String → Option String) → IvsCfg Float
  ivs_of get = record {
    width = read_or strtoul (get "width") 640;
    height = read_or strtoul (get "height") 360;
    fps = int (get "fps") (pos 15);
    md_interval = int (get "md_interval") (pos 4);
    md_sensibility = int (get "md_sensibility") (pos 3);
    md_night_mode =
        read_or (λ s. same_text s "true" || (same_text s "yes" || same_text s "1"))
          (get "md_night_mode") true;
    thresh_sad = int (get "thresh_sad") (pos 40);
    thresh_move = int (get "thresh_move") (pos 2);
    area_ratio = read_or atof (get "area_ratio") area;
    poll_ms = int (get "poll_ms") (pos 250);
    fps_low = int (get "fps_low") (pos 1);
    fps_high = int (get "fps_high") (pos 30);
    motion_debounce_ms = int (get "motion_debounce_ms") (pos 1000);
  }

  abbrev pub osd_of : (String → Option String) → OsdCfg
  osd_of get = record {
    font_size = int (get "font_size") (pos 36);
    margin = int (get "margin") (pos 16);
    position = read_or position_of (get "position") bottom_right;
  }

  abbrev pub storage_of : (String → Option String) → StorageCfg
  storage_of get = record {
    hls_duration_s = int (get "hls_duration_s") (pos 0);
    disk_free_min_mb = read_or strtoul (get "disk_free_min_mb") 2048;
    cleanup_every_ts = int (get "cleanup_every_ts") (pos 20);
  }

  -- Each section of these is made of the section's settings.
  abbrev pub MadeOf : (String → String → Option String) → Config Float → Type 0
  MadeOf get c =
      (c.h264 ≡ h264_of (get "h264"))
      × (c.mjpeg ≡ mjpeg_of (get "mjpeg"))
      × (c.ivs ≡ ivs_of (get "ivs"))
      × (c.osd ≡ osd_of (get "osd"))
      × (c.storage ≡ storage_of (get "storage"))

  defaults-MadeOf : MadeOf (λ _ _. none) (config_defaults area)
  unfolding config_defaults
  defaults-MadeOf = (refl, refl, refl, refl, refl)

  -- One section, read into the defaults.
  section_of :
      {A : Type 0} (part : Config Float → A) (parse : Node → Config Float → Config Float)
      (make : (String → Option String) → A)
      → part (config_defaults area) ≡ make (λ _. none)
      → ((sec : Node) → part (parse sec (config_defaults area)) ≡ make (str_val sec))
      → (o : Option Node) → part (on_section o parse (config_defaults area)) ≡ make (entry o)
  section_of part parse make absent present none = absent
  section_of part parse make absent present (some sec) = present sec ∙ ap make (str_val-entry sec)

  loaded_sections :
      (ps : Pairs)
      → MadeOf
          (λ section. entry (map_get (mapping ps) section))
          (ms_config_load beyond atof area (loaded (mapping ps)))
  unfolding parse_h264 parse_mjpeg parse_ivs parse_osd parse_storage int_val u32_val float_val
      bool_val pos_val config_defaults
  loaded_sections ps =
      let at = λ (section : String). map_get (mapping ps) section in
      let (h264, mjpeg, ivs, osd, storage) = ms_config_load-alone beyond atof area ps in
      (
        h264 ∙ section_of (λ c. c.h264) (parse_h264 beyond) h264_of refl (λ _. refl) (at "h264"),
        mjpeg
            ∙ section_of (λ c. c.mjpeg) (parse_mjpeg beyond) mjpeg_of refl (λ _. refl) (at "mjpeg"),
        ivs ∙ section_of (λ c. c.ivs) (parse_ivs beyond atof) ivs_of refl (λ _. refl) (at "ivs"),
        osd
            ∙ section_of (λ c. c.osd) (parse_osd beyond) osd_of refl
                (λ sec.
                  ap
                    (λ (read : String → OsdPosition). record {
                      font_size = int (str_val sec "font_size") (pos 36);
                      margin = int (str_val sec "margin") (pos 16);
                      position = read_or read (str_val sec "position") bottom_right;
                    })
                    (fun_ext read_position-position_of))
                (at "osd"),
        storage
            ∙ section_of (λ c. c.storage) (parse_storage beyond) storage_of refl (λ _. refl)
                (at "storage"),
      )

  -- Whatever the file holds, or without one, each field of the configuration is what the first section
  -- of its name says under the first key of its name, and its default where they say nothing.
  pub ms_config_load-MadeOf :
      (file : Source) → MadeOf (setting file) (ms_config_load beyond atof area file)
  unfolding ms_config_load map_get
  ms_config_load-MadeOf not_found = defaults-MadeOf
  ms_config_load-MadeOf parse_error = defaults-MadeOf
  ms_config_load-MadeOf no_root = defaults-MadeOf
  ms_config_load-MadeOf (loaded (scalar s)) = defaults-MadeOf
  ms_config_load-MadeOf (loaded sequence) = defaults-MadeOf
  ms_config_load-MadeOf (loaded (mapping ps)) =
      let (h264, mjpeg, ivs, osd, storage) = loaded_sections ps in
      let same = λ (section : String). ap entry (find_pair-named ps section) in
      (
        h264 ∙ ap h264_of (same "h264"),
        mjpeg ∙ ap mjpeg_of (same "mjpeg"),
        ivs ∙ ap ivs_of (same "ivs"),
        osd ∙ ap osd_of (same "osd"),
        storage ∙ ap storage_of (same "storage"),
      )
