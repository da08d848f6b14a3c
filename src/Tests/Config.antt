-- ===== src/Tests/Config.antt =====
-- A configuration file, and what is read from it.
use Prim.Native.String.{String}
use montion_sense.Prelude.{◌≡◌, refl}
use montion_sense.Prelude.Int.{ℤ, pos, negsuc}
use montion_sense.Config.{config_defaults}
use montion_sense.Config.Numerals.{atoi, strtoul, signed, skip_spaces, digits}
use montion_sense.Config.Document.{
  scalar, sequence, mapping, Pairs, end, pair, find_pair, map_get, str_val, int_val, u32_val,
  float_val, bool_val, pos_val,
}
use montion_sense.Config.Sections.{
  loaded, parse_h264, parse_mjpeg, parse_ivs, parse_osd, parse_storage, load_root, ms_config_load,
}
use montion_sense.Config.Sections.Independence.{alone, ms_config_load-alone}
use montion_sense.Config.Sections.Settings.{MadeOf, setting, ms_config_load-MadeOf}

-- What this C library makes of too long a numeral.
abbrev unknown : String → ℤ
unknown _ = pos 0

numerals :
    (atoi unknown "25" ≡ pos 25)
    × (atoi unknown " -3x" ≡ negsuc 2)
    × (atoi unknown "high" ≡ pos 0)
    × (strtoul "-1" ≡ 4294967295)
    × (atoi unknown "-2147483648" ≡ negsuc 2147483647)
unfolding atoi strtoul signed skip_spaces digits
numerals = (refl, refl, refl, refl, refl)

-- The rates of the motion detection, twice one of them, and a section that no code reads.
abbrev file : Pairs
file = pair (scalar "extra") sequence (
    pair (scalar "ivs")
      (mapping (
        pair (scalar "fps_low") (scalar "2")
          (pair (scalar "fps_low") (scalar "5") (pair (scalar "fps_high") (scalar "25") end))))
      end)

-- `float` is left out: its values are texts.
abbrev keep_text : String → String
keep_text s = s

loaded_rates :
    let c = ms_config_load unknown keep_text "0.05" (loaded (mapping file)) in
    (c.ivs.fps_low ≡ pos 2)
    × (c.ivs.fps_high ≡ pos 25)
    × (c.ivs.poll_ms ≡ pos 250)
    × (c.h264.fps ≡ pos 30)
unfolding ms_config_load load_root parse_h264 parse_mjpeg parse_ivs parse_osd parse_storage map_get
    find_pair str_val int_val u32_val float_val bool_val pos_val config_defaults atoi signed
    skip_spaces digits
loaded_rates = (refl, refl, refl, refl)

ms_config_load-MadeOf_example :
    MadeOf unknown keep_text "0.05"
      (setting (loaded (mapping file)))
      (ms_config_load unknown keep_text "0.05" (loaded (mapping file)))
ms_config_load-MadeOf_example =
    ms_config_load-MadeOf unknown keep_text "0.05" (loaded (mapping file))

ms_config_load-alone_example :
    let c = ms_config_load unknown keep_text "0.05" (loaded (mapping file)) in
    (c.h264 ≡ (alone {Float = String} "0.05" file "h264" (parse_h264 unknown)).h264)
    × (c.mjpeg ≡ (alone {Float = String} "0.05" file "mjpeg" (parse_mjpeg unknown)).mjpeg)
    × (c.ivs ≡ (alone {Float = String} "0.05" file "ivs" (parse_ivs unknown keep_text)).ivs)
    × (c.osd ≡ (alone {Float = String} "0.05" file "osd" (parse_osd unknown)).osd)
    × (c.storage ≡ (alone {Float = String} "0.05" file "storage" (parse_storage unknown)).storage)
ms_config_load-alone_example = ms_config_load-alone unknown keep_text "0.05" file
