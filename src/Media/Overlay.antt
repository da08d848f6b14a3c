-- ===== src/Media/Overlay.antt =====
-- src/media.c, `osd_rgn_create` to `osd_deinit`: the overlay with the time, on both encoders.
--
-- What is drawn is left out: the font and the two regions are what the overlay holds. The sums of the
-- configured margin and the sizes are taken to fit an int.
pub mod Place
pub mod Clock
use montion_sense.Prelude.{Bool, true, false, not, Option, none, some, if◌then◌else◌, Rc, ok, fail}
use montion_sense.Prelude.Int.{ℤ, sub_ℤ, to_int, to_u32, up_align_to_16}
use montion_sense.Config.{
  Config, OsdPosition, top_left, top_right, bottom_left, bottom_right, H264Cfg, OsdCfg,
}
use montion_sense.Media.{Board, Answers, Region}

module _ {Float : Type 0} (cfg : Config Float) where
  -- UPALIGNTO16(m)
  unfoldable pub near : ℤ
  near = up_align_to_16 cfg.osd.margin

  unfoldable pub far_x : ℤ → ℤ
  far_x w = up_align_to_16 (sub_ℤ (sub_ℤ (to_int cfg.h264.width) w) cfg.osd.margin)

  unfoldable pub far_y : ℤ → ℤ
  far_y height = up_align_to_16 (sub_ℤ (sub_ℤ (to_int cfg.h264.height) height) cfg.osd.margin)

  unfoldable pub place : OsdPosition → ℤ → ℤ → ℤ × ℤ
  place top_left w height = (near, near)
  place top_right w height = (far_x w, near)
  place bottom_left w height = (near, far_y height)
  place bottom_right w height = (far_x w, far_y height)

  -- The flags say whether RGN_Create and RGN_AttachToChn succeed. A region that cannot be attached is
  -- destroyed.
  unfoldable pub osd_rgn_create : Bool → Bool → ℤ → ℤ → Option Region
  osd_rgn_create created attached w height =
      let at = place cfg.osd.position w height in
      if not created
      then none
      else if not attached
      then none
      else some (record { width = to_u32 w; height = to_u32 height; x = at.0; y = at.1 })

  unfoldable pub with_regions : Option Region → Option Region → Board → Rc × Board
  with_regions none second b = (fail, b)
  with_regions (some r) none b = (fail, record b { region_h264 = none })
  with_regions (some r) (some s) b = (ok, record b { region_h264 = some r; region_mjpeg = some s })

  unfoldable pub osd_init : Answers → Board → Rc × Board
  osd_init a b =
      let w = up_align_to_16 a.text_width in
      let height = up_align_to_16 cfg.osd.font_size in
      if not a.font
      then (fail, b)
      else with_regions (osd_rgn_create a.region_h264 a.attach_h264 w height)
          (osd_rgn_create a.region_mjpeg a.attach_mjpeg w height)
          (record b { font = some cfg.osd.font_size })

unfoldable pub osd_deinit : Board → Board
osd_deinit b = record b { region_h264 = none; region_mjpeg = none; font = none }
