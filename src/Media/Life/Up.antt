-- ===== src/Media/Life/Up.antt =====
-- `media_init` of src/media.c, when it returns 0.
use montion_sense.Prelude.{
  ℕ, ◌*◌, ◌/◌, ◌%◌, ◌^◌, ◌<◌, ◌≡◌, refl, ap, subst, arith, Bool-cases, inl, inr, true, false, not,
  Option, none, some, if_elim, if◌then◌else◌, Rc, ok,
}
use montion_sense.Prelude.Int.{pos_part, to_u32}
use montion_sense.Config.{Config}
use montion_sense.WebSock.{no_socket, web_sock_srv_init}
use montion_sense.Media.{Board, Answers, Region, H264Attr, off}
use montion_sense.Media.Attrs.{
  h264_buffer, mjpeg_buffer, h264_attr, main_attr, self_attr, mjpeg_attr, mjpeg_settings,
  bypath_attr, sampling_attr, ivs_attr,
}
use montion_sense.Media.Pipelines.{with_framerate, venc_set_framerate}
use montion_sense.Media.Overlay.{osd_init, with_regions}
use montion_sense.Media.Life.Stop.{Announced, font_after, media_deinit-Off}
use montion_sense.Media.Life.{
  media_deinit, fail_sys, fail_vi, fail_aiq, fail_pipe0, fail_pipe1, fail_threads, start_threads,
  start_osd, fps_high, start_rated, start_producers, media_init,
}
use montion_sense.Media.Life.Camera.{camera, clamped}
use montion_sense.Media.Life.Pipes.{piped, media_init_ok}

-- c is b but for the overlay.
abbrev pub OverlayOf : Board → Board → Type 0
OverlayOf c b =
    (c ≡ record b {
      font = c.font;
      region_h264 = c.region_h264;
      region_mjpeg = c.region_mjpeg;
      osd_inited = c.osd_inited;
      osd_started = c.osd_started;
    })
    × Announced c

module _ {Float : Type 0} (cfg : Config Float) (a : Answers) where
  -- The encoder with its rate: `fps_high`, at least 1. A failure to set it keeps the sensor's rate.
  unfoldable pub rated : H264Attr
  rated = record (h264_attr cfg) {
    src_frame_rate = if a.chn_attr then to_u32 (fps_high cfg a) else to_u32 cfg.h264.fps;
  }

  -- The camera that runs, without an overlay.
  unfoldable pub up : Board
  up = record (piped cfg a) {
    venc_h264 = some rated;
    producers_run = true;
    h264_started = true;
    mjpeg_started = true;
    ivs_started = true;
    web = web_sock_srv_init a.socket a.bind_socket a.listen no_socket;
  }

  with_regions-OverlayOf :
      (r s : Option Region) (b : Board)
      → Announced b
      → b.osd_inited ≡ false
      → OverlayOf (start_osd cfg a (with_regions cfg r s b)) b
  unfolding start_osd with_regions
  with_regions-OverlayOf none s b n f = (refl, n)
  with_regions-OverlayOf (some r) none b n f = elim n [
    | inl up_ ↦ absurd cc
    | inr bare ↦ (refl, inr (refl, bare.1))
  ]
  with_regions-OverlayOf (some r) (some s) b n f =
      if_elim (λ c. OverlayOf c b) a.osd_thread _ _ (λ _. (refl, inl refl)) (λ _. (refl, inl refl))

  osd-OverlayOf :
      (b : Board)
      → Announced b
      → b.osd_inited ≡ false
      → OverlayOf (start_osd cfg a (osd_init cfg a b)) b
  unfolding osd_init start_osd
  osd-OverlayOf b n f =
      if_elim (λ (r : Rc × Board). OverlayOf (start_osd cfg a r) b) (not a.font) _ _
        (λ _. (refl, n))
        (λ _. with_regions-OverlayOf _ _ (record b { font = some cfg.osd.font_size }) n f)

  start_threads_ok :
      (b : Board)
      → (start_threads cfg a b).0 ≡ ok
      → (start_threads cfg a b).1
        ≡ record b { h264_started = true; mjpeg_started = true; ivs_started = true }
  unfolding start_threads fail_threads fail_pipe1 fail_pipe0 fail_aiq fail_vi fail_sys
  start_threads_ok b h = ground arith

  set_framerate :
      (venc_set_framerate cfg a (fps_high cfg a) (piped cfg a)).1
      ≡ record (piped cfg a) { venc_h264 = some rated }
  unfolding venc_set_framerate rated with_framerate h264_attr
  set_framerate = elim (Bool-cases a.chn_attr) [ inl e ↦ rw e refl | inr e ↦ rw e refl ]

  start_rated_ok :
      (start_rated cfg a (record (piped cfg a) { venc_h264 = some rated })).0 ≡ ok
      → OverlayOf (start_rated cfg a (record (piped cfg a) { venc_h264 = some rated })).1 up
  unfolding start_rated up
  start_rated_ok h =
      let run : Board = record (piped cfg a) {
        venc_h264 = some rated;
        producers_run = true;
        web = web_sock_srv_init a.socket a.bind_socket a.listen no_socket;
      } in
      let o = osd-OverlayOf run (inr (refl, refl)) refl in
      rw (start_threads_ok _ h) (
        ap
            (λ (d : Board). record d {
              h264_started = true;
              mjpeg_started = true;
              ivs_started = true;
            })
            o.0,
        o.1,
      )

  start_producers_ok :
      (start_producers cfg a (piped cfg a)).0 ≡ ok
      → OverlayOf (start_producers cfg a (piped cfg a)).1 up
  unfolding start_producers
  start_producers_ok h =
      rw set_framerate (start_rated_ok (subst (λ b. (start_rated cfg a b).0 ≡ ok) set_framerate h))

  media_init-up : (media_init cfg a off).0 ≡ ok → OverlayOf (media_init cfg a off).1 up
  media_init-up h =
      let e = media_init_ok cfg a h in rw e (start_producers_ok (subst (λ r. r.0 ≡ ok) e h))

  up-camera : pos_part cfg.ivs.fps_high < 2 ^ 31 → up ≡ camera cfg a
  unfolding up rated h264_attr main_attr self_attr bypath_attr sampling_attr mjpeg_attr
      mjpeg_settings ivs_attr h264_buffer mjpeg_buffer
  up-camera fits =
      ap
        (λ (rate : ℕ). record (camera cfg a) {
          venc_h264 = some (record {
            width = cfg.h264.width;
            height = cfg.h264.height;
            buffer_size = cfg.h264.width * cfg.h264.height * 3 % 2 ^ 32 / 2;
            gop = to_u32 cfg.h264.gop;
            bit_rate = cfg.h264.bitrate_kbps;
            src_frame_rate = if a.chn_attr then rate else to_u32 cfg.h264.fps;
          });
        })
        (clamped cfg a fits)

  -- When `media_init` returns 0 at the program's start, the board holds the camera's device and image
  -- processor and the three pipelines with the numbers of the configuration, the rate of the H264 encoder
  -- is `fps_high` and at least 1 (where VENC_SetChnAttr succeeds, and for an `fps_high` that an int
  -- holds), and the producers run; the settings of the MJPEG encoder hold only where the library keeps
  -- those made before the channel. The overlay, which may fail, is up or has no region.
  pub media_init-OverlayOf :
      pos_part cfg.ivs.fps_high < 2 ^ 31
      → (media_init cfg a off).0 ≡ ok
      → OverlayOf (media_init cfg a off).1 (camera cfg a)
  media_init-OverlayOf fits h =
      subst (OverlayOf (media_init cfg a off).1) (up-camera fits) (media_init-up h)

  -- After a `media_init` that returns 0 at the program's start, `media_deinit` gives back all that it has
  -- taken, but for the font of an overlay that could not be set up.
  pub media_deinit-media_init :
      (media_init cfg a off).0 ≡ ok
      → let b = (media_init cfg a off).1 in media_deinit b ≡ record off { font = font_after b }
  unfolding up
  media_deinit-media_init h =
      let o = media_init-up h in media_deinit-Off _ (ap (λ (c : Board). c.producers_run) o.0) o.1
