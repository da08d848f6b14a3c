-- ===== src/Config/Sections/Independence.antt =====
-- `ms_config_load` of src/config.c: what each section of the configuration depends on.
use Prim.Native.String.{String}
use montion_sense.Prelude.{◌≡◌, refl, ap, ◌∙◌, Option, none, some}
use montion_sense.Prelude.Int.{ℤ}
use montion_sense.Config.{Config, config_defaults}
use montion_sense.Config.Document.{Node, mapping, Pairs, map_get}
use montion_sense.Config.Sections.{
  loaded, parse_h264, parse_mjpeg, parse_ivs, parse_osd, parse_storage, on_section, load_root,
  ms_config_load,
}

module _ {Float : Type 0} {A : Type 0} (part : Config Float → A)
    (parse : Node → Config Float → Config Float) where
  -- A section's parser leaves a part alone.
  on_section-frame :
      ((sec : Node) (c : Config Float) → part (parse sec c) ≡ part c)
      → (o : Option Node) (c : Config Float) → part (on_section o parse c) ≡ part c
  on_section-frame h none c = refl
  on_section-frame h (some sec) c = h sec c

  -- A part that a section's parser makes of the same part of the configuration before.
  on_section-local :
      (make : Node → A → A)
      → ((sec : Node) (c : Config Float) → part (parse sec c) ≡ make sec (part c))
      → (o : Option Node) (c d : Config Float) → part c ≡ part d
      → part (on_section o parse c) ≡ part (on_section o parse d)
  on_section-local make h none c d e = e
  on_section-local make h (some sec) c d e = rw (h sec c, h sec d) (ap (make sec) e)

-- What the file says of one section, alone.
abbrev pub alone :
    {Float : Type 0} → Float → Pairs → String → (Node → Config Float → Config Float) → Config Float
alone a ps key parse = on_section (map_get (mapping ps) key) parse (config_defaults a)

module _ {Float : Type 0} (beyond : String → ℤ) (atof : String → Float) (a : Float)
    (ps : Pairs) where
  -- Each section of the configuration comes from its own section of the file and from the defaults: it
  -- is what it would be if the file had no other section.
  pub ms_config_load-alone :
      let c = ms_config_load beyond atof a (loaded (mapping ps)) in
      (c.h264 ≡ (alone a ps "h264" (parse_h264 beyond)).h264)
      × (c.mjpeg ≡ (alone a ps "mjpeg" (parse_mjpeg beyond)).mjpeg)
      × (c.ivs ≡ (alone a ps "ivs" (parse_ivs beyond atof)).ivs)
      × (c.osd ≡ (alone a ps "osd" (parse_osd beyond)).osd)
      × (c.storage ≡ (alone a ps "storage" (parse_storage beyond)).storage)
  unfolding ms_config_load load_root parse_h264 parse_mjpeg parse_ivs parse_osd parse_storage
  ms_config_load-alone =
      let o1 = map_get (mapping ps) "h264" in
      let o2 = map_get (mapping ps) "mjpeg" in
      let o3 = map_get (mapping ps) "ivs" in
      let o4 = map_get (mapping ps) "osd" in
      let o5 = map_get (mapping ps) "storage" in
      let d = config_defaults a in
      let c1 = on_section o1 (parse_h264 beyond) d in
      let c2 = on_section o2 (parse_mjpeg beyond) c1 in
      let c3 = on_section o3 (parse_ivs beyond atof) c2 in
      let c4 = on_section o4 (parse_osd beyond) c3 in
      let mjpeg_skips_h264 =
        on_section-frame (λ c. c.mjpeg) (parse_h264 beyond) (λ _ _. refl) o1 d in
      let ivs_skips =
        on_section-frame (λ c. c.ivs) (parse_mjpeg beyond) (λ _ _. refl) o2 c1
        ∙ on_section-frame (λ c. c.ivs) (parse_h264 beyond) (λ _ _. refl) o1 d in
      let osd_skips =
        on_section-frame (λ c. c.osd) (parse_ivs beyond atof) (λ _ _. refl) o3 c2
        ∙ on_section-frame (λ c. c.osd) (parse_mjpeg beyond) (λ _ _. refl) o2 c1
        ∙ on_section-frame (λ c. c.osd) (parse_h264 beyond) (λ _ _. refl) o1 d in
      let storage_skips =
        on_section-frame (λ c. c.storage) (parse_osd beyond) (λ _ _. refl) o4 c3
        ∙ on_section-frame (λ c. c.storage) (parse_ivs beyond atof) (λ _ _. refl) o3 c2
        ∙ on_section-frame (λ c. c.storage) (parse_mjpeg beyond) (λ _ _. refl) o2 c1
        ∙ on_section-frame (λ c. c.storage) (parse_h264 beyond) (λ _ _. refl) o1 d in
      (
        on_section-frame (λ c. c.h264) (parse_storage beyond) (λ _ _. refl) o5 c4
            ∙ on_section-frame (λ c. c.h264) (parse_osd beyond) (λ _ _. refl) o4 c3
            ∙ on_section-frame (λ c. c.h264) (parse_ivs beyond atof) (λ _ _. refl) o3 c2
            ∙ on_section-frame (λ c. c.h264) (parse_mjpeg beyond) (λ _ _. refl) o2 c1,
        on_section-frame (λ c. c.mjpeg) (parse_storage beyond) (λ _ _. refl) o5 c4
            ∙ on_section-frame (λ c. c.mjpeg) (parse_osd beyond) (λ _ _. refl) o4 c3
            ∙ on_section-frame (λ c. c.mjpeg) (parse_ivs beyond atof) (λ _ _. refl) o3 c2
            ∙ on_section-local (λ c. c.mjpeg) (parse_mjpeg beyond)
                (λ sec m. (parse_mjpeg beyond sec (record d { mjpeg = m })).mjpeg) (λ _ _. refl) o2
                c1 d mjpeg_skips_h264,
        on_section-frame (λ c. c.ivs) (parse_storage beyond) (λ _ _. refl) o5 c4
            ∙ on_section-frame (λ c. c.ivs) (parse_osd beyond) (λ _ _. refl) o4 c3
            ∙ on_section-local (λ c. c.ivs) (parse_ivs beyond atof)
                (λ sec m. (parse_ivs beyond atof sec (record d { ivs = m })).ivs) (λ _ _. refl) o3
                c2 d ivs_skips,
        on_section-frame (λ c. c.osd) (parse_storage beyond) (λ _ _. refl) o5 c4
            ∙ on_section-local (λ c. c.osd) (parse_osd beyond)
                (λ sec m. (parse_osd beyond sec (record d { osd = m })).osd) (λ _ _. refl) o4 c3 d
                osd_skips,
        on_section-local (λ c. c.storage) (parse_storage beyond)
            (λ sec m. (parse_storage beyond sec (record d { storage = m })).storage) (λ _ _. refl)
            o5 c4 d storage_skips,
      )
