-- ===== src/Media/Life/Pipes.antt =====
-- `media_init` of src/media.c up to its pipelines, when each step succeeds.
use montion_sense.Prelude.{
  ◌≡◌, refl, ◌∙◌, ap, subst, arith, true, not, some, if_elim, if◌then◌else◌, Rc, ok, fail,
}
use montion_sense.Config.{Config}
use montion_sense.Media.{Board, Answers, off}
use montion_sense.Media.Devices.{vi_dev_init, enable_device, aiq_init}
use montion_sense.Media.Attrs.{
  h264_attr, main_attr, self_attr, mjpeg_attr, mjpeg_settings, bypath_attr, sampling_attr, ivs_attr,
  h264_tuning,
}
use montion_sense.Media.Pipelines.{
  stream_encoder, record_pipeline_init, motion_pipeline_init, stream_pipeline_init,
}
use montion_sense.Media.Life.{
  fail_sys, fail_vi, fail_aiq, fail_pipe0, fail_pipe1, or_goto, start_producers, init_motion,
  init_stream, init_record, init_aiq, media_init,
}

or_goto_ok :
    (label next : Board → Rc × Board) (r : Rc × Board)
    → ((b : Board) → (label b).0 ≡ fail)
    → (or_goto label next r).0 ≡ ok
    → (r.0 ≡ ok) × (or_goto label next r ≡ next r.1)
unfolding or_goto
or_goto_ok label next (ok, b) l h = (refl, refl)
or_goto_ok label next (fail, b) l h = let f = l b in absurd cc

-- A step that succeeds, with the board that it leaves.
then_ :
    (label next : Board → Rc × Board) (r : Rc × Board) (c : Board)
    → ((b : Board) → (label b).0 ≡ fail)
    → (r.0 ≡ ok → r.1 ≡ c)
    → (or_goto label next r).0 ≡ ok
    → or_goto label next r ≡ next c
then_ label next r c l k h = let o = or_goto_ok label next r l h in o.1 ∙ ap next (k o.0)

module _ {Float : Type 0} (cfg : Config Float) (a : Answers) where
  abbrev pub recorded : Board → Board
  recorded b = record b {
    vi_main = some (main_attr cfg);
    venc_h264 = some (h264_attr cfg);
    tuning = some h264_tuning;
    recv_h264 = true;
  }

  abbrev pub streamed : Board → Board
  streamed b = record b {
    vi_self = some (self_attr cfg);
    mjpeg_settings = if a.early_settings then some (mjpeg_settings cfg) else b.mjpeg_settings;
    venc_mjpeg = some (mjpeg_attr cfg);
    recv_mjpeg = true;
    bound_mjpeg = true;
  }

  abbrev pub watched : Board → Board
  watched b = record b {
    vi_bypath = some (bypath_attr cfg);
    vi_sampling = some (sampling_attr cfg);
    ivs = some (ivs_attr cfg);
    bound_ivs = true;
  }

  abbrev pub powered : Board
  powered = record off { sys = true; vi_dev = true; aiq = true }

  abbrev pub piped : Board
  piped = watched (streamed (recorded powered))

  init_motion_ok :
      (b : Board)
      → (init_motion cfg a b).0 ≡ ok
      → init_motion cfg a b ≡ start_producers cfg a (watched b)
  unfolding init_motion motion_pipeline_init fail_pipe1 fail_pipe0 fail_aiq fail_vi fail_sys
  init_motion_ok b =
      then_ fail_pipe1 (start_producers cfg a) (motion_pipeline_init cfg a b) (watched b)
        (λ _. refl) (λ h. ground arith)

  init_stream_ok :
      (b : Board)
      → (init_stream cfg a b).0 ≡ ok
      → init_stream cfg a b ≡ init_motion cfg a (streamed b)
  unfolding init_stream stream_pipeline_init stream_encoder fail_pipe0 fail_aiq fail_vi fail_sys
  init_stream_ok b =
      then_ fail_pipe0 (init_motion cfg a) (stream_pipeline_init cfg a b) (streamed b) (λ _. refl)
        (λ h. ground arith)

  init_record_ok :
      (b : Board)
      → (init_record cfg a b).0 ≡ ok
      → init_record cfg a b ≡ init_stream cfg a (recorded b)
  unfolding init_record record_pipeline_init fail_aiq fail_vi fail_sys
  init_record_ok b =
      then_ fail_aiq (init_stream cfg a) (record_pipeline_init cfg a b) (recorded b) (λ _. refl)
        (λ h. ground arith)

  init_aiq_ok :
      (b : Board)
      → (init_aiq cfg a b).0 ≡ ok
      → init_aiq cfg a b ≡ init_record cfg a (record b { aiq = true })
  unfolding init_aiq aiq_init fail_vi fail_sys
  init_aiq_ok b =
      then_ fail_vi (init_record cfg a) (aiq_init a b) (record b { aiq = true }) (λ _. refl)
        (λ h. ground arith)

  init_device_ok :
      (or_goto fail_sys (init_aiq cfg a) (vi_dev_init a (record off { sys = true }))).0 ≡ ok
      → or_goto fail_sys (init_aiq cfg a) (vi_dev_init a (record off { sys = true }))
        ≡ init_aiq cfg a (record off { sys = true; vi_dev = true })
  unfolding vi_dev_init enable_device fail_sys
  init_device_ok =
      then_ fail_sys (init_aiq cfg a) (vi_dev_init a (record off { sys = true }))
        (record off { sys = true; vi_dev = true }) (λ _. refl) (λ h. ground arith)

  pub media_init_ok :
      (media_init cfg a off).0 ≡ ok → media_init cfg a off ≡ start_producers cfg a piped
  unfolding media_init
  media_init_ok =
      if_elim (λ (r : Rc × Board). r.0 ≡ ok → r ≡ start_producers cfg a piped) (not a.sys_init) _ _
        (λ _ h. absurd cc)
        (λ _ h.
          let d = init_device_ok h in
          let q = d ∙ init_aiq_ok _ (subst (λ r. r.0 ≡ ok) d h) in
          let r = q ∙ init_record_ok _ (subst (λ r. r.0 ≡ ok) q h) in
          let s = r ∙ init_stream_ok _ (subst (λ r. r.0 ≡ ok) r h) in
          s ∙ init_motion_ok _ (subst (λ r. r.0 ≡ ok) s h))
