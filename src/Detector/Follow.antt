-- ===== src/Detector/Follow.antt =====
-- `ivs_thread` of src/media.c: the shared state follows the detector.
use montion_sense.Prelude.{
  ℕ, ◌*◌, ◌%◌, ◌^◌, ◌<◌, ◌≡◌, ◌↔◌, refl, sym, subst, arith, true, ◌&&◌, Option, none, some, List,
  [], ◌∷◌, ltb, ◌==◌, if_elim,
}
use montion_sense.Prelude.Int.{ℤ}
use montion_sense.Config.{IvsCfg}
use montion_sense.Capture.{Motion, undetected, detected, same_motion}
use montion_sense.Detector.{
  AppCtx, detect, rate_of, set_state, poll, polls, md_threshold_of, ivs_thread,
}

same_motion-eq : (a b : Motion) → same_motion a (some b) ≡ true → b ≡ a
same_motion-eq undetected undetected h = refl
same_motion-eq undetected detected h = absurd cc
same_motion-eq detected undetected h = absurd cc
same_motion-eq detected detected h = refl

-- The last poll that gave a result, or the one before.
abbrev pub last_result : Option (ℕ × ℕ) → List (Option (ℕ × ℕ)) → Option (ℕ × ℕ)
last_result o [] = o
last_result o (none ∷ rs) = last_result o rs
last_result o (some r ∷ rs) = last_result (some r) rs

-- The state for the last result: motion exactly when it found one area, and this one is above the
-- threshold. With no result the state is as before.
abbrev pub Judged : ℕ → Motion → Option (ℕ × ℕ) → Motion → Type 0
Judged md_threshold before none m = m ≡ before
Judged md_threshold before (some (count, square)) m =
    (m ≡ detected) ↔ ((count ≡ 1) × (md_threshold < square))

-- The shared rate is the low one without motion and the high one with it.
abbrev pub RateFor : ℤ → ℤ → Motion → ℤ → Type 0
RateFor fps_low fps_high undetected fps = fps ≡ fps_low
RateFor fps_low fps_high detected fps = fps ≡ fps_high

abbrev pub Rated : ℤ → ℤ → AppCtx → Type 0
Rated fps_low fps_high ctx = RateFor fps_low fps_high ctx.motion_state ctx.current_fps

detect-Judged :
    (md_threshold : ℕ) (before : Motion) (count square : ℕ)
    → Judged md_threshold before (some (count, square)) (detect md_threshold count square)
unfolding detect
detect-Judged md_threshold before count square =
    if_elim (Judged md_threshold before (some (count, square)))
      (count == 1 && ltb md_threshold square) detected undetected
      (λ b. ((λ _. (ground arith, ground arith)), (λ _. refl)))
      (λ b. ((λ e. absurd cc), (λ (one, above). absurd (ground arith))))

module _ (md_threshold : ℕ) (fps_low fps_high : ℤ) where
  rate_of-RateFor :
      (m : Motion) → RateFor fps_low fps_high m (rate_of md_threshold fps_low fps_high m)
  unfolding rate_of
  rate_of-RateFor undetected = refl
  rate_of-RateFor detected = refl

  -- The shared state is `m`, and the shared rate is the one for it, if it was so for the state before.
  set_state-state :
      (m : Motion) (ctx : AppCtx) → (set_state md_threshold fps_low fps_high m ctx).motion_state ≡ m
  unfolding set_state
  set_state-state m ctx =
      if_elim (λ (c : AppCtx). c.motion_state ≡ m) (same_motion m (some ctx.motion_state)) _ _
        (λ b. same_motion-eq m ctx.motion_state b) (λ _. refl)

  set_state-Rated :
      (m : Motion) (ctx : AppCtx)
      → Rated fps_low fps_high ctx
      → Rated fps_low fps_high (set_state md_threshold fps_low fps_high m ctx)
  unfolding set_state
  set_state-Rated m ctx r =
      if_elim (Rated fps_low fps_high) (same_motion m (some ctx.motion_state)) _ _ (λ _. r)
        (λ _. rate_of-RateFor m)

  polls-Rated :
      (before : Motion) (o : Option (ℕ × ℕ)) (rs : List (Option (ℕ × ℕ))) (ctx : AppCtx)
      → Judged md_threshold before o ctx.motion_state
      → Rated fps_low fps_high ctx
      → Judged md_threshold before
          (last_result o rs)
          (polls md_threshold fps_low fps_high rs ctx).motion_state
        × Rated fps_low fps_high (polls md_threshold fps_low fps_high rs ctx)
  unfolding polls poll
  polls-Rated before o [] ctx j r = (j, r)
  polls-Rated before o (none ∷ rs) ctx j r = polls-Rated before o rs ctx j r
  polls-Rated before o (some (count, square) ∷ rs) ctx j r =
      let m = detect md_threshold count square in
      polls-Rated before (some (count, square)) rs (set_state md_threshold fps_low fps_high m ctx)
        (subst (Judged md_threshold before (some (count, square))) (sym (set_state-state m ctx))
          (detect-Judged md_threshold before count square))
        (set_state-Rated m ctx r)

module _ {Float : Type 0} (of_u32 : ℕ → Float) (times : Float → Float → Float)
    (to_u32 : Float → ℕ) where
  -- After any number of polls, failed ones among them, there is motion exactly when the last result
  -- found one area, and this one is above the configured part of the detector's picture; with no result
  -- the motion state is as before. The shared rate is `fps_high` with motion and `fps_low` without, if it
  -- is so at first.
  pub ivs_thread-Rated :
      (ivs : IvsCfg Float) (rs : List (Option (ℕ × ℕ))) (ctx : AppCtx)
      → Rated ivs.fps_low ivs.fps_high ctx
      → Judged
          (to_u32 (times (of_u32 (ivs.width * ivs.height % 2 ^ 32)) ivs.area_ratio))
          ctx.motion_state
          (last_result none rs)
          (ivs_thread of_u32 times to_u32 ivs rs ctx).motion_state
        × Rated ivs.fps_low ivs.fps_high (ivs_thread of_u32 times to_u32 ivs rs ctx)
  unfolding ivs_thread md_threshold_of
  ivs_thread-Rated ivs rs ctx r =
      polls-Rated _ ivs.fps_low ivs.fps_high ctx.motion_state none rs ctx refl r
