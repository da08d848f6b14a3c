-- ===== src/Tests/Detector.antt =====
-- The motion state at concrete inputs: an area above 100 is motion.
use montion_sense.Prelude.{ℕ, ◌/◌, ◌≡◌, refl, false, true, none, some, Option, List, [], ◌∷◌}
use montion_sense.Prelude.Int.{pos}
use montion_sense.Capture.{undetected, detected}
use montion_sense.Config.{IvsCfg}
use montion_sense.Detector.{AppCtx, polls, poll, set_state, detect, md_threshold_of, ivs_thread}
use montion_sense.Detector.Follow.{Judged, Rated, ivs_thread-Rated}

abbrev idle_ctx : AppCtx
idle_ctx = record { is_running = true; motion_state = undetected; current_fps = pos 1; vq = none }

abbrev results : List (Option (ℕ × ℕ))
results = some (1, 50) ∷ some (1, 101) ∷ none ∷ []

-- An eighth of 80 by 10 is 100.
abbrev ivs : IvsCfg ℕ
ivs = record {
  width = 80;
  height = 10;
  fps = pos 10;
  md_interval = pos 1;
  md_sensibility = pos 1;
  md_night_mode = false;
  thresh_sad = pos 0;
  thresh_move = pos 0;
  area_ratio = 8;
  poll_ms = pos 250;
  fps_low = pos 1;
  fps_high = pos 30;
  motion_debounce_ms = pos 1000;
}

abbrev keep : ℕ → ℕ
keep n = n

abbrev part : ℕ → ℕ → ℕ
part n ratio = n / ratio

seen_motion : (ivs_thread keep part keep ivs results idle_ctx).motion_state ≡ detected
unfolding ivs_thread md_threshold_of polls poll set_state detect
seen_motion = refl

ivs_thread-Rated_example :
    Judged 100 undetected
      (some (1, 101))
      (ivs_thread keep part keep ivs results idle_ctx).motion_state
    × Rated (pos 1) (pos 30) (ivs_thread keep part keep ivs results idle_ctx)
ivs_thread-Rated_example = ivs_thread-Rated keep part keep ivs results idle_ctx refl
