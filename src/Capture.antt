-- ===== src/Capture.antt =====
-- src/media.c, `h264_thread`: which sensor frames are kept, and on what timeline they are recorded.
--
-- Time stamps are numbers of microseconds. `last_kept_hw` and `prev_motion_state` start at -1, which
-- is `none`; a hardware time stamp is never negative. The subtraction `hw_pts - last_kept_hw` is that
-- of ℕ: the code makes it for a time stamp that is not before the last one.
pub mod Pacing
pub mod Rate
pub mod Timeline
pub mod Encode
pub mod Ordered
pub mod Stamps
use montion_sense.Prelude.{
  ℕ, ◌+◌, ◌-◌, ◌*◌, ◌/◌, Bool, true, false, not, ◌&&◌, Option, none, some, List, [], ◌∷◌, ltb, leb,
  if◌then◌else◌,
}
use montion_sense.Prelude.Int.{ℤ, pos, negsuc}

-- MOTION_UNDETECTED and MOTION_DETECTED
pub data Motion : Type 0 where
  undetected detected : Motion

-- `fps < 1 ? 1 : fps`, as for `fps_high` and `fps_low`
unfoldable pub clamp_fps : ℤ → ℕ
clamp_fps (negsuc n) = 1
clamp_fps (pos n) = if ltb n 1 then 1 else n

-- The variables that `h264_thread` keeps across its loop.
pub record Clock : Type 0 where
  pub pts : ℕ
  pub last_kept_hw : Option ℕ
  pub next_keep_hw : ℕ
  pub prev_motion_state : Option Motion

abbrev pub start : Clock
start = record { pts = 0; last_kept_hw = none; next_keep_hw = 0; prev_motion_state = none }

abbrev pub same_motion : Motion → Option Motion → Bool
same_motion m none = false
same_motion undetected (some undetected) = true
same_motion undetected (some detected) = false
same_motion detected (some undetected) = false
same_motion detected (some detected) = true

-- The two rates of the configuration, clamped.
module _ (fps_low fps_high : ℕ) where
  unfoldable pub target_fps : Motion → ℕ
  target_fps undetected = fps_low
  target_fps detected = fps_high

  unfoldable pub keep_interval : Motion → ℕ
  keep_interval m = 1000000 / target_fps m

  -- A kept frame: the timeline and the deadline move on.
  unfoldable pub keep : Clock → ℕ → ℕ → ℕ → Clock
  keep c hw pts next = record c { pts = pts; last_kept_hw = some hw; next_keep_hw = next }

  -- `next_keep_hw += keep_interval`, or one interval from now when that is over already.
  unfoldable pub next_deadline : ℕ → ℕ → ℕ → ℕ
  next_deadline next interval hw =
      if leb (next + interval) hw then hw + interval else next + interval

  -- How far the timeline moves for a frame `elapsed` after the last kept one.
  unfoldable pub advance : Motion → ℕ → ℕ
  advance detected elapsed = elapsed
  advance undetected elapsed = elapsed * fps_low / fps_high

  -- The gate at a frame with a kept frame before it and no change of mode; `none` drops the frame.
  unfoldable pub gate : Clock → Motion → ℕ → ℕ → Option ℕ × Clock
  gate c m last hw =
      if ltb hw c.next_keep_hw
      then (none, c)
      else (let pts = c.pts + advance m (hw - last) in
          (some pts, keep c hw pts (next_deadline c.next_keep_hw (keep_interval m) hw)))

  -- A first frame, or the first one after a change of mode: kept, one nominal step on.
  unfoldable pub keep_nominal : Clock → Motion → ℕ → Option ℕ × Clock
  keep_nominal c m hw =
      let pts = c.pts + 1000000 / fps_high in (some pts, keep c hw pts (hw + keep_interval m))

  -- `last_kept_hw >= 0 && !transition`
  unfoldable pub route : Option ℕ → Bool → Clock → Motion → ℕ → Option ℕ × Clock
  route none same c m hw = keep_nominal c m hw
  route (some last) same c m hw = if same then gate c m last hw else keep_nominal c m hw

  -- One sensor frame: the time stamp that goes to the encoder, if the frame is kept.
  unfoldable pub capture : Clock → Motion → ℕ → Option ℕ × Clock
  capture c m hw =
      route c.last_kept_hw (same_motion m c.prev_motion_state)
        (record c { prev_motion_state = some m }) m hw

  -- The time stamp of a kept frame, before those of the frames after it.
  abbrev pub sent : Option ℕ → List ℕ → List ℕ
  sent none ps = ps
  sent (some p) ps = p ∷ ps

  -- The loop over the sensor's frames, each with the motion state that the loop reads.
  unfoldable pub capture_all : Clock → List (Motion × ℕ) → List ℕ × Clock
  capture_all c [] = ([], c)
  capture_all c ((m, hw) ∷ fs) =
      let (p, c') = capture c m hw in let (ps, end) = capture_all c' fs in (sent p ps, end)
