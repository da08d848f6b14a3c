-- ===== src/Capture/Rate.antt =====
-- How many frames `h264_thread` keeps while the motion state does not change.
use montion_sense.Prelude.{
  ℕ, ◌+◌, ◌*◌, ◌<◌, ◌≤◌, ◌≡◌, refl, List, [], ◌∷◌, map, some, arith, length,
}
use montion_sense.Capture.{Motion, Clock, keep_interval, capture_all, sent}
use montion_sense.Capture.Pacing.{
  IsRate, Paced, gate_cases, next_deadline_bounds, keep_interval_pos,
}

-- Frames that all meet the motion state `m`.
abbrev pub during : Motion → List ℕ → List (Motion × ℕ)
during m hs = map (λ hw. (m, hw)) hs

module _ (fps_low fps_high : ℕ) (m : Motion) where
  -- The deadline moves by an interval at least for each kept frame.
  pub record Stretch (c : Clock) (out : List ℕ × Clock) : Type 0 where
    pub last : ℕ
    pub paced : Paced fps_low fps_high out.1 m last
    pub moved :
        c.next_keep_hw + length out.0 * keep_interval fps_low fps_high m ≤ out.1.next_keep_hw

module _ (fps_low fps_high : ℕ) (low : IsRate fps_low) (high : IsRate fps_high) (m : Motion) where
  stretch :
      (hs : List ℕ) (c : Clock) (last : ℕ)
      → Paced fps_low fps_high c m last
      → Stretch fps_low fps_high m c (capture_all fps_low fps_high c (during m hs))
  unfolding capture_all
  stretch [] c last w = record { last = last; paced = w; moved = omega arith }
  stretch (hw ∷ hs) c last w =
      gate_cases fps_low fps_high
        (λ r. Stretch fps_low fps_high m c (
          let (ps, end) = capture_all fps_low fps_high r.1 (during m hs) in
          (sent fps_low fps_high r.0 ps, end)))
        c m last hw w
        (λ h. after_drop (
          stretch hs _ last
            (record { kept = w.kept; mode = refl; ahead = w.ahead; near = w.near })))
        (λ h.
          let b =
            next_deadline_bounds fps_low fps_high c.next_keep_hw (keep_interval fps_low fps_high m)
              hw (keep_interval_pos fps_low fps_high low high m) h in
          after_keep b.2
            (stretch hs _ hw (record { kept = refl; mode = refl; ahead = b.0; near = b.1 })))
    where
      after_drop :
          {r : List ℕ × Clock}
          → Stretch fps_low fps_high m (record c { prev_motion_state = some m }) r
          → Stretch fps_low fps_high m c r
      after_drop s = record { last = s.last; paced = s.paced; moved = s.moved }

      after_keep :
          {d : Clock} {p : ℕ} {r : List ℕ × Clock}
          → c.next_keep_hw + keep_interval fps_low fps_high m ≤ d.next_keep_hw
          → Stretch fps_low fps_high m d r
          → Stretch fps_low fps_high m c (p ∷ r.0, r.1)
      after_keep b s = record { last = s.last; paced = s.paced; moved = grind arith }

  -- While the motion state stays, no stretch of sensor time, however its frames come, yields more
  -- frames than its rate allows: `n` frames kept after the frame at `last`, up to the one at `l`, take
  -- more than `n - 1` intervals. Both rates are from 1 to 1000000.
  pub stretch_rate :
      (hs : List ℕ) (c : Clock) (last : ℕ)
      → Paced fps_low fps_high c m last
      → let (ps, end) = capture_all fps_low fps_high c (during m hs) in
        (l : ℕ) × (end.last_kept_hw ≡ some l)
        × (length ps * keep_interval fps_low fps_high m + last
            < l + keep_interval fps_low fps_high m)
  stretch_rate hs c last w =
      let s = stretch hs c last w in
      (s.last, s.paced.kept, omega (arith, s.moved, s.paced.near, w.ahead))
