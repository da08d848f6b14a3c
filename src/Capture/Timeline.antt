-- ===== src/Capture/Timeline.antt =====
-- The timeline on which `h264_thread` records: real time in motion, compressed while idle.
use native.Mathlib.Numerals.{add-one}
use montion_sense.Prelude.{
  ℕ, ◌+◌, ◌-◌, ◌*◌, ◌/◌, ◌≤◌, ◌≡◌, refl, ap, ◌∙◌, ◌⊎◌, inl, inr, List, [], ◌∷◌, none, some, Option,
  arith, length,
}
use montion_sense.Capture.{
  Motion, undetected, detected, Clock, keep_interval, capture, capture_all, advance, sent,
  keep_nominal, keep,
}
use montion_sense.Capture.Pacing.{
  IsRate, Paced, OnPace, OnPace-cases, gate_cases, next_deadline_bounds, keep_interval_pos,
  capture-OnPace, switch_keeps,
}
use montion_sense.Capture.Rate.{during}

-- Time stamps that never step back, from `p` on.
abbrev pub Rising : ℕ → List ℕ → Type 0
Rising p [] = Unit {0}
Rising p (q ∷ qs) = (p ≤ q) × Rising q qs

module _ (fps_low fps_high : ℕ) where
  -- What `n` kept frames add to the timeline over a stretch of sensor time.
  abbrev pub Elapses : Motion → ℕ → ℕ → ℕ → Type 0
  Elapses detected real timeline n = timeline ≡ real
  Elapses undetected real timeline n =
      (timeline * fps_high ≤ real * fps_low) × (real * fps_low ≤ timeline * fps_high + n * fps_high)

  -- A stretch of sensor time, the timeline that it adds, and where the clock stands behind it.
  pub record Lapse (m : Motion) (c : Clock) (last : ℕ) (out : List ℕ × Clock) : Type 0 where
    pub real : ℕ
    pub timeline : ℕ
    pub last_kept : out.1.last_kept_hw ≡ some (last + real)
    pub pts : out.1.pts ≡ c.pts + timeline
    pub elapses : Elapses m real timeline (length out.0)

module _ (fps_low fps_high : ℕ) (low : IsRate fps_low) (high : IsRate fps_high) where
  -- A frame is dropped and leaves the timeline, or takes it on to the time stamp that is sent.
  abbrev pub Sends : Clock → Option ℕ × Clock → Type 0
  Sends c r =
      ((r.0 ≡ none) × (r.1.pts ≡ c.pts)) ⊎ ((p : ℕ) × (r.0 ≡ some p) × (c.pts ≤ p) × (r.1.pts ≡ p))

  pub capture-Sends :
      (c : Clock) (m : Motion) (hw : ℕ)
      → OnPace fps_low fps_high c
      → Sends c (capture fps_low fps_high c m hw)
  unfolding keep_nominal keep
  capture-Sends c m hw w = elim (OnPace-cases fps_low fps_high c m w) [
    | inl s ↦
        rw (switch_keeps fps_low fps_high c m hw s)
          (inr (c.pts + 1000000 / fps_high, refl, omega arith, refl))
    | inr (last, paced) ↦
        gate_cases fps_low fps_high (Sends c) c m last hw paced (λ _. inl (refl, refl))
          (λ _. inr (c.pts + advance fps_low fps_high m (hw - last), refl, omega arith, refl))
  ]

  Sends-Rising :
      (c : Clock) (r : Option ℕ × Clock) (ps : List ℕ)
      → Sends c r
      → Rising r.1.pts ps
      → Rising c.pts (sent fps_low fps_high r.0 ps)
  Sends-Rising c r ps (inl (e, same)) h = rw e (rw same at h)
  Sends-Rising c r ps (inr (p, e, up, moved)) h = rw e (up, rw moved at h)

  -- The time stamps that go to the encoder never step back, whatever the sensor's clock and the motion
  -- state do. Both rates are from 1 to 1000000.
  pub capture_all-Rising :
      (fs : List (Motion × ℕ)) (c : Clock)
      → OnPace fps_low fps_high c
      → Rising c.pts (capture_all fps_low fps_high c fs).0
  unfolding capture_all
  capture_all-Rising [] c p = tt
  capture_all-Rising ((m, hw) ∷ fs) c p =
      Sends-Rising c (capture fps_low fps_high c m hw)
        (capture_all fps_low fps_high (capture fps_low fps_high c m hw).1 fs).0
        (capture-Sends c m hw p)
        (capture_all-Rising fs (capture fps_low fps_high c m hw).1
          (capture-OnPace fps_low fps_high low high c m hw p))

  start-Elapses : (m : Motion) → Elapses fps_low fps_high m 0 0 0
  start-Elapses detected = refl
  start-Elapses undetected = omega arith

  step-Elapses :
      (m : Motion) (real step timeline n : ℕ)
      → Elapses fps_low fps_high m real timeline n
      → Elapses fps_low fps_high m
          (step + real)
          (advance fps_low fps_high m step + timeline)
          (n + 1)
  unfolding advance
  step-Elapses detected real step timeline n e = omega arith
  step-Elapses undetected real step timeline n e = omega (arith, high.positive)

  module _ (m : Motion) where
    -- While the motion state stays, the timeline follows the sensor's clock between kept frames: in
    -- motion it advances by exactly the elapsed time; while idle by the elapsed time times
    -- fps_low / fps_high, short of it by less than a microsecond for each kept frame. Both rates are
    -- from 1 to 1000000.
    pub capture_all-Lapse :
        (hs : List ℕ) (c : Clock) (last : ℕ)
        → Paced fps_low fps_high c m last
        → Lapse fps_low fps_high m c last (capture_all fps_low fps_high c (during m hs))
    unfolding capture_all
    capture_all-Lapse [] c last w = record {
      real = 0;
      timeline = 0;
      last_kept = rw w.kept (ap some (omega arith));
      pts = omega arith;
      elapses = start-Elapses m;
    }
    capture_all-Lapse (hw ∷ hs) c last w =
        gate_cases fps_low fps_high
          (λ r. Lapse fps_low fps_high m c last (
            let (ps, end) = capture_all fps_low fps_high r.1 (during m hs) in
            (sent fps_low fps_high r.0 ps, end)))
          c m last hw w
          (λ h. after_drop (
            capture_all-Lapse hs _ last
              (record { kept = w.kept; mode = refl; ahead = w.ahead; near = w.near })))
          (λ h.
            let b =
              next_deadline_bounds fps_low fps_high c.next_keep_hw
                (keep_interval fps_low fps_high m) hw
                (keep_interval_pos fps_low fps_high low high m) h in
            after_keep (omega arith) (
              capture_all-Lapse hs _ hw
                (record { kept = refl; mode = refl; ahead = b.0; near = b.1 })))
      where
        after_drop :
            {r : List ℕ × Clock}
            → Lapse fps_low fps_high m (record c { prev_motion_state = some m }) last r
            → Lapse fps_low fps_high m c last r
        after_drop s = record {
          real = s.real;
          timeline = s.timeline;
          last_kept = s.last_kept;
          pts = s.pts;
          elapses = s.elapses;
        }

        after_keep :
            {next : ℕ} {p : ℕ} {r : List ℕ × Clock}
            → last ≤ hw
            → Lapse fps_low fps_high m
                (record {
                  pts = c.pts + advance fps_low fps_high m (hw - last);
                  last_kept_hw = some hw;
                  next_keep_hw = next;
                  prev_motion_state = some m;
                })
                hw
                r
            → Lapse fps_low fps_high m c last (p ∷ r.0, r.1)
        after_keep {r = r} h s = record {
          real = hw - last + s.real;
          timeline = advance fps_low fps_high m (hw - last) + s.timeline;
          last_kept = s.last_kept ∙ ap some (omega arith);
          pts = s.pts ∙ omega arith;
          elapses =
              rw (← add-one) (step-Elapses m s.real (hw - last) s.timeline (length r.0) s.elapses);
        }
