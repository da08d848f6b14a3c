-- ===== src/Capture/Pacing.antt =====
-- The deadline of the rate limiter stays ahead of the last kept frame, by at most one interval.
use native.Mathlib.Nat.{le-div_iff_mul-le}
use montion_sense.Prelude.{
  ℕ, ◌+◌, ◌-◌, ◌/◌, ◌<◌, ◌≤◌, ◌≡◌, refl, sym, ap, ap₂, ◌∙◌, inl, inr, ◌⊎◌, true, false, Bool-cases,
  Option, none, some, List, [], ◌∷◌, arith, if_elim, subst, ltb,
}
use montion_sense.Capture.{
  Motion, undetected, detected, Clock, same_motion, target_fps, keep_interval, keep, next_deadline,
  advance, gate, keep_nominal, route, capture, capture_all,
}

-- A rate of the configuration, clamped, and no finer than the microsecond.
pub record IsRate (fps : ℕ) : Type 0 where
  pub positive : 0 < fps
  pub coarse : fps ≤ 1000000

pub div-pos : (n f : ℕ) → 0 < f → f ≤ n → 0 < n / f
div-pos n f p q = (le-div_iff_mul-le {k = f} {x = 1} {y = n} p).1 (omega arith)

same_motion_self : (m : Motion) → same_motion m (some m) ≡ true
same_motion_self undetected = refl
same_motion_self detected = refl

module _ (fps_low fps_high : ℕ) where
  -- After a kept frame in mode `m`: its deadline lies behind it, within one interval.
  pub record Paced (c : Clock) (m : Motion) (last : ℕ) : Type 0 where
    pub kept : c.last_kept_hw ≡ some last
    pub mode : c.prev_motion_state ≡ some m
    pub ahead : last < c.next_keep_hw
    pub near : c.next_keep_hw ≤ last + keep_interval fps_low fps_high m

  pub next_deadline_bounds :
      (next interval hw : ℕ)
      → 0 < interval
      → next ≤ hw
      → (hw < next_deadline fps_low fps_high next interval hw)
        × (next_deadline fps_low fps_high next interval hw ≤ hw + interval)
        × (next + interval ≤ next_deadline fps_low fps_high next interval hw)
  unfolding next_deadline
  next_deadline_bounds next interval hw h k = ground arith

  -- A frame in the mode of the one before it is dropped, or kept.
  pub gate_cases {ℓ} :
      (P : Option ℕ × Clock → Type ℓ) (c : Clock) (m : Motion) (last hw : ℕ)
      → Paced c m last
      → (hw < c.next_keep_hw → P (none, record c { prev_motion_state = some m }))
      → (c.next_keep_hw ≤ hw
          → let pts = c.pts + advance fps_low fps_high m (hw - last) in
            P (
              some pts,
              record c {
                pts = pts;
                last_kept_hw = some hw;
                next_keep_hw =
                    next_deadline fps_low fps_high c.next_keep_hw
                      (keep_interval fps_low fps_high m)
                      hw;
                prev_motion_state = some m;
              },
            ))
      → P (capture fps_low fps_high c m hw)
  unfolding capture route gate keep
  gate_cases P c m last hw w drops keeps = subst P (sym routed) (
      if_elim P (ltb hw c.next_keep_hw) _ _ (λ h. drops (ground arith)) (λ h. keeps (ground arith)))
    where
      routed :
          capture fps_low fps_high c m hw
          ≡ gate fps_low fps_high (record c { prev_motion_state = some m }) m last hw
      routed =
          ap₂ (λ o b. route fps_low fps_high o b (record c { prev_motion_state = some m }) m hw)
            w.kept (ap (same_motion m) w.mode ∙ same_motion_self m)

  -- A frame in the mode of the last kept one leaves the deadline ahead, whether it is kept or not.
  pub gate-Paced :
      (c : Clock) (m : Motion) (last hw : ℕ)
      → 0 < keep_interval fps_low fps_high m
      → Paced c m last
      → (l : ℕ) × Paced (capture fps_low fps_high c m hw).1 m l
  gate-Paced c m last hw some_time w =
      gate_cases (λ r. (l : ℕ) × Paced r.1 m l) c m last hw w
        (λ h. (last, record { kept = w.kept; mode = refl; ahead = w.ahead; near = w.near }))
        (λ h.
          let b =
            next_deadline_bounds c.next_keep_hw (keep_interval fps_low fps_high m) hw some_time h in
          (hw, record { kept = refl; mode = refl; ahead = b.0; near = b.1 }))

  route_switch :
      (o : Option ℕ) (c : Clock) (m : Motion) (hw : ℕ)
      → route fps_low fps_high o false c m hw ≡ keep_nominal fps_low fps_high c m hw
  unfolding route
  route_switch none c m hw = refl
  route_switch (some last) c m hw = refl

  -- The first frame, and the first one after a change of mode.
  abbrev pub IsSwitch : Clock → Motion → Type 0
  IsSwitch c m = (c.last_kept_hw ≡ none) ⊎ (same_motion m c.prev_motion_state ≡ false)

  pub switch_keeps :
      (c : Clock) (m : Motion) (hw : ℕ)
      → IsSwitch c m
      → capture fps_low fps_high c m hw
        ≡ keep_nominal fps_low fps_high (record c { prev_motion_state = some m }) m hw
  unfolding capture route
  switch_keeps c m hw (inl e) =
      ap
        (λ o.
          route fps_low fps_high o (same_motion m c.prev_motion_state)
            (record c { prev_motion_state = some m }) m hw)
        e
  switch_keeps c m hw (inr e) =
      ap
        (λ b.
          route fps_low fps_high c.last_kept_hw b (record c { prev_motion_state = some m }) m hw)
        e
      ∙ route_switch c.last_kept_hw (record c { prev_motion_state = some m }) m hw

  pub switch-Paced :
      (c : Clock) (m : Motion) (hw : ℕ)
      → 0 < keep_interval fps_low fps_high m
      → IsSwitch c m
      → Paced (capture fps_low fps_high c m hw).1 m hw
  unfolding keep_nominal keep
  switch-Paced c m hw some_time s =
      rw (switch_keeps c m hw s)
        (record { kept = refl; mode = refl; ahead = omega arith; near = omega arith })

  -- Before the first frame, or paced by the last kept one.
  abbrev pub OnPace : Clock → Type 0
  OnPace c = (c.last_kept_hw ≡ none) ⊎ ((m : Motion) × (last : ℕ) × Paced c m last)

  same_motion-eq : (m n : Motion) → same_motion m (some n) ≡ true → n ≡ m
  same_motion-eq undetected undetected e = refl
  same_motion-eq undetected detected e = cc
  same_motion-eq detected undetected e = cc
  same_motion-eq detected detected e = refl

  -- A frame is the first of its mode, or comes in the mode of the last kept one.
  pub OnPace-cases :
      (c : Clock) (m : Motion) → OnPace c → IsSwitch c m ⊎ ((last : ℕ) × Paced c m last)
  OnPace-cases c m (inl e) = inl (inl e)
  OnPace-cases c m (inr (n, last, w)) = elim (Bool-cases (same_motion m (some n))) [
    | inl e ↦ inr (last, subst (λ k. Paced c k last) (same_motion-eq m n e) w)
    | inr e ↦ inl (inr (ap (same_motion m) w.mode ∙ e))
  ]

module _ (fps_low fps_high : ℕ) (low : IsRate fps_low) (high : IsRate fps_high) where
  pub keep_interval_pos : (m : Motion) → 0 < keep_interval fps_low fps_high m
  unfolding keep_interval target_fps
  keep_interval_pos undetected = div-pos 1000000 fps_low low.positive low.coarse
  keep_interval_pos detected = div-pos 1000000 fps_high high.positive high.coarse

  pub capture-OnPace :
      (c : Clock) (m : Motion) (hw : ℕ)
      → OnPace fps_low fps_high c
      → OnPace fps_low fps_high (capture fps_low fps_high c m hw).1
  capture-OnPace c m hw p = elim (OnPace-cases fps_low fps_high c m p) [
    | inl s ↦ inr (m, hw, switch-Paced fps_low fps_high c m hw (keep_interval_pos m) s)
    | inr (last, w) ↦
        let (l, w') = gate-Paced fps_low fps_high c m last hw (keep_interval_pos m) w in
        inr (m, l, w')
  ]

  -- Whatever frames the sensor hands over and however the motion state changes, the deadline of the
  -- rate limiter lies behind the last kept frame, at most one interval of its mode away (so the time
  -- stamps that the loop subtracts never come out negative). Both rates are from 1 to 1000000.
  pub capture_all-OnPace :
      (fs : List (Motion × ℕ)) (c : Clock)
      → OnPace fps_low fps_high c
      → OnPace fps_low fps_high (capture_all fps_low fps_high c fs).1
  unfolding capture_all
  capture_all-OnPace [] c p = p
  capture_all-OnPace ((m, hw) ∷ fs) c p =
      capture_all-OnPace fs (capture fps_low fps_high c m hw).1 (capture-OnPace c m hw p)
