-- ===== src/Tests/Capture.antt =====
-- The frame gate and the timeline of `h264_thread` at concrete inputs: 1 and 30 frames a second.
use mathlib.Core.Option.{some-injective}
use montion_sense.FrameQueue.{
  FrameQueue, empty_slot, fq_create, fq_push, push_locked, admit, fq_pop, pop_locked, take_head,
}
use montion_sense.FrameQueue.Calls.{create-IsValid}
use montion_sense.Capture.Encode.{
  Stream, idr_slice, Event, turn, take_frame, is_keyframe, push_stream, on_captured, on_sensor,
  h264_turn, deliver, delivered,
}
use montion_sense.Capture.Ordered.{Ordered}
use montion_sense.Capture.Stamps.{stamps, delivered-Rising}
use montion_sense.Prelude.{
  ap, sym, none, Option, true, false, replicate, ℕ, ◌+◌, ◌*◌, ◌<◌, ◌≡◌, refl, inl, some, List, [],
  ◌∷◌, arith, length,
}
use montion_sense.Capture.{
  Motion, undetected, detected, Clock, start, capture, route, gate, keep, keep_nominal,
  next_deadline, keep_interval, target_fps, advance, capture_all, clamp_fps,
}
use montion_sense.Prelude.Int.{pos, negsuc}
use montion_sense.Capture.Pacing.{IsRate, Paced, OnPace, capture_all-OnPace}
use montion_sense.Capture.Rate.{during, stretch_rate}
use montion_sense.Capture.Timeline.{Rising, Lapse, capture_all-Lapse}

one-IsRate : IsRate 1
one-IsRate = omega arith

thirty-IsRate : IsRate 30
thirty-IsRate = omega arith

-- Idle: the second frame comes too early; then motion.
abbrev frames : List (Motion × ℕ)
frames =
    (undetected, 100)
    ∷ (undetected, 33_433)
    ∷ (undetected, 1_000_100)
    ∷ (detected, 1_033_433)
    ∷ (detected, 1_066_800)
    ∷ []

frames_run : (capture_all 1 30 start frames).0 ≡ 33_333 ∷ 66_666 ∷ 99_999 ∷ 133_366 ∷ []
unfolding capture_all capture route gate keep keep_nominal next_deadline keep_interval target_fps
    advance
frames_run = refl

clamp_runs : (clamp_fps (negsuc 4) ≡ 1) × (clamp_fps (pos 0) ≡ 1) × (clamp_fps (pos 30) ≡ 30)
unfolding clamp_fps
clamp_runs = (refl, refl, refl)

-- A frame kept at 100 while idle.
abbrev idle : Clock
idle = record {
  pts = 33_333;
  last_kept_hw = some 100;
  next_keep_hw = 1_000_100;
  prev_motion_state = some undetected;
}

idle-Paced : Paced 1 30 idle undetected 100
unfolding keep_interval target_fps
idle-Paced = record { kept = refl; mode = refl; ahead = omega arith; near = omega arith }

capture_all-OnPace_example : OnPace 1 30 (capture_all 1 30 start frames).1
capture_all-OnPace_example =
    capture_all-OnPace 1 30 one-IsRate thirty-IsRate frames start (inl refl)

-- An encoder that makes a keyframe of every picture, with a turn in which the sensor gives nothing.
abbrev encoded : ℕ → Option Stream
encoded p = some (record { bytes = some (1 ∷ []); len = 1; nalu = idr_slice; pts = p })

abbrev turn_of : Option (Motion × ℕ) → Event
turn_of o = turn (record { sensor = o; stream = encoded; alloc = true })

abbrev history : List Event
history =
    turn_of (some (undetected, 100))
    ∷ turn_of none
    ∷ take_frame
    ∷ turn_of (some (detected, 200))
    ∷ take_frame
    ∷ []

encoded-same : (p : ℕ) (s : Stream) → encoded p ≡ some s → s.pts ≡ p
encoded-same p s e = ap (λ (x : Stream). x.pts) (sym (some-injective _ _ e))

abbrev new_queue : FrameQueue
new_queue = record {
  slots = replicate 2 empty_slot;
  capacity = 2;
  head = 0;
  tail = 0;
  count = 0;
  dropped = 0;
  closed = false;
  dropping = false;
}

new_queue-Ordered : Ordered 0 start.pts (some new_queue)
unfolding fq_create
new_queue-Ordered = ((create-IsValid 2 (omega arith) refl).0, omega arith)

two_delivered : stamps (delivered 1 30 history start (some new_queue)) ≡ 33_333 ∷ 66_666 ∷ []
unfolding delivered h264_turn on_sensor on_captured push_stream is_keyframe deliver fq_push
    push_locked admit fq_pop pop_locked take_head capture route gate keep_nominal keep next_deadline
    advance keep_interval target_fps
two_delivered = refl

delivered-Rising_example : Rising 0 (stamps (delivered 1 30 history start (some new_queue)))
delivered-Rising_example =
    delivered-Rising 1 30 one-IsRate thirty-IsRate history 0 start (some new_queue)
      (encoded-same, (encoded-same, (encoded-same, tt))) (inl refl) new_queue-Ordered

stretch_rate_example :
    let (ps, end) = capture_all 1 30 idle (during undetected (33_433 ∷ 1_000_200 ∷ [])) in
    (l : ℕ) × (end.last_kept_hw ≡ some l)
    × (length ps * keep_interval 1 30 undetected + 100 < l + keep_interval 1 30 undetected)
stretch_rate_example =
    stretch_rate 1 30 one-IsRate thirty-IsRate undetected (33_433 ∷ 1_000_200 ∷ []) idle 100
      idle-Paced

capture_all-Lapse_example :
    Lapse 1 30 undetected idle 100
      (capture_all 1 30 idle (during undetected (33_433 ∷ 1_000_200 ∷ [])))
capture_all-Lapse_example =
    capture_all-Lapse 1 30 one-IsRate thirty-IsRate undetected (33_433 ∷ 1_000_200 ∷ []) idle 100
      idle-Paced
