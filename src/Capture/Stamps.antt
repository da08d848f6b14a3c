-- ===== src/Capture/Stamps.antt =====
-- src/media.c, `h264_thread`, and src/frame_queue.c: the time stamps of the frames that the writer gets.
use montion_sense.Prelude.{
  ℕ, ◌≤◌, ◌≡◌, inl, inr, refl, sym, subst, ◌∙◌, Bool, Option, none, some, List, [], ◌∷◌, map,
}
use mathlib.Core.Option.{some-injective}
use montion_sense.FrameQueue.{FrameQueue, Slot, Popped, fq_push, fq_pop, take_head}
use montion_sense.FrameQueue.Items.{items}
use montion_sense.Capture.{Motion, Clock, capture}
use montion_sense.Capture.Pacing.{IsRate, OnPace, capture-OnPace}
use montion_sense.Capture.Timeline.{Rising, Sends, capture-Sends}
use montion_sense.Capture.Encode.{
  Stream, Turn, Event, turn, take_frame, is_keyframe, push_stream, on_captured, on_sensor,
  h264_turn, deliver, delivered,
}
use montion_sense.Capture.Ordered.{Between-raise, Ordered, fq_push-Ordered, pop_locked_cases}

-- The encoder gives a picture back with the stamp that it was sent with.
abbrev pub KeepsStamps : List Event → Type 0
KeepsStamps [] = Unit {0}
KeepsStamps (turn t ∷ es) =
    ((p : ℕ) (s : Stream) → t.stream p ≡ some s → s.pts ≡ p) × KeepsStamps es
KeepsStamps (take_frame ∷ es) = KeepsStamps es

push_stream-Ordered :
    (lo hi p : ℕ) (alloc : Bool) (o : Option Stream) (vq : Option FrameQueue)
    → ((s : Stream) → o ≡ some s → s.pts ≡ p)
    → hi ≤ p
    → Ordered lo hi vq
    → Ordered lo p (push_stream alloc o vq)
unfolding push_stream
push_stream-Ordered lo hi p alloc none none k h o = elim o [ ]
push_stream-Ordered lo hi p alloc none (some q) k h (v, b) =
    (v, Between-raise lo hi p (items q) h b)
push_stream-Ordered lo hi p alloc (some s) vq k h o =
    subst (λ x. Ordered lo x (fq_push vq s.bytes s.len (is_keyframe s.nalu) s.pts alloc).1)
      (k s refl)
      (fq_push-Ordered lo hi vq s.bytes s.len (is_keyframe s.nalu) s.pts alloc (rw (k s refl) h) o)

-- The stamps of these frames.
abbrev pub stamps : List Slot → List ℕ
stamps fs = map (λ (f : Slot). f.pts_us) fs

module _ (fps_low fps_high : ℕ) (low : IsRate fps_low) (high : IsRate fps_high) where
  abbrev Held : ℕ → Clock × Option FrameQueue → Type 0
  Held lo (c, vq) = Ordered lo c.pts vq × OnPace fps_low fps_high c

  on_captured-Held :
      (lo : ℕ) (t : Turn) (c : Clock) (r : Option ℕ × Clock) (vq : Option FrameQueue)
      → ((p : ℕ) (s : Stream) → t.stream p ≡ some s → s.pts ≡ p)
      → Sends fps_low fps_high low high c r
      → OnPace fps_low fps_high r.1
      → Ordered lo c.pts vq
      → Held lo (on_captured fps_low fps_high t r vq)
  unfolding on_captured
  on_captured-Held lo t c (none, c') vq k (inl (e, same)) w o =
      (subst (λ x. Ordered lo x vq) (sym same) o, w)
  on_captured-Held lo t c (none, c') vq k (inr (p, e, up, moved)) w o = absurd cc
  on_captured-Held lo t c (some p, c') vq k (inl (e, same)) w o = absurd cc
  on_captured-Held lo t c (some p', c') vq k (inr (p, e, up, moved)) w o =
      let same : p' ≡ p = some-injective _ _ e in
      (
        subst (λ x. Ordered lo x (push_stream t.alloc (t.stream p') vq)) (same ∙ sym moved)
            (push_stream-Ordered lo c.pts p' t.alloc (t.stream p') vq (k p') (rw same up) o),
        w,
      )

  on_sensor-Held :
      (lo : ℕ) (t : Turn) (o : Option (Motion × ℕ)) (c : Clock) (vq : Option FrameQueue)
      → ((p : ℕ) (s : Stream) → t.stream p ≡ some s → s.pts ≡ p)
      → Held lo (c, vq)
      → Held lo (on_sensor fps_low fps_high t o c vq)
  unfolding on_sensor
  on_sensor-Held lo t none c vq k h = h
  on_sensor-Held lo t (some (m, hw)) c vq k (o, w) =
      on_captured-Held lo t c (capture fps_low fps_high c m hw) vq k
        (capture-Sends fps_low fps_high low high c m hw w)
        (capture-OnPace fps_low fps_high low high c m hw w) o

  -- However the turns of the capture thread and the pops of the writer thread interleave, whichever frames are
  -- dropped at the gate, lost in the encoder or given up by the queue: the time stamps of the frames that
  -- the writer is given never step back. The queue is valid and holds nothing stamped past the time line, as a
  -- new one does; the encoder gives a picture back with its stamp; both rates are from 1 to 1000000.
  pub delivered-Rising :
      (es : List Event) (lo : ℕ) (c : Clock) (vq : Option FrameQueue)
      → KeepsStamps es
      → OnPace fps_low fps_high c
      → Ordered lo c.pts vq
      → Rising lo (stamps (delivered fps_low fps_high es c vq))
  unfolding delivered h264_turn fq_pop deliver
  delivered-Rising [] lo c vq k w o = tt
  delivered-Rising (turn t ∷ es) lo c vq (k, ks) w o =
      let n = on_sensor-Held lo t t.sensor c vq k (o, w) in
      delivered-Rising es lo (on_sensor fps_low fps_high t t.sensor c vq).0
        (on_sensor fps_low fps_high t t.sensor c vq).1 ks n.1 n.0
  delivered-Rising (take_frame ∷ es) lo c none k w o = elim o [ ]
  delivered-Rising (take_frame ∷ es) lo c (some q) k w o =
      pop_locked_cases
        (λ (r : Popped × FrameQueue).
          Rising lo (stamps (deliver r.0 (delivered fps_low fps_high es c (some r.1)))))
        lo c.pts q o (delivered-Rising es lo c (some q) k w o)
        (delivered-Rising es lo c (some q) k w o)
        (λ f up rest. (up, delivered-Rising es f.pts_us c (some (take_head q)) k w rest))
