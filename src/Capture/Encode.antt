-- ===== src/Capture/Encode.antt =====
-- src/media.c, `h264_thread`: the turns of its loop, from the sensor through the encoder into the queue.
--
-- What the vendor's library hands over is an argument: a sensor frame, and what the encoder gives for
-- the time stamp that a kept frame is sent with. A release of a frame changes nothing here.
use montion_sense.Prelude.{ℕ, Bool, true, false, Option, none, some, List, [], ◌∷◌}
use montion_sense.FrameQueue.{FrameQueue, Slot, Popped, blocked, failed, frame, fq_push, fq_pop}
use montion_sense.Capture.{Motion, Clock, capture}

-- The types of an encoded picture that `h264_thread` tells apart.
pub data Nalu : Type 0 where
  idr_slice i_slice other_slice : Nalu

unfoldable pub is_keyframe : Nalu → Bool
is_keyframe idr_slice = true
is_keyframe i_slice = true
is_keyframe other_slice = false

-- `venc_frame`, with the bytes that its block has an address for.
pub record Stream : Type 0 where
  pub bytes : Option (List ℕ)
  pub len : ℕ
  pub nalu : Nalu
  pub pts : ℕ

-- One turn: what VI_GetChnFrame gives, with the motion state that is read; what VENC_GetStream gives after
-- a frame was sent with a time stamp; and whether `fq_push` gets its memory.
pub record Turn : Type 0 where
  pub sensor : Option (Motion × ℕ)
  pub stream : ℕ → Option Stream
  pub alloc : Bool

unfoldable pub push_stream : Bool → Option Stream → Option FrameQueue → Option FrameQueue
push_stream alloc none vq = vq
push_stream alloc (some s) vq = (fq_push vq s.bytes s.len (is_keyframe s.nalu) s.pts alloc).1

module _ (fps_low fps_high : ℕ) where
  unfoldable pub on_captured :
      Turn → Option ℕ × Clock → Option FrameQueue → Clock × Option FrameQueue
  on_captured t (none, c) vq = (c, vq)
  on_captured t (some pts, c) vq = (c, push_stream t.alloc (t.stream pts) vq)

  unfoldable pub on_sensor :
      Turn → Option (Motion × ℕ) → Clock → Option FrameQueue → Clock × Option FrameQueue
  on_sensor t none c vq = (c, vq)
  on_sensor t (some (m, hw)) c vq = on_captured t (capture fps_low fps_high c m hw) vq

  unfoldable pub h264_turn : Turn → Clock → Option FrameQueue → Clock × Option FrameQueue
  h264_turn t c vq = on_sensor t t.sensor c vq

-- The turns of h264_thread and the calls of `fq_pop` by the writer thread, in the order that the queue's
-- mutex gives them.
pub data Event : Type 0 where
  turn : Turn → Event
  take_frame : Event

unfoldable pub deliver : Popped → List Slot → List Slot
deliver blocked fs = fs
deliver failed fs = fs
deliver (frame f) fs = f ∷ fs

-- The frames that the writer is given.
unfoldable pub delivered : ℕ → ℕ → List Event → Clock → Option FrameQueue → List Slot
delivered fps_low fps_high [] c vq = []
delivered fps_low fps_high (turn t ∷ es) c vq =
    let (c', vq') = h264_turn fps_low fps_high t c vq in delivered fps_low fps_high es c' vq'
delivered fps_low fps_high (take_frame ∷ es) c vq =
    let (r, vq') = fq_pop vq true in deliver r (delivered fps_low fps_high es c vq')
