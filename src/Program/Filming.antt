-- ===== src/Program/Filming.antt =====
-- src/media.c, `h264_thread`, and src/storage.c, `writer_thread`: the frames on their way from the
-- encoder to the muxer.
pub mod Decodable
use montion_sense.Prelude.{
  Rc, ℕ, ◌+◌, ◌≤◌, ◌<◌, ◌≡◌, ◌⊎◌, refl, sym, subst, ap, ◌∙◌, Bool, true, false, Option, none, some,
  List, [], ◌∷◌,
}
use montion_sense.Prelude.Int.{pos}
use montion_sense.Config.{Config}
use montion_sense.FrameQueue.{FrameQueue, Slot, Popped, blocked, failed, frame, pop_locked}
use montion_sense.FrameQueue.Invariant.{IsValid}
use montion_sense.FrameQueue.Calls.{push, step, step-IsValid, pop_locked-IsValid, flags-IsValid}
use montion_sense.FrameQueue.Items.{items}
use montion_sense.FrameQueue.Feed.{Feed, pop_item, pop_item-empty, pop_item-frame}
use montion_sense.FrameQueue.Refine.{view, pop_refines}
use montion_sense.FrameQueue.Continuity.{
  Encoder, Flowing, fresh-Flowing, arrive-Flowing, deliver-Flowing, push-view,
}
use montion_sense.Storage.Sql.{Stmt, Answer}
use montion_sense.Storage.Writer.{Writer, Input, Segment}
use montion_sense.Storage.Writer.Ingest.{Moment, State, ingest_frame}
use montion_sense.Storage.Writer.Ingest.Carry.{today_writer-Holds, Holds, ingest_frame-Holds}
use montion_sense.Storage.Writer.Ingest.Played.{PlayedOn, Played, waiting, Played-Carries}
use montion_sense.Storage.Writer.Thread.{with_state, on_popped, drain}
use montion_sense.FrameQueue.Linked.{Linked}
use montion_sense.Storage.Writer.Thread.Drain.{Openable, AllOpenable, with_state-Holds}

-- Which thread has its turn: the encoder has a frame, or the writer asks for one.
pub data Turn (Db Media : Type 0) : Type 0 where
  encoded : Turn Db Media
  written : Moment Db Media → Turn Db Media

module _ {Db Media Float : Type 0}
    (media_input : Media → Option Input → (Rc → Media) × Option Segment) (hls_duration : ℕ)
    (run : Stmt → Db → Answer × Db) (cfg : Config Float) (enc : Encoder) where
  -- A writer that finds the queue empty waits for its next turn.
  unfoldable pub film_popped :
      (FrameQueue → State Db Media → Option (FrameQueue × State Db Media))
      → Moment Db Media
      → Popped × FrameQueue
      → State Db Media
      → Option (FrameQueue × State Db Media)
  film_popped rest m (blocked, q) s = rest q s
  film_popped rest m (failed, q) s = some (q, s)
  film_popped rest m (frame f, q) s =
      with_state media_input hls_duration run cfg (rest q)
        (ingest_frame media_input hls_duration run cfg m f s)

  -- The two threads from frame `n` on.
  unfoldable pub film :
      ℕ → List (Turn Db Media) → FrameQueue → State Db Media → Option (FrameQueue × State Db Media)
  film n [] q s = some (q, s)
  film n (encoded ∷ ts) q s =
      film (n + 1) ts
        (step q (push (some (enc.bytes n)) (enc.size n) (enc.is_key n) (enc.stamp n) true)).1 s
  film n (written m ∷ ts) q s = film_popped (film n ts) m (pop_locked q) s

  -- Once the queue is closed the writer takes what is left.
  abbrev pub then_drain :
      List (Moment Db Media)
      → Option (FrameQueue × State Db Media)
      → Option (FrameQueue × State Db Media)
  then_drain ms none = none
  then_drain ms (some (q, s)) =
      drain media_input hls_duration run cfg ms (record q { closed = true }) s
