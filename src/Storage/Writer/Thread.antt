-- ===== src/Storage/Writer/Thread.antt =====
-- src/storage.c, `writer_thread`, `storage_init`, `storage_stop` and `storage_deinit`.
--
-- The thread runs from `storage_init`, which waits for its start, to the join in `storage_stop`.
pub mod Boot
pub mod Drain
use montion_sense.Prelude.{
  ℕ, Bool, true, false, not, Option, none, some, List, [], ◌∷◌, if◌then◌else◌, Rc, ok, fail,
}
use montion_sense.Prelude.Int.{ℤ, pos}
use montion_sense.Config.{Config}
use montion_sense.FrameQueue.{FrameQueue, Slot, Popped, blocked, failed, frame, pop_locked}
use montion_sense.Storage.Sql.{Stmt, Answer}
use montion_sense.Storage.MetaDb.{meta_db_init, meta_db_ensure_day}
use montion_sense.Storage.EventDb.{event_db_close, event_db_update_total_frames}
use montion_sense.Storage.Writer.{
  Writer, Opening, Input, Segment, empty_folder, open_today, hls_flush_and_destroy,
}
use montion_sense.Storage.Writer.Ingest.{Moment, State, ingest_frame}

-- `memset(&s_ws, 0, sizeof(s_ws))`; the static `last_dts` is -1 at the program's start.
abbrev pub zeroed : {Db Media : Type 0} → Writer Db Media
zeroed = record {
  date = [];
  day_of_year = 0;
  interrupt_idx = 0;
  hls = none;
  m3u = none;
  ts_idx = 0;
  ts_since_cleanup = 0;
  pts_ms = 0;
  meta_db = none;
  event_db = none;
  current_segment_id = pos 0;
  frame_count = 0;
  motion_count = 0;
  last_fps = pos 0;
  last_motion_ms = 0;
  seen_keyframe = false;
  last_dts = none;
  stored = empty_folder;
}

-- `s_writer_started` and `s_ws`.
pub record Service (Db Media : Type 0) : Type 0 where
  pub started : Bool
  pub ws : Writer Db Media

module _ {Db Media Float : Type 0}
    (media_input : Media → Option Input → (Rc → Media) × Option Segment) (hls_duration : ℕ)
    (run : Stmt → Db → Answer × Db) (cfg : Config Float) where
  abbrev flush : (ℕ → Rc × Rc × ℕ) → Writer Db Media → Writer Db Media
  flush = hls_flush_and_destroy media_input hls_duration

  unfoldable pub with_meta_db :
      (ℕ → Rc × Rc × ℕ) → Rc × Option Db → Writer Db Media → Rc × Writer Db Media
  with_meta_db writes (fail, db) ws =
      let flushed = flush writes (record ws { meta_db = db }) in
      (fail, record flushed { event_db = event_db_close run flushed.event_db })
  with_meta_db writes (ok, db) ws = (ok, record ws { meta_db = meta_db_ensure_day run db ws.date })

  unfoldable pub with_today :
      (ℕ → Rc × Rc × ℕ) → Option Db → Rc × Writer Db Media → Rc × Writer Db Media
  with_today writes meta (fail, ws) = (fail, ws)
  with_today writes meta (ok, ws) = with_meta_db writes (meta_db_init run meta) ws

  -- `writer_thread` up to the signal: `s_writer_boot_ok`, and the state then. `meta` is what
  -- `sqlite3_open` gives for VideoMetadata.db.
  unfoldable pub boot :
      (ℕ → Rc × Rc × ℕ) → Opening Db Media → Option Db → Writer Db Media → Rc × Writer Db Media
  boot writes o meta ws =
      with_today writes meta (open_today media_input hls_duration run cfg.ivs.fps_low o ws)

  unfoldable pub with_state :
      (State Db Media → Option (FrameQueue × State Db Media))
      → Option (State Db Media)
      → Option (FrameQueue × State Db Media)
  with_state rest none = none
  with_state rest (some s) = rest s

  -- One turn of the loop, with the turns after it.
  unfoldable pub on_popped :
      (FrameQueue → State Db Media → Option (FrameQueue × State Db Media))
      → Moment Db Media
      → Popped × FrameQueue
      → State Db Media
      → Option (FrameQueue × State Db Media)
  on_popped rest m (blocked, q) s = some (q, s)
  on_popped rest m (failed, q) s = some (q, s)
  on_popped rest m (frame f, q) s =
      with_state (rest q) (ingest_frame media_input hls_duration run cfg m f s)

  -- The loop over the queue: `none` is undefined behaviour. It ends when `fq_pop` fails, and stands
  -- where it waits for a frame or where no moment is left.
  unfoldable pub drain :
      List (Moment Db Media) → FrameQueue → State Db Media → Option (FrameQueue × State Db Media)
  drain [] q s = some (q, s)
  drain (m ∷ ms) q s = on_popped (drain ms) m (pop_locked q) s

  -- After the loop.
  unfoldable pub shut_down : (ℕ → Rc × Rc × ℕ) → Writer Db Media → Writer Db Media
  shut_down writes ws =
      let flushed = flush writes ws in
      let total =
        event_db_update_total_frames run flushed.event_db flushed.current_segment_id
          (pos flushed.frame_count) in
      record flushed { event_db = event_db_close run total }

  -- The flag says whether `pthread_create` succeeds.
  unfoldable pub with_boot : Rc × Writer Db Media → Rc × Service Db Media
  with_boot (ok, ws) = (ok, record { started = true; ws = ws })
  with_boot (fail, ws) = (fail, record { started = false; ws = ws })

  unfoldable pub storage_init :
      Bool
      → (ℕ → Rc × Rc × ℕ)
      → Opening Db Media
      → Option Db
      → Service Db Media
      → Rc × Service Db Media
  storage_init created writes o meta s =
      if created
      then with_boot (boot writes o meta (record zeroed { last_dts = s.ws.last_dts }))
      else (fail, record s { ws = record zeroed { last_dts = s.ws.last_dts } })

  unfoldable pub joined :
      (ℕ → Rc × Rc × ℕ)
      → Option (FrameQueue × State Db Media)
      → Option (FrameQueue × Service Db Media × (List ℕ → Bool))
  joined writes none = none
  joined writes (some (q, (ws, present))) =
      some (q, record { started = false; ws = shut_down writes ws }, present)

  -- `storage_stop` closes the queue and waits for the thread, which takes the frames that are left.
  unfoldable pub storage_stop :
      (ℕ → Rc × Rc × ℕ)
      → List (Moment Db Media)
      → FrameQueue
      → Service Db Media
      → (List ℕ → Bool)
      → Option (FrameQueue × Service Db Media × (List ℕ → Bool))
  storage_stop writes ms q s present =
      if not s.started
      then some (q, s, present)
      else joined writes (drain ms (record q { closed = true }) (s.ws, present))

  -- After `storage_stop`.
  unfoldable pub storage_deinit : Service Db Media → Service Db Media
  storage_deinit s = record s { ws = record s.ws { meta_db = none } }
