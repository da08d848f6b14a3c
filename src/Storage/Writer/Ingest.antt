-- ===== src/Storage/Writer/Ingest.antt =====
-- src/storage.c, `ingest_frame`: one frame of the queue.
--
-- `none` is undefined behaviour: a frame for a muxer that is not there, or a division by zero.
pub mod Returns
pub mod Kept
pub mod Gate
pub mod Carry
pub mod Alive
pub mod Played
pub mod Reels
pub mod Journaled
pub mod Logged
pub mod Today
pub mod Spared
pub mod Faults
pub mod Debounce
use montion_sense.Prelude.{
  ℕ, zero, suc, ◌+◌, ◌/◌, ◌%◌, Bool, true, false, not, ◌&&◌, Option, none, some, List, ◌==◌, leb,
  if◌then◌else◌, Rc,
}
use montion_sense.Prelude.Int.{ℤ, pos, pos_part, neg_part, eq_ℤ, magnitude}
use montion_sense.Config.{Config}
use montion_sense.FrameQueue.{Slot}
use montion_sense.Storage.Sql.{Stmt, Answer}
use montion_sense.Storage.MetaDb.{meta_db_upsert_motion_count}
use montion_sense.Storage.EventDb.{event_db_add_motion, event_db_update_total_frames}
use montion_sense.Storage.Writer.{Writer, Opening, Input, Segment, rollover_day, feed}
use montion_sense.Storage.Writer.Cleanup.{Space, check_and_cleanup}

-- What one frame meets: the day's number, the result of each atomic write, what a rollover meets, the
-- rate and the time that are read, and the card's space.
pub record Moment (Db Media : Type 0) : Type 0 where
  pub yday : ℕ
  pub writes : ℕ → Rc × Rc × ℕ
  pub opening : Opening Db Media
  pub current_fps : ℤ
  pub now : ℕ
  pub space : Space

-- The writer's state, and which days have files on the card.
abbrev pub State : Type 0 → Type 0 → Type 0
State Db Media = Writer Db Media × (List ℕ → Bool)

-- `a / b` of two ints, by its magnitude, which is what the remainder by it depends on.
unfoldable pub quotient : ℤ → ℤ → Option ℕ
quotient a b = if magnitude b == 0 then none else some (magnitude a / magnitude b)

unfoldable pub divides : Option ℕ → ℕ → Option Bool
divides none n = none
divides (some zero) n = none
divides (some (suc r)) n = some (n % suc r == 0)

-- `now - last >= debounce`
unfoldable pub is_due : ℕ → ℕ → ℤ → Bool
is_due now last debounce = leb (last + pos_part debounce) (now + neg_part debounce)

module _ {Db Media Float : Type 0}
    (media_input : Media → Option Input → (Rc → Media) × Option Segment) (hls_duration : ℕ)
    (run : Stmt → Db → Answer × Db) (cfg : Config Float) where
  abbrev pub update_total : Writer Db Media → Writer Db Media
  update_total ws = record ws {
    event_db =
        event_db_update_total_frames run ws.event_db ws.current_segment_id (pos ws.frame_count);
  }

  unfoldable pub count_motion : ℕ → Writer Db Media → Writer Db Media
  count_motion now ws =
      if is_due now ws.last_motion_ms cfg.ivs.motion_debounce_ms
      then record ws {
        motion_count = ws.motion_count + 1;
        event_db = event_db_add_motion run ws.event_db ws.current_segment_id (pos ws.frame_count);
        meta_db = meta_db_upsert_motion_count run ws.meta_db ws.date (pos (ws.motion_count + 1));
        last_motion_ms = now;
      }
      else ws

  unfoldable pub update_if : Option Bool → Writer Db Media → Option (Writer Db Media)
  update_if none ws = none
  update_if (some due) ws = some (if due then update_total ws else ws)

  -- The bookkeeping of a frame that was written.
  unfoldable pub account : Moment Db Media → Writer Db Media → Option (Writer Db Media)
  account m ws =
      let counted = count_motion m.now ws in
      let ratio = quotient cfg.ivs.fps_high cfg.ivs.fps_low in
      if eq_ℤ m.current_fps cfg.ivs.fps_high
      then update_if (divides ratio counted.frame_count) counted
      else some (update_total ws)

  unfoldable pub finish :
      Moment Db Media → Option (Writer Db Media) → (List ℕ → Bool) → Option (State Db Media)
  finish m none present = none
  finish m (some ws) present = some (check_and_cleanup run cfg.storage m.space ws present)

  -- `hls_media_input` and what follows it.
  unfoldable pub write_frame :
      Moment Db Media
      → Slot
      → Option Media
      → Writer Db Media
      → (List ℕ → Bool)
      → Option (State Db Media)
  write_frame m f none ws present = none
  write_frame m f (some media) ws present =
      let x : Input = record { bytes = f.bytes; pts = ws.pts_ms; keyframe = f.is_key } in
      let fed = feed media_input hls_duration m.writes media (some x) ws in
      let counted = record fed { frame_count = fed.frame_count + 1; last_fps = m.current_fps } in
      finish m (account m counted) present

  -- Nothing is written before the first keyframe.
  unfoldable pub from_keyframe :
      Moment Db Media → Slot → Writer Db Media → (List ℕ → Bool) → Option (State Db Media)
  from_keyframe m f ws present =
      let written =
        write_frame m f ws.hls (record ws { seen_keyframe = true; pts_ms = f.pts_us / 1000 })
          present in
      if not ws.seen_keyframe && not f.is_key then some (ws, present) else written

  unfoldable pub today_writer : Moment Db Media → Writer Db Media → Writer Db Media
  today_writer m ws =
      if m.yday == ws.day_of_year
      then ws
      else (rollover_day media_input hls_duration run cfg.ivs.fps_low m.writes m.opening ws).1

  unfoldable pub ingest_frame : Moment Db Media → Slot → State Db Media → Option (State Db Media)
  ingest_frame m f (ws, present) = from_keyframe m f (today_writer m ws) present
