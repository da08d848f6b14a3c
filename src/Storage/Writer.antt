-- ===== src/Storage/Writer.antt =====
-- src/storage_internal.h, `writer_state_t`, and src/storage.c from `hls_cb` to `rollover_day`.
--
-- `date_dir` and `segment_dir` are texts made of `date` and `interrupt_idx`, in `Storage.Paths`. The
-- counters do not wrap: a day has fewer than 2 ^ 31 frames. SQLite and libhls are parameters; `stored`
-- is the folder of the open segment as the card has it.
pub mod Playlist
pub mod Cleanup
pub mod Ingest
pub mod Thread
use montion_sense.Prelude.{
  ℕ, ◌+◌, ◌/◌, Bool, true, false, Option, none, some, List, [], ◌∷◌, ◌++◌, ltb, take, if◌then◌else◌,
  Rc, ok, fail,
}
use montion_sense.Prelude.Int.{ℤ, pos, negsuc, ltb_ℤ}
use montion_sense.Storage.Paths.{LocalTime, today_string, count_subdirs}
use montion_sense.Storage.Sql.{Stmt, Answer}
use montion_sense.Storage.MetaDb.{meta_db_ensure_day}
use montion_sense.Storage.EventDb.{
  event_db_open, event_db_close, event_db_add_segment, event_db_update_total_frames,
}

-- What libhls hands to `hls_cb`, and what it is fed with.
pub record Segment : Type 0 where
  pub bytes : List ℕ
  pub pts : ℕ
  pub dts : ℕ
  pub duration : ℕ

pub record Input : Type 0 where
  pub bytes : Option (List ℕ)
  pub pts : ℕ
  pub keyframe : Bool

-- A line that `hls_m3u8_add` adds; `name` is the number in the file's name.
pub record Entry : Type 0 where
  pub name : ℕ
  pub pts : ℕ
  pub duration : ℕ
  pub discontinuity : Bool

-- The files of a segment folder: the numbers of its .ts files and the lines of its index.m3u8.
pub record Folder : Type 0 where
  pub ts_files : List ℕ
  pub playlist : List Entry

abbrev pub empty_folder : Folder
empty_folder = record { ts_files = []; playlist = [] }

pub record Writer (Db Media : Type 0) : Type 0 where
  pub date : List ℕ
  pub day_of_year : ℕ
  pub interrupt_idx : ℕ
  pub hls : Option Media
  pub m3u : Option (List Entry)
  pub ts_idx : ℕ
  pub ts_since_cleanup : ℕ
  pub pts_ms : ℕ
  pub meta_db : Option Db
  pub event_db : Option Db
  pub current_segment_id : ℤ
  pub frame_count : ℕ
  pub motion_count : ℕ
  pub last_fps : ℤ
  pub last_motion_ms : ℕ
  pub seen_keyframe : Bool
  -- `last_dts` of `hls_cb`, which is -1 at first
  pub last_dts : Option ℕ
  pub stored : Folder

-- The first argument is HLS_DURATION of libhls.
unfoldable pub is_discontinuity : ℕ → Option ℕ → ℕ → Bool
is_discontinuity hls_duration none dts = false
is_discontinuity hls_duration (some last) dts = ltb (last + hls_duration / 2) dts

abbrev pub add_entry : Entry → Option (List Entry) → Option (List Entry)
add_entry e none = none
add_entry e (some es) = some (es ++ e ∷ [])

abbrev pub lines : Option (List Entry) → List Entry
lines none = []
lines (some es) = es

-- What `open_today` meets: the day, the entries of its directory, whether the segment's folder can be
-- made, the database that `sqlite3_open` gives, the time at which the segment starts with its
-- microseconds, the new muxer, and whether there is a new playlist.
pub record Opening (Db Media : Type 0) : Type 0 where
  pub today : LocalTime
  pub day_dir : Option (List (Bool × List ℕ))
  pub segment_dir : Rc
  pub event_db : Option Db
  pub segment_time : LocalTime
  pub usec : ℕ
  pub media : Option Media
  pub playlist : Bool

-- libhls: an open muxer takes a frame, or nothing at its end. It calls `hls_cb` at most once, with the
-- segment that it cuts, and is then what the result of the call makes of it: after a failure it has not
-- muxed the frame.
module _ {Db Media : Type 0} (media_input : Media → Option Input → (Rc → Media) × Option Segment)
    (hls_duration : ℕ) where
  -- The two atomic writes: the second is made when the first succeeds, with as many lines of the playlist
  -- as `s_m3u_buf` holds.
  unfoldable pub store_files : Rc × Rc × ℕ → ℕ → Writer Db Media → Rc × Writer Db Media
  store_files (fail, playlist, held) name ws = (fail, ws)
  store_files (ok, fail, held) name ws =
      (fail, record ws { stored = record ws.stored { ts_files = ws.stored.ts_files ++ name ∷ [] } })
  store_files (ok, ok, held) name ws = (
    ok,
    record ws {
      ts_since_cleanup = ws.ts_since_cleanup + 1;
      stored = record {
        ts_files = ws.stored.ts_files ++ name ∷ [];
        playlist = take held (lines ws.m3u);
      };
    },
  )

  -- `writes` gives the results of `write_file_atomic` for the .ts file of that number and for the
  -- playlist after it, and how many lines `hls_m3u8_playlist` has put into `s_m3u_buf`, whose 2 MiB may
  -- be too few: its result is not read.
  unfoldable pub hls_cb : (ℕ → Rc × Rc × ℕ) → Segment → Writer Db Media → Rc × Writer Db Media
  hls_cb writes seg ws =
      let entry : Entry = record {
        name = ws.ts_idx;
        pts = seg.pts;
        duration = seg.duration;
        discontinuity = is_discontinuity hls_duration ws.last_dts seg.dts;
      } in
      store_files (writes ws.ts_idx) ws.ts_idx (record ws {
        ts_idx = ws.ts_idx + 1;
        m3u = add_entry entry ws.m3u;
        last_dts = some seg.dts;
      })

  -- The calls for these segments, one after another: the muxer goes on after a failure.
  unfoldable pub hls_cbs : (ℕ → Rc × Rc × ℕ) → List Segment → Writer Db Media → Writer Db Media
  hls_cbs writes [] ws = ws
  hls_cbs writes (seg ∷ segs) ws = hls_cbs writes segs (hls_cb writes seg ws).1

  -- The call, if a segment is cut.
  unfoldable pub call_back :
      (ℕ → Rc × Rc × ℕ) → Option Segment → Writer Db Media → Rc × Writer Db Media
  call_back writes none ws = (ok, ws)
  call_back writes (some seg) ws = hls_cb writes seg ws

  -- `hls_media_input` on an open muxer.
  unfoldable pub feed : (ℕ → Rc × Rc × ℕ) → Media → Option Input → Writer Db Media → Writer Db Media
  feed writes media x ws =
      let (muxer, seg) = media_input media x in
      let (rc, stored) = call_back writes seg ws in record stored { hls = some (muxer rc) }

  unfoldable pub hls_create : Option Media → Bool → Writer Db Media → Rc × Writer Db Media
  hls_create none made ws =
      (fail, record ws { hls = none; m3u = if made then some [] else none; ts_idx = 0 })
  hls_create (some media) false ws = (fail, record ws { hls = some media; m3u = none; ts_idx = 0 })
  hls_create (some media) true ws = (ok, record ws { hls = some media; m3u = some []; ts_idx = 0 })

  unfoldable pub flush_media : (ℕ → Rc × Rc × ℕ) → Option Media → Writer Db Media → Writer Db Media
  flush_media writes none ws = ws
  flush_media writes (some media) ws = record (feed writes media none ws) { hls = none }

  unfoldable pub hls_flush_and_destroy : (ℕ → Rc × Rc × ℕ) → Writer Db Media → Writer Db Media
  hls_flush_and_destroy writes ws = record (flush_media writes ws.hls ws) { m3u = none }

  module _ (run : Stmt → Db → Answer × Db) (fps_low : ℤ) where
    -- Both failures of `open_today` after the database is open close it.
    unfoldable pub close_on_fail : Rc × Writer Db Media → Rc × Writer Db Media
    close_on_fail (ok, ws) = (ok, ws)
    close_on_fail (fail, ws) = (fail, record ws { event_db = event_db_close run ws.event_db })

    -- From `hls_create` back to the row of the new segment.
    unfoldable pub start_segment :
        Opening Db Media → ℤ × Option Db → Writer Db Media → Rc × Writer Db Media
    start_segment o (id, db) ws =
        let named = record ws { event_db = db; current_segment_id = id } in
        close_on_fail (
          if ltb_ℤ id (pos 0)
          then (fail, named)
          else hls_create o.media o.playlist (record named {
            frame_count = 0;
            motion_count = 0;
            last_fps = fps_low;
            pts_ms = 0;
            seen_keyframe = false;
          }))

    unfoldable pub with_event_db :
        Opening Db Media → Rc × Option Db → Writer Db Media → Rc × Writer Db Media
    with_event_db o (fail, db) ws = (fail, record ws { event_db = db })
    with_event_db o (ok, db) ws =
        start_segment o (event_db_add_segment run db ws.interrupt_idx o.segment_time o.usec) ws

    unfoldable pub with_folder : Opening Db Media → Rc → Writer Db Media → Rc × Writer Db Media
    with_folder o fail ws = (fail, ws)
    with_folder o ok ws =
        with_event_db o (event_db_open run o.event_db) (record ws { stored = empty_folder })

    unfoldable pub open_today : Opening Db Media → Writer Db Media → Rc × Writer Db Media
    open_today o ws = with_folder o o.segment_dir (record ws {
      date = today_string o.today.year o.today.month o.today.day;
      day_of_year = o.today.yday;
      interrupt_idx = count_subdirs o.day_dir;
    })

    unfoldable pub ensure_on_ok : Rc × Writer Db Media → Rc × Writer Db Media
    ensure_on_ok (fail, ws) = (fail, ws)
    ensure_on_ok (ok, ws) = (ok, record ws { meta_db = meta_db_ensure_day run ws.meta_db ws.date })

    unfoldable pub rollover_day :
        (ℕ → Rc × Rc × ℕ) → Opening Db Media → Writer Db Media → Rc × Writer Db Media
    rollover_day writes o ws =
        let flushed = hls_flush_and_destroy writes ws in
        let total =
          event_db_update_total_frames run flushed.event_db flushed.current_segment_id
            (pos flushed.frame_count) in
        ensure_on_ok (open_today o (record flushed { event_db = event_db_close run total }))
