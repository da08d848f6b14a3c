-- ===== src/Storage/Writer/Ingest/Kept.antt =====
-- src/storage.c: what of the writer `hls_cb` and `check_and_cleanup` leave alone.
use montion_sense.Prelude.{ℕ, ◌≡◌, refl, ap, Bool, Option, none, some, List, if_elim, Rc, ok, fail}
use montion_sense.Prelude.Int.{ℤ, pos, ltb_ℤ}
use montion_sense.Config.{StorageCfg}
use montion_sense.Storage.Sql.{Stmt, Answer}
use montion_sense.Storage.Writer.{Writer, Input, Segment, hls_cb, call_back, feed, store_files}
use montion_sense.Storage.Writer.Cleanup.{Space, clean_up, check_and_cleanup}
use montion_sense.Storage.Writer.Ingest.{State}

pub record Kept (Db Media : Type 0) : Type 0 where
  pub date : List ℕ
  pub day_of_year : ℕ
  pub hls : Option Media
  pub event_db : Option Db
  pub current_segment_id : ℤ
  pub frame_count : ℕ
  pub motion_count : ℕ
  pub last_motion_ms : ℕ
  pub seen_keyframe : Bool

abbrev pub kept : {Db Media : Type 0} → Writer Db Media → Kept Db Media
kept ws = record {
  date = ws.date;
  day_of_year = ws.day_of_year;
  hls = ws.hls;
  event_db = ws.event_db;
  current_segment_id = ws.current_segment_id;
  frame_count = ws.frame_count;
  motion_count = ws.motion_count;
  last_motion_ms = ws.last_motion_ms;
  seen_keyframe = ws.seen_keyframe;
}

module _ {Db Media : Type 0} (media_input : Media → Option Input → (Rc → Media) × Option Segment)
    (hls_duration : ℕ) where
  store_files-kept :
      (rs : Rc × Rc × ℕ) (name : ℕ) (ws : Writer Db Media)
      → kept (store_files media_input hls_duration rs name ws).1 ≡ kept ws
  unfolding store_files
  store_files-kept (fail, r, n) name ws = refl
  store_files-kept (ok, fail, n) name ws = refl
  store_files-kept (ok, ok, n) name ws = refl

  store_files-meta_db :
      (rs : Rc × Rc × ℕ) (name : ℕ) (ws : Writer Db Media)
      → (store_files media_input hls_duration rs name ws).1.meta_db ≡ ws.meta_db
  unfolding store_files
  store_files-meta_db (fail, r, n) name ws = refl
  store_files-meta_db (ok, fail, n) name ws = refl
  store_files-meta_db (ok, ok, n) name ws = refl

  call_back-kept :
      (writes : ℕ → Rc × Rc × ℕ) (seg : Option Segment) (ws : Writer Db Media)
      → kept (call_back media_input hls_duration writes seg ws).1 ≡ kept ws
  unfolding call_back hls_cb
  call_back-kept writes none ws = refl
  call_back-kept writes (some seg) ws = store_files-kept (writes ws.ts_idx) ws.ts_idx _

  call_back-meta_db :
      (writes : ℕ → Rc × Rc × ℕ) (seg : Option Segment) (ws : Writer Db Media)
      → (call_back media_input hls_duration writes seg ws).1.meta_db ≡ ws.meta_db
  unfolding call_back hls_cb
  call_back-meta_db writes none ws = refl
  call_back-meta_db writes (some seg) ws = store_files-meta_db (writes ws.ts_idx) ws.ts_idx _

  module _ (writes : ℕ → Rc × Rc × ℕ) (media : Media) (x : Option Input)
      (ws : Writer Db Media) where
    -- What the call of `hls_cb`, if there is one, returns.
    abbrev pub callback_rc : Rc
    callback_rc = (call_back media_input hls_duration writes (media_input media x).1 ws).0

    pub feed-kept :
        kept (feed media_input hls_duration writes media x ws)
        ≡ kept (record ws { hls = some ((media_input media x).0 callback_rc) })
    unfolding feed
    feed-kept =
        ap (λ (k : Kept Db Media). record k { hls = some ((media_input media x).0 callback_rc) })
          (call_back-kept writes (media_input media x).1 ws)

    -- The open database of the days is left alone by `hls_cb` only.
    pub feed-meta_db : (feed media_input hls_duration writes media x ws).meta_db ≡ ws.meta_db
    unfolding feed
    feed-meta_db = call_back-meta_db writes (media_input media x).1 ws

pub check_and_cleanup-kept :
    {Db Media : Type 0} (run : Stmt → Db → Answer × Db) (c : StorageCfg) (space : Space)
    (ws : Writer Db Media) (present : List ℕ → Bool)
    → kept (check_and_cleanup run c space ws present).0 ≡ kept ws
unfolding check_and_cleanup clean_up
check_and_cleanup-kept {Db} {Media} run c space ws present =
    if_elim (λ (r : State Db Media). kept r.0 ≡ kept ws)
      (ltb_ℤ (pos ws.ts_since_cleanup) c.cleanup_every_ts) _ _ (λ _. refl)
      (λ _. cleaned ws.meta_db (record ws { ts_since_cleanup = 0 }))
  where
    cleaned :
        (db : Option Db) (w : Writer Db Media) → kept (clean_up run c space db w present).0 ≡ kept w
    cleaned none w = refl
    cleaned (some db) w = refl
