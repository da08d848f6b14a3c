-- ===== src/Tests/Writer.antt =====
-- The writer thread at concrete inputs: days `1` and `2`, and a muxer that cuts at every keyframe.
use Prim.Native.String.{String}
use mathlib.Core.Option.{some-injective}
use montion_sense.Prelude.{
  sym, ap, ℕ, zero, suc, subst, if_elim, same_bytes→eq, ◌+◌, ◌≤◌, ◌≡◌, ◌≢◌, arith, refl, true,
  false, Option, none, some, List, [], ◌∷◌, same_bytes, length, Rc, ok, fail, if◌then◌else◌,
}
use montion_sense.Prelude.Int.{to_int, ℤ, pos}
use montion_sense.Config.{Config, config_defaults}
use montion_sense.FrameQueue.{FrameQueue, Slot}
use montion_sense.Storage.Sql.{db_open_rw, db_exec, exec_rc, active, pending}
use montion_sense.Storage.Retention.{Card, retention_process_tasks}
use montion_sense.Storage.Retention.Store.{Store, lookup, run_store, store_engine}
use montion_sense.Storage.Retention.Engine.{Day}
use montion_sense.Storage.Retention.Recordable.{Recordable}
use montion_sense.Storage.Retention.Deletion.{Dated, Safely, retention_process_tasks-Safely}
use montion_sense.Storage.Writer.{
  Writer, Opening, Input, Segment, hls_cbs, rollover_day, ensure_on_ok, open_today, with_folder,
  with_event_db, start_segment, close_on_fail, hls_create,
}
use montion_sense.Storage.EventDb.{event_db_open, create_tables, event_db_add_segment, inserted_id}
use montion_sense.Storage.Writer.Playlist.{Complete, Listed, hls_cbs-Complete, hls_cbs-lost}
use montion_sense.Storage.Writer.Cleanup.{Space, clean}
use montion_sense.Storage.Writer.Cleanup.Choice.{Cleaned, clean-Cleaned}
use montion_sense.Storage.Writer.Ingest.{Moment, ingest_frame}
use montion_sense.Storage.Writer.Ingest.Alive.{Alive, fresh}
use montion_sense.Storage.Writer.Ingest.Faults.{ingest_frame-no_muxer, ingest_frame-zero_rate}
use montion_sense.Storage.Writer.Ingest.Carry.{Holds}
use montion_sense.Storage.Writer.Ingest.Reels.{
  nothing, Records, reel_after, ingest_all, ingest_all-Records,
}
use montion_sense.Storage.Writer.Ingest.Today.{Recording}
use montion_sense.Storage.Writer.Ingest.Spared.{StillRecording, ingest_all-Recording}
use montion_sense.Storage.Writer.Ingest.Debounce.{LeftState, ingest_frame-Counted}
use montion_sense.Storage.Writer.Thread.Drain.{Openable}
use montion_sense.Storage.Writer.Thread.{Service, zeroed, storage_init}
use montion_sense.Storage.Writer.Thread.Boot.{Ready, storage_init-Ready}

abbrev first_day : List ℕ
first_day = b'1' ∷ []

abbrev second_day : List ℕ
second_day = b'2' ∷ []

-- The first day waits for its deletion; the second one is active.
abbrev pub table : Store
table =
    (first_day, some (record { motion_count = pos 0; state = pending }))
    ∷ (second_day, some (record { motion_count = pos 3; state = active }))
    ∷ []

abbrev card : Card Store
card = record { db = table; present = λ _. true }

card-Dated : Dated store_engine card
unfolding lookup store_engine
card-Dated q =
    if_elim (λ o. o ≢ none → length q ≤ 15) (same_bytes first_day q) _ _
      (λ b _. subst (λ x. length x ≤ 15) (same_bytes→eq first_day q b) (omega arith))
      (λ _.
        if_elim (λ o. o ≢ none → length q ≤ 15) (same_bytes second_day q) _ _
          (λ b _. subst (λ x. length x ≤ 15) (same_bytes→eq second_day q b) (omega arith))
          (λ _ h. absurd (h refl)))

abbrev pub removes : List ℕ → Rc
removes _ = ok

retention_process_tasks-Safely_example :
    Safely store_engine card (retention_process_tasks run_store removes 2 card)
retention_process_tasks-Safely_example =
    retention_process_tasks-Safely store_engine removes 2 card card-Dated

abbrev pub space : Space
space = record { free_mb = 100; removes_first = removes; removes_second = removes }

abbrev pub cfg : Config String
cfg = config_defaults "0.05"

clean-Cleaned_example :
    Cleaned store_engine cfg.storage
      (b'3' ∷ [])
      space
      card
      (clean run_store cfg.storage (b'3' ∷ []) space card)
clean-Cleaned_example = clean-Cleaned store_engine cfg.storage (b'3' ∷ []) space card card-Dated

-- The muxer counts the frames that it muxes: one fewer after a failure.
abbrev pub media_input : ℕ → Option Input → (Rc → ℕ) × Option Segment
media_input n none = ((λ _. n), none)
media_input n (some x) = (
  (λ rc. elim rc [ ok ↦ n + 1 | fail ↦ n ]),
  if x.keyframe
      then some (record { bytes = []; pts = x.pts; dts = x.pts; duration = 2000 })
      else none,
)

abbrev pub opening : Opening Store ℕ
opening = record {
  today = record { year = 2026; month = 1; day = 3; yday = 2; hour = 0; minute = 0; second = 0 };
  day_dir = some [];
  segment_dir = ok;
  event_db = some [];
  segment_time = record {
    year = 2026;
    month = 1;
    day = 3;
    yday = 2;
    hour = 0;
    minute = 0;
    second = 1;
  };
  usec = 500;
  media = some 0;
  playlist = true;
}

abbrev pub both_ok : ℕ → Rc × Rc × ℕ
both_ok _ = (ok, ok, 1000)

abbrev idle_service : Service Store ℕ
idle_service = record { started = false; ws = zeroed }

storage_init-Ready_example :
    Ready run_store opening
      (storage_init media_input 5000 run_store cfg true both_ok opening (some table) idle_service)
storage_init-Ready_example =
    storage_init-Ready media_input 5000 run_store cfg true both_ok opening (some table) idle_service
      refl

abbrev pub open_writer : Writer Store ℕ
open_writer = record zeroed {
  hls = some 0;
  m3u = some [];
  event_db = some [];
  meta_db = some table;
  day_of_year = 1;
}

open_writer-Complete : Complete open_writer
open_writer-Complete = record { on_card = refl; open_lines = ([], refl, refl); stored_lines = refl }

abbrev segment : Segment
segment = record { bytes = []; pts = 0; dts = 0; duration = 2000 }

opened_today :
    ((open_today media_input 5000 run_store (pos 1) opening open_writer).0 ≡ ok)
    × ((open_today media_input 5000 run_store (pos 1) opening open_writer).1.ts_idx ≡ 0)
unfolding open_today with_folder with_event_db start_segment close_on_fail hls_create event_db_open
    create_tables db_open_rw db_exec exec_rc run_store event_db_add_segment inserted_id to_int
opened_today = (refl, refl)

hls_cbs-Complete_example : Complete (
    hls_cbs media_input 5000 both_ok
      (segment ∷ segment ∷ [])
      (open_today media_input 5000 run_store (pos 1) opening open_writer).1)
hls_cbs-Complete_example =
    hls_cbs-Complete media_input 5000 both_ok run_store (pos 1) 2
      (λ n less. (1000, refl, omega arith)) opening open_writer (opened_today.0)
      (segment ∷ segment ∷ []) (omega (arith, opened_today.1))

-- The first .ts file is lost.
abbrev first_lost : ℕ → Rc × Rc × ℕ
first_lost zero = (fail, ok, 0)
first_lost (suc n) = (ok, ok, 2)

hls_cbs-lost_example :
    Listed
      (1 ∷ [])
      (0 ∷ 1 ∷ [])
      (hls_cbs media_input 5000 first_lost (segment ∷ segment ∷ []) open_writer)
hls_cbs-lost_example =
    hls_cbs-lost media_input 5000 first_lost segment segment open_writer ok 0 2 refl refl
      (omega arith) open_writer-Complete

-- A keyframe on the next day.
abbrev pub moment : Moment Store ℕ
moment = record {
  yday = 2;
  writes = both_ok;
  opening = opening;
  current_fps = pos 30;
  now = 5000;
  space = space;
}

abbrev pub keyframe : Slot
keyframe = record { bytes = some (1 ∷ []); len = 1; is_key = true; pts_us = 33_333 }

rolled :
    (low : ℤ) (ws : Writer Store ℕ)
    → (rollover_day media_input 5000 run_store low both_ok opening ws).0 ≡ ok
unfolding ensure_on_ok rollover_day open_today with_folder with_event_db start_segment close_on_fail
    hls_create event_db_open create_tables db_open_rw db_exec exec_rc run_store event_db_add_segment
    inserted_id to_int
rolled low ws = refl

pub default_rates : (cfg.ivs.fps_low ≡ pos 1) × (cfg.ivs.fps_high ≡ pos 30)
unfolding config_defaults
default_rates = (refl, refl)

-- A new muxer of these runs has counted no frame.
abbrev pub New : ℕ → Type 0
New n = n ≡ 0

pub opening-New : (k : ℕ) → opening.media ≡ some k → New k
opening-New k e = sym (some-injective _ _ e)

abbrev bad_moment : Moment Store ℕ
bad_moment = record moment { opening = record opening { segment_dir = fail } }

ingest_frame-no_muxer_example :
    ingest_frame media_input 5000 run_store cfg bad_moment keyframe (open_writer, card.present)
    ≡ none
ingest_frame-no_muxer_example =
    ingest_frame-no_muxer media_input 5000 run_store cfg bad_moment keyframe open_writer
      card.present (omega arith) refl refl

pub moment-Openable : Openable media_input 5000 run_store cfg New moment
moment-Openable = record { opens = rolled cfg.ivs.fps_low; new = opening-New }

-- One frame is left in a closed queue.
abbrev closed_queue : FrameQueue
closed_queue = record {
  slots = keyframe ∷ [];
  capacity = 1;
  head = 0;
  tail = 0;
  count = 1;
  dropped = 0;
  closed = true;
  dropping = false;
}

-- A configuration whose low rate is 0.
abbrev zero_cfg : Config String
zero_cfg = record cfg { ivs = record cfg.ivs { fps_low = pos 0 } }

ingest_frame-zero_rate_example :
    ingest_frame media_input 5000 run_store zero_cfg moment keyframe (open_writer, card.present)
    ≡ none
ingest_frame-zero_rate_example =
    ingest_frame-zero_rate media_input 5000 run_store zero_cfg moment keyframe open_writer
      card.present refl (sym default_rates.1) refl

default_debounce : cfg.ivs.motion_debounce_ms ≡ pos 1000
unfolding config_defaults
default_debounce = refl

abbrev same_day : Moment Store ℕ
same_day = record moment { yday = 1 }

ingest_frame-Counted_example :
    LeftState 1000
      (0, 0)
      (ingest_frame media_input 5000 run_store cfg same_day keyframe (open_writer, card.present))
ingest_frame-Counted_example =
    ingest_frame-Counted media_input 5000 run_store cfg 1000 default_debounce same_day keyframe
      open_writer card.present refl

-- Two frames of one day, of which the second is a keyframe, and one of the next day.
abbrev three_frames : List (Moment Store ℕ × Slot)
three_frames =
    (same_day, record keyframe { is_key = false }) ∷ (same_day, keyframe) ∷ (moment, keyframe) ∷ []

ingest_all-Records_example :
    Holds
      (Records media_input
        (reel_after three_frames (record { day = 1; opened = some 0; frames = [] })))
      (ingest_all media_input 5000 run_store cfg three_frames (open_writer, card.present))
ingest_all-Records_example =
    ingest_all-Records media_input 5000 run_store cfg 1 30 default_rates.0 default_rates.1
      (omega arith) (omega arith) three_frames (record { day = 1; opened = some 0; frames = [] })
      open_writer card.present
      (rolled cfg.ivs.fps_low, (rolled cfg.ivs.fps_low, (rolled cfg.ivs.fps_low, tt)))
      (record {
        opened = 0;
        is_opened = refl;
        muxer = 0;
        is_muxer = refl;
        given = nothing;
        keyed = refl;
        same_day = refl;
      })

-- The second day is being recorded.
abbrev second_writer : Writer Store ℕ
second_writer = record open_writer { date = second_day }

second_day-Recordable : Recordable second_day (lookup table)
unfolding lookup same_bytes store_engine
second_day-Recordable = record {
  dated = card-Dated;
  unscheduled = λ (day, e, p). let f = ap (λ (x : Day). x.state) (some-injective _ _ e) in cc;
}

second_writer-Recording :
    Recording store_engine second_day (omega arith) 1 true second_writer card.present
unfolding store_engine
second_writer-Recording = record {
  on_date = refl;
  on_day = refl;
  same_files = refl;
  guarded = second_day-Recordable;
}

ingest_all-Recording_example : StillRecording store_engine second_day (omega arith) 1 true (
    ingest_all media_input 5000 run_store cfg
      ((same_day, keyframe) ∷ (same_day, keyframe) ∷ [])
      (second_writer, card.present))
ingest_all-Recording_example =
    ingest_all-Recording store_engine second_day (omega arith) media_input 5000 cfg 1 true 1 30
      default_rates.0 default_rates.1 (omega arith) (omega arith)
      ((same_day, keyframe) ∷ (same_day, keyframe) ∷ []) second_writer card.present
      (refl, (refl, tt)) (fresh 0 tt) second_writer-Recording
