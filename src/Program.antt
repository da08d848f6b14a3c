-- ===== src/Program.antt =====
-- src/main.c, `main`: how the queue, the storage and the camera are started and stopped.
--
-- The threads run beside `main` from their starts to their joins. What each of them does between two
-- calls of `main` is a step; a frame that is pushed while a thread is being joined is pushed before
-- the join. `none` is undefined behaviour in the writer. `cfg` is what `ms_config_load` has read.
pub mod Stopping
pub mod Ends
pub mod Drains
pub mod Filming
use montion_sense.Prelude.{
  ℕ, ◌≡◌, Bool, true, false, not, Option, none, some, List, if◌then◌else◌, Rc, ok, fail,
}
use montion_sense.Prelude.Int.{ℤ, pos}
use montion_sense.Config.{Config, IvsCfg}
use montion_sense.FrameQueue.{FrameQueue, Slot, Popped, frame, pop_locked, fq_push}
use montion_sense.Capture.{undetected}
use montion_sense.Detector.{AppCtx, app_ctx_init, app_ctx_deinit, on_signal, poll}
use montion_sense.Storage.Sql.{Stmt, Answer}
use montion_sense.Storage.Writer.{Writer, Opening, Input, Segment}
use montion_sense.Storage.Writer.Ingest.{Moment, State, ingest_frame}
use montion_sense.Storage.Writer.Thread.{
  Service, zeroed, shut_down, storage_init, storage_stop, storage_deinit,
}
use montion_sense.Media.{Board, Answers, off}
use montion_sense.Media.Life.{media_init, media_stop, media_deinit}

-- All that the program holds; `present` is which days have files on the card.
pub record App (Db Media : Type 0) : Type 0 where
  pub ctx : AppCtx
  pub service : Service Db Media
  pub present : List ℕ → Bool
  pub board : Board

-- What the calls of `main` meet before the loop.
pub record Start (Db Media : Type 0) : Type 0 where
  pub queue_alloc : Bool
  pub slots_alloc : Bool
  pub created : Bool
  pub writes : ℕ → Rc × Rc × ℕ
  pub opening : Opening Db Media
  pub meta : Option Db
  pub answers : Answers

-- What the writer meets while it is stopped.
pub record Stop (Db Media : Type 0) : Type 0 where
  pub writes : ℕ → Rc × Rc × ℕ
  pub moments : List (Moment Db Media)

abbrev pub then_ : {A B : Type 0} → Option A → (A → Option B) → Option B
then_ none f = none
then_ (some a) f = f a

module _ {Db Media Float : Type 0}
    (media_input : Media → Option Input → (Rc → Media) × Option Segment) (hls_duration : ℕ)
    (run : Stmt → Db → Answer × Db) (cfg : Config Float) where
  abbrev pub with_stopped :
      App Db Media
      → Option (FrameQueue × Service Db Media × (List ℕ → Bool))
      → Option (App Db Media)
  with_stopped app none = none
  with_stopped app (some (q, s, present)) =
      some (record app { ctx = record app.ctx { vq = some q }; service = s; present = present })

  -- `storage_stop(&g_ctx)`. The pop of a queue that is not there fails at once.
  unfoldable pub stop_storage :
      Stop Db Media → Option FrameQueue → App Db Media → Option (App Db Media)
  stop_storage stop none app = some (
      if not app.service.started then app else record app {
        service = record {
          started = false;
          ws = shut_down media_input hls_duration run cfg stop.writes app.service.ws;
        };
      })
  stop_storage stop (some q) app = with_stopped app (
      storage_stop media_input hls_duration run cfg stop.writes stop.moments q app.service
        app.present)

  abbrev drop_meta : App Db Media → Option (App Db Media)
  drop_meta app =
      some (record app { service = storage_deinit media_input hls_duration run cfg app.service })

  -- `storage_deinit(&g_ctx)`
  unfoldable pub deinit_storage : Stop Db Media → App Db Media → Option (App Db Media)
  deinit_storage stop app = then_ (stop_storage stop app.ctx.vq app) drop_meta

  abbrev drop_ctx : App Db Media → Option (App Db Media)
  drop_ctx app = some (record app { ctx = app_ctx_deinit app.ctx })

  -- The labels `err_storage` and `err_ctx`.
  unfoldable pub err_storage : Stop Db Media → App Db Media → Option (App Db Media)
  err_storage stop app = then_ (deinit_storage stop app) drop_ctx

  unfoldable pub err_ctx : App Db Media → App Db Media
  err_ctx app = record app { ctx = app_ctx_deinit app.ctx }

  -- `media_deinit` and what follows it.
  unfoldable pub deinit_all : Stop Db Media → App Db Media → Option (App Db Media)
  deinit_all stop app = err_storage stop (record app { board = media_deinit app.board })

  -- After the loop. What is closed by the second stop of the storage is closed already.
  unfoldable pub after_loop : Stop Db Media → App Db Media → Option (App Db Media)
  after_loop stop app =
      let quiet = record app { board = media_stop app.board } in
      then_ (stop_storage stop quiet.ctx.vq quiet) (deinit_all stop)

  -- What a thread does in one turn. `Good` says at which moments the writer takes a frame.
  pub data Step (Good : Moment Db Media → Type 0) : App Db Media → App Db Media → Type 0 where
    -- h264_thread
    pushed :
        (app : App Db Media) (source : Option (List ℕ)) (len : ℕ) (is_key : Bool) (pts_us : ℕ)
        (alloc : Bool)
        → Step Good app (record app {
          ctx = record app.ctx { vq = (fq_push app.ctx.vq source len is_key pts_us alloc).1 };
        })
    -- ivs_thread
    polled :
        (app : App Db Media) (md_threshold : ℕ) (result : Option (ℕ × ℕ))
        → Step Good app
            (record app { ctx = poll md_threshold cfg.ivs.fps_low cfg.ivs.fps_high result app.ctx })
    -- writer_thread
    wrote :
        (app : App Db Media) (m : Moment Db Media) (q : FrameQueue) (f : Slot) (s : State Db Media)
        → Good m
        → app.service.started ≡ true
        → m.current_fps ≡ app.ctx.current_fps
        → app.ctx.vq ≡ some q
        → (pop_locked q).0 ≡ frame f
        → ingest_frame media_input hls_duration run cfg m f (app.service.ws, app.present) ≡ some s
        → Step Good app (record app {
          ctx = record app.ctx { vq = some (pop_locked q).1 };
          service = record app.service { ws = s.0 };
          present = s.1;
        })
    signalled : (app : App Db Media) → Step Good app (record app { ctx = on_signal app.ctx })

  pub data Threads (Good : Moment Db Media → Type 0) (app : App Db Media)
      : App Db Media → Type 0 where
    none_yet : Threads Good app app
    then_step : {b c : App Db Media} → Threads Good app b → Step Good b c → Threads Good app c

  -- The calls before the loop, by the state when they are made.
  abbrev pub init_ctx : Start Db Media → Rc × AppCtx
  init_ctx st = app_ctx_init st.queue_alloc st.slots_alloc

  abbrev pub init_storage : Start Db Media → Service Db Media → Rc × Service Db Media
  init_storage st s =
      storage_init media_input hls_duration run cfg st.created st.writes st.opening st.meta s

  abbrev pub init_media : Start Db Media → Rc × Board
  init_media st = media_init cfg st.answers off

  -- The program at its start: nothing is held.
  abbrev pub at_start : (List ℕ → Bool) → App Db Media
  at_start present = record {
    ctx = record { is_running = false; motion_state = undetected; current_fps = pos 0; vq = none };
    service = record { started = false; ws = zeroed };
    present = present;
    board = off;
  }

  abbrev pub with_ctx : Start Db Media → App Db Media → App Db Media
  with_ctx st app = record app { ctx = (init_ctx st).1 }

  abbrev pub with_storage : Start Db Media → App Db Media → App Db Media
  with_storage st app = record app { service = (init_storage st app.service).1 }

  abbrev pub with_media : Start Db Media → App Db Media → App Db Media
  with_media st app = record app { board = (init_media st).1 }

  -- What `main` returns, and the program at its end.
  pub data Main (Good : Moment Db Media → Type 0) (app : App Db Media)
      : ℕ → App Db Media → Type 0 where
    no_context : (st : Start Db Media) → (init_ctx st).0 ≡ fail → Main Good app 1 (with_ctx st app)
    no_storage :
        (st : Start Db Media)
        → (init_ctx st).0 ≡ ok
        → (init_storage st app.service).0 ≡ fail
        → Main Good app 1 (err_ctx (with_storage st (with_ctx st app)))
    no_media :
        (st : Start Db Media) (stop : Stop Db Media) {late end : App Db Media}
        → (init_ctx st).0 ≡ ok
        → (init_storage st app.service).0 ≡ ok
        → (init_media st).0 ≡ fail
        → Threads Good (with_media st (with_storage st (with_ctx st app))) late
        → err_storage stop late ≡ some end
        → Main Good app 1 end
    -- The loop ends once a signal has come.
    ran :
        (st : Start Db Media) (stop : Stop Db Media) {late end : App Db Media}
        → (init_ctx st).0 ≡ ok
        → (init_storage st app.service).0 ≡ ok
        → (init_media st).0 ≡ ok
        → Threads Good (with_media st (with_storage st (with_ctx st app))) late
        → late.ctx.is_running ≡ false
        → after_loop stop late ≡ some end
        → Main Good app 0 end
