-- ===== src/Program/Ends.antt =====
-- `main` of src/main.c: what is held when it returns.
use montion_sense.Prelude.{
  ℕ, zero, suc, ◌≡◌, refl, sym, ◌∙◌, ap, subst, Bool, false, Option, none, some, List, Rc, ok, fail,
}
use montion_sense.Prelude.Int.{ℤ}
use montion_sense.Config.{Config}
use montion_sense.FrameQueue.{FrameQueue}
use montion_sense.Detector.{rc_of, app_ctx_init, app_ctx_deinit}
use montion_sense.Storage.Sql.{Stmt, Answer}
use montion_sense.Storage.Writer.{Input, Segment}
use montion_sense.Storage.Writer.Ingest.{Moment}
use montion_sense.Storage.Writer.Thread.{Service, zeroed}
use montion_sense.Storage.Writer.Thread.Boot.{Ready, storage_init-Ready}
use montion_sense.Media.{Board, off}
use montion_sense.Media.Life.{media_init, media_stop, media_deinit}
use montion_sense.Media.Life.Stop.{media_deinit-media_stop, font_after}
use montion_sense.Media.Life.Up.{media_deinit-media_init}
use montion_sense.Media.Life.Labels.{Down, off-Down}
use montion_sense.Media.Life.Down.{media_init-Down}
use montion_sense.Program.{
  App, Start, err_ctx, Step, pushed, polled, wrote, signalled, Threads, none_yet, then_step, Main,
  no_context, no_storage, no_media, ran, at_start, init_storage, with_ctx, with_storage,
}
use montion_sense.Program.Stopping.{Shut, err_storage-Shut, after_loop-Shut}

-- What `main` leaves, by its exit code.
pub record Failed {Db Media : Type 0} (end : App Db Media) : Type 0 where
  pub vq : end.ctx.vq ≡ none
  pub started : end.service.started ≡ false
  pub event_db : end.service.ws.event_db ≡ none
  pub down : Down end.board

pub record Clean {Db Media : Type 0} (end : App Db Media) : Type 0 where
  pub shut : Shut end
  pub font : Option ℤ
  pub board : end.board ≡ record off { font = font }

abbrev pub Ends : {Db Media : Type 0} → ℕ → App Db Media → Type 0
Ends zero end = Clean end
Ends (suc code) end = Failed end

module _ {Db Media Float : Type 0}
    (media_input : Media → Option Input → (Rc → Media) × Option Segment) (hls_duration : ℕ)
    (run : Stmt → Db → Answer × Db) (cfg : Config Float) where
  module _ (Good : Moment Db Media → Type 0) where
    abbrev SameService : App Db Media → App Db Media → Type 0
    SameService a b = (b.service.started ≡ a.service.started) × (b.board ≡ a.board)

    Step-same :
        {a b : App Db Media} → Step media_input hls_duration run cfg Good a b → SameService a b
    Step-same (pushed app source len is_key pts_us alloc) = (refl, refl)
    Step-same (polled app md_threshold result) = (refl, refl)
    Step-same (wrote app m q f s g st fps v p i) = (refl, refl)
    Step-same (signalled app) = (refl, refl)

    pub Threads-same :
        {a b : App Db Media} → Threads media_input hls_duration run cfg Good a b → SameService a b
    Threads-same none_yet = (refl, refl)
    Threads-same (then_step t s) =
        let x = Threads-same t in let y = Step-same s in (y.0 ∙ x.0, y.1 ∙ x.1)

    Failed-Shut : (end : App Db Media) → Shut end → Down end.board → Failed end
    Failed-Shut end s d = record {
      vq = s.vq;
      started = s.started;
      event_db = s.silent.event_db;
      down = d;
    }

    fail_none : (o : Option FrameQueue) → rc_of o ≡ fail → o ≡ none
    fail_none none h = refl
    fail_none (some q) h = absurd cc

    abbrev idle_service : Service Db Media
    idle_service = record { started = false; ws = zeroed }

    -- What `storage_init` promises, by its result.
    pub booted :
        (st : Start Db Media) (rc : Rc)
        → (init_storage media_input hls_duration run cfg st idle_service).0 ≡ rc
        → Ready run st.opening
            (rc, (init_storage media_input hls_duration run cfg st idle_service).1)
    booted st rc h =
        let s = (init_storage media_input hls_duration run cfg st idle_service).1 in
        subst (λ c. Ready run st.opening (c, s)) h
          (storage_init-Ready media_input hls_duration run cfg st.created st.writes st.opening
            st.meta idle_service refl)

    no_storage-Failed :
        (st : Start Db Media) (present : List ℕ → Bool)
        → (init_storage media_input hls_duration run cfg st idle_service).0 ≡ fail
        → Failed (
            err_ctx media_input hls_duration run cfg (
              with_storage media_input hls_duration run cfg st (
                with_ctx media_input hls_duration run cfg st
                  (at_start media_input hls_duration run cfg present))))
    unfolding err_ctx app_ctx_deinit
    no_storage-Failed st present h =
        let s = booted st fail h in
        record { vq = refl; started = s.0; event_db = s.1; down = off-Down }

    -- When `main` returns 0, all is given back: the queue, the writer, its muxer and playlist, both
    -- databases, and all of the camera but, it may be, the overlay's font. When it returns 1, the queue,
    -- the writer and the day's database are gone, and of the camera no H264 encoder, no image processor,
    -- no vendor's system and no producer thread but the overlay's is left. The threads may take any steps
    -- meanwhile.
    pub Main-Ends :
        (present : List ℕ → Bool) {code : ℕ} {end : App Db Media}
        → Main media_input hls_duration run cfg Good
            (at_start media_input hls_duration run cfg present)
            code
            end
        → Ends code end
    unfolding app_ctx_init
    Main-Ends present (no_context st c) = record {
      vq = fail_none _ c;
      started = refl;
      event_db = refl;
      down = off-Down;
    }
    Main-Ends present (no_storage st c s) = no_storage-Failed st present s
    Main-Ends present (no_media st stop {late} {end} c s m t e) =
        let k = Threads-same t in
        let r = (booted st ok s).0 in
        let q = err_storage-Shut media_input hls_duration run cfg stop late end (k.0 ∙ r) e in
        Failed-Shut end q.0 (subst Down (sym (q.1 ∙ k.1)) (media_init-Down cfg st.answers m))
    Main-Ends present (ran st stop {late} {end} c s m t w e) =
        let k = Threads-same t in
        let r = (booted st ok s).0 in
        let q = after_loop-Shut media_input hls_duration run cfg stop late end (k.0 ∙ r) e in
        let b = (media_init cfg st.answers off).1 in
        record {
          shut = q.0;
          font = font_after b;
          board =
              q.1
              ∙ ap (λ (x : Board). media_deinit (media_stop x)) k.1
              ∙ media_deinit-media_stop b
              ∙ media_deinit-media_init cfg st.answers m;
        }
