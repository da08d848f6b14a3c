-- ===== src/Program/Stopping.antt =====
-- `storage_stop`, `storage_deinit` and `app_ctx_deinit` as src/main.c calls them: what they leave.
use mathlib.Core.Option.{some-injective}
use montion_sense.Prelude.{
  ℕ, ◌≡◌, refl, sym, ◌∙◌, ap, subst, true, false, not, Option, none, some, if_elim, Rc,
}
use montion_sense.Config.{Config}
use montion_sense.FrameQueue.{FrameQueue}
use montion_sense.Detector.{app_ctx_deinit}
use montion_sense.Storage.Sql.{Stmt, Answer}
use montion_sense.Storage.EventDb.{event_db_close}
use montion_sense.Storage.Writer.{Writer, Input, Segment, flush_media, hls_flush_and_destroy}
use montion_sense.Storage.Writer.Ingest.{State}
use montion_sense.Storage.Writer.Thread.{Service, joined, shut_down, storage_stop, storage_deinit}
use montion_sense.Media.Life.{media_stop, media_deinit}
use montion_sense.Program.{
  then_, App, Stop, with_stopped, stop_storage, deinit_storage, err_storage, deinit_all, after_loop,
}

-- No muxer, no playlist, and no database of the day.
pub record Silent {Db Media : Type 0} (ws : Writer Db Media) : Type 0 where
  pub hls : ws.hls ≡ none
  pub m3u : ws.m3u ≡ none
  pub event_db : ws.event_db ≡ none

-- The program's threads, queue, files and databases are gone.
pub record Shut {Db Media : Type 0} (end : App Db Media) : Type 0 where
  pub vq : end.ctx.vq ≡ none
  pub started : end.service.started ≡ false
  pub silent : Silent end.service.ws
  pub meta_db : end.service.ws.meta_db ≡ none

-- After a stop of the storage: the writer has ended, and nothing else has changed hands.
pub record Stopped {Db Media : Type 0} (app a : App Db Media) : Type 0 where
  pub service : a.service.started ≡ false
  pub silent : Silent a.service.ws
  pub board : a.board ≡ app.board

then_-some :
    {A B : Type 0} (o : Option A) (f : A → Option B) (b : B)
    → then_ o f ≡ some b
    → (a : A) × (o ≡ some a) × (f a ≡ some b)
then_-some none f b e = absurd cc
then_-some (some a) f b e = (a, refl, e)

module _ {Db Media Float : Type 0}
    (media_input : Media → Option Input → (Rc → Media) × Option Segment) (hls_duration : ℕ)
    (run : Stmt → Db → Answer × Db) (cfg : Config Float) where
  flush_media-hls :
      (writes : ℕ → Rc × Rc × ℕ) (o : Option Media) (ws : Writer Db Media)
      → ws.hls ≡ o
      → (flush_media media_input hls_duration writes o ws).hls ≡ none
  unfolding flush_media
  flush_media-hls writes none ws e = e
  flush_media-hls writes (some media) ws e = refl

  shut_down-Silent :
      (writes : ℕ → Rc × Rc × ℕ) (ws : Writer Db Media)
      → Silent (shut_down media_input hls_duration run cfg writes ws)
  unfolding shut_down hls_flush_and_destroy event_db_close
  shut_down-Silent writes ws = record {
    hls = flush_media-hls writes ws.hls ws refl;
    m3u = refl;
    event_db = refl;
  }

  joined-Stopped :
      (stop : Stop Db Media) (app a : App Db Media) (o : Option (FrameQueue × State Db Media))
      → with_stopped media_input hls_duration run cfg app
          (joined media_input hls_duration run cfg stop.writes o)
        ≡ some a
      → Stopped app a
  unfolding joined
  joined-Stopped stop app a none e = absurd cc
  joined-Stopped stop app a (some (q, (ws, present))) e =
      subst (Stopped app) (some-injective _ _ e)
        (record { service = refl; silent = shut_down-Silent stop.writes ws; board = refl })

  pub stop_storage-Stopped :
      (stop : Stop Db Media) (vq : Option FrameQueue) (app a : App Db Media)
      → app.service.started ≡ true
      → stop_storage media_input hls_duration run cfg stop vq app ≡ some a
      → Stopped app a
  unfolding stop_storage storage_stop
  stop_storage-Stopped stop none app a s =
      if_elim (λ (x : App Db Media). some x ≡ some a → Stopped app a) (not app.service.started) _ _
        (λ b. absurd cc)
        (λ _ e. subst (Stopped app) (some-injective _ _ e) (record {
          service = refl;
          silent = shut_down-Silent stop.writes app.service.ws;
          board = refl;
        }))
  stop_storage-Stopped stop (some q) app a s =
      if_elim (λ o. with_stopped media_input hls_duration run cfg app o ≡ some a → Stopped app a)
        (not app.service.started) _ _ (λ b. absurd cc) (λ _. joined-Stopped stop app a _)

  -- A stop of a storage that is stopped.
  stop_again :
      (stop : Stop Db Media) (vq : Option FrameQueue) (app a : App Db Media)
      → app.service.started ≡ false
      → stop_storage media_input hls_duration run cfg stop vq app ≡ some a
      → (a.service ≡ app.service) × (a.board ≡ app.board)
  unfolding stop_storage storage_stop
  stop_again stop none app a s =
      if_elim
        (λ (x : App Db Media). some x ≡ some a → (a.service ≡ app.service) × (a.board ≡ app.board))
        (not app.service.started) _ _
        (λ _ e.
          subst (λ (x : App Db Media). (x.service ≡ app.service) × (x.board ≡ app.board))
            (some-injective _ _ e) (refl, refl))
        (λ b. absurd cc)
  stop_again stop (some q) app a s =
      if_elim
        (λ o.
          with_stopped media_input hls_duration run cfg app o ≡ some a
          → (a.service ≡ app.service) × (a.board ≡ app.board))
        (not app.service.started) _ _
        (λ _ e.
          subst (λ (x : App Db Media). (x.service ≡ app.service) × (x.board ≡ app.board))
            (some-injective _ _ e) (refl, refl))
        (λ b. absurd cc)

  err_storage_lem :
      (stop : Stop Db Media) (app end : App Db Media)
      → err_storage media_input hls_duration run cfg stop app ≡ some end
      → (a : App Db Media) × (stop_storage media_input hls_duration run cfg stop app.ctx.vq app
          ≡ some a)
        × (end ≡ record a {
          service = storage_deinit media_input hls_duration run cfg a.service;
          ctx = app_ctx_deinit a.ctx;
        })
  unfolding err_storage deinit_storage
  err_storage_lem stop app end e =
      let (b, p, q) = then_-some _ _ _ e in
      let (a, r, s) = then_-some _ _ _ p in
      (
        a,
        r,
        sym (some-injective _ _ q)
            ∙ ap (λ (x : App Db Media). record x { ctx = app_ctx_deinit x.ctx })
                (sym (some-injective _ _ s)),
      )

  deinit-Shut :
      (a : App Db Media)
      → a.service.started ≡ false
      → Silent a.service.ws
      → Shut (record a {
        service = storage_deinit media_input hls_duration run cfg a.service;
        ctx = app_ctx_deinit a.ctx;
      })
  unfolding storage_deinit app_ctx_deinit
  deinit-Shut a s w = record {
    vq = refl;
    started = s;
    silent = record { hls = w.hls; m3u = w.m3u; event_db = w.event_db };
    meta_db = refl;
  }

  -- The labels, and the end of the loop.
  pub err_storage-Shut :
      (stop : Stop Db Media) (app end : App Db Media)
      → app.service.started ≡ true
      → err_storage media_input hls_duration run cfg stop app ≡ some end
      → Shut end × (end.board ≡ app.board)
  err_storage-Shut stop app end s e =
      let (a, p, q) = err_storage_lem stop app end e in
      let t = stop_storage-Stopped stop app.ctx.vq app a s p in
      subst (λ (x : App Db Media). Shut x × (x.board ≡ app.board)) (sym q)
        (deinit-Shut a t.service t.silent, t.board)

  pub after_loop-Shut :
      (stop : Stop Db Media) (app end : App Db Media)
      → app.service.started ≡ true
      → after_loop media_input hls_duration run cfg stop app ≡ some end
      → Shut end × (end.board ≡ media_deinit (media_stop app.board))
  unfolding after_loop deinit_all
  after_loop-Shut stop app end s e =
      let quiet : App Db Media = record app { board = media_stop app.board } in
      let (a, p, q) = then_-some _ _ _ e in
      let t = stop_storage-Stopped stop quiet.ctx.vq quiet a s p in
      let (b, r, w) = err_storage_lem stop (record a { board = media_deinit a.board }) end q in
      let u = stop_again stop a.ctx.vq (record a { board = media_deinit a.board }) b t.service r in
      let started : b.service.started ≡ false =
        ap (λ (x : Service Db Media). x.started) u.0 ∙ t.service in
      let silent : Silent b.service.ws =
        subst (λ (x : Service Db Media). Silent x.ws) (sym u.0) t.silent in
      subst (λ (x : App Db Media). Shut x × (x.board ≡ media_deinit (media_stop app.board))) (sym w)
        (deinit-Shut b started silent, u.1 ∙ ap media_deinit t.board)
