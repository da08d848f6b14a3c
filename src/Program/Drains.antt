-- ===== src/Program/Drains.antt =====
-- `main` of src/main.c once a signal has come: the recording ends in order.
use montion_sense.Prelude.{
  Rc, ℕ, ◌≤◌, ◌≡◌, inr, refl, ◌∙◌, ap, subst, Bool, true, false, not, Option, none, some, List,
  if_elim, length, ok,
}
use montion_sense.Prelude.Int.{pos}
use montion_sense.Config.{Config}
use montion_sense.FrameQueue.{FrameQueue}
use montion_sense.Storage.Sql.{Stmt, Answer}
use montion_sense.Storage.Writer.{Input, Segment}
use montion_sense.Storage.Writer.Ingest.{Moment, State}
use montion_sense.Storage.Writer.Ingest.Alive.{FedOn, Fed, Alive, fresh, ingest_frame-Alive}
use montion_sense.Storage.Writer.Ingest.Carry.{Fresh-Holds}
use montion_sense.Storage.Writer.Thread.{joined, storage_stop}
use montion_sense.Storage.Writer.Thread.Drain.{Openable, AllOpenable, Drained, drain-Drained}
use montion_sense.Media.Life.{media_stop, media_deinit}
use montion_sense.Program.Stopping.{stop_storage-Stopped}
use montion_sense.Program.Ends.{booted, Threads-same}
use montion_sense.Program.{
  App, Start, Stop, with_stopped, stop_storage, deinit_storage, err_storage, deinit_all, after_loop,
  at_start, init_storage, with_ctx, with_storage, with_media, Step, pushed, polled, wrote,
  signalled, Threads, none_yet, then_step,
}

-- `fq_depth`
abbrev pub depth : Option FrameQueue → ℕ
depth none = 0
depth (some q) = q.count

-- The writer has stopped, and the queue is empty.
abbrev pub Emptied : {Db Media : Type 0} → Option (App Db Media) → Type 0
Emptied none = ⊥
Emptied (some a) = depth a.ctx.vq ≡ 0

module _ {Db Media Float : Type 0}
    (media_input : Media → Option Input → (Rc → Media) × Option Segment) (hls_duration : ℕ)
    (run : Stmt → Db → Answer × Db) (cfg : Config Float) (New : Media → Type 0) where
  -- The moments at which the writer takes a frame.
  abbrev pub Good : Moment Db Media → Type 0
  Good = Openable media_input hls_duration run cfg New

  abbrev pub Writing : App Db Media → Type 0
  Writing app = Fed media_input New app.service.ws.hls app.service.ws.seen_keyframe

  module _ (low high : ℕ) (l : cfg.ivs.fps_low ≡ pos low) (h : cfg.ivs.fps_high ≡ pos high)
      (one_le : 1 ≤ low) (le : low ≤ high) where
    Step-Writing :
        {a b : App Db Media}
        → Step media_input hls_duration run cfg Good a b
        → Writing a
        → Writing b
    Step-Writing (pushed app source len is_key pts_us alloc) w = w
    Step-Writing (polled app md_threshold result) w = w
    Step-Writing (signalled app) w = w
    Step-Writing (wrote app m q f (ws', present') g st fps v p i) w =
        subst (Alive media_input New) i (
          ingest_frame-Alive media_input hls_duration run cfg New low high l h one_le le m f
            app.service.ws app.present g.new w (inr (g.opens app.service.ws)))

    Threads-Writing :
        {a b : App Db Media}
        → Threads media_input hls_duration run cfg Good a b
        → Writing a
        → Writing b
    Threads-Writing none_yet w = w
    Threads-Writing (then_step t s) w = Step-Writing s (Threads-Writing t w)

    -- The writer that is stopped has taken every frame.
    Drained-Emptied :
        (app : App Db Media) (stop : Stop Db Media) (o : Option (FrameQueue × State Db Media))
        → Drained media_input hls_duration run cfg New o
        → Emptied (
            with_stopped media_input hls_duration run cfg app
              (joined media_input hls_duration run cfg stop.writes o))
    unfolding joined
    Drained-Emptied app stop none d = elim d [ ]
    Drained-Emptied app stop (some (q, s)) d = d.0

    stop_storage-Emptied :
        (stop : Stop Db Media) (app : App Db Media) (vq : Option FrameQueue)
        → app.ctx.vq ≡ vq
        → app.service.started ≡ true
        → Writing app
        → AllOpenable media_input hls_duration run cfg New stop.moments
        → depth vq ≤ length stop.moments
        → Emptied (stop_storage media_input hls_duration run cfg stop vq app)
    unfolding stop_storage storage_stop
    stop_storage-Emptied stop app none e s w o d =
        if_elim (λ (a : App Db Media). depth a.ctx.vq ≡ 0) (not app.service.started) _ _
          (λ _. ap depth e) (λ _. ap depth e)
    stop_storage-Emptied stop app (some q) e s w o d =
        if_elim (λ r. Emptied (with_stopped media_input hls_duration run cfg app r))
          (not app.service.started) _ _ (λ b. absurd cc)
          (λ _. Drained-Emptied app stop _ (
            drain-Drained media_input hls_duration run cfg New low high l h one_le le stop.moments
              (record q { closed = true }) app.service.ws app.present o refl d w))

  stop_stopped :
      (stop : Stop Db Media) (vq : Option FrameQueue) (app : App Db Media)
      → app.service.started ≡ false
      → (a : App Db Media) × (stop_storage media_input hls_duration run cfg stop vq app ≡ some a)
  unfolding stop_storage storage_stop
  stop_stopped stop none app s = rw s (_, refl)
  stop_stopped stop (some q) app s = rw s (_, refl)

  err_storage_stopped :
      (stop : Stop Db Media) (app : App Db Media)
      → app.service.started ≡ false
      → (end : App Db Media) × (err_storage media_input hls_duration run cfg stop app ≡ some end)
  unfolding err_storage deinit_storage
  err_storage_stopped stop app s = let (a, e) = stop_stopped stop app.ctx.vq app s in rw e (_, refl)

  after_loop-some :
      (stop : Stop Db Media) (app : App Db Media)
      → app.service.started ≡ true
      → (o : Option (App Db Media))
      → stop_storage media_input hls_duration run cfg stop app.ctx.vq
          (record app { board = media_stop app.board })
        ≡ o
      → Emptied o
      → (end : App Db Media) × (after_loop media_input hls_duration run cfg stop app ≡ some end)
  unfolding after_loop deinit_all
  after_loop-some stop app s none e m = elim m [ ]
  after_loop-some stop app s (some a) e m =
      let t =
        stop_storage-Stopped media_input hls_duration run cfg stop app.ctx.vq
          (record app { board = media_stop app.board }) a s e in
      rw e (err_storage_stopped stop (record a { board = media_deinit a.board }) t.service)

  -- The program that has been set up, whatever `media_init` returned.
  abbrev pub set_up : Start Db Media → (List ℕ → Bool) → App Db Media
  set_up st present = with_media media_input hls_duration run cfg st (
      with_storage media_input hls_duration run cfg st (
        with_ctx media_input hls_duration run cfg st
          (at_start media_input hls_duration run cfg present)))

  pub main-Emptied :
      (low high : ℕ)
      → cfg.ivs.fps_low ≡ pos low
      → cfg.ivs.fps_high ≡ pos high
      → 1 ≤ low
      → low ≤ high
      → (st : Start Db Media) (present : List ℕ → Bool) (stop : Stop Db Media) {late : App Db Media}
      → ((k : Media) → st.opening.media ≡ some k → New k)
      → (init_storage media_input hls_duration run cfg st
          (at_start media_input hls_duration run cfg present).service).0
        ≡ ok
      → Threads media_input hls_duration run cfg Good (set_up st present) late
      → AllOpenable media_input hls_duration run cfg New stop.moments
      → depth late.ctx.vq ≤ length stop.moments
      → Emptied (
          stop_storage media_input hls_duration run cfg stop late.ctx.vq
            (record late { board = media_stop late.board }))
        × (end : App Db Media) × (after_loop media_input hls_duration run cfg stop late ≡ some end)
  main-Emptied low high l h one_le le st present stop {late} new i t o d =
      let b = booted media_input hls_duration run cfg Good st ok i in
      let w = Threads-Writing low high l h one_le le t (
        Fresh-Holds media_input hls_duration run cfg (FedOn media_input New) st.opening _
          (λ k e. fresh k (new k e)) b.1) in
      let s : late.service.started ≡ true =
        (Threads-same media_input hls_duration run cfg Good t).0 ∙ b.0 in
      let e =
        stop_storage-Emptied low high l h one_le le stop
          (record late { board = media_stop late.board }) late.ctx.vq refl s w o d in
      let r = after_loop-some stop late s _ refl e in (e, r.0, r.1)
