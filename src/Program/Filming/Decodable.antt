-- ===== src/Program/Filming/Decodable.antt =====
-- `h264_thread` of src/media.c and `writer_thread` of src/storage.c together: every frame that reaches a
-- muxer can be decoded.
use montion_sense.Prelude.{
  Rc, ℕ, ◌+◌, ◌≤◌, ◌<◌, ◌≡◌, ◌⊎◌, refl, sym, subst, ap, ◌∙◌, Bool, true, false, Option, none, some,
  List, [], ◌∷◌,
}
use montion_sense.Prelude.Int.{pos}
use montion_sense.Config.{Config}
use montion_sense.FrameQueue.{FrameQueue, Slot, Popped, blocked, failed, frame, pop_locked}
use montion_sense.FrameQueue.Invariant.{IsValid}
use montion_sense.FrameQueue.Calls.{push, step, step-IsValid, pop_locked-IsValid, flags-IsValid}
use montion_sense.FrameQueue.Items.{items}
use montion_sense.FrameQueue.Feed.{Feed, pop_item, pop_item-empty, pop_item-frame}
use montion_sense.FrameQueue.Refine.{view, pop_refines}
use montion_sense.FrameQueue.Continuity.{
  Encoder, Flowing, fresh-Flowing, arrive-Flowing, deliver-Flowing, push-view,
}
use montion_sense.Storage.Sql.{Stmt, Answer}
use montion_sense.Storage.Writer.{Writer, Input, Segment}
use montion_sense.Storage.Writer.Ingest.{Moment, State, ingest_frame}
use montion_sense.Storage.Writer.Ingest.Carry.{today_writer-Holds, Holds, ingest_frame-Holds}
use montion_sense.Storage.Writer.Ingest.Played.{PlayedOn, Played, waiting, Played-Carries}
use montion_sense.Storage.Writer.Thread.{on_popped, drain}
use montion_sense.FrameQueue.Linked.{Linked}
use montion_sense.Storage.Writer.Thread.Drain.{Openable, AllOpenable, with_state-Holds}
use montion_sense.Program.Filming.{Turn, encoded, written, film_popped, film, then_drain}

-- The muxer can decode all it has been given, and what the queue holds can follow it.
abbrev pub Filmed :
    {Db Media : Type 0}
    → (Media → Option Input → (Rc → Media) × Option Segment)
    → (Media → Type 0)
    → (ℕ → ℕ)
    → Option (FrameQueue × State Db Media)
    → Type 0
Filmed media_input New number none = ⊥
Filmed media_input New number (some (q, (ws, present))) =
    (e : ℕ) × Played media_input New number e ws.hls ws.seen_keyframe
    × Linked number e (items q)
    × IsValid q

module _ {Db Media Float : Type 0}
    (media_input : Media → Option Input → (Rc → Media) × Option Segment) (hls_duration : ℕ)
    (run : Stmt → Db → Answer × Db) (cfg : Config Float) (New : Media → Type 0) where
  abbrev AllTurns : List (Turn Db Media) → Type 0
  AllTurns [] = Unit {0}
  AllTurns (encoded ∷ ts) = AllTurns ts
  AllTurns (written m ∷ ts) = Openable media_input hls_duration run cfg New m × AllTurns ts

  module _ (low high : ℕ) (l : cfg.ivs.fps_low ≡ pos low) (h : cfg.ivs.fps_high ≡ pos high)
      (one_le : 1 ≤ low) (le : low ≤ high) where
    ingest_frame-Played :
        (enc : Encoder) (m : Moment Db Media) (e : ℕ) (f : Slot) (ws : Writer Db Media)
        (present : List ℕ → Bool)
        → (f.is_key ≡ true) ⊎ (enc.number f.pts_us ≡ e)
        → Openable media_input hls_duration run cfg New m
        → Played media_input New enc.number e ws.hls ws.seen_keyframe
        → Holds
            (PlayedOn media_input New enc.number (enc.number f.pts_us + 1))
            (ingest_frame media_input hls_duration run cfg m f (ws, present))
    ingest_frame-Played enc m e f ws present can_follow o p =
        ingest_frame-Holds media_input hls_duration run cfg (PlayedOn media_input New enc.number e)
          (PlayedOn media_input New enc.number (enc.number f.pts_us + 1)) low high l h one_le le m f
          ws present (Played-Carries media_input New enc.number e f can_follow)
          (today_writer-Holds media_input hls_duration run cfg
            (PlayedOn media_input New enc.number e) m ws (λ _. p)
            (λ _ k is. waiting e k (o.new k is)) (λ _. o.opens ws))

    -- The writer's turn.
    film_popped-Filmed :
        (enc : Encoder) (m : Moment Db Media) (e n : ℕ) (f : Feed) (ws : Writer Db Media)
        (present : List ℕ → Bool) (p : Popped) (q : FrameQueue)
        (rest : FrameQueue → State Db Media → Option (FrameQueue × State Db Media))
        → Openable media_input hls_duration run cfg New m
        → Flowing enc e n f
        → Played media_input New enc.number e ws.hls ws.seen_keyframe
        → IsValid q
        → (xs : List Slot) → f.items ≡ xs
        → (p, view q) ≡ pop_item f
        → ((e' : ℕ) (q' : FrameQueue) (ws' : Writer Db Media) (present' : List ℕ → Bool)
            → Flowing enc e' n (view q')
            → IsValid q'
            → Played media_input New enc.number e' ws'.hls ws'.seen_keyframe
            → Filmed media_input New enc.number (rest q' (ws', present')))
        → Filmed media_input New enc.number
            (film_popped media_input hls_duration run cfg enc rest m (p, q) (ws, present))
    unfolding film_popped
    film_popped-Filmed enc m e n f ws present p q rest o w a v [] none_held eq ih =
        let nothing : (p, view q) ≡ (blocked, f) =
          eq ∙ pop_item-empty f none_held ∙ simp w.open_still refl in
        subst
          (λ r.
            Filmed media_input New enc.number
              (film_popped media_input hls_duration run cfg enc rest m (r, q) (ws, present)))
          (sym (ap (λ r. r.0) nothing))
          (ih e q ws present (subst (Flowing enc e n) (sym (ap (λ r. r.1) nothing)) w) v a)
    film_popped-Filmed enc m e n f ws present p q rest o w a v (x ∷ xs) held eq ih =
        let got : (p, view q) ≡ (frame x, record f { items = xs }) =
          eq ∙ pop_item-frame f x xs held in
        let (can_follow, left) = deliver-Flowing enc e n f x xs held w in
        subst
          (λ r.
            Filmed media_input New enc.number
              (film_popped media_input hls_duration run cfg enc rest m (r, q) (ws, present)))
          (sym (ap (λ r. r.0) got))
          (with_state-Holds media_input hls_duration run cfg New (Filmed media_input New enc.number)
            (PlayedOn media_input New enc.number (enc.number x.pts_us + 1)) (rest q)
            (λ ws' present' a'.
              ih (enc.number x.pts_us + 1) q ws' present'
                (subst (Flowing enc (enc.number x.pts_us + 1) n) (sym (ap (λ r. r.1) got)) left) v
                a')
            (ingest_frame media_input hls_duration run cfg m x (ws, present))
            (ingest_frame-Played enc m e x ws present can_follow o a))

    film-Flowing :
        (enc : Encoder) (ts : List (Turn Db Media)) (e n : ℕ) (q : FrameQueue)
        (ws : Writer Db Media) (present : List ℕ → Bool)
        → AllTurns ts
        → Flowing enc e n (view q)
        → IsValid q
        → Played media_input New enc.number e ws.hls ws.seen_keyframe
        → Filmed media_input New enc.number
            (film media_input hls_duration run cfg enc n ts q (ws, present))
    unfolding film
    film-Flowing enc [] e n q ws present o w v a = (e, a, w.linked, v)
    film-Flowing enc (encoded ∷ ts) e n q ws present o w v a =
        let c = push (some (enc.bytes n)) (enc.size n) (enc.is_key n) (enc.stamp n) true in
        film-Flowing enc ts e (n + 1) (step q c).1 ws present o
          (subst (Flowing enc e (n + 1)) (sym (push-view enc n q v))
            (arrive-Flowing enc e n (view q) w))
          (step-IsValid c v) a
    film-Flowing enc (written m ∷ ts) e n q ws present o w v a =
        film_popped-Filmed enc m e n (view q) ws present (pop_locked q).0 (pop_locked q).1
          (film media_input hls_duration run cfg enc n ts) o.0 w a (pop_locked-IsValid v) (items q)
          refl (pop_refines v)
          (λ e' q' ws' present' w' v' a'. film-Flowing enc ts e' n q' ws' present' o.1 w' v' a')

    -- The writer's turn once the queue is closed.
    on_popped-Filmed :
        (enc : Encoder) (m : Moment Db Media) (e : ℕ) (f : Feed) (ws : Writer Db Media)
        (present : List ℕ → Bool) (p : Popped) (q : FrameQueue)
        (rest : FrameQueue → State Db Media → Option (FrameQueue × State Db Media))
        → Openable media_input hls_duration run cfg New m
        → f.is_closed ≡ true
        → Linked enc.number e f.items
        → Played media_input New enc.number e ws.hls ws.seen_keyframe
        → IsValid q
        → (xs : List Slot) → f.items ≡ xs
        → (p, view q) ≡ pop_item f
        → ((e' : ℕ) (ws' : Writer Db Media) (present' : List ℕ → Bool)
            → q.closed ≡ true
            → Linked enc.number e' (items q)
            → Played media_input New enc.number e' ws'.hls ws'.seen_keyframe
            → Filmed media_input New enc.number (rest q (ws', present')))
        → Filmed media_input New enc.number
            (on_popped media_input hls_duration run cfg rest m (p, q) (ws, present))
    unfolding on_popped
    on_popped-Filmed enc m e f ws present p q rest o c w a v [] none_held eq ih =
        let ended : (p, view q) ≡ (failed, f) = eq ∙ pop_item-empty f none_held ∙ simp c refl in
        subst
          (λ r.
            Filmed media_input New enc.number
              (on_popped media_input hls_duration run cfg rest m (r, q) (ws, present)))
          (sym (ap (λ r. r.0) ended))
          (e, a, subst (λ (g : Feed). Linked enc.number e g.items) (sym (ap (λ r. r.1) ended)) w, v)
    on_popped-Filmed enc m e f ws present p q rest o c w a v (x ∷ xs) held eq ih =
        let got : (p, view q) ≡ (frame x, record f { items = xs }) =
          eq ∙ pop_item-frame f x xs held in
        let link : Linked enc.number e (x ∷ xs) = subst (Linked enc.number e) held w in
        subst
          (λ r.
            Filmed media_input New enc.number
              (on_popped media_input hls_duration run cfg rest m (r, q) (ws, present)))
          (sym (ap (λ r. r.0) got))
          (with_state-Holds media_input hls_duration run cfg New (Filmed media_input New enc.number)
            (PlayedOn media_input New enc.number (enc.number x.pts_us + 1)) (rest q)
            (λ ws' present' a'.
              ih (enc.number x.pts_us + 1) ws' present' (ap (λ r. r.1.is_closed) got ∙ c)
                (subst (λ (g : Feed). Linked enc.number (enc.number x.pts_us + 1) g.items)
                  (sym (ap (λ r. r.1) got)) link.1)
                a')
            (ingest_frame media_input hls_duration run cfg m x (ws, present))
            (ingest_frame-Played enc m e x ws present link.0 o a))

    drain-Filmed :
        (enc : Encoder) (ms : List (Moment Db Media)) (e : ℕ) (q : FrameQueue)
        (ws : Writer Db Media) (present : List ℕ → Bool)
        → AllOpenable media_input hls_duration run cfg New ms
        → q.closed ≡ true
        → Linked enc.number e (items q)
        → IsValid q
        → Played media_input New enc.number e ws.hls ws.seen_keyframe
        → Filmed media_input New enc.number
            (drain media_input hls_duration run cfg ms q (ws, present))
    unfolding drain
    drain-Filmed enc [] e q ws present o c w v a = (e, a, w, v)
    drain-Filmed enc (m ∷ ms) e q ws present o c w v a =
        on_popped-Filmed enc m e (view q) ws present (pop_locked q).0 (pop_locked q).1
          (drain media_input hls_duration run cfg ms) o.0 c w a (pop_locked-IsValid v) (items q)
          refl (pop_refines v)
          (λ e' ws' present' c' w' a'.
            drain-Filmed enc ms e' (pop_locked q).1 ws' present' o.1 c' w' (pop_locked-IsValid v)
              a')

    then_drain-Filmed :
        (enc : Encoder) (ms : List (Moment Db Media)) (r : Option (FrameQueue × State Db Media))
        → AllOpenable media_input hls_duration run cfg New ms
        → Filmed media_input New enc.number r
        → Filmed media_input New enc.number (then_drain media_input hls_duration run cfg enc ms r)
    then_drain-Filmed enc ms none o f = f
    then_drain-Filmed enc ms (some (q, (ws, present))) o (e, a, w, v) =
        drain-Filmed enc ms e (record q { closed = true }) ws present o refl w
          (flags-IsValid true q.dropping q.dropped v) a

  -- However the two threads take turns, and whatever fails in the databases and on the card, the writer
  -- takes its frames without undefined behaviour, before and after the queue is closed; and each muxer is
  -- given a keyframe first, and then only keyframes and frames that were encoded right after the one
  -- given before. The queue is one fresh from `fq_create`, whose capacity exceeds the encoder's group of
  -- pictures; its allocations succeed; the rates are at least 1 and the low one is not above the high one;
  -- the muxer at the start is new; and at each moment at which the writer takes a frame a new day's
  -- segment could be opened.
  pub film-Filmed :
      (low high : ℕ)
      → cfg.ivs.fps_low ≡ pos low
      → cfg.ivs.fps_high ≡ pos high
      → 1 ≤ low
      → low ≤ high
      → (enc : Encoder) (ts : List (Turn Db Media)) (ms : List (Moment Db Media)) (q : FrameQueue)
        (ws : Writer Db Media) (present : List ℕ → Bool) (k : Media)
      → IsValid q
      → q.count ≡ 0
      → q.closed ≡ false
      → enc.gop < q.capacity
      → ws.hls ≡ some k
      → New k
      → ws.seen_keyframe ≡ false
      → AllTurns ts
      → AllOpenable media_input hls_duration run cfg New ms
      → Filmed media_input New enc.number (
          then_drain media_input hls_duration run cfg enc ms
            (film media_input hls_duration run cfg enc 0 ts q (ws, present)))
  film-Filmed low high l h one_le le enc ts ms q ws present k v c o g muxer new unseen turns all =
      let start : Played media_input New enc.number 0 ws.hls ws.seen_keyframe =
        rw (muxer, unseen) (waiting 0 k new) in
      then_drain-Filmed low high l h one_le le enc ms _ all (
        film-Flowing low high l h one_le le enc ts 0 0 q ws present turns
          (fresh-Flowing enc (view q) (rw c refl) o g) v start)
