-- ===== src/Storage/Writer/Ingest/Debounce.antt =====
-- `ingest_frame` of src/storage.c: how often motion is counted.
use montion_sense.Prelude.{
  Rc, ℕ, ◌+◌, ◌≤◌, ◌≡◌, ◌⊎◌, inl, inr, refl, sym, ap, subst, arith, Bool, true, not, ◌&&◌, Option,
  none, some, List, ◌==◌, if_elim,
}
use montion_sense.Prelude.Int.{pos, eq_ℤ}
use montion_sense.Config.{Config}
use montion_sense.FrameQueue.{Slot}
use montion_sense.Storage.Sql.{Stmt, Answer}
use montion_sense.Storage.Writer.{Writer, Input, Segment, feed}
use montion_sense.Storage.Writer.Ingest.Kept.{Kept, feed-kept, check_and_cleanup-kept}
use montion_sense.Storage.Writer.Ingest.{
  Moment, State, is_due, quotient, divides, count_motion, update_if, account, finish, write_frame,
  from_keyframe, today_writer, ingest_frame,
}

-- How many motion events the day has, and when the last one was.
abbrev events : {Db Media : Type 0} → Writer Db Media → ℕ × ℕ
events ws = (ws.motion_count, ws.last_motion_ms)

abbrev kept_events : {Db Media : Type 0} → Kept Db Media → ℕ × ℕ
kept_events k = (k.motion_count, k.last_motion_ms)

-- Nothing is counted, or one event that is `debounce` after the last one.
abbrev pub Counted : ℕ → ℕ × ℕ → ℕ × ℕ → Type 0
Counted debounce (count, last) (count', last') =
    ((count' ≡ count) × (last' ≡ last)) ⊎ ((count' ≡ count + 1) × (last + debounce ≤ last'))

-- What a frame leaves, if it is defined.
abbrev Left : {Db Media : Type 0} → ℕ → ℕ × ℕ → Option (Writer Db Media) → Type 0
Left debounce e none = Unit {0}
Left debounce e (some w) = Counted debounce e (events w)

abbrev pub LeftState : {Db Media : Type 0} → ℕ → ℕ × ℕ → Option (State Db Media) → Type 0
LeftState debounce e none = Unit {0}
LeftState debounce e (some (w, present)) = Counted debounce e (events w)

module _ {Db Media Float : Type 0}
    (media_input : Media → Option Input → (Rc → Media) × Option Segment) (hls_duration : ℕ)
    (run : Stmt → Db → Answer × Db) (cfg : Config Float) (debounce : ℕ)
    (d : cfg.ivs.motion_debounce_ms ≡ pos debounce) where
  count_motion-Counted :
      (now : ℕ) (ws : Writer Db Media)
      → Counted debounce (events ws) (events (count_motion media_input hls_duration run cfg now ws))
  unfolding count_motion is_due
  count_motion-Counted now ws =
      if_elim (λ (w : Writer Db Media). Counted debounce (events ws) (events w))
        (is_due now ws.last_motion_ms cfg.ivs.motion_debounce_ms) _ _
        (λ b.
          let due : is_due now ws.last_motion_ms (pos debounce) ≡ true =
            subst (λ z. is_due now ws.last_motion_ms z ≡ true) d b in
          inr (refl, ground arith))
        (λ _. inl (refl, refl))

  update_if-Left :
      (o : Option Bool) (e : ℕ × ℕ) (ws : Writer Db Media)
      → Counted debounce e (events ws)
      → Left debounce e (update_if media_input hls_duration run cfg o ws)
  unfolding update_if
  update_if-Left none e ws c = tt
  update_if-Left (some due) e ws c =
      if_elim (λ (w : Writer Db Media). Counted debounce e (events w)) due _ _ (λ _. c) (λ _. c)

  account-Left :
      (m : Moment Db Media) (ws : Writer Db Media)
      → Left debounce (events ws) (account media_input hls_duration run cfg m ws)
  unfolding account
  account-Left m ws =
      let counted = count_motion media_input hls_duration run cfg m.now ws in
      if_elim (Left debounce (events ws)) (eq_ℤ m.current_fps cfg.ivs.fps_high) _ _
        (λ _.
          update_if-Left (divides (quotient cfg.ivs.fps_high cfg.ivs.fps_low) counted.frame_count)
            (events ws) counted (count_motion-Counted m.now ws))
        (λ _. inl (refl, refl))

  finish-LeftState :
      (m : Moment Db Media) (e : ℕ × ℕ) (o : Option (Writer Db Media)) (present : List ℕ → Bool)
      → Left debounce e o
      → LeftState debounce e (finish media_input hls_duration run cfg m o present)
  unfolding finish
  finish-LeftState m e none present c = tt
  finish-LeftState m e (some w) present c =
      subst (Counted debounce e)
        (ap kept_events (sym (check_and_cleanup-kept run cfg.storage m.space w present))) c

  write_frame-LeftState :
      (m : Moment Db Media) (f : Slot) (o : Option Media) (ws : Writer Db Media)
      (present : List ℕ → Bool)
      → LeftState debounce
          (events ws)
          (write_frame media_input hls_duration run cfg m f o ws present)
  unfolding write_frame feed
  write_frame-LeftState m f none ws present = tt
  write_frame-LeftState m f (some media) ws present =
      let x : Input = record { bytes = f.bytes; pts = ws.pts_ms; keyframe = f.is_key } in
      let fed = feed media_input hls_duration m.writes media (some x) ws in
      let counted = record fed { frame_count = fed.frame_count + 1; last_fps = m.current_fps } in
      finish-LeftState m (events ws) (account media_input hls_duration run cfg m counted) present (
        subst (λ e. Left debounce e (account media_input hls_duration run cfg m counted))
          (ap kept_events (feed-kept media_input hls_duration m.writes media (some x) ws))
          (account-Left m counted))

  -- With a debounce time that is not negative, a frame of the same day that is taken without undefined
  -- behaviour counts at most one motion event, and only when that time is over since the last one;
  -- otherwise neither the count nor the time of the last event changes.
  pub ingest_frame-Counted :
      (m : Moment Db Media) (f : Slot) (ws : Writer Db Media) (present : List ℕ → Bool)
      → m.yday ≡ ws.day_of_year
      → LeftState debounce
          (ws.motion_count, ws.last_motion_ms)
          (ingest_frame media_input hls_duration run cfg m f (ws, present))
  unfolding ingest_frame from_keyframe today_writer
  ingest_frame-Counted m f ws present same =
      if_elim
        (λ (w : Writer Db Media).
          LeftState debounce (events ws)
            (from_keyframe media_input hls_duration run cfg m f w present))
        (m.yday == ws.day_of_year) _ _
        (λ _.
          if_elim (LeftState debounce (events ws)) (not ws.seen_keyframe && not f.is_key) _ _
            (λ _. inl (refl, refl)) (λ _. write_frame-LeftState m f ws.hls _ present))
        (λ b. absurd (ground arith))
