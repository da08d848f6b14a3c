-- ===== src/Storage/Writer/Ingest/Carry.antt =====
-- `ingest_frame` of src/storage.c: from what is known of the muxer before a frame to what is known
-- after it.
use native.Mathlib.Nat.{le-div_iff_mul-le}
use montion_sense.Prelude.{
  ℕ, zero, suc, ◌+◌, ◌/◌, ◌≤◌, ◌≡◌, refl, sym, subst, ap, ap₂, ◌≢◌, ◌∙◌, arith, Bool, true, false,
  not, ◌&&◌, Option, none, some, List, ◌==◌, if_elim, Rc, ok, fail,
}
use montion_sense.Prelude.Int.{pos}
use montion_sense.Config.{Config}
use montion_sense.FrameQueue.{Slot}
use montion_sense.Storage.Sql.{Stmt, Answer}
use montion_sense.Storage.EventDb.{event_db_close}
use montion_sense.Storage.Writer.{
  Writer, Opening, Input, Segment, feed, open_today, ensure_on_ok, rollover_day,
}
use montion_sense.Storage.Writer.Ingest.{
  Moment, State, quotient, account, finish, write_frame, from_keyframe, today_writer, ingest_frame,
}
use montion_sense.Storage.Writer.Thread.Boot.{IsOpen, Fresh, Opened, open_today-Opened}
use montion_sense.Storage.Writer.Ingest.Returns.{Returns}
use montion_sense.Storage.Writer.Ingest.Kept.{feed-kept, callback_rc, check_and_cleanup-kept}
use montion_sense.Storage.Writer.Ingest.Gate.{gate_of, kept_gate, Keeps, account-Keeps}

quotient-some :
    (low high : ℕ) → 1 ≤ low → low ≤ high → (r : ℕ) × (quotient (pos high) (pos low) ≡ some (suc r))
unfolding quotient
quotient-some low high one_le le =
    if_elim (λ o. (r : ℕ) × (o ≡ some (suc r))) (low == 0) none (some (high / low))
      (λ b. absurd (ground arith))
      (λ b.
        above (high / low)
          ((le-div_iff_mul-le {k = low} {x = 1} {y = high} one_le).1 (omega arith)))
  where
    above : (n : ℕ) → 1 ≤ n → (r : ℕ) × (some n ≡ some (suc r))
    above zero h = absurd (omega arith)
    above (suc r) h = (r, refl)

-- What the muxer is given for a frame.
abbrev pub input_of : Slot → Input
input_of f = record { bytes = f.bytes; pts = f.pts_us / 1000; keyframe = f.is_key }

-- What is known of the muxer, of whether it has had a keyframe, and of the day.
abbrev pub Known : Type 0 → Type 1
Known Media = Option Media → Bool → ℕ → Type 0

-- The writer has returned, and its state is as `P` says.
abbrev pub Holds : {Db Media : Type 0} → Known Media → Option (State Db Media) → Type 0
Holds P = Returns (λ s. P s.0.hls s.0.seen_keyframe s.0.day_of_year)

-- One frame leads from `P` to `Q`, whether the muxer takes it, with any result of its callback, or the
-- gate holds it back.
pub record Carries {Media : Type 0}
    (media_input : Media → Option Input → (Rc → Media) × Option Segment) (f : Slot)
    (P Q : Known Media) : Type 0 where
  pub taken :
      (k : Media) (seen : Bool) (day : ℕ)
      → (not seen && not f.is_key) ≡ false
      → P (some k) seen day
      → (rc : Rc) → Q (some ((media_input k (some (input_of f))).0 rc)) true day
  pub held :
      (o : Option Media) (seen : Bool) (day : ℕ)
      → (not seen && not f.is_key) ≡ true
      → P o seen day
      → Q o seen day
  pub muxer : (seen : Bool) (day : ℕ) → P none seen day → ⊥

module _ {Db Media Float : Type 0}
    (media_input : Media → Option Input → (Rc → Media) × Option Segment) (hls_duration : ℕ)
    (run : Stmt → Db → Answer × Db) (cfg : Config Float) (P : Known Media) where
  abbrev AtGate : Known Media → Option Media × Bool × ℕ → Type 0
  AtGate R (o, seen, day) = R o seen day

  -- A segment that has just been opened.
  pub Fresh-Holds :
      (o : Opening Db Media) (ws : Writer Db Media)
      → ((k : Media) → o.media ≡ some k → P (some k) false o.today.yday)
      → Fresh run o ws
      → P ws.hls ws.seen_keyframe ws.day_of_year
  Fresh-Holds o ws new f = by_muxer o.media f.muxer new
    where
      by_muxer :
          (media : Option Media)
          → ws.hls ≡ media
          → ((k : Media) → media ≡ some k → P (some k) false o.today.yday)
          → P ws.hls ws.seen_keyframe ws.day_of_year
      by_muxer none e new = absurd (subst IsOpen e f.hls)
      by_muxer (some k) e new =
          subst (AtGate P) (λ i. (sym e i, sym f.no_keyframe i, sym f.day i)) (new k refl)

  ensure_on_ok-Holds :
      (o : Opening Db Media) (r : Rc × Writer Db Media)
      → ((k : Media) → o.media ≡ some k → P (some k) false o.today.yday)
      → Opened run o r
      → (ensure_on_ok media_input hls_duration run cfg.ivs.fps_low r).0 ≡ ok
      → AtGate P (gate_of (ensure_on_ok media_input hls_duration run cfg.ivs.fps_low r).1)
  unfolding ensure_on_ok
  ensure_on_ok-Holds o (ok, ws) new f h = Fresh-Holds o ws new f
  ensure_on_ok-Holds o (fail, ws) new f h = absurd cc

  rollover_day-Holds :
      (writes : ℕ → Rc × Rc × ℕ) (o : Opening Db Media) (ws : Writer Db Media)
      → ((k : Media) → o.media ≡ some k → P (some k) false o.today.yday)
      → (rollover_day media_input hls_duration run cfg.ivs.fps_low writes o ws).0 ≡ ok
      → AtGate P (gate_of (rollover_day media_input hls_duration run cfg.ivs.fps_low writes o ws).1)
  unfolding rollover_day open_today event_db_close
  rollover_day-Holds writes o ws new =
      ensure_on_ok-Holds o _ new
        (open_today-Opened media_input hls_duration run cfg o o.segment_dir _ refl refl)

  -- The day has not changed, or the new day's segment can be opened.
  pub today_writer-Holds :
      (m : Moment Db Media) (ws : Writer Db Media)
      → (m.yday ≡ ws.day_of_year → P ws.hls ws.seen_keyframe ws.day_of_year)
      → (m.yday ≢ ws.day_of_year
          → (k : Media) → m.opening.media ≡ some k
          → P (some k) false m.opening.today.yday)
      → (m.yday ≢ ws.day_of_year
          → (rollover_day media_input hls_duration run cfg.ivs.fps_low m.writes m.opening ws).0
            ≡ ok)
      → AtGate P (gate_of (today_writer media_input hls_duration run cfg m ws))
  unfolding today_writer
  today_writer-Holds m ws same new opens =
      if_elim (λ (w : Writer Db Media). AtGate P (gate_of w)) (m.yday == ws.day_of_year) _ _
        (λ b. same (ground arith))
        (λ b.
          let changed : m.yday ≢ ws.day_of_year = ground arith in
          rollover_day-Holds m.writes m.opening ws (new changed) (opens changed))

  module _ (Q : Known Media) where
    finish-Holds :
        (m : Moment Db Media) (ws : Writer Db Media) (o : Option (Writer Db Media))
        (present : List ℕ → Bool)
        → AtGate Q (gate_of ws)
        → Keeps media_input hls_duration run cfg ws o
        → Holds Q (finish media_input hls_duration run cfg m o present)
    unfolding finish
    finish-Holds m ws none present a k = elim k [ ]
    finish-Holds m ws (some w) present a k =
        subst (AtGate Q)
          (sym (ap kept_gate (check_and_cleanup-kept run cfg.storage m.space w present) ∙ k)) a

    module _ (r : ℕ) (ratio : quotient cfg.ivs.fps_high cfg.ivs.fps_low ≡ some (suc r)) where
      write_frame-Holds :
          (m : Moment Db Media) (f : Slot) (media : Media) (ws : Writer Db Media)
          (present : List ℕ → Bool)
          → ((rc : Rc)
              → Q
                  (some (
                    (media_input media
                        (some (record { bytes = f.bytes; pts = ws.pts_ms; keyframe = f.is_key }))).0
                      rc))
                  ws.seen_keyframe
                  ws.day_of_year)
          → Holds Q (write_frame media_input hls_duration run cfg m f (some media) ws present)
      unfolding write_frame feed
      write_frame-Holds m f media ws present next =
          let x : Input = record { bytes = f.bytes; pts = ws.pts_ms; keyframe = f.is_key } in
          let fed = feed media_input hls_duration m.writes media (some x) ws in
          let counted = record fed {
            frame_count = fed.frame_count + 1;
            last_fps = m.current_fps;
          } in
          finish-Holds m counted (account media_input hls_duration run cfg m counted) present
            (subst (AtGate Q)
              (ap kept_gate (sym (feed-kept media_input hls_duration m.writes media (some x) ws)))
              (next (callback_rc media_input hls_duration m.writes media (some x) ws)))
            (account-Keeps media_input hls_duration run cfg r ratio m counted)

      -- A frame that is not held back.
      past_gate-Holds :
          (m : Moment Db Media) (f : Slot) (o : Option Media) (ws : Writer Db Media)
          (present : List ℕ → Bool)
          → Carries media_input f P Q
          → (not ws.seen_keyframe && not f.is_key) ≡ false
          → P o ws.seen_keyframe ws.day_of_year
          → Holds Q (
              write_frame media_input hls_duration run cfg m f o
                (record ws { seen_keyframe = true; pts_ms = f.pts_us / 1000 })
                present)
      past_gate-Holds m f none ws present c g p =
          elim (c.muxer ws.seen_keyframe ws.day_of_year p) [ ]
      past_gate-Holds m f (some k) ws present c g p =
          write_frame-Holds m f k _ present (c.taken k ws.seen_keyframe ws.day_of_year g p)

      from_keyframe-Holds :
          (m : Moment Db Media) (f : Slot) (ws : Writer Db Media) (present : List ℕ → Bool)
          → Carries media_input f P Q
          → P ws.hls ws.seen_keyframe ws.day_of_year
          → Holds Q (from_keyframe media_input hls_duration run cfg m f ws present)
      unfolding from_keyframe
      from_keyframe-Holds m f ws present c p =
          if_elim (Holds Q) (not ws.seen_keyframe && not f.is_key) _ _
            (λ b. c.held ws.hls ws.seen_keyframe ws.day_of_year b p)
            (λ b. past_gate-Holds m f ws.hls ws present c b p)

    -- With rates of at least 1 of which the low one is not above the high one, a frame that carries `P`
    -- to `Q` is taken, and leads to `Q` when `P` holds once the day is right.
    pub ingest_frame-Holds :
        (low high : ℕ)
        → cfg.ivs.fps_low ≡ pos low
        → cfg.ivs.fps_high ≡ pos high
        → 1 ≤ low
        → low ≤ high
        → (m : Moment Db Media) (f : Slot) (ws : Writer Db Media) (present : List ℕ → Bool)
        → Carries media_input f P Q
        → AtGate P (gate_of (today_writer media_input hls_duration run cfg m ws))
        → Holds Q (ingest_frame media_input hls_duration run cfg m f (ws, present))
    unfolding ingest_frame
    ingest_frame-Holds low high l h one_le le m f ws present c p =
        let (r, ratio) = quotient-some low high one_le le in
        from_keyframe-Holds r (ap₂ quotient h l ∙ ratio) m f
          (today_writer media_input hls_duration run cfg m ws) present c p
