-- ===== src/Storage/Writer/Ingest/Reels.antt =====
-- The frames that `writer_thread` of src/storage.c takes, one after another with `ingest_frame`, against
-- what the muxer of a day is meant to be given.
use mathlib.Core.Option.{some-injective}
use montion_sense.Prelude.{
  Rc, ℕ, ◌≤◌, ◌≡◌, ◌≢◌, refl, sym, ◌∙◌, ap, subst, arith, Bool, true, false, not, ◌&&◌, Bool-cases,
  inl, inr, Option, none, some, List, [], ◌∷◌, ◌++◌, ◌==◌, if◌then◌else◌, ok,
}
use montion_sense.Prelude.Int.{pos}
use montion_sense.Config.{Config}
use montion_sense.FrameQueue.{Slot}
use montion_sense.FrameQueue.Feed.{from_key}
use montion_sense.FrameQueue.Keys.{
  has_key, has_key-append_one, from_key-append_later, from_key-append_first, from_key-none,
}
use montion_sense.Storage.Sql.{Stmt, Answer}
use montion_sense.Storage.Writer.{Writer, Input, Segment, rollover_day}
use montion_sense.Storage.Writer.Ingest.{Moment, State, ingest_frame}
use montion_sense.Storage.Writer.Ingest.Returns.{Returns}
use montion_sense.Storage.Writer.Ingest.Carry.{
  Known, Holds, Carries, input_of, today_writer-Holds, ingest_frame-Holds,
}

-- A day as it is recorded: its number, the muxer that was opened for it, and the frames since then.
pub record Reel (Media : Type 0) : Type 0 where
  pub day : ℕ
  pub opened : Option Media
  pub frames : List Slot

abbrev pub add_frame : {Media : Type 0} → Slot → Reel Media → Reel Media
add_frame f r = record r { frames = r.frames ++ f ∷ [] }

-- A frame of another day begins a new reel.
abbrev pub turn_day : {Db Media : Type 0} → Moment Db Media → Reel Media → Reel Media
turn_day m r =
    if m.yday == r.day
    then r
    else record { day = m.opening.today.yday; opened = m.opening.media; frames = [] }

abbrev pub reel_after :
    {Db Media : Type 0} → List (Moment Db Media × Slot) → Reel Media → Reel Media
reel_after [] r = r
reel_after ((m, f) ∷ xs) r = reel_after xs (add_frame f (turn_day m r))

module _ {Media : Type 0} (media_input : Media → Option Input → (Rc → Media) × Option Segment) where
  -- A muxer that has been given these frames and no other, whatever its callbacks have returned.
  pub data Replayed (opened : Media) : List Slot → Media → Type 0 where
    nothing : Replayed opened [] opened
    then_frame :
        (fs : List Slot) (k : Media)
        → Replayed opened fs k
        → (f : Slot) (rc : Rc)
        → Replayed opened (fs ++ f ∷ []) ((media_input k (some (input_of f))).0 rc)

  -- The writer is on the reel's day, and its muxer is the one that was opened for the day after exactly
  -- the reel's frames from the first keyframe on.
  pub record Records (r : Reel Media) (o : Option Media) (seen : Bool) (day : ℕ) : Type 0 where
    pub opened : Media
    pub is_opened : r.opened ≡ some opened
    pub muxer : Media
    pub is_muxer : o ≡ some muxer
    pub given : Replayed opened (from_key r.frames) muxer
    pub keyed : seen ≡ has_key r.frames
    pub same_day : day ≡ r.day

  Records-Carries :
      (r : Reel Media) (f : Slot) → Carries media_input f (Records r) (Records (add_frame f r))
  Records-Carries r f = record { taken = taken; held = held; muxer = muxer }
    where
      muxer : (seen : Bool) (day : ℕ) → Records r none seen day → ⊥
      muxer seen day p = let e = p.is_muxer in cc

      held :
          (o : Option Media) (seen : Bool) (day : ℕ)
          → (not seen && not f.is_key) ≡ true
          → Records r o seen day
          → Records (add_frame f r) o seen day
      held o seen day g p =
          let unkeyed : has_key r.frames ≡ false = ground arith in
          let no_key : f.is_key ≡ false = ground arith in
          let same : from_key (r.frames ++ f ∷ []) ≡ from_key r.frames =
            from_key-append_first r.frames f unkeyed
            ∙ rw no_key refl
            ∙ sym (from_key-none r.frames unkeyed) in
          record {
            opened = p.opened;
            is_opened = p.is_opened;
            muxer = p.muxer;
            is_muxer = p.is_muxer;
            given = subst (λ xs. Replayed p.opened xs p.muxer) (sym same) p.given;
            keyed = ground (arith, has_key-append_one r.frames f);
            same_day = p.same_day;
          }

      -- What the muxer has been given after the frame.
      grown :
          (k opened : Media)
          → Replayed opened (from_key r.frames) k
          → (not (has_key r.frames) && not f.is_key) ≡ false
          → (rc : Rc)
          → Replayed opened
              (from_key (r.frames ++ f ∷ []))
              ((media_input k (some (input_of f))).0 rc)
      grown k opened e g rc =
          subst (λ fs. Replayed opened fs ((media_input k (some (input_of f))).0 rc))
            (elim (Bool-cases (has_key r.frames)) [
              | inl keyed ↦ sym (from_key-append_later r.frames f keyed)
              | inr unkeyed ↦
                  let key : f.is_key ≡ true = ground arith in
                  ap (λ xs. xs ++ f ∷ []) (from_key-none r.frames unkeyed)
                  ∙ sym (from_key-append_first r.frames f unkeyed ∙ rw key refl)
            ])
            (then_frame (from_key r.frames) k e f rc)

      taken :
          (k : Media) (seen : Bool) (day : ℕ)
          → (not seen && not f.is_key) ≡ false
          → Records r (some k) seen day
          → (rc : Rc)
          → Records (add_frame f r) (some ((media_input k (some (input_of f))).0 rc)) true day
      taken k seen day g p rc = record {
        opened = p.opened;
        is_opened = p.is_opened;
        muxer = (media_input k (some (input_of f))).0 rc;
        is_muxer = refl;
        given =
            grown k p.opened
              (subst (Replayed p.opened (from_key r.frames)) (sym (some-injective _ _ p.is_muxer))
                p.given)
              (subst (λ b. (not b && not f.is_key) ≡ false) p.keyed g) rc;
        keyed = ground (arith, has_key-append_one r.frames f, p.keyed, g);
        same_day = p.same_day;
      }

module _ {Db Media Float : Type 0}
    (media_input : Media → Option Input → (Rc → Media) × Option Segment) (hls_duration : ℕ)
    (run : Stmt → Db → Answer × Db) (cfg : Config Float) where
  unfoldable pub ingest_next :
      (State Db Media → Option (State Db Media)) → Option (State Db Media) → Option (State Db Media)
  ingest_next rest none = none
  ingest_next rest (some s) = rest s

  -- The turns of the loop over these frames.
  unfoldable pub ingest_all :
      List (Moment Db Media × Slot) → State Db Media → Option (State Db Media)
  ingest_all [] s = some s
  ingest_all ((m, f) ∷ xs) s =
      ingest_next (ingest_all xs) (ingest_frame media_input hls_duration run cfg m f s)

  -- What holds after the first frame leads to what holds after the others.
  pub ingest_next-Returns :
      (P : State Db Media → Type 0) (Q : Option (State Db Media) → Type 0)
      (rest : State Db Media → Option (State Db Media))
      → ((s : State Db Media) → P s → Q (rest s))
      → (o : Option (State Db Media)) → Returns P o
      → Q (ingest_next rest o)
  unfolding ingest_next
  ingest_next-Returns P Q rest next none p = elim p [ ]
  ingest_next-Returns P Q rest next (some s) p = next s p

  -- At each of the moments a new day's segment can be opened.
  abbrev pub AllOpen : List (Moment Db Media × Slot) → Type 0
  AllOpen [] = Unit {0}
  AllOpen ((m, f) ∷ xs) =
      ((ws : Writer Db Media)
        → (rollover_day media_input hls_duration run cfg.ivs.fps_low m.writes m.opening ws).0 ≡ ok)
      × AllOpen xs

  turn_day-same : (m : Moment Db Media) (r : Reel Media) → m.yday ≡ r.day → turn_day m r ≡ r
  turn_day-same m r e = ground arith

  turn_day-new :
      (m : Moment Db Media) (r : Reel Media)
      → m.yday ≢ r.day
      → turn_day m r ≡ record { day = m.opening.today.yday; opened = m.opening.media; frames = [] }
  turn_day-new m r e = ground arith

  module _ (low high : ℕ) (l : cfg.ivs.fps_low ≡ pos low) (h : cfg.ivs.fps_high ≡ pos high)
      (one_le : 1 ≤ low) (le : low ≤ high) where
    ingest_frame-Records :
        (m : Moment Db Media) (f : Slot) (r : Reel Media) (ws : Writer Db Media)
        (present : List ℕ → Bool)
        → ((w : Writer Db Media)
            → (rollover_day media_input hls_duration run cfg.ivs.fps_low m.writes m.opening w).0
              ≡ ok)
        → Records media_input r ws.hls ws.seen_keyframe ws.day_of_year
        → Holds
            (Records media_input (add_frame f (turn_day m r)))
            (ingest_frame media_input hls_duration run cfg m f (ws, present))
    ingest_frame-Records m f r ws present opens p =
        let turned : Known Media = Records media_input (turn_day m r) in
        ingest_frame-Holds media_input hls_duration run cfg turned
          (Records media_input (add_frame f (turn_day m r))) low high l h one_le le m f ws present
          (Records-Carries media_input (turn_day m r) f)
          (today_writer-Holds media_input hls_duration run cfg turned m ws
            (λ e.
              subst (λ s. Records media_input s ws.hls ws.seen_keyframe ws.day_of_year)
                (sym (turn_day-same m r (e ∙ p.same_day))) p)
            (λ changed k is.
              subst (λ s. Records media_input s (some k) false m.opening.today.yday)
                (sym (turn_day-new m r (λ e. changed (e ∙ sym p.same_day))))
                (record {
                  opened = k;
                  is_opened = is;
                  muxer = k;
                  is_muxer = refl;
                  given = nothing;
                  keyed = refl;
                  same_day = refl;
                }))
            (λ _. opens ws))

  -- With rates of at least 1 of which the low one is not above the high one, the writer takes any frames
  -- over any days without undefined behaviour, whatever fails in the databases and on the card; and
  -- after them its muxer is the one that was opened with the last new day, given exactly the frames that
  -- have been taken since, in their order, from the first keyframe among them on, each with its bytes and
  -- its time in milliseconds, whatever its callbacks have returned. At each frame a new day's segment
  -- could be opened.
  pub ingest_all-Records :
      (low high : ℕ)
      → cfg.ivs.fps_low ≡ pos low
      → cfg.ivs.fps_high ≡ pos high
      → 1 ≤ low
      → low ≤ high
      → (xs : List (Moment Db Media × Slot)) (r : Reel Media) (ws : Writer Db Media)
        (present : List ℕ → Bool)
      → AllOpen xs
      → Records media_input r ws.hls ws.seen_keyframe ws.day_of_year
      → Holds (Records media_input (reel_after xs r)) (ingest_all xs (ws, present))
  unfolding ingest_all
  ingest_all-Records low high l h one_le le [] r ws present o p = p
  ingest_all-Records low high l h one_le le ((m, f) ∷ xs) r ws present o p =
      let r' = add_frame f (turn_day m r) in
      ingest_next-Returns (λ s. Records media_input r' s.0.hls s.0.seen_keyframe s.0.day_of_year)
        (Holds (Records media_input (reel_after xs r'))) (ingest_all xs)
        (λ s p'. ingest_all-Records low high l h one_le le xs r' s.0 s.1 o.1 p')
        (ingest_frame media_input hls_duration run cfg m f (ws, present))
        (ingest_frame-Records low high l h one_le le m f r ws present o.0 p)
