-- ===== src/Storage/Writer/Ingest/Alive.antt =====
-- `ingest_frame` of src/storage.c: frames that are taken, and what the muxer has been fed with.
use mathlib.Core.Option.{some-injective}
use montion_sense.Prelude.{
  Rc, ℕ, ◌≤◌, ◌≡◌, refl, ◌⊎◌, inl, inr, subst, Bool, true, false, not, ◌&&◌, Option, none, some,
  List, ok,
}
use montion_sense.Prelude.Int.{pos}
use montion_sense.Config.{Config}
use montion_sense.FrameQueue.{Slot}
use montion_sense.Storage.Sql.{Stmt, Answer}
use montion_sense.Storage.Writer.{Writer, Input, Segment, rollover_day}
use montion_sense.Storage.Writer.Ingest.{Moment, State, ingest_frame}
use montion_sense.Storage.Writer.Ingest.Carry.{
  Known, today_writer-Holds, input_of, Holds, Carries, ingest_frame-Holds,
}

pub affirmed : (b : Bool) → not b ≡ false → b ≡ true
affirmed true h = refl
affirmed false h = absurd cc

-- `New` says which muxers libhls has just made.
module _ {Media : Type 0} (media_input : Media → Option Input → (Rc → Media) × Option Segment)
    (New : Media → Type 0) where
  -- A muxer that is new, or that has been fed from a keyframe on, and whether it has had a keyframe.
  pub data Fed : Option Media → Bool → Type 0 where
    fresh : (media : Media) → New media → Fed (some media) false
    started :
        (media : Media)
        → New media
        → (x : Input) → x.keyframe ≡ true
        → (rc : Rc) → Fed (some ((media_input media (some x)).0 rc)) true
    more :
        (media : Media)
        → Fed (some media) true
        → (x : Input) (rc : Rc) → Fed (some ((media_input media (some x)).0 rc)) true

  abbrev pub FedOn : Known Media
  FedOn o seen day = Fed o seen

  -- A state that such a muxer is in.
  abbrev pub Alive : {Db : Type 0} → Option (State Db Media) → Type 0
  Alive = Holds FedOn

  -- Any frame keeps it so.
  Fed-Carries : (f : Slot) → Carries media_input f FedOn FedOn
  Fed-Carries f = record {
    taken = λ k seen day. taken k seen;
    held = λ o seen day g p. p;
    muxer = λ seen day p. no_muxer none seen p refl;
  }
    where
      no_muxer : (o : Option Media) (seen : Bool) → Fed o seen → o ≡ none → ⊥
      no_muxer _ _ (fresh k n) e = cc
      no_muxer _ _ (started k n y key rc) e = cc
      no_muxer _ _ (more k a y rc) e = cc

      unfed :
          (o : Option Media) (seen : Bool)
          → Fed o seen
          → seen ≡ false
          → (k : Media) → o ≡ some k
          → New k
      unfed _ _ (fresh j n) s k e = subst New (some-injective _ _ e) n
      unfed _ _ (started j n y key rc) s k e = absurd cc
      unfed _ _ (more j a y rc) s k e = absurd cc

      taken :
          (k : Media) (seen : Bool)
          → (not seen && not f.is_key) ≡ false
          → Fed (some k) seen
          → (rc : Rc) → Fed (some ((media_input k (some (input_of f))).0 rc)) true
      taken k false g p rc =
          started k (unfed (some k) false p refl k refl) (input_of f) (affirmed f.is_key g) rc
      taken k true g p rc = more k p (input_of f) rc

module _ {Db Media Float : Type 0}
    (media_input : Media → Option Input → (Rc → Media) × Option Segment) (hls_duration : ℕ)
    (run : Stmt → Db → Answer × Db) (cfg : Config Float) (New : Media → Type 0) where
  pub ingest_frame-Alive :
      (low high : ℕ)
      → cfg.ivs.fps_low ≡ pos low
      → cfg.ivs.fps_high ≡ pos high
      → 1 ≤ low
      → low ≤ high
      → (m : Moment Db Media) (f : Slot) (ws : Writer Db Media) (present : List ℕ → Bool)
      → ((k : Media) → m.opening.media ≡ some k → New k)
      → Fed media_input New ws.hls ws.seen_keyframe
      → (m.yday ≡ ws.day_of_year)
        ⊎ ((rollover_day media_input hls_duration run cfg.ivs.fps_low m.writes m.opening ws).0 ≡ ok)
      → Alive media_input New (ingest_frame media_input hls_duration run cfg m f (ws, present))
  ingest_frame-Alive low high l h one_le le m f ws present new a same_or_ok =
      ingest_frame-Holds media_input hls_duration run cfg (FedOn media_input New)
        (FedOn media_input New) low high l h one_le le m f ws present
        (Fed-Carries media_input New f)
        (today_writer-Holds media_input hls_duration run cfg (FedOn media_input New) m ws (λ _. a)
          (λ _ k e. fresh k (new k e))
          (λ changed. elim same_or_ok [ inl e ↦ absurd (changed e) | inr good ↦ good ]))
