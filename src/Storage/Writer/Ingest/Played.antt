-- ===== src/Storage/Writer/Ingest/Played.antt =====
-- `ingest_frame` of src/storage.c: a muxer whose frames can all be decoded.
use mathlib.Core.Option.{some-injective}
use montion_sense.Prelude.{
  Rc, ℕ, ◌+◌, ◌≡◌, refl, ◌⊎◌, subst, Bool, true, false, not, ◌&&◌, Option, none, some,
}
use montion_sense.FrameQueue.{Slot}
use montion_sense.Storage.Writer.{Input, Segment}
use montion_sense.Storage.Writer.Ingest.Carry.{Known, input_of, Carries}
use montion_sense.Storage.Writer.Ingest.Alive.{affirmed}

-- `New` says which muxers libhls has just made, and `number` tells from a time stamp which frame of the
-- encoder it is.
module _ {Media : Type 0} (media_input : Media → Option Input → (Rc → Media) × Option Segment)
    (New : Media → Type 0) (number : ℕ → ℕ) where
  -- A muxer that is new, or that has been given a keyframe and after it only keyframes and frames that
  -- were encoded right after the one before; and whether it has had a keyframe. The number is that of the
  -- frame that was encoded right after the last one that the writer has taken.
  pub data Played : ℕ → Option Media → Bool → Type 0 where
    waiting : (e : ℕ) (media : Media) → New media → Played e (some media) false
    first :
        (media : Media)
        → New media
        → (f : Slot) → f.is_key ≡ true
        → (rc : Rc)
        → Played (number f.pts_us + 1) (some ((media_input media (some (input_of f))).0 rc)) true
    next :
        (e : ℕ) (media : Media)
        → Played e (some media) true
        → (f : Slot) → (f.is_key ≡ true) ⊎ (number f.pts_us ≡ e)
        → (rc : Rc)
        → Played (number f.pts_us + 1) (some ((media_input media (some (input_of f))).0 rc)) true

  abbrev pub PlayedOn : ℕ → Known Media
  PlayedOn e o seen day = Played e o seen

  -- A frame that can be decoded after the last one keeps it so.
  pub Played-Carries :
      (e : ℕ) (f : Slot)
      → (f.is_key ≡ true) ⊎ (number f.pts_us ≡ e)
      → Carries media_input f (PlayedOn e) (PlayedOn (number f.pts_us + 1))
  Played-Carries e f follows = record {
    taken = λ k seen day. taken k seen;
    held = λ o seen day. held e o seen;
    muxer = λ seen day p. no_muxer e none seen p refl;
  }
    where
      no_muxer : (d : ℕ) (o : Option Media) (seen : Bool) → Played d o seen → o ≡ none → ⊥
      no_muxer _ _ _ (waiting d k n) e = cc
      no_muxer _ _ _ (first k n y key rc) e = cc
      no_muxer _ _ _ (next d k a y h rc) e = cc

      unfed :
          (d : ℕ) (o : Option Media) (seen : Bool)
          → Played d o seen
          → seen ≡ false
          → (k : Media) → o ≡ some k
          → New k
      unfed _ _ _ (waiting d j n) s k e = subst New (some-injective _ _ e) n
      unfed _ _ _ (first j n y key rc) s k e = absurd cc
      unfed _ _ _ (next d j a y h rc) s k e = absurd cc

      held :
          (d : ℕ) (o : Option Media) (seen : Bool)
          → (not seen && not f.is_key) ≡ true
          → Played d o seen
          → Played (number f.pts_us + 1) o seen
      held _ _ _ g (waiting d j n) = waiting (number f.pts_us + 1) j n
      held _ _ _ g (first j n y key rc) = absurd cc
      held _ _ _ g (next d j a y h rc) = absurd cc

      taken :
          (k : Media) (seen : Bool)
          → (not seen && not f.is_key) ≡ false
          → Played e (some k) seen
          → (rc : Rc)
          → Played (number f.pts_us + 1) (some ((media_input k (some (input_of f))).0 rc)) true
      taken k false g p rc =
          first k (unfed e (some k) false p refl k refl) f (affirmed f.is_key g) rc
      taken k true g p rc = next e k p f follows rc
