-- ===== src/Storage/Writer/Ingest/Gate.antt =====
-- src/storage.c: what of the writer decides whether a frame is written, and what leaves it alone.
use mathlib.Core.Option.{some-injective}
use montion_sense.Prelude.{
  Rc, ℕ, zero, suc, ◌%◌, ◌≡◌, refl, ◌∙◌, arith, Bool, Option, none, some, ◌==◌, if_elim,
}
use montion_sense.Prelude.Int.{eq_ℤ}
use montion_sense.Config.{Config}
use montion_sense.Storage.Sql.{Stmt, Answer}
use montion_sense.Storage.Writer.{Writer, Input, Segment}
use montion_sense.Storage.Writer.Ingest.Kept.{Kept}
use montion_sense.Storage.Writer.Ingest.{
  Moment, quotient, divides, count_motion, update_if, account,
}

-- The muxer, whether it has had a keyframe, and the day.
abbrev pub gate_of : {Db Media : Type 0} → Writer Db Media → Option Media × Bool × ℕ
gate_of ws = (ws.hls, ws.seen_keyframe, ws.day_of_year)

abbrev pub kept_gate : {Db Media : Type 0} → Kept Db Media → Option Media × Bool × ℕ
kept_gate k = (k.hls, k.seen_keyframe, k.day_of_year)

module _ {Db Media Float : Type 0}
    (media_input : Media → Option Input → (Rc → Media) × Option Segment) (hls_duration : ℕ)
    (run : Stmt → Db → Answer × Db) (cfg : Config Float) where
  count_motion-gate :
      (now : ℕ) (ws : Writer Db Media)
      → gate_of (count_motion media_input hls_duration run cfg now ws) ≡ gate_of ws
  unfolding count_motion
  count_motion-gate now ws =
      if_elim (λ (w : Writer Db Media). gate_of w ≡ gate_of ws) _ _ _ (λ _. refl) (λ _. refl)

  abbrev pub Keeps : Writer Db Media → Option (Writer Db Media) → Type 0
  Keeps ws none = ⊥
  Keeps ws (some w) = gate_of w ≡ gate_of ws

  Keeps-via :
      (v w : Writer Db Media) (o : Option (Writer Db Media))
      → gate_of v ≡ gate_of w
      → Keeps v o
      → Keeps w o
  Keeps-via v w none e k = k
  Keeps-via v w (some u) e k = k ∙ e

  update_if-Keeps :
      (o : Option ℕ) (r n : ℕ) (ws : Writer Db Media)
      → o ≡ some (suc r)
      → Keeps ws (update_if media_input hls_duration run cfg (divides o n) ws)
  unfolding update_if divides
  update_if-Keeps none r n ws e = absurd cc
  update_if-Keeps (some zero) r n ws e = absurd (omega (arith, some-injective _ _ e))
  update_if-Keeps (some (suc r')) r n ws e =
      if_elim (λ (w : Writer Db Media). gate_of w ≡ gate_of ws) (n % suc r' == 0) _ _ (λ _. refl)
        (λ _. refl)

  module _ (r : ℕ) (ratio : quotient cfg.ivs.fps_high cfg.ivs.fps_low ≡ some (suc r)) where
    pub account-Keeps :
        (m : Moment Db Media) (ws : Writer Db Media)
        → Keeps ws (account media_input hls_duration run cfg m ws)
    unfolding account
    account-Keeps m ws =
        let counted = count_motion media_input hls_duration run cfg m.now ws in
        if_elim (Keeps ws) (eq_ℤ m.current_fps cfg.ivs.fps_high) _ _
          (λ _. Keeps-via counted ws _ (count_motion-gate m.now ws) (
            update_if-Keeps (quotient cfg.ivs.fps_high cfg.ivs.fps_low) r counted.frame_count
              counted ratio))
          (λ _. refl)
