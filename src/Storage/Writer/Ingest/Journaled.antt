-- ===== src/Storage/Writer/Ingest/Journaled.antt =====
-- `ingest_frame` of src/storage.c against the rows of the day's database.
use mathlib.Core.Option.{some-injective}
use montion_sense.Prelude.{
  Rc, ℕ, ◌+◌, ◌<◌, ◌≤◌, ◌≡◌, refl, sym, ◌∙◌, subst, arith, Bool, false, Option, none, some, if_elim,
}
use montion_sense.Prelude.Int.{pos, ltb_ℤ, eq_ℤ}
use montion_sense.Config.{Config}
use montion_sense.Storage.Sql.{Stmt, insert_event, set_total_frames, Answer}
use montion_sense.Storage.EventDb.{event_db_add_motion, event_db_update_total_frames}
use montion_sense.Storage.EventDb.Journal.{Journal}
use montion_sense.Storage.EventDb.Rows.{
  Marked, raise, Total, after_set-Total, after_set-marks, after_event-totals, after_event-Marked,
}
use montion_sense.Storage.Writer.{Writer, Input, Segment}
use montion_sense.Storage.Writer.Ingest.{
  Moment, is_due, quotient, divides, count_motion, update_total, update_if, account,
}
use montion_sense.Storage.Writer.Ingest.Kept.{Kept, kept}

module _ {Db : Type 0} {run : Stmt → Db → Answer × Db} (journal : Journal run) where
  -- The open segment has its row, with a total that is not above the count of its frames; its motion
  -- rows are of its frames up to `last`, each above the one before it, and not more than have been counted.
  pub record Upto {Media : Type 0} (last : ℕ) (k : Kept Db Media) : Type 0 where
    pub db : Db
    pub open_db : k.event_db ≡ some db
    pub has_id : ltb_ℤ k.current_segment_id (pos 0) ≡ false
    pub total : Total k.frame_count (journal.totals db k.current_segment_id)
    pub marked : Marked last k.motion_count (journal.marks db k.current_segment_id)

  abbrev pub Journaled : {Media : Type 0} → Kept Db Media → Type 0
  Journaled k = Upto k.frame_count k

  module _ {Media Float : Type 0}
      (media_input : Media → Option Input → (Rc → Media) × Option Segment) (hls_duration : ℕ)
      (cfg : Config Float) where
    -- `event_db_add_motion` for the frame that is being written.
    add_motion-Upto :
        (before now : ℕ) (ws : Writer Db Media) (o : Option Db)
        → ws.event_db ≡ o
        → before < ws.frame_count
        → Upto before (kept ws)
        → Upto ws.frame_count (record (kept ws) {
          motion_count = ws.motion_count + 1;
          event_db = event_db_add_motion run o ws.current_segment_id (pos ws.frame_count);
          last_motion_ms = now;
        })
    unfolding event_db_add_motion
    add_motion-Upto before now ws none e lt u = let f = u.open_db in absurd cc
    add_motion-Upto before now ws (some db) e lt u =
        let id = ws.current_segment_id in
        let stmt = insert_event id (pos ws.frame_count) in
        let same : u.db ≡ db = some-injective _ _ (sym u.open_db ∙ e) in
        rw u.has_id (record {
          db = (run stmt db).1;
          open_db = refl;
          has_id = u.has_id;
          total =
              subst (Total ws.frame_count)
                (sym (
                  journal.totals_run stmt db id
                  ∙ after_event-totals (run stmt db).0 id (pos ws.frame_count) id
                      (journal.totals db)))
                (subst (λ d. Total ws.frame_count (journal.totals d id)) same u.total);
          marked =
              subst (Marked ws.frame_count (ws.motion_count + 1))
                (sym (journal.marks_run stmt db id))
                (after_event-Marked (run stmt db).0 before ws.frame_count ws.motion_count id
                  (journal.marks db) lt
                  (subst (λ d. Marked before ws.motion_count (journal.marks d id)) same u.marked));
        })

    raise-Upto : (before last : ℕ) (k : Kept Db Media) → before ≤ last → Upto before k → Upto last k
    raise-Upto before last k le u = record {
      db = u.db;
      open_db = u.open_db;
      has_id = u.has_id;
      total = u.total;
      marked = raise before last k.motion_count k.motion_count _ u.marked le (omega arith);
    }

    count_motion-Journaled :
        (before now : ℕ) (ws : Writer Db Media)
        → before < ws.frame_count
        → Upto before (kept ws)
        → Journaled (kept (count_motion media_input hls_duration run cfg now ws))
    unfolding count_motion
    count_motion-Journaled before now ws lt u =
        if_elim (λ (w : Writer Db Media). Journaled (kept w))
          (is_due now ws.last_motion_ms cfg.ivs.motion_debounce_ms) _ _
          (λ _. add_motion-Upto before now ws ws.event_db refl lt u)
          (λ _. raise-Upto before ws.frame_count (kept ws) (omega arith) u)

    -- `event_db_update_total_frames`
    set_total-Journaled :
        (ws : Writer Db Media) (o : Option Db)
        → ws.event_db ≡ o
        → Journaled (kept ws)
        → Upto ws.frame_count (record (kept ws) {
          event_db = event_db_update_total_frames run o ws.current_segment_id (pos ws.frame_count);
        })
    unfolding event_db_update_total_frames
    set_total-Journaled ws none e u = let f = u.open_db in absurd cc
    set_total-Journaled ws (some db) e u =
        let id = ws.current_segment_id in
        let stmt = set_total_frames (pos ws.frame_count) id in
        let same : u.db ≡ db = some-injective _ _ (sym u.open_db ∙ e) in
        rw u.has_id (record {
          db = (run stmt db).1;
          open_db = refl;
          has_id = u.has_id;
          total = subst (Total ws.frame_count) (sym (journal.totals_run stmt db id)) (
              after_set-Total (run stmt db).0 ws.frame_count ws.frame_count id (journal.totals db)
                (omega arith)
                (subst (λ d. Total ws.frame_count (journal.totals d id)) same u.total));
          marked =
              subst (Marked ws.frame_count ws.motion_count)
                (sym (
                  journal.marks_run stmt db id
                  ∙ after_set-marks (run stmt db).0 (pos ws.frame_count) id id (journal.marks db)))
                (subst (λ d. Marked ws.frame_count ws.motion_count (journal.marks d id)) same
                  u.marked);
        })

    update_total-Journaled :
        (ws : Writer Db Media)
        → Journaled (kept ws)
        → Journaled (kept (update_total media_input hls_duration run cfg ws))
    update_total-Journaled ws = set_total-Journaled ws ws.event_db refl

    -- What a frame leaves, where it is defined.
    abbrev pub JournaledIf : Option (Writer Db Media) → Type 0
    JournaledIf none = Unit {0}
    JournaledIf (some w) = Journaled (kept w)

    update_if-JournaledIf :
        (o : Option Bool) (ws : Writer Db Media)
        → Journaled (kept ws)
        → JournaledIf (update_if media_input hls_duration run cfg o ws)
    unfolding update_if
    update_if-JournaledIf none ws u = tt
    update_if-JournaledIf (some due) ws u =
        if_elim (λ (w : Writer Db Media). Journaled (kept w)) due _ _
          (λ _. update_total-Journaled ws u) (λ _. u)

    pub account-JournaledIf :
        (m : Moment Db Media) (before : ℕ) (ws : Writer Db Media)
        → before < ws.frame_count
        → Upto before (kept ws)
        → JournaledIf (account media_input hls_duration run cfg m ws)
    unfolding account
    account-JournaledIf m before ws lt u =
        let counted = count_motion media_input hls_duration run cfg m.now ws in
        if_elim JournaledIf (eq_ℤ m.current_fps cfg.ivs.fps_high) _ _
          (λ _.
            update_if-JournaledIf
              (divides (quotient cfg.ivs.fps_high cfg.ivs.fps_low) counted.frame_count) counted
              (count_motion-Journaled before m.now ws lt u))
          (λ _.
            update_total-Journaled ws (raise-Upto before ws.frame_count (kept ws) (omega arith) u))
