-- ===== src/Storage/Writer/Cleanup/Choice.antt =====
-- `check_and_cleanup` of src/storage.c: which days lose their files.
use montion_sense.Prelude.{
  ℕ, ◌<◌, ◌≡◌, ◌≢◌, ◌⊎◌, inl, inr, refl, sym, subst, ◌∙◌, Bool-cases, false, Option, none, some,
  some-ne-none, List, same_bytes, same_bytes→eq, same_bytes_refl, leb, arith, if_elim, take,
  take_all,
}
use montion_sense.Prelude.Int.{pos, ltb_ℤ}
use montion_sense.Config.{StorageCfg}
use montion_sense.Storage.Sql.{Stmt, oldest_date, set_state, active, pending, Answer, row}
use montion_sense.Storage.MetaDb.{date_of, meta_db_oldest_retention_candidate}
use montion_sense.Storage.Retention.{
  Card, retention_schedule_delete, retention_process_tasks, queued,
}
use montion_sense.Storage.Retention.Engine.{Engine, InState, Oldest, after}
use montion_sense.Storage.Retention.Deletion.{
  rows_of, Safely, Dated, Safely-Dated, InState-row, retention_process_tasks-Safely,
}
use montion_sense.Storage.Writer.Cleanup.{Space, with_scheduled, with_target, clean}
use montion_sense.Storage.Writer.Cleanup.Rows.{
  after-set_state, after-select, after-set_state_kept, date_of-row, row_left, one_state,
}

module _ {Db : Type 0} {run : Stmt → Db → Answer × Db} (engine : Engine run) (cfg : StorageCfg)
    (today : List ℕ) (space : Space) where
  -- A day loses its files when its deletion was pending, or when space is low and it is the oldest
  -- active day but today.
  abbrev pub Chosen : Card Db → List ℕ → Type 0
  Chosen c q =
      InState (rows_of engine c) pending q
      ⊎ ((space.free_mb < cfg.disk_free_min_mb) × Oldest (rows_of engine c) today active q)

  abbrev pub Cleaned : Card Db → Card Db → Type 0
  Cleaned c c' = (q : List ℕ) → (c'.present q ≡ c.present q) ⊎ (Chosen c q × (c'.present q ≡ false))

  pending_before :
      (c d : Card Db) (q : List ℕ)
      → Safely engine c d
      → InState (rows_of engine d) pending q
      → InState (rows_of engine c) pending q
  pending_before c d q s p = elim (s.rows q) [
    | inl same ↦ InState-row (rows_of engine d) (rows_of engine c) pending q same p
    | inr gone ↦ gone.0
  ]

  active_after :
      (c d : Card Db) (q : List ℕ)
      → Safely engine c d
      → InState (rows_of engine c) active q
      → InState (rows_of engine d) active q
  active_after c d q s p = elim (s.rows q) [
    | inl same ↦ InState-row (rows_of engine c) (rows_of engine d) active q (sym same) p
    | inr gone ↦ absurd (one_state (rows_of engine c q) p gone.0)
  ]

  active_before :
      (c d : Card Db) (q : List ℕ)
      → Safely engine c d
      → InState (rows_of engine d) active q
      → InState (rows_of engine c) active q
  active_before c d q s p = elim (s.rows q) [
    | inl same ↦ InState-row (rows_of engine d) (rows_of engine c) active q same p
    | inr gone ↦ absurd (some-ne-none p.0 (sym p.1 ∙ gone.2))
  ]

  -- The candidate of a card that is safely processed was the oldest day of the card before.
  Oldest-before :
      (c d : Card Db) (q : List ℕ)
      → Safely engine c d
      → Oldest (rows_of engine d) today active q
      → Oldest (rows_of engine c) today active q
  Oldest-before c d q s o = record {
    found = active_before c d q s o.found;
    not_today = o.not_today;
    oldest = λ e p n. o.oldest e (active_after c d e s p) n;
  }

  Safely-Cleaned : (c d : Card Db) → Safely engine c d → Cleaned c d
  Safely-Cleaned c d s q = elim (s.files q) [
    | inl same ↦ inl same
    | inr gone ↦ inr (inl gone.0, gone.1)
  ]

  module _ (c d : Card Db) (s : Safely engine c d)
      (low : space.free_mb < cfg.disk_free_min_mb) where
    -- The target is scheduled and processed.
    with_scheduled-Cleaned :
        (db : Db) (target : List ℕ)
        → ((q : List ℕ) → engine.table db q ≡ rows_of engine d q)
        → Dated engine d
        → Oldest (rows_of engine d) today active target
        → Cleaned c (
            with_scheduled run space
              (retention_schedule_delete run db target)
              (record d { db = db }))
    unfolding with_scheduled retention_schedule_delete
    with_scheduled-Cleaned db target same dated o =
        if_elim (Cleaned c) (ltb_ℤ (queued a) (pos 0)) _ _ (λ _. Safely-Cleaned c d s)
          (λ _ q. elim (processed.files q) [
            | inl kept ↦ elim (s.files q) [
              | inl first ↦ inl (kept ∙ first)
              | inr gone ↦ inr (inl gone.0, kept ∙ gone.1)
            ]
            | inr gone ↦ inr (chosen q gone.0, gone.1)
          ])
      where
        a : Answer
        a = (run (set_state pending target active) db).0

        stopped : Card Db
        stopped = record d { db = (run (set_state pending target active) db).1 }

        runs :
            (q : List ℕ)
            → rows_of engine stopped q
              ≡ after a (set_state pending target active) (engine.table db) q
        runs q = engine.runs (set_state pending target active) db q

        stopped-Dated : Dated engine stopped
        stopped-Dated q h = dated q (λ e.
            after-set_state_kept a target (engine.table db) q (λ n. h (runs q ∙ n)) (same q ∙ e))

        processed :
            Safely engine stopped (retention_process_tasks run space.removes_second 1 stopped)
        processed =
            retention_process_tasks-Safely engine space.removes_second 1 stopped stopped-Dated

        other : (q : List ℕ) → same_bytes target q ≡ false → target ≢ q
        other q b e =
            let h : same_bytes target target ≡ false =
              subst (λ x. same_bytes target x ≡ false) (sym e) b in
            let r = same_bytes_refl target in cc

        chosen : (q : List ℕ) → InState (rows_of engine stopped) pending q → Chosen c q
        chosen q p = elim (Bool-cases (same_bytes target q)) [
          | inl b ↦ inr (
            low,
            subst (Oldest (rows_of engine c) today active) (same_bytes→eq target q b)
                (Oldest-before c d target s o),
          )
          | inr b ↦ inl (
              pending_before c d q s (
                InState-row (rows_of engine stopped) (rows_of engine d) pending q
                  (runs q ∙ after-set_state a target (engine.table db) q (other q b) ∙ same q) p))
        ]

    with_target-Cleaned :
        (a : Answer) (db : Db)
        → ((q : List ℕ) → engine.table db q ≡ rows_of engine d q)
        → Dated engine d
        → ((e : List ℕ) → a ≡ row (some e) → Oldest (rows_of engine d) today active e)
        → Cleaned c (with_target run space (date_of a) (record d { db = db }))
    unfolding with_target
    with_target-Cleaned a db same dated o = on_date (date_of a) (date_of-row a)
      where
        on_date :
            (t : Option (List ℕ))
            → ((target : List ℕ)
                → t ≡ some target
                → (e : List ℕ) × (a ≡ row (some e)) × (target ≡ take 15 e))
            → Cleaned c (with_target run space t (record d { db = db }))
        on_date none found = Safely-Cleaned c d s
        on_date (some target) found =
            let (e, is_row, cut) = found target refl in
            let whole =
              take_all 15 e (dated e (row_left (rows_of engine d e) (o e is_row).found)) in
            with_scheduled-Cleaned db target same dated
              (subst (Oldest (rows_of engine d) today active) (sym (cut ∙ whole)) (o e is_row))

  -- A clean-up removes only the files of days whose deletion was pending, and, when less than the
  -- configured space is free, those of the oldest active day that is not today. The database keeps the
  -- contract of `Storage.Retention.Engine`, and the dates of its table have at most 15 bytes.
  pub clean-Cleaned : (c : Card Db) → Dated engine c → Cleaned c (clean run cfg today space c)
  unfolding clean meta_db_oldest_retention_candidate
  clean-Cleaned c dated =
      let d = retention_process_tasks run space.removes_first 1 c in
      let s = retention_process_tasks-Safely engine space.removes_first 1 c dated in
      let a = (run (oldest_date today active) d.db).0 in
      if_elim (Cleaned c) (leb cfg.disk_free_min_mb space.free_mb) _ _ (λ _. Safely-Cleaned c d s)
        (λ b.
          with_target-Cleaned c d s (ground arith) a (run (oldest_date today active) d.db).1
            (λ q.
              engine.runs (oldest_date today active) d.db q
              ∙ after-select a today active (rows_of engine d) q)
            (Safely-Dated engine c d s dated) (λ e. engine.selects_oldest today active d.db e))
