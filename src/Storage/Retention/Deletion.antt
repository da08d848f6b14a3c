-- ===== src/Storage/Retention/Deletion.antt =====
-- `retention_process_tasks` of src/storage_db.c: which files and which rows it may remove.
use montion_sense.Prelude.{
  ℕ, zero, suc, ◌≤◌, ◌≡◌, ◌≢◌, ◌⊎◌, inl, inr, refl, sym, subst, ◌∙◌, Bool, Bool-cases, false, none,
  some, some-ne-none, List, [], ◌∷◌, same_bytes, same_bytes→eq, same_bytes_refl, if_elim, length,
  take, take_all, Rc, ok, fail,
}
use montion_sense.Storage.Sql.{
  Stmt, any_date, delete_day, DayState, pending, Answer, prepare_error, step_error, done, row,
}
use montion_sense.Storage.Retention.{
  Card, task_date, remove_day, delete_row, delete_date, on_task, one_task, retention_process_tasks,
}
use montion_sense.Storage.Retention.Engine.{Engine, Table, InState, after, effect}

after-delete :
    (a : Answer) (d : List ℕ) (t : Table) (q : List ℕ)
    → (after a (delete_day d) t q ≡ t q) ⊎ ((d ≡ q) × (after a (delete_day d) t q ≡ none))
unfolding after effect
after-delete prepare_error d t q = inl refl
after-delete step_error d t q = inl refl
after-delete (row text) d t q = inl refl
after-delete (done changes rowid) d t q = elim (Bool-cases (same_bytes d q)) [
  | inl e ↦ inr (same_bytes→eq d q e, rw e refl)
  | inr e ↦ inl (rw e refl)
]

after-select :
    (a : Answer) (st : DayState) (t : Table) (q : List ℕ) → after a (any_date st) t q ≡ t q
unfolding after effect
after-select prepare_error st t q = refl
after-select step_error st t q = refl
after-select (row text) st t q = refl
after-select (done changes rowid) st t q = refl

remove_day-cases :
    (rc : Rc) (d : List ℕ) (present : List ℕ → Bool) (q : List ℕ)
    → (remove_day rc d present q ≡ present q) ⊎ ((d ≡ q) × (remove_day rc d present q ≡ false))
unfolding remove_day
remove_day-cases fail d present q = inl refl
remove_day-cases ok d present q = elim (Bool-cases (same_bytes d q)) [
  | inl e ↦ inr (same_bytes→eq d q e, rw e refl)
  | inr e ↦ inl (rw e refl)
]

removed : (d : List ℕ) (present : List ℕ → Bool) → remove_day ok d present d ≡ false
unfolding remove_day
removed d present = rw (same_bytes_refl d) refl

pub InState-row :
    (t u : Table) (st : DayState) (q : List ℕ) → t q ≡ u q → InState t st q → InState u st q
InState-row t u st q e (day, f, g) = (day, sym e ∙ f, g)

module _ {Db : Type 0} {run : Stmt → Db → Answer × Db} (engine : Engine run) where
  abbrev pub rows_of : Card Db → Table
  rows_of c = engine.table c.db

  -- Files go only from a day that is pending, and a row goes only from a pending day without files.
  pub record Safely (c c' : Card Db) : Type 0 where
    pub files :
        (q : List ℕ)
        → (c'.present q ≡ c.present q) ⊎ (InState (rows_of c) pending q × (c'.present q ≡ false))
    pub rows :
        (q : List ℕ)
        → (rows_of c' q ≡ rows_of c q)
          ⊎ (InState (rows_of c) pending q × (c'.present q ≡ false) × (rows_of c' q ≡ none))

  pub Safely-refl : (c : Card Db) → Safely c c
  Safely-refl c = record { files = λ q. inl refl; rows = λ q. inl refl }

  pub Safely-trans : (c d e : Card Db) → Safely c d → Safely d e → Safely c e
  Safely-trans c d e s t = record { files = files_both; rows = rows_both }
    where
      was_pending : (q : List ℕ) → InState (rows_of d) pending q → InState (rows_of c) pending q
      was_pending q p = elim (s.rows q) [
        | inl same ↦ InState-row (rows_of d) (rows_of c) pending q same p
        | inr gone ↦ gone.0
      ]

      files_both :
          (q : List ℕ)
          → (e.present q ≡ c.present q) ⊎ (InState (rows_of c) pending q × (e.present q ≡ false))
      files_both q = elim (t.files q) [
        | inr gone ↦ inr (was_pending q gone.0, gone.1)
        | inl same ↦ elim (s.files q) [
          | inl first ↦ inl (same ∙ first)
          | inr first ↦ inr (first.0, same ∙ first.1)
        ]
      ]

      no_files : (q : List ℕ) → d.present q ≡ false → e.present q ≡ false
      no_files q f = elim (t.files q) [ inl same ↦ same ∙ f | inr gone ↦ gone.1 ]

      rows_both :
          (q : List ℕ)
          → (rows_of e q ≡ rows_of c q)
            ⊎ (InState (rows_of c) pending q × (e.present q ≡ false) × (rows_of e q ≡ none))
      rows_both q = elim (t.rows q) [
        | inr gone ↦ inr (was_pending q gone.0, gone.1, gone.2)
        | inl same ↦ elim (s.rows q) [
          | inl first ↦ inl (same ∙ first)
          | inr first ↦ inr (first.0, no_files q first.1, same ∙ first.2)
        ]
      ]

  delete_row-Safely :
      (rc : Rc) (date : List ℕ) (c : Card Db)
      → InState (rows_of c) pending date
      → Safely c (delete_row run rc date (record c { present = remove_day rc date c.present })).1
  unfolding delete_row remove_day
  delete_row-Safely fail date c p = record { files = λ q. inl refl; rows = λ q. inl refl }
  delete_row-Safely ok date c p = record { files = files_of; rows = rows_left }
    where
      gone : List ℕ → Bool
      gone = remove_day ok date c.present

      files_of :
          (q : List ℕ) → (gone q ≡ c.present q) ⊎ (InState (rows_of c) pending q × (gone q ≡ false))
      files_of q = elim (remove_day-cases ok date c.present q) [
        | inl e ↦ inl e
        | inr r ↦ inr (subst (InState (rows_of c) pending) r.0 p, r.1)
      ]

      rows_left :
          (q : List ℕ)
          → (engine.table (run (delete_day date) c.db).1 q ≡ rows_of c q)
            ⊎ (InState (rows_of c) pending q
                × (gone q ≡ false)
                × (engine.table (run (delete_day date) c.db).1 q ≡ none))
      rows_left q =
          let e = engine.runs (delete_day date) c.db q in
          elim (after-delete (run (delete_day date) c.db).0 date (rows_of c) q) [
            | inl same ↦ inl (e ∙ same)
            | inr r ↦ inr (
              subst (InState (rows_of c) pending) r.0 p,
              subst (λ x. gone x ≡ false) r.0 (removed date c.present),
              e ∙ r.1,
            )
          ]

  delete_date-Safely :
      (removes : List ℕ → Rc) (date : List ℕ) (c : Card Db)
      → InState (rows_of c) pending date
      → Safely c (delete_date run removes date c).1
  unfolding delete_date
  delete_date-Safely removes [] c p = Safely-refl c
  delete_date-Safely removes (b ∷ bs) c p = delete_row-Safely (removes (b ∷ bs)) (b ∷ bs) c p

  -- The table's dates fit DATE_STR_SIZE, as those that the writer puts there do.
  abbrev pub Dated : Card Db → Type 0
  Dated c = (q : List ℕ) → rows_of c q ≢ none → length q ≤ 15

  pub Safely-Dated : (c c' : Card Db) → Safely c c' → Dated c → Dated c'
  Safely-Dated c c' s h q row_left = elim (s.rows q) [
    | inl same ↦ h q (λ e. row_left (same ∙ e))
    | inr gone ↦ absurd (row_left gone.2)
  ]

  InState-short :
      (c : Card Db) (q : List ℕ) → Dated c → InState (rows_of c) pending q → take 15 q ≡ q
  InState-short c q h (day, f, g) = take_all 15 q (h q (λ e. some-ne-none day (sym f ∙ e)))

  on_task-Safely :
      (removes : List ℕ → Rc) (a : Answer) (c : Card Db)
      → Dated c
      → ((q : List ℕ) → a ≡ row (some q) → InState (rows_of c) pending q)
      → Safely c (on_task run removes a c).1
  unfolding on_task task_date delete_date
  on_task-Safely removes prepare_error c h p = Safely-refl c
  on_task-Safely removes step_error c h p = Safely-refl c
  on_task-Safely removes (done changes rowid) c h p = Safely-refl c
  on_task-Safely removes (row none) c h p = Safely-refl c
  on_task-Safely removes (row (some text)) c h p = delete_date-Safely removes (take 15 text) c (
      subst (InState (rows_of c) pending) (sym (InState-short c text h (p text refl)))
        (p text refl))

  one_task-Safely :
      (removes : List ℕ → Rc) (c : Card Db) → Dated c → Safely c (one_task run removes c).1
  unfolding one_task
  one_task-Safely removes c h =
      let a = (run (any_date pending) c.db).0 in
      let c1 = record c { db = (run (any_date pending) c.db).1 } in
      let same : (q : List ℕ) → engine.table c1.db q ≡ rows_of c q =
        λ q. engine.runs (any_date pending) c.db q ∙ after-select a pending (rows_of c) q in
      let reads : Safely c c1 = record { files = λ q. inl refl; rows = λ q. inl (same q) } in
      Safely-trans c c1 (on_task run removes a c1).1 reads (
        on_task-Safely removes a c1 (Safely-Dated c c1 reads h) (λ q e.
          InState-row (rows_of c) (rows_of c1) pending q (sym (same q))
            (engine.selects_any pending c.db q e)))

  -- However many turns it takes and whatever fails on the way, `retention_process_tasks` removes only
  -- the files of days that are pending, and takes a day's row away only once its files are gone: a day
  -- that cannot be deleted stays pending. The database keeps the contract of `Engine`, and the dates of
  -- its table have at most 15 bytes.
  pub retention_process_tasks-Safely :
      (removes : List ℕ → Rc) (budget : ℕ) (c : Card Db)
      → Dated c
      → Safely c (retention_process_tasks run removes budget c)
  unfolding retention_process_tasks
  retention_process_tasks-Safely removes zero c h = Safely-refl c
  retention_process_tasks-Safely removes (suc budget) c h =
      let s = one_task-Safely removes c h in
      let c' = (one_task run removes c).1 in
      if_elim (Safely c) (one_task run removes c).0 _ _
        (λ _.
          Safely-trans c c' (retention_process_tasks run removes budget c') s
            (retention_process_tasks-Safely removes budget c' (Safely-Dated c c' s h)))
        (λ _. s)
