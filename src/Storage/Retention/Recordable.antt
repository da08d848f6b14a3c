-- ===== src/Storage/Retention/Recordable.antt =====
-- VideoMetadata of src/storage_db.c while a day is recorded: the count of its motion events is written.
use mathlib.Core.Option.{some-injective}
use montion_sense.Prelude.{
  ℕ, ◌≤◌, ◌≡◌, ◌≢◌, inl, inr, refl, sym, ◌∙◌, ap, subst, Option, none, some, List, same_bytes,
  same_bytes→eq, same_bytes_refl, Bool-cases, length,
}
use montion_sense.Prelude.Int.{ℤ}
use montion_sense.Storage.Sql.{upsert_count, pending, Answer, prepare_error, step_error, done, row}
use montion_sense.Storage.Retention.Engine.{Table, Day, InState, counted, after, effect}

module _ (date : List ℕ) where
  -- A table whose dates fit their buffer and where the day's deletion is not pending.
  pub record Recordable (t : Table) : Type 0 where
    pub dated : (q : List ℕ) → t q ≢ none → length q ≤ 15
    pub unscheduled : InState t pending date → ⊥

  counted-pending :
      (n : ℤ) (o : Option Day)
      → (day : Day) × (counted n o ≡ some day) × (day.state ≡ pending)
      → (day : Day) × (o ≡ some day) × (day.state ≡ pending)
  counted-pending n none (day, e, p) =
      let f = ap (λ (x : Day). x.state) (some-injective _ _ e) in absurd cc
  counted-pending n (some d) (day, e, p) =
      (d, refl, ap (λ (x : Day). x.state) (some-injective _ _ e) ∙ p)

  pub Recordable-same : (t u : Table) → ((q : List ℕ) → u q ≡ t q) → Recordable t → Recordable u
  Recordable-same t u same r = record {
    dated = λ q h. r.dated q (λ e. h (same q ∙ e));
    unscheduled = λ (day, e, p). r.unscheduled (day, sym (same date) ∙ e, p);
  }

  pub upsert-Recordable :
      (a : Answer) (n : ℤ) (t u : Table)
      → length date ≤ 15
      → ((q : List ℕ) → u q ≡ after a (upsert_count date n) t q)
      → Recordable t
      → Recordable u
  unfolding after effect
  upsert-Recordable prepare_error n t u short runs r = Recordable-same t u runs r
  upsert-Recordable step_error n t u short runs r = Recordable-same t u runs r
  upsert-Recordable (row text) n t u short runs r = Recordable-same t u runs r
  upsert-Recordable (done changes rowid) n t u short runs r = record {
    dated = λ q h. elim (Bool-cases (same_bytes date q)) [
      | inl b ↦ subst (λ x. length x ≤ 15) (same_bytes→eq date q b) short
      | inr b ↦ r.dated q (λ e. h (runs q ∙ rw b e))
    ];
    unscheduled = λ (day, e, p).
        let here : u date ≡ counted n (t date) = runs date ∙ rw (same_bytes_refl date) refl in
        r.unscheduled (counted-pending n (t date) (day, sym here ∙ e, p));
  }
