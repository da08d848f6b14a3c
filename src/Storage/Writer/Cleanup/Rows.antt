-- ===== src/Storage/Writer/Cleanup/Rows.antt =====
-- `check_and_cleanup` of src/storage.c: what its statements leave of the table.
use mathlib.Core.Option.{some-injective}
use montion_sense.Prelude.{
  ℕ, ◌≡◌, ◌≢◌, refl, sym, ap, ◌∙◌, Option, none, some, some-ne-none, List, same_bytes,
  same_bytes→eq, if_elim, take,
}
use montion_sense.Storage.Sql.{
  oldest_date, set_state, DayState, active, pending, Answer, prepare_error, step_error, done, row,
}
use montion_sense.Storage.MetaDb.{date_of}
use montion_sense.Storage.Retention.Engine.{Table, Day, moved, after, effect}

-- Only the row of the date that is scheduled changes, and no row goes.
pub after-set_state :
    (a : Answer) (d : List ℕ) (t : Table) (q : List ℕ)
    → d ≢ q
    → after a (set_state pending d active) t q ≡ t q
unfolding after effect
after-set_state prepare_error d t q n = refl
after-set_state step_error d t q n = refl
after-set_state (row text) d t q n = refl
after-set_state (done changes rowid) d t q n =
    if_elim (λ o. o ≡ t q) (same_bytes d q) _ _ (λ b. absurd (n (same_bytes→eq d q b))) (λ _. refl)

pub after-select :
    (a : Answer) (today : List ℕ) (st : DayState) (t : Table) (q : List ℕ)
    → after a (oldest_date today st) t q ≡ t q
unfolding after effect
after-select prepare_error today st t q = refl
after-select step_error today st t q = refl
after-select (row text) today st t q = refl
after-select (done changes rowid) today st t q = refl

pub moved-none : (o : Option Day) → moved pending active o ≢ none → o ≢ none
moved-none none h e = h refl
moved-none (some day) h e = cc

pub after-set_state_kept :
    (a : Answer) (d : List ℕ) (t : Table) (q : List ℕ)
    → after a (set_state pending d active) t q ≢ none
    → t q ≢ none
unfolding after effect
after-set_state_kept prepare_error d t q = λ h. h
after-set_state_kept step_error d t q = λ h. h
after-set_state_kept (row text) d t q = λ h. h
after-set_state_kept (done changes rowid) d t q =
    if_elim (λ o. o ≢ none → t q ≢ none) (same_bytes d q) _ _ (λ _. moved-none (t q)) (λ _ h. h)

-- A column's text that fits the buffer is the date that is read.
pub date_of-row :
    (a : Answer) (d : List ℕ)
    → date_of a ≡ some d
    → (e : List ℕ) × (a ≡ row (some e)) × (d ≡ take 15 e)
unfolding date_of
date_of-row prepare_error d h = absurd cc
date_of-row step_error d h = absurd cc
date_of-row (done changes rowid) d h = absurd cc
date_of-row (row none) d h = absurd cc
date_of-row (row (some e)) d h = (e, refl, sym (some-injective _ _ h))

pub row_left :
    (o : Option Day) {st : DayState} → (d : Day) × (o ≡ some d) × (d.state ≡ st) → o ≢ none
row_left o (d, e, f) n = some-ne-none d (sym e ∙ n)

-- A row has one state.
pub one_state :
    (o : Option Day)
    → (d : Day) × (o ≡ some d) × (d.state ≡ active)
    → (d : Day) × (o ≡ some d) × (d.state ≡ pending)
    → ⊥
one_state o (d, e, f) (d', e', f') =
    let same : d ≡ d' = some-injective _ _ (sym e ∙ e') in
    let h : active ≡ pending = sym f ∙ ap (λ (x : Day). x.state) same ∙ f' in cc
