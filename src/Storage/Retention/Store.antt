-- ===== src/Storage/Retention/Store.antt =====
-- A table that answers the statements of src/storage_db.c on VideoMetadata: a list of days by date.
-- It has the meaning that `Storage.Retention.Engine` asks of the database.
use mathlib.Core.Option.{some-injective}
use montion_sense.Prelude.{
  ℕ, ◌≡◌, ◌≢◌, inl, inr, refl, sym, ap, subst, Bool, Bool-cases, true, false, not, ◌&&◌, ◌||◌,
  both_true, Option, none, some, List, [], ◌∷◌, same_bytes, same_bytes→eq, same_bytes_refl, if_elim,
  if◌then◌else◌,
}
use montion_sense.Storage.Sql.{
  Stmt, ensure_day, upsert_count, set_state, oldest_date, any_date, delete_day, DayState, active,
  pending, Answer, done, row, prepare_error, step_error, pragma_wal, pragma_full, pragma_normal,
  pragma_cache, create_metadata, create_segments, create_events, create_index, insert_segment,
  insert_event, set_total_frames,
}
use montion_sense.Storage.Retention.Engine.{
  Engine, Day, Table, inserted, counted, moved, same_state, effect, after, InState, sorts_before,
  Oldest,
}

-- What was written last for a date comes first; `none` is a day that was deleted.
abbrev pub Store : Type 0
Store = List (List ℕ × Option Day)

unfoldable pub lookup : Store → List ℕ → Option Day
lookup [] q = none
lookup ((d, o) ∷ s) q = let rest = lookup s q in if same_bytes d q then o else rest

abbrev pub alter : List ℕ → (Option Day → Option Day) → Store → Store
alter d f s = (d, f (lookup s d)) ∷ s

unfoldable pub first : (List ℕ → Bool) → Store → Option (List ℕ)
first p [] = none
first p ((d, o) ∷ s) = let rest = first p s in if p d then some d else rest

unfoldable pub all_dates : (List ℕ → Bool) → Store → Bool
all_dates p [] = true
all_dates p ((d, o) ∷ s) = p d && all_dates p s

abbrev state_is : DayState → Option Day → Bool
state_is st none = false
state_is st (some day) = same_state day.state st

abbrev candidate : Store → List ℕ → DayState → List ℕ → Bool
candidate s today st d = state_is st (lookup s d) && not (same_bytes d today)

abbrev is_oldest : Store → List ℕ → DayState → List ℕ → Bool
is_oldest s today st d =
    candidate s today st d && all_dates (λ e. not (candidate s today st e) || sorts_before d e) s

abbrev answer : Option (List ℕ) → Answer
answer none = done 0 0
answer (some d) = row (some d)

abbrev changed : Bool → Answer
changed b = done (if b then 1 else 0) 0

unfoldable pub run_store : Stmt → Store → Answer × Store
run_store (ensure_day d) s = (done 0 0, alter d inserted s)
run_store (upsert_count d n) s = (done 1 0, alter d (counted n) s)
run_store (set_state new d old) s = (changed (state_is old (lookup s d)), alter d (moved new old) s)
run_store (delete_day d) s = (done 0 0, alter d (λ _. none) s)
run_store (oldest_date today st) s = (answer (first (is_oldest s today st) s), s)
run_store (any_date st) s = (answer (first (λ d. state_is st (lookup s d)) s), s)
run_store _ s = (done 0 0, s)

lookup-alter :
    (d : List ℕ) (f : Option Day → Option Day) (s : Store) (q : List ℕ)
    → lookup (alter d f s) q ≡ (if same_bytes d q then f (lookup s q) else lookup s q)
unfolding lookup
lookup-alter d f s q =
    if_elim (λ o. o ≡ (if same_bytes d q then f (lookup s q) else lookup s q)) (same_bytes d q)
      (f (lookup s d)) (lookup s q) (λ e. rw e (ap (λ x. f (lookup s x)) (same_bytes→eq d q e)))
      (λ e. rw e refl)

first-holds : (p : List ℕ → Bool) (s : Store) (d : List ℕ) → first p s ≡ some d → p d ≡ true
unfolding first
first-holds p [] d = λ h. absurd cc
first-holds p ((e, o) ∷ s) d =
    if_elim (λ o. o ≡ some d → p d ≡ true) (p e) (some e) (first p s)
      (λ b h. subst (λ x. p x ≡ true) (some-injective _ _ h) b) (λ _. first-holds p s d)

all_dates-holds :
    (p : List ℕ → Bool) (s : Store) (q : List ℕ) (day : Day)
    → all_dates p s ≡ true
    → lookup s q ≡ some day
    → p q ≡ true
unfolding all_dates lookup
all_dates-holds p [] q day h = λ l. absurd cc
all_dates-holds p ((e, o) ∷ s) q day h =
    let (here, rest) = both_true (p e) (all_dates p s) h in
    if_elim (λ o. o ≡ some day → p q ≡ true) (same_bytes e q) o (lookup s q)
      (λ b _. subst (λ x. p x ≡ true) (same_bytes→eq e q b) here)
      (λ _. all_dates-holds p s q day rest)

same_state→eq : (a b : DayState) → same_state a b ≡ true → a ≡ b
same_state→eq active active h = refl
same_state→eq active pending h = absurd cc
same_state→eq pending active h = absurd cc
same_state→eq pending pending h = refl

same_state_refl : (a : DayState) → same_state a a ≡ true
same_state_refl active = refl
same_state_refl pending = refl

state_is-InState :
    (s : Store) (st : DayState) (d : List ℕ)
    → state_is st (lookup s d) ≡ true
    → InState (lookup s) st d
state_is-InState s st d = found (lookup s d) refl
  where
    found : (o : Option Day) → lookup s d ≡ o → state_is st o ≡ true → InState (lookup s) st d
    found none e h = absurd cc
    found (some day) e h = (day, e, same_state→eq day.state st h)

negated : (b : Bool) → not b ≡ true → b ≢ true
negated true h e = cc
negated false h e = cc

abbrev row_text : Answer → Option (List ℕ)
row_text (row text) = text
row_text (done changes rowid) = none
row_text prepare_error = none
row_text step_error = none

answer-row : (o : Option (List ℕ)) (d : List ℕ) → answer o ≡ row (some d) → o ≡ some d
answer-row none d h = absurd cc
answer-row (some e) d h = ap row_text h

answer_keeps :
    (o : Option (List ℕ)) (st : Stmt) (t : Table) (q : List ℕ)
    → effect st t q ≡ t q
    → t q ≡ after (answer o) st t q
unfolding after
answer_keeps none st t q e = sym e
answer_keeps (some d) st t q e = refl

pub store_runs :
    (st : Stmt) (s : Store) (q : List ℕ)
    → lookup (run_store st s).1 q ≡ after (run_store st s).0 st (lookup s) q
unfolding run_store after effect
store_runs (ensure_day d) s q = lookup-alter d inserted s q
store_runs (upsert_count d n) s q = lookup-alter d (counted n) s q
store_runs (set_state new d old) s q = lookup-alter d (moved new old) s q
store_runs (delete_day d) s q = lookup-alter d (λ _. none) s q
store_runs (oldest_date today st) s q = answer_keeps _ (oldest_date today st) (lookup s) q refl
store_runs (any_date st) s q = answer_keeps _ (any_date st) (lookup s) q refl
store_runs pragma_wal s q = refl
store_runs pragma_full s q = refl
store_runs pragma_normal s q = refl
store_runs pragma_cache s q = refl
store_runs create_metadata s q = refl
store_runs create_segments s q = refl
store_runs create_events s q = refl
store_runs create_index s q = refl
store_runs (insert_segment folder start_time) s q = refl
store_runs (insert_event video_id motion_frame) s q = refl
store_runs (set_total_frames frames segment) s q = refl

pub store_selects_any :
    (st : DayState) (s : Store) (d : List ℕ)
    → (run_store (any_date st) s).0 ≡ row (some d)
    → InState (lookup s) st d
unfolding run_store
store_selects_any st s d h =
    state_is-InState s st d (first-holds (λ d. state_is st (lookup s d)) s d (answer-row _ d h))

-- A date that is in the state and not today is a candidate.
InState-candidate :
    (s : Store) (today : List ℕ) (st : DayState) (e : List ℕ)
    → InState (lookup s) st e
    → e ≢ today
    → candidate s today st e ≡ true
InState-candidate s today st e (day, l, g) n = elim (Bool-cases (same_bytes e today)) [
  | inl b ↦ absurd (n (same_bytes→eq e today b))
  | inr b ↦ rw (l, b, g, same_state_refl st) refl
]

pub store_selects-Oldest :
    (today : List ℕ) (st : DayState) (s : Store) (d : List ℕ)
    → (run_store (oldest_date today st) s).0 ≡ row (some d)
    → Oldest (lookup s) today st d
unfolding run_store
store_selects-Oldest today st s d h =
    let p = first-holds (is_oldest s today st) s d (answer-row _ d h) in
    let (good, least) = both_true (candidate s today st d) _ p in
    let (in_state, other) = both_true (state_is st (lookup s d)) _ good in
    record {
      found = state_is-InState s st d in_state;
      not_today = λ e. negated (same_bytes d today) other (rw e (same_bytes_refl today));
      oldest = λ e (day, l, g) n.
          let k =
            all_dates-holds (λ e. not (candidate s today st e) || sorts_before d e) s e day least
              l in
          subst (λ b. (not b || sorts_before d e) ≡ true)
            (InState-candidate s today st e (day, l, g) n) k;
    }

-- The table keeps the database's contract.
unfoldable pub store_engine : Engine run_store
store_engine = record {
  table = lookup;
  runs = store_runs;
  selects_oldest = store_selects-Oldest;
  selects_any = store_selects_any;
}
