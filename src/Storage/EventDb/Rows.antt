-- ===== src/Storage/EventDb/Rows.antt =====
-- The rows of a segment in the database of src/storage_db.c: how its statements change them.
use montion_sense.Prelude.{
  ℕ, ◌+◌, ◌<◌, ◌≤◌, ◌≡◌, ◌⊎◌, inl, inr, refl, arith, Option, none, some, List, [], ◌∷◌, ◌++◌,
  if_elim,
}
use montion_sense.Prelude.Int.{ℤ, pos, negsuc, eq_ℤ}
use montion_sense.Storage.Sql.{
  insert_event, set_total_frames, Answer, prepare_error, step_error, done, row,
}
use montion_sense.Storage.EventDb.Journal.{Totals, Marks, replaced, totals_after, marks_after}

-- At most `count` numbers of frames, each above the one before it, and none above `frames`.
pub data Marked : ℕ → ℕ → List ℤ → Type 0 where
  no_marks : (frames count : ℕ) → Marked frames count []
  one_more :
      (before frames count count' : ℕ) (ns : List ℤ)
      → Marked before count ns
      → (n : ℕ) → before < n
      → n ≤ frames
      → count < count'
      → Marked frames count' (ns ++ pos n ∷ [])

pub raise :
    (frames frames' count count' : ℕ) (ns : List ℤ)
    → Marked frames count ns
    → frames ≤ frames'
    → count ≤ count'
    → Marked frames' count' ns
raise _ frames' _ count' _ (no_marks f c) le more = no_marks frames' count'
raise _ frames' _ count' _ (one_more b f c c' ns m n low high few) le more =
    one_more b frames' c count' ns m n low (omega arith) (omega arith)

-- The column total_frames: not set yet, or a number of frames that have been written.
abbrev pub Total : ℕ → Option ℤ → Type 0
Total frames none = ⊥
Total frames (some t) = (t ≡ negsuc 0) ⊎ ((n : ℕ) × (t ≡ pos n) × (n ≤ frames))

pub raise-Total :
    (frames frames' : ℕ) (o : Option ℤ) → Total frames o → frames ≤ frames' → Total frames' o
raise-Total f f' none t le = t
raise-Total f f' (some t) (inl e) le = inl e
raise-Total f f' (some t) (inr (n, e, h)) le = inr (n, e, omega arith)

pub after_set-Total :
    (a : Answer) (n frames : ℕ) (id : ℤ) (t : Totals)
    → n ≤ frames
    → Total frames (t id)
    → Total frames (totals_after a (set_total_frames (pos n) id) t id)
unfolding totals_after
after_set-Total prepare_error n frames id t le h = h
after_set-Total step_error n frames id t le h = h
after_set-Total (row text) n frames id t le h = h
after_set-Total (done changes rowid) n frames id t le h =
    if_elim (Total frames) (eq_ℤ id id) _ _ (λ _. set (t id) h) (λ _. h)
  where
    set : (o : Option ℤ) → Total frames o → Total frames (replaced (pos n) o)
    set none h = h
    set (some x) h = inr (n, refl, le)

pub after_set-marks :
    (a : Answer) (n id i : ℤ) (t : Marks) → marks_after a (set_total_frames n id) t i ≡ t i
unfolding marks_after
after_set-marks prepare_error n id i t = refl
after_set-marks step_error n id i t = refl
after_set-marks (row text) n id i t = refl
after_set-marks (done changes rowid) n id i t = refl

pub after_event-totals :
    (a : Answer) (v n i : ℤ) (t : Totals) → totals_after a (insert_event v n) t i ≡ t i
unfolding totals_after
after_event-totals prepare_error v n i t = refl
after_event-totals step_error v n i t = refl
after_event-totals (row text) v n i t = refl
after_event-totals (done changes rowid) v n i t = refl

pub after_event-Marked :
    (a : Answer) (before n count : ℕ) (id : ℤ) (t : Marks)
    → before < n
    → Marked before count (t id)
    → Marked n (count + 1) (marks_after a (insert_event id (pos n)) t id)
unfolding marks_after
after_event-Marked prepare_error before n count id t lt m =
    raise before n count (count + 1) _ m (omega arith) (omega arith)
after_event-Marked step_error before n count id t lt m =
    raise before n count (count + 1) _ m (omega arith) (omega arith)
after_event-Marked (row text) before n count id t lt m =
    raise before n count (count + 1) _ m (omega arith) (omega arith)
after_event-Marked (done changes rowid) before n count id t lt m =
    if_elim (Marked n (count + 1)) (eq_ℤ id id) _ _
      (λ _. one_more before n count (count + 1) (t id) m n lt (omega arith) (omega arith))
      (λ _. raise before n count (count + 1) _ m (omega arith) (omega arith))
