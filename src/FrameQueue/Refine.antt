-- ===== src/FrameQueue/Refine.antt =====
-- The frame queue implements `Feed`: no sequence of calls tells them apart.
use native.Mathlib.Nat.{mod-add-mod}
use montion_sense.Prelude.{
  ℕ, zero, suc, ◌+◌, ◌-◌, ◌%◌, ◌^◌, ◌≤◌, ◌<◌, ◌≡◌, refl, sym, ◌∙◌, ap, ap₂, ◌⊎◌, true, false, not,
  ◌&&◌, List, [], ◌∷◌, ◌++◌, arith, ltb, ◌==◌, if◌then◌else◌, if_elim, length, drop, add_size,
}
use montion_sense.FrameQueue.{
  Slot, Popped, FrameQueue, slot_at, drop_oldest, drop_loop, drop_frames, admit, push_locked,
  take_head, pop_locked, failed, blocked, frame,
}
use montion_sense.FrameQueue.Invariant.{IsValid, Shape, drop_oldest-IsValid}
use montion_sense.FrameQueue.Dropping.{drop_oldest-count, drop_frames-Dropped}
use montion_sense.FrameQueue.Calls.{push_cases, flags-IsValid}
use montion_sense.FrameQueue.Items.{
  items, length-items, items_head, drop_oldest-items, take_head-items, admit-items,
}
use montion_sense.FrameQueue.Feed.{
  Feed, Feed_path, from_key, shed, push_item, pop_item, push_item-shut, push_item-refused,
  push_item-full, push_item-room, pop_item-empty, pop_item-frame,
}

abbrev pub view : FrameQueue → Feed
view q = record {
  items = items q;
  capacity = q.capacity;
  dropped = q.dropped;
  is_closed = q.closed;
  dropping = q.dropping;
}

add_size_twice : (d n : ℕ) → add_size (add_size d 1) n ≡ add_size d (n + 1)
add_size_twice d n = rw mod-add-mod (ap (λ k. k % 2 ^ 32) (omega arith))

length-from_key-le : (xs : List Slot) → length (from_key xs) ≤ length xs
length-from_key-le [] = omega arith
length-from_key-le (x ∷ xs) = ground (arith, length-from_key-le xs)

length-shed-le : (xs : List Slot) → length (shed xs) ≤ length xs - 1
length-shed-le [] = omega arith
length-shed-le (x ∷ xs) = omega (arith, length-from_key-le xs)

add_size_fewer :
    (d c l : ℕ) → l ≤ c - 1 → 0 < c → add_size (add_size d 1) (c - 1 - l) ≡ add_size d (c - l)
add_size_fewer d c l h p = add_size_twice d (c - 1 - l) ∙ ap (add_size d) (omega arith)

drop_oldest-dropped : (q : FrameQueue) → (drop_oldest q).dropped ≡ add_size q.dropped 1
unfolding drop_oldest
drop_oldest-dropped q = refl

-- A stopped loop leaves the frames from the first keyframe on.
from_key_stop :
    {p : FrameQueue}
    → Shape p
    → ((slot_at p p.head).is_key ≡ true) ⊎ (p.count ≡ 0)
    → from_key (items p) ≡ items p
from_key_stop {p} v h = split p.count refl
  where
    by_key :
        (slot_at p p.head).is_key ≡ true
        → from_key (slot_at p p.head ∷ drop 1 (items p)) ≡ slot_at p p.head ∷ drop 1 (items p)
    by_key key = rw key

    split : (n : ℕ) → p.count ≡ n → from_key (items p) ≡ items p
    split zero e = rw e
    split (suc n) e = rw (items_head v (omega arith)) (by_key (ground arith))

-- A head that is no keyframe goes too.
from_key_more :
    {p : FrameQueue}
    → Shape p
    → 0 < p.count
    → (slot_at p p.head).is_key ≡ false
    → from_key (items p) ≡ from_key (drop 1 (items p))
from_key_more {p} v c e = rw (items_head v c, e)

-- What the loop sheds, and how many frames it counts as dropped.
drop_loop-items :
    (fuel : ℕ) (q : FrameQueue)
    → fuel ≡ q.count
    → 0 < q.count
    → IsValid q
    → (items (drop_loop fuel q) ≡ shed (items q))
      × ((drop_loop fuel q).dropped ≡ add_size q.dropped (q.count - length (shed (items q))))
unfolding drop_loop
drop_loop-items zero q e c v = absurd (omega arith)
drop_loop-items (suc fuel) q e c v =
    if_elim
      (λ r.
        (items r ≡ shed (items q))
        × (r.dropped ≡ add_size q.dropped (q.count - length (shed (items q)))))
      (not (slot_at p p.head).is_key && ltb 0 p.count) (drop_loop fuel p) p
      (λ t.
        let more = from_key_more valid.shape (ground arith) (ground arith) in
        let (same, counted) =
          drop_loop-items fuel p (omega (arith, drop_oldest-count q)) (ground arith) valid in
        (
          same ∙ sym more ∙ sym shed_rest,
          counted
              ∙ ap₂ (λ a b. add_size a (b - length (shed (items p)))) (drop_oldest-dropped q)
                  (drop_oldest-count q)
              ∙ add_size_fewer q.dropped q.count (length (shed (items p)))
                  (omega (arith, length-shed-le (items p), length-items p, drop_oldest-count q)) c
              ∙ ap (λ xs. add_size q.dropped (q.count - length xs)) (sym more ∙ sym shed_rest),
        ))
      (λ t.
        let stopped = from_key_stop valid.shape (ground arith) in
        (
          sym stopped ∙ sym shed_rest,
          drop_oldest-dropped q
              ∙ ap (add_size q.dropped) (
                  omega
                    (arith, ap length (shed_rest ∙ stopped), length-items p, drop_oldest-count q)),
        ))
  where
    p : FrameQueue
    p = drop_oldest q

    valid : IsValid p
    valid = drop_oldest-IsValid v c

    shed_rest : shed (items q) ≡ from_key (items p)
    shed_rest = ap from_key (sym (drop_oldest-items v.shape c))

frames-items :
    {q : FrameQueue}
    → IsValid q
    → 0 < q.count
    → (items (drop_frames q) ≡ shed (items q))
      × ((drop_frames q).dropped ≡ add_size q.dropped (q.count - length (shed (items q))))
unfolding drop_frames
frames-items {q} v c =
    if_elim
      (λ r.
        (items r ≡ shed (items q))
        × (r.dropped ≡ add_size q.dropped (q.count - length (shed (items q)))))
      (q.count == 0) _ _ (λ z. absurd (ground arith))
      (λ _.
        drop_loop-items q.count (record q { dropping = true }) refl c
          (flags-IsValid q.closed true q.dropped v))

-- Where each field of a view stands after the stores of `fq_push`.
admit-view :
    (p : FrameQueue) (s : Slot)
    → Shape p
    → p.count < p.capacity
    → view (admit p s) ≡ record (view p) { items = items p ++ s ∷ [] }
unfolding admit
admit-view p s v room = Feed_path _ _ (admit-items s v room) refl refl refl refl

-- `fq_push` behind its lock does to the frames what `push_item` does to the list.
pub push_refines :
    {q : FrameQueue} (s : Slot) → IsValid q → view (push_locked q s) ≡ push_item (view q) s
push_refines {q} s v =
    push_cases (λ p. view p ≡ push_item (view q) s) q s (λ c. sym (push_item-shut (view q) s c))
      (λ c d k. sym (push_item-refused (view q) s c d k))
      (λ c d f.
        full (rw f v.shape.positive) f ∙ sym (push_item-full (view q) s c d (length-items q ∙ f)))
      (λ c d f.
        admit-view (record q { dropping = false }) s calm.shape (omega arith)
        ∙ sym (push_item-room (view q) s c d (λ e. f (sym (length-items q) ∙ e))))
  where
    calm : IsValid (record q { dropping = false })
    calm = flags-IsValid q.closed false q.dropped v

    full :
        0 < q.count
        → q.count ≡ q.capacity
        → view (admit (drop_frames (record q { dropping = false })) s) ≡ record (view q) {
          items = shed (items q) ++ s ∷ [];
          dropped = add_size q.dropped (length (items q) - length (shed (items q)));
          dropping = true;
        }
    full c f =
        let d = drop_frames-Dropped calm c in
        let (same, counted) = frames-items calm c in
        admit-view (drop_frames (record q { dropping = false })) s d.valid.shape
          (omega (arith, d.fewer, d.same_capacity))
        ∙ Feed_path _ _ (ap (λ (xs : List Slot). xs ++ s ∷ []) same) d.same_capacity
            (counted
              ∙ ap (λ n. add_size q.dropped (n - length (shed (items q)))) (sym (length-items q)))
            d.same_closed d.same_dropping

-- `fq_pop` behind its lock replies as `pop_item` does, and leaves the same frames.
pub pop_refines :
    {q : FrameQueue} → IsValid q → ((pop_locked q).0, view (pop_locked q).1) ≡ pop_item (view q)
unfolding pop_locked take_head
pop_refines {q} v =
    if_elim (λ (r : Popped × FrameQueue). (r.0, view r.1) ≡ pop_item (view q))
      (q.count == 0 && not q.closed) _ _ (λ t. empty_reply (ground arith) blocked (ground arith))
      (λ t.
        if_elim (λ (r : Popped × FrameQueue). (r.0, view r.1) ≡ pop_item (view q)) (q.count == 0) _
          _ (λ z. empty_reply (ground arith) failed (ground arith))
          (λ z. head_reply (ground arith)))
  where
    none_held : q.count ≡ 0 → items q ≡ []
    none_held e = rw e

    empty_reply :
        q.count ≡ 0
        → (r : Popped) → (if q.closed then failed else blocked) ≡ r
        → (r, view q) ≡ pop_item (view q)
    empty_reply e r h = sym (pop_item-empty (view q) (none_held e) ∙ ap (λ a. (a, view q)) h)

    head_reply : 0 < q.count → (frame (slot_at q q.head), view (take_head q)) ≡ pop_item (view q)
    head_reply c =
        ap (λ (g : Feed). (frame (slot_at q q.head), g))
          (Feed_path _ _ (take_head-items v.shape c) refl refl refl refl)
        ∙ sym (pop_item-frame (view q) _ _ (items_head v.shape c))
