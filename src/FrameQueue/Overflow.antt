-- ===== src/FrameQueue/Overflow.antt =====
-- What an overflow of the frame queue of src/frame_queue.c costs.
use montion_sense.Prelude.{
  ℕ, ◌-◌, ◌≡◌, refl, ◌∙◌, ap, subst, ◌≢◌, inl, inr, true, false, none, List, [], ◌∷◌, ◌++◌, arith,
  length, add_size,
}
use montion_sense.FrameQueue.{Slot, FrameQueue, push_locked}
use montion_sense.FrameQueue.Invariant.{IsValid}
use montion_sense.FrameQueue.Calls.{push_locked-IsValid}
use montion_sense.FrameQueue.Feed.{Feed, shed, push_item-refused, push_item-full}
use montion_sense.FrameQueue.Items.{items, length-items}
use montion_sense.FrameQueue.Linked.{Linked}
use montion_sense.FrameQueue.Refine.{view, push_refines}

-- Frames that arrive one after another.
abbrev pub push_frames : FrameQueue → List Slot → FrameQueue
push_frames q [] = q
push_frames q (t ∷ ts) = push_frames (push_locked q t) ts

abbrev pub NoneIsKey : List Slot → Type 0
NoneIsKey [] = Unit {0}
NoneIsKey (t ∷ ts) = (t.is_key ≡ false) × NoneIsKey ts

abbrev pub AllFilled : List Slot → Type 0
AllFilled [] = Unit {0}
AllFilled (t ∷ ts) = (t.bytes ≢ none) × AllFilled ts

-- A queue that refuses frames refuses all up to the next keyframe, and counts them.
push_frames-refused :
    (ts : List Slot) {q : FrameQueue}
    → IsValid q
    → q.closed ≡ false
    → q.dropping ≡ true
    → NoneIsKey ts
    → AllFilled ts
    → (items (push_frames q ts) ≡ items q) × ((push_frames q ts).dropping ≡ true)
push_frames-refused [] v o d ks bs = (refl, d)
push_frames-refused (t ∷ ts) {q} v o d (k, ks) (b, bs) =
    let same : view (push_locked q t) ≡ record (view q) { dropped = add_size q.dropped 1 } =
      push_refines t v ∙ push_item-refused (view q) t o d k in
    let more =
      push_frames-refused ts (push_locked-IsValid t v b) (ap (λ (f : Feed). f.is_closed) same ∙ o)
        (ap (λ (f : Feed). f.dropping) same ∙ d) ks bs in
    (more.0 ∙ ap (λ (f : Feed). f.items) same, more.1)

-- The pictures that the queue gives up leave no keyframe behind: the frame that overflows a queue
-- that holds no keyframe behind its head is kept alone, although it is no keyframe, and every frame
-- after it is refused up to the next keyframe. The frame that is kept can be decoded only after the one
-- that was encoded right before it.
pub overflow_orphan :
    (number : ℕ → ℕ) {q : FrameQueue} (s : Slot)
    → IsValid q
    → q.closed ≡ false
    → q.dropping ≡ false
    → q.count ≡ q.capacity
    → shed (items q) ≡ []
    → s.is_key ≡ false
    → s.bytes ≢ none
    → (ts : List Slot) → NoneIsKey ts
    → AllFilled ts
    → let q' = push_frames (push_locked q s) ts in
      (items q' ≡ s ∷ [])
      × (q'.dropping ≡ true)
      × ((e : ℕ) → number s.pts_us ≢ e → ¬ Linked number e (items q'))
overflow_orphan number {q} s v o d full gone k b ts ks bs =
    (alone, refused.1, λ e ne l. not_linked e ne (subst (Linked number e) alone l))
  where
    after : view (push_locked q s) ≡ record (view q) {
      items = shed (items q) ++ s ∷ [];
      dropped = add_size q.dropped (length (items q) - length (shed (items q)));
      dropping = true;
    }
    after = push_refines s v ∙ push_item-full (view q) s o (inl d) (length-items q ∙ full)

    refused :
        (items (push_frames (push_locked q s) ts) ≡ items (push_locked q s))
        × ((push_frames (push_locked q s) ts).dropping ≡ true)
    refused =
        push_frames-refused ts (push_locked-IsValid s v b)
          (ap (λ (f : Feed). f.is_closed) after ∙ o) (ap (λ (f : Feed). f.dropping) after) ks bs

    alone : items (push_frames (push_locked q s) ts) ≡ s ∷ []
    alone =
        refused.0 ∙ ap (λ (f : Feed). f.items) after ∙ ap (λ (xs : List Slot). xs ++ s ∷ []) gone

    not_linked : (e : ℕ) → number s.pts_us ≢ e → ¬ Linked number e (s ∷ [])
    not_linked e ne l = ground (arith, l.0)

-- A keyframe that arrives at a full queue is kept, and the frame after it, which needs nothing else,
-- is refused.
overflow_keyframe :
    {q : FrameQueue} (s t : Slot)
    → IsValid q
    → q.closed ≡ false
    → q.count ≡ q.capacity
    → s.is_key ≡ true
    → t.is_key ≡ false
    → s.bytes ≢ none
    → (items (push_locked q s) ≡ shed (items q) ++ s ∷ [])
      × (items (push_locked (push_locked q s) t) ≡ items (push_locked q s))
overflow_keyframe {q} s t v o full ks kt b = (
  ap (λ (f : Feed). f.items) after,
  ap (λ (f : Feed). f.items)
      (push_refines t (push_locked-IsValid s v b)
        ∙ push_item-refused (view (push_locked q s)) t (ap (λ (f : Feed). f.is_closed) after ∙ o)
            (ap (λ (f : Feed). f.dropping) after) kt),
)
  where
    after : view (push_locked q s) ≡ record (view q) {
      items = shed (items q) ++ s ∷ [];
      dropped = add_size q.dropped (length (items q) - length (shed (items q)));
      dropping = true;
    }
    after = push_refines s v ∙ push_item-full (view q) s o (inr ks) (length-items q ∙ full)
