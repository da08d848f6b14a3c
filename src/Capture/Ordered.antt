-- ===== src/Capture/Ordered.antt =====
-- src/frame_queue.c: the time stamps of the frames in the queue of src/media.c.
use montion_sense.Prelude.{
  ℕ, ◌≤◌, ◌<◌, ◌≢◌, sym, subst, arith, Bool, not, ◌&&◌, Option, none, some, some-ne-none, List, [],
  ◌∷◌, ◌++◌, if_elim, ◌==◌, length, drop, Rc,
}
use montion_sense.FrameQueue.{
  FrameQueue, Slot, Popped, blocked, failed, frame, slot_at, fq_push, push_locked, pop_locked,
  take_head,
}
use montion_sense.FrameQueue.Invariant.{IsValid, take_head-IsValid}
use montion_sense.FrameQueue.Items.{items, items_head, take_head-items}
use montion_sense.FrameQueue.Calls.{push_locked-IsValid}
use montion_sense.FrameQueue.Feed.{Feed, push_item, shed, from_key}
use montion_sense.FrameQueue.Refine.{view, push_refines}

-- The stamps of these frames never step back, and lie between two bounds.
abbrev pub Between : ℕ → ℕ → List Slot → Type 0
Between lo hi [] = lo ≤ hi
Between lo hi (x ∷ xs) = (lo ≤ x.pts_us) × Between x.pts_us hi xs

Between-lower : (lo lo' hi : ℕ) (xs : List Slot) → lo' ≤ lo → Between lo hi xs → Between lo' hi xs
Between-lower lo lo' hi [] h b = omega arith
Between-lower lo lo' hi (x ∷ xs) h b = (omega arith, b.1)

pub Between-raise :
    (lo hi hi' : ℕ) (xs : List Slot) → hi ≤ hi' → Between lo hi xs → Between lo hi' xs
Between-raise lo hi hi' [] h b = omega arith
Between-raise lo hi hi' (x ∷ xs) h b = (b.0, Between-raise x.pts_us hi hi' xs h b.1)

Between-append :
    (lo hi : ℕ) (xs : List Slot) (s : Slot)
    → hi ≤ s.pts_us
    → Between lo hi xs
    → Between lo s.pts_us (xs ++ s ∷ [])
Between-append lo hi [] s h b = (omega arith, omega arith)
Between-append lo hi (x ∷ xs) s h b = (b.0, Between-append x.pts_us hi xs s h b.1)

Between-from_key : (lo hi : ℕ) (xs : List Slot) → Between lo hi xs → Between lo hi (from_key xs)
Between-from_key lo hi [] b = b
Between-from_key lo hi (x ∷ xs) b =
    if_elim (Between lo hi) x.is_key _ _ (λ _. b)
      (λ _. Between-from_key lo hi xs (Between-lower x.pts_us lo hi xs b.0 b.1))

Between-shed : (lo hi : ℕ) (xs : List Slot) → Between lo hi xs → Between lo hi (shed xs)
Between-shed lo hi [] b = b
Between-shed lo hi (x ∷ xs) b = Between-from_key lo hi xs (Between-lower x.pts_us lo hi xs b.0 b.1)

-- Whether it is refused, sheds a group or finds room, a frame that is not stamped earlier keeps the order.
push_item-Between :
    (lo hi : ℕ) (f : Feed) (s : Slot)
    → hi ≤ s.pts_us
    → Between lo hi f.items
    → Between lo s.pts_us (push_item f s).items
unfolding push_item
push_item-Between lo hi f s h b =
    let raised = Between-raise lo hi s.pts_us f.items h b in
    if_elim (λ (g : Feed). Between lo s.pts_us g.items) f.is_closed _ _ (λ _. raised)
      (λ _.
        if_elim (λ (g : Feed). Between lo s.pts_us g.items) (f.dropping && not s.is_key) _ _
          (λ _. raised)
          (λ _.
            if_elim (λ (g : Feed). Between lo s.pts_us g.items) (length f.items == f.capacity) _ _
              (λ _. Between-append lo hi (shed f.items) s h (Between-shed lo hi f.items b))
              (λ _. Between-append lo hi f.items s h b)))

-- The queue is valid, and its frames are stamped between the last one delivered and the time line.
abbrev pub Ordered : ℕ → ℕ → Option FrameQueue → Type 0
Ordered lo hi none = ⊥
Ordered lo hi (some q) = IsValid q × Between lo hi (items q)

push_locked-Ordered :
    (lo hi : ℕ) (q : FrameQueue) (s : Slot)
    → hi ≤ s.pts_us
    → s.bytes ≢ none
    → Ordered lo hi (some q)
    → Ordered lo s.pts_us (some (push_locked q s))
push_locked-Ordered lo hi q s h n (v, b) = (
  push_locked-IsValid s v n,
  subst (λ (f : Feed). Between lo s.pts_us f.items) (sym (push_refines s v))
      (push_item-Between lo hi (view q) s h b),
)

pub fq_push-Ordered :
    (lo hi : ℕ) (vq : Option FrameQueue) (source : Option (List ℕ)) (len : ℕ) (key : Bool) (pts : ℕ)
    (alloc : Bool)
    → hi ≤ pts
    → Ordered lo hi vq
    → Ordered lo pts (fq_push vq source len key pts alloc).1
unfolding fq_push
fq_push-Ordered lo hi none source len key pts alloc h o = elim o [ ]
fq_push-Ordered lo hi (some q) none len key pts alloc h (v, b) =
    (v, Between-raise lo hi pts (items q) h b)
fq_push-Ordered lo hi (some q) (some source) len key pts alloc h (v, b) =
    let same : Ordered lo pts (some q) = (v, Between-raise lo hi pts (items q) h b) in
    if_elim (λ (r : Rc × Option FrameQueue). Ordered lo pts r.1) (len == 0) _ _ (λ _. same)
      (λ _.
        if_elim (λ (r : Rc × Option FrameQueue). Ordered lo pts r.1) (not alloc) _ _ (λ _. same)
          (λ _. push_locked-Ordered lo hi q _ h (some-ne-none _) (v, b)))

pub pop_locked_cases :
    (P : Popped × FrameQueue → Type 0) (lo hi : ℕ) (q : FrameQueue)
    → Ordered lo hi (some q)
    → P (blocked, q)
    → P (failed, q)
    → ((f : Slot)
        → lo ≤ f.pts_us
        → Ordered f.pts_us hi (some (take_head q))
        → P (frame f, take_head q))
    → P (pop_locked q)
unfolding pop_locked
pop_locked_cases P lo hi q (v, b) w f g =
    if_elim P (q.count == 0 && not q.closed) _ _ (λ _. w)
      (λ _.
        if_elim P (q.count == 0) _ _ (λ _. f)
          (λ z.
            let some_left : 0 < q.count = ground arith in
            let cut : Between lo hi (slot_at q q.head ∷ drop 1 (items q)) =
              subst (Between lo hi) (items_head v.shape some_left) b in
            let valid : IsValid (take_head q) = take_head-IsValid v some_left in
            g (slot_at q q.head) cut.0 (
              valid,
              subst (Between (slot_at q q.head).pts_us hi) (sym (take_head-items v.shape some_left))
                  cut.1,
            )))
