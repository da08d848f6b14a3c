-- ===== src/FrameQueue/Continuity.antt =====
-- What the writer thread receives: each frame can be decoded after the one before it, as long as the
-- capacity of the queue exceeds the encoder's group of pictures.
use montion_sense.Prelude.{
  ℕ, ◌+◌, ◌≤◌, ◌<◌, ◌≡◌, refl, sym, ◌∙◌, ap, subst, ◌≢◌, ◌⊎◌, inl, inr, Bool, true, false, some,
  List, [], ◌∷◌, arith, length, take, ◌==◌,
}
use montion_sense.FrameQueue.{Slot, FrameQueue, failed, blocked, frame}
use montion_sense.FrameQueue.Invariant.{IsValid}
use montion_sense.FrameQueue.Calls.{Call, push, pop, Reply, pushed, popped, closed, step, run}
use montion_sense.FrameQueue.Feed.{
  Feed, shed, push_item, pop_item, step_feed, run_feed, push_item_cases, pop_item-empty,
  pop_item-frame,
}
use montion_sense.FrameQueue.Linked.{
  Linked, Linked-append_one, next_number, next_number-append_one, Linked-from_key,
  next_number-from_key, Stamped, Stamped-append_one, Stamped-from_key, no_key,
}
use montion_sense.FrameQueue.Runs.{step_refines, run_refines}
use montion_sense.FrameQueue.Refine.{view}

-- The frames that the replies of a history carry.
abbrev pub delivered : List Reply → List Slot
delivered [] = []
delivered (pushed rc ∷ rs) = delivered rs
delivered (popped blocked ∷ rs) = delivered rs
delivered (popped failed ∷ rs) = delivered rs
delivered (popped (frame x) ∷ rs) = x ∷ delivered rs
delivered (closed ∷ rs) = delivered rs

-- What happens next: the encoder hands over a frame, or the writer asks for one.
pub data Event : Type 0 where
  arrive deliver : Event

-- The encoder: its frame `n` has these bytes and this time stamp, and `is_key n` says whether it is a
-- keyframe. No two frames have the same stamp: `number` finds the frame. `next_key` finds a keyframe among any `gop` frames in a row.
pub record Encoder : Type 0 where
  pub bytes : ℕ → List ℕ
  pub size : ℕ → ℕ
  pub size_pos : (n : ℕ) → 0 < size n
  pub is_key : ℕ → Bool
  pub stamp : ℕ → ℕ
  pub number : ℕ → ℕ
  pub numbered : (n : ℕ) → number (stamp n) ≡ n
  pub gop : ℕ
  pub next_key : (n : ℕ) → (k : ℕ) × (n ≤ k) × (k < n + gop) × (is_key k ≡ true)

module _ (enc : Encoder) where
  -- The calls that the two threads make, from frame `n` on.
  abbrev pub calls : ℕ → List Event → List Call
  calls n [] = []
  calls n (arrive ∷ es) =
      push (some (enc.bytes n)) (enc.size n) (enc.is_key n) (enc.stamp n) true ∷ calls (n + 1) es
  calls n (deliver ∷ es) = pop true ∷ calls n es

  abbrev pub slot : ℕ → Slot
  slot n = record {
    bytes = some (take (enc.size n) (enc.bytes n));
    len = enc.size n;
    is_key = enc.is_key n;
    pts_us = enc.stamp n;
  }

  -- The frames held after frames below `n` arrived and those below `e` were delivered.
  pub record Flowing (e n : ℕ) (f : Feed) : Type 0 where
    pub linked : Linked enc.number e f.items
    pub stamped : Stamped enc.number enc.is_key f.items
    pub ends : f.dropping ≡ false → next_number enc.number e f.items ≡ n
    pub open_still : f.is_closed ≡ false
    pub roomy : enc.gop < f.capacity

  pub fresh-Flowing :
      (f : Feed) → f.items ≡ [] → f.is_closed ≡ false → enc.gop < f.capacity → Flowing 0 0 f
  fresh-Flowing f none_held o g = record {
    linked = rw none_held tt;
    stamped = rw none_held tt;
    ends = λ _. rw none_held refl;
    open_still = o;
    roomy = g;
  }

  -- A full queue whose last frame is the newest holds a keyframe behind its head.
  keyframe_behind_head :
      (e n : ℕ) (f : Feed) → Flowing e n f → length f.items ≡ f.capacity → shed f.items ≢ []
  keyframe_behind_head e n f w full = split f.items w.linked w.stamped (omega (arith, w.roomy))
    where
      split :
          (xs : List Slot)
          → Linked enc.number e xs
          → Stamped enc.number enc.is_key xs
          → enc.gop < length xs
          → shed xs ≢ []
      split [] l s h none_left = omega arith
      split (x ∷ xs) l s h none_left =
          let (k, low, high, is) = enc.next_key (enc.number x.pts_us + 1) in
          cc (
            no_key enc.number enc.is_key (enc.number x.pts_us + 1) xs l.1 s.1 none_left k low
              (omega arith))

  pub arrive-Flowing :
      (e n : ℕ) (f : Feed) → Flowing e n f → Flowing e (n + 1) (push_item f (slot n))
  arrive-Flowing e n f w =
      push_item_cases (Flowing e (n + 1)) f (slot n) w.open_still
        (λ d k. record {
          linked = w.linked;
          stamped = w.stamped;
          ends = λ d'. cc;
          open_still = w.open_still;
          roomy = w.roomy;
        })
        (λ d full. record {
          linked =
              Linked-append_one enc.number e (shed f.items) (slot n) (shed-Linked f.items w.linked)
                (follows d full);
          stamped =
              Stamped-append_one enc.number enc.is_key (shed f.items) (slot n)
                (shed-Stamped f.items w.stamped) (ap enc.is_key (sym (enc.numbered n)));
          ends = λ d'. cc;
          open_still = w.open_still;
          roomy = w.roomy;
        })
        (λ d room. record {
          linked =
              Linked-append_one enc.number e f.items (slot n) w.linked
                (ground (arith, w.ends, enc.numbered n));
          stamped =
              Stamped-append_one enc.number enc.is_key f.items (slot n) w.stamped
                (ap enc.is_key (sym (enc.numbered n)));
          ends = λ _.
              next_number-append_one enc.number e f.items (slot n)
              ∙ ap (λ k. k + 1) (enc.numbered n);
          open_still = w.open_still;
          roomy = w.roomy;
        })
    where
      shed-Linked : (xs : List Slot) → Linked enc.number e xs → Linked enc.number e (shed xs)
      shed-Linked [] l = tt
      shed-Linked (x ∷ xs) l = Linked-from_key enc.number (enc.number x.pts_us + 1) e xs l.1

      shed-Stamped :
          (xs : List Slot)
          → Stamped enc.number enc.is_key xs
          → Stamped enc.number enc.is_key (shed xs)
      shed-Stamped [] h = tt
      shed-Stamped (x ∷ xs) h = Stamped-from_key enc.number enc.is_key xs h.1

      next_number-shed :
          (xs : List Slot)
          → shed xs ≢ []
          → next_number enc.number e (shed xs) ≡ next_number enc.number e xs
      next_number-shed [] h = refl
      next_number-shed (x ∷ xs) h = next_number-from_key enc.number (enc.number x.pts_us + 1) e xs h

      follows :
          (f.dropping ≡ false) ⊎ ((slot n).is_key ≡ true)
          → length f.items ≡ f.capacity
          → (enc.is_key n ≡ true)
            ⊎ (enc.number (enc.stamp n) ≡ next_number enc.number e (shed f.items))
      follows (inr k) full = inl k
      follows (inl d) full = inr (
          enc.numbered n
          ∙ sym (next_number-shed f.items (keyframe_behind_head e n f w full) ∙ w.ends d))

  -- The head is given out.
  pub deliver-Flowing :
      (e n : ℕ) (f : Feed) (x : Slot) (xs : List Slot)
      → f.items ≡ x ∷ xs
      → Flowing e n f
      → ((x.is_key ≡ true) ⊎ (enc.number x.pts_us ≡ e))
        × Flowing (enc.number x.pts_us + 1) n (record f { items = xs })
  deliver-Flowing e n f x xs h w =
      let link : Linked enc.number e (x ∷ xs) = subst (Linked enc.number e) h w.linked in
      let stamp : Stamped enc.number enc.is_key (x ∷ xs) =
        subst (Stamped enc.number enc.is_key) h w.stamped in
      (
        link.0,
        record {
          linked = link.1;
          stamped = stamp.1;
          ends = λ d. ap (next_number enc.number e) (sym h) ∙ w.ends d;
          open_still = w.open_still;
          roomy = w.roomy;
        },
      )

  deliver-Linked :
      (es : List Event) (e n : ℕ) (f : Feed) (xs : List Slot)
      → f.items ≡ xs
      → Flowing e n f
      → ((e' : ℕ) (f' : Feed)
          → Flowing e' n f'
          → Linked enc.number e' (delivered (run_feed f' (calls n es)).0))
      → Linked enc.number e
          (delivered (popped (pop_item f).0 ∷ (run_feed (pop_item f).1 (calls n es)).0))
  deliver-Linked es e n f [] h w ih = rw (pop_item-empty f h) (simp w.open_still (ih e f w))
  deliver-Linked es e n f (x ∷ xs) h w ih =
      let (can_follow, rest) = deliver-Flowing e n f x xs h w in
      rw (pop_item-frame f x xs h)
        (can_follow, ih (enc.number x.pts_us + 1) (record f { items = xs }) rest)

  size_nonzero : (n : ℕ) → (enc.size n == 0) ≡ false
  size_nonzero n = ground (arith, enc.size_pos n)

  push_feed :
      (n : ℕ) (f : Feed)
      → (step_feed f (push (some (enc.bytes n)) (enc.size n) (enc.is_key n) (enc.stamp n) true)).1
        ≡ push_item f (slot n)
  unfolding step_feed
  push_feed n f = rw (size_nonzero n) refl

  -- What the queue holds once frame `n` has been pushed.
  pub push-view :
      (n : ℕ) (q : FrameQueue)
      → IsValid q
      → view (step q (push (some (enc.bytes n)) (enc.size n) (enc.is_key n) (enc.stamp n) true)).1
        ≡ push_item (view q) (slot n)
  push-view n q v =
      ap (λ (r : Reply × Feed). r.1)
        (step_refines (push (some (enc.bytes n)) (enc.size n) (enc.is_key n) (enc.stamp n) true) v)
      ∙ push_feed n (view q)

  run-Linked :
      (es : List Event) (e n : ℕ) (f : Feed)
      → Flowing e n f
      → Linked enc.number e (delivered (run_feed f (calls n es)).0)
  unfolding run_feed step_feed
  run-Linked [] e n f w = tt
  run-Linked (arrive ∷ es) e n f w =
      simp (size_nonzero n)
        (run-Linked es e (n + 1) (push_item f (slot n)) (arrive-Flowing e n f w))
  run-Linked (deliver ∷ es) e n f w =
      deliver-Linked es e n f f.items refl w (λ e' f' w'. run-Linked es e' n f' w')

-- No history of frames that arrive and frames that the writer takes delivers a frame that cannot be
-- decoded: each delivered frame is a keyframe, or was encoded right after the one delivered before
-- it (the first: is frame 0). The queue is one fresh from `fq_create`, the allocations succeed, and
-- its capacity exceeds the encoder's group of pictures.
pub delivered_decodable :
    (enc : Encoder) (q : FrameQueue) (es : List Event)
    → IsValid q
    → q.count ≡ 0
    → q.closed ≡ false
    → enc.gop < q.capacity
    → Linked enc.number 0 (delivered (run q (calls enc 0 es)).0)
delivered_decodable enc q es v c o g =
    subst (λ (r : List Reply × Feed). Linked enc.number 0 (delivered r.0))
      (sym (run_refines (calls enc 0 es) v))
      (run-Linked enc es 0 0 (view q) (fresh-Flowing enc (view q) (rw c refl) o g))
