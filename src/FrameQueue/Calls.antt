-- ===== src/FrameQueue/Calls.antt =====
-- The calls of the frame queue as steps, and that each keeps the invariant.
use native.Mathlib.Nat.{mod-eq_of_lt}
use montion_sense.Prelude.{
  Rc, ℕ, ◌+◌, ◌%◌, ◌^◌, ◌<◌, ◌≡◌, refl, ◌≢◌, ◌⊎◌, Bool, true, false, not, ◌&&◌, Option, none, some,
  List, [], ◌∷◌, arith, if_elim, some-ne-none, ◌==◌, subst, sym, length-replicate, get_or-replicate,
  replicate, add_size,
}
use montion_sense.FrameQueue.{
  Slot, FrameQueue, Popped, empty_slot, fq_create, drop_frames, admit, push_locked, fq_push,
  pop_locked, fq_pop, fq_close,
}
use montion_sense.FrameQueue.Invariant.{IsValid, admit-IsValid, take_head-IsValid}
use montion_sense.FrameQueue.Dropping.{drop_frames-Dropped}

-- A call by either thread. A push carries the caller's buffer, its arguments, and whether `malloc`
-- succeeds; a pop, whether `out` is a pointer.
pub data Call : Type 0 where
  push : Option (List ℕ) → ℕ → Bool → ℕ → Bool → Call
  pop : Bool → Call
  close : Call

pub data Reply : Type 0 where
  pushed : Rc → Reply
  popped : Popped → Reply
  closed : Reply

abbrev pub settle : FrameQueue → Option FrameQueue → FrameQueue
settle q none = q
settle q (some p) = p

unfoldable pub step : FrameQueue → Call → Reply × FrameQueue
unfolding fq_push fq_pop fq_close
step q (push source len is_key pts_us alloc) =
    let (rc, p) = fq_push (some q) source len is_key pts_us alloc in (pushed rc, settle q p)
step q (pop out) = let (r, p) = fq_pop (some q) out in (popped r, settle q p)
step q close = (closed, settle q (fq_close (some q)))

unfoldable pub run : FrameQueue → List Call → List Reply × FrameQueue
run q [] = ([], q)
run q (c ∷ cs) = let (r, p) = step q c in let (rs, end) = run p cs in (r ∷ rs, end)

-- A queue that `fq_create` makes is valid, empty and open, when its capacity is below 2 ^ 31.
pub create-IsValid :
    (capacity : ℕ) {q : FrameQueue}
    → capacity < 2 ^ 31
    → fq_create capacity true true ≡ some q
    → IsValid q × (q.count ≡ 0) × (q.closed ≡ false) × (q.dropping ≡ false)
unfolding fq_create
create-IsValid capacity {q} small e =
    subst (λ p. IsValid p × (p.count ≡ 0) × (p.closed ≡ false) × (p.dropping ≡ false)) made.1
      (fresh, refl, refl, refl)
  where
    zeroed : FrameQueue
    zeroed = record {
      slots = replicate capacity empty_slot;
      capacity = capacity;
      head = 0;
      tail = 0;
      count = 0;
      dropped = 0;
      closed = false;
      dropping = false;
    }

    made : (capacity ≢ 0) × (zeroed ≡ q)
    made = ground arith

    fresh : IsValid zeroed
    fresh = record {
      shape = record {
        storage = length-replicate capacity empty_slot;
        positive = omega (arith, made.0);
        small = small;
        head_in = omega (arith, made.0);
        tail_at = sym (mod-eq_of_lt {n = 0 + 0} {m = capacity} (omega (arith, made.0)));
        count_in = omega arith;
      };
      clean = λ k _ _. rw (get_or-replicate capacity ((0 + k) % capacity) empty_slot);
      held = λ k kn. absurd (omega arith);
    }

-- A flag that no index depends on may change.
pub flags-IsValid :
    {q : FrameQueue} (c d : Bool) (n : ℕ)
    → IsValid q
    → IsValid (record q { closed = c; dropping = d; dropped = n })
flags-IsValid c d n v = record {
  shape = record {
    storage = v.shape.storage;
    positive = v.shape.positive;
    small = v.shape.small;
    head_in = v.shape.head_in;
    tail_at = v.shape.tail_at;
    count_in = v.shape.count_in;
  };
  clean = v.clean;
  held = v.held;
}

-- The four ways through `fq_push` behind the lock.
pub push_cases {ℓ} :
    (P : FrameQueue → Type ℓ) (q : FrameQueue) (s : Slot)
    → (q.closed ≡ true → P q)
    → (q.closed ≡ false
        → q.dropping ≡ true
        → s.is_key ≡ false
        → P (record q { dropped = add_size q.dropped 1 }))
    → (q.closed ≡ false
        → (q.dropping ≡ false) ⊎ (s.is_key ≡ true)
        → q.count ≡ q.capacity
        → P (admit (drop_frames (record q { dropping = false })) s))
    → (q.closed ≡ false
        → (q.dropping ≡ false) ⊎ (s.is_key ≡ true)
        → q.count ≢ q.capacity
        → P (admit (record q { dropping = false }) s))
    → P (push_locked q s)
unfolding push_locked
push_cases P q s shut refused full room = if_elim P q.closed _ _ shut λ c.
    if_elim P (q.dropping && not s.is_key) _ _ (λ r. refused c (ground arith) (ground arith))
      λ r.
        if_elim (λ p. P (admit p s)) (q.count == q.capacity) _ _
          (λ f. full c (ground arith) (ground arith)) (λ f. room c (ground arith) (ground arith))

pub push_locked-IsValid :
    {q : FrameQueue} (s : Slot) → IsValid q → s.bytes ≢ none → IsValid (push_locked q s)
push_locked-IsValid {q} s v e =
    push_cases IsValid q s (λ _. v) (λ _ _ _. flags-IsValid q.closed q.dropping _ v)
      (λ _ _ f.
        let d = drop_frames-Dropped calm (rw f v.shape.positive) in
        admit-IsValid s d.valid (omega (arith, d.fewer, d.same_capacity)) e)
      (λ _ _ f. admit-IsValid s calm (omega arith) e)
  where
    calm : IsValid (record q { dropping = false })
    calm = flags-IsValid q.closed false q.dropped v

pub pop_locked-IsValid : {q : FrameQueue} → IsValid q → IsValid (pop_locked q).1
unfolding pop_locked
pop_locked-IsValid {q} v =
    if_elim (λ (r : Popped × FrameQueue). IsValid r.1) (q.count == 0 && not q.closed) _ _ (λ _. v)
      λ _.
        if_elim (λ (r : Popped × FrameQueue). IsValid r.1) (q.count == 0) _ _ (λ _. v)
          λ z. take_head-IsValid v (ground arith)

pub step-IsValid : {q : FrameQueue} (c : Call) → IsValid q → IsValid (step q c).1
unfolding step fq_push fq_pop fq_close
step-IsValid {q} (push none len is_key pts_us alloc) v = v
step-IsValid {q} (push (some source) len is_key pts_us alloc) v =
    if_elim (λ (r : Rc × Option FrameQueue). IsValid (settle q r.1)) (len == 0) _ _ (λ _. v)
      λ _.
        if_elim (λ (r : Rc × Option FrameQueue). IsValid (settle q r.1)) (not alloc) _ _ (λ _. v)
          λ _. push_locked-IsValid _ v (some-ne-none _)
step-IsValid {q} (pop true) v = pop_locked-IsValid v
step-IsValid {q} (pop false) v = v
step-IsValid {q} close v = flags-IsValid true q.dropping q.dropped v

-- No history of calls by the two threads breaks the invariant: the indices stay inside the array, the
-- tail is `count` slots past the head, exactly the slots of queued frames own an allocation (so a push
-- overwrites no pointer that is still owned).
pub run-IsValid : (cs : List Call) {q : FrameQueue} → IsValid q → IsValid (run q cs).1
unfolding run
run-IsValid [] v = v
run-IsValid (c ∷ cs) v = run-IsValid cs (step-IsValid c v)
