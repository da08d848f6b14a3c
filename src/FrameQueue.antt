-- ===== src/FrameQueue.antt =====
-- src/frame_queue.c and include/motionsense/frame_queue.h: the queue of encoded frames between the
-- capture thread and the writer thread.
--
-- Each function takes the queue and returns the new queue beside its result. The mutex makes every
-- call one step; `fq_pop` waits on a condition variable while the queue is empty and open, so its
-- body is a step that says `blocked` there. A pointer is an option, `NULL` being `none`, and what
-- it points to is the bytes of the allocation. Whether `malloc` and `calloc` succeed is an argument.
-- `pts_us` is only moved, so it is the number that its 64 bits spell.
pub mod Invariant
pub mod Dropping
pub mod Calls
pub mod Feed
pub mod Items
pub mod Refine
pub mod Runs
pub mod Keys
pub mod Linked
pub mod Continuity
pub mod Overflow
use montion_sense.Prelude.{
  Rc, ok, fail, ℕ, zero, suc, ◌-◌, ◌%◌, Bool, true, false, not, ◌&&◌, Option, none, some, List, [],
  ◌∷◌, ltb, ◌==◌, if◌then◌else◌, get_or, set, take, replicate, add_size,
}

-- `slot_t`, and `fq_frame`, which has the same fields.
pub record Slot : Type 0 where
  pub bytes : Option (List ℕ)
  pub len : ℕ
  pub is_key : Bool
  pub pts_us : ℕ

-- `struct frame_queue`, less its mutex and its condition variable.
pub record FrameQueue : Type 0 where
  pub slots : List Slot
  pub capacity : ℕ
  pub head : ℕ
  pub tail : ℕ
  pub count : ℕ
  pub dropped : ℕ
  pub closed : Bool
  pub dropping : Bool

-- How a call of `fq_pop` stands: waiting, returned -1, or returned 0 with a frame in `*out`.
pub data Popped : Type 0 where
  blocked failed : Popped
  frame : Slot → Popped

-- A slot that `calloc` has zeroed.
abbrev pub empty_slot : Slot
empty_slot = record { bytes = none; len = 0; is_key = false; pts_us = 0 }

-- `q->slots[i]`. The code reads indices below `capacity` only.
abbrev pub slot_at : FrameQueue → ℕ → Slot
slot_at q i = get_or q.slots i empty_slot

-- The two flags say whether the first and the second `calloc` succeed.
unfoldable pub fq_create : ℕ → Bool → Bool → Option FrameQueue
fq_create capacity queue_alloc slots_alloc =
    if capacity == 0
    then none
    else if not queue_alloc
    then none
    else if not slots_alloc
    then none
    else some (record {
      slots = replicate capacity empty_slot;
      capacity = capacity;
      head = 0;
      tail = 0;
      count = 0;
      dropped = 0;
      closed = false;
      dropping = false;
    })

-- The body of the loop of `drop_frames`.
unfoldable pub drop_oldest : FrameQueue → FrameQueue
drop_oldest q = record q {
  slots = set slots head (record (slot_at q head) { bytes = none; len = 0; is_key = false });
  head = add_size head 1 % capacity;
  count = count - 1;
  dropped = add_size dropped 1;
}
  where
    open q use {slots, head, count, capacity, dropped}

-- The `do … while` of `drop_frames`. The fuel is the count: each turn takes a frame
-- away, and the test stops the loop at none.
unfoldable pub drop_loop : ℕ → FrameQueue → FrameQueue
drop_loop zero q = q
drop_loop (suc fuel) q =
    let q' = drop_oldest q in
    let rest = drop_loop fuel q' in
    if not (slot_at q' q'.head).is_key && ltb 0 q'.count then rest else q'

unfoldable pub drop_frames : FrameQueue → FrameQueue
drop_frames q = if q.count == 0 then q else drop_loop q.count (record q { dropping = true })

-- The four stores of `fq_push` into the tail slot, and the step of `tail` and `count`.
unfoldable pub admit : FrameQueue → Slot → FrameQueue
admit q s = record q {
  slots = set slots tail s;
  tail = add_size tail 1 % capacity;
  count = add_size count 1;
}
  where
    open q use {slots, tail, count, capacity}

-- `fq_push` from `pthread_mutex_lock` on; `s` holds the copy and the arguments.
unfoldable pub push_locked : FrameQueue → Slot → FrameQueue
push_locked q s =
    if q.closed
    then q
    else if q.dropping && not s.is_key
    then record q { dropped = add_size q.dropped 1 }
    else (let p = record q { dropping = false } in
        admit (if p.count == p.capacity then drop_frames p else p) s)

-- `source` is the caller's buffer, of which `memcpy` takes `len` bytes.
unfoldable pub fq_push :
    Option FrameQueue → Option (List ℕ) → ℕ → Bool → ℕ → Bool → Rc × Option FrameQueue
fq_push none source len is_key pts_us alloc = (fail, none)
fq_push (some q) none len is_key pts_us alloc = (fail, some q)
fq_push (some q) (some source) len is_key pts_us alloc =
    if len == 0 then (fail, some q) else if not alloc then (fail, some q) else (
      ok,
      some (
          push_locked q (record {
            bytes = some (take len source);
            len = len;
            is_key = is_key;
            pts_us = pts_us;
          })),
    )

-- What `fq_pop` does to the queue once it has a frame: its bytes now belong to the caller.
unfoldable pub take_head : FrameQueue → FrameQueue
take_head q = record q {
  slots = set slots head (record (slot_at q head) { bytes = none });
  head = add_size head 1 % capacity;
  count = count - 1;
}
  where
    open q use {slots, head, count, capacity}

unfoldable pub pop_locked : FrameQueue → Popped × FrameQueue
pop_locked q =
    if q.count == 0 && not q.closed
    then (blocked, q)
    else if q.count == 0
    then (failed, q)
    else (frame (slot_at q q.head), take_head q)

-- The flag says whether `out` is a pointer.
unfoldable pub fq_pop : Option FrameQueue → Bool → Popped × Option FrameQueue
fq_pop none out = (failed, none)
fq_pop (some q) out =
    if not out then (failed, some q) else ((pop_locked q).0, some (pop_locked q).1)

unfoldable pub fq_close : Option FrameQueue → Option FrameQueue
fq_close none = none
fq_close (some q) = some (record q { closed = true })

unfoldable pub fq_dropped : FrameQueue → ℕ
fq_dropped q = q.dropped

unfoldable pub fq_depth : FrameQueue → ℕ
fq_depth q = q.count

-- The allocations of frames that `fq_destroy` frees, in the order of the slots; `free(NULL)` frees
-- none.
unfoldable pub freed_bytes : List Slot → List (List ℕ)
freed_bytes [] = []
freed_bytes (s ∷ ss) = elim s.bytes [ none ↦ freed_bytes ss | some b ↦ b ∷ freed_bytes ss ]

unfoldable pub fq_destroy : Option FrameQueue → List (List ℕ)
unfolding freed_bytes
fq_destroy none = []
fq_destroy (some q) = freed_bytes q.slots
