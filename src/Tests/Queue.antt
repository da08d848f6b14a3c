-- ===== src/Tests/Queue.antt =====
-- The frame queue of src/frame_queue.c at concrete inputs.
use montion_sense.Prelude.{
  ok, ℕ, ◌+◌, ◌-◌, ◌*◌, ◌/◌, ◌%◌, ◌<◌, ◌≤◌, ◌≡◌, refl, Bool, true, false, some, none, List, [], ◌∷◌,
  ap, arith, ◌==◌, ==_iff,
}
use montion_sense.FrameQueue.{
  Slot, FrameQueue, fq_create, fq_push, fq_pop, push_locked, pop_locked, take_head, admit,
  drop_frames, drop_loop, drop_oldest, frame, blocked,
}
use montion_sense.FrameQueue.Invariant.{IsValid}
use montion_sense.FrameQueue.Dropping.{Dropped, drop_frames-Dropped}
use montion_sense.FrameQueue.Calls.{
  Call, push, pop, close, popped, pushed, step, run, create-IsValid, run-IsValid,
}
use montion_sense.FrameQueue.Feed.{run_feed, shed}
use montion_sense.FrameQueue.Items.{items}
use montion_sense.FrameQueue.Linked.{Linked}
use montion_sense.FrameQueue.Refine.{view}
use montion_sense.FrameQueue.Runs.{run_refines}
use montion_sense.FrameQueue.Continuity.{
  Encoder, Event, arrive, deliver, calls, delivered, delivered_decodable,
}
use montion_sense.FrameQueue.Overflow.{push_frames, overflow_orphan}

abbrev vacant : Slot
vacant = record { bytes = none; len = 0; is_key = false; pts_us = 0 }

-- `fq_create(2)`
abbrev pair : FrameQueue
pair = record {
  slots = vacant ∷ vacant ∷ [];
  capacity = 2;
  head = 0;
  tail = 0;
  count = 0;
  dropped = 0;
  closed = false;
  dropping = false;
}

pair-IsValid : IsValid pair
unfolding fq_create
pair-IsValid = (create-IsValid 2 (omega arith) refl).0

abbrev picture : ℕ → Bool → Slot
picture n is_key = record { bytes = some (n ∷ []); len = 1; is_key = is_key; pts_us = n }

abbrev put : ℕ → Bool → Call
put n is_key = push (some (n ∷ 0 ∷ [])) 1 is_key n true

-- A keyframe and a frame after it fill the queue.
abbrev script : List Call
script = put 0 true ∷ put 1 false ∷ []

-- The queue after the script, and after one more frame that overflows it.
filled : FrameQueue
unfolding run step fq_push push_locked admit drop_frames
filled = (run pair script).1

filled_view :
    (filled.count ≡ 2)
    × (filled.closed ≡ false)
    × (filled.dropping ≡ false)
    × (items filled ≡ picture 0 true ∷ picture 1 false ∷ [])
unfolding filled drop_loop drop_oldest
filled_view = (refl, refl, refl, refl)

filled_full : filled.count ≡ filled.capacity
unfolding filled
filled_full = refl

filled-IsValid : IsValid filled
unfolding filled
filled-IsValid = run-IsValid script pair-IsValid

-- The third frame throws both out and stays alone; the fourth is refused; the writer gets the third.
orphan_run :
    (run pair (put 0 true ∷ put 1 false ∷ put 2 false ∷ put 3 false ∷ pop true ∷ pop true ∷ [])).0
    ≡ pushed ok
      ∷ pushed ok
      ∷ pushed ok
      ∷ pushed ok
      ∷ popped (frame (picture 2 false))
      ∷ popped blocked
      ∷ []
unfolding run step fq_push push_locked admit drop_frames drop_loop drop_oldest fq_pop pop_locked
    take_head
orphan_run = refl

run-IsValid_example : IsValid (run pair (put 0 true ∷ pop true ∷ close ∷ [])).1
run-IsValid_example = run-IsValid (put 0 true ∷ pop true ∷ close ∷ []) pair-IsValid

run_refines_example : ((run pair script).0, view (run pair script).1) ≡ run_feed (view pair) script
run_refines_example = run_refines script pair-IsValid

drop_frames-Dropped_example : Dropped (record filled { dropping = true }) (drop_frames filled)
drop_frames-Dropped_example = drop_frames-Dropped filled-IsValid (omega (arith, filled_view.0))

overflow_orphan_example :
    let q = push_frames (push_locked filled (picture 2 false)) (picture 3 false ∷ []) in
    (items q ≡ picture 2 false ∷ [])
    × (q.dropping ≡ true)
    × ((e : ℕ) → ¬ (◌≡◌ {A = ℕ} 2 e) → ¬ Linked (λ pts. pts) e (items q))
overflow_orphan_example =
    overflow_orphan (λ pts. pts) (picture 2 false) filled-IsValid filled_view.1 filled_view.2
      filled_full (ap shed filled_view.3) refl (λ e. cc) (picture 3 false ∷ []) (refl, tt)
      ((λ e. cc), tt)

-- An encoder that makes every third frame a keyframe.
pub third : ℕ → ℕ
third n = n + (3 - n % 3) % 3

pub third_key : (n : ℕ) → (third n % 3 == 0) ≡ true
unfolding third
third_key n = (==_iff _ 0).1 (omega arith)

pub third_bounds : (n : ℕ) → (n ≤ third n) × (third n < n + 3)
unfolding third
third_bounds n = omega arith

abbrev pub every_third : Encoder
every_third = record {
  bytes = λ n. n ∷ [];
  size = λ _. 1;
  size_pos = λ _. omega arith;
  is_key = λ n. n % 3 == 0;
  stamp = λ n. n * 33_333;
  number = λ pts. pts / 33_333;
  numbered = λ n. omega arith;
  gop = 3;
  next_key = λ n. (third n, (third_bounds n).0, (third_bounds n).1, third_key n);
}

-- `fq_create(4)`
abbrev pub four : FrameQueue
four = record pair { slots = vacant ∷ vacant ∷ vacant ∷ vacant ∷ []; capacity = 4 }

pub four-IsValid : IsValid four
unfolding fq_create
four-IsValid = (create-IsValid 4 (omega arith) refl).0

abbrev busy : List Event
busy =
    arrive ∷ deliver ∷ arrive ∷ arrive ∷ arrive ∷ arrive ∷ arrive ∷ deliver ∷ deliver ∷ deliver ∷ []

delivered_decodable_example :
    Linked (λ pts. pts / 33_333) 0 (delivered (run four (calls every_third 0 busy)).0)
delivered_decodable_example =
    delivered_decodable every_third four busy four-IsValid refl refl (omega arith)
