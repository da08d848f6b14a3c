-- ===== src/FrameQueue/Runs.antt =====
-- Whole histories of calls of the frame queue, against `Feed`.
use montion_sense.Prelude.{
  fail, ok, Rc, ◌≡◌, refl, ap, Bool, true, false, not, Option, none, some, List, [], ◌∷◌, ◌==◌,
  if◌then◌else◌, take,
}
use montion_sense.FrameQueue.{FrameQueue, fq_push, fq_pop, fq_close, Slot, Popped, push_locked}
use montion_sense.FrameQueue.Invariant.{IsValid}
use montion_sense.FrameQueue.Calls.{
  Call, push, pop, close, Reply, pushed, popped, step, settle, run, step-IsValid,
}
use montion_sense.FrameQueue.Feed.{Feed, step_feed, run_feed, push_item}
use montion_sense.FrameQueue.Refine.{view, push_refines, pop_refines}

-- Each call replies as its specification does and leaves the frames that it leaves.
pub step_refines :
    {q : FrameQueue} (c : Call)
    → IsValid q
    → ((step q c).0, view (step q c).1) ≡ step_feed (view q) c
unfolding step step_feed fq_push fq_pop fq_close
step_refines (push none len is_key pts_us alloc) v = refl
step_refines {q} (push (some source) len is_key pts_us alloc) v = tests (len == 0) (not alloc)
  where
    s : Slot
    s = record { bytes = some (take len source); len = len; is_key = is_key; pts_us = pts_us }

    tests :
        (a b : Bool)
        → let r : Rc × Option FrameQueue =
            if a
            then (fail, some q)
            else if b
            then (fail, some q)
            else (ok, some (push_locked q s)) in
          ◌≡◌ {A = Reply × Feed}
            (pushed r.0, view (settle q r.1))
            (if a
              then (pushed fail, view q)
              else if b
              then (pushed fail, view q)
              else (pushed ok, push_item (view q) s))
    tests true b = refl
    tests false true = refl
    tests false false = ap (λ (f : Feed). (pushed ok, f)) (push_refines s v)
step_refines (pop true) v = ap (λ (r : Popped × Feed). (popped r.0, r.1)) (pop_refines v)
step_refines (pop false) v = refl
step_refines close v = refl

-- No history of calls tells a valid queue from the list of frames that it holds.
pub run_refines :
    (cs : List Call) {q : FrameQueue}
    → IsValid q
    → ((run q cs).0, view (run q cs).1) ≡ run_feed (view q) cs
unfolding run run_feed
run_refines [] v = refl
run_refines (c ∷ cs) {q} v =
    rw (← step_refines c v) (
      ap (λ (r : List Reply × Feed). ((step q c).0 ∷ r.0, r.1)) (run_refines cs (step-IsValid c v)))
