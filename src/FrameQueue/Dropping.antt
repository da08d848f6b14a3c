-- ===== src/FrameQueue/Dropping.antt =====
-- The loop of `drop_frames` in src/frame_queue.c.
use montion_sense.Prelude.{
  ℕ, zero, suc, ◌-◌, ◌<◌, ◌≡◌, refl, ◌∙◌, ◌⊎◌, inl, inr, true, false, arith, Bool-cases, ltb,
  ltb→lt, ◌==◌,
}
use montion_sense.FrameQueue.{FrameQueue, slot_at, drop_oldest, drop_loop, drop_frames}
use montion_sense.FrameQueue.Invariant.{IsValid, drop_oldest-IsValid}

-- The loop keeps the invariant, ends by its own test when it starts with its count as fuel, and
-- leaves fewer frames than it found.
pub record Dropped (q p : FrameQueue) : Type 0 where
  pub valid : IsValid p
  pub stopped : ((slot_at p p.head).is_key ≡ true) ⊎ (p.count ≡ 0)
  pub fewer : p.count < q.count
  pub same_capacity : p.capacity ≡ q.capacity
  pub same_closed : p.closed ≡ q.closed
  pub same_dropping : p.dropping ≡ q.dropping

pub drop_oldest-count : (q : FrameQueue) → (drop_oldest q).count ≡ q.count - 1
unfolding drop_oldest
drop_oldest-count q = refl

drop_oldest_keeps :
    (q : FrameQueue)
    → ((drop_oldest q).capacity ≡ q.capacity)
      × ((drop_oldest q).closed ≡ q.closed)
      × ((drop_oldest q).dropping ≡ q.dropping)
unfolding drop_oldest
drop_oldest_keeps q = (refl, refl, refl)

pub drop_loop-Dropped :
    (fuel : ℕ) (q : FrameQueue)
    → fuel ≡ q.count
    → 0 < q.count
    → IsValid q
    → Dropped q (drop_loop fuel q)
unfolding drop_loop
drop_loop-Dropped zero q e c v = absurd (omega arith)
drop_loop-Dropped (suc fuel) q e c v = elim (Bool-cases (slot_at p p.head).is_key) [
  | inl key ↦ rw key (here (inl key))
  | inr other ↦ elim (Bool-cases (ltb 0 p.count)) [
    | inl more ↦
        rw (other, more)
          (chain (
            drop_loop-Dropped fuel p (omega (arith, drop_oldest-count q)) (ltb→lt 0 p.count more)
              valid))
    | inr done ↦ rw (other, done) (here (inr (ground arith)))
  ]
]
  where
    p : FrameQueue
    p = drop_oldest q

    valid : IsValid p
    valid = drop_oldest-IsValid v c

    keeps : (p.capacity ≡ q.capacity) × (p.closed ≡ q.closed) × (p.dropping ≡ q.dropping)
    keeps = drop_oldest_keeps q

    here : ((slot_at p p.head).is_key ≡ true) ⊎ (p.count ≡ 0) → Dropped q p
    here h = record {
      valid = valid;
      stopped = h;
      fewer = omega (arith, drop_oldest-count q);
      same_capacity = keeps.0;
      same_closed = keeps.1;
      same_dropping = keeps.2;
    }

    chain : {r : FrameQueue} → Dropped p r → Dropped q r
    chain d = record {
      valid = d.valid;
      stopped = d.stopped;
      fewer = omega (arith, d.fewer, drop_oldest-count q);
      same_capacity = d.same_capacity ∙ keeps.0;
      same_closed = d.same_closed ∙ keeps.1;
      same_dropping = d.same_dropping ∙ keeps.2;
    }

-- On a valid queue with frames the loop of `drop_frames` ends by its own test: a keyframe is at the
-- head, or no frame is left. The queue stays valid, holds fewer frames, and is marked as dropping.
pub drop_frames-Dropped :
    {q : FrameQueue}
    → IsValid q
    → 0 < q.count
    → Dropped (record q { dropping = true }) (drop_frames q)
unfolding drop_frames
drop_frames-Dropped {q} v c = rw (no_test q.count c) (
    drop_loop-Dropped q.count (record q { dropping = true }) refl c
      (record {
        shape = record {
          storage = v.shape.storage;
          positive = v.shape.positive;
          small = v.shape.small;
          head_in = v.shape.head_in;
          tail_at = v.shape.tail_at;
          count_in = v.shape.count_in;
        };
        clean = v.clean;
        held = v.held;
      }))
  where
    no_test : (n : ℕ) → 0 < n → (n == 0) ≡ false
    no_test n h = ground arith
