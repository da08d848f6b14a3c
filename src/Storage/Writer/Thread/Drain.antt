-- ===== src/Storage/Writer/Thread/Drain.antt =====
-- `writer_thread` and `storage_stop` of src/storage.c: the frames that are left when recording ends.
use montion_sense.Prelude.{
  Rc, ℕ, ◌-◌, ◌≤◌, ◌≡◌, ◌⊎◌, inr, refl, sym, subst, ap, arith, Bool, true, not, ◌&&◌, Option, none,
  some, List, [], ◌∷◌, ◌==◌, ◌∙◌, inl, both_true, if_elim, length, ok,
}
use montion_sense.Prelude.Int.{pos}
use montion_sense.Config.{Config}
use montion_sense.FrameQueue.{
  FrameQueue, Slot, slot_at, Popped, failed, frame, pop_locked, take_head,
}
use montion_sense.Storage.Sql.{Stmt, Answer}
use montion_sense.Storage.Writer.{Writer, Input, Segment, rollover_day}
use montion_sense.Storage.Writer.Ingest.{Moment, State, ingest_frame}
use montion_sense.Storage.Writer.Ingest.Carry.{Known, Holds}
use montion_sense.Storage.Writer.Ingest.Alive.{FedOn, Fed, Alive, ingest_frame-Alive}
use montion_sense.Storage.Writer.Thread.{drain, on_popped, with_state}

-- A closed queue gives its head, or the end of the frames.
pop_locked-closed :
    (q : FrameQueue)
    → q.closed ≡ true
    → ((pop_locked q ≡ (failed, q)) × (q.count ≡ 0))
      ⊎ ((f : Slot) × (pop_locked q ≡ (frame f, take_head q)) × (1 ≤ q.count))
unfolding pop_locked
pop_locked-closed q c =
    if_elim Given (q.count == 0 && not q.closed) _ _
      (λ b. let h = (both_true (q.count == 0) (not q.closed) b).1 in let g = ap not c in absurd cc)
      (λ _.
        if_elim Given (q.count == 0) _ _ (λ b. inl (refl, ground arith))
          (λ b. inr (slot_at q q.head, refl, ground arith)))
  where
    Given : Popped × FrameQueue → Type 0
    Given r =
        ((r ≡ (failed, q)) × (q.count ≡ 0))
        ⊎ ((f : Slot) × (r ≡ (frame f, take_head q)) × (1 ≤ q.count))

take_head-rest :
    (q : FrameQueue) → ((take_head q).count ≡ q.count - 1) × ((take_head q).closed ≡ q.closed)
unfolding take_head
take_head-rest q = (refl, refl)

module _ {Db Media Float : Type 0}
    (media_input : Media → Option Input → (Rc → Media) × Option Segment) (hls_duration : ℕ)
    (run : Stmt → Db → Answer × Db) (cfg : Config Float) (New : Media → Type 0) where
  -- A new day's segment can be opened at this moment, with a new muxer.
  pub record Openable (m : Moment Db Media) : Type 0 where
    pub opens :
        (ws : Writer Db Media)
        → (rollover_day media_input hls_duration run cfg.ivs.fps_low m.writes m.opening ws).0 ≡ ok
    pub new : (k : Media) → m.opening.media ≡ some k → New k

  abbrev pub AllOpenable : List (Moment Db Media) → Type 0
  AllOpenable [] = Unit {0}
  AllOpenable (m ∷ ms) = Openable m × AllOpenable ms

  -- The thread has ended, with no frame left in the queue.
  abbrev pub Drained : Option (FrameQueue × State Db Media) → Type 0
  Drained none = ⊥
  Drained (some (q, s)) = (q.count ≡ 0) × Alive media_input New (some s)

  -- What follows a frame that has been taken.
  pub with_state-Holds :
      (R : Option (FrameQueue × State Db Media) → Type 0) (P : Known Media)
      (rest : State Db Media → Option (FrameQueue × State Db Media))
      → ((ws : Writer Db Media) (present : List ℕ → Bool)
          → P ws.hls ws.seen_keyframe ws.day_of_year
          → R (rest (ws, present)))
      → (o : Option (State Db Media)) → Holds P o
      → R (with_state media_input hls_duration run cfg rest o)
  unfolding with_state
  with_state-Holds R P rest d none a = elim a [ ]
  with_state-Holds R P rest d (some (ws, present)) a = d ws present a

  module _ (low high : ℕ) (l : cfg.ivs.fps_low ≡ pos low) (h : cfg.ivs.fps_high ≡ pos high)
      (one_le : 1 ≤ low) (le : low ≤ high) where
    pub drain-Drained :
        (ms : List (Moment Db Media)) (q : FrameQueue) (ws : Writer Db Media)
        (present : List ℕ → Bool)
        → AllOpenable ms
        → q.closed ≡ true
        → q.count ≤ length ms
        → Fed media_input New ws.hls ws.seen_keyframe
        → Drained (drain media_input hls_duration run cfg ms q (ws, present))
    unfolding drain on_popped
    drain-Drained [] q ws present o c n a = (omega arith, a)
    drain-Drained (m ∷ ms) q ws present (o, os) c n a = elim (pop_locked-closed q c) [
      | inl ended ↦
          subst
            (λ r. Drained (
              on_popped media_input hls_duration run cfg (drain media_input hls_duration run cfg ms)
                m r (ws, present)))
            (sym ended.0) (ended.1, a)
      | inr taken ↦
          subst
            (λ r. Drained (
              on_popped media_input hls_duration run cfg (drain media_input hls_duration run cfg ms)
                m r (ws, present)))
            (sym taken.1)
            (with_state-Holds Drained (FedOn media_input New)
              (drain media_input hls_duration run cfg ms (take_head q))
              (λ ws' present'.
                drain-Drained ms (take_head q) ws' present' os ((take_head-rest q).1 ∙ c)
                  (rw (take_head-rest q).0 (omega (arith, n))))
              (ingest_frame media_input hls_duration run cfg m taken.0 (ws, present))
              (ingest_frame-Alive media_input hls_duration run cfg New low high l h one_le le m
                taken.0 ws present o.new a (inr (o.opens ws))))
    ]
