-- ===== src/FrameQueue/Items.antt =====
-- The frames that a queue holds, oldest first, and what each part of the code does to them.
use native.Mathlib.Nat.{mod-eq_of_lt, add-zero}
use native.Mathlib.Numerals.{add-one}
use montion_sense.Prelude.{
  ℕ, zero, suc, ◌+◌, ◌-◌, ◌%◌, ◌<◌, ◌≤◌, ◌≡◌, refl, ◌∙◌, ap, ap₂, List, [], ◌∷◌, ◌++◌, arith,
  length, set, drop,
}
use montion_sense.FrameQueue.{Slot, FrameQueue, slot_at, drop_oldest, admit, take_head}
use montion_sense.FrameQueue.Invariant.{Shape, nth, nth-past, nth-set_ne, nth-set_self, no_wrap}

module _ {ℓ} {A : Type ℓ} where
  -- The list f 0, f 1, …, f (n - 1).
  abbrev pub tabulate : (ℕ → A) → ℕ → List A
  tabulate f zero = []
  tabulate f (suc n) = f 0 ∷ tabulate (λ k. f (suc k)) n

  tabulate_ext : (f g : ℕ → A) (n : ℕ) → ((k : ℕ) → k < n → f k ≡ g k) → tabulate f n ≡ tabulate g n
  tabulate_ext f g zero h = refl
  tabulate_ext f g (suc n) h = rw (h 0 (omega arith)) (
      ap (◌∷◌ (g 0))
        (tabulate_ext (λ k. f (suc k)) (λ k. g (suc k)) n (λ k kn. h (suc k) (omega arith))))

  tabulate-suc : (f : ℕ → A) (n : ℕ) → tabulate f (suc n) ≡ tabulate f n ++ f n ∷ []
  tabulate-suc f zero = refl
  tabulate-suc f (suc n) = ap (◌∷◌ (f 0)) (tabulate-suc (λ k. f (suc k)) n)

  length-tabulate : (f : ℕ → A) (n : ℕ) → length (tabulate f n) ≡ n
  length-tabulate f zero = refl
  length-tabulate f (suc n) = ap suc (length-tabulate (λ k. f (suc k)) n)

abbrev pub items : FrameQueue → List Slot
items q = tabulate (nth q.slots q.capacity q.head) q.count

pub length-items : (q : FrameQueue) → length (items q) ≡ q.count
length-items q = length-tabulate (nth q.slots q.capacity q.head) q.count

-- A queue with frames begins with its head slot.
pub items_head :
    {q : FrameQueue} → Shape q → 0 < q.count → items q ≡ slot_at q q.head ∷ drop 1 (items q)
items_head {q} v c = start q.count c
  where
    start :
        (n : ℕ)
        → 0 < n
        → tabulate (nth q.slots q.capacity q.head) n
          ≡ slot_at q q.head ∷ drop 1 (tabulate (nth q.slots q.capacity q.head) n)
    start zero h = absurd (omega arith)
    start (suc n) h = rw (add-zero, mod-eq_of_lt v.head_in)

-- Passing the head drops the oldest frame.
past-items :
    (q p : FrameQueue) (s : Slot)
    → Shape q
    → 0 < q.count
    → p.slots ≡ set q.slots q.head s
    → p.capacity ≡ q.capacity
    → p.head ≡ (q.head + 1) % q.capacity
    → p.count ≡ q.count - 1
    → items p ≡ drop 1 (items q)
past-items q p s v c es ec eh en = rw (es, ec, eh, en) (rest q.count c v.count_in)
  where
    pred_suc : (n : ℕ) → suc n - 1 ≡ n
    pred_suc n = omega arith

    rest :
        (n : ℕ)
        → 0 < n
        → n ≤ q.capacity
        → tabulate (nth (set q.slots q.head s) q.capacity ((q.head + 1) % q.capacity)) (n - 1)
          ≡ drop 1 (tabulate (nth q.slots q.capacity q.head) n)
    rest zero h nc = absurd (omega arith)
    rest (suc n) h nc = rw (pred_suc n) (
        tabulate_ext _ _ n
          (λ k kn. nth-past q.slots q.capacity q.head s v.storage v.head_in k (omega arith)))

pub drop_oldest-items :
    {q : FrameQueue} → Shape q → 0 < q.count → items (drop_oldest q) ≡ drop 1 (items q)
unfolding drop_oldest
drop_oldest-items {q} v c = past-items q (drop_oldest q) _ v c refl refl (rw ((no_wrap v).0)) refl

pub take_head-items :
    {q : FrameQueue} → Shape q → 0 < q.count → items (take_head q) ≡ drop 1 (items q)
unfolding take_head
take_head-items {q} v c = past-items q (take_head q) _ v c refl refl (rw ((no_wrap v).0)) refl

-- The stores of `fq_push` add the frame at the end.
pub admit-items :
    {q : FrameQueue} (s : Slot)
    → Shape q
    → q.count < q.capacity
    → items (admit q s) ≡ items q ++ s ∷ []
unfolding admit
admit-items {q} s v room =
    rw ((no_wrap v).1, add-one, v.tail_at)
      (tabulate-suc (nth filled q.capacity q.head) q.count
        ∙ ap₂ (λ (xs : List Slot) x. xs ++ x ∷ [])
            (tabulate_ext _ _ q.count (λ k kn.
              nth-set_ne q.slots q.capacity q.head q.count s v.storage v.head_in room k
                (omega arith) (omega arith)))
            (nth-set_self q.slots q.capacity q.head q.count s v.storage v.head_in room))
  where
    filled : List Slot
    filled = set q.slots ((q.head + q.count) % q.capacity) s
