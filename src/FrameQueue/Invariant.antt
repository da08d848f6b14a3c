-- ===== src/FrameQueue/Invariant.antt =====
-- The representation invariant of the frame queue, and that the calls keep it.
use montion_sense.Prelude.{
  ℕ, suc, ◌+◌, ◌-◌, ◌%◌, ◌^◌, ◌≤◌, ◌<◌, ◌≡◌, refl, ◌≢◌, none, List, arith, length, get_or, set,
  length-set, get_or-set_self, get_or-set_ne, add_size, step-add, round-ne, dec_lt, ℕ_discrete, ap,
  sym,
}
use native.Mathlib.Numerals.{add-one}
use native.Mathlib.Nat.{mod-add-mod, mod-eq_of_lt, mod-eq-sub-mod, add-zero}
use montion_sense.FrameQueue.{Slot, FrameQueue, empty_slot, drop_oldest, admit, take_head}

-- The slot `k` steps round the ring from `h`.
abbrev pub nth : List Slot → ℕ → ℕ → ℕ → Slot
nth slots cap h k = get_or slots ((h + k) % cap) empty_slot

-- The slots past the first `n` own no allocation.
abbrev pub Clean : List Slot → ℕ → ℕ → ℕ → Type 0
Clean slots cap h n = (k : ℕ) → n ≤ k → k < cap → (nth slots cap h k).bytes ≡ none

-- Each of the first `n` slots owns one.
abbrev pub Held : List Slot → ℕ → ℕ → ℕ → Type 0
Held slots cap h n = (k : ℕ) → k < n → (nth slots cap h k).bytes ≢ none

-- The numbers of a queue fit together and stay inside the array and the word.
pub record Shape (q : FrameQueue) : Type 0 where
  pub storage : length q.slots ≡ q.capacity
  pub positive : 0 < q.capacity
  pub small : q.capacity < 2 ^ 31
  pub head_in : q.head < q.capacity
  pub tail_at : q.tail ≡ (q.head + q.count) % q.capacity
  pub count_in : q.count ≤ q.capacity

pub record IsValid (q : FrameQueue) : Type 0 where
  pub shape : Shape q
  pub clean : Clean q.slots q.capacity q.head q.count
  pub held : Held q.slots q.capacity q.head q.count

-- Emptying the head slot and stepping past it.
module _ (slots : List Slot) (cap h : ℕ) (s : Slot) (hs : length slots ≡ cap) (hh : h < cap) where
  pub nth-past :
      (k : ℕ) → suc k < cap → nth (set slots h s) cap ((h + 1) % cap) k ≡ nth slots cap h (suc k)
  nth-past k kc = rw step-add (
      get_or-set_ne slots h ((h + suc k) % cap) s empty_slot
        (λ e. round-ne h 0 (suc k) cap hh (omega arith) kc (rw (add-zero, mod-eq_of_lt hh) e)))

  nth-past_last : (k : ℕ) → suc k ≡ cap → nth (set slots h s) cap ((h + 1) % cap) k ≡ s
  nth-past_last k e = rw (step-add, wraps) (get_or-set_self slots h s empty_slot (omega arith))
    where
      wraps : (h + suc k) % cap ≡ h
      wraps = omega (
        arith,
        mod-eq-sub-mod {n = h + suc k} {m = cap} (omega arith),
        mod-eq_of_lt {n = h + suc k - cap} {m = cap} (omega arith),
      )

  past-Clean :
      (n : ℕ)
      → s.bytes ≡ none
      → Clean slots cap h (suc n)
      → Clean (set slots h s) cap ((h + 1) % cap) n
  past-Clean n e c k nk kc = elim (dec_lt (suc k) cap) [
    | yes p ↦ rw (nth-past k p) (c (suc k) (omega arith) p)
    | no p ↦ rw (nth-past_last k (omega arith)) e
  ]

  past-Held :
      (n : ℕ) → suc n ≤ cap → Held slots cap h (suc n) → Held (set slots h s) cap ((h + 1) % cap) n
  past-Held n nc c k kn = rw (nth-past k (omega arith)) (c (suc k) (omega arith))

-- Filling the slot behind the last one.
module _ (slots : List Slot) (cap h n : ℕ) (s : Slot) (hs : length slots ≡ cap) (hh : h < cap)
    (nc : n < cap) where
  pub nth-set_ne :
      (k : ℕ) → k ≢ n → k < cap → nth (set slots ((h + n) % cap) s) cap h k ≡ nth slots cap h k
  nth-set_ne k ne kc =
      get_or-set_ne slots ((h + n) % cap) ((h + k) % cap) s empty_slot (elim (dec_lt k n) [
        | yes p ↦ λ e. round-ne h k n cap hh p nc (sym e)
        | no p ↦ round-ne h n k cap hh (omega arith) kc
      ])

  pub nth-set_self : nth (set slots ((h + n) % cap) s) cap h n ≡ s
  nth-set_self = get_or-set_self slots ((h + n) % cap) s empty_slot (omega arith)

  fill-Clean : Clean slots cap h n → Clean (set slots ((h + n) % cap) s) cap h (suc n)
  fill-Clean c k nk kc = rw (nth-set_ne k (omega arith) kc) (c k (omega arith) kc)

  fill-Held : s.bytes ≢ none → Held slots cap h n → Held (set slots ((h + n) % cap) s) cap h (suc n)
  fill-Held e c k kn = elim (ℕ_discrete k n) [
    | yes p ↦ rw (p, nth-set_self) e
    | no p ↦ rw (nth-set_ne k p (omega arith)) (c k (omega arith))
  ]

-- No `size_t` addition of the file wraps, but that of `dropped`.
pub no_wrap :
    {q : FrameQueue}
    → Shape q
    → (add_size q.head 1 ≡ q.head + 1) × (add_size q.count 1 ≡ q.count + 1)
no_wrap v = omega arith

pub tail-in : {q : FrameQueue} → Shape q → q.tail < q.capacity
tail-in v = omega arith

-- What `drop_oldest` and `take_head` share: the head slot loses its allocation and is passed.
pub past-IsValid :
    (q p : FrameQueue) (s : Slot)
    → IsValid q
    → 0 < q.count
    → s.bytes ≡ none
    → p.slots ≡ set q.slots q.head s
    → p.capacity ≡ q.capacity
    → p.head ≡ (q.head + 1) % q.capacity
    → p.tail ≡ q.tail
    → p.count ≡ q.count - 1
    → IsValid p
past-IsValid q p s v c e es ec eh et en = record {
  shape = record {
    storage = rw (es, ec) (omega (arith, length-set q.slots q.head s));
    positive = omega arith;
    small = omega arith;
    head_in = rw (eh, ec) (omega arith);
    tail_at = rw (et, eh, ec, en, step-add) (rw v.shape.tail_at (rw count_suc refl));
    count_in = omega arith;
  };
  clean =
      rw (es, ec, eh)
        (past-Clean slots capacity head s storage head_in p.count e
          (λ k nk kc. v.clean k (omega arith) kc));
  held =
      rw (es, ec, eh)
        (past-Held slots capacity head s storage head_in p.count (omega arith)
          (λ k kn. v.held k (omega arith)));
}
  where
    open q use {slots, capacity, head}
    open v.shape use {storage, head_in}

    count_suc : suc (q.count - 1) ≡ q.count
    count_suc = omega arith

pub drop_oldest-IsValid : {q : FrameQueue} → IsValid q → 0 < q.count → IsValid (drop_oldest q)
unfolding drop_oldest
drop_oldest-IsValid {q} v c =
    past-IsValid q _ _ v c refl refl refl (rw ((no_wrap v.shape).0)) refl refl

pub take_head-IsValid : {q : FrameQueue} → IsValid q → 0 < q.count → IsValid (take_head q)
unfolding take_head
take_head-IsValid {q} v c =
    past-IsValid q _ _ v c refl refl refl (rw ((no_wrap v.shape).0)) refl refl

-- The stores of `fq_push` keep the invariant when there is room and the frame owns its bytes.
pub admit-IsValid :
    {q : FrameQueue} (s : Slot)
    → IsValid q
    → q.count < q.capacity
    → s.bytes ≢ none
    → IsValid (admit q s)
unfolding admit
admit-IsValid {q} s v room e = record {
  shape = record {
    storage = omega (arith, length-set slots q.tail s);
    positive = omega arith;
    small = omega arith;
    head_in = omega arith;
    tail_at =
        rw (tail_up, v.shape.tail_at, (no_wrap v.shape).1, mod-add-mod)
          (ap (λ k. k % capacity) (omega arith));
    count_in = omega arith;
  };
  clean =
      rw (v.shape.tail_at, (no_wrap v.shape).1, add-one)
        (fill-Clean slots capacity head count s storage head_in room v.clean);
  held =
      rw (v.shape.tail_at, (no_wrap v.shape).1, add-one)
        (fill-Held slots capacity head count s storage head_in room e v.held);
}
  where
    open q use {slots, capacity, head, count}
    open v.shape use {storage, head_in}

    tail_up : add_size q.tail 1 ≡ q.tail + 1
    tail_up = omega (arith, tail-in v.shape)
