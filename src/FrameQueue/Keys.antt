-- ===== src/FrameQueue/Keys.antt =====
-- Frames from the first keyframe on, when one more frame comes.
use montion_sense.Prelude.{
  ◌≡◌, refl, arith, Bool, true, false, ◌||◌, Bool-cases, inl, inr, List, [], ◌∷◌, ◌++◌,
}
use montion_sense.FrameQueue.{Slot}
use montion_sense.FrameQueue.Feed.{from_key}

abbrev pub has_key : List Slot → Bool
has_key [] = false
has_key (f ∷ fs) = f.is_key || has_key fs

pub has_key-append_one :
    (fs : List Slot) (f : Slot) → has_key (fs ++ f ∷ []) ≡ (has_key fs || f.is_key)
has_key-append_one [] f = ground arith
has_key-append_one (g ∷ fs) f = ground (arith, has_key-append_one fs f)

pub from_key-append_later :
    (fs : List Slot) (f : Slot)
    → has_key fs ≡ true
    → from_key (fs ++ f ∷ []) ≡ from_key fs ++ f ∷ []
from_key-append_later [] f h = absurd cc
from_key-append_later (g ∷ fs) f h = elim (Bool-cases g.is_key) [
  | inl k ↦ simp k
  | inr k ↦ simp k (from_key-append_later fs f (simp k at h))
]

pub from_key-append_first :
    (fs : List Slot) (f : Slot) → has_key fs ≡ false → from_key (fs ++ f ∷ []) ≡ from_key (f ∷ [])
from_key-append_first [] f h = refl
from_key-append_first (g ∷ fs) f h = elim (Bool-cases g.is_key) [
  | inl k ↦ absurd (let e = simp k at h in cc)
  | inr k ↦ simp k (from_key-append_first fs f (simp k at h))
]

pub from_key-none : (fs : List Slot) → has_key fs ≡ false → from_key fs ≡ []
from_key-none [] h = refl
from_key-none (g ∷ fs) h = elim (Bool-cases g.is_key) [
  | inl k ↦ absurd (let e = simp k at h in cc)
  | inr k ↦ simp k (from_key-none fs (simp k at h))
]
