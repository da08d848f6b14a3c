-- ===== src/FrameQueue/Linked.antt =====
-- Frames in the order in which they were encoded, for FrameQueue/Continuity.
use montion_sense.Prelude.{
  ℕ, ◌+◌, ◌≤◌, ◌<◌, ◌≡◌, refl, sym, ◌∙◌, ◌≢◌, ◌⊎◌, inl, inr, Bool, true, false, List, [], ◌∷◌, ◌++◌,
  arith, if_elim, Bool-cases, ℕ_discrete, length,
}
use montion_sense.FrameQueue.{Slot}
use montion_sense.FrameQueue.Feed.{from_key}

-- `number` tells from a time stamp which frame of the encoder it is.
module _ (number : ℕ → ℕ) where
  -- Each frame is a keyframe, or the one encoded right after the frame before it. `e` is the number that
  -- the first may have.
  abbrev pub Linked : ℕ → List Slot → Type 0
  Linked e [] = Unit {0}
  Linked e (x ∷ xs) = ((x.is_key ≡ true) ⊎ (number x.pts_us ≡ e)) × Linked (number x.pts_us + 1) xs

  -- The number that may follow the list.
  abbrev pub next_number : ℕ → List Slot → ℕ
  next_number e [] = e
  next_number e (x ∷ xs) = next_number (number x.pts_us + 1) xs

  pub Linked-append_one :
      (e : ℕ) (xs : List Slot) (s : Slot)
      → Linked e xs
      → (s.is_key ≡ true) ⊎ (number s.pts_us ≡ next_number e xs)
      → Linked e (xs ++ s ∷ [])
  Linked-append_one e [] s l h = (h, tt)
  Linked-append_one e (x ∷ xs) s l h = (l.0, Linked-append_one (number x.pts_us + 1) xs s l.1 h)

  pub next_number-append_one :
      (e : ℕ) (xs : List Slot) (s : Slot) → next_number e (xs ++ s ∷ []) ≡ number s.pts_us + 1
  next_number-append_one e [] s = refl
  next_number-append_one e (x ∷ xs) s = next_number-append_one (number x.pts_us + 1) xs s

  -- From a keyframe on, what was linked after anything is linked after anything else.
  pub Linked-from_key : (d e : ℕ) (xs : List Slot) → Linked d xs → Linked e (from_key xs)
  Linked-from_key d e [] l = tt
  Linked-from_key d e (x ∷ xs) l =
      if_elim (Linked e) x.is_key _ _ (λ k. (inl k, l.1))
        (λ _. Linked-from_key (number x.pts_us + 1) e xs l.1)

  pub next_number-from_key :
      (d e : ℕ) (xs : List Slot) → from_key xs ≢ [] → next_number e (from_key xs) ≡ next_number d xs
  next_number-from_key d e [] h = absurd (h refl)
  next_number-from_key d e (x ∷ xs) h = elim (Bool-cases x.is_key) [
    | inl k ↦ simp k
    | inr k ↦ simp k (next_number-from_key (number x.pts_us + 1) e xs (λ n. h (simp k n)))
  ]

  -- An encoder that numbers its frames: `key n` says whether frame `n` is a keyframe.
  module _ (key : ℕ → Bool) where
    abbrev pub Stamped : List Slot → Type 0
    Stamped [] = Unit {0}
    Stamped (x ∷ xs) = (x.is_key ≡ key (number x.pts_us)) × Stamped xs

    pub Stamped-append_one :
        (xs : List Slot) (s : Slot)
        → Stamped xs
        → s.is_key ≡ key (number s.pts_us)
        → Stamped (xs ++ s ∷ [])
    Stamped-append_one [] s h k = (k, tt)
    Stamped-append_one (x ∷ xs) s h k = (h.0, Stamped-append_one xs s h.1 k)

    pub Stamped-from_key : (xs : List Slot) → Stamped xs → Stamped (from_key xs)
    Stamped-from_key [] h = tt
    Stamped-from_key (x ∷ xs) h =
        if_elim Stamped x.is_key _ _ (λ _. h) (λ _. Stamped-from_key xs h.1)

    -- Linked frames with no keyframe among them are consecutive.
    pub no_key :
        (e : ℕ) (xs : List Slot)
        → Linked e xs
        → Stamped xs
        → from_key xs ≡ []
        → (k : ℕ) → e ≤ k
        → k < e + length xs
        → key k ≡ false
    no_key e [] l h none_left k ek kl = absurd (omega arith)
    no_key e (x ∷ xs) l h none_left k ek kl = elim (Bool-cases x.is_key) [
      | inl is ↦ absurd (cons-ne-nil (simp is at none_left))
      | inr not ↦ elim (ℕ_discrete k e) [
        | yes here ↦ rw (here, ← at_e not) (sym h.0 ∙ not)
        | no later ↦
            no_key (number x.pts_us + 1) xs l.1 h.1 (simp not at none_left) k
              (omega (arith, at_e not)) (omega (arith, at_e not))
      ]
    ]
      where
        cons-ne-nil : x ∷ xs ≢ []
        cons-ne-nil e = cc

        at_e : x.is_key ≡ false → number x.pts_us ≡ e
        at_e not = ground (arith, l.0)
