-- ===== src/FrameQueue/Feed.antt =====
-- What the frame queue promises: a bounded list of frames, oldest first. On overflow it gives up
-- the oldest group of pictures, and then takes no frame until the next keyframe.
use montion_sense.Prelude.{
  ok, fail, ℕ, ◌-◌, ◌≡◌, ◌≢◌, ◌⊎◌, arith, if_elim, Bool, true, false, not, ◌&&◌, none, some, List,
  [], ◌∷◌, ◌++◌, ◌==◌, if◌then◌else◌, length, take, drop, add_size,
}
use montion_sense.FrameQueue.{Slot, Popped, blocked, failed, frame}
use montion_sense.FrameQueue.Calls.{Call, push, pop, close, Reply, pushed, popped, closed}

pub record Feed : Type 0 where
  pub items : List Slot
  pub capacity : ℕ
  pub dropped : ℕ
  pub is_closed : Bool
  pub dropping : Bool

-- What is left from the first keyframe on.
abbrev pub from_key : List Slot → List Slot
from_key [] = []
from_key (x ∷ xs) = if x.is_key then x ∷ xs else from_key xs

-- The oldest frame goes, and those behind it up to a keyframe.
abbrev pub shed : List Slot → List Slot
shed xs = from_key (drop 1 xs)

unfoldable pub push_item : Feed → Slot → Feed
push_item f s =
    if f.is_closed
    then f
    else if f.dropping && not s.is_key
    then record f { dropped = add_size f.dropped 1 }
    else if length f.items == f.capacity
    then record f {
      items = shed f.items ++ s ∷ [];
      dropped = add_size f.dropped (length f.items - length (shed f.items));
      dropping = true;
    }
    else record f { items = f.items ++ s ∷ []; dropping = false }

unfoldable pub pop_item : Feed → Popped × Feed
pop_item f = elim f.items [
  | [] ↦ ((if f.is_closed then failed else blocked), f)
  | x ∷ xs ↦ (frame x, record f { items = xs })
]

unfoldable pub step_feed : Feed → Call → Reply × Feed
unfolding push_item pop_item
step_feed f (push none len is_key pts_us alloc) = (pushed fail, f)
step_feed f (push (some source) len is_key pts_us alloc) =
    if len == 0 then (pushed fail, f) else if not alloc then (pushed fail, f) else (
      pushed ok,
      push_item f
          (record { bytes = some (take len source); len = len; is_key = is_key; pts_us = pts_us }),
    )
step_feed f (pop true) = let (r, g) = pop_item f in (popped r, g)
step_feed f (pop false) = (popped failed, f)
step_feed f close = (closed, record f { is_closed = true })

unfoldable pub run_feed : Feed → List Call → List Reply × Feed
run_feed f [] = ([], f)
run_feed f (c ∷ cs) = let (r, g) = step_feed f c in let (rs, end) = run_feed g cs in (r ∷ rs, end)

-- The four ways through `push_item`.
module _ (f : Feed) (s : Slot) where
  pub push_item-shut : f.is_closed ≡ true → push_item f s ≡ f
  unfolding push_item
  push_item-shut c = ground arith

  pub push_item-refused :
      f.is_closed ≡ false
      → f.dropping ≡ true
      → s.is_key ≡ false
      → push_item f s ≡ record f { dropped = add_size f.dropped 1 }
  unfolding push_item
  push_item-refused c d k = ground arith

  pub push_item-full :
      f.is_closed ≡ false
      → (f.dropping ≡ false) ⊎ (s.is_key ≡ true)
      → length f.items ≡ f.capacity
      → push_item f s ≡ record f {
        items = shed f.items ++ s ∷ [];
        dropped = add_size f.dropped (length f.items - length (shed f.items));
        dropping = true;
      }
  unfolding push_item
  push_item-full c d n = ground arith

  pub push_item-room :
      f.is_closed ≡ false
      → (f.dropping ≡ false) ⊎ (s.is_key ≡ true)
      → length f.items ≢ f.capacity
      → push_item f s ≡ record f { items = f.items ++ s ∷ []; dropping = false }
  unfolding push_item
  push_item-room c d n = ground arith

pub pop_item-empty :
    (f : Feed) → f.items ≡ [] → pop_item f ≡ ((if f.is_closed then failed else blocked), f)
unfolding pop_item
pop_item-empty f e = ground arith

pub pop_item-frame :
    (f : Feed) (x : Slot) (xs : List Slot)
    → f.items ≡ x ∷ xs
    → pop_item f ≡ (frame x, record f { items = xs })
unfolding pop_item
pop_item-frame f x xs e = ground arith

pub Feed_path :
    (f g : Feed)
    → f.items ≡ g.items
    → f.capacity ≡ g.capacity
    → f.dropped ≡ g.dropped
    → f.is_closed ≡ g.is_closed
    → f.dropping ≡ g.dropping
    → f ≡ g
Feed_path f g a b c d e =
    λ i. record { items = a i; capacity = b i; dropped = c i; is_closed = d i; dropping = e i }

-- An open queue refuses, sheds, or has room.
pub push_item_cases {ℓ} :
    (P : Feed → Type ℓ) (f : Feed) (s : Slot)
    → f.is_closed ≡ false
    → (f.dropping ≡ true → s.is_key ≡ false → P (record f { dropped = add_size f.dropped 1 }))
    → ((f.dropping ≡ false) ⊎ (s.is_key ≡ true)
        → length f.items ≡ f.capacity
        → P (record f {
          items = shed f.items ++ s ∷ [];
          dropped = add_size f.dropped (length f.items - length (shed f.items));
          dropping = true;
        }))
    → ((f.dropping ≡ false) ⊎ (s.is_key ≡ true)
        → length f.items ≢ f.capacity
        → P (record f { items = f.items ++ s ∷ []; dropping = false }))
    → P (push_item f s)
unfolding push_item
push_item_cases P f s c refused full room =
    if_elim P f.is_closed _ _ (λ h. absurd (ground arith))
      λ _.
        if_elim P (f.dropping && not s.is_key) _ _ (λ r. refused (ground arith) (ground arith))
          λ r.
            if_elim P (length f.items == f.capacity) _ _ (λ h. full (ground arith) (ground arith))
              (λ h. room (ground arith) (ground arith))
