-- ===== src/Utils/Writes.antt =====
-- `write_all` of src/utils.c: short writes, interruptions and failures.
use mathlib.Core.Option.{some-injective}
use montion_sense.Prelude.{
  ℕ, zero, suc, ◌+◌, ◌≤◌, ◌≡◌, refl, sym, subst, ap, ◌∙◌, ◌≢◌, false, Option, none, some, List, [],
  ◌∷◌, ◌++◌, append_assoc, append-nil, arith, ltb, if_elim, length, take, take_all, drop, Rc, ok,
  fail,
}
use montion_sense.Utils.{Write, wrote, interrupted, failed, write_loop, write_all}

module _ {ℓ} {A : Type ℓ} where
  take-nil : (n : ℕ) → take {A = A} n [] ≡ []
  take-nil zero = refl
  take-nil (suc n) = refl

  take-append-drop_more :
      (i n : ℕ) (xs : List A) → take i xs ++ take n (drop i xs) ≡ take (i + n) xs
  take-append-drop_more zero n xs = let e : n ≡ zero + n = omega arith in ap (λ k. take k xs) e
  take-append-drop_more (suc i) n [] = take-nil n ∙ sym (take-nil (suc i + n))
  take-append-drop_more (suc i) n (x ∷ xs) =
      let e : suc (i + n) ≡ suc i + n = omega arith in
      ap (◌∷◌ x) (take-append-drop_more i n xs) ∙ ap (λ k. take k (x ∷ xs)) e

-- A loop that ends has appended the buffer from the offset on: all of it on success, a part on failure.
pub data Appended (before rest : List ℕ) : Rc × List ℕ → Type 0 where
  whole : Appended before rest (ok, before ++ rest)
  part : (n : ℕ) → Appended before rest (fail, before ++ take n rest)

-- Every result that the loop may still end with.
abbrev Ends : List ℕ → List ℕ → Option (Rc × List ℕ) → Type 0
Ends before buf o = (r : Rc × List ℕ) → o ≡ some r → Appended before buf r

module _ (buf before : List ℕ) where
  finish-Ends :
      (off : ℕ) (file : List ℕ)
      → file ≡ before ++ take off buf
      → ltb off (length buf) ≡ false
      → Ends before buf (some (ok, file))
  finish-Ends off file e t r h =
      subst (Appended before buf) (some-injective _ _ h)
        (rw (e, take_all off buf (ground arith)) whole)

  write_loop-Ends :
      (ws : List Write) (off : ℕ) (file : List ℕ)
      → file ≡ before ++ take off buf
      → Ends before buf (write_loop ws buf off file)
  unfolding write_loop
  write_loop-Ends [] off file e =
      if_elim (Ends before buf) (ltb off (length buf)) _ _ (λ _ r h. cc) (finish-Ends off file e)
  write_loop-Ends (interrupted ∷ ws) off file e =
      if_elim (Ends before buf) (ltb off (length buf)) _ _ (λ _. write_loop-Ends ws off file e)
        (finish-Ends off file e)
  write_loop-Ends (failed ∷ ws) off file e =
      if_elim (Ends before buf) (ltb off (length buf)) _ _
        (λ _ r h. subst (Appended before buf) (some-injective _ _ h) (rw e (part off)))
        (finish-Ends off file e)
  write_loop-Ends (wrote n ∷ ws) off file e =
      if_elim (Ends before buf) (ltb off (length buf)) _ _
        (λ _.
          write_loop-Ends ws (off + n) (file ++ take n (drop off buf))
            (rw (e, append_assoc) (ap (◌++◌ before) (take-append-drop_more off n buf))))
        (finish-Ends off file e)

  -- However short the writes are and however often they are interrupted: when `write_all` returns, the
  -- file has grown by the whole buffer (result 0) or by a prefix of it (result -1), in order, and by
  -- nothing else.
  pub write_all-Appended :
      (ws : List Write) (r : Rc × List ℕ) → write_all ws buf before ≡ some r → Appended before buf r
  unfolding write_all
  write_all-Appended ws = write_loop-Ends ws 0 before (sym (append-nil before))

-- How many of the calls make progress; none of them fails.
abbrev pub progress : List Write → ℕ
progress [] = 0
progress (interrupted ∷ ws) = progress ws
progress (failed ∷ ws) = progress ws
progress (wrote zero ∷ ws) = progress ws
progress (wrote (suc n) ∷ ws) = suc (progress ws)

write_loop-ends :
    (ws : List Write) (buf : List ℕ) (off : ℕ) (file : List ℕ)
    → length buf ≤ off + progress ws
    → write_loop ws buf off file ≢ none
unfolding write_loop
write_loop-ends [] buf off file h = ground arith
write_loop-ends (interrupted ∷ ws) buf off file h = ground (arith, write_loop-ends ws buf off file)
write_loop-ends (failed ∷ ws) buf off file h = ground arith
write_loop-ends (wrote zero ∷ ws) buf off file h =
    ground (arith, write_loop-ends ws buf (off + zero) (file ++ take zero (drop off buf)))
write_loop-ends (wrote (suc n) ∷ ws) buf off file h =
    ground (arith, write_loop-ends ws buf (off + suc n) (file ++ take (suc n) (drop off buf)))

-- `write_all` returns once as many of its writes as the buffer has bytes have made progress; the others
-- may be interrupted, or write nothing.
write_all-ends :
    (ws : List Write) (buf file : List ℕ) → length buf ≤ progress ws → write_all ws buf file ≢ none
unfolding write_all
write_all-ends ws buf file h = write_loop-ends ws buf 0 file (omega arith)
