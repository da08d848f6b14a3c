-- ===== src/Storage/AtomicFile/Crash.antt =====
-- `write_file_atomic` of src/storage.c, for a loss of power at any moment.
use mathlib.Core.Option.{some-injective}
use montion_sense.Prelude.{
  same_bytes, same_bytes_refl, same_bytes_append, ℕ, ◌+◌, ◌≡◌, refl, subst, ap, ◌∙◌, ◌⊎◌, inl, inr,
  true, false, Option, none, some, List, [], ◌∷◌, ◌++◌, append_assoc, leb, if_elim, length, Rc, ok,
  fail,
}
use montion_sense.Utils.{write_all}
use montion_sense.Utils.Writes.{Appended, whole, part, write_all-Appended}
use montion_sense.Storage.AtomicFile.{
  File, Disk, put, synced_file, System, template, fsync_step, close_step, failpoint_step,
  rename_step, fsync_dir_step, unlink_step, after_write, write_file_atomic, Failpoint,
  write_before_rename, write_after_rename, failpoint_hit,
}

put-same : (d : Disk) (p : List ℕ) (f : Option File) → put d p f p ≡ f
unfolding put
put-same d p f = rw (same_bytes_refl p) refl

put-other :
    (d : Disk) (p : List ℕ) (f : Option File) (q : List ℕ)
    → same_bytes p q ≡ false
    → put d p f q ≡ d q
unfolding put
put-other d p f q h = rw h refl

module _ (path payload : List ℕ) (d : Disk) where
  abbrev pub new : Option File
  new = some (record { bytes = payload; synced = true })

  -- The old file, or all of the new one, on the card.
  abbrev pub Kept : Disk → Type 0
  Kept s = (s path ≡ d path) ⊎ (s path ≡ new)

  abbrev pub AllKept : List Disk → Type 0
  AllKept [] = Unit {0}
  AllKept (s ∷ ss) = Kept s × AllKept ss

  -- The last disk, which is the first of the list, has the new file.
  abbrev pub EndsNew : List Disk → Type 0
  EndsNew [] = ⊥
  EndsNew (s ∷ ss) = s path ≡ new

  -- A run: every disk on the way keeps the file, and a success ends with the new one.
  abbrev pub Run : Rc × List Disk → Type 0
  Run (rc, states) = AllKept states × (rc ≡ ok → EndsNew states)

  -- The file is the old one, and the temporary file is complete if all went well.
  abbrev Ready : List ℕ → Rc × Disk → Type 0
  Ready tmp (rc, s) = (s path ≡ d path) × (rc ≡ ok → s tmp ≡ new)

  abbrev Renamed : Rc × Disk → Type 0
  Renamed (rc, s) = Kept s × (rc ≡ ok → s path ≡ new)

whole_bytes :
    {payload : List ℕ} (rc : Rc) (bytes : List ℕ)
    → Appended [] payload (rc, bytes)
    → rc ≡ ok
    → bytes ≡ payload
whole_bytes _ _ whole h = refl
whole_bytes _ _ (part n) h = absurd cc

-- The temporary file is not the one that is replaced.
module _ (sys : System) (tmp path payload : List ℕ) (d : Disk)
    (apart : same_bytes tmp path ≡ false) where
  fsync_step-Ready :
      (rc : Rc) (s : Disk)
      → s path ≡ d path
      → (rc ≡ ok → s tmp ≡ some (record { bytes = payload; synced = false }))
      → Ready path payload d tmp (fsync_step sys tmp path (rc, s))
  unfolding fsync_step
  fsync_step-Ready fail s old full = (old, λ h. absurd cc)
  fsync_step-Ready ok s old full =
      if_elim (Ready path payload d tmp) sys.fsync _ _
        (λ _.
          (put-other s tmp _ path apart ∙ old, λ _. put-same s tmp _ ∙ ap synced_file (full refl)))
        (λ _. (old, λ h. absurd cc))

  close_step-Ready :
      (r : Rc × Disk)
      → Ready path payload d tmp r
      → Ready path payload d tmp (close_step sys tmp path r)
  unfolding close_step
  close_step-Ready (rc, s) (old, full) = (
    old,
    if_elim (λ rc'. rc' ≡ ok → s tmp ≡ new path payload d) sys.close rc fail (λ _. full)
        (λ _ h. absurd cc),
  )

  failpoint_step-Ready :
      (name : Failpoint) (r : Rc × Disk)
      → Ready path payload d tmp r
      → Ready path payload d tmp (failpoint_step sys tmp path name r)
  unfolding failpoint_step
  failpoint_step-Ready name (fail, s) r = r
  failpoint_step-Ready name (ok, s) (old, full) = (
    old,
    if_elim (λ rc'. rc' ≡ ok → s tmp ≡ new path payload d) (failpoint_hit sys.failpoint name) fail
        ok (λ _ h. absurd cc) (λ _. full),
  )

  rename_step-Renamed :
      (r : Rc × Disk)
      → Ready path payload d tmp r
      → Renamed path payload d (rename_step sys tmp path r)
  unfolding rename_step
  rename_step-Renamed (fail, s) (old, full) = (inl old, λ h. absurd cc)
  rename_step-Renamed (ok, s) (old, full) =
      if_elim (Renamed path payload d) sys.rename _ _
        (λ _.
          let moved =
            put-other (put s path (s tmp)) tmp none path apart
            ∙ put-same s path (s tmp)
            ∙ full refl in
          (inr moved, λ _. moved))
        (λ _. (inl old, λ h. absurd cc))

  failpoint_step-Renamed :
      (name : Failpoint) (r : Rc × Disk)
      → Renamed path payload d r
      → Renamed path payload d (failpoint_step sys tmp path name r)
  unfolding failpoint_step
  failpoint_step-Renamed name (fail, s) r = r
  failpoint_step-Renamed name (ok, s) (kept, full) = (
    kept,
    if_elim (λ rc'. rc' ≡ ok → s path ≡ new path payload d) (failpoint_hit sys.failpoint name) fail
        ok (λ _ h. absurd cc) (λ _. full),
  )

  fsync_dir_step-Renamed :
      (r : Rc × Disk)
      → Renamed path payload d r
      → Renamed path payload d (fsync_dir_step sys tmp path r)
  unfolding fsync_dir_step
  fsync_dir_step-Renamed (fail, s) r = r
  fsync_dir_step-Renamed (ok, s) (kept, full) = (kept, λ _. full refl)

  unlink_step-Renamed :
      (r : Rc × Disk)
      → Renamed path payload d r
      → Renamed path payload d (unlink_step sys tmp path r)
  unfolding unlink_step
  unlink_step-Renamed (ok, s) r = r
  unlink_step-Renamed (fail, s) (kept, full) = (
    if_elim (Kept path payload d) sys.unlink _ _ (λ _. rw (put-other s tmp none path apart) kept)
        (λ _. kept),
    λ h. absurd cc,
  )

  after_write-Run :
      (w : Rc × List ℕ) → Appended [] payload w → Run path payload d (after_write sys tmp path d w)
  unfolding after_write
  after_write-Run (rc, bytes) a =
      let opened = put d tmp (some (record { bytes = []; synced = false })) in
      let file = some (record { bytes = bytes; synced = false }) in
      let open_old = put-other d tmp (some (record { bytes = []; synced = false })) path apart in
      let written_old = put-other opened tmp file path apart ∙ open_old in
      let flushed = fsync_step-Ready rc (put opened tmp file) written_old (λ h.
        put-same opened tmp file
        ∙ ap (λ b. some (record { bytes = b; synced = false })) (whole_bytes rc bytes a h)) in
      let renamed =
        rename_step-Renamed _
          (failpoint_step-Ready write_before_rename _ (close_step-Ready _ flushed)) in
      let end =
        unlink_step-Renamed _
          (fsync_dir_step-Renamed _ (failpoint_step-Renamed write_after_rename _ renamed)) in
      (
        (end.0, (renamed.0, (inl flushed.0, (inl written_old, (inl open_old, (inl refl, tt)))))),
        end.1,
      )

-- Whatever fails, and at whatever moment the power is lost: the file that is replaced is the old one
-- or all of the new one, synced. When `write_file_atomic` returns 0, it is the new one.
pub write_file_atomic-Run :
    (sys : System) (path payload : List ℕ) (d : Disk) (r : Rc × List Disk)
    → write_file_atomic sys path payload d ≡ some r
    → Run path payload d r
unfolding write_file_atomic
write_file_atomic-Run sys path payload d r =
    if_elim (λ o. o ≡ some r → Run path payload d r) (leb 192 (length path + 11)) _ _
      (λ _. untouched) (λ _. named sys.letters)
  where
    untouched : some (fail, d ∷ []) ≡ some r → Run path payload d r
    untouched h = subst (Run path payload d) (some-injective _ _ h) ((inl refl, tt), λ e. absurd cc)

    written :
        (xs : List ℕ) (o : Option (Rc × List ℕ))
        → write_all sys.writes payload [] ≡ o
        → elim o [ none ↦ none | some w ↦ some (after_write sys (template path ++ xs) path d w) ]
          ≡ some r
        → Run path payload d r
    written xs none e h = absurd cc
    written xs (some w) e h = subst (Run path payload d) (some-injective _ _ h) (
        after_write-Run sys (template path ++ xs) path payload d
          (rw append_assoc (same_bytes_append path _ _)) w
          (write_all-Appended payload [] sys.writes w e))

    named :
        (o : Option (List ℕ))
        → elim o [
          | none ↦ some (fail, d ∷ [])
          | some xs ↦ elim (write_all sys.writes payload []) [
            | none ↦ none
            | some w ↦ some (after_write sys (template path ++ xs) path d w)
          ]
        ]
          ≡ some r
        → Run path payload d r
    named none h = untouched h
    named (some xs) h = written xs _ refl h
