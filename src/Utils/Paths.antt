-- ===== src/Utils/Paths.antt =====
-- `fsync_parent_dir` of src/utils.c: which directory it opens.
use mathlib.Core.Option.{some-injective}
use montion_sense.Prelude.{
  ℕ, suc, ◌<◌, ◌≡◌, sym, subst, ap, ◌∙◌, ◌≢◌, ◌⊎◌, inl, inr, Option, none, some, List, [], ◌∷◌,
  ◌++◌, arith, leb, ◌==◌, ◌||◌, if_elim, if◌then◌else◌, length, take,
}
use montion_sense.Utils.{last_slash, parent_dir}

abbrev pub slash : ℕ
slash = b'/'

-- A file name has no slash.
abbrev pub IsName : List ℕ → Type 0
IsName [] = Unit {0}
IsName (c ∷ cs) = (c ≢ slash) × IsName cs

-- What `strrchr` finds.
abbrev pub Found : List ℕ → Option ℕ → Type 0
Found path none = IsName path
Found path (some i) = (name : List ℕ) × (path ≡ take i path ++ slash ∷ name) × IsName name

pub last_slash-Found : (path : List ℕ) → Found path (last_slash path)
unfolding last_slash
last_slash-Found [] = tt
last_slash-Found (c ∷ cs) = step (last_slash cs) (last_slash-Found cs)
  where
    step :
        (o : Option ℕ)
        → Found cs o
        → Found
            (c ∷ cs)
            (elim o [ some i ↦ some (suc i) | none ↦ if c == slash then some 0 else none ])
    step (some i) (name, e, f) = (name, ap (◌∷◌ c) e, f)
    step none f =
        if_elim (Found (c ∷ cs)) (c == slash) _ _
          (λ t. (cs, ap (λ (x : ℕ). x ∷ cs) (ground arith), f)) (λ t. (ground arith, f))

-- A directory with the name that is looked for in it.
abbrev Contains : List ℕ → List ℕ → Type 0
Contains dir path =
    (name : List ℕ) × IsName name
    × (((dir ≡ slash ∷ []) × (path ≡ slash ∷ name)) ⊎ (path ≡ dir ++ slash ∷ name))

Contains-Found :
    (path dir : List ℕ) (o : Option ℕ)
    → Found path o
    → elim o [ none ↦ none | some i ↦ if i == 0 then some (take 1 path) else some (take i path) ]
      ≡ some dir
    → Contains dir path
Contains-Found path dir none f = λ h. absurd cc
Contains-Found path dir (some i) (name, e, f) =
    if_elim (λ o. o ≡ some dir → Contains dir path) (i == 0) _ _
      (λ b h.
        let first : i ≡ 0 = ground arith in
        let at_root : path ≡ slash ∷ name =
          subst (λ k. path ≡ take k path ++ slash ∷ name) first e in
        (name, f, inl (sym (some-injective _ _ h) ∙ ap (take 1) at_root, at_root)))
      (λ _ h. (name, f, inr (e ∙ ap (λ (d : List ℕ). d ++ slash ∷ name) (some-injective _ _ h))))

-- The directory that `fsync_parent_dir` opens is the path up to its last slash, or `/` for an entry of
-- the root: what follows that slash has no other one. It opens one only for a path of 1 to 159 bytes,
-- which fits the buffer with its terminator.
parent_dir-Contains :
    (path dir : List ℕ)
    → parent_dir path ≡ some dir
    → Contains dir path × (0 < length path) × (length path < 160)
unfolding parent_dir
parent_dir-Contains path dir =
    if_elim (λ o. o ≡ some dir → Contains dir path × (0 < length path) × (length path < 160))
      (length path == 0 || leb 160 (length path)) _ _ (λ _ h. absurd cc)
      (λ b h. (
        Contains-Found path dir (last_slash path) (last_slash-Found path) h,
        ground arith,
        ground arith,
      ))
