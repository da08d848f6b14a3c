-- ===== src/Storage/Paths/Folders.antt =====
-- `open_today` of src/storage.c: the folders of a day are numbered by their count.
use mathlib.Core.List.{Permᴰ}
use montion_sense.Prelude.{
  ℕ, suc, ◌^◌, ◌<◌, ◌≡◌, ◌≢◌, refl, sym, ◌∙◌, ap, subst, arith, Bool, Bool-cases, true, false, some,
  List, [], ◌∷◌, ◌⊎◌, inl, inr, if◌then◌else◌, length, same_bytes, same_bytes→eq,
}
use montion_sense.Storage.Paths.{d5, is_subdir, count_entries, count_subdirs, make_folder}
use montion_sense.Storage.Paths.Numbers.{read_number, read_number-digits, length-digits}

abbrev pub Entry : Type 0
Entry = Bool × List ℕ

abbrev dot : List ℕ
dot = b'.' ∷ []

abbrev dot_dot : List ℕ
dot_dot = b'.' ∷ b'.' ∷ []

-- The entries of a day's directory, as `readdir` may list them, after any openings of a segment on that day.
-- Files come and go.
pub data DayDir : List Entry → Type 0 where
  new_day : DayDir ((true, dot) ∷ (true, dot_dot) ∷ [])
  opened : {es : List Entry} (made : Bool) → DayDir es → DayDir (make_folder made es)
  file_made : {es : List Entry} (name : List ℕ) → DayDir es → DayDir ((false, name) ∷ es)
  file_gone : {es : List Entry} (name : List ℕ) → DayDir ((false, name) ∷ es) → DayDir es
  listed : {es fs : List Entry} → Permᴰ es fs → DayDir es → DayDir fs

-- No folder has this name.
abbrev pub NoFolder : List ℕ → List Entry → Type 0
NoFolder name [] = Unit {0}
NoFolder name ((true, n) ∷ es) = (n ≢ name) × NoFolder name es
NoFolder name ((false, n) ∷ es) = NoFolder name es

-- The directory itself, its parent, or one of the first k folders.
IsNumbered : ℕ → Entry → Type 0
IsNumbered k (false, n) = Unit {0}
IsNumbered k (true, n) = (n ≡ dot) ⊎ ((n ≡ dot_dot) ⊎ ((i : ℕ) × (i < k) × (n ≡ d5 i [])))

AllNumbered : ℕ → List Entry → Type 0
unfolding IsNumbered
AllNumbered k [] = Unit {0}
AllNumbered k (e ∷ es) = IsNumbered k e × AllNumbered k es

IsNumbered-suc : (k : ℕ) (e : Entry) → IsNumbered k e → IsNumbered (suc k) e
unfolding IsNumbered
IsNumbered-suc k (false, n) h = tt
IsNumbered-suc k (true, n) (inl h) = inl h
IsNumbered-suc k (true, n) (inr (inl h)) = inr (inl h)
IsNumbered-suc k (true, n) (inr (inr (i, l, e))) = inr (inr (i, omega arith, e))

AllNumbered-suc : (k : ℕ) (es : List Entry) → AllNumbered k es → AllNumbered (suc k) es
unfolding AllNumbered
AllNumbered-suc k [] h = tt
AllNumbered-suc k (e ∷ es) h = (IsNumbered-suc k e h.0, AllNumbered-suc k es h.1)

AllNumbered-perm : {es fs : List Entry} (k : ℕ) → Permᴰ es fs → AllNumbered k es → AllNumbered k fs
unfolding AllNumbered
AllNumbered-perm k Permᴰ.nil h = tt
AllNumbered-perm k (Permᴰ.cons e p) h = (subst (IsNumbered k) e h.0, AllNumbered-perm k p h.1)
AllNumbered-perm k (Permᴰ.swap e f) h =
    (subst (IsNumbered k) f h.1.0, (subst (IsNumbered k) e h.0, h.1.1))
AllNumbered-perm k (Permᴰ.trans p q) h = AllNumbered-perm k q (AllNumbered-perm k p h)

abbrev counted : Entry → ℕ → ℕ
counted e n = if is_subdir e then suc n else n

counted_comm : (a b : Entry) (n : ℕ) → counted a (counted b n) ≡ counted b (counted a n)
counted_comm a b n = ground arith

count_entries-perm : {es fs : List Entry} → Permᴰ es fs → count_entries es ≡ count_entries fs
unfolding count_entries
count_entries-perm Permᴰ.nil = refl
count_entries-perm (Permᴰ.cons {a = a} {l₂ = l} e p) =
    ap (counted a) (count_entries-perm p) ∙ ap (λ (x : Entry). counted x (count_entries l)) e
count_entries-perm (Permᴰ.swap {a = a} {b = b} {a' = a'} {l = l} e f) =
    counted_comm a b (count_entries l)
    ∙ ap (λ (x : Entry). counted x (counted a (count_entries l))) f
    ∙ ap (λ (x : Entry). counted a' (counted x (count_entries l))) e
count_entries-perm (Permᴰ.trans p q) = count_entries-perm p ∙ count_entries-perm q

long_name : (name other : List ℕ) → length other < length name → same_bytes name other ≡ false
long_name name other h = elim (Bool-cases (same_bytes name other)) [
  | inl e ↦
      let n = ap (λ (x : List ℕ). length x) (same_bytes→eq name other e) in absurd (omega arith)
  | inr e ↦ e
]

d5-IsSubdir : (k : ℕ) → is_subdir (true, d5 k []) ≡ true
unfolding is_subdir
d5-IsSubdir k =
    let l = (length-digits 10 5 k [] (omega arith)).0 in
    rw (long_name (d5 k []) dot (omega arith)) (rw (long_name (d5 k []) dot_dot (omega arith)) refl)

make_folder-AllNumbered :
    (made : Bool) (es : List Entry)
    → AllNumbered (count_entries es) es
    → AllNumbered (count_entries (make_folder made es)) (make_folder made es)
unfolding make_folder count_subdirs count_entries AllNumbered IsNumbered
make_folder-AllNumbered false es h = h
make_folder-AllNumbered true es h =
    let k = count_entries es in
    let e : count_entries ((true, d5 k []) ∷ es) ≡ suc k = rw (d5-IsSubdir k) refl in
    subst (λ m. AllNumbered m ((true, d5 k []) ∷ es)) (sym e)
      (inr (inr (k, omega arith, refl)), AllNumbered-suc k es h)

DayDir-AllNumbered : {es : List Entry} → DayDir es → AllNumbered (count_entries es) es
unfolding AllNumbered IsNumbered count_entries is_subdir
DayDir-AllNumbered new_day = (inl refl, (inr (inl refl), tt))
DayDir-AllNumbered (opened {es} made d) = make_folder-AllNumbered made es (DayDir-AllNumbered d)
DayDir-AllNumbered (file_made name d) = (tt, DayDir-AllNumbered d)
DayDir-AllNumbered (file_gone name d) = (DayDir-AllNumbered d).1
DayDir-AllNumbered (listed {fs = fs} p d) =
    subst (λ k. AllNumbered k fs) (count_entries-perm p)
      (AllNumbered-perm _ p (DayDir-AllNumbered d))

d5_injective : (i k : ℕ) → i < 2 ^ 31 → k < 2 ^ 31 → d5 i [] ≡ d5 k [] → i ≡ k
unfolding read_number
d5_injective i k h l e =
    let reads = λ (n : ℕ) (b : n < 2 ^ 31). read_number-digits 10 5 n [] (omega arith) in
    ap (λ (r : ℕ × List ℕ). r.0) (sym (reads i h) ∙ ap (read_number 0) e ∙ reads k l)

other_name : (k : ℕ) (n : List ℕ) → k < 2 ^ 31 → IsNumbered k (true, n) → n ≢ d5 k []
unfolding IsNumbered
other_name k n h p e =
    let l = (length-digits 10 5 k [] (omega arith)).0 in
    let m = ap (λ (x : List ℕ). length x) e in
    elim p [
      | inl d ↦ let q = ap (λ (x : List ℕ). length x) d in omega arith
      | inr (inl d) ↦ let q = ap (λ (x : List ℕ). length x) d in omega arith
      | inr (inr (i, b, d)) ↦ let q = d5_injective i k (omega arith) h (sym d ∙ e) in omega arith
    ]

AllNumbered-NoFolder :
    (k : ℕ) (es : List Entry) → k < 2 ^ 31 → AllNumbered k es → NoFolder (d5 k []) es
unfolding AllNumbered
AllNumbered-NoFolder k [] h a = tt
AllNumbered-NoFolder k ((true, n) ∷ es) h a =
    (other_name k n h a.0, AllNumbered-NoFolder k es h a.1)
AllNumbered-NoFolder k ((false, n) ∷ es) h a = AllNumbered-NoFolder k es h a.1

-- However often a segment has been opened on a day, by this run of the program or by earlier ones, and in
-- whatever order `readdir` lists the directory: the folder of the next segment is one that is not there yet,
-- so that no recording is written over. Fewer than 2 ^ 31 folders are there.
pub count_subdirs-NoFolder :
    {es : List Entry}
    → DayDir es
    → count_subdirs (some es) < 2 ^ 31
    → NoFolder (d5 (count_subdirs (some es)) []) es
unfolding count_subdirs
count_subdirs-NoFolder {es} d h =
    AllNumbered-NoFolder (count_entries es) es h (DayDir-AllNumbered d)
