-- ===== src/Storage/Paths/Names.antt =====
-- The paths of src/storage.c: they fit their buffers, and say which day, folder and segment they are of.
use montion_sense.Prelude.{
  ℕ, zero, suc, ◌+◌, ◌-◌, ◌/◌, ◌%◌, ◌^◌, ◌<◌, ◌≤◌, ◌≡◌, refl, ◌∙◌, ap, subst, arith, false, ◌&&◌,
  some, List, [], ◌∷◌, ◌++◌, ◌==◌, if_elim, if◌then◌else◌, length, length-append, append_assoc,
  take, drop,
}
use montion_sense.Storage.Paths.{
  digits, d5, snprintf, dcim_root, dot_ts, index_m3u8, event_logs_db, date_dir, segment_dir,
  ts_name, ts_path, m3u_path, event_db_path, folder_name, day_path, tmp_template,
}
use montion_sense.Storage.Paths.Numbers.{
  read_number, is_digit, read_number-digits, length-digits, length-digits_below, snprintf_fits,
}

-- The paths uncut.
abbrev pub whole_dir : List ℕ → ℕ → List ℕ
whole_dir date idx = dcim_root ++ (date ++ b'/' ∷ d5 idx (b'/' ∷ []))

digits-append :
    (fuel width n : ℕ) (text rest : List ℕ)
    → digits fuel width n text ++ rest ≡ digits fuel width n (text ++ rest)
unfolding digits
digits-append zero width n text rest = refl
digits-append (suc fuel) width n text rest =
    if_elim
      (λ (s : List ℕ). s ++ rest ≡ (
        if width == 0 && n == 0
        then text ++ rest
        else digits fuel (width - 1) (n / 10) ((b'0' + n % 10) ∷ (text ++ rest))))
      (width == 0 && n == 0) _ _ (λ t. rw t refl)
      (λ f. rw f (digits-append fuel (width - 1) (n / 10) ((b'0' + n % 10) ∷ text) rest))

length-d5 : (n : ℕ) (text : List ℕ) → length (d5 n text) ≤ length text + 10
length-d5 n text = (length-digits 10 5 n text (omega arith)).1

length-d5_min : (n : ℕ) (text : List ℕ) → length text + 5 ≤ length (d5 n text)
length-d5_min n text = (length-digits 10 5 n text (omega arith)).0

date_dir_lem : (date : List ℕ) → length date ≡ 10 → date_dir date ≡ dcim_root ++ (date ++ b'/' ∷ [])
unfolding date_dir
date_dir_lem date h =
    snprintf_fits 64 _
      (omega (arith, length-append dcim_root (date ++ b'/' ∷ []), length-append date (b'/' ∷ [])))

length-whole_dir : (date : List ℕ) (idx : ℕ) → length date ≡ 10 → length (whole_dir date idx) ≤ 39
length-whole_dir date idx h = omega (
  arith,
  length-append dcim_root (date ++ b'/' ∷ d5 idx (b'/' ∷ [])),
  length-append date (b'/' ∷ d5 idx (b'/' ∷ [])),
  length-d5 idx (b'/' ∷ []),
)

segment_dir_lem :
    (date : List ℕ) (idx : ℕ)
    → length date ≡ 10
    → segment_dir (date_dir date) idx ≡ whole_dir date idx
unfolding segment_dir
segment_dir_lem date idx h =
    let e : (dcim_root ++ (date ++ b'/' ∷ [])) ++ d5 idx (b'/' ∷ []) ≡ whole_dir date idx =
      ap (◌++◌ dcim_root) (append_assoc date (b'/' ∷ []) (d5 idx (b'/' ∷ []))) in
    let w = length-whole_dir date idx h in
    ap (λ (d : List ℕ). snprintf 96 (d ++ d5 idx (b'/' ∷ []))) (date_dir_lem date h)
    ∙ ap (snprintf 96) e
    ∙ snprintf_fits 96 (whole_dir date idx) (omega arith)

ts_name_lem : (n : ℕ) → ts_name n ≡ d5 n dot_ts
unfolding ts_name
ts_name_lem n = snprintf_fits 16 _ (omega (arith, length-d5 n dot_ts))

ts_path_lem :
    (date : List ℕ) (idx n : ℕ)
    → length date ≡ 10
    → ts_path (segment_dir (date_dir date) idx) n ≡ whole_dir date idx ++ d5 n dot_ts
unfolding ts_path
ts_path_lem date idx n h = rw (segment_dir_lem date idx h) (
    rw (ts_name_lem n) (
      snprintf_fits 160 _ (
        omega (
          arith,
          length-append (whole_dir date idx) (d5 n dot_ts),
          length-whole_dir date idx h,
          length-d5 n dot_ts,
        ))))

m3u_path_lem :
    (date : List ℕ) (idx : ℕ)
    → length date ≡ 10
    → m3u_path (segment_dir (date_dir date) idx) ≡ whole_dir date idx ++ index_m3u8
unfolding m3u_path
m3u_path_lem date idx h = rw (segment_dir_lem date idx h) (
    snprintf_fits 160 _
      (omega (arith, length-append (whole_dir date idx) index_m3u8, length-whole_dir date idx h)))

event_db_path_lem :
    (date : List ℕ)
    → length date ≡ 10
    → event_db_path (date_dir date) ≡ dcim_root ++ (date ++ b'/' ∷ event_logs_db)
unfolding event_db_path
event_db_path_lem date h =
    let e : (dcim_root ++ (date ++ b'/' ∷ [])) ++ event_logs_db
        ≡ dcim_root ++ (date ++ b'/' ∷ event_logs_db) =
      ap (◌++◌ dcim_root) (append_assoc date (b'/' ∷ []) event_logs_db) in
    rw (date_dir_lem date h) (
      ap (snprintf 96) e
      ∙ snprintf_fits 96 (dcim_root ++ (date ++ b'/' ∷ event_logs_db))
          (omega (arith, length-append date (b'/' ∷ event_logs_db))))

-- The template is made for this path.
abbrev pub HasTemplate : List ℕ → Type 0
HasTemplate path = (tmp : List ℕ) × (tmp_template path ≡ some tmp)

short-HasTemplate : (path : List ℕ) → length path < 160 → HasTemplate path
unfolding tmp_template
short-HasTemplate path h =
    let x : List ℕ =
      b'.' ∷ b't' ∷ b'm' ∷ b'p' ∷ b'.' ∷ b'X' ∷ b'X' ∷ b'X' ∷ b'X' ∷ b'X' ∷ b'X' ∷ [] in
    let l : length (path ++ x) ≡ length path + 11 = length-append path x in
    (path ++ x, ground (arith, l))

take-append : (xs ys : List ℕ) → take (length xs) (xs ++ ys) ≡ xs
take-append [] ys = refl
take-append (x ∷ xs) ys = ap (◌∷◌ x) (take-append xs ys)

drop-append : (xs ys : List ℕ) → drop (length xs) (xs ++ ys) ≡ ys
drop-append [] ys = refl
drop-append (x ∷ xs) ys = drop-append xs ys

-- The day, the folder and the segment that the path of a .ts file names.
unfoldable pub read_path : List ℕ → List ℕ × ℕ × ℕ
read_path path =
    let dated = drop 17 path in
    let idx = read_number 0 (drop 1 (drop 10 dated)) in
    let n = read_number 0 (drop 1 idx.1) in (take 10 dated, idx.0, n.0)

read_number-d5 :
    (n c : ℕ) (text : List ℕ)
    → n < 2 ^ 31
    → is_digit c ≡ false
    → read_number 0 (d5 n (c ∷ text)) ≡ (n, c ∷ text)
unfolding read_number
read_number-d5 n c text h d = read_number-digits 10 5 n (c ∷ text) (omega arith) ∙ rw d refl

read_path-whole :
    (date : List ℕ) (idx n : ℕ)
    → length date ≡ 10
    → idx < 2 ^ 31
    → n < 2 ^ 31
    → read_path (whole_dir date idx ++ d5 n dot_ts) ≡ (date, idx, n)
unfolding read_path is_digit
read_path-whole date idx n h i j =
    let slash : List ℕ = b'/' ∷ d5 n dot_ts in
    let tail : List ℕ = b'/' ∷ d5 idx slash in
    let e : whole_dir date idx ++ d5 n dot_ts ≡ dcim_root ++ (date ++ tail) = ap (◌++◌ dcim_root) (
      append_assoc date (b'/' ∷ d5 idx (b'/' ∷ [])) (d5 n dot_ts)
      ∙ ap (λ (t : List ℕ). date ++ b'/' ∷ t) (digits-append 10 5 idx (b'/' ∷ []) (d5 n dot_ts))) in
    let t : take 10 (date ++ tail) ≡ date =
      subst (λ k. take k (date ++ tail) ≡ date) h (take-append date tail) in
    let u : drop 10 (date ++ tail) ≡ tail =
      subst (λ k. drop k (date ++ tail) ≡ tail) h (drop-append date tail) in
    let r : read_number 0 (d5 idx slash) ≡ (idx, slash) =
      read_number-d5 idx b'/' (d5 n dot_ts) i refl in
    let q : read_number 0 (d5 n dot_ts) ≡ (n, dot_ts) =
      read_number-d5 n b'.' (b't' ∷ b's' ∷ []) j refl in
    rw e (rw t (rw u (rw r (rw q refl))))

folder_name_lem : (idx : ℕ) → idx < 10 ^ 7 → folder_name idx ≡ d5 idx []
unfolding folder_name
folder_name_lem idx h =
    let l = length-digits_below 7 10 5 idx [] (omega arith) (omega arith) h in
    snprintf_fits 8 _ (omega (arith, l))

day_path_lem : (date : List ℕ) → length date ≡ 10 → date_dir date ≡ day_path date ++ b'/' ∷ []
unfolding day_path
day_path_lem date h =
    let e : snprintf 64 (dcim_root ++ date) ≡ dcim_root ++ date =
      snprintf_fits 64 _ (omega (arith, length-append dcim_root date)) in
    rw e (date_dir_lem date h)

-- What the names of a segment are for.
pub record Named (date : List ℕ) (idx n : ℕ) : Type 0 where
  pub reads : read_path (ts_path (segment_dir (date_dir date) idx) n) ≡ (date, idx, n)
  pub playlist : m3u_path (segment_dir (date_dir date) idx) ≡ whole_dir date idx ++ index_m3u8
  pub folder : folder_name idx ≡ d5 idx []
  pub removed : date_dir date ≡ day_path date ++ b'/' ∷ []
  pub database : event_db_path (date_dir date) ≡ dcim_root ++ (date ++ b'/' ∷ event_logs_db)
  pub ts_template : HasTemplate (ts_path (segment_dir (date_dir date) idx) n)
  pub m3u_template : HasTemplate (m3u_path (segment_dir (date_dir date) idx))

-- The path of a .ts file gives back its day, its folder and its number, so that no two segments share
-- a file; the paths of the playlist and of the day's database, and the folder's name in that database,
-- are not cut by their buffers; the directory that a deletion of the day removes is the one that these
-- files are in; and `write_file_atomic` has room for its temporary name. The date has 10 bytes, the
-- folder's number is below 10 ^ 7, and the segment's number is not negative and fits an int.
pub paths-Named :
    (date : List ℕ) (idx n : ℕ) → length date ≡ 10 → idx < 10 ^ 7 → n < 2 ^ 31 → Named date idx n
paths-Named date idx n h i j =
    let w = length-whole_dir date idx h in
    let d = length-d5 n dot_ts in
    record {
      reads = rw (ts_path_lem date idx n h) (read_path-whole date idx n h (omega arith) j);
      playlist = m3u_path_lem date idx h;
      folder = folder_name_lem idx i;
      removed = day_path_lem date h;
      database = event_db_path_lem date h;
      ts_template = rw (ts_path_lem date idx n h) (
          short-HasTemplate _ (omega (arith, length-append (whole_dir date idx) (d5 n dot_ts), d)));
      m3u_template =
          rw (m3u_path_lem date idx h)
            (short-HasTemplate _ (omega (arith, length-append (whole_dir date idx) index_m3u8)));
    }
