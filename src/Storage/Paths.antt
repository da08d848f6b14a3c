-- ===== src/Storage/Paths.antt =====
-- The names on the card: src/storage.c, `today_string`, `count_subdirs` and the calls of snprintf;
-- src/storage_db.c, `event_db_open`, `event_db_add_segment` and the paths of `retention_process_tasks`;
-- the sizes of src/storage_internal.h.
pub mod Numbers
pub mod Names
pub mod Dates
pub mod Folders
use montion_sense.Prelude.{
  ℕ, zero, suc, ◌+◌, ◌-◌, ◌/◌, ◌%◌, Bool, true, false, ◌&&◌, ◌||◌, not, Option, none, some, List,
  [], ◌∷◌, ◌++◌, ◌==◌, ltb, leb, if◌then◌else◌, length, take, same_bytes,
}

-- `snprintf` into a buffer of this size: the text, cut so that its terminator fits.
unfoldable pub snprintf : ℕ → List ℕ → List ℕ
snprintf size text = take (size - 1) text

-- The decimal digits of a number, at least `width` and at most `fuel` of them, before a text.
unfoldable pub digits : ℕ → ℕ → ℕ → List ℕ → List ℕ
digits zero width n text = text
digits (suc fuel) width n text =
    let more = digits fuel (width - 1) (n / 10) ((b'0' + n % 10) ∷ text) in
    if width == 0 && n == 0 then text else more

-- `%05d` before a text: an int that is not negative has at most 10 digits.
abbrev pub d5 : ℕ → List ℕ → List ℕ
d5 n text = digits 10 5 n text

-- CFG_DCIM_ROOT
abbrev pub dcim_root : List ℕ
dcim_root =
    b'/' ∷ b'm' ∷ b'n' ∷ b't' ∷ b'/' ∷ b's' ∷ b'd' ∷ b'c' ∷ b'a' ∷ b'r' ∷ b'd' ∷ b'/' ∷ b'D' ∷ b'C'
    ∷ b'I' ∷ b'M' ∷ b'/' ∷ []

abbrev pub dot_ts : List ℕ
dot_ts = b'.' ∷ b't' ∷ b's' ∷ []

abbrev pub index_m3u8 : List ℕ
index_m3u8 = b'i' ∷ b'n' ∷ b'd' ∷ b'e' ∷ b'x' ∷ b'.' ∷ b'm' ∷ b'3' ∷ b'u' ∷ b'8' ∷ []

abbrev pub event_logs_db : List ℕ
event_logs_db =
    b'E' ∷ b'v' ∷ b'e' ∷ b'n' ∷ b't' ∷ b'L' ∷ b'o' ∷ b'g' ∷ b's' ∷ b'.' ∷ b'd' ∷ b'b' ∷ []

-- `ws->date_dir`
unfoldable pub date_dir : List ℕ → List ℕ
date_dir date = snprintf 64 (dcim_root ++ date ++ b'/' ∷ [])

-- `ws->segment_dir`, of `date_dir` and `interrupt_idx`
unfoldable pub segment_dir : List ℕ → ℕ → List ℕ
segment_dir dir idx = snprintf 96 (dir ++ d5 idx (b'/' ∷ []))

unfoldable pub ts_name : ℕ → List ℕ
ts_name ts_idx = snprintf 16 (d5 ts_idx dot_ts)

unfoldable pub ts_path : List ℕ → ℕ → List ℕ
ts_path dir ts_idx = snprintf 160 (dir ++ ts_name ts_idx)

unfoldable pub m3u_path : List ℕ → List ℕ
m3u_path dir = snprintf 160 (dir ++ index_m3u8)

-- The path of `event_db_open`.
unfoldable pub event_db_path : List ℕ → List ℕ
event_db_path dir = snprintf 96 (dir ++ event_logs_db)

-- `folder` of `event_db_add_segment`
unfoldable pub folder_name : ℕ → List ℕ
folder_name idx = snprintf 8 (d5 idx [])

-- The template of `write_file_atomic`, which gives up when it does not fit.
unfoldable pub tmp_template : List ℕ → Option (List ℕ)
tmp_template path =
    let text =
      path ++ b'.' ∷ b't' ∷ b'm' ∷ b'p' ∷ b'.' ∷ b'X' ∷ b'X' ∷ b'X' ∷ b'X' ∷ b'X' ∷ b'X' ∷ [] in
    if leb 192 (length text) then none else some text

-- The day's directory that `retention_process_tasks` removes.
unfoldable pub day_path : List ℕ → List ℕ
day_path date = snprintf 64 (dcim_root ++ date)

-- `"%Y-%m-%d"`, by the year, the month from 1 and the day.
unfoldable pub today_string : ℕ → ℕ → ℕ → List ℕ
today_string year month day =
    digits 10 4 year (b'-' ∷ digits 10 2 month (b'-' ∷ digits 10 2 day []))

-- `struct tm`, with the month from 1.
pub record LocalTime : Type 0 where
  pub year : ℕ
  pub month : ℕ
  pub day : ℕ
  pub yday : ℕ
  pub hour : ℕ
  pub minute : ℕ
  pub second : ℕ

-- `start_time` of `event_db_add_segment`, with the microseconds of `gettimeofday`.
unfoldable pub start_time : LocalTime → ℕ → List ℕ
start_time tm usec = snprintf 32 (
    digits 10 2 tm.hour
      (b':' ∷ digits 10 2 tm.minute (b':' ∷ digits 10 2 tm.second (b'.' ∷ digits 10 6 usec []))))

-- An entry of a directory: whether it is one itself, and its name.
unfoldable pub is_subdir : Bool × List ℕ → Bool
is_subdir (dir, name) =
    dir && not (same_bytes name (b'.' ∷ []) || same_bytes name (b'.' ∷ b'.' ∷ []))

-- `none` is a directory that cannot be opened.
unfoldable pub count_entries : List (Bool × List ℕ) → ℕ
count_entries [] = 0
count_entries (e ∷ es) = let n = count_entries es in if is_subdir e then suc n else n

unfoldable pub count_subdirs : Option (List (Bool × List ℕ)) → ℕ
count_subdirs none = 0
count_subdirs (some es) = count_entries es

-- The directory of a day once `open_today` has made the folder of its segment, if it could.
unfoldable pub make_folder : Bool → List (Bool × List ℕ) → List (Bool × List ℕ)
make_folder made es = if made then (true, d5 (count_subdirs (some es)) []) ∷ es else es
