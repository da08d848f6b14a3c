-- ===== src/Utils.antt =====
-- src/utils.c: time and file helpers.
--
-- A system call's result is an argument: the value that the kernel returns. A path and a buffer are
-- lists of bytes.
pub mod Writes
pub mod Paths
use montion_sense.Prelude.{
  ℕ, zero, suc, ◌+◌, ◌-◌, ◌*◌, ◌/◌, ◌%◌, ◌^◌, Bool, true, false, ◌&&◌, ◌||◌, Option, none, some,
  List, [], ◌∷◌, ◌++◌, ltb, leb, ◌==◌, if◌then◌else◌, length, take, drop, Rc, ok, fail,
}

-- `struct timespec` of the monotonic clock, in milliseconds.
unfoldable pub now_ms : ℕ → ℕ → ℕ
now_ms tv_sec tv_nsec = tv_sec * 1000 + tv_nsec / 1000000

-- What `stat` and `lstat` find.
pub data Stat : Type 0 where
  missing unreadable directory other : Stat

-- The flag says whether `mkdir` succeeds.
unfoldable pub ensure_dir : Stat → Bool → Rc
ensure_dir directory mkdir = ok
ensure_dir other mkdir = fail
ensure_dir missing mkdir = if mkdir then ok else fail
ensure_dir unreadable mkdir = if mkdir then ok else fail

-- The offset of the last `/` of a path, as `strrchr` finds it.
unfoldable pub last_slash : List ℕ → Option ℕ
last_slash [] = none
last_slash (c ∷ cs) = elim (last_slash cs) [
  | some i ↦ some (suc i)
  | none ↦ if c == b'/' then some 0 else none
]

-- The directory whose entry `fsync_parent_dir` makes durable; `none` is its early -1.
unfoldable pub parent_dir : List ℕ → Option (List ℕ)
parent_dir path =
    if length path == 0 || leb 160 (length path) then none else elim (last_slash path) [
      | none ↦ none
      | some i ↦ if i == 0 then some (take 1 path) else some (take i path)
    ]

-- The flags say whether `open` and `fsync` of a directory succeed.
unfoldable pub fsync_parent_dir : List ℕ → (List ℕ → Bool) → (List ℕ → Bool) → Rc
fsync_parent_dir path opens syncs = elim (parent_dir path) [
  | none ↦ fail
  | some dir ↦ if opens dir && syncs dir then ok else fail
]

-- What one call of `write` returns.
pub data Write : Type 0 where
  wrote : ℕ → Write
  interrupted failed : Write

-- The loop of `write_all`, over the results of its calls of `write`, with the offset and with the
-- bytes of the file so far. `none` says that the loop still runs after these calls.
unfoldable pub write_loop : List Write → List ℕ → ℕ → List ℕ → Option (Rc × List ℕ)
write_loop [] buf off file = if ltb off (length buf) then none else some (ok, file)
write_loop (interrupted ∷ ws) buf off file =
    let again = write_loop ws buf off file in
    if ltb off (length buf) then again else some (ok, file)
write_loop (failed ∷ ws) buf off file =
    if ltb off (length buf) then some (fail, file) else some (ok, file)
write_loop (wrote n ∷ ws) buf off file =
    let more = write_loop ws buf (off + n) (file ++ take n (drop off buf)) in
    if ltb off (length buf) then more else some (ok, file)

unfoldable pub write_all : List Write → List ℕ → List ℕ → Option (Rc × List ℕ)
write_all ws buf file = write_loop ws buf 0 file

-- What `nftw` with `remove` returns for a tree, and `remove` for any other path, are flags.
unfoldable pub remove_path_tree : Stat → Bool → Bool → Rc
remove_path_tree missing removed unlinked = ok
remove_path_tree unreadable removed unlinked = fail
remove_path_tree directory removed unlinked = if removed then ok else fail
remove_path_tree other removed unlinked = if unlinked then ok else fail

-- `statvfs` gives the free blocks and their size, or fails.
unfoldable pub fs_free_mb : Option (ℕ × ℕ) → ℕ
fs_free_mb none = 2 ^ 32 - 1
fs_free_mb (some (f_bavail, f_frsize)) = f_bavail * f_frsize % 2 ^ 64 / 2 ^ 20 % 2 ^ 32
