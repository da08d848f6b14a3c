-- ===== src/Storage/AtomicFile.antt =====
-- src/storage.c, `failpoint_hit` and `write_file_atomic`.
--
-- A disk gives the file of each path. A file whose bytes are not synced may have any bytes after a
-- loss of power, so the order of `fsync` and `rename` counts.
pub mod Crash
use montion_sense.Prelude.{
  same_bytes, ℕ, ◌+◌, Bool, true, false, ◌&&◌, not, Option, none, some, List, [], ◌∷◌, ◌++◌, leb,
  if◌then◌else◌, length, Rc, ok, fail,
}
use montion_sense.Utils.{Write, write_all, fsync_parent_dir}

pub record File : Type 0 where
  pub bytes : List ℕ
  pub synced : Bool

abbrev pub Disk : Type 0
Disk = List ℕ → Option File

unfoldable pub put : Disk → List ℕ → Option File → Disk
put disk path file q = if same_bytes path q then file else disk q

abbrev pub synced_file : Option File → Option File
synced_file none = none
synced_file (some f) = some (record f { synced = true })

-- The value of MS_STORAGE_FAILPOINT: a name that `write_file_atomic` tests, or another one.
pub data Failpoint : Type 0 where
  write_before_rename write_after_rename other_name : Failpoint

unfoldable pub failpoint_hit : Option Failpoint → Failpoint → Bool
failpoint_hit (some write_before_rename) write_before_rename = true
failpoint_hit (some write_after_rename) write_after_rename = true
failpoint_hit (some other_name) other_name = true
failpoint_hit _ _ = false

-- What the system answers during one call: the letters that `mkstemp` puts for the six X, the results
-- of the writes, and whether the other calls succeed.
pub record System : Type 0 where
  pub letters : Option (List ℕ)
  pub writes : List Write
  pub fsync : Bool
  pub close : Bool
  pub rename : Bool
  pub unlink : Bool
  pub opens_dir : List ℕ → Bool
  pub syncs_dir : List ℕ → Bool
  pub failpoint : Option Failpoint

-- `"%s.tmp."`, the part of the name that is fixed.
abbrev pub template : List ℕ → List ℕ
template path = path ++ b'.' ∷ b't' ∷ b'm' ∷ b'p' ∷ b'.' ∷ []

-- The steps of `write_file_atomic` under `rc == 0`: the result so far, and the disk.
module _ (sys : System) (tmp path : List ℕ) where
  unfoldable pub fsync_step : Rc × Disk → Rc × Disk
  fsync_step (fail, d) = (fail, d)
  fsync_step (ok, d) = if sys.fsync then (ok, put d tmp (synced_file (d tmp))) else (fail, d)

  -- `close` is called whatever happened before.
  unfoldable pub close_step : Rc × Disk → Rc × Disk
  close_step (rc, d) = (if sys.close then rc else fail, d)

  unfoldable pub failpoint_step : Failpoint → Rc × Disk → Rc × Disk
  failpoint_step name (fail, d) = (fail, d)
  failpoint_step name (ok, d) = (if failpoint_hit sys.failpoint name then fail else ok, d)

  unfoldable pub rename_step : Rc × Disk → Rc × Disk
  rename_step (fail, d) = (fail, d)
  rename_step (ok, d) = if sys.rename then (ok, put (put d path (d tmp)) tmp none) else (fail, d)

  unfoldable pub fsync_dir_step : Rc × Disk → Rc × Disk
  fsync_dir_step (fail, d) = (fail, d)
  fsync_dir_step (ok, d) = (fsync_parent_dir path sys.opens_dir sys.syncs_dir, d)

  unfoldable pub unlink_step : Rc × Disk → Rc × Disk
  unlink_step (ok, d) = (ok, d)
  unlink_step (fail, d) = (fail, if sys.unlink then put d tmp none else d)

  -- The result, and the disk after each step that can change it, the last first.
  unfoldable pub after_write : Disk → Rc × List ℕ → Rc × List Disk
  after_write d (rc, bytes) =
      let opened = put d tmp (some (record { bytes = []; synced = false })) in
      let written = put opened tmp (some (record { bytes = bytes; synced = false })) in
      let flushed = fsync_step (rc, written) in
      let renamed = rename_step (failpoint_step write_before_rename (close_step flushed)) in
      let (result, end) =
        unlink_step (fsync_dir_step (failpoint_step write_after_rename renamed)) in
      (result, end ∷ renamed.1 ∷ flushed.1 ∷ written ∷ opened ∷ d ∷ [])

-- `none` says that `write_all` still runs after these writes.
unfoldable pub write_file_atomic : System → List ℕ → List ℕ → Disk → Option (Rc × List Disk)
write_file_atomic sys path payload d =
    if leb 192 (length path + 11) then some (fail, d ∷ []) else elim sys.letters [
      | none ↦ some (fail, d ∷ [])
      | some xs ↦ elim (write_all sys.writes payload []) [
        | none ↦ none
        | some w ↦ some (after_write sys (template path ++ xs) path d w)
      ]
    ]
