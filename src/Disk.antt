-- ===== src/Disk.antt =====
-- The file system, as far as the program uses package os: the contents of the files that it names,
-- and for each call whether it fails. A failed write may leave anything in its file.
pub mod Exec
pub mod Leaves
pub mod Success
use distil_proxy.Base.{
  ℕ, suc, ◌+◌, ◌*◌, Bool, true, false, Option, none, some, List, [], ◌==◌, if◌then◌else◌,
}
use distil_proxy.Base.Text.{Bytes}

-- The files of `config.Paths`, of `upgrade.ManagerConfig` and of the service. Their paths differ:
-- `~/.distil-proxy/config.json`, `distil-proxy.pid`, …; the executable, with `.new` and with `.bak`.
pub data Place : Type 0 where
  config_file pid_file status_file upgrade_state log_file : Place
  binary temp_binary backup service_file : Place

-- A file, or the one beside it with `.tmp` behind its name.
pub data FilePath : Type 0 where
  at : Place → FilePath
  tmp : Place → FilePath

index : Place → ℕ
index config_file = 0
index pid_file = 1
index status_file = 2
index upgrade_state = 3
index log_file = 4
index binary = 5
index temp_binary = 6
index backup = 7
index service_file = 8

abbrev path_index : FilePath → ℕ
unfolding index
path_index (at p) = 2 * index p
path_index (tmp p) = 2 * index p + 1

unfoldable pub same_path : FilePath → FilePath → Bool
unfolding path_index
same_path p q = path_index p == path_index q

-- `ErrNotExist`, the errors that `shouldRetryReplace` looks for, and any other.
pub data IoError : Type 0 where
  not_exist already_exists not_empty is_directory not_directory not_permitted : IoError
  other : ℕ → IoError

pub record Fault : Type 0 where
  pub error : IoError
  pub left : Option Bytes

abbrev pub Files : Type 0
Files = FilePath → Option Bytes

-- The files, and how many calls were made.
pub record Disk : Type 0 where
  pub files : Files
  pub calls : ℕ

-- What the n-th call of the run meets; `none` where it goes through.
abbrev pub Faults : Type 0
Faults = ℕ → Option Fault

pub data Result {ℓ} (E A : Type ℓ) : Type ℓ where
  ok : A → Result E A
  err : E → Result E A

unfoldable pub put : FilePath → Option Bytes → Files → Files
unfolding same_path
put p content files q = if same_path p q then content else files q

module _ (faults : Faults) where
  abbrev next : Disk → Disk
  next d = record d { calls = d.calls + 1 }

  abbrev found : Option Bytes → Result IoError Bytes
  found none = err not_exist
  found (some content) = ok content

  -- `os.ReadFile`
  unfoldable pub read_file : FilePath → Disk → Result IoError Bytes × Disk
  read_file p d = elim (faults d.calls) [
    | some f ↦ (err f.error, next d)
    | none ↦ (found (d.files p), next d)
  ]

  -- `os.WriteFile`, and a file opened with `O_TRUNC` and filled
  unfoldable pub write_file : FilePath → Bytes → Disk → Result IoError (Unit {0}) × Disk
  write_file p content d = elim (faults d.calls) [
    | some f ↦ (err f.error, record (next d) { files = put p f.left d.files })
    | none ↦ (ok tt, record (next d) { files = put p (some content) d.files })
  ]

  abbrev pub removed : FilePath → Option Bytes → Disk → Result IoError (Unit {0}) × Disk
  removed p none d = (err not_exist, d)
  removed p (some _) d = (ok tt, record d { files = put p none d.files })

  -- `os.Remove`
  unfoldable pub remove : FilePath → Disk → Result IoError (Unit {0}) × Disk
  unfolding put
  remove p d = elim (faults d.calls) [
    | some f ↦ (err f.error, next d)
    | none ↦ removed p (d.files p) (next d)
  ]

  abbrev renamed : FilePath → FilePath → Option Bytes → Disk → Result IoError (Unit {0}) × Disk
  renamed p q none d = (err not_exist, d)
  renamed p q (some content) d =
      (ok tt, record d { files = put q (some content) (put p none d.files) })

  -- `os.Rename`, which replaces the target at once
  unfoldable pub rename : FilePath → FilePath → Disk → Result IoError (Unit {0}) × Disk
  unfolding put
  rename p q d = elim (faults d.calls) [
    | some f ↦ (err f.error, next d)
    | none ↦ renamed p q (d.files p) (next d)
  ]

  abbrev or_new : Option Bytes → Bytes
  or_new none = []
  or_new (some content) = content

  -- `os.OpenFile` with `O_CREATE|O_APPEND`
  unfoldable pub open_append : FilePath → Disk → Result IoError (Unit {0}) × Disk
  unfolding put
  open_append p d = elim (faults d.calls) [
    | some f ↦ (err f.error, next d)
    | none ↦ (ok tt, record (next d) { files = put p (some (or_new (d.files p))) d.files })
  ]

  -- A call that changes no contents: `MkdirAll`, `Chmod`, `Close`.
  unfoldable pub touch : Disk → Result IoError (Unit {0}) × Disk
  touch d = elim (faults d.calls) [ some f ↦ (err f.error, next d) | none ↦ (ok tt, next d) ]
