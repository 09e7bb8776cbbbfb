-- ===== src/Cli/Uninstall.antt =====
-- The `uninstall` command of internal/cli/commands.go, on top of internal/daemon and internal/platform. What lies at the
-- two links, which files are under the runtime directory, and what a failed `os.RemoveAll` leaves are parameters.
pub mod Links
pub mod Removed
use distil_proxy.Base.{
  ℕ, ◌+◌, Bool, true, false, ◌&&◌, not, Option, none, some, List, [], ◌∷◌, ◌==◌, if◌then◌else◌,
}
use distil_proxy.Base.Text.{Text, Bytes, codes}
use distil_proxy.Disk.{Disk, Faults, Fault, FilePath, IoError, not_exist, Result, ok, err}
use distil_proxy.Disk.Exec.{Action, pure, raise, ◌>>=◌, ◌>>◌, mapping, wrap, attempt}
use distil_proxy.Config.Paths.{PathsError, Paths, detect_paths}
use distil_proxy.Daemon.Files.{DaemonError, not_running}
use distil_proxy.Daemon.Process.{Host, System, Control, stop}
use distil_proxy.Platform.Service.{Machine, ServiceError, Serving, remove_service_definitions}

-- `/usr/local/bin/distil-proxy`, and `.local/bin/distil-proxy` in the home directory
pub data Link : Type 0 where
  global_link local_link : Link

unfoldable pub same_link : Link → Link → Bool
same_link global_link global_link = true
same_link local_link local_link = true
same_link _ _ = false

-- What `os.Lstat` finds
pub data Entry : Type 0 where
  absent symlink occupied : Entry

pub record Desk : Type 0 where
  pub host : Host
  pub ran : List (List Text)
  pub links : Link → Entry

pub data UninstallError : Type 0 where
  no_home : PathsError → UninstallError
  stop_failed : DaemonError → UninstallError
  service_failed : ServiceError → UninstallError
  lstat_failed remove_link remove_root : IoError → UninstallError

abbrev pub Uninstalling : Type 0 → Type 0
Uninstalling A = Action Desk UninstallError A

abbrev pub with_disk : Disk → Desk → Desk
with_disk d s = record s { host = record s.host { disk = d } }

-- One more call of package os
abbrev pub counted : Desk → Desk
counted s = with_disk (record s.host.disk { calls = s.host.disk.calls + 1 }) s

abbrev pub lstat_of : Entry → Result IoError Entry
lstat_of absent = err not_exist
lstat_of e = ok e

module _ (sys : System) (runs : ℕ → List Text → Bool) (is_print : ℕ → Bool)
    (in_root : FilePath → Bool) (spared : ℕ → FilePath → Bool) where
  unfoldable pub on_host : {A : Type 0} → Control A → Action Desk DaemonError A
  on_host m s = let (r, h) = m s.host in (r, record s { host = h })

  unfoldable pub on_machine : {A : Type 0} → Serving A → Uninstalling A
  on_machine m s =
      let (r, t) = m (record { disk = s.host.disk; ran = s.ran }) in
      (wrap service_failed r, record (with_disk t.disk s) { ran = t.ran })

  -- `os.Lstat`
  unfoldable pub lstat : Link → Action Desk IoError Entry
  lstat link s = elim (sys.faults s.host.disk.calls) [
    | some f ↦ (err f.error, counted s)
    | none ↦ (lstat_of (s.links link), counted s)
  ]

  -- `os.Remove` of a link that is there
  unfoldable pub unlink : Link → Uninstalling (Unit {0})
  unfolding same_link
  unlink link s = elim (sys.faults s.host.disk.calls) [
    | some f ↦ (err (remove_link f.error), counted s)
    | none ↦
        (ok tt, record (counted s) { links = λ l. if same_link link l then absent else s.links l })
  ]

  unfoldable pub remove_found : Link → Result IoError Entry → Uninstalling (Unit {0})
  remove_found link (ok symlink) = unlink link
  remove_found link (ok _) = pure tt
  remove_found link (err not_exist) = pure tt
  remove_found link (err e) = raise (lstat_failed e)

  -- `removeSymlinkIfPresent`
  unfoldable pub remove_symlink_if_present : Link → Uninstalling (Unit {0})
  remove_symlink_if_present link = do r ← attempt (lstat link); remove_found link r

  -- `os.RemoveAll` of the runtime directory
  unfoldable pub remove_all : Uninstalling (Unit {0})
  remove_all s = elim (sys.faults s.host.disk.calls) [
    | some f ↦ (
      err (remove_root f.error),
      with_disk
          (record {
            files = λ p.
                if in_root p && not (spared s.host.disk.calls p) then none else s.host.disk.files p;
            calls = s.host.disk.calls + 1;
          })
          s,
    )
    | none ↦ (
      ok tt,
      with_disk
          (record {
            files = λ p. if in_root p then none else s.host.disk.files p;
            calls = s.host.disk.calls + 1;
          })
          s,
    )
  ]

  -- The command behind `Stop`
  unfoldable pub clear_files : Text → Text → Uninstalling (Unit {0})
  clear_files goos home_dir = do
    on_machine (remove_service_definitions sys.faults runs is_print goos home_dir)
    remove_symlink_if_present global_link
    remove_symlink_if_present local_link
    remove_all

  unfoldable pub after_stop : Text → Text → Result DaemonError (Unit {0}) → Uninstalling (Unit {0})
  after_stop goos home_dir (ok _) = clear_files goos home_dir
  after_stop goos home_dir (err not_running) = clear_files goos home_dir
  after_stop goos home_dir (err e) = raise (stop_failed e)

  unfoldable pub uninstall_at : Text → Result PathsError Paths → Uninstalling (Unit {0})
  uninstall_at goos (err e) = raise (no_home e)
  uninstall_at goos (ok paths) = do
    r ← attempt (on_host (stop sys))
    after_stop goos paths.home_dir r

  -- The `uninstall` command, with `platformGOOS` and what `os.UserHomeDir` gives
  unfoldable pub uninstall : Text → Option Text → Uninstalling (Unit {0})
  uninstall goos home = uninstall_at goos (detect_paths home)
