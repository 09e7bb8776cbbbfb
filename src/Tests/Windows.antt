-- ===== src/Tests/Windows.antt =====
-- A daemon of process 42 on Windows, internal/daemon/platform_windows.go.
use mathlib.Core.Path.{subst}
use distil_proxy.Tests.Codec.{some_injective}
use distil_proxy.Daemon.Windows.Listed.{IsList, IsForeign}
use distil_proxy.Daemon.Windows.Missed.{stop-IsMissed}
use distil_proxy.Base.{◌≢◌, ℕ, ◌≡◌, refl, none, some, List, [], ◌∷◌, if◌then◌else◌}
use distil_proxy.Base.Int.{ℤ, pos}
use distil_proxy.Base.Text.{
  Text, codes, trim_space, cut_last, text_eq, strip_suffix, trim_left, trim_right, is_space,
}
use distil_proxy.Base.Text.Decimal.{atoi, print_ℤ}
use distil_proxy.Disk.{ok, err, read_file, remove, touch, same_path}
use distil_proxy.Disk.Exec.{◌>>=◌, continue, attempt, mapping, wrap, lift, ignore, pure, raise}
use distil_proxy.Config.{ensure_state_dirs}
use distil_proxy.Daemon.Command.{
  command_matches_executable, candidate_matches, same_executable_file, executable_identity,
  normalize_relative_command_path,
}
use distil_proxy.Daemon.Files.{
  not_running, read_pid, parse_pid, remove_pid, or_absent, read_status, write_status,
}
use distil_proxy.Daemon.Process.{
  System, delivered, is_running, look, on_disk, process_running, owns, owned_by, daemon_owns_pid,
  runs_daemon, write_stopped, mark_stopped, forget, stop_running, stop_read, stop,
}
use distil_proxy.Daemon.Windows.{
  Ended, check_process_exists, process_lookup_command, signal_process, on_windows,
}
use distil_proxy.Tests.Daemon.{sys, host}

-- `tasklist` prints the process, and `wmic` prints its command behind the name of the property.
abbrev runs : ℕ → List Text → Ended
runs _ [] = record { output = []; error = some 1 }
runs _ (program ∷ _) = record {
  output =
      if text_eq program (codes "wmic")
      then codes "\n\nCommandLine=/bin/d __run\n\n"
      else codes "\"d\",\"42\",\"Console\",\"1\",\"9 K\"\n";
  error = none;
}

abbrev windows : System
windows = on_windows runs (λ _ _ _. delivered) sys

process_found : check_process_exists runs 0 (pos 42) ≡ delivered
unfolding check_process_exists print_ℤ cut_last text_eq
process_found = refl

-- The daemon runs, and `Stop` says that it does not, and sends it nothing.
daemon_survives :
    ((stop windows host).0 ≡ err not_running) × ((stop windows host).1.terminated ≡ [])
unfolding on_windows signal_process check_process_exists process_lookup_command print_ℤ stop
    stop_read stop_running runs_daemon daemon_owns_pid owned_by owns process_running is_running look
    on_disk forget mark_stopped write_stopped ◌>>=◌ continue attempt mapping wrap lift ignore pure
    raise read_pid parse_pid remove_pid or_absent read_status read_file remove same_path atoi
    trim_space command_matches_executable cut_last text_eq write_status ensure_state_dirs touch
    strip_suffix
daemon_survives = (refl, refl)

listed :
    (n : ℕ) (pid : ℤ)
    → (runs n (process_lookup_command pid)).error ≡ none
    → IsList (runs n (process_lookup_command pid)).output
unfolding process_lookup_command text_eq trim_left is_space
listed n pid e = (codes "/bin/d __run\n\n", refl)

foreign :
    (n : ℕ) (path : Text)
    → sys.exec_path n ≡ some path
    → IsForeign sys.tree (trim_space (trim_space path))
foreign n path e =
    subst (λ p. IsForeign sys.tree (trim_space (trim_space p))) (some_injective _ path e) here
  where
    here : IsForeign sys.tree (trim_space (trim_space (codes "/bin/d")))
    here s =
        unfold candidate_matches same_executable_file executable_identity
          normalize_relative_command_path trim_space trim_left trim_right is_space text_eq in
        refl

stop-IsMissed_example :
    let (r, h') = stop (on_windows runs (λ _ _ _. delivered) sys) host in
    (h'.terminated ≡ []) × (r ≢ ok tt)
stop-IsMissed_example = stop-IsMissed runs (λ _ _ _. delivered) sys listed foreign host
