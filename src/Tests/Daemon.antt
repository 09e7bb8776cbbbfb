-- ===== src/Tests/Daemon.antt =====
-- A daemon of process 42 that goes away when it is told to, in internal/daemon.
use distil_proxy.Base.{
  ◌≡◌, ◌≢◌, refl, ◌++◌, true, false, none, some, [], ◌∷◌, if◌then◌else◌, ltb, arith,
}
use distil_proxy.Base.Int.{pos}
use distil_proxy.Base.Text.{codes, trim_space, cut_last, text_eq}
use distil_proxy.Base.Text.Decimal.{atoi}
use distil_proxy.Disk.{at, pid_file, same_path, ok, err, write_file, read_file, remove, touch}
use distil_proxy.Disk.Exec.{◌>>=◌, continue, attempt, mapping, wrap, lift, ignore, pure, raise}
use distil_proxy.Config.{ensure_state_dirs}
use distil_proxy.Daemon.Command.{FileTree, command_matches_executable}
use distil_proxy.Daemon.Files.{
  out_of_polls, write_pid, read_pid, parse_pid, remove_pid, or_absent, read_status,
}
use distil_proxy.Daemon.Files.RoundTrip.{read_pid-write_pid}
use distil_proxy.Daemon.Process.{
  Host, System, delivered, no_such_process, is_running, look, on_disk, process_running, owns,
  owned_by, daemon_owns_pid, runs_daemon, write_stopped, mark_stopped, forget, after_poll,
  wait_gone, send_term, signalled, stop_running, stop_read, stop,
}
use distil_proxy.Daemon.Process.Stop.{IsStopFrom, stop-IsStopFrom}
use distil_proxy.Daemon.Process.Ends.{stop_ends}

abbrev pub tree : FileTree
tree = record {
  is_abs = λ _. true;
  clean = λ path. path;
  join = λ a b. a ++ b;
  dir = λ path. path;
  eval_symlinks = λ _. none;
  stat = λ _. none;
  same_file = λ _ _. false;
}

abbrev pub sys : System
sys = record {
  faults = λ _. none;
  json = record { encode = λ _. none; decode = λ _. none };
  tree = tree;
  signal_zero = λ n _. if ltb n 7 then delivered else no_such_process;
  signal_term = λ _ _. delivered;
  ps = λ _ _. some (codes "/bin/d __run");
  exec_path = λ _. some (codes "/bin/d");
  elapsed = λ _. 3;
}

abbrev pub host : Host
host = record {
  disk = record {
    files = λ p. if same_path p (at pid_file) then some (codes "42") else none;
    calls = 0;
  };
  clock = 0;
  looks = 0;
  terminated = [];
}

stop_runs : ((stop sys host).0 ≡ ok tt) × ((stop sys host).1.terminated ≡ pos 42 ∷ [])
unfolding stop stop_read stop_running send_term signalled wait_gone after_poll runs_daemon
    daemon_owns_pid owned_by owns process_running is_running look on_disk forget mark_stopped
    write_stopped ◌>>=◌ continue attempt mapping wrap lift ignore pure raise read_pid parse_pid
    remove_pid or_absent read_status read_file remove same_path atoi trim_space
    command_matches_executable cut_last text_eq
stop_runs = (refl, refl)

stop-IsStopFrom_example : IsStopFrom sys host (stop sys host).1
stop-IsStopFrom_example = stop-IsStopFrom sys host

stop_ends_example : (stop sys host).0 ≢ err out_of_polls
stop_ends_example = stop_ends sys host

read_pid-write_pid_example :
    (read_pid sys.faults (write_pid sys.faults (pos 42) host.disk).1).0 ≡ ok (pos 42)
unfolding write_pid ensure_state_dirs write_file touch ◌>>=◌ continue mapping wrap
read_pid-write_pid_example =
    read_pid-write_pid sys.faults (pos 42) host.disk (omega arith) refl refl
