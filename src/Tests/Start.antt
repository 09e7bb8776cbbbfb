-- ===== src/Tests/Start.antt =====
-- A daemon that is started as process 77, and one of process 42 that stands in the way: internal/daemon/service.go.
use distil_proxy.Base.{◌==◌, if◌then◌else◌, ◌≡◌, refl, ℕ, Option, none, some, [], ◌∷◌}
use distil_proxy.Base.Int.{ℤ, pos}
use distil_proxy.Base.Text.{codes, Text}
use distil_proxy.Disk.{
  at, pid_file, IoError, ok, read_file, touch, write_file, rename, put, same_path, open_append,
}
use distil_proxy.Disk.Exec.{◌>>=◌, continue, attempt, mapping, wrap, lift, ignore, pure, raise}
use distil_proxy.Config.{ensure_state_dirs}
use distil_proxy.Daemon.Files.{read_pid, write_pid, write_status}
use distil_proxy.Daemon.Process.{
  Host, System, delivered, look, on_disk, process_running, is_running, owns, owned_by,
  daemon_owns_pid, runs_daemon, running_pid, running_pid_read,
}
use distil_proxy.Daemon.Process
use distil_proxy.Daemon.Process.Stop.{IsStopFrom}
use distil_proxy.Daemon.Start.{
  Launcher, on_host, open_log_file, start_command, give_up, terminate_process, recorded,
  record_status, numbered, register, start_at, start_unless, start, restart,
}
use distil_proxy.Daemon.Start.Launch.{IsLaunch, past, start-IsLaunch}
use distil_proxy.Daemon.Start.Again.{IsRestart, restart-IsRestart}
use distil_proxy.Daemon.Status.{status}
use distil_proxy.Daemon.Status.Truth.{Holds, IsTrue, status-IsTrue}
use distil_proxy.Tests.Daemon.{sys, host}

-- A codec that writes every status as the same byte.
abbrev pub plain : System
plain = record sys { json = record { encode = λ _. some (1 ∷ []); decode = λ _. none } }

abbrev pub spawn : ℕ → Text → Option ℤ
spawn _ _ = some (pos 77)

abbrev pub fresh : Launcher
fresh = record {
  host = record host { disk = record { files = λ _. none; calls = 0 } };
  spawned = [];
  killed = [];
}

abbrev beside : Launcher
beside = record fresh { host = host }

start_runs :
    ((start plain spawn fresh).0 ≡ ok tt) × ((start plain spawn fresh).1.spawned ≡ pos 77 ∷ [])
unfolding start start_unless start_at open_log_file start_command register numbered record_status
    recorded on_host on_disk look running_pid running_pid_read ◌>>=◌ continue attempt mapping wrap
    lift ignore pure raise read_pid write_pid write_status read_file write_file rename touch put
    open_append ensure_state_dirs same_path
start_runs = (refl, refl)

-- The write of the PID file breaks off behind the first digit.
abbrev broken : System
broken = record plain {
  faults = λ n.
      if n == 8 then some (record { error = IoError.other 5; left = some (codes "7") }) else none;
}

pid_file_left :
    ((start broken spawn fresh).1.killed ≡ pos 77 ∷ [])
    × ((start broken spawn fresh).1.host.disk.files (at pid_file) ≡ some (codes "7"))
unfolding start start_unless start_at open_log_file start_command register numbered record_status
    recorded on_host on_disk look running_pid running_pid_read give_up terminate_process ◌>>=◌
    continue attempt mapping wrap lift ignore pure raise read_pid write_pid write_status read_file
    write_file rename touch put open_append ensure_state_dirs same_path
pid_file_left = (refl, refl)

start-IsLaunch_example : let (t, n) = start plain spawn fresh in IsLaunch plain (past fresh) t n
start-IsLaunch_example = start-IsLaunch plain spawn fresh

restart-IsRestart_example :
    let (r, h) = Process.stop sys beside.host in
    let (t, n) = restart sys spawn beside in
    IsStopFrom sys beside.host h × IsRestart sys spawn (past (record beside { host = h })) r t n
restart-IsRestart_example = restart-IsRestart sys spawn beside

status-IsTrue_example : Holds (IsTrue sys host.disk) (status sys host).0
status-IsTrue_example = status-IsTrue sys host
