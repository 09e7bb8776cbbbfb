-- ===== src/Daemon/Files.antt =====
-- The PID file and the status file: the functions at the end of internal/daemon/service.go. Times are
-- milliseconds from a fixed day. The JSON codec is the parameter `StatusJson`.
pub mod RoundTrip
pub mod Written
use distil_proxy.Base.{Bool, true, false, Option, none, some, [], ◌∷◌, ◌++◌, if◌then◌else◌}
use distil_proxy.Base.Int.{ℤ, pos, eqb_ℤ}
use distil_proxy.Base.Text.{Text, Bytes, trim_space}
use distil_proxy.Base.Text.Decimal.{print_ℤ, atoi}
use distil_proxy.Disk.{
  Faults, at, tmp, pid_file, status_file, IoError, not_exist, Result, ok, err, read_file,
  write_file, remove, rename,
}
use distil_proxy.Disk.Exec.{Exec, pure, raise, lift, ◌>>=◌, ◌>>◌, mapping, attempt}
use distil_proxy.Config.{ensure_state_dirs}

pub record RuntimeStatus : Type 0 where
  pub pid : ℤ
  pub running : Bool
  pub ws_state : Text
  pub started_at : Option ℤ
  pub updated_at : Option ℤ
  pub last_heartbeat : Option ℤ
  pub jobs_served : ℤ
  pub uptime_seconds : ℤ
  pub last_error : Text
  pub connect_attempts : ℤ
  pub reconnects : ℤ
  pub jobs_success : ℤ
  pub jobs_error : ℤ
  pub avg_latency_ms : ℤ
  pub latency_le100_ms : ℤ
  pub latency_le500_ms : ℤ
  pub latency_le1000_ms : ℤ
  pub latency_gt1000_ms : ℤ

-- `RuntimeStatus{}`
abbrev pub blank_status : RuntimeStatus
blank_status = record {
  pid = pos 0;
  running = false;
  ws_state = [];
  started_at = none;
  updated_at = none;
  last_heartbeat = none;
  jobs_served = pos 0;
  uptime_seconds = pos 0;
  last_error = [];
  connect_attempts = pos 0;
  reconnects = pos 0;
  jobs_success = pos 0;
  jobs_error = pos 0;
  avg_latency_ms = pos 0;
  latency_le100_ms = pos 0;
  latency_le500_ms = pos 0;
  latency_le1000_ms = pos 0;
  latency_gt1000_ms = pos 0;
}

pub record StatusJson : Type 0 where
  pub encode : RuntimeStatus → Option Bytes
  pub decode : Bytes → Option RuntimeStatus

pub data DaemonError : Type 0 where
  not_running parse_pid_file encode_status decode_status : DaemonError
  file_error : IoError → DaemonError
  signal_failed : ℤ → DaemonError
  timed_out : ℤ → DaemonError
  -- the polls of the model are used up
  out_of_polls : DaemonError

module _ (faults : Faults) where
  -- `writePID`
  unfoldable pub write_pid : ℤ → Exec DaemonError (Unit {0})
  write_pid pid = do
    mapping file_error (ensure_state_dirs faults)
    mapping file_error (write_file faults (at pid_file) (print_ℤ pid ++ (10 ∷ [])))

  unfoldable pub parse_pid : Option ℤ → Result DaemonError ℤ
  parse_pid none = err parse_pid_file
  parse_pid (some pid) = ok pid

  -- `readPID`
  unfoldable pub read_pid : Exec DaemonError ℤ
  read_pid = do
    content ← mapping file_error (read_file faults (at pid_file))
    lift (parse_pid (atoi (trim_space content)))

  unfoldable pub or_absent : Result IoError (Unit {0}) → Exec DaemonError (Unit {0})
  or_absent (ok _) = pure tt
  or_absent (err not_exist) = pure tt
  or_absent (err e) = raise (file_error e)

  -- `removePID`
  unfoldable pub remove_pid : Exec DaemonError (Unit {0})
  remove_pid = do r ← attempt (remove faults (at pid_file)); or_absent r

  unfoldable pub remove_matching : ℤ → Result DaemonError ℤ → Exec DaemonError (Unit {0})
  remove_matching expected (err (file_error not_exist)) = pure tt
  remove_matching expected (err e) = raise e
  remove_matching expected (ok pid) = if eqb_ℤ pid expected then remove_pid else pure tt

  -- `removePIDIfMatches`
  unfoldable pub remove_pid_if_matches : ℤ → Exec DaemonError (Unit {0})
  remove_pid_if_matches expected = do r ← attempt read_pid; remove_matching expected r

module _ (faults : Faults) (json : StatusJson) where
  abbrev pub encoded : Option Bytes → Result DaemonError Bytes
  encoded none = err encode_status
  encoded (some payload) = ok (payload ++ (10 ∷ []))

  -- `writeStatus`
  unfoldable pub write_status : RuntimeStatus → Exec DaemonError (Unit {0})
  write_status status = do
    mapping file_error (ensure_state_dirs faults)
    payload ← lift (encoded (json.encode status))
    mapping file_error (write_file faults (tmp status_file) payload)
    mapping file_error (rename faults (tmp status_file) (at status_file))

  abbrev decoded : Option RuntimeStatus → Result DaemonError RuntimeStatus
  decoded none = err decode_status
  decoded (some status) = ok status

  -- `readStatus`
  unfoldable pub read_status : Exec DaemonError RuntimeStatus
  read_status = do
    content ← mapping file_error (read_file faults (at status_file))
    lift (decoded (json.decode content))
