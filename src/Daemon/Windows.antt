-- ===== src/Daemon/Windows.antt =====
-- internal/daemon/platform_windows.go. What a command answers is the parameter `runs`, and what the calls of package os
-- do with a process is `delivers`.
pub mod Listed
pub mod Missed
use distil_proxy.Base.{
  ℕ, Bool, true, false, ◌||◌, Option, none, some, List, [], ◌∷◌, ◌++◌, if◌then◌else◌,
}
use distil_proxy.Base.Int.{ℤ}
use distil_proxy.Base.Text.{Text, codes, cut_last, to_lower}
use distil_proxy.Base.Text.Decimal.{print_ℤ}
use distil_proxy.Daemon.Process.{Signalled, delivered, no_such_process, refused, System}

-- What a command has printed, and the error it ended with
pub record Ended : Type 0 where
  pub output : Text
  pub error : Option ℕ

pub data Signal : Type 0 where
  sig_term sig_zero : Signal
  other_signal : ℕ → Signal

abbrev contains : Text → Text → Bool
contains s part = elim (cut_last part s) [ none ↦ false | some _ ↦ true ]

-- `noSuchProcessOutput`
unfoldable pub no_such_process_output : Text → Bool
no_such_process_output output =
    let text = to_lower output in
    contains text (codes "not found") || contains text (codes "no running instance")

abbrev pub tasklist : ℤ → List Text
tasklist pid =
    codes "tasklist"
    ∷ codes "/FI"
    ∷ (codes "PID eq " ++ print_ℤ pid)
    ∷ codes "/FO"
    ∷ codes "CSV"
    ∷ codes "/NH"
    ∷ []

abbrev pub taskkill : ℤ → List Text
taskkill pid = codes "taskkill" ∷ codes "/PID" ∷ print_ℤ pid ∷ codes "/T" ∷ codes "/F" ∷ []

-- `processLookupCommand`
unfoldable pub process_lookup_command : ℤ → List Text
process_lookup_command pid =
    codes "wmic"
    ∷ codes "process"
    ∷ codes "where"
    ∷ (codes "ProcessId=" ++ print_ℤ pid)
    ∷ codes "get"
    ∷ codes "CommandLine"
    ∷ codes "/value"
    ∷ []

module _ (runs : ℕ → List Text → Ended) where
  -- `checkProcessExists`
  unfoldable pub check_process_exists : ℕ → ℤ → Signalled
  check_process_exists n pid =
      let ended = runs n (tasklist pid) in
      elim ended.error [
        | some e ↦ refused e
        | none ↦
            if contains ended.output (codes ",\"" ++ (print_ℤ pid ++ codes "\","))
            then delivered
            else no_such_process
      ]

  unfoldable pub kill_task : ℕ → ℤ → Signalled
  kill_task n pid =
      let ended = runs n (taskkill pid) in
      elim ended.error [
        | none ↦ delivered
        | some e ↦ if no_such_process_output ended.output then no_such_process else refused e
      ]

  -- `signalProcess`
  unfoldable pub signal_process : (ℕ → ℤ → ℕ → Signalled) → ℕ → ℤ → Signal → Signalled
  signal_process delivers n pid sig_zero = check_process_exists n pid
  signal_process delivers n pid sig_term = kill_task n pid
  signal_process delivers n pid (other_signal s) = delivers n pid s

  abbrev pub printed : Ended → Option Text
  printed ended = elim ended.error [ none ↦ some ended.output | some _ ↦ none ]

  -- The processes as this platform tells of them
  unfoldable pub on_windows : (ℕ → ℤ → ℕ → Signalled) → System → System
  on_windows delivers sys = record sys {
    signal_zero = λ n pid. signal_process delivers n pid sig_zero;
    signal_term = λ n pid. signal_process delivers n pid sig_term;
    ps = λ n pid. printed (runs n (process_lookup_command pid));
  }

-- `execReplace`: a new process starts, and this one exits. `starts` gives the error of `cmd.Start`.
unfoldable pub exec_replace : (Text → Option Text) → Text → Option Text
exec_replace starts path = elim (starts path) [
  | none ↦ none
  | some e ↦ some (codes "start replacement process: " ++ e)
]
