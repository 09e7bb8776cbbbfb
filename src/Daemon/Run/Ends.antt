-- ===== src/Daemon/Run/Ends.antt =====
-- What `Run` of internal/daemon/service.go leaves behind when it ends.
use distil_proxy.Base.{
  ◌≡◌, ◌≢◌, refl, sym, inl, ◌∙◌, ℕ, Bool, true, false, ◌||◌, Option, none, some, List, arith,
  if◌then◌else◌,
}
use distil_proxy.Base.Int.{ℤ}
use distil_proxy.Base.Text.{Text}
use distil_proxy.Disk.{Disk, at, pid_file, status_file, Result, ok, err, same_path}
use distil_proxy.Disk.Success.{run_ok}
use distil_proxy.Daemon.Process.{Host, System, on_disk}
use distil_proxy.Daemon.Process.Stop.{IsPidFile}
use distil_proxy.Daemon.Files.Written.{IsStatusFile, write_status-IsStatusFile}
use distil_proxy.Config.{Config}
use distil_proxy.Ws.Client.{WsError}
use distil_proxy.Ws.Config.{NewClient, client, refused, new_client}
use distil_proxy.Daemon.Runtime.{Upgrader, Runtime, Activity, with_clock}
use distil_proxy.Daemon.Run.{
  Startup, ready, rolled_back, ClientEnd, finish_client, remove_own, linger, returned,
  close_runtime, final_status, returned_from, restart_process, replace_error, finish_run,
  run_client, run_checked, run_set_up, run_daemon, setup, client_config,
}
use distil_proxy.Daemon.Files.{RuntimeStatus, write_status, DaemonError, remove_pid_if_matches}
use distil_proxy.Daemon.Run.Late.{
  IsStopped, tells_release, IsApart, IsClosed, IsStatusFile-moved, linger-IsIdle,
}
use distil_proxy.Daemon.Run.Removed.{
  IsHonest, remove_pid_if_matches_ok, remove_pid_if_matches-Leaves,
}

-- A check tells of a release behind the last status.
abbrev pub told_late : ClientEnd → Bool
told_late end = tells_release end.before_removal || tells_release end.at_end

module _ (sys : System) where
  -- What stands on the disk when the run is over: a status that says so, and no PID file of this process.
  -- Its state is "stopped", or "restarting" where a check has told of a release behind the last status.
  unfoldable pub IsOver : ClientEnd → ℤ → Disk → Type 0
  IsOver end pid d =
      ((s : RuntimeStatus) × IsStatusFile sys.json d s × IsStopped (told_late end) s)
      × ¬ IsPidFile sys d pid

module _ (sys : System) (honest : IsHonest sys.faults) where
  returned_ok : (r : Result DaemonError (Unit {0})) → returned_from r ≡ returned none → r ≡ ok tt
  unfolding returned_from
  returned_ok (ok u) h = refl
  returned_ok (err e) h = ground arith

  not_named :
      (pid : ℤ) (d e : Disk)
      → e.files (at pid_file) ≡ d.files (at pid_file)
      → ¬ IsPidFile sys d pid
      → ¬ IsPidFile sys e pid
  unfolding IsPidFile
  not_named pid d e k n (c, f, g) = n (c, sym k ∙ f, g)

  lingered :
      (pid : ℤ) (u : Option Upgrader) (end : ClientEnd) (r : Runtime)
      → IsApart u
      → IsClosed sys (told_late end) r
      → ¬ IsPidFile sys r.host.disk pid
      → IsOver sys end pid (linger sys u end.at_end r).host.disk
  unfolding IsOver
  lingered pid u end r a c n =
      let i =
        linger-IsIdle sys (told_late end) u end.at_end (right (tells_release end.before_removal) _)
          a in
      ((i.closed r c).file, not_named pid r.host.disk _ (i.pid_kept r) n)
    where
      right : (a b : Bool) → b ≡ true → (a || b) ≡ true
      right true b h = refl
      right false b h = h

  removed :
      (pid : ℤ) (u : Option Upgrader) (end : ClientEnd) (r : Runtime)
      → IsApart u
      → IsClosed sys (told_late end) r
      → (remove_own sys pid u end (ok tt) r).0 ≡ returned none
      → IsOver sys end pid (remove_own sys pid u end (ok tt) r).1.host.disk
  unfolding remove_own on_disk same_path
  removed pid u end r a c h =
      let t = linger sys u end.before_removal r in
      let d =
        (linger-IsIdle sys (told_late end) u end.before_removal (λ h. rw h refl) a).closed r c in
      lingered pid u end _ a (kept t d) (
        remove_pid_if_matches_ok sys honest pid t.host.disk _
          (run_ok (remove_pid_if_matches sys.faults pid) (ok tt) t.host.disk (returned_ok _ h)))
    where
      kept :
          (t : Runtime)
          → IsClosed sys (told_late end) t
          → IsClosed sys (told_late end) (record t {
            host = record t.host { disk = (remove_pid_if_matches sys.faults pid t.host.disk).1 };
          })
      kept t c = record {
        memory = c.memory;
        file =
            let (s, f, k) = c.file in
            (
              s,
              IsStatusFile-moved sys (told_late end) t.host.disk _ s
                  ((remove_pid_if_matches-Leaves sys (at status_file) pid refl).kept t.host.disk) f,
              k,
            );
      }

  final-IsStopped : (told : Bool) (r : Runtime) → IsStopped told (final_status r)
  unfolding IsStopped final_status with_clock
  final-IsStopped told r = (refl, inl refl)

  closed :
      (pid : ℤ) (u : Option Upgrader) (end : ClientEnd) (r : Runtime)
      → IsApart u
      → (close_runtime sys pid u end r).0 ≡ returned none
      → IsOver sys end pid (close_runtime sys pid u end r).1.host.disk
  unfolding close_runtime on_disk
  closed pid u end r a = after (write_status sys.faults sys.json (final_status r) r.host.disk) refl
    where
      after :
          (s : Result DaemonError (Unit {0}) × Disk)
          → write_status sys.faults sys.json (final_status r) r.host.disk ≡ s
          → let t =
              remove_own sys pid u end s.0
                (record r { host = record r.host { disk = s.1 }; status = final_status r }) in
            t.0 ≡ returned none → IsOver sys end pid t.1.host.disk
      after (ok tt, d) e h =
          removed pid u end _ a
            (record {
              memory = final-IsStopped (told_late end) r;
              file = (
                final_status r,
                write_status-IsStatusFile sys.faults sys.json (final_status r) r.host.disk d e,
                final-IsStopped (told_late end) r,
              );
            })
            h
      after (err x, d) e h = unfold remove_own in ground arith

  module _ (replace : ℕ → Text → Option Text) where
    restart-ne-returned : (r : Runtime) → (restart_process sys replace r).0 ≢ returned none
    unfolding restart_process replace_error
    restart-ne-returned r h = ground arith

    finished :
        (pid : ℤ) (u : Option Upgrader) (checked : Bool) (end : ClientEnd) (r : Runtime)
        → IsApart u
        → (finish_run sys replace pid u checked end r).0 ≡ returned none
        → IsOver sys end pid (finish_run sys replace pid u checked end r).1.host.disk
    unfolding finish_run
    finished pid u checked end r a = split r.is_upgrade_requested end.error
      where
        split :
            (b : Bool) (o : Option Text)
            → let t =
                if b
                then restart_process sys replace r
                else finish_client sys replace pid u checked end o
                    (linger sys u end.before_mark r) in
              t.0 ≡ returned none → IsOver sys end pid t.1.host.disk
        split true o h = absurd (restart-ne-returned r h)
        split false (some e) h = unfold finish_client in ground arith
        split false none h = unfold finish_client in closed pid u end _ a h

    module _ (error_text : WsError → Text) (upgrader : Option Upgrader) (history : List Activity)
        (client_end : ClientEnd) (cfg : Config) (apart : IsApart upgrader) where
      run_checked-IsOver :
          (pid : ℤ) (s : Startup) (r : Runtime)
          → (run_checked sys replace error_text upgrader history client_end cfg pid s r).0
            ≡ returned none
          → IsOver sys client_end pid
              (run_checked sys replace error_text upgrader history client_end cfg pid s
                r).1.host.disk
      unfolding run_checked
      run_checked-IsOver pid rolled_back r h = absurd (restart-ne-returned r h)
      run_checked-IsOver pid (ready checked) r h = client_over (new_client (client_config cfg)) h
        where
          client_over :
              (c : NewClient)
              → let t =
                  run_client sys replace error_text upgrader history client_end cfg c pid checked
                    r in
                t.0 ≡ returned none → IsOver sys client_end pid t.1.host.disk
          client_over (refused e) h = unfold run_client in ground arith
          client_over (client _) h =
              unfold run_client in finished pid upgrader checked client_end _ apart h

      -- If no call of the file system fails as "no such file" on a file that is there, and an upgrade check changes
      -- neither the status file nor the PID file: a run that returns without an error, whatever happened while the
      -- client ran, and whatever steps a check that is still running then takes up to the end of the process,
      -- leaves a status file that says that the daemon does not run, in the state "stopped", or "restarting"
      -- where such a check tells of a release behind the last status, and no PID file with its number.
      pub run_daemon-IsOver :
          (pid : ℤ) (h : Host)
          → (run_daemon sys replace error_text upgrader history client_end cfg pid h).0
            ≡ returned none
          → IsOver sys client_end pid
              (run_daemon sys replace error_text upgrader history client_end cfg pid h).1.host.disk
      unfolding run_daemon
      run_daemon-IsOver pid h = set_up_over (setup sys pid h).0 _
        where
          set_up_over :
              (result : Result DaemonError (Unit {0})) (r : Runtime)
              → let t =
                  run_set_up sys replace error_text upgrader history client_end cfg pid result r in
                t.0 ≡ returned none → IsOver sys client_end pid t.1.host.disk
          set_up_over (err e) r h = unfold run_set_up in ground arith
          set_up_over (ok _) r h = unfold run_set_up in run_checked-IsOver pid _ _ h
