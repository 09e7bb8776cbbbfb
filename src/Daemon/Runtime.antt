-- ===== src/Daemon/Runtime.antt =====
-- What `Run` of internal/daemon/service.go does while its client runs: the hooks, the ticker of the status and the
-- upgrade checks. The mutex of the status makes each of them one step; so is an upgrade check.
pub mod Counts
pub mod View
use distil_proxy.Base.{
  ℕ, ◌+◌, Bool, true, false, Option, none, some, List, [], ◌∷◌, ◌++◌, if◌then◌else◌,
}
use distil_proxy.Base.Int.{ℤ, pos}
use distil_proxy.Base.Text.{Text, codes, text_eq}
use distil_proxy.Disk.{Result, ok, err}
use distil_proxy.Disk.Exec.{Exec}
use distil_proxy.Observability.Metrics.{
  Metrics, Snapshot, zero_metrics, inc_connect_attempts, inc_reconnects, record_job, snapshot,
}
use distil_proxy.Ws.Client.{WsError, Event, state_changed, heartbeat_seen, job_result, error_seen}
use distil_proxy.Daemon.Files.{RuntimeStatus, write_status}
use distil_proxy.Daemon.Process.{Host, System, on_disk}
use distil_proxy.Daemon.Start.{new_status}
use distil_proxy.Daemon.Status.{seconds_since}

-- The interface `upgradeManager`, without the interval. Errors are what `%v` prints of them.
pub record Upgrader : Type 0 where
  -- whether the release was rolled back
  pub handle_startup : Exec Text Bool
  -- whether a release was applied
  pub check_and_upgrade : Exec Text Bool
  pub mark_clean_shutdown : Exec Text (Unit {0})

-- The variables of `Run`: the status, its start in milliseconds, the metrics and `upgradeRequested`.
pub record Runtime : Type 0 where
  pub host : Host
  pub status : RuntimeStatus
  pub started : ℕ
  pub metrics : Metrics
  pub is_upgrade_requested : Bool

-- The variables of `Run` at their declarations
unfoldable pub new_runtime : ℤ → Host → Runtime
new_runtime pid h = record {
  host = h;
  status = new_status pid (codes "disconnected") h.clock;
  started = h.clock;
  metrics = zero_metrics;
  is_upgrade_requested = false;
}

pub data Activity : Type 0 where
  hook : Event → Activity
  status_tick upgrade_check : Activity
  passes : ℕ → Activity

-- The assignments of `updateStatus`
unfoldable pub with_snapshot : Snapshot → RuntimeStatus → RuntimeStatus
with_snapshot m s = record s {
  connect_attempts = m.connect_attempts;
  reconnects = m.reconnects;
  jobs_success = m.jobs_success;
  jobs_error = m.jobs_error;
  avg_latency_ms = m.avg_latency_ms;
  latency_le100_ms = m.latency_le100_ms;
  latency_le500_ms = m.latency_le500_ms;
  latency_le1000_ms = m.latency_le1000_ms;
  latency_gt1000_ms = m.latency_gt1000_ms;
  jobs_served = m.jobs_success;
}

unfoldable pub with_clock : ℕ → ℕ → RuntimeStatus → RuntimeStatus
with_clock started now s = record s {
  updated_at = some (pos now);
  uptime_seconds = seconds_since (pos started) now;
}

abbrev pub set_state : Text → RuntimeStatus → RuntimeStatus
set_state state s = record s { ws_state = state }

abbrev pub set_error : Text → RuntimeStatus → RuntimeStatus
set_error message s = record s { last_error = message }

abbrev pub set_heartbeat : ℕ → RuntimeStatus → RuntimeStatus
set_heartbeat at s = record s { last_heartbeat = some (pos at) }

-- The metrics of `OnStateChange`
unfoldable pub count_state : Text → Metrics → Metrics
count_state state m =
    if text_eq state (codes "connected")
    then inc_connect_attempts m
    else if text_eq state (codes "reconnecting")
    then inc_reconnects m
    else m

unfoldable pub count_event : Event → Metrics → Metrics
unfolding count_state
count_event (state_changed state) m = count_state state m
count_event (heartbeat_seen at) m = m
count_event (job_result success duration_ms) m = record_job success duration_ms m
count_event (error_seen e) m = m

module _ (error_text : WsError → Text) where
  -- What a hook hands to `updateStatus`
  unfoldable pub note_event : Event → RuntimeStatus → RuntimeStatus
  note_event (state_changed state) s = set_state state s
  note_event (heartbeat_seen at) s = set_heartbeat at s
  note_event (job_result success duration_ms) s = s
  note_event (error_seen e) s = set_error (error_text e) s

module _ (sys : System) where
  -- The error of the write is only logged.
  unfoldable pub store_status : Runtime → Runtime
  store_status r = record r {
    host = (on_disk sys (write_status sys.faults sys.json r.status) r.host).1;
  }

  -- `updateStatus`
  unfoldable pub update_status : (RuntimeStatus → RuntimeStatus) → Runtime → Runtime
  update_status mutator r = store_status (record r {
    status =
        with_clock r.started r.host.clock (with_snapshot (snapshot r.metrics) (mutator r.status));
  })

  unfoldable pub upgrade_checked : Result Text Bool → Runtime → Runtime
  upgrade_checked (err e) r = update_status (set_error (codes "auto-upgrade check failed: " ++ e)) r
  upgrade_checked (ok false) r = r
  upgrade_checked (ok true) r = record (update_status (set_state (codes "restarting")) r) {
    is_upgrade_requested = true;
  }

  -- A tick of the upgrade ticker; its goroutine ends with the first release.
  unfoldable pub check_upgrade : Option Upgrader → Runtime → Runtime
  check_upgrade none r = r
  check_upgrade (some u) r =
      let (applied, d) = u.check_and_upgrade r.host.disk in
      if r.is_upgrade_requested
      then r
      else upgrade_checked applied (record r { host = record r.host { disk = d } })

  module _ (error_text : WsError → Text) (upgrader : Option Upgrader) where
    unfoldable pub act : Activity → Runtime → Runtime
    act (hook e) r =
        update_status (note_event error_text e) (record r { metrics = count_event e r.metrics })
    act status_tick r = update_status (λ s. s) r
    act upgrade_check r = check_upgrade upgrader r
    act (passes ms) r = record r { host = record r.host { clock = r.host.clock + ms } }

    -- The activities so far, the latest one first.
    unfoldable pub perform : List Activity → Runtime → Runtime
    perform [] r = r
    perform (a ∷ earlier) r = act a (perform earlier r)
