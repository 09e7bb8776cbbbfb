-- ===== src/Daemon/Runtime/Counts.antt =====
-- The counters that the status of `Run`, internal/daemon/service.go, shows, against what the hooks were told.
use distil_proxy.Base.{
  ◌≡◌, refl, sym, ap, ◌∙◌, ◌≤◌, ◌/◌, Bool, true, false, Option, none, some, List, [], ◌∷◌, arith,
  length, if◌then◌else◌,
}
use distil_proxy.Base.Int.{ℤ, pos, negsuc, max_i64}
use distil_proxy.Base.Text.{Text, codes, text_eq}
use distil_proxy.Disk.{Result, ok, err}
use distil_proxy.Observability.Metrics.{Metrics, snapshot, zero_metrics}
use distil_proxy.Observability.Metrics.Tally.{
  Report, connected, reconnecting, served, failed, apply, after, after-tally, snapshot_consistent,
  count, is_connected, is_reconnecting, is_failed, is_served, total_latency, tally,
}
use distil_proxy.Ws.Client.{WsError, Event, state_changed, heartbeat_seen, job_result, error_seen}
use distil_proxy.Daemon.Files.{RuntimeStatus}
use distil_proxy.Daemon.Process.{Host, System}
use distil_proxy.Daemon.Start.{new_status}
use distil_proxy.Daemon.Runtime.{
  Upgrader, Runtime, Activity, hook, status_tick, upgrade_check, passes, new_runtime, with_snapshot,
  with_clock, set_state, set_error, count_state, count_event, note_event, store_status,
  update_status, upgrade_checked, check_upgrade, act, perform,
}

-- A duration is measured by a monotonic clock, so it is never below 0.
abbrev pub IsMeasured : List Activity → Type 0
IsMeasured [] = Unit {0}
IsMeasured (hook (job_result success (negsuc n)) ∷ earlier) = ⊥
IsMeasured (_ ∷ earlier) = IsMeasured earlier

abbrev IsOther : Activity → Type 0
IsOther (hook e) = ⊥
IsOther _ = Unit {0}

abbrev report_state : Text → List Report → List Report
report_state state rs =
    if text_eq state (codes "connected")
    then connected ∷ rs
    else if text_eq state (codes "reconnecting")
    then reconnecting ∷ rs
    else rs

-- What the hooks report to the metrics.
unfoldable pub reports : List Activity → List Report
reports [] = []
reports (hook (state_changed state) ∷ earlier) = report_state state (reports earlier)
reports (hook (job_result true (pos ms)) ∷ earlier) = served ms ∷ reports earlier
reports (hook (job_result false (pos ms)) ∷ earlier) = failed ms ∷ reports earlier
reports (_ ∷ earlier) = reports earlier

count_state-after :
    (state : Text) (rs : List Report) → count_state state (after rs) ≡ after (report_state state rs)
unfolding count_state after apply
count_state-after state rs = ground arith

-- Who runs, and since when
abbrev IsSame : RuntimeStatus → RuntimeStatus → Type 0
IsSame t s = (t.pid ≡ s.pid) × (t.running ≡ s.running) × (t.started_at ≡ s.started_at)

event_after :
    (e : Event) (earlier : List Activity)
    → IsMeasured (hook e ∷ earlier)
    → count_event e (after (reports earlier)) ≡ after (reports (hook e ∷ earlier))
unfolding count_event reports after apply
event_after (state_changed state) earlier m = count_state-after state (reports earlier)
event_after (heartbeat_seen at) earlier m = refl
event_after (job_result true (pos ms)) earlier m = refl
event_after (job_result false (pos ms)) earlier m = refl
event_after (job_result _ (negsuc n)) earlier m = absurd m
event_after (error_seen e) earlier m = refl

IsMeasured-tail :
    (e : Event) (earlier : List Activity) → IsMeasured (hook e ∷ earlier) → IsMeasured earlier
IsMeasured-tail (state_changed state) earlier m = m
IsMeasured-tail (heartbeat_seen at) earlier m = m
IsMeasured-tail (job_result success (pos ms)) earlier m = m
IsMeasured-tail (job_result success (negsuc n)) earlier m = absurd m
IsMeasured-tail (error_seen e) earlier m = m

-- The metrics are those of the reports, and the status shows them.
record IsCounted (rs : List Report) (s : RuntimeStatus) (r : Runtime) : Type 0 where
  counts : r.metrics ≡ after rs
  shown : with_snapshot (snapshot r.metrics) r.status ≡ r.status
  same : IsSame r.status s

-- What a status shows that agrees with the metrics.
abbrev pub Shows : List Report → RuntimeStatus → Type 0
Shows rs s =
    (s.connect_attempts ≡ pos (count is_connected rs))
    × (s.reconnects ≡ pos (count is_reconnecting rs))
    × (s.jobs_served ≡ pos (count (is_served (λ _. true)) rs))
    × (s.jobs_success ≡ pos (count (is_served (λ _. true)) rs))
    × (s.jobs_error ≡ pos (count is_failed rs))
    × (s.avg_latency_ms ≡ pos (total_latency rs / count (is_served (λ _. true)) rs))

shown_counts :
    (rs : List Report) (s : RuntimeStatus) (m : Metrics)
    → length rs ≤ max_i64
    → total_latency rs ≤ max_i64
    → m ≡ after rs
    → with_snapshot (snapshot m) s ≡ s
    → Shows rs s
unfolding with_snapshot
shown_counts rs s m small short c e0 =
    let e : with_snapshot (snapshot (after rs)) s ≡ s = rw (← c) e0 in
    let (_, _, average) = snapshot_consistent rs small short in
    let f : with_snapshot (snapshot (tally rs)) s ≡ s = rw (← after-tally rs small short) e in
    unfold snapshot in
    (
      sym (ap (λ t. t.connect_attempts) f),
      sym (ap (λ t. t.reconnects) f),
      sym (ap (λ t. t.jobs_served) f),
      sym (ap (λ t. t.jobs_success) f),
      sym (ap (λ t. t.jobs_error) f),
      sym (ap (λ t. t.avg_latency_ms) e) ∙ average,
    )

-- A change of the status that is no counter's, and not who runs.
record IsNote (f : RuntimeStatus → RuntimeStatus) : Type 0 where
  kept : (s : RuntimeStatus) → IsSame (f s) s

same-IsNote : IsNote (λ s. s)
same-IsNote = record { kept = λ s. (refl, refl, refl) }

set_state-IsNote : (state : Text) → IsNote (set_state state)
set_state-IsNote state = record { kept = λ s. (refl, refl, refl) }

set_error-IsNote : (message : Text) → IsNote (set_error message)
set_error-IsNote message = record { kept = λ s. (refl, refl, refl) }

note_event-IsNote : (error_text : WsError → Text) (e : Event) → IsNote (note_event error_text e)
unfolding note_event
note_event-IsNote error_text (state_changed state) = record { kept = λ s. (refl, refl, refl) }
note_event-IsNote error_text (heartbeat_seen at) = record { kept = λ s. (refl, refl, refl) }
note_event-IsNote error_text (job_result success ms) = record { kept = λ s. (refl, refl, refl) }
note_event-IsNote error_text (error_seen e) = record { kept = λ s. (refl, refl, refl) }

module _ (sys : System) where
  update_status-IsCounted :
      (f : RuntimeStatus → RuntimeStatus) (rs : List Report) (s : RuntimeStatus) (r : Runtime)
      → IsNote f
      → r.metrics ≡ after rs
      → IsSame r.status s
      → IsCounted rs s (update_status sys f r)
  unfolding update_status store_status with_snapshot with_clock
  update_status-IsCounted f rs s r n c (p, q, t) =
      let (p', q', t') = n.kept r.status in
      record { counts = c; shown = refl; same = (p' ∙ p, q' ∙ q, t' ∙ t) }

  upgrade_checked-IsCounted :
      (a : Result Text Bool) (rs : List Report) (s : RuntimeStatus) (r : Runtime)
      → IsCounted rs s r
      → IsCounted rs s (upgrade_checked sys a r)
  unfolding upgrade_checked
  upgrade_checked-IsCounted (err e) rs s r c =
      update_status-IsCounted _ rs s r (set_error-IsNote _) c.counts c.same
  upgrade_checked-IsCounted (ok false) rs s r c = c
  upgrade_checked-IsCounted (ok true) rs s r c =
      let d =
        update_status-IsCounted _ rs s r (set_state-IsNote (codes "restarting")) c.counts c.same in
      record { counts = d.counts; shown = d.shown; same = d.same }

  check_upgrade-IsCounted :
      (u : Option Upgrader) (rs : List Report) (s : RuntimeStatus) (r : Runtime)
      → IsCounted rs s r
      → IsCounted rs s (check_upgrade sys u r)
  unfolding check_upgrade
  check_upgrade-IsCounted none rs s r c = c
  check_upgrade-IsCounted (some u) rs s r c =
      let (applied, d) = u.check_and_upgrade r.host.disk in
      choose r.is_upgrade_requested _ (
        upgrade_checked-IsCounted applied rs s (record r { host = record r.host { disk = d } })
          (record { counts = c.counts; shown = c.shown; same = c.same }))
    where
      choose : (b : Bool) (t : Runtime) → IsCounted rs s t → IsCounted rs s (if b then r else t)
      choose true t k = c
      choose false t k = k

  module _ (error_text : WsError → Text) (upgrader : Option Upgrader) where
    hook-IsCounted :
        (e : Event) (rs rs' : List Report) (s : RuntimeStatus) (r : Runtime)
        → count_event e (after rs) ≡ after rs'
        → IsCounted rs s r
        → IsCounted rs' s (act sys error_text upgrader (hook e) r)
    unfolding act
    hook-IsCounted e rs rs' s r h c =
        update_status-IsCounted _ rs' s (record r { metrics = count_event e r.metrics })
          (note_event-IsNote error_text e) (ap (count_event e) c.counts ∙ h) c.same

    other-IsCounted :
        (a : Activity) (rs : List Report) (s : RuntimeStatus) (r : Runtime)
        → IsCounted rs s r
        → IsOther a
        → IsCounted rs s (act sys error_text upgrader a r)
    unfolding act
    other-IsCounted (hook e) rs s r c o = absurd o
    other-IsCounted status_tick rs s r c o =
        update_status-IsCounted _ rs s r same-IsNote c.counts c.same
    other-IsCounted upgrade_check rs s r c o = check_upgrade-IsCounted upgrader rs s r c
    other-IsCounted (passes ms) rs s r c o = record {
      counts = c.counts;
      shown = c.shown;
      same = c.same;
    }

    perform-IsCounted :
        (history : List Activity) (r : Runtime)
        → IsMeasured history
        → IsCounted [] r.status r
        → IsCounted (reports history) r.status (perform sys error_text upgrader history r)
    unfolding perform reports
    perform-IsCounted [] r m c = c
    perform-IsCounted (hook e ∷ earlier) r m c =
        hook-IsCounted e _ _ _ _ (event_after e earlier m)
          (perform-IsCounted earlier r (IsMeasured-tail e earlier m) c)
    perform-IsCounted (status_tick ∷ earlier) r m c =
        other-IsCounted status_tick _ _ _ (perform-IsCounted earlier r m c) tt
    perform-IsCounted (upgrade_check ∷ earlier) r m c =
        other-IsCounted upgrade_check _ _ _ (perform-IsCounted earlier r m c) tt
    perform-IsCounted (passes ms ∷ earlier) r m c =
        other-IsCounted (passes ms) _ _ _ (perform-IsCounted earlier r m c) tt

    new_runtime-IsCounted :
        (pid : ℤ) (h : Host) → let r = new_runtime pid h in IsCounted [] r.status r
    unfolding new_runtime new_status snapshot zero_metrics after with_snapshot
    new_runtime-IsCounted pid h = record { counts = refl; shown = refl; same = (refl, refl, refl) }

    -- After any sequence of hook calls, status ticks, upgrade checks and waits, whose durations are not below 0,
    -- of fewer than 2^63 reports whose latencies add up to less than 2^63: the status still says that the process
    -- with the number of `Run` runs since its start, and shows as many connections, reconnects, served jobs and
    -- failed jobs as the hooks were told, with the average of the served jobs' latencies.
    pub perform_counts :
        (history : List Activity) (pid : ℤ) (h : Host)
        → IsMeasured history
        → length (reports history) ≤ max_i64
        → total_latency (reports history) ≤ max_i64
        → let s = (perform sys error_text upgrader history (new_runtime pid h)).status in
          (s.pid ≡ pid)
          × (s.running ≡ true)
          × (s.started_at ≡ some (pos h.clock))
          × Shows (reports history) s
    unfolding new_runtime new_status
    perform_counts history pid h m small short =
        let c = perform-IsCounted history (new_runtime pid h) m (new_runtime-IsCounted pid h) in
        let (p, q, t) = c.same in
        let o = shown_counts (reports history) _ _ small short c.counts c.shown in (p, q, t, o)
