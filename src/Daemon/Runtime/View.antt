-- ===== src/Daemon/Runtime/View.antt =====
-- The state, the heartbeat and the error that the status of `Run`, internal/daemon/service.go, shows: the latest
-- that a hook was told.
use distil_proxy.Base.{◌≡◌, refl, Option, none, some, List, [], ◌∷◌}
use distil_proxy.Base.Int.{ℤ, pos}
use distil_proxy.Base.Text.{Text, codes}
use distil_proxy.Ws.Client.{WsError, state_changed, heartbeat_seen, job_result, error_seen}
use distil_proxy.Daemon.Process.{Host, System}
use distil_proxy.Daemon.Start.{new_status}
use distil_proxy.Daemon.Runtime.{
  Runtime, Activity, hook, status_tick, upgrade_check, passes, new_runtime, with_snapshot,
  with_clock, note_event, store_status, update_status, check_upgrade, act, perform,
}

-- What `f` finds in the latest entry that has it.
abbrev pub latest {ℓ κ} : {A : Type ℓ} {B : Type κ} → (A → Option B) → B → List A → B
latest f start [] = start
latest f start (a ∷ earlier) = elim (f a) [ some b ↦ b | none ↦ latest f start earlier ]

abbrev pub state_of : Activity → Option Text
state_of (hook (state_changed state)) = some state
state_of _ = none

abbrev pub heartbeat_of : Activity → Option (Option ℤ)
heartbeat_of (hook (heartbeat_seen at)) = some (some (pos at))
heartbeat_of _ = none

abbrev pub error_of : (WsError → Text) → Activity → Option Text
error_of error_text (hook (error_seen e)) = some (error_text e)
error_of error_text _ = none

-- The view that a reader of the status has, and its representation in the variables of `Run`.
pub record View : Type 0 where
  pub state : Text
  pub heartbeat : Option ℤ
  pub error : Text

abbrev pub view_of : Runtime → View
view_of r = record {
  state = r.status.ws_state;
  heartbeat = r.status.last_heartbeat;
  error = r.status.last_error;
}

abbrev pub view : (WsError → Text) → List Activity → View
view error_text history = record {
  state = latest state_of (codes "disconnected") history;
  heartbeat = latest heartbeat_of none history;
  error = latest (error_of error_text) [] history;
}

module _ (sys : System) (error_text : WsError → Text) where
  view-act :
      (a : Activity) (earlier : List Activity) (r : Runtime)
      → view_of r ≡ view error_text earlier
      → view_of (act sys error_text none a r) ≡ view error_text (a ∷ earlier)
  unfolding act update_status store_status with_snapshot with_clock note_event check_upgrade
  view-act (hook (state_changed state)) earlier r h = cc
  view-act (hook (heartbeat_seen at)) earlier r h = cc
  view-act (hook (job_result success ms)) earlier r h = h
  view-act (hook (error_seen e)) earlier r h = cc
  view-act status_tick earlier r h = h
  view-act upgrade_check earlier r h = h
  view-act (passes ms) earlier r h = h

  -- Without an upgrade manager, after any sequence of hook calls, status ticks and waits, the status of the
  -- runtime shows the state that was told last ("disconnected" before the first), the time of the last
  -- heartbeat and the text of the last error.
  pub perform-view :
      (history : List Activity) (pid : ℤ) (h : Host)
      → view_of (perform sys error_text none history (new_runtime pid h)) ≡ view error_text history
  unfolding perform new_runtime new_status
  perform-view [] pid h = refl
  perform-view (a ∷ earlier) pid h = view-act a earlier _ (perform-view earlier pid h)
