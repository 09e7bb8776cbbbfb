-- ===== src/Ws/Run.antt =====
-- `runSession`, `heartbeatLoop` and `Run` of internal/ws/client.go. What the scheduler, the network
-- and the context do is a list of steps for each session, and a list of sessions.
pub mod Backoff
pub mod Ends
use distil_proxy.Base.{ℕ, Bool, true, false, Option, none, some, List, [], ◌∷◌, ◌++◌, if◌then◌else◌}
use distil_proxy.Base.Int.{ℤ, pos, ◌+ℤ◌, ltb_ℤ, wrap64}
use distil_proxy.Base.Text.{Text, codes}
use distil_proxy.Fetch.{Bytes, NetError}
use distil_proxy.Jobs
use distil_proxy.Ws.Protocol.{ping}
use distil_proxy.Ws.Config.{ClientConfig}
use distil_proxy.Ws.Client.{
  Env, Session, Event, state_changed, error_seen, WsError, dial, read_message, heartbeat, emit,
  write_json, is_close_error, handle_message,
}

pub data Read : Type 0 where
  message : Bytes → Read
  read_failure : NetError → Read

-- A tick of the heartbeat, or a round of the session's loop. A round says whether its `select`
-- takes the branch of the finished context, and what its read would give.
pub data Step : Type 0 where
  tick : Step
  round : Bool → Read → Step

-- The session with its heartbeat: the error that waits in the channel, and whether it still ticks.
pub record Beating : Type 0 where
  pub session : Session
  pub pending : Option NetError
  pub is_alive : Bool

pub data Ending : Type 0 where
  ended : Option WsError → Ending
  running : Ending

-- A round of the loop of `runSession` up to the message: how it ends, if it ends.
unfoldable pub receive : Bool → Read → Option NetError → Option (Option WsError)
receive true read pending = some none
receive false read (some e) = some (if is_close_error e then none else some (heartbeat e))
receive false (read_failure e) none =
    some (if is_close_error e then none else some (read_message e))
receive false (message payload) none = none

abbrev pub payload_of : Read → Bytes
payload_of (message payload) = payload
payload_of (read_failure e) = []

-- One pass of the loop of `Run`: what the dial gives, the steps of the session, and whether the
-- context is done behind the session or during the wait.
pub record Pass : Type 0 where
  pub dial_error : Option NetError
  pub steps : List Step
  pub is_done : Bool
  pub is_done_waiting : Bool

-- The state of `Run`: the session, the waits so far, and whether it has returned.
pub record Progress : Type 0 where
  pub session : Session
  pub waits : List ℤ
  pub is_finished : Bool

-- `emitState("stopped")` and the deferred `CancelAll`
unfoldable pub stop : Session → List ℤ → Progress
stop s waits =
    let t = emit (state_changed (codes "stopped")) s in
    record {
      session = record t { registry = (Jobs.cancel_all t.registry).0 };
      waits = waits;
      is_finished = true;
    }

unfoldable pub tell_error : Option WsError → Session → Session
tell_error none s = s
tell_error (some err) s = emit (state_changed (codes "reconnecting")) (emit (error_seen err) s)

module _ (cfg : ClientConfig) where
  -- The wait behind a session: a clean one resets the delay.
  unfoldable pub current_backoff : Option WsError → ℤ → ℤ
  current_backoff none backoff = cfg.initial_reconnect
  current_backoff (some err) backoff = backoff

  -- The delay for the next session: doubled behind a failure, up to the maximum.
  unfoldable pub next_backoff : Option WsError → ℤ → ℤ
  next_backoff none backoff = backoff
  next_backoff (some err) backoff =
      let doubled = wrap64 (backoff +ℤ backoff) in
      if ltb_ℤ cfg.max_reconnect_wait doubled then cfg.max_reconnect_wait else doubled

  -- The end of a pass, with the rest of the loop as `next`.
  unfoldable pub settle :
      Pass → Ending → ℤ → Session → List ℤ → (ℤ → Session → List ℤ → Progress) → Progress
  settle pass running backoff t waits next = record {
    session = t;
    waits = waits;
    is_finished = false;
  }
  settle pass (ended err) backoff t waits next =
      let u = tell_error err t in
      let wait = current_backoff err backoff in
      if pass.is_done
      then stop t waits
      else if pass.is_done_waiting
      then stop u (waits ++ wait ∷ [])
      else next (next_backoff err wait) u (waits ++ wait ∷ [])

module _ (env : Env) (cfg : ClientConfig) where
  -- One tick of `heartbeatLoop`.
  unfoldable pub beat : Beating → Beating
  beat b =
      let (failure, s) = write_json env ping b.session in
      if b.is_alive
      then elim failure [
        | none ↦ record b { session = s }
        | some e ↦ record { session = s; pending = some e; is_alive = false }
      ]
      else b

  -- The loop of `runSession`; `running` where the steps end first.
  unfoldable pub session_loop : List Step → Beating → Ending × Session
  session_loop [] b = (running, b.session)
  session_loop (tick ∷ steps) b = session_loop steps (beat b)
  session_loop (round done read ∷ steps) b = elim (receive done read b.pending) [
    | some ending ↦ (ended ending, b.session)
    | none ↦
        let (failure, s) = handle_message env cfg.default_timeout_ms (payload_of read) b.session in
        elim failure [
          | some err ↦ (ended (some err), s)
          | none ↦ session_loop steps (record b { session = s })
        ]
  ]

  unfoldable pub run_session : Option NetError → List Step → Session → Ending × Session
  run_session (some e) steps s = (ended (some (dial e)), s)
  run_session none steps s = session_loop steps (record {
    session = emit (state_changed (codes "connected")) s;
    pending = none;
    is_alive = true;
  })

  -- The loop of `Run`.
  unfoldable pub run_loop : List Pass → ℤ → Session → List ℤ → Progress
  run_loop [] backoff s waits = record { session = s; waits = waits; is_finished = false }
  run_loop (pass ∷ passes) backoff s waits =
      let (ending, t) = run_session pass.dial_error pass.steps s in
      settle cfg pass ending backoff t waits (run_loop passes)

  unfoldable pub run : List Pass → Session → Progress
  run passes s = run_loop passes cfg.initial_reconnect s []
