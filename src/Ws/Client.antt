-- ===== src/Ws/Client.antt =====
-- The messages of one session, in internal/ws/client.go. The other side, the executor, the JSON
-- and base64 decoders and the clock are the parameter `Env`; the mutex makes each write one step.
pub mod Reply
use distil_proxy.Base.{
  ℕ, suc, ◌+◌, ◌≡◌, Bool, true, false, ◌||◌, Option, none, some, List, [], ◌∷◌, ◌++◌, if◌then◌else◌,
  length,
}
use distil_proxy.Base.Int.{ℤ, pos, negsuc, leb_ℤ, eqb_ℤ}
use distil_proxy.Base.Text.{Text, codes, is_empty, text_eq}
use distil_proxy.Base.Text.Decimal.{print_ℤ}
use distil_proxy.Fetch.{
  Bytes, NetError, FetchError, build_request, execute_request, read_body, response_too_large,
  Outcome, fetched, failed,
}
use distil_proxy.Fetch
use distil_proxy.Jobs
use distil_proxy.Jobs.{Registry, RegistryError}
use distil_proxy.Ws.Protocol.{
  FetchRequest, FetchResult, FetchFailure, Frame, result, fetch_error, ping, pong,
}

pub data WsError : Type 0 where
  dial : NetError → WsError
  read_message : NetError → WsError
  decode_envelope : Text → WsError
  decode_fetch : Text → WsError
  missing_id : WsError
  -- with what `fmt.Errorf` puts in front, empty where the error is passed on
  write_frame : Text → NetError → WsError
  heartbeat : NetError → WsError

-- What the hooks are told.
pub data Event : Type 0 where
  state_changed : Text → Event
  heartbeat_seen : ℕ → Event
  job_result : Bool → ℤ → Event
  error_seen : WsError → Event

pub data Decoded (A : Type 0) : Type 0 where
  decoded : A → Decoded A
  undecodable : Text → Decoded A

pub record Env : Type 0 where
  pub envelope_type : Bytes → Decoded Text
  pub fetch_request : Bytes → Decoded FetchRequest
  pub decode_base64 : Text → Option Bytes
  -- the executor's answer to the request made after `n` writes
  pub run_fetch : ℕ → Fetch.Request → Outcome
  -- what the n-th write of the connection answers
  pub write_error : ℕ → Option NetError
  pub now : ℕ → ℕ

pub record Session : Type 0 where
  pub registry : Registry
  pub sent : List Frame
  pub writes : ℕ
  pub events : List Event

abbrev pub emit : Event → Session → Session
emit e s = record s { events = s.events ++ e ∷ [] }

-- `errors.Is(err, context.DeadlineExceeded)`, through the wrapping of `Fetch`
unfoldable pub is_deadline : FetchError → Bool
is_deadline (build_request e) = e.is_deadline
is_deadline (execute_request e) = e.is_deadline
is_deadline (read_body e) = e.is_deadline
is_deadline response_too_large = false

unfoldable pub error_text : FetchError → Text
error_text (build_request e) = codes "build request: " ++ e.message
error_text (execute_request e) = codes "execute request: " ++ e.message
error_text (read_body e) = codes "read response body: " ++ e.message
error_text response_too_large = codes "response exceeds max body size"

is_too_large : FetchError → Bool
is_too_large response_too_large = true
is_too_large _ = false

unfoldable pub map_fetch_error : FetchError → ℤ → Text × Text
unfolding is_deadline is_too_large
map_fetch_error err timeout_ms =
    if is_deadline err
    then (
      codes "daemon_timeout",
      codes "Daemon did not respond within " ++ (print_ℤ timeout_ms ++ codes "ms"),
    )
    else if is_too_large err
    then (codes "response_too_large", codes "Response exceeded maximum allowed size")
    else (codes "fetch_failed", error_text err)

unfoldable pub is_close_error : NetError → Bool
is_close_error err =
    if eqb_ℤ err.close_status (pos 1000) || eqb_ℤ err.close_status (pos 1001)
    then true
    else err.is_canceled

abbrev pub failure_of : FetchRequest → Text → Text → Frame
failure_of req error message =
    fetch_error (record { id = req.id; error = error; message = message })

abbrev pub timeout_of : ℤ → FetchRequest → ℤ
timeout_of default_timeout_ms req =
    if leb_ℤ req.timeout_ms (pos 0) then default_timeout_ms else req.timeout_ms

-- `defer c.cfg.JobRegistry.Finish(req.ID)`
abbrev pub finishing : Text → Option WsError × Session → Option WsError × Session
finishing id (e, s) = (e, record s { registry = Jobs.finish id s.registry })

module _ (env : Env) where
  -- A nil body is an empty one.
  unfoldable pub decode_request_body : Text → Option Bytes
  decode_request_body encoded = if is_empty encoded then some [] else env.decode_base64 encoded

  unfoldable pub write_json : Frame → Session → Option NetError × Session
  write_json frame s =
      let t = record s { writes = s.writes + 1 } in
      elim (env.write_error s.writes) [
        | some err ↦ (some err, t)
        | none ↦ (none, record t { sent = s.sent ++ frame ∷ [] })
      ]

  -- `writeJSON` of a reply, whose failure ends the handler; then the job's result is told.
  unfoldable pub reply_and_tell : Text → Frame → Bool → ℤ → Session → Option WsError × Session
  reply_and_tell context frame success duration s =
      let (failure, t) = write_json frame s in
      elim failure [
        | some err ↦ (some (write_frame context err), t)
        | none ↦ (none, emit (job_result success duration) t)
      ]

  -- `handleFetch` behind the executor's answer.
  unfoldable pub after_fetch : ℤ → FetchRequest → Outcome → Session → Option WsError × Session
  after_fetch timeout_ms req (failed err) s =
      let (code, message) = map_fetch_error err timeout_ms in
      reply_and_tell (codes "write fetch error") (failure_of req code message) false (pos 0) s
  after_fetch timeout_ms req (fetched res) s =
      reply_and_tell (codes "write fetch result")
        (result (record {
          id = req.id;
          status = res.status;
          headers = res.headers;
          body = res.body;
          final_url = res.final_url;
          elapsed_ms = res.elapsed_ms;
        }))
        true res.elapsed_ms s

  -- `handleFetch` behind the decoded body.
  unfoldable pub run_job : ℤ → FetchRequest → Bytes → Session → Option WsError × Session
  run_job timeout_ms req body s =
      let call : Fetch.Request = record {
        url = req.url;
        method = req.method;
        headers = req.headers;
        body = body;
        timeout_ms = timeout_ms;
      } in
      after_fetch timeout_ms req (env.run_fetch s.writes call) s

  -- `handleFetch` behind the decoding of the body.
  unfoldable pub decoded_job : ℤ → FetchRequest → Option Bytes → Session → Option WsError × Session
  decoded_job timeout_ms req (some body) s = run_job timeout_ms req body s
  decoded_job timeout_ms req none s =
      let (_, t) =
        write_json
          (failure_of req (codes "invalid_request_body") (codes "request body encoding is invalid"))
          s in
      (none, emit (job_result false (pos 0)) t)

  -- `handleFetch` of a job that was started.
  unfoldable pub started_job : ℤ → FetchRequest → Session → Option WsError × Session
  started_job timeout_ms req s = decoded_job timeout_ms req (decode_request_body req.body_base64) s

  -- `handleFetch`. The cancel function of its context is named by the count of writes.
  unfoldable pub handle_fetch : ℤ → FetchRequest → Session → Option WsError × Session
  handle_fetch default_timeout_ms req s =
      let timeout_ms = timeout_of default_timeout_ms req in
      let (registry, refused) = Jobs.start req.id (some s.writes) (env.now s.writes) s.registry in
      elim refused [
        | some _ ↦
            reply_and_tell (codes "write duplicate fetch error")
              (failure_of req (codes "duplicate_job_id") (codes "Job is already in progress")) false
              (pos 0) s
        | none ↦ finishing req.id (started_job timeout_ms req (record s { registry = registry }))
      ]

  unfoldable pub send_pong : Session → Option WsError × Session
  send_pong s =
      let (failure, t) = write_json pong s in
      elim failure [ none ↦ (none, t) | some err ↦ (some (write_frame [] err), t) ]

  -- The case `"fetch"` of `handleMessage`.
  unfoldable pub handle_request : ℤ → Decoded FetchRequest → Session → Option WsError × Session
  handle_request default_timeout_ms (undecodable e) s = (some (decode_fetch e), s)
  handle_request default_timeout_ms (decoded req) s =
      if is_empty req.id then (some missing_id, s) else handle_fetch default_timeout_ms req s

  -- The `switch` of `handleMessage`.
  unfoldable pub dispatch : ℤ → Bytes → Decoded Text → Session → Option WsError × Session
  dispatch default_timeout_ms payload (undecodable e) s = (some (decode_envelope e), s)
  dispatch default_timeout_ms payload (decoded type) s =
      if text_eq type (codes "fetch")
      then handle_request default_timeout_ms (env.fetch_request payload) s
      else if text_eq type (codes "ping")
      then send_pong s
      else if text_eq type (codes "pong")
      then (none, emit (heartbeat_seen (env.now s.writes)) s)
      else (none, s)

  unfoldable pub handle_message : ℤ → Bytes → Session → Option WsError × Session
  handle_message default_timeout_ms payload s =
      dispatch default_timeout_ms payload (env.envelope_type payload) s
