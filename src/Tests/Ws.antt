-- ===== src/Tests/Ws.antt =====
-- Sessions of the client of internal/ws.
use distil_proxy.Base.{◌≡◌, refl, true, false, Option, none, some, [], ◌∷◌, List, ℕ, arith, All}
use distil_proxy.Base.Int.{pos}
use distil_proxy.Base.Text.{codes}
use distil_proxy.Fetch.{NetError, fetched, new_http_executor}
use distil_proxy.Jobs.{new_registry, lookup}
use distil_proxy.Tests.Http.{greeting}
use distil_proxy.Ws.Protocol.{FetchRequest, FetchResult, result}
use distil_proxy.Ws.Config.{ClientConfig}
use distil_proxy.Ws.Client.{Env, Session, decoded, job_result, handle_fetch, decode_request_body}
use distil_proxy.Ws.Client.Reply.{handle_fetch_answers}
use distil_proxy.Ws.Run.{Pass, Step, round, message, run_session, run, run_loop, settle, stop}
use distil_proxy.Ws.Run.Backoff.{IsUnreachable, IsWait, run_backs_off, run_waits_bounded}
use distil_proxy.Ws.Run.Ends.{IsStopped, run_session-registry, run-IsStopped}

abbrev request : FetchRequest
request = record {
  id = codes "a";
  url = codes "http://a/";
  method = codes "GET";
  headers = [];
  body_base64 = [];
  timeout_ms = pos 0;
}

abbrev lost : NetError
lost = record {
  message = codes "EOF";
  is_deadline = false;
  is_canceled = false;
  close_status = pos 1006;
}

-- A connection on which the writes from the n-th on fail.
abbrev env_until : (ℕ → Option NetError) → Env
env_until write_error = record {
  envelope_type = λ _. decoded (codes "fetch");
  fetch_request = λ _. decoded request;
  decode_base64 = λ _. none;
  run_fetch = λ _ _. fetched greeting;
  write_error = write_error;
  now = λ n. n;
}

abbrev up : Env
up = env_until λ _. none

abbrev down : Env
down = env_until λ _. some lost

abbrev fresh : Session
fresh = record { registry = record { jobs = [] }; sent = []; writes = 0; events = [] }

abbrev config : ClientConfig
config = record {
  server_url = codes "wss://proxy";
  api_key = codes "dk_1";
  protocol_version = codes "1.0.0";
  default_timeout_ms = pos 30000;
  heartbeat_interval = pos 30;
  initial_reconnect = pos 1;
  max_reconnect_wait = pos 5;
  fetcher = some (new_http_executor (pos 4));
  job_registry = some new_registry;
}

abbrev answer_a : FetchResult
answer_a = record {
  id = codes "a";
  status = pos 200;
  headers = [];
  body = 1 ∷ 2 ∷ 3 ∷ [];
  final_url = codes "http://a/b";
  elapsed_ms = pos 12;
}

handle_fetch_answers_example : handle_fetch up (pos 30000) request fresh ≡ (
  none,
  record fresh { sent = result answer_a ∷ []; writes = 1; events = job_result true (pos 12) ∷ [] },
)
unfolding lookup decode_request_body
handle_fetch_answers_example = handle_fetch_answers up (pos 30000) request fresh refl

abbrev one_message : List Step
one_message = round false (message []) ∷ []

run_session-registry_example :
    (run_session up config none one_message fresh).1.registry ≡ fresh.registry
run_session-registry_example = run_session-registry up config none one_message fresh

abbrev unreachable : Pass
unreachable = record {
  dial_error = some lost;
  steps = [];
  is_done = false;
  is_done_waiting = false;
}

abbrev last_pass : Pass
last_pass = record { dial_error = some lost; steps = []; is_done = true; is_done_waiting = false }

run-IsStopped_example : IsStopped (run up config (unreachable ∷ last_pass ∷ []) fresh).session
unfolding run run_loop run_session settle stop
run-IsStopped_example = run-IsStopped up config (unreachable ∷ last_pass ∷ []) fresh refl

is_down : IsUnreachable unreachable
is_down = ((lost, refl), refl, refl)

run_backs_off_example :
    (run up config (unreachable ∷ unreachable ∷ unreachable ∷ unreachable ∷ []) fresh).waits
    ≡ pos 1 ∷ pos 2 ∷ pos 4 ∷ pos 5 ∷ []
run_backs_off_example =
    run_backs_off up config 1 5 refl refl (omega arith) (omega arith)
      (unreachable ∷ unreachable ∷ unreachable ∷ unreachable ∷ []) fresh
      (is_down, (is_down, (is_down, (is_down, tt))))

run_waits_bounded_example :
    All (IsWait config) (run up config (unreachable ∷ last_pass ∷ []) fresh).waits
run_waits_bounded_example =
    run_waits_bounded config (omega arith, omega arith) (omega arith, omega arith) up
      (unreachable ∷ last_pass ∷ []) fresh
