-- ===== src/Ws/Client/Reply.antt =====
-- Each fetch request gets one reply, and leaves no job behind.
use distil_proxy.Base.{
  ◌+◌, ◌≡◌, refl, Bool, true, false, Option, none, some, [], ◌∷◌, ◌++◌, arith, Option-cases, inl,
  inr,
}
use distil_proxy.Base.Int.{ℤ, pos}
use distil_proxy.Base.Text.{Text, codes}
use distil_proxy.Fetch.{NetError, fetched, failed}
use distil_proxy.Fetch
use distil_proxy.Jobs
use distil_proxy.Jobs.{Registry, job_exists}
use distil_proxy.Jobs.View.{in_flight, finish-start, start_of_absent, start_of_present}
use distil_proxy.Ws.Protocol.{FetchRequest, Frame, result, fetch_error}
use distil_proxy.Ws.Client.{
  Env, Session, job_result, WsError, write_frame, map_fetch_error, decode_request_body, write_json,
  reply_and_tell, failure_of, timeout_of, after_fetch, decoded_job, run_job, started_job,
  handle_fetch, emit, finishing,
}

-- A reply: the frame, and what the hook is told of the job.
pub record Answer : Type 0 where
  pub frame : Frame
  pub success : Bool
  pub duration : ℤ

-- The frame is addressed to the job, and is a result exactly if the job counts as a success.
abbrev IsFor : Text → Bool → Frame → Type 0
IsFor id true (result r) = r.id ≡ id
IsFor id false (fetch_error f) = f.id ≡ id
IsFor _ _ _ = ⊥

abbrev pub IsAnswerTo : FetchRequest → Answer → Type 0
IsAnswerTo req a = IsFor req.id a.success a.frame

module _ (env : Env) where
  -- A session after an answer that the connection took.
  abbrev pub answered : Answer → Session → Session
  answered a s = record s {
    sent = s.sent ++ a.frame ∷ [];
    writes = s.writes + 1;
    events = s.events ++ job_result a.success a.duration ∷ [];
  }

  reply_and_tell_lem :
      (context : Text) (a : Answer) (s : Session)
      → env.write_error s.writes ≡ none
      → reply_and_tell env context a.frame a.success a.duration s ≡ (none, answered a s)
  unfolding reply_and_tell write_json
  reply_and_tell_lem context a s ok = ground arith

  -- A session after an answer that the connection refused.
  abbrev pub unsent : Session → Session
  unsent s = record s { writes = s.writes + 1 }

  reply_and_tell_fails :
      (context : Text) (a : Answer) (s : Session) (err : NetError)
      → env.write_error s.writes ≡ some err
      → reply_and_tell env context a.frame a.success a.duration s
        ≡ (some (write_frame context err), unsent s)
  unfolding reply_and_tell write_json
  reply_and_tell_fails context a s err broken = ground arith

module _ (env : Env) (default_timeout_ms : ℤ) (req : FetchRequest) (s : Session) where
  abbrev refusal : Text → Text → Answer
  refusal error message = record {
    frame = failure_of req error message;
    success = false;
    duration = pos 0;
  }

  abbrev request_of : Fetch.Bytes → Fetch.Request
  request_of body = record {
    url = req.url;
    method = req.method;
    headers = req.headers;
    body = body;
    timeout_ms = timeout_of default_timeout_ms req;
  }

  abbrev fetched_answer : Fetch.Outcome → Answer
  fetched_answer (failed err) =
      let (code, message) = map_fetch_error err (timeout_of default_timeout_ms req) in
      refusal code message
  fetched_answer (fetched res) = record {
    frame = result (record {
      id = req.id;
      status = res.status;
      headers = res.headers;
      body = res.body;
      final_url = res.final_url;
      elapsed_ms = res.elapsed_ms;
    });
    success = true;
    duration = res.elapsed_ms;
  }

  abbrev decoded_answer : Option Fetch.Bytes → Answer
  decoded_answer none =
      refusal (codes "invalid_request_body") (codes "request body encoding is invalid")
  decoded_answer (some body) = fetched_answer (env.run_fetch s.writes (request_of body))

  abbrev fresh_answer : Option Jobs.Entry → Answer
  fresh_answer (some _) = refusal (codes "duplicate_job_id") (codes "Job is already in progress")
  fresh_answer none = decoded_answer (decode_request_body env req.body_base64)

  -- The answer that the request deserves in this state.
  abbrev pub answer : Answer
  answer = fresh_answer (in_flight s.registry req.id)

  pub answer-IsAnswerTo : IsAnswerTo req answer
  answer-IsAnswerTo = ground arith

  module _ (r : Registry) (ok : env.write_error s.writes ≡ none) where
    abbrev started : Session
    started = record s { registry = r }

    after_fetch_answers :
        (o : Fetch.Outcome)
        → after_fetch env (timeout_of default_timeout_ms req) req o started
          ≡ (none, answered env (fetched_answer o) started)
    unfolding after_fetch
    after_fetch_answers (failed err) =
        reply_and_tell_lem env _ (fetched_answer (failed err)) started ok
    after_fetch_answers (fetched res) =
        reply_and_tell_lem env _ (fetched_answer (fetched res)) started ok

    decoded_job_answers :
        (b : Option Fetch.Bytes)
        → decoded_job env (timeout_of default_timeout_ms req) req b started
          ≡ (none, answered env (decoded_answer b) started)
    unfolding decoded_job run_job
    decoded_job_answers (some body) = after_fetch_answers (env.run_fetch s.writes (request_of body))
    decoded_job_answers none = unfold write_json in ground arith

  -- Where the connection takes the frame, `handleFetch` sends exactly the answer that the request
  -- deserves, tells the hook its outcome once, returns no error, and leaves the registry of jobs
  -- as it was, also for a job that is in flight already.
  pub handle_fetch_answers :
      env.write_error s.writes ≡ none
      → handle_fetch env default_timeout_ms req s ≡ (
        none,
        record s {
          sent = s.sent ++ answer.frame ∷ [];
          writes = s.writes + 1;
          events = s.events ++ job_result answer.success answer.duration ∷ [];
        },
      )
  unfolding handle_fetch started_job
  handle_fetch_answers ok =
      let start = Jobs.start req.id (some s.writes) (env.now s.writes) s.registry in
      elim (Option-cases (in_flight s.registry req.id)) [
        | inr (e, present) ↦
            rw
              (
                start_of_present s.registry req.id (some s.writes) (env.now s.writes) e present,
                handle_fetch,
                present,
              )
              (reply_and_tell_lem env _ (fresh_answer (some e)) s ok)
        | inl absent ↦
            rw
              (
                start_of_absent s.registry req.id (some s.writes) (env.now s.writes) absent,
                handle_fetch,
                absent,
                decoded_job_answers start.0 ok (decode_request_body env req.body_base64),
                finish-start s.registry req.id (some s.writes) (env.now s.writes) absent,
              )
              refl
      ]

  -- What `fmt.Errorf` puts in front of a failed write of the answer; `none` where the failure is
  -- dropped, which is so for a request body that cannot be decoded.
  abbrev fetched_context : Fetch.Outcome → Text
  fetched_context (failed _) = codes "write fetch error"
  fetched_context (fetched _) = codes "write fetch result"

  abbrev decoded_context : Option Fetch.Bytes → Option Text
  decoded_context none = none
  decoded_context (some body) = some (fetched_context (env.run_fetch s.writes (request_of body)))

  abbrev fresh_context : Option Jobs.Entry → Option Text
  fresh_context (some _) = some (codes "write duplicate fetch error")
  fresh_context none = decoded_context (decode_request_body env req.body_base64)

  abbrev unsent_result : NetError → Option Text → Session → Option WsError × Session
  unsent_result err (some context) t = (some (write_frame context err), unsent env t)
  unsent_result err none t = (none, emit (job_result false (pos 0)) (unsent env t))

  module _ (r : Registry) (err : NetError) (broken : env.write_error s.writes ≡ some err) where
    abbrev begun : Session
    begun = record s { registry = r }

    after_fetch-unsent :
        (o : Fetch.Outcome)
        → after_fetch env (timeout_of default_timeout_ms req) req o begun
          ≡ (some (write_frame (fetched_context o) err), unsent env begun)
    unfolding after_fetch
    after_fetch-unsent (failed e) =
        reply_and_tell_fails env _ (fetched_answer (failed e)) begun err broken
    after_fetch-unsent (fetched res) =
        reply_and_tell_fails env _ (fetched_answer (fetched res)) begun err broken

    decoded_job_unsent :
        (b : Option Fetch.Bytes)
        → decoded_job env (timeout_of default_timeout_ms req) req b begun
          ≡ unsent_result err (decoded_context b) begun
    unfolding decoded_job run_job
    decoded_job_unsent (some body) = after_fetch-unsent (env.run_fetch s.writes (request_of body))
    decoded_job_unsent none = unfold write_json in ground arith

  finishing_unsent :
      (r : Registry) (err : NetError) (context : Option Text)
      → finishing req.id (unsent_result err context (record s { registry = r }))
        ≡ unsent_result err context (record s { registry = Jobs.finish req.id r })
  finishing_unsent r err none = refl
  finishing_unsent r err (some context) = refl

  -- Where the connection refuses the frame, `handleFetch` sends nothing and leaves the registry as
  -- it was. It returns the error and tells no outcome, but for a request body that cannot be
  -- decoded: there it drops the error and tells a failed job.
  pub handle_fetch_unsent :
      (err : NetError)
      → env.write_error s.writes ≡ some err
      → handle_fetch env default_timeout_ms req s
        ≡ unsent_result err (fresh_context (in_flight s.registry req.id)) s
  unfolding handle_fetch started_job
  handle_fetch_unsent err broken =
      let start = Jobs.start req.id (some s.writes) (env.now s.writes) s.registry in
      elim (Option-cases (in_flight s.registry req.id)) [
        | inr (e, present) ↦
            rw
              (
                start_of_present s.registry req.id (some s.writes) (env.now s.writes) e present,
                handle_fetch,
                present,
              )
              (reply_and_tell_fails env _ (fresh_answer (some e)) s err broken)
        | inl absent ↦
            rw
              (
                start_of_absent s.registry req.id (some s.writes) (env.now s.writes) absent,
                handle_fetch,
                absent,
                decoded_job_unsent start.0 err broken (decode_request_body env req.body_base64),
                finishing_unsent start.0 err
                    (decoded_context (decode_request_body env req.body_base64)),
                finish-start s.registry req.id (some s.writes) (env.now s.writes) absent,
              )
              refl
      ]

  unsent_result-registry :
      (err : NetError) (context : Option Text)
      → (unsent_result err context s).1.registry ≡ s.registry
  unsent_result-registry err none = refl
  unsent_result-registry err (some context) = refl

  pub handle_fetch-registry : (handle_fetch env default_timeout_ms req s).1.registry ≡ s.registry
  handle_fetch-registry = elim (Option-cases (env.write_error s.writes)) [
    | inl ok ↦ rw (handle_fetch_answers ok)
    | inr (err, broken) ↦
        rw (handle_fetch_unsent err broken)
          (unsent_result-registry err (fresh_context (in_flight s.registry req.id)))
  ]
