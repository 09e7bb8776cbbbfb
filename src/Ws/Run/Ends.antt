-- ===== src/Ws/Run/Ends.antt =====
-- What `Run` leaves behind.
use distil_proxy.Base.{
  ◌≡◌, refl, ◌∙◌, true, Option, none, some, List, [], ◌∷◌, ◌++◌, arith, Option-cases, Bool-cases,
  inl, inr,
}
use distil_proxy.Base.Int.{ℤ}
use distil_proxy.Base.Text.{Text, codes}
use distil_proxy.Fetch.{Bytes, NetError}
use distil_proxy.Jobs.{new_registry, cancel_all}
use distil_proxy.Ws.Config.{ClientConfig}
use distil_proxy.Ws.Protocol.{FetchRequest, Frame, ping, pong}
use distil_proxy.Ws.Client.{
  Env, Session, Event, state_changed, Decoded, decoded, undecodable, write_json, send_pong,
  dispatch, handle_request, handle_message,
}
use distil_proxy.Ws.Client.Reply.{handle_fetch-registry}
use distil_proxy.Ws.Run.{
  Step, tick, round, Beating, beat, receive, payload_of, session_loop, run_session, Ending, ended,
  running, Pass, Progress, stop, tell_error, settle, run_loop, run,
}

abbrev pub IsStopped : Session → Type 0
IsStopped s =
    (s.registry ≡ new_registry)
    × (es : List Event) × (s.events ≡ es ++ state_changed (codes "stopped") ∷ [])

stop-IsStopped : (s : Session) (waits : List ℤ) → IsStopped (stop s waits).session
unfolding stop cancel_all
stop-IsStopped s waits = (refl, s.events, refl)

module _ (env : Env) where
  write_json-registry : (f : Frame) (s : Session) → (write_json env f s).1.registry ≡ s.registry
  unfolding write_json
  write_json-registry f s = ground arith

  handle_request-registry :
      (d : ℤ) (r : Decoded FetchRequest) (s : Session)
      → (handle_request env d r s).1.registry ≡ s.registry
  unfolding handle_request
  handle_request-registry d (undecodable e) s = refl
  handle_request-registry d (decoded req) s = ground (arith, handle_fetch-registry env d req s)

  send_pong-registry : (s : Session) → (send_pong env s).1.registry ≡ s.registry
  unfolding send_pong
  send_pong-registry s = ground (arith, write_json-registry pong s)

  dispatch-registry :
      (d : ℤ) (payload : Bytes) (type : Decoded Text) (s : Session)
      → (dispatch env d payload type s).1.registry ≡ s.registry
  unfolding dispatch
  dispatch-registry d payload (undecodable e) s = refl
  dispatch-registry d payload (decoded type) s =
      ground (arith, handle_request-registry d (env.fetch_request payload) s, send_pong-registry s)

  handle_message-registry :
      (d : ℤ) (payload : Bytes) (s : Session)
      → (handle_message env d payload s).1.registry ≡ s.registry
  unfolding handle_message
  handle_message-registry d payload s = dispatch-registry d payload (env.envelope_type payload) s

  module _ (cfg : ClientConfig) where
    beat-registry : (b : Beating) → (beat env cfg b).session.registry ≡ b.session.registry
    unfolding beat
    beat-registry b = ground (arith, write_json-registry ping b.session)

    session_loop-registry :
        (steps : List Step) (b : Beating)
        → (session_loop env cfg steps b).1.registry ≡ b.session.registry
    unfolding session_loop
    session_loop-registry [] b = refl
    session_loop-registry (tick ∷ steps) b =
        session_loop-registry steps (beat env cfg b) ∙ beat-registry b
    session_loop-registry (round done read ∷ steps) b =
        let (failure, s) = handle_message env cfg.default_timeout_ms (payload_of read) b.session in
        let kept = handle_message-registry cfg.default_timeout_ms (payload_of read) b.session in
        let later = session_loop-registry steps (record b { session = s }) in
        elim (Option-cases (receive done read b.pending)) [
          | inr (ending, e) ↦ rw (e, session_loop)
          | inl go_on ↦ elim (Option-cases failure) [
            | inr (err, e) ↦ rw (go_on, session_loop, e) kept
            | inl fine ↦ rw (go_on, session_loop, fine) (later ∙ kept)
          ]
        ]

    -- A session leaves the jobs in flight as it found them, whatever comes over the connection and
    -- however the session ends: each job ends before the next message is read.
    pub run_session-registry :
        (dialed : Option NetError) (steps : List Step) (s : Session)
        → (run_session env cfg dialed steps s).1.registry ≡ s.registry
    unfolding run_session
    run_session-registry (some e) steps s = refl
    run_session-registry none steps s = session_loop-registry steps _

    settle-IsStopped :
        (pass : Pass) (ending : Ending) (w : ℤ) (t : Session) (waits : List ℤ)
        (next : ℤ → Session → List ℤ → Progress)
        → ((w : ℤ) (u : Session) (waits : List ℤ)
            → (next w u waits).is_finished ≡ true
            → IsStopped (next w u waits).session)
        → (settle cfg pass ending w t waits next).is_finished ≡ true
        → IsStopped (settle cfg pass ending w t waits next).session
    unfolding settle
    settle-IsStopped pass running w t waits next go h = cc
    settle-IsStopped pass (ended err) w t waits next go h = elim (Bool-cases pass.is_done) [
      | inl done ↦ rw (done, settle) (stop-IsStopped t waits)
      | inr busy ↦ elim (Bool-cases pass.is_done_waiting) [
        | inl done ↦ rw (busy, settle, done) (stop-IsStopped (tell_error err t) _)
        | inr idle ↦ rw (busy, settle, idle) (go _ _ _ (rw (busy, settle, idle) at h))
      ]
    ]

    run_loop-IsStopped :
        (passes : List Pass) (w : ℤ) (s : Session) (waits : List ℤ)
        → (run_loop env cfg passes w s waits).is_finished ≡ true
        → IsStopped (run_loop env cfg passes w s waits).session
    unfolding run_loop
    run_loop-IsStopped [] w s waits h = cc
    run_loop-IsStopped (pass ∷ passes) w s waits h =
        let (ending, t) = run_session env cfg pass.dial_error pass.steps s in
        settle-IsStopped pass ending w t waits (run_loop env cfg passes) (run_loop-IsStopped passes)
          h

    -- When `Run` returns, no job is in flight and the last thing that the hooks were told is the
    -- state "stopped".
    pub run-IsStopped :
        (passes : List Pass) (s : Session)
        → (run env cfg passes s).is_finished ≡ true
        → IsStopped (run env cfg passes s).session
    unfolding run
    run-IsStopped passes s h = run_loop-IsStopped passes cfg.initial_reconnect s [] h
