-- ===== src/Ws/Run/Backoff.antt =====
-- How long `Run` waits between two sessions.
use distil_proxy.Base.{
  ℕ, zero, suc, ◌+◌, ◌*◌, ◌^◌, ◌≤◌, ◌<◌, min, ◌≡◌, sym, ap, ◌∙◌, append_assoc, append-nil, ◌⊎◌,
  false, Option, none, some, List, [], ◌∷◌, ◌++◌, arith, All, All-append, length, Bool-cases, inl,
  inr,
}
use distil_proxy.Base.Int.{ℤ, pos, ◌≤ℤ◌, ◌<ℤ◌, wrap64}
use native.Mathlib.Nat.{pow-suc}
use distil_proxy.Fetch.{NetError}
use distil_proxy.Ws.Config.{ClientConfig}
use distil_proxy.Ws.Client.{Env, Session, WsError, dial}
use distil_proxy.Ws.Run.{
  Pass, Progress, Ending, settle, run_loop, run, run_session, Step, ended, running, stop,
  tell_error, current_backoff, next_backoff,
}

module _ (cfg : ClientConfig) where
  -- A delay above 0 and within the larger of the first delay and the maximum.
  abbrev pub IsWait : ℤ → Type 0
  IsWait w = (pos 0 <ℤ w) × ((w ≤ℤ cfg.max_reconnect_wait) ⊎ (w ≤ℤ cfg.initial_reconnect))

  module _ (positive : (pos 0 <ℤ cfg.initial_reconnect) × (pos 0 <ℤ cfg.max_reconnect_wait))
      (small : (cfg.initial_reconnect <ℤ pos (2 ^ 62))
        × (cfg.max_reconnect_wait <ℤ pos (2 ^ 62))) where
    next_backoff-IsWait :
        (err : Option WsError) (w : ℤ) → IsWait w → IsWait (next_backoff cfg err w)
    unfolding next_backoff wrap64
    next_backoff-IsWait none w h = h
    next_backoff-IsWait (some err) w h = ground arith

    current_backoff-IsWait :
        (err : Option WsError) (w : ℤ) → IsWait w → IsWait (current_backoff cfg err w)
    unfolding current_backoff
    current_backoff-IsWait none w h = ground arith
    current_backoff-IsWait (some err) w h = h

    settle-waits :
        (pass : Pass) (ending : Ending) (w : ℤ) (t : Session) (waits : List ℤ)
        (next : ℤ → Session → List ℤ → Progress)
        → ((w : ℤ) (u : Session) (waits : List ℤ)
            → IsWait w
            → All IsWait waits
            → All IsWait (next w u waits).waits)
        → IsWait w
        → All IsWait waits
        → All IsWait (settle cfg pass ending w t waits next).waits
    unfolding settle stop
    settle-waits pass running w t waits next go h hs = hs
    settle-waits pass (ended err) w t waits next go h hs =
        let now = current_backoff-IsWait err w h in
        let hs' = All-append IsWait waits (current_backoff cfg err w ∷ []) hs (now, tt) in
        elim (Bool-cases pass.is_done) [
          | inl done ↦ rw (done, settle) hs
          | inr busy ↦ elim (Bool-cases pass.is_done_waiting) [
            | inl done ↦ rw (busy, settle, done) hs'
            | inr idle ↦
                rw (busy, settle, idle)
                  (go _ (tell_error err t) _
                    (next_backoff-IsWait err (current_backoff cfg err w) now) hs')
          ]
        ]

    run_loop-waits :
        (env : Env) (passes : List Pass) (w : ℤ) (s : Session) (waits : List ℤ)
        → IsWait w
        → All IsWait waits
        → All IsWait (run_loop env cfg passes w s waits).waits
    unfolding run_loop
    run_loop-waits env [] w s waits h hs = hs
    run_loop-waits env (pass ∷ passes) w s waits h hs =
        let (ending, t) = run_session env cfg pass.dial_error pass.steps s in
        settle-waits pass ending w t waits (run_loop env cfg passes) (run_loop-waits env passes) h
          hs

    -- Whatever the sessions do, every wait of `Run` is above 0 and no longer than the maximum or
    -- the first delay, where both are above 0 and below 2^62 nanoseconds.
    pub run_waits_bounded :
        (env : Env) (passes : List Pass) (s : Session) → All IsWait (run env cfg passes s).waits
    unfolding run
    run_waits_bounded env passes s =
        run_loop-waits env passes cfg.initial_reconnect s [] (positive.0, inr (omega arith)) tt

settle_goes_on :
    (cfg : ClientConfig) (pass : Pass) (err : WsError) (w : ℤ) (t : Session) (waits : List ℤ)
    (next : ℤ → Session → List ℤ → Progress)
    → pass.is_done ≡ false
    → pass.is_done_waiting ≡ false
    → settle cfg pass (ended (some err)) w t waits next
      ≡ next (next_backoff cfg (some err) w) (tell_error (some err) t) (waits ++ w ∷ [])
unfolding settle current_backoff
settle_goes_on cfg pass err w t waits next go_on idle = rw (go_on, settle, idle)

run_session_down :
    (env : Env) (cfg : ClientConfig) (dialed : Option NetError) (steps : List Step) (s : Session)
    (e : NetError)
    → dialed ≡ some e
    → run_session env cfg dialed steps s ≡ (ended (some (dial e)), s)
unfolding run_session
run_session_down env cfg dialed steps s e down = rw down

-- Nothing answers, and the context goes on.
abbrev pub IsUnreachable : Pass → Type 0
IsUnreachable pass =
    ((e : NetError) × (pass.dial_error ≡ some e))
    × (pass.is_done ≡ false)
    × (pass.is_done_waiting ≡ false)

-- The delay after `k` failures in a row, and the delays from there on.
abbrev pub delay : ℕ → ℕ → ℕ → ℕ
delay first most k = min (first * 2 ^ k) most

abbrev pub delays : ℕ → ℕ → ℕ → ℕ → List ℤ
delays first most k zero = []
delays first most k (suc n) = pos (delay first most k) ∷ delays first most (suc k) n

module _ (env : Env) (cfg : ClientConfig) (first most : ℕ)
    (is_first : cfg.initial_reconnect ≡ pos first) (is_most : cfg.max_reconnect_wait ≡ pos most)
    (ordered : first ≤ most) (small : most < 2 ^ 62) where
  next-delay :
      (k : ℕ) (err : WsError)
      → next_backoff cfg (some err) (pos (delay first most k)) ≡ pos (delay first most (suc k))
  unfolding next_backoff wrap64
  next-delay k err = rw is_most (ground (arith, double))
    where
      double : first * 2 ^ suc k ≡ first * 2 ^ k + first * 2 ^ k
      double = rw pow-suc (grind arith)

  run_loop-delays :
      (passes : List Pass) (k : ℕ) (s : Session) (waits : List ℤ)
      → All IsUnreachable passes
      → (run_loop env cfg passes (pos (delay first most k)) s waits).waits
        ≡ waits ++ delays first most k (length passes)
  unfolding run_loop
  run_loop-delays [] k s waits _ = sym (append-nil waits)
  run_loop-delays (pass ∷ passes) k s waits (((e, down), go_on, idle), hs) =
      let (ending, t) = run_session env cfg pass.dial_error pass.steps s in
      let wait = pos (delay first most k) in
      rw (run_session_down env cfg pass.dial_error pass.steps s e down) (
        rw
          (
            settle_goes_on cfg pass (dial e) wait s waits (run_loop env cfg passes) go_on idle,
            next-delay k (dial e),
          )
          (run_loop-delays passes (suc k) _ _ hs ∙ append_assoc waits (wait ∷ []) _))

  -- Where the first delay is no longer than the maximum, and the maximum is below 2^62 nanoseconds: while the server
  -- cannot be reached and the context goes on, the k-th wait in a row, counted from 0, is the first delay doubled k
  -- times, up to the maximum.
  pub run_backs_off :
      (passes : List Pass) (s : Session)
      → All IsUnreachable passes
      → (run env cfg passes s).waits ≡ delays first most 0 (length passes)
  unfolding run
  run_backs_off passes s down =
      ap (λ w. (run_loop env cfg passes w s []).waits) first_delay
      ∙ run_loop-delays passes 0 s [] down
    where
      first_delay : cfg.initial_reconnect ≡ pos (delay first most 0)
      first_delay = rw is_first (ground arith)
