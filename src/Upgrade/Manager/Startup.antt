-- ===== src/Upgrade/Manager/Startup.antt =====
-- What a start does to the executable: `HandleStartup` of internal/upgrade/manager.go.
use distil_proxy.Base.{
  ◌≡◌, ◌≢◌, refl, ap, ◌∙◌, ◌⊎◌, inl, inr, ℕ, Bool, true, false, not, Option, none, some,
  if◌then◌else◌, arith,
}
use distil_proxy.Base.Int.{◌-ℤ◌, ltb_ℤ}
use distil_proxy.Base.Text.{Bytes}
use distil_proxy.Disk.{
  IoError, Disk, Faults, FilePath, at, binary, backup, upgrade_state, Result, ok, err, same_path,
}
use distil_proxy.Disk.Exec.{
  pure, raise, lift, ◌>>=◌, ◌>>◌, continue, attempt, mapping, wrap, ignore,
}
use distil_proxy.Disk.Leaves.{
  Leaves, Leaves-lift, Leaves-bind, Leaves-mapping, Leaves-read_file, Leaves-remove,
}
use distil_proxy.Disk.Success.{Leaves-run, bind_ok, mapping_ok, read_file_ok}
use distil_proxy.Upgrade.Manager.{
  ManagerConfig, Release, UpgradeState, UpgradeError, io, rollback_failed, is_current, load_state,
  decoded, save_state, clear_state, settle_upgrade, roll_back, startup_of, is_missing_state,
  or_no_state, handle_startup, replace_file,
}
use distil_proxy.Upgrade.Manager.Keeps.{save_state-Leaves}
use distil_proxy.Upgrade.Manager.Replace.{replace_file-target, replaced}

module _ (faults : Faults) (net : Release) (cfg : ManagerConfig) where
  -- The state of an upgrade to this version that was started once, less than the window ago, and not shut down.
  unfoldable pub IsCrash : UpgradeState → Type 0
  IsCrash state =
      (is_current faults net cfg state.to_version ≡ true)
      × (state.started_once ≡ true)
      × (state.clean_shutdown ≡ false)
      × ((n : ℕ) × (ltb_ℤ (net.now n -ℤ state.started_at) cfg.rollback_window ≡ true))

  -- The binary is as it was, gone, or what the backup was; the last, if a rollback is reported.
  unfoldable pub IsRollback : Disk → Result UpgradeError Bool → Disk → Type 0
  IsRollback d r d' =
      (d'.files (at binary) ≡ d.files (at backup))
      ⊎ ((r ≢ ok true)
          × ((d'.files (at binary) ≡ d.files (at binary)) ⊎ (d'.files (at binary) ≡ none)))

  unfoldable pub IsKept : Disk → Result UpgradeError Bool → Disk → Type 0
  IsKept d r d' = (d'.files (at binary) ≡ d.files (at binary)) × (r ≢ ok true)

  clear_lem : (d : Disk) → (clear_state faults net cfg d).1.files (at binary) ≡ d.files (at binary)
  unfolding clear_state ignore same_path
  clear_lem d = (Leaves-remove faults (at binary) (at upgrade_state) refl).kept d

  clear_false :
      (d : Disk) → let (r, d') = (clear_state faults net cfg >> pure false) d in IsKept d r d'
  unfolding IsKept clear_state ignore pure ◌>>=◌ continue same_path
  clear_false d =
      ((Leaves-remove faults (at binary) (at upgrade_state) refl).kept d, λ e. ground arith)

  settle_lem : (d : Disk) → let (r, d') = settle_upgrade faults net cfg d in IsKept d r d'
  unfolding IsKept settle_upgrade clear_state ignore pure ◌>>=◌ continue same_path
  settle_lem d = (
    (Leaves-remove faults (at binary) (at backup) refl).kept _
        ∙ (Leaves-remove faults (at binary) (at upgrade_state) refl).kept d,
    λ e. ground arith,
  )

  save_false :
      (state : UpgradeState) (d : Disk)
      → let (r, d') = (save_state faults net cfg state >> pure false) d in IsKept d r d'
  unfolding IsKept ◌>>=◌ continue pure same_path
  save_false state d =
      after (save_state faults net cfg state d)
        ((save_state-Leaves faults net cfg (at binary) state refl refl).kept d)
    where
      after :
          (s : Result UpgradeError (Unit {0}) × Disk)
          → s.1.files (at binary) ≡ d.files (at binary)
          → let t = continue s.0 (λ _. pure false) s.1 in
            (t.1.files (at binary) ≡ d.files (at binary)) × (t.0 ≢ ok true)
      after (ok _, d') e = (e, λ h. ground arith)
      after (err x, d') e = (e, λ h. ground arith)

  roll_back_lem : (d : Disk) → let (r, d') = roll_back faults net cfg d in IsRollback d r d'
  unfolding IsRollback roll_back same_path ◌>>=◌ continue pure mapping wrap clear_state ignore
  roll_back_lem d =
      after (replace_file faults (at backup) (at binary) d) refl
        (replace_file-target faults (at backup) (at binary) refl refl refl d)
    where
      after :
          (s : Result IoError (Unit {0}) × Disk)
          → replace_file faults (at backup) (at binary) d ≡ s
          → ((s.1.files (at binary) ≡ d.files (at binary))
              ⊎ (s.1.files (at binary) ≡ none)
              ⊎ (s.1.files (at binary) ≡ d.files (at backup)))
          → let t =
              continue
                (wrap rollback_failed s.0)
                (λ _. clear_state faults net cfg >> pure true)
                s.1 in
            IsRollback d t.0 t.1
      after (ok _, d') e h =
          inl (clear_lem d' ∙ replaced faults d d' (at backup) (at binary) refl refl refl e)
      after (err x, d') e (inl h) = inr ((λ k. ground arith), inl h)
      after (err x, d') e (inr (inl h)) = inr ((λ k. ground arith), inr h)
      after (err x, d') e (inr (inr h)) = inl h

  -- What a start may come to, with the state that was loaded.
  unfoldable pub IsStartOf : UpgradeState → Disk → Result UpgradeError Bool → Disk → Type 0
  IsStartOf state d r d' = IsKept d r d' ⊎ (IsCrash state × IsRollback d r d')

  startup_of_lem :
      (state : UpgradeState) (d : Disk)
      → let (r, d') = startup_of faults net cfg state d in IsStartOf state d r d'
  unfolding startup_of IsStartOf IsCrash
  startup_of_lem state d = decide _ _ _ _ refl refl refl refl
    where
      decide :
          (b1 b2 b3 b4 : Bool)
          → is_current faults net cfg state.to_version ≡ b1
          → state.started_once ≡ b2
          → state.clean_shutdown ≡ b3
          → ltb_ℤ (net.now d.calls -ℤ state.started_at) cfg.rollback_window ≡ b4
          → let t : Result UpgradeError Bool × Disk =
              if not b1
              then (clear_state faults net cfg >> pure false) d
              else if not b2
              then (save_state faults net cfg (record state {
                started_once = true;
                started_at = net.now d.calls;
                clean_shutdown = false;
              })
                    >> pure false)
                  d
              else if b3
              then settle_upgrade faults net cfg d
              else if b4
              then roll_back faults net cfg d
              else settle_upgrade faults net cfg d in
            IsStartOf state d t.0 t.1
      decide false b2 b3 b4 e1 e2 e3 e4 = inl (clear_false d)
      decide true false b3 b4 e1 e2 e3 e4 = inl (save_false _ d)
      decide true true true b4 e1 e2 e3 e4 = inl (settle_lem d)
      decide true true false false e1 e2 e3 e4 = inl (settle_lem d)
      decide true true false true e1 e2 e3 e4 = inr ((e1, e2, e3, (d.calls, e4)), roll_back_lem d)

  load_state-Leaves : (p : FilePath) → Leaves p (load_state faults net cfg)
  unfolding load_state
  load_state-Leaves p =
      Leaves-bind p _ _ (Leaves-mapping p io _ (Leaves-read_file faults p (at upgrade_state)))
        (λ c. Leaves-lift p _)

  -- The file holds the state.
  unfoldable pub IsSavedState : Disk → UpgradeState → Type 0
  IsSavedState d state =
      (c : Bytes) × (d.files (at upgrade_state) ≡ some c) × (net.decode_state c ≡ some state)

  load_state-IsSavedState :
      (state : UpgradeState) (d d' : Disk)
      → load_state faults net cfg d ≡ (ok state, d')
      → IsSavedState d state
  unfolding load_state IsSavedState lift
  load_state-IsSavedState state d d' e =
      let (c, d1, e1, e2) = bind_ok _ _ state d d' e in
      (
        c,
        read_file_ok faults d d1 (at upgrade_state) c (mapping_ok io _ c d d1 e1),
        parsed (net.decode_state c) (ap (λ s. s.0) e2),
      )
    where
      parsed : (o : Option UpgradeState) → decoded faults net cfg o ≡ ok state → o ≡ some state
      parsed none h = ground arith
      parsed (some x) h = ground arith

  -- What a start may come to: the binary is kept and no rollback reported; or the file holds the state of a
  -- crash, and the binary is rolled back as far as the calls went.
  unfoldable pub IsStart : Disk → Result UpgradeError Bool → Disk → Type 0
  IsStart d r d' =
      IsKept d r d'
      ⊎ ((state : UpgradeState) × IsSavedState d state × IsCrash state × IsRollback d r d')

  IsStart-before :
      (state : UpgradeState) (d d1 : Disk) (r : Result UpgradeError Bool) (d' : Disk)
      → d1.files (at binary) ≡ d.files (at binary)
      → d1.files (at backup) ≡ d.files (at backup)
      → IsSavedState d state
      → IsStartOf state d1 r d'
      → IsStart d r d'
  unfolding IsStart IsStartOf IsKept IsRollback
  IsStart-before state d d1 r d' e f saved (inl (h, k)) = inl (h ∙ e, k)
  IsStart-before state d d1 r d' e f saved (inr (crash, inl h)) =
      inr (state, saved, crash, inl (h ∙ f))
  IsStart-before state d d1 r d' e f saved (inr (crash, inr (k, inl h))) =
      inr (state, saved, crash, inr (k, inl (h ∙ e)))
  IsStart-before state d d1 r d' e f saved (inr (crash, inr (k, inr h))) =
      inr (state, saved, crash, inr (k, inr h))

  IsStart-after :
      (d d1 : Disk) (s : Result UpgradeError UpgradeState)
      → load_state faults net cfg d ≡ (s, d1)
      → let (r, d') = or_no_state faults net cfg false s (startup_of faults net cfg) d1 in
        IsStart d r d'
  unfolding or_no_state IsStart IsKept pure raise
  IsStart-after d d1 (ok state) e =
      IsStart-before state d d1 _ _
        (Leaves-run (at binary) _ _ d d1 (load_state-Leaves (at binary)) e)
        (Leaves-run (at backup) _ _ d d1 (load_state-Leaves (at backup)) e)
        (load_state-IsSavedState state d d1 e) (startup_of_lem state d1)
  IsStart-after d d1 (err x) e = missing (is_missing_state faults net cfg x)
    where
      missing : (b : Bool) → let t = (if b then pure false else raise x) d1 in IsStart d t.0 t.1
      missing true =
          inl (Leaves-run (at binary) _ _ d d1 (load_state-Leaves (at binary)) e, λ k. ground arith)
      missing false =
          inl (Leaves-run (at binary) _ _ d d1 (load_state-Leaves (at binary)) e, λ k. ground arith)

  -- Whatever call fails, a start keeps the binary and reports no rollback, unless the state file tells of an
  -- upgrade to this version that was started once, less than the window ago, and not shut down. Then the binary
  -- is what the backup was, or no rollback is reported and the binary is kept or gone.
  pub handle_startup-IsStart :
      (d : Disk) → let (r, d') = handle_startup faults net cfg d in IsStart d r d'
  unfolding handle_startup attempt ◌>>=◌ continue
  handle_startup-IsStart d = IsStart-after d _ _ refl
