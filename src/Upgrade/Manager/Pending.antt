-- ===== src/Upgrade/Manager/Pending.antt =====
-- The state that an applied upgrade leaves: `CheckAndUpgrade` of internal/upgrade/manager.go.
use distil_proxy.Base.{
  ℕ, ◌≡◌, refl, sym, ap, ◌∙◌, Bool, true, false, Option, none, some, [], ◌∷◌, ◌++◌, if◌then◌else◌,
  arith,
}
use distil_proxy.Base.Int.{ℤ, pos, ◌≤ℤ◌}
use distil_proxy.Base.Text.{Bytes}
use mathlib.Core.Path.{subst}
use distil_proxy.Disk.{
  Disk, Faults, at, tmp, binary, upgrade_state, Result, ok, err, same_path, temp_binary,
}
use distil_proxy.Disk.Leaves.{Leaves, Leaves-bind, Leaves-mapping, Leaves-touch}
use distil_proxy.Disk.Success.{bind_ok, mapping_ok, write_file_ok, Leaves-run}
use distil_proxy.Upgrade.Manager.Keeps.{replace_file-Leaves}
use distil_proxy.Upgrade.Manager.Replace.{replaced}
use distil_proxy.Disk.Exec.{lift}
use distil_proxy.Upgrade.Manager.{
  ManagerConfig, Release, ReleaseInfo, UpgradeState, UpgradeError, save_state, io, encoded,
  mark_upgrade, prepare, install, apply_release, Checked, applied_of, act_on, check_release,
  fetch_latest, check_and_upgrade,
}

-- A time that encoding/json can write: before the year 9500, in nanoseconds from the year 1.
abbrev pub IsDated : ℤ → Type 0
IsDated t = (pos 0 ≤ℤ t) × (t ≤ℤ pos 300_000_000_000_000_000_000)

-- What is documented of encoding/json: a state whose times it can write is encoded, and decoded as it was, also with
-- a line break behind it. The clock shows such times.
pub record IsStateCodec (net : Release) : Type 0 where
  pub encode : UpgradeState → Bytes
  pub encodes :
      (s : UpgradeState)
      → IsDated s.upgraded_at
      → IsDated s.started_at
      → net.encode_state s ≡ some (encode s)
  pub decodes :
      (s : UpgradeState) (c : Bytes)
      → net.encode_state s ≡ some c
      → net.decode_state (c ++ (10 ∷ [])) ≡ some s
  pub dated : (n : ℕ) → IsDated (net.now n)

module _ (faults : Faults) (net : Release) (cfg : ManagerConfig) (release : ReleaseInfo) where
  -- The file holds the state of an upgrade to the release that was not started yet.
  unfoldable pub IsPending : Disk → Type 0
  IsPending d =
      (s : UpgradeState) × (c : Bytes) × (d.files (at upgrade_state) ≡ some (c ++ (10 ∷ [])))
      × (net.encode_state s ≡ some c)
      × (s.to_version ≡ release.version)
      × (s.started_once ≡ false)
      × (IsStateCodec net → IsDated s.upgraded_at)

  save_state_ok :
      (s : UpgradeState) (d d' : Disk)
      → save_state faults net cfg s d ≡ (ok tt, d')
      → (c : Bytes) × (d'.files (at upgrade_state) ≡ some (c ++ (10 ∷ [])))
        × (net.encode_state s ≡ some c)
  unfolding save_state lift same_path
  save_state_ok s d d' h =
      let (c, d1, e1, h1) = bind_ok _ _ tt d d' h in
      let (u, d2, e2, h2) = bind_ok _ _ tt d1 d' h1 in
      let (c', same, e) = content (net.encode_state s) c (ap (λ x. x.0) e1) in
      (
        c',
        replaced faults d2 d' (tmp upgrade_state) (at upgrade_state) refl refl refl
              (mapping_ok io _ tt d2 d' h2)
            ∙ write_file_ok faults d1 d2 (tmp upgrade_state) c refl (mapping_ok io _ tt d1 d2 e2)
            ∙ ap some same,
        e,
      )
    where
      content :
          (o : Option Bytes) (c : Bytes)
          → encoded faults net cfg o ≡ ok c
          → (c' : Bytes) × (c ≡ c' ++ (10 ∷ [])) × (o ≡ some c')
      content none c h = ground arith
      content (some c') c h = (c', ground arith, refl)

  mark_upgrade_ok :
      (d d' : Disk) → mark_upgrade faults net cfg release d ≡ (ok tt, d') → IsPending d'
  unfolding mark_upgrade IsPending
  mark_upgrade_ok d d' h =
      let (c, f, e) = save_state_ok _ d d' h in
      (_, c, f, e, refl, refl, λ codec. codec.dated d.calls)

  prepare-IsPending : (d d' : Disk) → prepare faults net cfg release d ≡ (ok tt, d') → IsPending d'
  unfolding prepare
  prepare-IsPending d d' h =
      let (_, d1, _, h1) = bind_ok _ _ tt d d' h in
      let (_, d2, _, h2) = bind_ok _ _ tt d1 d' h1 in
      let (_, d3, _, h3) = bind_ok _ _ tt d2 d' h2 in
      let (_, d4, _, h4) = bind_ok _ _ tt d3 d' h3 in mark_upgrade_ok d4 d' h4

  install-Leaves : Leaves (at upgrade_state) (install faults net cfg)
  unfolding install same_path
  install-Leaves =
      Leaves-bind (at upgrade_state) _ _
        (Leaves-mapping (at upgrade_state) io _
          (replace_file-Leaves faults (at upgrade_state) (at temp_binary) (at binary) refl refl))
        (λ _. Leaves-mapping (at upgrade_state) io _ (Leaves-touch faults (at upgrade_state)))

  pub apply_release-IsPending :
      (d d' : Disk) → apply_release faults net cfg release d ≡ (ok tt, d') → IsPending d'
  unfolding apply_release IsPending
  apply_release-IsPending d d' h =
      let (_, d1, e1, h1) = bind_ok _ _ tt d d' h in
      let (s, c, f, e, v, o, t) = prepare-IsPending d d1 e1 in
      (s, c, Leaves-run (at upgrade_state) _ _ d1 d' install-Leaves h1 ∙ f, e, v, o, t)

  installed-IsPending :
      (d : Disk) (s : Result UpgradeError (Unit {0}) × Disk)
      → apply_release faults net cfg release d ≡ s
      → (applied_of faults net cfg release s.0).result.is_applied ≡ true
      → IsPending s.1
  unfolding applied_of
  installed-IsPending d (ok tt, d') h a = apply_release-IsPending d d' h
  installed-IsPending d (err e, d') h a = ground arith

  enabled-IsPending :
      (d : Disk) (b : Bool) (c : Checked)
      → c.result.is_applied ≡ false
      → let s = apply_release faults net cfg release d in
        let t =
          if◌then◌else◌ {A = Checked × Disk} b
            (applied_of faults net cfg release s.0, s.1)
            (c, d) in
        t.0.result.is_applied ≡ true → IsPending t.1
  enabled-IsPending d true c e a = installed-IsPending d _ refl a
  enabled-IsPending d false c e a = ground arith

  act-IsPending :
      (d : Disk) (r : Result UpgradeError Bool)
      → (act_on faults net cfg release r d).0.result.is_applied ≡ true
      → IsPending (act_on faults net cfg release r d).1
  unfolding act_on
  act-IsPending d (err e) a = ground arith
  act-IsPending d (ok false) a = ground arith
  act-IsPending d (ok true) a = enabled-IsPending d cfg.is_enabled _ refl a

module _ (faults : Faults) (net : Release) (cfg : ManagerConfig) (release : ReleaseInfo) where
  judged :
      (d : Disk)
      → (check_release faults net cfg (ok release) d).0.result.is_applied ≡ true
      → IsPending faults net cfg release (check_release faults net cfg (ok release) d).1
  unfolding check_release
  judged d a = act-IsPending faults net cfg release _ _ a

  -- A check that reports an applied upgrade leaves the state of an upgrade that was not started yet.
  pub check-IsPending :
      (d : Disk)
      → fetch_latest faults net cfg net.latest ≡ ok release
      → (check_and_upgrade faults net cfg d).0.result.is_applied ≡ true
      → IsPending faults net cfg release (check_and_upgrade faults net cfg d).1
  unfolding check_and_upgrade
  check-IsPending d f =
      subst
        (λ r.
          (check_release faults net cfg r d).0.result.is_applied ≡ true
          → IsPending faults net cfg release (check_release faults net cfg r d).1)
        (sym f) (judged d)
