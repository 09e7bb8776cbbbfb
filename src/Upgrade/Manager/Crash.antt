-- ===== src/Upgrade/Manager/Crash.antt =====
-- An upgrade followed by two starts of the new version: `CheckAndUpgrade`, `HandleStartup` and `MarkCleanShutdown`
-- of internal/upgrade/manager.go, in a row.
use distil_proxy.Base.{
  ◌+◌, ◌≡◌, refl, sym, ap, ◌∙◌, Bool, true, false, Option, none, some, [], ◌∷◌, ◌++◌, if◌then◌else◌,
}
use distil_proxy.Base.Int.{ℤ, ◌-ℤ◌, ltb_ℤ}
use distil_proxy.Base.Text.{Bytes}
use mathlib.Core.Path.{subst}
use distil_proxy.Upgrade.Manager.Outcome.{IsApplied, IsInstalled, check_and_upgrade-IsApplied}
use distil_proxy.Upgrade.Manager.Keeps.{save_state-Leaves}
use distil_proxy.Disk.{Disk, Faults, at, binary, backup, upgrade_state, Result, ok, same_path}
use distil_proxy.Upgrade.Manager.{
  ManagerConfig, Release, ReleaseInfo, UpgradeState, UpgradeError, is_current, save_state,
  settle_upgrade, roll_back, handle_startup, mark_clean_shutdown, fetch_latest, check_and_upgrade,
}
use distil_proxy.Upgrade.Manager.Calm.{
  calm, startup_from, startup_first, startup_clean, startup_again, shutdown_first, shutdown_from,
  save_calm, roll_back-calm, settle_calm,
}
use distil_proxy.Upgrade.Manager.Pending.{IsStateCodec, IsDated, IsPending, check-IsPending}

-- The files of an upgrade are on one disk what they are on the other.
pub record SameUpgrade (d d' : Disk) : Type 0 where
  pub binary_kept : d'.files (at binary) ≡ d.files (at binary)
  pub backup_kept : d'.files (at backup) ≡ d.files (at backup)
  pub state_kept : d'.files (at upgrade_state) ≡ d.files (at upgrade_state)

-- A start that reports whether it rolled back, with this binary and no trace of an upgrade.
pub record IsEnd (rolled_back : Bool) (content : Option Bytes) (s : Result UpgradeError Bool × Disk)
    : Type 0 where
  pub reported : s.0 ≡ ok rolled_back
  pub in_place : s.1.files (at binary) ≡ content
  pub no_backup : s.1.files (at backup) ≡ none
  pub no_state : s.1.files (at upgrade_state) ≡ none

abbrev next : Disk → Disk
next d = record d { calls = d.calls + 1 }

module _ (net : Release) (codec : IsStateCodec net) (cfg : ManagerConfig) where
  -- The file holds the state of an upgrade to this version, and the binaries are those.
  record IsAt (started_once clean : Bool) (new old : Option Bytes) (started_at : ℤ) (d : Disk)
      : Type 0 where
    content : Bytes
    state : UpgradeState
    stored : d.files (at upgrade_state) ≡ some content
    decoded : net.decode_state content ≡ some state
    current : is_current calm net cfg state.to_version ≡ true
    once : state.started_once ≡ started_once
    shut : state.clean_shutdown ≡ clean
    time : state.started_at ≡ started_at
    dated : IsDated state.upgraded_at
    running : d.files (at binary) ≡ new
    saved : d.files (at backup) ≡ old

  moved :
      {once clean : Bool} {new old : Option Bytes} {t : ℤ} {d d' : Disk}
      → SameUpgrade d d'
      → IsAt once clean new old t d
      → IsAt once clean new old t d'
  moved same a = record {
    content = a.content;
    state = a.state;
    stored = same.state_kept ∙ a.stored;
    decoded = a.decoded;
    current = a.current;
    once = a.once;
    shut = a.shut;
    time = a.time;
    dated = a.dated;
    running = same.binary_kept ∙ a.running;
    saved = same.backup_kept ∙ a.saved;
  }

  saved_as :
      (s : UpgradeState) (new old : Option Bytes) (d : Disk)
      → IsDated s.upgraded_at
      → IsDated s.started_at
      → is_current calm net cfg s.to_version ≡ true
      → d.files (at binary) ≡ new
      → d.files (at backup) ≡ old
      → (save_state calm net cfg s d).1.files (at upgrade_state)
        ≡ some (codec.encode s ++ (10 ∷ []))
      → IsAt s.started_once s.clean_shutdown new old s.started_at (save_state calm net cfg s d).1
  unfolding same_path
  saved_as s new old d dated_up dated current running saved f = record {
    content = codec.encode s ++ (10 ∷ []);
    state = s;
    stored = f;
    decoded = codec.decodes s (codec.encode s) (codec.encodes s dated_up dated);
    current = current;
    once = refl;
    shut = refl;
    time = refl;
    dated = dated_up;
    running = (save_state-Leaves calm net cfg (at binary) s refl refl).kept d ∙ running;
    saved = (save_state-Leaves calm net cfg (at backup) s refl refl).kept d ∙ saved;
  }

  -- The first start of the new version notes that it was started, and reports no rollback.
  first_start :
      {clean : Bool} {new old : Option Bytes} {t : ℤ} (d : Disk)
      → IsAt false clean new old t d
      → ((handle_startup calm net cfg d).0 ≡ ok false)
        × IsAt true false new old (net.now (d.calls + 1)) (handle_startup calm net cfg d).1
  first_start {new} {old} d a =
      let s : UpgradeState = record a.state {
        started_once = true;
        started_at = net.now (d.calls + 1);
        clean_shutdown = false;
      } in
      let (w, f) =
        save_calm net cfg s (codec.encode s) (next d)
          (codec.encodes s a.dated (codec.dated (d.calls + 1))) in
      let e =
        startup_from net cfg a.state a.content d a.stored a.decoded
        ∙ startup_first net cfg a.state (next d) a.current a.once w in
      (
        ap (λ x. x.0) e,
        subst (λ x. IsAt true false new old (net.now (d.calls + 1)) x.1) (sym e)
            (saved_as s new old (next d) a.dated (codec.dated (d.calls + 1)) a.current a.running
              a.saved f),
      )

  -- A clean end is noted.
  clean_end :
      {new old : Option Bytes} {t : ℤ} (d : Disk)
      → IsAt true false new old t d
      → IsDated t
      → ((mark_clean_shutdown calm net cfg d).0 ≡ ok tt)
        × IsAt true true new old t (mark_clean_shutdown calm net cfg d).1
  clean_end {new} {old} {t} d a h =
      let s : UpgradeState = record a.state { clean_shutdown = true } in
      let dated : IsDated s.started_at = subst IsDated (sym a.time) h in
      let (w, f) = save_calm net cfg s (codec.encode s) (next d) (codec.encodes s a.dated dated) in
      let e =
        shutdown_from net cfg a.state a.content d a.stored a.decoded
        ∙ shutdown_first net cfg a.state (next d) a.current a.once a.shut in
      (
        ap (λ x. x.0) e ∙ w,
        subst (λ x. IsAt true true new old t x.1) (sym e)
            (subst (λ u. IsAt true true new old u (save_state calm net cfg s (next d)).1) a.time
              (subst
                (λ b. IsAt b true new old a.state.started_at (save_state calm net cfg s (next d)).1)
                a.once (saved_as s new old (next d) a.dated dated a.current a.running a.saved f))),
      )

  settled-IsEnd :
      {new : Option Bytes} (d : Disk)
      → d.files (at binary) ≡ new
      → IsEnd false new (settle_upgrade calm net cfg (next d))
  settled-IsEnd d e =
      let (r, b, k, s) = settle_calm net cfg (next d) in
      record { reported = r; in_place = b ∙ e; no_backup = k; no_state = s }

  either-IsEnd :
      (soon : Bool) (new : Option Bytes) (old : Bytes) (d : Disk)
      → d.files (at binary) ≡ new
      → d.files (at backup) ≡ some old
      → IsEnd soon
          (if soon then some old else new)
          (if soon then roll_back calm net cfg (next d) else settle_upgrade calm net cfg (next d))
  either-IsEnd true new old d e f =
      let (r, b, k, s) = roll_back-calm net cfg old (next d) f in
      record { reported = r; in_place = b; no_backup = k; no_state = s }
  either-IsEnd false new old d e f = settled-IsEnd d e

  -- A start behind a clean end keeps the new version, and removes the backup.
  kept_start :
      {new old : Option Bytes} {t : ℤ} (d : Disk)
      → IsAt true true new old t d
      → IsEnd false new (handle_startup calm net cfg d)
  kept_start {new} {old} d a =
      let e =
        startup_from net cfg a.state a.content d a.stored a.decoded
        ∙ startup_clean net cfg a.state (next d) a.current a.once a.shut in
      subst (IsEnd false new) (sym e) (settled-IsEnd d a.running)

  crash_start :
      {new : Option Bytes} {old : Bytes} {t : ℤ} (d : Disk)
      → IsAt true false new (some old) t d
      → let soon = ltb_ℤ (net.now (d.calls + 1) -ℤ t) cfg.rollback_window in
        IsEnd soon (if soon then some old else new) (handle_startup calm net cfg d)
  crash_start {new} {old} {t} d a =
      let e =
        startup_from net cfg a.state a.content d a.stored a.decoded
        ∙ startup_again net cfg a.state (next d) a.current a.once a.shut in
      subst
        (λ u.
          let soon = ltb_ℤ (net.now (d.calls + 1) -ℤ u) cfg.rollback_window in
          IsEnd soon (if soon then some old else new) (handle_startup calm net cfg d))
        a.time (subst (IsEnd _ _) (sym e) (either-IsEnd _ new old d a.running a.saved))

-- After an upgrade that a check of the old version reports as applied: the new version is started, on a disk with the
-- files of the upgrade as the check left them, and no call fails.
module _ (faults : Faults) (net : Release) (codec : IsStateCodec net) (cfg new_cfg : ManagerConfig)
    (release : ReleaseInfo) (offered : fetch_latest faults net cfg net.latest ≡ ok release)
    (taken : is_current calm net new_cfg release.version ≡ true) (d : Disk) (old : Bytes)
    (there : d.files (at binary) ≡ some old)
    (applied : (check_and_upgrade faults net cfg d).0.result.is_applied ≡ true) (d1 : Disk)
    (same : SameUpgrade (check_and_upgrade faults net cfg d).1 d1) where
  upgraded :
      (clean : Bool) × (t : ℤ) × IsAt net codec new_cfg false clean
        (d1.files (at binary))
        (some old)
        t
        d1
  unfolding IsPending IsApplied IsInstalled
  upgraded =
      let (s, c, f, e, v, o, t) = check-IsPending faults net cfg release d offered applied in
      let (_, _, _, _, i) = check_and_upgrade-IsApplied faults net cfg d applied in
      (
        s.clean_shutdown,
        s.started_at,
        record {
          content = c ++ (10 ∷ []);
          state = s;
          stored = same.state_kept ∙ f;
          decoded = codec.decodes s c e;
          current = subst (λ w. is_current calm net new_cfg w ≡ true) (sym v) taken;
          once = o;
          shut = refl;
          time = refl;
          dated = t codec;
          running = refl;
          saved = same.backup_kept ∙ i.0 ∙ there;
        },
      )

  -- After an upgrade that a check of the old version reports as applied, where no call fails in the starts of the
  -- new version, and nothing else changes the binary, the backup or the state: its first start
  -- reports no rollback. If it does not end cleanly, its second start reports a rollback exactly if it comes
  -- less than the window after the first; then the binary of before the upgrade is back, and otherwise the
  -- new one stays. The backup and the state are gone.
  pub crash_rolled_back :
      (d2 : Disk)
      → SameUpgrade (handle_startup calm net new_cfg d1).1 d2
      → let soon =
          ltb_ℤ (net.now (d2.calls + 1) -ℤ net.now (d1.calls + 1)) new_cfg.rollback_window in
        ((handle_startup calm net new_cfg d1).0 ≡ ok false)
        × IsEnd soon
            (if soon then some old else d1.files (at binary))
            (handle_startup calm net new_cfg d2)
  crash_rolled_back d2 again =
      let (_, _, a) = upgraded in
      let (r, b) = first_start net codec new_cfg d1 a in
      (r, crash_start net codec new_cfg d2 (moved net codec new_cfg again b))

  -- After an upgrade that a check of the old version reports as applied, where no call fails in the starts and the end
  -- of the new version, and nothing else changes the binary, the backup or the state: if the new version ends
  -- cleanly after its first start, its end is marked without an error, and its second start reports no rollback,
  -- however soon it comes. The new binary stays, and the backup and the state are gone.
  pub clean_exit_kept :
      (d2 : Disk)
      → SameUpgrade (handle_startup calm net new_cfg d1).1 d2
      → (d3 : Disk) → SameUpgrade (mark_clean_shutdown calm net new_cfg d2).1 d3
      → ((mark_clean_shutdown calm net new_cfg d2).0 ≡ ok tt)
        × IsEnd false (d1.files (at binary)) (handle_startup calm net new_cfg d3)
  clean_exit_kept d2 again d3 ended =
      let (_, _, a) = upgraded in
      let (r, b) = first_start net codec new_cfg d1 a in
      let (r', c) =
        clean_end net codec new_cfg d2 (moved net codec new_cfg again b)
          (codec.dated (d1.calls + 1)) in
      (r', kept_start net codec new_cfg d3 (moved net codec new_cfg ended c))
