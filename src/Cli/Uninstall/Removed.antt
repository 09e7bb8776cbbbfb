-- ===== src/Cli/Uninstall/Removed.antt =====
-- What the `uninstall` command leaves: internal/cli/commands.go.
use distil_proxy.Base.{
  ℕ, ◌≡◌, ◌≢◌, refl, ◌∙◌, ◌⊎◌, inl, inr, Bool, true, false, ◌||◌, Option, none, some, List, ◌∷◌,
  if◌then◌else◌, arith,
}
use distil_proxy.Base.Text.{Text, codes, text_eq}
use distil_proxy.Disk.{FilePath, at, service_file, Result, ok, err}
use distil_proxy.Disk.Exec.{Action, raise, ◌>>=◌, ◌>>◌, continue, wrap, attempt}
use distil_proxy.Config.Paths.{resolve_home, default_paths, detect_paths}
use distil_proxy.Daemon.Files.{DaemonError, not_running}
use distil_proxy.Daemon.Process.{Host, System, stop}
use distil_proxy.Daemon.Process.Stop.{IsStopFrom, stop-IsStopFrom}
use distil_proxy.Daemon.Run.Removed.{IsHonest}
use distil_proxy.Platform.Service.{
  Machine, ServiceError, launchctl, reload_command, disable_command,
}
use distil_proxy.Platform.Service.Gone.{IsRemoval, IsGone, remove_service_definitions-IsRemoval}
use distil_proxy.Cli.Uninstall.{
  Link, global_link, local_link, Entry, symlink, Desk, UninstallError, service_failed, stop_failed,
  no_home, on_host, on_machine, remove_symlink_if_present, remove_all, clear_files, after_stop,
  uninstall_at, uninstall, with_disk,
}
use distil_proxy.Cli.Uninstall.Links.{
  LinkKept, LinkKept-trans, IsUnlinked, remove_symlink_lem, WasCleared, remove_all_lem,
}

module _ (sys : System) (runs : ℕ → List Text → Bool) (is_print : ℕ → Bool)
    (in_root : FilePath → Bool) (spared : ℕ → FilePath → Bool) (honest : IsHonest sys.faults) where
  -- The system has a service manager that the program knows.
  pub is_served : Text → Bool
  is_served goos = text_eq goos (codes "darwin") || text_eq goos (codes "linux")

  module _ (goos : Text) where
    -- Nothing at the links but symbolic links is removed, and no signal sent. Success means that no symbolic link is
    -- left, nothing under the runtime directory, and no definition of the service.
    pub record IsRemoved (s : Desk) (t : Result UninstallError (Unit {0}) × Desk) : Type 0 where
      pub links_kept : LinkKept s.links t.1.links
      pub quiet : t.1.host.terminated ≡ s.host.terminated
      pub done :
          (t.0 ≢ ok tt)
          ⊎ (((l : Link) → t.1.links l ≢ symlink)
              × ((p : FilePath) → (in_root p ≡ false) ⊎ (t.1.host.disk.files p ≡ none))
              × ((is_served goos ≡ false) ⊎ (t.1.host.disk.files (at service_file) ≡ none)))

    -- What holds between two steps
    record IsBetween (s0 s : Desk) : Type 0 where
      kept : LinkKept s0.links s.links
      quiet : s.host.terminated ≡ s0.host.terminated
      no_service : (is_served goos ≡ false) ⊎ (s.host.disk.files (at service_file) ≡ none)

    given_up :
        (s0 s : Desk) (e : UninstallError)
        → LinkKept s0.links s.links
        → s.host.terminated ≡ s0.host.terminated
        → IsRemoved s0 (err e, s)
    given_up s0 s e k q = record { links_kept = k; quiet = q; done = inl (λ h. ground arith) }

    not_back : (a b : Link → Entry) (l : Link) → LinkKept a b → a l ≢ symlink → b l ≢ symlink
    not_back a b l k h = ground (arith, k l)

    no_service_kept :
        (s t : Desk)
        → (t.host.disk.files (at service_file) ≡ s.host.disk.files (at service_file))
          ⊎ (t.host.disk.files (at service_file) ≡ none)
        → (is_served goos ≡ false) ⊎ (s.host.disk.files (at service_file) ≡ none)
        → (is_served goos ≡ false) ⊎ (t.host.disk.files (at service_file) ≡ none)
    no_service_kept s t f (inl h) = inl h
    no_service_kept s t (inl e) (inr h) = inr (e ∙ h)
    no_service_kept s t (inr e) (inr h) = inr e

    third :
        (s0 s : Desk)
        → IsBetween s0 s
        → ((l : Link) → s.links l ≢ symlink)
        → IsRemoved s0 (remove_all sys runs is_print in_root spared s)
    third s0 s b n = after _ (remove_all_lem sys runs is_print in_root spared honest s)
      where
        after :
            (t : Result UninstallError (Unit {0}) × Desk)
            → WasCleared sys runs is_print in_root spared honest s t
            → IsRemoved s0 t
        after t c = record {
          links_kept = LinkKept-trans s0.links s.links t.1.links b.kept (λ l. inl (c.same_links l));
          quiet = c.quiet ∙ b.quiet;
          done = finish c.cleared;
        }
          where
            finish :
                (t.0 ≢ ok tt)
                  ⊎ ((p : FilePath) → (in_root p ≡ false) ⊎ (t.1.host.disk.files p ≡ none))
                → (t.0 ≢ ok tt)
                  ⊎ (((l : Link) → t.1.links l ≢ symlink)
                      × ((p : FilePath) → (in_root p ≡ false) ⊎ (t.1.host.disk.files p ≡ none))
                      × ((is_served goos ≡ false) ⊎ (t.1.host.disk.files (at service_file) ≡ none)))
            finish (inl h) = inl h
            finish (inr h) = inr (
              λ l. not_back s.links t.1.links l (λ k. inl (c.same_links k)) (n l),
              h,
              no_service_kept s t.1 (c.kept (at service_file)) b.no_service,
            )

    -- Behind the removal of a link
    through :
        (s0 s : Desk) (link : Link) (next : Action Desk UninstallError (Unit {0}))
        → IsBetween s0 s
        → ((s' : Desk)
            → IsBetween s0 s'
            → LinkKept s.links s'.links
            → s'.links link ≢ symlink
            → IsRemoved s0 (next s'))
        → IsRemoved s0
            ((do remove_symlink_if_present sys runs is_print in_root spared link; next) s)
    unfolding ◌>>=◌ continue
    through s0 s link next b f =
        after _ (remove_symlink_lem sys runs is_print in_root spared honest link s)
      where
        after :
            (t : Result UninstallError (Unit {0}) × Desk)
            → IsUnlinked sys runs is_print in_root spared honest link s t
            → IsRemoved s0 (continue t.0 (λ _. next) t.1)
        after (err e, s') u =
            given_up s0 s' e (LinkKept-trans s0.links s.links s'.links b.kept u.kept)
              (u.quiet ∙ b.quiet)
        after (ok x, s') u = went u.gone
          where
            went :
                (◌≢◌ {A = Result UninstallError (Unit {0})} (ok x) (ok tt))
                  ⊎ (s'.links link ≢ symlink)
                → IsRemoved s0 (next s')
            went (inl h) = absurd (h refl)
            went (inr h) =
                f s'
                  (record {
                    kept = LinkKept-trans s0.links s.links s'.links b.kept u.kept;
                    quiet = u.quiet ∙ b.quiet;
                    no_service =
                        no_service_kept s s' (inl (u.files (at service_file))) b.no_service;
                  })
                  u.kept h

    links_lem :
        (s0 s : Desk)
        → IsBetween s0 s
        → IsRemoved s0 (
            (do
              remove_symlink_if_present sys runs is_print in_root spared global_link
              remove_symlink_if_present sys runs is_print in_root spared local_link
              remove_all sys runs is_print in_root spared)
              s)
    links_lem s0 s b = through s0 s global_link _ b (λ s1 b1 k1 h1.
        through s0 s1 local_link _ b1 (λ s2 b2 k2 h2. third s0 s2 b2 (both s1 s2 h1 h2 k2)))
      where
        both :
            (s1 s2 : Desk)
            → s1.links global_link ≢ symlink
            → s2.links local_link ≢ symlink
            → LinkKept s1.links s2.links
            → (l : Link) → s2.links l ≢ symlink
        both s1 s2 h1 h2 k global_link = not_back s1.links s2.links global_link k h1
        both s1 s2 h1 h2 k local_link = h2

    no_definition :
        (home_dir : Text) (m m' : Machine) (u : Unit {0})
        → IsRemoval sys.faults runs is_print honest goos home_dir m (ok u, m')
        → (is_served goos ≡ false) ⊎ (m'.disk.files (at service_file) ≡ none)
    unfolding IsRemoval is_served
    no_definition home_dir m m' u =
        decide (text_eq goos (codes "darwin")) (text_eq goos (codes "linux"))
      where
        gone_lem :
            (commands : List (List Text))
            → IsGone sys.faults runs is_print commands m (ok u, m')
            → m'.disk.files (at service_file) ≡ none
        gone_lem commands g = elim (g.gone) [ inl h ↦ h | inr (h, k) ↦ absurd (k refl) ]

        decide :
            (a b : Bool)
            → (if a
                then IsGone sys.faults runs is_print
                    (launchctl (codes "unload") home_dir ∷ m.ran)
                    m
                    (ok u, m')
                else if b
                then IsGone sys.faults runs is_print
                    (reload_command ∷ disable_command ∷ m.ran)
                    m
                    (ok u, m')
                else ◌≡◌ {A = Result ServiceError (Unit {0}) × Machine} (ok u, m') (ok tt, m))
            → ((a || b) ≡ false) ⊎ (m'.disk.files (at service_file) ≡ none)
        decide true b g = inr (gone_lem _ g)
        decide false true g = inr (gone_lem _ g)
        decide false false g = inl refl

    clear_lem :
        (home_dir : Text) (s : Desk)
        → IsRemoved s (clear_files sys runs is_print in_root spared goos home_dir s)
    unfolding clear_files on_machine ◌>>=◌ continue wrap
    clear_lem home_dir s = after _ (
        remove_service_definitions-IsRemoval sys.faults runs is_print honest goos home_dir
          (record { disk = s.host.disk; ran = s.ran }))
      where
        after :
            (t : Result ServiceError (Unit {0}) × Machine)
            → IsRemoval sys.faults runs is_print honest goos home_dir
                (record { disk = s.host.disk; ran = s.ran })
                t
            → IsRemoved s (
                continue
                  (wrap service_failed t.0)
                  (λ _. do
                    remove_symlink_if_present sys runs is_print in_root spared global_link
                    remove_symlink_if_present sys runs is_print in_root spared local_link
                    remove_all sys runs is_print in_root spared)
                  (record (with_disk t.1.disk s) { ran = t.1.ran }))
        after (err e, m) h = given_up s _ _ (λ l. inl refl) refl
        after (ok u, m) h = links_lem s _ (record {
          kept = λ l. inl refl;
          quiet = refl;
          no_service = no_definition home_dir (record { disk = s.host.disk; ran = s.ran }) m u h;
        })

  -- What the command comes to behind `Stop`
  unfoldable pub IsCleared :
      Text → Result DaemonError (Unit {0}) → Desk → Result UninstallError (Unit {0}) × Desk → Type 0
  IsCleared goos (ok _) s t = IsRemoved goos s t
  IsCleared goos (err not_running) s t = IsRemoved goos s t
  IsCleared goos (err e) s t = t ≡ (err (stop_failed e), s)

  -- Without a home directory the command fails and does nothing.
  unfoldable pub IsUninstall :
      Text → Option Text → Desk → Result UninstallError (Unit {0}) × Desk → Type 0
  IsUninstall goos none s t = t ≡ (err (no_home resolve_home), s)
  IsUninstall goos (some home) s t =
      let (r, h) = stop sys s.host in
      IsStopFrom sys s.host t.1.host × IsCleared goos r (record s { host = h }) t

  after_stop-IsCleared :
      (goos home_dir : Text) (r : Result DaemonError (Unit {0})) (s : Desk)
      → let t = after_stop sys runs is_print in_root spared goos home_dir r s in
        IsCleared goos r s t × (t.1.host.terminated ≡ s.host.terminated)
  unfolding after_stop IsCleared raise
  after_stop-IsCleared goos home_dir (ok u) s = let c = clear_lem goos home_dir s in (c, c.quiet)
  after_stop-IsCleared goos home_dir (err not_running) s =
      let c = clear_lem goos home_dir s in (c, c.quiet)
  after_stop-IsCleared goos home_dir (err e) s = (refl, refl)

  -- Where no call fails as "no such file" on a file that is there: `uninstall` first does what `Stop` does: it sends
  -- SIGTERM to no process, or to one of ours that the PID file names. If that fails otherwise than by finding no
  -- daemon, the command fails with its error and removes nothing. Behind it, the command removes nothing at
  -- its two links but symbolic links, and it succeeds only if no symbolic link is left there, no file under the
  -- runtime directory, and, on a system that the program knows, no definition of the service.
  pub uninstall-IsUninstall :
      (goos : Text) (home : Option Text) (s : Desk)
      → IsUninstall goos home s (uninstall sys runs is_print in_root spared goos home s)
  unfolding uninstall uninstall_at detect_paths IsUninstall IsStopFrom on_host attempt raise ◌>>=◌
      continue
  uninstall-IsUninstall goos none s = refl
  uninstall-IsUninstall goos (some home) s =
      let (r, h) = stop sys s.host in
      let (c, q) =
        after_stop-IsCleared goos (default_paths home).home_dir r (record s { host = h }) in
      (
        signalled s.host h
            (after_stop sys runs is_print in_root spared goos (default_paths home).home_dir r
              (record s { host = h })).1.host
            q (stop-IsStopFrom sys s.host),
        c,
      )
    where
      signalled :
          (a b c : Host) → c.terminated ≡ b.terminated → IsStopFrom sys a b → IsStopFrom sys a c
      signalled a b c e (inl h) = inl (e ∙ h)
      signalled a b c e (inr (pid, h, f, o)) = inr (pid, e ∙ h, f, o)
