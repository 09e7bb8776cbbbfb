-- ===== src/Cli/Uninstall/Links.antt =====
-- What the removal of a link and of the runtime directory comes to: internal/cli/commands.go.
use mathlib.Core.Path.{subst}
use distil_proxy.Base.{
  ℕ, ◌+◌, ◌≡◌, ◌≢◌, refl, ◌⊎◌, inl, inr, Bool, true, false, Option, none, some, List, if◌then◌else◌,
  arith,
}
use distil_proxy.Base.Text.{Text, Bytes}
use distil_proxy.Disk.{Fault, FilePath, IoError, not_exist, Result, ok, err}
use distil_proxy.Disk.Exec.{pure, raise, ◌>>=◌, continue, attempt}
use distil_proxy.Daemon.Process.{System}
use distil_proxy.Daemon.Run.Removed.{IsHonest}
use distil_proxy.Cli.Uninstall.{
  Link, global_link, local_link, Entry, absent, symlink, occupied, Desk, UninstallError, same_link,
  lstat, unlink, remove_found, remove_symlink_if_present, remove_all, counted, lstat_of,
}

-- A link is as it was, or it was a symbolic link and is gone.
abbrev pub LinkKept : (Link → Entry) → (Link → Entry) → Type 0
LinkKept before after =
    (l : Link) → (after l ≡ before l) ⊎ ((before l ≡ symlink) × (after l ≡ absent))

pub LinkKept-trans : (a b c : Link → Entry) → LinkKept a b → LinkKept b c → LinkKept a c
LinkKept-trans a b c f g l = ground (arith, f l, g l)

module _ (sys : System) (runs : ℕ → List Text → Bool) (is_print : ℕ → Bool)
    (in_root : FilePath → Bool) (spared : ℕ → FilePath → Bool) (honest : IsHonest sys.faults) where
  -- What the removal of a symbolic link comes to
  pub record IsUnlinked (link : Link) (s : Desk) (t : Result UninstallError (Unit {0}) × Desk)
      : Type 0 where
    pub kept : LinkKept s.links t.1.links
    pub quiet : t.1.host.terminated ≡ s.host.terminated
    pub files : (p : FilePath) → t.1.host.disk.files p ≡ s.host.disk.files p
    pub gone : (t.0 ≢ ok tt) ⊎ (t.1.links link ≢ symlink)

  same_link_lem : (k l : Link) → same_link k l ≡ true → k ≡ l
  unfolding same_link
  same_link_lem global_link global_link h = refl
  same_link_lem global_link local_link h = cc
  same_link_lem local_link global_link h = cc
  same_link_lem local_link local_link h = refl

  same_link_self : (k : Link) → same_link k k ≡ true
  unfolding same_link
  same_link_self global_link = refl
  same_link_self local_link = refl

  lstat_of_ok : (a e : Entry) → lstat_of a ≡ ok e → a ≡ e
  lstat_of_ok absent e h = ground arith
  lstat_of_ok symlink e h = ground arith
  lstat_of_ok occupied e h = ground arith

  lstat_of_absent : (a : Entry) → lstat_of a ≡ err not_exist → a ≡ absent
  lstat_of_absent absent h = refl
  lstat_of_absent symlink h = ground arith
  lstat_of_absent occupied h = ground arith

  module _ (link : Link) (s : Desk) where
    nothing_done : (s.links link ≢ symlink) → IsUnlinked link s (ok tt, counted s)
    nothing_done h = record { kept = λ l. inl refl; quiet = refl; files = λ p. refl; gone = inr h }

    failure : (e : UninstallError) → IsUnlinked link s (err e, counted s)
    failure e = record {
      kept = λ l. inl refl;
      quiet = refl;
      files = λ p. refl;
      gone = inl (λ h. ground arith);
    }

    unlinked :
        s.links link ≡ symlink
        → IsUnlinked link s (unlink sys runs is_print in_root spared link (counted s))
    unfolding unlink
    unlinked h = called (sys.faults (s.host.disk.calls + 1)) refl
      where
        put_kept :
            (l : Link) (b : Bool)
            → same_link link l ≡ b
            → ((if b then absent else s.links l) ≡ s.links l)
              ⊎ ((s.links l ≡ symlink) × ((if b then absent else s.links l) ≡ absent))
        put_kept l true e = inr (subst (λ k. s.links k ≡ symlink) (same_link_lem link l e) h, refl)
        put_kept l false e = inl refl

        called :
            (o : Option Fault)
            → sys.faults (s.host.disk.calls + 1) ≡ o
            → IsUnlinked link s (unlink sys runs is_print in_root spared link (counted s))
        called (some f) e =
            rw (e, unlink)
              (record {
                kept = λ l. inl refl;
                quiet = refl;
                files = λ p. refl;
                gone = inl (λ k. ground arith);
              })
        called none e =
            rw (e, unlink)
              (record {
                kept = λ l. put_kept l _ refl;
                quiet = refl;
                files = λ p. refl;
                gone = inr (rw (same_link_self link) (λ k. ground arith));
              })

    found_lem :
        (r : Result IoError Entry)
        → ((e : Entry) → r ≡ ok e → s.links link ≡ e)
        → (r ≡ err not_exist → s.links link ≡ absent)
        → IsUnlinked link s (remove_found sys runs is_print in_root spared link r (counted s))
    unfolding remove_found pure raise
    found_lem (ok symlink) f g = unlinked (f symlink refl)
    found_lem (ok occupied) f g = nothing_done (λ h. ground (arith, f occupied refl))
    found_lem (ok absent) f g = nothing_done (λ h. ground (arith, f absent refl))
    found_lem (err not_exist) f g = nothing_done (λ h. ground (arith, g refl))
    found_lem (err IoError.already_exists) f g = failure _
    found_lem (err IoError.not_empty) f g = failure _
    found_lem (err IoError.is_directory) f g = failure _
    found_lem (err IoError.not_directory) f g = failure _
    found_lem (err IoError.not_permitted) f g = failure _
    found_lem (err (IoError.other n)) f g = failure _

    pub remove_symlink_lem :
        IsUnlinked link s (remove_symlink_if_present sys runs is_print in_root spared link s)
    unfolding remove_symlink_if_present lstat attempt ◌>>=◌ continue
    remove_symlink_lem = called (sys.faults s.host.disk.calls) refl
      where
        called :
            (o : Option Fault)
            → sys.faults s.host.disk.calls ≡ o
            → let (r, t) = lstat sys runs is_print in_root spared link s in
              IsUnlinked link s (remove_found sys runs is_print in_root spared link r t)
        called (some f) e =
            rw (e, lstat)
              (found_lem (err f.error) (λ a h. ground arith)
                (λ h. absurd (honest _ f e (ground arith))))
        called none e =
            rw (e, lstat)
              (found_lem (lstat_of (s.links link)) (λ a h. lstat_of_ok _ a h)
                (λ h. lstat_of_absent _ h))

  -- What `os.RemoveAll` comes to
  pub record WasCleared (s : Desk) (t : Result UninstallError (Unit {0}) × Desk) : Type 0 where
    pub same_links : (l : Link) → t.1.links l ≡ s.links l
    pub quiet : t.1.host.terminated ≡ s.host.terminated
    pub kept :
        (p : FilePath)
        → (t.1.host.disk.files p ≡ s.host.disk.files p) ⊎ (t.1.host.disk.files p ≡ none)
    pub cleared :
        (t.0 ≢ ok tt) ⊎ ((p : FilePath) → (in_root p ≡ false) ⊎ (t.1.host.disk.files p ≡ none))

  pub remove_all_lem : (s : Desk) → WasCleared s (remove_all sys runs is_print in_root spared s)
  unfolding remove_all
  remove_all_lem s = called (sys.faults s.host.disk.calls) refl
    where
      either :
          (b : Bool) (x : Option Bytes)
          → ((if b then none else x) ≡ x) ⊎ ((if b then none else x) ≡ none)
      either true x = inr refl
      either false x = inl refl

      outside : (b : Bool) (x : Option Bytes) → (b ≡ false) ⊎ ((if b then none else x) ≡ none)
      outside true x = inr refl
      outside false x = inl refl

      called :
          (o : Option Fault)
          → sys.faults s.host.disk.calls ≡ o
          → WasCleared s (remove_all sys runs is_print in_root spared s)
      called (some f) e =
          rw (e, remove_all)
            (record {
              same_links = λ l. refl;
              quiet = refl;
              kept = λ p. either _ _;
              cleared = inl (λ k. ground arith);
            })
      called none e =
          rw (e, remove_all)
            (record {
              same_links = λ l. refl;
              quiet = refl;
              kept = λ p. either _ _;
              cleared = inr (λ p. outside _ _);
            })
