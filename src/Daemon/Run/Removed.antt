-- ===== src/Daemon/Run/Removed.antt =====
-- The PID file behind `removePIDIfMatches` of internal/daemon/service.go.
use distil_proxy.Base.{
  ◌≡◌, ◌≢◌, refl, sym, ap, ◌∙◌, ◌⊎◌, inl, inr, ℕ, Bool, true, false, Option, none, some, arith,
  if◌then◌else◌,
}
use distil_proxy.Base.Int.{ℤ, eqb_ℤ, eqb_ℤ_iff}
use distil_proxy.Base.Text.{Bytes, trim_space}
use distil_proxy.Base.Text.Decimal.{atoi}
use distil_proxy.Disk.{
  Disk, Fault, Faults, FilePath, at, pid_file, IoError, not_exist, Result, ok, err, read_file,
  remove, same_path, put,
}
use distil_proxy.Disk.Exec.{pure, raise, lift, ◌>>=◌, continue, attempt, mapping, wrap}
use distil_proxy.Disk.Leaves.{
  Leaves, Leaves-pure, Leaves-raise, Leaves-if, Leaves-attempt, Leaves-bind, Leaves-mapping,
  Leaves-lift, Leaves-read_file, Leaves-remove,
}
use distil_proxy.Disk.Success.{Leaves-run}
use distil_proxy.Daemon.Process.{System}
use distil_proxy.Daemon.Process.Stop.{IsPidFile, read_pid-IsPidFile}
use distil_proxy.Daemon.Files.{
  DaemonError, file_error, read_pid, parse_pid, remove_pid, or_absent, remove_matching,
  remove_pid_if_matches,
}

-- No call fails with `ErrNotExist` on a file that is there.
abbrev pub IsHonest : Faults → Type 0
IsHonest faults = (n : ℕ) (f : Fault) → faults n ≡ some f → f.error ≢ not_exist

module _ (faults : Faults) (honest : IsHonest faults) where
  read_absent :
      (p : FilePath) (d d' : Disk) → read_file faults p d ≡ (err not_exist, d') → d'.files p ≡ none
  unfolding read_file
  read_absent p d d' h = grind (arith, honest d.calls)

  remove_absent :
      (p : FilePath) (r : Result IoError (Unit {0})) (d d' : Disk)
      → same_path p p ≡ true
      → remove faults p d ≡ (r, d')
      → (r ≡ ok tt) ⊎ (r ≡ err not_exist)
      → d'.files p ≡ none
  unfolding remove put
  remove_absent p r d d' s h k = grind (arith, honest d.calls)

  remove_pid_ok : (d d' : Disk) → remove_pid faults d ≡ (ok tt, d') → d'.files (at pid_file) ≡ none
  unfolding remove_pid attempt ◌>>=◌ continue same_path
  remove_pid_ok d d' h = split (remove faults (at pid_file) d) refl h
    where
      split :
          (s : Result IoError (Unit {0}) × Disk)
          → remove faults (at pid_file) d ≡ s
          → or_absent faults s.0 s.1 ≡ (ok tt, d')
          → d'.files (at pid_file) ≡ none
      split (ok u, t) e k =
          unfold or_absent pure same_path in
          ap (λ q. q.1.files (at pid_file)) (sym k)
          ∙ remove_absent (at pid_file) (ok u) d t refl e (inl refl)
      split (err x, t) e k = absent x t e k
        where
          absent :
              (x : IoError) (t : Disk)
              → remove faults (at pid_file) d ≡ (err x, t)
              → or_absent faults (err x) t ≡ (ok tt, d')
              → d'.files (at pid_file) ≡ none
          absent not_exist t e k =
              unfold or_absent pure same_path in
              ap (λ q. q.1.files (at pid_file)) (sym k)
              ∙ remove_absent (at pid_file) (err not_exist) d t refl e (inr refl)
          absent x t e k = unfold or_absent raise in ground arith

  read_pid_absent :
      (d d' : Disk)
      → read_pid faults d ≡ (err (file_error not_exist), d')
      → d'.files (at pid_file) ≡ none
  unfolding read_pid mapping wrap ◌>>=◌ continue lift
  read_pid_absent d d' h = split (read_file faults (at pid_file) d) refl h
    where
      split :
          (s : Result IoError Bytes × Disk)
          → read_file faults (at pid_file) d ≡ s
          → continue (wrap file_error s.0) (λ c. lift (parse_pid faults (atoi (trim_space c)))) s.1
            ≡ (err (file_error not_exist), d')
          → d'.files (at pid_file) ≡ none
      split (ok c, t) e k = parsed (atoi (trim_space c)) k
        where
          parsed :
              (o : Option ℤ)
              → ◌≡◌ {A = Result DaemonError ℤ × Disk}
                  (parse_pid faults o, t)
                  (err (file_error not_exist), d')
              → d'.files (at pid_file) ≡ none
          parsed none k = unfold parse_pid in ground arith
          parsed (some x) k = unfold parse_pid in ground arith
      split (err x, t) e k = read_absent (at pid_file) d d' (e ∙ ground arith)

module _ (sys : System) where
  read_pid-Leaves : (p : FilePath) → Leaves p (read_pid sys.faults)
  unfolding read_pid
  read_pid-Leaves p = search (Leaves-bind, Leaves-mapping, Leaves-lift, Leaves-read_file)

  or_absent-Leaves :
      (p : FilePath) (r : Result IoError (Unit {0})) → Leaves p (or_absent sys.faults r)
  unfolding or_absent
  or_absent-Leaves p (ok _) = Leaves-pure p tt
  or_absent-Leaves p (err not_exist) = Leaves-pure p tt
  or_absent-Leaves p (err e) = Leaves-raise p _

  remove_pid-Leaves :
      (p : FilePath) → same_path (at pid_file) p ≡ false → Leaves p (remove_pid sys.faults)
  unfolding remove_pid
  remove_pid-Leaves p h = search (Leaves-bind, Leaves-attempt, Leaves-remove, or_absent-Leaves)

  remove_matching-Leaves :
      (p : FilePath) (pid : ℤ) (r : Result DaemonError ℤ)
      → same_path (at pid_file) p ≡ false
      → Leaves p (remove_matching sys.faults pid r)
  unfolding remove_matching
  remove_matching-Leaves p pid (ok q) h = search (Leaves-if, Leaves-pure, remove_pid-Leaves)
  remove_matching-Leaves p pid (err (file_error not_exist)) h = Leaves-pure p tt
  remove_matching-Leaves p pid (err x) h = Leaves-raise p _

  pub remove_pid_if_matches-Leaves :
      (p : FilePath) (pid : ℤ)
      → same_path (at pid_file) p ≡ false
      → Leaves p (remove_pid_if_matches sys.faults pid)
  unfolding remove_pid_if_matches
  remove_pid_if_matches-Leaves p pid h =
      search (Leaves-bind, Leaves-attempt, read_pid-Leaves, remove_matching-Leaves)

module _ (sys : System) (honest : IsHonest sys.faults) where
  absent-not_named : (pid : ℤ) (d : Disk) → d.files (at pid_file) ≡ none → ¬ IsPidFile sys d pid
  unfolding IsPidFile
  absent-not_named pid d e (c, f, g) = ground arith

  other-not_named :
      (p pid : ℤ) (d : Disk) → IsPidFile sys d p → eqb_ℤ p pid ≡ false → ¬ IsPidFile sys d pid
  unfolding IsPidFile
  other-not_named p pid d (c, f, g) h (c', f', g') =
      let q : p ≡ pid = ground arith in ground (arith, (eqb_ℤ_iff p pid).1 q)

  matched :
      (pid p : ℤ) (d t d' : Disk)
      → read_pid sys.faults d ≡ (ok p, t)
      → remove_matching sys.faults pid (ok p) t ≡ (ok tt, d')
      → ¬ IsPidFile sys d' pid
  unfolding remove_matching
  matched pid p d t d' e k = split (eqb_ℤ p pid) refl k
    where
      split :
          (b : Bool)
          → eqb_ℤ p pid ≡ b
          → (if b then remove_pid sys.faults else pure tt) t ≡ (ok tt, d')
          → ¬ IsPidFile sys d' pid
      split true h k = absent-not_named pid d' (remove_pid_ok sys.faults honest t d' k)
      split false h k =
          unfold pure in
          let same : t ≡ d' = ap (λ q. q.1) k in
          let files : d'.files (at pid_file) ≡ d.files (at pid_file) =
            ap (λ q. q.files (at pid_file)) (sym same)
            ∙ Leaves-run (at pid_file) (read_pid sys.faults) (ok p) d t (read_pid-Leaves sys _) e in
          kept files (read_pid-IsPidFile sys p d t e) h
        where
          kept :
              d'.files (at pid_file) ≡ d.files (at pid_file)
              → IsPidFile sys d p
              → eqb_ℤ p pid ≡ false
              → ¬ IsPidFile sys d' pid
          kept files n h = other-not_named p pid d' (moved n) h
            where
              moved : IsPidFile sys d p → IsPidFile sys d' p
              moved n = unfold IsPidFile in let (c, f, g) = n in (c, files ∙ f, g)

  pub remove_pid_if_matches_ok :
      (pid : ℤ) (d d' : Disk)
      → remove_pid_if_matches sys.faults pid d ≡ (ok tt, d')
      → ¬ IsPidFile sys d' pid
  unfolding remove_pid_if_matches attempt ◌>>=◌ continue
  remove_pid_if_matches_ok pid d d' h = split (read_pid sys.faults d) refl h
    where
      split :
          (s : Result DaemonError ℤ × Disk)
          → read_pid sys.faults d ≡ s
          → remove_matching sys.faults pid s.0 s.1 ≡ (ok tt, d')
          → ¬ IsPidFile sys d' pid
      split (ok p, t) e k = matched pid p d t d' e k
      split (err (file_error not_exist), t) e k =
          unfold remove_matching pure in
          let same : t ≡ d' = ap (λ q. q.1) k in
          absent-not_named pid d'
            (ap (λ q. q.files (at pid_file)) (sym same) ∙ read_pid_absent sys.faults honest d t e)
      split (err x, t) e k = unfold remove_matching raise in ground arith
