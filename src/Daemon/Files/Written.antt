-- ===== src/Daemon/Files/Written.antt =====
-- What `writeStatus` of internal/daemon/service.go leaves on the disk.
use distil_proxy.Base.{
  ◌≡◌, refl, ◌⊎◌, inl, inr, ap, ◌∙◌, Option, none, some, [], ◌∷◌, ◌++◌, arith, false,
}
use distil_proxy.Base.Text.{Bytes}
use distil_proxy.Disk.{
  Disk, Faults, FilePath, at, tmp, status_file, ok, err, Result, rename, same_path,
}
use distil_proxy.Disk.Exec.{Exec, lift, ◌>>=◌, continue, mapping, wrap}
use distil_proxy.Disk.Leaves.{
  Leaves, Leaves-bind, Leaves-mapping, Leaves-lift, Leaves-touch, Leaves-write_file, Leaves-rename,
}
use distil_proxy.Disk.Success.{bind_ok, mapping_ok, write_file_ok, rename_ok}
use distil_proxy.Config.{ensure_state_dirs}
use distil_proxy.Daemon.Files.{
  RuntimeStatus, StatusJson, DaemonError, file_error, write_status, encoded,
}

module _ (json : StatusJson) where
  -- The status file holds the status.
  unfoldable pub IsStatusFile : Disk → RuntimeStatus → Type 0
  IsStatusFile d status =
      (payload : Bytes) × (json.encode status ≡ some payload)
      × (d.files (at status_file) ≡ some (payload ++ (10 ∷ [])))

module _ (faults : Faults) (json : StatusJson) where
  ensure_state_dirs-Leaves : (p : FilePath) → Leaves p (ensure_state_dirs faults)
  unfolding ensure_state_dirs
  ensure_state_dirs-Leaves p = search (Leaves-bind, Leaves-touch)

  pub write_status-Leaves :
      (p : FilePath) (status : RuntimeStatus)
      → same_path (at status_file) p ≡ false
      → same_path (tmp status_file) p ≡ false
      → Leaves p (write_status faults json status)
  unfolding write_status
  write_status-Leaves p status h k =
      Leaves-bind p _ _ (Leaves-mapping p file_error _ (ensure_state_dirs-Leaves p)) (λ _.
        Leaves-bind p _ _ (Leaves-lift p _) (λ payload.
          Leaves-bind p _ _ (Leaves-mapping p file_error _ (Leaves-write_file faults p _ payload k))
            (λ _. Leaves-mapping p file_error _ (Leaves-rename faults p _ _ k h))))

  encoded_ok :
      (o : Option Bytes) (c : Bytes) (d d' : Disk)
      → lift (encoded faults json o) d ≡ (ok c, d')
      → (payload : Bytes) × (o ≡ some payload) × (c ≡ payload ++ (10 ∷ []))
  unfolding lift
  encoded_ok none c d d' e = ground arith
  encoded_ok (some payload) c d d' e = (payload, refl, ground arith)

  pub write_status-IsStatusFile :
      (status : RuntimeStatus) (d d' : Disk)
      → write_status faults json status d ≡ (ok tt, d')
      → IsStatusFile json d' status
  unfolding write_status IsStatusFile same_path
  write_status-IsStatusFile status d d' e =
      let (_, d1, e1, f1) = bind_ok _ _ tt d d' e in
      let (c, d2, e2, f2) = bind_ok _ _ tt d1 d' f1 in
      let (_, d3, e3, f3) = bind_ok _ _ tt d2 d' f2 in
      let (payload, q, r) = encoded_ok (json.encode status) c d1 d2 e2 in
      (
        payload,
        q,
        rename_ok faults d3 d' (tmp status_file) (at status_file) refl
              (mapping_ok file_error _ tt d3 d' f3)
            ∙ write_file_ok faults d2 d3 (tmp status_file) c refl
                (mapping_ok file_error _ tt d2 d3 e3)
            ∙ ap some r,
      )

-- The action succeeds, or it leaves the status file.
record IsTried {A : Type 0} (m : Exec DaemonError A) : Type 0 where
  tried :
      (d : Disk)
      → ((a : A) × ((m d).0 ≡ ok a)) ⊎ ((m d).1.files (at status_file) ≡ d.files (at status_file))

IsTried-bind :
    {A B : Type 0} (m : Exec DaemonError A) (f : A → Exec DaemonError B)
    → Leaves (at status_file) m
    → ((a : A) → IsTried (f a))
    → IsTried (m >>= f)
unfolding ◌>>=◌ continue
IsTried-bind {A} {B} m f hm hf = record { tried = λ d. after (m d) d (hm.kept d) }
  where
    later :
        (a : A) (e d : Disk)
        → e.files (at status_file) ≡ d.files (at status_file)
        → ((b : B) × ((f a e).0 ≡ ok b))
          ⊎ ((f a e).1.files (at status_file) ≡ e.files (at status_file))
        → ((b : B) × ((f a e).0 ≡ ok b))
          ⊎ ((f a e).1.files (at status_file) ≡ d.files (at status_file))
    later a e d k (inl h) = inl h
    later a e d k (inr h) = inr (h ∙ k)

    after :
        (s : Result DaemonError A × Disk) (d : Disk)
        → s.1.files (at status_file) ≡ d.files (at status_file)
        → ((b : B) × ((continue s.0 f s.1).0 ≡ ok b))
          ⊎ ((continue s.0 f s.1).1.files (at status_file) ≡ d.files (at status_file))
    after (ok a, e) d k = later a e d k ((hf a).tried e)
    after (err x, e) d k = inr k

module _ (faults : Faults) (json : StatusJson) where
  renamed-IsTried : IsTried (mapping file_error (rename faults (tmp status_file) (at status_file)))
  unfolding mapping wrap rename
  renamed-IsTried = record { tried = λ d. ground arith }

  pub write_status-IsTried :
      (status : RuntimeStatus) (d : Disk)
      → ((write_status faults json status d).0 ≡ ok tt)
        ⊎ ((write_status faults json status d).1.files (at status_file) ≡ d.files (at status_file))
  unfolding write_status same_path
  write_status-IsTried status d = unit (
      (IsTried-bind _ _
          (Leaves-mapping (at status_file) file_error _
            (ensure_state_dirs-Leaves faults json (at status_file)))
          (λ _. IsTried-bind _ _ (Leaves-lift (at status_file) _) (λ payload.
            IsTried-bind _ _
              (Leaves-mapping (at status_file) file_error _
                (Leaves-write_file faults (at status_file) _ payload refl))
              (λ _. renamed-IsTried)))).tried
        d)
    where
      unit :
          ((a : Unit {0}) × ((write_status faults json status d).0 ≡ ok a))
            ⊎ ((write_status faults json status d).1.files (at status_file)
                ≡ d.files (at status_file))
          → ((write_status faults json status d).0 ≡ ok tt)
            ⊎ ((write_status faults json status d).1.files (at status_file)
                ≡ d.files (at status_file))
      unit (inl (tt, e)) = inl e
      unit (inr e) = inr e
