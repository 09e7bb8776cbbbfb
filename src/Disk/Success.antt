-- ===== src/Disk/Success.antt =====
-- What follows from the success of an action.
use distil_proxy.Base.{◌≡◌, refl, sym, ap, ◌∙◌, true, some, arith}
use distil_proxy.Base.Text.{Bytes}
use distil_proxy.Disk.{
  Disk, Faults, FilePath, Result, ok, err, same_path, put, read_file, write_file, rename, touch,
}
use distil_proxy.Disk.Leaves.{Leaves}
use distil_proxy.Disk.Exec.{Action, Exec, ◌>>=◌, continue, mapping, wrap}

module _ {S E A B : Type 0} where
  -- A sequence that succeeds is a first step that succeeds, and then a second.
  pub bind_ok :
      (m : Action S E A) (f : A → Action S E B) (b : B) (d d'' : S)
      → (m >>= f) d ≡ (ok b, d'')
      → (a : A) × (d' : S) × (m d ≡ (ok a, d')) × (f a d' ≡ (ok b, d''))
  unfolding ◌>>=◌ continue
  bind_ok m f b d d'' = split (m d) refl
    where
      split :
          (s : Result E A × S)
          → m d ≡ s
          → continue s.0 f s.1 ≡ (ok b, d'')
          → (a : A) × (d' : S) × (m d ≡ (ok a, d')) × (f a d' ≡ (ok b, d''))
      split (ok a, d') e h = (a, d', e, h)
      split (err x, d') e h = ground arith

module _ {S E A : Type 0} where
  -- An action whose result is known, with the state that it leaves.
  pub run_ok : (m : Action S E A) (r : Result E A) (d : S) → (m d).0 ≡ r → m d ≡ (r, (m d).1)
  run_ok m r d h = ap (λ s. (s, (m d).1)) h

module _ {E A : Type 0} where
  pub Leaves-run :
      (p : FilePath) (m : Exec E A) (r : Result E A) (d d' : Disk)
      → Leaves p m
      → m d ≡ (r, d')
      → d'.files p ≡ d.files p
  Leaves-run p m r d d' h e = sym (ap (λ s. s.1.files p) e) ∙ h.kept d

module _ {E A B : Type 0} (p : FilePath) (m : Exec E A) (f : A → Exec E B)
    (h : (a : A) → Leaves p (f a)) where
  -- A file is after a sequence what it was after the first step, if the second leaves it.
  pub bind-files : (d : Disk) → ((m >>= f) d).1.files p ≡ (m d).1.files p
  unfolding ◌>>=◌ continue
  bind-files d = split (m d)
    where
      split : (s : Result E A × Disk) → (continue s.0 f s.1).1.files p ≡ s.1.files p
      split (ok a, d') = (h a).kept d'
      split (err e, d') = refl

module _ {S E F A : Type 0} where
  pub mapping_ok :
      (g : E → F) (m : Action S E A) (a : A) (d d' : S)
      → mapping g m d ≡ (ok a, d')
      → m d ≡ (ok a, d')
  unfolding mapping wrap
  mapping_ok g m a d d' = split (m d)
    where
      split :
          (s : Result E A × S)
          → ◌≡◌ {A = Result F A × S} (wrap g s.0, s.1) (ok a, d')
          → s ≡ (ok a, d')
      split (ok b, e) h = ground arith
      split (err x, e) h = ground arith

-- What calls that succeed have done.
module _ (faults : Faults) (d d' : Disk) where
  pub write_file_ok :
      (p : FilePath) (c : Bytes)
      → same_path p p ≡ true
      → write_file faults p c d ≡ (ok tt, d')
      → d'.files p ≡ some c
  unfolding write_file put
  write_file_ok p c self h = ground arith

  pub rename_ok :
      (p q : FilePath)
      → same_path q q ≡ true
      → rename faults p q d ≡ (ok tt, d')
      → d'.files q ≡ d.files p
  unfolding rename put
  rename_ok p q self h = ground arith

  pub read_file_ok :
      (p : FilePath) (c : Bytes) → read_file faults p d ≡ (ok c, d') → d.files p ≡ some c
  unfolding read_file
  read_file_ok p c h = ground arith

  pub touch-files :
      (p : FilePath) (u : Unit {0}) → touch faults d ≡ (ok u, d') → d'.files p ≡ d.files p
  unfolding touch
  touch-files p u h = ground arith
