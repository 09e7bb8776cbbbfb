-- ===== src/Disk/Leaves.antt =====
-- Actions that leave a file as it is, whatever fails.
use distil_proxy.Base.{◌≡◌, refl, ◌∙◌, Bool, true, false, arith, if◌then◌else◌}
use distil_proxy.Base.Text.{Bytes}
use distil_proxy.Disk.{
  Disk, Faults, FilePath, Result, ok, err, same_path, put, read_file, write_file, remove, rename,
  touch,
}
use distil_proxy.Disk.Exec.{Exec, pure, raise, lift, ◌>>=◌, continue, mapping, ignore, attempt}

-- The action leaves the file, whether it fails or not.
pub record Leaves {E A : Type 0} (p : FilePath) (m : Exec E A) : Type 0 where
  pub kept : (d : Disk) → (m d).1.files p ≡ d.files p

module _ {E A : Type 0} (p : FilePath) where
  pub Leaves-pure : (a : A) → Leaves {E = E} p (pure a)
  unfolding pure
  Leaves-pure a = record { kept = λ d. refl }

  pub Leaves-raise : (e : E) → Leaves {A = A} p (raise e)
  unfolding raise
  Leaves-raise e = record { kept = λ d. refl }

  pub Leaves-lift : (r : Result E A) → Leaves p (lift r)
  unfolding lift
  Leaves-lift r = record { kept = λ d. refl }

  pub Leaves-if :
      (b : Bool) (m n : Exec E A) → Leaves p m → Leaves p n → Leaves p (if b then m else n)
  Leaves-if true m n hm hn = hm
  Leaves-if false m n hm hn = hn

  pub Leaves-state : (f : Disk → Exec E A) → ((d : Disk) → Leaves p (f d)) → Leaves p (λ d. f d d)
  Leaves-state f h = record { kept = λ d. (h d).kept d }

module _ {E A B : Type 0} (p : FilePath) where
  pub Leaves-bind :
      (m : Exec E A) (f : A → Exec E B)
      → Leaves p m
      → ((a : A) → Leaves p (f a))
      → Leaves p (m >>= f)
  unfolding ◌>>=◌
  Leaves-bind m f hm hf = record { kept = λ d. let (r, d') = m d in after r d' ∙ hm.kept d }
    where
      after : (r : Result E A) (d : Disk) → (continue r f d).1.files p ≡ d.files p
      after (ok a) d = (hf a).kept d
      after (err e) d = refl

module _ {E F A : Type 0} (p : FilePath) where
  pub Leaves-mapping : (g : E → F) (m : Exec E A) → Leaves p m → Leaves p (mapping g m)
  unfolding mapping
  Leaves-mapping g m h = record { kept = h.kept }

  pub Leaves-ignore : (m : Exec E A) → Leaves p m → Leaves {E = F} p (ignore m)
  unfolding ignore
  Leaves-ignore m h = record { kept = h.kept }

  pub Leaves-attempt : (m : Exec E A) → Leaves p m → Leaves {E = F} p (attempt m)
  unfolding attempt
  Leaves-attempt m h = record { kept = h.kept }

module _ (faults : Faults) (p : FilePath) where
  pub Leaves-read_file : (q : FilePath) → Leaves p (read_file faults q)
  unfolding read_file
  Leaves-read_file q = record { kept = λ d. ground arith }

  pub Leaves-touch : Leaves p (touch faults)
  unfolding touch
  Leaves-touch = record { kept = λ d. ground arith }

  pub Leaves-write_file :
      (q : FilePath) (c : Bytes) → same_path q p ≡ false → Leaves p (write_file faults q c)
  unfolding write_file put
  Leaves-write_file q c h = record { kept = λ d. ground arith }

  pub Leaves-remove : (q : FilePath) → same_path q p ≡ false → Leaves p (remove faults q)
  unfolding remove put
  Leaves-remove q h = record { kept = λ d. ground arith }

  pub Leaves-rename :
      (q r : FilePath)
      → same_path q p ≡ false
      → same_path r p ≡ false
      → Leaves p (rename faults q r)
  unfolding rename put
  Leaves-rename q r h k = record { kept = λ d. ground arith }
