-- ===== src/Disk/Exec.antt =====
-- Actions on a state that may fail. What was done before an error stays done.
use distil_proxy.Disk.{Disk, Result, ok, err}

abbrev pub Action : Type 0 → Type 0 → Type 0 → Type 0
Action S E A = S → Result E A × S

-- An action on the disk
abbrev pub Exec : Type 0 → Type 0 → Type 0
Exec E A = Action Disk E A

module _ {S E A : Type 0} where
  unfoldable pub pure : A → Action S E A
  pure a d = (ok a, d)

  unfoldable pub raise : E → Action S E A
  raise e d = (err e, d)

  unfoldable pub lift : Result E A → Action S E A
  lift r d = (r, d)

module _ {S E A B : Type 0} where
  unfoldable pub continue : Result E A → (A → Action S E B) → Action S E B
  continue (ok a) f d = f a d
  continue (err e) f d = (err e, d)

  infixl 5 ◌>>=◌ ◌>>◌
  unfoldable pub ◌>>=◌ : Action S E A → (A → Action S E B) → Action S E B
  unfolding continue
  ◌>>=◌ m f d = let (r, d') = m d in continue r f d'

  abbrev pub ◌>>◌ : Action S E A → Action S E B → Action S E B
  m >> n = m >>= λ _. n

module _ {E F A : Type 0} where
  -- The error of an action, wrapped.
  unfoldable pub wrap : (E → F) → Result E A → Result F A
  wrap f (ok a) = ok a
  wrap f (err e) = err (f e)

module _ {S E F A : Type 0} where
  unfoldable pub mapping : (E → F) → Action S E A → Action S F A
  unfolding wrap
  mapping f m d = let (r, d') = m d in (wrap f r, d')

  -- `_ = action`
  unfoldable pub ignore : Action S E A → Action S F (Unit {0})
  ignore m d = (ok tt, (m d).1)

  -- The result of an action as a value, for code that looks at the error.
  unfoldable pub attempt : Action S E A → Action S F (Result E A)
  attempt m d = let (r, d') = m d in (ok r, d')
