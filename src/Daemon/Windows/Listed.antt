-- ===== src/Daemon/Windows/Listed.antt =====
-- The path that internal/daemon/service.go takes out of the output of `wmic` in its list form.
use distil_proxy.Base.{
  ◌≡◌, refl, ◌⊎◌, inl, inr, Bool, true, false, not, ◌||◌, Option, none, some, [], ◌∷◌, ◌++◌, List,
  if◌then◌else◌, Option-cases,
}
use distil_proxy.Base.Text.{
  Text, codes, trim_space, trim_left, trim_right, is_space, cut_last, strip_prefix, strip_suffix,
  text_eq, is_empty,
}
use distil_proxy.Daemon.Command.{
  FileTree, unquote_path, command_path, daemon_run_path, foreground_path,
  command_executable_for_daemon_run, command_executable_for_foreground_start, candidate_matches,
  command_matches_executable,
}

abbrev pub key : Text
key = codes "CommandLine="

-- Nothing, or a path that begins with the key
abbrev IsListed : Option Text → Type 0
IsListed p = (p ≡ none) ⊎ ((s : Text) × (p ≡ some (key ++ s)))

trim_space-key : (s : Text) → trim_space (key ++ s) ≡ key ++ trim_right s
unfolding trim_space trim_left trim_right is_space
trim_space-key s = refl

command_path-IsListed : (s : Text) → IsListed (command_path (key ++ s))
unfolding command_path unquote_path trim_space trim_left trim_right is_space
command_path-IsListed s = inr (trim_right s, refl)

-- The last `__run` stands behind the key.
cut-key :
    (s : Text)
    → (cut_last (codes "__run") (key ++ s) ≡ none)
      ⊎ ((before after : Text) × (cut_last (codes "__run") (key ++ s)
            ≡ some (key ++ before, after)))
unfolding cut_last strip_prefix
cut-key s = elim (Option-cases (cut_last (codes "__run") s)) [
  | inl e ↦ inl (rw (e) refl)
  | inr ((before, after), e) ↦ inr (before, after, rw (e) refl)
]

daemon_run-IsListed : (s : Text) → IsListed (command_executable_for_daemon_run (key ++ s))
unfolding command_executable_for_daemon_run daemon_run_path
daemon_run-IsListed s = rw (trim_space-key s) elim (cut-key (trim_right s)) [
  | inl e ↦ inl (rw (e) refl)
  | inr (before, after, e) ↦ rw (e) (decide (is_empty (trim_space after)) _ before)
]
  where
    decide :
        (a b : Bool) (before : Text)
        → IsListed (if not a then none else if not b then none else command_path (key ++ before))
    decide false b before = inl refl
    decide true false before = inl refl
    decide true true before = command_path-IsListed before

-- A suffix that begins with a blank ends behind the key.
strip-key :
    (suffix s : Text)
    → (strip_suffix (32 ∷ suffix) (key ++ s) ≡ none)
      ⊎ ((before : Text) × (strip_suffix (32 ∷ suffix) (key ++ s) ≡ some (key ++ before)))
unfolding strip_suffix text_eq
strip-key suffix s = elim (Option-cases (strip_suffix (32 ∷ suffix) s)) [
  | inl e ↦ inl (rw (e) refl)
  | inr (before, e) ↦ inr (before, rw (e) refl)
]

foreground_path-IsListed :
    (suffix : Text) (suffixes : List Text) (s : Text)
    → IsListed (foreground_path suffixes (key ++ s))
    → IsListed (foreground_path ((32 ∷ suffix) ∷ suffixes) (key ++ s))
unfolding foreground_path
foreground_path-IsListed suffix suffixes s h = elim (strip-key suffix s) [
  | inl e ↦ rw (e, foreground_path) h
  | inr (before, e) ↦ rw (e, foreground_path) (command_path-IsListed before)
]

foreground-IsListed : (s : Text) → IsListed (command_executable_for_foreground_start (key ++ s))
unfolding command_executable_for_foreground_start foreground_path
foreground-IsListed s = rw (trim_space-key s) (
    foreground_path-IsListed (codes "start --foreground") (codes " start --foreground=true" ∷ [])
      (trim_right s)
      (foreground_path-IsListed (codes "start --foreground=true") [] (trim_right s) (inl refl)))

-- What stands in the output of `wmic` in its list form: blanks, the key and the command
abbrev pub IsList : Text → Type 0
IsList output = (line : Text) × (trim_left output ≡ key ++ line)

module _ (tree : FileTree) where
  -- No path that begins with the key leads to the executable.
  abbrev pub IsForeign : Text → Type 0
  IsForeign expected = (s : Text) → candidate_matches tree (some (key ++ s)) expected ≡ false

  missed :
      (expected : Text) (p : Option Text)
      → IsForeign expected
      → IsListed p
      → candidate_matches tree p expected ≡ false
  unfolding candidate_matches
  missed expected p f (inl e) = rw (e) refl
  missed expected p f (inr (s, e)) = rw (e) (f s)

  pub trim_space-IsList :
      (output : Text) → IsList output → (line : Text) × (trim_space output ≡ key ++ line)
  unfolding trim_space trim_right is_space
  trim_space-IsList output (line, e) = (trim_right line, rw (e) refl)

  pub command_missed :
      (line expected : Text)
      → IsForeign (trim_space expected)
      → command_matches_executable tree (key ++ line) expected ≡ false
  unfolding command_matches_executable
  command_missed line expected f = rw (trim_space-key line) (
      decide (is_empty (trim_space expected)) _ _
        (missed _ _ f (daemon_run-IsListed (trim_right line)))
        (missed _ _ f (foreground-IsListed (trim_right line))))
    where
      decide : (b x y : Bool) → x ≡ false → y ≡ false → (if b then false else x || y) ≡ false
      decide true x y e f' = refl
      decide false x y e f' = rw (e, f') refl
