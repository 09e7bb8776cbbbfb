-- ===== src/Daemon/Command.antt =====
-- Whether a command line runs this executable: `commandMatchesExecutable` and its helpers in
-- internal/daemon/service.go. The paths and the files are the parameter `FileTree`.
use distil_proxy.Base.{
  ℕ, ◌==◌, Bool, true, false, ◌||◌, not, Option, none, some, List, [], ◌∷◌, if◌then◌else◌,
}
use distil_proxy.Base.Text.{
  Text, codes, is_empty, is_space, text_eq, trim_space, cut_last, strip_suffix,
}

-- path/filepath, and what `os.Stat` and `os.SameFile` say of a file.
pub record FileTree : Type 0 where
  pub is_abs : Text → Bool
  pub clean : Text → Text
  pub join : Text → Text → Text
  pub dir : Text → Text
  pub eval_symlinks : Text → Option Text
  pub stat : Text → Option ℕ
  pub same_file : ℕ → ℕ → Bool

-- The last code point of a text behind `c`, and what stands in front of it.
abbrev last_behind : ℕ → Text → ℕ
last_behind c [] = c
last_behind c (d ∷ s) = last_behind d s

abbrev without_last : Text → Text
without_last [] = []
without_last (c ∷ []) = []
without_last (c ∷ d ∷ s) = c ∷ without_last (d ∷ s)

-- `unquotePath`
unfoldable pub unquote_path : Text → Option Text
unquote_path [] = none
unquote_path (quote ∷ []) = none
unquote_path (quote ∷ c ∷ s) =
    if not (quote == b'"' || quote == b'\'') || not (last_behind c s == quote)
    then none
    else some (without_last (c ∷ s))

-- The path that stands in front of the arguments.
unfoldable pub command_path : Text → Option Text
unfolding unquote_path
command_path before =
    let trimmed = trim_space before in
    let path : Text = elim (unquote_path trimmed) [ none ↦ trimmed | some unquoted ↦ unquoted ] in
    if is_empty path then none else some path

unfoldable pub daemon_run_path : Option (Text × Text) → Option Text
unfolding command_path
daemon_run_path none = none
daemon_run_path (some ([], after)) = none
daemon_run_path (some (c ∷ s, after)) =
    if not (is_empty (trim_space after))
    then none
    else if not (is_space (last_behind c s))
    then none
    else command_path (c ∷ s)

-- `commandExecutableForDaemonRun`
unfoldable pub command_executable_for_daemon_run : Text → Option Text
unfolding daemon_run_path cut_last
command_executable_for_daemon_run command_line =
    daemon_run_path (cut_last (codes "__run") (trim_space command_line))

-- The loop over the suffixes: the first one that fits decides.
unfoldable pub foreground_path : List Text → Text → Option Text
unfolding command_path
foreground_path [] command_line = none
foreground_path (suffix ∷ suffixes) command_line =
    let rest = foreground_path suffixes command_line in
    elim (strip_suffix suffix command_line) [ none ↦ rest | some before ↦ command_path before ]

-- `commandExecutableForForegroundStart`
unfoldable pub command_executable_for_foreground_start : Text → Option Text
unfolding foreground_path
command_executable_for_foreground_start command_line =
    foreground_path (codes " start --foreground" ∷ codes " start --foreground=true" ∷ [])
      (trim_space command_line)

module _ (tree : FileTree) where
  -- `executableIdentity`
  unfoldable pub executable_identity : Text → Option (Text × ℕ)
  executable_identity path =
      let cleaned = tree.clean (trim_space path) in
      if is_empty cleaned || text_eq cleaned (codes ".")
      then none
      else (let resolved =
            tree.clean (elim (tree.eval_symlinks cleaned) [ none ↦ cleaned | some p ↦ p ]) in
          elim (tree.stat resolved) [ none ↦ none | some info ↦ some (resolved, info) ])

  abbrev same_identity : Option (Text × ℕ) → Option (Text × ℕ) → Bool
  same_identity (some (a, info_a)) (some (b, info_b)) =
      if text_eq a b then true else tree.same_file info_a info_b
  same_identity _ _ = false

  -- `sameExecutableFile`
  unfoldable pub same_executable_file : Text → Text → Bool
  unfolding executable_identity
  same_executable_file a b = same_identity (executable_identity a) (executable_identity b)

  -- `normalizeRelativeCommandPath`
  unfoldable pub normalize_relative_command_path : Text → Text → Option Text
  normalize_relative_command_path command_path expected_path =
      let command = trim_space command_path in
      let expected = trim_space expected_path in
      if is_empty command || is_empty expected || tree.is_abs command
      then none
      else some (tree.clean (tree.join (tree.dir expected) command))

  abbrev is_same : Text → Text → Bool
  is_same path expected = text_eq path expected || same_executable_file path expected

  abbrev is_same_relative : Option Text → Text → Bool
  is_same_relative none expected = false
  is_same_relative (some path) expected = is_same path expected

  -- One candidate of the loop in `commandMatchesExecutable`.
  unfoldable pub candidate_matches : Option Text → Text → Bool
  unfolding same_executable_file normalize_relative_command_path
  candidate_matches none expected = false
  candidate_matches (some path) expected =
      is_same path expected
      || is_same_relative (normalize_relative_command_path path expected) expected

  unfoldable pub command_matches_executable : Text → Text → Bool
  unfolding candidate_matches command_executable_for_daemon_run
      command_executable_for_foreground_start
  command_matches_executable command_line expected_path =
      let line = trim_space command_line in
      let expected = trim_space expected_path in
      if is_empty line || is_empty expected
      then false
      else candidate_matches (command_executable_for_daemon_run line) expected
        || candidate_matches (command_executable_for_foreground_start line) expected
