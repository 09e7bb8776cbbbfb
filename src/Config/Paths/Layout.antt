-- ===== src/Config/Paths/Layout.antt =====
-- Where the files of `Paths` lie: internal/config/config.go.
use mathlib.Core.List.{append_cancel_left}
use mathlib.Core.Path.{subst}
use distil_proxy.Base.Text.Paths.{join_path}
use distil_proxy.Base.{
  ◌≡◌, ◌≢◌, refl, sym, ap, ◌∙◌, true, Option, none, some, [], ◌∷◌, ◌++◌, if◌then◌else◌, arith,
}
use distil_proxy.Base.Text.{Text, codes, text_eq}
use distil_proxy.Base.Text.Paths.Under.{
  is_part, is_part-IsPart, IsPart, root, join_path_name, under_root, under_root_dir,
}
use distil_proxy.Config.Paths.{Paths, default_paths}

-- The files and directories in `~/.distil-proxy`
pub data Entry : Type 0 where
  settings binaries logs log pid status upgrade : Entry

abbrev pub path_of : Paths → Entry → Text
path_of p settings = p.config_file
path_of p binaries = p.bin_dir
path_of p logs = p.logs_dir
path_of p log = p.log_file
path_of p pid = p.pid_file
path_of p status = p.status_file
path_of p upgrade = p.upgrade_state_file

abbrev pub name_of : Entry → Text
name_of settings = codes "/config.json"
name_of binaries = codes "/bin"
name_of logs = codes "/logs"
name_of log = codes "/logs/daemon.log"
name_of pid = codes "/distil-proxy.pid"
name_of status = codes "/status.json"
name_of upgrade = codes "/upgrade.json"

abbrev named : Text → Option Entry
named s =
    if text_eq s (name_of settings)
    then some settings
    else if text_eq s (name_of binaries)
    then some binaries
    else if text_eq s (name_of logs)
    then some logs
    else if text_eq s (name_of log)
    then some log
    else if text_eq s (name_of pid)
    then some pid
    else if text_eq s (name_of status)
    then some status
    else if text_eq s (name_of upgrade)
    then some upgrade
    else none

named-name_of : (e : Entry) → named (name_of e) ≡ some e
unfolding text_eq
named-name_of settings = refl
named-name_of binaries = refl
named-name_of logs = refl
named-name_of log = refl
named-name_of pid = refl
named-name_of status = refl
named-name_of upgrade = refl

name_of_injective : (e f : Entry) → name_of e ≡ name_of f → e ≡ f
name_of_injective e f h = some_injective (sym (named-name_of e) ∙ ap named h ∙ named-name_of f)
  where
    some_injective : Option.some e ≡ some f → e ≡ f
    some_injective h = ground arith

abbrev root_name : Text
root_name = codes ".distil-proxy"

root_name-IsPart : IsPart root_name
unfolding text_eq
root_name-IsPart = is_part-IsPart root_name refl

module _ (s : Text) where
  root_lem : (default_paths (b'/' ∷ s)).root_dir ≡ b'/' ∷ root s root_name root_name-IsPart
  unfolding default_paths
  root_lem = join_path_name s root_name root_name-IsPart

  abbrev root_dir : Text
  root_dir = (default_paths (b'/' ∷ s)).root_dir

  under :
      (name : Text)
      → is_part name ≡ true
      → join_path (root_dir ∷ name ∷ []) ≡ root_dir ++ (b'/' ∷ name)
  under name h =
      subst (λ r. join_path (r ∷ name ∷ []) ≡ r ++ (b'/' ∷ name)) (sym root_lem)
        (under_root s root_name root_name-IsPart name (is_part-IsPart name h))

  -- Each path is the root directory's with a name behind it.
  pub path_of-name_of : (e : Entry) → path_of (default_paths (b'/' ∷ s)) e ≡ root_dir ++ name_of e
  unfolding default_paths text_eq
  path_of-name_of settings = under (codes "config.json") refl
  path_of-name_of binaries = under (codes "bin") refl
  path_of-name_of logs = under (codes "logs") refl
  path_of-name_of log =
      subst (λ r. join_path (r ∷ codes "logs" ∷ codes "daemon.log" ∷ []) ≡ r ++ name_of log)
        (sym root_lem)
        (under_root_dir s root_name root_name-IsPart (codes "logs") (codes "daemon.log")
          (is_part-IsPart _ refl) (is_part-IsPart _ refl))
  path_of-name_of pid = under (codes "distil-proxy.pid") refl
  path_of-name_of status = under (codes "status.json") refl
  path_of-name_of upgrade = under (codes "upgrade.json") refl

-- For each home directory whose path begins with a slash, however it is written, each path of `DefaultPaths` is
-- the path of the root directory with the file's name behind it, and it differs from the path of each other
-- file or directory.
pub paths_apart :
    (s : Text) (e f : Entry)
    → e ≢ f
    → (path_of (default_paths (b'/' ∷ s)) e ≡ (default_paths (b'/' ∷ s)).root_dir ++ name_of e)
      × (path_of (default_paths (b'/' ∷ s)) e ≢ path_of (default_paths (b'/' ∷ s)) f)
paths_apart s e f apart = (
  path_of-name_of s e,
  λ h. apart (
      name_of_injective e f (
        append_cancel_left (root_dir s) (name_of e) (name_of f)
          (sym (path_of-name_of s e) ∙ h ∙ path_of-name_of s f))),
)
