-- ===== src/Config/Paths.antt =====
-- `Paths`, `DefaultPaths` and `DetectPaths` of internal/config/config.go.
pub mod Layout
use distil_proxy.Base.{Option, none, some, [], ◌∷◌}
use distil_proxy.Base.Text.{Text, codes}
use distil_proxy.Base.Text.Paths.{join_path}
use distil_proxy.Disk.{Result, ok, err}

pub record Paths : Type 0 where
  pub home_dir : Text
  pub root_dir : Text
  pub config_file : Text
  pub bin_dir : Text
  pub logs_dir : Text
  pub log_file : Text
  pub pid_file : Text
  pub status_file : Text
  pub upgrade_state_file : Text

-- `DefaultPaths`
unfoldable pub default_paths : Text → Paths
default_paths home_dir =
    let root_dir = join_path (home_dir ∷ codes ".distil-proxy" ∷ []) in
    record {
      home_dir = home_dir;
      root_dir = root_dir;
      config_file = join_path (root_dir ∷ codes "config.json" ∷ []);
      bin_dir = join_path (root_dir ∷ codes "bin" ∷ []);
      logs_dir = join_path (root_dir ∷ codes "logs" ∷ []);
      log_file = join_path (root_dir ∷ codes "logs" ∷ codes "daemon.log" ∷ []);
      pid_file = join_path (root_dir ∷ codes "distil-proxy.pid" ∷ []);
      status_file = join_path (root_dir ∷ codes "status.json" ∷ []);
      upgrade_state_file = join_path (root_dir ∷ codes "upgrade.json" ∷ []);
    }

-- The error of `os.UserHomeDir`
pub data PathsError : Type 0 where
  resolve_home : PathsError

-- `DetectPaths`, of what `os.UserHomeDir` gives
unfoldable pub detect_paths : Option Text → Result PathsError Paths
detect_paths none = err resolve_home
detect_paths (some home) = ok (default_paths home)
