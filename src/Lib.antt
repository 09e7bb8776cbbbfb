-- ===== src/Lib.antt =====
-- A model of distil-proxy, a daemon that fetches web pages for a server and keeps itself up to date, with the
-- theorems that make it correct.
--
-- The parts and their files. The daemon keeps a websocket connection to the server. A message asks for a
-- page; the client registers the job, lets the executor fetch the page, and sends the result or an error.
-- When the connection breaks, the client waits and dials again. Beside it, the upgrade manager asks an
-- endpoint for a release, downloads it, checks it, and puts it in the executable's place. The settings are in
-- a file, and so is the log.
--   * Upgrade/Manager: internal/upgrade/manager.go. `handle_startup` is `HandleStartup`, `check_and_upgrade`
--     is `CheckAndUpgrade`, `mark_clean_shutdown` is `MarkCleanShutdown`; the other names are those of the
--     source in snake case. A long function is split where it tests an error. Keeps says which files a step
--     leaves alone, Replace what `replaceFile` does, Safe what an installation does, Outcome what a check does,
--     Startup what a start does.
--     Calm, Pending and Crash follow an upgrade over several starts on a disk where nothing fails. Upgrade/Query is
--     the request of `fetchLatest`.
--   * Upgrade/Version: internal/upgrade/version.go and `normalizeUpgradeCurrentVersion` of
--     internal/cli/commands_upgrade.go.
--   * Ws/Config, Ws/Protocol, Ws/Client, Ws/Run: internal/ws. Client is a message (`handle_message`,
--     `handle_fetch`), Run is a session (`run_session`) and the loop of `Run` (`run`).
--   * Jobs: internal/jobs/registry.go. Fetch: internal/fetch/executor.go. Observability/Metrics:
--     internal/observability/metrics.go. Observability/Logger: logger.go beside it. Config: internal/config/config.go,
--     with Config/Paths for `DefaultPaths`; Base/Text/Paths is `filepath.Clean` and `Join` on Unix.
--   * Daemon: internal/daemon/service.go. Logs is `ReadLogTail`, Files are the PID file and the status file,
--     Command is `commandMatchesExecutable`, Process is `Stop` and `runningPID` with what they call, Start is
--     `Start` and `Restart`, Status is `Status`, Runtime are the hooks and the goroutines of `Run`, and Run is
--     the rest of it, with `StartForeground`. Daemon/Run/Upgrade puts the upgrade manager behind the interface
--     `Upgrader` that Runtime and Run use; the events of Ws/Client are what the hooks of Runtime are told. Windows is
--     internal/daemon/platform_windows.go, an instance of the parameter `System`; Windows/Missed is what `Stop` makes
--     of it.
--   * Platform: internal/platform. Template are the texts of service_templates.go (systemd's specifiers with `%` are not modelled), Quote is `strconv.Quote`, Service is
--     `InstallServiceDefinition` and `RemoveServiceDefinitions`, Browser is `OpenBrowser`.
--   * Cli: internal/cli. Wait is `waitForDaemonConnected`, Interactive is the dialog of `runInteractiveAuth` (`obtain_keys`),
--     Auth is the `auth` command behind its prompts
--     (`save_auth_key_with_verification_key`) with `postAuthFinalize` and `runPostUpgradeHook`, Upgrade is the
--     `upgrade` command on top of the manager, Status is `buildStatusOutput` with `statusPresentation`, Duration is
--     `humanDuration`, Urls are the addresses, Status/Render is
--     `renderStatusHuman`, Account is `lookupAccountForConfig` with the `dashboard` and `status` commands, Uninstall is the
--     `uninstall` command, Commands are `start`, `stop`, `restart`, `logs` and `service`, Foreground is `__run` and
--     `start --foreground`. The commands use Daemon, Config and Upgrade as they are.
--   * Disk: what the program uses of package os. A disk holds the contents of the files that the program
--     names, and counts the calls. The schedule `Faults` says of each call whether it fails, and what a failed
--     write leaves, so a theorem for every schedule covers every failure at every step. `Disk.Exec` is the
--     monad of such actions, `Disk.Leaves` the files an action does not touch, `Disk.Success` what follows
--     from an action that succeeds.
--   * Base: numbers, lists, and Go's strings as lists of code points. ApiKey: the form of a key.
--   * Tests: runs at concrete values.
--
-- Bounds. `int` and `int64` are integers; where the program adds, the sum wraps at 64 bits (`wrap64`). Texts
-- are taken to be valid UTF-8. Loops are structural recursions: on the messages, the passes and the steps
-- that the model is given, on the chunks of the log, on the lists the program loops over. The digits of a
-- number are printed on fuel, as many steps as the number has units. The loop of `Stop` has 52 rounds: each
-- takes 200 milliseconds or more, and the limit is 10 seconds. The wait for a connected daemon has as many rounds as its
-- timeout has milliseconds and two: each takes a poll interval, which is one millisecond or more.
--
-- Concurrency. A method under a mutex is one step. The heartbeat and the session's loop take turns, in the
-- order of the list of steps, and a step says which way a `select` goes. The hooks, the tickers and the upgrade
-- checks of `Run` are a list of activities, the latest first; the list is any, so each order of the goroutines
-- is one. An upgrade check is one activity, although hooks may run while it downloads. `Run` does not wait for the
-- goroutine of the upgrade checks, so `ClientEnd` has the steps that it takes behind the client: a check's work on
-- the files, its word to the status, or time, before each of the steps at the end of `Run` and behind the last. Any
-- result may be told there, so there are at least the orders of the program. The end of the process does not cut a
-- check in two.
--
-- Parameters: net/http (`Http`, `Release`), the websocket connection and the clock (`Env`), encoding/json and
-- encoding/base64 (`Env`, `Release`, `ConfigJson`, `StatusJson`), SHA-256 (`Release`), the
-- processes (`System`, `spawn`, `replace`), net/url (`UrlCodec`), the proxy's answers (`send`), the
-- installation API (`InstallApi`), the paths of executables (`FileTree`), what a command answers
-- (`runs`), `unicode.IsPrint` (`is_print`), what is under the runtime directory and what a failed `os.RemoveAll` leaves of
-- it (`in_root`, `spared`), and `os.Stat` of the installed executable (`stat`). A theorem that needs more of one has
-- it as a hypothesis (`IsCodec`).
--
-- Not modelled: cobra and the tree of commands (internal/cli/root.go), the entry point and the build's version, log/slog
-- itself, `json.Encoder` behind `status --json`, and the process attributes of a child.
-- A source that breaks off while it is copied counts as a
-- write that fails. Two calls of a program that runs twice do not interleave.
mod Base
mod ApiKey
pub mod Disk
pub mod Upgrade
pub mod Jobs
pub mod Observability
pub mod Platform
pub mod Fetch
pub mod Ws
pub mod Config
pub mod Daemon
pub mod Cli
mod Tests
