-- ===== src/Cli/Status.antt =====
-- The `status` command of internal/cli/status.go: what it prints of a runtime status. net/url and the formats of times
-- are parameters.
pub mod Shows
pub mod Render
use distil_proxy.Base.{
  ℕ, ◌+◌, ◌-◌, ◌*◌, Bool, true, false, not, ◌||◌, Option, none, some, List, [], ◌∷◌, ◌++◌, length,
  ltb, if◌then◌else◌,
}
use distil_proxy.Base.Int.{ℤ, pos, ◌-ℤ◌, pos_part, ltb_ℤ, quot, wrap64}
use distil_proxy.Base.Text.{Text, codes, text_eq, trim_space, is_empty}
use distil_proxy.Base.Text.Decimal.{print_ℤ}
use distil_proxy.Config.{default_server_url}
use distil_proxy.Daemon.Files.{RuntimeStatus}
use distil_proxy.Cli.Duration.{human_duration}

-- `url.Parse` with `Hostname`, and the two formats of a local time
pub record Formats : Type 0 where
  pub hostname : Text → Option Text
  pub rfc3339 : ℤ → Text
  pub minute : ℤ → Text

-- `statusOutput`, with the fields of its parts; the location is constant.
pub record StatusOutput : Type 0 where
  pub version : Text
  pub status : Text
  pub pid : ℤ
  pub uptime_seconds : ℤ
  pub uptime_human : Text
  pub start_time : Text
  pub email : Text
  pub websocket_url : Text
  pub websocket_state : Text
  pub connect_attempts : ℤ
  pub reconnects : ℤ
  pub last_error : Text
  pub jobs_served : ℤ
  pub jobs_success : ℤ
  pub jobs_error : ℤ
  pub average_ms : ℤ
  pub le100_ms : ℤ
  pub le500_ms : ℤ
  pub le1000_ms : ℤ
  pub gt1000_ms : ℤ
  pub start_time_human : Text
  pub websocket_host : Text

-- The state that is shown
unfoldable pub shown_state : Bool → Text → Text
shown_state running state =
    if not running then codes "stopped" else if is_empty state then codes "starting" else state

-- The uptime that is shown
unfoldable pub shown_uptime : ℤ → ℤ
shown_uptime seconds = if ltb_ℤ seconds (pos 0) then pos 0 else seconds

-- The start that is shown, in milliseconds
unfoldable pub shown_start : Option ℤ → ℤ → ℤ → ℤ
shown_start (some started_at) seconds now = started_at
shown_start none seconds now =
    now -ℤ quot (wrap64 (pos (pos_part seconds * 1_000_000_000))) 1_000_000

unfoldable pub or_text : Text → Text → Text
or_text text default = if is_empty text then default else text

module _ (formats : Formats) where
  -- `websocketHost`
  unfoldable pub websocket_host_of : Text → Text
  websocket_host_of server_url = elim (formats.hostname server_url) [
    | none ↦ []
    | some host ↦ trim_space host
  ]

  -- `buildStatusOutput`; `now` in milliseconds
  unfoldable pub build_status_output : Text → Text → Text → RuntimeStatus → ℤ → StatusOutput
  build_status_output version websocket_url email s now =
      let seconds = shown_uptime s.uptime_seconds in
      let start = shown_start s.started_at seconds now in
      let state = shown_state s.running (trim_space s.ws_state) in
      let server_url = or_text (trim_space websocket_url) default_server_url in
      record {
        version = version;
        status = state;
        pid = s.pid;
        uptime_seconds = seconds;
        uptime_human = human_duration seconds;
        start_time = formats.rfc3339 start;
        email = trim_space email;
        websocket_url = server_url;
        websocket_state = state;
        connect_attempts = s.connect_attempts;
        reconnects = s.reconnects;
        last_error = s.last_error;
        jobs_served = s.jobs_served;
        jobs_success = s.jobs_success;
        jobs_error = s.jobs_error;
        average_ms = s.avg_latency_ms;
        le100_ms = s.latency_le100_ms;
        le500_ms = s.latency_le500_ms;
        le1000_ms = s.latency_le1000_ms;
        gt1000_ms = s.latency_gt1000_ms;
        start_time_human = formats.minute start;
        websocket_host = or_text (websocket_host_of server_url) (codes "proxy.distil.net");
      }

abbrev pub ansi : Text → Text
ansi code = 27 ∷ 91 ∷ code ++ b'm' ∷ []

abbrev pub warning_sign : Text
warning_sign = 0x26a0 ∷ 0xfe0f ∷ []

abbrev information_sign : Text
information_sign = 0x2139 ∷ 0xfe0f ∷ []

-- The icon, the hint and the color
pub record Presentation : Type 0 where
  pub icon : Text
  pub hint : Text
  pub color : Text

-- `statusPresentation`
unfoldable pub status_presentation : Text → Text → Presentation
status_presentation state host =
    if text_eq state (codes "connected")
    then record {
      icon = codes "✅";
      hint = codes "(connected to " ++ (host ++ codes ")");
      color = ansi (codes "32");
    }
    else if text_eq state (codes "reconnecting")
    then record {
      icon = warning_sign;
      hint = codes "(attempting to reconnect to " ++ (host ++ codes ")");
      color = ansi (codes "33");
    }
    else if text_eq state (codes "disconnected")
    then record {
      icon = warning_sign;
      hint = codes "(disconnected from " ++ (host ++ codes ")");
      color = ansi (codes "33");
    }
    else if text_eq state (codes "error")
    then record {
      icon = codes "❌";
      hint = codes "(daemon reported an error)";
      color = ansi (codes "31");
    }
    else if text_eq state (codes "stopped")
    then record {
      icon = codes "❌";
      hint = codes "(daemon is not running)";
      color = ansi (codes "31");
    }
    else record {
      icon = information_sign;
      hint = codes "(daemon is starting)";
      color = ansi (codes "33");
    }

-- `colorize`
unfoldable pub colorize : Text → Text → Bool → Text
colorize value style enabled =
    if not enabled || is_empty style then value else style ++ (value ++ ansi (codes "0"))
