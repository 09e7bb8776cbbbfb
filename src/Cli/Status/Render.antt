-- ===== src/Cli/Status/Render.antt =====
-- `renderStatusHuman` and `supportsANSIColor` of internal/cli/status.go. The environment and the terminal are parameters.
use distil_proxy.Base.{
  Bool, true, false, not, ◌||◌, Option, none, some, List, [], ◌∷◌, ◌++◌, if◌then◌else◌,
}
use distil_proxy.Base.Text.{Text, codes, text_eq, trim_space, is_empty, equal_fold, pad_right}
use distil_proxy.Base.Text.Decimal.{print_ℤ}
use distil_proxy.Cli.Status.{StatusOutput, or_text, status_presentation, colorize, ansi}

-- `printField`
abbrev field_line : Text → Text → Text
field_line key value = pad_right 12 key ++ (b' ' ∷ value)

-- `printIndentedField`
abbrev indented_line : Text → Text → Text
indented_line key value = codes "  " ++ (pad_right 11 key ++ (b' ' ∷ value))

abbrev title : Bool → Text → Text
title use_color text = colorize text (ansi (codes "1") ++ ansi (codes "36")) use_color

-- The help behind a state without a connection
unfoldable pub help_lines : Text → List Text
help_lines status =
    if text_eq status (codes "reconnecting")
      || text_eq status (codes "disconnected")
      || text_eq status (codes "error")
    then []
      ∷ codes "If reconnecting persists, try:"
      ∷ codes "  • distil-proxy restart"
      ∷ codes "  • Check your firewall/VPN"
      ∷ codes "  • Visit status.distil.net for network status"
      ∷ []
    else []

-- The line of the state: its text with the icon, padded, and the hint
unfoldable pub status_line : StatusOutput → Bool → Text
status_line out use_color =
    let shown = status_presentation out.status out.websocket_host in
    let state = if use_color then colorize out.status shown.color use_color else out.status in
    field_line (codes "Status:")
      (pad_right 18 (state ++ (b' ' ∷ shown.icon)) ++ (b' ' ∷ shown.hint))

-- The lines of `renderStatusHuman`
unfoldable pub render_status_human : StatusOutput → Bool → List Text
unfolding status_line help_lines
render_status_human out use_color =
    colorize (codes "distil-proxy v" ++ out.version) (ansi (codes "1")) use_color
    ∷ status_line out use_color
    ∷ field_line (codes "PID:") (print_ℤ out.pid)
    ∷ field_line (codes "Uptime:")
        (out.uptime_human ++ (codes " (since " ++ (out.start_time_human ++ codes ")")))
    ∷ field_line (codes "Account:") (or_text out.email (codes "unavailable"))
    ∷ field_line (codes "Your Node:") (codes "Sydney, AU (residential IP active when connected)")
    ∷ []
    ∷ title use_color (codes "Connection:")
    ∷ indented_line (codes "WebSocket:") out.websocket_url
    ∷ indented_line (codes "State:") out.websocket_state
    ∷ indented_line (codes "Attempts:") (
        print_ℤ out.connect_attempts
        ++ (codes " total (" ++ (print_ℤ out.reconnects ++ codes " reconnects)")))
    ∷ indented_line (codes "Last error:") (or_text (trim_space out.last_error) (codes "none"))
    ∷ []
    ∷ title use_color (codes "Activity (this session):")
    ∷ indented_line (codes "Jobs served:") (print_ℤ out.jobs_served)
    ∷ indented_line (codes "Success:") (print_ℤ out.jobs_success)
    ∷ indented_line (codes "Errors:") (print_ℤ out.jobs_error)
    ∷ []
    ∷ title use_color (codes "Latency stats:")
    ∷ indented_line (codes "Average:") (print_ℤ out.average_ms ++ codes " ms")
    ∷ indented_line (codes "≤ 100 ms:") (print_ℤ out.le100_ms)
    ∷ indented_line (codes "≤ 500 ms:") (print_ℤ out.le500_ms)
    ∷ indented_line (codes "≤ 1000 ms:") (print_ℤ out.le1000_ms)
    ∷ indented_line (codes "> 1000 ms:") (print_ℤ out.gt1000_ms)
    ∷ []
    ∷ title use_color (codes "Quick tips:")
    ∷ codes "  • Run 'distil-proxy logs' to see detailed logs"
    ∷ codes "  • Run 'distil fetch https://example.com' to test a request"
    ∷ codes "  • Run 'distil-proxy dashboard' to sign in to your dashboard"
    ∷ help_lines out.status

-- What `supportsANSIColor` reads of the environment, and whether the output is a character device: `none` where it is no
-- file, or where `Stat` fails.
pub record Terminal : Type 0 where
  pub no_color : Text
  pub clicolor : Text
  pub term : Text
  pub force_color : Text
  pub is_char_device : Option Bool

-- `supportsANSIColor`
unfoldable pub supports_ansi_color : Terminal → Bool
supports_ansi_color t =
    if not (is_empty t.no_color) || text_eq t.clicolor (codes "0")
    then false
    else if equal_fold (trim_space t.term) (codes "dumb")
    then false
    else if not (is_empty t.force_color)
    then true
    else elim t.is_char_device [ none ↦ false | some b ↦ b ]
