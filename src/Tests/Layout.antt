-- ===== src/Tests/Layout.antt =====
-- The output of `status` for the values of internal/cli/status_golden_test.go, as in testdata/status_human.golden.
use distil_proxy.Base.{◌≡◌, refl, false, [], ◌∷◌, ◌++◌}
use distil_proxy.Base.Int.{pos}
use distil_proxy.Base.Text.{codes, text_eq, trim_space, lines}
use distil_proxy.Base.Text.Decimal.{print_ℤ}
use distil_proxy.Cli.Status.{StatusOutput, status_presentation, colorize, or_text, warning_sign}
use distil_proxy.Cli.Status.Render.{render_status_human}

abbrev golden : StatusOutput
golden = record {
  version = codes "0.9.2";
  status = codes "reconnecting";
  pid = pos 55_895;
  uptime_seconds = pos 6_745;
  uptime_human = codes "1h 52m 25s";
  start_time = codes "2026-03-02T11:33:00+11:00";
  email = codes "operator@example.com";
  websocket_url = codes "ws://proxy.distil.net/ws";
  websocket_state = codes "reconnecting";
  connect_attempts = pos 109;
  reconnects = pos 109;
  last_error =
      codes "read websocket message: failed to get reader: use of closed network connection";
  jobs_served = pos 0;
  jobs_success = pos 0;
  jobs_error = pos 0;
  average_ms = pos 0;
  le100_ms = pos 0;
  le500_ms = pos 0;
  le1000_ms = pos 0;
  gt1000_ms = pos 0;
  start_time_human = codes "2026-03-02 11:33 AEDT";
  websocket_host = codes "proxy.distil.net";
}

renders :
    lines (render_status_human golden false)
    ≡ lines (
        codes "distil-proxy v0.9.2"
        ∷ (codes "Status:      reconnecting "
            ++ (warning_sign ++ codes "    (attempting to reconnect to proxy.distil.net)"))
        ∷ codes "PID:         55895"
        ∷ codes "Uptime:      1h 52m 25s (since 2026-03-02 11:33 AEDT)"
        ∷ codes "Account:     operator@example.com"
        ∷ codes "Your Node:   Sydney, AU (residential IP active when connected)"
        ∷ []
        ∷ codes "Connection:"
        ∷ codes "  WebSocket:  ws://proxy.distil.net/ws"
        ∷ codes "  State:      reconnecting"
        ∷ codes "  Attempts:   109 total (109 reconnects)"
        ∷ codes
            "  Last error: read websocket message: failed to get reader: use of closed network connection"
        ∷ []
        ∷ codes "Activity (this session):"
        ∷ codes "  Jobs served: 0"
        ∷ codes "  Success:    0"
        ∷ codes "  Errors:     0"
        ∷ []
        ∷ codes "Latency stats:"
        ∷ codes "  Average:    0 ms"
        ∷ codes "  ≤ 100 ms:   0"
        ∷ codes "  ≤ 500 ms:   0"
        ∷ codes "  ≤ 1000 ms:  0"
        ∷ codes "  > 1000 ms:  0"
        ∷ []
        ∷ codes "Quick tips:"
        ∷ codes "  • Run 'distil-proxy logs' to see detailed logs"
        ∷ codes "  • Run 'distil fetch https://example.com' to test a request"
        ∷ codes "  • Run 'distil-proxy dashboard' to sign in to your dashboard"
        ∷ []
        ∷ codes "If reconnecting persists, try:"
        ∷ codes "  • distil-proxy restart"
        ∷ codes "  • Check your firewall/VPN"
        ∷ codes "  • Visit status.distil.net for network status"
        ∷ [])
unfolding render_status_human status_presentation colorize or_text trim_space text_eq print_ℤ
renders = refl
