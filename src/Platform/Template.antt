-- ===== src/Platform/Template.antt =====
-- The service's definitions of internal/platform/service_templates.go, as texts.
pub mod Quoted
use distil_proxy.Base.{ℕ, Bool, List, [], ◌∷◌, ◌++◌}
use distil_proxy.Base.Text.{Text, codes, lines}
use distil_proxy.Base.Text.Paths.{join_path}
use distil_proxy.Platform.Quote.{quote}

abbrev pub launchd_service_path : Text
launchd_service_path = codes "Library/LaunchAgents/net.distil.proxy.plist"

abbrev pub systemd_service_path : Text
systemd_service_path = codes ".config/systemd/user/distil-proxy.service"

-- The installed executable
abbrev pub exec_path : Text → Text
exec_path home_dir = join_path (home_dir ∷ codes ".distil-proxy/bin/distil-proxy" ∷ [])

abbrev log_path : Text → Text
log_path home_dir = join_path (home_dir ∷ codes ".distil-proxy/logs/daemon.log" ∷ [])

-- `LaunchdPlist`
unfoldable pub launchd_plist : Text → Text
launchd_plist home_dir = lines (
    codes "<?xml version=\"1.0\" encoding=\"UTF-8\"?>"
    ∷ (codes "<!DOCTYPE plist PUBLIC \"-//Apple//DTD PLIST 1.0//EN\" "
        ++ codes "\"http://www.apple.com/DTDs/PropertyList-1.0.dtd\">")
    ∷ codes "<plist version=\"1.0\">"
    ∷ codes "<dict>"
    ∷ codes "  <key>Label</key><string>net.distil.proxy</string>"
    ∷ codes "  <key>ProgramArguments</key>"
    ∷ codes "  <array>"
    ∷ (codes "    <string>" ++ (exec_path home_dir ++ codes "</string>"))
    ∷ codes "    <string>start</string>"
    ∷ codes "    <string>--foreground</string>"
    ∷ codes "  </array>"
    ∷ codes "  <key>RunAtLoad</key><true/>"
    ∷ codes "  <key>KeepAlive</key><true/>"
    ∷ (codes "  <key>StandardOutPath</key><string>" ++ (log_path home_dir ++ codes "</string>"))
    ∷ (codes "  <key>StandardErrorPath</key><string>" ++ (log_path home_dir ++ codes "</string>"))
    ∷ codes "</dict>"
    ∷ codes "</plist>"
    ∷ [])

abbrev unit_head : Text
unit_head = lines (
    codes "[Unit]"
    ∷ codes "Description=Distil Proxy Daemon"
    ∷ codes "After=network-online.target"
    ∷ []
    ∷ codes "[Service]"
    ∷ [])

abbrev pub unit_tail : Text
unit_tail = lines (
    codes "Restart=always"
    ∷ codes "RestartSec=5"
    ∷ []
    ∷ codes "[Install]"
    ∷ codes "WantedBy=default.target"
    ∷ [])

-- `SystemdUserUnit`
unfoldable pub systemd_user_unit : (ℕ → Bool) → Text → Text
systemd_user_unit is_print home_dir =
    unit_head
    ++ (codes "ExecStart="
        ++ (quote is_print (exec_path home_dir)
            ++ (codes " start --foreground" ++ (10 ∷ unit_tail))))
