-- ===== src/Cli.antt =====
-- internal/cli.
pub mod Wait
pub mod Duration
pub mod Status
pub mod Urls
pub mod Auth
pub mod Upgrade
pub mod Uninstall
pub mod Interactive
pub mod Account
pub mod Commands
pub mod Foreground
