-- ===== src/Platform.antt =====
-- internal/platform: the service's definition and the browser.
pub mod Quote
pub mod Template
pub mod Service
pub mod Browser
