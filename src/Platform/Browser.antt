-- ===== src/Platform/Browser.antt =====
-- `OpenBrowser` of internal/platform/browser.go.
use distil_proxy.Base.{Bool, List, [], ◌∷◌, if◌then◌else◌}
use distil_proxy.Base.Text.{Text, codes, text_eq}
use distil_proxy.Disk.{Result, ok, err}

pub data BrowserError : Type 0 where
  open_browser : BrowserError
  unsupported_os : Text → BrowserError

module _ (runs : List Text → Bool) where
  abbrev opened : List Text → Result BrowserError (Unit {0})
  opened command = if runs command then ok tt else err open_browser

  -- `OpenBrowser`, with `platformGOOS`
  unfoldable pub open_browser_at : Text → Text → Result BrowserError (Unit {0})
  open_browser_at goos target_url =
      if text_eq goos (codes "darwin")
      then opened (codes "open" ∷ target_url ∷ [])
      else if text_eq goos (codes "linux")
      then opened (codes "xdg-open" ∷ target_url ∷ [])
      else if text_eq goos (codes "windows")
      then opened (codes "rundll32" ∷ codes "url.dll,FileProtocolHandler" ∷ target_url ∷ [])
      else err (unsupported_os goos)
