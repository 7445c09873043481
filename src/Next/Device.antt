-- ===== src/Next/Device.antt =====
-- utils.js: what kind of device shows the page, and whether the sidebar opens by itself.
use cortono.Prelude.{
  Text, codes, List, [], ◌∷◌, ℕ, ◌≡◌, ◌↔◌, Bool, true, false, not, ◌&&◌, ◌||◌, arith, ltb, includes,
  if◌then◌else◌,
}
use cortono.Next.Page.{Config, is_pisces, is_gemini}

-- `window.screen.width` and `window.navigator.userAgent`
pub record Device : Type 0 where
  pub width : ℕ
  pub user_agent : Text

-- the alternatives of the regular expression
abbrev pub mobile_names : List Text
mobile_names =
    codes "iPad"
    ∷ codes "iPhone"
    ∷ codes "Android"
    ∷ codes "Opera Mini"
    ∷ codes "BlackBerry"
    ∷ codes "webOS"
    ∷ codes "UCWEB"
    ∷ codes "Blazer"
    ∷ codes "PSP"
    ∷ codes "IEMobile"
    ∷ codes "Symbian"
    ∷ []

abbrev pub includes_any : List Text → Text → Bool
includes_any [] s = false
includes_any (p ∷ ps) s = includes p s || includes_any ps s

unfoldable pub has_mobile_ua : Device → Bool
has_mobile_ua d = includes_any mobile_names d.user_agent

unfoldable pub is_tablet : Device → Bool
is_tablet d = ltb d.width 992 && (ltb 767 d.width && has_mobile_ua d)

unfoldable pub is_mobile : Device → Bool
is_mobile d = ltb d.width 767 && has_mobile_ua d

unfoldable pub is_desktop : Device → Bool
unfolding is_tablet is_mobile
is_desktop d = not (is_tablet d) && not (is_mobile d)

-- `displaySidebar`: whether the toggle is clicked. The toggle's click opens the sidebar.
unfoldable pub display_sidebar : Config → Device → Bool
display_sidebar c d = if not (is_desktop d) || (is_pisces c || is_gemini c) then false else true

pub display_sidebar_iff :
    (c : Config) (d : Device)
    → (display_sidebar c d ≡ true)
      ↔ ((is_desktop d ≡ true) × (is_pisces c ≡ false) × (is_gemini c ≡ false))
unfolding display_sidebar
display_sidebar_iff c d = ground arith
