-- ===== src/Next/PostDetails/Opening.antt =====
-- post-details.js: whether the sidebar opens by itself on a post's page.
use cortono.Prelude.{
  Text, codes, ◌≡◌, ◌↔◌, refl, Bool, true, false, ◌||◌, ◌&&◌, not, Option, none, some, ltb, length,
  text_eq, if◌then◌else◌, arith, ◌⊎◌,
}
use cortono.Chat.Trim.{trim}
use cortono.Next.Page.{Config, is_pisces, is_gemini}
use cortono.Next.Device.{Device, display_sidebar, is_desktop}

-- What the page's front matter says of the sidebar, `CONFIG.page.sidebar`: a Boolean, or something else.
-- The table's element, if the page has one, by its HTML.
pub record Post : Type 0 where
  pub page_sidebar : Option Bool
  pub toc_content : Option Text

unfoldable pub has_toc : Option Text → Bool
has_toc none = false
has_toc (some html) = ltb 0 (length (trim html))

unfoldable pub could_display : Config → Bool
could_display c =
    text_eq c.sidebar_display (codes "post") || text_eq c.sidebar_display (codes "always")

unfoldable pub display : Config → Post → Bool
unfolding has_toc could_display
display c p = chosen p.page_sidebar
  where
    chosen : Option Bool → Bool
    chosen (some b) = b
    chosen none = could_display c && has_toc p.toc_content

-- What the script does: it puts `displaySidebar` in the place of the sidebar's middle ware, it calls it
-- at once, or it leaves the sidebar alone.
pub data Opened : Type 0 where
  middle_ware : Opened
  at_once : Bool → Opened
  left_alone : Opened

unfoldable pub open_sidebar : Config → Device → Post → Opened
unfolding display
open_sidebar c d p =
    if display c p
    then (if c.motion_enable then middle_ware else at_once (display_sidebar c d))
    else left_alone

display_sidebar_eq :
    (c : Config) (d : Device)
    → display_sidebar c d ≡ (is_desktop d && not (is_pisces c || is_gemini c))
unfolding display_sidebar
display_sidebar_eq c d = ground arith

display-chosen :
    (c : Config) (p : Post)
    → (display c p ≡ true) ↔ (
        (p.page_sidebar ≡ some true)
        ⊎ ((p.page_sidebar ≡ none) × (could_display c ≡ true) × (has_toc p.toc_content ≡ true)))
unfolding display
display-chosen c p = ground arith

-- displaySidebar is called or handed to the integrator exactly if the front matter says true, or
-- says nothing and the theme shows sidebars on posts and the table is not blank; it is handed over
-- exactly if motion is enabled, and the call opens the sidebar only on a desktop of a scheme with
-- a drawer.
pub open_sidebar_lem :
    (c : Config) (d : Device) (p : Post)
    → (open_sidebar c d p ≡ (
        if display c p
        then (if c.motion_enable
            then middle_ware
            else at_once (is_desktop d && not (is_pisces c || is_gemini c)))
        else left_alone))
      × ((display c p ≡ true) ↔ (
          (p.page_sidebar ≡ some true)
          ⊎ ((p.page_sidebar ≡ none) × (could_display c ≡ true) × (has_toc p.toc_content ≡ true))))
unfolding open_sidebar
open_sidebar_lem c d p = (rw (display_sidebar_eq c d) refl, display-chosen c p)
