-- ===== src/Next/Pisces.antt =====
-- schemes/pisces.js: the sidebar that stays beside the content while the page is scrolled. Heights are
-- whole numbers of pixels.
use cortono.Prelude.{
  ℕ, ◌+◌, ◌-◌, ◌≡◌, refl, Bool-cases, inl, inr, Bool, true, false, Option, none, some, arith, ltb,
  if◌then◌else◌,
}
use cortono.Prelude.Int.{ℤ, pos, sub_ℕ, ◌+ℤ◌}
use cortono.Next.Page.{Config}
use cortono.Next.SidebarRoom.{Sizes, get_sidebarb2t_height}

-- What the script measures: the heights of `.header-inner`, `#sidebar` and `#content`, and the outer
-- height of `.footer-inner` with and without its margins.
pub record Measures : Type 0 where
  pub header_inner : ℕ
  pub sidebar_height : ℕ
  pub content_height : ℕ
  pub footer_with_margin : ℕ
  pub footer_outer : ℕ

-- What Bootstrap's affix is given.
pub record Offset : Type 0 where
  pub top : ℕ
  pub bottom : ℤ

-- The sidebar: whether it is affixed, and its margins; `margin_left` says that it is 'initial'. The
-- affix adds its listener to the window, and its data and classes to the element.
pub record Pisces : Type 0 where
  pub affixed : Option Offset
  pub listeners : ℕ
  pub margin_top : ℕ
  pub margin_left_initial : Bool

unfoldable pub get_header_offset : Config → Measures → ℕ
get_header_offset c m = m.header_inner + c.sidebar_offset

unfoldable pub get_footer_offset : Measures → ℤ
get_footer_offset m =
    let footer_margin = sub_ℕ m.footer_with_margin m.footer_outer in
    pos m.footer_with_margin +ℤ footer_margin

-- `sidebarInner.affix(…)` on an element without data of the affix
unfoldable pub affix : Offset → Pisces → Pisces
affix o s = record s { affixed = some o; listeners = s.listeners + 1 }

unfoldable pub set_sidebar_margin_top : ℕ → Pisces → Pisces
set_sidebar_margin_top h s = record s { margin_top = h }

unfoldable pub init_affix : Config → Measures → Sizes → Pisces → Pisces
unfolding get_header_offset get_footer_offset affix set_sidebar_margin_top get_sidebarb2t_height
init_affix c m z s =
    let header_offset = get_header_offset c m in
    let sidebar_height = m.sidebar_height + get_sidebarb2t_height c z in
    let affixed =
      if ltb (header_offset + sidebar_height) m.content_height
      then affix (record { top = header_offset - c.sidebar_offset; bottom = get_footer_offset m }) s
      else s in
    record (set_sidebar_margin_top header_offset affixed) { margin_left_initial = true }

-- `$(window).off('.affix')`, `removeData` and `removeClass`
unfoldable pub remove_affix : Pisces → Pisces
remove_affix s = record s { affixed = none; listeners = 0 }

unfoldable pub recalculate_affix_position : Config → Measures → Sizes → Pisces → Pisces
unfolding init_affix remove_affix
recalculate_affix_position c m z s = init_affix c m z (remove_affix s)

-- The listener of the media query '(min-width: 991px)', told whether it matches now.
unfoldable pub on_media_query : Config → Bool → Measures → Sizes → Pisces → Pisces
unfolding recalculate_affix_position
on_media_query c matches m z s = if matches then recalculate_affix_position c m z s else s

-- a page that is loaded, before the script
abbrev pub loaded : Pisces
loaded = record { affixed = none; listeners = 0; margin_top = 0; margin_left_initial = false }

-- the sidebar is shorter than the content below the header's offset
abbrev pub fits : Config → Measures → Sizes → Bool
fits c m z =
    ltb (m.header_inner + c.sidebar_offset + (m.sidebar_height + get_sidebarb2t_height c z))
      m.content_height

above_header : (a b : ℕ) → a + b - b ≡ a
above_header a b = omega arith

-- Where the sidebar is shorter than the content below the header's offset, it is affixed from the
-- height of the header, with the listeners of one affix on the window; else it is not affixed.
-- When the page becomes wide the position is the one that a page loaded with those measures has,
-- whatever was there.
pub recalculate-init_affix :
    (c : Config) (m : Measures) (z : Sizes) (s : Pisces)
    → (on_media_query c true m z s ≡ init_affix c m z loaded)
      × (init_affix c m z loaded ≡ record {
        affixed =
            if fits c m z
            then some (record { top = m.header_inner; bottom = get_footer_offset m })
            else none;
        listeners = if fits c m z then 1 else 0;
        margin_top = m.header_inner + c.sidebar_offset;
        margin_left_initial = true;
      })
unfolding on_media_query recalculate_affix_position init_affix get_header_offset remove_affix affix
    set_sidebar_margin_top
recalculate-init_affix c m z s = elim (Bool-cases (fits c m z)) [
  | inl h ↦ (rw h refl, rw (h, above_header m.header_inner c.sidebar_offset) refl)
  | inr h ↦ (rw h refl, rw h refl)
]
