-- ===== src/Tests/Blog.antt =====
-- The blog's scripts for whole pages at concrete inputs.
use cortono.Prelude.{codes, List, [], ◌∷◌, ◌++◌, ℕ, ◌≡◌, refl, true, false, none, some, take}
use cortono.Prelude.Int.{pos, negsuc}
use cortono.Next.Page.{Config}
use cortono.Next.Device.{Device, has_mobile_ua, is_mobile, is_desktop}
use cortono.Next.Selector.{escape_selector, unescape, is_guarded, escape_selector_lem}
use cortono.Next.Geometry.{Heights, on_scroll, percent_of, number}
use cortono.Next.SidebarRoom.{
  Sizes, resize, init, session, update_sidebar_height, sidebar_wrapper_height, resize_timeout,
  timeout,
}
use cortono.Next.Motion.Integrator.{
  Elements, Integrator, MiddleWare, logo, menu, post_list, sidebar,
}
use cortono.Next.Motion.Integrator.Order.{play, play_in_order}
use cortono.Next.Motion.Sidebar.{Env, IsValid, session-IsValid}
use cortono.Next.Motion.Sidebar
use cortono.Next.Bootstrap.{SiteNav}
use cortono.Next.Pisces.{Pisces, Measures}

abbrev config : Config
config = record {
  scheme = codes "Pisces";
  sidebar_display = codes "post";
  sidebar_offset = 12;
  sidebar_b2t = true;
  motion_enable = true;
  motion_async = true;
  transition_post_block = codes "fadeIn";
  transition_post_header = codes "slideDownIn";
  transition_post_body = codes "slideDownIn";
  transition_coll_header = codes "slideLeftIn";
  transition_sidebar = codes "slideUpIn";
  fastclick = false;
  lazyload = false;
  fancybox = true;
  tabs = true;
}

abbrev phone : Device
phone = record { width = 375; user_agent = codes "Mozilla iPhone" }

phone_kind : (is_mobile phone ≡ true) × (is_desktop (record phone { width = 767 }) ≡ true)
unfolding is_desktop has_mobile_ua
phone_kind = (refl, refl)

escape_selector_lem_example :
    (is_guarded (escape_selector (codes "#1. a")) ≡ true)
    × (unescape (escape_selector (codes "#1. a")) ≡ codes "#1. a")
escape_selector_lem_example = escape_selector_lem (codes "#1. a")

abbrev heights : Heights
heights = record {
  content = 1500;
  window = 800;
  document = 1700;
  scroll_top = 250;
  page_y_offset = 250;
}

percent_shown :
    ((on_scroll heights).percent ≡ number (pos 36))
    × (percent_of 57 (pos 200) ≡ number (pos 28))
    × (percent_of 23 (pos 40) ≡ number (pos 57))
    × (percent_of 0 (pos 700) ≡ number (pos 0))
    × (percent_of 700 (pos 700) ≡ number (pos 100))
    × (percent_of 57 (negsuc 199) ≡ number (negsuc 27))
unfolding on_scroll percent_of
percent_shown = (refl, refl, refl, refl, refl, refl)

abbrev sizes : Sizes
sizes = record {
  nav_is_block = true;
  nav_outer_height = 41;
  inner_width = 240;
  width = 220;
  back_to_top_height = 24;
  site_overview_wrap = 300;
  post_toc_wrap = 900;
  body_client_height = 800;
  measure_offset_width = 100;
  measure_client_width = 85;
}

resize_timeout_example :
    (t : ℕ) × ((session config
        ((resize ∷ resize ∷ []) ++ resize ∷ [])
        (init config sizes)).timers.waiting
      ≡ t ∷ [])
    × ((session config
          ((resize ∷ resize ∷ []) ++ resize ∷ timeout t sizes ∷ [])
          (init config sizes)).max_height
        ≡ update_sidebar_height (sidebar_wrapper_height config sizes))
    × ((session config
          ((resize ∷ resize ∷ []) ++ resize ∷ timeout t sizes ∷ [])
          (init config sizes)).timers.waiting
        ≡ [])
resize_timeout_example = resize_timeout config sizes (resize ∷ resize ∷ []) sizes

abbrev elements : Elements
elements = record {
  brand = 1;
  title = 1;
  subtitle = 1;
  logo_line_top = 0;
  logo_line_bottom = 0;
  post_block = 3;
}

abbrev motions : List MiddleWare
motions = logo ∷ menu ∷ post_list ∷ sidebar ∷ []

play_in_order_example :
    (st : Integrator) × (play config elements motions (0 ∷ 1 ∷ 0 ∷ []) ≡ some st)
    × (st.ran ≡ take st.called motions)
play_in_order_example = play_in_order config elements motions (0 ∷ 1 ∷ 0 ∷ [])

abbrev env : Env
env = record { desktop = true; overview_block = false }

abbrev sidebar_events : List Sidebar.Event
sidebar_events = Sidebar.mouse_enter ∷ Sidebar.click ∷ Sidebar.begin ∷ Sidebar.click ∷ []

session-IsValid_example : IsValid env.desktop (Sidebar.session env sidebar_events Sidebar.initial)
session-IsValid_example = session-IsValid env sidebar_events

abbrev nav : SiteNav
nav = record { site_nav_on = false; sliding = none }

abbrev measures : Measures
measures = record {
  header_inner = 200;
  sidebar_height = 400;
  content_height = 1500;
  footer_with_margin = 70;
  footer_outer = 50;
}

abbrev affixed_before : Pisces
affixed_before = record {
  affixed = none;
  listeners = 3;
  margin_top = 7;
  margin_left_initial = true;
}
