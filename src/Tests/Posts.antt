-- ===== src/Tests/Posts.antt =====
-- The blog's scripts for posts, the search and the reader's position at concrete inputs.
use cortono.Prelude.{
  Text, codes, List, [], ◌∷◌, ◌≡◌, refl, Bool, true, false, Option, none, some, if◌then◌else◌,
  decimal,
}
use cortono.Prelude.Int.{pos}
use cortono.Next.Page.{Config}
use cortono.Next.Device.{Device}
use cortono.Next.Debounce.{idle, is_waiting}
use cortono.Next.ScrollCookie
use cortono.Next.ScrollCookie.{Jar, Page, restore}
use cortono.Next.PostDetails.Toc.{Toc, Element}
use cortono.Next.PostDetails.Panels.{Item, Sidebar, block, hidden, click, finish}
use cortono.Next.PostDetails.Panels.Keys.{actives}
use cortono.Next.PostDetails.Panels.Classes.{nav_actives, only_at, after_click, click-finish}
use cortono.Next.PostDetails.Opening.{Post}
use cortono.Next.Popup
use cortono.Next.Popup.{
  Popup, IsCovered, session, handle, loaded, keyup, close, trigger, session_lem,
}
use cortono.Next.Video.{Frame}
use cortono.Prelude.Replace.{replace_all}
use cortono.Next.Base64.{encode, on_exturl_click}
use cortono.Next.Base64.RoundTrip.{on_exturl_click-encode}
use cortono.Next.Tabs
use cortono.Next.Tabs.Sync.{IsSynced, session-IsSynced}
use cortono.Next.Algolia.{AlgoliaSettings}

-- a browser with one cookie, whatever its path
abbrev jar : Jar (Option Text)
jar = record { set = λ at name v options j. some v; get = λ at name j. j }

abbrev page : Page (Option Text)
page = record { rpath = codes "/2017/a/"; timers = idle; cookies = none }

-- The position of the page is found again.
position :
    restore jar
      (codes "/2017/a/")
      (ScrollCookie.handle jar
        (ScrollCookie.timeout page.timers.next_timer 420)
        (ScrollCookie.handle jar ScrollCookie.scroll page)).cookies
    ≡ some (codes "420")
unfolding restore ScrollCookie.handle decimal is_waiting
position = refl

abbrev entry : Bool → Element
entry b = record { active = b; active_current = true; top = pos 30 }

abbrev toc : Toc
toc = record {
  elements = entry true ∷ entry true ∷ entry false ∷ [];
  toc_top = pos 10;
  toc_scroll_top = 0;
  toc_height = 101;
}

abbrev overview : Item
overview = record { target = codes "site-overview-wrap"; nav_active = false }

abbrev tabs : Sidebar
tabs = record {
  has_velocity = false;
  items = record { target = codes "post-toc-wrap"; nav_active = true } ∷ overview ∷ [];
  panels =
      record { name = codes "post-toc-wrap"; panel_active = true; display = block }
      ∷ record { name = codes "site-overview-wrap"; panel_active = false; display = hidden }
      ∷ [];
  callbacks = [];
}

click-finish_example :
    (nav_actives (click 1 tabs).items
      ≡ (if overview.nav_active then nav_actives tabs.items else only_at 1 tabs.items))
    × (actives (finish (finish (click 1 tabs))).panels ≡ (
        if overview.nav_active
        then actives tabs.panels
        else after_click tabs.has_velocity overview.target tabs.panels))
click-finish_example = click-finish 1 tabs overview refl refl

abbrev config : Config
config = record {
  scheme = codes "Muse";
  sidebar_display = codes "post";
  sidebar_offset = 12;
  sidebar_b2t = false;
  motion_enable = false;
  motion_async = false;
  transition_post_block = codes "fadeIn";
  transition_post_header = codes "slideDownIn";
  transition_post_body = codes "slideDownIn";
  transition_coll_header = codes "slideLeftIn";
  transition_sidebar = codes "slideUpIn";
  fastclick = false;
  lazyload = false;
  fancybox = true;
  tabs = true;
}

abbrev screen : Device
screen = record { width = 1920; user_agent = codes "Mozilla" }

abbrev post : Post
post = record { page_sidebar = none; toc_content = some (codes "<ol></ol>") }

abbrev links : List Text
links = codes "/archives" ∷ codes "/about" ∷ []

abbrev popup_events : List Popup.Event
popup_events = trigger ∷ trigger ∷ keyup 27 ∷ []

session_lem_example :
    IsCovered (session popup_events loaded)
    × (handle close (session popup_events loaded) ≡ loaded)
    × (handle (keyup 27) (session popup_events loaded)
        ≡ (if (session popup_events loaded).visible then loaded else session popup_events loaded))
session_lem_example = session_lem popup_events

abbrev frame : Frame
frame = record {
  src = codes "https://music.163.com/outchain";
  old_dimension = record { width = 330; height = 86 };
  new_dimension = record { width = 700; height = 86 };
}

abbrev settings : AlgoliaSettings
settings = record {
  application_id = codes "app";
  api_key = codes "key";
  index_name = codes "index";
  per_page = 0;
  input_placeholder = codes "Search";
  hits_empty = codes "No posts for ${query}.";
  hits_stats = codes "${hits} results in ${time} ms";
  root = codes "/";
}

on_exturl_click-encode_example :
    (on_exturl_click (encode (codes "http://learn.io/前"))).url
    ≡ replace_all (codes "rn") (codes "n") (codes "http://learn.io/前")
on_exturl_click-encode_example = on_exturl_click-encode (codes "http://learn.io/前") refl

abbrev tab_page : Tabs.Page
tab_page = record {
  groups =
      record {
        tabs =
            record { href = codes "#a"; tab_active = true }
            ∷ record { href = codes "#b"; tab_active = false }
            ∷ [];
        panes =
            record { id = codes "a"; pane_active = true }
            ∷ record { id = codes "b"; pane_active = false }
            ∷ [];
      }
      ∷ [];
  hash = codes "#a";
}

abbrev tab_events : List Tabs.Event
tab_events = Tabs.click 0 1 ∷ Tabs.hashchange (codes "#a") ∷ []

session-IsSynced_example : IsSynced (Tabs.session tab_events tab_page)
unfolding Tabs.matches
session-IsSynced_example =
    session-IsSynced tab_events tab_page (_, refl, (refl, refl, refl, (refl, refl, refl, tt)))
