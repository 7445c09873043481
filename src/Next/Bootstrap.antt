-- ===== src/Next/Bootstrap.antt =====
-- bootstrap.js: what is registered on a page when it is ready, and the toggle of the site's menu.
use Prim.Native.String.{String}
use cortono.Prelude.{
  List, [], ◌∷◌, ◌++◌, ℕ, zero, suc, ◌≡◌, refl, ap, ◌∙◌, Bool, true, false, not, ◌&&◌, Option, none,
  some, if◌then◌else◌,
}
use cortono.Next.Page.{Config}
use cortono.Next.Device.{Device, is_mobile}
use cortono.Next.Motion.Integrator.{MiddleWare, logo, menu, post_list, Integrator, initial, add}

-- The calls of the script, by the function that is called; `trigger` names the event on the document.
pub data Step : Type 0 where
  trigger : String → Step
  fast_click_attach : Step
  lazy_load_posts_images : Step
  register_esc_key_event : Step
  register_back_to_top : Step
  on_site_nav_toggle : Step
  wrap_image_with_fancy_box : Step
  register_tabs_tag : Step
  embedded_video_transformer : Step
  add_active_class_to_menu_item : Step
  integrator_add : MiddleWare → Step
  integrator_bootstrap : Step

abbrev when : Bool → Step → List Step
when b x = if b then x ∷ [] else []

-- The script. The sidebar's motion is the one that the page has then: `middleWares.sidebar`, which
-- post-details.js may have replaced.
unfoldable pub ready : Config → Device → MiddleWare → List Step
ready c d sidebar_now =
    trigger "bootstrap:before"
    ∷ (when (c.fastclick && is_mobile d) fast_click_attach
        ++ (when c.lazyload lazy_load_posts_images
            ++ register_esc_key_event
              ∷ register_back_to_top
              ∷ on_site_nav_toggle
              ∷ (when c.fancybox wrap_image_with_fancy_box
                  ++ (when c.tabs register_tabs_tag
                      ++ embedded_video_transformer
                        ∷ add_active_class_to_menu_item
                        ∷ integrator_add logo
                        ∷ integrator_add menu
                        ∷ integrator_add post_list
                        ∷ integrator_add sidebar_now
                        ∷ trigger "motion:before"
                        ∷ (when c.motion_enable integrator_bootstrap
                            ++ trigger "bootstrap:after" ∷ [])))))

-- the integrator's queue when its `bootstrap` is called, if it is
unfoldable pub queue_at_bootstrap : List Step → Integrator → Option (List MiddleWare)
unfolding add
queue_at_bootstrap [] st = none
queue_at_bootstrap (integrator_add m ∷ xs) st = queue_at_bootstrap xs (add m st)
queue_at_bootstrap (integrator_bootstrap ∷ xs) st = some st.queue
queue_at_bootstrap (trigger _ ∷ xs) st = queue_at_bootstrap xs st
queue_at_bootstrap (fast_click_attach ∷ xs) st = queue_at_bootstrap xs st
queue_at_bootstrap (lazy_load_posts_images ∷ xs) st = queue_at_bootstrap xs st
queue_at_bootstrap (register_esc_key_event ∷ xs) st = queue_at_bootstrap xs st
queue_at_bootstrap (register_back_to_top ∷ xs) st = queue_at_bootstrap xs st
queue_at_bootstrap (on_site_nav_toggle ∷ xs) st = queue_at_bootstrap xs st
queue_at_bootstrap (wrap_image_with_fancy_box ∷ xs) st = queue_at_bootstrap xs st
queue_at_bootstrap (register_tabs_tag ∷ xs) st = queue_at_bootstrap xs st
queue_at_bootstrap (embedded_video_transformer ∷ xs) st = queue_at_bootstrap xs st
queue_at_bootstrap (add_active_class_to_menu_item ∷ xs) st = queue_at_bootstrap xs st

-- a step that leaves the integrator alone, under a setting
queue-when :
    (b : Bool) (x : Step) (xs : List Step) (st : Integrator)
    → queue_at_bootstrap (x ∷ xs) st ≡ queue_at_bootstrap xs st
    → queue_at_bootstrap (when b x ++ xs) st ≡ queue_at_bootstrap xs st
queue-when true x xs st h = h
queue-when false x xs st h = refl

queue-motion :
    (b : Bool) (st : Integrator)
    → queue_at_bootstrap (when b integrator_bootstrap ++ trigger "bootstrap:after" ∷ []) st
      ≡ (if b then some st.queue else none)
unfolding queue_at_bootstrap
queue-motion true st = refl
queue-motion false st = refl

-- Whatever else is registered when a page is ready, the integrator is started exactly if motion is
-- enabled, and then with the motions of the logo, the menu, the posts and the sidebar, in this
-- order.
pub ready-queue :
    (c : Config) (d : Device) (m : MiddleWare)
    → queue_at_bootstrap (ready c d m) initial
      ≡ (if c.motion_enable then some (logo ∷ menu ∷ post_list ∷ m ∷ []) else none)
unfolding queue_at_bootstrap ready
ready-queue c d m =
    queue-when (c.fastclick && is_mobile d) fast_click_attach _ initial refl
    ∙ queue-when c.lazyload lazy_load_posts_images _ initial refl
    ∙ queue-when c.fancybox wrap_image_with_fancy_box _ initial refl
    ∙ queue-when c.tabs register_tabs_tag _ initial refl
    ∙ queue-motion c.motion_enable _

-- The menu of a narrow page: whether it has the class `site-nav-on`, and, while it slides, whether the
-- callback at the end adds the class or removes it.
pub record SiteNav : Type 0 where
  pub site_nav_on : Bool
  pub sliding : Option Bool

-- A click on the toggle. `stop` ends the slide that runs, whose callback is then not called.
unfoldable pub toggle : SiteNav → SiteNav
toggle s = record s { sliding = some (not s.site_nav_on) }

-- the slide that runs ends
unfoldable pub slid : SiteNav → SiteNav
slid s = called s.sliding
  where
    called : Option Bool → SiteNav
    called none = s
    called (some b) = record { site_nav_on = b; sliding = none }

abbrev pub clicks : ℕ → SiteNav → SiteNav
clicks zero s = s
clicks (suc n) s = clicks n (toggle s)

clicks-toggle : (n : ℕ) (s : SiteNav) → clicks n (toggle s) ≡ toggle s
unfolding toggle
clicks-toggle zero s = refl
clicks-toggle (suc n) s = clicks-toggle n s

-- However often the toggle of the site's menu is clicked before the menu has slid, at least once,
-- the menu is switched once, and no slide is left.
pub slid-clicks :
    (n : ℕ) (s : SiteNav)
    → slid (clicks (suc n) s) ≡ record { site_nav_on = not s.site_nav_on; sliding = none }
unfolding slid toggle
slid-clicks n s = ap slid (clicks-toggle n s)
