-- ===== src/Next/PostDetails/Panels.antt =====
-- post-details.js: the tabs of the sidebar. A click on a tab starts an animation of the panel that is
-- left; the callbacks run when the animations end.
pub mod Keys
pub mod Classes
use cortono.Prelude.{
  Text, codes, List, [], ◌∷◌, ◌++◌, ℕ, ◌≡◌, refl, ap, ◌∙◌, Bool, true, false, ◌||◌, not, Option,
  none, some, text_eq, text_eq_refl, if◌then◌else◌, get_elem?, Bool-cases, inl, inr, arith, zero,
  suc, length, ◌<◌,
}

-- A tab: the class that its `data-target` names, and whether it has the class `sidebar-nav-active`.
pub record Item : Type 0 where
  pub target : Text
  pub nav_active : Bool

pub data Display : Type 0 where
  block : Display
  hidden : Display

-- A panel: its class, whether it has `sidebar-panel-active`, and its display.
pub record Panel : Type 0 where
  pub name : Text
  pub panel_active : Bool
  pub display : Display

-- A callback that waits for the end of an animation: the one that shows the target when the panels that
-- were left have slid out, or, without Velocity, when they have faded; and the one after the fading in.
-- The panels left are those that had the class at the click.
pub data Callback : Type 0 where
  slid_out : Text → Callback
  faded_out : List Text → Text → Callback
  faded_in : List Text → Text → Callback

pub record Sidebar : Type 0 where
  pub has_velocity : Bool
  pub items : List Item
  pub panels : List Panel
  pub callbacks : List Callback

-- `siblings().removeClass`
unfoldable pub deactivate : List Item → List Item
deactivate [] = []
deactivate (x ∷ xs) = record x { nav_active = false } ∷ deactivate xs

-- The tab at an index gets the class, the others lose it.
unfoldable pub activate : ℕ → List Item → List Item
unfolding deactivate
activate i [] = []
activate zero (x ∷ xs) = record x { nav_active = true } ∷ deactivate xs
activate (suc i) (x ∷ xs) = record x { nav_active = false } ∷ activate i xs

-- the names of the panels that have the class
unfoldable pub current_target : List Panel → List Text
current_target [] = []
current_target (p ∷ ps) =
    let rest = current_target ps in if p.panel_active then p.name ∷ rest else rest

unfoldable pub is_named : Text → List Text → Bool
is_named t [] = false
is_named t (x ∷ xs) = text_eq x t || is_named t xs

unfoldable pub add_class : Text → List Panel → List Panel
add_class t [] = []
add_class t (p ∷ ps) =
    (if text_eq p.name t then record p { panel_active = true } else p) ∷ add_class t ps

unfoldable pub remove_class : List Text → List Panel → List Panel
unfolding is_named
remove_class ts [] = []
remove_class ts (p ∷ ps) =
    (if is_named p.name ts then record p { panel_active = false } else p) ∷ remove_class ts ps

unfoldable pub set_display : Display → List Text → List Panel → List Panel
unfolding is_named
set_display d ts [] = []
set_display d ts (p ∷ ps) =
    (if is_named p.name ts then record p { display = d } else p) ∷ set_display d ts ps

-- The animation of the panels that are left. An animation of no elements calls nothing.
abbrev pub animate : Bool → Text → List Text → List Callback
animate velocity target [] = []
animate velocity target (t ∷ ts) =
    (if velocity then slid_out target else faded_out (t ∷ ts) target) ∷ []

-- the animation that a click on a tab with a target starts
unfoldable pub animation : Text → Sidebar → List Callback
unfolding current_target
animation target s = animate s.has_velocity target (current_target s.panels)

-- A click on the tab at an index; nothing happens on the tab that is active.
unfoldable pub click : ℕ → Sidebar → Sidebar
unfolding activate animation
click i s = clicked (get_elem? s.items i)
  where
    clicked : Option Item → Sidebar
    clicked none = s
    clicked (some item) = if item.nav_active then s else record s {
      items = activate i s.items;
      callbacks = s.callbacks ++ animation item.target s;
    }

-- whether a panel has the class that a tab names
unfoldable pub has_panel : Text → List Panel → Bool
has_panel t [] = false
has_panel t (p ∷ ps) = text_eq p.name t || has_panel t ps

-- What a callback does. The transitions of Velocity set the display themselves, `slideUpOut` that of the
-- panels left and `slideDownIn` that of the target.
unfoldable pub call : Callback → Sidebar → Sidebar
unfolding add_class remove_class set_display has_panel
call (slid_out target) s = record s { panels = add_class target s.panels }
call (faded_out current target) s = record s {
  panels = set_display block (target ∷ []) (set_display hidden current s.panels);
  callbacks =
      s.callbacks ++ (if has_panel target s.panels then faded_in current target ∷ [] else []);
}
call (faded_in current target) s = record s {
  panels = add_class target (remove_class current s.panels);
}

-- the first animation that was started ends
unfoldable pub finish : Sidebar → Sidebar
unfolding call
finish s = next s.callbacks
  where
    next : List Callback → Sidebar
    next [] = s
    next (c ∷ cs) = call c (record s { callbacks = cs })
