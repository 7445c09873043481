-- ===== src/Next/Tabs.antt =====
-- utils.js: `registerTabsTag`. A page has groups of tabs; each tab links to the id of a pane. The ids
-- hold no symbol of the selectors' syntax.
pub mod Laws
pub mod Links
pub mod Sync
use cortono.Prelude.{
  Text, List, [], ◌∷◌, ℕ, zero, suc, ◌+◌, Bool, true, false, ◌&&◌, Option, none, some,
  if◌then◌else◌, ◌==◌, text_eq, get_elem?, set,
}

-- `li.tab` with the address of its link
pub record Tab : Type 0 where
  pub href : Text
  pub tab_active : Bool

pub record Pane : Type 0 where
  pub id : Text
  pub pane_active : Bool

-- an element `.tabs`, with the lists `.nav-tabs` and `.tab-content`
pub record Group : Type 0 where
  pub tabs : List Tab
  pub panes : List Pane

-- The page with `location.hash`, which is "" or begins with "#".
pub record Page : Type 0 where
  pub groups : List Group
  pub hash : Text

-- how many tabs of a group link to an address
unfoldable pub matches : Text → List Tab → ℕ
matches h [] = 0
matches h (t ∷ ts) = (if text_eq t.href h then 1 else 0) + matches h ts

-- each tab is active where it links to the address, if one may be
unfoldable pub set_tabs : Bool → Text → List Tab → List Tab
set_tabs b h [] = []
set_tabs b h (t ∷ ts) = record t { tab_active = text_eq t.href h && b } ∷ set_tabs b h ts

-- `$(…).addClass('active').siblings().removeClass('active')` for the tabs that link to an address: one
-- is active and its siblings are not; several are siblings of each other, and none is.
unfoldable pub activate_tabs : Text → List Tab → List Tab
unfolding matches set_tabs
activate_tabs h ts = if matches h ts == 0 then ts else set_tabs (matches h ts == 1) h ts

unfoldable pub activate_in_groups : Text → List Group → List Group
unfolding activate_tabs
activate_in_groups h [] = []
activate_in_groups h (g ∷ gs) = record g { tabs = activate_tabs h g.tabs } ∷ activate_in_groups h gs

unfoldable pub has_pane : Text → List Pane → Bool
has_pane h [] = false
has_pane h (p ∷ ps) = let later = has_pane h ps in if text_eq (b'#' ∷ p.id) h then true else later

unfoldable pub deactivate_panes : List Pane → List Pane
deactivate_panes [] = []
deactivate_panes (p ∷ ps) = record p { pane_active = false } ∷ deactivate_panes ps

-- the first pane with an id is active, and its siblings are not
unfoldable pub set_first : Text → List Pane → List Pane
unfolding deactivate_panes
set_first h [] = []
set_first h (p ∷ ps) =
    let rest = set_first h ps in
    if text_eq (b'#' ∷ p.id) h
    then record p { pane_active = true } ∷ deactivate_panes ps
    else record p { pane_active = false } ∷ rest

-- `$('#…')` finds the first element of the page with the id.
unfoldable pub activate_pane : Text → List Group → List Group
unfolding has_pane set_first
activate_pane h [] = []
activate_pane h (g ∷ gs) =
    let rest = activate_pane h gs in
    if has_pane h g.panes then record g { panes = set_first h g.panes } ∷ gs else g ∷ rest

-- the listener of `hashchange`, which also runs once at the start
unfoldable pub on_hashchange : Text → Page → Page
unfolding activate_in_groups activate_pane
on_hashchange h p =
    if text_eq h []
    then record p { hash = h }
    else record { groups = activate_pane h (activate_in_groups h p.groups); hash = h }

unfoldable pub deactivate_tabs : List Tab → List Tab
deactivate_tabs [] = []
deactivate_tabs (t ∷ ts) = record t { tab_active = false } ∷ deactivate_tabs ts

-- the tab at an index is active, and its siblings are not
unfoldable pub only : ℕ → List Tab → List Tab
unfolding deactivate_tabs
only i [] = []
only zero (t ∷ ts) = record t { tab_active = true } ∷ deactivate_tabs ts
only (suc i) (t ∷ ts) = record t { tab_active = false } ∷ only i ts

-- a click on a tab of a group
unfoldable pub click_tab : Text → Bool → List Group → Page → Page
unfolding activate_pane
click_tab href active groups p =
    if active then p else record { groups = activate_pane href groups; hash = [] }

unfoldable pub on_click : ℕ → ℕ → Page → Page
unfolding only click_tab
on_click g i p = elim (get_elem? p.groups g) [
  | none ↦ p
  | some grp ↦ elim (get_elem? grp.tabs i) [
    | none ↦ p
    | some tab ↦
        click_tab tab.href tab.tab_active (set p.groups g (record grp { tabs = only i grp.tabs })) p
  ]
]

pub data Event : Type 0 where
  hashchange : Text → Event
  click : ℕ → ℕ → Event

unfoldable pub handle : Event → Page → Page
unfolding on_hashchange on_click
handle (hashchange h) p = on_hashchange h p
handle (click g i) p = on_click g i p

unfoldable pub session : List Event → Page → Page
unfolding handle
session [] p = p
session (e ∷ es) p = session es (handle e p)
