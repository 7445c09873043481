-- ===== src/Next/PostDetails/Panels/Classes.antt =====
-- post-details.js: which tabs and panels of the sidebar have their classes after a click and its
-- animations.
use cortono.Prelude.{
  Text, List, [], ◌∷◌, ℕ, zero, suc, ◌≡◌, refl, ap, sym, ◌∙◌, Bool, true, false, ◌||◌, not, some,
  get_elem?, Bool-cases, inl, inr, if◌then◌else◌, arith,
}
use cortono.Next.PostDetails.Panels.{
  Panel, Item, Sidebar, Callback, block, hidden, set_display, activate, animate, deactivate,
  animation, click, call, finish, current_target, has_panel,
}
use cortono.Next.PostDetails.Panels.Keys.{
  actives, named_or, named_or-absent, actives-set_display, actives-slid, actives-faded,
}

-- which tabs have the class
abbrev pub nav_actives : List Item → List Bool
nav_actives [] = []
nav_actives (x ∷ xs) = x.nav_active ∷ nav_actives xs

abbrev nowhere : List Item → List Bool
nowhere [] = []
nowhere (x ∷ xs) = false ∷ nowhere xs

-- true at an index, and false elsewhere
abbrev pub only_at : ℕ → List Item → List Bool
only_at i [] = []
only_at zero (x ∷ xs) = true ∷ nowhere xs
only_at (suc i) (x ∷ xs) = false ∷ only_at i xs

nav_actives-deactivate : (xs : List Item) → nav_actives (deactivate xs) ≡ nowhere xs
unfolding deactivate
nav_actives-deactivate [] = refl
nav_actives-deactivate (x ∷ xs) = ap (false ∷◌) (nav_actives-deactivate xs)

nav_actives-activate : (i : ℕ) (xs : List Item) → nav_actives (activate i xs) ≡ only_at i xs
unfolding activate
nav_actives-activate i [] = refl
nav_actives-activate zero (x ∷ xs) = ap (true ∷◌) (nav_actives-deactivate xs)
nav_actives-activate (suc i) (x ∷ xs) = ap (false ∷◌) (nav_actives-activate i xs)

-- a click on a tab that is not active, with no animation running
clicked :
    (i : ℕ) (s : Sidebar) (item : Item)
    → get_elem? s.items i ≡ some item
    → item.nav_active ≡ false
    → s.callbacks ≡ []
    → click i s ≡ record s { items = activate i s.items; callbacks = animation item.target s }
unfolding click
clicked i s item found idle ready = rw (found, idle, ready) refl

clicked_active :
    (i : ℕ) (s : Sidebar) (item : Item)
    → get_elem? s.items i ≡ some item
    → item.nav_active ≡ true
    → click i s ≡ s
unfolding click
clicked_active i s item found active = rw (found, active) refl

finish_idle : (s : Sidebar) → s.callbacks ≡ [] → finish s ≡ s
unfolding finish
finish_idle s ready = rw ready refl

-- whether a panel has the class
abbrev pub is_shown : List Bool → Bool
is_shown [] = false
is_shown (b ∷ bs) = b || is_shown bs

-- Which panels have the class when the animations of a click have ended. Where none has it at the
-- click, nothing moves. Else the named ones have it, with those that had it where Velocity moves them
-- or no panel is named.
abbrev pub after_click : Bool → Text → List Panel → List Bool
after_click velocity target ps =
    if is_shown (actives ps)
    then named_or (velocity || not (has_panel target ps)) target ps
    else actives ps

is_shown-current_target : (ps : List Panel) → is_shown (actives ps) ≡ false → current_target ps ≡ []
unfolding current_target
is_shown-current_target [] h = refl
is_shown-current_target (p ∷ ps) h = elim (Bool-cases p.panel_active) [
  | inl active ↦ absurd (grind (arith, active, h))
  | inr other ↦ rw other (is_shown-current_target ps (grind (arith, other, h)))
]

current_target-some :
    (ps : List Panel)
    → is_shown (actives ps) ≡ true
    → (t : Text) × (ts : List Text) × (current_target ps ≡ t ∷ ts)
unfolding current_target
current_target-some [] h = absurd (grind (arith, h))
current_target-some (p ∷ ps) h = elim (Bool-cases p.panel_active) [
  | inl active ↦ (p.name, current_target ps, rw active refl)
  | inr other ↦
      let (t, ts, e) = current_target-some ps (grind (arith, other, h)) in (t, ts, rw other e)
]

-- the panels after the two animations of a click
ended : Sidebar → List Item → Text → List Callback → List Bool
ended s items target cs =
    actives (finish (finish (record s { items = items; callbacks = cs }))).panels

-- What the callbacks leave where a panel had the class.
ended-animate :
    (s : Sidebar) (items : List Item) (target t : Text) (ts : List Text)
    → current_target s.panels ≡ t ∷ ts
    → ended s items target (animate s.has_velocity target (t ∷ ts))
      ≡ named_or (s.has_velocity || not (has_panel target s.panels)) target s.panels
unfolding ended finish call
ended-animate s items target t ts e = elim (Bool-cases s.has_velocity) [
  | inl velocity ↦ rw velocity (actives-slid target s.panels)
  | inr slow ↦ elim (Bool-cases (has_panel target s.panels)) [
    | inl there ↦ rw (slow, there, ← e) (actives-faded target s.panels)
    | inr absent ↦
        rw (slow, absent)
          (actives-set_display block (target ∷ []) (set_display hidden (t ∷ ts) s.panels)
            ∙ actives-set_display hidden (t ∷ ts) s.panels
            ∙ sym (named_or-absent target s.panels absent))
  ]
]

finished :
    (s : Sidebar) (items : List Item) (target : Text)
    → ended s items target (animation target s) ≡ after_click s.has_velocity target s.panels
unfolding animation
finished s items target = elim (Bool-cases (is_shown (actives s.panels))) [
  | inl shown ↦
      let (t, ts, e) = current_target-some s.panels shown in
      rw (shown, e) (ended-animate s items target t ts e)
  | inr none_shown ↦
      rw (none_shown, is_shown-current_target s.panels none_shown)
        (unfold ended in unfold finish in refl)
]

-- A click on the active tab changes nothing. A click on another tab, while no animation runs,
-- makes it the only active one. When its animations have ended: where no panel had the class, none
-- has it; else the panels that it names are the only ones with the class, except that those that
-- had it keep it where Velocity moves them or no panel is named.
pub click-finish :
    (i : ℕ) (s : Sidebar) (item : Item)
    → get_elem? s.items i ≡ some item
    → s.callbacks ≡ []
    → (nav_actives (click i s).items
        ≡ (if item.nav_active then nav_actives s.items else only_at i s.items))
      × (actives (finish (finish (click i s))).panels ≡ (
          if item.nav_active
          then actives s.panels
          else after_click s.has_velocity item.target s.panels))
unfolding ended
click-finish i s item found ready = elim (Bool-cases item.nav_active) [
  | inl active ↦
      rw (active, clicked_active i s item found active, finish_idle s ready, finish_idle s ready)
        (refl, refl)
  | inr other ↦
      rw (other, clicked i s item found other ready)
        (nav_actives-activate i s.items, finished s (activate i s.items) item.target)
]
