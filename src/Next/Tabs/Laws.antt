-- ===== src/Next/Tabs/Laws.antt =====
-- utils.js: how many tabs and panes of a group are active.
use cortono.Prelude.{
  Text, List, [], ◌∷◌, ℕ, zero, suc, ◌+◌, ◌≤◌, ◌≡◌, refl, ap, sym, Bool, true, false, some,
  if◌then◌else◌, if_elim, ◌==◌, ==_iff, text_eq, get_elem?, set, All, Bool-cases, Option-cases, inl,
  inr, arith,
}
use cortono.Next.Tabs.{
  Tab, Pane, Group, Page, matches, set_tabs, activate_tabs, activate_in_groups, has_pane,
  deactivate_panes, set_first, activate_pane, on_hashchange, deactivate_tabs, only, click_tab,
  on_click, Event, hashchange, click, handle, session,
}

abbrev pub tabs_on : List Tab → ℕ
tabs_on [] = 0
tabs_on (t ∷ ts) = (if t.tab_active then 1 else 0) + tabs_on ts

abbrev pub panes_on : List Pane → ℕ
panes_on [] = 0
panes_on (p ∷ ps) = (if p.pane_active then 1 else 0) + panes_on ps

-- At most one tab and at most one pane of a group are active.
abbrev pub IsSingle : Group → Type 0
IsSingle g = (tabs_on g.tabs ≤ 1) × (panes_on g.panes ≤ 1)

tabs_on-set_tabs : (h : Text) (ts : List Tab) → tabs_on (set_tabs true h ts) ≡ matches h ts
unfolding set_tabs matches
tabs_on-set_tabs h [] = refl
tabs_on-set_tabs h (t ∷ ts) = elim (Bool-cases (text_eq t.href h)) [
  | inl same ↦ rw same (ap (1 +◌) (tabs_on-set_tabs h ts))
  | inr other ↦ rw other (ap (0 +◌) (tabs_on-set_tabs h ts))
]

tabs_on-set_tabs_none : (h : Text) (ts : List Tab) → tabs_on (set_tabs false h ts) ≡ 0
unfolding set_tabs
tabs_on-set_tabs_none h [] = refl
tabs_on-set_tabs_none h (t ∷ ts) = elim (Bool-cases (text_eq t.href h)) [
  | inl same ↦ rw same (ap (0 +◌) (tabs_on-set_tabs_none h ts))
  | inr other ↦ rw other (ap (0 +◌) (tabs_on-set_tabs_none h ts))
]

tabs_on-activate_tabs :
    (h : Text) (ts : List Tab) → tabs_on ts ≤ 1 → tabs_on (activate_tabs h ts) ≤ 1
unfolding activate_tabs
tabs_on-activate_tabs h ts v =
    if_elim (λ (x : List Tab). tabs_on x ≤ 1) (matches h ts == 0) (λ _. v)
      (λ _. elim (Bool-cases (matches h ts == 1)) [
        | inl one ↦ rw (one, tabs_on-set_tabs h ts) (omega (arith, (==_iff (matches h ts) 1).0 one))
        | inr more ↦ rw (more, tabs_on-set_tabs_none h ts) (omega arith)
      ])

panes_on-deactivate_panes : (ps : List Pane) → panes_on (deactivate_panes ps) ≡ 0
unfolding deactivate_panes
panes_on-deactivate_panes [] = refl
panes_on-deactivate_panes (p ∷ ps) = ap (0 +◌) (panes_on-deactivate_panes ps)

panes_on-set_first : (h : Text) (ps : List Pane) → panes_on (set_first h ps) ≤ 1
unfolding set_first
panes_on-set_first h [] = omega arith
panes_on-set_first h (p ∷ ps) = elim (Bool-cases (text_eq (b'#' ∷ p.id) h)) [
  | inl found ↦ rw (found, panes_on-deactivate_panes ps) (omega arith)
  | inr other ↦ rw other (omega (arith, panes_on-set_first h ps))
]

tabs_on-deactivate_tabs : (ts : List Tab) → tabs_on (deactivate_tabs ts) ≡ 0
unfolding deactivate_tabs
tabs_on-deactivate_tabs [] = refl
tabs_on-deactivate_tabs (t ∷ ts) = ap (0 +◌) (tabs_on-deactivate_tabs ts)

tabs_on-only : (i : ℕ) (ts : List Tab) → tabs_on (only i ts) ≤ 1
unfolding only
tabs_on-only i [] = omega arith
tabs_on-only zero (t ∷ ts) = rw (tabs_on-deactivate_tabs ts) (omega arith)
tabs_on-only (suc i) (t ∷ ts) = omega (arith, tabs_on-only i ts)

activate_in_groups-IsSingle :
    (h : Text) (gs : List Group) → All IsSingle gs → All IsSingle (activate_in_groups h gs)
unfolding activate_in_groups
activate_in_groups-IsSingle h [] v = tt
activate_in_groups-IsSingle h (g ∷ gs) ((tabs_ok, panes_ok), v) =
    ((tabs_on-activate_tabs h g.tabs tabs_ok, panes_ok), activate_in_groups-IsSingle h gs v)

activate_pane-IsSingle :
    (h : Text) (gs : List Group) → All IsSingle gs → All IsSingle (activate_pane h gs)
unfolding activate_pane
activate_pane-IsSingle h [] v = tt
activate_pane-IsSingle h (g ∷ gs) ((tabs_ok, panes_ok), v) =
    if_elim (All IsSingle) (has_pane h g.panes) (λ _. ((tabs_ok, panes_on-set_first h g.panes), v))
      (λ _. ((tabs_ok, panes_ok), activate_pane-IsSingle h gs v))

set-IsSingle :
    (gs : List Group) (i : ℕ) (g : Group) → All IsSingle gs → IsSingle g → All IsSingle (set gs i g)
set-IsSingle [] i g v w = tt
set-IsSingle (x ∷ gs) zero g (_, v) w = (w, v)
set-IsSingle (x ∷ gs) (suc i) g (u, v) w = (u, set-IsSingle gs i g v w)

get_elem?-IsSingle :
    (gs : List Group) (i : ℕ) (g : Group) → All IsSingle gs → get_elem? gs i ≡ some g → IsSingle g
get_elem?-IsSingle [] i g v h = absurd cc
get_elem?-IsSingle (x ∷ gs) zero g (u, v) h = let e : x ≡ g = cc in rw (sym e) u
get_elem?-IsSingle (x ∷ gs) (suc i) g (u, v) h = get_elem?-IsSingle gs i g v h

click_tab-IsSingle :
    (h : Text) (b : Bool) (gs : List Group) (p : Page)
    → All IsSingle gs
    → All IsSingle p.groups
    → All IsSingle (click_tab h b gs p).groups
unfolding click_tab
click_tab-IsSingle h b gs p v w =
    if_elim (λ (q : Page). All IsSingle q.groups) b (λ _. w) (λ _. activate_pane-IsSingle h gs v)

on_click-IsSingle :
    (g i : ℕ) (p : Page) → All IsSingle p.groups → All IsSingle (on_click g i p).groups
unfolding on_click
on_click-IsSingle g i p v = elim (Option-cases (get_elem? p.groups g)) [
  | inl nothing ↦ rw (nothing, on_click) v
  | inr (grp, found) ↦ elim (Option-cases (get_elem? grp.tabs i)) [
    | inl nothing ↦ rw (found, nothing, on_click) v
    | inr (tab, at) ↦
        rw (found, at, on_click)
          (click_tab-IsSingle tab.href tab.tab_active _ p
            (set-IsSingle p.groups g (record grp { tabs = only i grp.tabs }) v
              (tabs_on-only i grp.tabs, (get_elem?-IsSingle p.groups g grp v found).1))
            v)
  ]
]

handle-IsSingle : (e : Event) (p : Page) → All IsSingle p.groups → All IsSingle (handle e p).groups
unfolding handle on_hashchange
handle-IsSingle (hashchange h) p v =
    if_elim (λ (q : Page). All IsSingle q.groups) (text_eq h []) (λ _. v)
      (λ _.
        activate_pane-IsSingle h (activate_in_groups h p.groups)
          (activate_in_groups-IsSingle h p.groups v))
handle-IsSingle (click g i) p v = on_click-IsSingle g i p v

-- However the tabs are clicked and the hash changes: where at most one tab and at most one pane of
-- each group were active at first, this stays so.
pub session-IsSingle :
    (es : List Event) (p : Page) → All IsSingle p.groups → All IsSingle (session es p).groups
unfolding session
session-IsSingle [] p v = v
session-IsSingle (e ∷ es) p v = session-IsSingle es (handle e p) (handle-IsSingle e p v)
