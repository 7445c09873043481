-- ===== src/Next/Tabs/Sync.antt =====
-- utils.js: the pane that is shown is the one of the active tab, on a page with one group of tabs.
use cortono.Prelude.{
  Text, List, [], ◌∷◌, ℕ, zero, suc, ◌≡◌, refl, ap, ◌∙◌, Bool, false, none, some, if◌then◌else◌,
  if_elim, text_eq, get_elem?, set, Bool-cases, Option-cases, inl, inr, arith,
}
use cortono.Next.Tabs.{
  Tab, Group, Page, matches, activate_tabs, activate_in_groups, has_pane, activate_pane,
  on_hashchange, only, click_tab, on_click, Event, hashchange, click, handle, session,
}
use cortono.Next.Tabs.Links.{
  Synced, Synced-Linked, matches-get_elem?, only-Synced, set_first-Synced, has_pane-matches,
}

no_pane : (b : Bool) → b ≡ false → ◌≡◌ {A = ℕ} (if b then 1 else 0) 0
no_pane b h = rw h refl

-- A page with one group of tabs, whose tabs link to its panes in their order, to each one once, and a tab
-- is active exactly if its pane is.
abbrev pub IsSynced : Page → Type 0
IsSynced p = (g : Group) × (p.groups ≡ g ∷ []) × Synced g.tabs g.panes

hashchange-IsSynced :
    (h : Text) (g : Group)
    → Synced g.tabs g.panes
    → (g' : Group) × (activate_pane h (activate_in_groups h (g ∷ [])) ≡ g' ∷ [])
      × Synced g'.tabs g'.panes
unfolding activate_pane activate_in_groups activate_tabs
hashchange-IsSynced h g v =
    let linked = Synced-Linked g.tabs g.panes v in
    let counted = has_pane-matches h g.tabs g.panes linked in
    elim (Bool-cases (has_pane h g.panes)) [
      | inl found ↦
          let one : matches h g.tabs ≡ 1 = counted ∙ rw found refl in
          (_, rw (found, one) refl, set_first-Synced h g.tabs g.panes linked one)
      | inr missed ↦
          let zero_tabs : matches h g.tabs ≡ 0 = counted ∙ rw missed refl in
          (_, rw (missed, zero_tabs) refl, v)
    ]

click-IsSynced :
    (gs : List Group) (g : Group) (i : ℕ) (tab : Tab) (p : Page)
    → p.groups ≡ g ∷ []
    → Synced g.tabs g.panes
    → get_elem? g.tabs i ≡ some tab
    → gs ≡ record g { tabs = only i g.tabs } ∷ []
    → IsSynced (click_tab tab.href tab.tab_active gs p)
unfolding click_tab activate_pane
click-IsSynced gs g i tab p here v at e =
    let linked = Synced-Linked g.tabs g.panes v in
    let count = matches-get_elem? g.tabs i tab at in
    elim (Bool-cases tab.tab_active) [
      | inl active ↦ rw active (g, here, v)
      | inr other ↦ elim (Bool-cases (has_pane tab.href g.panes)) [
        | inl found ↦ rw (other, e, found) (_, refl, only-Synced i g.tabs g.panes tab linked at)
        | inr missed ↦ absurd (
            omega (
              arith,
              count,
              has_pane-matches tab.href g.tabs g.panes linked
                  ∙ no_pane (has_pane tab.href g.panes) missed,
            ))
      ]
    ]

on_click_missing : (g i : ℕ) (p : Page) → get_elem? p.groups g ≡ none → on_click g i p ≡ p
unfolding on_click
on_click_missing g i p h = rw (h, on_click) refl

on_click-IsSynced :
    (i : ℕ) (p : Page) (g : Group)
    → p.groups ≡ g ∷ []
    → Synced g.tabs g.panes
    → IsSynced (on_click zero i p)
unfolding on_click
on_click-IsSynced i p g here v =
    let first : get_elem? p.groups zero ≡ some g =
      ap (λ (gs : List Group). get_elem? gs zero) here in
    elim (Option-cases (get_elem? g.tabs i)) [
      | inl nothing ↦ rw (first, nothing, on_click) (g, here, v)
      | inr (tab, at) ↦
          rw (first, at, on_click)
            (click-IsSynced _ g i tab p here v at
              (ap (λ (gs : List Group). set gs zero (record g { tabs = only i g.tabs })) here))
    ]

handle-IsSynced : (e : Event) (p : Page) → IsSynced p → IsSynced (handle e p)
unfolding handle on_hashchange
handle-IsSynced (hashchange h) p (g, here, v) =
    if_elim IsSynced (text_eq h []) (λ _. (g, here, v))
      (λ _. let (g', e, w) = hashchange-IsSynced h g v in (g', rw here e, w))
handle-IsSynced (click zero i) p (g, here, v) = on_click-IsSynced i p g here v
handle-IsSynced (click (suc k) i) p (g, here, v) =
    rw (on_click_missing (suc k) i p (ap (λ (gs : List Group). get_elem? gs (suc k)) here))
      (g, here, v)

-- However the tabs are clicked and the hash changes on a page with one group of tabs, whose tabs
-- link to its panes in their order, to each one once: where a tab was active exactly if its pane
-- was, this stays so.
pub session-IsSynced : (es : List Event) (p : Page) → IsSynced p → IsSynced (session es p)
unfolding session
session-IsSynced [] p v = v
session-IsSynced (e ∷ es) p v = session-IsSynced es (handle e p) (handle-IsSynced e p v)
