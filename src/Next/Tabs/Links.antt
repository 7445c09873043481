-- ===== src/Next/Tabs/Links.antt =====
-- utils.js: the tabs of a group and the panes that they link to.
use cortono.Prelude.{
  Text, List, [], ◌∷◌, ℕ, zero, suc, ◌+◌, ◌≤◌, ◌≡◌, refl, ap, sym, ◌∙◌, Bool, true, false, some,
  if◌then◌else◌, text_eq, text_eq_refl, text_eq→eq, get_elem?, Bool-cases, inl, inr, arith,
}
use cortono.Next.Tabs.{
  Tab, Pane, matches, set_tabs, has_pane, deactivate_panes, set_first, deactivate_tabs, only,
}

-- Each tab links to the pane at its place, and no later tab has its address.
abbrev pub Linked : List Tab → List Pane → Type 0
Linked [] [] = Unit
Linked [] (_ ∷ _) = ⊥
Linked (_ ∷ _) [] = ⊥
Linked (t ∷ ts) (p ∷ ps) = (t.href ≡ b'#' ∷ p.id) × (matches t.href ts ≡ 0) × Linked ts ps

-- The same, and a tab is active exactly if its pane is.
abbrev pub Synced : List Tab → List Pane → Type 0
Synced [] [] = Unit
Synced [] (_ ∷ _) = ⊥
Synced (_ ∷ _) [] = ⊥
Synced (t ∷ ts) (p ∷ ps) =
    (t.href ≡ b'#' ∷ p.id) × (matches t.href ts ≡ 0) × (t.tab_active ≡ p.pane_active) × Synced ts ps

pub Synced-Linked : (ts : List Tab) (ps : List Pane) → Synced ts ps → Linked ts ps
Synced-Linked [] [] v = tt
Synced-Linked [] (p ∷ ps) v = absurd v
Synced-Linked (t ∷ ts) [] v = absurd v
Synced-Linked (t ∷ ts) (p ∷ ps) (e, m, a, v) = (e, m, Synced-Linked ts ps v)

matches-set_tabs :
    (k : Text) (b : Bool) (h : Text) (ts : List Tab) → matches k (set_tabs b h ts) ≡ matches k ts
unfolding matches set_tabs
matches-set_tabs k b h [] = refl
matches-set_tabs k b h (t ∷ ts) =
    ap ((if text_eq t.href k then 1 else 0) +◌) (matches-set_tabs k b h ts)

matches-deactivate_tabs : (k : Text) (ts : List Tab) → matches k (deactivate_tabs ts) ≡ matches k ts
unfolding matches deactivate_tabs
matches-deactivate_tabs k [] = refl
matches-deactivate_tabs k (t ∷ ts) =
    ap ((if text_eq t.href k then 1 else 0) +◌) (matches-deactivate_tabs k ts)

matches-only : (k : Text) (i : ℕ) (ts : List Tab) → matches k (only i ts) ≡ matches k ts
unfolding matches only
matches-only k i [] = refl
matches-only k zero (t ∷ ts) =
    ap ((if text_eq t.href k then 1 else 0) +◌) (matches-deactivate_tabs k ts)
matches-only k (suc i) (t ∷ ts) = ap ((if text_eq t.href k then 1 else 0) +◌) (matches-only k i ts)

-- how the first tab counts
matches-same :
    (h : Text) (t : Tab) (ts : List Tab)
    → text_eq t.href h ≡ true
    → matches h (t ∷ ts) ≡ 1 + matches h ts
unfolding matches
matches-same h t ts e = rw e refl

matches-other :
    (h : Text) (t : Tab) (ts : List Tab)
    → text_eq t.href h ≡ false
    → matches h (t ∷ ts) ≡ matches h ts
unfolding matches
matches-other h t ts e = rw e (omega arith)

pub matches-get_elem? :
    (ts : List Tab) (i : ℕ) (tab : Tab) → get_elem? ts i ≡ some tab → 1 ≤ matches tab.href ts
matches-get_elem? [] i tab h = absurd cc
matches-get_elem? (t ∷ ts) zero tab h =
    let e : t ≡ tab = cc in omega (arith, matches-same tab.href t ts (rw e (text_eq_refl tab.href)))
matches-get_elem? (t ∷ ts) (suc i) tab h = elim (Bool-cases (text_eq t.href tab.href)) [
  | inl same ↦ omega (arith, matches-same tab.href t ts same)
  | inr other ↦ omega (arith, matches-other tab.href t ts other, matches-get_elem? ts i tab h)
]

deactivate-Synced :
    (ts : List Tab) (ps : List Pane)
    → Linked ts ps
    → Synced (deactivate_tabs ts) (deactivate_panes ps)
unfolding deactivate_tabs deactivate_panes
deactivate-Synced [] [] v = tt
deactivate-Synced [] (p ∷ ps) v = absurd v
deactivate-Synced (t ∷ ts) [] v = absurd v
deactivate-Synced (t ∷ ts) (p ∷ ps) (e, m, v) =
    (e, matches-deactivate_tabs t.href ts ∙ m, refl, deactivate-Synced ts ps v)

-- a tab that is not the one looked for
other_tab :
    (ts : List Tab) (t tab : Tab) (i : ℕ)
    → matches t.href ts ≡ 0
    → get_elem? ts i ≡ some tab
    → text_eq t.href tab.href ≡ false
other_tab ts t tab i m h = elim (Bool-cases (text_eq t.href tab.href)) [
  | inl same ↦ absurd (
      omega (
        arith,
        matches-get_elem? ts i tab h,
        ap (λ (k : Text). matches k ts) (text_eq→eq t.href tab.href same),
        m,
      ))
  | inr other ↦ other
]

pub only-Synced :
    (i : ℕ) (ts : List Tab) (ps : List Pane) (tab : Tab)
    → Linked ts ps
    → get_elem? ts i ≡ some tab
    → Synced (only i ts) (set_first tab.href ps)
unfolding only set_first
only-Synced i [] [] tab v h = tt
only-Synced i [] (p ∷ ps) tab v h = absurd v
only-Synced zero (t ∷ ts) [] tab v h = absurd v
only-Synced (suc i) (t ∷ ts) [] tab v h = absurd v
only-Synced zero (t ∷ ts) (p ∷ ps) tab (e, m, v) h =
    let same : t ≡ tab = cc in
    let found : text_eq (b'#' ∷ p.id) tab.href ≡ true =
      rw (sym same) (rw e (text_eq_refl (b'#' ∷ p.id))) in
    rw found (e, matches-deactivate_tabs t.href ts ∙ m, refl, deactivate-Synced ts ps v)
only-Synced (suc i) (t ∷ ts) (p ∷ ps) tab (e, m, v) h =
    let other : text_eq (b'#' ∷ p.id) tab.href ≡ false = rw (sym e) (other_tab ts t tab i m h) in
    rw other (e, matches-only t.href i ts ∙ m, refl, only-Synced i ts ps tab v h)

-- a hash that no tab links to leaves nothing active
set_none-Synced :
    (h : Text) (ts : List Tab) (ps : List Pane)
    → Linked ts ps
    → matches h ts ≡ 0
    → Synced (set_tabs true h ts) (deactivate_panes ps)
unfolding set_tabs deactivate_panes
set_none-Synced h [] [] v z = tt
set_none-Synced h [] (p ∷ ps) v z = absurd v
set_none-Synced h (t ∷ ts) [] v z = absurd v
set_none-Synced h (t ∷ ts) (p ∷ ps) (e, m, v) z = elim (Bool-cases (text_eq t.href h)) [
  | inl same ↦ absurd (omega (arith, matches-same h t ts same, z))
  | inr other ↦ (
    e,
    matches-set_tabs t.href true h ts ∙ m,
    rw other refl,
    set_none-Synced h ts ps v (omega (arith, matches-other h t ts other, z)),
  )
]

pub set_first-Synced :
    (h : Text) (ts : List Tab) (ps : List Pane)
    → Linked ts ps
    → matches h ts ≡ 1
    → Synced (set_tabs true h ts) (set_first h ps)
unfolding set_tabs set_first
set_first-Synced h [] [] v z = tt
set_first-Synced h [] (p ∷ ps) v z = absurd v
set_first-Synced h (t ∷ ts) [] v z = absurd v
set_first-Synced h (t ∷ ts) (p ∷ ps) (e, m, v) z = elim (Bool-cases (text_eq t.href h)) [
  | inl same ↦
      let found : text_eq (b'#' ∷ p.id) h ≡ true = rw (sym e) same in
      rw found (
        e,
        matches-set_tabs t.href true h ts ∙ m,
        rw same refl,
        set_none-Synced h ts ps v (omega (arith, matches-same h t ts same, z)),
      )
  | inr other ↦
      let missed : text_eq (b'#' ∷ p.id) h ≡ false = rw (sym e) other in
      rw missed (
        e,
        matches-set_tabs t.href true h ts ∙ m,
        rw other refl,
        set_first-Synced h ts ps v (omega (arith, matches-other h t ts other, z)),
      )
]

-- the page has the pane of a hash exactly if a tab links to it, and then one tab does
pub has_pane-matches :
    (h : Text) (ts : List Tab) (ps : List Pane)
    → Linked ts ps
    → matches h ts ≡ (if has_pane h ps then 1 else 0)
unfolding has_pane
has_pane-matches h [] [] v = unfold matches in refl
has_pane-matches h [] (p ∷ ps) v = absurd v
has_pane-matches h (t ∷ ts) [] v = absurd v
has_pane-matches h (t ∷ ts) (p ∷ ps) (e, m, v) = elim (Bool-cases (text_eq t.href h)) [
  | inl same ↦
      let found : text_eq (b'#' ∷ p.id) h ≡ true = rw (sym e) same in
      rw found (
        omega (
          arith,
          matches-same h t ts same,
          ap (λ (k : Text). matches k ts) (text_eq→eq t.href h same),
          m,
        ))
  | inr other ↦
      let missed : text_eq (b'#' ∷ p.id) h ≡ false = rw (sym e) other in
      rw missed (matches-other h t ts other ∙ has_pane-matches h ts ps v)
]
