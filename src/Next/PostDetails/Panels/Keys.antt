-- ===== src/Next/PostDetails/Panels/Keys.antt =====
-- post-details.js: what the calls on classes do to the names and classes of the panels.
-- animations.
use cortono.Prelude.{
  Text, List, [], ◌∷◌, ◌≡◌, refl, ap, sym, ◌∙◌, Bool, true, false, ◌||◌, ◌&&◌, not, text_eq,
  text_eq_refl, Bool-cases, inl, inr, arith,
}
use cortono.Next.PostDetails.Panels.{
  Panel, Display, block, hidden, current_target, is_named, add_class, remove_class, set_display,
  has_panel,
}

-- what counts of a panel: its name and whether it has the class
keys : List Panel → List (Text × Bool)
keys [] = []
keys (p ∷ ps) = (p.name, p.panel_active) ∷ keys ps

abbrev add_keys : Text → List (Text × Bool) → List (Text × Bool)
add_keys t [] = []
add_keys t ((n, a) ∷ ks) = (n, text_eq n t || a) ∷ add_keys t ks

abbrev remove_keys : List Text → List (Text × Bool) → List (Text × Bool)
remove_keys ts [] = []
remove_keys ts ((n, a) ∷ ks) = (n, not (is_named n ts) && a) ∷ remove_keys ts ks

keys-add_class : (t : Text) (ps : List Panel) → keys (add_class t ps) ≡ add_keys t (keys ps)
unfolding keys add_class
keys-add_class t [] = refl
keys-add_class t (p ∷ ps) = elim (Bool-cases (text_eq p.name t)) [
  | inl same ↦ rw same (ap ((p.name, true) ∷◌) (keys-add_class t ps))
  | inr other ↦ rw other (ap ((p.name, p.panel_active) ∷◌) (keys-add_class t ps))
]

keys-remove_class :
    (ts : List Text) (ps : List Panel) → keys (remove_class ts ps) ≡ remove_keys ts (keys ps)
unfolding keys remove_class
keys-remove_class ts [] = refl
keys-remove_class ts (p ∷ ps) = elim (Bool-cases (is_named p.name ts)) [
  | inl named ↦ rw named (ap ((p.name, false) ∷◌) (keys-remove_class ts ps))
  | inr other ↦ rw other (ap ((p.name, p.panel_active) ∷◌) (keys-remove_class ts ps))
]

keys-set_display :
    (d : Display) (ts : List Text) (ps : List Panel) → keys (set_display d ts ps) ≡ keys ps
unfolding keys set_display
keys-set_display d ts [] = refl
keys-set_display d ts (p ∷ ps) = elim (Bool-cases (is_named p.name ts)) [
  | inl named ↦ rw named (ap ((p.name, p.panel_active) ∷◌) (keys-set_display d ts ps))
  | inr other ↦ rw other (ap ((p.name, p.panel_active) ∷◌) (keys-set_display d ts ps))
]

-- each panel that has the class is among the names
abbrev covers : List Text → List (Text × Bool) → Bool
covers ts [] = true
covers ts ((n, a) ∷ ks) = (not a || is_named n ts) && covers ts ks

covers-cons :
    (t : Text) (ts : List Text) (ks : List (Text × Bool))
    → covers ts ks ≡ true
    → covers (t ∷ ts) ks ≡ true
unfolding is_named
covers-cons t ts [] h = refl
covers-cons t ts ((n, a) ∷ ks) h = ground (arith, covers-cons t ts ks)

current_target-active :
    (p : Panel) (ps : List Panel)
    → p.panel_active ≡ true
    → current_target (p ∷ ps) ≡ p.name ∷ current_target ps
unfolding current_target
current_target-active p ps h = rw h refl

current_target-inactive :
    (p : Panel) (ps : List Panel)
    → p.panel_active ≡ false
    → current_target (p ∷ ps) ≡ current_target ps
unfolding current_target
current_target-inactive p ps h = rw h refl

is_named_self : (t : Text) (ts : List Text) → is_named t (t ∷ ts) ≡ true
unfolding is_named
is_named_self t ts = rw (text_eq_refl t) refl

covers-current_target : (ps : List Panel) → covers (current_target ps) (keys ps) ≡ true
unfolding keys
covers-current_target [] = refl
covers-current_target (p ∷ ps) = elim (Bool-cases p.panel_active) [
  | inl active ↦
      ap (λ (ts : List Text). covers ts (keys (p ∷ ps))) (current_target-active p ps active)
      ∙ rw (active, is_named_self p.name)
          (covers-cons p.name (current_target ps) (keys ps) (covers-current_target ps))
  | inr other ↦
      ap (λ (ts : List Text). covers ts (keys (p ∷ ps))) (current_target-inactive p ps other)
      ∙ rw other (covers-current_target ps)
]

-- the same panels, none with the class
abbrev none_active : List (Text × Bool) → List (Text × Bool)
none_active [] = []
none_active ((n, a) ∷ ks) = (n, false) ∷ none_active ks

covers-head :
    (n : Text) (a : Bool) (ts : List Text) (ks : List (Text × Bool))
    → covers ts ((n, a) ∷ ks) ≡ true
    → ((not (is_named n ts) && a) ≡ false) × (covers ts ks ≡ true)
covers-head n a ts ks h = ground arith

add_keys-remove_keys :
    (t : Text) (ts : List Text) (ks : List (Text × Bool))
    → covers ts ks ≡ true
    → add_keys t (remove_keys ts ks) ≡ add_keys t (none_active ks)
add_keys-remove_keys t ts [] h = refl
add_keys-remove_keys t ts ((n, a) ∷ ks) h =
    let (same, rest) = covers-head n a ts ks h in
    rw same (ap ((n, text_eq n t || false) ∷◌) (add_keys-remove_keys t ts ks rest))

-- which panels have the class
abbrev pub actives : List Panel → List Bool
actives [] = []
actives (p ∷ ps) = p.panel_active ∷ actives ps

-- which panels have a name, or, where it is asked for, had the class already
abbrev pub named_or : Bool → Text → List Panel → List Bool
named_or kept t [] = []
named_or kept t (p ∷ ps) = (text_eq p.name t || (kept && p.panel_active)) ∷ named_or kept t ps

abbrev flags : List (Text × Bool) → List Bool
flags [] = []
flags ((n, a) ∷ ks) = a ∷ flags ks

flags-keys : (ps : List Panel) → flags (keys ps) ≡ actives ps
unfolding keys
flags-keys [] = refl
flags-keys (p ∷ ps) = ap (p.panel_active ∷◌) (flags-keys ps)

flags-add_keys : (t : Text) (ps : List Panel) → flags (add_keys t (keys ps)) ≡ named_or true t ps
unfolding keys
flags-add_keys t [] = refl
flags-add_keys t (p ∷ ps) = ap ((text_eq p.name t || p.panel_active) ∷◌) (flags-add_keys t ps)

flags-add_keys-none :
    (t : Text) (ps : List Panel) → flags (add_keys t (none_active (keys ps))) ≡ named_or false t ps
unfolding keys
flags-add_keys-none t [] = refl
flags-add_keys-none t (p ∷ ps) = ap ((text_eq p.name t || false) ∷◌) (flags-add_keys-none t ps)

-- what the callback of Velocity leaves
pub actives-slid : (t : Text) (ps : List Panel) → actives (add_class t ps) ≡ named_or true t ps
actives-slid t ps =
    sym (flags-keys (add_class t ps)) ∙ ap flags (keys-add_class t ps) ∙ flags-add_keys t ps

-- what the two callbacks without Velocity leave
pub actives-faded :
    (t : Text) (ps : List Panel)
    → actives (
        add_class t (
          remove_class
            (current_target ps)
            (set_display block (t ∷ []) (set_display hidden (current_target ps) ps))))
      ≡ named_or false t ps
actives-faded t ps =
    let ts = current_target ps in
    let shown = set_display block (t ∷ []) (set_display hidden ts ps) in
    let same : keys shown ≡ keys ps =
      keys-set_display block (t ∷ []) (set_display hidden ts ps) ∙ keys-set_display hidden ts ps in
    sym (flags-keys (add_class t (remove_class ts shown)))
    ∙ ap flags (
        keys-add_class t (remove_class ts shown)
        ∙ ap (add_keys t) (keys-remove_class ts shown ∙ ap (remove_keys ts) same)
        ∙ add_keys-remove_keys t ts (keys ps) (covers-current_target ps))
    ∙ flags-add_keys-none t ps

-- Where no panel has the name, those that had the class are the ones that keep it.
pub named_or-absent :
    (t : Text) (ps : List Panel) → has_panel t ps ≡ false → named_or true t ps ≡ actives ps
unfolding has_panel
named_or-absent t [] h = refl
named_or-absent t (p ∷ ps) h = elim (Bool-cases (text_eq p.name t)) [
  | inl same ↦ absurd (grind (arith, same, h))
  | inr other ↦ rw other (ap (p.panel_active ∷◌) (named_or-absent t ps (grind (arith, other, h))))
]

pub actives-set_display :
    (d : Display) (ts : List Text) (ps : List Panel) → actives (set_display d ts ps) ≡ actives ps
actives-set_display d ts ps =
    sym (flags-keys (set_display d ts ps)) ∙ ap flags (keys-set_display d ts ps) ∙ flags-keys ps
