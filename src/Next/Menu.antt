-- ===== src/Next/Menu.antt =====
-- utils.js: `addActiveClassToMenuItem`.
use cortono.Prelude.{
  Text, codes, List, [], ◌∷◌, ℕ, suc, ◌-◌, ◌≡◌, refl, Bool, true, false, not, Option, none, some,
  if◌then◌else◌, text_eq, is_prefix, take, length, Bool-cases, inl, inr, all, get_elem?,
}

-- `window.location.pathname` without its last unit, if it is not the root
unfoldable pub menu_path : Text → Text
menu_path path = if text_eq path (codes "/") then path else take (length path - 1) path

-- `[href^="…"]` finds nothing for the empty text
unfoldable pub href_begins : Text → Text → Bool
href_begins [] href = false
href_begins (c ∷ p) href = is_prefix (c ∷ p) href

abbrev after : Option ℕ → Option ℕ
after none = none
after (some i) = some (suc i)

-- `:first` of the links whose address begins with a path
unfoldable pub first_link : Text → List Text → Option ℕ
unfolding href_begins
first_link path [] = none
first_link path (href ∷ hrefs) =
    let rest = first_link path hrefs in if href_begins path href then some 0 else after rest

-- the item of the menu that gets the class, by the addresses of the links
unfoldable pub active_item : Text → List Text → Option ℕ
unfolding menu_path first_link
active_item pathname hrefs = first_link (menu_path pathname) hrefs

-- what it means that an item is found: its link's address begins with the path, and no link before it
abbrev pub IsFirst : Text → List Text → Option ℕ → Type 0
IsFirst path hrefs none = all (λ h. not (href_begins path h)) hrefs ≡ true
IsFirst path hrefs (some i) =
    (h : Text) × (get_elem? hrefs i ≡ some h)
    × (href_begins path h ≡ true)
    × (all (λ h. not (href_begins path h)) (take i hrefs) ≡ true)

after-IsFirst :
    (path href : Text) (hrefs : List Text) (o : Option ℕ)
    → href_begins path href ≡ false
    → IsFirst path hrefs o
    → IsFirst path (href ∷ hrefs) (after o)
after-IsFirst path href hrefs none h k = rw h k
after-IsFirst path href hrefs (some i) h (link, at, begins, before) =
    (link, at, begins, rw h before)

first_link-IsFirst : (path : Text) (hrefs : List Text) → IsFirst path hrefs (first_link path hrefs)
unfolding first_link
first_link-IsFirst path [] = refl
first_link-IsFirst path (href ∷ hrefs) = elim (Bool-cases (href_begins path href)) [
  | inl h ↦ rw h (href, refl, h, refl)
  | inr h ↦
      rw h (after-IsFirst path href hrefs (first_link path hrefs) h (first_link-IsFirst path hrefs))
]

-- The menu item that gets the class is the first one whose link begins with the page's path,
-- without the path's last unit if it is not the root; no item gets it exactly if no link begins
-- so.
pub active_item-IsFirst :
    (pathname : Text) (hrefs : List Text)
    → IsFirst
        (if text_eq pathname (codes "/") then pathname else take (length pathname - 1) pathname)
        hrefs
        (active_item pathname hrefs)
unfolding active_item menu_path
active_item-IsFirst pathname hrefs = first_link-IsFirst (menu_path pathname) hrefs
