-- ===== src/Face/Panel.antt =====
-- The face panel (face.js): `Face.prototype.init` and the three kinds of click listeners. `S` is the
-- state of the page that the panel's callback changes.
use cortono.Prelude.{
  Text, codes, List, [], ◌∷◌, ◌++◌, ◌≡◌, refl, Bool, true, false, arith, if◌then◌else◌, map,
}
use cortono.Face.Defs.{Face}

-- `style.display` of the panel: no value at first
pub data Display : Type 0 where
  unset block hidden : Display

-- an element of the list that `init` builds
pub record Item : Type 0 where
  pub class_name : Text
  pub title : Text
  pub face : Face

pub record Panel : Type 0 where
  pub warp_class : Text
  pub panel_class : Text
  pub items : List Item
  pub display : Display

abbrev pub item : Face → Item
item face = record { class_name = codes "face " ++ face.face_id; title = face.title; face = face }

unfoldable pub init : List Face → Panel
init faces = record {
  warp_class = codes "face-warp";
  panel_class = codes "face-panel";
  items = map item faces;
  display = unset;
}

-- What a click hits: an item of the panel, the button with the panel in it, or the rest of the page.
pub data Target : Type 0 where
  on_item : Item → Target
  on_button : Target
  elsewhere : Target

-- The listeners, and the order in which an event that bubbles meets them.
pub data Listener : Type 0 where
  item_listener : Item → Listener
  button_listener : Listener
  document_listener : Listener

abbrev pub path : Target → List Listener
path (on_item i) = item_listener i ∷ button_listener ∷ document_listener ∷ []
path on_button = button_listener ∷ document_listener ∷ []
path elsewhere = document_listener ∷ []

abbrev pub is_block : Display → Bool
is_block block = true
is_block _ = false

module _ {S : Type 0} (call_back : Face → S → S) where
  -- A listener's new state, and whether it stops the propagation.
  abbrev pub listen : Listener → Panel × S → (Panel × S) × Bool
  listen (item_listener i) (p, s) = ((p, call_back i.face s), true)
  listen button_listener (p, s) =
      ((record p { display = if is_block p.display then hidden else block }, s), true)
  listen document_listener (p, s) = ((record p { display = hidden }, s), false)

  abbrev pub bubble : List Listener → Panel × S → Panel × S
  bubble [] st = st
  bubble (l ∷ ls) st = let (st', stopped) = listen l st in if stopped then st' else bubble ls st'

  unfoldable pub click : Target → Panel × S → Panel × S
  click t st = bubble (path t) st

  -- What a click means: whether the panel is open then, and what it does to the page.
  abbrev pub opens : Target → Bool → Bool
  opens (on_item i) open_now = open_now
  opens on_button open_now = if open_now then false else true
  opens elsewhere open_now = false

  abbrev pub page_after : Target → S → S
  page_after (on_item i) s = call_back i.face s
  page_after on_button s = s
  page_after elsewhere s = s

  -- For any callback: a click on an item calls it once with the item's face and leaves the panel
  -- open or closed as it is; a click on the button opens a closed panel and closes an open one; a
  -- click elsewhere closes it. Only an item changes the page, and no click changes the items.
  pub click_lem :
      (t : Target) (p : Panel) (s : S)
      → (is_block (click t (p, s)).0.display ≡ opens t (is_block p.display))
        × ((click t (p, s)).1 ≡ page_after t s)
        × ((click t (p, s)).0.items ≡ p.items)
  unfolding click
  click_lem (on_item i) p s = (refl, refl, refl)
  click_lem on_button p s = ground arith
  click_lem elsewhere p s = (refl, refl, refl)
