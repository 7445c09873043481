-- ===== src/Next/Popup.antt =====
-- algolia-search.js and utils.js: the popup of the search, which a trigger opens, and a button or the
-- escape key closes.
use cortono.Prelude.{
  List, [], ◌∷◌, ℕ, ◌+◌, ◌<◌, ◌≡◌, ◌↔◌, refl, Bool, true, false, not, ◌&&◌, ◌||◌, if◌then◌else◌,
  arith, ltb, ◌==◌, Bool-cases, inl, inr,
}

-- Whether `.popup`, which is `.search-popup`, is visible; how many overlays the body has; and whether its
-- `overflow` is 'hidden'. An overlay has the classes `search-popup-overlay` and `algolia-pop-overlay`.
pub record Popup : Type 0 where
  pub visible : Bool
  pub overlays : ℕ
  pub overflow_hidden : Bool

-- a click on `.popup-trigger`
unfoldable pub on_trigger : Popup → Popup
on_trigger s = record { visible = not s.visible; overlays = s.overlays + 1; overflow_hidden = true }

-- a click on `.popup-btn-close`
unfoldable pub on_close : Popup → Popup
on_close s = record { visible = false; overlays = 0; overflow_hidden = false }

-- `registerESCKeyEvent`: a key is released
unfoldable pub on_keyup : ℕ → Popup → Popup
on_keyup which s =
    if which == 27 && s.visible
    then record { visible = false; overlays = 0; overflow_hidden = false }
    else s

pub data Event : Type 0 where
  trigger : Event
  close : Event
  keyup : ℕ → Event

unfoldable pub handle : Event → Popup → Popup
unfolding on_trigger on_close on_keyup
handle trigger s = on_trigger s
handle close s = on_close s
handle (keyup which) s = on_keyup which s

unfoldable pub session : List Event → Popup → Popup
unfolding handle
session [] s = s
session (e ∷ es) s = session es (handle e s)

abbrev pub loaded : Popup
loaded = record { visible = false; overlays = 0; overflow_hidden = false }

-- The page cannot be scrolled exactly while an overlay lies over it, and one does while the popup is
-- visible.
abbrev pub IsCovered : Popup → Type 0
IsCovered s =
    ((s.overflow_hidden ≡ true) ↔ (0 < s.overlays)) × ((ltb 0 s.overlays || not s.visible) ≡ true)

handle-IsCovered : (e : Event) (s : Popup) → IsCovered s → IsCovered (handle e s)
unfolding handle on_trigger on_close on_keyup
handle-IsCovered trigger s v = ground arith
handle-IsCovered close s v = ground arith
handle-IsCovered (keyup which) s v = ground arith

session-IsCovered : (es : List Event) (s : Popup) → IsCovered s → IsCovered (session es s)
unfolding session
session-IsCovered [] s v = v
session-IsCovered (e ∷ es) s v = session-IsCovered es (handle e s) (handle-IsCovered e s v)

keyup_escape : (s : Popup) → handle (keyup 27) s ≡ (if s.visible then loaded else s)
unfolding handle on_keyup
keyup_escape s = elim (Bool-cases s.visible) [ inl h ↦ rw h refl | inr h ↦ rw h refl ]

-- Whatever was clicked and typed since the page was loaded: while the search popup is visible an
-- overlay lies over the page, and the page cannot be scrolled exactly while one does. The button
-- gives back the page as it was loaded; the escape key does so where the popup is visible, and
-- nothing where it is hidden.
pub session_lem :
    (es : List Event)
    → IsCovered (session es loaded)
      × (handle close (session es loaded) ≡ loaded)
      × (handle (keyup 27) (session es loaded)
          ≡ (if (session es loaded).visible then loaded else session es loaded))
unfolding handle on_close
session_lem es =
    (session-IsCovered es loaded (ground arith), refl, keyup_escape (session es loaded))
