-- ===== src/Next/PostDetails/Toc.antt =====
-- post-details.js: `initScrollSpy`, which marks the entry of the table of contents that is read, and the
-- click on an entry. Lengths are pixels; the scroll position that is set counts half pixels.
use cortono.Prelude.{
  Text, List, [], ◌∷◌, ℕ, ◌*◌, zero, suc, ◌≡◌, refl, ap, ◌∙◌, Bool, true, false, Option, none, some,
  arith, Bool-cases, inl, inr, if◌then◌else◌,
}
use cortono.Prelude.Int.{ℤ, pos, negsuc, ◌+ℤ◌}
use cortono.Next.Selector.{escape_selector}

-- An element of the table: its classes `active` and `active-current`, and its `offset().top`.
pub record Element : Type 0 where
  pub active : Bool
  pub active_current : Bool
  pub top : ℤ

-- `.post-toc`: its elements in the document's order, and its own measures.
pub record Toc : Type 0 where
  pub elements : List Element
  pub toc_top : ℤ
  pub toc_scroll_top : ℕ
  pub toc_height : ℕ

unfoldable pub remove_current_active_class : List Element → List Element
remove_current_active_class [] = []
remove_current_active_class (e ∷ es) =
    record e { active_current = false } ∷ remove_current_active_class es

abbrev pub or_this : Option Element → Element → Option Element
or_this (some last) e = some last
or_this none e = if e.active then some e else none

-- `$('.post-toc .active').last()`
unfoldable pub last_active : List Element → Option Element
last_active [] = none
last_active (e ∷ es) = or_this (last_active es) e

-- whether an element has the class `active`
unfoldable pub has_active : List Element → Bool
has_active [] = false
has_active (e ∷ es) = let later = has_active es in if e.active then true else later

-- `$currentActiveElement.addClass('active-current')`
unfoldable pub mark_last : List Element → List Element
unfolding has_active
mark_last [] = []
mark_last (e ∷ es) =
    let rest = mark_last es in
    if has_active es
    then e ∷ rest
    else (if e.active then record e { active_current = true } ∷ es else e ∷ es)

abbrev double : ℤ → ℤ
double n = n +ℤ n

abbrev minus : ℤ → ℤ
minus (pos zero) = pos 0
minus (pos (suc n)) = negsuc n
minus (negsuc n) = pos (suc n)

-- What the handler of `activate.bs.scrollspy` does: it sets the scroll position, in half pixels, or it
-- throws, since no element has an offset.
pub data Activated : Type 0 where
  scrolled : List Element → ℤ → Activated
  thrown : List Element → Activated

unfoldable scroll_to : Toc → List Element → Option Element → Activated
scroll_to t marked none = thrown marked
scroll_to t marked (some e) = scrolled marked (
    double e.top
    +ℤ minus (double t.toc_top)
    +ℤ pos (2 * t.toc_scroll_top)
    +ℤ minus (pos t.toc_height))

unfoldable pub on_activate : Toc → Activated
unfolding remove_current_active_class last_active mark_last scroll_to
on_activate t =
    scroll_to t (mark_last (remove_current_active_class t.elements)) (last_active t.elements)

-- `clear.bs.scrollspy`
unfoldable pub on_clear : Toc → Toc
unfolding remove_current_active_class
on_clear t = record t { elements = remove_current_active_class t.elements }

abbrev pub currents : List Element → List Bool
currents [] = []
currents (e ∷ es) = e.active_current ∷ currents es

-- true at the last element that is active, and false elsewhere
abbrev pub last_only : List Element → List Bool
last_only [] = []
last_only (e ∷ es) = (if has_active es then false else e.active) ∷ last_only es

abbrev pub elements_of : Activated → List Element
elements_of (scrolled es n) = es
elements_of (thrown es) = es

-- A click on an entry: the page is scrolled to the element that the escaped `href` finds; an offset that
-- is missing throws, after `preventDefault`.
pub data Clicked : Type 0 where
  velocity_scroll : ℤ → Clicked
  animate_scroll : ℤ → Clicked
  throws : Clicked

unfoldable pub on_toc_click : Bool → (Text → Option ℤ) → Text → Clicked
on_toc_click has_velocity offset_top href = scroll (offset_top (escape_selector href))
  where
    scroll : Option ℤ → Clicked
    scroll none = throws
    scroll (some offset) = if has_velocity then velocity_scroll offset else animate_scroll offset

abbrev pub is_scrolled : Activated → Bool
is_scrolled (scrolled es n) = true
is_scrolled (thrown es) = false

has_active-remove :
    (es : List Element) → has_active (remove_current_active_class es) ≡ has_active es
unfolding has_active remove_current_active_class
has_active-remove [] = refl
has_active-remove (e ∷ es) = rw (has_active-remove es) refl

no_active-cons :
    (e : Element) (es : List Element)
    → has_active (e ∷ es) ≡ false
    → (e.active ≡ false) × (has_active es ≡ false)
unfolding has_active
no_active-cons e es h = ground arith

-- no element is current where none is active
currents-remove :
    (es : List Element)
    → has_active es ≡ false
    → currents (remove_current_active_class es) ≡ last_only es
unfolding has_active remove_current_active_class
currents-remove [] h = refl
currents-remove (e ∷ es) h =
    let (head, rest) = no_active-cons e es h in
    rw (rest, head) (ap (false ∷◌) (currents-remove es rest))

currents-mark_last :
    (es : List Element) → currents (mark_last (remove_current_active_class es)) ≡ last_only es
unfolding mark_last remove_current_active_class
currents-mark_last [] = refl
currents-mark_last (e ∷ es) = elim (Bool-cases (has_active es)) [
  | inl later ↦ rw (has_active-remove es, later) (ap (false ∷◌) (currents-mark_last es))
  | inr none_later ↦ elim (Bool-cases e.active) [
    | inl here ↦
        rw (has_active-remove es, none_later, here) (ap (true ∷◌) (currents-remove es none_later))
    | inr not_here ↦
        rw (has_active-remove es, none_later, not_here)
          (ap (false ∷◌) (currents-remove es none_later))
  ]
]

abbrev is_some : Option Element → Bool
is_some none = false
is_some (some e) = true

is_some-or_this :
    (o : Option Element) (e : Element)
    → is_some (or_this o e) ≡ (if e.active then true else is_some o)
is_some-or_this none e = ground arith
is_some-or_this (some last) e = ground arith

is_some-last_active : (es : List Element) → is_some (last_active es) ≡ has_active es
unfolding last_active has_active
is_some-last_active [] = refl
is_some-last_active (e ∷ es) =
    is_some-or_this (last_active es) e
    ∙ ap (λ (b : Bool). if e.active then true else b) (is_some-last_active es)

scroll_to_lem :
    (t : Toc) (marked : List Element) (o : Option Element)
    → (elements_of (scroll_to t marked o) ≡ marked)
      × (is_scrolled (scroll_to t marked o) ≡ is_some o)
unfolding scroll_to
scroll_to_lem t marked none = (refl, refl)
scroll_to_lem t marked (some e) = (refl, refl)

-- After an entry of the table of contents became active, the last active element is the only one
-- that is current; the table is scrolled exactly if an element is active, and the handler throws
-- if none is.
pub on_activate_lem :
    (t : Toc)
    → (currents (elements_of (on_activate t)) ≡ last_only t.elements)
      × (is_scrolled (on_activate t) ≡ has_active t.elements)
unfolding on_activate
on_activate_lem t =
    let marked = mark_last (remove_current_active_class t.elements) in
    let (kept, shown) = scroll_to_lem t marked (last_active t.elements) in
    (ap currents kept ∙ currents-mark_last t.elements, shown ∙ is_some-last_active t.elements)
