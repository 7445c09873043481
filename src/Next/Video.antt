-- ===== src/Next/Video.antt =====
-- utils.js: `embeddedVideoTransformer`, which makes the frames of known players fit their column.
-- Dimensions are whole numbers of pixels.
use cortono.Prelude.{
  Text, codes, List, [], ◌∷◌, ℕ, zero, suc, ◌≡◌, refl, ◌∙◌, Bool, true, false, not, ◌&&◌, ◌||◌,
  Option, none, some, arith, ltb, ◌==◌, if◌then◌else◌, Bool-cases, inl, inr, if_elim,
}

-- a unit that ends a line, which `.` does not match
abbrev ends_line : ℕ → Bool
ends_line c = c == 10 || (c == 13 || (c == 0x2028 || c == 0x2029))

-- The names are read as regular expressions, so a dot stands for any unit but the end of a line.
unfoldable pub matches_here : Text → Text → Bool
matches_here [] s = true
matches_here (a ∷ p) [] = false
matches_here (a ∷ p) (c ∷ s) = (if a == b'.' then not (ends_line c) else a == c) && matches_here p s

unfoldable pub one_matches : List Text → Text → Bool
unfolding matches_here
one_matches [] s = false
one_matches (p ∷ ps) s = matches_here p s || one_matches ps s

abbrev after : Option ℕ → Option ℕ
after none = none
after (some i) = some (suc i)

abbrev positive : Option ℕ → Bool
positive none = false
positive (some i) = ltb 0 i

-- `s.search(pattern)`: the first position where an alternative matches
unfoldable pub search : List Text → Text → Option ℕ
unfolding one_matches
search ps [] = if one_matches ps [] then some 0 else none
search ps (c ∷ s) = let rest = search ps s in if one_matches ps (c ∷ s) then some 0 else after rest

-- `search(…) > 0`
unfoldable pub found : List Text → Text → Bool
unfolding search
found ps s = positive (search ps s)

abbrev pub supported_players : List Text
supported_players =
    codes "www.youtube.com"
    ∷ codes "player.vimeo.com"
    ∷ codes "player.youku.com"
    ∷ codes "music.163.com"
    ∷ codes "www.tudou.com"
    ∷ []

pub record Dimension : Type 0 where
  pub width : ℕ
  pub height : ℕ

-- A frame: its address, its dimension as it is found, and the one that it has when its width and height
-- are 100% inside the wrapping element.
pub record Frame : Type 0 where
  pub src : Text
  pub old_dimension : Dimension
  pub new_dimension : Dimension

-- `paddingTop` of the wrapping element: a height by a width in per cent, or 50%.
pub data Padding : Type 0 where
  percent : ℕ → ℕ → Padding
  fifty : Padding

-- What is set by `getAspectRadio(width, height) + '%'`: a browser leaves the property as it is when the
-- text is 'Infinity%' or 'NaN%', which a width of 0 gives.
unfoldable pub set_padding : ℕ → ℕ → Padding → Padding
set_padding zero height old = old
set_padding (suc width) height old = percent height (suc width)

unfoldable pub should_recalculate_aspect : Frame → Bool
should_recalculate_aspect f =
    ltb f.old_dimension.width f.new_dimension.width
    || ltb f.new_dimension.height f.old_dimension.height

-- `paddingTop` of the element that wraps a frame
unfoldable pub wrap_padding : Frame → Padding
unfolding found set_padding should_recalculate_aspect
wrap_padding f =
    let first = set_padding f.old_dimension.width f.old_dimension.height fifty in
    if found (codes "music.163.com" ∷ []) f.src && should_recalculate_aspect f
    then set_padding f.new_dimension.width f.old_dimension.height first
    else first

-- The frame with the padding of the element that wraps it, if it is wrapped.
unfoldable pub transform : Frame → Option Padding
unfolding found wrap_padding
transform f = if found supported_players f.src then some (wrap_padding f) else none

-- a position of a text where a player's name stands
abbrev later_or_here : List Text → Text → Bool
later_or_here ps [] = one_matches ps []
later_or_here ps (c ∷ s) = one_matches ps (c ∷ s) || later_or_here ps s

-- such a position that is not the first one
abbrev pub later_match : List Text → Text → Bool
later_match ps [] = false
later_match ps (c ∷ s) = later_or_here ps s

abbrev is_some : Option ℕ → Bool
is_some none = false
is_some (some i) = true

is_some-after : (o : Option ℕ) → is_some (after o) ≡ is_some o
is_some-after none = refl
is_some-after (some i) = refl

positive-after : (o : Option ℕ) → positive (after o) ≡ is_some o
positive-after none = refl
positive-after (some i) = ground arith

search-some : (ps : List Text) (s : Text) → is_some (search ps s) ≡ later_or_here ps s
unfolding search
search-some ps [] = elim (Bool-cases (one_matches ps [])) [ inl h ↦ rw h refl | inr h ↦ rw h refl ]
search-some ps (c ∷ s) = elim (Bool-cases (one_matches ps (c ∷ s))) [
  | inl h ↦ rw h refl
  | inr h ↦ rw h (is_some-after (search ps s) ∙ search-some ps s)
]

found_lem : (ps : List Text) (s : Text) → found ps s ≡ (not (one_matches ps s) && later_match ps s)
unfolding found search
found_lem ps [] = elim (Bool-cases (one_matches ps [])) [ inl h ↦ rw h refl | inr h ↦ rw h refl ]
found_lem ps (c ∷ s) = elim (Bool-cases (one_matches ps (c ∷ s))) [
  | inl h ↦ rw h refl
  | inr h ↦ rw h (positive-after (search ps s) ∙ search-some ps s)
]

-- a ratio by a width that is not 0
abbrev pub is_ratio : Padding → Bool
is_ratio (percent h w) = ltb 0 w
is_ratio fifty = true

abbrev pub is_wrapped : Option Padding → Bool
is_wrapped none = false
is_wrapped (some p) = true

abbrev pub padding_or_fifty : Option Padding → Padding
padding_or_fifty none = fifty
padding_or_fifty (some p) = p

set_padding-is_ratio :
    (w h : ℕ) (old : Padding) → is_ratio old ≡ true → is_ratio (set_padding w h old) ≡ true
unfolding set_padding
set_padding-is_ratio zero h old k = k
set_padding-is_ratio (suc w) h old k = ground arith

wrap_padding-is_ratio : (f : Frame) → is_ratio (wrap_padding f) ≡ true
unfolding wrap_padding
wrap_padding-is_ratio f =
    let first = set_padding f.old_dimension.width f.old_dimension.height fifty in
    let ok : is_ratio first ≡ true =
      set_padding-is_ratio f.old_dimension.width f.old_dimension.height fifty refl in
    if_elim (λ (p : Padding). is_ratio p ≡ true)
      (found (codes "music.163.com" ∷ []) f.src && should_recalculate_aspect f)
      (λ _. set_padding-is_ratio f.new_dimension.width f.old_dimension.height first ok) (λ _. ok)

transform-found :
    (f : Frame)
    → (is_wrapped (transform f) ≡ found supported_players f.src)
      × (is_ratio (padding_or_fifty (transform f)) ≡ true)
unfolding transform
transform-found f = elim (Bool-cases (found supported_players f.src)) [
  | inl h ↦ (rw h refl, rw h (wrap_padding-is_ratio f))
  | inr h ↦ (rw h refl, rw h refl)
]

-- A frame is wrapped exactly if the name of a player stands in its address, and none at its start;
-- the padding of what wraps it is a ratio by a width that is not 0, or 50%.
pub transform_lem :
    (f : Frame)
    → (is_wrapped (transform f)
        ≡ (not (one_matches supported_players f.src) && later_match supported_players f.src))
      × (is_ratio (padding_or_fifty (transform f)) ≡ true)
transform_lem f =
    let (wrapped, ratio) = transform-found f in (wrapped ∙ found_lem supported_players f.src, ratio)
