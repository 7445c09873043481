-- ===== src/Next/Geometry.antt =====
-- utils.js: how far the page is scrolled, and the room that the sidebar has. Lengths are whole numbers
-- of pixels.
pub mod Percent
use cortono.Prelude.{ℕ, zero, suc, ◌+◌, ◌-◌, ◌*◌, ◌/◌, ◌%◌, ◌^◌, Bool, ltb, min, if◌then◌else◌}
use cortono.Prelude.Int.{ℤ, pos, negsuc, sub_ℕ}

-- What the scripts measure: the heights of `#content`, the window and the document, `scrollTop` and
-- `pageYOffset`.
pub record Heights : Type 0 where
  pub content : ℕ
  pub window : ℕ
  pub document : ℕ
  pub scroll_top : ℕ
  pub page_y_offset : ℕ

unfoldable pub get_content_visibility_height : Heights → ℤ
get_content_visibility_height h =
    if ltb h.window h.content then sub_ℕ h.content h.window else sub_ℕ h.document h.window

-- A number of the program that may be `NaN`.
pub data Shown : Type 0 where
  nan : Shown
  number : ℤ → Shown

-- The whole number next to a quotient, the even one from the middle.
unfoldable pub round_even : ℕ → ℕ → ℕ
round_even a b =
    let q = a / b in
    let r = a % b in if ltb (2 * r) b then q else if ltb b (2 * r) then q + 1 else q + q % 2

-- By how many places a quotient has to be moved to the left until it has 53 places before the point, on
-- fuel. The quotient of two numbers below 2 ^ 53 needs at most 105.
unfoldable pub places : ℕ → ℕ → ℕ → ℕ → ℕ
places zero a b k = k
places (suc fuel) a b k =
    let more = places fuel a b (k + 1) in if ltb (a * 2 ^ k) (2 ^ 52 * b) then more else k

-- By how many places a number has to be moved to the right until it has at most 53, on fuel.
unfoldable pub excess : ℕ → ℕ → ℕ → ℕ
excess zero n j = j
excess (suc fuel) n j = let more = excess fuel n (j + 1) in if ltb n (2 ^ (53 + j)) then j else more

-- `s / h * 100` for numbers below 2 ^ 53, as the two roundings to a mantissa of 53 places leave it: a
-- numerator, over the power of 2 with the given exponent.
unfoldable pub percent_double : ℕ → ℕ → ℕ × ℕ
unfolding round_even places excess
percent_double s h =
    let k = places 106 s h 0 in
    let n = 100 * round_even (s * 2 ^ k) h in
    let j = excess 8 n 0 in (round_even n (2 ^ j) * 2 ^ j, k)

-- `Math.round(s / h * 100)`, at most 100: `Math.round x` is the whole number next to x, the larger one
-- from the middle. A quotient by 0 is infinite, or `NaN` for 0 / 0.
unfoldable pub percent_of : ℕ → ℤ → Shown
unfolding percent_double
percent_of s (pos zero) = if ltb 0 s then number (pos 100) else nan
percent_of s (pos (suc h)) =
    let (n, k) = percent_double s (suc h) in number (pos (min 100 ((2 * n + 2 ^ k) / (2 * 2 ^ k))))
percent_of s (negsuc h) =
    let (n, k) = percent_double s (suc h) in number (sub_ℕ 0 ((2 * n + 2 ^ k - 1) / (2 * 2 ^ k)))

unfoldable pub scroll_percent_maxed : Heights → Shown
unfolding get_content_visibility_height percent_of
scroll_percent_maxed h = percent_of h.scroll_top (get_content_visibility_height h)

abbrev threshold : ℕ
threshold = 50

-- What a scroll event shows: whether the button "back to top" is on, and the percentage.
pub record BackToTop : Type 0 where
  pub back_to_top_on : Bool
  pub percent : Shown

unfoldable pub on_scroll : Heights → BackToTop
unfolding scroll_percent_maxed
on_scroll h = record {
  back_to_top_on = ltb threshold h.page_y_offset;
  percent = scroll_percent_maxed h;
}
