-- ===== src/Next/Geometry/Percent.antt =====
-- utils.js: what the two roundings of a double and `Math.round` leave of the scroll percentage.
use cortono.Prelude.{ℕ, ◌+◌, ◌-◌, ◌*◌, ◌/◌, ◌^◌, ◌<◌, ◌≤◌, ltb, if◌then◌else◌}
use cortono.Next.Geometry.{Heights, round_even, places, excess}

-- x is a nearest whole number to the quotient of a by b.
pub record IsNearest (a b x : ℕ) : Type 0 where
  pub high : 2 * (x * b) ≤ 2 * a + b
  pub low : 2 * a ≤ 2 * (x * b) + b

module _ (s h : ℕ) (some_room : 0 < h) (within : s ≤ h) (small : h < 2 ^ 44) where
  abbrev moved : ℕ
  moved = places 106 s h 0

  abbrev quotient : ℕ
  quotient = round_even (s * 2 ^ moved) h

  abbrev dropped : ℕ
  dropped = excess 8 (100 * quotient) 0

  abbrev product : ℕ
  product = round_even (100 * quotient) (2 ^ dropped) * 2 ^ dropped

  abbrev shown : ℕ
  shown = (2 * product + 2 ^ moved) / (2 * 2 ^ moved)

-- the length by which the page can be scrolled, where it is taller than the window
abbrev pub scroll_room : Heights → ℕ
scroll_room h = if ltb h.window h.content then h.content - h.window else h.document - h.window
