-- ===== src/Protocol/SlideWindow/Range.antt =====
-- The test of protocol/slide_window.hpp whether a packet lies in the window.
use cortono.Prelude.{ℕ, ◌+◌, ◌-◌, ◌*◌, ◌%◌, ◌<◌, ◌≤◌, ◌≡◌, arith, true, ◌⊎◌, ltb}
use native.Mathlib.Nat.{mod-lt, mod-mod}
use native.Mathlib.Decide.{dec_lt}
use cortono.Protocol.SlideWindow.{SlideWindow, in_valid_range}
use cortono.Protocol.SlideWindow.Modular.{add-mod-cases}

-- What an accepted range satisfies, the window in one piece or round the end of the ring.
abbrev pub InOne : ℕ → ℕ → ℕ → ℕ → Type 0
InOne l r i e = (l < r) × (l ≤ i) × (i < r) × (l < e) × (e ≤ r)

abbrev pub InTwo : ℕ → ℕ → ℕ → ℕ → Type 0
InTwo l r i e = (r ≤ l) × ((l ≤ i) ⊎ (i < r)) × ((l ≤ e) ⊎ (e < r))

pub in_valid_range-cases :
    (size : ℕ) (s : SlideWindow) (i e : ℕ)
    → in_valid_range size s i e ≡ true
    → InOne s.win_left s.win_right i (e % size) ⊎ InTwo s.win_left s.win_right i (e % size)
unfolding in_valid_range
in_valid_range-cases size s i e h = ground arith

-- Over places of a ring: `l`, `r`, `i` and `e` are those of the window's bounds, of a packet's first
-- byte and of its end.
module _ (size w l r i e len : ℕ) (some_width : 0 < w) (narrow : 2 * w < size)
    (short : len ≤ size - w) (l_in : l < size) (i_in : i < size) (e_in : e < size)
    (r_at : (r ≡ l + w) ⊎ (r + size ≡ l + w)) (e_at : (e ≡ i + len) ⊎ (e + size ≡ i + len))
    (ok : InOne l r i e ⊎ InTwo l r i e) where
  -- A packet that begins `d` after the left bound ends within the window.
  ends_within : (d : ℕ) → d < size → ((i ≡ l + d) ⊎ (i + size ≡ l + d)) → d + len ≤ w
  ends_within d d_lt i_at = ground arith

  -- None begins before the left bound.
  not_before : (d : ℕ) → 0 < d → d ≤ size - w → ((l ≡ i + d) ⊎ (l + size ≡ i + d)) → ⊥
  not_before d d_pos d_le l_at = ground arith

-- The places of two numbers less than a round apart.
pub sub-mod-cases :
    (size i j : ℕ)
    → i ≤ j
    → j < i + size
    → (j % size ≡ i % size + (j - i)) ⊎ (j % size + size ≡ i % size + (j - i))
sub-mod-cases size i j h k =
    let e : i + (j - i) ≡ j = omega arith in rw e at (add-mod-cases size i (j - i) (omega arith))

-- The packets that the test is for: those that the peer may have on the way.
pub record Near (size w n a len : ℕ) : Type 0 where
  pub not_old : n + w ≤ a + size
  pub not_new : a < n + size
  pub short : len ≤ size - w

module _ (size w : ℕ) (some_width : 0 < w) (narrow : 2 * w < size) where
  -- A packet that is accepted begins at the left bound or after it, and ends in the window.
  pub in_valid_range_sound :
      (s : SlideWindow) (n a len : ℕ)
      → s.win_left ≡ n % size
      → s.win_right ≡ (n + w) % size
      → Near size w n a len
      → in_valid_range size s (a % size) ((a + len) % size) ≡ true
      → (n ≤ a) × (a + len ≤ n + w)
  in_valid_range_sound s n a len left right near h = elim (dec_lt a n) [
    | yes lt ↦ absurd (
        not_before size w (n % size) ((n + w) % size) (a % size) ((a + len) % size) len some_width
          narrow near.short (mod-lt n pos) (mod-lt a pos) (mod-lt (a + len) pos) r_at e_at places
          (n - a) (omega arith) (omega (arith, near.not_old))
          (sub-mod-cases size a n (omega arith) (omega (arith, near.not_old))))
    | no ge ↦
        let fits =
          ends_within size w (n % size) ((n + w) % size) (a % size) ((a + len) % size) len
            some_width narrow near.short (mod-lt n pos) (mod-lt a pos) (mod-lt (a + len) pos) r_at
            e_at places (a - n) (omega (arith, near.not_new))
            (sub-mod-cases size n a (omega arith) near.not_new) in
        (omega arith, omega arith)
  ]
    where
      pos : 0 < size
      pos = omega arith

      r_at : ((n + w) % size ≡ n % size + w) ⊎ ((n + w) % size + size ≡ n % size + w)
      r_at = add-mod-cases size n w (omega arith)

      e_at : ((a + len) % size ≡ a % size + len) ⊎ ((a + len) % size + size ≡ a % size + len)
      e_at = add-mod-cases size a len (omega (arith, near.short))

      places :
          InOne (n % size) ((n + w) % size) (a % size) ((a + len) % size)
          ⊎ InTwo (n % size) ((n + w) % size) (a % size) ((a + len) % size)
      places =
          rw (left, right, mod-mod (a + len) size) at
            (in_valid_range-cases size s (a % size) ((a + len) % size) h)

  -- The packet that begins at the left bound and does not fill the window is accepted.
  pub in_valid_range_complete :
      (s : SlideWindow) (n len : ℕ)
      → s.win_left ≡ n % size
      → s.win_right ≡ (n + w) % size
      → 0 < len
      → len < w
      → in_valid_range size s (n % size) ((n + len) % size) ≡ true
  unfolding in_valid_range
  in_valid_range_complete s n len left right h k = ground (
    arith,
    mod-mod (n + len) size,
    mod-lt (n + len) {m = size},
    mod-lt n {m = size},
    add-mod-cases size n w,
    add-mod-cases size n len,
  )

  -- With a window of at least one place and a ring of more than two windows: a packet that fills
  -- the window, from its left bound to its right one, is in range exactly if the window does not
  -- go round the end of the ring.
  pub in_valid_range-filling :
      (s : SlideWindow) (n : ℕ)
      → s.win_left ≡ n % size
      → s.win_right ≡ (n + w) % size
      → in_valid_range size s (n % size) ((n + w) % size) ≡ ltb (n % size) ((n + w) % size)
  unfolding in_valid_range
  in_valid_range-filling s n left right = ground (
    arith,
    mod-mod (n + w) size,
    mod-lt (n + w) {m = size},
    mod-lt n {m = size},
    add-mod-cases size n w,
  )
