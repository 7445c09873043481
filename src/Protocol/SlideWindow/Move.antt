-- ===== src/Protocol/SlideWindow/Move.antt =====
-- `move_if_valid` of protocol/slide_window.hpp: the sender's window goes on to an acknowledged place.
use cortono.Prelude.{
  ℕ, zero, suc, ◌+◌, ◌-◌, ◌*◌, ◌%◌, ◌^◌, ◌<◌, ◌≤◌, ◌≡◌, refl, ap, ◌∙◌, arith, Bool, true, false,
  some, Bool-cases, inl, inr, ◌⊎◌, ◌==◌, ==_iff, if◌then◌else◌,
}
use native.Mathlib.Nat.{mod-lt, mod-mod, add-zero}
use native.Mathlib.Decide.{dec_lt}
use cortono.Protocol.SlideWindow.{SlideWindow, in_valid_range, shifted, move, move_if_valid}
use cortono.Protocol.SlideWindow.Modular.{mod-ne, next-mod, add-mod-cases, not-==}
use cortono.Protocol.SlideWindow.Range.{InOne, InTwo, in_valid_range-cases, sub-mod-cases}

-- The window begins at the place of `n`.
pub record Bounds (size w n : ℕ) (s : SlideWindow) : Type 0 where
  pub left : s.win_left ≡ n % size
  pub right : s.win_right ≡ (n + w) % size

module _ (size w : ℕ) (pos : 0 < size) (small : size ≤ 2 ^ 63) where
  shifted-Bounds :
      {n : ℕ} {s : SlideWindow} → Bounds size w n s → Bounds size w (n + 1) (shifted size s)
  shifted-Bounds {n} b = record {
    left = rw b.left (next-mod size n pos small);
    right = rw b.right (next-mod size (n + w) pos small ∙ ap (λ k. k % size) (omega arith));
  }

  arrived : (n : ℕ) (s : SlideWindow) → Bounds size w n s → (s.win_left == (n + 0) % size) ≡ true
  arrived n s b =
      (==_iff s.win_left ((n + 0) % size)).1 (b.left ∙ ap (λ k. k % size) {x = n} (omega arith))

  -- The loop ends at the place that is `d` steps on.
  pub move-Bounds :
      (d fuel : ℕ) {n : ℕ} {s : SlideWindow}
      → d ≤ fuel
      → d < size
      → Bounds size w n s
      → (s' : SlideWindow) × (move size fuel ((n + d) % size) s ≡ some s')
        × Bounds size w (n + d) s'
  unfolding move
  move-Bounds zero zero {n} {s} h k b = rw (arrived n s b) (s, refl, rw add-zero b)
  move-Bounds zero (suc fuel) {n} {s} h k b = rw (arrived n s b, move) (s, refl, rw add-zero b)
  move-Bounds (suc d) zero {n} {s} h k b = absurd (omega arith)
  move-Bounds (suc d) (suc fuel) {n} {s} h k b =
      let off : (s.win_left == (n + suc d) % size) ≡ false =
        not-== s.win_left ((n + suc d) % size)
          (rw b.left (mod-ne size n (n + suc d) (omega arith) (omega arith))) in
      let e : n + suc d ≡ n + 1 + d = omega arith in
      let (s', moved, b') =
        move-Bounds d fuel {n = n + 1} {s = shifted size s} (omega arith) (omega arith)
          (shifted-Bounds b) in
      rw (off, move) (s', rw e moved, rw e b')

-- An acknowledged place in the window is not behind the left bound.
module _ (size w l r e : ℕ) (some_width : 0 < w) (narrow : 2 * w < size) (l_in : l < size)
    (e_in : e < size) (r_at : (r ≡ l + w) ⊎ (r + size ≡ l + w))
    (ok : InOne l r l e ⊎ InTwo l r l e) where
  not_behind : (d : ℕ) → 0 < d → d < size - w → ((l ≡ e + d) ⊎ (l + size ≡ e + d)) → ⊥
  not_behind d h k l_at = ground arith

module _ (size w : ℕ) (some_width : 0 < w) (narrow : 2 * w < size) (small : size ≤ 2 ^ 63) where
  accepted-le :
      (s : SlideWindow) (n k : ℕ)
      → Bounds size w n s
      → n + w < k + size
      → in_valid_range size s s.win_left (k % size) ≡ true
      → n ≤ k
  accepted-le s n k b recent h = elim (dec_lt k n) [
    | yes lt ↦ absurd (
        not_behind size w (n % size) ((n + w) % size) (k % size) some_width narrow
          (mod-lt n (omega arith)) (mod-lt k (omega arith)) (add-mod-cases size n w (omega arith))
          places (n - k) (omega arith) (omega arith)
          (sub-mod-cases size k n (omega arith) (omega arith)))
    | no ge ↦ omega arith
  ]
    where
      places :
          InOne (n % size) ((n + w) % size) (n % size) (k % size)
          ⊎ InTwo (n % size) ((n + w) % size) (n % size) (k % size)
      places =
          rw (b.left, b.right, mod-mod k size) at
            (in_valid_range-cases size s s.win_left (k % size) h)

  accepted-inside :
      (s : SlideWindow) (n k : ℕ)
      → Bounds size w n s
      → n < k
      → k < n + w
      → in_valid_range size s s.win_left (k % size) ≡ true
  unfolding in_valid_range
  accepted-inside s n k b h h' = ground (
    arith,
    b.left,
    b.right,
    mod-mod k size,
    mod-lt k {m = size},
    mod-lt n {m = size},
    add-mod-cases size n w,
    sub-mod-cases size n k,
  )

  -- A sender whose window begins at n gets the acknowledgement of the bytes before k, where k is
  -- at most the window's end and less than the rest of the ring behind: the loop of move_if_valid
  -- ends; a window that goes on begins at k and never goes back; it goes on if k is within the
  -- window.
  pub move_if_valid-Bounds :
      (s : SlideWindow) (n k : ℕ)
      → Bounds size w n s
      → n + w < k + size
      → k ≤ n + w
      → (s' : SlideWindow) × (took : Bool) × (move_if_valid size (k % size) s ≡ some (s', took))
        × Bounds size w (if took then k else n) s'
        × (took ≡ true → n ≤ k)
        × (n < k → k < n + w → took ≡ true)
  unfolding move_if_valid
  move_if_valid-Bounds s n k b recent upto =
      elim (Bool-cases (in_valid_range size s s.win_left (k % size))) [
        | inl e ↦
            let le = accepted-le s n k b recent e in
            let at : n + (k - n) ≡ k = omega arith in
            let (s', moved, b') =
              move-Bounds size w (omega arith) small (k - n) size (omega arith) (omega arith) b in
            rw (e, rw at at moved) (s', true, refl, rw at at b', λ _. le, λ _ _. refl)
        | inr e ↦
            rw e (s, false, refl, b, λ e'. cc, λ h h'. let on = accepted-inside s n k b h h' in cc)
      ]
