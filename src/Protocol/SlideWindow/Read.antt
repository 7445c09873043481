-- ===== src/Protocol/SlideWindow/Read.antt =====
-- The copy of `recv_all` in protocol/slide_window.hpp, which may go round the end of the ring.
use cortono.Prelude.{
  ◌++◌, ℕ, ◌+◌, ◌-◌, ◌%◌, ◌<◌, ◌≤◌, ◌≡◌, refl, ap, ap₂, sym, ◌∙◌, arith, true, false, get_elem?,
  some, Bool-cases, inl, inr, ◌==◌, take, drop, ltb, leb,
}
use native.Mathlib.Nat.{mod-lt}
use cortono.Protocol.SlideWindow.{SlideWindow, recv_all}
use cortono.Protocol.SlideWindow.Modular.{add-mod-cases, slice, take-drop-slice, slice-append}
use cortono.Protocol.SlideWindow.Follows.{Follows}

leb_of_le : (a b : ℕ) → a ≤ b → leb a b ≡ true
leb_of_le a b h = ground arith

leb_of_lt : (a b : ℕ) → b < a → leb a b ≡ false
leb_of_lt a b h = ground arith

ltb_of_le : (a b : ℕ) → b ≤ a → ltb a b ≡ false
ltb_of_le a b h = ground arith

abbrev read_up : SlideWindow → SlideWindow
read_up s = record s { read_idx = s.win_left; readable_bytes = 0 }

module _ (size w : ℕ) (f : ℕ → ℕ) (pos : 0 < size) where
  read_up-Follows :
      {m n l : ℕ} {s : SlideWindow} → Follows size w f m n l s → Follows size w f n n l (read_up s)
  read_up-Follows v = record {
    ordered = omega arith;
    within = v.within;
    bounded = omega (arith, v.ordered, v.bounded);
    left = v.left;
    right = v.right;
    read = v.left;
    count = omega arith;
    bits = v.bits;
    room = v.room;
    unread = λ i p q. absurd (omega arith);
    ahead = v.ahead;
  }

  -- Nothing is unread.
  caught_up-Follows :
      {m n l : ℕ} {s : SlideWindow} → n ≡ m → Follows size w f m n l s → Follows size w f n n l s
  caught_up-Follows e v = record {
    ordered = omega arith;
    within = v.within;
    bounded = omega (arith, v.bounded);
    left = v.left;
    right = v.right;
    read = v.read ∙ ap (λ k. k % size) (sym e);
    count = omega (arith, v.count);
    bits = v.bits;
    room = v.room;
    unread = λ i p q. absurd (omega arith);
    ahead = v.ahead;
  }

  module _ {m n l : ℕ} {s : SlideWindow} (v : Follows size w f m n l s) where
    -- A part of the ring is a run of the unread bytes.
    part_of_ring :
        (p d k : ℕ)
        → d + k ≤ n - m
        → n < m + size
        → p ≡ (m + d) % size
        → p + k ≤ size
        → take k (drop p s.buffer) ≡ slice f (m + d) k
    part_of_ring p d k h fits at top = take-drop-slice f s.buffer p (m + d) k λ j lt.
        ap (get_elem? s.buffer) (place j lt) ∙ v.unread (m + d + j) (omega arith) (omega arith)
      where
        place : (j : ℕ) → j < k → p + j ≡ (m + d + j) % size
        place j lt = elim (add-mod-cases size (m + d) j (omega arith)) [
          | inl c ↦ omega (arith, c)
          | inr c ↦ absurd (omega (arith, c))
        ]

    start : s.read_idx ≡ (m + 0) % size
    start = v.read ∙ ap (λ k. k % size) (omega arith)

    first_part :
        (k : ℕ)
        → k ≤ n - m
        → n < m + size
        → s.read_idx + k ≤ size
        → take k (drop s.read_idx s.buffer) ≡ slice f m k
    first_part k h fits top =
        part_of_ring s.read_idx 0 k (omega arith) fits start top
        ∙ ap (λ i. slice f i k) {x = m + 0} (omega arith)

    -- The unread bytes go round the end of the ring.
    copied_round :
        n < m + size
        → s.win_left + size ≡ s.read_idx + (n - m)
        → take (size - s.read_idx) (drop s.read_idx s.buffer) ++ take s.win_left s.buffer
          ≡ slice f m (n - m)
    copied_round fits behind =
        ap₂ ◌++◌
          (first_part (size - s.read_idx) (omega arith) fits (omega (arith, v.read, mod-lt m pos)))
          (part_of_ring 0 (size - s.read_idx) s.win_left (omega (arith, v.read, mod-lt m pos)) fits
            turned (omega (arith, v.left, mod-lt n pos)))
        ∙ slice-append f m (size - s.read_idx) s.win_left
        ∙ ap (slice f m) {x = size - s.read_idx + s.win_left} (omega (arith, v.read, mod-lt m pos))
      where
        turned : 0 ≡ (m + (size - s.read_idx)) % size
        turned = elim (add-mod-cases size m (size - s.read_idx) (omega arith)) [
          | inl c ↦
              absurd (omega (arith, c, v.read, mod-lt m pos, mod-lt (m + (size - s.read_idx)) pos))
          | inr c ↦ omega (arith, c, v.read, mod-lt m pos)
        ]

  -- `recv_all`, where fewer bytes are unread than the ring holds: it returns them in order.
  pub recv_all-Follows :
      {m n l : ℕ} {s : SlideWindow}
      → n < m + size
      → Follows size w f m n l s
      → (s' : SlideWindow) × (recv_all size s ≡ some (slice f m (n - m), s'))
        × Follows size w f n n l s'
  unfolding recv_all
  recv_all-Follows {m} {n} {l} {s} h v = elim (Bool-cases (s.readable_bytes == 0)) [
    | inl e ↦
        let none_left : n ≡ m = ground (arith, v.count, v.ordered) in
        (
          s,
          rw e (ap (λ k. some (slice f m k, s)) {x = 0} (omega arith)),
          caught_up-Follows none_left v,
        )
    | inr e ↦ elim (add-mod-cases size m (n - m) (omega arith)) [
      | inl c ↦
          let ahead : s.win_left ≡ s.read_idx + (n - m) = omega (arith, v.left, v.read, round, c) in
          rw
            (
              e,
              leb_of_le s.read_idx s.win_left (omega arith),
              ltb_of_le size (s.read_idx + s.readable_bytes) (omega (arith, v.count, left_in)),
              v.count,
              first_part v (n - m) (omega arith) h (omega (arith, left_in)),
            )
            (read_up s, refl, read_up-Follows v)
      | inr c ↦
          let behind : s.win_left + size ≡ s.read_idx + (n - m) =
            omega (arith, v.left, v.read, round, c) in
          rw (e, leb_of_lt s.read_idx s.win_left (omega arith), copied_round v h behind)
            (read_up s, refl, read_up-Follows v)
    ]
  ]
    where
      round : (m + (n - m)) % size ≡ n % size
      round = ap (λ k. k % size) (omega (arith, v.ordered))

      left_in : s.win_left < size
      left_in = omega (arith, v.left, mod-lt n pos)
