-- ===== src/Protocol/SlideWindow/Overrun.antt =====
-- Where `recv_all` of protocol/slide_window.hpp copies past the end of its ring.
use cortono.Prelude.{ℕ, ◌+◌, ◌%◌, ◌<◌, ◌≤◌, ◌≡◌, ◌≢◌, ◌↔◌, ap, ◌∙◌, arith, none}
use native.Mathlib.Nat.{mod-lt, mod-eq_of_lt, add-mod_right}
use native.Mathlib.Decide.{ℕ_discrete}
use cortono.Protocol.SlideWindow.{SlideWindow, recv_all}
use cortono.Protocol.SlideWindow.Modular.{add-mod-cases}

module _ (size : ℕ) (s : SlideWindow) (read_in : s.read_idx < size)
    (places : s.win_left ≡ (s.read_idx + s.readable_bytes) % size) where
  recv_all-room : s.readable_bytes < size → recv_all size s ≢ none
  unfolding recv_all
  recv_all-room h e = ground (
    arith,
    add-mod-cases size s.read_idx s.readable_bytes,
    mod-eq_of_lt {n = s.read_idx} {m = size} read_in,
    mod-lt (s.read_idx + s.readable_bytes) {m = size},
  )

  recv_all-full : s.readable_bytes ≡ size → 0 < s.read_idx → recv_all size s ≡ none
  unfolding recv_all
  recv_all-full e h =
      let round : s.win_left ≡ s.read_idx =
        places
        ∙ ap (λ k. (s.read_idx + k) % size) e
        ∙ add-mod_right s.read_idx size
        ∙ mod-eq_of_lt read_in in
      ground arith

  recv_all-full_from_start : s.readable_bytes ≡ size → s.read_idx ≡ 0 → recv_all size s ≢ none
  unfolding recv_all
  recv_all-full_from_start e h k = ground arith

  -- Where the window begins as many places after the reader's as bytes are unread, at most a ring
  -- of them: recv_all copies past the end of the ring exactly if the ring is full of unread bytes
  -- and they do not begin at its start.
  pub recv_all-none_iff :
      s.readable_bytes ≤ size
      → (recv_all size s ≡ none) ↔ ((s.readable_bytes ≡ size) × (0 < s.read_idx))
  recv_all-none_iff top = (
    λ e. elim (ℕ_discrete s.readable_bytes size) [
      | yes full ↦ elim (ℕ_discrete s.read_idx 0) [
        | yes start ↦ absurd (recv_all-full_from_start full start e)
        | no ne ↦ (full, omega arith)
      ]
      | no ne ↦ absurd (recv_all-room (omega arith) e)
    ],
    λ h. recv_all-full h.0 h.1,
  )
