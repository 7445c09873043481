-- ===== src/Protocol/SlideWindow/Arrive.antt =====
-- What a packet does to the receiver of protocol/slide_window.hpp.
use cortono.Prelude.{
  ℕ, ◌+◌, ◌*◌, ◌%◌, ◌^◌, ◌<◌, ◌≤◌, ◌≡◌, arith, true, false, length, Bool-cases, inl, inr,
}
use cortono.Protocol.SlideWindow.{
  SlideWindow, test, add64, in_valid_range, store_from, drain, set_flag_if_valid,
}
use cortono.Protocol.SlideWindow.Modular.{place-mod, slice, length-slice}
use cortono.Protocol.SlideWindow.Range.{Near, in_valid_range_sound, in_valid_range_complete}
use cortono.Protocol.SlideWindow.Follows.{Follows}
use cortono.Protocol.SlideWindow.Receive.{store_bytes-Moves, drain-Follows}

module _ (size w : ℕ) (f : ℕ → ℕ) where
  -- More bytes may come early.
  pub Follows-widen :
      {m n l l' : ℕ} {s : SlideWindow}
      → l ≤ l'
      → l' ≤ m + size
      → Follows size w f m n l s
      → Follows size w f m n l' s
  Follows-widen h k v = record {
    ordered = v.ordered;
    within = omega (arith, v.within);
    bounded = k;
    left = v.left;
    right = v.right;
    read = v.read;
    count = v.count;
    bits = v.bits;
    room = v.room;
    unread = v.unread;
    ahead = λ i p q t. let a = v.ahead i p q t in (omega (arith, a.0), a.1);
  }

module _ (size w : ℕ) (f : ℕ → ℕ) (some_width : 0 < w) (narrow : 2 * w < size)
    (small : size ≤ 2 ^ 63) where
  -- The loops of an accepted packet.
  accepted-Follows :
      {m n l : ℕ} {s : SlideWindow} (a len q : ℕ)
      → q ≤ m + size
      → l ≤ q
      → n ≤ a
      → a + len ≤ q
      → Follows size w f m n l s
      → let s' = drain size size (store_from size (a % size) 0 (slice f a len) s) in
        (n' : ℕ) × (n ≤ n')
        × (a ≡ n → n + len ≤ n')
        × Follows size w f m n' q s'
        × (test s'.window s'.win_left ≡ false)
  accepted-Follows {m} {n} {l} {s} a len q fits le from upto v =
      let (k, up, top, next, stored) =
        store_bytes-Moves size w f pos small len a from upto (omega (arith, v.ordered))
          (Follows-widen size w f le fits v) in
      let (n', up', drained, off) =
        drain-Follows size w f pos small size (omega (arith, v.ordered)) stored in
      (n', omega arith, λ e. let reached = next e in omega arith, drained, off)
    where
      pos : 0 < size
      pos = omega arith

  -- The end of the packet, as the handler computes it.
  end-mod :
      (a len : ℕ) → len ≤ size → add64 (a % size) (length (slice f a len)) % size ≡ (a + len) % size
  end-mod a len h = rw (length-slice f a len) (place-mod size a len (omega arith) small h)

  -- A packet that may be on the way, at the handler. No byte from `q` on has been sent.
  pub arrive-Follows :
      {m n l : ℕ} {s : SlideWindow} (a len q : ℕ)
      → n + w < m + size
      → l ≤ q
      → q ≤ n + w
      → (a + len ≤ n + w → a + len ≤ q)
      → Near size w n a len
      → Follows size w f m n l s
      → let (s', took) = set_flag_if_valid size (slice f a len) (a % size) s in
        (n' : ℕ) × (l' : ℕ) × (n ≤ n')
        × (l' ≤ q)
        × Follows size w f m n' l' s'
        × (took ≡ true → (test s'.window s'.win_left ≡ false) × (a ≡ n → n + len ≤ n'))
  unfolding set_flag_if_valid
  arrive-Follows {m} {n} {l} {s} a len q fits le sent below near v =
      rw (end-mod a len (omega (arith, near.short)))
        (elim (Bool-cases (in_valid_range size s (a % size) ((a + len) % size))) [
          | inl e ↦
              let (from, upto) =
                in_valid_range_sound size w some_width narrow s n a len v.left v.right near e in
              let (n', up, next, v', off) =
                accepted-Follows a len q (omega arith) le from (below upto) v in
              rw e (n', q, up, omega arith, v', λ _. (off, next))
          | inr e ↦ rw e (n, l, omega arith, le, v, λ e'. cc)
        ])

  -- The packet that is wanted next is taken, unless it fills the window.
  pub set_flag_if_valid-took :
      {m n l len : ℕ} {s : SlideWindow}
      → Follows size w f m n l s
      → 0 < len
      → len < w
      → (set_flag_if_valid size (slice f n len) (n % size) s).1 ≡ true
  unfolding set_flag_if_valid
  set_flag_if_valid-took {m} {n} {l} {len} {s} v h k = rw (
    end-mod n len (omega arith),
    in_valid_range_complete size w some_width narrow s n len v.left v.right h k,
  )
