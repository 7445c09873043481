-- ===== src/Protocol/SlideWindow/Receive.antt =====
-- The loops of `set_flag_if_valid` in protocol/slide_window.hpp.
use cortono.Prelude.{
  ℕ, zero, suc, ◌+◌, ◌-◌, ◌%◌, ◌<◌, ◌≤◌, ◌≡◌, ap, ap₂, sym, ◌∙◌, arith, ◌^◌, true, false, set,
  Bool-cases, inl, inr, ◌==◌, ==_iff,
}
use native.Mathlib.Nat.{mod-lt, add-zero}
use native.Mathlib.Decide.{ℕ_discrete}
use cortono.Protocol.SlideWindow.{SlideWindow, test, store, store_byte, store_from, drain}
use cortono.Protocol.SlideWindow.Modular.{not-==, mod-ne, place-mod, slice}
use cortono.Protocol.SlideWindow.Follows.{Follows, store-Follows, advance-Follows, test-set_self}

module _ (size w : ℕ) (f : ℕ → ℕ) (pos : 0 < size) (small : size ≤ 2 ^ 63) where
  -- What a part of the handler leaves: the left bound has not gone back, and has gone up to `goal` if
  -- it stood at `a`.
  abbrev pub Moves : ℕ → ℕ → ℕ → ℕ → ℕ → SlideWindow → Type 0
  Moves m n l a goal s =
      (n' : ℕ) × (n ≤ n') × (n' ≤ goal) × (a ≡ n → goal ≤ n') × Follows size w f m n' l s

  store_byte-Moves :
      {m n l : ℕ} {s : SlideWindow} (a : ℕ)
      → n ≤ a
      → a < l
      → Follows size w f m n l s
      → Moves m n l a (a + 1) (store_byte size (a % size) (f a) s)
  unfolding store_byte store
  store_byte-Moves {m} {n} {l} {s} a h k v = elim (ℕ_discrete a n) [
    | yes e ↦
        let at : s.win_left ≡ a % size = v.left ∙ ap (λ i. i % size) (sym e) in
        let on : test (set s.window (a % size) true) s.win_left ≡ true =
          ap (test (set s.window (a % size) true)) at
          ∙ test-set_self s.window (a % size) true (omega (arith, mod-lt a pos, v.bits)) in
        rw ((==_iff s.win_left (a % size)).1 at) (
          n + 1,
          omega arith,
          omega arith,
          λ _. omega arith,
          advance-Follows size w f pos small (store-Follows size w f pos small a h k v) on,
        )
    | no ne ↦
        let off : (s.win_left == a % size) ≡ false =
          not-== s.win_left (a % size)
            (rw v.left (mod-ne size n a (omega arith) (omega (arith, v.bounded, v.ordered)))) in
        rw off (
          n,
          omega arith,
          omega arith,
          λ e. absurd (ne e),
          store-Follows size w f pos small a h k v,
        )
  ]

  store_from-suc :
      (a i k : ℕ) (s : SlideWindow)
      → i ≤ size
      → store_from size (a % size) i (slice f (a + i) (suc k)) s
        ≡ store_from size
            (a % size)
            (i + 1)
            (slice f (a + (i + 1)) k)
            (store_byte size ((a + i) % size) (f (a + i)) s)
  unfolding store_from
  store_from-suc a i k s h =
      ap₂
        (λ p q. store_from size (a % size) (i + 1) (slice f q k) (store_byte size p (f (a + i)) s))
        {u = a + i + 1} {v = a + (i + 1)} (place-mod size a i pos small h) (omega arith)

  -- The loop over the bytes of a packet that begins with the byte `a`, at its byte `i`.
  store_from-Moves :
      (k a i : ℕ) {m n l : ℕ} {s : SlideWindow}
      → n ≤ a + i
      → a + i + k ≤ l
      → i + k ≤ size
      → Follows size w f m n l s
      → Moves m n l (a + i) (a + i + k) (store_from size (a % size) i (slice f (a + i) k) s)
  unfolding store_from
  store_from-Moves zero a i {m} {n} {l} {s} h b c v =
      (n, omega arith, omega arith, λ e. omega arith, v)
  store_from-Moves (suc k) a i {m} {n} {l} {s} h b c v =
      let (n', up, top, next, v') = store_byte-Moves (a + i) h (omega arith) v in
      let (n'', up', top', next', v'') =
        store_from-Moves k a (i + 1) (omega arith) (omega arith) (omega arith) v' in
      rw (store_from-suc a i k s (omega arith)) (
        n'',
        omega arith,
        omega arith,
        λ at. let step = next at in omega (arith, next' (omega arith)),
        v'',
      )

  -- All of it.
  pub store_bytes-Moves :
      (len a : ℕ) {m n l : ℕ} {s : SlideWindow}
      → n ≤ a
      → a + len ≤ l
      → len ≤ size
      → Follows size w f m n l s
      → Moves m n l a (a + len) (store_from size (a % size) 0 (slice f a len) s)
  store_bytes-Moves len a {m} {n} {l} {s} h b c v = rw (add-zero a) at (
      store_from-Moves len a 0 {m = m} {n = n} {l = l} {s = s} (omega arith) (omega arith)
        (omega arith) v)

  -- At the limit no bit is set.
  off_at_limit :
      {m n l : ℕ} {s : SlideWindow}
      → l ≤ n
      → Follows size w f m n l s
      → test s.window s.win_left ≡ false
  off_at_limit {m} {n} {l} {s} h v = elim (Bool-cases (test s.window s.win_left)) [
    | inl e ↦ absurd (omega (arith, (v.ahead n (omega arith) (omega arith) (rw (← v.left) e)).0))
    | inr e ↦ e
  ]

  -- The loop that passes the bytes that came early: it ends by its test.
  pub drain-Follows :
      (fuel : ℕ) {m n l : ℕ} {s : SlideWindow}
      → l - n ≤ fuel
      → Follows size w f m n l s
      → (n' : ℕ) × (n ≤ n')
        × Follows size w f m n' l (drain size fuel s)
        × (test (drain size fuel s).window (drain size fuel s).win_left ≡ false)
  unfolding drain
  drain-Follows zero {m} {n} {l} {s} h v = (n, omega arith, v, off_at_limit (omega arith) v)
  drain-Follows (suc fuel) {m} {n} {l} {s} h v = elim (Bool-cases (test s.window s.win_left)) [
    | inl e ↦
        let (n', up, v', off) =
          drain-Follows fuel (omega arith) (advance-Follows size w f pos small v e) in
        rw (e, drain) (n', omega arith, v', off)
    | inr e ↦ rw (e, drain) (n, omega arith, v, e)
  ]
