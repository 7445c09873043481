-- ===== src/Protocol/SlideWindow/Stream.antt =====
-- What the receiver of protocol/slide_window.hpp gives to its reader, in whatever order the packets
-- of the peer's stream arrive, and however often.
use cortono.Prelude.{
  Text, [], ◌++◌, ℕ, zero, suc, ◌+◌, ◌-◌, ◌*◌, ◌%◌, ◌^◌, ◌<◌, ◌≤◌, ◌≡◌, refl, ap, ap₂, sym, ◌∙◌,
  arith, true, false, length, some, replicate, length-replicate, length-append,
}
use native.Mathlib.Nat.{mod-eq_of_lt, zero-mod, zero-add}
use mathlib.Core.Path.{subst}
use cortono.Protocol.SlideWindow.{SlideWindow, created, test, set_flag_if_valid, recv_all}
use cortono.Protocol.SlideWindow.Modular.{slice, length-slice, slice-append}
use cortono.Protocol.SlideWindow.Range.{Near}
use cortono.Protocol.SlideWindow.Arrive.{arrive-Follows, set_flag_if_valid-took}
use cortono.Protocol.SlideWindow.Follows.{Follows}
use cortono.Protocol.SlideWindow.Read.{recv_all-Follows}

test-replicate : (n i : ℕ) → test (replicate n false) i ≡ false
test-replicate zero i = refl
test-replicate (suc n) zero = refl
test-replicate (suc n) (suc i) = test-replicate n i

module _ (size w : ℕ) (f : ℕ → ℕ) where
  pub created-Follows : (l : ℕ) → l ≤ size → w < size → Follows size w f 0 0 l (created size w)
  created-Follows l k h = record {
    ordered = omega arith;
    within = omega arith;
    bounded = omega arith;
    left = sym (zero-mod size);
    right = sym (ap (λ k. k % size) (zero-add w) ∙ mod-eq_of_lt h);
    read = sym (zero-mod size);
    count = omega arith;
    bits = length-replicate size false;
    room = length-replicate {A = ℕ} size 0;
    unread = λ i p q. absurd (omega arith);
    ahead = λ i p q t. let off = test-replicate size (i % size) in cc;
  }

  -- The receiver's history, with what the reader has got. A packet is a run of the stream that may
  -- still be on the way, and arrives while there is room for a window beside what is unread.
  pub data Run : SlideWindow → Text → Type 0 where
    start : Run (created size w) []
    arrive :
        {s : SlideWindow} {t : Text} (a len : ℕ)
        → Run s t
        → Near size w (length t + s.readable_bytes) a len
        → s.readable_bytes + w < size
        → Run (set_flag_if_valid size (slice f a len) (a % size) s).0 t
    read :
        {s s' : SlideWindow} {t bytes : Text}
        → Run s t
        → recv_all size s ≡ some (bytes, s')
        → Run s' (t ++ bytes)

-- Two runs of the stream that follow one another.
pub length-joined :
    (f : ℕ → ℕ) (t bytes : Text) (n : ℕ)
    → length t ≤ n
    → bytes ≡ slice f (length t) (n - length t)
    → length (t ++ bytes) ≡ n
length-joined f t bytes n h e =
    omega (arith, length-append t bytes, ap length e, length-slice f (length t) (n - length t))

pub joined :
    (f : ℕ → ℕ) (t bytes : Text) (n : ℕ)
    → length t ≤ n
    → t ≡ slice f 0 (length t)
    → bytes ≡ slice f (length t) (n - length t)
    → t ++ bytes ≡ slice f 0 (length (t ++ bytes))
joined f t bytes n h et eb =
    ap₂ ◌++◌ et (eb ∙ ap (λ k. slice f k (n - length t)) {x = length t} (omega arith))
    ∙ slice-append f 0 (length t) (n - length t)
    ∙ ap (slice f 0) {x = length t + (n - length t)} (omega (arith, length-joined f t bytes n h eb))

module _ (size w : ℕ) (f : ℕ → ℕ) (some_width : 0 < w) (narrow : 2 * w < size)
    (small : size ≤ 2 ^ 63) where
  -- What the history comes to.
  abbrev pub Delivers : SlideWindow → Text → Type 0
  Delivers s t =
      (n : ℕ) × (l : ℕ) × (l ≤ n + w)
      × (l < length t + size)
      × (t ≡ slice f 0 (length t))
      × Follows size w f (length t) n l s

  Run-Delivers : {s : SlideWindow} {t : Text} → Run size w f s t → Delivers s t
  Run-Delivers start =
      (0, w, omega arith, omega arith, refl, created-Follows size w f w (omega arith) (omega arith))
  Run-Delivers (arrive {s} {t} a len r near room) =
      let (n, l, le, lt, e, v) = Run-Delivers r in
      let at : length t + s.readable_bytes ≡ n = omega (arith, v.count, v.ordered) in
      let (n', l', up, le', v', _) =
        arrive-Follows size w f some_width narrow small a len (n + w) (omega arith) le (omega arith)
          (λ h. h) (rw at at near) v in
      (n', l', omega arith, omega arith, e, v')
  Run-Delivers (read {s} {s'} {t} {bytes} r e) =
      let (n, l, le, lt, et, v) = Run-Delivers r in
      let (u, eu, vu) =
        recv_all-Follows size w f (omega arith) {m = length t} {n = n} (omega (arith, v.within))
          v in
      let eb : bytes ≡ slice f (length t) (n - length t) = cc in
      let es : s' ≡ u = cc in
      let len : length (t ++ bytes) ≡ n = length-joined f t bytes n v.ordered eb in
      (
        n,
        l,
        le,
        omega (arith, v.ordered),
        joined f t bytes n v.ordered et eb,
        subst (λ k. Follows size w f k n l s') (sym len)
            (subst (Follows size w f n n l) (sym es) vu),
      )

  -- In every history of the receiver, whatever runs of the stream arrive in whatever order while
  -- they may be on the way and a window fits beside what is unread, what the reader has got is the
  -- beginning of the stream.
  pub Run-prefix : {s : SlideWindow} {t : Text} → Run size w f s t → t ≡ slice f 0 (length t)
  Run-prefix r = let (n, l, le, lt, e, v) = Run-Delivers r in e

  -- In every history of the receiver where a window fits beside what is unread whenever a packet
  -- arrives (the unread bytes and the window are fewer than the places of the ring), recv_all
  -- stays in the ring and returns the bytes of the stream that stand ready, those next to what the
  -- reader has; then none stands ready.
  pub Run-recv_all :
      {s : SlideWindow} {t : Text}
      → Run size w f s t
      → (s' : SlideWindow) × (recv_all size s ≡ some (slice f (length t) s.readable_bytes, s'))
        × (s'.readable_bytes ≡ 0)
  Run-recv_all {s} {t} r =
      let (n, l, le, lt, e, v) = Run-Delivers r in
      let (s', e', v') =
        recv_all-Follows size w f (omega arith) {m = length t} {n = n} (omega (arith, v.within))
          v in
      (s', e' ∙ ap (λ k. some (slice f (length t) k, s')) (sym v.count), omega (arith, v'.count))

  -- In every history of the receiver where a window fits beside what is unread: the next packet of
  -- the stream, if it has a byte and is shorter than the window, is taken; at least its bytes are
  -- ready more than before, and the loop over the early bytes ends by its test.
  pub Run-progress :
      {s : SlideWindow} {t : Text} (len : ℕ)
      → Run size w f s t
      → s.readable_bytes + w < size
      → 0 < len
      → len < w
      → let a = length t + s.readable_bytes in
        let (s', took) = set_flag_if_valid size (slice f a len) (a % size) s in
        (took ≡ true)
        × (s.readable_bytes + len ≤ s'.readable_bytes)
        × (test s'.window s'.win_left ≡ false)
  Run-progress {s} {t} len r room pos short =
      let (n, l, le, lt, e, v) = Run-Delivers r in
      let at : length t + s.readable_bytes ≡ n = omega (arith, v.count, v.ordered) in
      let near : Near size w n n len = omega arith in
      let took = set_flag_if_valid-took size w f some_width narrow small v pos short in
      let (n', l', up, le', v', done) =
        arrive-Follows size w f some_width narrow small n len (n + w) (omega arith) le (omega arith)
          (λ h. h) near v in
      let (off, passed) = done took in
      rw at (took, omega (arith, v.count, v'.count, v.ordered, passed refl), off)
