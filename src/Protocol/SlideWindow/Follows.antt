-- ===== src/Protocol/SlideWindow/Follows.antt =====
-- The receiver of protocol/slide_window.hpp against the stream that the peer sends: what its ring
-- holds, and that a byte stored or passed keeps it so.
use cortono.Prelude.{
  List, [], ◌∷◌, ℕ, zero, suc, ◌+◌, ◌-◌, ◌%◌, ◌<◌, ◌≤◌, ◌≡◌, ◌≢◌, refl, ap, sym, ◌∙◌, arith, ◌^◌,
  Bool, true, false, length, get_elem?, set, some, length-set, get_elem?-set_self, get_elem?-set_ne,
}
use native.Mathlib.Nat.{mod-lt}
use native.Mathlib.Decide.{dec_lt, ℕ_discrete}
use cortono.Protocol.SlideWindow.{SlideWindow, test, advance, store}
use cortono.Protocol.SlideWindow.Modular.{mod-ne, add-mod_self, next-mod}

pub test-set_self : (bs : List Bool) (i : ℕ) (v : Bool) → i < length bs → test (set bs i v) i ≡ v
test-set_self [] i v h = elim h [ ]
test-set_self (b ∷ bs) zero v h = refl
test-set_self (b ∷ bs) (suc i) v h = test-set_self bs i v (omega arith)

test-set_ne : (bs : List Bool) (i j : ℕ) (v : Bool) → i ≢ j → test (set bs i v) j ≡ test bs j
test-set_ne [] i j v h = refl
test-set_ne (b ∷ bs) zero zero v h = absurd (h refl)
test-set_ne (b ∷ bs) zero (suc j) v h = refl
test-set_ne (b ∷ bs) (suc i) zero v h = refl
test-set_ne (b ∷ bs) (suc i) (suc j) v h = test-set_ne bs i j v (λ e. h (ap suc e))

-- The bytes of the stream `f` before `m` are read, those before `n` are ready. A bit that is set
-- belongs to a byte before `l` that came early and stands in its place.
pub record Follows (size w : ℕ) (f : ℕ → ℕ) (m n l : ℕ) (s : SlideWindow) : Type 0 where
  pub ordered : m ≤ n
  pub within : n ≤ l
  pub bounded : l ≤ m + size
  pub left : s.win_left ≡ n % size
  pub right : s.win_right ≡ (n + w) % size
  pub read : s.read_idx ≡ m % size
  pub count : s.readable_bytes ≡ n - m
  pub bits : length s.window ≡ size
  pub room : length s.buffer ≡ size
  pub unread : (i : ℕ) → m ≤ i → i < n → get_elem? s.buffer (i % size) ≡ some (f i)
  pub ahead :
      (i : ℕ)
      → n ≤ i
      → i < n + size
      → test s.window (i % size) ≡ true
      → (i < l) × (get_elem? s.buffer (i % size) ≡ some (f i))

module _ (size w : ℕ) (f : ℕ → ℕ) (pos : 0 < size) (small : size ≤ 2 ^ 63) where
  -- The byte numbered `a` of the stream is stored in its place.
  pub store-Follows :
      {m n l : ℕ} {s : SlideWindow} (a : ℕ)
      → n ≤ a
      → a < l
      → Follows size w f m n l s
      → Follows size w f m n l (store (a % size) (f a) s)
  unfolding store
  store-Follows {m} {n} {l} {s} a h k v = record {
    ordered = v.ordered;
    within = v.within;
    bounded = v.bounded;
    left = v.left;
    right = v.right;
    read = v.read;
    count = v.count;
    bits = length-set s.window (a % size) true ∙ v.bits;
    room = length-set s.buffer (a % size) (f a) ∙ v.room;
    unread = λ i p q.
        get_elem?-set_ne s.buffer (a % size) (i % size) (f a)
          (λ e. mod-ne size i a (omega arith) (omega (arith, v.bounded)) (sym e))
        ∙ v.unread i p q;
    ahead = ahead';
  }
    where
      place : a % size < length s.buffer
      place = omega (arith, mod-lt a pos, v.room)

      apart : (i : ℕ) → n ≤ i → i < n + size → i ≢ a → a % size ≢ i % size
      apart i p q ne = elim (dec_lt i a) [
        | yes lt ↦ λ e. mod-ne size i a lt (omega (arith, v.bounded)) (sym e)
        | no ge ↦ mod-ne size a i (omega (arith)) (omega arith)
      ]

      ahead' :
          (i : ℕ)
          → n ≤ i
          → i < n + size
          → test (set s.window (a % size) true) (i % size) ≡ true
          → (i < l) × (get_elem? (set s.buffer (a % size) (f a)) (i % size) ≡ some (f i))
      ahead' i p q t = elim (ℕ_discrete i a) [
        | yes e ↦ (omega arith, rw e (get_elem?-set_self s.buffer (a % size) (f a) place))
        | no ne ↦
            let d = apart i p q ne in
            let old = v.ahead i p q (sym (test-set_ne s.window (a % size) (i % size) true d) ∙ t) in
            (old.0, get_elem?-set_ne s.buffer (a % size) (i % size) (f a) d ∙ old.1)
      ]

  -- A byte in its place at the left bound: the window passes it.
  pub advance-Follows :
      {m n l : ℕ} {s : SlideWindow}
      → Follows size w f m n l s
      → test s.window s.win_left ≡ true
      → Follows size w f m (n + 1) l (advance size s)
  unfolding advance
  advance-Follows {m} {n} {l} {s} v t = record {
    ordered = omega arith;
    within = omega (arith, here.0);
    bounded = v.bounded;
    left = rw v.left (next-mod size n pos small);
    right = rw v.right (next-mod size (n + w) pos small ∙ ap (λ k. k % size) (omega arith));
    read = v.read;
    count = omega (arith, v.count, v.bounded, here.0);
    bits = length-set s.window s.win_left false ∙ v.bits;
    room = v.room;
    unread = unread';
    ahead = ahead';
  }
    where
      here : (n < l) × (get_elem? s.buffer (n % size) ≡ some (f n))
      here = v.ahead n (omega arith) (omega arith) (rw (← v.left) t)

      unread' : (i : ℕ) → m ≤ i → i < n + 1 → get_elem? s.buffer (i % size) ≡ some (f i)
      unread' i p q = elim (dec_lt i n) [
        | yes lt ↦ v.unread i p lt
        | no ge ↦ let e : i ≡ n = omega arith in rw e here.1
      ]

      ahead' :
          (i : ℕ)
          → n + 1 ≤ i
          → i < n + 1 + size
          → test (set s.window s.win_left false) (i % size) ≡ true
          → (i < l) × (get_elem? s.buffer (i % size) ≡ some (f i))
      ahead' i p q t' = elim (dec_lt i (n + size)) [
        | yes lt ↦ v.ahead i (omega arith) lt (
            sym (
              test-set_ne s.window s.win_left (i % size) false
                (λ e. mod-ne size n i (omega arith) lt (sym v.left ∙ e)))
            ∙ t')
        | no ge ↦
            let e : i ≡ n + size = omega arith in
            let place : i % size ≡ s.win_left =
              ap (λ k. k % size) e ∙ add-mod_self size n ∙ sym v.left in
            let off =
              test-set_self s.window s.win_left false
                (omega (arith, v.left, v.bits, mod-lt n pos)) in
            let on : test (set s.window s.win_left false) s.win_left ≡ true =
              ap (test (set s.window s.win_left false)) (sym place) ∙ t' in
            cc
      ]
