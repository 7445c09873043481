-- ===== src/Protocol/SlideWindow/Modular.antt =====
-- Places of a ring, and runs of a stream of bytes.
use cortono.Prelude.{
  Text, [], ◌∷◌, ◌++◌, ℕ, zero, suc, ◌+◌, ◌-◌, ◌%◌, ◌<◌, ◌≤◌, ◌≡◌, ◌≢◌, refl, ap, ◌∙◌, arith,
  length, get_elem?, some, ◌==◌, false, take, drop, drop-eq-cons, ◌⊎◌, inl, inr, ◌^◌,
}
use native.Mathlib.Nat.{
  add-zero, zero-add, mod-add-mod, mod-lt, add-mod_right, mod-eq_of_lt, mod-eq-sub-mod,
}
use cortono.Protocol.SlideWindow.{add64}
use native.Mathlib.Decide.{dec_lt}

pub not-== : (a b : ℕ) → a ≢ b → (a == b) ≡ false
not-== a b h = ground arith

-- A step of `d` from the place `r`, once round at most.
step-mod :
    (size r d : ℕ)
    → r < size
    → d < size
    → ((r + d) % size ≡ r + d) ⊎ (((r + d) % size) + size ≡ r + d)
step-mod size r d h k = elim (dec_lt (r + d) size) [
  | yes p ↦ inl (mod-eq_of_lt p)
  | no p ↦ inr (
      omega (
        arith,
        mod-eq-sub-mod {n = r + d} {m = size} (omega arith),
        mod-eq_of_lt {n = r + d - size} {m = size} (omega arith),
      ))
]

-- Where a step from `i` leads, told by the place of `i`.
pub add-mod-cases :
    (size i d : ℕ)
    → d < size
    → ((i + d) % size ≡ i % size + d) ⊎ (((i + d) % size) + size ≡ i % size + d)
add-mod-cases size i d h =
    rw (← mod-add-mod i size d) (step-mod size (i % size) d (mod-lt i (omega arith)) h)

-- Two numbers that differ by less than the size of the ring have different places.
pub mod-ne : (size i j : ℕ) → i < j → j < i + size → i % size ≢ j % size
mod-ne size i j h k e =
    let back : j ≡ i + (j - i) = omega arith in
    elim (add-mod-cases size i (j - i) (omega arith)) [
      | inl c ↦ omega (arith, e ∙ ap (λ n. n % size) back, c)
      | inr c ↦ omega (arith, e ∙ ap (λ n. n % size) back, c)
    ]

-- A whole round more is the same place.
pub add-mod_self : (size i : ℕ) → (i + size) % size ≡ i % size
add-mod_self size i = add-mod_right i size

-- The next place, written as the window writes it.
pub next-mod : (size i : ℕ) → 0 < size → size ≤ 2 ^ 63 → add64 (i % size) 1 % size ≡ (i + 1) % size
next-mod size i h small =
    ap (λ n. n % size) (mod-eq_of_lt {m = 2 ^ 64} (omega (arith, mod-lt i h)))
    ∙ mod-add-mod i size 1

-- The `k` bytes of a stream from the one numbered `a` on.
abbrev pub slice : (ℕ → ℕ) → ℕ → ℕ → Text
slice f a zero = []
slice f a (suc k) = f a ∷ slice f (a + 1) k

pub length-slice : (f : ℕ → ℕ) (a k : ℕ) → length (slice f a k) ≡ k
length-slice f a zero = refl
length-slice f a (suc k) = ap suc (length-slice f (a + 1) k)

pub slice-append : (f : ℕ → ℕ) (a j k : ℕ) → slice f a j ++ slice f (a + j) k ≡ slice f a (j + k)
slice-append f a zero k = rw (zero-add k, add-zero a)
slice-append f a (suc j) k =
    let e : a + suc j ≡ a + 1 + j = omega arith in
    let e' : suc j + k ≡ suc (j + k) = omega arith in
    rw (e, e') (ap (f a ∷◌) (slice-append f (a + 1) j k))

-- A part of an array that agrees with the stream at each place is a run of the stream.
pub take-drop-slice :
    (f : ℕ → ℕ) (xs : Text) (r a k : ℕ)
    → ((j : ℕ) → j < k → get_elem? xs (r + j) ≡ some (f (a + j)))
    → take k (drop r xs) ≡ slice f a k
take-drop-slice f xs r a zero h = refl
take-drop-slice f xs r a (suc k) h =
    let first : get_elem? xs r ≡ some (f a) = rw (add-zero r, add-zero a) at (h 0 (omega arith)) in
    rw (drop-eq-cons r xs first) (
      ap (f a ∷◌) (
        take-drop-slice f xs (r + 1) (a + 1) k λ j lt.
          let e : r + 1 + j ≡ r + (j + 1) = omega arith in
          let e' : a + 1 + j ≡ a + (j + 1) = omega arith in rw (e, e') (h (j + 1) (omega arith))))

-- The place of the byte numbered `i` of a packet that begins at `a`, as the loop computes it.
pub place-mod :
    (size a i : ℕ)
    → 0 < size
    → size ≤ 2 ^ 63
    → i ≤ size
    → add64 (a % size) i % size ≡ (a + i) % size
place-mod size a i h small k =
    ap (λ n. n % size) (mod-eq_of_lt {m = 2 ^ 64} (omega (arith, mod-lt a h)))
    ∙ mod-add-mod a size i
