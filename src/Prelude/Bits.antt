-- ===== src/Prelude/Bits.antt =====
-- The operations on bits that the code uses: shifts, and the union of bits that do not meet.
use Prim.Native.Nat.{ℕ, zero, suc, ◌+◌, ◌*◌, ◌/◌, ◌≤◌, ◌<◌, max, digits, bit_or, bit_or-bitwise}
use mathlib.Core.Path.{◌≡◌, refl, ◌∙◌}
use native.Mathlib.Omega.{arith}

-- `a << k`, below 2 ^ 31
abbrev pub shift_left : ℕ → ℕ → ℕ
shift_left a zero = a
shift_left a (suc k) = 2 * shift_left a k

-- the union of digits, where the first number has the high ones
digits-high :
    (n k h a b : ℕ)
    → h ≡ shift_left a k
    → h ≤ n
    → b < shift_left 1 k
    → digits (λ b. b) max n h b ≡ h + b
digits-high zero k zero a b e l s = omega arith
digits-high zero k (suc h) a b e l s = absurd (omega arith)
digits-high (suc n) k zero a b e l s = omega arith
digits-high (suc n) zero (suc h) a b e l s =
    omega
      (arith, digits-high n zero (suc h / 2) (suc h / 2) (b / 2) refl (omega arith) (omega arith))
digits-high (suc n) (suc k) (suc h) a b e l s =
    omega (arith, digits-high n k (suc h / 2) a (b / 2) (omega arith) (omega arith) (omega arith))

-- the same, where it has the low ones
digits-low :
    (n k b a h : ℕ)
    → h ≡ shift_left a k
    → b ≤ n
    → b < shift_left 1 k
    → digits (λ b. b) max n b h ≡ b + h
digits-low zero k zero a h e l s = omega arith
digits-low zero k (suc b) a h e l s = absurd (omega arith)
digits-low (suc n) k zero a h e l s = omega arith
digits-low (suc n) zero (suc b) a h e l s = absurd (omega arith)
digits-low (suc n) (suc k) (suc b) a h e l s =
    omega (arith, digits-low n k (suc b / 2) a (h / 2) (omega arith) (omega arith) (omega arith))

pub bit_or-shift_left :
    (k a b : ℕ) → b < shift_left 1 k → bit_or (shift_left a k) b ≡ shift_left a k + b
bit_or-shift_left k a b s =
    bit_or-bitwise (shift_left a k) b
    ∙ digits-high (shift_left a k) k (shift_left a k) a b refl (omega arith) s

pub bit_or_low : (k a b : ℕ) → b < shift_left 1 k → bit_or b (shift_left a k) ≡ b + shift_left a k
bit_or_low k a b s =
    bit_or-bitwise b (shift_left a k) ∙ digits-low b k b a (shift_left a k) refl (omega arith) s
