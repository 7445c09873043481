-- ===== src/Prelude/Decimal.antt =====
-- Whole numbers written in decimal.
use mathlib.Core.Path.{◌≡◌, refl}
use mathlib.Core.Bool.{Bool, true, false, ◌&&◌}
use mathlib.Core.List.{[], ◌∷◌}
use Prim.Native.Nat.{ℕ, zero, suc, ◌+◌, ◌/◌, ◌%◌, ◌^◌, ◌<◌, ◌≤◌}
use native.Mathlib.Nat.{pow-suc}
use native.Mathlib.Omega.{arith}
use cortono.Prelude.Tests.{ltb, leb, if◌then◌else◌}
use cortono.Prelude.Lists.{length, all}
use cortono.Prelude.Texts.{Text, avoids}

-- `"" + n` for a whole number: its decimal digits, on fuel that exceeds their number.
abbrev pub digit : ℕ → ℕ
digit n = b'0' + n % 10

digits_fuel : ℕ → ℕ → Text → Text
digits_fuel zero n acc = acc
digits_fuel (suc f) n acc =
    let more = digits_fuel f (n / 10) (digit n ∷ acc) in if ltb n 10 then digit n ∷ acc else more

unfoldable pub decimal : ℕ → Text
unfolding digits_fuel
decimal n = digits_fuel (suc n) n []

abbrev pub is_digit : ℕ → Bool
is_digit c = leb b'0' c && leb c b'9'

digits_fuel-is_digit :
    (f n : ℕ) (acc : Text) → all is_digit acc ≡ true → all is_digit (digits_fuel f n acc) ≡ true
unfolding digits_fuel
digits_fuel-is_digit zero n acc h = h
digits_fuel-is_digit (suc f) n acc h =
    ground (arith, digits_fuel-is_digit f (n / 10) (digit n ∷ acc))

pub decimal-is_digit : (n : ℕ) → all is_digit (decimal n) ≡ true
unfolding decimal
decimal-is_digit n = digits_fuel-is_digit (suc n) n [] refl

pub avoids_of_is_digit :
    (c : ℕ) (s : Text) → is_digit c ≡ false → all is_digit s ≡ true → avoids c s ≡ true
avoids_of_is_digit c [] h k = refl
avoids_of_is_digit c (x ∷ s) h k = ground (arith, avoids_of_is_digit c s)

-- No unit but a digit is written.
pub decimal-avoids : (c n : ℕ) → is_digit c ≡ false → avoids c (decimal n) ≡ true
decimal-avoids c n h = avoids_of_is_digit c (decimal n) h (decimal-is_digit n)

length-digits_fuel-le :
    (k f n : ℕ) (acc : Text)
    → n < f
    → n < 10 ^ suc k
    → length (digits_fuel f n acc) ≤ suc k + length acc
unfolding digits_fuel
length-digits_fuel-le k zero n acc p h = absurd (omega arith)
length-digits_fuel-le zero (suc f) n acc p h = ground (arith)
length-digits_fuel-le (suc k) (suc f) n acc p h =
    ground (arith, pow-suc 10 (suc k), length-digits_fuel-le k f (n / 10) (digit n ∷ acc))

length-digits_fuel : (f n : ℕ) (acc : Text) → length acc ≤ length (digits_fuel f n acc)
unfolding digits_fuel
length-digits_fuel zero n acc = omega arith
length-digits_fuel (suc f) n acc = ground (arith, length-digits_fuel f (n / 10) (digit n ∷ acc))

pow_pos : (k : ℕ) → 1 ≤ 10 ^ k
pow_pos zero = omega arith
pow_pos (suc k) = omega (arith, pow-suc 10 k, pow_pos k)

length-digits_fuel-ge :
    (k f n : ℕ) (acc : Text)
    → n < f
    → 10 ^ k ≤ n
    → suc k + length acc ≤ length (digits_fuel f n acc)
unfolding digits_fuel
length-digits_fuel-ge k zero n acc p h = absurd (omega arith)
length-digits_fuel-ge zero (suc f) n acc p h =
    ground (arith, length-digits_fuel f (n / 10) (digit n ∷ acc))
length-digits_fuel-ge (suc k) (suc f) n acc p h =
    ground (arith, pow-suc 10 k, pow_pos k, length-digits_fuel-ge k f (n / 10) (digit n ∷ acc))

-- A number has k + 1 digits exactly when it lies between the powers k and k + 1 of ten.
pub length-decimal-le : (k n : ℕ) → n < 10 ^ suc k → length (decimal n) ≤ suc k
unfolding decimal
length-decimal-le k n h = omega (arith, length-digits_fuel-le k (suc n) n [] (omega arith) h)

pub length-decimal-ge : (k n : ℕ) → 10 ^ k ≤ n → suc k ≤ length (decimal n)
unfolding decimal
length-decimal-ge k n h = omega (arith, length-digits_fuel-ge k (suc n) n [] (omega arith) h)

pub length-decimal-pos : (n : ℕ) → 1 ≤ length (decimal n)
unfolding decimal digits_fuel
length-decimal-pos n = ground (arith, length-digits_fuel n (n / 10) (digit n ∷ []))

-- A number below ten is its digit.
pub decimal-one : (n : ℕ) → n < 10 → decimal n ≡ digit n ∷ []
unfolding decimal digits_fuel
decimal-one n h = ground arith

-- A number of two digits.
pub decimal-two : (n : ℕ) → 10 ≤ n → n < 100 → decimal n ≡ digit (n / 10) ∷ digit n ∷ []
unfolding decimal digits_fuel
decimal-two zero a b = absurd (omega arith)
decimal-two (suc n) a b = ground arith
