-- ===== src/Protocol/Packet/Digits.antt =====
-- The numbers of a packet's text in protocol/parser_module.hpp: read back, the digits of a number
-- give the number.
use cortono.Prelude.{
  Text, [], ◌∷◌, ◌++◌, ℕ, zero, suc, ◌+◌, ◌*◌, ◌/◌, ◌%◌, ◌^◌, ◌<◌, ◌≡◌, refl, ap, ap₂, sym, ◌∙◌,
  arith, length, length-append,
}
use mathlib.Core.List.{reverse-cons}
use native.Mathlib.Nat.{
  mod-eq_of_lt, mod-add-div', add-mul-mod_self_right, mod-add-mod, add-mod-mod, mul_assoc,
  pow-succ',
}
use cortono.Protocol.Packet.{
  digit_value, ten_digits, conv_to_ten_digits, low_digits, conv_to_string,
}

-- The value of binary digits, and of the place before them, with no bound.
abbrev place : Text → ℕ
place [] = 1
place (c ∷ cs) = place cs * 2

abbrev value : Text → ℕ
value [] = 0
value (c ∷ cs) = value cs + place cs * digit_value c

distribute : (x y d m : ℕ) → (x + y * m) * d ≡ x * d + y * d * m
distribute x y d m = grind arith

mul-mod : (b d m : ℕ) → b % m * d % m ≡ b * d % m
mul-mod b d m = sym (
    ap (λ k. k * d % m) (sym (mod-add-div' b m))
    ∙ ap (λ k. k % m) (distribute (b % m) (b / m) d m)
    ∙ add-mul-mod_self_right (b % m * d) (b / m * d) m)

add_mul-mod : (a b d m : ℕ) → (a % m + b % m * d) % m ≡ (a + b * d) % m
add_mul-mod a b d m =
    mod-add-mod a m (b % m * d)
    ∙ sym (add-mod-mod a (b % m * d) m)
    ∙ ap (λ k. (a + k) % m) (mul-mod b d m)
    ∙ add-mod-mod a (b * d) m

ten_digits-value : (cs : Text) → ten_digits 2 cs ≡ (value cs % 2 ^ 64, place cs % 2 ^ 64)
unfolding ten_digits
ten_digits-value [] = refl
ten_digits-value (c ∷ cs) = rw (ten_digits-value cs) (
    ap₂ (λ (res base : ℕ). (res, base)) (add_mul-mod (value cs) (place cs) (digit_value c) (2 ^ 64))
      (mul-mod (place cs) 2 (2 ^ 64)))

value-append :
    (cs : Text) (c : ℕ)
    → (value (cs ++ c ∷ []) ≡ digit_value c + 2 * value cs) × (place (cs ++ c ∷ []) ≡ 2 * place cs)
value-append [] c = (omega arith, refl)
value-append (x ∷ cs) c =
    let (v, p) = value-append cs c in
    (
      omega (arith, v, ap (λ k. k * digit_value x) p, mul_assoc 2 (place cs) (digit_value x)),
      omega (arith, p),
    )

conv_to_string-zero : (n : ℕ) → conv_to_string 2 n 0 ≡ []
unfolding conv_to_string
conv_to_string-zero n = refl

conv_to_string-suc :
    (n len : ℕ) → conv_to_string 2 n (suc len) ≡ conv_to_string 2 (n / 2) len ++ (b'0' + n % 2) ∷ []
unfolding conv_to_string
conv_to_string-suc n len = reverse-cons (b'0' + n % 2) (low_digits 2 (n / 2) len)

digit_value-bit : (n : ℕ) → digit_value (b'0' + n % 2) ≡ n % 2
digit_value-bit n = ground arith

value-conv_to_string : (n len : ℕ) → n < 2 ^ len → value (conv_to_string 2 n len) ≡ n
value-conv_to_string n zero h = rw (conv_to_string-zero n) (omega arith)
value-conv_to_string n (suc len) h = rw (conv_to_string-suc n len) (
    (value-append (conv_to_string 2 (n / 2) len) (b'0' + n % 2)).0
    ∙ omega (
      arith,
      digit_value-bit n,
      value-conv_to_string (n / 2) len (omega (arith, pow-succ' 2 len)),
    ))

pub length-conv_to_string : (n len : ℕ) → length (conv_to_string 2 n len) ≡ len
length-conv_to_string n zero = rw (conv_to_string-zero n)
length-conv_to_string n (suc len) = rw (conv_to_string-suc n len) (
    omega (
      arith,
      length-append (conv_to_string 2 (n / 2) len) ((b'0' + n % 2) ∷ []),
      length-conv_to_string (n / 2) len,
    ))

-- A number that fits in its digits, and in 64 bits, is read back.
pub conv_to_ten_digits-conv_to_string :
    (n len : ℕ) → n < 2 ^ len → n < 2 ^ 64 → conv_to_ten_digits 2 (conv_to_string 2 n len) ≡ n
unfolding conv_to_ten_digits
conv_to_ten_digits-conv_to_string n len h k =
    ap (λ q. q.0) (ten_digits-value (conv_to_string 2 n len))
    ∙ ap (λ v. v % 2 ^ 64) (value-conv_to_string n len h)
    ∙ mod-eq_of_lt k
