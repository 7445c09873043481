-- ===== src/Next/Base64/Utf8.antt =====
-- exturl.js: the units of 16 bits that `_utf8_encode` writes are the ones that `_utf8_decode` reads.
use Prim.Native.Nat.{bit_or}
use cortono.Prelude.{
  Text, [], ◌∷◌, ◌++◌, ℕ, ◌+◌, ◌*◌, ◌/◌, ◌%◌, ◌<◌, ◌≤◌, ◌≡◌, refl, ap, ◌∙◌, Bool, true, false, ◌&&◌,
  arith, ltb, all, Bool-cases, inl, inr,
}
use cortono.Prelude.Bits.{shift_left, bit_or-shift_left, bit_or_low}
use cortono.Next.Base64.{utf8_unit, utf8_units, utf8_decode}

-- one byte
decode_one : (r : ℕ) (s : Text) → ltb r 128 ≡ true → utf8_decode (r ∷ s) ≡ r ∷ utf8_decode s
unfolding utf8_decode
decode_one r [] h = rw (h, utf8_decode) refl
decode_one r (c2 ∷ []) h = rw (h, utf8_decode) refl
decode_one r (c2 ∷ c3 ∷ s) h = rw (h, utf8_decode) refl

-- two bytes
decode_two :
    (r c2 : ℕ) (s : Text)
    → ltb r 128 ≡ false
    → (ltb 191 r && ltb r 224) ≡ true
    → utf8_decode (r ∷ c2 ∷ s) ≡ bit_or (shift_left (r % 32) 6) (c2 % 64) ∷ utf8_decode s
unfolding utf8_decode
decode_two r c2 [] h k = rw (h, k, utf8_decode) refl
decode_two r c2 (c3 ∷ s) h k = rw (h, k, utf8_decode) refl

-- three bytes
decode_three :
    (r c2 c3 : ℕ) (s : Text)
    → ltb r 128 ≡ false
    → (ltb 191 r && ltb r 224) ≡ false
    → utf8_decode (r ∷ c2 ∷ c3 ∷ s)
      ≡ bit_or (bit_or (shift_left (r % 16) 12) (shift_left (c2 % 64) 6)) (c3 % 64) ∷ utf8_decode s
unfolding utf8_decode
decode_three r c2 c3 s h k = rw (h, k, utf8_decode) refl

-- the marks of the bytes, as sums
mark_128 : (x : ℕ) → x < 64 → bit_or x 128 ≡ x + 128
mark_128 x h = bit_or_low 6 2 x h

mark_192 : (x : ℕ) → x < 64 → bit_or x 192 ≡ x + 192
mark_192 x h = bit_or_low 6 3 x h

mark_224 : (x : ℕ) → x < 32 → bit_or x 224 ≡ x + 224
mark_224 x h = bit_or_low 5 7 x h

join_6 : (a b : ℕ) → b < 64 → bit_or (shift_left a 6) b ≡ 64 * a + b
join_6 a b h = omega (arith, bit_or-shift_left 6 a b (omega arith))

high_bits : (a b : ℕ) → shift_left a 12 + shift_left b 6 ≡ shift_left (64 * a + b) 6
high_bits a b = omega arith

join_12 :
    (a b c : ℕ)
    → b < 64
    → c < 64
    → bit_or (bit_or (shift_left a 12) (shift_left b 6)) c ≡ 4096 * a + 64 * b + c
join_12 a b c h k =
    ap (λ (x : ℕ). bit_or x c)
      (bit_or-shift_left 12 a (shift_left b 6) (omega arith) ∙ high_bits a b)
    ∙ join_6 (64 * a + b) c k
    ∙ omega arith

read_two :
    (r : ℕ) (s : Text)
    → 128 ≤ r
    → r < 2048
    → utf8_decode (bit_or (r / 64) 192 ∷ bit_or (r % 64) 128 ∷ s) ≡ r ∷ utf8_decode s
read_two r s l h =
    rw (mark_192 (r / 64) (omega arith), mark_128 (r % 64) (omega arith))
      (decode_two (r / 64 + 192) (r % 64 + 128) s (ground arith) (ground arith)
        ∙ ap (◌∷ utf8_decode s)
            (join_6 ((r / 64 + 192) % 32) ((r % 64 + 128) % 64) (omega arith) ∙ omega arith))

read_three :
    (r : ℕ) (s : Text)
    → 2048 ≤ r
    → r < 65536
    → utf8_decode (bit_or (r / 4096) 224 ∷ bit_or (r / 64 % 64) 128 ∷ bit_or (r % 64) 128 ∷ s)
      ≡ r ∷ utf8_decode s
read_three r s l h =
    rw
      (
        mark_224 (r / 4096) (omega arith),
        mark_128 (r / 64 % 64) (omega arith),
        mark_128 (r % 64) (omega arith),
      )
      (decode_three (r / 4096 + 224) (r / 64 % 64 + 128) (r % 64 + 128) s (ground arith)
          (ground arith)
        ∙ ap (◌∷ utf8_decode s) (
            join_12 ((r / 4096 + 224) % 16) ((r / 64 % 64 + 128) % 64) ((r % 64 + 128) % 64)
              (omega arith) (omega arith)
            ∙ omega arith))

-- a unit's bytes, read again
decode-utf8_unit :
    (r : ℕ) (s : Text) → r < 65536 → utf8_decode (utf8_unit r ++ s) ≡ r ∷ utf8_decode s
unfolding utf8_unit
decode-utf8_unit r s h = elim (Bool-cases (ltb r 128)) [
  | inl one ↦ rw one (decode_one r s one)
  | inr more ↦ elim (Bool-cases (ltb r 2048)) [
    | inl two ↦ rw (more, two) (read_two r s (ground arith) (ground arith))
    | inr three ↦ rw (more, three) (read_three r s (ground arith) h)
  ]
]

abbrev pub is_unit : ℕ → Bool
is_unit r = ltb r 65536

all-cons : (r : ℕ) (s : Text) → all is_unit (r ∷ s) ≡ true → (r < 65536) × (all is_unit s ≡ true)
all-cons r s h = ground arith

pub utf8_decode-utf8_units : (s : Text) → all is_unit s ≡ true → utf8_decode (utf8_units s) ≡ s
unfolding utf8_units
utf8_decode-utf8_units [] h = unfold utf8_decode in refl
utf8_decode-utf8_units (r ∷ s) h =
    let (unit_range, rest) = all-cons r s h in
    decode-utf8_unit r (utf8_units s) unit_range ∙ ap (r ∷◌) (utf8_decode-utf8_units s rest)
