-- ===== src/Next/Base64/RoundTrip.antt =====
-- exturl.js: `decode` after `encode`.
use cortono.Prelude.{
  Text, codes, [], ◌∷◌, ◌++◌, ℕ, ◌/◌, ◌%◌, ◌<◌, ◌≡◌, refl, ap, ◌∙◌, true, arith, ltb, all,
  Bool-cases, inl, inr,
}
use cortono.Prelude.Bits.{bit_or_low}
use cortono.Prelude.Replace.{replace_all, all-replace_all}
use cortono.Next.Base64.{
  utf8_unit, utf8_units, utf8_encode, utf8_decode, encode, decode, on_exturl_click,
}
use cortono.Next.Base64.Utf8.{is_unit, utf8_decode-utf8_units}
use cortono.Next.Base64.Groups.{is_byte, decode_chars-encode_bytes}

all_bytes-append :
    (s t : Text) → all is_byte s ≡ true → all is_byte t ≡ true → all is_byte (s ++ t) ≡ true
all_bytes-append [] t h k = k
all_bytes-append (c ∷ s) t h k = ground (arith, all_bytes-append s t)

utf8_unit-bytes : (r : ℕ) → r < 65536 → all is_byte (utf8_unit r) ≡ true
unfolding utf8_unit
utf8_unit-bytes r h = elim (Bool-cases (ltb r 128)) [
  | inl one ↦ rw one (ground arith)
  | inr more ↦ elim (Bool-cases (ltb r 2048)) [
    | inl two ↦
        rw
          (more, two, bit_or_low 6 3 (r / 64) (ground arith), bit_or_low 6 2 (r % 64) (omega arith))
          (ground arith)
    | inr three ↦
        rw
          (
            more,
            three,
            bit_or_low 5 7 (r / 4096) (omega arith),
            bit_or_low 6 2 (r / 64 % 64) (omega arith),
            bit_or_low 6 2 (r % 64) (omega arith),
          )
          (ground arith)
  ]
]

unit-cons : (r : ℕ) (s : Text) → all is_unit (r ∷ s) ≡ true → (r < 65536) × (all is_unit s ≡ true)
unit-cons r s h = ground arith

utf8_units-bytes : (s : Text) → all is_unit s ≡ true → all is_byte (utf8_units s) ≡ true
unfolding utf8_units
utf8_units-bytes [] h = refl
utf8_units-bytes (r ∷ s) h =
    let (hr, hs) = unit-cons r s h in
    all_bytes-append (utf8_unit r) (utf8_units s) (utf8_unit-bytes r hr) (utf8_units-bytes s hs)

-- For an address of units of 16 bits, a click on a link opens the address that was encoded, except
-- that each "rn" in it has become "n".
pub on_exturl_click-encode :
    (s : Text)
    → all is_unit s ≡ true
    → (on_exturl_click (encode s)).url ≡ replace_all (codes "rn") (codes "n") s
unfolding on_exturl_click decode encode utf8_encode
on_exturl_click-encode s h =
    let e = replace_all (codes "rn") (codes "n") s in
    let units = all-replace_all is_unit (codes "rn") (codes "n") s refl h in
    ap utf8_decode (decode_chars-encode_bytes (utf8_units e) (utf8_units-bytes e units))
    ∙ utf8_decode-utf8_units e units
