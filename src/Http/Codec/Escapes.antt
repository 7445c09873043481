-- ===== src/Http/Codec/Escapes.antt =====
-- `decode` of http/http_codec.hpp reads every writing of a text.
use cortono.Prelude.{
  Text, [], ◌∷◌, ℕ, ◌+◌, ◌*◌, ◌<◌, ◌≡◌, ◌≢◌, refl, ap, ap₂, arith, ltb, if◌then◌else◌, some, ◌==◌,
  true, false,
}
use cortono.Http.Codec.{decode, decode_from, is_taken, hex_digit, strtoul, number}

-- The character of a digit of base 16.
abbrev pub hex : ℕ → ℕ
hex n = if ltb n 10 then 48 + n else 55 + n

-- The writings of a text: every byte as a percent sign and its two digits, or as it is if it is no
-- percent sign and not 0.
pub data Writes : Text → Text → Type 0 where
  nothing : Writes [] []
  plain : {c : ℕ} {u s : Text} → c ≢ 37 → c ≢ 0 → Writes u s → Writes (c ∷ u) (c ∷ s)
  escape :
      {h l : ℕ} {u s : Text}
      → h < 16
      → l < 16
      → Writes u s
      → Writes (37 ∷ (hex h) ∷ (hex l) ∷ u) ((h * 16 + l) ∷ s)

taken-hex : (n : ℕ) → n < 16 → is_taken (hex n) ≡ true
taken-hex n h = ground arith

hex_digit-hex : (n : ℕ) → n < 16 → hex_digit (hex n) ≡ some n
hex_digit-hex n h = ground arith

strtoul-hex : (h l : ℕ) → h < 16 → l < 16 → strtoul (hex h) (hex l) ≡ h * 16 + l
strtoul-hex h l a b = ap₂ number (hex_digit-hex h a) (hex_digit-hex l b)

decode_from-Writes : {u s : Text} → Writes u s → decode_from u 0 ≡ s
unfolding decode_from
decode_from-Writes nothing = refl
decode_from-Writes (plain {c} {u} {s} a b w) =
    let zero_byte : (c == 0) ≡ false = ground (arith, b) in
    let percent : (c == 37) ≡ false = ground (arith, a) in
    rw (decode_from, zero_byte, percent) (ap (c ∷◌) (decode_from-Writes w))
decode_from-Writes (escape {h} {l} {u} {s} a b w) =
    let first : (hex h == 0) ≡ false = ground (arith, a) in
    rw (decode_from, first, taken-hex h a, taken-hex l b)
      (ap₂ (◌∷◌) (strtoul-hex h l a b) (decode_from-Writes w))

-- For every writing of a text, where each byte is a percent sign with its two digits of base 16 in
-- capitals, or itself if it is no percent sign and not 0, decode returns the text.
pub decode-Writes : (u s : Text) → Writes u s → decode u ≡ s
unfolding decode
decode-Writes u s w = decode_from-Writes w
