-- ===== src/Http/Codec.antt =====
-- `html_codec::decode` of http/http_codec.hpp. A text is one of bytes.
pub mod Escapes
use cortono.Prelude.{
  Text, [], ◌∷◌, ℕ, zero, suc, ◌+◌, ◌-◌, ◌*◌, Option, none, some, Bool, true, false, ltb, leb, ◌==◌,
  ◌&&◌, ◌||◌, not, if◌then◌else◌,
}

-- The test of the two characters behind a percent sign.
abbrev pub is_taken : ℕ → Bool
is_taken a = (leb 48 a && ltb a 64) || (leb 65 a && ltb a 71)

-- The value of a digit of base 16, among the characters of the test.
abbrev pub hex_digit : ℕ → Option ℕ
hex_digit a =
    if leb 48 a && leb a 57
    then some (a - 48)
    else if leb 65 a && leb a 70
    then some (a - 55)
    else none

abbrev pub number : Option ℕ → Option ℕ → ℕ
number none l = 0
number (some h) none = h
number (some h) (some l) = h * 16 + l

-- `strtoul(buf, NULL, 16)` of two characters, which reads as far as there are digits.
abbrev pub strtoul : ℕ → ℕ → ℕ
strtoul a b = number (hex_digit a) (hex_digit b)

-- `*(ptr + 1)`, the terminating zero at the end.
abbrev pub head : Text → ℕ
head [] = 0
head (c ∷ s) = c

abbrev pub tail : Text → Text
tail [] = []
tail (c ∷ s) = s

-- The loop, of which the next `skip` characters are read.
unfoldable pub decode_from : Text → ℕ → Text
decode_from [] skip = []
decode_from (c ∷ s) (suc skip) = decode_from s skip
decode_from (c ∷ s) zero =
    let next = decode_from s 0 in
    let behind = decode_from s 2 in
    if c == 0
    then []
    else if c == 37 && not (head s == 0)
    then (if is_taken (head s) && is_taken (head (tail s))
        then strtoul (head s) (head (tail s)) ∷ behind
        else next)
    else c ∷ next

unfoldable pub decode : Text → Text
unfolding decode_from
decode uri = decode_from uri 0
