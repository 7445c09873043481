-- ===== src/Next/Base64.antt =====
-- exturl.js: the object `Base64`, which hides the addresses of links to other sites, and the click on
-- such a link. Texts are lists of units of 16 bits.
pub mod Utf8
pub mod Groups
pub mod RoundTrip
use Prim.Native.Nat.{bit_or}
use cortono.Prelude.{
  Text, codes, List, [], ◌∷◌, ◌++◌, ℕ, zero, suc, ◌+◌, ◌*◌, ◌/◌, ◌%◌, Bool, true, false, ◌&&◌, ◌||◌,
  Option, none, some, if◌then◌else◌, ◌==◌, ltb, leb, get_elem?,
}
use cortono.Prelude.Bits.{shift_left}
use cortono.Prelude.Replace.{replace_all}

abbrev pub key_str : Text
key_str = codes "ABCDEFGHIJKLMNOPQRSTUVWXYZabcdefghijklmnopqrstuvwxyz0123456789+/="

-- `_keyStr.charAt(i)`, for an index that is at most 64
unfoldable pub char_at : ℕ → ℕ
char_at i = elim (get_elem? key_str i) [ none ↦ 0 | some c ↦ c ]

abbrev position : ℕ → Text → ℕ
position c [] = 0
position c (d ∷ s) = if d == c then 0 else suc (position c s)

-- `_keyStr.indexOf(c)`, for a unit of the alphabet
unfoldable pub index_of : ℕ → ℕ
index_of c = position c key_str

-- `[A-Za-z0-9+/=]`
abbrev pub is_key : ℕ → Bool
is_key c =
    (leb b'A' c && leb c b'Z')
    || ((leb b'a' c && leb c b'z')
        || ((leb b'0' c && leb c b'9') || (c == b'+' || (c == b'/' || c == b'='))))

-- the bytes of one unit
unfoldable pub utf8_unit : ℕ → Text
utf8_unit r =
    if ltb r 128
    then r ∷ []
    else (if ltb r 2048
        then bit_or (r / 64) 192 ∷ bit_or (r % 64) 128 ∷ []
        else bit_or (r / 4096) 224 ∷ bit_or (r / 64 % 64) 128 ∷ bit_or (r % 64) 128 ∷ [])

unfoldable pub utf8_units : Text → Text
unfolding utf8_unit
utf8_units [] = []
utf8_units (r ∷ s) = utf8_unit r ++ utf8_units s

-- `_utf8_encode`, with its first line: `e.replace(/rn/g, "n")`
unfoldable pub utf8_encode : Text → Text
unfolding utf8_units
utf8_encode e = utf8_units (replace_all (codes "rn") (codes "n") e)

-- `_utf8_decode`; a byte that is missing at the end counts as 0
unfoldable pub utf8_decode : Text → Text
utf8_decode [] = []
utf8_decode (r ∷ []) = elim (ltb r 128) [
  | true ↦ r ∷ []
  | false ↦ elim (ltb 191 r && ltb r 224) [
    | true ↦ bit_or (shift_left (r % 32) 6) 0 ∷ []
    | false ↦ bit_or (bit_or (shift_left (r % 16) 12) (shift_left 0 6)) 0 ∷ []
  ]
]
utf8_decode (r ∷ c2 ∷ []) = elim (ltb r 128) [
  | true ↦ r ∷ utf8_decode (c2 ∷ [])
  | false ↦ elim (ltb 191 r && ltb r 224) [
    | true ↦ bit_or (shift_left (r % 32) 6) (c2 % 64) ∷ []
    | false ↦ bit_or (bit_or (shift_left (r % 16) 12) (shift_left (c2 % 64) 6)) 0 ∷ []
  ]
]
utf8_decode (r ∷ c2 ∷ c3 ∷ s) = elim (ltb r 128) [
  | true ↦ r ∷ utf8_decode (c2 ∷ c3 ∷ s)
  | false ↦ elim (ltb 191 r && ltb r 224) [
    | true ↦ bit_or (shift_left (r % 32) 6) (c2 % 64) ∷ utf8_decode (c3 ∷ s)
    | false ↦
        bit_or (bit_or (shift_left (r % 16) 12) (shift_left (c2 % 64) 6)) (c3 % 64) ∷ utf8_decode s
  ]
]

-- The loop of `encode`: three bytes make four characters; a byte that is missing is `NaN`, whose bits
-- are 0, and its character is "=".
unfoldable pub encode_bytes : Text → Text
unfolding char_at
encode_bytes [] = []
encode_bytes (n ∷ []) =
    char_at (n / 4) ∷ char_at (bit_or (shift_left (n % 4) 4) 0) ∷ char_at 64 ∷ char_at 64 ∷ []
encode_bytes (n ∷ r ∷ []) =
    char_at (n / 4)
    ∷ char_at (bit_or (shift_left (n % 4) 4) (r / 16))
    ∷ char_at (bit_or (shift_left (r % 16) 2) 0)
    ∷ char_at 64
    ∷ []
encode_bytes (n ∷ r ∷ i ∷ s) =
    char_at (n / 4)
    ∷ char_at (bit_or (shift_left (n % 4) 4) (r / 16))
    ∷ char_at (bit_or (shift_left (r % 16) 2) (i / 64))
    ∷ char_at (i % 64)
    ∷ encode_bytes s

unfoldable pub encode : Text → Text
unfolding utf8_encode encode_bytes
encode e = encode_bytes (utf8_encode e)

-- one round of the loop of `decode`
unfoldable pub decode_group : ℕ → ℕ → ℕ → ℕ → Text
decode_group s o u a =
    bit_or (shift_left s 2) (o / 16)
    ∷ ((if u == 64 then [] else bit_or (shift_left (o % 16) 4) (u / 4) ∷ [])
        ++ (if a == 64 then [] else bit_or (shift_left (u % 4) 6) a ∷ []))

-- The loop; a character that is missing at the end is the empty text, which is found at index 0.
unfoldable pub decode_chars : Text → Text
unfolding index_of decode_group
decode_chars [] = []
decode_chars (c ∷ []) = decode_group (index_of c) 0 0 0
decode_chars (c ∷ d ∷ []) = decode_group (index_of c) (index_of d) 0 0
decode_chars (c ∷ d ∷ e ∷ []) = decode_group (index_of c) (index_of d) (index_of e) 0
decode_chars (c ∷ d ∷ e ∷ f ∷ s) =
    decode_group (index_of c) (index_of d) (index_of e) (index_of f) ++ decode_chars s

-- `e.replace(/[^A-Za-z0-9+/=]/g, "")`
unfoldable pub keys_only : Text → Text
keys_only [] = []
keys_only (c ∷ s) = let rest = keys_only s in if is_key c then c ∷ rest else rest

unfoldable pub decode : Text → Text
unfolding keys_only decode_chars utf8_decode
decode e = utf8_decode (decode_chars (keys_only e))

-- A click on a link opens the address that its `data-url` hides, in a new window.
pub record Opened : Type 0 where
  pub url : Text
  pub target : Text

unfoldable pub on_exturl_click : Text → Opened
unfolding decode
on_exturl_click data_url = record { url = decode data_url; target = codes "_blank" }
