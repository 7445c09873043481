-- ===== src/Next/Base64/Groups.antt =====
-- exturl.js: the bytes that the loop of `encode` writes as characters are the ones that the loop of
-- `decode` reads.
use Prim.Native.Nat.{bit_or}
use cortono.Prelude.{
  Text, [], ◌∷◌, ◌++◌, ℕ, zero, suc, ◌+◌, ◌*◌, ◌/◌, ◌%◌, ◌<◌, ◌≤◌, ◌≡◌, refl, ap, ap₂, ◌∙◌, Bool,
  true, false, ◌&&◌, ◌==◌, ==_iff, arith, ltb, all,
}
use cortono.Prelude.Bits.{shift_left, bit_or-shift_left}
use cortono.Next.Base64.{
  char_at, index_of, is_key, encode_bytes, decode_group, decode_chars, keys_only,
}

-- a test that holds of every number below a bound
abbrev all_below : ℕ → (ℕ → Bool) → Bool
all_below zero p = true
all_below (suc n) p = p n && all_below n p

below : (n : ℕ) (p : ℕ → Bool) (x : ℕ) → all_below n p ≡ true → x < n → p x ≡ true
below zero p x h l = absurd (omega arith)
below (suc n) p x h l = ground (arith, below n p x)

-- the alphabet's characters are found at their places, and pass the filter
table_index : all_below 65 (λ i. index_of (char_at i) == i) ≡ true
unfolding index_of char_at
table_index = refl

table_key : all_below 65 (λ i. is_key (char_at i)) ≡ true
unfolding char_at
table_key = refl

index_of-char_at : (i : ℕ) → i ≤ 64 → index_of (char_at i) ≡ i
index_of-char_at i h =
    (==_iff (index_of (char_at i)) i).0
      (below 65 (λ i. index_of (char_at i) == i) i table_index (omega arith))

is_key-char_at : (i : ℕ) → i ≤ 64 → is_key (char_at i) ≡ true
is_key-char_at i h = below 65 (λ i. is_key (char_at i)) i table_key (omega arith)

-- four characters of the alphabet, and what follows
abbrev four : ℕ → ℕ → ℕ → ℕ → Text → Text
four s o u a rest = char_at s ∷ char_at o ∷ char_at u ∷ char_at a ∷ rest

read_four :
    (s o u a : ℕ) (rest : Text)
    → s ≤ 64
    → o ≤ 64
    → u ≤ 64
    → a ≤ 64
    → decode_chars (keys_only (four s o u a rest))
      ≡ decode_group s o u a ++ decode_chars (keys_only rest)
unfolding keys_only decode_chars
read_four s o u a rest hs ho hu ha =
    rw (is_key-char_at s hs, is_key-char_at o ho, is_key-char_at u hu, is_key-char_at a ha)
      (rw
        (index_of-char_at s hs, index_of-char_at o ho, index_of-char_at u hu, index_of-char_at a ha)
        refl)

join_2 : (a b : ℕ) → b < 4 → bit_or (shift_left a 2) b ≡ 4 * a + b
join_2 a b h = omega (arith, bit_or-shift_left 2 a b (omega arith))

join_4 : (a b : ℕ) → b < 16 → bit_or (shift_left a 4) b ≡ 16 * a + b
join_4 a b h = omega (arith, bit_or-shift_left 4 a b (omega arith))

join_6 : (a b : ℕ) → b < 64 → bit_or (shift_left a 6) b ≡ 64 * a + b
join_6 a b h = omega (arith, bit_or-shift_left 6 a b (omega arith))

-- the three bytes of a group, from the four numbers
first_byte :
    (n x : ℕ) → n < 256 → x < 16 → bit_or (shift_left (n / 4) 2) ((16 * (n % 4) + x) / 16) ≡ n
first_byte n x hn hx = join_2 (n / 4) ((16 * (n % 4) + x) / 16) (omega arith) ∙ omega arith

second_byte :
    (n r x : ℕ)
    → r < 256
    → x < 4
    → bit_or (shift_left ((16 * (n % 4) + r / 16) % 16) 4) ((4 * (r % 16) + x) / 4) ≡ r
second_byte n r x hr hx =
    join_4 ((16 * (n % 4) + r / 16) % 16) ((4 * (r % 16) + x) / 4) (omega arith) ∙ omega arith

third_byte : (r i : ℕ) → i < 256 → bit_or (shift_left ((4 * (r % 16) + i / 64) % 4) 6) (i % 64) ≡ i
third_byte r i hi = join_6 ((4 * (r % 16) + i / 64) % 4) (i % 64) (omega arith) ∙ omega arith

not_64 : (x : ℕ) → x < 64 → (x == 64) ≡ false
not_64 x h = ground arith

-- a group of three bytes
group_three :
    (n r i : ℕ)
    → n < 256
    → r < 256
    → i < 256
    → decode_group (n / 4) (16 * (n % 4) + r / 16) (4 * (r % 16) + i / 64) (i % 64) ≡ n ∷ r ∷ i ∷ []
unfolding decode_group
group_three n r i hn hr hi =
    rw
      (
        not_64 (4 * (r % 16) + i / 64) (omega arith),
        not_64 (i % 64) (omega arith),
        first_byte n (r / 16) hn (omega arith),
        second_byte n r (i / 64) hr (omega arith),
        third_byte r i hi,
      )
      refl

group_two :
    (n r : ℕ)
    → n < 256
    → r < 256
    → decode_group (n / 4) (16 * (n % 4) + r / 16) (4 * (r % 16) + 0) 64 ≡ n ∷ r ∷ []
unfolding decode_group
group_two n r hn hr =
    rw
      (
        not_64 (4 * (r % 16) + 0) (omega arith),
        first_byte n (r / 16) hn (omega arith),
        second_byte n r 0 hr (omega arith),
      )
      refl

group_one : (n : ℕ) → n < 256 → decode_group (n / 4) (16 * (n % 4) + 0) 64 64 ≡ n ∷ []
unfolding decode_group
group_one n hn = rw (first_byte n 0 hn (omega arith)) refl

abbrev pub is_byte : ℕ → Bool
is_byte r = ltb r 256

all-cons : (r : ℕ) (s : Text) → all is_byte (r ∷ s) ≡ true → (r < 256) × (all is_byte s ≡ true)
all-cons r s h = ground arith

pub decode_chars-encode_bytes :
    (s : Text) → all is_byte s ≡ true → decode_chars (keys_only (encode_bytes s)) ≡ s
unfolding encode_bytes decode_chars keys_only
decode_chars-encode_bytes [] h = refl
decode_chars-encode_bytes (n ∷ []) h =
    let (hn, _) = all-cons n [] h in
    rw (join_4 (n % 4) 0 (omega arith)) (
      read_four (n / 4) (16 * (n % 4) + 0) 64 64 [] (omega arith) (omega arith) (omega arith)
        (omega arith)
      ∙ ap (λ (x : Text). x ++ decode_chars (keys_only [])) (group_one n hn))
decode_chars-encode_bytes (n ∷ r ∷ []) h =
    let (hn, h1) = all-cons n (r ∷ []) h in
    let (hr, _) = all-cons r [] h1 in
    rw (join_4 (n % 4) (r / 16) (omega arith), join_2 (r % 16) 0 (omega arith))
      (read_four (n / 4) (16 * (n % 4) + r / 16) (4 * (r % 16) + 0) 64 [] (omega arith)
          (omega arith) (omega arith) (omega arith)
        ∙ ap (λ (x : Text). x ++ decode_chars (keys_only [])) (group_two n r hn hr))
decode_chars-encode_bytes (n ∷ r ∷ i ∷ s) h =
    let (hn, h1) = all-cons n (r ∷ i ∷ s) h in
    let (hr, h2) = all-cons r (i ∷ s) h1 in
    let (hi, h3) = all-cons i s h2 in
    rw (join_4 (n % 4) (r / 16) (omega arith), join_2 (r % 16) (i / 64) (omega arith))
      (read_four (n / 4) (16 * (n % 4) + r / 16) (4 * (r % 16) + i / 64) (i % 64) (encode_bytes s)
          (omega arith) (omega arith) (omega arith) (omega arith)
        ∙ ap₂ (λ (x y : Text). x ++ y) (group_three n r i hn hr hi)
            (decode_chars-encode_bytes s h3))
