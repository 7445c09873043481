-- ===== src/Next/Selector.antt =====
-- utils.js: `escapeSelector`.
use cortono.Prelude.{
  Text, codes, [], ◌∷◌, ℕ, ◌≡◌, refl, ap, ◌∙◌, Bool, true, false, not, ◌||◌, ◌&&◌, arith,
  if◌then◌else◌, ◌==◌, ltb, Bool-cases, inl, inr,
}

-- a unit that the expression's class holds
abbrev member : ℕ → Text → Bool
member c [] = false
member c (x ∷ s) = c == x || member c s

abbrev meta_symbols : Text
meta_symbols = codes "!\"$%&'()*+,./:;<=>?@[\\]^`{|}~"

unfoldable pub is_meta : ℕ → Bool
is_meta c = member c meta_symbols

-- `selector.replace(/[…]/g, '\\$&')`: a backslash before each symbol
unfoldable pub escape_selector : Text → Text
escape_selector [] = []
escape_selector (c ∷ s) = if is_meta c then b'\\' ∷ c ∷ escape_selector s else c ∷ escape_selector s

-- How a selector's escapes are read: a backslash stands for the symbol behind it.
abbrev pub unescape : Text → Text
unescape [] = []
unescape (c ∷ []) = c ∷ []
unescape (c ∷ d ∷ s) = elim (c == b'\\') [ true ↦ d ∷ unescape s | false ↦ c ∷ unescape (d ∷ s) ]

unescape-cons : (c : ℕ) (s : Text) → (c == b'\\') ≡ false → unescape (c ∷ s) ≡ c ∷ unescape s
unescape-cons c [] h = refl
unescape-cons c (d ∷ s) h = rw (h, unescape)

backslash-is_meta : (c : ℕ) → is_meta c ≡ false → (c == b'\\') ≡ false
unfolding is_meta
backslash-is_meta c h = ground arith

unescape-escape_selector : (s : Text) → unescape (escape_selector s) ≡ s
unfolding escape_selector
unescape-escape_selector [] = refl
unescape-escape_selector (c ∷ s) = elim (Bool-cases (is_meta c)) [
  | inl symbol ↦ rw symbol (ap (c ∷◌) (unescape-escape_selector s))
  | inr other ↦ rw other (
      unescape-cons c (escape_selector s) (backslash-is_meta c other)
      ∙ ap (c ∷◌) (unescape-escape_selector s))
]

-- A symbol: a printed character of ASCII that is no letter, digit, space, number sign, hyphen or
-- underscore.
abbrev pub is_symbol : ℕ → Bool
is_symbol c =
    (ltb b' ' c && ltb c b'0' && not (c == b'#') && not (c == b'-'))
    || (ltb b'9' c && ltb c b'A')
    || (ltb b'Z' c && ltb c b'a' && not (c == b'_'))
    || (ltb b'z' c && ltb c 127)

-- No symbol stands without a backslash before it.
abbrev pub is_guarded : Text → Bool
is_guarded [] = true
is_guarded (c ∷ []) = not (is_symbol c)
is_guarded (c ∷ d ∷ s) = elim (c == b'\\') [
  | true ↦ is_guarded s
  | false ↦ not (is_symbol c) && is_guarded (d ∷ s)
]

is_meta-is_symbol : (c : ℕ) → is_meta c ≡ false → is_symbol c ≡ false
unfolding is_meta
is_meta-is_symbol c h = ground arith

is_guarded-cons :
    (c : ℕ) (s : Text) → is_meta c ≡ false → is_guarded s ≡ true → is_guarded (c ∷ s) ≡ true
is_guarded-cons c [] h k = rw (is_meta-is_symbol c h)
is_guarded-cons c (d ∷ s) h k = rw (backslash-is_meta c h, is_guarded, is_meta-is_symbol c h) k

is_guarded-escape_selector : (s : Text) → is_guarded (escape_selector s) ≡ true
unfolding escape_selector
is_guarded-escape_selector [] = refl
is_guarded-escape_selector (c ∷ s) = elim (Bool-cases (is_meta c)) [
  | inl symbol ↦ rw symbol (is_guarded-escape_selector s)
  | inr other ↦
      rw other (is_guarded-cons c (escape_selector s) other (is_guarded-escape_selector s))
]

-- In an escaped selector each printed character of ASCII but letters, digits, spaces, number
-- signs, hyphens and underscores has a backslash before it, and reading the escapes gives back the
-- selector.
pub escape_selector_lem :
    (s : Text) → (is_guarded (escape_selector s) ≡ true) × (unescape (escape_selector s) ≡ s)
escape_selector_lem s = (is_guarded-escape_selector s, unescape-escape_selector s)
