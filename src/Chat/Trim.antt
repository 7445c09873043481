-- ===== src/Chat/Trim.antt =====
-- `String.prototype.Trim` of im.js and chatRoom.js: the expression matches the white space at the
-- start and the white space at the end of a text.
use cortono.Prelude.{
  Text, [], ◌∷◌, ◌++◌, ℕ, ap, ◌∙◌, Bool-cases, inl, inr, ◌≡◌, refl, Bool, true, false, ◌&&◌, ◌||◌,
  arith, if◌then◌else◌, ◌==◌, leb, all,
}

-- what `\s` matches
unfoldable pub is_space : ℕ → Bool
is_space c =
    (leb 9 c && leb c 13)
    || (c == 32
        || (c == 0xa0
            || (c == 0x1680
                || ((leb 0x2000 c && leb c 0x200a)
                    || (c == 0x2028
                        || (c == 0x2029
                            || (c == 0x202f || (c == 0x205f || (c == 0x3000 || c == 0xfeff)))))))))

abbrev pub trim_start : Text → Text
trim_start [] = []
trim_start (c ∷ s) = if is_space c then trim_start s else c ∷ s

abbrev pub is_empty : Text → Bool
is_empty [] = true
is_empty (_ ∷ _) = false

abbrev pub trim_end : Text → Text
trim_end [] = []
trim_end (c ∷ s) = if is_space c && is_empty (trim_end s) then [] else c ∷ trim_end s

unfoldable pub trim : Text → Text
trim s = trim_end (trim_start s)

is_empty-trim_end : (s : Text) → is_empty (trim_end s) ≡ all is_space s
is_empty-trim_end [] = refl
is_empty-trim_end (c ∷ s) = ground (arith, is_empty-trim_end s)

-- A text is trimmed to nothing exactly when it holds white space only.
pub is_empty-trim : (s : Text) → is_empty (trim s) ≡ all is_space s
unfolding trim
is_empty-trim [] = refl
is_empty-trim (c ∷ s) = ground (arith, is_empty-trim s, is_empty-trim_end s)

abbrev pub first_is_space : Text → Bool
first_is_space [] = false
first_is_space (c ∷ s) = is_space c

abbrev pub last_is_space : Text → Bool
last_is_space [] = false
last_is_space (c ∷ s) = if is_empty s then is_space c else last_is_space s

first-trim_start : (s : Text) → first_is_space (trim_start s) ≡ false
first-trim_start [] = refl
first-trim_start (c ∷ s) = ground (arith, first-trim_start s)

first-trim_end : (s : Text) → first_is_space s ≡ false → first_is_space (trim_end s) ≡ false
first-trim_end [] h = refl
first-trim_end (c ∷ s) h = ground arith

last-trim_end : (s : Text) → last_is_space (trim_end s) ≡ false
last-trim_end [] = refl
last-trim_end (c ∷ s) = ground (arith, last-trim_end s)

-- a text is what `trim_start` leaves, behind white space
split-trim_start : (s : Text) → (a : Text) × (all is_space a ≡ true) × (s ≡ a ++ trim_start s)
split-trim_start [] = ([], refl, refl)
split-trim_start (c ∷ s) = elim (Bool-cases (is_space c)) [
  | inl space ↦
      let (a, spaces, e) = split-trim_start s in (c ∷ a, rw space spaces, rw space (ap (c ∷◌) e))
  | inr other ↦ ([], refl, rw other refl)
]

all_spaces :
    (c : ℕ) (s : Text) → (is_space c && is_empty (trim_end s)) ≡ true → all is_space (c ∷ s) ≡ true
all_spaces c s h = ground (arith, is_empty-trim_end s)

-- a text is what `trim_end` leaves, before white space
split-trim_end : (s : Text) → (b : Text) × (all is_space b ≡ true) × (s ≡ trim_end s ++ b)
split-trim_end [] = ([], refl, refl)
split-trim_end (c ∷ s) = elim (Bool-cases (is_space c && is_empty (trim_end s))) [
  | inl spaces ↦ (c ∷ s, all_spaces c s spaces, rw spaces refl)
  | inr other ↦ let (b, spaces, e) = split-trim_end s in (b, spaces, rw other (ap (c ∷◌) e))
]

-- A text is its trimmed form between two texts of white space, and the trimmed form neither begins
-- nor ends with white space.
pub trim_lem :
    (s : Text)
    → (a : Text) × (b : Text) × (s ≡ a ++ (trim s ++ b))
      × (all is_space a ≡ true)
      × (all is_space b ≡ true)
      × (first_is_space (trim s) ≡ false)
      × (last_is_space (trim s) ≡ false)
unfolding trim
trim_lem s =
    let (a, before, e) = split-trim_start s in
    let (b, behind, f) = split-trim_end (trim_start s) in
    (
      a,
      b,
      e ∙ ap (a ++◌) f,
      before,
      behind,
      first-trim_end (trim_start s) (first-trim_start s),
      last-trim_end (trim_start s),
    )
