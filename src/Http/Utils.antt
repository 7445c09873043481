-- ===== src/Http/Utils.antt =====
-- `split` of http/http_utils.hpp, by which cookies and the values of headers are taken apart.
pub mod Joined
use cortono.Prelude.{
  Text, List, [], ◌∷◌, ℕ, zero, suc, ◌+◌, Option, none, some, Bool, true, false, length, take, drop,
  ltb, ◌==◌, ◌||◌, if◌then◌else◌,
}

abbrev pub has : ℕ → Text → Bool
has c [] = false
has c (x ∷ s) = c == x || has c s

-- `find_first_of(d)`: the first place of a character of `d`.
unfoldable pub find_first_of : Text → Text → Option ℕ
find_first_of d [] = none
find_first_of d (c ∷ s) =
    let rest = find_first_of d s in
    if has c d then some 0 else elim rest [ none ↦ none | some k ↦ some (suc k) ]

-- The loop of `split` for what is left of the text, with fuel for the pieces. `substr` throws if
-- `front` is behind the end: `none`.
unfoldable pub split_from : ℕ → Text → Text → Option (List Text)
unfolding find_first_of
split_from zero d s = none
split_from (suc fuel) d s = elim (find_first_of d s) [
  | none ↦ some (s ∷ [])
  | some k ↦ elim (ltb (length s) (k + length d)) [
    | true ↦ none
    | false ↦ elim (split_from fuel d (drop (k + length d) s)) [
      | some ps ↦ some (take k s ∷ ps)
      | none ↦ none
    ]
  ]
]

-- A turn with another piece takes a character at least.
unfoldable pub split : Text → Text → Option (List Text)
unfolding split_from
split s d = split_from (suc (length s)) d s
