-- ===== src/Prelude/Replace.antt =====
-- `s.replace(r, t)` for a regular expression `r` that is a literal text: the global form, and the
-- form that replaces the first occurrence. The replacement text holds no `$`.
use Prim.Native.Nat.{ℕ, zero, suc}
use mathlib.Core.Path.{◌≡◌, refl, ap}
use mathlib.Core.Bool.{Bool, true, false}
use mathlib.Core.Logic.{inl, inr}
use mathlib.Core.List.{[], ◌∷◌, ◌++◌}
use native.Mathlib.Omega.{arith}
use cortono.Prelude.Tests.{Bool-cases}
use cortono.Prelude.Lists.{length, drop, all}
use cortono.Prelude.Texts.{Text, is_prefix, avoids}

-- The units of an occurrence behind its first one.
abbrev pub tail_length : Text → ℕ
tail_length [] = 0
tail_length (_ ∷ p) = length p

-- `skip` units of the last occurrence found are still to be passed over.
pub replace_from : Text → Text → ℕ → Text → Text
replace_from p t skip [] = []
replace_from p t (suc skip) (c ∷ s) = replace_from p t skip s
replace_from p t zero (c ∷ s) = elim (is_prefix p (c ∷ s)) [
  | true ↦ t ++ replace_from p t (tail_length p) s
  | false ↦ c ∷ replace_from p t zero s
]

unfoldable pub replace_all : Text → Text → Text → Text
unfolding replace_from
replace_all p t s = replace_from p t 0 s

unfoldable pub replace_first : Text → Text → Text → Text
replace_first p t [] = []
replace_first p t (c ∷ s) = elim (is_prefix p (c ∷ s)) [
  | true ↦ t ++ drop (tail_length p) s
  | false ↦ c ∷ replace_first p t s
]

-- A text that does not hold the first unit of the pattern is passed over unchanged.
pub replace_from-avoids :
    (a : ℕ) (p t : Text) (s rest : Text)
    → avoids a s ≡ true
    → replace_from (a ∷ p) t 0 (s ++ rest) ≡ s ++ replace_from (a ∷ p) t 0 rest
unfolding replace_from
replace_from-avoids a p t [] rest h = refl
replace_from-avoids a p t (c ∷ s) rest h = ground (arith, replace_from-avoids a p t s rest)

-- Passing over the rest of an occurrence.
pub replace_from_skip :
    (p t : Text) (s rest : Text) → replace_from p t (length s) (s ++ rest) ≡ replace_from p t 0 rest
unfolding replace_from
replace_from_skip p t [] rest = refl
replace_from_skip p t (c ∷ s) rest = replace_from_skip p t s rest

pub is_prefix-append : (p s : Text) → is_prefix p (p ++ s) ≡ true
is_prefix-append [] s = refl
is_prefix-append (a ∷ p) s = ground (arith, is_prefix-append p s)

-- An occurrence is replaced, and the search goes on behind it.
pub replace_from-found :
    (a : ℕ) (p t rest : Text)
    → replace_from (a ∷ p) t 0 ((a ∷ p) ++ rest) ≡ t ++ replace_from (a ∷ p) t 0 rest
unfolding replace_from
replace_from-found a p t rest =
    rw (is_prefix-append (a ∷ p) rest, replace_from)
      (ap (t ++◌) (replace_from_skip (a ∷ p) t p rest))

-- Where no occurrence begins, the unit is kept.
pub replace_from_miss :
    (p t : Text) (c : ℕ) (s : Text)
    → is_prefix p (c ∷ s) ≡ false
    → replace_from p t 0 (c ∷ s) ≡ c ∷ replace_from p t 0 s
unfolding replace_from
replace_from_miss p t c s h = rw (h, replace_from)

pub replace_from-nil : (p t : Text) → replace_from p t 0 [] ≡ []
unfolding replace_from
replace_from-nil p t = refl

all-append : (p : ℕ → Bool) (s t : Text) → all p s ≡ true → all p t ≡ true → all p (s ++ t) ≡ true
all-append p [] t h k = k
all-append p (c ∷ s) t h k = ground (arith, all-append p s t)

all-cons :
    (p : ℕ → Bool) (c : ℕ) (s : Text) → all p (c ∷ s) ≡ true → (p c ≡ true) × (all p s ≡ true)
all-cons p c s h = ground arith

both : (p : ℕ → Bool) (c : ℕ) (s : Text) → p c ≡ true → all p s ≡ true → all p (c ∷ s) ≡ true
both p c s h k = ground arith

all-replace_from :
    (p : ℕ → Bool) (a t : Text) (skip : ℕ) (s : Text)
    → all p t ≡ true
    → all p s ≡ true
    → all p (replace_from a t skip s) ≡ true
unfolding replace_from
all-replace_from p a t skip [] h k = refl
all-replace_from p a t (suc skip) (c ∷ s) h k = all-replace_from p a t skip s h (all-cons p c s k).1
all-replace_from p a t zero (c ∷ s) h k = elim (Bool-cases (is_prefix a (c ∷ s))) [
  | inl found ↦
      rw (found, replace_from)
        (all-append p t _ h (all-replace_from p a t (tail_length a) s h (all-cons p c s k).1))
  | inr other ↦
      rw (other, replace_from)
        (both p c (replace_from a t 0 s) (all-cons p c s k).0
          (all-replace_from p a t 0 s h (all-cons p c s k).1))
]

-- What a test says of each unit of two texts it says of a replacement.
pub all-replace_all :
    (p : ℕ → Bool) (a t s : Text)
    → all p t ≡ true
    → all p s ≡ true
    → all p (replace_all a t s) ≡ true
unfolding replace_all
all-replace_all p a t s h k = all-replace_from p a t 0 s h k
