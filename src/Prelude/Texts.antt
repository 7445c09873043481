-- ===== src/Prelude/Texts.antt =====
-- JavaScript strings as lists of UTF-16 code units. A literal is written by `codes`: each character
-- of the program's literals is one code unit.
use Prim.Native.Char.{code}
use Prim.Native.Nat.{ℕ}
use Prim.Native.String.{String}
use mathlib.Core.Path.{◌≡◌, refl}
use mathlib.Core.Bool.{Bool, true, false, not, ◌&&◌, ◌||◌}
use mathlib.Core.Logic.{◌↔◌}
use mathlib.Core.List.{List, [], ◌∷◌, ◌++◌}
use native.Mathlib.Omega.{arith}
use cortono.Prelude.Tests.{◌==◌}

abbrev pub Text : Type 0
Text = List ℕ

abbrev pub codes : String → Text
codes String.[] = []
codes (String.◌∷◌ c s) = code c ∷ codes s

-- `a === b`
abbrev pub text_eq : Text → Text → Bool
text_eq [] [] = true
text_eq [] (_ ∷ _) = false
text_eq (_ ∷ _) [] = false
text_eq (a ∷ s) (b ∷ t) = a == b && text_eq s t

pub text_eq_refl : (s : Text) → text_eq s s ≡ true
text_eq_refl [] = refl
text_eq_refl (a ∷ s) = ground (arith, text_eq_refl s)

pub text_eq→eq : (s t : Text) → text_eq s t ≡ true → s ≡ t
text_eq→eq [] [] h = refl
text_eq→eq [] (_ ∷ _) h = cc
text_eq→eq (_ ∷ _) [] h = cc
text_eq→eq (a ∷ s) (b ∷ t) h = ground (arith, text_eq→eq s t)

pub text_eq_iff : (s t : Text) → (text_eq s t ≡ true) ↔ (s ≡ t)
text_eq_iff s t = (text_eq→eq s t, λ e. rw e (text_eq_refl t))

-- `s` begins with `p`
abbrev pub is_prefix : Text → Text → Bool
is_prefix [] s = true
is_prefix (_ ∷ _) [] = false
is_prefix (a ∷ p) (b ∷ s) = a == b && is_prefix p s

-- `s.indexOf(p) != -1`
abbrev pub includes : Text → Text → Bool
includes p [] = is_prefix p []
includes p (c ∷ s) = is_prefix p (c ∷ s) || includes p s

-- no unit of the text is `c`
abbrev pub avoids : ℕ → Text → Bool
avoids c [] = true
avoids c (x ∷ s) = not (x == c) && avoids c s

pub avoids-append :
    (c : ℕ) (s t : Text) → avoids c s ≡ true → avoids c t ≡ true → avoids c (s ++ t) ≡ true
avoids-append c [] t h k = k
avoids-append c (x ∷ s) t h k = ground (arith, avoids-append c s t)
