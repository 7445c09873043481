-- ===== src/Http/Utils/Joined.antt =====
-- `split` of http/http_utils.hpp takes a joined text apart.
use cortono.Prelude.{
  Text, List, [], ◌∷◌, ◌++◌, ℕ, zero, suc, ◌+◌, ◌<◌, ◌≤◌, ◌≡◌, refl, ap, sym, ◌∙◌, arith, none,
  some, false, length, take, drop, ltb, All, length-append, append_assoc, ==_refl,
}
use cortono.Http.Utils.{has, find_first_of, split_from, split}

-- No character of the piece is one of `d`.
abbrev pub IsFree : Text → Text → Type 0
IsFree d p = All (λ c. has c d ≡ false) p

abbrev pub join : Text → Text → List Text → Text
join d p [] = p
join d p (q ∷ ps) = p ++ (d ++ join d q ps)

find_first_of-free : (d p : Text) → IsFree d p → find_first_of d p ≡ none
unfolding find_first_of
find_first_of-free d [] f = refl
find_first_of-free d (c ∷ p) (h, f) = rw (h, find_first_of-free d p f)

find_first_of-append :
    (e : ℕ) (d p r : Text) → IsFree (e ∷ d) p → find_first_of (e ∷ d) (p ++ e ∷ r) ≡ some (length p)
unfolding find_first_of
find_first_of-append e d [] r f = rw (==_refl e)
find_first_of-append e d (c ∷ p) r (h, f) = rw (h, find_first_of-append e d p r f)

drop-length : (p r : Text) → drop (length p) (p ++ r) ≡ r
drop-length [] r = refl
drop-length (c ∷ p) r = drop-length p r

take-length : (p r : Text) → take (length p) (p ++ r) ≡ p
take-length [] r = refl
take-length (c ∷ p) r = ap (c ∷◌) (take-length p r)

rest-join : (p d r : Text) → drop (length p + length d) (p ++ (d ++ r)) ≡ r
rest-join p d r =
    ap (λ n. drop n (p ++ (d ++ r))) (sym (length-append p d))
    ∙ ap (drop (length (p ++ d))) (sym (append_assoc p d r))
    ∙ drop-length (p ++ d) r

split_from-join :
    (ps : List Text) (fuel e : ℕ) (d p : Text)
    → length ps < fuel
    → IsFree (e ∷ d) p
    → All (IsFree (e ∷ d)) ps
    → split_from fuel (e ∷ d) (join (e ∷ d) p ps) ≡ some (p ∷ ps)
unfolding split_from
split_from-join ps zero e d p h f g = absurd (omega arith)
split_from-join [] (suc fuel) e d p h f g = rw (split_from, find_first_of-free (e ∷ d) p f)
split_from-join (q ∷ ps) (suc fuel) e d p h f (g, gs) =
    let s = join (e ∷ d) q ps in
    let inside : ltb (length (p ++ ((e ∷ d) ++ s))) (length p + length (e ∷ d)) ≡ false =
      ground (arith, length-append p ((e ∷ d) ++ s), length-append (e ∷ d) s) in
    rw (
      split_from,
      find_first_of-append e d p (d ++ s) f,
      inside,
      rest-join p (e ∷ d) s,
      split_from-join ps fuel e d q (omega arith) g gs,
      take-length p ((e ∷ d) ++ s),
    )

length-join : (ps : List Text) (e : ℕ) (d p : Text) → length ps ≤ length (join (e ∷ d) p ps)
length-join [] e d p = omega arith
length-join (q ∷ ps) e d p = omega (
  arith,
  length-join ps e d q,
  length-append p ((e ∷ d) ++ join (e ∷ d) q ps),
  length-append (e ∷ d) (join (e ∷ d) q ps),
)

-- For a delimiter of at least one character and pieces without any of its characters, split takes
-- the text of the pieces with the delimiter between them apart into the pieces.
pub split-join :
    (e : ℕ) (d p : Text) (ps : List Text)
    → IsFree (e ∷ d) p
    → All (IsFree (e ∷ d)) ps
    → split (join (e ∷ d) p ps) (e ∷ d) ≡ some (p ∷ ps)
unfolding split
split-join e d p ps f g =
    split_from-join ps (suc (length (join (e ∷ d) p ps))) e d p
      (omega (arith, length-join ps e d p)) f g
