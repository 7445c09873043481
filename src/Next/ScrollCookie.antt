-- ===== src/Next/ScrollCookie.antt =====
-- scroll-cookie.js: the position of a page, kept in a cookie.
use cortono.Prelude.{
  Text, codes, List, [], ◌∷◌, ◌++◌, ℕ, Bool, false, if◌then◌else◌, ◌==◌, Option, none, some,
  decimal, text_eq,
}
use cortono.Next.Debounce.{Timers, restart, fire, is_waiting}

-- `s.split('|')`: the first field, and the ones behind it
unfoldable pub split_bar : Text → Text × List Text
split_bar [] = ([], [])
split_bar (c ∷ s) =
    let rest = split_bar s in if c == b'|' then ([], rest.0 ∷ rest.1) else (c ∷ rest.0, rest.1)

-- The options of `Cookies.set`.
pub record Options : Type 0 where
  pub expires : ℕ
  pub path : Text

-- js-cookie, which the page loads: what `Cookies.set` does to the browser's cookies while the page at an
-- address is shown, and what `Cookies.get` returns there.
pub record Jar {ℓ} (J : Type ℓ) : Type ℓ where
  pub set : Text → Text → Text → Options → J → J
  pub get : Text → Text → J → Option Text

abbrev cookie_name : Text
cookie_name = codes "scroll-cookie"

-- What the script writes: `$(window).scrollTop() + "|" + rpath`.
unfoldable pub value : ℕ → Text → Text
value top rpath = decimal top ++ b'|' ∷ rpath

-- `cvalues[1] == rpath`: a field that is missing is `undefined`, which is no text
unfoldable pub second_is : Text → List Text → Bool
second_is rpath [] = false
second_is rpath (field ∷ _) = text_eq field rpath

-- What the script passes to `scrollTop` when a page is loaded, if it does.
unfoldable pub restore {ℓ} : {J : Type ℓ} → Jar J → Text → J → Option Text
unfolding split_bar second_is
restore jar rpath j = restored (jar.get rpath cookie_name j)
  where
    restored : Option Text → Option Text
    restored none = none
    restored (some v) =
        let cvalues = split_bar v in if second_is rpath cvalues.1 then some cvalues.0 else none

-- A page that is shown: its path, its timers and the cookies.
pub record Page {ℓ} (J : Type ℓ) : Type ℓ where
  pub rpath : Text
  pub timers : Timers
  pub cookies : J

-- The window is scrolled, or a timer fires while the page is scrolled to a height.
pub data Event : Type 0 where
  scroll : Event
  timeout : ℕ → ℕ → Event

unfoldable pub handle {ℓ} : {J : Type ℓ} → Jar J → Event → Page J → Page J
unfolding restart fire value
handle jar scroll p = record p { timers = restart p.timers }
handle jar (timeout t top) p =
    if is_waiting t p.timers
    then record p {
      timers = fire t p.timers;
      cookies =
          jar.set p.rpath cookie_name (value top p.rpath) (record { expires = 365; path = [] })
            p.cookies;
    }
    else p
