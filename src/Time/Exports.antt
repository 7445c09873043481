-- ===== src/Time/Exports.antt =====
-- How face.js hands out its time functions: the branches at its end, and the object `entry`.
use cortono.Prelude.{
  Text, codes, List, [], ◌∷◌, ℕ, Bool, false, if◌then◌else◌, Option, some, ◌≡◌, ◌↔◌, arith,
}
use cortono.Time.Defs.{Date, Format, text, format_time, default_format}
use cortono.Time.Human.{human}

-- Which loaders the page offers: `module` with `exports`, a function `define`, an object `angular`.
pub record Loaders : Type 0 where
  pub has_module : Bool
  pub has_define : Bool
  pub has_angular : Bool

-- The function `entry`, with its members `human` and `ago`, called on a time at the time `now`.
abbrev pub Formatter : Type 0
Formatter = ℕ → Option Text

pub record Entry : Type 0 where
  pub call : ℕ → Format → Option Text
  pub human : ℕ → Text
  pub ago : ℕ → Text

unfoldable pub entry : (ℕ → Date) → ℕ → Entry
entry date_of now = record { call = format_time date_of; human = human now; ago = human now }

-- Who gets the functions.
pub data Exported : Type 0 where
  to_module : Exported
  to_define : Exported
  to_angular : Exported
  to_window : Exported

unfoldable pub export : Loaders → Exported
export l =
    if l.has_module
    then to_module
    else if l.has_define
    then to_define
    else if l.has_angular
    then to_angular
    else to_window

-- The filters of the angular module, by name.
abbrev pub date_format : Text
date_format = codes "%y年%M月%d日"

unfoldable pub angular_filters : Entry → List (Text × Formatter)
angular_filters e =
    (codes "ago", λ time. some (e.ago time))
    ∷ (codes "date", λ time. e.call time (text date_format))
    ∷ (codes "datetime", λ time. e.call time (text default_format))
    ∷ []

-- The global `Time` that the chat room calls is set exactly when no loader is there.
pub export-to_window_iff :
    (l : Loaders)
    → (export l ≡ to_window)
      ↔ ((l.has_module ≡ false) × (l.has_define ≡ false) × (l.has_angular ≡ false))
unfolding export
export-to_window_iff l = ground arith
