-- ===== src/Time/Defs.antt =====
-- Times as numbers of milliseconds, and their parts (face.js).
use cortono.Prelude.{
  Text, codes, decimal, List, [], ◌∷◌, ◌++◌, ℕ, ◌+◌, ◌*◌, ◌<◌, ◌≤◌, Option, none, some,
  if◌then◌else◌, ◌==◌, length,
}
use cortono.Prelude.Replace.{replace_all}

-- What `new Date(t)` gives in the browser's time zone, which is no part of the program.
pub record Date : Type 0 where
  pub full_year : ℕ
  pub month : ℕ
  pub date : ℕ
  pub hours : ℕ
  pub minutes : ℕ
  pub seconds : ℕ

-- The documented ranges; the month counts from 0. Years after 9999 or before 0 are left aside.
pub record IsDate (d : Date) : Type 0 where
  pub month_range : d.month < 12
  pub date_low : 1 ≤ d.date
  pub date_high : d.date ≤ 31
  pub hours_range : d.hours < 24
  pub minutes_range : d.minutes < 60
  pub seconds_range : d.seconds < 60

-- A time of ten digits counts seconds.
unfoldable pub unify : ℕ → ℕ
unify time = if length (decimal time) == 10 then time * 1000 else time

unfoldable pub two : ℕ → Text
two n = let s = decimal n in if length s == 1 then codes "0" ++ s else s

pub record FullTime : Type 0 where
  pub year : Text
  pub month : Text
  pub day : Text
  pub hour : Text
  pub minute : Text
  pub second : Text

-- `date_of` is the constructor `Date`.
unfoldable pub get_full_time : (ℕ → Date) → ℕ → FullTime
get_full_time date_of time =
    let d = date_of (unify time) in
    record {
      year = decimal d.full_year;
      month = two (d.month + 1);
      day = two d.date;
      hour = two d.hours;
      minute = two d.minutes;
      second = two d.seconds;
    }

-- The entries of the object `map` in the order of its keys, with the part that each names.
pub data PartName : Type 0 where
  year month day hour minute second : PartName

abbrev pub part : PartName → FullTime → Text
part PartName.year t = t.year
part PartName.month t = t.month
part PartName.day t = t.day
part PartName.hour t = t.hour
part PartName.minute t = t.minute
part PartName.second t = t.second

abbrev pub key : PartName → Text
key PartName.year = codes "%y"
key PartName.month = codes "%M"
key PartName.day = codes "%d"
key PartName.hour = codes "%h"
key PartName.minute = codes "%m"
key PartName.second = codes "%s"

abbrev pub part_names : List PartName
part_names =
    PartName.year ∷ PartName.month ∷ PartName.day ∷ PartName.hour ∷ PartName.minute
    ∷ PartName.second ∷ []

abbrev pub default_format : Text
default_format = codes "%y-%M-%d %h:%m:%s"

unfoldable pub replace : Text → Text → Text → Text
replace str src dst = replace_all src dst str

-- the loop over `map`
unfoldable pub fill : FullTime → List PartName → Text → Text
fill t [] ret = ret
fill t (p ∷ ps) ret = fill t ps (replace ret (key p) (part p t))

-- An argument `format`: left out (or another value that counts as false), a text, or another value.
pub data Format : Type 0 where
  missing : Format
  text : Text → Format
  other : Format

-- `none` is the error that is thrown. The empty text counts as false.
unfoldable pub format_time : (ℕ → Date) → ℕ → Format → Option Text
format_time date_of time other = none
format_time date_of time missing =
    some (fill (get_full_time date_of time) part_names default_format)
format_time date_of time (text []) =
    some (fill (get_full_time date_of time) part_names default_format)
format_time date_of time (text (c ∷ s)) =
    some (fill (get_full_time date_of time) part_names (c ∷ s))
