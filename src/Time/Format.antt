-- ===== src/Time/Format.antt =====
-- What the formatting of a time (face.js) writes.
use cortono.Prelude.{
  Text, codes, decimal, decimal-avoids, length-decimal-le, length-decimal-ge, decimal-one,
  decimal-two, List, [], ltb→lt, ◌+◌, ◌/◌, ◌%◌, ◌≤◌, ◌∷◌, ◌++◌, ℕ, ◌*◌, ◌^◌, ◌<◌, ◌≡◌, refl, sym,
  ap, ◌∙◌, none, some, Bool, true, false, ◌&&◌, arith, if◌then◌else◌, text_eq, avoids, all, map,
  Bool-cases, inl, inr, ltb, leb,
}
use mathlib.Core.Path.{subst}
use cortono.Prelude.Templates.{
  Entry, Piece, plain, slot, render, substitute, IsPrefixFree, is_clean, is_plain_entry,
  substitute-render,
}
use cortono.Time.Defs.{
  Date, IsDate, unify, two, FullTime, get_full_time, PartName, part, key, part_names, replace, fill,
  default_format, missing, text, other, format_time,
}

-- The milliseconds of a time, which counts seconds if it has ten digits.
abbrev pub moment : ℕ → ℕ
moment time = if leb (10 ^ 9) time && ltb time (10 ^ 10) then time * 1000 else time

pub unify_lem : (time : ℕ) → unify time ≡ moment time
unfolding unify
unify_lem time = elim (Bool-cases (leb (10 ^ 9) time)) [
  | inr short ↦ rw short (ground (arith, length-decimal-le 8 time))
  | inl enough ↦ elim (Bool-cases (ltb time (10 ^ 10))) [
    | inl fits ↦ ground (arith, length-decimal-le 9 time, length-decimal-ge 9 time)
    | inr long ↦ ground (arith, length-decimal-ge 10 time)
  ]
]

-- The two digits of a number below 100.
abbrev pub two_digits : ℕ → Text
two_digits n = (b'0' + n / 10) ∷ (b'0' + n % 10) ∷ []

two-two_digits : (n : ℕ) → n < 100 → two n ≡ two_digits n
unfolding two
two-two_digits n h = elim (Bool-cases (ltb n 10)) [
  | inl small ↦
      let lt = ltb→lt n 10 small in
      let tens : n / 10 ≡ 0 = omega arith in rw (decimal-one n lt, tens) refl
  | inr large ↦
      let ge : 10 ≤ n = ground arith in
      let tens : (n / 10) % 10 ≡ n / 10 = omega arith in rw (decimal-two n ge h, tens) refl
]

abbrev percent : ℕ
percent = b'%'

two-avoids : (n : ℕ) → avoids percent (two n) ≡ true
unfolding two
two-avoids n = ground (arith, decimal-avoids percent n refl)

-- A key is one letter behind the percent sign.
abbrev is_letter : Text → Bool
is_letter [] = false
is_letter (c ∷ s) = text_eq s []

is_letter-IsPrefixFree : IsPrefixFree is_letter
is_letter-IsPrefixFree [] l rest h k = cc
is_letter-IsPrefixFree (a ∷ s) [] rest h k = cc
is_letter-IsPrefixFree (a ∷ []) (b ∷ []) rest h k = ground arith
is_letter-IsPrefixFree (a ∷ []) (b ∷ d ∷ t) rest h k = cc
is_letter-IsPrefixFree (a ∷ c ∷ s) (b ∷ t) rest h k = cc

abbrev letter : PartName → Text
letter PartName.year = codes "y"
letter PartName.month = codes "M"
letter PartName.day = codes "d"
letter PartName.hour = codes "h"
letter PartName.minute = codes "m"
letter PartName.second = codes "s"

abbrev entry : FullTime → PartName → Entry
entry t p = record { key = letter p; value = part p t }

fill-substitute :
    (t : FullTime) (ps : List PartName) (s : Text)
    → fill t ps s ≡ substitute percent (map (entry t) ps) s
unfolding fill replace
fill-substitute t [] s = refl
fill-substitute t (PartName.year ∷ ps) s = fill-substitute t ps _
fill-substitute t (PartName.month ∷ ps) s = fill-substitute t ps _
fill-substitute t (PartName.day ∷ ps) s = fill-substitute t ps _
fill-substitute t (PartName.hour ∷ ps) s = fill-substitute t ps _
fill-substitute t (PartName.minute ∷ ps) s = fill-substitute t ps _
fill-substitute t (PartName.second ∷ ps) s = fill-substitute t ps _

entries_plain :
    (date_of : ℕ → Date) (time : ℕ)
    → all (is_plain_entry percent is_letter) (map (entry (get_full_time date_of time)) part_names)
      ≡ true
unfolding get_full_time
entries_plain date_of time =
    simp (decimal-avoids percent (date_of (unify time)).full_year refl, two-avoids)

-- A format, as literal text without a percent sign and the names of parts.
pub data FormatPart : Type 0 where
  literal : Text → FormatPart
  part_of : PartName → FormatPart

abbrev pub format_text : List FormatPart → Text
format_text [] = []
format_text (literal s ∷ ps) = s ++ format_text ps
format_text (part_of p ∷ ps) = key p ++ format_text ps

abbrev pub formatted : FullTime → List FormatPart → Text
formatted t [] = []
formatted t (literal s ∷ ps) = s ++ formatted t ps
formatted t (part_of p ∷ ps) = part p t ++ formatted t ps

abbrev pub is_literal_clean : FormatPart → Bool
is_literal_clean (literal s) = avoids percent s
is_literal_clean (part_of p) = true

abbrev piece : FormatPart → Piece
piece (literal s) = plain s
piece (part_of p) = slot (letter p)

pieces_clean :
    (ps : List FormatPart)
    → all is_literal_clean ps ≡ true
    → all (is_clean percent is_letter) (map piece ps) ≡ true
pieces_clean [] h = refl
pieces_clean (literal s ∷ ps) h = ground (arith, pieces_clean ps)
pieces_clean (part_of PartName.year ∷ ps) h = pieces_clean ps h
pieces_clean (part_of PartName.month ∷ ps) h = pieces_clean ps h
pieces_clean (part_of PartName.day ∷ ps) h = pieces_clean ps h
pieces_clean (part_of PartName.hour ∷ ps) h = pieces_clean ps h
pieces_clean (part_of PartName.minute ∷ ps) h = pieces_clean ps h
pieces_clean (part_of PartName.second ∷ ps) h = pieces_clean ps h

render_nil : (ps : List FormatPart) → render percent [] (map piece ps) ≡ format_text ps
render_nil [] = refl
render_nil (literal s ∷ ps) = ap (s ++◌) (render_nil ps)
render_nil (part_of PartName.year ∷ ps) = ap (codes "%y" ++◌) (render_nil ps)
render_nil (part_of PartName.month ∷ ps) = ap (codes "%M" ++◌) (render_nil ps)
render_nil (part_of PartName.day ∷ ps) = ap (codes "%d" ++◌) (render_nil ps)
render_nil (part_of PartName.hour ∷ ps) = ap (codes "%h" ++◌) (render_nil ps)
render_nil (part_of PartName.minute ∷ ps) = ap (codes "%m" ++◌) (render_nil ps)
render_nil (part_of PartName.second ∷ ps) = ap (codes "%s" ++◌) (render_nil ps)

render_full :
    (t : FullTime) (ps : List FormatPart)
    → render percent (map (entry t) part_names) (map piece ps) ≡ formatted t ps
render_full t [] = refl
render_full t (literal s ∷ ps) = ap (s ++◌) (render_full t ps)
render_full t (part_of PartName.year ∷ ps) = ap (t.year ++◌) (render_full t ps)
render_full t (part_of PartName.month ∷ ps) = ap (t.month ++◌) (render_full t ps)
render_full t (part_of PartName.day ∷ ps) = ap (t.day ++◌) (render_full t ps)
render_full t (part_of PartName.hour ∷ ps) = ap (t.hour ++◌) (render_full t ps)
render_full t (part_of PartName.minute ∷ ps) = ap (t.minute ++◌) (render_full t ps)
render_full t (part_of PartName.second ∷ ps) = ap (t.second ++◌) (render_full t ps)

-- For a format whose other text has no percent sign, the six replacements one after the other fill
-- it in one pass: each part that it names is written once, and nothing that is written is read as
-- a part again.
pub fill-format_text :
    (date_of : ℕ → Date) (time : ℕ) (ps : List FormatPart)
    → all is_literal_clean ps ≡ true
    → fill (get_full_time date_of time) part_names (format_text ps)
      ≡ formatted (get_full_time date_of time) ps
fill-format_text date_of time ps h =
    let t = get_full_time date_of time in
    fill-substitute t part_names (format_text ps)
    ∙ ap (substitute percent (map (entry t) part_names)) (sym (render_nil ps))
    ∙ substitute-render percent is_letter is_letter-IsPrefixFree (map (entry t) part_names)
        (map piece ps) (entries_plain date_of time) (pieces_clean ps h)
    ∙ render_full t ps

-- the parts of the default format
abbrev default_parts : List FormatPart
default_parts =
    part_of PartName.year
    ∷ literal (codes "-")
    ∷ part_of PartName.month
    ∷ literal (codes "-")
    ∷ part_of PartName.day
    ∷ literal (codes " ")
    ∷ part_of PartName.hour
    ∷ literal (codes ":")
    ∷ part_of PartName.minute
    ∷ literal (codes ":")
    ∷ part_of PartName.second
    ∷ []

-- A date as year-month-day hour:minute:second, where the month counts from 1.
abbrev pub iso : Date → Text
iso d =
    decimal d.full_year
    ++ (codes "-"
        ++ (two_digits (d.month + 1)
            ++ (codes "-"
                ++ (two_digits d.date
                    ++ (codes " "
                        ++ (two_digits d.hours
                            ++ (codes ":"
                                ++ (two_digits d.minutes
                                    ++ (codes ":" ++ (two_digits d.seconds ++ []))))))))))

formatted-default :
    (date_of : ℕ → Date) (time : ℕ)
    → IsDate (date_of (unify time))
    → formatted (get_full_time date_of time) default_parts ≡ iso (date_of (unify time))
unfolding get_full_time
formatted-default date_of time d =
    let date = date_of (unify time) in
    rw
      (
        two-two_digits (date.month + 1) (omega (arith, d.month_range)),
        two-two_digits date.date (omega (arith, d.date_high)),
        two-two_digits date.hours (omega (arith, d.hours_range)),
        two-two_digits date.minutes (omega (arith, d.minutes_range)),
        two-two_digits date.seconds (omega (arith, d.seconds_range)),
      )
      refl

-- For a date in the documented ranges, a time without a format, or with the empty one, is written
-- as year-month-day hour:minute:second: the numbers of the date of that time, in milliseconds or,
-- if it has ten digits, in seconds, the month counted from 1 and each part but the year by its two
-- digits. A format that is no text is refused by an error.
pub format_time-default :
    (date_of : ℕ → Date) (time : ℕ)
    → IsDate (date_of (moment time))
    → (format_time date_of time missing ≡ some (iso (date_of (moment time))))
      × (format_time date_of time (text []) ≡ some (iso (date_of (moment time))))
      × (format_time date_of time other ≡ none)
unfolding format_time
format_time-default date_of time d =
    let e = unify_lem time in
    let d' = subst (λ t. IsDate (date_of t)) (sym e) d in
    let written : some (fill (get_full_time date_of time) part_names default_format)
        ≡ some (iso (date_of (moment time))) =
      ap some (
        fill-format_text date_of time default_parts refl
        ∙ formatted-default date_of time d'
        ∙ ap (λ t. iso (date_of t)) e) in
    (written, written, refl)
