-- ===== src/Tests/Texts.antt =====
-- The scripts of face.js at concrete inputs.
use cortono.Prelude.{Text, codes, List, [], ◌∷◌, ℕ, ◌≡◌, refl, arith, none, some, decimal}
use cortono.Face.Defs.{Face, replace_face}
use cortono.Face.Table.{face_json}
use cortono.Face.Messages.{Part, typed, picked, written, displayed, replace_face-written}
use cortono.Time.Defs.{
  Date, IsDate, unify, get_full_time, PartName, part_names, fill, missing, text, other, format_time,
}
use cortono.Time.Format.{
  FormatPart, literal, part_of, format_text, formatted, fill-format_text, iso, moment,
  format_time-default,
}
use cortono.Time.Human.{human, ago_of, Tells, human-Tells}

abbrev parts : List Part
parts = typed (codes "ok ") ∷ picked (codes "微笑") ∷ picked (codes "no face") ∷ []

replace_face-written_example : replace_face face_json (written parts) ≡ displayed face_json parts
replace_face-written_example = replace_face-written parts refl

abbrev smile : Face
smile = record { face_id = codes "qqface0"; title = codes "微笑" }

abbrev titles : Face → List Text → List Text
titles f ts = f.title ∷ ts

abbrev date_of : ℕ → Date
date_of t = record { full_year = 2017; month = 4; date = 3; hours = 12; minutes = 5; seconds = 9 }

abbrev format : List FormatPart
format = part_of PartName.hour ∷ literal (codes ":") ∷ part_of PartName.minute ∷ []

fill-format_text_example :
    fill (get_full_time date_of 1493784309) part_names (format_text format)
    ≡ formatted (get_full_time date_of 1493784309) format
fill-format_text_example = fill-format_text date_of 1493784309 format refl

noon-IsDate : IsDate (date_of (moment 1493784309))
noon-IsDate = record {
  month_range = omega arith;
  date_low = omega arith;
  date_high = omega arith;
  hours_range = omega arith;
  minutes_range = omega arith;
  seconds_range = omega arith;
}

format_time-default_example :
    (format_time date_of 1493784309 missing ≡ some (iso (date_of 1493784309000)))
    × (format_time date_of 1493784309 (text []) ≡ some (iso (date_of 1493784309000)))
    × (format_time date_of 1493784309 other ≡ none)
format_time-default_example = format_time-default date_of 1493784309 noon-IsDate

-- The date as it is written.
noon_text : iso (date_of 1493784309000) ≡ codes "2017-05-03 12:05:09"
unfolding decimal
noon_text = refl

human-Tells_example : Tells 1493793309000 1493784309000 (human 1493793309000 1493784309)
human-Tells_example = human-Tells 1493793309000 1493784309

-- Two and a half hours later.
later_text : human 1493793309000 1493784309 ≡ codes "2小时前"
unfolding human ago_of unify decimal
later_text = refl
