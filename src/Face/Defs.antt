-- ===== src/Face/Defs.antt =====
-- Face tokens and what `replaceFace` makes of them (face.js).
use cortono.Prelude.{Text, codes, List, [], ◌∷◌, ◌++◌, ℕ}
use cortono.Prelude.Replace.{replace_all}

-- an entry of `faceJson`
pub record Face : Type 0 where
  pub face_id : Text
  pub title : Text

-- "【" and "】"
abbrev pub opening : ℕ
opening = 0x3010

abbrev pub closing : ℕ
closing = 0x3011

-- what the panel's callback appends to the text that is being written
abbrev pub token : Text → Text
token title = opening ∷ (title ++ closing ∷ [])

abbrev pub span : Text → Text → Text
span face_id title =
    codes "<span class='face " ++ (face_id ++ (codes "' title='" ++ (title ++ codes "'></span>")))

-- one round of the loop
abbrev pub replace_one : Face → Text → Text
replace_one face text = replace_all (token face.title) (span face.face_id face.title) text

unfoldable pub replace_face : List Face → Text → Text
replace_face [] text = text
replace_face (face ∷ faces) text = replace_face faces (replace_one face text)
