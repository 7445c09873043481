-- ===== src/Face/Messages.antt =====
-- What `replaceFace` (face.js) does to a message that was written with the keyboard and the panel.
use cortono.Prelude.{
  Text, List, [], ◌∷◌, ◌++◌, ◌≡◌, refl, sym, ap, ◌∙◌, Option, none, some, Bool, true, false, ◌&&◌,
  arith, if◌then◌else◌, text_eq, avoids, avoids-append, all, map, ap₂, ◌==◌, Bool-cases, inl, inr,
  text_eq→eq,
}
use cortono.Prelude.Templates.{
  Entry, Piece, plain, slot, find_value, image, render, substitute, IsPrefixFree, is_clean,
  is_plain_entry, settle, substitute-render, render-settle, render-settle_nil, settle-is_clean,
}
use cortono.Face.Defs.{Face, opening, closing, token, span, replace_face}
use cortono.Face.Table.{face_json}

-- A message: typed text, and tokens of the panel.
pub data Part : Type 0 where
  typed : Text → Part
  picked : Text → Part

abbrev pub write_part : Part → Text
write_part (typed s) = s
write_part (picked title) = token title

-- The text as it was written.
abbrev pub written : List Part → Text
written [] = []
written (p ∷ ps) = write_part p ++ written ps

-- the id of the first face with this title
abbrev pub find_id : Text → List Face → Option Text
find_id title [] = none
find_id title (f ∷ fs) = if text_eq f.title title then some f.face_id else find_id title fs

abbrev pub face_image : Text → Option Text → Text
face_image title none = token title
face_image title (some face_id) = span face_id title

abbrev pub show_part : List Face → Part → Text
show_part fs (typed s) = s
show_part fs (picked title) = face_image title (find_id title fs)

-- The text with images for the tokens of the faces `fs`.
abbrev pub displayed : List Face → List Part → Text
displayed fs [] = []
displayed fs (p ∷ ps) = show_part fs p ++ displayed fs ps

-- No opening bracket in typed text, and no bracket within a title.
abbrev pub is_clean_part : Part → Bool
is_clean_part (typed s) = avoids opening s
is_clean_part (picked title) = avoids closing title && avoids opening title

-- The title of a token with the bracket that ends it.
abbrev key_of : Text → Text
key_of title = title ++ closing ∷ []

-- It holds one closing bracket, at its end.
abbrev is_key : Text → Bool
is_key [] = false
is_key (c ∷ s) = if c == closing then text_eq s [] else is_key s

key_of-ne_nil : (title : Text) → text_eq (key_of title) [] ≡ false
key_of-ne_nil [] = refl
key_of-ne_nil (c ∷ s) = refl

is_key-key_of : (title : Text) → is_key (key_of title) ≡ avoids closing title
is_key-key_of [] = refl
is_key-key_of (c ∷ s) = ground (arith, is_key-key_of s, key_of-ne_nil s)

is_key-IsPrefixFree : IsPrefixFree is_key
is_key-IsPrefixFree [] l rest h k = cc
is_key-IsPrefixFree (a ∷ s) [] rest h k = cc
is_key-IsPrefixFree (a ∷ []) (b ∷ []) rest h k = ground arith
is_key-IsPrefixFree (a ∷ []) (b ∷ d ∷ t) rest h k = ground arith
is_key-IsPrefixFree (a ∷ c ∷ s) (b ∷ []) rest h k = ground arith
is_key-IsPrefixFree (a ∷ c ∷ s) (b ∷ d ∷ t) rest h k =
    ground (arith, is_key-IsPrefixFree (c ∷ s) (d ∷ t) rest)

text_eq-key_of : (s t : Text) → text_eq (key_of s) (key_of t) ≡ text_eq s t
text_eq-key_of [] [] = refl
text_eq-key_of [] (b ∷ []) = ground arith
text_eq-key_of [] (b ∷ c ∷ t) = ground arith
text_eq-key_of (a ∷ []) [] = ground arith
text_eq-key_of (a ∷ c ∷ s) [] = ground arith
text_eq-key_of (a ∷ s) (b ∷ t) = ground (arith, text_eq-key_of s t)

abbrev entry : Face → Entry
entry f = record { key = key_of f.title; value = span f.face_id f.title }

abbrev piece : Part → Piece
piece (typed s) = plain s
piece (picked title) = slot (key_of title)

find_value-find_id :
    (title : Text) (fs : List Face)
    → image opening (key_of title) (find_value (key_of title) (map entry fs))
      ≡ face_image title (find_id title fs)
find_value-find_id title [] = refl
find_value-find_id title (f ∷ fs) = elim (Bool-cases (text_eq f.title title)) [
  | inl same ↦ rw (text_eq-key_of f.title title, same) (ap (span f.face_id) (text_eq→eq _ _ same))
  | inr other ↦ rw (text_eq-key_of f.title title, other) (find_value-find_id title fs)
]

render-displayed :
    (fs : List Face) (ps : List Part)
    → render opening (map entry fs) (map piece ps) ≡ displayed fs ps
render-displayed fs [] = refl
render-displayed fs (typed s ∷ ps) = ap (s ++◌) (render-displayed fs ps)
render-displayed fs (picked title ∷ ps) =
    ap₂ ◌++◌ (find_value-find_id title fs) (render-displayed fs ps)

replace_face-substitute :
    (fs : List Face) (s : Text) → replace_face fs s ≡ substitute opening (map entry fs) s
unfolding replace_face
replace_face-substitute [] s = refl
replace_face-substitute (f ∷ fs) s = replace_face-substitute fs _

piece-is_clean :
    (ps : List Part)
    → all is_clean_part ps ≡ true
    → all (is_clean opening is_key) (map piece ps) ≡ true
piece-is_clean [] h = refl
piece-is_clean (typed s ∷ ps) h = ground (arith, piece-is_clean ps)
piece-is_clean (picked title ∷ ps) h =
    ground
      (arith, piece-is_clean ps, is_key-key_of title, avoids-append opening title (closing ∷ []))

face_json-is_plain : all (is_plain_entry opening is_key) (map entry face_json) ≡ true
face_json-is_plain = refl

-- For typed text without an opening bracket and titles without brackets, the hundred replacements
-- of replaceFace show each token whose title is in the table as the image of the first face with
-- that title, and all else unchanged.
pub replace_face-written :
    (ps : List Part)
    → all is_clean_part ps ≡ true
    → replace_face face_json (written ps) ≡ displayed face_json ps
replace_face-written ps c =
    ap (replace_face face_json) (sym (render-displayed [] ps))
    ∙ replace_face-substitute face_json _
    ∙ substitute-render opening is_key is_key-IsPrefixFree (map entry face_json) (map piece ps)
        face_json-is_plain (piece-is_clean ps c)
    ∙ render-displayed face_json ps

-- For a message of typed text without an opening bracket and tokens whose titles have no bracket,
-- replacing the faces a second time changes nothing.
pub replace_face_idempotent :
    (ps : List Part)
    → all is_clean_part ps ≡ true
    → replace_face face_json (replace_face face_json (written ps))
      ≡ replace_face face_json (written ps)
replace_face_idempotent ps c =
    let es : List Entry = map entry face_json in
    let filled : List Piece = settle opening is_key es (map piece ps) in
    let once : replace_face face_json (written ps) ≡ render opening es (map piece ps) =
      replace_face-written ps c ∙ sym (render-displayed face_json ps) in
    rw (once, ← render-settle_nil opening is_key es (map piece ps))
      (replace_face-substitute face_json _
        ∙ substitute-render opening is_key is_key-IsPrefixFree es filled face_json-is_plain (
            settle-is_clean opening is_key es (map piece ps) face_json-is_plain
              (piece-is_clean ps c))
        ∙ render-settle opening is_key es (map piece ps)
        ∙ sym (render-settle_nil opening is_key es (map piece ps)))
