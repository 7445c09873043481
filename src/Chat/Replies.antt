-- ===== src/Chat/Replies.antt =====
-- `filterData`: the markup for a reply of the robot (im.js; chatRoom.js has the same text).
use native.Mathlib.Numerals.{add-one}
use cortono.Prelude.{
  Text, codes, List, [], ◌∷◌, ◌++◌, ℕ, zero, suc, ◌+◌, ◌≡◌, refl, ap, sym, ◌∙◌, Option, none, some,
  arith, if◌then◌else◌, ◌==◌, ltb, length, get_elem?, take, drop, append_assoc, append-nil, Bool,
  true, false, ◌&&◌, ◌||◌, ◌↔◌, Bool-cases, inl, inr, tests, ltb→lt, ◌≤◌,
}

-- an entry of `data.list`, with `none` for a field that is left out
pub record NewsItem : Type 0 where
  pub detailurl : Option Text
  pub article : Option Text
  pub name : Option Text

-- The reply, with `none` for an address or a list that is left out. A text that is left out counts as
-- false where the pages test it, as the empty one does, and `filterData` is not called.
pub record Reply : Type 0 where
  pub code : ℕ
  pub text : Text
  pub url : Option Text
  pub list : Option (List NewsItem)

-- A field that is added to a text: `undefined` where it is left out.
abbrev pub shown : Option Text → Text
shown none = codes "undefined"
shown (some s) = s

abbrev pub list_item : Option Text → Option Text → Text
list_item url label =
    codes "<li><a href='"
    ++ (shown url ++ (codes "' target='page'>" ++ (shown label ++ codes "</a></li>")))

-- The loop, over the rounds left; `none` stands for the error of reading past the end of the list.
add_items : (NewsItem → Option Text) → List NewsItem → ℕ → ℕ → Text → Option Text
add_items label list zero i html = some html
add_items label list (suc n) i html = elim (get_elem? list i) [
  | none ↦ none
  | some item ↦ add_items label list n (i + 1) (html ++ list_item item.detailurl (label item))
]

abbrev pub list_open : Text
list_open = codes "<ul class='res-list'>"

-- the bound of the loop
abbrev rounds : List NewsItem → ℕ
rounds list = if ltb (length list) 3 then length list else 3

-- `html += '</li>'`
abbrev close : Option Text → Option Text
close none = none
close (some html) = some (html ++ codes "</li>")

-- `data.list.length` is an error if there is no list.
list_reply : (NewsItem → Option Text) → Reply → Option Text
unfolding add_items
list_reply label reply = elim reply.list [
  | none ↦ none
  | some list ↦ close (add_items label list (rounds list) 0 (reply.text ++ list_open))
]

unfoldable pub filter_data : Reply → Option Text
unfolding list_reply
filter_data reply =
    if reply.code == 100000
    then some reply.text
    else if reply.code == 200000
    then some (
        reply.text
        ++ (codes "<a href='"
            ++ (shown reply.url ++ codes "' class='res-link' target='page'>打开页页面</a>")))
    else if reply.code == 302000
    then list_reply (λ item. item.article) reply
    else if reply.code == 308000
    then list_reply (λ item. item.name) reply
    else some reply.text

-- The entries of a list of items, one after the other.
abbrev pub entries : (NewsItem → Option Text) → List NewsItem → Text
entries label [] = []
entries label (item ∷ items) = list_item item.detailurl (label item) ++ entries label items

-- What is shown for a reply.
abbrev pub list_markup : (NewsItem → Option Text) → Text → Option (List NewsItem) → Option Text
list_markup label text none = none
list_markup label text (some list) =
    some (text ++ (list_open ++ (entries label (take 3 list) ++ codes "</li>")))

get_elem?-drop :
    (list : List NewsItem) (i : ℕ) (item : NewsItem) (rest : List NewsItem)
    → drop i list ≡ item ∷ rest
    → get_elem? list i ≡ some item
get_elem?-drop [] zero item rest e = cc
get_elem?-drop [] (suc i) item rest e = cc
get_elem?-drop (x ∷ list) zero item rest e = cc
get_elem?-drop (x ∷ list) (suc i) item rest e = get_elem?-drop list i item rest e

drop-add-one :
    (list : List NewsItem) (i : ℕ) (item : NewsItem) (rest : List NewsItem)
    → drop i list ≡ item ∷ rest
    → drop (suc i) list ≡ rest
drop-add-one [] zero item rest e = cc
drop-add-one [] (suc i) item rest e = cc
drop-add-one (x ∷ list) zero item rest e = cc
drop-add-one (x ∷ list) (suc i) item rest e = drop-add-one list i item rest e

add_items-drop :
    (label : NewsItem → Option Text) (list : List NewsItem) (n i : ℕ) (html : Text)
    (rest : List NewsItem)
    → drop i list ≡ rest
    → n ≤ length rest
    → add_items label list n i html ≡ some (html ++ entries label (take n rest))
unfolding add_items
add_items-drop label list zero i html rest e h = ap some (sym (append-nil html))
add_items-drop label list (suc n) i html [] e h = absurd (omega arith)
add_items-drop label list (suc n) i html (item ∷ rest) e h =
    rw (get_elem?-drop list i item rest e, add_items, add-one)
      (add_items-drop label list n (suc i) _ rest (drop-add-one list i item rest e) (omega arith)
        ∙ ap some (append_assoc html (list_item item.detailurl (label item)) _))

rounds-le-length : (list : List NewsItem) → rounds list ≤ length list
rounds-le-length list = ground arith

take-rounds : (list : List NewsItem) → take (rounds list) list ≡ take 3 list
take-rounds [] = refl
take-rounds (a ∷ []) = refl
take-rounds (a ∷ b ∷ []) = refl
take-rounds (a ∷ b ∷ c ∷ list) = elim (Bool-cases (ltb (suc (suc (suc (length list)))) 3)) [
  | inl short ↦ absurd (omega (tests, ltb→lt _ _ short))
  | inr enough ↦ rw enough
]

list_reply_lem :
    (label : NewsItem → Option Text) (reply : Reply)
    → list_reply label reply ≡ list_markup label reply.text reply.list
unfolding list_reply
list_reply_lem label reply = go reply.list
  where
    go :
        (o : Option (List NewsItem))
        → elim o [
          | none ↦ none
          | some list ↦ close (add_items label list (rounds list) 0 (reply.text ++ list_open))
        ]
          ≡ list_markup label reply.text o
    go none = refl
    go (some list) =
        rw
          (add_items-drop label list (rounds list) 0 (reply.text ++ list_open) list refl
            (rounds-le-length list))
          (rw (take-rounds list) (
            ap some
              (append_assoc (reply.text ++ list_open) _ _ ∙ append_assoc reply.text list_open _)))

-- The branch that a code takes: plain text, a link, news by their articles, recipes by their names.
abbrev pub reply_markup : Reply → Option Text
reply_markup reply =
    if reply.code == 200000
    then some (
        reply.text
        ++ (codes "<a href='"
            ++ (shown reply.url ++ codes "' class='res-link' target='page'>打开页页面</a>")))
    else if reply.code == 302000
    then list_markup (λ item. item.article) reply.text reply.list
    else if reply.code == 308000
    then list_markup (λ item. item.name) reply.text reply.list
    else some reply.text

-- News or recipes without their list.
abbrev pub lacks_list : Reply → Bool
lacks_list reply =
    (reply.code == 302000 || reply.code == 308000)
    && elim reply.list [ none ↦ true | some _ ↦ false ]

markup-none :
    (code : ℕ) (text : Text) (url : Option Text) (list : Option (List NewsItem))
    → let reply : Reply = record { code = code; text = text; url = url; list = list } in
      (reply_markup reply ≡ none) ↔ (lacks_list reply ≡ true)
markup-none code text url none = grind arith
markup-none code text url (some list) = grind arith

pub filter_data_lem :
    (reply : Reply)
    → (filter_data reply ≡ reply_markup reply)
      × ((filter_data reply ≡ none) ↔ (lacks_list reply ≡ true))
unfolding filter_data
filter_data_lem reply =
    let same : filter_data reply ≡ reply_markup reply = ground (
      arith,
      list_reply_lem (λ item. item.article) reply,
      list_reply_lem (λ item. item.name) reply,
    ) in
    (same, rw same (markup-none reply.code reply.text reply.url reply.list))
