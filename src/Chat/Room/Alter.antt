-- ===== src/Chat/Room/Alter.antt =====
-- The component `uiAlter` of chatRoom.js: the three searches. `J` is the type of the answers that are
-- passed on to the viewer of JSON values as they are.
use cortono.Prelude.{
  Text, codes, List, [], ◌∷◌, ◌++◌, ◌≡◌, if◌then◌else◌, text_eq, map, ℕ, append_assoc, append-nil,
  sym, ◌∙◌,
}
use cortono.Chat.Room.Api.{weather, express, train, Call, call_for}

pub record Alter : Type 0 where
  pub city : Text
  pub company : Text
  pub code : Text
  pub train_code : Text

-- `data`
abbrev pub fresh : Alter
fresh = record { city = []; company = codes "圆通"; code = []; train_code = [] }

unfoldable pub search_weather : Alter → Call
search_weather a = call_for weather ((codes "city", a.city) ∷ [])

unfoldable pub search_express : Alter → Call
search_express a = call_for express ((codes "id", a.code) ∷ (codes "com", a.company) ∷ [])

unfoldable pub search_train : Alter → Call
search_train a = call_for train ((codes "TrainCode", a.train_code) ∷ [])

-- The texts within an element `TrainDetailInfo` of the answer.
pub record TrainDetail : Type 0 where
  pub train_station : Text
  pub arrive_time : Text
  pub start_time : Text
  pub km : Text

abbrev pub not_found : Text
not_found = codes "数据没有被发现"

-- an object of `tableData`
pub data Row : Type 0 where
  failed : ℕ → Text → Row
  stop : TrainDetail → Row

abbrev pub row : TrainDetail → Row
row d = if text_eq d.train_station not_found then failed 0 not_found else stop d

-- The loop over the elements; its `return` goes on with the next one.
add_rows : List Row → List TrainDetail → List Row
add_rows rows [] = rows
add_rows rows (d ∷ ds) = add_rows (rows ++ row d ∷ []) ds

unfoldable pub table_data : List TrainDetail → List Row
unfolding add_rows
table_data ds = add_rows [] ds

-- The viewer that an answer is shown in, and what it shows.
pub data Shown (J : Type 0) : Type 0 where
  show_json : Text → J → Shown J
  show_rows : Text → List Row → Shown J

pub data Answer (J : Type 0) : Type 0 where
  weather_answer : J → Answer J
  express_answer : J → Answer J
  train_answer : List TrainDetail → Answer J

-- The callbacks of the three searches.
unfoldable pub on_answer : {J : Type 0} → Answer J → Shown J
unfolding table_data
on_answer (weather_answer res) = show_json (codes ".search-weather .json-renderer") res
on_answer (express_answer res) = show_json (codes ".search-express .json-renderer") res
on_answer (train_answer ds) = show_rows (codes ".search-train .json-renderer") (table_data ds)

add_rows-append : (rows : List Row) (ds : List TrainDetail) → add_rows rows ds ≡ rows ++ map row ds
unfolding add_rows
add_rows-append rows [] = sym (append-nil rows)
add_rows-append rows (d ∷ ds) =
    add_rows-append (rows ++ row d ∷ []) ds ∙ append_assoc rows (row d ∷ []) (map row ds)

-- Each element of a train's answer gives one row, in the order of the answer: an error row where
-- the station says that no data was found, and its four texts elsewhere.
pub table_data_lem : (ds : List TrainDetail) → table_data ds ≡ map row ds
unfolding table_data
table_data_lem ds = add_rows-append [] ds
