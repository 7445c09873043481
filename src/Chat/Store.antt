-- ===== src/Chat/Store.antt =====
-- The conversations of a chat page: the object `state.msg`, which gives each user's id an array of
-- messages. The page's `msgList` is a second name for one of the arrays, so arrays stand in a heap.
pub mod Laws
use cortono.Prelude.{
  Text, List, [], ◌∷◌, ◌++◌, ℕ, zero, suc, Option, none, some, if◌then◌else◌, text_eq, length,
  get_last?,
}
use cortono.Chat.Defs.{Message}

pub record Store : Type 0 where
  pub arrays : List (List Message)
  pub msg : List (Text × ℕ)

-- `state.msg[id]`
abbrev pub lookup : Text → List (Text × ℕ) → Option ℕ
lookup id [] = none
lookup id ((i, r) ∷ m) = if text_eq i id then some r else lookup id m

abbrev pub array_at : List (List Message) → ℕ → List Message
array_at [] r = []
array_at (a ∷ arrays) zero = a
array_at (a ∷ arrays) (suc r) = array_at arrays r

abbrev pub push_at : List (List Message) → ℕ → Message → List (List Message)
push_at [] r m = []
push_at (a ∷ arrays) zero m = (a ++ m ∷ []) ∷ arrays
push_at (a ∷ arrays) (suc r) m = a ∷ push_at arrays r m

-- `array.push(m)`
unfoldable pub push : ℕ → Message → Store → Store
push r m s = record s { arrays = push_at s.arrays r m }

-- `if (!state.msg[id]) state.msg[id] = []`, and the array that `state.msg[id]` is then
unfoldable pub ensure : Text → Store → Store × ℕ
ensure id s = elim (lookup id s.msg) [
  | some r ↦ (s, r)
  | none ↦ (
    record { arrays = s.arrays ++ [] ∷ []; msg = s.msg ++ (id, length s.arrays) ∷ [] },
    length s.arrays,
  )
]

abbrev messages_of : List (List Message) → Option ℕ → List Message
messages_of arrays none = []
messages_of arrays (some r) = array_at arrays r

-- The messages of one user's conversation; none before it begins.
unfoldable pub history : Store → Text → List Message
history s id = messages_of s.arrays (lookup id s.msg)

abbrev pub text_of : Option Message → Text
text_of none = []
text_of (some m) = m.msg

-- `getLastMsg`: the text of the last message, "" where there is none
unfoldable pub get_last_msg : Store → Text → Text
get_last_msg s id = elim (lookup id s.msg) [
  | none ↦ []
  | some r ↦ text_of (get_last? (array_at s.arrays r))
]
