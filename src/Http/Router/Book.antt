-- ===== src/Http/Router/Book.antt =====
-- The routes of http/http_router.hpp without a trie: for each method a book of the rules with their
-- handlers, the last rule first.
use cortono.Prelude.{
  Text, List, [], ◌∷◌, ℕ, zero, suc, Option, none, some, length, text_eq, ◌==◌, if◌then◌else◌,
}
use cortono.Http.Router.{DynamicRule}

abbrev pub Book : Type 0
Book = List (Text × ℕ)

-- The last rule for the address: how many were before it, and its handler.
abbrev pub look_up : Text → Book → Option (ℕ × ℕ)
look_up url [] = none
look_up url ((rule, h) ∷ b) =
    let rest = look_up url b in if text_eq url rule then some (length b, h) else rest

-- A rule is refused if it is there and is not the first of the book.
abbrev pub entered : Text → ℕ → Book → Option (ℕ × ℕ) → Option Book
entered rule h b none = some ((rule, h) ∷ b)
entered rule h b (some (zero, _)) = some ((rule, h) ∷ b)
entered rule h b (some (suc _, _)) = none

abbrev pub enter : Text → ℕ → Book → Option Book
enter rule h b = entered rule h b (look_up rule b)

abbrev pub enter_for : List ℕ → Text → ℕ → (ℕ → Book) → Option (ℕ → Book)
enter_for [] rule h bs = some bs
enter_for (m ∷ ms) rule h bs = elim (enter rule h (bs m)) [
  | some b ↦ enter_for ms rule h (λ k. if k == m then b else bs k)
  | none ↦ none
]

abbrev pub enter_all : List DynamicRule → (ℕ → Book) → Option (ℕ → Book)
enter_all [] bs = some bs
enter_all (r ∷ all) bs = elim (enter_for r.methods r.rule r.handler bs) [
  | some bs' ↦ enter_all all bs'
  | none ↦ none
]
