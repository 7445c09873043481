-- ===== src/Http/Trie.antt =====
-- `Trie` of http/http_router.hpp: the nodes, and `add`, which puts a rule in.
pub mod Paths
pub mod Finds
pub mod Adds
pub mod Growth
pub mod Places
pub mod Nodes
pub mod Search
use cortono.Prelude.{
  Text, codes, List, [], ◌∷◌, ◌++◌, ℕ, zero, suc, ◌-◌, Option, none, some, Bool, true, false,
  length, ◌==◌, if◌then◌else◌, is_prefix,
}

pub data ParamType : Type 0 where
  int : ParamType
  uint : ParamType
  double : ParamType
  string : ParamType
  path : ParamType

-- `(int)type`
abbrev pub number : ParamType → ℕ
number int = 0
number uint = 1
number double = 2
number string = 3
number path = 4

-- `TrieNode`. The keys of `children` are texts of one character: the character stands for them.
pub record TrieNode : Type 0 where
  pub done : Bool
  pub rule_index : ℕ
  pub param_children : ParamType → ℕ
  pub children : List (ℕ × ℕ)

-- A node of `nodes_.emplace_back()`.
abbrev pub blank : TrieNode
blank = record { done = false; rule_index = 0; param_children = λ p. 0; children = [] }

-- `nodes_`
abbrev pub Trie : Type 0
Trie = List TrieNode

-- `Trie()`
abbrev pub created : Trie
created = blank ∷ []

-- `nodes_[i]`, for the places of the vector; behind them nothing is read.
unfoldable pub node_at : ℕ → Trie → TrieNode
node_at i [] = blank
node_at zero (n ∷ ns) = n
node_at (suc i) (n ∷ ns) = node_at i ns

-- `nodes_[i]` is assigned to.
unfoldable pub change : ℕ → (TrieNode → TrieNode) → Trie → Trie
change i f [] = []
change zero f (n ∷ ns) = f n ∷ ns
change (suc i) f (n ∷ ns) = n ∷ change i f ns

-- `children.count(c)`, and `children[c]`
unfoldable pub child : ℕ → List (ℕ × ℕ) → Option ℕ
child c [] = none
child c ((d, j) ∷ m) = let rest = child c m in if c == d then some j else rest

abbrev pub set_param : ParamType → ℕ → TrieNode → TrieNode
set_param p j n = record n {
  param_children = λ q. if number q == number p then j else n.param_children q;
}

abbrev pub add_child : ℕ → ℕ → TrieNode → TrieNode
add_child c j n = record n { children = (c, j) ∷ n.children }

-- The node of a parameter below the node `i`, made if it is not there.
unfoldable pub param_step : ParamType → ℕ → Trie → Trie × ℕ
unfolding node_at change
param_step p i t =
    let j = (node_at i t).param_children p in
    if j == 0 then (change i (set_param p (length t)) (t ++ blank ∷ []), length t) else (t, j)

-- The node of a character below the node `i`, made if it is not there.
unfoldable pub char_step : ℕ → ℕ → Trie → Trie × ℕ
unfolding node_at change child
char_step c i t = elim (child c (node_at i t).children) [
  | none ↦ (change i (add_child c (length t)) (t ++ blank ∷ []), length t)
  | some j ↦ (t, j)
]

-- `param_traits`
abbrev pub param_traits : List (ParamType × Text)
param_traits =
    (int, codes "<int>")
    ∷ (uint, codes "<uint>")
    ∷ (double, codes "<double>")
    ∷ (string, codes "<string>")
    ∷ (path, codes "<path>")
    ∷ []

-- The first of them that the text begins with.
unfoldable pub param_of : List (ParamType × Text) → Text → Option (ParamType × Text)
param_of [] s = none
param_of ((p, name) ∷ ps) s =
    let rest = param_of ps s in if is_prefix name s then some (p, name) else rest

-- The loop of `add`, of which the next `skip` characters are part of a parameter.
unfoldable pub add_from : Text → ℕ → ℕ → Trie → Trie × ℕ
unfolding param_step char_step param_of
add_from [] skip i t = (t, i)
add_from (c ∷ s) (suc skip) i t = add_from s skip i t
add_from (c ∷ s) zero i t = elim (c == 60) [
  | true ↦ elim (param_of param_traits (c ∷ s)) [
    | some (p, name) ↦ let (t', j) = param_step p i t in add_from s (length name - 1) j t'
    | none ↦ add_from s 0 i t
  ]
  | false ↦ let (t', j) = char_step c i t in add_from s 0 j t'
]

abbrev pub finish : ℕ → TrieNode → TrieNode
finish k n = record n { done = true; rule_index = k }

-- `none` where the exception is thrown.
unfoldable pub add : Text → ℕ → Trie → Option Trie
unfolding add_from node_at change
add rule k t =
    let (t', i) = add_from rule 0 0 t in
    if (node_at i t').rule_index == 0 then some (change i (finish k) t') else none
