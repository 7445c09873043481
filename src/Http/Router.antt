-- ===== src/Http/Router.antt =====
-- `DynamicRule` and `Router` of http/http_router.hpp. A method goes by the number of its enumerator,
-- and a handler by a number.
pub mod Book
pub mod Serves
pub mod Refine
use cortono.Prelude.{
  Text, List, [], ◌∷◌, ◌++◌, ℕ, Option, none, some, length, ◌==◌, if◌then◌else◌, get_elem?,
}
use cortono.Http.Trie.{Trie, created, add}
use cortono.Http.Trie.Search.{Outcome, ok, undefined, and_then, RoutingParams, Found, find}

pub record DynamicRule : Type 0 where
  pub rule : Text
  pub methods : List ℕ
  pub handler : ℕ

-- `operator()`: the rule gets its handler, and the method GET, whose number is 0, if it has none.
unfoldable pub set_handler : ℕ → DynamicRule → DynamicRule
set_handler h r = record r {
  methods = elim r.methods [ [] ↦ 0 ∷ [] | m ∷ ms ↦ m ∷ ms ];
  handler = h;
}

-- `MethodRule`, with the rules for their handlers.
pub record MethodRule : Type 0 where
  pub rules : List ℕ
  pub trie : Trie

abbrev pub no_rules : MethodRule
no_rules = record { rules = []; trie = created }

-- `method_rules_`
abbrev pub MethodRules : Type 0
MethodRules = ℕ → MethodRule

-- `rules.emplace_back(rule_obj)` and `trie.add(rule, rules.size() - 1)`
unfoldable pub add_rule : Text → ℕ → MethodRule → Option MethodRule
unfolding add
add_rule rule h r = elim (add rule (length r.rules) r.trie) [
  | some t ↦ some (record { rules = r.rules ++ h ∷ []; trie = t })
  | none ↦ none
]

-- The function that `forearch_method` calls, for each of the methods.
unfoldable pub internal_add_rule_object : List ℕ → Text → ℕ → MethodRules → Option MethodRules
unfolding add_rule
internal_add_rule_object [] rule h rs = some rs
internal_add_rule_object (m ∷ ms) rule h rs = elim (add_rule rule h (rs m)) [
  | some r ↦ internal_add_rule_object ms rule h (λ k. if k == m then r else rs k)
  | none ↦ none
]

-- `volidate`; `none` where `add` throws.
unfoldable pub volidate : List DynamicRule → MethodRules → Option MethodRules
unfolding internal_add_rule_object
volidate [] rs = some rs
volidate (r ∷ all) rs = elim (internal_add_rule_object r.methods r.rule r.handler rs) [
  | some rs' ↦ volidate all rs'
  | none ↦ none
]

-- The handler that `handle` calls, with its parameters; `none` is the address that is not found.
module _ (D : Type 0) (strtold : Text → Option (D × ℕ)) where
  unfoldable pub handle : ℕ → Text → MethodRules → Outcome (Option (ℕ × RoutingParams D))
  unfolding find
  handle m url rs = and_then (find D strtold (rs m).trie url) (λ f. elim (Found.rule_index f) [
    | none ↦ ok none
    | some k ↦ elim (get_elem? (rs m).rules k) [
      | some h ↦ ok (some (h, f.match_params))
      | none ↦ undefined
    ]
  ])
