-- ===== src/Tests/Routes.antt =====
-- The routes of http/http_router.hpp, `split` and `decode` of the HTTP server at concrete inputs.
use cortono.Prelude.{Text, codes, List, [], ◌∷◌, ℕ, suc, ◌≡◌, refl, Option, none, some, arith}
use cortono.Http.Trie.{
  Trie, blank, created, path, set_param, add_child, finish, add, add_from, param_step, char_step,
  param_of, node_at, change, child,
}
use cortono.Http.Trie.Search.{
  ok, undefined, no_params, find_int, find_uint, find_double, find_string, find_path, find_children,
  find_below, find_at, find,
}
use cortono.Http.Trie.Paths.{find_at_undefined}
use cortono.Http.Utils.{split, split_from, find_first_of}
use cortono.Http.Utils.Joined.{split-join}
use cortono.Http.Codec.{decode, decode_from}
use cortono.Http.Codec.Escapes.{nothing, plain, escape, decode-Writes}
use cortono.Http.Router.{DynamicRule, no_rules, volidate}
use cortono.Http.Router.Book.{enter_all}
use cortono.Http.Router.Serves.{Both}
use cortono.Http.Router.Refine.{Answers, volidate-Answers}

-- No address of the tests has a number of `double`.
abbrev no_double : Text → Option (ℕ × ℕ)
no_double s = none

abbrev rules : List DynamicRule
rules =
    record { rule = codes "/"; methods = 0 ∷ []; handler = 10 }
    ∷ record { rule = codes "/api"; methods = 0 ∷ 1 ∷ []; handler = 11 }
    ∷ record { rule = codes "/a"; methods = 1 ∷ []; handler = 12 }
    ∷ []

volidate-Answers_example :
    Both (Answers ℕ no_double) (volidate rules (λ m. no_rules)) (enter_all rules (λ m. []))
volidate-Answers_example = volidate-Answers ℕ no_double rules (refl, (refl, (refl, tt)))

-- The trie of the rule "/<path>".
abbrev path_trie : Trie
path_trie = add_child 47 1 blank ∷ set_param path 2 blank ∷ finish 0 blank ∷ []

path_trie_lem : add (codes "/<path>") 0 created ≡ some path_trie
unfolding add add_from param_step char_step param_of node_at change child
path_trie_lem = refl

path_address : find ℕ no_double path_trie (codes "/x") ≡ undefined
unfolding find find_at find_below find_int find_uint find_double find_string find_path find_children
    node_at
path_address = refl

at_path : (node_at 1 path_trie).param_children path ≡ 2
unfolding node_at
at_path = refl

find_at_undefined_example :
    find_at ℕ no_double (suc (suc 0)) path_trie (codes "x") 1 no_params ≡ undefined
unfolding node_at
find_at_undefined_example =
    find_at_undefined ℕ no_double 0 path_trie 120 [] 1 no_params (λ h. omega (arith, h)) refl refl
      refl refl refl

-- A rule that is found first is forgotten when a later kind of parameter fails.
forgotten :
    elim (add (codes "/<int>") 0 created) [
      | some t ↦ elim (add (codes "/<string>/x") 1 t) [
        | some u ↦ elim (find ℕ no_double u (codes "/5")) [ ok f ↦ some f.rule_index | _ ↦ none ]
        | none ↦ none
      ]
      | none ↦ none
    ]
    ≡ some none
unfolding add add_from param_step char_step param_of node_at change child find find_at find_below
    find_int find_uint find_double find_string find_path find_children
forgotten = refl

-- The rule with the number 0 is replaced by another of the same text; a later one is refused.
replaced :
    ◌≡◌ {A = Option ℕ}
      (elim (add (codes "/a") 0 created) [
        | some t ↦ elim (add (codes "/a") 1 t) [
          | some u ↦ (elim (add (codes "/a") 2 u) [ some _ ↦ some 3 | none ↦ some 2 ])
          | none ↦ some 1
        ]
        | none ↦ some 0
      ])
      (some 2)
unfolding add add_from param_step char_step param_of node_at change child
replaced = refl

split-join_example :
    split (codes "id=7; name=x") (codes "; ") ≡ some (codes "id=7" ∷ codes "name=x" ∷ [])
split-join_example =
    split-join 59 (codes " ") (codes "id=7") (codes "name=x" ∷ [])
      (refl, (refl, (refl, (refl, tt)))) ((refl, (refl, (refl, (refl, (refl, (refl, tt)))))), tt)

-- One character of "; " is enough to split, and two are skipped.
split_loses : split (codes "a;b") (codes "; ") ≡ some (codes "a" ∷ [] ∷ [])
unfolding split split_from find_first_of
split_loses = refl

split_throws : split (codes "a;") (codes "; ") ≡ none
unfolding split split_from find_first_of
split_throws = refl

decode-Writes_example : decode (codes "%2Fa%62") ≡ codes "/ab"
decode-Writes_example = decode-Writes (codes "%2Fa%62") (codes "/ab") (
    escape {h = 2} {l = 15} (omega arith) (omega arith) (
      plain (λ e. omega (arith, e)) (λ e. omega (arith, e))
        (escape {h = 6} {l = 2} (omega arith) (omega arith) nothing)))

-- A colon passes for a digit.
decode_colon : decode (codes "%2:") ≡ 2 ∷ []
unfolding decode decode_from
decode_colon = refl
