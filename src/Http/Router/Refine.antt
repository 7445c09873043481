-- ===== src/Http/Router/Refine.antt =====
-- The router of http/http_router.hpp serves what its books say, for rules without parameters.
use cortono.Prelude.{
  Text, List, [], ◌∷◌, ℕ, ◌≡◌, refl, ap, ◌∙◌, Option, none, some, ◌==◌, avoids, true, All,
  if◌then◌else◌, Bool, false,
}
use cortono.Http.Trie.Search.{Outcome, ok, undefined, RoutingParams, no_params}
use cortono.Http.Trie.Finds.{find-rule_at}
use cortono.Http.Router.{
  DynamicRule, MethodRule, MethodRules, no_rules, add_rule, internal_add_rule_object, volidate,
  handle,
}
use cortono.Http.Router.Book.{Book, look_up, enter, enter_for, enter_all}
use cortono.Http.Router.Serves.{
  Serves, Both, Both-then, Both-map, index_of, add_rule-Serves, no_rules-Serves,
}

abbrev AllServe : MethodRules → (ℕ → Book) → Type 0
AllServe rs bs = (m : ℕ) → Serves (rs m) (bs m)

-- A rule without parameters.
abbrev pub IsPlain : DynamicRule → Type 0
IsPlain r = avoids 60 r.rule ≡ true

set-AllServe :
    (m : ℕ) (r : MethodRule) (b : Book) (rs : MethodRules) (bs : ℕ → Book)
    → AllServe rs bs
    → Serves r b
    → AllServe (λ k. if k == m then r else rs k) (λ k. if k == m then b else bs k)
set-AllServe m r b rs bs all one k = go (k == m)
  where
    go : (e : Bool) → Serves (if e then r else rs k) (if e then b else bs k)
    go true = one
    go false = all k

internal_add_rule_object-AllServe :
    (ms : List ℕ) (rule : Text) (h : ℕ) (rs : MethodRules) (bs : ℕ → Book)
    → avoids 60 rule ≡ true
    → AllServe rs bs
    → Both AllServe (internal_add_rule_object ms rule h rs) (enter_for ms rule h bs)
unfolding internal_add_rule_object
internal_add_rule_object-AllServe [] rule h rs bs a v = v
internal_add_rule_object-AllServe (m ∷ ms) rule h rs bs a v =
    Both-then Serves AllServe
      (λ r. internal_add_rule_object ms rule h (λ k. if k == m then r else rs k))
      (λ b. enter_for ms rule h (λ k. if k == m then b else bs k))
      (λ r b q.
        internal_add_rule_object-AllServe ms rule h (λ k. if k == m then r else rs k)
          (λ k. if k == m then b else bs k) a (set-AllServe m r b rs bs v q))
      (add_rule rule h (rs m)) (enter rule h (bs m)) (add_rule-Serves rule h (rs m) (bs m) (v m) a)

volidate-AllServe :
    (all : List DynamicRule) (rs : MethodRules) (bs : ℕ → Book)
    → All IsPlain all
    → AllServe rs bs
    → Both AllServe (volidate all rs) (enter_all all bs)
unfolding volidate
volidate-AllServe [] rs bs a v = v
volidate-AllServe (r ∷ all) rs bs (a, b) v =
    Both-then AllServe AllServe (volidate all) (enter_all all)
      (λ rs' bs' q. volidate-AllServe all rs' bs' b q)
      (internal_add_rule_object r.methods r.rule r.handler rs)
      (enter_for r.methods r.rule r.handler bs)
      (internal_add_rule_object-AllServe r.methods r.rule r.handler rs bs a v)

module _ (D : Type 0) (strtold : Text → Option (D × ℕ)) where
  -- The handler of the book, without parameters.
  abbrev pub served : Option (ℕ × ℕ) → Option (ℕ × RoutingParams D)
  served none = none
  served (some (k, h)) = some (h, no_params)

  abbrev called : Option ℕ → Outcome (Option (ℕ × RoutingParams D))
  called none = undefined
  called (some h) = ok (some (h, no_params))

  handle-Serves :
      (m c : ℕ) (s : Text) (rs : MethodRules) (b : Book)
      → Serves (rs m) b
      → handle D strtold m (c ∷ s) rs ≡ ok (served (look_up (c ∷ s) b))
  unfolding handle
  handle-Serves m c s rs b v = go (look_up (c ∷ s) b) refl
    where
      go :
          (o : Option (ℕ × ℕ))
          → look_up (c ∷ s) b ≡ o
          → handle D strtold m (c ∷ s) rs ≡ ok (served o)
      go none e = rw (
        handle,
        find-rule_at D strtold (rs m).trie c s (Serves.valid v),
        Serves.found v (c ∷ s) ∙ ap index_of e,
      )
      go (some (k, h)) e =
          rw
            (
              handle,
              find-rule_at D strtold (rs m).trie c s (Serves.valid v),
              Serves.found v (c ∷ s) ∙ ap index_of e,
            )
            (ap called (Serves.handlers v (c ∷ s) k h e))

  -- What the router serves for a method after `volidate`.
  abbrev pub Answers : MethodRules → (ℕ → Book) → Type 0
  Answers rs bs =
      (m c : ℕ) (s : Text) → handle D strtold m (c ∷ s) rs ≡ ok (served (look_up (c ∷ s) (bs m)))

  -- For every list of rules without parameters: volidate throws exactly if the books refuse a
  -- rule, which they do for a rule of the same text and method as an earlier one that is not the
  -- first of its method. Else handle calls, for every method and every address that is not empty,
  -- the handler of the last rule with this text, and finds none where there is none.
  pub volidate-Answers :
      (all : List DynamicRule)
      → All IsPlain all
      → Both Answers (volidate all (λ m. no_rules)) (enter_all all (λ m. []))
  volidate-Answers all a =
      Both-map AllServe Answers (λ rs bs v m c s. handle-Serves m c s rs (bs m) (v m))
        (volidate all (λ m. no_rules)) (enter_all all (λ m. []))
        (volidate-AllServe all (λ m. no_rules) (λ m. []) a (λ m. no_rules-Serves))
