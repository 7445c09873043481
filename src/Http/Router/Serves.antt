-- ===== src/Http/Router/Serves.antt =====
-- One method of the router of http/http_router.hpp and its book.
use cortono.Prelude.{
  Text, List, [], ◌∷◌, ◌++◌, ℕ, zero, suc, ◌≡◌, refl, ap, sym, ◌∙◌, arith, Option, none, some,
  length, true, text_eq, text_eq→eq, text_eq_refl, avoids, get_elem?, get_elem?-append_left,
  length-append, append-nil, Bool-cases, inl, inr, if_true, if_false, lt-length_of_get_elem?,
}
use cortono.Http.Trie.{Trie}
use cortono.Http.Trie.Places.{IsTrie, rule_at, some-inj, none-some}
use cortono.Http.Trie.Growth.{true-false, created-IsTrie, created-rule_at}
use cortono.Http.Trie.Adds.{rev_onto, Added, add-taken, add-free, number_of}
use cortono.Http.Router.{MethodRule, no_rules, add_rule}
use cortono.Http.Router.Book.{Book, look_up, enter, entered}

rev_onto_twice : (s p q : Text) → rev_onto (rev_onto s p) q ≡ rev_onto p (s ++ q)
rev_onto_twice [] p q = refl
rev_onto_twice (c ∷ s) p q = rev_onto_twice s (c ∷ p) q

rev_onto-inj : (s u : Text) → rev_onto s [] ≡ rev_onto u [] → s ≡ u
rev_onto-inj s u h =
    sym (append-nil s)
    ∙ sym (rev_onto_twice s [] [])
    ∙ ap (λ t. rev_onto t []) h
    ∙ rev_onto_twice u [] []
    ∙ append-nil u

-- Where both succeed, the results are related; neither fails alone.
abbrev pub Both : {A B : Type 0} → (A → B → Type 0) → Option A → Option B → Type 0
Both P none none = Unit
Both P (some a) (some b) = P a b
Both P none (some b) = ⊥
Both P (some a) none = ⊥

pub Both-then :
    {A B C E : Type 0} (P : A → B → Type 0) (Q : C → E → Type 0) (f : A → Option C)
    (g : B → Option E)
    → ((a : A) (b : B) → P a b → Both Q (f a) (g b))
    → (o : Option A) (p : Option B) → Both P o p
    → Both Q (elim o [ some a ↦ f a | none ↦ none ]) (elim p [ some b ↦ g b | none ↦ none ])
Both-then P Q f g h none none q = tt
Both-then P Q f g h (some a) (some b) q = h a b q
Both-then P Q f g h none (some b) q = elim q [ ]
Both-then P Q f g h (some a) none q = elim q [ ]

pub Both-map :
    {A B : Type 0} (P Q : A → B → Type 0)
    → ((a : A) (b : B) → P a b → Q a b)
    → (o : Option A) (p : Option B) → Both P o p
    → Both Q o p
Both-map P Q f none none q = tt
Both-map P Q f (some a) (some b) q = f a b q
Both-map P Q f none (some b) q = elim q [ ]
Both-map P Q f (some a) none q = elim q [ ]

abbrev pub index_of : Option (ℕ × ℕ) → Option ℕ
index_of none = none
index_of (some (k, h)) = some k

pub record Serves (r : MethodRule) (b : Book) : Type 0 where
  pub valid : IsTrie r.trie
  pub count : length r.rules ≡ length b
  pub found : (url : Text) → rule_at (rev_onto url []) r.trie ≡ index_of (look_up url b)
  pub handlers : (url : Text) (k h : ℕ) → look_up url b ≡ some (k, h) → get_elem? r.rules k ≡ some h

get_elem?-length : (xs : List ℕ) (x : ℕ) → get_elem? (xs ++ x ∷ []) (length xs) ≡ some x
get_elem?-length [] x = refl
get_elem?-length (y ∷ xs) x = get_elem?-length xs x

module _ (rule : Text) (h : ℕ) (r : MethodRule) (b : Book) (v : Serves r b)
    (a : avoids 60 rule ≡ true) where
  module _ (t : Trie) (added : Added rule (length r.rules) r.trie t) where
    found-entered :
        (url : Text) → rule_at (rev_onto url []) t ≡ index_of (look_up url ((rule, h) ∷ b))
    found-entered url = elim (Bool-cases (text_eq url rule)) [
      | inl e ↦ rw e (
          ap (λ u. rule_at (rev_onto u []) t) (text_eq→eq url rule e)
          ∙ Added.this added
          ∙ ap some (Serves.count v))
      | inr e ↦ rw e (
          Added.others added (rev_onto url []) (λ f.
            true-false (sym (text_eq_refl url) ∙ ap (text_eq url) (rev_onto-inj url rule f) ∙ e))
          ∙ Serves.found v url)
    ]

    handlers-entered :
        (url : Text) (k g : ℕ)
        → look_up url ((rule, h) ∷ b) ≡ some (k, g)
        → get_elem? (r.rules ++ h ∷ []) k ≡ some g
    handlers-entered url k g e = elim (Bool-cases (text_eq url rule)) [
      | inl f ↦
          let same : (length b, h) ≡ (k, g) =
            some-inj
              (sym (if_true (text_eq url rule) (some (length b, h)) (look_up url b) f) ∙ e) in
          ap (get_elem? (r.rules ++ h ∷ [])) (sym (Serves.count v ∙ ap (λ x. x.0) same))
          ∙ get_elem?-length r.rules h
          ∙ ap (λ x. some (x.1)) same
      | inr f ↦
          let old =
            Serves.handlers v url k g
              (sym (if_false (text_eq url rule) (some (length b, h)) (look_up url b) f) ∙ e) in
          get_elem?-append_left r.rules (h ∷ []) k (lt-length_of_get_elem? r.rules k old) ∙ old
    ]

    entered-Serves : Serves (record { rules = r.rules ++ h ∷ []; trie = t }) ((rule, h) ∷ b)
    entered-Serves = record {
      valid = Added.valid added;
      count = omega (arith, length-append r.rules (h ∷ []), Serves.count v);
      found = found-entered;
      handlers = handlers-entered;
    }

  free :
      number_of (rule_at (rev_onto rule []) r.trie) ≡ 0
      → Both Serves (add_rule rule h r) (some ((rule, h) ∷ b))
  unfolding add_rule
  free e =
      let (t, f, added) = add-free rule (length r.rules) r.trie (Serves.valid v) a e in
      rw (add_rule, f) (entered-Serves t added)

  -- A rule is refused exactly if the book refuses it.
  pub add_rule-Serves : Both Serves (add_rule rule h r) (enter rule h b)
  unfolding add_rule
  add_rule-Serves = go (look_up rule b) refl
    where
      go :
          (o : Option (ℕ × ℕ))
          → look_up rule b ≡ o
          → Both Serves (add_rule rule h r) (entered rule h b o)
      go none e = free (ap number_of (Serves.found v rule) ∙ ap (λ o. number_of (index_of o)) e)
      go (some (zero, g)) e =
          free (ap number_of (Serves.found v rule) ∙ ap (λ o. number_of (index_of o)) e)
      go (some (suc k, g)) e =
          rw
            (
              add_rule,
              add-taken rule (length r.rules) r.trie (Serves.valid v) a k
                  (Serves.found v rule ∙ ap index_of e),
            )
            tt

pub no_rules-Serves : Serves no_rules []
no_rules-Serves = record {
  valid = created-IsTrie;
  count = refl;
  found = λ url. created-rule_at (rev_onto url []);
  handlers = λ url k h e. elim (none-some e) [ ];
}
