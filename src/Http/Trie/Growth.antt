-- ===== src/Http/Trie/Growth.antt =====
-- A trie of http/http_router.hpp with a new node, and with a rule that ends at a node, is a trie.
use cortono.Prelude.{
  Text, [], zero, suc, ◌∷◌, ℕ, ◌<◌, ◌≡◌, ◌⊎◌, ◌≢◌, inl, inr, refl, ap, sym, ◌∙◌, arith, Option,
  none, some, length, true, false,
}
use cortono.Http.Trie.{Trie, TrieNode, node_at, child, change, finish, blank, created}
use cortono.Http.Trie.Nodes.{
  next, grown, eq_or_ne, length-grown, next-grown_self, next-grown_ne, node_at-grown_self,
  node_at-grown_ne, kept-grown, length-change, node_at-change_self, node_at-change_ne,
}
use cortono.Http.Trie.Places.{
  IsTrie, Distinct, at, some-inj, none-some, at-inj, step, rule_of, rule_there, rule_at,
}

module _ (t : Trie) (v : IsTrie t) (c i : ℕ) (inside : i < length t)
    (free : next c i t ≡ none) where
  next-grown_cases :
      (d k j : ℕ)
      → next d k (grown c i t) ≡ some j
      → ((d ≡ c) × (k ≡ i) × (j ≡ length t)) ⊎ (next d k t ≡ some j)
  next-grown_cases d k j h = elim (eq_or_ne d c) [
    | inl a ↦ elim (eq_or_ne k i) [
      | inl b ↦ inl (a, b, some-inj (sym h ∙ rw (a, b) (next-grown_self c i t inside)))
      | inr b ↦ inr (sym (next-grown_ne c i t inside d k (inr b)) ∙ h)
    ]
    | inr a ↦ inr (sym (next-grown_ne c i t inside d k (inl a)) ∙ h)
  ]

  range : (d k j : ℕ) → next d k (grown c i t) ≡ some j → (k < j) × (j < length (grown c i t))
  range d k j h =
      let len = length-grown c i t inside in
      elim (next-grown_cases d k j h) [
        | inl (a, b, e) ↦ omega (arith, len)
        | inr e ↦ omega (arith, len, IsTrie.range v d k j e)
      ]

  unique :
      (c' d i' k j : ℕ)
      → next c' i' (grown c i t) ≡ some j
      → next d k (grown c i t) ≡ some j
      → (c' ≡ d) × (i' ≡ k)
  unique c' d i' k j h m = elim (next-grown_cases c' i' j h) [
    | inl (a, b, e) ↦ elim (next-grown_cases d k j m) [
      | inl (f, g, l) ↦ (a ∙ sym f, b ∙ sym g)
      | inr f ↦ absurd (omega (arith, IsTrie.range v d k j f, e))
    ]
    | inr e ↦ elim (next-grown_cases d k j m) [
      | inl (f, g, l) ↦ absurd (omega (arith, IsTrie.range v c' i' j e, l))
      | inr f ↦ IsTrie.unique v c' d i' k j e f
    ]
  ]

  distinct : (k : ℕ) → Distinct (node_at k (grown c i t)).children
  distinct k = elim (eq_or_ne k i) [
    | inl e ↦ rw (e, node_at-grown_self c i t inside) (free, IsTrie.distinct v i)
    | inr e ↦ rw (node_at-grown_ne c i t inside k e) (IsTrie.distinct v k)
  ]

  pub grown-IsTrie : IsTrie (grown c i t)
  grown-IsTrie = record {
    root = omega (arith, length-grown c i t inside);
    range = range;
    unique = unique;
    distinct = distinct;
    unset = λ k h.
        kept-grown c i t inside TrieNode.rule_index (λ n. refl) k
        ∙ IsTrie.unset v k (sym (kept-grown c i t inside TrieNode.done (λ n. refl) k) ∙ h);
    plain = λ k q.
        kept-grown c i t inside (λ n. TrieNode.param_children n q) (λ n. refl) k
        ∙ IsTrie.plain v k q;
  }

pub true-false : true ≡ false → ⊥
true-false h = grind arith

-- A rule with the number `r` ends at the node `i`.
module _ (r i : ℕ) (t : Trie) (v : IsTrie t) (inside : i < length t) where
  kept-finish :
      {A : Type 0} (field : TrieNode → A)
      → ((n : TrieNode) → field (finish r n) ≡ field n)
      → (k : ℕ) → field (node_at k (change i (finish r) t)) ≡ field (node_at k t)
  kept-finish field same k = elim (eq_or_ne k i) [
    | inl e ↦ rw e (ap field (node_at-change_self i (finish r) t inside) ∙ same (node_at i t))
    | inr e ↦ ap field (node_at-change_ne i k (finish r) t e)
  ]

  next-finish : (d k : ℕ) → next d k (change i (finish r) t) ≡ next d k t
  next-finish d = kept-finish (λ n. child d (TrieNode.children n)) (λ n. refl)

  pub at-finish : (q : Text) → at q (change i (finish r) t) ≡ at q t
  at-finish [] = refl
  at-finish (d ∷ q) = ap (step d (change i (finish r) t)) (at-finish q) ∙ next_there (at q t)
    where
      next_there : (o : Option ℕ) → step d (change i (finish r) t) o ≡ step d t o
      next_there none = refl
      next_there (some k) = next-finish d k

  unset :
      (k : ℕ)
      → (node_at k (change i (finish r) t)).done ≡ false
      → (node_at k (change i (finish r) t)).rule_index ≡ 0
  unset k h = elim (eq_or_ne k i) [
    | inl e ↦
        elim (true-false (
          sym (ap TrieNode.done (node_at-change_self i (finish r) t inside))
          ∙ ap (λ l. (node_at l (change i (finish r) t)).done) (sym e)
          ∙ h)) [ ]
    | inr e ↦
        ap TrieNode.rule_index (node_at-change_ne i k (finish r) t e)
        ∙ IsTrie.unset v k (sym (ap TrieNode.done (node_at-change_ne i k (finish r) t e)) ∙ h)
  ]

  pub finish-IsTrie : IsTrie (change i (finish r) t)
  finish-IsTrie = record {
    root = omega (arith, length-change i (finish r) t, IsTrie.root v);
    range = λ c k j h.
        let (a, b) = IsTrie.range v c k j (sym (next-finish c k) ∙ h) in
        (a, omega (arith, length-change i (finish r) t));
    unique = λ c d k l j h m.
        IsTrie.unique v c d k l j (sym (next-finish c k) ∙ h) (sym (next-finish d l) ∙ m);
    distinct = λ k. rw (kept-finish TrieNode.children (λ n. refl) k) (IsTrie.distinct v k);
    unset = unset;
    plain =
        λ k q. kept-finish (λ n. TrieNode.param_children n q) (λ n. refl) k ∙ IsTrie.plain v k q;
  }

  -- The text that leads there leads to this rule, and every other text to the rule of before.
  pub rule_at-finish_self :
      (p : Text) → at p t ≡ some i → rule_at p (change i (finish r) t) ≡ some r
  rule_at-finish_self p h =
      ap (rule_there (change i (finish r) t)) (at-finish p ∙ h)
      ∙ ap rule_of (node_at-change_self i (finish r) t inside)

  pub rule_at-finish_ne :
      (p q : Text) → at p t ≡ some i → q ≢ p → rule_at q (change i (finish r) t) ≡ rule_at q t
  rule_at-finish_ne p q h ne =
      ap (rule_there (change i (finish r) t)) (at-finish q) ∙ there (at q t) refl
    where
      there : (o : Option ℕ) → at q t ≡ o → rule_there (change i (finish r) t) o ≡ rule_there t o
      there none e = refl
      there (some k) e =
          ap rule_of
            (node_at-change_ne i k (finish r) t (λ f. ne (at-inj t v q p i (e ∙ ap some f) h)))

-- The first node of a trie is blank.
created-blank : (i : ℕ) → node_at i created ≡ blank
unfolding node_at
created-blank zero = refl
created-blank (suc i) = refl

created-next : (c i : ℕ) → next c i created ≡ none
unfolding child
created-next c i = ap (λ n. child c (TrieNode.children n)) (created-blank i)

pub created-IsTrie : IsTrie created
created-IsTrie = record {
  root = omega arith;
  range = λ c i j h. elim (none-some (sym (created-next c i) ∙ h)) [ ];
  unique = λ c d i k j h m. elim (none-some (sym (created-next c i) ∙ h)) [ ];
  distinct = λ i. rw (created-blank i) tt;
  unset = λ i h. ap TrieNode.rule_index (created-blank i);
  plain = λ i p. ap (λ n. TrieNode.param_children n p) (created-blank i);
}

pub created-rule_at : (p : Text) → rule_at p created ≡ none
created-rule_at p = nowhere (at p created)
  where
    nowhere : (o : Option ℕ) → rule_there created o ≡ none
    nowhere none = refl
    nowhere (some i) = ap rule_of (created-blank i)
