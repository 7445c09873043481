-- ===== src/Http/Trie/Finds.antt =====
-- `find` of http/http_router.hpp in a trie without parameters: the rule to which the address leads.
use cortono.Prelude.{
  Text, List, [], ◌∷◌, ℕ, zero, suc, ◌+◌, ◌≤◌, ◌≡◌, refl, ap, sym, ◌∙◌, arith, Option, none, some,
  length, ◌==◌, Bool-cases, inl, inr, ==_iff, if_true, if_false,
}
use cortono.Http.Trie.{Trie, TrieNode, ParamType, int, uint, double, string, path, node_at, child}
use cortono.Http.Trie.Nodes.{next}
use cortono.Http.Trie.Places.{IsTrie, Distinct, at, rule_at, rule_there, at-range, step, none-some}
use cortono.Http.Trie.Adds.{rev_onto}
use cortono.Http.Trie.Search.{
  Outcome, ok, RoutingParams, no_params, Found, find_int, find_uint, find_double, find_string,
  find_path, find_children, find_below, find_at, find,
}

-- What the loop over the children answers.
abbrev over : Option ℕ → Option ℕ → (ℕ → Option ℕ) → Option ℕ
over none r found = r
over (some j) r found = found j

at-rev_onto : (s p : Text) (t : Trie) → at p t ≡ none → at (rev_onto s p) t ≡ none
at-rev_onto [] p t h = h
at-rev_onto (c ∷ s) p t h = at-rev_onto s (c ∷ p) t (ap (step c t) h)

over-rule_at :
    (t : Trie) (c : ℕ) (s p : Text) (i : ℕ)
    → at p t ≡ some i
    → (o : Option ℕ) → next c i t ≡ o
    → over o none (λ j. rule_at (rev_onto s (c ∷ p)) t) ≡ rule_at (rev_onto s (c ∷ p)) t
over-rule_at t c s p i h (some j) e = refl
over-rule_at t c s p i h none e =
    sym (ap (rule_there t) (at-rev_onto s (c ∷ p) t (ap (step c t) h ∙ e)))

module _ (D : Type 0) (strtold : Text → Option (D × ℕ)) where
  -- An answer without parameters.
  abbrev pub answer : Option ℕ → Found D strtold
  answer r = record { rule_index = r; match_params = no_params; params = no_params }

  module _ (search : Text → ℕ → RoutingParams D → Outcome (Found D strtold)) where
    pub find_int-plain :
        (n : TrieNode) (s : Text) (f : Found D strtold)
        → n.param_children int ≡ 0
        → find_int D strtold search n s f ≡ ok f
    unfolding find_int
    find_int-plain n s f h = rw (find_int, h)

    pub find_uint-plain :
        (n : TrieNode) (s : Text) (f : Found D strtold)
        → n.param_children uint ≡ 0
        → find_uint D strtold search n s f ≡ ok f
    unfolding find_uint
    find_uint-plain n s f h = rw (find_uint, h)

    pub find_double-plain :
        (n : TrieNode) (s : Text) (f : Found D strtold)
        → n.param_children double ≡ 0
        → find_double D strtold search n s f ≡ ok f
    unfolding find_double
    find_double-plain n s f h = rw (find_double, h)

    pub find_string-plain :
        (n : TrieNode) (s : Text) (f : Found D strtold)
        → n.param_children string ≡ 0
        → find_string D strtold search n s f ≡ ok f
    unfolding find_string
    find_string-plain n s f h = rw (find_string, h)

    pub find_path-plain :
        (n : TrieNode) (s : Text) (f : Found D strtold)
        → n.param_children path ≡ 0
        → find_path D strtold search n s f ≡ ok f
    unfolding find_path
    find_path-plain n s f h = rw (find_path, h)

    -- A node without parameters passes the five blocks.
    find_below-plain :
        (n : TrieNode) (c : ℕ) (s : Text)
        → ((p : ParamType) → n.param_children p ≡ 0)
        → find_below D strtold search n (c ∷ s) no_params
          ≡ find_children D strtold search n.children (c ∷ s) (answer none)
    unfolding find_below
    find_below-plain n c s h = rw (
      find_int-plain n (c ∷ s) (answer none) (h int),
      find_uint-plain n (c ∷ s) (answer none) (h uint),
      find_double-plain n (c ∷ s) (answer none) (h double),
      find_string-plain n (c ∷ s) (answer none) (h string),
      find_path-plain n (c ∷ s) (answer none) (h path),
    )

    -- At most one turn of the loop finds a child.
    find_children-Distinct :
        (m : List (ℕ × ℕ)) (c : ℕ) (s : Text) (r : Option ℕ) (found : ℕ → Option ℕ)
        → Distinct m
        → ((j : ℕ) → child c m ≡ some j → search s j no_params ≡ ok (answer (found j)))
        → find_children D strtold search m (c ∷ s) (answer r)
          ≡ ok (answer (over (child c m) r found))
    unfolding find_children child
    find_children-Distinct [] c s r found d h = refl
    find_children-Distinct ((e, j) ∷ m) c s r found (free, d) h = elim (Bool-cases (c == e)) [
      | inl a ↦
          let same : c ≡ e = (==_iff c e).0 a in
          let nothing : child c m ≡ none = ap (λ k. child k m) same ∙ free in
          rw (a, h j (if_true (c == e) (some j) (child c m) a))
            (find_children-Distinct m c s (found j) found d
                (λ l g. elim (none-some (sym nothing ∙ g)) [ ])
              ∙ ap (λ o. ok (answer (over o (found j) found))) nothing)
      | inr a ↦ rw a (
          find_children-Distinct m c s r found d
            (λ l g. h l (if_false (c == e) (some j) (child c m) a ∙ g)))
    ]

  -- From the node where `p` leads, with fuel for the nodes behind it.
  find_at-rule_at :
      (fuel : ℕ) (t : Trie) (s p : Text) (i : ℕ)
      → IsTrie t
      → at p t ≡ some i
      → length t ≤ fuel + i
      → find_at D strtold fuel t s i no_params ≡ ok (answer (rule_at (rev_onto s p) t))
  unfolding find_at
  find_at-rule_at zero t s p i v h le = absurd (omega (arith, at-range t v p i h))
  find_at-rule_at (suc fuel) t [] p i v h le = ap (λ o. ok (answer (rule_there t o))) (sym h)
  find_at-rule_at (suc fuel) t (c ∷ s) p i v h le =
      find_below-plain (find_at D strtold fuel t) (node_at i t) c s (IsTrie.plain v i)
      ∙ find_children-Distinct (find_at D strtold fuel t) (node_at i t).children c s none
          (λ j. rule_at (rev_onto s (c ∷ p)) t) (IsTrie.distinct v i)
          (λ j g.
            find_at-rule_at fuel t s (c ∷ p) j v (ap (step c t) h ∙ g)
              (omega (arith, IsTrie.range v c i j g)))
      ∙ ap (λ r. ok (answer r)) (over-rule_at t c s p i h (child c (node_at i t).children) refl)

  -- In a trie without parameters `find` answers with the rule to which the address leads.
  pub find-rule_at :
      (t : Trie) (c : ℕ) (s : Text)
      → IsTrie t
      → find D strtold t (c ∷ s) ≡ ok (answer (rule_at (rev_onto (c ∷ s) []) t))
  unfolding find
  find-rule_at t c s v = find_at-rule_at (length t) t (c ∷ s) [] 0 v refl (omega arith)
