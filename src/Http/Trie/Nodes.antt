-- ===== src/Http/Trie/Nodes.antt =====
-- The nodes of a trie of http/http_router.hpp after a change of one and after a new one.
use cortono.Prelude.{
  [], ◌∷◌, ◌++◌, ℕ, zero, suc, ◌<◌, ◌≤◌, ◌≡◌, ◌≢◌, ◌⊎◌, inl, inr, refl, ap, ◌∙◌, arith, Option,
  none, some, length, length-append, ==_refl, ◌==◌, if_false,
}
use cortono.Http.Trie.{Trie, TrieNode, blank, node_at, change, child, add_child}

pub eq_or_ne : (a b : ℕ) → (a ≡ b) ⊎ (a ≢ b)
eq_or_ne a b = ground arith

-- The child of the node `i` for the character `c`.
abbrev pub next : ℕ → ℕ → Trie → Option ℕ
next c i t = child c (node_at i t).children

-- The trie with a new child of the node `i`.
abbrev pub grown : ℕ → ℕ → Trie → Trie
grown c i t = change i (add_child c (length t)) (t ++ blank ∷ [])

pub length-change : (i : ℕ) (f : TrieNode → TrieNode) (t : Trie) → length (change i f t) ≡ length t
unfolding change
length-change i f [] = refl
length-change zero f (n ∷ ns) = refl
length-change (suc i) f (n ∷ ns) = ap suc (length-change i f ns)

pub node_at-change_self :
    (i : ℕ) (f : TrieNode → TrieNode) (t : Trie)
    → i < length t
    → node_at i (change i f t) ≡ f (node_at i t)
unfolding change node_at
node_at-change_self i f [] h = absurd (omega arith)
node_at-change_self zero f (n ∷ ns) h = refl
node_at-change_self (suc i) f (n ∷ ns) h = node_at-change_self i f ns (omega arith)

pub node_at-change_ne :
    (i j : ℕ) (f : TrieNode → TrieNode) (t : Trie) → j ≢ i → node_at j (change i f t) ≡ node_at j t
unfolding change node_at
node_at-change_ne i j f [] h = refl
node_at-change_ne zero zero f (n ∷ ns) h = absurd (h refl)
node_at-change_ne zero (suc j) f (n ∷ ns) h = refl
node_at-change_ne (suc i) zero f (n ∷ ns) h = refl
node_at-change_ne (suc i) (suc j) f (n ∷ ns) h = node_at-change_ne i j f ns (λ e. h (ap suc e))

pub node_at-blank : (i : ℕ) (t : Trie) → node_at i (t ++ blank ∷ []) ≡ node_at i t
unfolding node_at
node_at-blank zero [] = refl
node_at-blank (suc i) [] = refl
node_at-blank zero (n ∷ ns) = refl
node_at-blank (suc i) (n ∷ ns) = node_at-blank i ns

pub node_at_past : (i : ℕ) (t : Trie) → length t ≤ i → node_at i t ≡ blank
unfolding node_at
node_at_past i [] h = refl
node_at_past zero (n ∷ ns) h = absurd (omega arith)
node_at_past (suc i) (n ∷ ns) h = node_at_past i ns (omega arith)

module _ (c i : ℕ) (t : Trie) (h : i < length t) where
  pub length-grown : length (grown c i t) ≡ suc (length t)
  length-grown =
      length-change i (add_child c (length t)) (t ++ blank ∷ [])
      ∙ omega (arith, length-append t (blank ∷ []))

  pub node_at-grown_self : node_at i (grown c i t) ≡ add_child c (length t) (node_at i t)
  node_at-grown_self =
      node_at-change_self i (add_child c (length t)) (t ++ blank ∷ [])
        (omega (arith, length-append t (blank ∷ [])))
      ∙ ap (add_child c (length t)) (node_at-blank i t)

  pub node_at-grown_ne : (k : ℕ) → k ≢ i → node_at k (grown c i t) ≡ node_at k t
  node_at-grown_ne k ne =
      node_at-change_ne i k (add_child c (length t)) (t ++ blank ∷ []) ne ∙ node_at-blank k t

  pub next-grown_self : next c i (grown c i t) ≡ some (length t)
  unfolding child
  next-grown_self = ap (λ n. child c (TrieNode.children n)) node_at-grown_self ∙ rw (==_refl c)

  pub next-grown_ne : (d k : ℕ) → (d ≢ c) ⊎ (k ≢ i) → next d k (grown c i t) ≡ next d k t
  unfolding child
  next-grown_ne d k (inr ne) = ap (λ n. child d (TrieNode.children n)) (node_at-grown_ne k ne)
  next-grown_ne d k (inl ne) = elim (eq_or_ne k i) [
    | inl e ↦ rw e (
        ap (λ n. child d (TrieNode.children n)) node_at-grown_self
        ∙ if_false (d == c) (some (length t)) (next d i t) (ground (arith, ne)))
    | inr e ↦ ap (λ n. child d (TrieNode.children n)) (node_at-grown_ne k e)
  ]

  -- A field that a new child does not change is as before.
  pub kept-grown :
      {A : Type 0} (field : TrieNode → A)
      → ((n : TrieNode) → field (add_child c (length t) n) ≡ field n)
      → (k : ℕ) → field (node_at k (grown c i t)) ≡ field (node_at k t)
  kept-grown field same k = elim (eq_or_ne k i) [
    | inl e ↦ rw e (ap field node_at-grown_self ∙ same (node_at i t))
    | inr e ↦ ap field (node_at-grown_ne k e)
  ]

  -- The new node has no children.
  pub next-grown_new : (d : ℕ) → next d (length t) (grown c i t) ≡ none
  unfolding child
  next-grown_new d =
      next-grown_ne d (length t) (inr (omega arith))
      ∙ ap (λ n. child d (TrieNode.children n)) (node_at_past (length t) t (omega arith))
