-- ===== src/Http/Trie/Places.antt =====
-- Where the texts lead in a trie of http/http_router.hpp. A text is read from its last character here,
-- so that its parent is its tail.
use cortono.Prelude.{
  Text, List, [], ◌∷◌, ℕ, ◌<◌, ◌≡◌, ◌≢◌, ◌⊎◌, inl, inr, refl, ap, ap₂, sym, ◌∙◌, arith, Option,
  none, some, length, Option-cases, false, if◌then◌else◌,
}
use cortono.Http.Trie.{Trie, TrieNode, ParamType, node_at, child}
use cortono.Http.Trie.Nodes.{
  next, grown, eq_or_ne, next-grown_self, next-grown_ne, next-grown_new, node_at_past, kept-grown,
}

-- No character leads to two children.
abbrev pub Distinct : List (ℕ × ℕ) → Type 0
Distinct [] = Unit
Distinct ((c, j) ∷ m) = (child c m ≡ none) × Distinct m

-- A tree, of rules without parameters.
pub record IsTrie (t : Trie) : Type 0 where
  pub root : 0 < length t
  pub range : (c i j : ℕ) → next c i t ≡ some j → (i < j) × (j < length t)
  pub unique : (c d i k j : ℕ) → next c i t ≡ some j → next d k t ≡ some j → (c ≡ d) × (i ≡ k)
  pub distinct : (i : ℕ) → Distinct (node_at i t).children
  pub unset : (i : ℕ) → (node_at i t).done ≡ false → (node_at i t).rule_index ≡ 0
  pub plain : (i : ℕ) (p : ParamType) → (node_at i t).param_children p ≡ 0

abbrev pub step : ℕ → Trie → Option ℕ → Option ℕ
step c t none = none
step c t (some i) = next c i t

abbrev pub at : Text → Trie → Option ℕ
at [] t = some 0
at (c ∷ p) t = step c t (at p t)

-- The rule that ends at a node.
abbrev pub rule_of : TrieNode → Option ℕ
rule_of n = if n.done then some n.rule_index else none

abbrev pub rule_there : Trie → Option ℕ → Option ℕ
rule_there t none = none
rule_there t (some i) = rule_of (node_at i t)

-- The rule that ends where the text leads.
abbrev pub rule_at : Text → Trie → Option ℕ
rule_at p t = rule_there t (at p t)

pub some-inj : {A : Type 0} {a b : A} → some a ≡ some b → a ≡ b
some-inj h = grind arith

pub none-some : {A : Type 0} {a : A} → none ≡ some a → ⊥
none-some h = grind arith

cons-inj : {d c : ℕ} {q p : Text} → d ∷ q ≡ c ∷ p → (d ≡ c) × (q ≡ p)
cons-inj h = grind arith

pub step-some :
    (c : ℕ) (t : Trie) (o : Option ℕ) (j : ℕ)
    → step c t o ≡ some j
    → (i : ℕ) × (o ≡ some i) × (next c i t ≡ some j)
step-some c t none j h = elim (none-some h) [ ]
step-some c t (some i) j h = (i, refl, h)

module _ (t : Trie) (v : IsTrie t) where
  pub at-range : (p : Text) (j : ℕ) → at p t ≡ some j → j < length t
  at-range [] j h = rw (← some-inj h) (IsTrie.root v)
  at-range (c ∷ p) j h = let (i, e, f) = step-some c t (at p t) j h in (IsTrie.range v c i j f).1

  not_root : (c : ℕ) (p : Text) → at (c ∷ p) t ≡ some 0 → ⊥
  not_root c p h =
      let (i, e, f) = step-some c t (at p t) 0 h in omega (arith, (IsTrie.range v c i 0 f).0)

  -- Two texts do not lead to one node.
  pub at-inj : (p q : Text) (j : ℕ) → at p t ≡ some j → at q t ≡ some j → p ≡ q
  at-inj [] [] j h k = refl
  at-inj [] (d ∷ q) j h k = elim (not_root d q (k ∙ sym h)) [ ]
  at-inj (c ∷ p) [] j h k = elim (not_root c p (h ∙ sym k)) [ ]
  at-inj (c ∷ p) (d ∷ q) j h k =
      let (i, e, f) = step-some c t (at p t) j h in
      let (l, g, m) = step-some d t (at q t) j k in
      let (a, b) = IsTrie.unique v c d i l j f m in
      ap₂ (◌∷◌) a (at-inj p q i e (g ∙ ap some (sym b)))

  -- A new child of the node to which `p` leads.
  module _ (c i : ℕ) (p : Text) (place : at p t ≡ some i) (free : next c i t ≡ none) where
    inside : i < length t
    inside = at-range p i place

    nothing : at (c ∷ p) t ≡ none
    nothing = ap (step c t) place ∙ free

    beyond :
        (q : Text) (d : ℕ)
        → q ≡ c ∷ p
        → at q (grown c i t) ≡ some (length t)
        → at (d ∷ q) (grown c i t) ≡ at (d ∷ q) t
    beyond q d e f =
        ap (step d (grown c i t)) f
        ∙ next-grown_new c i t inside d
        ∙ sym (ap (λ r. step d t (at r t)) e ∙ ap (step d t) nothing)

    -- Every other text leads where it led; the longer one leads to the new node.
    pub at-grown :
        (q : Text)
        → ((q ≢ c ∷ p) × (at q (grown c i t) ≡ at q t))
          ⊎ ((q ≡ c ∷ p) × (at q (grown c i t) ≡ some (length t)))
    at-grown [] = inl (λ e. omega (arith, ap length e), refl)
    at-grown (d ∷ q) = elim (at-grown q) [
      | inr (e, f) ↦ inl (λ g. omega (arith, ap length e, ap length (cons-inj g).1), beyond q d e f)
      | inl (ne, e) ↦ elim (Option-cases (at q t)) [
        | inl f ↦ inl (
          λ g. none-some (sym f ∙ ap (λ r. at r t) (cons-inj g).1 ∙ place),
          ap (step d (grown c i t)) (e ∙ f) ∙ sym (ap (step d t) f),
        )
        | inr (k, f) ↦ elim (eq_or_ne d c) [
          | inl a ↦ elim (eq_or_ne k i) [
            | inl b ↦ inr (
              ap₂ (◌∷◌) a (at-inj q p i (f ∙ ap some b) place),
              ap (step d (grown c i t)) (e ∙ f) ∙ rw (a, b) (next-grown_self c i t inside),
            )
            | inr b ↦ inl (
              λ g. b (some-inj (sym f ∙ ap (λ r. at r t) (cons-inj g).1 ∙ place)),
              ap (step d (grown c i t)) (e ∙ f)
                  ∙ next-grown_ne c i t inside d k (inr b)
                  ∙ sym (ap (step d t) f),
            )
          ]
          | inr a ↦ inl (
            λ g. a (cons-inj g).0,
            ap (step d (grown c i t)) (e ∙ f)
                ∙ next-grown_ne c i t inside d k (inl a)
                ∙ sym (ap (step d t) f),
          )
        ]
      ]
    ]

    blank_there : rule_there t (at (c ∷ p) t) ≡ none
    blank_there = ap (rule_there t) nothing

    rule_there-grown : (o : Option ℕ) → rule_there (grown c i t) o ≡ rule_there t o
    rule_there-grown none = refl
    rule_there-grown (some k) = kept-grown c i t inside rule_of (λ n. refl) k

    -- No text leads to another rule.
    pub rule_at-grown : (q : Text) → rule_at q (grown c i t) ≡ rule_at q t
    rule_at-grown q = elim (at-grown q) [
      | inl (ne, e) ↦ ap (rule_there (grown c i t)) e ∙ rule_there-grown (at q t)
      | inr (e, f) ↦
          ap (rule_there (grown c i t)) f
          ∙ rule_there-grown (some (length t))
          ∙ ap rule_of (node_at_past (length t) t (omega arith))
          ∙ sym (ap (λ r. rule_at r t) e ∙ blank_there)
    ]
