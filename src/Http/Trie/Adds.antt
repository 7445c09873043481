-- ===== src/Http/Trie/Adds.antt =====
-- `add` of http/http_router.hpp for a rule without parameters.
use cortono.Prelude.{
  Text, [], ◌∷◌, ℕ, suc, ◌≡◌, ◌≢◌, refl, ap, sym, ◌∙◌, arith, Option, none, some, length, true,
  false, ◌==◌, avoids, Option-cases, Bool-cases, inl, inr, ==_iff, if_true, if_false,
}
use cortono.Http.Trie.{Trie, TrieNode, node_at, change, finish, char_step, add_from, add}
use cortono.Http.Trie.Nodes.{next, grown}
use cortono.Http.Trie.Places.{
  IsTrie, at, rule_at, at-range, rule_of, rule_there, rule_at-grown, at-grown, step,
}
use cortono.Http.Trie.Growth.{grown-IsTrie, finish-IsTrie, rule_at-finish_self, rule_at-finish_ne}

-- The text is read from its last character, and `p` is before it.
abbrev pub rev_onto : Text → Text → Text
rev_onto [] p = p
rev_onto (c ∷ s) p = rev_onto s (c ∷ p)

-- What a walk from `t` leaves: a trie of the same rules, where `p` leads to the node of the result.
pub record Leads (t : Trie) (p : Text) (r : Trie × ℕ) : Type 0 where
  pub valid : IsTrie r.0
  pub place : at p r.0 ≡ some r.1
  pub rules : (q : Text) → rule_at q r.0 ≡ rule_at q t

new_place :
    (c i : ℕ) (p : Text) (t : Trie) (v : IsTrie t) (h : at p t ≡ some i)
    → next c i t ≡ none
    → at (c ∷ p) (grown c i t) ≡ some (length t)
new_place c i p t v h e = elim (at-grown t v c i p h e (c ∷ p)) [
  | inl (ne, f) ↦ elim (ne refl) [ ]
  | inr (g, f) ↦ f
]

avoids-uncons :
    (c : ℕ) (s : Text) → avoids 60 (c ∷ s) ≡ true → ((c == 60) ≡ false) × (avoids 60 s ≡ true)
avoids-uncons c s h = ground arith

char_step-Leads :
    (c i : ℕ) (p : Text) (t : Trie) → IsTrie t → at p t ≡ some i → Leads t (c ∷ p) (char_step c i t)
unfolding char_step
char_step-Leads c i p t v h = elim (Option-cases (next c i t)) [
  | inl e ↦
      rw (char_step, e)
        (record {
          valid = grown-IsTrie t v c i (at-range t v p i h) e;
          place = new_place c i p t v h e;
          rules = rule_at-grown t v c i p h e;
        })
  | inr (j, e) ↦
      rw (char_step, e) (record { valid = v; place = ap (step c t) h ∙ e; rules = λ q. refl })
]

add_from-Leads :
    (rule : Text) (i : ℕ) (p : Text) (t : Trie)
    → IsTrie t
    → at p t ≡ some i
    → avoids 60 rule ≡ true
    → Leads t (rev_onto rule p) (add_from rule 0 i t)
unfolding add_from
add_from-Leads [] i p t v h a = record { valid = v; place = h; rules = λ q. refl }
add_from-Leads (c ∷ s) i p t v h a =
    let (n, b) = avoids-uncons c s a in
    let l = char_step-Leads c i p t v h in
    let m = add_from-Leads s (char_step c i t).1 (c ∷ p) (char_step c i t).0 l.valid l.place b in
    rw (add_from, n)
      (record { valid = m.valid; place = m.place; rules = λ q. m.rules q ∙ l.rules q })

-- What `add` does to the rules of the other texts.
pub record Added (rule : Text) (k : ℕ) (t t' : Trie) : Type 0 where
  pub valid : IsTrie t'
  pub this : rule_at (rev_onto rule []) t' ≡ some k
  pub others : (q : Text) → q ≢ rev_onto rule [] → rule_at q t' ≡ rule_at q t

-- The number of a rule, 0 where there is none.
abbrev pub number_of : Option ℕ → ℕ
number_of none = 0
number_of (some k) = k

number_of-rule_of :
    (n : TrieNode) → (n.done ≡ false → n.rule_index ≡ 0) → n.rule_index ≡ number_of (rule_of n)
number_of-rule_of n h = elim (Bool-cases n.done) [ inl e ↦ rw e refl | inr e ↦ rw e (h e) ]

module _ (rule : Text) (k : ℕ) (t : Trie) (v : IsTrie t) (a : avoids 60 rule ≡ true) where
  walked : Leads t (rev_onto rule []) (add_from rule 0 0 t)
  walked = add_from-Leads rule 0 [] t v refl a

  abbrev there : Trie
  there = (add_from rule 0 0 t).0

  abbrev last : ℕ
  last = (add_from rule 0 0 t).1

  index_there : (node_at last there).rule_index ≡ number_of (rule_at (rev_onto rule []) t)
  index_there =
      number_of-rule_of (node_at last there) (IsTrie.unset (Leads.valid walked) last)
      ∙ ap number_of
          (sym (ap (rule_there there) (Leads.place walked)) ∙ Leads.rules walked (rev_onto rule []))

  -- The exception is thrown exactly if the rule has a number other than 0.
  pub add-taken : (m : ℕ) → rule_at (rev_onto rule []) t ≡ some (suc m) → add rule k t ≡ none
  unfolding add
  add-taken m h =
      if_false ((node_at last there).rule_index == 0) (some (change last (finish k) there)) none
        (ground (arith, index_there ∙ ap number_of h))

  pub add-free :
      number_of (rule_at (rev_onto rule []) t) ≡ 0
      → (t' : Trie) × (add rule k t ≡ some t') × Added rule k t t'
  unfolding add
  add-free h =
      let inside =
        at-range there (Leads.valid walked) (rev_onto rule []) last (Leads.place walked) in
      (
        change last (finish k) there,
        if_true ((node_at last there).rule_index == 0) (some (change last (finish k) there)) none
            ((==_iff (node_at last there).rule_index 0).1 (index_there ∙ h)),
        record {
          valid = finish-IsTrie k last there (Leads.valid walked) inside;
          this =
              rule_at-finish_self k last there (Leads.valid walked) inside (rev_onto rule [])
                (Leads.place walked);
          others = λ q ne.
              rule_at-finish_ne k last there (Leads.valid walked) inside (rev_onto rule []) q
                (Leads.place walked) ne
              ∙ Leads.rules walked q;
        },
      )
