-- ===== src/Chat/Store/Laws.antt =====
-- Each conversation has an array of its own, and an operation on one leaves the others as they are.
use cortono.Prelude.{
  Text, List, [], ◌∷◌, ◌++◌, ℕ, zero, suc, ◌<◌, ◌≡◌, ◌≢◌, ◌⊎◌, refl, sym, ap, ◌∙◌, none, some,
  arith, if◌then◌else◌, text_eq, text_eq_refl, text_eq→eq, length, length-append, get_last?,
  Bool-cases, Option-cases, inl, inr,
}
use cortono.Chat.Defs.{Message}
use cortono.Chat.Store.{
  Store, lookup, array_at, push_at, push, ensure, history, text_of, get_last_msg,
}

pub record IsValid (s : Store) : Type 0 where
  pub bounded : (id : Text) (r : ℕ) → lookup id s.msg ≡ some r → r < length s.arrays
  pub distinct : (i j : Text) (r : ℕ) → lookup i s.msg ≡ some r → lookup j s.msg ≡ some r → i ≡ j

length-push_at :
    (arrays : List (List Message)) (r : ℕ) (m : Message)
    → length (push_at arrays r m) ≡ length arrays
length-push_at [] r m = refl
length-push_at (a ∷ arrays) zero m = refl
length-push_at (a ∷ arrays) (suc r) m = ap suc (length-push_at arrays r m)

array_at-push_at_self :
    (arrays : List (List Message)) (r : ℕ) (m : Message)
    → r < length arrays
    → array_at (push_at arrays r m) r ≡ array_at arrays r ++ m ∷ []
array_at-push_at_self [] r m h = elim h [ ]
array_at-push_at_self (a ∷ arrays) zero m h = refl
array_at-push_at_self (a ∷ arrays) (suc r) m h = array_at-push_at_self arrays r m (omega arith)

array_at-push_at_ne :
    (arrays : List (List Message)) (r q : ℕ) (m : Message)
    → q ≢ r
    → array_at (push_at arrays r m) q ≡ array_at arrays q
array_at-push_at_ne [] r q m ne = refl
array_at-push_at_ne (a ∷ arrays) zero zero m ne = absurd (ne refl)
array_at-push_at_ne (a ∷ arrays) zero (suc q) m ne = refl
array_at-push_at_ne (a ∷ arrays) (suc r) zero m ne = refl
array_at-push_at_ne (a ∷ arrays) (suc r) (suc q) m ne =
    array_at-push_at_ne arrays r q m (λ e. ne (ap suc e))

array_at-append :
    (arrays : List (List Message)) (r : ℕ) → array_at (arrays ++ [] ∷ []) r ≡ array_at arrays r
array_at-append [] zero = refl
array_at-append [] (suc r) = refl
array_at-append (a ∷ arrays) zero = refl
array_at-append (a ∷ arrays) (suc r) = array_at-append arrays r

array_at_beyond : (arrays : List (List Message)) → array_at arrays (length arrays) ≡ []
array_at_beyond [] = refl
array_at_beyond (a ∷ arrays) = array_at_beyond arrays

lookup-append :
    (id : Text) (r : ℕ) (j : Text) (m : List (Text × ℕ))
    → lookup j (m ++ (id, r) ∷ [])
      ≡ elim (lookup j m) [ none ↦ if text_eq id j then some r else none | some q ↦ some q ]
lookup-append id r j [] = refl
lookup-append id r j ((i, q) ∷ m) = ground (arith, lookup-append id r j m)

pub push-IsValid : {s : Store} (r : ℕ) (m : Message) → IsValid s → IsValid (push r m s)
unfolding push
push-IsValid {s} r m v = record {
  bounded = λ id q h. rw (length-push_at s.arrays r m) (v.bounded id q h);
  distinct = v.distinct;
}

-- Pushing onto a user's array appends to that user's conversation and to no other.
pub history-push :
    {s : Store} (id : Text) (r : ℕ) (m : Message)
    → IsValid s
    → lookup id s.msg ≡ some r
    → (j : Text)
    → history (push r m s) j ≡ (if text_eq id j then history s j ++ m ∷ [] else history s j)
unfolding push history
history-push {s} id r m v own j = elim (Bool-cases (text_eq id j)) [
  | inl same ↦
      let e : lookup j s.msg ≡ some r = rw (← text_eq→eq id j same) own in
      rw (same, e) (array_at-push_at_self s.arrays r m (v.bounded id r own))
  | inr other ↦ elim (Option-cases (lookup j s.msg)) [
    | inl e ↦ rw (other, e)
    | inr (q, e) ↦
        rw (other, e)
          (array_at-push_at_ne s.arrays r q m
            (λ p. cc (text_eq_refl j, other, v.distinct id j r own (rw p at e))))
  ]
]

module _ (id : Text) (s : Store) where
  -- The store with a new, empty conversation.
  abbrev begun : Store
  begun = record { arrays = s.arrays ++ [] ∷ []; msg = s.msg ++ (id, length s.arrays) ∷ [] }

  ensure_old : (r : ℕ) → lookup id s.msg ≡ some r → ensure id s ≡ (s, r)
  unfolding ensure
  ensure_old r e = rw (e, ensure)

  ensure_new : lookup id s.msg ≡ none → ensure id s ≡ (begun, length s.arrays)
  unfolding ensure
  ensure_new e = rw (e, ensure)

  lookup-begun : lookup id s.msg ≡ none → lookup id begun.msg ≡ some (length s.arrays)
  lookup-begun e = rw (lookup-append id (length s.arrays) id s.msg, e, text_eq_refl id)

  pub lookup-ensure : lookup id (ensure id s).0.msg ≡ some (ensure id s).1
  lookup-ensure = elim (Option-cases (lookup id s.msg)) [
    | inr (r, e) ↦ rw (ensure_old r e) e
    | inl e ↦ rw (ensure_new e) (lookup-begun e)
  ]

  history-begun : lookup id s.msg ≡ none → (j : Text) → history begun j ≡ history s j
  unfolding history
  history-begun e j = elim (Option-cases (lookup j s.msg)) [
    | inr (q, f) ↦ rw (lookup-append id (length s.arrays) j s.msg, f) (array_at-append s.arrays q)
    | inl f ↦ elim (Bool-cases (text_eq id j)) [
      | inl same ↦
          rw (lookup-append id (length s.arrays) j s.msg, f, same)
            (array_at-append s.arrays (length s.arrays) ∙ array_at_beyond s.arrays)
      | inr other ↦ rw (lookup-append id (length s.arrays) j s.msg, f, other)
    ]
  ]

  -- Making sure that a conversation is there changes no conversation.
  pub history-ensure : (j : Text) → history (ensure id s).0 j ≡ history s j
  history-ensure j = elim (Option-cases (lookup id s.msg)) [
    | inr (r, e) ↦ rw (ensure_old r e)
    | inl e ↦ rw (ensure_new e) (history-begun e j)
  ]

  begun-bounded :
      IsValid s → (j : Text) (q : ℕ) → lookup j begun.msg ≡ some q → q < length begun.arrays
  begun-bounded v j q h = elim (Option-cases (lookup j s.msg)) [
    | inr (p, f) ↦
        let same : p ≡ q = ground (arith, lookup-append id (length s.arrays) j s.msg) in
        omega (arith, length-append s.arrays ([] ∷ []), v.bounded j p f)
    | inl f ↦
        let same : length s.arrays ≡ q =
          ground (arith, lookup-append id (length s.arrays) j s.msg) in
        omega (arith, length-append s.arrays ([] ∷ []))
  ]

  -- An id's array in the new store is its old one, or the new one, which is the id's own.
  begun-cases :
      (j : Text) (q : ℕ)
      → lookup j begun.msg ≡ some q
      → (lookup j s.msg ≡ some q) ⊎ ((id ≡ j) × (q ≡ length s.arrays))
  begun-cases j q h = elim (Option-cases (lookup j s.msg)) [
    | inr (p, f) ↦ inl (ground (arith, lookup-append id (length s.arrays) j s.msg))
    | inl f ↦ elim (Bool-cases (text_eq id j)) [
      | inl same ↦
          inr (text_eq→eq id j same, ground (arith, lookup-append id (length s.arrays) j s.msg))
      | inr other ↦ absurd (ground (arith, lookup-append id (length s.arrays) j s.msg))
    ]
  ]

  begun-distinct :
      IsValid s
      → (i j : Text) (q : ℕ) → lookup i begun.msg ≡ some q
      → lookup j begun.msg ≡ some q
      → i ≡ j
  begun-distinct v i j q h k = elim (begun-cases i q h) [
    | inl old ↦ elim (begun-cases j q k) [
      | inl old' ↦ v.distinct i j q old old'
      | inr (same, new) ↦ absurd (omega (arith, v.bounded i q old))
    ]
    | inr (same, new) ↦ elim (begun-cases j q k) [
      | inl old' ↦ absurd (omega (arith, v.bounded j q old'))
      | inr (same', new') ↦ sym same ∙ same'
    ]
  ]

  pub ensure-IsValid : IsValid s → IsValid (ensure id s).0
  ensure-IsValid v = elim (Option-cases (lookup id s.msg)) [
    | inr (r, e) ↦ rw (ensure_old r e) v
    | inl e ↦ rw (ensure_new e) (record { bounded = begun-bounded v; distinct = begun-distinct v })
  ]

-- What is shown below a user's name is the end of the user's conversation.
pub get_last_msg-history :
    (s : Store) (id : Text) → get_last_msg s id ≡ text_of (get_last? (history s id))
unfolding get_last_msg history
get_last_msg-history s id = elim (Option-cases (lookup id s.msg)) [
  | inl e ↦ rw (e, get_last_msg)
  | inr (r, e) ↦ rw (e, get_last_msg)
]
